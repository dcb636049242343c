-- ===== src/Lru/Invariant.antt =====
-- The methods of include/lru_cache.h keep the node list and the map in agreement.
use mvisor_x.Base.{
  ℕ, ◌+◌, ◌≡◌, ◌≢◌, Bool, List, ◌∷◌, none, some, arith, inl, inr, Option-cases, ℕ_discrete,
}
use mvisor_x.StdMap.{
  find, insert, erase, IsOrdered, find-erase_ne, find-erase_self, insert-IsOrdered, erase-IsOrdered,
}
use mvisor_x.Lru.{Node, LruCache, new_cache, erase_node, get, remove, push_entry}
use mvisor_x.Lru.Nodes.{
  InNodes, HasDistinctIds, IdsBelow, NodeKeysNe, erase_node-InNodes, erase_node-HasDistinctIds,
  erase_node-IdsBelow, InNodes-unique, IdNe-of_below, IdsBelow-suc,
}
use mvisor_x.Lru.View.{
  iterator, AreLinked, IsValid, AreLinked-other, NodeKeysNe-of_none, erase_node-AreLinked,
}
use mvisor_x.Lru.Laws.{
  get-hit, remove-hit, get-miss, remove-miss, in_nodes, keys_ne, insert_other, insert_self,
}

module _ {V : Type 0} where
  -- nodes that agree with the map but for one key
  record AreOthers (k : ℕ) (c : LruCache V) (ns : List Node) : Type 0 where
    keys_ne : NodeKeysNe k ns
    linked : AreLinked c.pairs ns
    backed : (j i : ℕ) → k ≢ j → iterator (find j c.pairs) ≡ some i → InNodes i j ns
    distinct : HasDistinctIds ns
    below : IdsBelow c.next ns

  AreOthers-miss :
      (k : ℕ) (c : LruCache V) → IsValid c → find k c.pairs ≡ none → AreOthers k c c.lru
  AreOthers-miss k c v e = record {
    keys_ne = NodeKeysNe-of_none k c.pairs c.lru e v.linked;
    linked = v.linked;
    backed = λ j i ne h. v.backed j i h;
    distinct = v.distinct;
    below = v.below;
  }

  AreOthers-hit :
      (k id : ℕ) (w : V) (c : LruCache V)
      → IsValid c
      → find k c.pairs ≡ some (id, w)
      → AreOthers k c (erase_node id c.lru)
  AreOthers-hit k id w c v e = record {
    keys_ne = keys_ne k id w c v e;
    linked = erase_node-AreLinked id c.pairs c.lru v.linked;
    backed = λ j i ne h.
        erase_node-InNodes id i j c.lru
          (λ same. ne (
            InNodes-unique id k j c.lru v.distinct (in_nodes k id w c v e)
              (rw same at (v.backed j i h))))
          (v.backed j i h);
    distinct = erase_node-HasDistinctIds id c.lru v.distinct;
    below = erase_node-IdsBelow id c.next c.lru v.below;
  }

  -- a new node of the key in front of the others
  front-IsValid :
      (k : ℕ) (w : V) (c : LruCache V) (ns : List Node)
      → IsOrdered 0 c.pairs
      → AreOthers k c ns
      → IsValid (record c {
        lru = record { id = c.next; key = k } ∷ ns;
        pairs = insert k (c.next, w) c.pairs;
        next = c.next + 1;
      })
  front-IsValid k w c ns o a = record {
    ordered = insert-IsOrdered k (c.next, w) 0 c.pairs (omega arith) o;
    linked = (
      rw (insert_self k (c.next, w) c.pairs),
      AreLinked-other k c.pairs (insert k (c.next, w) c.pairs) (insert_other k (c.next, w) c.pairs)
          ns a.keys_ne a.linked,
    );
    backed = λ j i h. elim (ℕ_discrete k j) [
      | yes same ↦
          let h' : iterator {A = V} (some (c.next, w)) ≡ some i =
            rw (← same, insert_self k (c.next, w) c.pairs) at h in
          inl (ground arith, same)
      | no ne ↦ inr (a.backed j i ne (rw (insert_other k (c.next, w) c.pairs j ne) at h))
    ];
    distinct = (IdNe-of_below c.next ns a.below, a.distinct);
    below = (omega arith, IdsBelow-suc c.next ns a.below);
  }

  -- without the key
  without-IsValid :
      (k : ℕ) (c : LruCache V) (ns : List Node)
      → IsOrdered 0 c.pairs
      → AreOthers k c ns
      → IsValid (record c { lru = ns; pairs = erase k c.pairs })
  without-IsValid k c ns o a = record {
    ordered = erase-IsOrdered k 0 c.pairs o;
    linked =
        AreLinked-other k c.pairs (erase k c.pairs) (λ j ne. find-erase_ne k j c.pairs ne) ns
          a.keys_ne a.linked;
    backed = λ j i h. elim (ℕ_discrete k j) [
      | yes same ↦
          let h' : iterator {A = V} none ≡ some i =
            rw (← same, find-erase_self k 0 c.pairs o) at h in
          absurd (cc)
      | no ne ↦ a.backed j i ne (rw (find-erase_ne k j c.pairs ne) at h)
    ];
    distinct = a.distinct;
    below = a.below;
  }

  -- `Get` keeps a cache valid, its map and its list holding the same keys, each under an iterator
  -- of its own.
  pub get-IsValid : (k : ℕ) (c : LruCache V) → IsValid c → IsValid (get k c).0
  get-IsValid k c v = elim (Option-cases (find k c.pairs)) [
    | inl e ↦ rw (get-miss k c e) v
    | inr ((id, w), e) ↦
        rw (get-hit k id w c e)
          (front-IsValid k w c (erase_node id c.lru) v.ordered (AreOthers-hit k id w c v e))
  ]

  -- `Remove` keeps the invariant.
  pub remove-IsValid : (k : ℕ) (c : LruCache V) → IsValid c → IsValid (remove k c).0
  remove-IsValid k c v = elim (Option-cases (find k c.pairs)) [
    | inl e ↦ rw (remove-miss k c e) v
    | inr ((id, w), e) ↦
        rw (remove-hit k id w c e)
          (without-IsValid k c (erase_node id c.lru) v.ordered (AreOthers-hit k id w c v e))
  ]

  -- `Put` keeps the invariant.
  pub push_entry-IsValid :
      (k : ℕ) (w : V) (c : LruCache V)
      → IsValid c
      → find k c.pairs ≡ none
      → IsValid (push_entry k w c)
  unfolding push_entry
  push_entry-IsValid k w c v e = front-IsValid k w c c.lru v.ordered (AreOthers-miss k c v e)

  -- an empty cache is valid
  pub new_cache-IsValid : (max_size : ℕ) (b : Bool) → IsValid {V = V} (new_cache max_size b)
  unfolding new_cache find
  new_cache-IsValid max_size b = record {
    ordered = tt;
    linked = tt;
    backed = λ k id h. absurd (cc);
    distinct = tt;
    below = tt;
  }
