-- ===== src/Lru/Evict.antt =====
-- What `Put` of include/lru_cache.h does to the map: a new entry, and at most one other taken out.
-- The client of the cache changes a value that the cache holds through its pointer.
use mvisor_x.Base.{
  ℕ, suc, ◌≤◌, ◌≡◌, ◌≢◌, subst, ◌⊎◌, inl, inr, sym, ◌∙◌, ap, true, List, [], ◌∷◌, none, some, arith,
  ltb, length, Option-cases, Bool-cases, ◌==◌, if◌then◌else◌, ℕ_discrete,
}
use mvisor_x.StdMap.{IsOrdered, find, insert, erase, find-insert, insert-IsOrdered}
use mvisor_x.Lru.{Node, LruCache, back, put, push_entry, remove, callback}
use mvisor_x.Lru.View.{IsValid, AreLinked, iterator, linked-find}
use mvisor_x.Lru.Laws.{remove-hit, insert_other}
use mvisor_x.Lru.Put.{put-room, put-full, new_node}

module _ {V : Type 0} where
  -- the value at a key changed in place
  unfoldable pub change : ℕ → (V → V) → LruCache V → LruCache V
  change k f c = elim (find k c.pairs) [
    | none ↦ c
    | some (id, v) ↦ record c { pairs = insert k (id, f v) c.pairs }
  ]

  pub change-hit :
      (k id : ℕ) (v : V) (f : V → V) (c : LruCache V)
      → find k c.pairs ≡ some (id, v)
      → change k f c ≡ record c { pairs = insert k (id, f v) c.pairs }
  unfolding change
  change-hit k id v f c e = rw (e, change)

  -- the last node has a key of the map that is not new
  back-linked :
      (k : ℕ) (p : List (ℕ × (ℕ × V))) (n : Node) (ns : List Node)
      → find k p ≡ none
      → AreLinked p ns
      → 1 ≤ length ns
      → let e = (back n ns).key in (k ≢ e) × (id : ℕ) × (v : V) × (find e p ≡ some (id, v))
  unfolding back
  back-linked k p n [] miss l h = absurd (omega arith)
  back-linked k p n (m ∷ []) miss l h =
      let (w, fm) = linked-find m.id (find m.key p) l.0 in
      (λ same. let miss' : find m.key p ≡ none = rw same at miss in cc (miss', fm), m.id, w, fm)
  back-linked k p n (m ∷ m' ∷ ns) miss l h = back-linked k p m (m' ∷ ns) miss l.1 (omega arith)

  -- the two ways of a `Put` of a new key
  pub put-new :
      (k : ℕ) (w : V) (c : LruCache V)
      → IsValid c
      → 1 ≤ c.max_size
      → c.has_callback ≡ true
      → find k c.pairs ≡ none
      → ((put k w c).0.pairs ≡ insert k (c.next, w) c.pairs) × ((put k w c).2 ≡ [])
        ⊎ ((e : ℕ) × (id : ℕ) × (u : V) × (k ≢ e)
            × (find e c.pairs ≡ some (id, u))
            × ((put k w c).0.pairs ≡ erase e (insert k (c.next, w) c.pairs))
            × ((put k w c).2 ≡ (e, u) ∷ []))
  unfolding push_entry
  put-new k w c v room b miss = elim (Bool-cases (ltb c.max_size (suc (length c.lru)))) [
    | inr fits ↦
        inl
          (ap (λ r. r.0.pairs) (put-room k w c miss fits), ap (λ r. r.2) (put-room k w c miss fits))
    | inl full ↦
        let (ne, id, u, fe) =
          back-linked k c.pairs (new_node k w c) c.lru miss v.linked (ground arith) in
        let e = (back (new_node k w c) c.lru).key in
        let found = insert_other k (c.next, w) c.pairs e ne ∙ fe in
        let removed = remove-hit e id u (push_entry k w c) found in
        inr (
          e,
          id,
          u,
          ne,
          fe,
          ap (λ r. r.0.pairs) (put-full k w c miss full) ∙ ap (λ r. r.0.pairs) removed,
          ap (λ r. r.2) (put-full k w c miss full)
              ∙ ap (λ r. r.2) removed
              ∙ ap (λ b'. callback b' e u) b,
        )
  ]

  -- `Put` keeps the cache's settings.
  pub put-limits :
      (k : ℕ) (w : V) (c : LruCache V)
      → ((put k w c).0.max_size ≡ c.max_size) × ((put k w c).0.has_callback ≡ c.has_callback)
  unfolding put remove push_entry
  put-limits k w c = ground arith

  -- a change in place keeps every key's iterator
  iterator-change :
      (k id : ℕ) (v w : V) (p : List (ℕ × (ℕ × V)))
      → find k p ≡ some (id, v)
      → (j : ℕ) → iterator (find j (insert k (id, w) p)) ≡ iterator (find j p)
  iterator-change k id v w p e j = elim (ℕ_discrete k j) [
    | yes same ↦ rw (find-insert k j (id, w) p) (
        subst (λ i. iterator (if k == i then some (id, w) else find i p) ≡ iterator (find i p)) same
          (ground (arith, e)))
    | no ne ↦ ap iterator (insert_other k (id, w) p j ne)
  ]

  same-AreLinked :
      (p q : List (ℕ × (ℕ × V)))
      → ((j : ℕ) → iterator (find j q) ≡ iterator (find j p))
      → (ns : List Node) → AreLinked p ns
      → AreLinked q ns
  same-AreLinked p q same [] l = tt
  same-AreLinked p q same (n ∷ ns) l = (same n.key ∙ l.0, same-AreLinked p q same ns l.1)

  -- values changed under the same iterators
  pub same-IsValid :
      (q : List (ℕ × (ℕ × V))) (c : LruCache V)
      → ((j : ℕ) → iterator (find j q) ≡ iterator (find j c.pairs))
      → IsOrdered 0 q
      → IsValid c
      → IsValid (record c { pairs = q })
  same-IsValid q c same ordered v = record {
    ordered = ordered;
    linked = same-AreLinked c.pairs q same c.lru v.linked;
    backed = λ j i h. v.backed j i (sym (same j) ∙ h);
    distinct = v.distinct;
    below = v.below;
  }

  pub change-miss : (k : ℕ) (f : V → V) (c : LruCache V) → find k c.pairs ≡ none → change k f c ≡ c
  unfolding change
  change-miss k f c e = rw (e, change)

  -- A change of a value in place keeps the cache valid.
  pub change-IsValid : (k : ℕ) (f : V → V) (c : LruCache V) → IsValid c → IsValid (change k f c)
  change-IsValid k f c v = elim (Option-cases (find k c.pairs)) [
    | inl miss ↦ rw (change-miss k f c miss) v
    | inr ((id, w), e) ↦ rw (change-hit k id w f c e) (
        same-IsValid (insert k (id, f w) c.pairs) c (iterator-change k id w (f w) c.pairs e)
          (insert-IsOrdered k (id, f w) 0 c.pairs (omega arith) v.ordered) v)
  ]
