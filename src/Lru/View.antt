-- ===== src/Lru/View.antt =====
-- The list of entries that a cache of include/lru_cache.h stands for, and its invariant: the list
-- of nodes and the map agree.
use mvisor_x.Base.{
  ℕ, ◌≡◌, ◌≢◌, refl, List, [], ◌∷◌, Option, none, some, arith, inl, inr, sym, ℕ_discrete, ◌∙◌,
}
use mvisor_x.StdMap.{find, IsOrdered}
use mvisor_x.Lru.{Node, LruCache, erase_node}
use mvisor_x.Lru.Nodes.{
  InNodes, IdNe, HasDistinctIds, IdsBelow, NodeKeysNe, IdNe-InNodes, erase_node-head,
  erase_node-tail,
}
use mvisor_x.Lru.Recency.{lookup, without}

-- the iterator of a key in the map
abbrev pub iterator : {A : Type 0} → Option (ℕ × A) → Option ℕ
iterator none = none
iterator (some (id, v)) = some id

module _ {V : Type 0} where
  -- the entries of the nodes, as the map has them
  abbrev pub entries : List (ℕ × (ℕ × V)) → List Node → List (ℕ × V)
  entries pairs [] = []
  entries pairs (n ∷ ns) =
      let rest = entries pairs ns in
      elim (find n.key pairs) [ none ↦ rest | some (id, v) ↦ (n.key, v) ∷ rest ]

  abbrev pub view : LruCache V → List (ℕ × V)
  view c = entries c.pairs c.lru

  -- the map has each node's key, with the node for its iterator
  abbrev pub AreLinked : List (ℕ × (ℕ × V)) → List Node → Type 0
  AreLinked pairs [] = Unit {0}
  AreLinked pairs (n ∷ ns) = (iterator (find n.key pairs) ≡ some n.id) × AreLinked pairs ns

  -- The map and the list hold the same keys, under iterators that are different and used up.
  pub record IsValid (c : LruCache V) : Type 0 where
    pub ordered : IsOrdered 0 c.pairs
    pub linked : AreLinked c.pairs c.lru
    pub backed : (k id : ℕ) → iterator (find k c.pairs) ≡ some id → InNodes id k c.lru
    pub distinct : HasDistinctIds c.lru
    pub below : IdsBelow c.next c.lru

  pub entries-cons :
      (p : List (ℕ × (ℕ × V))) (n : Node) (ns : List Node) (i : ℕ) (w : V)
      → find n.key p ≡ some (i, w)
      → entries p (n ∷ ns) ≡ (n.key, w) ∷ entries p ns
  entries-cons p n ns i w e = rw (e, entries)

  -- a change of the map at a key that no node has changes nothing
  module _ (k : ℕ) (p q : List (ℕ × (ℕ × V))) (same : (j : ℕ) → k ≢ j → find j q ≡ find j p) where
    pub entries-other : (ns : List Node) → NodeKeysNe k ns → entries q ns ≡ entries p ns
    entries-other [] ne = refl
    entries-other (n ∷ ns) ne =
        ground (arith, same n.key (λ e. ne.0 (sym e)), entries-other ns ne.1)

    pub AreLinked-other : (ns : List Node) → NodeKeysNe k ns → AreLinked p ns → AreLinked q ns
    AreLinked-other [] ne l = tt
    AreLinked-other (n ∷ ns) ne l =
        (rw (same n.key (λ e. ne.0 (sym e))) l.0, AreLinked-other ns ne.1 l.1)

  pub linked-find : (i : ℕ) (o : Option (ℕ × V)) → iterator o ≡ some i → (w : V) × (o ≡ some (i, w))
  linked-find i none e = absurd (cc)
  linked-find i (some (j, w)) e = (w, ground arith)

  -- one key, one iterator
  id-eq :
      (k id j : ℕ) (n : Node) (p : List (ℕ × (ℕ × V)))
      → iterator (find k p) ≡ some id
      → iterator (find n.key p) ≡ some n.id
      → n.key ≡ k
      → n.id ≡ id
  id-eq k id j n p e l same =
      let l' : iterator (find k p) ≡ some n.id = rw same at l in
      let both : some n.id ≡ some id = sym l' ∙ e in ground arith

  -- without the key's node, the nodes have other keys
  pub NodeKeysNe-of_IdNe :
      (k id : ℕ) (p : List (ℕ × (ℕ × V))) (ns : List Node)
      → iterator (find k p) ≡ some id
      → AreLinked p ns
      → IdNe id ns
      → NodeKeysNe k ns
  NodeKeysNe-of_IdNe k id p [] e l ne = tt
  NodeKeysNe-of_IdNe k id p (n ∷ ns) e l ne =
      (λ same. ne.0 (id-eq k id 0 n p e l.0 same), NodeKeysNe-of_IdNe k id p ns e l.1 ne.1)

  pub NodeKeysNe-of_none :
      (k : ℕ) (p : List (ℕ × (ℕ × V))) (ns : List Node)
      → find k p ≡ none
      → AreLinked p ns
      → NodeKeysNe k ns
  NodeKeysNe-of_none k p [] e l = tt
  NodeKeysNe-of_none k p (n ∷ ns) e l = (
    λ same.
        let l' : iterator (find k p) ≡ some n.id = rw same at l.0 in
        let bad : iterator {A = V} none ≡ some n.id = rw e at l' in cc,
    NodeKeysNe-of_none k p ns e l.1,
  )

  pub lookup-entries_other :
      (k : ℕ) (p : List (ℕ × (ℕ × V))) (ns : List Node)
      → NodeKeysNe k ns
      → lookup k (entries p ns) ≡ none
  unfolding lookup
  lookup-entries_other k p [] ne = refl
  lookup-entries_other k p (n ∷ ns) ne = ground (arith, lookup-entries_other k p ns ne.1)

  pub without-entries_other :
      (k : ℕ) (p : List (ℕ × (ℕ × V))) (ns : List Node)
      → NodeKeysNe k ns
      → without k (entries p ns) ≡ entries p ns
  unfolding without
  without-entries_other k p [] ne = refl
  without-entries_other k p (n ∷ ns) ne = ground (arith, without-entries_other k p ns ne.1)

  -- What erasing the key's node does.
  module _ (k id : ℕ) (v : V) (p : List (ℕ × (ℕ × V))) (e : find k p ≡ some (id, v)) where
    iterator-eq : iterator (find k p) ≡ some id
    iterator-eq = rw e

    head_key :
        (n : Node) (ns : List Node)
        → HasDistinctIds (n ∷ ns)
        → InNodes id k (n ∷ ns)
        → n.id ≡ id
        → n.key ≡ k
    head_key n ns d (inl h) same = h.1
    head_key n ns d (inr i) same = absurd (IdNe-InNodes id k ns (rw same at d.0) i)

    tail_key : (n : Node) (ns : List Node) → AreLinked p (n ∷ ns) → n.id ≢ id → n.key ≢ k
    tail_key n ns l ne same = ne (id-eq k id 0 n p iterator-eq l.0 same)

    tail_in : (n : Node) (ns : List Node) → InNodes id k (n ∷ ns) → n.id ≢ id → InNodes id k ns
    tail_in n ns (inl h) ne = absurd (ne h.0)
    tail_in n ns (inr i) ne = i

    pub erase_node-keys_ne :
        (ns : List Node)
        → AreLinked p ns
        → HasDistinctIds ns
        → InNodes id k ns
        → NodeKeysNe k (erase_node id ns)
    erase_node-keys_ne [] l d i = absurd i
    erase_node-keys_ne (n ∷ ns) l d i = elim (ℕ_discrete n.id id) [
      | yes same ↦
          rw (erase_node-head id n ns same)
            (NodeKeysNe-of_IdNe k id p ns iterator-eq l.1 (rw same at d.0))
      | no ne ↦
          rw (erase_node-tail id n ns ne)
            (tail_key n ns l ne, erase_node-keys_ne ns l.1 d.1 (tail_in n ns i ne))
    ]

    pub entries-erase_node :
        (ns : List Node)
        → AreLinked p ns
        → HasDistinctIds ns
        → InNodes id k ns
        → entries p (erase_node id ns) ≡ without k (entries p ns)
    unfolding without
    entries-erase_node [] l d i = absurd i
    entries-erase_node (n ∷ ns) l d i = elim (ℕ_discrete n.id id) [
      | yes same ↦
          let key = head_key n ns d i same in
          let fn : find n.key p ≡ some (id, v) = rw key e in
          rw (erase_node-head id n ns same) (rw (entries-cons p n ns id v fn) (ground arith))
      | no ne ↦
          let (w, fn) = linked-find n.id (find n.key p) l.0 in
          let key = tail_key n ns l ne in
          rw (erase_node-tail id n ns ne) (
            rw (entries-cons p n ns n.id w fn) (
              rw (entries-cons p n (erase_node id ns) n.id w fn)
                (ground (arith, entries-erase_node ns l.1 d.1 (tail_in n ns i ne)))))
    ]

    pub lookup-entries :
        (ns : List Node)
        → AreLinked p ns
        → HasDistinctIds ns
        → InNodes id k ns
        → lookup k (entries p ns) ≡ some v
    unfolding lookup
    lookup-entries [] l d i = absurd i
    lookup-entries (n ∷ ns) l d i = elim (ℕ_discrete n.id id) [
      | yes same ↦
          let key = head_key n ns d i same in
          let fn : find n.key p ≡ some (id, v) = rw key e in
          rw (entries-cons p n ns id v fn) (ground arith)
      | no ne ↦
          let (w, fn) = linked-find n.id (find n.key p) l.0 in
          let key = tail_key n ns l ne in
          rw (entries-cons p n ns n.id w fn)
            (ground (arith, lookup-entries ns l.1 d.1 (tail_in n ns i ne)))
    ]

pub erase_node-AreLinked :
    {V : Type 0} (id : ℕ) (p : List (ℕ × (ℕ × V))) (ns : List Node)
    → AreLinked p ns
    → AreLinked p (erase_node id ns)
unfolding erase_node
erase_node-AreLinked id p [] h = h
erase_node-AreLinked id p (n ∷ ns) h = elim (ℕ_discrete n.id id) [
  | yes same ↦ rw (erase_node-head id n ns same) h.1
  | no other ↦ rw (erase_node-tail id n ns other) (h.0, erase_node-AreLinked id p ns h.1)
]
