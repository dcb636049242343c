-- ===== src/Lru/Nodes.antt =====
-- The list of nodes of include/lru_cache.h: node numbers, keys, and what erasing a node does.
use mvisor_x.Base.{
  ℕ, suc, ◌+◌, ◌<◌, ◌≡◌, ◌≢◌, List, [], ◌∷◌, arith, length, ◌⊎◌, inl, inr, sym, ℕ_discrete, ◌∙◌,
}
use mvisor_x.Lru.{Node, erase_node}

-- the node is in the list
abbrev pub InNodes : ℕ → ℕ → List Node → Type 0
InNodes id k [] = ⊥
InNodes id k (n ∷ ns) = ((n.id ≡ id) × (n.key ≡ k)) ⊎ InNodes id k ns

abbrev pub IdNe : ℕ → List Node → Type 0
IdNe id [] = Unit {0}
IdNe id (n ∷ ns) = (n.id ≢ id) × IdNe id ns

abbrev pub HasDistinctIds : List Node → Type 0
HasDistinctIds [] = Unit {0}
HasDistinctIds (n ∷ ns) = IdNe n.id ns × HasDistinctIds ns

abbrev pub IdsBelow : ℕ → List Node → Type 0
IdsBelow hi [] = Unit {0}
IdsBelow hi (n ∷ ns) = (n.id < hi) × IdsBelow hi ns

abbrev pub NodeKeysNe : ℕ → List Node → Type 0
NodeKeysNe k [] = Unit {0}
NodeKeysNe k (n ∷ ns) = (n.key ≢ k) × NodeKeysNe k ns

pub IdNe-InNodes : (id k : ℕ) (ns : List Node) → IdNe id ns → InNodes id k ns → ⊥
IdNe-InNodes id k [] ne i = i
IdNe-InNodes id k (n ∷ ns) ne (inl e) = ne.0 e.0
IdNe-InNodes id k (n ∷ ns) ne (inr i) = IdNe-InNodes id k ns ne.1 i

pub erase_node-head : (id : ℕ) (n : Node) (ns : List Node) → n.id ≡ id → erase_node id (n ∷ ns) ≡ ns
unfolding erase_node
erase_node-head id n ns e = ground arith

pub erase_node-tail :
    (id : ℕ) (n : Node) (ns : List Node) → n.id ≢ id → erase_node id (n ∷ ns) ≡ n ∷ erase_node id ns
unfolding erase_node
erase_node-tail id n ns e = ground arith

pub length-erase_node :
    (id k : ℕ) (ns : List Node) → InNodes id k ns → suc (length (erase_node id ns)) ≡ length ns
unfolding erase_node
length-erase_node id k [] i = absurd i
length-erase_node id k (n ∷ ns) (inl h) = ground arith
length-erase_node id k (n ∷ ns) (inr i) = ground (arith, length-erase_node id k ns i)

pub erase_node-InNodes :
    (id j i : ℕ) (ns : List Node) → j ≢ id → InNodes j i ns → InNodes j i (erase_node id ns)
unfolding erase_node
erase_node-InNodes id j i [] ne h = absurd h
erase_node-InNodes id j i (n ∷ ns) ne (inl h) =
    rw (erase_node-tail id n ns (λ e. ne (sym h.0 ∙ e))) (inl h)
erase_node-InNodes id j i (n ∷ ns) ne (inr h) = elim (ℕ_discrete n.id id) [
  | yes same ↦ rw (erase_node-head id n ns same) h
  | no other ↦ rw (erase_node-tail id n ns other) (inr (erase_node-InNodes id j i ns ne h))
]

-- predicates of all nodes survive the erasure
pub erase_node-IdNe : (id j : ℕ) (ns : List Node) → IdNe j ns → IdNe j (erase_node id ns)
unfolding erase_node
erase_node-IdNe id j [] h = tt
erase_node-IdNe id j (n ∷ ns) h = ground (arith, erase_node-IdNe id j ns h.1)

pub erase_node-HasDistinctIds :
    (id : ℕ) (ns : List Node) → HasDistinctIds ns → HasDistinctIds (erase_node id ns)
unfolding erase_node
erase_node-HasDistinctIds id [] h = tt
erase_node-HasDistinctIds id (n ∷ ns) h =
    ground (arith, erase_node-IdNe id n.id ns h.0, erase_node-HasDistinctIds id ns h.1)

pub erase_node-IdsBelow :
    (id hi : ℕ) (ns : List Node) → IdsBelow hi ns → IdsBelow hi (erase_node id ns)
unfolding erase_node
erase_node-IdsBelow id hi [] h = tt
erase_node-IdsBelow id hi (n ∷ ns) h = ground (arith, erase_node-IdsBelow id hi ns h.1)

pub InNodes-unique :
    (id j k : ℕ) (ns : List Node) → HasDistinctIds ns → InNodes id j ns → InNodes id k ns → j ≡ k
InNodes-unique id j k [] d a b = absurd a
InNodes-unique id j k (n ∷ ns) d (inl a) (inl b) = sym a.1 ∙ b.1
InNodes-unique id j k (n ∷ ns) d (inl a) (inr b) = absurd (IdNe-InNodes id k ns (rw a.0 at d.0) b)
InNodes-unique id j k (n ∷ ns) d (inr a) (inl b) = absurd (IdNe-InNodes id j ns (rw b.0 at d.0) a)
InNodes-unique id j k (n ∷ ns) d (inr a) (inr b) = InNodes-unique id j k ns d.1 a b

pub IdNe-of_below : (hi : ℕ) (ns : List Node) → IdsBelow hi ns → IdNe hi ns
IdNe-of_below hi [] b = tt
IdNe-of_below hi (n ∷ ns) b = (omega arith, IdNe-of_below hi ns b.1)

pub IdsBelow-suc : (hi : ℕ) (ns : List Node) → IdsBelow hi ns → IdsBelow (hi + 1) ns
IdsBelow-suc hi [] b = tt
IdsBelow-suc hi (n ∷ ns) b = (omega arith, IdsBelow-suc hi ns b.1)
