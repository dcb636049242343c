-- ===== src/Lru/Recency.antt =====
-- What include/lru_cache.h promises: a list of entries with different keys, the most recently used
-- first, where an entry is looked up, taken out or put in front, and the last one dropped.
use mvisor_x.Base.{
  ℕ, suc, ap, ◌≤◌, ◌≡◌, ◌≢◌, refl, Bool, true, false, List, [], ◌∷◌, Option, none, some, arith, ltb,
  ◌==◌, if◌then◌else◌, length,
}

module _ {ℓ} {V : Type ℓ} where
  unfoldable pub lookup : ℕ → List (ℕ × V) → Option V
  lookup k [] = none
  lookup k ((j, v) ∷ h) = if j == k then some v else lookup k h

  unfoldable pub without : ℕ → List (ℕ × V) → List (ℕ × V)
  without k [] = []
  without k ((j, v) ∷ h) = if j == k then h else (j, v) ∷ without k h

  unfoldable pub drop_last : List (ℕ × V) → List (ℕ × V)
  drop_last [] = []
  drop_last (e ∷ []) = []
  drop_last (e ∷ f ∷ h) = e ∷ drop_last (f ∷ h)

  unfoldable pub last_of : (ℕ × V) → List (ℕ × V) → ℕ × V
  last_of e [] = e
  last_of e (f ∷ h) = last_of f h

  -- a read brings the entry to the front
  unfoldable pub touch : ℕ → List (ℕ × V) → List (ℕ × V) × Option V
  touch k h = elim (lookup k h) [ none ↦ (h, none) | some v ↦ ((k, v) ∷ without k h, some v) ]

  -- a removal, with whether there was an entry, and the entry
  unfoldable pub take_out : ℕ → List (ℕ × V) → List (ℕ × V) × Bool × List (ℕ × V)
  take_out k h = elim (lookup k h) [
    | none ↦ (h, false, [])
    | some v ↦ (without k h, true, (k, v) ∷ [])
  ]

  -- a new entry goes to the front, and drives the last one out where there are too many; a key
  -- that is there keeps its entry
  unfoldable pub add_first : ℕ → ℕ → V → List (ℕ × V) → List (ℕ × V) × Bool × List (ℕ × V)
  add_first max_size k v h = elim (lookup k h) [
    | some w ↦ (h, false, [])
    | none ↦
        if ltb max_size (length ((k, v) ∷ h))
        then (drop_last ((k, v) ∷ h), true, last_of (k, v) h ∷ [])
        else ((k, v) ∷ h, true, [])
  ]

  abbrev pub KeysNe : ℕ → List (ℕ × V) → Type 0
  KeysNe k [] = Unit {0}
  KeysNe k ((j, v) ∷ h) = (j ≢ k) × KeysNe k h

  abbrev pub HasDistinctKeys : List (ℕ × V) → Type 0
  HasDistinctKeys [] = Unit {0}
  HasDistinctKeys ((j, v) ∷ h) = KeysNe j h × HasDistinctKeys h

  KeysNe-last_of : (k : ℕ) (e : ℕ × V) (h : List (ℕ × V)) → KeysNe k (e ∷ h) → k ≢ (last_of e h).0
  unfolding last_of
  KeysNe-last_of k (j, v) [] ne = ground arith
  KeysNe-last_of k (j, v) (f ∷ h) ne = KeysNe-last_of k f h ne.1

  -- To take the last entry out is to drop it.
  pub without-last_of :
      (e : ℕ × V) (h : List (ℕ × V))
      → HasDistinctKeys (e ∷ h)
      → without (last_of e h).0 (e ∷ h) ≡ drop_last (e ∷ h)
  unfolding without last_of drop_last
  without-last_of (j, v) [] d = ground arith
  without-last_of (j, v) ((i, w) ∷ h) d =
      ground (arith, without-last_of (i, w) h d.1, KeysNe-last_of j (i, w) h d.0)

  pub lookup-last_of :
      (e : ℕ × V) (h : List (ℕ × V))
      → HasDistinctKeys (e ∷ h)
      → lookup (last_of e h).0 (e ∷ h) ≡ some (last_of e h).1
  unfolding lookup last_of
  lookup-last_of (j, v) [] d = ground arith
  lookup-last_of (j, v) ((i, w) ∷ h) d =
      ground (arith, lookup-last_of (i, w) h d.1, KeysNe-last_of j (i, w) h d.0)

  -- the three cases of an addition
  module _ (max_size k : ℕ) (w : V) (h : List (ℕ × V)) where
    pub add_first-old : (u : V) → lookup k h ≡ some u → add_first max_size k w h ≡ (h, false, [])
    unfolding add_first
    add_first-old u e = rw (e, add_first)

    pub add_first-room :
        lookup k h ≡ none
        → ltb max_size (suc (length h)) ≡ false
        → add_first max_size k w h ≡ ((k, w) ∷ h, true, [])
    unfolding add_first
    add_first-room e room = rw (e, add_first) (rw room)

    pub add_first-full :
        lookup k h ≡ none
        → ltb max_size (suc (length h)) ≡ true
        → add_first max_size k w h ≡ (drop_last ((k, w) ∷ h), true, last_of (k, w) h ∷ [])
    unfolding add_first
    add_first-full e full = rw (e, add_first) (rw full)

  length-drop_last : (e : ℕ × V) (h : List (ℕ × V)) → length (drop_last (e ∷ h)) ≡ length h
  unfolding drop_last
  length-drop_last e [] = refl
  length-drop_last e (f ∷ h) = ap suc (length-drop_last f h)

  -- The list does not grow beyond its bound.
  pub length-add_first :
      (max_size k : ℕ) (w : V) (h : List (ℕ × V))
      → length h ≤ max_size
      → length (add_first max_size k w h).0 ≤ max_size
  unfolding add_first
  length-add_first max_size k w h b = ground (arith, length-drop_last (k, w) h)
