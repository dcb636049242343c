-- ===== src/StdMap.antt =====
-- std::map and std::set, as the sources use them: a map is an association list in key order, a set
-- of numbers a list in order.
use mvisor_x.Base.{
  ℕ, suc, ◌≤◌, ◌<◌, ◌≡◌, ◌≢◌, refl, List, [], ◌∷◌, Option, none, some, arith, ltb, ◌==◌,
  if◌then◌else◌,
}

module _ {ℓ} {A : Type ℓ} where
  -- `m.find(k)`
  unfoldable pub find : ℕ → List (ℕ × A) → Option A
  find k [] = none
  find k ((j, a) ∷ m) = if j == k then some a else find k m

  -- `m[k] = a`
  unfoldable pub insert : ℕ → A → List (ℕ × A) → List (ℕ × A)
  insert k a [] = (k, a) ∷ []
  insert k a ((j, b) ∷ m) =
      if k == j then (k, a) ∷ m else if ltb k j then (k, a) ∷ (j, b) ∷ m else (j, b) ∷ insert k a m

  -- `m.erase(k)`
  unfoldable pub erase : ℕ → List (ℕ × A) → List (ℕ × A)
  erase k [] = []
  erase k ((j, b) ∷ m) = if j == k then m else (j, b) ∷ erase k m

-- `s.insert(n)` for a std::set
unfoldable pub insert_point : ℕ → List ℕ → List ℕ
insert_point n [] = n ∷ []
insert_point n (m ∷ s) =
    if n == m then m ∷ s else if ltb n m then n ∷ m ∷ s else m ∷ insert_point n s

-- every key is at least `lo`
abbrev pub Above {ℓ} : {A : Type ℓ} → ℕ → List (ℕ × A) → Type 0
Above lo [] = Unit {0}
Above lo ((k, a) ∷ m) = (lo ≤ k) × Above lo m

-- the keys grow, from `lo` on
abbrev pub IsOrdered {ℓ} : {A : Type ℓ} → ℕ → List (ℕ × A) → Type 0
IsOrdered lo [] = Unit {0}
IsOrdered lo ((k, a) ∷ m) = (lo ≤ k) × IsOrdered (suc k) m

module _ {ℓ} {A : Type ℓ} where
  pub Above-mono : (lo hi : ℕ) (m : List (ℕ × A)) → lo ≤ hi → Above hi m → Above lo m
  Above-mono lo hi [] h a = tt
  Above-mono lo hi ((k, x) ∷ m) h a = (omega arith, Above-mono lo hi m h a.1)

  pub IsOrdered-Above : (lo : ℕ) (m : List (ℕ × A)) → IsOrdered lo m → Above lo m
  IsOrdered-Above lo [] o = tt
  IsOrdered-Above lo ((k, x) ∷ m) o =
      (o.0, Above-mono lo (suc k) m (omega arith) (IsOrdered-Above (suc k) m o.1))

  pub IsOrdered-mono : (lo hi : ℕ) (m : List (ℕ × A)) → lo ≤ hi → IsOrdered hi m → IsOrdered lo m
  IsOrdered-mono lo hi [] h o = tt
  IsOrdered-mono lo hi ((k, x) ∷ m) h o = (omega arith, o.1)

  pub insert-Above :
      (p : ℕ) (a : A) (m : List (ℕ × A)) → Above (suc p) m → insert p a m ≡ (p, a) ∷ m
  unfolding insert
  insert-Above p a [] h = refl
  insert-Above p a ((k, b) ∷ m) h = ground arith

  pub erase-cons_self : (k j : ℕ) (a : A) (m : List (ℕ × A)) → k ≡ j → erase j ((k, a) ∷ m) ≡ m
  unfolding erase
  erase-cons_self k j a m e = ground arith

  pub erase-Above : (lo j : ℕ) (m : List (ℕ × A)) → Above lo m → Above lo (erase j m)
  unfolding erase
  erase-Above lo j [] h = tt
  erase-Above lo j ((k, b) ∷ m) h = ground (arith, erase-Above lo j m h.1)

  pub find-insert :
      (k j : ℕ) (a : A) (m : List (ℕ × A))
      → find j (insert k a m) ≡ (if k == j then some a else find j m)
  unfolding find insert
  find-insert k j a [] = ground arith
  find-insert k j a ((i, b) ∷ m) = ground (arith, find-insert k j a m)

  pub find-erase_ne : (k j : ℕ) (m : List (ℕ × A)) → k ≢ j → find j (erase k m) ≡ find j m
  unfolding find erase
  find-erase_ne k j [] h = refl
  find-erase_ne k j ((i, b) ∷ m) h = ground (arith, find-erase_ne k j m h)

  pub find-Above : (j lo : ℕ) (m : List (ℕ × A)) → j < lo → Above lo m → find j m ≡ none
  unfolding find
  find-Above j lo [] h a = refl
  find-Above j lo ((k, b) ∷ m) h a = ground (arith, find-Above j lo m h a.1)

  pub find-erase_self : (k lo : ℕ) (m : List (ℕ × A)) → IsOrdered lo m → find k (erase k m) ≡ none
  unfolding find erase
  find-erase_self k lo [] o = refl
  find-erase_self k lo ((j, b) ∷ m) o = ground (
    arith,
    find-erase_self k (suc j) m o.1,
    find-Above k (suc j) m,
    IsOrdered-Above (suc j) m o.1,
  )

  pub insert-IsOrdered :
      (k : ℕ) (a : A) (lo : ℕ) (m : List (ℕ × A))
      → lo ≤ k
      → IsOrdered lo m
      → IsOrdered lo (insert k a m)
  unfolding insert
  insert-IsOrdered k a lo [] h o = (h, tt)
  insert-IsOrdered k a lo ((j, t) ∷ m) h o = ground (arith, insert-IsOrdered k a (suc j) m)

  pub erase-IsOrdered : (k lo : ℕ) (m : List (ℕ × A)) → IsOrdered lo m → IsOrdered lo (erase k m)
  unfolding erase
  erase-IsOrdered k lo [] o = tt
  erase-IsOrdered k lo ((j, t) ∷ m) o =
      ground (arith, erase-IsOrdered k (suc j) m o.1, IsOrdered-mono lo (suc j) m)
