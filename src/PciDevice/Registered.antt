-- ===== src/PciDevice/Registered.antt =====
-- The resources of core/pci_device.cc by register, as AddIoResource and RemoveIoResource change them.
use mvisor_x.Base.{
  ℕ, zero, suc, ◌≤◌, ◌<◌, ◌≡◌, ◌≢◌, refl, subst, Bool, true, false, List, [], ◌∷◌, arith, length,
  get_or, set, ◌==◌, if◌then◌else◌, dec_lt,
}
use mvisor_x.PciDevice.{Bar, no_bar, is_typed, remove_resource}

-- the resources of one register
unfoldable pub registered : ℕ → List (ℕ × ℕ × ℕ) → List (ℕ × ℕ)
registered i [] = []
registered i (r ∷ rs) = let rest = registered i rs in if r.0 == i then (r.1, r.2) ∷ rest else rest

-- the resource that a register should have
abbrev pub decoded : Bool → ℕ → ℕ → List (ℕ × ℕ)
decoded true address size = (address, size) ∷ []
decoded false address size = []

abbrev pub expected : Bar → List (ℕ × ℕ)
expected b = decoded b.active b.address64 b.size64

pub registered-cons_ne :
    (i j a s : ℕ) (rs : List (ℕ × ℕ × ℕ)) → i ≢ j → registered j ((i, a, s) ∷ rs) ≡ registered j rs
unfolding registered
registered-cons_ne i j a s rs ne = ground arith

pub registered-cons_self :
    (i a s : ℕ) (rs : List (ℕ × ℕ × ℕ)) → registered i ((i, a, s) ∷ rs) ≡ (a, s) ∷ registered i rs
unfolding registered
registered-cons_self i a s rs = ground arith

pub registered-remove_ne :
    (i j : ℕ) (rs : List (ℕ × ℕ × ℕ))
    → i ≢ j
    → registered j (remove_resource i rs) ≡ registered j rs
unfolding registered remove_resource
registered-remove_ne i j [] ne = refl
registered-remove_ne i j (r ∷ rs) ne = ground (arith, registered-remove_ne i j rs ne)

pub registered-remove_self :
    (i : ℕ) (rs : List (ℕ × ℕ × ℕ)) (r : ℕ × ℕ)
    → registered i rs ≡ r ∷ []
    → registered i (remove_resource i rs) ≡ []
unfolding registered remove_resource
registered-remove_self i [] r e = absurd (cc)
registered-remove_self i (x ∷ rs) r e = ground (arith, registered-remove_self i rs r)

-- registers that are used are in the array
pub out_of_range : (bars : List Bar) (i : ℕ) → length bars ≤ i → get_or bars i no_bar ≡ no_bar
out_of_range [] i h = refl
out_of_range (b ∷ bars) zero h = absurd (omega arith)
out_of_range (b ∷ bars) (suc i) h = out_of_range bars i (omega arith)

pub typed_in_range :
    (bars : List Bar) (i : ℕ) → is_typed (get_or bars i no_bar).type ≡ true → i < length bars
typed_in_range bars i h = elim (dec_lt i (length bars)) [
  | yes lt ↦ lt
  | no ge ↦
      let gone = out_of_range bars i (omega arith) in
      let bad : is_typed no_bar.type ≡ true = subst (λ b. is_typed b.type ≡ true) gone h in
      absurd (cc)
]

pub active_in_range :
    (bars : List Bar) (i : ℕ) → (get_or bars i no_bar).active ≡ true → i < length bars
active_in_range bars i h = elim (dec_lt i (length bars)) [
  | yes lt ↦ lt
  | no ge ↦
      let gone = out_of_range bars i (omega arith) in
      let bad : no_bar.active ≡ true = subst (λ b. b.active ≡ true) gone h in absurd (cc)
]

-- a register changed to one that should have the same resource
pub set-expected :
    (bars : List Bar) (i j : ℕ) (b : Bar)
    → expected b ≡ expected (get_or bars i no_bar)
    → expected (get_or (set bars i b) j no_bar) ≡ expected (get_or bars j no_bar)
set-expected [] i j b e = refl
set-expected (x ∷ bars) zero zero b e = e
set-expected (x ∷ bars) zero (suc j) b e = refl
set-expected (x ∷ bars) (suc i) zero b e = refl
set-expected (x ∷ bars) (suc i) (suc j) b e = set-expected bars i j b e

-- what a changed register has in common with the one before it stays
pub set_same {ℓ} :
    {B : Type ℓ} (f : Bar → B) (bars : List Bar) (i j : ℕ) (b : Bar)
    → f b ≡ f (get_or bars i no_bar)
    → f (get_or (set bars i b) j no_bar) ≡ f (get_or bars j no_bar)
set_same f [] i j b e = refl
set_same f (x ∷ bars) zero zero b e = e
set_same f (x ∷ bars) zero (suc j) b e = refl
set_same f (x ∷ bars) (suc i) zero b e = refl
set_same f (x ∷ bars) (suc i) (suc j) b e = set_same f bars i j b e

pub set-active :
    (bars : List Bar) (i j : ℕ) (b : Bar)
    → b.active ≡ (get_or bars i no_bar).active
    → (get_or (set bars i b) j no_bar).active ≡ (get_or bars j no_bar).active
set-active = set_same (λ b. b.active)
