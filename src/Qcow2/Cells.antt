-- ===== src/Qcow2/Cells.antt =====
-- The place of a cluster in the tables of images/qcow2.cc: a quotient and a remainder by the number of
-- entries of a table.
use mvisor_x.Base.{ℕ, ◌+◌, ◌*◌, ◌/◌, ◌%◌, ◌<◌, ◌≡◌, sym, ap, ◌∙◌, arith, dec_lt}
use native.Mathlib.Nat.{div-add-mod', mod-lt}
use mvisor_x.Qcow2.Evicted.{multiple_step}

-- one number, one quotient
pub quotient_unique : (n q r q' r' : ℕ) → r < n → r' < n → q * n + r ≡ q' * n + r' → q ≡ q'
quotient_unique n q r q' r' lt lt' e = elim (dec_lt q q') [
  | yes less ↦ let step = multiple_step n q q' less in absurd (omega arith)
  | no more ↦ elim (dec_lt q' q) [
    | yes less ↦ let step = multiple_step n q' q less in absurd (omega arith)
    | no more' ↦ omega arith
  ]
]

-- two clusters at one place are the same
pub cell-eq : (n a b : ℕ) → a / n ≡ b / n → a % n ≡ b % n → a ≡ b
cell-eq n a b q r = sym (div-add-mod' a n) ∙ rw (q, r) (div-add-mod' b n)

pub div-mul : (n q : ℕ) → 0 < n → (q * n) / n ≡ q
div-mul n q h =
    quotient_unique n ((q * n) / n) ((q * n) % n) q 0 (mod-lt (q * n) h) h
      (div-add-mod' (q * n) n ∙ omega arith)

-- the next cluster's place, inside a table
pub cell-next : (n a : ℕ) → a % n + 1 < n → ((a + 1) / n ≡ a / n) × ((a + 1) % n ≡ a % n + 1)
cell-next n a h =
    let pos : 0 < n = omega arith in
    let lt = mod-lt (a + 1) {m = n} pos in
    let whole = div-add-mod' a n in
    let whole' = div-add-mod' (a + 1) n in
    let q =
      quotient_unique n ((a + 1) / n) ((a + 1) % n) (a / n) (a % n + 1) lt h
        (whole' ∙ omega (arith, whole)) in
    let q' : (a + 1) / n * n ≡ a / n * n = ap (λ x. x * n) q in (q, omega arith)

-- below the table's clusters
pub cell-lt : (n l a : ℕ) → 0 < n → a / n < l → a < l * n
cell-lt n l a pos h =
    let step = multiple_step n (a / n) l h in
    let lt = mod-lt a {m = n} pos in let whole = div-add-mod' a n in omega arith
