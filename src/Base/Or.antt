-- ===== src/Base/Or.antt =====
-- `a << k | b` is the sum, if b has at most k bits: the law of `bit_or` for the words that the
-- sources put together from bytes.
use Prim.Native.Nat.{
  ℕ, zero, suc, ◌+◌, ◌*◌, ◌/◌, ◌≤◌, ◌<◌, max, bit_or, digits, bit_or-bitwise, bit_and,
  bit_and-bitwise, min, ◌-◌, ◌%◌,
}
use mathlib.Core.Path.{◌≡◌, refl, ◌∙◌}
use native.Mathlib.Omega.{arith}

-- the digits of a multiple x of the power p, and b below it
abbrev Joins : ℕ → Type 0
Joins p = (n x a b : ℕ) → x ≡ a * p → x ≤ n → b < p → digits (λ b'. b') max n x b ≡ x + b

Joins-one : Joins 1
Joins-one zero x a b e h l = omega arith
Joins-one (suc n) zero a b e h l = omega arith
Joins-one (suc n) (suc x) a zero e h l =
    omega (arith, Joins-one n (suc x / 2) (suc x / 2) 0 (omega arith) (omega arith) (omega arith))
Joins-one (suc n) (suc x) a (suc b) e h l = absurd (omega arith)

Joins-double : (p : ℕ) → Joins p → Joins (p * 2)
Joins-double p j zero x a b e h l = omega arith
Joins-double p j (suc n) zero a b e h l = omega arith
Joins-double p j (suc n) (suc x) a b e h l =
    omega (arith, j n (suc x / 2) a (b / 2) (omega arith) (omega arith) (omega arith))

Joins-byte : Joins 256
Joins-byte = Joins-double 128 (
    Joins-double 64 (
      Joins-double 32 (
        Joins-double 16
          (Joins-double 8 (Joins-double 4 (Joins-double 2 (Joins-double 1 Joins-one)))))))

Joins-word : Joins 65536
Joins-word = Joins-double 32768 (
    Joins-double 16384 (
      Joins-double 8192 (
        Joins-double 4096 (
          Joins-double 2048 (Joins-double 1024 (Joins-double 512 (Joins-double 256 Joins-byte)))))))

pub bit_or-byte : (a b : ℕ) → b < 256 → bit_or (a * 256) b ≡ a * 256 + b
bit_or-byte a b l =
    bit_or-bitwise (a * 256) b ∙ Joins-byte (a * 256) (a * 256) a b refl (omega arith) l

pub bit_or-word : (a b : ℕ) → b < 65536 → bit_or (a * 65536) b ≡ a * 65536 + b
bit_or-word a b l =
    bit_or-bitwise (a * 65536) b ∙ Joins-word (a * 65536) (a * 65536) a b refl (omega arith) l

-- the mask of the digits below the power p leaves the rest r
abbrev Leaves : ℕ → Type 0
Leaves p = (n x y r : ℕ) → x ≡ y * p + r → r < p → x ≤ n → digits (λ b. zero) min n x (p - 1) ≡ r

Leaves-one : Leaves 1
Leaves-one zero x y r e l h = omega arith
Leaves-one (suc n) zero y r e l h = omega arith
Leaves-one (suc n) (suc x) y r e l h =
    omega (arith, Leaves-one n (suc x / 2) (suc x / 2) 0 (omega arith) (omega arith) (omega arith))

pub bit_and-zero : (x : ℕ) → bit_and x 0 ≡ 0
bit_and-zero x = bit_and-bitwise x 0 ∙ Leaves-one x x x 0 (omega arith) (omega arith) (omega arith)

Leaves-double : (p : ℕ) → Leaves (suc p) → Leaves (suc p * 2)
Leaves-double p j zero x y r e l h = omega arith
Leaves-double p j (suc n) zero y r e l h = omega arith
Leaves-double p j (suc n) (suc x) y r e l h =
    let half : (suc p * 2 - 1) / 2 ≡ suc p - 1 = omega arith in
    let odd : (suc p * 2 - 1) % 2 ≡ 1 = omega arith in
    rw (half, odd)
      (omega (arith, j n (suc x / 2) y (r / 2) (omega arith) (omega arith) (omega arith)))

Leaves-byte : Leaves 256
Leaves-byte = Leaves-double 127 (
    Leaves-double 63 (
      Leaves-double 31 (
        Leaves-double 15
          (Leaves-double 7 (Leaves-double 3 (Leaves-double 1 (Leaves-double 0 Leaves-one)))))))

pub bit_and-byte : (x : ℕ) → bit_and x 255 ≡ x % 256
bit_and-byte x =
    bit_and-bitwise x 255
    ∙ Leaves-byte x x (x / 256) (x % 256) (omega arith) (omega arith) (omega arith)
