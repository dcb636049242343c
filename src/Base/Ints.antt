-- ===== src/Base/Ints.antt =====
-- The integers over the native numbers, for the signed `int` of the sources.
use Prim.Native.Nat.{ℕ, zero, suc, ◌-◌, ◌%◌}
use mathlib.Core.Bool.{Bool, true, false}
use mathlib.Core.Path.{◌≡◌, refl}

pub data ℤ : Type 0 where
  pos : ℕ → ℤ
  negsuc : ℕ → ℤ

abbrev pub neg : ℤ → ℤ
neg (pos zero) = pos zero
neg (pos (suc n)) = negsuc n
neg (negsuc n) = pos (suc n)

abbrev pub is_negative : ℤ → Bool
is_negative (pos n) = false
is_negative (negsuc n) = true

-- the lowest byte in two's complement
abbrev pub int_to_u8 : ℤ → ℕ
int_to_u8 (pos n) = n % 256
int_to_u8 (negsuc n) = 255 - n % 256

pub neg-neg : (x : ℤ) → neg (neg x) ≡ x
neg-neg (pos zero) = refl
neg-neg (pos (suc n)) = refl
neg-neg (negsuc n) = refl
