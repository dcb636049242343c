-- ===== src/Dirty/Visits.antt =====
-- `HandleBitmap` of core/memory_manager.cc calls back for each dirty page once.
use mvisor_x.Base.{
  ℕ, zero, suc, ◌+◌, ◌-◌, ◌*◌, ◌/◌, ◌%◌, ◌≡◌, refl, ◌∙◌, ap, Bool, true, false, ◌&&◌, List, [], ◌∷◌,
  ◌++◌, ltb, leb, ◌==◌, if◌then◌else◌, get_or, arith, ℕ_discrete, dec_lt,
}
use mvisor_x.Dirty.{bit_at, call, handle_byte, and_then, handle_bytes, handle_bitmap}
use mvisor_x.Dirty.Sound.{page_bit, zero-bit_at}

-- a callback that always succeeds
abbrev pub accept : ℕ → Bool
accept page = true

abbrev pub one_if : Bool → ℕ
one_if true = 1
one_if false = 0

-- how often a page stands in a list
abbrev pub times : ℕ → List ℕ → ℕ
times q [] = 0
times q (p ∷ ps) = one_if (p == q) + times q ps

times-append : (q : ℕ) (xs ys : List ℕ) → times q (xs ++ ys) ≡ times q xs + times q ys
times-append q [] ys = omega arith
times-append q (x ∷ xs) ys = omega (arith, times-append q xs ys)

handle_byte-done : (i byte left j : ℕ) → (handle_byte accept i byte left j).1 ≡ true
unfolding handle_byte call
handle_byte-done i byte zero j = refl
handle_byte-done i byte (suc left) j = ground (arith, handle_byte-done i byte left (j + 1))

-- the page is one of those that the loop goes over, and its bit is set
abbrev in_byte : ℕ → ℕ → ℕ → ℕ → ℕ → Bool
in_byte q i byte left j = leb (i * 8 + j) q && ltb q (i * 8 + j + left) && bit_at byte (q - i * 8)

in_byte-suc :
    (q i byte left j : ℕ)
    → one_if (bit_at byte j && i * 8 + j == q) + one_if (in_byte q i byte left (j + 1))
      ≡ one_if (in_byte q i byte (suc left) j)
in_byte-suc q i byte left j = elim (ℕ_discrete (q - i * 8) j) [
  | yes same ↦
      let bit : bit_at byte (q - i * 8) ≡ bit_at byte j = ap (bit_at byte) same in ground arith
  | no other ↦ ground arith
]

pub times-branch :
    (q p : ℕ) (b : Bool) (rest : List ℕ × Bool)
    → let r : List ℕ × Bool = if b then (p ∷ rest.0, rest.1) else rest in
      times q r.0 ≡ one_if (b && p == q) + times q rest.0
times-branch q p true rest = refl
times-branch q p false rest = omega arith

times-handle_byte :
    (q i byte left j : ℕ)
    → times q (handle_byte accept i byte left j).0 ≡ one_if (in_byte q i byte left j)
unfolding handle_byte call
times-handle_byte q i byte zero j = ground arith
times-handle_byte q i byte (suc left) j =
    times-branch q (i * 8 + j) (bit_at byte j) (handle_byte accept i byte left (j + 1))
    ∙ ap (λ n. one_if (bit_at byte j && i * 8 + j == q) + n)
        (times-handle_byte q i byte left (j + 1))
    ∙ in_byte-suc q i byte left j

-- the page is behind the bytes before, and its bit is set
abbrev in_bytes : ℕ → ℕ → List ℕ → Bool
in_bytes q i bytes = leb (i * 8) q && bit_at (get_or bytes (q / 8 - i) 0) (q % 8)

pub times-and_then :
    (q : ℕ) (first rest : List ℕ × Bool)
    → first.1 ≡ true
    → times q (and_then first rest).0 ≡ times q first.0 + times q rest.0
unfolding and_then
times-and_then q (xs, true) rest h = times-append q xs rest.0
times-and_then q (xs, false) rest h = absurd (cc (h))

in_bytes-cons :
    (q i byte : ℕ) (bytes : List ℕ)
    → one_if (in_byte q i byte 8 0) + one_if (in_bytes q (i + 1) bytes)
      ≡ one_if (in_bytes q i (byte ∷ bytes))
in_bytes-cons q i byte bytes = elim (dec_lt q (i * 8 + 8)) [
  | yes here ↦ elim (dec_lt q (i * 8)) [
    | yes before ↦ ground arith
    | no inside ↦
        let first : q / 8 - i ≡ 0 = omega arith in
        let bit : bit_at byte (q - i * 8) ≡ bit_at byte (q % 8) = ap (bit_at byte) (omega arith) in
        rw first (ground arith)
  ]
  | no later ↦ let next : q / 8 - i ≡ suc (q / 8 - (i + 1)) = omega arith in rw next (ground arith)
]

-- a byte without dirty pages is passed over
times-skipped :
    (q i byte : ℕ) (rest : List ℕ × Bool)
    → let r : List ℕ × Bool =
        if byte == 0 then rest else and_then (handle_byte accept i byte 8 0) rest in
      times q r.0 ≡ one_if (in_byte q i byte 8 0) + times q rest.0
times-skipped q i zero rest = let none_set = zero-bit_at (q - i * 8) in ground arith
times-skipped q i (suc byte) rest =
    let nonzero : (suc byte == 0) ≡ false = ground arith in
    rw nonzero (
      times-and_then q (handle_byte accept i (suc byte) 8 0) rest
        (handle_byte-done i (suc byte) 8 0)
      ∙ ap (λ n. n + times q rest.0) (times-handle_byte q i (suc byte) 8 0))

times-handle_bytes :
    (q i : ℕ) (bytes : List ℕ)
    → times q (handle_bytes accept i bytes).0 ≡ one_if (in_bytes q i bytes)
unfolding handle_bytes
times-handle_bytes q i [] = let none_set = zero-bit_at (q % 8) in ground arith
times-handle_bytes q i (byte ∷ bytes) =
    times-skipped q i byte (handle_bytes accept (i + 1) bytes)
    ∙ ap (λ n. one_if (in_byte q i byte 8 0) + n) (times-handle_bytes q (i + 1) bytes)
    ∙ in_bytes-cons q i byte bytes

-- With a callback that always succeeds, `HandleBitmap` calls it once for each page whose bit is set
-- in the bitmap, and for no other page.
pub times-handle_bitmap :
    (q : ℕ) (bitmap : List ℕ) → times q (handle_bitmap accept bitmap).0 ≡ one_if (page_bit bitmap q)
unfolding handle_bitmap
times-handle_bitmap q bitmap =
    times-handle_bytes q 0 bitmap
    ∙ (let start : q / 8 - 0 ≡ q / 8 = omega arith in rw start (ground arith))
