-- ===== src/Keymap/Transcode.antt =====
-- What the key maps of gui/keymap.c give: key numbers in range, and make and break codes.
use mvisor_x.Base.{
  ℕ, ◌+◌, ◌≤◌, ◌<◌, ◌≡◌, refl, Bool, true, false, ◌&&◌, List, [], ◌∷◌, ltb, leb, ◌==◌, length,
  passes_from, if-keeps, passes_from-at, arith,
}
use mvisor_x.Keymap.{
  q_key_code_max, q_key_code_unmapped, entry, scancode_from_usb, scancode_from_x11, high_byte,
  low_byte, release_bit, qcode_to_atset1,
}
use mvisor_x.Keymap.X11.{x11_to_qcode}
use mvisor_x.Keymap.Usb.{usb_to_qcode}

-- every value of a table is below a bound
values_below : ℕ → List (ℕ × ℕ) → Bool
values_below n [] = true
values_below n ((j, v) ∷ m) = ltb v n && values_below n m

entry-lt : (n i : ℕ) (m : List (ℕ × ℕ)) → 0 < n → values_below n m ≡ true → entry i m < n
unfolding values_below entry
entry-lt n i [] p h = p
entry-lt n i ((j, v) ∷ m) p h = ground (arith, entry-lt n i m)

x11_values : values_below q_key_code_max x11_to_qcode ≡ true
unfolding values_below
x11_values = refl

usb_values : values_below q_key_code_max usb_to_qcode ≡ true
unfolding values_below
usb_values = refl

-- Whatever key SDL or X11 reports, the number that comes out is one of `QKeyCode`.
pub scancode-lt :
    (key : ℕ) → (scancode_from_usb key < q_key_code_max) × (scancode_from_x11 key < q_key_code_max)
unfolding scancode_from_usb scancode_from_x11
scancode-lt key = (
  if-keeps (λ r. r < q_key_code_max) (leb 252 key) (omega arith)
      (entry-lt q_key_code_max key usb_to_qcode (omega arith) usb_values),
  if-keeps (λ r. r < q_key_code_max) (leb 65536 key) (omega arith)
      (entry-lt q_key_code_max key x11_to_qcode (omega arith) x11_values),
)

-- the break code of a make code: the last byte with its upper bit set
abbrev pub break_code : List ℕ → List ℕ
break_code [] = []
break_code (b ∷ []) = (b + 128) ∷ []
break_code (b ∷ c ∷ bs) = b ∷ break_code (c ∷ bs)

-- a make code of set 1: a byte below 128, or 224 and such a byte
abbrev pub is_make_code : List ℕ → Bool
is_make_code [] = false
is_make_code (b ∷ []) = ltb 0 b && ltb b 128
is_make_code (b ∷ c ∷ []) = b == 224 && ltb 0 c && ltb c 128
is_make_code (b ∷ c ∷ d ∷ bs) = false

same_bytes : List ℕ → List ℕ → Bool
same_bytes [] [] = true
same_bytes [] (b ∷ ys) = false
same_bytes (a ∷ xs) [] = false
same_bytes (a ∷ xs) (b ∷ ys) = a == b && same_bytes xs ys

same_bytes-eq : (xs ys : List ℕ) → same_bytes xs ys ≡ true → xs ≡ ys
unfolding same_bytes
same_bytes-eq [] [] h = refl
same_bytes-eq [] (b ∷ ys) h = absurd (cc (h))
same_bytes-eq (a ∷ xs) [] h = absurd (cc (h))
same_bytes-eq (a ∷ xs) (b ∷ ys) h = ground (arith, same_bytes-eq xs ys)

is_key : ℕ → Bool
is_key q =
    let make = qcode_to_atset1 q true in
    is_make_code make && same_bytes (qcode_to_atset1 q false) (break_code make)

all_keys : passes_from is_key 1 147 ≡ true
unfolding is_key same_bytes qcode_to_atset1 entry high_byte low_byte release_bit
all_keys = refl

-- Each key of `QKeyCode` but the unmapped one has a make code of set 1, and its release gives the
-- break code of it.
pub qcode_to_atset1-break_code :
    (q : ℕ)
    → 1 ≤ q
    → q < q_key_code_max
    → (is_make_code (qcode_to_atset1 q true) ≡ true)
      × (qcode_to_atset1 q false ≡ break_code (qcode_to_atset1 q true))
unfolding is_key
qcode_to_atset1-break_code q lo hi =
    let key : is_key q ≡ true = passes_from-at is_key 1 147 q all_keys lo (omega arith) in
    (ground arith, same_bytes-eq _ _ (ground arith))

-- A key that X11 reports and the table does not know sends nothing when it is pressed, but the
-- byte 128 when it is released.
pub scancode_from_x11-unmapped :
    (key : ℕ)
    → scancode_from_x11 key ≡ q_key_code_unmapped
    → (qcode_to_atset1 (scancode_from_x11 key) true ≡ [])
      × (qcode_to_atset1 (scancode_from_x11 key) false ≡ 128 ∷ [])
unfolding qcode_to_atset1 entry high_byte low_byte release_bit
scancode_from_x11-unmapped key h = rw h (refl, refl)

-- `QcodeToAtset1` writes at most two bytes, at any number, so the ten of its callers suffice.
pub length-qcode_to_atset1 : (q : ℕ) (pressed : Bool) → length (qcode_to_atset1 q pressed) ≤ 2
unfolding qcode_to_atset1 high_byte low_byte
length-qcode_to_atset1 q pressed = ground arith
