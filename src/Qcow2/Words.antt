-- ===== src/Qcow2/Words.antt =====
-- The big-endian words of the tables of images/qcow2.cc: what htobe64, be64toh and their kin for 16
-- bits make of an entry in the file's bytes.
use mvisor_x.Base.{
  ℕ, zero, suc, ◌+◌, ◌*◌, ◌/◌, ◌%◌, ◌^◌, ◌<◌, ◌≡◌, refl, ap, ◌∙◌, List, [], ◌∷◌, ◌++◌, arith,
  length, take, drop, length-append, replicate, set, ◌≤◌,
}

-- the bytes of a word of w bytes
unfoldable pub to_be : ℕ → ℕ → List ℕ
to_be zero v = []
to_be (suc w) v = to_be w (v / 256) ++ (v % 256 ∷ [])

-- the word that the bytes after the number `acc` make
unfoldable pub of_be : ℕ → List ℕ → ℕ
of_be acc [] = acc
of_be acc (b ∷ bs) = of_be (acc * 256 + b) bs

-- the bytes of a table of words, and the first n words of bytes
unfoldable pub to_bytes : ℕ → List ℕ → List ℕ
to_bytes w [] = []
to_bytes w (v ∷ vs) = to_be w v ++ to_bytes w vs

unfoldable pub of_bytes : ℕ → ℕ → List ℕ → List ℕ
of_bytes w zero bs = []
of_bytes w (suc n) bs = of_be 0 (take w bs) ∷ of_bytes w n (drop w bs)

-- every entry is below the bound
abbrev pub AllBelow : ℕ → List ℕ → Type 0
AllBelow m [] = Unit {0}
AllBelow m (v ∷ vs) = (v < m) × AllBelow m vs

of_be-snoc : (acc b : ℕ) (bs : List ℕ) → of_be acc (bs ++ (b ∷ [])) ≡ of_be acc bs * 256 + b
unfolding of_be
of_be-snoc acc b [] = refl
of_be-snoc acc b (x ∷ bs) = of_be-snoc (acc * 256 + x) b bs

pub of_be-to_be : (w v : ℕ) → v < 256 ^ w → of_be 0 (to_be w v) ≡ v
unfolding to_be of_be
of_be-to_be zero v h = omega arith
of_be-to_be (suc w) v h =
    of_be-snoc 0 (v % 256) (to_be w (v / 256))
    ∙ ap (λ q. q * 256 + v % 256) (of_be-to_be w (v / 256) (omega arith))
    ∙ omega arith

pub length-to_be : (w v : ℕ) → length (to_be w v) ≡ w
unfolding to_be
length-to_be zero v = refl
length-to_be (suc w) v =
    length-append (to_be w (v / 256)) (v % 256 ∷ []) ∙ omega (arith, length-to_be w (v / 256))

pub take-append_left : (w : ℕ) (xs ys : List ℕ) → length xs ≡ w → take w (xs ++ ys) ≡ xs
take-append_left zero [] ys h = refl
take-append_left zero (x ∷ xs) ys h = absurd (omega arith)
take-append_left (suc w) [] ys h = absurd (omega arith)
take-append_left (suc w) (x ∷ xs) ys h = ap (λ r. x ∷ r) (take-append_left w xs ys (omega arith))

drop-append_left : (w : ℕ) (xs ys : List ℕ) → length xs ≡ w → drop w (xs ++ ys) ≡ ys
drop-append_left zero [] ys h = refl
drop-append_left zero (x ∷ xs) ys h = absurd (omega arith)
drop-append_left (suc w) [] ys h = absurd (omega arith)
drop-append_left (suc w) (x ∷ xs) ys h = drop-append_left w xs ys (omega arith)

-- A table written as big-endian words and read again is the table.
pub of_bytes-to_bytes :
    (w : ℕ) (vs : List ℕ) → AllBelow (256 ^ w) vs → of_bytes w (length vs) (to_bytes w vs) ≡ vs
unfolding to_bytes of_bytes
of_bytes-to_bytes w [] h = refl
of_bytes-to_bytes w (v ∷ vs) h = rw (
  take-append_left w (to_be w v) (to_bytes w vs) (length-to_be w v),
  drop-append_left w (to_be w v) (to_bytes w vs) (length-to_be w v),
  of_be-to_be w v h.0,
  of_bytes-to_bytes w vs h.1,
)

pub length-to_bytes : (w : ℕ) (vs : List ℕ) → length (to_bytes w vs) ≡ w * length vs
unfolding to_bytes
length-to_bytes w [] = omega arith
length-to_bytes w (v ∷ vs) =
    length-append (to_be w v) (to_bytes w vs)
    ∙ omega (arith, length-to_be w v, length-to_bytes w vs)

pub length-of_bytes : (w n : ℕ) (bs : List ℕ) → length (of_bytes w n bs) ≡ n
unfolding of_bytes
length-of_bytes w zero bs = refl
length-of_bytes w (suc n) bs = ap suc (length-of_bytes w n (drop w bs))

pub mul_mono : (a b p : ℕ) → a ≤ b → a * p ≤ b * p
mul_mono a b zero h = omega arith
mul_mono a b (suc p) h = omega (arith, mul_mono a b p h)

pub one_le_pow : (w : ℕ) → 1 ≤ 256 ^ w
one_le_pow zero = omega arith
one_le_pow (suc w) = omega (arith, one_le_pow w)

pow_step : (a w : ℕ) → a * 256 * 256 ^ w ≡ a * 256 ^ suc w
pow_step a w = let next : 256 ^ suc w ≡ 256 * 256 ^ w = omega arith in rw next (grind arith)

of_be-lt : (w acc : ℕ) (bs : List ℕ) → AllBelow 256 bs → of_be acc (take w bs) < (acc + 1) * 256 ^ w
unfolding of_be
of_be-lt zero acc bs h = omega arith
of_be-lt (suc w) acc [] h =
    let step = mul_mono (acc + 1) (acc + 1) 1 (omega arith) in
    let pos = mul_mono 1 (256 ^ suc w) (acc + 1) (one_le_pow (suc w)) in omega arith
of_be-lt (suc w) acc (b ∷ bs) h =
    let rest = of_be-lt w (acc * 256 + b) bs h.1 in
    let step = mul_mono (acc * 256 + b + 1) ((acc + 1) * 256) (256 ^ w) (omega (arith, h.0)) in
    let wide = pow_step (acc + 1) w in omega arith

drop-AllBelow : (m w : ℕ) (bs : List ℕ) → AllBelow m bs → AllBelow m (drop w bs)
drop-AllBelow m zero bs h = h
drop-AllBelow m (suc w) [] h = tt
drop-AllBelow m (suc w) (b ∷ bs) h = drop-AllBelow m w bs h.1

pub of_bytes-AllBelow :
    (w n : ℕ) (bs : List ℕ) → AllBelow 256 bs → AllBelow (256 ^ w) (of_bytes w n bs)
unfolding of_bytes
of_bytes-AllBelow w zero bs h = tt
of_bytes-AllBelow w (suc n) bs h =
    (omega (arith, of_be-lt w 0 bs h), of_bytes-AllBelow w n (drop w bs) (drop-AllBelow 256 w bs h))

pub take-AllBelow : (m n : ℕ) (bs : List ℕ) → AllBelow m bs → AllBelow m (take n bs)
take-AllBelow m zero bs h = tt
take-AllBelow m (suc n) [] h = tt
take-AllBelow m (suc n) (b ∷ bs) h = (h.0, take-AllBelow m n bs h.1)

pub append-AllBelow :
    (m : ℕ) (xs ys : List ℕ) → AllBelow m xs → AllBelow m ys → AllBelow m (xs ++ ys)
append-AllBelow m [] ys h g = g
append-AllBelow m (x ∷ xs) ys h g = (h.0, append-AllBelow m xs ys h.1 g)

pub replicate-AllBelow : (m n v : ℕ) → v < m → AllBelow m (replicate n v)
replicate-AllBelow m zero v h = tt
replicate-AllBelow m (suc n) v h = (h, replicate-AllBelow m n v h)

pub set-AllBelow : (m i v : ℕ) (bs : List ℕ) → v < m → AllBelow m bs → AllBelow m (set bs i v)
set-AllBelow m i v [] h g = tt
set-AllBelow m zero v (b ∷ bs) h g = (h, g.1)
set-AllBelow m (suc i) v (b ∷ bs) h g = (g.0, set-AllBelow m i v bs h g.1)

to_be-AllBelow : (w v : ℕ) → AllBelow 256 (to_be w v)
unfolding to_be
to_be-AllBelow zero v = tt
to_be-AllBelow (suc w) v =
    append-AllBelow 256 (to_be w (v / 256)) (v % 256 ∷ []) (to_be-AllBelow w (v / 256))
      (omega arith, tt)

pub to_bytes-AllBelow : (w : ℕ) (vs : List ℕ) → AllBelow 256 (to_bytes w vs)
unfolding to_bytes
to_bytes-AllBelow w [] = tt
to_bytes-AllBelow w (v ∷ vs) =
    append-AllBelow 256 (to_be w v) (to_bytes w vs) (to_be-AllBelow w v) (to_bytes-AllBelow w vs)
