-- ===== src/Uart/Received.antt =====
-- The receive buffer of a console of devices/superio/uart.cc as a queue: what the loop back puts in
-- is what `ReadConsole` gives, in the same order.
use mvisor_x.Base.{
  ℕ, zero, suc, ◌+◌, ◌<◌, ◌≤◌, ◌≡◌, refl, sym, ◌∙◌, ap, Bool, true, false, List, [], ◌∷◌, ◌++◌, ltb,
  ◌==◌, has_bits, if◌then◌else◌, set, get_or, take, drop, length, arith,
}
use mvisor_x.Uart.{Console, loop_back, read_console}
use mvisor_x.Uart.Valid.{IsValid}

-- the bytes that wait to be read
abbrev pub received : Console → List ℕ
received c = drop c.read_done (take c.read_count c.read_buffer)

take-set_last :
    (xs : List ℕ) (n byte : ℕ)
    → n < length xs
    → take (suc n) (set xs n byte) ≡ take n xs ++ byte ∷ []
take-set_last [] n byte h = absurd (omega arith)
take-set_last (x ∷ xs) zero byte h = refl
take-set_last (x ∷ xs) (suc n) byte h = ap (λ ys. x ∷ ys) (take-set_last xs n byte (omega arith))

drop-append :
    (d n : ℕ) (xs zs : List ℕ)
    → d ≤ n
    → n ≤ length xs
    → drop d (take n xs ++ zs) ≡ drop d (take n xs) ++ zs
drop-append zero n xs zs h l = refl
drop-append (suc d) zero xs zs h l = absurd (omega arith)
drop-append (suc d) (suc n) [] zs h l = absurd (omega arith)
drop-append (suc d) (suc n) (x ∷ xs) zs h l = drop-append d n xs zs (omega arith) (omega arith)

drop-take-cons :
    (d n : ℕ) (xs : List ℕ) (p : ℕ) (ps : List ℕ)
    → drop d (take n xs) ≡ p ∷ ps
    → (d < n) × (get_or xs d 0 ≡ p) × (drop (suc d) (take n xs) ≡ ps)
drop-take-cons zero zero xs p ps h = absurd (cc (h))
drop-take-cons zero (suc n) [] p ps h = absurd (cc (h))
drop-take-cons zero (suc n) (x ∷ xs) p ps h = (omega arith, cc (h), cc (h))
drop-take-cons (suc d) zero xs p ps h = absurd (cc (h))
drop-take-cons (suc d) (suc n) [] p ps h = absurd (cc (h))
drop-take-cons (suc d) (suc n) (x ∷ xs) p ps h =
    let r = drop-take-cons d n xs p ps h in (omega arith, r.1, r.2)

drop-take_end : (n : ℕ) (xs : List ℕ) → drop n (take n xs) ≡ []
drop-take_end zero xs = refl
drop-take_end (suc n) [] = refl
drop-take_end (suc n) (x ∷ xs) = drop-take_end n xs

-- the counts after a read, which go back to 0 together
drop-take_next :
    (b : Bool) (d n : ℕ) (xs ps : List ℕ)
    → (b ≡ true → n ≡ suc d)
    → drop (suc d) (take n xs) ≡ ps
    → drop (if b then 0 else d + 1) (take (if b then 0 else n) xs) ≡ ps
drop-take_next true d n xs ps e h =
    sym (drop-take_end n xs) ∙ ap (λ m. drop m (take n xs)) (e refl) ∙ h
drop-take_next false d n xs ps e h =
    let next : d + 1 ≡ suc d = omega arith in ap (λ m. drop m (take n xs)) next ∙ h

-- A byte that the guest writes in loop back mode to a valid console with room in its buffer waits
-- behind those that were there.
pub loop_back-received :
    (byte : ℕ) (c : Console)
    → IsValid c
    → c.read_count < 64
    → received (loop_back byte c) ≡ received c ++ byte ∷ []
unfolding loop_back
loop_back-received byte c v h =
    let room : ltb c.read_count 64 ≡ true = ground arith in
    let next : c.read_count + 1 ≡ suc c.read_count = omega arith in
    rw room (
      ap (λ n. drop c.read_done (take n (set c.read_buffer c.read_count byte))) next
      ∙ ap (drop c.read_done) (take-set_last c.read_buffer c.read_count byte (omega (arith, v.3)))
      ∙ drop-append c.read_done c.read_count c.read_buffer (byte ∷ []) v.1
          (omega (arith, v.3, v.2)))

-- Reading a valid console where bytes wait and no break is pending gives the first of them and
-- leaves the others.
pub read_console-received :
    (c : Console) (p : ℕ) (ps : List ℕ)
    → IsValid c
    → has_bits c.line_status 16 ≡ false
    → received c ≡ p ∷ ps
    → ((read_console c).1 ≡ p) × (received (read_console c).0 ≡ ps)
unfolding read_console
read_console-received c p ps v b h =
    let r = drop-take-cons c.read_done c.read_count c.read_buffer p ps h in
    let waits : (c.read_done == c.read_count) ≡ false = ground arith in
    rw (waits, b)
      (
        r.1,
        drop-take_next (c.read_count == c.read_done + 1) c.read_done c.read_count c.read_buffer ps
            (λ e. ground arith) r.2,
      )
