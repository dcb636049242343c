-- ===== src/Uart/Output.antt =====
-- What the guest sees of a console of devices/superio/uart.cc: the bytes that are printed, and the
-- line control register.
use mvisor_x.Base.{
  ℕ, ◌+◌, ◌<◌, ◌≡◌, refl, ◌∙◌, ap, append-nil, Bool, true, false, not, some, List, [], ◌∷◌, ◌++◌,
  ltb, has_bits, if◌then◌else◌, set, length, take, arith, passes_from, passes_from-at,
}
use mvisor_x.Uart.{
  Console, without_bits, flush_console, clear_rx, clear_tx, set_irq, update_irq_level, transmit,
  transmitted, write_tx, write_register,
}
use mvisor_x.Uart.Ports.{write_port}
use mvisor_x.Uart.Valid.{IsValid}

-- `UpdateIrqLevel` prints nothing if nothing waits
if-printed :
    (b : Bool) (c d : Console) (out : List ℕ)
    → c.printed ≡ out
    → d.printed ≡ out
    → (if b then c else d).printed ≡ out
if-printed true c d out h g = h
if-printed false c d out h g = g

update_irq_level-printed :
    (c : Console) → c.write_count ≡ 0 → (update_irq_level c).printed ≡ c.printed
unfolding update_irq_level set_irq flush_console clear_rx clear_tx
update_irq_level-printed c h =
    let count : (clear_tx (clear_rx c)).write_count ≡ 0 = ground arith in
    if-printed _ _ _ c.printed refl
      (ap (λ n. c.printed ++ take n c.write_buffer) count ∙ append-nil c.printed)

take-set : (xs : List ℕ) (byte : ℕ) → 0 < length xs → take 1 (set xs 0 byte) ≡ byte ∷ []
take-set [] byte h = absurd (omega arith)
take-set (x ∷ xs) byte h = refl

transmitted-printed :
    (byte : ℕ) (c : Console) → IsValid c → (transmitted byte c).printed ≡ c.printed ++ byte ∷ []
unfolding transmitted flush_console
transmitted-printed byte c v =
    ap (λ n. c.printed ++ take (n + 1) (set c.write_buffer n byte)) v.0
    ∙ ap (λ xs. c.printed ++ xs) (take-set c.write_buffer byte (omega (arith, v.4)))

-- A byte that the guest writes to the transmitter of a valid console, with the divisor latch shut
-- and no loop back, is printed at once, behind all that was printed before, and only once.
pub write_port-printed :
    (byte : ℕ) (c : Console)
    → IsValid c
    → has_bits c.line_control 128 ≡ false
    → has_bits c.modem_control 16 ≡ false
    → (c' : Console) × (write_port 0 byte c ≡ some c') × (c'.printed ≡ c.printed ++ byte ∷ [])
unfolding write_port write_register write_tx transmit transmitted flush_console
write_port-printed byte c v latch loop =
    let room : ltb c.write_count 64 ≡ true = ground arith in
    (
      update_irq_level (transmitted byte c),
      rw (latch, loop, room) refl,
      update_irq_level-printed (transmitted byte c) refl ∙ transmitted-printed byte c v,
    )

line_control_test : ℕ → Bool
line_control_test byte =
    let cleared = if has_bits byte 2 then without_bits byte 2 else byte in
    not (has_bits (if has_bits cleared 4 then without_bits cleared 4 else cleared) 6)

all_line_controls : passes_from line_control_test 0 256 ≡ true
unfolding line_control_test
all_line_controls = refl

if-line_control :
    (b : Bool) (c d : Console) (x : ℕ)
    → c.line_control ≡ x
    → d.line_control ≡ x
    → (if b then c else d).line_control ≡ x
if-line_control true c d x h g = h
if-line_control false c d x h g = g

update_irq_level-line_control :
    (c : Console) → (update_irq_level c).line_control ≡ (clear_tx (clear_rx c)).line_control
unfolding update_irq_level set_irq flush_console
update_irq_level-line_control c =
    if-line_control _ _ _ (clear_tx (clear_rx c)).line_control refl refl

-- Whatever byte the guest writes to the line control register, bits 1 and 2 of it are lost: the
-- long words and the two stop bits that it asks for do not read back.
pub write_port-line_control :
    (byte : ℕ) (c : Console)
    → byte < 256
    → (c' : Console) × (write_port 3 byte c ≡ some c') × (has_bits c'.line_control 6 ≡ false)
unfolding write_port write_register clear_rx clear_tx line_control_test
write_port-line_control byte c l =
    let written : Console = record c { line_control = byte } in
    let t : line_control_test byte ≡ true =
      passes_from-at line_control_test 0 256 byte all_line_controls (omega arith) (omega arith) in
    (
      update_irq_level written,
      refl,
      ap (λ x. has_bits x 6) (update_irq_level-line_control written) ∙ ground arith,
    )
