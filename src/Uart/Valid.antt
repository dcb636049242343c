-- ===== src/Uart/Valid.antt =====
-- The buffers of a console of devices/superio/uart.cc stay in bounds, and no write of the guest
-- to a register that can be written stops the emulator.
use mvisor_x.Base.{
  ℕ, zero, suc, ◌≤◌, ◌≡◌, refl, ◌∙◌, Bool, true, ◌||◌, Option, none, some, ltb, leb, ◌==◌, has_bits,
  ◌>>=◌, if-keeps, length, length-set, arith,
}
use mvisor_x.Uart.{
  Console, flush_console, clear_rx, clear_tx, due, set_irq, update_irq_level, read_console,
  loop_back, transmit, transmitted, write_tx, write_ier, write_register,
}
use mvisor_x.Uart.Ports.{write_port}

-- nothing waits to be printed, and the bytes to be read lie in the buffer
abbrev pub IsValid : Console → Type 0
IsValid c =
    (c.write_count ≡ 0)
    × (c.read_done ≤ c.read_count)
    × (c.read_count ≤ 64)
    × (length c.read_buffer ≡ 64)
    × (length c.write_buffer ≡ 64)

clear_rx-IsValid : (c : Console) → IsValid c → IsValid (clear_rx c)
unfolding clear_rx
clear_rx-IsValid c v = ground arith

clear_tx-IsValid : (c : Console) → IsValid c → IsValid (clear_tx c)
unfolding clear_tx
clear_tx-IsValid c v = ground arith

flush_console-IsValid : (c : Console) → IsValid c → IsValid (flush_console c)
unfolding flush_console
flush_console-IsValid c v = (refl, v.1, v.2, v.3, v.4)

update_irq_level-IsValid : (c : Console) → IsValid c → IsValid (update_irq_level c)
unfolding update_irq_level set_irq
update_irq_level-IsValid c v =
    let v' = clear_tx-IsValid (clear_rx c) (clear_rx-IsValid c v) in
    let c' = clear_tx (clear_rx c) in
    if-keeps IsValid (has_bits c'.interrupt_enable 2) v'
      (flush_console-IsValid (set_irq (due c') c') v')

-- the registers that the guest can write
abbrev pub is_writable : ℕ → Bool
is_writable offset = leb offset 4 || offset == 7

loop_back-IsValid : (byte : ℕ) (c : Console) → IsValid c → IsValid (loop_back byte c)
unfolding loop_back
loop_back-IsValid byte c v = ground (arith, length-set c.read_buffer c.read_count byte)

-- the access is done, and leaves the console valid
abbrev pub Succeeds : Option Console → Type 0
Succeeds none = ⊥
Succeeds (some c) = IsValid c

transmit-Succeeds : (byte : ℕ) (c : Console) → IsValid c → Succeeds (transmit byte c)
unfolding transmit transmitted flush_console
transmit-Succeeds byte c v =
    let room : ltb c.write_count 64 ≡ true = ground arith in
    rw room (refl, v.1, v.2, v.3, length-set c.write_buffer c.write_count byte ∙ v.4)

write_tx-Succeeds : (byte : ℕ) (c : Console) → IsValid c → Succeeds (write_tx byte c)
unfolding write_tx
write_tx-Succeeds byte c v = if-keeps Succeeds (has_bits c.line_control 128) v (
    if-keeps Succeeds (has_bits c.modem_control 16) (loop_back-IsValid byte c v)
      (transmit-Succeeds byte c v))

write_ier-IsValid : (byte : ℕ) (c : Console) → IsValid c → IsValid (write_ier byte c)
unfolding write_ier
write_ier-IsValid byte c v = if-keeps IsValid (has_bits c.line_control 128) v v

write_register-Succeeds :
    (offset byte : ℕ) (c : Console)
    → is_writable offset ≡ true
    → IsValid c
    → Succeeds (write_register offset byte c)
unfolding write_register
write_register-Succeeds zero byte c w v = write_tx-Succeeds byte c v
write_register-Succeeds (suc zero) byte c w v = write_ier-IsValid byte c v
write_register-Succeeds (suc (suc zero)) byte c w v = v
write_register-Succeeds (suc (suc (suc zero))) byte c w v = v
write_register-Succeeds (suc (suc (suc (suc zero)))) byte c w v = v
write_register-Succeeds (suc (suc (suc (suc (suc o))))) byte c w v =
    let seven : o ≡ 2 = ground arith in rw seven v

-- A write of the guest to a register that can be written never stops the emulator, whatever the
-- modes of the console, and keeps the console valid: in particular the transmit buffer is empty
-- again and the receive buffer is not overrun.
pub write_port-Succeeds :
    (offset byte : ℕ) (c : Console)
    → is_writable offset ≡ true
    → IsValid c
    → Succeeds (write_port offset byte c)
unfolding write_port
write_port-Succeeds offset byte c w v =
    finish (write_register offset byte c) (write_register-Succeeds offset byte c w v)
  where
    finish : (o : Option Console) → Succeeds o → Succeeds (o >>= λ c'. some (update_irq_level c'))
    finish none h = h
    finish (some c') h = update_irq_level-IsValid c' h

read_console-IsValid : (c : Console) → IsValid c → IsValid (read_console c).0
unfolding read_console
read_console-IsValid c v = ground arith
