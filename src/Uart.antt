-- ===== src/Uart.antt =====
-- The serial ports of devices/superio/uart.cc: the registers and buffers of a console, the port
-- accesses of the guest and the interrupt line. `none` stands for MV_PANIC and a failed MV_ASSERT.
pub mod Ports
pub mod Valid
pub mod Output
pub mod Received
mod Examples
use mvisor_x.Base.{
  ℕ, ◌+◌, ◌-◌, ◌*◌, ◌/◌, ◌%◌, Bool, true, false, not, ◌&&◌, Option, none, some, List, [], ◌∷◌, ◌++◌,
  bit_and, bit_or, u8, ltb, ◌==◌, has_bits, if◌then◌else◌, set, get_or, take, replicate,
}

-- `Console`, with the calls of `SetGsiLevel` and of `putchar`, the last one last
pub record Console : Type 0 where
  pub ioport_base : ℕ
  pub irq_line : ℕ
  pub irq_status : ℕ
  pub write_count : ℕ
  pub read_count : ℕ
  pub read_done : ℕ
  pub read_buffer : List ℕ
  pub write_buffer : List ℕ
  pub interrupt_id : ℕ
  pub interrupt_enable : ℕ
  pub fifo_control : ℕ
  pub line_control : ℕ
  pub line_status : ℕ
  pub modem_status : ℕ
  pub modem_control : ℕ
  pub scratch : ℕ
  pub divsor_latch : ℕ
  pub levels : List (ℕ × Bool)
  pub printed : List ℕ

abbrev pub fifo_len : ℕ
fifo_len = 64

-- `x &= ~mask` for bytes
abbrev pub without_bits : ℕ → ℕ → ℕ
without_bits x mask = bit_and x (255 - mask)

-- `AddConsole`, after the constructor has cleared the console
unfoldable pub add_console : ℕ → ℕ → Console
add_console ioport_base irq_line = record {
  ioport_base = ioport_base;
  irq_line = irq_line;
  irq_status = 0;
  write_count = 0;
  read_count = 0;
  read_done = 0;
  read_buffer = replicate 64 0;
  write_buffer = replicate 64 0;
  interrupt_id = 1;
  interrupt_enable = 0;
  fifo_control = 0;
  line_control = 0;
  line_status = 96;
  modem_status = 176;
  modem_control = 8;
  scratch = 0;
  divsor_latch = 0;
  levels = [];
  printed = [];
}

-- `FlushConsole`
unfoldable pub flush_console : Console → Console
flush_console c = record c {
  line_status = bit_or c.line_status 96;
  printed = c.printed ++ take c.write_count c.write_buffer;
  write_count = 0;
}

-- the two clears of `UpdateIrqLevel`, which test bits of the line control register
unfoldable pub clear_rx : Console → Console
clear_rx c =
    let clear = has_bits c.line_control 2 in
    record c {
      line_control = if clear then without_bits c.line_control 2 else c.line_control;
      read_count = if clear then 0 else c.read_count;
      read_done = if clear then 0 else c.read_done;
      line_status = if clear then without_bits c.line_status 1 else c.line_status;
    }

unfoldable pub clear_tx : Console → Console
clear_tx c =
    let clear = has_bits c.line_control 4 in
    record c {
      line_control = if clear then without_bits c.line_control 4 else c.line_control;
      write_count = if clear then 0 else c.write_count;
      line_status = if clear then bit_or c.line_status 96 else c.line_status;
    }

-- the interrupts that are due: 4 for received data, 2 for an empty transmitter
unfoldable pub due : Console → ℕ
due c =
    let received = has_bits c.interrupt_enable 1 && has_bits c.line_status 1 in
    let empty = has_bits c.interrupt_enable 2 && has_bits c.line_status 64 in
    bit_or (if received then 4 else 0) (if empty then 2 else 0)

-- the line, when the status goes from one value to another
unfoldable pub line_calls : ℕ → ℕ → ℕ → List (ℕ × Bool)
line_calls irq_line before status =
    if status == 0
    then (if before == 0 then [] else (irq_line, false) ∷ [])
    else (if before == 0 then (irq_line, true) ∷ [] else [])

unfoldable pub set_irq : ℕ → Console → Console
set_irq status c = record c {
  interrupt_id = if status == 0 then 1 else status;
  levels = c.levels ++ line_calls c.irq_line c.irq_status status;
  irq_status = status;
}

-- `UpdateIrqLevel`
unfoldable pub update_irq_level : Console → Console
update_irq_level c =
    let c₁ = clear_tx (clear_rx c) in
    let c₂ = set_irq (due c₁) c₁ in if has_bits c₂.interrupt_enable 2 then c₂ else flush_console c₂

-- `ReadConsole`
unfoldable pub read_console : Console → Console × ℕ
read_console c =
    if c.read_done == c.read_count
    then (c, 0)
    else if has_bits c.line_status 16
    then (record c { line_status = without_bits c.line_status 16 }, 0)
    else (let last = c.read_count == c.read_done + 1 in
        (
          record c {
            line_status = if last then without_bits c.line_status 1 else c.line_status;
            read_count = if last then 0 else c.read_count;
            read_done = if last then 0 else c.read_done + 1;
          },
          get_or c.read_buffer c.read_done 0,
        ))

-- the registers of `Read`, by the offset
unfoldable pub read_register : ℕ → Console → Option (Console × ℕ)
read_register offset c =
    let latched = has_bits c.line_control 128 in
    if offset == 0
    then some (if latched then (c, bit_and c.divsor_latch 255) else read_console c)
    else if offset == 1
    then some (c, (if latched then u8 (c.divsor_latch / 256) else c.interrupt_enable))
    else if offset == 2
    then some (c, bit_or c.interrupt_id 192)
    else if offset == 3
    then some (c, c.line_control)
    else if offset == 4
    then some (c, c.modem_control)
    else if offset == 5
    then some (c, c.line_status)
    else if offset == 6
    then some (c, c.modem_status)
    else if offset == 7
    then some (c, c.scratch)
    else none

-- the case UART_TX of `Write`: the latch, the loop back, and the transmitter
unfoldable pub loop_back : ℕ → Console → Console
loop_back byte c =
    let room = ltb c.read_count fifo_len in
    record c {
      read_buffer = if room then set c.read_buffer c.read_count byte else c.read_buffer;
      read_count = if room then c.read_count + 1 else c.read_count;
      line_status = if room then bit_or c.line_status 1 else c.line_status;
    }

-- the byte put into the buffer, which is flushed at once
unfoldable pub transmitted : ℕ → Console → Console
transmitted byte c = flush_console (record c {
  write_buffer = set c.write_buffer c.write_count byte;
  write_count = c.write_count + 1;
  line_status =
      if c.write_count + 1 == 32
      then without_bits (without_bits c.line_status 64) 32
      else without_bits c.line_status 64;
})

unfoldable pub transmit : ℕ → Console → Option Console
transmit byte c = if ltb c.write_count fifo_len then some (transmitted byte c) else none

unfoldable pub write_tx : ℕ → Console → Option Console
write_tx byte c =
    if has_bits c.line_control 128
    then some (record c { divsor_latch = bit_or (bit_and c.divsor_latch 65280) byte })
    else if has_bits c.modem_control 16
    then some (loop_back byte c)
    else transmit byte c

unfoldable pub write_ier : ℕ → Console → Console
write_ier byte c =
    if has_bits c.line_control 128
    then record c { divsor_latch = bit_or (bit_and c.divsor_latch 255) (byte * 256) }
    else record c { interrupt_enable = bit_and byte 15 }

-- the registers of `Write`, by the offset
unfoldable pub write_register : ℕ → ℕ → Console → Option Console
write_register offset byte c =
    if offset == 0
    then write_tx byte c
    else if offset == 1
    then some (write_ier byte c)
    else if offset == 2
    then some (record c { fifo_control = byte })
    else if offset == 3
    then some (record c { line_control = byte })
    else if offset == 4
    then some (record c { modem_control = byte })
    else if offset == 7
    then some (record c { scratch = byte })
    else none
