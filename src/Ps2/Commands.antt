-- ===== src/Ps2/Commands.antt =====
-- The commands of the guest and the events of the user at the PS/2 controller
-- (devices/superio/ps2.cc). `none` stands for a failed MV_ASSERT.
use mvisor_x.Base.{
  ℕ, ◌+◌, ◌*◌, true, false, ◌||◌, ◌&&◌, Option, none, some, bit_and, bit_or, u8, leb, ◌==◌,
  has_bits, if◌then◌else◌,
}
use mvisor_x.Ps2.{
  Mouse, Keyboard, Ps2, clear_bits, response_ack, keyboard_irq, mouse_irq, raise_irq,
  fill_output_data, push_keyboard, push_mouse, read_data, reset_keyboard, reset_mouse, reset,
}

abbrev pub set_mouse : (Mouse → Mouse) → Ps2 → Ps2
set_mouse f s = record s { mouse = f s.mouse }

abbrev pub set_keyboard : (Keyboard → Keyboard) → Ps2 → Ps2
set_keyboard f s = record s { keyboard = f s.keyboard }

-- the byte of 0xE9: `!scaling << 4` and `!disable_streaming << 5`
unfoldable pub mouse_status : Mouse → ℕ
mouse_status m = u8 (
    bit_or
      (bit_or (bit_or (m.stream_mode * 64) (if m.disable_streaming then 0 else 32))
        (if m.scaling == 0 then 16 else 0))
      m.buttons)

-- the inner switch of `WriteMouseCommand`, for no command in progress
unfoldable pub start_mouse_command : ℕ → Ps2 → Option Ps2
start_mouse_command byte s =
    if byte == 0 || byte == 10 || byte == 136 || byte == 225
    then some (push_mouse 254 s)
    else if byte == 230
    then some (push_mouse response_ack (set_mouse (λ m. record m { scaling = 1 }) s))
    else if byte == 231
    then some (push_mouse response_ack (set_mouse (λ m. record m { scaling = 2 }) s))
    else if byte == 232
    then some (push_mouse response_ack (set_mouse (λ m. record m { command = byte }) s))
    else if byte == 233
    then some (
        push_mouse s.mouse.sample_rate (
          push_mouse s.mouse.resolution
            (push_mouse (mouse_status s.mouse) (push_mouse response_ack s))))
    else if byte == 234
    then (if byte == 1 then some (push_mouse response_ack s) else none)
    else if byte == 242
    then some (push_mouse s.mouse.id (push_mouse response_ack s))
    else if byte == 243
    then some (push_mouse response_ack (set_mouse (λ m. record m { command = byte }) s))
    else if byte == 244
    then some (push_mouse response_ack (set_mouse (λ m. record m { disable_streaming = false }) s))
    else if byte == 245
    then some (push_mouse response_ack (set_mouse (λ m. record m { disable_streaming = true }) s))
    else if byte == 246
    then some (push_mouse response_ack (reset_mouse s))
    else if byte == 255
    then some (push_mouse 0 (push_mouse 170 (push_mouse response_ack (reset_mouse s))))
    else some s

-- `WriteMouseCommand`
unfoldable pub write_mouse_command : ℕ → Ps2 → Option Ps2
write_mouse_command byte s =
    if s.mouse.command == 232
    then some
        (push_mouse response_ack (set_mouse (λ m. record m { resolution = byte; command = 0 }) s))
    else if s.mouse.command == 243
    then some
        (push_mouse response_ack (set_mouse (λ m. record m { sample_rate = byte; command = 0 }) s))
    else if s.mouse.command == 0
    then start_mouse_command byte s
    else some s

-- `WritePs2Command`
unfoldable pub write_ps2_command : ℕ → Ps2 → Ps2
write_ps2_command byte s =
    if byte == 237 || byte == 240 || byte == 243
    then push_keyboard response_ack (record s { last_command = byte })
    else if byte == 242
    then push_keyboard 65 (push_keyboard 171 (push_keyboard response_ack s))
    else if byte == 244
    then push_keyboard response_ack (set_keyboard (λ k. record k { disable_scanning = false }) s)
    else if byte == 245
    then push_keyboard response_ack (set_keyboard (λ k. record k { disable_scanning = true }) s)
    else if byte == 246
    then push_keyboard response_ack (reset s)
    else if byte == 255
    then push_keyboard 170 (push_keyboard response_ack (reset_keyboard s))
    else s

-- what follows the clearing of a disable bit: `if (!output_data_is_read_) RaiseIrq(irq)`
unfoldable pub raise_unread : ℕ → Ps2 → Ps2
raise_unread irq s = if s.output_data_is_read then s else raise_irq irq s

-- the switch of `WriteCommandPort`
unfoldable pub command_effect : ℕ → Ps2 → Ps2
command_effect command s =
    if command == 32
    then push_keyboard (bit_or s.mode (bit_and s.status 4)) s
    else if command == 96
    then record s { last_command = command }
    else if command == 167
    then record s { mode = bit_or s.mode 32 }
    else if command == 168
    then raise_unread mouse_irq (fill_output_data (record s { mode = clear_bits s.mode 32 }))
    else if command == 169
    then push_keyboard 0 s
    else if command == 170
    then push_keyboard 85 (record s { status = bit_or s.status 4 })
    else if command == 171
    then push_keyboard 0 s
    else if command == 173
    then record s { mode = bit_or s.mode 16 }
    else if command == 174
    then raise_unread keyboard_irq (fill_output_data (record s { mode = clear_bits s.mode 16 }))
    else if leb 209 command && leb command 212
    then record s { last_command = command }
    else if command == 254
    then record s { machine_resets = s.machine_resets + 1 }
    else s

-- `WriteCommandPort`
unfoldable pub write_command_port : ℕ → Ps2 → Ps2
write_command_port command s =
    let s' = command_effect command s in record s' { status = bit_or s'.status 8 }

-- the second byte of 0xF0
unfoldable pub write_scancode_set : ℕ → Ps2 → Option Ps2
write_scancode_set byte s =
    if byte == 0
    then some (push_keyboard s.keyboard.scancode_set s)
    else if byte == 2
    then some (set_keyboard (λ k. record k { scancode_set = byte }) s)
    else none

-- the switch of `WriteDataPort`, at the command that was in progress
unfoldable pub data_effect : ℕ → ℕ → Ps2 → Option Ps2
data_effect command byte s =
    if command == 0
    then some (write_ps2_command byte s)
    else if command == 96
    then some (record s { mode = byte })
    else if command == 209
    then some (record s {
      a20_gate = if has_bits byte 2 then bit_or s.a20_gate 2 else clear_bits s.a20_gate 2;
    })
    else if command == 211
    then some (push_mouse response_ack (push_mouse byte s))
    else if command == 212
    then write_mouse_command byte s
    else if command == 237
    then some (set_keyboard (λ k. record k { leds = byte }) (push_keyboard response_ack s))
    else if command == 240
    then write_scancode_set byte (push_keyboard response_ack s)
    else if command == 243
    then some (push_keyboard response_ack s)
    else some s

-- `WriteDataPort`
unfoldable pub write_data_port : ℕ → Ps2 → Option Ps2
write_data_port byte s = data_effect s.last_command byte (record s { last_command = 0 })

-- `Read` of one byte, at the base of a resource; `byte` is what `*data` was before
unfoldable pub read : ℕ → ℕ → Ps2 → Ps2 × ℕ
read base byte s =
    if base == 100
    then (let status = clear_bits s.status 64 in (record s { status = status }, status))
    else if base == 96
    then read_data s
    else if base == 146
    then (s, s.a20_gate)
    else (s, byte)

-- `Write` of one byte; the reset at port 0x92 stands under `debug_`
unfoldable pub write : ℕ → ℕ → Ps2 → Option Ps2
write base byte s =
    if base == 100
    then some (write_command_port byte s)
    else if base == 96
    then write_data_port byte s
    else if base == 146
    then some (record s {
      a20_gate = byte;
      machine_resets =
          if has_bits byte 1 && s.debug then s.machine_resets + 1 else s.machine_resets;
    })
    else some s
