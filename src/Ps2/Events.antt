-- ===== src/Ps2/Events.antt =====
-- The events of the user at the PS/2 controller: `QueueKeyboardEvent` and `QueueMouseEvent` of
-- devices/superio/ps2.cc. An array of bytes is a list, with 0 behind its end.
use mvisor_x.Base.{
  ℕ, zero, suc, Bool, true, false, not, ◌||◌, ◌&&◌, List, [], ◌∷◌, bit_and, bit_or, bit_xor, ◌==◌,
  has_bits, if◌then◌else◌, get_or, u8, ℤ, neg, is_negative, int_to_u8,
}
use mvisor_x.Ps2.{Ps2, push_keyboard, push_mouse_4}
use mvisor_x.Ps2.Commands.{set_mouse}

-- the presses and releases that bring a lock of the guest in line with the host
unfoldable pub push_key : ℕ → Ps2 → Ps2
push_key code s = push_keyboard (bit_or code 128) (push_keyboard code s)

unfoldable pub sync_leds : ℕ → Ps2 → Ps2
sync_leds modifiers s =
    let diff = bit_xor modifiers s.keyboard.leds in
    if modifiers == s.keyboard.leds
    then s
    else if has_bits diff 1
    then push_key 70 s
    else if has_bits diff 2
    then push_key 69 s
    else if has_bits diff 4
    then push_key 58 s
    else s

-- the code of the keys that are skipped
unfoldable pub plain_code : List ℕ → ℕ
plain_code scancode =
    bit_and (if get_or scancode 0 0 == 224 then get_or scancode 1 0 else get_or scancode 0 0) 127

unfoldable pub is_lock : ℕ → Bool
is_lock code = code == 69 || code == 70 || code == 58

-- the loop over the bytes, `left` of them to go
unfoldable pub push_scancode : ℕ → List ℕ → Ps2 → Ps2
push_scancode zero bytes s = s
push_scancode (suc left) [] s = s
push_scancode (suc left) (zero ∷ bytes) s = s
push_scancode (suc left) (suc b ∷ bytes) s = push_scancode left bytes (push_keyboard (suc b) s)

-- `QueueKeyboardEvent`
unfoldable pub queue_keyboard_event : List ℕ → ℕ → Ps2 → Ps2 × Bool
queue_keyboard_event scancode modifiers s =
    if s.keyboard.disable_scanning
    then (s, false)
    else (let s' = sync_leds modifiers s in
        if is_lock (plain_code scancode) then (s', true) else (push_scancode 10 scancode s', true))

-- the first byte of a mouse packet: the buttons, bit 3, and the signs of both ways
unfoldable pub packet_state : ℕ → Bool → Bool → ℕ
packet_state buttons left down =
    let state = bit_or buttons 8 in
    let state' = if left then bit_or state 16 else state in
    if down then bit_or state' 32 else state'

-- `QueueMouseEvent`; adding 0x100 to a negative way does not change its lowest byte
unfoldable pub queue_mouse_event : ℕ → ℤ → ℤ → ℤ → Ps2 → Ps2 × Bool
queue_mouse_event button_state rel_x rel_y rel_z s =
    if s.mouse.disable_streaming
    then (s, false)
    else (let buttons = u8 button_state in
        (
          push_mouse_4 (packet_state buttons (is_negative rel_x) (is_negative (neg rel_y)))
              (int_to_u8 rel_x) (int_to_u8 (neg rel_y)) (int_to_u8 rel_z)
              (set_mouse (λ m. record m { buttons = buttons }) s),
          true,
        ))

-- `InputAcceptable`
unfoldable pub input_acceptable : Ps2 → Bool
input_acceptable s = not s.keyboard.disable_scanning && not s.mouse.disable_streaming
