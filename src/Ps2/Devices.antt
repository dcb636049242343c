-- ===== src/Ps2/Devices.antt =====
-- What the guest can tell about the mouse and the keyboard at the PS/2 controller of
-- devices/superio/ps2.cc: mouse packets, and two faults.
use mvisor_x.Base.{
  ℕ, ◌-◌, ◌<◌, ◌≡◌, refl, ◌∙◌, ap, append_assoc, Bool, true, false, not, ◌&&◌, none, List, [], ◌∷◌,
  ◌++◌, if◌then◌else◌, ◌==◌, arith, u8, has_bits, bit_and, bit_or, passes_from, passes_from-at, ℤ,
  pos, negsuc, neg, is_negative, int_to_u8,
}
use mvisor_x.Ps2.{
  Ps2, raise_irq, raise_line, fill, fill_output_data, push_keyboard, push_mouse_4, clear_bits,
}
use mvisor_x.Ps2.Commands.{
  set_mouse, write, write_data_port, data_effect, write_mouse_command, start_mouse_command,
}
use mvisor_x.Ps2.Events.{queue_mouse_event, packet_state}
use mvisor_x.Ps2.Settled.{IsSettled, fill_output_data-IsSettled}
use mvisor_x.Ps2.Pending.{output, pending, fill_output_data-pending, read_times, read_times-pending}

-- the way that a byte of a packet and its sign stand for, in nine bits of two's complement
abbrev pub way : Bool → ℕ → ℤ
way false byte = pos byte
way true byte = negsuc (255 - byte)

abbrev pub FitsPacket : ℤ → Type 0
FitsPacket (pos n) = n < 256
FitsPacket (negsuc n) = n < 256

way-int_to_u8 : (x : ℤ) → FitsPacket x → way (is_negative x) (int_to_u8 x) ≡ x
way-int_to_u8 (pos n) h = ap pos (omega arith)
way-int_to_u8 (negsuc n) h = ap negsuc (omega arith)

agrees : Bool → Bool → Bool
agrees true b = b
agrees false b = not b

state_test : Bool → Bool → ℕ → Bool
state_test left down buttons =
    let state = packet_state buttons left down in
    bit_and state 7 == buttons && agrees left (has_bits state 16) && agrees down (has_bits state 32)

all_states : (left down : Bool) → passes_from (state_test left down) 0 8 ≡ true
unfolding state_test packet_state agrees
all_states true true = refl
all_states true false = refl
all_states false true = refl
all_states false false = refl

agrees-eq : (a b : Bool) → agrees a b ≡ true → b ≡ a
unfolding agrees
agrees-eq true true h = refl
agrees-eq true false h = absurd (cc (h))
agrees-eq false true h = absurd (cc (h))
agrees-eq false false h = refl

packet_state-bits :
    (buttons : ℕ) (left down : Bool)
    → buttons < 8
    → let state = packet_state buttons left down in
      (bit_and state 7 ≡ buttons) × (has_bits state 16 ≡ left) × (has_bits state 32 ≡ down)
unfolding state_test
packet_state-bits buttons left down h =
    let t : state_test left down buttons ≡ true =
      passes_from-at (state_test left down) 0 8 buttons (all_states left down) (omega arith)
        (omega arith) in
    let state = packet_state buttons left down in
    (
      ground arith,
      agrees-eq left (has_bits state 16) (ground arith),
      agrees-eq down (has_bits state 32) (ground arith),
    )

second_branch :
    (b : Bool) (x y : Ps2)
    → b ≡ false
    → let r : Ps2 × Bool = if b then (x, false) else (y, true) in r.0 ≡ y
second_branch true x y h = absurd (cc (h))
second_branch false x y h = refl

append-four :
    (o ms : List ℕ) (a b c d : ℕ)
    → o ++ (ms ++ a ∷ [] ++ b ∷ [] ++ c ∷ [] ++ d ∷ []) ≡ o ++ ms ++ a ∷ b ∷ c ∷ d ∷ []
append-four o ms a b c d = cc (
  append_assoc ms (a ∷ []) (b ∷ []),
  append_assoc ms (a ∷ b ∷ []) (c ∷ []),
  append_assoc ms (a ∷ b ∷ c ∷ []) (d ∷ []),
  append_assoc o ms (a ∷ b ∷ c ∷ d ∷ []),
)

-- the packet of an event
abbrev pub packet : ℕ → ℤ → ℤ → ℤ → List ℕ
packet buttons x y z =
    packet_state buttons (is_negative x) (is_negative (neg y))
    ∷ int_to_u8 x
    ∷ int_to_u8 (neg y)
    ∷ int_to_u8 z
    ∷ []

-- the state before `PushMouse4` fills the output register
with_packet : ℕ → ℤ → ℤ → ℤ → Ps2 → Ps2
with_packet buttons x y z s = record (set_mouse (λ m. record m { buttons = buttons }) s) {
  mouse_queue =
      s.mouse_queue
      ++ packet_state buttons (is_negative x) (is_negative (neg y)) ∷ []
      ++ int_to_u8 x ∷ []
      ++ int_to_u8 (neg y) ∷ []
      ++ int_to_u8 z ∷ [];
}

queue_mouse_event-fills :
    (buttons : ℕ) (x y z : ℤ) (s : Ps2)
    → s.mouse.disable_streaming ≡ false
    → (queue_mouse_event buttons x y z s).0 ≡ fill_output_data (with_packet (u8 buttons) x y z s)
unfolding queue_mouse_event push_mouse_4 with_packet
queue_mouse_event-fills buttons x y z s h = second_branch s.mouse.disable_streaming s _ h

-- While streaming is on and the guest has read everything, a mouse event with the buttons in three
-- bits and with x and the negation of y in -256 .. 255 reaches the guest as four bytes of the data
-- port. Bits 0 to 2 of the first are the buttons, its bit 4 and the second byte are x as a nine-bit
-- number, and its bit 5 and the third byte the negation of y: the way up, as y grows downwards.
pub queue_mouse_event-read :
    (buttons : ℕ) (x y z : ℤ) (s : Ps2)
    → IsSettled s
    → pending s ≡ []
    → s.mouse.disable_streaming ≡ false
    → buttons < 8
    → FitsPacket x
    → FitsPacket (neg y)
    → let state = packet_state buttons (is_negative x) (is_negative (neg y)) in
      (read_times 4 (queue_mouse_event buttons x y z s).0
        ≡ state ∷ int_to_u8 x ∷ int_to_u8 (neg y) ∷ int_to_u8 z ∷ [])
      × (bit_and state 7 ≡ buttons)
      × (way (has_bits state 16) (int_to_u8 x) ≡ x)
      × (way (has_bits state 32) (int_to_u8 (neg y)) ≡ neg y)
unfolding with_packet
queue_mouse_event-read buttons x y z s v p h l fx fy =
    let byte : u8 buttons ≡ buttons = omega arith in
    let bits = packet_state-bits buttons (is_negative x) (is_negative (neg y)) l in
    let fills : (queue_mouse_event buttons x y z s).0
        ≡ fill_output_data (with_packet buttons x y z s) =
      queue_mouse_event-fills buttons x y z s h
      ∙ ap (λ b. fill_output_data (with_packet b x y z s)) byte in
    let waits : pending (fill_output_data (with_packet buttons x y z s)) ≡ packet buttons x y z =
      fill_output_data-pending (with_packet buttons x y z s)
      ∙ append-four (output s.output_data_is_read s.output_data ++ s.keyboard_queue) s.mouse_queue _
          _ _ _
      ∙ ap (λ xs. xs ++ packet buttons x y z) p in
    (
      ap (read_times 4) fills
          ∙ read_times-pending (packet buttons x y z)
              (fill_output_data (with_packet buttons x y z s)) (fill_output_data-IsSettled _) waits,
      bits.0,
      rw bits.1 (way-int_to_u8 x fx),
      rw bits.2 (way-int_to_u8 (neg y) fy),
    )

mask_test : ℕ → Bool
mask_test status = not (has_bits (clear_bits (bit_or status 1) 32) 32)

all_masks : passes_from mask_test 0 256 ≡ true
unfolding mask_test
all_masks = refl

-- the output register stays full while it is unread, and the status byte names the keyboard
keyboard_fill :
    (k : ℕ) (ks ms : List ℕ) (s : Ps2)
    → s.status < 256
    → let s' = fill false (k ∷ ks) ms s in
      (s'.output_data ≡ s.output_data) × (has_bits s'.status 32 ≡ false)
unfolding fill raise_irq raise_line mask_test
keyboard_fill k ks ms s h =
    let t : mask_test s.status ≡ true =
      passes_from-at mask_test 0 256 s.status all_masks (omega arith) (omega arith) in
    (refl, ground arith)

pushed_fill :
    (b : Bool) (ks ms : List ℕ) (byte : ℕ) (s : Ps2)
    → s.status < 256
    → b ≡ false
    → let s' = fill b (ks ++ byte ∷ []) ms s in
      (s'.output_data ≡ s.output_data) × (has_bits s'.status 32 ≡ false)
pushed_fill true ks ms byte s h u = absurd (cc (u))
pushed_fill false [] ms byte s h u = keyboard_fill byte [] ms s h
pushed_fill false (k ∷ ks) ms byte s h u = keyboard_fill k (ks ++ byte ∷ []) ms s h

-- While a byte waits unread in the output register, also one of the mouse, a byte of the keyboard
-- behind it makes the status byte say that the register holds a byte of the keyboard.
pub push_keyboard-mislabels :
    (byte : ℕ) (s : Ps2)
    → s.status < 256
    → s.output_data_is_read ≡ false
    → let s' = push_keyboard byte s in
      (s'.output_data ≡ s.output_data) × (has_bits s'.status 32 ≡ false)
unfolding push_keyboard fill_output_data
push_keyboard-mislabels byte s h u =
    pushed_fill s.output_data_is_read s.keyboard_queue s.mouse_queue byte
      (record s { keyboard_queue = s.keyboard_queue ++ byte ∷ [] }) h u

-- The guest can stop the emulator: the mouse command 0xEA, sent where no mouse command is in
-- progress, fails an assertion that compares the command itself with 1.
pub write-set_stream_mode :
    (s : Ps2) → s.last_command ≡ 212 → s.mouse.command ≡ 0 → write 96 234 s ≡ none
unfolding write write_data_port data_effect write_mouse_command start_mouse_command
write-set_stream_mode s l m = ground arith
