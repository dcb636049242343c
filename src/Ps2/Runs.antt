-- ===== src/Ps2/Runs.antt =====
-- Sequences of accesses and events at the PS/2 controller of devices/superio/ps2.cc, and what
-- holds after every one of them.
use mvisor_x.Base.{
  ℕ, zero, suc, Bool, Option, none, some, List, [], ◌∷◌, ◌>>=◌, if-keeps, has_bits, bit_xor, ◌==◌,
  ℤ,
}
use mvisor_x.Ps2.{Ps2, push_mouse_4, reset}
use mvisor_x.Ps2.Commands.{read, write}
use mvisor_x.Ps2.Events.{
  push_key, sync_leds, push_scancode, queue_keyboard_event, queue_mouse_event, is_lock, plain_code,
}
use mvisor_x.Ps2.Settled.{
  IsSettled, ResultIsSettled, fill_output_data-IsSettled, push_keyboard-IsSettled, read-IsSettled,
  write-ResultIsSettled, reset-IsSettled,
}

-- what the guest and the user can do
pub data Access : Type 0 where
  read_port : ℕ → Access
  write_port : ℕ → ℕ → Access
  press : List ℕ → ℕ → Access
  move : ℕ → ℤ → ℤ → ℤ → Access
  restart : Access

unfoldable pub step : Access → Ps2 → Option Ps2
step (read_port base) s = some (read base 0 s).0
step (write_port base byte) s = write base byte s
step (press scancode modifiers) s = some (queue_keyboard_event scancode modifiers s).0
step (move buttons x y z) s = some (queue_mouse_event buttons x y z s).0
step restart s = some (reset s)

unfoldable pub run : List Access → Ps2 → Option Ps2
run [] s = some s
run (a ∷ accesses) s = step a s >>= run accesses

push_key-IsSettled : (code : ℕ) (s : Ps2) → IsSettled (push_key code s)
unfolding push_key
push_key-IsSettled code s = push_keyboard-IsSettled _ _

sync_leds-IsSettled : (modifiers : ℕ) (s : Ps2) → IsSettled s → IsSettled (sync_leds modifiers s)
unfolding sync_leds
sync_leds-IsSettled modifiers s v =
    let diff = bit_xor modifiers s.keyboard.leds in
    if-keeps IsSettled (modifiers == s.keyboard.leds) v (
      if-keeps IsSettled (has_bits diff 1) (push_key-IsSettled _ _) (
        if-keeps IsSettled (has_bits diff 2) (push_key-IsSettled _ _)
          (if-keeps IsSettled (has_bits diff 4) (push_key-IsSettled _ _) v)))

pub push_scancode-IsSettled :
    (left : ℕ) (bytes : List ℕ) (s : Ps2) → IsSettled s → IsSettled (push_scancode left bytes s)
unfolding push_scancode
push_scancode-IsSettled zero bytes s v = v
push_scancode-IsSettled (suc left) [] s v = v
push_scancode-IsSettled (suc left) (zero ∷ bytes) s v = v
push_scancode-IsSettled (suc left) (suc b ∷ bytes) s v =
    push_scancode-IsSettled left bytes _ (push_keyboard-IsSettled (suc b) s)

-- the result of an event, without the Boolean
abbrev Settles : Ps2 × Bool → Type 0
Settles r = IsSettled r.0

queue_keyboard_event-IsSettled :
    (scancode : List ℕ) (modifiers : ℕ) (s : Ps2)
    → IsSettled s
    → Settles (queue_keyboard_event scancode modifiers s)
unfolding queue_keyboard_event
queue_keyboard_event-IsSettled scancode modifiers s v =
    let v' = sync_leds-IsSettled modifiers s v in
    if-keeps Settles s.keyboard.disable_scanning v (
      if-keeps Settles (is_lock (plain_code scancode)) v'
        (push_scancode-IsSettled 10 scancode _ v'))

queue_mouse_event-IsSettled :
    (buttons : ℕ) (x y z : ℤ) (s : Ps2) → IsSettled s → Settles (queue_mouse_event buttons x y z s)
unfolding queue_mouse_event push_mouse_4
queue_mouse_event-IsSettled buttons x y z s v =
    if-keeps Settles s.mouse.disable_streaming v (fill_output_data-IsSettled _)

step-ResultIsSettled : (a : Access) (s : Ps2) → IsSettled s → ResultIsSettled (step a s)
unfolding step
step-ResultIsSettled (read_port base) s v = read-IsSettled base 0 s v
step-ResultIsSettled (write_port base byte) s v = write-ResultIsSettled base byte s v
step-ResultIsSettled (press scancode modifiers) s v =
    queue_keyboard_event-IsSettled scancode modifiers s v
step-ResultIsSettled (move buttons x y z) s v = queue_mouse_event-IsSettled buttons x y z s v
step-ResultIsSettled restart s v = reset-IsSettled s

bind-ResultIsSettled :
    (o : Option Ps2) (f : Ps2 → Option Ps2)
    → ResultIsSettled o
    → ((s : Ps2) → IsSettled s → ResultIsSettled (f s))
    → ResultIsSettled (o >>= f)
bind-ResultIsSettled none f v h = tt
bind-ResultIsSettled (some s) f v h = h s v

-- After any sequence of port accesses, key and mouse events and resets from a state where a read
-- output register means empty queues, that is so again, unless an assertion has failed: no byte
-- is left behind in a queue once the guest has read the output register.
pub run-ResultIsSettled :
    (accesses : List Access) (s : Ps2) → IsSettled s → ResultIsSettled (run accesses s)
unfolding run
run-ResultIsSettled [] s v = v
run-ResultIsSettled (a ∷ accesses) s v =
    bind-ResultIsSettled (step a s) (run accesses) (step-ResultIsSettled a s v)
      (run-ResultIsSettled accesses)
