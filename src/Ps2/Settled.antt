-- ===== src/Ps2/Settled.antt =====
-- While the output register of the PS/2 controller (devices/superio/ps2.cc) is read, no byte
-- waits in a queue: every access of the guest and every event of the user keeps it so.
use mvisor_x.Base.{
  ℕ, ◌≡◌, refl, Bool, true, false, ◌||◌, ◌&&◌, Option, none, some, List, [], ◌∷◌, leb, ◌==◌,
  if-keeps,
}
use mvisor_x.Ps2.{
  Ps2, raise_irq, raise_line, fill, fill_output_data, push_keyboard, push_mouse, read_data,
  reset_keyboard, reset_mouse, reset,
}
use mvisor_x.Ps2.Commands.{
  start_mouse_command, write_mouse_command, write_ps2_command, raise_unread, command_effect,
  write_command_port, write_scancode_set, data_effect, write_data_port, read, write,
}

-- nothing waits while the output register is read
abbrev pub Waits : Bool → List ℕ → List ℕ → Type 0
Waits false ks ms = Unit {0}
Waits true ks ms = (ks ≡ []) × (ms ≡ [])

abbrev pub IsSettled : Ps2 → Type 0
IsSettled s = Waits s.output_data_is_read s.keyboard_queue s.mouse_queue

unread-Waits : (b : Bool) (ks ms : List ℕ) → b ≡ false → Waits b ks ms
unread-Waits false ks ms e = tt
unread-Waits true ks ms e = absurd (cc (e))

empty-Waits : (b : Bool) (ks ms : List ℕ) → ks ≡ [] → ms ≡ [] → Waits b ks ms
empty-Waits false ks ms f g = tt
empty-Waits true ks ms f g = (f, g)

fill-IsSettled :
    (b : Bool) (ks ms : List ℕ) (s : Ps2)
    → s.output_data_is_read ≡ b
    → s.keyboard_queue ≡ ks
    → s.mouse_queue ≡ ms
    → IsSettled (fill b ks ms s)
unfolding fill raise_irq raise_line
fill-IsSettled false (k ∷ ks) ms s e f g = unread-Waits _ _ _ e
fill-IsSettled false [] (m ∷ ms) s e f g = unread-Waits _ _ _ e
fill-IsSettled false [] [] s e f g = unread-Waits _ _ _ e
fill-IsSettled true (k ∷ ks) ms s e f g = tt
fill-IsSettled true [] (m ∷ ms) s e f g = tt
fill-IsSettled true [] [] s e f g = empty-Waits _ _ _ f g

-- `FillOutputData` settles the controller from any state.
pub fill_output_data-IsSettled : (s : Ps2) → IsSettled (fill_output_data s)
unfolding fill_output_data
fill_output_data-IsSettled s =
    fill-IsSettled s.output_data_is_read s.keyboard_queue s.mouse_queue s refl refl refl

pub push_keyboard-IsSettled : (byte : ℕ) (s : Ps2) → IsSettled (push_keyboard byte s)
unfolding push_keyboard
push_keyboard-IsSettled byte s = fill_output_data-IsSettled _

push_mouse-IsSettled : (byte : ℕ) (s : Ps2) → IsSettled (push_mouse byte s)
unfolding push_mouse
push_mouse-IsSettled byte s = fill_output_data-IsSettled _

pub read_data-IsSettled : (s : Ps2) → IsSettled (read_data s).0
unfolding read_data
read_data-IsSettled s = fill_output_data-IsSettled _

-- the queue of the mouse, or both queues, emptied
drop_mouse-Waits : (b : Bool) (ks ms : List ℕ) → Waits b ks ms → Waits b ks []
drop_mouse-Waits false ks ms w = tt
drop_mouse-Waits true ks ms w = (w.0, refl)

drop_keyboard-Waits : (b : Bool) (ks ms : List ℕ) → Waits b ks ms → Waits b [] ms
drop_keyboard-Waits false ks ms w = tt
drop_keyboard-Waits true ks ms w = (refl, w.1)

pub reset-IsSettled : (s : Ps2) → IsSettled (reset s)
unfolding reset reset_keyboard reset_mouse
reset-IsSettled s = (refl, refl)

abbrev pub ResultIsSettled : Option Ps2 → Type 0
ResultIsSettled none = Unit {0}
ResultIsSettled (some s) = IsSettled s

start_mouse_command-ResultIsSettled :
    (byte : ℕ) (s : Ps2) → IsSettled s → ResultIsSettled (start_mouse_command byte s)
unfolding start_mouse_command
start_mouse_command-ResultIsSettled byte s v =
    if-keeps ResultIsSettled (byte == 0 || byte == 10 || byte == 136 || byte == 225)
      (push_mouse-IsSettled _ _)
      (if-keeps ResultIsSettled (byte == 230) (push_mouse-IsSettled _ _) (
        if-keeps ResultIsSettled (byte == 231) (push_mouse-IsSettled _ _) (
          if-keeps ResultIsSettled (byte == 232) (push_mouse-IsSettled _ _) (
            if-keeps ResultIsSettled (byte == 233) (push_mouse-IsSettled _ _) (
              if-keeps ResultIsSettled (byte == 234)
                (if-keeps ResultIsSettled (byte == 1) (push_mouse-IsSettled _ _) tt)
                (if-keeps ResultIsSettled (byte == 242) (push_mouse-IsSettled _ _) (
                  if-keeps ResultIsSettled (byte == 243) (push_mouse-IsSettled _ _) (
                    if-keeps ResultIsSettled (byte == 244) (push_mouse-IsSettled _ _) (
                      if-keeps ResultIsSettled (byte == 245) (push_mouse-IsSettled _ _) (
                        if-keeps ResultIsSettled (byte == 246) (push_mouse-IsSettled _ _) (
                          if-keeps ResultIsSettled (byte == 255) (push_mouse-IsSettled _ _)
                            v)))))))))))

write_mouse_command-ResultIsSettled :
    (byte : ℕ) (s : Ps2) → IsSettled s → ResultIsSettled (write_mouse_command byte s)
unfolding write_mouse_command
write_mouse_command-ResultIsSettled byte s v =
    if-keeps ResultIsSettled (s.mouse.command == 232) (push_mouse-IsSettled _ _) (
      if-keeps ResultIsSettled (s.mouse.command == 243) (push_mouse-IsSettled _ _) (
        if-keeps ResultIsSettled (s.mouse.command == 0)
          (start_mouse_command-ResultIsSettled byte s v) v))

write_ps2_command-IsSettled :
    (byte : ℕ) (s : Ps2) → IsSettled s → IsSettled (write_ps2_command byte s)
unfolding write_ps2_command
write_ps2_command-IsSettled byte s v =
    if-keeps IsSettled (byte == 237 || byte == 240 || byte == 243) (push_keyboard-IsSettled _ _) (
      if-keeps IsSettled (byte == 242) (push_keyboard-IsSettled _ _) (
        if-keeps IsSettled (byte == 244) (push_keyboard-IsSettled _ _) (
          if-keeps IsSettled (byte == 245) (push_keyboard-IsSettled _ _) (
            if-keeps IsSettled (byte == 246) (push_keyboard-IsSettled _ _)
              (if-keeps IsSettled (byte == 255) (push_keyboard-IsSettled _ _) v)))))

raise_unread-IsSettled : (irq : ℕ) (s : Ps2) → IsSettled s → IsSettled (raise_unread irq s)
unfolding raise_unread raise_irq raise_line
raise_unread-IsSettled irq s v = if-keeps IsSettled s.output_data_is_read v v

command_effect-IsSettled :
    (command : ℕ) (s : Ps2) → IsSettled s → IsSettled (command_effect command s)
unfolding command_effect
command_effect-IsSettled command s v =
    if-keeps IsSettled (command == 32) (push_keyboard-IsSettled _ _) (
      if-keeps IsSettled (command == 96) v (
        if-keeps IsSettled (command == 167) v (
          if-keeps IsSettled (command == 168)
            (raise_unread-IsSettled _ _ (fill_output_data-IsSettled _))
            (if-keeps IsSettled (command == 169) (push_keyboard-IsSettled _ _) (
              if-keeps IsSettled (command == 170) (push_keyboard-IsSettled _ _) (
                if-keeps IsSettled (command == 171) (push_keyboard-IsSettled _ _) (
                  if-keeps IsSettled (command == 173) v (
                    if-keeps IsSettled (command == 174)
                      (raise_unread-IsSettled _ _ (fill_output_data-IsSettled _))
                      (if-keeps IsSettled (leb 209 command && leb command 212) v
                        (if-keeps IsSettled (command == 254) v v))))))))))

write_command_port-IsSettled :
    (command : ℕ) (s : Ps2) → IsSettled s → IsSettled (write_command_port command s)
unfolding write_command_port
write_command_port-IsSettled command s v = command_effect-IsSettled command s v

write_scancode_set-ResultIsSettled :
    (byte : ℕ) (s : Ps2) → IsSettled s → ResultIsSettled (write_scancode_set byte s)
unfolding write_scancode_set
write_scancode_set-ResultIsSettled byte s v =
    if-keeps ResultIsSettled (byte == 0) (push_keyboard-IsSettled _ _)
      (if-keeps ResultIsSettled (byte == 2) v tt)

data_effect-ResultIsSettled :
    (command byte : ℕ) (s : Ps2) → IsSettled s → ResultIsSettled (data_effect command byte s)
unfolding data_effect
data_effect-ResultIsSettled command byte s v =
    if-keeps ResultIsSettled (command == 0) (write_ps2_command-IsSettled byte s v) (
      if-keeps ResultIsSettled (command == 96) v (
        if-keeps ResultIsSettled (command == 209) v (
          if-keeps ResultIsSettled (command == 211) (push_mouse-IsSettled _ _) (
            if-keeps ResultIsSettled (command == 212) (write_mouse_command-ResultIsSettled byte s v)
              (if-keeps ResultIsSettled (command == 237) (push_keyboard-IsSettled _ _) (
                if-keeps ResultIsSettled (command == 240)
                  (write_scancode_set-ResultIsSettled byte _ (push_keyboard-IsSettled _ _))
                  (if-keeps ResultIsSettled (command == 243) (push_keyboard-IsSettled _ _) v)))))))

pub write-ResultIsSettled :
    (base byte : ℕ) (s : Ps2) → IsSettled s → ResultIsSettled (write base byte s)
unfolding write write_data_port
write-ResultIsSettled base byte s v =
    if-keeps ResultIsSettled (base == 100) (write_command_port-IsSettled byte s v) (
      if-keeps ResultIsSettled (base == 96) (data_effect-ResultIsSettled _ byte _ v)
        (if-keeps ResultIsSettled (base == 146) v v))

pub read-IsSettled : (base byte : ℕ) (s : Ps2) → IsSettled s → IsSettled (read base byte s).0
unfolding read
read-IsSettled base byte s v =
    if-keeps (λ (r : Ps2 × ℕ). IsSettled r.0) (base == 100) v
      (if-keeps (λ (r : Ps2 × ℕ). IsSettled r.0) (base == 96) (read_data-IsSettled s)
        (if-keeps (λ (r : Ps2 × ℕ). IsSettled r.0) (base == 146) v v))
