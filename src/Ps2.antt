-- ===== src/Ps2.antt =====
-- The PS/2 controller with its keyboard and mouse (devices/superio/ps2.cc): the queues, the output
-- register and the interrupt lines. The commands and the events are in Ps2/Commands.
use mvisor_x.Base.{
  ℕ, ◌-◌, Bool, true, false, Option, none, some, List, [], ◌∷◌, ◌++◌, bit_and, bit_or, ◌==◌,
  has_bits, if◌then◌else◌,
}
pub mod Commands
pub mod Events
pub mod Settled
pub mod Runs
pub mod Pending
pub mod Delivery
pub mod Devices
pub mod Saved
mod Examples

-- the field `mouse_`
pub record Mouse : Type 0 where
  pub buttons : ℕ
  pub dx : ℕ
  pub dy : ℕ
  pub resolution : ℕ
  pub sample_rate : ℕ
  pub command : ℕ
  pub scaling : ℕ
  pub id : ℕ
  pub stream_mode : ℕ
  pub disable_streaming : Bool

-- the field `keyboard_`
pub record Keyboard : Type 0 where
  pub leds : ℕ
  pub scancode_set : ℕ
  pub disable_scanning : Bool

-- `Ps2`, with the calls of `SetGsiLevel`, the last one last, and the number of calls of
-- `machine()->Reset()`; -1 in `raised_irq_` is `none`
pub record Ps2 : Type 0 where
  pub keyboard_queue : List ℕ
  pub mouse_queue : List ℕ
  pub status : ℕ
  pub mode : ℕ
  pub last_command : ℕ
  pub output_data : ℕ
  pub output_data_is_read : Bool
  pub raised_irq : Option ℕ
  pub a20_gate : ℕ
  pub mouse : Mouse
  pub keyboard : Keyboard
  pub debug : Bool
  pub levels : List (ℕ × Bool)
  pub machine_resets : ℕ

-- `x &= ~mask` for bytes
abbrev pub clear_bits : ℕ → ℕ → ℕ
clear_bits x mask = bit_and x (255 - mask)

abbrev pub response_ack : ℕ
response_ack = 250

abbrev pub keyboard_irq : ℕ
keyboard_irq = 1

abbrev pub mouse_irq : ℕ
mouse_irq = 12

-- the last statement of `RaiseIrq`
unfoldable pub raise_line : Bool → ℕ → Ps2 → Ps2
raise_line enabled irq s = record s {
  levels = if enabled then s.levels ++ (irq, false) ∷ (irq, true) ∷ [] else s.levels;
  raised_irq = if enabled then some irq else s.raised_irq;
}

-- `RaiseIrq`: bit 0 of the status is OFULL and bit 5 is AUXDATA
unfoldable pub raise_irq : ℕ → Ps2 → Ps2
raise_irq irq s =
    let from_mouse = irq == mouse_irq in
    let full = bit_or s.status 1 in
    raise_line (if from_mouse then has_bits s.mode 2 else has_bits s.mode 1) irq
      (record s { status = if from_mouse then bit_or full 32 else clear_bits full 32 })

-- `FillOutputData`, with the tests of the output register and the queues as arguments
unfoldable pub fill : Bool → List ℕ → List ℕ → Ps2 → Ps2
fill false (k ∷ ks) ms s = raise_irq keyboard_irq s
fill false [] (m ∷ ms) s = raise_irq mouse_irq s
fill false [] [] s = s
fill true (k ∷ ks) ms s =
    raise_irq keyboard_irq
      (record s { output_data = k; keyboard_queue = ks; output_data_is_read = false })
fill true [] (m ∷ ms) s =
    raise_irq mouse_irq
      (record s { output_data = m; mouse_queue = ms; output_data_is_read = false })
fill true [] [] s = s

unfoldable pub fill_output_data : Ps2 → Ps2
fill_output_data s = fill s.output_data_is_read s.keyboard_queue s.mouse_queue s

-- `PushKeyboard`, `PushMouse` and `PushMouse4`
unfoldable pub push_keyboard : ℕ → Ps2 → Ps2
push_keyboard byte s =
    fill_output_data (record s { keyboard_queue = s.keyboard_queue ++ byte ∷ [] })

unfoldable pub push_mouse : ℕ → Ps2 → Ps2
push_mouse byte s = fill_output_data (record s { mouse_queue = s.mouse_queue ++ byte ∷ [] })

unfoldable pub push_mouse_4 : ℕ → ℕ → ℕ → ℕ → Ps2 → Ps2
push_mouse_4 a b c d s =
    fill_output_data
      (record s { mouse_queue = (((s.mouse_queue ++ a ∷ []) ++ b ∷ []) ++ c ∷ []) ++ d ∷ [] })

-- the interrupt line that `ReadData` lowers
unfoldable pub lower_line : Option ℕ → List (ℕ × Bool) → List (ℕ × Bool)
lower_line none levels = levels
lower_line (some irq) levels = levels ++ (irq, false) ∷ []

-- `ReadData`
unfoldable pub read_data : Ps2 → Ps2 × ℕ
read_data s = (
  fill_output_data (record s {
    status = clear_bits s.status 33;
    levels = lower_line s.raised_irq s.levels;
    raised_irq = none;
    output_data_is_read = true;
  }),
  s.output_data,
)

-- `ResetKeyboard` and `ResetMouse`
unfoldable pub reset_keyboard : Ps2 → Ps2
reset_keyboard s = record s {
  keyboard_queue = [];
  keyboard = record { leds = s.keyboard.leds; scancode_set = 2; disable_scanning = false };
}

unfoldable pub reset_mouse : Ps2 → Ps2
reset_mouse s = record s {
  mouse_queue = [];
  mouse = record {
    buttons = s.mouse.buttons;
    dx = 0;
    dy = 0;
    resolution = 4;
    sample_rate = 100;
    command = 0;
    scaling = 1;
    id = 3;
    stream_mode = 1;
    disable_streaming = false;
  };
}

-- `Reset`
unfoldable pub reset : Ps2 → Ps2
reset s = reset_mouse (
    reset_keyboard (record s {
      status = 24;
      mode = 5;
      raised_irq = none;
      last_command = 0;
      output_data_is_read = true;
      a20_gate = clear_bits s.a20_gate 1;
    }))
