-- ===== src/Ps2/Saved.antt =====
-- The saved state of the PS/2 controller: `SaveState` and `LoadState` of devices/superio/ps2.cc.
-- The queues, the output register and the command in progress are not part of it.
use mvisor_x.Base.{ℕ, ◌<◌, ◌≤◌, ◌≡◌, ◌==◌, if◌then◌else◌, u8, arith}
use mvisor_x.Ps2.{Mouse, Ps2}

-- the messages of ps2.proto
pub record MouseState : Type 0 where
  pub buttons : ℕ
  pub dx : ℕ
  pub dy : ℕ
  pub resolution : ℕ
  pub sample_rate : ℕ
  pub scaling : ℕ
  pub stream_mode : ℕ

pub record Ps2State : Type 0 where
  pub status : ℕ
  pub mode : ℕ
  pub leds : ℕ
  pub scancode_set : ℕ
  pub mouse : MouseState
  pub a20_gate : ℕ

-- `SaveState`
unfoldable pub save_state : Ps2 → Ps2State
save_state s = record {
  status = s.status;
  mode = s.mode;
  leds = s.keyboard.leds;
  scancode_set = s.keyboard.scancode_set;
  mouse = record {
    buttons = s.mouse.buttons;
    dx = s.mouse.dx;
    dy = s.mouse.dy;
    resolution = s.mouse.resolution;
    sample_rate = s.mouse.sample_rate;
    scaling = s.mouse.scaling;
    stream_mode = s.mouse.stream_mode;
  };
  a20_gate = s.a20_gate;
}

unfoldable pub load_mouse : MouseState → Mouse → Mouse
load_mouse t m = record m {
  buttons = u8 t.buttons;
  dx = t.dx;
  dy = t.dy;
  resolution = u8 t.resolution;
  sample_rate = u8 t.sample_rate;
  scaling = u8 t.scaling;
  stream_mode = u8 t.stream_mode;
}

-- `LoadState`
unfoldable pub load_state : Ps2State → Ps2 → Ps2
load_state t s = record s {
  status = u8 t.status;
  mode = u8 t.mode;
  a20_gate = if u8 t.a20_gate == 0 then 2 else u8 t.a20_gate;
  keyboard = record s.keyboard { scancode_set = u8 t.scancode_set; leds = u8 t.leds };
  mouse = load_mouse t.mouse s.mouse;
}

-- Saving what was loaded gives the message again, if its fields are bytes and the A20 gate is not
-- 0: nothing of the message is lost on the way.
pub save_state-load_state :
    (t : Ps2State) (s : Ps2)
    → t.status < 256
    → t.mode < 256
    → t.leds < 256
    → t.scancode_set < 256
    → t.mouse.buttons < 256
    → t.mouse.resolution < 256
    → t.mouse.sample_rate < 256
    → t.mouse.scaling < 256
    → t.mouse.stream_mode < 256
    → 1 ≤ t.a20_gate
    → t.a20_gate < 256
    → save_state (load_state t s) ≡ t
unfolding save_state load_state load_mouse
save_state-load_state t s a b c d e f g h i j k = ground arith
