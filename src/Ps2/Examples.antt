-- ===== src/Ps2/Examples.antt =====
-- Runs of the PS/2 controller of devices/superio/ps2.cc, and the theorems at them.
use mvisor_x.Base.{
  ◌≡◌, refl, true, false, none, List, [], ◌∷◌, arith, bit_and, has_bits, pos, negsuc,
}
use mvisor_x.Ps2.{Ps2}
use mvisor_x.Ps2.Events.{queue_keyboard_event, queue_mouse_event, packet_state, is_lock, plain_code}
use mvisor_x.Ps2.Settled.{ResultIsSettled}
use mvisor_x.Ps2.Runs.{Access, run, run-ResultIsSettled}
use mvisor_x.Ps2.Pending.{read_times, read_times-pending}
use mvisor_x.Ps2.Delivery.{queue_keyboard_event-read}
use mvisor_x.Ps2.Devices.{way, queue_mouse_event-read}

-- the controller after a reset, at work
abbrev idle : Ps2
idle = record {
  keyboard_queue = [];
  mouse_queue = [];
  status = 24;
  mode = 3;
  last_command = 0;
  output_data = 0;
  output_data_is_read = true;
  raised_irq = none;
  a20_gate = 2;
  mouse = record {
    buttons = 0;
    dx = 0;
    dy = 0;
    resolution = 4;
    sample_rate = 100;
    command = 0;
    scaling = 1;
    id = 3;
    stream_mode = 1;
    disable_streaming = false;
  };
  keyboard = record { leds = 0; scancode_set = 2; disable_scanning = false };
  debug = false;
  levels = [];
  machine_resets = 0;
}

-- a byte of the mouse in the output register, and two behind it
abbrev busy : Ps2
busy = record idle {
  output_data = 8;
  output_data_is_read = false;
  mouse_queue = 5 ∷ 6 ∷ [];
  status = 57;
}

-- the guest asks for a mouse command
abbrev asked : Ps2
asked = record idle { last_command = 212 }

abbrev accesses : List Access
accesses =
    Access.press (224 ∷ 77 ∷ []) 0
    ∷ Access.move 1 (pos 3) (negsuc 1) (pos 0)
    ∷ Access.read_port 96
    ∷ Access.write_port 100 212
    ∷ Access.write_port 96 255
    ∷ []

run-ResultIsSettled_example : ResultIsSettled (run accesses idle)
run-ResultIsSettled_example = run-ResultIsSettled accesses idle (refl, refl)

read_times-pending_example : read_times 3 busy ≡ 8 ∷ 5 ∷ 6 ∷ []
read_times-pending_example = read_times-pending (8 ∷ 5 ∷ 6 ∷ []) busy tt refl

right_arrow-plain : is_lock (plain_code (224 ∷ 77 ∷ [])) ≡ false
unfolding is_lock plain_code
right_arrow-plain = refl

queue_keyboard_event-read_example :
    read_times 2 (queue_keyboard_event (224 ∷ 77 ∷ []) 0 idle).0 ≡ 224 ∷ 77 ∷ []
queue_keyboard_event-read_example =
    queue_keyboard_event-read (224 ∷ 77 ∷ []) 0 idle (refl, refl) refl refl refl refl
      right_arrow-plain

queue_mouse_event-read_example :
    let state = packet_state 1 false true in
    (read_times 4 (queue_mouse_event 1 (pos 3) (pos 2) (pos 0) idle).0 ≡ state ∷ 3 ∷ 254 ∷ 0 ∷ [])
    × (bit_and state 7 ≡ 1)
    × (way (has_bits state 16) 3 ≡ pos 3)
    × (way (has_bits state 32) 254 ≡ negsuc 1)
queue_mouse_event-read_example =
    queue_mouse_event-read 1 (pos 3) (pos 2) (pos 0) idle (refl, refl) refl refl (omega arith)
      (omega arith) (omega arith)
