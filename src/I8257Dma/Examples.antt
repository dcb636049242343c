-- ===== src/I8257Dma/Examples.antt =====
-- Runs of the DMA controllers of devices/superio/i8257_dma.cc, and the theorems at them.
use mvisor_x.Base.{◌≡◌, refl, true, some, arith, ◌>>=◌}
use mvisor_x.I8257Dma.{I8257DmaChannel, reset, wait_for_channel}
use mvisor_x.I8257Dma.Bytes.{reset-IsValid}
use mvisor_x.I8257Dma.Saved.{save_state, load_state, load_state-save_state}
use mvisor_x.I8257Dma.Buffer.{buffer_of, run_writes, program, wait_for_channel-program}

-- the floppy's channel: 0x123456 with 512 bytes
abbrev floppy : I8257DmaChannel
floppy = record {
  mode = 0;
  base = record { low = 86; high = 52 };
  count = record { low = 255; high = 1 };
  page = 18;
}

floppy_buffer :
    buffer_of true floppy ≡ record { address = 1193046; length = 512; dirty = some (1193046, 512) }
floppy_buffer = refl

wait_for_channel-program_example :
    (run_writes (program 2 floppy) reset >>= wait_for_channel true 2) ≡ some (buffer_of true floppy)
wait_for_channel-program_example =
    wait_for_channel-program true 2 floppy reset (omega arith) (omega arith)
      (omega arith, omega arith) (omega arith, omega arith)

load_state-save_state_example : load_state (save_state reset) reset ≡ reset
load_state-save_state_example = load_state-save_state reset reset reset-IsValid
