-- ===== src/Uart/Examples.antt =====
-- The theorems about the serial ports of devices/superio/uart.cc, at the first of them.
use mvisor_x.Base.{◌≡◌, refl, some, [], ◌∷◌, arith, replicate}
use mvisor_x.Uart.{Console}
use mvisor_x.Uart.Ports.{write_port}
use mvisor_x.Uart.Valid.{IsValid, Succeeds, write_port-Succeeds}
use mvisor_x.Uart.Output.{write_port-printed}

abbrev com_1 : Console
com_1 = record {
  ioport_base = 1016;
  irq_line = 4;
  irq_status = 0;
  write_count = 0;
  read_count = 2;
  read_done = 0;
  read_buffer = 65 ∷ 66 ∷ replicate 62 0;
  write_buffer = replicate 64 0;
  interrupt_id = 1;
  interrupt_enable = 0;
  fifo_control = 0;
  line_control = 3;
  line_status = 97;
  modem_status = 176;
  modem_control = 8;
  scratch = 0;
  divsor_latch = 1;
  levels = [];
  printed = [];
}

com_1-IsValid : IsValid com_1
com_1-IsValid = (refl, omega arith, omega arith, refl, refl)

write_port-Succeeds_example : Succeeds (write_port 0 67 com_1)
write_port-Succeeds_example = write_port-Succeeds 0 67 com_1 refl com_1-IsValid

write_port-printed_example :
    (c' : Console) × (write_port 0 67 com_1 ≡ some c') × (c'.printed ≡ 67 ∷ [])
write_port-printed_example = write_port-printed 67 com_1 com_1-IsValid refl refl
