-- ===== src/Uart/Ports.antt =====
-- The port accesses of the four serial ports of devices/superio/uart.cc.
use mvisor_x.Base.{ℕ, Option, none, some, List, [], ◌∷◌, ◌==◌, ◌>>=◌, if◌then◌else◌}
use mvisor_x.Uart.{Console, add_console, update_irq_level, read_register, write_register}

-- the constructor
unfoldable pub uart : List Console
uart = add_console 1016 4 ∷ add_console 760 3 ∷ add_console 1000 4 ∷ add_console 744 3 ∷ []

-- `GetConsoleByIoPortBase`, and the consoles with another one in that place
unfoldable pub get_console_by_io_port_base : ℕ → List Console → Option Console
get_console_by_io_port_base base [] = none
get_console_by_io_port_base base (c ∷ cs) =
    if c.ioport_base == base then some c else get_console_by_io_port_base base cs

unfoldable pub put_console : ℕ → Console → List Console → List Console
put_console base c [] = []
put_console base c (d ∷ ds) = if d.ioport_base == base then c ∷ ds else d ∷ put_console base c ds

-- `Read` and `Write` at one console
unfoldable pub read_port : ℕ → Console → Option (Console × ℕ)
read_port offset c = do (c', byte) ← read_register offset c; some (update_irq_level c', byte)

unfoldable pub write_port : ℕ → ℕ → Console → Option Console
write_port offset byte c = do c' ← write_register offset byte c; some (update_irq_level c')

-- `Read` and `Write`
unfoldable pub read : ℕ → ℕ → List Console → Option (List Console × ℕ)
read base offset cs = do
  c ← get_console_by_io_port_base base cs
  (c', byte) ← read_port offset c
  some (put_console base c' cs, byte)

unfoldable pub write : ℕ → ℕ → ℕ → List Console → Option (List Console)
write base offset byte cs = do
  c ← get_console_by_io_port_base base cs
  c' ← write_port offset byte c
  some (put_console base c' cs)
