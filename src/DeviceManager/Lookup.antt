-- ===== src/DeviceManager/Lookup.antt =====
-- `HandleIo` and `HandleMmio` of core/device_manager.cc: the call of the device that an access finds.
use mvisor_x.Base.{
  ℕ, zero, suc, ◌-◌, ◌*◌, Bool, true, false, List, [], ◌++◌, Option, none, some, take, drop,
  replicate,
}
use mvisor_x.DeviceManager.{IoResource, IoHandler, DeviceManager, find_handler, move_to_front}

-- `Write` and `Read` of the devices, which also may call the manager: resource, offset, and the bytes
-- of the buffer
pub record Devices (S : Type 0) : Type 0 where
  pub write : ℕ → IoResource → ℕ → List ℕ → S → S
  pub read : ℕ → IoResource → ℕ → List ℕ → S → List ℕ × S

module _ {T : Type 0} (devices : Devices T) where
  unfoldable pub write_each : ℕ → IoHandler → ℕ → ℕ → List ℕ → T → T
  write_each zero h offset size bytes s = s
  write_each (suc count) h offset size bytes s =
      write_each count h offset size (drop size bytes)
        (devices.write h.device h.resource offset (take size bytes) s)

  unfoldable pub read_each : ℕ → IoHandler → ℕ → ℕ → List ℕ → T → List ℕ × T
  read_each zero h offset size bytes s = ([], s)
  read_each (suc count) h offset size bytes s =
      let (bytes1, s1) = devices.read h.device h.resource offset (take size bytes) s in
      let (rest, s2) = read_each count h offset size (drop size bytes) s1 in (bytes1 ++ rest, s2)

  -- what is in the buffer at the end, and the state
  unfoldable pub call_device : Bool → ℕ → IoHandler → ℕ → ℕ → List ℕ → T → List ℕ × T
  call_device true count h a size bytes s =
      (bytes, write_each count h (a - h.resource.base) size bytes s)
  call_device false count h a size bytes s =
      let (read, s1) = read_each count h (a - h.resource.base) size bytes s in
      (read ++ drop (size * count) bytes, s1)

  abbrev pub io_found : Option (ℕ × IoHandler) → Bool → ℕ → ℕ → ℕ → List ℕ → T → List ℕ × T
  io_found none is_write count port size bytes s = (replicate size 255 ++ drop size bytes, s)
  io_found (some (i, h)) is_write count port size bytes s =
      call_device is_write count h port size bytes s

  abbrev pub mmio_found : Option (ℕ × IoHandler) → Bool → ℕ → ℕ → List ℕ → T → List ℕ × T
  mmio_found none true a size bytes s = (bytes, s)
  mmio_found none false a size bytes s = (replicate size 0 ++ drop size bytes, s)
  mmio_found (some (i, h)) is_write a size bytes s = call_device is_write 1 h a size bytes s

module _ {M S : Type 0} (devices : Devices (DeviceManager M × S)) where
  -- `HandleIo`
  unfoldable pub handle_io :
      ℕ → List ℕ → ℕ → Bool → ℕ → DeviceManager M × S → List ℕ × (DeviceManager M × S)
  handle_io port bytes size is_write count (m, s) =
      let found = find_handler 0 port m.pio_handlers in
      io_found devices found is_write count port size bytes
        (record m { pio_handlers = move_to_front found m.pio_handlers }, s)

  -- `HandleMmio`
  unfoldable pub handle_mmio :
      ℕ → List ℕ → ℕ → Bool → DeviceManager M × S → List ℕ × (DeviceManager M × S)
  handle_mmio a bytes size is_write (m, s) =
      let found = find_handler 0 a m.mmio_handlers in
      mmio_found devices found is_write a size bytes
        (record m { mmio_handlers = move_to_front found m.mmio_handlers }, s)
