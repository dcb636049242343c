-- ===== src/DeviceManager/Dispatch.antt =====
-- Sequences of registrations and accesses to ports in core/device_manager.cc, on_devices a manager that
-- keeps its handlers in the order of registration.
use mvisor_x.Base.{ℕ, Bool, List, [], ◌∷◌, Option, none, some, ◌>>=◌}
use mvisor_x.DeviceManager.{
  IoResource, Host, DeviceManager, register_io_handler, unregister_io_handler, find_handler,
}
use mvisor_x.DeviceManager.Lookup.{Devices, io_found}
use mvisor_x.DeviceManager.Registry.{IsRange}

pub data Event : Type 0 where
  register : ℕ → IoResource → Event
  unregister : ℕ → IoResource → Event
  access : ℕ → List ℕ → ℕ → Bool → ℕ → Event

-- every resource is a range
abbrev pub AreRanges : List Event → Type 0
AreRanges [] = Unit {0}
AreRanges (register device r ∷ events) = IsRange r × AreRanges events
AreRanges (unregister device r ∷ events) = AreRanges events
AreRanges (access port bytes size is_write count ∷ events) = AreRanges events

-- devices that leave the manager alone
abbrev pub on_devices : {M S : Type 0} → Devices S → Devices (DeviceManager M × S)
on_devices devices = record {
  write = λ device r offset bytes (m, s). (m, devices.write device r offset bytes s);
  read = λ device r offset bytes (m, s).
      let (bytes1, s1) = devices.read device r offset bytes s in (bytes1, (m, s1));
}

abbrev pub prepend : {S : Type 0} → List ℕ → Option (List (List ℕ) × S) → Option (List (List ℕ) × S)
prepend out none = none
prepend out (some (outs, s)) = some (out ∷ outs, s)

module _ {M S : Type 0} (host : Host M) (devices : Devices S) where
  -- an access without the move to the front
  unfoldable pub plain_io :
      ℕ → List ℕ → ℕ → Bool → ℕ → DeviceManager M × S → List ℕ × (DeviceManager M × S)
  plain_io port bytes size is_write count (m, s) =
      let (read, s1) =
        io_found devices (find_handler 0 port m.pio_handlers) is_write count port size bytes s in
      (read, (m, s1))

  unfoldable pub step :
      (ℕ → List ℕ → ℕ → Bool → ℕ → DeviceManager M × S → List ℕ × (DeviceManager M × S))
      → Event
      → DeviceManager M × S
      → Option (List ℕ × (DeviceManager M × S))
  step io (register device r) (m, s) =
      register_io_handler host device r m >>= λ m1. some ([], (m1, s))
  step io (unregister device r) (m, s) =
      unregister_io_handler host device r m >>= λ m1. some ([], (m1, s))
  step io (access port bytes size is_write count) st = some (io port bytes size is_write count st)

  -- what the guest reads, and the devices at the end
  unfoldable pub run :
      (ℕ → List ℕ → ℕ → Bool → ℕ → DeviceManager M × S → List ℕ × (DeviceManager M × S))
      → List Event
      → DeviceManager M × S
      → Option (List (List ℕ) × S)
  run io [] (m, s) = some ([], s)
  run io (e ∷ events) st = step io e st >>= λ (out, st1). prepend out (run io events st1)
