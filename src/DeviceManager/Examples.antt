-- ===== src/DeviceManager/Examples.antt =====
-- Tests of core/device_manager.cc: five ports with a handler each, interrupts, addresses, and a ring.
use mvisor_x.Base.{
  ℕ, suc, ◌+◌, ◌%◌, ◌<◌, ◌≤◌, ◌≡◌, ◌↔◌, refl, true, false, List, [], ◌∷◌, Option, none, some, arith,
  replicate, length, subst, sym, inl, inr,
}
use mvisor_x.PciDevice.{pio, mmio}
use mvisor_x.DeviceManager.{
  IoResource, IoHandler, Host, DeviceManager, find_overlap, erase_handler, register_port,
  register_memory, register_io_handler, unregister_io_handler, find_handler, erase_at,
  move_to_front,
}
use mvisor_x.DeviceManager.Lookup.{Devices, write_each, read_each, call_device, handle_io}
use mvisor_x.DeviceManager.Dispatch.{
  Event, register, unregister, access, on_devices, plain_io, step, run,
}
use mvisor_x.DeviceManager.Registry.{Has, AreApart}
use mvisor_x.DeviceManager.Changes.{IsInside, register_port-none}
use mvisor_x.DeviceManager.Unordered.{handle_io-plain_io}
use mvisor_x.DeviceManager.Routing.{
  RoutingTable, Kvm, erase_route, has_route, master_routes, slave_routes, ioapic_routes,
  update_gsi_routing_table, reset_gsi_routing_table, add_msi_notifier, remove_msi_notifier,
  Notifier, add_msi, remove_msi, change_route, reset_table, change_routes,
}
use mvisor_x.DeviceManager.Vectors.{
  IsInstalled, change_routes-IsInstalled, remove_msi_notifier-add_msi_notifier,
}
use mvisor_x.DeviceManager.Levels.{
  IrqSource, IrqLevels, no_levels, has_id, erase_id, set_pci_irq_level, set_levels, raises,
  level_of,
}
use mvisor_x.DeviceManager.Shared.{set_levels-level_of}
use mvisor_x.DeviceManager.Slots.{
  PciAddress, lookup_pci_device, free_function, free_slot, register_device, unregister_device,
  Registration, arrive, leave, registrations, AreDistinct, registrations-AreDistinct,
  register_device-first_slot,
}
use mvisor_x.DeviceManager.Ring.{Coalesced, deliver_from, flush_coalescing, flush_coalescing-total}

-- a memory manager that counts its regions
abbrev host : Host ℕ
host = record {
  map = λ base length m. (m, m + 1);
  unmap = λ region m. m;
  register_zone = λ base length m. some m;
  unregister_zone = λ base length m. some m;
}

-- devices whose state is the list of what was written, and that answer with their number
abbrev devices : Devices (List (ℕ × List ℕ))
devices = record {
  write = λ device r offset bytes s. (device + offset, bytes) ∷ s;
  read = λ device r offset bytes s. (replicate (length bytes) device, s);
}

abbrev manager : DeviceManager ℕ
manager = record { pio_handlers = []; mmio_handlers = []; memory = 0 }

abbrev port_range : ℕ → IoResource
port_range base = record { type = pio; base = base; length = 8; is_coalescing = false }

abbrev events : List Event
events =
    register 1 (port_range 0)
    ∷ register 2 (port_range 8)
    ∷ register 3 (port_range 16)
    ∷ register 4 (port_range 24)
    ∷ access 25 (0 ∷ 0 ∷ []) 1 false 2
    ∷ access 9 (7 ∷ []) 1 true 1
    ∷ unregister 2 (port_range 8)
    ∷ access 9 (0 ∷ []) 1 false 1
    ∷ []

handle_io-plain_io_example :
    run host devices (handle_io (on_devices devices)) events (manager, [])
    ≡ run host devices (plain_io host devices) events (manager, [])
handle_io-plain_io_example =
    handle_io-plain_io host devices events manager []
      (
        (omega arith, omega arith),
        (
          (omega arith, omega arith),
          ((omega arith, omega arith), ((omega arith, omega arith), tt)),
        ),
      )
      tt

-- the fourth handler answers, the second takes a write, and after its removal nobody answers
events_lem :
    run host devices (handle_io (on_devices devices)) events (manager, [])
    ≡ some ([] ∷ [] ∷ [] ∷ [] ∷ (4 ∷ 4 ∷ []) ∷ (7 ∷ []) ∷ [] ∷ (255 ∷ []) ∷ [], (3, 7 ∷ []) ∷ [])
unfolding run step register_io_handler unregister_io_handler register_port find_overlap
    erase_handler handle_io find_handler move_to_front erase_at call_device read_each write_each
events_lem = refl

abbrev port_handler : ℕ → IoHandler
port_handler base = record { resource = port_range base; device = 1; memory_region = none }

-- the ports 12 to 19 are those of the handler at 8 in part
register_port-none_example :
    (register_port 2 (port_range 12) (port_handler 0 ∷ port_handler 8 ∷ []) ≡ none) ↔ (
      (h : IoHandler) × Has h (port_handler 0 ∷ port_handler 8 ∷ [])
      × ((p : ℕ) × IsInside p h.resource × IsInside p (port_range 12)))
register_port-none_example =
    register_port-none 2 (port_range 12) (port_handler 0 ∷ port_handler 8 ∷ [])
      (
        (omega arith, omega arith),
        λ h m. elim m [
          | inl e ↦ subst (λ k. AreApart k.resource (port_range 0)) (sym e) (inr (omega arith))
          | inr n ↦ absurd n
        ],
        ((omega arith, omega arith), (λ h m. absurd m), tt),
      )
      (omega arith, omega arith)

-- device memory that overlaps device memory is not refused
memory_lem :
    register_io_handler host 2
        (record { type = mmio; base = 4096; length = 16; is_coalescing = false })
        (record manager {
          mmio_handlers =
              record {
                resource = record { type = mmio; base = 4096; length = 16; is_coalescing = false };
                device = 1;
                memory_region = none;
              }
              ∷ [];
        })
      ≡ none
    → ⊥
unfolding register_io_handler register_memory find_overlap
memory_lem e = absurd (cc)

abbrev kvm : Kvm
kvm = record { set_gsi_routing = λ table. true; irqfd = λ assign fd gsi. true }

abbrev blank_table : RoutingTable
blank_table = record { gsi_routing_table = []; next_gsi = 0; installed = [] }

abbrev table_of : Option RoutingTable → RoutingTable
table_of none = blank_table
table_of (some m) = m

abbrev notifiers : List Notifier
notifiers =
    add_msi 4276092928 16 (some 5) ∷ add_msi 4276092928 17 none ∷ remove_msi 24 (some 5) ∷ []

notifiers_lem :
    change_routes kvm (reset_table ∷ notifiers) blank_table
    ≡ some (table_of (change_routes kvm (reset_table ∷ notifiers) blank_table))
unfolding change_routes change_route reset_gsi_routing_table update_gsi_routing_table
    add_msi_notifier remove_msi_notifier has_route erase_route master_routes slave_routes
    ioapic_routes
notifiers_lem = refl

change_routes-IsInstalled_example :
    IsInstalled (table_of (change_routes kvm (reset_table ∷ notifiers) blank_table))
change_routes-IsInstalled_example =
    change_routes-IsInstalled kvm notifiers blank_table
      (table_of (change_routes kvm (reset_table ∷ notifiers) blank_table)) notifiers_lem

abbrev table : RoutingTable
table = table_of (change_routes kvm (reset_table ∷ notifiers) blank_table)

abbrev added : RoutingTable
added = elim (add_msi_notifier kvm 4276092928 18 (some 6) table) [ none ↦ table | some r ↦ r.1 ]

added_lem : add_msi_notifier kvm 4276092928 18 (some 6) table ≡ some (26, added)
unfolding change_routes change_route reset_gsi_routing_table update_gsi_routing_table
    add_msi_notifier remove_msi_notifier has_route erase_route master_routes slave_routes
    ioapic_routes
added_lem = refl

remove_msi_notifier-add_msi_notifier_example :
    (has_route 26 table.gsi_routing_table ≡ false)
    × (has_route 26 added.gsi_routing_table ≡ true)
    × (remove_msi_notifier kvm 26 (some 6) added
        ≡ some (record table { next_gsi = suc table.next_gsi }))
remove_msi_notifier-add_msi_notifier_example =
    remove_msi_notifier-add_msi_notifier kvm 4276092928 18 (some 6) table added 26
      (change_routes-IsInstalled kvm notifiers blank_table table notifiers_lem) added_lem refl refl

abbrev source : ℕ → IrqSource
source id = record { id = id; slot = id; function = 0; irq_pin = 1; irq_line = 0 }

abbrev calls : List (IrqSource × ℕ)
calls = (source 1, 1) ∷ (source 5, 1) ∷ (source 1, 0) ∷ []

-- the chipset leads slots to four interrupts
abbrev translator : Option (ℕ → ℕ → ℕ → ℕ)
translator = some (λ slot function pin. 16 + slot % 4)

abbrev levels : IrqLevels
levels = elim (set_levels translator (λ gsi level. true) calls no_levels) [
  | none ↦ no_levels
  | some m ↦ m
]

levels_lem : set_levels translator (λ gsi level. true) calls no_levels ≡ some levels
unfolding set_levels set_pci_irq_level has_id erase_id
levels_lem = refl

set_levels-level_of_example :
    (level_of 17 levels.lines ≡ 1)
    ↔ ((id : ℕ) × (raises translator (λ gsi level. true) calls 17 id false ≡ true))
set_levels-level_of_example =
    set_levels-level_of translator (λ gsi level. true) calls levels 17 levels_lem

abbrev new_device : PciAddress
new_device = record { bus = 0; slot = 255; function = 0 }

abbrev at_slot : ℕ → PciAddress
at_slot slot = record { bus = 0; slot = slot; function = 0 }

abbrev arrivals : List Registration
arrivals =
    arrive none (at_slot 0)
    ∷ arrive none new_device
    ∷ arrive none new_device
    ∷ leave (at_slot 1)
    ∷ arrive (some (128, 2)) new_device
    ∷ []

arrivals_lem :
    registrations arrivals []
    ≡ some (record (at_slot 2) { function = 1 } ∷ at_slot 2 ∷ at_slot 0 ∷ [])
unfolding registrations register_device unregister_device free_slot free_function lookup_pci_device
arrivals_lem = refl

registrations-AreDistinct_example :
    AreDistinct (record (at_slot 2) { function = 1 } ∷ at_slot 2 ∷ at_slot 0 ∷ [])
registrations-AreDistinct_example =
    registrations-AreDistinct arrivals
      (record (at_slot 2) { function = 1 } ∷ at_slot 2 ∷ at_slot 0 ∷ []) arrivals_lem

register_device-first_slot_example :
    (s : ℕ) × (register_device none new_device (at_slot 1 ∷ []) ≡ some (at_slot s ∷ at_slot 1 ∷ []))
    × (1 ≤ s)
    × (s < 31)
    × (lookup_pci_device (at_slot s) (at_slot 1 ∷ []) ≡ false)
    × ((q : ℕ) → 1 ≤ q → q < s → lookup_pci_device (at_slot q) (at_slot 1 ∷ []) ≡ true)
unfolding lookup_pci_device
register_device-first_slot_example =
    register_device-first_slot new_device (at_slot 1 ∷ []) 7 refl (omega arith) (omega arith) refl

-- a write that was put off at each place of the ring
abbrev entries : ℕ → Coalesced
entries i = record { phys_addr = i; len = 1; to_port = true; bytes = replicate 8 i }

flush_coalescing-total_example :
    flush_coalescing (on_devices devices) entries 170 168 1 (manager, [])
    ≡ some (1, deliver_from (on_devices devices) entries 3 168 (manager, []))
flush_coalescing-total_example =
    flush_coalescing-total (on_devices devices) entries 168 1 (manager, []) (omega arith)
      (omega arith)
