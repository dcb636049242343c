-- ===== src/PciDevice/Examples.antt =====
-- Tests of the registers of core/pci_device.cc: a device with a port register of 64 bytes and a memory
-- register of 4096, and one with a register of 64 bits, one of memory and a ROM.
use mvisor_x.Base.{
  ℕ, zero, suc, ◌-◌, ◌+◌, ◌^◌, ◌≡◌, refl, true, List, [], ◌∷◌, Option, none, some, arith, bit_and,
}
use mvisor_x.PciDevice.{
  pio, mmio, PciDevice, no_bar, bar_at, header_bar, activate_pci_bar, deactivate_pci_bar,
  remove_resource, update_pci_bar_address, write_bar, command_bar, command_bars, command_rom,
  write_pci_command, update_rom_bar_address, Managers, is_typed, is_usable, ram, write_rom_bar,
}
use mvisor_x.PciDevice.Access.{
  Access, command_write, bar_write, rom_write, write_access, run_accesses,
}
use mvisor_x.PciDevice.Registered.{registered, expected}
use mvisor_x.PciDevice.Sizing.{write_bar-sizing}
use mvisor_x.PciDevice.Setup.{
  bar32, bar64, Setup, setup_pci_bar, setup_pci_bar64, run_setup, run_setups, host_memory_of,
}
use mvisor_x.PciDevice.Started.{run_setups-IsIdle}
use mvisor_x.PciDevice.Load.{
  Saved, save_state, load_bar, load_bars, load_state, save_state-load_state,
}

abbrev device : PciDevice
device = record {
  command = 0;
  status = 0;
  header_bars = 1 ∷ 0 ∷ 0 ∷ 0 ∷ 0 ∷ 0 ∷ [];
  bars =
      record no_bar { type = pio; address_mask = 4294967292; special_bits = 1; size64 = 64 }
      ∷ record no_bar { type = mmio; address_mask = 4294967280; size64 = 4096 }
      ∷ no_bar
      ∷ no_bar
      ∷ no_bar
      ∷ no_bar
      ∷ [];
  rom_bar = 0;
  rom_size = 0;
  rom_mapped = none;
  resources = [];
  levels = [];
}

-- managers that do not panic
abbrev managers : Managers
managers = record { enables = λ i d. true; maps_rom = λ address d. true }

abbrev accesses : List Access
accesses = bar_write 1 4261412864 ∷ command_write 2 ∷ bar_write 1 4261416960 ∷ []

abbrev device_of : Option PciDevice → PciDevice
device_of none = device
device_of (some d) = d

-- the memory register has moved, and its resource with it
moved_resource :
    registered 1 (device_of (run_accesses managers accesses device)).resources
    ≡ (4261416960, 4096) ∷ []
unfolding registered run_accesses write_access write_bar update_pci_bar_address write_pci_command
    command_bars command_bar command_rom activate_pci_bar deactivate_pci_bar remove_resource
    update_rom_bar_address
moved_resource = refl

write_bar-sizing_example :
    (d' : PciDevice) × (write_bar managers 1 4294967295 device ≡ some d')
    × (header_bar 1 d' ≡ 4294967296 - 2 ^ 12 + 0)
    × (4294967296 - bit_and (header_bar 1 d') 4294967280 ≡ 2 ^ 12)
write_bar-sizing_example =
    write_bar-sizing managers 1 12 0 device (omega arith) refl refl refl (omega arith) (omega arith)
      (omega arith)

-- a device before its constructor sets up registers, and a set-up with a register of 64 bits
abbrev blank : PciDevice
blank = record device {
  header_bars = 0 ∷ 0 ∷ 0 ∷ 0 ∷ 0 ∷ 0 ∷ [];
  bars = no_bar ∷ no_bar ∷ no_bar ∷ no_bar ∷ no_bar ∷ no_bar ∷ [];
  rom_size = 65536;
}

abbrev setups : List Setup
setups = bar32 0 64 pio ∷ bar64 1 8589934592 mmio ∷ bar32 3 8192 ram ∷ host_memory_of 3 ∷ []

blank_lem : (j : ℕ) → bar_at j blank ≡ no_bar
blank_lem zero = refl
blank_lem (suc zero) = refl
blank_lem (suc (suc zero)) = refl
blank_lem (suc (suc (suc zero))) = refl
blank_lem (suc (suc (suc (suc zero)))) = refl
blank_lem (suc (suc (suc (suc (suc zero))))) = refl
blank_lem (suc (suc (suc (suc (suc (suc i)))))) = refl

setups_lem : run_setups setups blank ≡ some (device_of (run_setups setups blank))
unfolding run_setups run_setup setup_pci_bar setup_pci_bar64
setups_lem = refl

abbrev enabled : PciDevice
enabled = device_of (run_setups setups blank)

enabled_usable :
    (j : ℕ) → is_typed (bar_at j enabled).type ≡ true → is_usable (bar_at j enabled) ≡ true
unfolding run_setups run_setup setup_pci_bar setup_pci_bar64
enabled_usable zero e = refl
enabled_usable (suc zero) e = refl
enabled_usable (suc (suc zero)) e = absurd (cc)
enabled_usable (suc (suc (suc zero))) e = refl
enabled_usable (suc (suc (suc (suc zero)))) e = absurd (cc)
enabled_usable (suc (suc (suc (suc (suc zero))))) e = absurd (cc)
enabled_usable (suc (suc (suc (suc (suc (suc i)))))) e = absurd (cc)

abbrev accesses_with_rom : List Access
accesses_with_rom =
    bar_write 1 4261412864 ∷ rom_write 4273995777 ∷ command_write 3 ∷ bar_write 1 4278190080 ∷ []

-- the ROM is mapped once memory is decoded
mapped_rom :
    (device_of
      (run_accesses managers (rom_write 4273995777 ∷ command_write 3 ∷ []) enabled)).rom_mapped
    ≡ some 4273995776
unfolding run_accesses write_access write_rom_bar write_pci_command command_bars command_bar
    command_rom activate_pci_bar deactivate_pci_bar update_rom_bar_address run_setups run_setup
    setup_pci_bar setup_pci_bar64
mapped_rom = refl

-- memory and ports are decoded, and both registers have an address
abbrev saved : Saved
saved = record {
  command = 3;
  status = 0;
  header_bars = 49153 ∷ 4261412868 ∷ 1 ∷ 4273995784 ∷ 0 ∷ 0 ∷ [];
  rom_bar = 0;
}

save_state-load_state_example :
    (d' : PciDevice) × (load_state managers saved enabled ≡ some d')
    × (save_state d' ≡ saved)
    × (registered 1 d'.resources ≡ expected (bar_at 1 d'))
save_state-load_state_example =
    save_state-load_state managers (λ j d. refl) saved enabled 1
      (run_setups-IsIdle setups blank enabled blank_lem refl (refl, (refl, tt)) setups_lem)
      enabled_usable

-- the upper half of an address, 1, is lost by the mask of the lower half
loaded_low :
    registered 1 (device_of (load_state managers saved enabled)).resources
    ≡ (4261412864, 8589934592) ∷ []
unfolding registered load_state load_bars load_bar activate_pci_bar run_setups run_setup
    setup_pci_bar setup_pci_bar64
loaded_low = refl
