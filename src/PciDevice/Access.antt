-- ===== src/PciDevice/Access.antt =====
-- The accesses of core/pci_device.cc one after the other, and `Disconnect`.
use mvisor_x.Base.{ℕ, ◌<◌, zero, suc, List, [], ◌∷◌, Option, some, ◌>>=◌, ◌-◌, bit_and}
use mvisor_x.PciDevice.{
  Managers, PciDevice, deactivate_pci_bar, write_bar, write_rom_bar, write_pci_command,
}

-- `Disconnect`, where `DeactivatePciBar` does nothing to a register that is not active
unfoldable pub disconnect_bars : ℕ → ℕ → PciDevice → PciDevice
disconnect_bars i zero d = d
disconnect_bars i (suc left) d = disconnect_bars (suc i) left (deactivate_pci_bar i d)

-- what reaches the registers: a write of the command, of the status, of a base address register or
-- of the ROM register, `Reset` with the status and the command of `default_pci_header_`, and
-- `Disconnect`
pub data Access : Type 0 where
  command_write : ℕ → Access
  status_write : ℕ → Access
  bar_write : ℕ → ℕ → Access
  rom_write : ℕ → Access
  reset : ℕ → ℕ → Access
  disconnect : Access

-- the ROM register is written only where there is a ROM
abbrev pub AreAllowed : ℕ → List Access → Type 0
AreAllowed rom_size [] = Unit {0}
AreAllowed rom_size (command_write v ∷ accesses) = AreAllowed rom_size accesses
AreAllowed rom_size (status_write v ∷ accesses) = AreAllowed rom_size accesses
AreAllowed rom_size (bar_write i v ∷ accesses) = AreAllowed rom_size accesses
AreAllowed rom_size (rom_write v ∷ accesses) = (0 < rom_size) × AreAllowed rom_size accesses
AreAllowed rom_size (reset status command ∷ accesses) = AreAllowed rom_size accesses
AreAllowed rom_size (disconnect ∷ accesses) = AreAllowed rom_size accesses

module _ (managers : Managers) where
  unfoldable pub write_access : Access → PciDevice → Option PciDevice
  write_access (command_write v) d = write_pci_command managers v d
  write_access (status_write v) d = some (record d { status = bit_and d.status (65535 - v) })
  write_access (bar_write i v) d = write_bar managers i v d
  write_access (rom_write v) d = write_rom_bar managers v d
  write_access (reset status command) d =
      write_pci_command managers command (record d { status = status })
  write_access disconnect d = some (disconnect_bars 0 6 d)

  unfoldable pub run_accesses : List Access → PciDevice → Option PciDevice
  run_accesses [] d = some d
  run_accesses (a ∷ accesses) d = write_access a d >>= run_accesses accesses
