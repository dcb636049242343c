-- ===== src/PciDevice/Setup.antt =====
-- `SetupPciBar` and `SetupPciBar64` of core/pci_device.cc, which the constructor of a device calls, and
-- the host memory that a display of devices/display/qxl/qxl.cc gives a register of memory. A
-- register outside the array is `none`, like a failed MV_ASSERT and MV_PANIC.
use mvisor_x.Base.{
  ℕ, ◌+◌, Bool, true, false, ◌&&◌, List, [], ◌∷◌, Option, none, some, length, bit_or, ltb, ◌==◌,
  if◌then◌else◌, ◌>>=◌,
}
use mvisor_x.PciDevice.{
  ResourceType, untyped, pio, mmio, ram, Bar, PciDevice, bar_at, header_bar, set_bar,
  set_header_bar,
}

-- the address mask and the special bits for a type
abbrev pub by_type : ResourceType → Bar → Bar
by_type untyped b = b
by_type pio b = record b { address_mask = 4294967292; special_bits = 1 }
by_type mmio b = record b { address_mask = 4294967280; special_bits = 0 }
by_type ram b = record b { address_mask = 4294967280; special_bits = 8 }

abbrev pub is_mmio : ResourceType → Bool
is_mmio untyped = false
is_mmio pio = false
is_mmio mmio = true
is_mmio ram = false

-- a register is written, and its special bits are added to the header's
abbrev pub add_bar : ℕ → Bar → PciDevice → PciDevice
add_bar i b d = set_header_bar i (bit_or (header_bar i d) b.special_bits) (set_bar i b d)

unfoldable pub setup_pci_bar : ℕ → ℕ → ResourceType → PciDevice → Option PciDevice
setup_pci_bar i size type d =
    if ltb i (length d.bars) && (bar_at i d).size64 == 0
    then some (
        add_bar i
          (by_type type (record (bar_at i d) { size64 = size; active = false; type = type })) d)
    else none

-- the register after one of 64 bits
abbrev pub upper_half : ℕ → PciDevice → PciDevice
upper_half i d = set_bar i (record (bar_at i d) { address_mask = 4294967295; special_bits = 0 }) d

unfoldable pub setup_pci_bar64 : ℕ → ℕ → ResourceType → PciDevice → Option PciDevice
setup_pci_bar64 i size type d =
    if is_mmio type && (ltb (i + 1) (length d.bars) && (bar_at i d).size64 == 0)
    then some (
        upper_half (i + 1) (
          add_bar i
            (record (bar_at i d) {
              size64 = size;
              active = false;
              type = type;
              address_mask = 4294967280;
              special_bits = 4;
            })
            d))
    else none

-- `host_memory` of a register is assigned
abbrev pub with_memory : ℕ → PciDevice → PciDevice
with_memory i d = set_bar i (record (bar_at i d) { host_memory = true }) d

pub data Setup : Type 0 where
  bar32 : ℕ → ℕ → ResourceType → Setup
  bar64 : ℕ → ℕ → ResourceType → Setup
  host_memory_of : ℕ → Setup

unfoldable pub run_setup : Setup → PciDevice → Option PciDevice
run_setup (bar32 i size type) d = setup_pci_bar i size type d
run_setup (bar64 i size type) d = setup_pci_bar64 i size type d
run_setup (host_memory_of i) d = some (with_memory i d)

unfoldable pub run_setups : List Setup → PciDevice → Option PciDevice
run_setups [] d = some d
run_setups (s ∷ setups) d = run_setup s d >>= run_setups setups
