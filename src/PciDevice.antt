-- ===== src/PciDevice.antt =====
-- core/pci_device.cc and include/pci_device.h: the command, the base address registers and the ROM
-- register of a PCI device's configuration space. The resources that AddIoResource has and
-- RemoveIoResource has not are a list, with the register's index for a pointer. A failed MV_ASSERT
-- is `none`. What the manager and the memory manager do is a parameter, which may panic as well.
pub mod Registered
pub mod Mapped
pub mod Sizing
pub mod Kept
pub mod Total
pub mod Access
pub mod Setup
pub mod Idle
pub mod Started
pub mod Load
mod Examples
use mvisor_x.Base.{
  ℕ, zero, suc, ◌+◌, ◌-◌, ◌*◌, ◌/◌, ◌%◌, ◌^◌, Bool, true, false, not, ◌&&◌, ◌||◌, List, [], ◌∷◌,
  ◌++◌, Option, none, some, bit_and, bit_or, bit_xor, get_or, set, ltb, ◌==◌, if◌then◌else◌, ◌>>=◌,
  has_bits,
}

-- `IoResourceType`, with no type for 0
pub data ResourceType : Type 0 where
  untyped : ResourceType
  pio : ResourceType
  mmio : ResourceType
  ram : ResourceType

-- `PciBarInfo`; its 32-bit size is 0 or `size64`, and 0 if `size64` is; whether it has host memory
pub record Bar : Type 0 where
  pub type : ResourceType
  pub address : ℕ
  pub address_mask : ℕ
  pub special_bits : ℕ
  pub size64 : ℕ
  pub address64 : ℕ
  pub active : Bool
  pub host_memory : Bool

-- the members of `PciDevice` that configuration writes change: `header_bars` are
-- `pci_header_.bars`, `bars` is `pci_bars_`, `rom_mapped` the address of the mapped region,
-- `resources` the index, address and size of each resource, and `levels` the calls of
-- SetPciIrqLevel
pub record PciDevice : Type 0 where
  pub command : ℕ
  pub status : ℕ
  pub header_bars : List ℕ
  pub bars : List Bar
  pub rom_bar : ℕ
  pub rom_size : ℕ
  pub rom_mapped : Option ℕ
  pub resources : List (ℕ × ℕ × ℕ)
  pub levels : List ℕ

-- PCI_COMMAND_IO, PCI_COMMAND_MEMORY, PCI_COMMAND_INTX_DISABLE and PCI_STATUS_INTERRUPT
abbrev pub command_io : ℕ
command_io = 1

abbrev pub command_memory : ℕ
command_memory = 2

abbrev pub intx_disable : ℕ
intx_disable = 1024

abbrev pub status_interrupt : ℕ
status_interrupt = 8

-- an element of an array that bzero has cleared
abbrev pub no_bar : Bar
no_bar = record {
  type = untyped;
  address = 0;
  address_mask = 0;
  special_bits = 0;
  size64 = 0;
  address64 = 0;
  active = false;
  host_memory = false;
}

abbrev pub bar_at : ℕ → PciDevice → Bar
bar_at i d = get_or d.bars i no_bar

abbrev pub header_bar : ℕ → PciDevice → ℕ
header_bar i d = get_or d.header_bars i 0

abbrev pub set_bar : ℕ → Bar → PciDevice → PciDevice
set_bar i b d = record d { bars = set d.bars i b }

abbrev pub set_header_bar : ℕ → ℕ → PciDevice → PciDevice
set_header_bar i v d = record d { header_bars = set d.header_bars i v }

abbrev pub is_typed : ResourceType → Bool
is_typed untyped = false
is_typed pio = true
is_typed mmio = true
is_typed ram = true

abbrev pub is_pio : ResourceType → Bool
is_pio pio = true
is_pio untyped = false
is_pio mmio = false
is_pio ram = false

-- `RemoveIoResource`
unfoldable pub remove_resource : ℕ → List (ℕ × ℕ × ℕ) → List (ℕ × ℕ × ℕ)
remove_resource i [] = []
remove_resource i (r ∷ rs) = if r.0 == i then rs else r ∷ remove_resource i rs

-- `DeactivatePciBar`
unfoldable pub deactivate_pci_bar : ℕ → PciDevice → PciDevice
deactivate_pci_bar i d =
    let b = bar_at i d in
    if b.active
    then record (set_bar i (record b { active = false }) d) {
      resources = remove_resource i d.resources;
    }
    else d

-- the address of a register, once the header has it
abbrev pub with_address : Bool → ℕ → ℕ → PciDevice → PciDevice
with_address true i address d =
    set_bar i
      (record (bar_at i d) {
        address64 = header_bar (i + 1) d * 2 ^ 32 + bit_and (header_bar i d) 4294967280;
      })
      d
with_address false i address d =
    set_bar i (record (bar_at i d) { address64 = address; address = address }) d

abbrev pub is_decoded : ℕ → PciDevice → Bool
is_decoded i d =
    has_bits d.command (if is_pio (bar_at i d).type then command_io else command_memory)

-- the register is the upper half of the one before it
abbrev pub is64_high : ℕ → PciDevice → Bool
is64_high i d = (bar_at i d).address_mask == 4294967295

abbrev pub is_ram_bar : ResourceType → Bool
is_ram_bar untyped = false
is_ram_bar pio = false
is_ram_bar mmio = false
is_ram_bar ram = true

-- what `ActivatePciBar` and `AddIoResource` assert of a register with a type
abbrev pub is_usable : Bar → Bool
is_usable b = not (b.size64 == 0) && (not (is_ram_bar b.type) || b.host_memory)

-- `SetIoResourceEnabled` of a register's resource and `Map` of the ROM, which asserts besides that the
-- size is not 0: false is a panic of the managers, such as that of resources that overlap
pub record Managers : Type 0 where
  pub enables : ℕ → PciDevice → Bool
  pub maps_rom : ℕ → PciDevice → Bool

abbrev pub is_mapped_at : Option ℕ → ℕ → Bool
is_mapped_at none address = false
is_mapped_at (some a) address = a == address

-- the interrupt line at the end of `WritePciCommand`
abbrev pub command_intx : ℕ → ℕ → PciDevice → PciDevice
command_intx diff new_command d =
    if has_bits diff intx_disable && has_bits d.status status_interrupt
    then record d { levels = (if has_bits new_command intx_disable then 0 else 1) ∷ d.levels }
    else d

module _ (managers : Managers) where
  -- `ActivatePciBar` of a device that is connected
  unfoldable pub activate_pci_bar : ℕ → PciDevice → Option PciDevice
  activate_pci_bar i d =
      let b = bar_at i d in
      if b.active
      then some d
      else if is_typed b.type && (is_usable b && managers.enables i d)
      then some (record (set_bar i (record b { active = true }) d) {
        resources = (i, b.address64, b.size64) ∷ d.resources;
      })
      else none

  -- `UpdatePciBarAddress`
  unfoldable pub update_pci_bar_address : ℕ → ℕ → PciDevice → Option PciDevice
  update_pci_bar_address i address d =
      let op = if is64_high i d then i - 1 else i in
      let d1 : PciDevice = set_header_bar i (bit_or address (bar_at i d).special_bits) d in
      let d2 : PciDevice = with_address (is64_high i d) op address (deactivate_pci_bar op d1) in
      if is_decoded op d2 then activate_pci_bar op d2 else some d2

  -- the part of `WritePciConfigSpace` for the base address registers
  unfoldable pub write_bar : ℕ → ℕ → PciDevice → Option PciDevice
  write_bar i value d =
      let b = bar_at i d in
      let bar_size =
        if is64_high i d then (bar_at (i - 1) d).size64 / 2 ^ 32 % 2 ^ 32 else b.size64 % 2 ^ 32 in
      let sizes = 4294967295 - (bar_size + 4294967295) % 2 ^ 32 in
      let new_address = bit_and value b.address_mask in
      if bit_and value 4294967280 == 4294967280
      then some (set_header_bar i (bit_or (bit_and sizes b.address_mask) b.special_bits) d)
      else if b.address == new_address
      then some (set_header_bar i (bit_or new_address b.special_bits) d)
      else update_pci_bar_address i new_address d

  -- `UpdateRomBarAddress`
  unfoldable pub update_rom_bar_address : ℕ → PciDevice → Option PciDevice
  update_rom_bar_address address d =
      let d1 : PciDevice = record d { rom_bar = address } in
      if not (has_bits d.command command_memory) || is_mapped_at d.rom_mapped address
      then some d1
      else if address == 0
      then some (record d1 { rom_mapped = none })
      else if not (d.rom_size == 0) && managers.maps_rom address d
      then some (record d1 { rom_mapped = some address })
      else none

  -- the part of `WritePciConfigSpace` for the ROM register
  unfoldable pub write_rom_bar : ℕ → PciDevice → Option PciDevice
  write_rom_bar value d =
      if bit_and value 4294965248 == 4294965248
      then some
          (record d { rom_bar = bit_and (4294967295 - (d.rom_size + 4294967295) % 2 ^ 32) value })
      else update_rom_bar_address (bit_and value 4294965248) d

  -- one register in the loop of `WritePciCommand`, with what the command toggles
  abbrev pub toggle : Bool → Bool → PciDevice → ℕ → Option PciDevice
  toggle changed on d i =
      if changed
      then (if on then activate_pci_bar i d else some (deactivate_pci_bar i d))
      else some d

  unfoldable pub command_bar : ℕ → ℕ → ℕ → PciDevice → Option PciDevice
  command_bar diff new_command i d =
      let bar_is_io = has_bits (header_bar i d) 1 in
      if not (is_typed (bar_at i d).type) || header_bar i d == 0
      then some d
      else if bar_is_io
      then toggle (has_bits diff command_io) (has_bits new_command command_io) d i
      else toggle (has_bits diff command_memory) (has_bits new_command command_memory) d i

  unfoldable pub command_bars : ℕ → ℕ → ℕ → ℕ → PciDevice → Option PciDevice
  command_bars diff new_command i zero d = some d
  command_bars diff new_command i (suc left) d =
      command_bar diff new_command i d >>= command_bars diff new_command (suc i) left

  -- the ROM in `WritePciCommand`
  unfoldable pub command_rom : ℕ → PciDevice → Option PciDevice
  command_rom new_command d =
      if has_bits new_command command_memory
      then (if d.rom_bar == 0 then some d else update_rom_bar_address d.rom_bar d)
      else some (record d { rom_mapped = none })

  -- `WritePciCommand`
  unfoldable pub write_pci_command : ℕ → PciDevice → Option PciDevice
  write_pci_command new_command d =
      let diff = bit_xor d.command new_command in
      command_bars diff new_command 0 6 (record d { command = new_command }) >>= λ d1.
      command_rom new_command d1 >>= λ d2. some (command_intx diff new_command d2)
