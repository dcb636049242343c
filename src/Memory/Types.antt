-- ===== src/Memory/Types.antt =====
-- The data of include/memory_region.h and include/memory_manager.h. A pointer is a number, `ref`:
-- the regions and slots of one manager carry different ones.
use Prim.Native.String.{String}
use text.Mathlib.Text.{◌==◌ as str_eq}
use mvisor_x.Base.{ℕ, Bool, true, false, List, ◌||◌, ◌&&◌, if◌then◌else◌}

-- `MemoryType`
pub data MemoryType : Type 0 where
  reserved ram device rom : MemoryType

abbrev pub is_ram : MemoryType → Bool
is_ram MemoryType.ram = true
is_ram _ = false

abbrev pub is_rom : MemoryType → Bool
is_rom MemoryType.rom = true
is_rom _ = false

-- `MemoryRegion`. Its set `slots_` is kept in `MemoryManager.region_slots`.
pub record MemoryRegion : Type 0 where
  pub ref : ℕ
  pub gpa : ℕ
  pub host : ℕ
  pub size : ℕ
  pub flags : ℕ
  pub type : MemoryType
  pub name : String
  pub dirty_bitmap : List ℕ
  pub is_system : Bool

-- the flag KVM_MEM_READONLY of the KVM interface
abbrev pub kvm_mem_readonly : ℕ
kvm_mem_readonly = 2

-- the constructor `MemoryRegion::MemoryRegion`
unfoldable pub new_region : ℕ → ℕ → ℕ → ℕ → MemoryType → String → List ℕ → MemoryRegion
new_region ref gpa size host type name empty = record {
  ref = ref;
  gpa = gpa;
  host = host;
  size = size;
  flags = if is_rom type then kvm_mem_readonly else 0;
  type = type;
  name = name;
  dirty_bitmap = empty;
  is_system = is_ram type && str_eq name "System";
}

-- `MemorySlot`; `region` is the `ref` of its region
pub record MemorySlot : Type 0 where
  pub ref : ℕ
  pub type : MemoryType
  pub begin : ℕ
  pub end : ℕ
  pub size : ℕ
  pub hva : ℕ
  pub id : ℕ
  pub flags : ℕ
  pub region : ℕ

-- `MemorySlot::commitable`
abbrev pub commitable : MemorySlot → Bool
commitable s = is_ram s.type || is_rom s.type

-- `kvm_userspace_memory_region`, the argument of the KVM_SET_USER_MEMORY_REGION call
pub record KvmMemoryRegion : Type 0 where
  pub slot : ℕ
  pub flags : ℕ
  pub guest_phys_addr : ℕ
  pub memory_size : ℕ
  pub userspace_addr : ℕ

-- one call of a memory listener: the slot, and whether it is unmapped
pub record Notice : Type 0 where
  pub slot : MemorySlot
  pub unmap : Bool
