-- ===== src/Memory/Examples.antt =====
-- Runs of the memory manager of core/memory_manager.cc on small maps, and the theorems about it at
-- such maps.
use mvisor_x.Base.{
  ℕ, ◌+◌, ◌-◌, ◌≤◌, ◌<◌, ◌≡◌, refl, Bool, true, false, List, [], ◌∷◌, Option, none, some, arith,
  inl, map, ◌==◌, if◌then◌else◌, ◌↔◌,
}
use mvisor_x.Memory.Visible.{top_region}
use mvisor_x.Memory.Rebuild.{IsBuilt}
use mvisor_x.Memory.Effects.{commit-IsBuilt}
use mvisor_x.Memory.Invariant.{IsValid}
use mvisor_x.Memory.Runs.{
  Operation, map_memory, log_memory, unmap_memory, operate, operate_all, operate_all-IsValid,
}
use mvisor_x.Memory.Total.{commit-total}
use mvisor_x.Memory.Overlap.{visible_regions-shows_hidden}
use mvisor_x.Memory.Translate.{
  InTable, Holds, guest_to_host_address_iff, host_to_guest_address-guest_to_host_address,
}
use mvisor_x.Memory.Types.{MemoryType, MemoryRegion, MemorySlot, KvmMemoryRegion, new_region}
use mvisor_x.StdMap.{insert, erase, insert_point}
use mvisor_x.Memory.Commit.{
  MemoryManager, region_points, pick, visible_from, visible_regions, slot_end, new_slot, choose,
  compare_slots, kvm_memory_region, notify_slot_change, erase_pair, commit_remove, commit_add,
  remove_all, add_all, commit_memory_region_changes,
}
use mvisor_x.Memory.Api.{
  map_region, with_region, push_back, unmap_region, set_log_dirty_bitmap, set_slot_flags,
  set_slot_flag, put_region, erase_region, find_region, slot_before, guest_to_host_address,
  host_to_guest_address,
}

abbrev accept : KvmMemoryRegion → Bool
accept call = true

abbrev start : MemoryManager
start = record {
  system_regions = [];
  regions = [];
  kvm_slots = [];
  region_slots = [];
  memory_listeners = 7 ∷ [];
  free_slots = 0 ∷ 1 ∷ 2 ∷ 3 ∷ 4 ∷ 5 ∷ 6 ∷ 7 ∷ [];
  track_dirty_memory = false;
  dirty_memory_regions = [];
  next = 100;
  kvm_calls = [];
  notices = [];
}

abbrev or_start : Option MemoryManager → MemoryManager
or_start none = start
or_start (some m) = m

abbrev region : ℕ → ℕ → ℕ → ℕ → MemoryType → MemoryRegion
region ref gpa size host type = record {
  ref = ref;
  gpa = gpa;
  host = host;
  size = size;
  flags = 0;
  type = type;
  name = "System";
  dirty_bitmap = [];
  is_system = true;
}

abbrev ram : MemoryRegion
ram = region 100 0 1000 5000 MemoryType.ram

abbrev rom : MemoryRegion
rom = region 102 200 100 9000 MemoryType.rom

abbrev ram_slot : MemorySlot
ram_slot = record {
  ref = 101;
  type = MemoryType.ram;
  begin = 0;
  end = 1000;
  size = 1000;
  hva = 5000;
  id = 0;
  flags = 0;
  region = 100;
}

-- the manager with the RAM mapped and committed
abbrev with_ram : MemoryManager
with_ram = record start {
  regions = ram ∷ [];
  kvm_slots = (0, ram_slot) ∷ [];
  region_slots = (100, 101) ∷ [];
  free_slots = 1 ∷ 2 ∷ 3 ∷ 4 ∷ [];
  next = 104;
}

-- the ROM mapped over it, and the RAM unmapped, both before the commit
abbrev with_rom : MemoryManager
with_rom = record with_ram { regions = ram ∷ rom ∷ [] }

abbrev without : MemoryManager
without = record with_ram { regions = [] }

-- the commit, open to evaluation
commit : MemoryManager → Option MemoryManager
unfolding commit_memory_region_changes visible_regions visible_from region_points insert_point pick
    compare_slots choose new_slot slot_end remove_all add_all commit_add commit_remove insert erase
    erase_pair kvm_memory_region notify_slot_change
commit m = commit_memory_region_changes accept m

with_rom_committed : MemoryManager
with_rom_committed = or_start (commit_memory_region_changes accept with_rom)

with_rom_commits : commit_memory_region_changes accept with_rom ≡ some with_rom_committed
unfolding commit with_rom_committed
with_rom_commits = refl

-- three slots: the RAM up to the ROM, the ROM, and the RAM behind it, which is too long
with_rom_slots :
    map {B = ℕ × ℕ × ℕ × ℕ} (λ e. (e.0, e.1.end, e.1.hva, e.1.id)) with_rom_committed.kvm_slots
    ≡ (0, 200, 5000, 1) ∷ (200, 300, 9000, 2) ∷ (300, 1300, 5300, 3) ∷ []
unfolding commit with_rom_committed
with_rom_slots = refl

without_committed : MemoryManager
without_committed = or_start (commit_memory_region_changes accept without)

without_commits : commit_memory_region_changes accept without ≡ some without_committed
unfolding commit without_committed
without_commits = refl

abbrev owner : ℕ → MemoryRegion
owner i = if i == 100 then ram else rom

with_ram-IsValid : IsValid with_ram
with_ram-IsValid = record { ordered = omega arith; keyed = omega arith; once = λ i. ground arith }

commit-IsBuilt_example :
    IsBuilt with_rom_committed.kvm_slots (visible_regions with_rom_committed.regions)
unfolding commit
commit-IsBuilt_example =
    commit-IsBuilt accept owner with_rom with_rom_committed ((0, ram) ∷ []) (refl, (refl, tt))
      (omega arith) (refl, tt) (refl, refl, tt) (omega arith) with_rom_commits

abbrev operations : List Operation
operations =
    map_memory 200 100 9000 MemoryType.rom "ROM" ∷ log_memory 100 true ∷ unmap_memory 100 ∷ []

operated : MemoryManager
operated = or_start (operate_all accept operations with_ram)

operated_lem : operate_all accept operations with_ram ≡ some operated
unfolding operate_all operate map_region with_region push_back unmap_region set_log_dirty_bitmap
    set_slot_flags set_slot_flag put_region erase_region find_region commit_memory_region_changes
    visible_regions visible_from region_points insert_point pick compare_slots choose new_slot
    slot_end remove_all add_all commit_add commit_remove insert erase erase_pair kvm_memory_region
    notify_slot_change operated new_region
operated_lem = refl

operate_all-IsValid_example : IsValid operated
operate_all-IsValid_example =
    operate_all-IsValid accept operations with_ram operated with_ram-IsValid operated_lem

-- the slot of the unmapped RAM is still there
commit-total_example :
    (m' : MemoryManager) × (commit_memory_region_changes accept with_rom ≡ some m')
unfolding commit
commit-total_example = commit-total accept (λ call. refl) with_rom (omega arith)

abbrev hidden : MemoryRegion
hidden = region 100 200 100 5000 MemoryType.rom

abbrev over : MemoryRegion
over = region 102 0 1000 9000 MemoryType.ram

visible_regions-shows_hidden_example :
    (visible_regions (hidden ∷ over ∷ []) ≡ (0, over) ∷ (200, hidden) ∷ (300, over) ∷ [])
    × ((a : ℕ) → 200 ≤ a → a < 300 → top_region a (over ∷ hidden ∷ []) ≡ some over)
visible_regions-shows_hidden_example = visible_regions-shows_hidden hidden over (omega arith)

-- a table of two slots
abbrev rom_slot : MemorySlot
rom_slot = record {
  ref = 103;
  type = MemoryType.rom;
  begin = 2000;
  end = 2100;
  size = 100;
  hva = 9000;
  id = 1;
  flags = 2;
  region = 102;
}

abbrev table : List (ℕ × MemorySlot)
table = (0, ram_slot) ∷ (2000, rom_slot) ∷ []

rom_translates : guest_to_host_address 2050 table ≡ some 9050
unfolding guest_to_host_address slot_before
rom_translates = refl

gap_panics : guest_to_host_address 1500 table ≡ none
unfolding guest_to_host_address slot_before
gap_panics = refl

guest_to_host_address_iff_example :
    (guest_to_host_address 2050 table ≡ some 9050)
    ↔ ((s : MemorySlot) × InTable s table × Holds s 2050 × (9050 ≡ s.hva + (2050 - s.begin)))
guest_to_host_address_iff_example = guest_to_host_address_iff 2050 9050 0 table (omega arith)

host_to_guest_address-guest_to_host_address_example :
    (host alias : ℕ) × (guest_to_host_address 40 table ≡ some host)
    × (host_to_guest_address host table ≡ some alias)
    × (guest_to_host_address alias table ≡ some host)
host_to_guest_address-guest_to_host_address_example =
    host_to_guest_address-guest_to_host_address 40 ram_slot 0 table (omega arith) (inl refl) refl
      (omega arith)
