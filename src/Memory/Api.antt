-- ===== src/Memory/Api.antt =====
-- The operations of MemoryManager (core/memory_manager.cc) that its clients call: mapping,
-- translation in both directions, the flat view, and the listeners.
use Prim.Native.String.{String}
use mvisor_x.Base.{
  ℕ, ◌+◌, ◌-◌, Bool, true, false, List, [], ◌∷◌, Option, none, some, ltb, leb, ◌==◌, ◌&&◌,
  if◌then◌else◌, map, u64, bit_or, bit_and,
}
use mvisor_x.Memory.Types.{
  MemoryType, MemoryRegion, MemorySlot, KvmMemoryRegion, is_ram, new_region,
}
use mvisor_x.Memory.Commit.{MemoryManager, commit_memory_region_changes, update_kvm_slot}

-- `regions_.push_back(region)`
unfoldable pub push_back : {A : Type 0} → A → List A → List A
push_back a [] = a ∷ []
push_back a (x ∷ xs) = x ∷ push_back a xs

unfoldable pub find_region : ℕ → List MemoryRegion → Option MemoryRegion
find_region ref [] = none
find_region ref (r ∷ rs) = if r.ref == ref then some r else find_region ref rs

unfoldable pub erase_region : ℕ → List MemoryRegion → List MemoryRegion
erase_region ref [] = []
erase_region ref (r ∷ rs) = if r.ref == ref then rs else r ∷ erase_region ref rs

unfoldable pub put_region : MemoryRegion → List MemoryRegion → List MemoryRegion
put_region r [] = []
put_region r (q ∷ rs) = if q.ref == r.ref then r ∷ rs else q ∷ put_region r rs

-- `Map` up to the commit: the new region is the last of `regions_`
unfoldable pub with_region : ℕ → ℕ → ℕ → MemoryType → String → MemoryManager → MemoryManager
with_region gpa size host type name m = record m {
  regions = push_back (new_region m.next gpa size host type name []) m.regions;
  next = m.next + 1;
}

-- KVM_MEM_LOG_DIRTY_PAGES is bit 0 of the 32 bits of `flags_`
abbrev pub log_flags : ℕ → Bool → ℕ
log_flags flags log = if log then bit_or flags 1 else bit_and flags 0xffff_fffe

module _ (ioctl_ok : KvmMemoryRegion → Bool) where
  -- `Map`; the result is the new region's pointer
  unfoldable pub map_region :
      ℕ → ℕ → ℕ → MemoryType → String → MemoryManager → Option (ℕ × MemoryManager)
  map_region gpa size host type name m =
      if size == 0
      then none
      else elim (commit_memory_region_changes ioctl_ok (with_region gpa size host type name m)) [
        | none ↦ none
        | some m' ↦ some (m.next, m')
      ]

  -- `Unmap`
  unfoldable pub unmap_region : ℕ → MemoryManager → Option MemoryManager
  unmap_region ref m = elim (find_region ref m.regions) [
    | none ↦ none
    | some r ↦
        commit_memory_region_changes ioctl_ok (record m { regions = erase_region ref m.regions })
  ]

  -- the body of the loop of `SetLogDirtyBitmap`
  unfoldable pub set_slot_flag :
      ℕ → ℕ → MemorySlot → MemoryManager → Option (MemorySlot × MemoryManager)
  set_slot_flag ref flags s m =
      if s.region == ref
      then elim (update_kvm_slot ioctl_ok (record s { flags = flags }) false m) [
        | none ↦ none
        | some m' ↦ some (record s { flags = flags }, m')
      ]
      else some (s, m)

  -- the loop over `kvm_slots_`, from the entries that are left
  unfoldable pub set_slot_flags :
      ℕ → ℕ → List (ℕ × MemorySlot) → MemoryManager → Option (List (ℕ × MemorySlot) × MemoryManager)
  set_slot_flags ref flags [] m = some ([], m)
  set_slot_flags ref flags ((k, s) ∷ rest) m = elim (set_slot_flag ref flags s m) [
    | none ↦ none
    | some (s', m') ↦ elim (set_slot_flags ref flags rest m') [
      | none ↦ none
      | some (out, m₂) ↦ some ((k, s') ∷ out, m₂)
    ]
  ]

  -- `SetLogDirtyBitmap`
  unfoldable pub set_log_dirty_bitmap : ℕ → Bool → MemoryManager → Option MemoryManager
  set_log_dirty_bitmap ref log m = elim (find_region ref m.regions) [
    | none ↦ none
    | some r ↦
        if is_ram r.type
        then elim (set_slot_flags ref (log_flags r.flags log) m.kvm_slots m) [
          | none ↦ none
          | some (slots, m') ↦ some (record m' {
            kvm_slots = slots;
            regions = put_region (record r { flags = log_flags r.flags log }) m.regions;
          })
        ]
        else none
  ]

-- The iterator of `GuestToHostAddress`: one before `upper_bound`, or the first entry.
unfoldable pub slot_before : ℕ → Option MemorySlot → List (ℕ × MemorySlot) → Option MemorySlot
slot_before gpa here [] = here
slot_before gpa here ((k, s) ∷ m) = if ltb gpa k then here else slot_before gpa (some s) m

abbrev pub first_slot : List (ℕ × MemorySlot) → Option MemorySlot
first_slot [] = none
first_slot ((k, s) ∷ m) = some s

-- `GuestToHostAddress`; `none` is the failed MV_ASSERT or the MV_PANIC
unfoldable pub guest_to_host_address : ℕ → List (ℕ × MemorySlot) → Option ℕ
guest_to_host_address gpa slots = elim (slot_before gpa (first_slot slots) slots) [
  | none ↦ none
  | some s ↦
      if leb s.begin gpa && ltb gpa s.end
      then some (u64 (s.hva + gpa + 18446744073709551616 - s.begin))
      else none
]

abbrev pub holds_host : ℕ → MemorySlot → Bool
holds_host host s =
    leb s.hva host && ltb host (u64 (s.hva + u64 (s.end + 18446744073709551616 - s.begin)))

-- `HostToGuestAddress`
unfoldable pub host_to_guest_address : ℕ → List (ℕ × MemorySlot) → Option ℕ
host_to_guest_address host [] = none
host_to_guest_address host ((k, s) ∷ m) =
    if is_ram s.type && holds_host host s
    then some (u64 (s.begin + (host - s.hva)))
    else host_to_guest_address host m

-- `GetMemoryFlatView`
unfoldable pub get_memory_flat_view : MemoryManager → List MemorySlot
get_memory_flat_view m = map (λ e. e.1) m.kvm_slots

-- `RegisterMemoryListener` and `UnregisterMemoryListener`, with whether the pointer is reset
unfoldable pub register_memory_listener : MemoryManager → ℕ × MemoryManager
register_memory_listener m =
    (m.next, record m { memory_listeners = m.next ∷ m.memory_listeners; next = m.next + 1 })

unfoldable pub erase_listener : ℕ → List ℕ → List ℕ × Bool
erase_listener l [] = ([], false)
erase_listener l (k ∷ ls) =
    let (rest, found) = erase_listener l ls in if k == l then (ls, true) else (k ∷ rest, found)

unfoldable pub unregister_memory_listener : ℕ → MemoryManager → MemoryManager × Bool
unregister_memory_listener l m =
    let (ls, found) = erase_listener l m.memory_listeners in
    (record m { memory_listeners = ls }, found)
