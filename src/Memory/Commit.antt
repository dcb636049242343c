-- ===== src/Memory/Commit.antt =====
-- MemoryManager::CommitMemoryRegionChanges and what it calls. `none` is a failed MV_ASSERT or
-- MV_PANIC. The unordered sets of pending slots are walked in the order of insertion.
use mvisor_x.Base.{
  ℕ, ◌+◌, ◌-◌, Bool, true, false, List, [], ◌∷◌, Option, none, some, ltb, leb, ◌==◌, ◌&&◌,
  if◌then◌else◌, u64,
}
use mathlib.Core.List.{reverse}
use mvisor_x.Memory.Types.{MemoryRegion, MemorySlot, commitable, KvmMemoryRegion, Notice}
use mvisor_x.StdMap.{insert, erase, insert_point}

-- the state of `MemoryManager`: `next` is the next unused `ref`, `kvm_calls` and `notices` are
-- the calls of KVM and of the listeners, the last one first
pub record MemoryManager : Type 0 where
  pub system_regions : List ℕ
  pub regions : List MemoryRegion
  pub kvm_slots : List (ℕ × MemorySlot)
  pub region_slots : List (ℕ × ℕ)
  pub memory_listeners : List ℕ
  pub free_slots : List ℕ
  pub track_dirty_memory : Bool
  pub dirty_memory_regions : List (ℕ × ℕ)
  pub next : ℕ
  pub kvm_calls : List KvmMemoryRegion
  pub notices : List (ℕ × Notice)

-- the set `points`: where a region begins or ends
unfoldable pub region_points : List MemoryRegion → List ℕ → List ℕ
region_points [] points = points
region_points (r ∷ rs) points =
    region_points rs (insert_point (u64 (r.gpa + r.size)) (insert_point r.gpa points))

abbrev pub covers : MemoryRegion → ℕ → Bool
covers r p = leb r.gpa p && ltb p (u64 (r.gpa + r.size))

-- whether the region is that of the last entry
abbrev pub is_last : Option ℕ → MemoryRegion → Bool
is_last none r = false
is_last (some l) r = l == r.ref

-- the inner loop for one point, over the regions from the newest to the oldest
unfoldable pub pick : ℕ → Option ℕ → List MemoryRegion → Option MemoryRegion
pick p last [] = none
pick p last (r ∷ rs) =
    let rest = pick p last rs in
    if covers r p then (if is_last last r then rest else some r) else rest

-- the outer loop: the map `visible_regions`, in key order since the points are
unfoldable pub visible_from : List MemoryRegion → List ℕ → Option ℕ → List (ℕ × MemoryRegion)
visible_from newest [] last = []
visible_from newest (p ∷ ps) last = elim (pick p last newest) [
  | none ↦ visible_from newest ps last
  | some r ↦ (p, r) ∷ visible_from newest ps (some r.ref)
]

unfoldable pub visible_regions : List MemoryRegion → List (ℕ × MemoryRegion)
visible_regions rs = visible_from (reverse rs) (region_points rs []) none

-- where a slot of `r` that begins at `p` ends: at the next visible region if that comes first
unfoldable pub slot_end : ℕ → MemoryRegion → List (ℕ × MemoryRegion) → ℕ
slot_end p r [] = u64 (p + r.size)
slot_end p r ((q, s) ∷ rest) = if ltb q (u64 (p + r.size)) then q else u64 (p + r.size)

-- `new MemorySlot` with the visible regions from the next one on
unfoldable pub new_slot : ℕ → ℕ → ℕ → MemoryRegion → List (ℕ × MemoryRegion) → MemorySlot
new_slot ref id p r rest = record {
  ref = ref;
  type = r.type;
  begin = p;
  end = slot_end p r rest;
  size = u64 (slot_end p r rest + 18446744073709551616 - p);
  hva = u64 (r.host + p + 18446744073709551616 - r.gpa);
  id = id;
  flags = r.flags;
  region = r.ref;
}

-- `pending_add` and `pending_remove`, with what is left of the free slot numbers
pub record Pending : Type 0 where
  pub add : List MemorySlot
  pub remove : List MemorySlot
  pub free : List ℕ
  pub next : ℕ

abbrev pub add_slot : MemorySlot → Option Pending → Option Pending
add_slot s none = none
add_slot s (some p) = some (record p { add = s ∷ p.add })

abbrev pub remove_slot : MemorySlot → Option Pending → Option Pending
remove_slot s none = none
remove_slot s (some p) = some (record p { remove = s ∷ p.remove })

-- whether two iterators both stand at the end, or at one key
abbrev pub same_next : {A B : Type 0} → List (ℕ × A) → List (ℕ × B) → Bool
same_next [] [] = true
same_next ((j, _) ∷ _) ((k, _) ∷ _) = j == k
same_next _ _ = false

-- What the loop does next, by its tests: take a new slot, keep the old one, or remove it.
pub data Choice : Type 0 where
  add keep drop : Choice

unfoldable pub choose : ℕ → MemoryRegion → List (ℕ × MemoryRegion) → List (ℕ × MemorySlot) → Choice
choose p r vs [] = Choice.add
choose p r vs ((k, s) ∷ os) =
    if ltb p k
    then Choice.add
    else if p == k
    then (if r.ref == s.region
        then (if same_next vs os then Choice.keep else Choice.drop)
        else Choice.drop)
    else Choice.drop

-- the loop that compares the visible regions with `kvm_slots_`
unfoldable pub compare_slots :
    List (ℕ × MemoryRegion) → List (ℕ × MemorySlot) → List ℕ → ℕ → Option Pending
compare_slots [] os free next = some (record { add = []; remove = []; free = free; next = next })
compare_slots ((p, r) ∷ vs) [] [] next = none
compare_slots ((p, r) ∷ vs) [] (i ∷ free) next =
    add_slot (new_slot next i p r vs) (compare_slots vs [] free (next + 1))
compare_slots ((p, r) ∷ vs) ((k, s) ∷ os) free next = elim (choose p r vs ((k, s) ∷ os)) [
  | Choice.add ↦ elim free [
    | [] ↦ none
    | i ∷ free' ↦
        add_slot (new_slot next i p r vs) (compare_slots vs ((k, s) ∷ os) free' (next + 1))
  ]
  | Choice.keep ↦ compare_slots vs os free next
  | Choice.drop ↦ remove_slot s (compare_slots ((p, r) ∷ vs) os free next)
]

-- `UpdateKvmSlot`'s argument
unfoldable pub kvm_memory_region : MemorySlot → Bool → KvmMemoryRegion
kvm_memory_region s remove = record {
  slot = s.id;
  flags = s.flags;
  guest_phys_addr = s.begin;
  memory_size = if remove then 0 else u64 (s.end + 18446744073709551616 - s.begin);
  userspace_addr = s.hva;
}

-- `NotifySlotChange`
unfoldable pub notify_slot_change : List ℕ → Notice → List (ℕ × Notice) → List (ℕ × Notice)
notify_slot_change [] n log = log
notify_slot_change (l ∷ ls) n log = notify_slot_change ls n ((l, n) ∷ log)

unfoldable pub notify : MemorySlot → Bool → MemoryManager → MemoryManager
notify s unmap m = record m {
  notices = notify_slot_change m.memory_listeners (record { slot = s; unmap = unmap }) m.notices;
}

-- `region->slots_.erase(slot)`
unfoldable pub erase_pair : ℕ → ℕ → List (ℕ × ℕ) → List (ℕ × ℕ)
erase_pair r s [] = []
erase_pair r s ((r', s') ∷ ps) = if r' == r && s' == s then ps else (r', s') ∷ erase_pair r s ps

module _ (ioctl_ok : KvmMemoryRegion → Bool) where
  -- `UpdateKvmSlot`: a refusal of the kernel is a panic
  unfoldable pub update_kvm_slot : MemorySlot → Bool → MemoryManager → Option MemoryManager
  update_kvm_slot s remove m =
      let call = kvm_memory_region s remove in
      if ioctl_ok call then some (record m { kvm_calls = call ∷ m.kvm_calls }) else none

  -- the body of the first commit loop
  unfoldable pub commit_remove : MemorySlot → MemoryManager → Option MemoryManager
  unfolding update_kvm_slot notify
  commit_remove s m =
      let m₁ = record m {
        region_slots = erase_pair s.region s.ref m.region_slots;
        kvm_slots = erase s.begin m.kvm_slots;
      } in
      if commitable s
      then elim (update_kvm_slot s true m₁) [
        | none ↦ none
        | some m₂ ↦
            some (notify s true (record m₂ { free_slots = insert_point s.id m₂.free_slots }))
      ]
      else some (notify s true m₁)

  -- the body of the second
  unfoldable pub commit_add : MemorySlot → MemoryManager → Option MemoryManager
  unfolding update_kvm_slot notify
  commit_add s m =
      let m₁ = record m {
        region_slots = (s.region, s.ref) ∷ m.region_slots;
        kvm_slots = insert s.begin s m.kvm_slots;
      } in
      if commitable s
      then elim (update_kvm_slot s false m₁) [ none ↦ none | some m₂ ↦ some (notify s false m₂) ]
      else some (notify s false m₁)

  unfoldable pub remove_all : List MemorySlot → MemoryManager → Option MemoryManager
  remove_all [] m = some m
  remove_all (s ∷ ss) m = elim (commit_remove s m) [ none ↦ none | some m' ↦ remove_all ss m' ]

  unfoldable pub add_all : List MemorySlot → MemoryManager → Option MemoryManager
  add_all [] m = some m
  add_all (s ∷ ss) m = elim (commit_add s m) [ none ↦ none | some m' ↦ add_all ss m' ]

  -- `CommitMemoryRegionChanges`
  unfoldable pub commit_memory_region_changes : MemoryManager → Option MemoryManager
  commit_memory_region_changes m =
      elim (compare_slots (visible_regions m.regions) m.kvm_slots m.free_slots m.next) [
        | none ↦ none
        | some p ↦ elim (remove_all p.remove (record m { free_slots = p.free; next = p.next })) [
          | none ↦ none
          | some m' ↦ add_all p.add m'
        ]
      ]
