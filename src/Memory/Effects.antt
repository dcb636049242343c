-- ===== src/Memory/Effects.antt =====
-- What CommitMemoryRegionChanges (core/memory_manager.cc) does to each field of the manager.
use mvisor_x.Base.{
  ℕ, ◌≡◌, Bool, List, [], ◌∷◌, some, arith, Option-cases, ◌∙◌, ap, if◌then◌else◌, inl, inr,
}
use mvisor_x.Memory.Types.{MemoryRegion, MemorySlot, KvmMemoryRegion, commitable}
use mvisor_x.StdMap.{insert, erase, insert_point}
use mvisor_x.Memory.Commit.{
  MemoryManager, Pending, compare_slots, visible_regions, commit_remove, commit_add, remove_all,
  add_all, commit_memory_region_changes,
}
use mvisor_x.Memory.Tables.{insert_all, erase_all}
use mvisor_x.StdMap.{IsOrdered}
use mvisor_x.Memory.Visible.{AllRegions, visible_regions-IsOrdered, visible_regions-AreOwned}
use mvisor_x.Memory.Rebuild.{IsBuilt, AreOwned, Below, top, compare_slots-rebuilds}

-- the free slot numbers after a removal
abbrev pub freed : MemorySlot → List ℕ → List ℕ
freed s free = if commitable s then insert_point s.id free else free

abbrev pub freed_all : List MemorySlot → List ℕ → List ℕ
freed_all [] free = free
freed_all (s ∷ ss) free = freed_all ss (freed s free)

module _ (ioctl_ok : KvmMemoryRegion → Bool) where
  commit_remove_effects :
      (s : MemorySlot) (m m' : MemoryManager)
      → commit_remove ioctl_ok s m ≡ some m'
      → (m'.kvm_slots ≡ erase s.begin m.kvm_slots)
        × (m'.free_slots ≡ freed s m.free_slots)
        × (m'.regions ≡ m.regions)
  unfolding commit_remove
  commit_remove_effects s m m' h = ground arith

  commit_add_effects :
      (s : MemorySlot) (m m' : MemoryManager)
      → commit_add ioctl_ok s m ≡ some m'
      → (m'.kvm_slots ≡ insert s.begin s m.kvm_slots)
        × (m'.free_slots ≡ m.free_slots)
        × (m'.regions ≡ m.regions)
  unfolding commit_add
  commit_add_effects s m m' h = ground arith

  remove_all_effects :
      (ss : List MemorySlot) (m m' : MemoryManager)
      → remove_all ioctl_ok ss m ≡ some m'
      → (m'.kvm_slots ≡ erase_all ss m.kvm_slots)
        × (m'.free_slots ≡ freed_all ss m.free_slots)
        × (m'.regions ≡ m.regions)
  unfolding remove_all erase_all
  remove_all_effects [] m m' h = ground arith
  remove_all_effects (s ∷ ss) m m' h = elim (Option-cases (commit_remove ioctl_ok s m)) [
    | inl e ↦ absurd (ground arith)
    | inr (m₁, e) ↦ ground (arith, commit_remove_effects s m m₁ e, remove_all_effects ss m₁ m')
  ]

  add_all_effects :
      (ss : List MemorySlot) (m m' : MemoryManager)
      → add_all ioctl_ok ss m ≡ some m'
      → (m'.kvm_slots ≡ insert_all ss m.kvm_slots)
        × (m'.free_slots ≡ m.free_slots)
        × (m'.regions ≡ m.regions)
  unfolding add_all insert_all
  add_all_effects [] m m' h = ground arith
  add_all_effects (s ∷ ss) m m' h = elim (Option-cases (commit_add ioctl_ok s m)) [
    | inl e ↦ absurd (ground arith)
    | inr (m₁, e) ↦ ground (arith, commit_add_effects s m m₁ e, add_all_effects ss m₁ m')
  ]

  -- A commit that does not panic applies the additions and removals of the comparison.
  pub commit_effects :
      (m m' : MemoryManager)
      → commit_memory_region_changes ioctl_ok m ≡ some m'
      → (q : Pending) × (compare_slots (visible_regions m.regions) m.kvm_slots m.free_slots m.next
          ≡ some q)
        × (m'.kvm_slots ≡ insert_all q.add (erase_all q.remove m.kvm_slots))
        × (m'.free_slots ≡ freed_all q.remove q.free)
        × (m'.regions ≡ m.regions)
  unfolding commit_memory_region_changes
  commit_effects m m' h =
      elim (Option-cases
        (compare_slots (visible_regions m.regions) m.kvm_slots m.free_slots m.next)) [
          | inl e ↦ absurd (ground arith)
          | inr (q, e) ↦
              let start = record m { free_slots = q.free; next = q.next } in
              elim (Option-cases (remove_all ioctl_ok q.remove start)) [
                | inl n ↦ absurd (ground arith)
                | inr (m₁, e₁) ↦
                    let done : add_all ioctl_ok q.add m₁ ≡ some m' = ground arith in
                    let (rk, rf, rr) = remove_all_effects q.remove start m₁ e₁ in
                    let (ak, af, ar) = add_all_effects q.add m₁ m' done in
                    (q, e, ak ∙ ap (insert_all q.add) rk, af ∙ rf, ar ∙ rr)
              ]
        ]

  -- After a commit the slot table is the one that would be built from the visible regions of the
  -- mapped ones with no earlier table, up to the numbers of the slots: if the regions have
  -- different pointers, the old table was built so from other visible regions, and none of its
  -- slots begins after the last of the new visible regions.
  pub commit-IsBuilt :
      (owner : ℕ → MemoryRegion) (m m' : MemoryManager) (ws : List (ℕ × MemoryRegion))
      → AllRegions (λ r. owner r.ref ≡ r) m.regions
      → IsOrdered 0 ws
      → AreOwned owner ws
      → IsBuilt m.kvm_slots ws
      → Below (top (visible_regions m.regions)) m.kvm_slots
      → commit_memory_region_changes ioctl_ok m ≡ some m'
      → IsBuilt m'.kvm_slots (visible_regions m'.regions)
  commit-IsBuilt owner m m' ws a o ow b h e =
      let (q, c, slots, _, same) = commit_effects m m' e in
      let vs = visible_regions m.regions in
      rw (slots, same)
        (rw c at (
          compare_slots-rebuilds owner vs m.kvm_slots m.free_slots m.next 0 ws
            (visible_regions-IsOrdered m.regions) o (visible_regions-AreOwned owner m.regions a) ow
            b h))
