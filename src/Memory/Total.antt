-- ===== src/Memory/Total.antt =====
-- When CommitMemoryRegionChanges (core/memory_manager.cc) does not panic.
use mvisor_x.Base.{
  ℕ, ◌+◌, ◌≤◌, ◌≡◌, ◌≢◌, Bool, true, List, [], ◌∷◌, Option, none, some, arith, length, Option-cases,
  inl, inr,
}
use mvisor_x.Memory.Types.{MemoryRegion, MemorySlot, KvmMemoryRegion}
use mvisor_x.Memory.Commit.{
  MemoryManager, Pending, add_slot, remove_slot, new_slot, compare_slots, visible_regions,
  commit_remove, commit_add, remove_all, add_all, kvm_memory_region, commit_memory_region_changes,
}
use mvisor_x.Memory.Compare.{compare_slots_induction}

add_slot-ne-none : (s : MemorySlot) (o : Option Pending) → o ≢ none → add_slot s o ≢ none
add_slot-ne-none s none h e = h e
add_slot-ne-none s (some q) h e = cc

remove_slot-ne-none : (s : MemorySlot) (o : Option Pending) → o ≢ none → remove_slot s o ≢ none
remove_slot-ne-none s none h e = h e
remove_slot-ne-none s (some q) h e = cc

compare_slots-total :
    (vs : List (ℕ × MemoryRegion)) (os : List (ℕ × MemorySlot)) (free : List ℕ) (next : ℕ)
    → length vs ≤ length free
    → compare_slots vs os free next ≢ none
compare_slots-total =
    compare_slots_induction (λ vs os free next o. length vs ≤ length free → o ≢ none)
      (λ os free next h e. cc) (λ p r vs os next h. absurd (omega arith))
      (λ p r vs os i free next _ ih h.
        add_slot-ne-none (new_slot next i p r vs) (compare_slots vs os free (next + 1))
          (ih (omega arith)))
      (λ p r vs k s os free next _ _ _ ih h. ih (omega arith))
      (λ p r vs k s os free next _ ih h.
        remove_slot-ne-none s (compare_slots ((p, r) ∷ vs) os free next) (ih h))

module _ (ioctl_ok : KvmMemoryRegion → Bool)
    (accepts : (call : KvmMemoryRegion) → ioctl_ok call ≡ true) where
  commit_remove-total : (s : MemorySlot) (m : MemoryManager) → commit_remove ioctl_ok s m ≢ none
  unfolding commit_remove
  commit_remove-total s m = ground (arith, accepts (kvm_memory_region s true))

  commit_add-total : (s : MemorySlot) (m : MemoryManager) → commit_add ioctl_ok s m ≢ none
  unfolding commit_add
  commit_add-total s m = ground (arith, accepts (kvm_memory_region s Bool.false))

  remove_all-total : (ss : List MemorySlot) (m : MemoryManager) → remove_all ioctl_ok ss m ≢ none
  unfolding remove_all
  remove_all-total [] m e = cc
  remove_all-total (s ∷ ss) m f = elim (Option-cases (commit_remove ioctl_ok s m)) [
    | inl n ↦ absurd (commit_remove-total s m n)
    | inr (m₁, n) ↦ remove_all-total ss m₁ (rw (n, remove_all) at f)
  ]

  add_all-total : (ss : List MemorySlot) (m : MemoryManager) → add_all ioctl_ok ss m ≢ none
  unfolding add_all
  add_all-total [] m e = cc
  add_all-total (s ∷ ss) m f = elim (Option-cases (commit_add ioctl_ok s m)) [
    | inl n ↦ absurd (commit_add-total s m n)
    | inr (m₁, n) ↦ add_all-total ss m₁ (rw (n, add_all) at f)
  ]

  -- A commit does not panic, if KVM accepts every slot and there are as many free slot numbers as
  -- visible regions.
  pub commit-total :
      (m : MemoryManager)
      → length (visible_regions m.regions) ≤ length m.free_slots
      → (m' : MemoryManager) × (commit_memory_region_changes ioctl_ok m ≡ some m')
  unfolding commit_memory_region_changes
  commit-total m h =
      let vs = visible_regions m.regions in
      elim (Option-cases (compare_slots vs m.kvm_slots m.free_slots m.next)) [
        | inl n ↦ absurd (compare_slots-total vs m.kvm_slots m.free_slots m.next h n)
        | inr (q, e) ↦
            let start = record m { free_slots = q.free; next = q.next } in
            elim (Option-cases (remove_all ioctl_ok q.remove start)) [
              | inl n ↦ absurd (remove_all-total q.remove start n)
              | inr (m₁, e₁) ↦ elim (Option-cases (add_all ioctl_ok q.add m₁)) [
                | inl n ↦ absurd (add_all-total q.add m₁ n)
                | inr (m₂, e₂) ↦ (m₂, rw (e, commit_memory_region_changes) (rw (e₁) e₂))
              ]
            ]
      ]
