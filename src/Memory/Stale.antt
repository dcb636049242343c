-- ===== src/Memory/Stale.antt =====
-- The loop of CommitMemoryRegionChanges (core/memory_manager.cc) ends with the visible regions, and
-- looks at no later slot.
use mvisor_x.Base.{ℕ, ◌+◌, ◌≤◌, ◌<◌, ◌≡◌, refl, Bool, List, [], ◌∷◌, Option, none, some, arith, ◌∙◌}
use mvisor_x.Memory.Types.{MemoryRegion, MemorySlot, KvmMemoryRegion}
use mvisor_x.StdMap.{find, insert, erase}
use mvisor_x.Memory.Commit.{
  MemoryManager, Pending, add_slot, remove_slot, new_slot, compare_slots, visible_regions,
  commit_memory_region_changes,
}
use mvisor_x.Memory.Compare.{AreKeyed, compare_slots_induction, begin-new_slot}
use mvisor_x.Memory.Tables.{insert_all, erase_all}
use mvisor_x.StdMap.{find-insert, find-erase_ne}
use mvisor_x.Memory.Rebuild.{top}
use mvisor_x.Memory.Effects.{commit_effects}

abbrev BeginBelow : ℕ → List MemorySlot → Type 0
BeginBelow hi [] = Unit {0}
BeginBelow hi (s ∷ ss) = (s.begin < hi) × BeginBelow hi ss

abbrev PendingBelow : ℕ → Option Pending → Type 0
PendingBelow hi none = Unit {0}
PendingBelow hi (some q) = BeginBelow hi q.add × BeginBelow hi q.remove

BeginBelow-mono : (lo hi : ℕ) (ss : List MemorySlot) → lo ≤ hi → BeginBelow lo ss → BeginBelow hi ss
BeginBelow-mono lo hi [] h b = tt
BeginBelow-mono lo hi (s ∷ ss) h b = (omega arith, BeginBelow-mono lo hi ss h b.1)

PendingBelow-mono :
    (lo hi : ℕ) (o : Option Pending) → lo ≤ hi → PendingBelow lo o → PendingBelow hi o
PendingBelow-mono lo hi none h b = tt
PendingBelow-mono lo hi (some q) h b =
    (BeginBelow-mono lo hi q.add h b.0, BeginBelow-mono lo hi q.remove h b.1)

PendingBelow-add_slot :
    (hi : ℕ) (s : MemorySlot) (o : Option Pending)
    → s.begin < hi
    → PendingBelow hi o
    → PendingBelow hi (add_slot s o)
PendingBelow-add_slot hi s none h b = tt
PendingBelow-add_slot hi s (some q) h b = ((h, b.0), b.1)

PendingBelow-remove_slot :
    (hi : ℕ) (s : MemorySlot) (o : Option Pending)
    → s.begin < hi
    → PendingBelow hi o
    → PendingBelow hi (remove_slot s o)
PendingBelow-remove_slot hi s none h b = tt
PendingBelow-remove_slot hi s (some q) h b = (b.0, (h, b.1))

compare_slots-PendingBelow :
    (vs : List (ℕ × MemoryRegion)) (os : List (ℕ × MemorySlot)) (free : List ℕ) (next : ℕ)
    → AreKeyed os
    → PendingBelow (top vs) (compare_slots vs os free next)
compare_slots-PendingBelow =
    compare_slots_induction (λ vs os free next o. AreKeyed os → PendingBelow (top vs) o)
      (λ os free next kk. (tt, tt)) (λ p r vs os next kk. tt)
      (λ p r vs os i free next first ih kk.
        PendingBelow-add_slot (top ((p, r) ∷ vs)) (new_slot next i p r vs)
          (compare_slots vs os free (next + 1)) (rw begin-new_slot (omega arith))
          (PendingBelow-mono (top vs) (top ((p, r) ∷ vs)) (compare_slots vs os free (next + 1))
            (omega arith) (ih kk)))
      (λ p r vs k s os free next e _ _ ih kk.
        PendingBelow-mono (top vs) (top ((p, r) ∷ vs)) (compare_slots vs os free next) (omega arith)
          (ih kk.1))
      (λ p r vs k s os free next h ih kk.
        PendingBelow-remove_slot (top ((p, r) ∷ vs)) s (compare_slots ((p, r) ∷ vs) os free next)
          (omega arith) (ih kk.1))

find-insert_all :
    (k hi : ℕ) (ss : List MemorySlot) (m : List (ℕ × MemorySlot))
    → BeginBelow hi ss
    → hi ≤ k
    → find k (insert_all ss m) ≡ find k m
unfolding insert_all
find-insert_all k hi [] m b h = refl
find-insert_all k hi (s ∷ ss) m b h =
    ground (arith, find-insert_all k hi ss (insert s.begin s m), find-insert s.begin k s m)

find-erase_all :
    (k hi : ℕ) (ss : List MemorySlot) (m : List (ℕ × MemorySlot))
    → BeginBelow hi ss
    → hi ≤ k
    → find k (erase_all ss m) ≡ find k m
unfolding erase_all
find-erase_all k hi [] m b h = refl
find-erase_all k hi (s ∷ ss) m b h =
    ground (arith, find-erase_all k hi ss (erase s.begin m), find-erase_ne s.begin k m)

-- A commit leaves every slot that begins after the last visible region as it stands, also when no
-- region is mapped there any more.
pub find-commit_stale :
    (ioctl_ok : KvmMemoryRegion → Bool) (m m' : MemoryManager) (k : ℕ)
    → AreKeyed m.kvm_slots
    → top (visible_regions m.regions) ≤ k
    → commit_memory_region_changes ioctl_ok m ≡ some m'
    → find k m'.kvm_slots ≡ find k m.kvm_slots
find-commit_stale ioctl_ok m m' k kk h e =
    let (q, c, slots, _, _) = commit_effects ioctl_ok m m' e in
    let vs = visible_regions m.regions in
    let b : PendingBelow (top vs) (some q) =
      rw c at (compare_slots-PendingBelow vs m.kvm_slots m.free_slots m.next kk) in
    rw slots (
      find-insert_all k (top vs) q.add (erase_all q.remove m.kvm_slots) b.0 h
      ∙ find-erase_all k (top vs) q.remove m.kvm_slots b.1 h)
