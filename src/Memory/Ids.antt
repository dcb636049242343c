-- ===== src/Memory/Ids.antt =====
-- The slot numbers of core/memory_manager.cc: AllocateSlotId takes the least free one, a commit
-- gives back those of the slots that KVM knew.
use mvisor_x.Base.{
  ℕ, suc, ◌+◌, ◌≤◌, ◌≡◌, refl, Bool, false, List, [], ◌∷◌, Option, none, some, arith, ◌==◌,
  if◌then◌else◌,
}
use mvisor_x.Memory.Types.{MemoryRegion, MemorySlot, KvmMemoryRegion}
use mvisor_x.StdMap.{find, insert, erase, insert_point}
use mvisor_x.Memory.Commit.{
  MemoryManager, Pending, add_slot, remove_slot, new_slot, compare_slots, visible_regions,
  commit_memory_region_changes,
}
use mvisor_x.Memory.Compare.{
  AreKeyed, compare_slots_induction, PendingAbove, compare_slots-PendingAbove,
}
use mvisor_x.Memory.Tables.{BeginAbove, insert_all, erase_all}
use mvisor_x.StdMap.{IsOrdered, IsOrdered-mono, erase-cons_self}
use mvisor_x.Memory.Visible.{visible_regions-IsOrdered}
use mvisor_x.Memory.Effects.{freed, freed_all, commit_effects}

module _ (i : ℕ) where
  abbrev pub one : ℕ → ℕ
  one n = if n == i then 1 else 0

  -- how often a number is free, is in the table, and is in a list of slots
  abbrev pub times_free : List ℕ → ℕ
  times_free [] = 0
  times_free (n ∷ ns) = one n + times_free ns

  abbrev pub times_used : List (ℕ × MemorySlot) → ℕ
  times_used [] = 0
  times_used ((k, s) ∷ m) = one s.id + times_used m

  abbrev times_in : List MemorySlot → ℕ
  times_in [] = 0
  times_in (s ∷ ss) = one s.id + times_in ss

  times_used-insert :
      (k : ℕ) (s : MemorySlot) (m : List (ℕ × MemorySlot))
      → times_used (insert k s m) ≤ one s.id + times_used m
  unfolding insert
  times_used-insert k s [] = ground arith
  times_used-insert k s ((j, t) ∷ m) = ground (arith, times_used-insert k s m)

  times_used-insert_all :
      (ss : List MemorySlot) (m : List (ℕ × MemorySlot))
      → times_used (insert_all ss m) ≤ times_in ss + times_used m
  unfolding insert_all
  times_used-insert_all [] m = omega arith
  times_used-insert_all (s ∷ ss) m =
      omega (arith, times_used-insert_all ss (insert s.begin s m), times_used-insert s.begin s m)

  times_used-erase :
      (k : ℕ) (s : MemorySlot) (m : List (ℕ × MemorySlot))
      → find k m ≡ some s
      → times_used m ≡ one s.id + times_used (erase k m)
  unfolding find erase
  times_used-erase k s [] h = absurd (ground arith)
  times_used-erase k s ((j, t) ∷ m) h = ground (arith, times_used-erase k s m)

  times_free-insert_point :
      (n : ℕ) (free : List ℕ) → times_free (insert_point n free) ≤ one n + times_free free
  unfolding insert_point
  times_free-insert_point n [] = ground arith
  times_free-insert_point n (m ∷ free) = ground (arith, times_free-insert_point n free)

  times_free-freed :
      (s : MemorySlot) (free : List ℕ) → times_free (freed s free) ≤ one s.id + times_free free
  times_free-freed s free = ground (arith, times_free-insert_point s.id free)

-- the slots can be taken out of the table one after the other, each from its first address
abbrev AreRemovable : List MemorySlot → List (ℕ × MemorySlot) → Type 0
AreRemovable [] m = Unit {0}
AreRemovable (s ∷ ss) m = (find s.begin m ≡ some s) × AreRemovable ss (erase s.begin m)

abbrev PendingRemovable : Option Pending → List (ℕ × MemorySlot) → Type 0
PendingRemovable none m = Unit {0}
PendingRemovable (some q) m = AreRemovable q.remove m

AreRemovable-cons :
    (k : ℕ) (t : MemorySlot) (ss : List MemorySlot) (m : List (ℕ × MemorySlot))
    → BeginAbove (suc k) ss
    → AreRemovable ss m
    → AreRemovable ss ((k, t) ∷ m)
unfolding find erase
AreRemovable-cons k t [] m a h = tt
AreRemovable-cons k t (s ∷ ss) m a h =
    let later : (k == s.begin) ≡ false = ground arith in
    rw later (h.0, AreRemovable-cons k t ss (erase s.begin m) a.1 h.1)

PendingRemovable-cons :
    (k : ℕ) (t : MemorySlot) (o : Option Pending) (m : List (ℕ × MemorySlot))
    → PendingAbove (suc k) o
    → PendingRemovable o m
    → PendingRemovable o ((k, t) ∷ m)
PendingRemovable-cons k t none m a h = tt
PendingRemovable-cons k t (some q) m a h = AreRemovable-cons k t q.remove m a.1 h

PendingRemovable-add_slot :
    (s : MemorySlot) (o : Option Pending) (m : List (ℕ × MemorySlot))
    → PendingRemovable o m
    → PendingRemovable (add_slot s o) m
PendingRemovable-add_slot s none m h = tt
PendingRemovable-add_slot s (some q) m h = h

PendingRemovable-remove_slot :
    (k : ℕ) (s : MemorySlot) (o : Option Pending) (m : List (ℕ × MemorySlot))
    → k ≡ s.begin
    → PendingRemovable o m
    → PendingRemovable (remove_slot s o) ((k, s) ∷ m)
unfolding find
PendingRemovable-remove_slot k s none m e h = tt
PendingRemovable-remove_slot k s (some q) m e h =
    (ground arith, rw (erase-cons_self k s.begin s m e) h)

compare_slots-removable :
    (vs : List (ℕ × MemoryRegion)) (os : List (ℕ × MemorySlot)) (free : List ℕ) (next lo : ℕ)
    → IsOrdered lo vs
    → IsOrdered lo os
    → AreKeyed os
    → PendingRemovable (compare_slots vs os free next) os
compare_slots-removable =
    compare_slots_induction
      (λ vs os free next o.
        (lo : ℕ) → IsOrdered lo vs → IsOrdered lo os → AreKeyed os → PendingRemovable o os)
      (λ os free next lo o oo kk. tt) (λ p r vs os next lo o oo kk. tt)
      (λ p r vs os i free next first ih lo o oo kk.
        PendingRemovable-add_slot (new_slot next i p r vs) (compare_slots vs os free (next + 1)) os
          (ih lo (IsOrdered-mono lo (suc p) vs (omega arith) o.1) oo kk))
      (λ p r vs k s os free next e _ _ ih lo o oo kk.
        let ov = IsOrdered-mono (suc k) (suc p) vs (omega arith) o.1 in
        PendingRemovable-cons k s (compare_slots vs os free next) os
          (compare_slots-PendingAbove vs os free next (suc k) ov oo.1 kk.1)
          (ih (suc k) ov oo.1 kk.1))
      (λ p r vs k s os free next h ih lo o oo kk.
        PendingRemovable-remove_slot k s (compare_slots ((p, r) ∷ vs) os free next) os kk.0
          (ih lo o (IsOrdered-mono lo (suc k) os (omega arith) oo.1) kk.1))

-- where the numbers of the free list go
abbrev Shares : ℕ → List ℕ → Option Pending → Type 0
Shares i free none = Unit {0}
Shares i free (some q) = times_free i free ≡ times_in i q.add + times_free i q.free

Shares-add_slot :
    (i n : ℕ) (s : MemorySlot) (free : List ℕ) (o : Option Pending)
    → s.id ≡ n
    → Shares i free o
    → Shares i (n ∷ free) (add_slot s o)
Shares-add_slot i n s free none e h = tt
Shares-add_slot i n s free (some q) e h = ground arith

Shares-remove_slot :
    (i : ℕ) (s : MemorySlot) (free : List ℕ) (o : Option Pending)
    → Shares i free o
    → Shares i free (remove_slot s o)
Shares-remove_slot i s free none h = tt
Shares-remove_slot i s free (some q) h = h

id-new_slot :
    (ref id p : ℕ) (r : MemoryRegion) (vs : List (ℕ × MemoryRegion))
    → (new_slot ref id p r vs).id ≡ id
unfolding new_slot
id-new_slot ref id p r vs = refl

compare_slots-Shares :
    (i : ℕ) (vs : List (ℕ × MemoryRegion)) (os : List (ℕ × MemorySlot)) (free : List ℕ) (next : ℕ)
    → Shares i free (compare_slots vs os free next)
compare_slots-Shares i =
    compare_slots_induction (λ vs os free next o. Shares i free o) (λ os free next. omega arith)
      (λ p r vs os next. tt)
      (λ p r vs os n free next first ih.
        Shares-add_slot i n (new_slot next n p r vs) free (compare_slots vs os free (next + 1))
          (id-new_slot next n p r vs) ih)
      (λ p r vs k s os free next _ _ _ ih. ih)
      (λ p r vs k s os free next _ ih.
        Shares-remove_slot i s free (compare_slots ((p, r) ∷ vs) os free next) ih)

times-erase_all :
    (i : ℕ) (ss : List MemorySlot) (m : List (ℕ × MemorySlot)) (free : List ℕ)
    → AreRemovable ss m
    → times_used i (erase_all ss m) + times_free i (freed_all ss free)
      ≤ times_used i m + times_free i free
unfolding erase_all
times-erase_all i [] m free h = omega arith
times-erase_all i (s ∷ ss) m free h = omega (
  arith,
  times-erase_all i ss (erase s.begin m) (freed s free) h.1,
  times_used-erase i s.begin s m h.0,
  times_free-freed i s free,
)

-- A commit makes no slot number more frequent, the free ones and those in the table taken
-- together, if the table is in order and each slot stands at its first address.
pub commit-times-le :
    (ioctl_ok : KvmMemoryRegion → Bool) (m m' : MemoryManager)
    → IsOrdered 0 m.kvm_slots
    → AreKeyed m.kvm_slots
    → commit_memory_region_changes ioctl_ok m ≡ some m'
    → (i : ℕ)
    → times_used i m'.kvm_slots + times_free i m'.free_slots
      ≤ times_used i m.kvm_slots + times_free i m.free_slots
commit-times-le ioctl_ok m m' o kk e i =
    let (q, c, slots, free, _) = commit_effects ioctl_ok m m' e in
    let vs = visible_regions m.regions in
    let out : AreRemovable q.remove m.kvm_slots = rw c at (
      compare_slots-removable vs m.kvm_slots m.free_slots m.next 0
        (visible_regions-IsOrdered m.regions) o kk) in
    let shares : Shares i m.free_slots (some q) =
      rw c at (compare_slots-Shares i vs m.kvm_slots m.free_slots m.next) in
    rw (slots, free)
      (omega (
        arith,
        times_used-insert_all i q.add (erase_all q.remove m.kvm_slots),
        times-erase_all i q.remove m.kvm_slots q.free out,
        shares,
      ))
