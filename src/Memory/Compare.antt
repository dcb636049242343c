-- ===== src/Memory/Compare.antt =====
-- The loop of CommitMemoryRegionChanges (core/memory_manager.cc) that compares the visible regions
-- with the slot table, step by step, and where its additions and removals begin.
use mvisor_x.Base.{
  ℕ, suc, ◌+◌, ◌≤◌, ◌<◌, ◌≡◌, refl, true, List, [], ◌∷◌, Option, none, some, arith, inl, inr, ◌⊎◌,
}
use mvisor_x.Memory.Types.{MemoryRegion, MemorySlot}
use mvisor_x.Memory.Commit.{
  Pending, add_slot, remove_slot, compare_slots, new_slot, choose, Choice, same_next,
}
use mvisor_x.Memory.Tables.{BeginAbove, BeginAbove-mono}
use mvisor_x.StdMap.{IsOrdered, IsOrdered-mono}

-- each slot stands at its first address
abbrev pub AreKeyed : List (ℕ × MemorySlot) → Type 0
AreKeyed [] = Unit {0}
AreKeyed ((k, s) ∷ os) = (k ≡ s.begin) × AreKeyed os

abbrev pub PendingAbove : ℕ → Option Pending → Type 0
PendingAbove lo none = Unit {0}
PendingAbove lo (some q) = BeginAbove lo q.add × BeginAbove lo q.remove

pub Choice-cases : (c : Choice) → (c ≡ Choice.add) ⊎ ((c ≡ Choice.keep) ⊎ (c ≡ Choice.drop))
Choice-cases Choice.add = inl refl
Choice-cases Choice.keep = inr (inl refl)
Choice-cases Choice.drop = inr (inr refl)

module _ (p k : ℕ) (r : MemoryRegion) (s : MemorySlot) where
  module _ (vs : List (ℕ × MemoryRegion)) (os : List (ℕ × MemorySlot)) where
    choose-eq-add : choose p r vs ((k, s) ∷ os) ≡ Choice.add → p < k
    unfolding choose
    choose-eq-add e = ground arith

    choose-eq-keep :
        choose p r vs ((k, s) ∷ os) ≡ Choice.keep
        → (p ≡ k) × (r.ref ≡ s.region) × (same_next vs os ≡ true)
    unfolding choose
    choose-eq-keep e = ground arith

    choose-eq-drop : choose p r vs ((k, s) ∷ os) ≡ Choice.drop → k ≤ p
    unfolding choose
    choose-eq-drop e = ground arith

-- the table begins after `p`
abbrev pub StartsAfter : ℕ → List (ℕ × MemorySlot) → Type 0
StartsAfter p [] = Unit {0}
StartsAfter p ((k, s) ∷ os) = p < k

pub StartsAfter-IsOrdered :
    (p lo : ℕ) (os : List (ℕ × MemorySlot))
    → StartsAfter p os
    → IsOrdered lo os
    → IsOrdered (suc p) os
StartsAfter-IsOrdered p lo [] h o = tt
StartsAfter-IsOrdered p lo ((k, s) ∷ os) h o = (h, o.1)

-- Induction along the loop: it ends with the visible regions; a new slot finds no number; a new
-- slot takes the first free number; the old slot stays; the old slot goes.
module _ {ℓ}
    (P : List (ℕ × MemoryRegion) → List (ℕ × MemorySlot) → List ℕ → ℕ → Option Pending → Type ℓ)
    (done : (os : List (ℕ × MemorySlot)) (free : List ℕ) (next : ℕ)
      → P [] os free next (some (record { add = []; remove = []; free = free; next = next })))
    (full : (p : ℕ) (r : MemoryRegion) (vs : List (ℕ × MemoryRegion)) (os : List (ℕ × MemorySlot))
        (next : ℕ)
      → P ((p, r) ∷ vs) os [] next none)
    (add : (p : ℕ) (r : MemoryRegion) (vs : List (ℕ × MemoryRegion)) (os : List (ℕ × MemorySlot))
        (i : ℕ) (free : List ℕ) (next : ℕ)
      → StartsAfter p os
      → P vs os free (next + 1) (compare_slots vs os free (next + 1))
      → P
          ((p, r) ∷ vs)
          os
          (i ∷ free)
          next
          (add_slot (new_slot next i p r vs) (compare_slots vs os free (next + 1))))
    (keep : (p : ℕ) (r : MemoryRegion) (vs : List (ℕ × MemoryRegion)) (k : ℕ) (s : MemorySlot)
        (os : List (ℕ × MemorySlot)) (free : List ℕ) (next : ℕ)
      → p ≡ k
      → r.ref ≡ s.region
      → same_next vs os ≡ true
      → P vs os free next (compare_slots vs os free next)
      → P ((p, r) ∷ vs) ((k, s) ∷ os) free next (compare_slots vs os free next))
    (drop : (p : ℕ) (r : MemoryRegion) (vs : List (ℕ × MemoryRegion)) (k : ℕ) (s : MemorySlot)
        (os : List (ℕ × MemorySlot)) (free : List ℕ) (next : ℕ)
      → k ≤ p
      → P ((p, r) ∷ vs) os free next (compare_slots ((p, r) ∷ vs) os free next)
      → P
          ((p, r) ∷ vs)
          ((k, s) ∷ os)
          free
          next
          (remove_slot s (compare_slots ((p, r) ∷ vs) os free next))) where
  pub compare_slots_induction :
      (vs : List (ℕ × MemoryRegion)) (os : List (ℕ × MemorySlot)) (free : List ℕ) (next : ℕ)
      → P vs os free next (compare_slots vs os free next)
  unfolding compare_slots choose
  compare_slots_induction [] os free next = done os free next
  compare_slots_induction ((p, r) ∷ vs) [] [] next = full p r vs [] next
  compare_slots_induction ((p, r) ∷ vs) [] (i ∷ free) next =
      add p r vs [] i free next tt (compare_slots_induction vs [] free (next + 1))
  compare_slots_induction ((p, r) ∷ vs) ((k, s) ∷ os) [] next =
      elim (Choice-cases (choose p r vs ((k, s) ∷ os))) [
        | inl e ↦ rw (e, compare_slots) (full p r vs ((k, s) ∷ os) next)
        | inr (inl e) ↦
            let (same, owned, next_same) = choose-eq-keep p k r s vs os e in
            rw (e, compare_slots)
              (keep p r vs k s os [] next same owned next_same
                (compare_slots_induction vs os [] next))
        | inr (inr e) ↦
            rw (e, compare_slots)
              (drop p r vs k s os [] next (choose-eq-drop p k r s vs os e)
                (compare_slots_induction ((p, r) ∷ vs) os [] next))
      ]
  compare_slots_induction ((p, r) ∷ vs) ((k, s) ∷ os) (i ∷ free) next =
      elim (Choice-cases (choose p r vs ((k, s) ∷ os))) [
        | inl e ↦
            rw (e, compare_slots)
              (add p r vs ((k, s) ∷ os) i free next (choose-eq-add p k r s vs os e)
                (compare_slots_induction vs ((k, s) ∷ os) free (next + 1)))
        | inr (inl e) ↦
            let (same, owned, next_same) = choose-eq-keep p k r s vs os e in
            rw (e, compare_slots)
              (keep p r vs k s os (i ∷ free) next same owned next_same
                (compare_slots_induction vs os (i ∷ free) next))
        | inr (inr e) ↦
            rw (e, compare_slots)
              (drop p r vs k s os (i ∷ free) next (choose-eq-drop p k r s vs os e)
                (compare_slots_induction ((p, r) ∷ vs) os (i ∷ free) next))
      ]

pub begin-new_slot :
    (ref id p : ℕ) (r : MemoryRegion) (vs : List (ℕ × MemoryRegion))
    → (new_slot ref id p r vs).begin ≡ p
unfolding new_slot
begin-new_slot ref id p r vs = refl

PendingAbove-mono :
    (lo hi : ℕ) (o : Option Pending) → lo ≤ hi → PendingAbove hi o → PendingAbove lo o
PendingAbove-mono lo hi none h a = tt
PendingAbove-mono lo hi (some q) h a =
    (BeginAbove-mono lo hi q.add h a.0, BeginAbove-mono lo hi q.remove h a.1)

PendingAbove-add_slot :
    (lo : ℕ) (s : MemorySlot) (o : Option Pending)
    → lo ≤ s.begin
    → PendingAbove lo o
    → PendingAbove lo (add_slot s o)
PendingAbove-add_slot lo s none h a = tt
PendingAbove-add_slot lo s (some q) h a = ((h, a.0), a.1)

PendingAbove-remove_slot :
    (lo : ℕ) (s : MemorySlot) (o : Option Pending)
    → lo ≤ s.begin
    → PendingAbove lo o
    → PendingAbove lo (remove_slot s o)
PendingAbove-remove_slot lo s none h a = tt
PendingAbove-remove_slot lo s (some q) h a = (a.0, (h, a.1))

-- What is added or removed begins no earlier than the two tables.
pub compare_slots-PendingAbove :
    (vs : List (ℕ × MemoryRegion)) (os : List (ℕ × MemorySlot)) (free : List ℕ) (next lo : ℕ)
    → IsOrdered lo vs
    → IsOrdered lo os
    → AreKeyed os
    → PendingAbove lo (compare_slots vs os free next)
compare_slots-PendingAbove =
    compare_slots_induction
      (λ vs os free next o.
        (lo : ℕ) → IsOrdered lo vs → IsOrdered lo os → AreKeyed os → PendingAbove lo o)
      (λ os free next lo o oo kk. (tt, tt)) (λ p r vs os next lo o oo kk. tt)
      (λ p r vs os i free next first ih lo o oo kk.
        PendingAbove-add_slot lo (new_slot next i p r vs) (compare_slots vs os free (next + 1))
          (rw begin-new_slot o.0)
          (PendingAbove-mono lo (suc p) (compare_slots vs os free (next + 1)) (omega arith)
            (ih (suc p) o.1 (StartsAfter-IsOrdered p lo os first oo) kk)))
      (λ p r vs k s os free next e _ _ ih lo o oo kk.
        PendingAbove-mono lo (suc k) (compare_slots vs os free next) (omega arith)
          (ih (suc k) (rw e at o.1) oo.1 kk.1))
      (λ p r vs k s os free next h ih lo o oo kk.
        PendingAbove-remove_slot lo s (compare_slots ((p, r) ∷ vs) os free next) (omega arith)
          (ih lo o (IsOrdered-mono lo (suc k) os (omega arith) oo.1) kk.1))
