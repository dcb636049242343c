-- ===== src/Memory/Rebuild.antt =====
-- CommitMemoryRegionChanges (core/memory_manager.cc) edits the slot table; this compares the
-- edited table with one built from the visible regions alone.
use mvisor_x.Base.{
  ℕ, suc, ◌+◌, ◌≤◌, ◌<◌, ◌≡◌, refl, ap, true, List, [], ◌∷◌, Option, none, some, ◌∙◌, arith, max,
  sym, u64, ◌-◌, subst,
}
use mvisor_x.Memory.Types.{MemoryRegion, MemorySlot}
use mvisor_x.Memory.Commit.{
  Pending, add_slot, remove_slot, compare_slots, new_slot, slot_end, same_next,
}
use mvisor_x.Memory.Compare.{
  AreKeyed, PendingAbove, StartsAfter, StartsAfter-IsOrdered, compare_slots_induction,
  compare_slots-PendingAbove,
}
use mvisor_x.Memory.Tables.{
  insert_all, erase_all, erase_all-Above, insert_all-new, insert_all-cons, erase_all-cons,
}
use mvisor_x.StdMap.{Above, IsOrdered, IsOrdered-mono, IsOrdered-Above, erase-cons_self}

-- the slot without its number and its pointer
abbrev pub strip : MemorySlot → MemorySlot
strip s = record s { ref = 0; id = 0 }

-- The table has one slot for each visible region, the one that `new_slot` makes, whatever its
-- number and pointer.
abbrev pub IsBuilt : List (ℕ × MemorySlot) → List (ℕ × MemoryRegion) → Type 0
IsBuilt [] [] = Unit {0}
IsBuilt ((k, s) ∷ os) ((p, r) ∷ vs) = (k ≡ p) × (strip s ≡ new_slot 0 0 p r vs) × IsBuilt os vs
IsBuilt _ _ = ⊥

-- one region to a pointer
abbrev pub AreOwned : (ℕ → MemoryRegion) → List (ℕ × MemoryRegion) → Type 0
AreOwned owner [] = Unit {0}
AreOwned owner ((p, r) ∷ vs) = (owner r.ref ≡ r) × AreOwned owner vs

-- one past the last key
abbrev pub top : List (ℕ × MemoryRegion) → ℕ
top [] = 0
top ((p, r) ∷ vs) = max (suc p) (top vs)

abbrev pub Below : ℕ → List (ℕ × MemorySlot) → Type 0
Below hi [] = Unit {0}
Below hi ((k, s) ∷ os) = (k < hi) × Below hi os

-- what the additions and removals of `o` make of a table: built from the regions
abbrev Rebuilds : List (ℕ × MemorySlot) → List (ℕ × MemoryRegion) → Option Pending → Type 0
Rebuilds os vs none = Unit {0}
Rebuilds os vs (some q) = IsBuilt (insert_all q.add (erase_all q.remove os)) vs

StartsAfter-Above :
    (p : ℕ) (os : List (ℕ × MemorySlot)) (lo : ℕ)
    → StartsAfter p os
    → IsOrdered lo os
    → Above (suc p) os
StartsAfter-Above p [] lo h o = tt
StartsAfter-Above p ((k, s) ∷ os) lo h o = IsOrdered-Above (suc p) ((k, s) ∷ os) (h, o.1)

pub IsBuilt-AreKeyed :
    (os : List (ℕ × MemorySlot)) (ws : List (ℕ × MemoryRegion)) → IsBuilt os ws → AreKeyed os
unfolding new_slot
IsBuilt-AreKeyed [] ws b = tt
IsBuilt-AreKeyed ((k, s) ∷ os) [] b = absurd b
IsBuilt-AreKeyed ((k, s) ∷ os) ((q, w) ∷ ws) b =
    (b.0 ∙ sym (ap (λ t. t.begin) b.1), IsBuilt-AreKeyed os ws b.2)

pub IsBuilt-IsOrdered :
    (lo : ℕ) (os : List (ℕ × MemorySlot)) (ws : List (ℕ × MemoryRegion))
    → IsBuilt os ws
    → IsOrdered lo ws
    → IsOrdered lo os
IsBuilt-IsOrdered lo [] ws b o = tt
IsBuilt-IsOrdered lo ((k, s) ∷ os) [] b o = absurd b
IsBuilt-IsOrdered lo ((k, s) ∷ os) ((q, w) ∷ ws) b o =
    (rw b.0 o.0, IsBuilt-IsOrdered (suc k) os ws b.2 (rw b.0 o.1))

slot_end-same_next :
    (p : ℕ) (r : MemoryRegion) (vs ws : List (ℕ × MemoryRegion)) (os : List (ℕ × MemorySlot))
    → same_next vs os ≡ true
    → IsBuilt os ws
    → slot_end p r ws ≡ slot_end p r vs
unfolding slot_end
slot_end-same_next p r [] [] [] h b = refl
slot_end-same_next p r ((q, v) ∷ vs) ((j, w) ∷ ws) ((k, s) ∷ os) h b = ground arith
slot_end-same_next p r [] ((j, w) ∷ ws) [] h b = absurd b
slot_end-same_next p r [] ws (e ∷ os) h b = cc
slot_end-same_next p r (v ∷ vs) ws [] h b = cc
slot_end-same_next p r (v ∷ vs) [] (e ∷ os) h b = absurd b

-- a slot that is kept is the one that `new_slot` would make
strip-keep :
    (owner : ℕ → MemoryRegion) (p k : ℕ) (r w : MemoryRegion) (s : MemorySlot)
    (vs ws : List (ℕ × MemoryRegion)) (os : List (ℕ × MemorySlot))
    → p ≡ k
    → owner r.ref ≡ r
    → owner w.ref ≡ w
    → r.ref ≡ s.region
    → same_next vs os ≡ true
    → strip s ≡ new_slot 0 0 k w ws
    → IsBuilt os ws
    → strip s ≡ new_slot 0 0 p r vs
unfolding new_slot
strip-keep owner p k r w s vs ws os e or ow h n b bs =
    let slot : ℕ → ℕ → MemoryRegion → MemorySlot = λ x q t. record {
      ref = 0;
      type = t.type;
      begin = q;
      end = x;
      size = u64 (x + 18446744073709551616 - q);
      hva = u64 (t.host + q + 18446744073709551616 - t.gpa);
      id = 0;
      flags = t.flags;
      region = t.ref;
    } in
    let same : w ≡ r = sym ow ∙ (ap owner (sym (ap (λ t. t.region) b) ∙ sym h) ∙ or) in
    b
    ∙ (ap (λ t. slot (slot_end k t ws) k t) same
        ∙ (ap (λ q. slot (slot_end q r ws) q r) (sym e)
            ∙ ap (λ x. slot x p r) (slot_end-same_next p r vs ws os n bs)))

Rebuilds-add_slot :
    (p i next : ℕ) (r : MemoryRegion) (vs : List (ℕ × MemoryRegion)) (os : List (ℕ × MemorySlot))
    (o : Option Pending)
    → Above (suc p) os
    → PendingAbove (suc p) o
    → Rebuilds os vs o
    → Rebuilds os ((p, r) ∷ vs) (add_slot (new_slot next i p r vs) o)
unfolding new_slot
Rebuilds-add_slot p i next r vs os none a b h = tt
Rebuilds-add_slot p i next r vs os (some q) a b h =
    rw
      (insert_all-new (new_slot next i p r vs) q.add (erase_all q.remove os)
        (erase_all-Above (suc p) q.remove os a) b.0)
      (refl, refl, h)

Rebuilds-keep :
    (p : ℕ) (r : MemoryRegion) (s : MemorySlot) (vs : List (ℕ × MemoryRegion))
    (os : List (ℕ × MemorySlot)) (o : Option Pending)
    → strip s ≡ new_slot 0 0 p r vs
    → PendingAbove (suc p) o
    → Rebuilds os vs o
    → Rebuilds ((p, s) ∷ os) ((p, r) ∷ vs) o
Rebuilds-keep p r s vs os none e b h = tt
Rebuilds-keep p r s vs os (some q) e b h =
    rw (erase_all-cons p s q.remove os b.1)
      (rw (insert_all-cons p s q.add (erase_all q.remove os) b.0) (refl, e, h))

Rebuilds-drop :
    (k : ℕ) (s : MemorySlot) (vs : List (ℕ × MemoryRegion)) (os : List (ℕ × MemorySlot))
    (o : Option Pending)
    → k ≡ s.begin
    → Rebuilds os vs o
    → Rebuilds ((k, s) ∷ os) vs (remove_slot s o)
unfolding erase_all
Rebuilds-drop k s vs os none e h = tt
Rebuilds-drop k s vs os (some q) e h = rw (erase-cons_self k s.begin s os e) h

Below-max :
    (p hi : ℕ) (os : List (ℕ × MemorySlot))
    → Above (suc p) os
    → Below (max (suc p) hi) os
    → Below hi os
Below-max p hi [] a b = tt
Below-max p hi ((k, s) ∷ os) a b = (omega arith, Below-max p hi os a.1 b.1)

Below-zero : (os : List (ℕ × MemorySlot)) → Below 0 os → os ≡ []
Below-zero [] b = refl
Below-zero ((k, s) ∷ os) b = absurd (omega arith)

-- the facts along the loop, and what it gives
module _ (owner : ℕ → MemoryRegion) where
  abbrev Built : List (ℕ × MemoryRegion) → List (ℕ × MemorySlot) → Option Pending → Type 0
  Built vs os o =
      (lo : ℕ) (ws : List (ℕ × MemoryRegion))
      → IsOrdered lo vs
      → IsOrdered lo ws
      → AreOwned owner vs
      → AreOwned owner ws
      → IsBuilt os ws
      → Below (top vs) os
      → Rebuilds os vs o

  Built-done :
      (os : List (ℕ × MemorySlot)) (free : List ℕ) (next : ℕ)
      → Built [] os (some (record { add = []; remove = []; free = free; next = next }))
  unfolding insert_all erase_all
  Built-done os free next lo ws o ow v vw b h = rw (Below-zero os h) tt

  Built-add :
      (p : ℕ) (r : MemoryRegion) (vs : List (ℕ × MemoryRegion)) (os : List (ℕ × MemorySlot)) (i : ℕ)
      (free : List ℕ) (next : ℕ)
      → StartsAfter p os
      → Built vs os (compare_slots vs os free (next + 1))
      → Built
          ((p, r) ∷ vs)
          os
          (add_slot (new_slot next i p r vs) (compare_slots vs os free (next + 1)))
  Built-add p r vs os i free next first ih lo ws o ow v vw b h =
      let oo = IsBuilt-IsOrdered lo os ws b ow in
      let above = StartsAfter-Above p os lo first oo in
      Rebuilds-add_slot p i next r vs os (compare_slots vs os free (next + 1)) above
        (compare_slots-PendingAbove vs os free (next + 1) (suc p) o.1
          (StartsAfter-IsOrdered p lo os first oo) (IsBuilt-AreKeyed os ws b))
        (ih lo ws (IsOrdered-mono lo (suc p) vs (omega arith) o.1) ow v.1 vw b
          (Below-max p (top vs) os above h))

  Built-keep :
      (p : ℕ) (r : MemoryRegion) (vs : List (ℕ × MemoryRegion)) (k : ℕ) (s : MemorySlot)
      (os : List (ℕ × MemorySlot)) (free : List ℕ) (next : ℕ)
      → p ≡ k
      → r.ref ≡ s.region
      → same_next vs os ≡ true
      → Built vs os (compare_slots vs os free next)
      → Built ((p, r) ∷ vs) ((k, s) ∷ os) (compare_slots vs os free next)
  Built-keep p r vs k s os free next e n same ih lo [] o ow v vw b h = absurd b
  Built-keep p r vs k s os free next e n same ih lo ((q, w) ∷ ws) o ow v vw b h =
      let pq : suc p ≤ suc q = omega (arith, b.0) in
      let oo = IsOrdered-mono (suc p) (suc q) os pq (IsBuilt-IsOrdered (suc q) os ws b.2 ow.1) in
      let made =
        strip-keep owner p k r w s vs ws os e v.0 vw.0 n same
          (subst (λ j. strip s ≡ new_slot 0 0 j w ws) (sym b.0) b.1) b.2 in
      subst (λ j. Rebuilds ((j, s) ∷ os) ((p, r) ∷ vs) (compare_slots vs os free next)) e
        (Rebuilds-keep p r s vs os (compare_slots vs os free next) made
          (compare_slots-PendingAbove vs os free next (suc p) o.1 oo (IsBuilt-AreKeyed os ws b.2))
          (ih (suc p) ws o.1 (IsOrdered-mono (suc p) (suc q) ws pq ow.1) v.1 vw.1 b.2
            (Below-max p (top vs) os (IsOrdered-Above (suc p) os oo) h.1)))

  Built-drop :
      (p : ℕ) (r : MemoryRegion) (vs : List (ℕ × MemoryRegion)) (k : ℕ) (s : MemorySlot)
      (os : List (ℕ × MemorySlot)) (free : List ℕ) (next : ℕ)
      → k ≤ p
      → Built ((p, r) ∷ vs) os (compare_slots ((p, r) ∷ vs) os free next)
      → Built ((p, r) ∷ vs) ((k, s) ∷ os) (remove_slot s (compare_slots ((p, r) ∷ vs) os free next))
  Built-drop p r vs k s os free next le ih lo [] o ow v vw b h = absurd b
  Built-drop p r vs k s os free next le ih lo ((q, w) ∷ ws) o ow v vw b h =
      Rebuilds-drop k s ((p, r) ∷ vs) os (compare_slots ((p, r) ∷ vs) os free next)
        (IsBuilt-AreKeyed ((k, s) ∷ os) ((q, w) ∷ ws) b).0
        (ih lo ws o (IsOrdered-mono lo (suc q) ws (omega arith) ow.1) v vw.1 b.2 h.1)

  -- Where the slot table is built from some visible regions, and no slot begins after the last of
  -- the new ones, the additions and removals of the loop make it a table built from the new ones.
  pub compare_slots-rebuilds :
      (vs : List (ℕ × MemoryRegion)) (os : List (ℕ × MemorySlot)) (free : List ℕ) (next : ℕ)
      → Built vs os (compare_slots vs os free next)
  compare_slots-rebuilds =
      compare_slots_induction (λ vs os free next o. Built vs os o) Built-done
        (λ p r vs os next lo ws o ow v vw b h. tt) Built-add Built-keep Built-drop
