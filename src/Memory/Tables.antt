-- ===== src/Memory/Tables.antt =====
-- Lemmas on the ordered map of slots (the std::map of core/memory_manager.cc): several insertions
-- and removals, and where they meet the front of the table.
use mvisor_x.Base.{ℕ, suc, ◌≤◌, ◌≡◌, refl, ap, List, [], ◌∷◌, ◌∙◌, arith}
use mvisor_x.Memory.Types.{MemorySlot}
use mvisor_x.StdMap.{insert, erase, Above, insert-Above, erase-Above}

-- every slot begins at `lo` or later
abbrev pub BeginAbove : ℕ → List MemorySlot → Type 0
BeginAbove lo [] = Unit {0}
BeginAbove lo (s ∷ ss) = (lo ≤ s.begin) × BeginAbove lo ss

-- `kvm_slots_[slot->begin] = slot` for each slot, and `kvm_slots_.erase(slot->begin)` for each
unfoldable pub insert_all : List MemorySlot → List (ℕ × MemorySlot) → List (ℕ × MemorySlot)
insert_all [] m = m
insert_all (s ∷ ss) m = insert_all ss (insert s.begin s m)

unfoldable pub erase_all : List MemorySlot → List (ℕ × MemorySlot) → List (ℕ × MemorySlot)
erase_all [] m = m
erase_all (s ∷ ss) m = erase_all ss (erase s.begin m)

pub BeginAbove-mono :
    (lo hi : ℕ) (ss : List MemorySlot) → lo ≤ hi → BeginAbove hi ss → BeginAbove lo ss
BeginAbove-mono lo hi [] h a = tt
BeginAbove-mono lo hi (s ∷ ss) h a = (omega arith, BeginAbove-mono lo hi ss h a.1)

pub erase_all-Above :
    (lo : ℕ) (ss : List MemorySlot) (m : List (ℕ × MemorySlot))
    → Above lo m
    → Above lo (erase_all ss m)
unfolding erase_all
erase_all-Above lo [] m h = h
erase_all-Above lo (s ∷ ss) m h =
    erase_all-Above lo ss (erase s.begin m) (erase-Above lo s.begin m h)

-- Slots that begin later leave the first entry in its place.
pub insert_all-cons :
    (p : ℕ) (s : MemorySlot) (ss : List MemorySlot) (m : List (ℕ × MemorySlot))
    → BeginAbove (suc p) ss
    → insert_all ss ((p, s) ∷ m) ≡ (p, s) ∷ insert_all ss m
unfolding insert_all insert
insert_all-cons p s [] m h = refl
insert_all-cons p s (t ∷ ss) m h = ground (arith, insert_all-cons p s ss (insert t.begin t m) h.1)

pub insert_all-new :
    (s : MemorySlot) (ss : List MemorySlot) (m : List (ℕ × MemorySlot))
    → Above (suc s.begin) m
    → BeginAbove (suc s.begin) ss
    → insert_all (s ∷ ss) m ≡ (s.begin, s) ∷ insert_all ss m
unfolding insert_all
insert_all-new s ss m a b =
    ap (insert_all ss) (insert-Above s.begin s m a) ∙ insert_all-cons s.begin s ss m b

pub erase_all-cons :
    (p : ℕ) (s : MemorySlot) (ss : List MemorySlot) (m : List (ℕ × MemorySlot))
    → BeginAbove (suc p) ss
    → erase_all ss ((p, s) ∷ m) ≡ (p, s) ∷ erase_all ss m
unfolding erase_all erase
erase_all-cons p s [] m h = refl
erase_all-cons p s (t ∷ ss) m h = ground (arith, erase_all-cons p s ss (erase t.begin m) h.1)
