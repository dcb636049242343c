-- ===== src/Memory/Invariant.antt =====
-- The invariant of the slot table of core/memory_manager.cc, and the operations that keep it.
use Prim.Native.String.{String}
use mvisor_x.Base.{
  ℕ, suc, ◌+◌, ◌≤◌, ◌≡◌, Bool, List, [], ◌∷◌, Option, none, some, arith, ◌==◌, Option-cases, inl,
  inr, Bool-cases, refl, ◌∙◌,
}
use mvisor_x.Memory.Types.{MemoryType, MemoryRegion, MemorySlot, KvmMemoryRegion, is_ram}
use mvisor_x.StdMap.{insert, erase, insert-IsOrdered, erase-IsOrdered}
use mvisor_x.Memory.Commit.{MemoryManager, commit_memory_region_changes, update_kvm_slot}
use mvisor_x.Memory.Compare.{AreKeyed}
use mvisor_x.Memory.Tables.{insert_all, erase_all}
use mvisor_x.StdMap.{IsOrdered}
use mvisor_x.Memory.Effects.{commit_effects}
use mvisor_x.Memory.Ids.{times_used, times_free, commit-times-le}
use mvisor_x.Memory.Api.{
  map_region, unmap_region, set_log_dirty_bitmap, set_slot_flag, set_slot_flags, find_region,
  log_flags, erase_region, with_region,
}

-- The keys grow, each slot stands at its first address, and no slot number is used twice or both
-- used and free.
pub record IsValid (m : MemoryManager) : Type 0 where
  pub ordered : IsOrdered 0 m.kvm_slots
  pub keyed : AreKeyed m.kvm_slots
  pub once : (i : ℕ) → times_used i m.kvm_slots + times_free i m.free_slots ≤ 1

insert-AreKeyed :
    (s : MemorySlot) (m : List (ℕ × MemorySlot)) → AreKeyed m → AreKeyed (insert s.begin s m)
unfolding insert
insert-AreKeyed s [] h = ground arith
insert-AreKeyed s ((j, t) ∷ m) h = ground (arith, insert-AreKeyed s m)

erase-AreKeyed : (k : ℕ) (m : List (ℕ × MemorySlot)) → AreKeyed m → AreKeyed (erase k m)
unfolding erase
erase-AreKeyed k [] h = tt
erase-AreKeyed k ((j, t) ∷ m) h = ground (arith, erase-AreKeyed k m h.1)

module _ (P : List (ℕ × MemorySlot) → Type 0) where
  insert_all-keeps :
      ((s : MemorySlot) (m : List (ℕ × MemorySlot)) → P m → P (insert s.begin s m))
      → (ss : List MemorySlot) (m : List (ℕ × MemorySlot)) → P m
      → P (insert_all ss m)
  unfolding insert_all
  insert_all-keeps keep [] m h = h
  insert_all-keeps keep (s ∷ ss) m h = insert_all-keeps keep ss (insert s.begin s m) (keep s m h)

  erase_all-keeps :
      ((k : ℕ) (m : List (ℕ × MemorySlot)) → P m → P (erase k m))
      → (ss : List MemorySlot) (m : List (ℕ × MemorySlot)) → P m
      → P (erase_all ss m)
  unfolding erase_all
  erase_all-keeps keep [] m h = h
  erase_all-keeps keep (s ∷ ss) m h = erase_all-keeps keep ss (erase s.begin m) (keep s.begin m h)

module _ (ioctl_ok : KvmMemoryRegion → Bool) where
  -- A commit that does not panic keeps the slot table in the order of first addresses, each slot
  -- at its own, and each slot number used at most once and not at once used and free.
  pub commit-IsValid :
      (m m' : MemoryManager)
      → IsValid m
      → commit_memory_region_changes ioctl_ok m ≡ some m'
      → IsValid m'
  commit-IsValid m m' v e =
      let (q, _, slots, _, _) = commit_effects ioctl_ok m m' e in
      record {
        ordered = rw slots (
            insert_all-keeps (IsOrdered 0) (λ s n o. insert-IsOrdered s.begin s 0 n (omega arith) o)
              q.add (erase_all q.remove m.kvm_slots)
              (erase_all-keeps (IsOrdered 0) (λ k n o. erase-IsOrdered k 0 n o) q.remove m.kvm_slots
                v.ordered));
        keyed = rw slots (
            insert_all-keeps AreKeyed insert-AreKeyed q.add (erase_all q.remove m.kvm_slots)
              (erase_all-keeps AreKeyed erase-AreKeyed q.remove m.kvm_slots v.keyed));
        once = λ i. omega (arith, commit-times-le ioctl_ok m m' v.ordered v.keyed e i, v.once i);
      }

  -- What `Map` returns is the next pointer, and the state is that of the commit.
  pub map_region-inv :
      (gpa size host : ℕ) (type : MemoryType) (name : String) (m m' : MemoryManager) (ref : ℕ)
      → map_region ioctl_ok gpa size host type name m ≡ some (ref, m')
      → commit_memory_region_changes ioctl_ok (with_region gpa size host type name m) ≡ some m'
  unfolding map_region
  map_region-inv gpa size host type name m m' ref e = elim (Bool-cases (size == 0)) [
    | inl z ↦ absurd (ground arith)
    | inr z ↦
        elim (Option-cases
          (commit_memory_region_changes ioctl_ok (with_region gpa size host type name m))) [
            | inl n ↦ absurd (ground arith)
            | inr (m₁, f) ↦ ground arith
          ]
  ]

  -- `Map` keeps the invariant.
  pub map_region-IsValid :
      (gpa size host : ℕ) (type : MemoryType) (name : String) (m m' : MemoryManager) (ref : ℕ)
      → IsValid m
      → map_region ioctl_ok gpa size host type name m ≡ some (ref, m')
      → IsValid m'
  unfolding with_region
  map_region-IsValid gpa size host type name m m' ref v e =
      commit-IsValid (with_region gpa size host type name m) m'
        (record { ordered = v.ordered; keyed = v.keyed; once = v.once })
        (map_region-inv gpa size host type name m m' ref e)

  -- `Unmap` keeps the invariant.
  pub unmap_region-IsValid :
      (ref : ℕ) (m m' : MemoryManager)
      → IsValid m
      → unmap_region ioctl_ok ref m ≡ some m'
      → IsValid m'
  unfolding unmap_region
  unmap_region-IsValid ref m m' v e = elim (Option-cases (find_region ref m.regions)) [
    | inl n ↦ absurd (ground arith)
    | inr (r, f) ↦
        commit-IsValid (record m { regions = erase_region ref m.regions }) m'
          (record { ordered = v.ordered; keyed = v.keyed; once = v.once }) (ground arith)
  ]

  -- the same keys, first addresses and numbers
  abbrev AreAlike : List (ℕ × MemorySlot) → List (ℕ × MemorySlot) → Type 0
  AreAlike [] [] = Unit {0}
  AreAlike ((k, s) ∷ m) ((j, t) ∷ n) = (k ≡ j) × (s.begin ≡ t.begin) × (s.id ≡ t.id) × AreAlike m n
  AreAlike _ _ = ⊥

  AreAlike-IsOrdered :
      (lo : ℕ) (m n : List (ℕ × MemorySlot)) → AreAlike m n → IsOrdered lo m → IsOrdered lo n
  AreAlike-IsOrdered lo [] [] a o = tt
  AreAlike-IsOrdered lo [] (e ∷ n) a o = absurd a
  AreAlike-IsOrdered lo (e ∷ m) [] a o = absurd a
  AreAlike-IsOrdered lo ((k, s) ∷ m) ((j, t) ∷ n) a o =
      (omega (arith, o.0), AreAlike-IsOrdered (suc j) m n a.3 (rw a.0 at o.1))

  AreAlike-AreKeyed : (m n : List (ℕ × MemorySlot)) → AreAlike m n → AreKeyed m → AreKeyed n
  AreAlike-AreKeyed [] [] a h = tt
  AreAlike-AreKeyed [] (e ∷ n) a h = absurd a
  AreAlike-AreKeyed (e ∷ m) [] a h = absurd a
  AreAlike-AreKeyed ((k, s) ∷ m) ((j, t) ∷ n) a h =
      (omega (arith, h.0), AreAlike-AreKeyed m n a.3 h.1)

  times_used-AreAlike :
      (i : ℕ) (m n : List (ℕ × MemorySlot)) → AreAlike m n → times_used i n ≡ times_used i m
  times_used-AreAlike i [] [] a = refl
  times_used-AreAlike i [] (e ∷ n) a = absurd a
  times_used-AreAlike i (e ∷ m) [] a = absurd a
  times_used-AreAlike i ((k, s) ∷ m) ((j, t) ∷ n) a = ground (arith, times_used-AreAlike i m n a.3)

  set_slot_flag-alike :
      (ref flags : ℕ) (s s' : MemorySlot) (m m' : MemoryManager)
      → set_slot_flag ioctl_ok ref flags s m ≡ some (s', m')
      → (s.begin ≡ s'.begin) × (s.id ≡ s'.id) × (m'.free_slots ≡ m.free_slots)
  unfolding set_slot_flag update_kvm_slot
  set_slot_flag-alike ref flags s s' m m' e = ground arith

  abbrev Alike :
      List (ℕ × MemorySlot)
      → MemoryManager
      → Option (List (ℕ × MemorySlot) × MemoryManager)
      → Type 0
  Alike slots m none = Unit {0}
  Alike slots m (some (out, m')) = AreAlike slots out × (m'.free_slots ≡ m.free_slots)

  set_slot_flags-Alike :
      (ref flags : ℕ) (slots : List (ℕ × MemorySlot)) (m : MemoryManager)
      → Alike slots m (set_slot_flags ioctl_ok ref flags slots m)
  unfolding set_slot_flags
  set_slot_flags-Alike ref flags [] m = (tt, refl)
  set_slot_flags-Alike ref flags ((k, s) ∷ slots) m =
      elim (Option-cases (set_slot_flag ioctl_ok ref flags s m)) [
        | inl e ↦ rw (e, set_slot_flags) tt
        | inr ((s', m'), e) ↦
            let ih = set_slot_flags-Alike ref flags slots m' in
            elim (Option-cases (set_slot_flags ioctl_ok ref flags slots m')) [
              | inl n ↦ rw (e, set_slot_flags) (rw n tt)
              | inr ((out, m₂), n) ↦
                  let (same_begin, same_id, free) = set_slot_flag-alike ref flags s s' m m' e in
                  let alike : Alike slots m' (some (out, m₂)) = rw n at ih in
                  rw (e, set_slot_flags)
                    (rw n ((refl, same_begin, same_id, alike.0), alike.1 ∙ free))
            ]
      ]

  set_log_dirty_bitmap-inv :
      (ref : ℕ) (log : Bool) (m m' : MemoryManager)
      → set_log_dirty_bitmap ioctl_ok ref log m ≡ some m'
      → (r : MemoryRegion) × (out : List (ℕ × MemorySlot)) × (m₂ : MemoryManager) × (set_slot_flags
            ioctl_ok ref
            (log_flags r.flags log)
            m.kvm_slots
            m
          ≡ some (out, m₂))
        × (m'.kvm_slots ≡ out)
        × (m'.free_slots ≡ m₂.free_slots)
  unfolding set_log_dirty_bitmap
  set_log_dirty_bitmap-inv ref log m m' e = elim (Option-cases (find_region ref m.regions)) [
    | inl n ↦ absurd (ground arith)
    | inr (r, f) ↦ elim (Bool-cases (is_ram r.type)) [
      | inr t ↦ absurd (ground arith)
      | inl t ↦
          elim (Option-cases (set_slot_flags ioctl_ok ref (log_flags r.flags log) m.kvm_slots m)) [
            | inl n ↦ absurd (ground arith)
            | inr ((out, m₂), n) ↦ (r, out, m₂, n, ground arith, ground arith)
          ]
    ]
  ]

  -- `SetLogDirtyBitmap` keeps the invariant.
  pub set_log_dirty_bitmap-IsValid :
      (ref : ℕ) (log : Bool) (m m' : MemoryManager)
      → IsValid m
      → set_log_dirty_bitmap ioctl_ok ref log m ≡ some m'
      → IsValid m'
  set_log_dirty_bitmap-IsValid ref log m m' v e =
      let (r, out, m₂, n, slots, free) = set_log_dirty_bitmap-inv ref log m m' e in
      let flags = log_flags r.flags log in
      let alike : Alike m.kvm_slots m (some (out, m₂)) =
        rw n at (set_slot_flags-Alike ref flags m.kvm_slots m) in
      record {
        ordered = rw slots (AreAlike-IsOrdered 0 m.kvm_slots out alike.0 v.ordered);
        keyed = rw slots (AreAlike-AreKeyed m.kvm_slots out alike.0 v.keyed);
        once = λ i.
            rw (slots, free, alike.1)
              (rw (times_used-AreAlike i m.kvm_slots out alike.0) (v.once i));
      }
