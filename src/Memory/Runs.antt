-- ===== src/Memory/Runs.antt =====
-- Sequences of `Map`, `Unmap` and `SetLogDirtyBitmap` of core/memory_manager.cc.
use Prim.Native.String.{String}
use mvisor_x.Base.{
  ℕ, ◌≡◌, refl, sym, ap, ◌∙◌, subst, Bool, List, [], ◌∷◌, Option, none, some, Option-cases, inl,
  inr, ◌>>=◌, some_inj,
}
use mvisor_x.Memory.Types.{MemoryType, KvmMemoryRegion}
use mvisor_x.Memory.Commit.{MemoryManager}
use mvisor_x.Memory.Api.{map_region, unmap_region, set_log_dirty_bitmap}
use mvisor_x.Memory.Invariant.{
  IsValid, map_region-IsValid, unmap_region-IsValid, set_log_dirty_bitmap-IsValid,
}

pub data Operation : Type 0 where
  map_memory : ℕ → ℕ → ℕ → MemoryType → String → Operation
  unmap_memory : ℕ → Operation
  log_memory : ℕ → Bool → Operation

module _ (ioctl_ok : KvmMemoryRegion → Bool) where
  unfoldable pub operate : Operation → MemoryManager → Option MemoryManager
  operate (map_memory gpa size host type name) m =
      map_region ioctl_ok gpa size host type name m >>= λ (ref, m1). some m1
  operate (unmap_memory ref) m = unmap_region ioctl_ok ref m
  operate (log_memory ref log) m = set_log_dirty_bitmap ioctl_ok ref log m

  unfoldable pub operate_all : List Operation → MemoryManager → Option MemoryManager
  operate_all [] m = some m
  operate_all (o ∷ operations) m = operate o m >>= operate_all operations

  mapped-IsValid :
      (o : Option (ℕ × MemoryManager)) (m' : MemoryManager)
      → ((ref : ℕ) (m1 : MemoryManager) → o ≡ some (ref, m1) → IsValid m1)
      → (o >>= λ (ref, m1). some m1) ≡ some m'
      → IsValid m'
  mapped-IsValid none m' h e = absurd (cc)
  mapped-IsValid (some (ref, m1)) m' h e = subst IsValid (some_inj e) (h ref m1 refl)

  operate-IsValid :
      (o : Operation) (m m' : MemoryManager) → IsValid m → operate o m ≡ some m' → IsValid m'
  unfolding operate
  operate-IsValid (map_memory gpa size host type name) m m' v e =
      mapped-IsValid (map_region ioctl_ok gpa size host type name m) m'
        (λ ref m1. map_region-IsValid ioctl_ok gpa size host type name m m1 ref v) e
  operate-IsValid (unmap_memory ref) m m' v e = unmap_region-IsValid ioctl_ok ref m m' v e
  operate-IsValid (log_memory ref log) m m' v e =
      set_log_dirty_bitmap-IsValid ioctl_ok ref log m m' v e

  -- Whatever is mapped, unmapped and put under or out of dirty logging, none of it a panic: a slot table
  -- in the order of first addresses, each slot at its own, with each slot number used at most once
  -- and not also free, stays one.
  pub operate_all-IsValid :
      (operations : List Operation) (m m' : MemoryManager)
      → IsValid m
      → operate_all operations m ≡ some m'
      → IsValid m'
  unfolding operate_all
  operate_all-IsValid [] m m' v e = subst IsValid (some_inj e) v
  operate_all-IsValid (o ∷ operations) m m' v e = elim (Option-cases (operate o m)) [
    | inl gone ↦ (let bad = ap (λ r. r >>= operate_all operations) gone in absurd (cc))
    | inr (m1, at) ↦
        operate_all-IsValid operations m1 m' (operate-IsValid o m m1 v at)
          (ap (λ r. r >>= operate_all operations) (sym at) ∙ e)
  ]
