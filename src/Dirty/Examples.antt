-- ===== src/Dirty/Examples.antt =====
-- The theorems about bitmaps of core/memory_manager.cc and core/memory_region.cc, at one bitmap.
use mvisor_x.Base.{ℕ, ◌≡◌, [], ◌∷◌, List}
use mvisor_x.Dirty.{handle_bitmap, bit_at}
use mvisor_x.Dirty.Visits.{accept, times, times-handle_bitmap}

-- pages 1, 3 and 16 are dirty
abbrev bitmap : List ℕ
bitmap = 10 ∷ 0 ∷ 1 ∷ []

times-handle_bitmap_example : times 16 (handle_bitmap accept bitmap).0 ≡ 1
unfolding bit_at
times-handle_bitmap_example = times-handle_bitmap 16 bitmap
