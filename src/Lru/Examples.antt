-- ===== src/Lru/Examples.antt =====
-- Runs of the cache of include/lru_cache.h, and the theorems about it at one cache.
use mvisor_x.Base.{ℕ, ◌≡◌, refl, true, [], ◌∷◌}
use mvisor_x.StdMap.{find, insert, erase}
use mvisor_x.Lru.{
  LruCache, contains, get, put, remove, clear, push_entry, new_cache, erase_node, back,
}
use mvisor_x.Lru.Recency.{touch, add_first}
use mvisor_x.Lru.View.{view, IsValid}
use mvisor_x.Lru.Laws.{get_touches, reported}
use mvisor_x.Lru.Invariant.{new_cache-IsValid}
use mvisor_x.Lru.Put.{put_adds_first, put-IsValid}
use mvisor_x.Lru.Clear.{Cleared, clear-Cleared}

-- two entries, 5 and then 6, in a cache for two
abbrev two : LruCache ℕ
two = record {
  max_size = 2;
  lru = record { id = 1; key = 6 } ∷ record { id = 0; key = 5 } ∷ [];
  pairs = (5, (0, 50)) ∷ (6, (1, 60)) ∷ [];
  has_callback = true;
  next = 2;
}

two_lem : (put 6 60 (put 5 50 (new_cache 2 true)).0).0 ≡ two
unfolding put contains push_entry new_cache find insert
two_lem = refl

two-IsValid : IsValid two
two-IsValid = rw⁻¹ two_lem (
    put-IsValid 6 60 (put 5 50 (new_cache 2 true)).0
      (put-IsValid 5 50 (new_cache 2 true) (new_cache-IsValid 2 true)))

-- the third entry drives out the least recently used one
put_evicts : (put 7 70 (get 5 two).0).2 ≡ (6, 60) ∷ []
unfolding put contains push_entry get remove back erase_node find insert erase
put_evicts = refl

get_touches_example : (view (get 5 two).0, (get 5 two).1) ≡ touch 5 ((6, 60) ∷ (5, 50) ∷ [])
unfolding find
get_touches_example = get_touches 5 two two-IsValid

put_adds_first_example :
    let r = put 7 70 two in
    let t = add_first 2 7 70 (view two) in
    (view r.0 ≡ t.0) × (r.1 ≡ t.1) × (r.2 ≡ reported true t.2)
put_adds_first_example = put_adds_first 7 70 two two-IsValid

clear-Cleared_example : Cleared two (clear two)
clear-Cleared_example = clear-Cleared two two-IsValid
