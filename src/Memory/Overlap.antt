-- ===== src/Memory/Overlap.antt =====
-- Two regions, one inside the other, in CommitMemoryRegionChanges (core/memory_manager.cc).
use mvisor_x.Base.{ℕ, ◌+◌, ◌<◌, ◌≤◌, ◌≡◌, ◌≢◌, List, [], ◌∷◌, Option, none, some, arith, ap, ◌∙◌}
use mvisor_x.Memory.Types.{MemoryRegion}
use mvisor_x.StdMap.{insert_point}
use mvisor_x.Memory.Commit.{region_points, pick, visible_from, visible_regions, new_slot, slot_end}
use mvisor_x.Memory.Visible.{top_region}

-- `inner` lies inside `outer`, away from its ends, and no address wraps
abbrev pub IsInside : MemoryRegion → MemoryRegion → Type 0
IsInside inner outer =
    (outer.gpa < inner.gpa)
    × (0 < inner.size)
    × (inner.gpa + inner.size < outer.gpa + outer.size)
    × (outer.gpa + outer.size < 18446744073709551616)
    × (inner.ref ≢ outer.ref)

points_of_inside :
    (a b : MemoryRegion)
    → IsInside b a
    → region_points (a ∷ b ∷ []) [] ≡ a.gpa ∷ b.gpa ∷ (b.gpa + b.size) ∷ (a.gpa + a.size) ∷ []
unfolding region_points insert_point
points_of_inside a b h = ground arith

points_of_outside :
    (a b : MemoryRegion)
    → IsInside a b
    → region_points (a ∷ b ∷ []) [] ≡ b.gpa ∷ a.gpa ∷ (a.gpa + a.size) ∷ (b.gpa + b.size) ∷ []
unfolding region_points insert_point
points_of_outside a b h = ground arith

module _ (newest : List MemoryRegion) (p : ℕ) (ps : List ℕ) (last : Option ℕ) where
  visible_from-some :
      (r : MemoryRegion)
      → pick p last newest ≡ some r
      → visible_from newest (p ∷ ps) last ≡ (p, r) ∷ visible_from newest ps (some r.ref)
  unfolding visible_from
  visible_from-some r e = rw (e, visible_from)

  visible_from-none :
      pick p last newest ≡ none → visible_from newest (p ∷ ps) last ≡ visible_from newest ps last
  unfolding visible_from
  visible_from-none e = rw (e, visible_from)

-- what is visible, from the picks at the four points
visible_of_picks :
    (newest : List MemoryRegion) (p q s t : ℕ) (x y z : MemoryRegion)
    → pick p none newest ≡ some x
    → pick q (some x.ref) newest ≡ some y
    → pick s (some y.ref) newest ≡ some z
    → pick t (some z.ref) newest ≡ none
    → visible_from newest (p ∷ q ∷ s ∷ t ∷ []) none ≡ (p, x) ∷ (q, y) ∷ (s, z) ∷ []
unfolding visible_from
visible_of_picks newest p q s t x y z hp hq hs ht =
    visible_from-some newest p (q ∷ s ∷ t ∷ []) none x hp
    ∙ ap (λ l. (p, x) ∷ l)
        (visible_from-some newest q (s ∷ t ∷ []) (some x.ref) y hq
          ∙ ap (λ l. (q, y) ∷ l)
              (visible_from-some newest s (t ∷ []) (some y.ref) z hs
                ∙ ap (λ l. (s, z) ∷ l) (visible_from-none newest t [] (some z.ref) ht)))

-- A region mapped inside an older one hides it where it lies: the older one is visible before and
-- behind it.
pub visible_regions-inside :
    (outer inner : MemoryRegion)
    → IsInside inner outer
    → visible_regions (outer ∷ inner ∷ [])
      ≡ (outer.gpa, outer) ∷ (inner.gpa, inner) ∷ (inner.gpa + inner.size, outer) ∷ []
unfolding visible_regions pick
visible_regions-inside a b h = rw (points_of_inside a b h) (
    visible_of_picks (b ∷ a ∷ []) a.gpa b.gpa (b.gpa + b.size) (a.gpa + a.size) a b a (ground arith)
      (ground arith) (ground arith) (ground arith))

-- Of two regions with different references, the older one not empty, where the newer one begins before
-- the older one and ends behind it, with no address that wraps, the older one is visible from its
-- beginning to its end, though the newer one is on top at each address there.
pub visible_regions-shows_hidden :
    (hidden over : MemoryRegion)
    → IsInside hidden over
    → (visible_regions (hidden ∷ over ∷ [])
        ≡ (over.gpa, over) ∷ (hidden.gpa, hidden) ∷ (hidden.gpa + hidden.size, over) ∷ [])
      × ((a : ℕ)
          → hidden.gpa ≤ a
          → a < hidden.gpa + hidden.size
          → top_region a (over ∷ hidden ∷ []) ≡ some over)
unfolding visible_regions pick
visible_regions-shows_hidden a b h = (
  rw (points_of_outside a b h) (
      visible_of_picks (b ∷ a ∷ []) b.gpa a.gpa (a.gpa + a.size) (b.gpa + b.size) b a b
        (ground arith) (ground arith) (ground arith) (ground arith)),
  λ at from to. ground arith,
)

-- The slot for the part of the outer region behind the inner one, where no visible region follows,
-- ends past the end of the outer region: as far as the inner region's end lies behind the outer
-- one's beginning.
pub new_slot-overshoots :
    (outer inner : MemoryRegion) (ref id : ℕ)
    → IsInside inner outer
    → inner.gpa + inner.size + outer.size < 18446744073709551616
    → let s = new_slot ref id (inner.gpa + inner.size) outer [] in
      (s.end ≡ inner.gpa + inner.size + outer.size) × (outer.gpa + outer.size < s.end)
unfolding new_slot slot_end
new_slot-overshoots a b ref id h fits = (omega arith, omega arith)
