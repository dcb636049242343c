-- ===== src/Memory/Visible.antt =====
-- The visible regions of CommitMemoryRegionChanges (core/memory_manager.cc): their keys grow, each
-- is a region that covers its key, and when the region on top is the one that is recorded.
use mvisor_x.Base.{
  ℕ, suc, ◌+◌, ◌≤◌, ◌≡◌, true, false, List, [], ◌∷◌, Option, none, some, arith, if◌then◌else◌, inl,
  inr, Bool-cases, Option-cases, u64, subst,
}
use mathlib.Core.List.{reverse, reverse_aux}
use mvisor_x.Memory.Types.{MemoryRegion}
use mvisor_x.StdMap.{insert_point}
use mvisor_x.Memory.Commit.{region_points, pick, visible_from, visible_regions, covers, is_last}
use mvisor_x.StdMap.{IsOrdered, IsOrdered-mono}
use mvisor_x.Memory.Rebuild.{AreOwned}

-- the points grow, from `lo` on
abbrev pub IsGrowing : ℕ → List ℕ → Type 0
IsGrowing lo [] = Unit {0}
IsGrowing lo (p ∷ ps) = (lo ≤ p) × IsGrowing (suc p) ps

pub insert_point-IsGrowing :
    (n lo : ℕ) (ps : List ℕ) → lo ≤ n → IsGrowing lo ps → IsGrowing lo (insert_point n ps)
unfolding insert_point
insert_point-IsGrowing n lo [] h g = (h, tt)
insert_point-IsGrowing n lo (p ∷ ps) h g = ground (arith, insert_point-IsGrowing n (suc p) ps)

region_points-IsGrowing :
    (rs : List MemoryRegion) (ps : List ℕ) → IsGrowing 0 ps → IsGrowing 0 (region_points rs ps)
unfolding region_points
region_points-IsGrowing [] ps g = g
region_points-IsGrowing (r ∷ rs) ps g = region_points-IsGrowing rs _ (
    insert_point-IsGrowing (u64 (r.gpa + r.size)) 0 (insert_point r.gpa ps) (omega arith)
      (insert_point-IsGrowing r.gpa 0 ps (omega arith) g))

visible_from-IsOrdered :
    (newest : List MemoryRegion) (ps : List ℕ) (lo : ℕ) (last : Option ℕ)
    → IsGrowing lo ps
    → IsOrdered lo (visible_from newest ps last)
unfolding visible_from
visible_from-IsOrdered newest [] lo last g = tt
visible_from-IsOrdered newest (p ∷ ps) lo last g = elim (Option-cases (pick p last newest)) [
  | inl e ↦
      rw (e, visible_from)
        (IsOrdered-mono lo (suc p) (visible_from newest ps last) (omega arith)
          (visible_from-IsOrdered newest ps (suc p) last g.1))
  | inr (r, e) ↦
      rw (e, visible_from) (g.0, visible_from-IsOrdered newest ps (suc p) (some r.ref) g.1)
]

-- The keys of the visible regions grow.
pub visible_regions-IsOrdered : (rs : List MemoryRegion) → IsOrdered 0 (visible_regions rs)
unfolding visible_regions
visible_regions-IsOrdered rs =
    visible_from-IsOrdered (reverse rs) (region_points rs []) 0 none
      (region_points-IsGrowing rs [] tt)

-- every region satisfies the predicate
abbrev pub AllRegions : (MemoryRegion → Type 0) → List MemoryRegion → Type 0
AllRegions P [] = Unit {0}
AllRegions P (r ∷ rs) = P r × AllRegions P rs

AllRegions-reverse_aux :
    (P : MemoryRegion → Type 0) (rs qs : List MemoryRegion)
    → AllRegions P rs
    → AllRegions P qs
    → AllRegions P (reverse_aux rs qs)
AllRegions-reverse_aux P [] qs a b = b
AllRegions-reverse_aux P (r ∷ rs) qs a b = AllRegions-reverse_aux P rs (r ∷ qs) a.1 (a.0, b)

pub AllRegions-reverse :
    (P : MemoryRegion → Type 0) (rs : List MemoryRegion)
    → AllRegions P rs
    → AllRegions P (reverse rs)
AllRegions-reverse P rs a = AllRegions-reverse_aux P rs [] a tt

-- A region that is picked is one of the list, and covers the point.
pub pick-inv :
    (P : MemoryRegion → Type 0) (p : ℕ) (last : Option ℕ) (rs : List MemoryRegion)
    (r : MemoryRegion)
    → AllRegions P rs
    → pick p last rs ≡ some r
    → P r × (covers r p ≡ true) × (is_last last r ≡ false)
unfolding pick
pick-inv P p last [] r a e = absurd (cc)
pick-inv P p last (q ∷ rs) r a e = elim (Bool-cases (covers q p)) [
  | inl c ↦ elim (Bool-cases (is_last last q)) [
    | inl l ↦ pick-inv P p last rs r a.1 (ground arith)
    | inr n ↦ (let same : q ≡ r = ground arith in (subst P same a.0, ground arith, ground arith))
  ]
  | inr c ↦ pick-inv P p last rs r a.1 (ground arith)
]

visible_from-AreOwned :
    (owner : ℕ → MemoryRegion) (newest : List MemoryRegion) (ps : List ℕ) (last : Option ℕ)
    → AllRegions (λ r. owner r.ref ≡ r) newest
    → AreOwned owner (visible_from newest ps last)
unfolding visible_from
visible_from-AreOwned owner newest [] last a = tt
visible_from-AreOwned owner newest (p ∷ ps) last a = elim (Option-cases (pick p last newest)) [
  | inl e ↦ rw (e, visible_from) (visible_from-AreOwned owner newest ps last a)
  | inr (r, e) ↦
      rw (e, visible_from)
        (
          (pick-inv (λ r. owner r.ref ≡ r) p last newest r a e).0,
          visible_from-AreOwned owner newest ps (some r.ref) a,
        )
]

pub visible_regions-AreOwned :
    (owner : ℕ → MemoryRegion) (rs : List MemoryRegion)
    → AllRegions (λ r. owner r.ref ≡ r) rs
    → AreOwned owner (visible_regions rs)
unfolding visible_regions
visible_regions-AreOwned owner rs a =
    visible_from-AreOwned owner (reverse rs) (region_points rs []) none
      (AllRegions-reverse (λ r. owner r.ref ≡ r) rs a)

-- Each entry is at a point that its region covers, and differs from the entry before it.
abbrev pub AreCovering : Option ℕ → List (ℕ × MemoryRegion) → Type 0
AreCovering last [] = Unit {0}
AreCovering last ((p, r) ∷ vs) =
    (covers r p ≡ true) × (is_last last r ≡ false) × AreCovering (some r.ref) vs

visible_from-AreCovering :
    (newest : List MemoryRegion) (ps : List ℕ) (last : Option ℕ)
    → AllRegions (λ r. Unit {0}) newest
    → AreCovering last (visible_from newest ps last)
unfolding visible_from
visible_from-AreCovering newest [] last a = tt
visible_from-AreCovering newest (p ∷ ps) last a = elim (Option-cases (pick p last newest)) [
  | inl e ↦ rw (e, visible_from) (visible_from-AreCovering newest ps last a)
  | inr (r, e) ↦
      let (_, c, n) = pick-inv (λ r. Unit {0}) p last newest r a e in
      rw (e, visible_from) (c, n, visible_from-AreCovering newest ps (some r.ref) a)
]

AllRegions-true : (rs : List MemoryRegion) → AllRegions (λ r. Unit {0}) rs
AllRegions-true [] = tt
AllRegions-true (r ∷ rs) = (tt, AllRegions-true rs)

-- Each visible region covers the address at which it is recorded, and no two entries in a row are
-- of one region.
pub visible_regions-AreCovering : (rs : List MemoryRegion) → AreCovering none (visible_regions rs)
unfolding visible_regions
visible_regions-AreCovering rs =
    visible_from-AreCovering (reverse rs) (region_points rs []) none (AllRegions-true (reverse rs))

-- the region on top at a point: the newest that covers it
abbrev pub top_region : ℕ → List MemoryRegion → Option MemoryRegion
top_region p [] = none
top_region p (r ∷ rs) = if covers r p then some r else top_region p rs

-- The region on top is the one that is picked, unless it is the region of the entry before.
pub pick-top_region :
    (p : ℕ) (last : Option ℕ) (newest : List MemoryRegion) (r : MemoryRegion)
    → top_region p newest ≡ some r
    → is_last last r ≡ false
    → pick p last newest ≡ some r
unfolding pick
pick-top_region p last [] r e n = absurd (cc)
pick-top_region p last (q ∷ rs) r e n = elim (Bool-cases (covers q p)) [
  | inl c ↦
      (let same : q ≡ r = ground arith in
        subst (λ t. pick p last (q ∷ rs) ≡ some t) same (ground arith))
  | inr c ↦ ground (arith, pick-top_region p last rs r)
]
