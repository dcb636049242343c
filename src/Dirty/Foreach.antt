-- ===== src/Dirty/Foreach.antt =====
-- `ForeachDirtyPage` of core/memory_region.cc, and where the offsets that it reports lie.
use mvisor_x.Base.{
  ℕ, zero, suc, ◌+◌, ◌-◌, ◌*◌, ◌/◌, ◌<◌, ◌≤◌, ◌≡◌, refl, sym, Bool, true, false, ◌&&◌, List, [],
  ◌∷◌, ◌==◌, if◌then◌else◌, get_or, arith, dec_lt, subst,
}
use mvisor_x.Dirty.{bit_at, call, and_then}
use mvisor_x.Dirty.Sound.{nonzero}
use mvisor_x.Dirty.Visits.{accept, one_if, times, times-branch, times-and_then}

-- the inner loop over the bits, `left` of them to go; PAGE_SIZE is 4096
unfoldable pub foreach_bit : (ℕ → Bool) → ℕ → ℕ → ℕ → ℕ → List ℕ × Bool
foreach_bit callback i byte zero j = ([], true)
foreach_bit callback i byte (suc left) j =
    let rest = foreach_bit callback i byte left (j + 1) in
    let offset = (i * 8 + j) * 4096 in
    if bit_at byte j then call offset (callback offset) rest else rest

-- the loop over the pages of a slot, `left` of them to go
unfoldable pub foreach_page : (ℕ → Bool) → List ℕ → ℕ → ℕ → List ℕ × Bool
foreach_page callback bitmap zero i = ([], true)
foreach_page callback bitmap (suc left) i =
    let rest = foreach_page callback bitmap left (i + 1) in
    let byte = get_or bitmap (i / 8) 0 in
    if byte == 0 then rest else and_then (foreach_bit callback i byte 8 0) rest

-- `ForeachDirtyPage`, at the first addresses and the ends of the slots
unfoldable pub foreach_dirty_page : (ℕ → Bool) → ℕ → List ℕ → List (ℕ × ℕ) → List ℕ × Bool
foreach_dirty_page callback gpa bitmap [] = ([], true)
foreach_dirty_page callback gpa bitmap ((begin, end) ∷ slots) =
    let start_i = (begin - gpa) / 4096 in
    let end_i = (end - gpa) / 4096 in
    and_then (foreach_page callback bitmap (end_i - start_i) start_i)
      (foreach_dirty_page callback gpa bitmap slots)

foreach_bit-done : (i byte left j : ℕ) → (foreach_bit accept i byte left j).1 ≡ true
unfolding foreach_bit call
foreach_bit-done i byte zero j = refl
foreach_bit-done i byte (suc left) j = ground (arith, foreach_bit-done i byte left (j + 1))

foreach_bit-reports :
    (i byte left j k : ℕ)
    → j ≤ k
    → k < j + left
    → bit_at byte k ≡ true
    → 1 ≤ times ((i * 8 + k) * 4096) (foreach_bit accept i byte left j).0
unfolding foreach_bit call
foreach_bit-reports i byte zero j k lo hi h = absurd (omega arith)
foreach_bit-reports i byte (suc left) j k lo hi h =
    let rest = foreach_bit accept i byte left (j + 1) in
    let sum = times-branch ((i * 8 + k) * 4096) ((i * 8 + j) * 4096) (bit_at byte j) rest in
    elim (dec_lt j k) [
      | yes later ↦
          omega
            (arith, sum, foreach_bit-reports i byte left (j + 1) k (omega arith) (omega arith) h)
      | no here ↦
          let same : k ≡ j = omega arith in
          let set : bit_at byte j ≡ true = subst (λ n. bit_at byte n ≡ true) same h in
          let hit : one_if (bit_at byte j && (i * 8 + j) * 4096 == (i * 8 + k) * 4096) ≡ 1 =
            ground arith in
          omega (arith, sum, hit)
    ]

foreach_page-done : (bitmap : List ℕ) (left i : ℕ) → (foreach_page accept bitmap left i).1 ≡ true
unfolding foreach_page and_then
foreach_page-done bitmap zero i = refl
foreach_page-done bitmap (suc left) i =
    ground (
      arith,
      foreach_page-done bitmap left (i + 1),
      foreach_bit-done i (get_or bitmap (i / 8) 0) 8 0,
    )

-- what a step of the loop keeps of the calls that follow it
times-rest :
    (q : ℕ) (b : Bool) (first rest : List ℕ × Bool)
    → first.1 ≡ true
    → let r : List ℕ × Bool = if b then rest else and_then first rest in
      times q rest.0 ≤ times q r.0
times-rest q true first rest h = omega arith
times-rest q false first rest h = omega (arith, times-and_then q first rest h)

-- and of its own
times-first :
    (q : ℕ) (b : Bool) (first rest : List ℕ × Bool)
    → b ≡ false
    → first.1 ≡ true
    → let r : List ℕ × Bool = if b then rest else and_then first rest in
      times q first.0 ≤ times q r.0
times-first q true first rest e h = absurd (cc (e))
times-first q false first rest e h = omega (arith, times-and_then q first rest h)

foreach_page-reports :
    (bitmap : List ℕ) (left i page k : ℕ)
    → i ≤ page
    → page < i + left
    → k < 8
    → bit_at (get_or bitmap (page / 8) 0) k ≡ true
    → 1 ≤ times ((page * 8 + k) * 4096) (foreach_page accept bitmap left i).0
unfolding foreach_page
foreach_page-reports bitmap zero i page k lo hi l h = absurd (omega arith)
foreach_page-reports bitmap (suc left) i page k lo hi l h =
    let byte = get_or bitmap (i / 8) 0 in
    let q = (page * 8 + k) * 4096 in
    let first = foreach_bit accept i byte 8 0 in
    let rest = foreach_page accept bitmap left (i + 1) in
    let done = foreach_bit-done i byte 8 0 in
    elim (dec_lt i page) [
      | yes later ↦ omega (
        arith,
        foreach_page-reports bitmap left (i + 1) page k (omega arith) (omega arith) l h,
        times-rest q (byte == 0) first rest done,
      )
      | no here ↦
          let same : page ≡ i = omega arith in
          let set : bit_at byte k ≡ true =
            subst (λ n. bit_at (get_or bitmap (n / 8) 0) k ≡ true) same h in
          let own : 1 ≤ times q first.0 =
            subst (λ n. 1 ≤ times ((n * 8 + k) * 4096) first.0) (sym same)
              (foreach_bit-reports i byte 8 0 k (omega arith) (omega arith) set) in
          omega (arith, own, times-first q (byte == 0) first rest (nonzero byte k set) done)
    ]

-- If a region has one slot of at least two pages and a bit is set in the byte that the last page
-- looks at, `ForeachDirtyPage` reports an offset behind the end of the region.
pub foreach_dirty_page-overshoots :
    (gpa n k : ℕ) (bitmap : List ℕ)
    → 1 ≤ n
    → k < 8
    → bit_at (get_or bitmap (n / 8) 0) k ≡ true
    → let slots : List (ℕ × ℕ) = (gpa, gpa + (n + 1) * 4096) ∷ [] in
      let offset = (n * 8 + k) * 4096 in
      (1 ≤ times offset (foreach_dirty_page accept gpa bitmap slots).0) × ((n + 1) * 4096 ≤ offset)
unfolding foreach_dirty_page
foreach_dirty_page-overshoots gpa n k bitmap lo l h =
    let first : (gpa - gpa) / 4096 ≡ 0 = omega arith in
    let last : (gpa + (n + 1) * 4096 - gpa) / 4096 - 0 ≡ n + 1 = omega arith in
    let pages = foreach_page accept bitmap (n + 1) 0 in
    let reported = foreach_page-reports bitmap (n + 1) 0 n k (omega arith) (omega arith) l h in
    let sum =
      times-and_then ((n * 8 + k) * 4096) pages ([], true) (foreach_page-done bitmap (n + 1) 0) in
    (rw first (rw last (omega (arith, reported, sum))), omega arith)
