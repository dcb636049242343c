-- ===== src/Qcow2/Search.antt =====
-- The loop of `AllocateCluster` of images/qcow2.cc: it ends, at the cluster it started from or later.
use mvisor_x.Base.{
  ℕ, zero, suc, ◌+◌, ◌*◌, ◌/◌, ◌%◌, ◌^◌, ◌≤◌, ◌<◌, ◌≡◌, ◌≢◌, refl, sym, ◌∙◌, subst, true, Option,
  none, some, arith, length, get_elem?, leb, ◌==◌, if_same, if_ne, if-splits, if-keeps, ℕ_discrete,
  some_pair, length-set,
}
use mvisor_x.Qcow2.{FileApi}
use mvisor_x.Qcow2.Words.{mul_mono}
use mvisor_x.Qcow2.Refcounts.{
  Refs, entry_at, new_block, block_at, get_refcount_block, next_index, next_entry, take_entry,
  allocate_loop, block_position,
}
use mvisor_x.Qcow2.Cells.{cell-next, cell-lt}
use mvisor_x.Qcow2.NewBlock.{some_in_range}

module _ {File : Type 0} (api : FileApi File) (size n : ℕ) where
  -- the refcount table's clusters have positions of 64 bits
  abbrev pub Fits : ℕ → Type 0
  Fits len = len * n * (2 * n) ≤ 2 ^ 64

  -- a block of the table, at the entry of a cluster, the next of which is the next to look at
  abbrev pub Placed : Option ℕ → ℕ → ℕ → Refs File → Type 0
  Placed none i ci r = Unit {0}
  Placed (some o) i ci r =
      (ci / n < length r.refcount_table) × (i ≡ ci % n) × (r.free_cluster_index ≡ ci + 1)

  -- `GetRefcountBlock` keeps the table's length and the index, and finds a block only in the table
  abbrev GotIn : ℕ → Refs File → Refs File × Option ℕ → Type 0
  GotIn ci r g =
      (length g.0.refcount_table ≡ length r.refcount_table)
      × (g.0.free_cluster_index ≡ r.free_cluster_index)
      × ((o : ℕ) → g.1 ≡ some o → ci / n < length r.refcount_table)

  block_at-GotIn :
      (ci : ℕ) (r : Refs File) (b : Option ℕ)
      → b ≡ get_elem? r.refcount_table (ci / n)
      → GotIn ci r (block_at api size n b ci true r)
  unfolding new_block
  block_at-GotIn ci r none e = (refl, refl, λ o x. absurd (cc))
  block_at-GotIn ci r (some p) e =
      let range = some_in_range r.refcount_table (ci / n) p (sym e) in
      if-keeps (GotIn ci r) (p == 0)
        (length-set r.refcount_table (ci / n) (block_position api size n ci), refl, λ o x. range)
        (refl, refl, λ o x. range)

  pub get_refcount_block-GotIn :
      (ci : ℕ) (r : Refs File) → GotIn ci r (get_refcount_block api size n ci true r)
  unfolding get_refcount_block
  get_refcount_block-GotIn ci r = block_at-GotIn ci r (get_elem? r.refcount_table (ci / n)) refl

  module _ (pos : 0 < n) where
    pub in_bounds :
        (len ci : ℕ) → Fits len → ci / n < len → (ci * (2 * n) < 2 ^ 64) × (ci + 2 < 2 ^ 64)
    in_bounds len ci fits h =
        let lt = cell-lt n len ci pos h in
        let scaled = mul_mono (ci + 1) (len * n) (2 * n) (omega arith) in
        let wide = mul_mono 1 n ((ci + 1) * 2) (omega arith) in
        let turned : n * ((ci + 1) * 2) ≡ (ci + 1) * (2 * n) = grind arith in
        (omega arith, omega arith)

    Placed-of_some :
        (g : Refs File × Option ℕ) (i ci : ℕ)
        → ((o : ℕ) → g.1 ≡ some o → Placed (some o) i ci g.0)
        → Placed g.1 i ci g.0
    Placed-of_some (r, none) i ci h = tt
    Placed-of_some (r, some o) i ci h = h o refl

    -- the block of the next cluster to look at
    abbrev pub got : Refs File → Refs File × Option ℕ
    got r = get_refcount_block api size n r.free_cluster_index true (next_index api size n r)

    pub got-Placed :
        (r : Refs File)
        → Fits (length r.refcount_table)
        → Placed (got r).1 (r.free_cluster_index % n) r.free_cluster_index (got r).0
    got-Placed r fits =
        let (len, index, range) =
          get_refcount_block-GotIn r.free_cluster_index (next_index api size n r) in
        Placed-of_some (got r) (r.free_cluster_index % n) r.free_cluster_index (λ o e.
          let bounds = in_bounds (length r.refcount_table) r.free_cluster_index fits (range o e) in
          (rw len (range o e), refl, index ∙ omega (arith, bounds.1)))

    abbrev NextIn : ℕ → Refs File → Refs File × Option ℕ × ℕ → Type 0
    NextIn ci r t =
        (length t.0.refcount_table ≡ length r.refcount_table) × Placed t.1 t.2 (ci + 1) t.0

    pub next_entry-NextIn :
        (o i ci : ℕ) (r : Refs File)
        → Fits (length r.refcount_table)
        → Placed (some o) i ci r
        → NextIn ci r (next_entry api size n o i r)
    next_entry-NextIn o i ci r fits (range, here, next) =
        let bounds = in_bounds (length r.refcount_table) ci fits range in
        if-splits (NextIn ci r) (leb n (i + 1))
          (λ full. (
            (get_refcount_block-GotIn r.free_cluster_index (next_index api size n r)).0,
            subst (λ q. Placed (got r).1 (r.free_cluster_index % n) q (got r).0) next
                (got-Placed r fits),
          ))
          (λ more.
            let step = cell-next n ci (ground arith) in
            (refl, (rw step.0 range, rw step.1 (omega arith), omega arith)))

    -- the two cases of a round
    pub loop-free :
        (f o i ci : ℕ) (r : Refs File)
        → entry_at api size n o i r.store ≡ 0
        → allocate_loop api size n (suc f) r (some o) i ci
          ≡ some (take_entry api size n o i r, block_position api size n ci)
    unfolding allocate_loop
    loop-free f o i ci r e = if_same (entry_at api size n o i r.store) 0 _ _ e

    pub loop-used :
        (f o i ci : ℕ) (r : Refs File)
        → entry_at api size n o i r.store ≢ 0
        → allocate_loop api size n (suc f) r (some o) i ci
          ≡ allocate_loop api size n f
              (next_entry api size n o i r).0
              (next_entry api size n o i r).1
              (next_entry api size n o i r).2
              r.free_cluster_index
    unfolding allocate_loop
    loop-used f o i ci r ne = if_ne (entry_at api size n o i r.store) 0 _ _ ne

    loop-null :
        (f i ci : ℕ) (r : Refs File) → allocate_loop api size n (suc f) r none i ci ≡ some (r, 0)
    unfolding allocate_loop
    loop-null f i ci r = refl

    -- the loop ends
    pub allocate_loop-total :
        (f i ci : ℕ) (r : Refs File) (b : Option ℕ)
        → Fits (length r.refcount_table)
        → Placed b i ci r
        → 1 ≤ f
        → length r.refcount_table * n + 1 ≤ f + ci
        → (r' : Refs File) × (p : ℕ) × (allocate_loop api size n f r b i ci ≡ some (r', p))
    allocate_loop-total zero i ci r b fits h one enough = absurd (omega arith)
    allocate_loop-total (suc f) i ci r none fits h one enough = (r, 0, loop-null f i ci r)
    allocate_loop-total (suc f) i ci r (some o) fits h one enough =
        elim (ℕ_discrete (entry_at api size n o i r.store) 0) [
          | yes z ↦
              (take_entry api size n o i r, block_position api size n ci, loop-free f o i ci r z)
          | no ne ↦
              let next = next_entry api size n o i r in
              let (len, placed) = next_entry-NextIn o i ci r fits h in
              let lt = cell-lt n (length r.refcount_table) ci pos h.0 in
              let (r', p, e) =
                allocate_loop-total f next.2 r.free_cluster_index next.0 next.1 (rw len fits)
                  (subst (λ q. Placed next.1 next.2 q next.0) (sym h.2) placed) (omega arith)
                  (rw len (omega (arith, h.2, enough))) in
              (r', p, loop-used f o i ci r ne ∙ e)
        ]

    -- and not before the cluster that it starts from
    pub allocate_loop-lands :
        (f i ci : ℕ) (r r' : Refs File) (b : Option ℕ) (p : ℕ)
        → Fits (length r.refcount_table)
        → Placed b i ci r
        → allocate_loop api size n f r b i ci ≡ some (r', p)
        → p ≢ 0
        → (k : ℕ) × (p ≡ k * (2 * n)) × (ci ≤ k)
    unfolding allocate_loop
    allocate_loop-lands zero i ci r r' b p fits h e ne = absurd (cc)
    allocate_loop-lands (suc f) i ci r r' none p fits h e ne = absurd (ground (arith, e, ne))
    allocate_loop-lands (suc f) i ci r r' (some o) p fits h e ne =
        elim (ℕ_discrete (entry_at api size n o i r.store) 0) [
          | yes z ↦
              let bounds = in_bounds (length r.refcount_table) ci fits h.0 in
              let both = some_pair (sym (loop-free f o i ci r z) ∙ e) in
              (ci, sym both.1 ∙ omega (arith, bounds.0), omega arith)
          | no ne' ↦
              let next = next_entry api size n o i r in
              let (len, placed) = next_entry-NextIn o i ci r fits h in
              let (k, same, lands) =
                allocate_loop-lands f next.2 r.free_cluster_index next.0 r' next.1 p (rw len fits)
                  (subst (λ q. Placed next.1 next.2 q next.0) (sym h.2) placed)
                  (sym (loop-used f o i ci r ne') ∙ e) ne in
              (k, same, omega (arith, h.2, lands))
        ]
