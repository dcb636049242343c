-- ===== src/Qcow2/Take.antt =====
-- One round of `AllocateCluster` of images/qcow2.cc on the refcounts: the next entry, and a free one.
use mvisor_x.Base.{
  ℕ, ◌+◌, ◌*◌, ◌/◌, ◌%◌, ◌^◌, ◌≤◌, ◌<◌, ◌≡◌, ◌≢◌, refl, sym, ap, ◌∙◌, subst, Bool, true, Option,
  none, some, arith, length, get_elem?, leb, ◌==◌, if◌then◌else◌, if_same, if_ne, if-splits,
  ℕ_discrete, Option-cases, inl, inr,
}
use mvisor_x.StdMap.{find}
use mvisor_x.Qcow2.{FileApi, IsFile, Table}
use mvisor_x.Qcow2.Tables.{set_entry, with_entry, new_table}
use mvisor_x.Qcow2.Refcounts.{
  Refs, entry_at, new_block, get_refcount_block, next_index, next_entry, take_entry, block_position,
  refcount,
}
use mvisor_x.Qcow2.Cells.{cell-next}
use mvisor_x.Qcow2.Sound.{
  IsSound, refcount-some, refcount-absent, refcount-entry_set, entry_set, entry_set-IsSound,
}
use mvisor_x.Qcow2.Blocks.{block_read, refcount-block_read, block_read-IsSound, block_read-cached}
use mvisor_x.Qcow2.NewBlock.{
  some_in_range, refcount-made, made-IsSound, made-cached, made-here, not_header,
}
use mvisor_x.Qcow2.Search.{Fits, Placed, got, in_bounds}

module _ {File : Type 0} (api : FileApi File) (laws : IsFile api) (size n : ℕ) where
  -- the index is no part of the invariant
  pub next_index-IsSound :
      (r : Refs File)
      → IsSound api laws size n r
      → IsSound api laws size n (next_index api size n r)
  unfolding refcount
  next_index-IsSound r h = record {
    coherent = h.coherent;
    aligned = h.aligned;
    inside = h.inside;
    distinct = h.distinct;
    owned = h.owned;
    header = h.header;
    keys = h.keys;
  }

  pub refcount-next_index :
      (j : ℕ) (r : Refs File)
      → refcount api size n j (next_index api size n r) ≡ refcount api size n j r
  unfolding refcount
  refcount-next_index j r = refl

  -- the refcounts of clusters in use are kept
  abbrev pub Keeps : Refs File → Refs File → Type 0
  Keeps r r' =
      (j : ℕ) → refcount api size n j r ≢ 0 → refcount api size n j r' ≡ refcount api size n j r

  pub Keeps-trans : (r r' r'' : Refs File) → Keeps r r' → Keeps r' r'' → Keeps r r''
  Keeps-trans r r' r'' a b j used = b j (λ z. used (sym (a j used) ∙ z)) ∙ a j used

  -- one free cluster that is used now
  pub Keeps-one :
      (k v : ℕ) (r r' : Refs File)
      → refcount api size n k r ≡ 0
      → ((j : ℕ) → refcount api size n j r' ≡ (if k == j then v else refcount api size n j r))
      → Keeps r r'
  Keeps-one k v r r' unused changed j used = elim (ℕ_discrete k j) [
    | yes same ↦ absurd (used (ap (λ q. refcount api size n q r) (sym same) ∙ unused))
    | no other ↦ changed j ∙ if_ne k j v (refcount api size n j r) other
  ]

  pub unused_before :
      (r r' : Refs File) (k : ℕ)
      → Keeps r r'
      → refcount api size n k r' ≡ 0
      → refcount api size n k r ≡ 0
  unused_before r r' k keeps unused = elim (ℕ_discrete (refcount api size n k r) 0) [
    | yes z ↦ z
    | no used ↦ absurd (used (sym (keeps k used) ∙ unused))
  ]

  -- a pointer to the block of a cluster
  abbrev pub Points : Option ℕ → ℕ → Refs File → Type 0
  Points none ci r = Unit {0}
  Points (some o) ci r =
      (get_elem? r.refcount_table (ci / n) ≡ some o)
      × (o ≢ 0)
      × (id : ℕ) × (t : Table) × (find o r.store.cache.pairs ≡ some (id, t))

  get-null :
      (ci : ℕ) (al : Bool) (r : Refs File)
      → get_elem? r.refcount_table (ci / n) ≡ none
      → get_refcount_block api size n ci al r ≡ (r, none)
  unfolding get_refcount_block
  get-null ci al r e = rw (e, get_refcount_block)

  get-new :
      (ci : ℕ) (r : Refs File)
      → get_elem? r.refcount_table (ci / n) ≡ some 0
      → get_refcount_block api size n ci true r ≡ (
        new_block api size n ci (block_position api size n ci) r,
        some (block_position api size n ci),
      )
  unfolding get_refcount_block
  get-new ci r e = rw (e, get_refcount_block)

  pub get-old :
      (ci o : ℕ) (al : Bool) (r : Refs File) (h : IsSound api laws size n r)
      (e : get_elem? r.refcount_table (ci / n) ≡ some o) (ne : o ≢ 0)
      → get_refcount_block api size n ci al r
        ≡ (block_read api laws size n (ci / n) o r h e ne, some o)
  unfolding get_refcount_block
  get-old ci o al r h e ne = rw (e, get_refcount_block) (if_ne o 0 _ _ ne)

  abbrev pub Got : ℕ → Refs File → Refs File × Option ℕ → Type 0
  Got ci r g = IsSound api laws size n g.0 × Keeps r g.0 × Points g.1 ci g.0

  module _ (pos : 0 < n) where
    abbrev block : ℕ → Table
    block ci = with_entry (ci % n) 1 (new_table n (ci * (2 * n)))

    -- `GetRefcountBlock` for an allocation
    pub get-Got :
        (ci : ℕ) (r : Refs File)
        → IsSound api laws size n r
        → Fits api size n (length r.refcount_table)
        → ci * (2 * n) < size
        → Got ci r (get_refcount_block api size n ci true r)
    get-Got ci r h fits inside = elim (Option-cases (get_elem? r.refcount_table (ci / n))) [
      | inl e ↦ rw (get-null ci true r e) (h, λ j used. refl, tt)
      | inr (o, e) ↦ elim (ℕ_discrete o 0) [
        | no ne ↦
            let (id, t, found) = block_read-cached api laws size n (ci / n) o r h e ne in
            rw (get-old ci o true r h e ne) (
              block_read-IsSound api laws size n (ci / n) o r h e ne,
              λ j used. refcount-block_read api laws size n (ci / n) o r h e ne j,
              (e, ne, id, t, found),
            )
        | yes z ↦
            let e0 = e ∙ ap some z in
            let range = some_in_range r.refcount_table (ci / n) 0 e0 in
            let bounds = in_bounds api size n pos (length r.refcount_table) ci fits range in
            let there : block_position api size n ci ≡ ci * (2 * n) = omega (arith, bounds.0) in
            rw (get-new ci r e0, there)
              (
                made-IsSound api laws size n pos ci r h e0 inside,
                Keeps-one ci 1 r (new_block api size n ci (ci * (2 * n)) r)
                    (refcount-absent api laws size n ci r e0)
                    (refcount-made api laws size n pos ci r h e0 inside),
                (
                  made-here api laws size n pos ci r h e0 inside,
                  not_header api laws size n pos ci r h e0 inside,
                  r.store.cache.next,
                  block ci,
                  made-cached api laws size n pos ci r h e0 inside,
                ),
              )
      ]
    ]

    pub got-Got :
        (r : Refs File)
        → IsSound api laws size n r
        → Fits api size n (length r.refcount_table)
        → r.free_cluster_index * (2 * n) < size
        → Got r.free_cluster_index r (got api size n pos r)
    got-Got r h fits inside =
        let (sound, keeps, points) =
          get-Got r.free_cluster_index (next_index api size n r) (next_index-IsSound r h) fits
            inside in
        (
          sound,
          λ j used. keeps j (rw (refcount-next_index j r) used) ∙ refcount-next_index j r,
          points,
        )

    -- the next entry of the loop
    pub next_entry-Got :
        (o i ci : ℕ) (r : Refs File)
        → IsSound api laws size n r
        → Fits api size n (length r.refcount_table)
        → Placed api size n (some o) i ci r
        → Points (some o) ci r
        → (ci + 1) * (2 * n) < size
        → let t : Refs File × Option ℕ × ℕ = next_entry api size n o i r in
          Got (ci + 1) r (t.0, t.1)
    next_entry-Got o i ci r h fits (range, here, next) (e, ne, id, t, found) inside =
        if-splits (λ (t : Refs File × Option ℕ × ℕ). Got (ci + 1) r (t.0, t.1)) (leb n (i + 1))
          (λ full.
            subst (λ q. Got q r (got api size n pos r)) next (got-Got r h fits (rw next inside)))
          (λ more.
            let step = cell-next n ci (ground arith) in
            (
              next_index-IsSound r h,
              λ j used. refcount-next_index j r,
              (rw step.0 e, ne, id, t, found),
            ))

    abbrev pub Taken : ℕ → ℕ → Refs File → Refs File → Type 0
    Taken ci p r r' =
        IsSound api laws size n r'
        × Keeps r r'
        × ((k : ℕ) × (p ≡ k * (2 * n))
            × (ci ≤ k)
            × (refcount api size n k r ≡ 0)
            × (refcount api size n k r' ≡ 1)
            × (r'.free_cluster_index ≡ k + 1))

    -- a free entry
    pub take_entry-Taken :
        (o i ci : ℕ) (r : Refs File)
        → IsSound api laws size n r
        → Fits api size n (length r.refcount_table)
        → Placed api size n (some o) i ci r
        → Points (some o) ci r
        → entry_at api size n o i r.store ≡ 0
        → Taken ci (block_position api size n ci) r (take_entry api size n o i r)
    unfolding take_entry
    take_entry-Taken o i ci r h fits (range, here, next) (e, ne, id, t, found) zero_entry =
        let bounds = in_bounds api size n pos (length r.refcount_table) ci fits range in
        let v : ℕ = (entry_at api size n o i r.store + 1) % 2 ^ 16 in
        let one : v ≡ 1 = rw zero_entry refl in
        let lt : v < 256 ^ 2 = omega (arith, one) in
        let at : entry_at api size n o (ci % n) r.store ≡ 0 =
          ap (λ q. entry_at api size n o q r.store) (sym here) ∙ zero_entry in
        let unused = refcount-some api laws size n ci o r e ne ∙ at in
        let changed = refcount-entry_set api laws size n pos ci o v id t r h e ne found lt in
        let after : Refs File = entry_set api laws size n pos ci o v id t r h e ne found lt in
        let eq : take_entry api size n o i r ≡ after =
          ap (λ q. record r { store = set_entry api size 2 n o q v r.store }) here in
        let used_now : refcount api size n ci after ≡ 1 =
          changed ci ∙ if_same ci ci v (refcount api size n ci r) refl ∙ one in
        let keeps : Keeps r after = Keeps-one ci v r after unused changed in
        let sound =
          entry_set-IsSound api laws size n pos ci o v id t r h e ne found lt
            (rw (keeps 0 h.header) h.header)
            (λ j p e' ne'. rw (keeps (p / (2 * n)) (h.owned j p e' ne')) (h.owned j p e' ne')) in
        subst (λ x. Taken ci (block_position api size n ci) r x) (sym eq)
          (sound, keeps, (ci, omega (arith, bounds.0), omega arith, unused, used_now, next))
