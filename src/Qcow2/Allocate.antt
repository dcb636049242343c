-- ===== src/Qcow2/Allocate.antt =====
-- `AllocateCluster` of images/qcow2.cc on the refcounts: a free cluster is taken, and what is in use
-- stays as it is.
use mvisor_x.Base.{
  ℕ, zero, suc, ◌+◌, ◌*◌, ◌%◌, ◌≤◌, ◌<◌, ◌≡◌, ◌≢◌, sym, ◌∙◌, subst, Option, none, some, arith,
  length, ℕ_discrete, some_pair,
}
use mvisor_x.Qcow2.{FileApi, IsFile}
use mvisor_x.Qcow2.Words.{mul_mono}
use mvisor_x.Qcow2.Refcounts.{
  Refs, entry_at, next_index, next_entry, take_entry, allocate_loop, allocate_cluster, refcount,
}
use mvisor_x.Qcow2.Sound.{IsSound}
use mvisor_x.Qcow2.Search.{
  Fits, Placed, got, got-Placed, next_entry-NextIn, loop-free, loop-used, allocate_loop-lands,
  allocate_loop-total, get_refcount_block-GotIn,
}
use mvisor_x.Qcow2.Take.{
  Points, Taken, Keeps-trans, unused_before, got-Got, next_entry-Got, take_entry-Taken,
}

module _ {File : Type 0} (api : FileApi File) (laws : IsFile api) (size n : ℕ) (pos : 0 < n) where
  -- the loop
  allocate_loop-Taken :
      (f i ci : ℕ) (r r' : Refs File) (b : Option ℕ) (p : ℕ)
      → IsSound api laws size n r
      → Fits api size n (length r.refcount_table)
      → Placed api size n b i ci r
      → Points api laws size n b ci r
      → allocate_loop api size n f r b i ci ≡ some (r', p)
      → p ≢ 0
      → p < size
      → Taken api laws size n pos ci p r r'
  unfolding allocate_loop
  allocate_loop-Taken zero i ci r r' b p h fits placed points e ne below = absurd (cc)
  allocate_loop-Taken (suc f) i ci r r' none p h fits placed points e ne below =
      absurd (ne (sym (some_pair e).1))
  allocate_loop-Taken (suc f) i ci r r' (some o) p h fits placed points e ne below =
      elim (ℕ_discrete (entry_at api size n o i r.store) 0) [
        | yes z ↦
            let both = some_pair (sym (loop-free api size n pos f o i ci r z) ∙ e) in
            subst (λ x. Taken api laws size n pos ci p r x) both.0
              (subst (λ q. Taken api laws size n pos ci q r (take_entry api size n o i r)) both.1
                (take_entry-Taken api laws size n pos o i ci r h fits placed points z))
        | no used ↦
            let next : Refs File × Option ℕ × ℕ = next_entry api size n o i r in
            let (len, placed') = next_entry-NextIn api size n pos o i ci r fits placed in
            let fits' : Fits api size n (length next.0.refcount_table) = rw len fits in
            let e' : allocate_loop api size n f next.0 next.1 next.2 (ci + 1) ≡ some (r', p) =
              subst (λ q. allocate_loop api size n f next.0 next.1 next.2 q ≡ some (r', p)) placed.2
                (sym (loop-used api size n pos f o i ci r used) ∙ e) in
            let (k, position, lands) =
              allocate_loop-lands api size n pos f next.2 (ci + 1) next.0 r' next.1 p fits' placed'
                e' ne in
            let scaled = mul_mono (ci + 1) k (2 * n) lands in
            let (sound', keeps', points') =
              next_entry-Got api laws size n pos o i ci r h fits placed points (omega arith) in
            let (sound, keeps, (q, at, later, unused, used_now, index)) =
              allocate_loop-Taken f next.2 (ci + 1) next.0 r' next.1 p sound' fits' placed' points'
                e' ne below in
            (
              sound,
              Keeps-trans api laws size n r next.0 r' keeps' keeps,
              (
                q,
                at,
                omega arith,
                unused_before api laws size n r next.0 q keeps' unused,
                used_now,
                index,
              ),
            )
      ]

  start :
      (r r' : Refs File) (p : ℕ)
      → allocate_cluster api size n r ≡ some (r', p)
      → allocate_loop api size n
          (suc (length r.refcount_table * n))
          (got api size n pos r).0
          (got api size n pos r).1
          (r.free_cluster_index % n)
          r.free_cluster_index
        ≡ some (r', p)
  unfolding allocate_cluster
  start r r' p e = e

  -- `AllocateCluster` always returns, where the positions of the clusters that the refcount table has
  -- room for are numbers of 64 bits: the table bounds its loop.
  pub allocate_cluster-total :
      (r : Refs File)
      → Fits api size n (length r.refcount_table)
      → (r' : Refs File) × (p : ℕ) × (allocate_cluster api size n r ≡ some (r', p))
  unfolding allocate_cluster
  allocate_cluster-total r fits =
      let len =
        (get_refcount_block-GotIn api size n r.free_cluster_index (next_index api size n r)).0 in
      allocate_loop-total api size n pos (suc (length r.refcount_table * n))
        (r.free_cluster_index % n) r.free_cluster_index (got api size n pos r).0
        (got api size n pos r).1 (rw len fits) (got-Placed api size n pos r fits) (omega arith)
        (rw len (omega arith))

  -- If `AllocateCluster` returns a position other than 0 below the header's size, it is that of a
  -- cluster from the free index on whose refcount was 0 and is 1 now; a cluster j with another
  -- refcount than 0 keeps it, the invariant of the refcounts holds again, and the free index is
  -- the next cluster.
  pub allocate_cluster-takes_free :
      (r r' : Refs File) (p j : ℕ)
      → IsSound api laws size n r
      → Fits api size n (length r.refcount_table)
      → allocate_cluster api size n r ≡ some (r', p)
      → p ≢ 0
      → p < size
      → refcount api size n j r ≢ 0
      → IsSound api laws size n r'
        × (refcount api size n j r' ≡ refcount api size n j r)
        × ((k : ℕ) × (p ≡ k * (2 * n))
            × (r.free_cluster_index ≤ k)
            × (refcount api size n k r ≡ 0)
            × (refcount api size n k r' ≡ 1)
            × (r'.free_cluster_index ≡ k + 1))
  allocate_cluster-takes_free r r' p j h fits e ne below used =
      let len =
        (get_refcount_block-GotIn api size n r.free_cluster_index (next_index api size n r)).0 in
      let begin : Refs File = (got api size n pos r).0 in
      let fits' : Fits api size n (length begin.refcount_table) = rw len fits in
      let placed = got-Placed api size n pos r fits in
      let (k, position, lands) =
        allocate_loop-lands api size n pos (suc (length r.refcount_table * n))
          (r.free_cluster_index % n) r.free_cluster_index begin r' (got api size n pos r).1 p fits'
          placed (start r r' p e) ne in
      let scaled = mul_mono r.free_cluster_index k (2 * n) lands in
      let (sound', keeps', points') = got-Got api laws size n pos r h fits (omega arith) in
      let (sound, keeps, (q, at, later, unused, used_now, index)) =
        allocate_loop-Taken (suc (length r.refcount_table * n)) (r.free_cluster_index % n)
          r.free_cluster_index begin r' (got api size n pos r).1 p sound' fits' placed points'
          (start r r' p e) ne below in
      (
        sound,
        Keeps-trans api laws size n r begin r' keeps' keeps j used,
        (q, at, later, unused_before api laws size n r begin q keeps' unused, used_now, index),
      )
