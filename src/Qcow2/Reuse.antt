-- ===== src/Qcow2/Reuse.antt =====
-- A cluster that `FreeCluster` of images/qcow2.cc frees is the one that `AllocateCluster` gives out
-- next.
use mvisor_x.Base.{
  ℕ, suc, ◌-◌, ◌*◌, ◌/◌, ◌%◌, ◌<◌, ◌≡◌, ◌≢◌, refl, sym, ap, ◌∙◌, true, some, arith, length,
  get_elem?, ltb, ◌==◌, ◌&&◌, if◌then◌else◌, if_same, some_inj,
}
use mvisor_x.Qcow2.{FileApi, IsFile}
use mvisor_x.Qcow2.Refcounts.{
  Refs, entry_at, get_refcount_block, next_index, take_entry, free_cluster, allocate_cluster,
  refcount, block_position, allocate_loop,
}
use mvisor_x.Qcow2.Sound.{IsSound, refcount-some}
use mvisor_x.Qcow2.Blocks.{block_read, refcount-block_read}
use mvisor_x.Qcow2.NewBlock.{some_in_range}
use mvisor_x.Qcow2.Search.{Fits, in_bounds, loop-free}
use mvisor_x.Qcow2.Take.{get-old, next_index-IsSound, refcount-next_index}
use mvisor_x.Qcow2.Free.{used-block, free-eq, free_cluster-lowers, free_cluster-IsSound}

back_to : (x k f : ℕ) → x ≡ 1 → k < f → (if (x == 1) && ltb k f then k else f) ≡ k
back_to x k f one before = ground arith

module _ {File : Type 0} (api : FileApi File) (laws : IsFile api) (size n : ℕ) (pos : 0 < n) where
  -- the cluster at the free index, if its block is there and it is free
  allocate-here :
      (o : ℕ) (r : Refs File)
      → IsSound api laws size n r
      → Fits api size n (length r.refcount_table)
      → get_elem? r.refcount_table (r.free_cluster_index / n) ≡ some o
      → o ≢ 0
      → refcount api size n r.free_cluster_index r ≡ 0
      → (r' : Refs File) × (allocate_cluster api size n r
          ≡ some (r', r.free_cluster_index * (2 * n)))
  unfolding allocate_cluster
  allocate-here o r h fits e ne unused =
      let ci = r.free_cluster_index in
      let next : Refs File = next_index api size n r in
      let hn = next_index-IsSound api laws size n r h in
      let b : Refs File = block_read api laws size n (ci / n) o next hn e ne in
      let got : get_refcount_block api size n ci true next ≡ (b, some o) =
        get-old api laws size n ci o true next hn e ne in
      let zero_entry : entry_at api size n o (ci % n) b.store ≡ 0 =
        sym (refcount-some api laws size n ci o b e ne)
        ∙ refcount-block_read api laws size n (ci / n) o next hn e ne ci
        ∙ refcount-next_index api laws size n ci r
        ∙ unused in
      let bounds =
        in_bounds api size n pos (length r.refcount_table) ci fits
          (some_in_range r.refcount_table (ci / n) o e) in
      let there : block_position api size n ci ≡ ci * (2 * n) = omega (arith, bounds.0) in
      let fuel : ℕ = length r.refcount_table * n in
      (
        take_entry api size n o (ci % n) b,
        ap (λ g. allocate_loop api size n (suc fuel) g.0 g.1 (ci % n) ci) got
            ∙ loop-free api size n pos fuel o (ci % n) ci b zero_entry
            ∙ ap (λ q. some (take_entry api size n o (ci % n) b, q)) there,
      )

  -- A cluster in use once, that is neither the header's nor a refcount block's and lies before the free
  -- index: once it is freed, the next allocation returns it.
  pub allocate_cluster-free_cluster :
      (k : ℕ) (r r' : Refs File)
      → IsSound api laws size n r
      → Fits api size n (length r.refcount_table)
      → refcount api size n k r ≡ 1
      → k ≢ 0
      → ((i p : ℕ) → get_elem? r.refcount_table i ≡ some p → p ≢ 0 → p / (2 * n) ≢ k)
      → k < r.free_cluster_index
      → free_cluster api size n (k * (2 * n)) r ≡ some r'
      → (r'' : Refs File) × (allocate_cluster api size n r' ≡ some (r'', k * (2 * n)))
  allocate_cluster-free_cluster k r r' h fits one not_header no_block before done =
      let used : refcount api size n k r ≢ 0 = λ z. absurd (omega (arith, one, z)) in
      let (o, e, ne) = used-block api laws size n pos k r used in
      let (r1, done1, refs, index) = free_cluster-lowers api laws size n pos k k r h used in
      let same : r1 ≡ r' = some_inj (sym done1 ∙ done) in
      let h' = free_cluster-IsSound api laws size n pos k r r' h used not_header no_block done in
      let table : r'.refcount_table ≡ r.refcount_table =
        ap (λ x. x.refcount_table)
          (some_inj (sym done ∙ free-eq api laws size n pos k o r h e ne)) in
      let at : r'.free_cluster_index ≡ k =
        ap (λ x. x.free_cluster_index) (sym same)
        ∙ index
        ∙ back_to _ k r.free_cluster_index one before in
      let unused : refcount api size n k r' ≡ 0 =
        ap (refcount api size n k) (sym same)
        ∙ refs
        ∙ if_same k k (refcount api size n k r - 1) (refcount api size n k r) refl
        ∙ omega (arith, one) in
      let (r'', result) =
        allocate-here o r' h' (rw table fits)
          (ap (λ q. get_elem? r'.refcount_table (q / n)) at
            ∙ ap (λ l. get_elem? l (k / n)) table
            ∙ e)
          ne (ap (λ q. refcount api size n q r') at ∙ unused) in
      (r'', result ∙ ap (λ q. some (r'', q * (2 * n))) at)
