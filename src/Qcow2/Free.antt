-- ===== src/Qcow2/Free.antt =====
-- `FreeCluster` of images/qcow2.cc on the refcounts, and a freed cluster allocated again.
use mvisor_x.Base.{
  ℕ, zero, suc, ◌+◌, ◌-◌, ◌*◌, ◌/◌, ◌%◌, ◌^◌, ◌<◌, ◌≡◌, ◌≢◌, refl, sym, ap, ◌∙◌, subst, false, ◌&&◌,
  List, [], ◌∷◌, some, arith, get_elem?, get_or, ltb, ◌==◌, if◌then◌else◌, if_ne, ℕ_discrete,
  Option-cases, inl, inr, some_inj,
}
use mvisor_x.Qcow2.{FileApi, IsFile}
use mvisor_x.Qcow2.Words.{AllBelow}
use mvisor_x.Qcow2.Tables.{held, content, set_entry, file_table}
use mvisor_x.Qcow2.Refcounts.{Refs, entry_at, free_cluster, refcount}
use mvisor_x.Qcow2.Cells.{div-mul}
use mvisor_x.Qcow2.Sound.{
  IsSound, refcount-some, refcount-none, refcount-absent, refcount-entry_set, entry_set-IsSound,
}
use mvisor_x.Qcow2.Blocks.{block_read, refcount-block_read, block_read-IsSound, block_read-cached}
use mvisor_x.Qcow2.Take.{get-old}

zero_test : (v x : ℕ) → v ≡ x - 1 → x ≢ 0 → (v == 0) ≡ (x == 1)
zero_test v x e ne = ground arith

pub get_or-below : (m i : ℕ) (l : List ℕ) → 0 < m → AllBelow m l → get_or l i 0 < m
get_or-below m i [] h b = h
get_or-below m zero (x ∷ l) h b = b.0
get_or-below m (suc i) (x ∷ l) h b = get_or-below m i l h b.1

module _ {File : Type 0} (api : FileApi File) (laws : IsFile api) (size n : ℕ) (pos : 0 < n) where
  -- a cluster in use has a block
  pub used-block :
      (k : ℕ) (r : Refs File)
      → refcount api size n k r ≢ 0
      → (o : ℕ) × (get_elem? r.refcount_table (k / n) ≡ some o) × (o ≢ 0)
  used-block k r used = elim (Option-cases (get_elem? r.refcount_table (k / n))) [
    | inl e ↦ absurd (used (refcount-none api laws size n k r e))
    | inr (o, e) ↦ elim (ℕ_discrete o 0) [
      | yes z ↦ absurd (used (refcount-absent api laws size n k r (e ∙ ap some z)))
      | no ne ↦ (o, e, ne)
    ]
  ]

  -- the state that `FreeCluster` leaves, of a block in the cache
  abbrev pub freed : ℕ → ℕ → Refs File → ℕ → Refs File
  freed k o r v = record r {
    store = set_entry api size 2 n o (k % n) v r.store;
    free_cluster_index = if (v == 0) && ltb k r.free_cluster_index then k else r.free_cluster_index;
  }

  pub free-eq :
      (k o : ℕ) (r : Refs File) (h : IsSound api laws size n r)
      (e : get_elem? r.refcount_table (k / n) ≡ some o) (ne : o ≢ 0)
      → let b = block_read api laws size n (k / n) o r h e ne in
        free_cluster api size n (k * (2 * n)) r
        ≡ some (freed k o b ((entry_at api size n o (k % n) b.store + 65535) % 2 ^ 16))
  unfolding free_cluster
  free-eq k o r h e ne =
      rw (div-mul (2 * n) k (omega arith), free_cluster)
        (rw (get-old api laws size n k o false r h e ne, free_cluster)
          (rw (div-mul (2 * n) k (omega arith), get-old api laws size n k o false r h e ne)))

  -- the index is no part of the refcounts
  refcount-freed :
      (k o v j : ℕ) (r : Refs File)
      → refcount api size n j (freed k o r v)
        ≡ refcount api size n j (record r { store = set_entry api size 2 n o (k % n) v r.store })
  unfolding refcount
  refcount-freed k o v j r = refl

  freed-IsSound :
      (k o v : ℕ) (r : Refs File)
      → IsSound api laws size n (record r { store = set_entry api size 2 n o (k % n) v r.store })
      → IsSound api laws size n (freed k o r v)
  unfolding refcount
  freed-IsSound k o v r h = record {
    coherent = h.coherent;
    aligned = h.aligned;
    inside = h.inside;
    distinct = h.distinct;
    owned = h.owned;
    header = h.header;
    keys = h.keys;
  }

  refcount-below :
      (k : ℕ) (r : Refs File) → IsSound api laws size n r → refcount api size n k r < 65536
  refcount-below k r h = elim (ℕ_discrete (refcount api size n k r) 0) [
    | yes z ↦ rw z (omega arith)
    | no used ↦
        let (o, e, ne) = used-block k r used in
        let b = block_read api laws size n (k / n) o r h e ne in
        let hb = block_read-IsSound api laws size n (k / n) o r h e ne in
        let (id, t, found) = block_read-cached api laws size n (k / n) o r h e ne in
        let es : content api size 2 n o b.store ≡ t.entries =
          ap (λ x. held x (file_table api size 2 n o b.store.file)) found in
        let below =
          get_or-below 65536 (k % n) t.entries (omega arith)
            (hb.coherent.tables o id t found).below in
        rw
          (
            sym (refcount-block_read api laws size n (k / n) o r h e ne k),
            refcount-some api laws size n k o b e ne,
            es,
          )
          below
  ]

  pub free_cluster-lowers :
      (k j : ℕ) (r : Refs File)
      → IsSound api laws size n r
      → refcount api size n k r ≢ 0
      → (r' : Refs File) × (free_cluster api size n (k * (2 * n)) r ≡ some r')
        × (refcount api size n j r'
            ≡ (if k == j then refcount api size n k r - 1 else refcount api size n j r))
        × (r'.free_cluster_index ≡ (
            if (refcount api size n k r == 1) && ltb k r.free_cluster_index
            then k
            else r.free_cluster_index))
  free_cluster-lowers k j r h used =
      let (o, e, ne) = used-block k r used in
      let b = block_read api laws size n (k / n) o r h e ne in
      let hb = block_read-IsSound api laws size n (k / n) o r h e ne in
      let (id, t, found) = block_read-cached api laws size n (k / n) o r h e ne in
      let same = refcount-block_read api laws size n (k / n) o r h e ne in
      let v : ℕ = (entry_at api size n o (k % n) b.store + 65535) % 2 ^ 16 in
      let was : entry_at api size n o (k % n) b.store ≡ refcount api size n k r =
        sym (refcount-some api laws size n k o b e ne) ∙ same k in
      let below = refcount-below k r h in
      let lower : v ≡ refcount api size n k r - 1 = omega (arith, was, below, used) in
      let changed =
        refcount-entry_set api laws size n pos k o v id t b hb e ne found
          (omega (arith, lower, below)) in
      (
        freed k o b v,
        free-eq k o r h e ne,
        refcount-freed k o v j b
            ∙ changed j
            ∙ ap (λ x. if k == j then x else refcount api size n j b) lower
            ∙ ap (λ x. if k == j then refcount api size n k r - 1 else x) (same j),
        ap (λ x. if x && ltb k r.free_cluster_index then k else r.free_cluster_index)
            (zero_test v (refcount api size n k r) lower used),
      )

  -- a cluster that is neither the header's nor a block's may become free
  pub free_cluster-IsSound :
      (k : ℕ) (r r' : Refs File)
      → IsSound api laws size n r
      → refcount api size n k r ≢ 0
      → k ≢ 0
      → ((i p : ℕ) → get_elem? r.refcount_table i ≡ some p → p ≢ 0 → p / (2 * n) ≢ k)
      → free_cluster api size n (k * (2 * n)) r ≡ some r'
      → IsSound api laws size n r'
  free_cluster-IsSound k r r' h used not_header no_block done =
      let (o, e, ne) = used-block k r used in
      let b = block_read api laws size n (k / n) o r h e ne in
      let hb = block_read-IsSound api laws size n (k / n) o r h e ne in
      let (id, t, found) = block_read-cached api laws size n (k / n) o r h e ne in
      let v : ℕ = (entry_at api size n o (k % n) b.store + 65535) % 2 ^ 16 in
      let changed =
        refcount-entry_set api laws size n pos k o v id t b hb e ne found (omega arith) in
      let final = some_inj (sym (free-eq k o r h e ne) ∙ done) in
      subst (IsSound api laws size n) final (
        freed-IsSound k o v b (
          entry_set-IsSound api laws size n pos k o v id t b hb e ne found (omega arith)
            (rw (changed 0, if_ne k 0 v (refcount api size n 0 b) not_header) hb.header)
            (λ i p e' ne'.
              rw
                (
                  changed (p / (2 * n)),
                  if_ne k (p / (2 * n)) v (refcount api size n (p / (2 * n)) b)
                      (λ x. no_block i p e' ne' (sym x)),
                )
                (hb.owned i p e' ne'))))
