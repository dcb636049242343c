-- ===== src/Qcow2/Refine.antt =====
-- `ReadL2Table` and the end of `GetRefcountBlock` of images/qcow2.cc, and the entries that are set
-- through a table's pointer, against the map from offsets to tables.
use mvisor_x.Base.{
  ℕ, ◌*◌, ◌≤◌, ◌<◌, ◌≡◌, ◌≢◌, inl, inr, refl, sym, ap, ◌∙◌, subst, true, none, some, arith,
  ℕ_discrete, Option-cases, replicate,
}
use mvisor_x.StdMap.{find, insert}
use mvisor_x.Lru.{get}
use mvisor_x.Lru.Laws.{get-hit, get-miss, insert_other, insert_self}
use mvisor_x.Lru.Invariant.{get-IsValid}
use mvisor_x.Qcow2.{FileApi, IsFile, Table, Store, read_file}
use mvisor_x.Qcow2.Words.{
  length-of_bytes, of_bytes-AllBelow, take-AllBelow, append-AllBelow, replicate-AllBelow,
}
use mvisor_x.Qcow2.Tables.{held, file_table, put_table, loaded_table, read_table, content}
use mvisor_x.Qcow2.Evicted.{IsAligned, IsTable}
use mvisor_x.Qcow2.Coherent.{
  IsCoherent, AreTables, inserted-AreTables, put_table-IsCoherent, content-put_table_self,
  content-put_table_other, put_table-cached, put_table-keys,
}

module _ {File : Type 0} (api : FileApi File) (laws : IsFile api) (size w n : ℕ) where
  pub read_table-hit :
      (o id : ℕ) (t : Table) (s : Store File)
      → find o s.cache.pairs ≡ some (id, t)
      → read_table api size w n o s ≡ (record s { cache = (get o s.cache).0 }, t)
  unfolding read_table
  read_table-hit o id t s e = rw (ap (λ r. r.1) (get-hit o id t s.cache e), read_table)

  read_table-miss :
      (o : ℕ) (s : Store File)
      → find o s.cache.pairs ≡ none
      → read_table api size w n o s ≡ (
        put_table api size w n (loaded_table api size w n o s.file) s,
        loaded_table api size w n o s.file,
      )
  unfolding read_table
  read_table-miss o s e =
      rw (ap (λ r. r.1) (get-miss o s.cache e), read_table)
        (rw (ap (λ r. r.0) (get-miss o s.cache e)))

  -- a table that is read again
  got-IsCoherent :
      (o id : ℕ) (t : Table) (s : Store File)
      → find o s.cache.pairs ≡ some (id, t)
      → IsCoherent api laws size w n s
      → IsCoherent api laws size w n (record s { cache = (get o s.cache).0 })
  got-IsCoherent o id t s e h =
      let valid = get-IsValid o s.cache h.valid in
      let tables =
        inserted-AreTables api laws size w n o s.cache.next t s.cache.pairs s.file
          (h.tables o id t e) h.tables in
      let eq = get-hit o id t s.cache e in
      record {
        valid = valid;
        room = subst (λ c. 1 ≤ c.0.max_size) (sym eq) h.room;
        reports = subst (λ c. c.0.has_callback ≡ true) (sym eq) h.reports;
        tables = subst (λ c. AreTables api laws size w n c.0.pairs s.file) (sym eq) tables;
      }

  pub got-content :
      (o id : ℕ) (t : Table) (s : Store File)
      → find o s.cache.pairs ≡ some (id, t)
      → (p : ℕ)
      → content api size w n p (record s { cache = (get o s.cache).0 }) ≡ content api size w n p s
  got-content o id t s e p = elim (ℕ_discrete o p) [
    | yes same ↦ rw (get-hit o id t s.cache e) (
        subst
          (λ q.
            held (find q (insert o (s.cache.next, t) s.cache.pairs))
              (file_table api size w n q s.file)
            ≡ content api size w n q s)
          same (rw (insert_self {V = Table} o (s.cache.next, t) s.cache.pairs, e)))
    | no ne ↦
        ap (λ c. held (find p c.0.pairs) (file_table api size w n p s.file))
          (get-hit o id t s.cache e)
        ∙ ap (λ r. held r (file_table api size w n p s.file))
            (insert_other o (s.cache.next, t) s.cache.pairs p ne)
  ]

  -- the table that is loaded has its shape
  pub loaded_table-IsTable :
      (o : ℕ) (f : File)
      → IsAligned (w * n) o
      → o < size
      → IsTable api laws size w n o (loaded_table api size w n o f) f
  unfolding read_file
  loaded_table-IsTable o f a h = record {
    offset = refl;
    aligned = a;
    inside = h;
    length_eq = length-of_bytes w n (read_file api o (w * n) f);
    below = of_bytes-AllBelow w n (read_file api o (w * n) f) (
        take-AllBelow 256 (w * n) _ (
          append-AllBelow 256 (api.pread o (w * n) f) (replicate (w * n) 0) (laws.bytes o (w * n) f)
            (replicate-AllBelow 256 (w * n) 0 (omega arith))));
    clean = λ d. refl;
  }

  -- Reading a table through its cache, from an offset that is a multiple of the cluster size and lies
  -- below the header's size, returns what the store holds there, changes the content of no table
  -- at a multiple of the cluster size, also where another table is evicted and written back, and
  -- keeps the cache and the file coherent.
  pub read_table-content :
      (o p : ℕ) (s : Store File)
      → IsCoherent api laws size w n s
      → IsAligned (w * n) o
      → o < size
      → IsAligned (w * n) p
      → ((read_table api size w n o s).1.entries ≡ content api size w n o s)
        × (content api size w n p (read_table api size w n o s).0 ≡ content api size w n p s)
        × IsCoherent api laws size w n (read_table api size w n o s).0
  read_table-content o p s h a below b = elim (Option-cases (find o s.cache.pairs)) [
    | inr ((id, t), e) ↦ rw (read_table-hit o id t s e) (
      ap (λ r. held r (file_table api size w n o s.file)) (sym e),
      got-content o id t s e p,
      got-IsCoherent o id t s e h,
    )
    | inl e ↦
        let k = loaded_table-IsTable o s.file a below in
        let t = loaded_table api size w n o s.file in
        let same = ap (λ r. held r (file_table api size w n o s.file)) (sym e) in
        rw (read_table-miss o s e) (
          same,
          elim (ℕ_discrete o p) [
            | yes o-p ↦
                subst
                  (λ q.
                    content api size w n q (put_table api size w n t s) ≡ content api size w n q s)
                  o-p (content-put_table_self api laws size w n o t s k e h ∙ same)
            | no ne ↦ content-put_table_other api laws size w n o t s k e h p b ne
          ],
          put_table-IsCoherent api laws size w n o t s k e h,
        )
  ]

  -- after it, the table is in the cache
  pub read_table-cached :
      (o : ℕ) (s : Store File)
      → IsCoherent api laws size w n s
      → IsAligned (w * n) o
      → o < size
      → (id : ℕ) × (t : Table) × (find o (read_table api size w n o s).0.cache.pairs ≡ some (id, t))
  read_table-cached o s h a below = elim (Option-cases (find o s.cache.pairs)) [
    | inr ((id, t), e) ↦ (
      s.cache.next,
      t,
      rw (read_table-hit o id t s e, get-hit o id t s.cache e)
          (insert_self {V = Table} o (s.cache.next, t) s.cache.pairs),
    )
    | inl e ↦
        let k = loaded_table-IsTable o s.file a below in
        let t = loaded_table api size w n o s.file in
        (
          s.cache.next,
          t,
          rw (read_table-miss o s e) (put_table-cached api laws size w n o t s k e h),
        )
  ]

  -- and no other is new there
  pub read_table-keys :
      (o p id : ℕ) (u : Table) (s : Store File)
      → IsCoherent api laws size w n s
      → IsAligned (w * n) o
      → o < size
      → o ≢ p
      → find p (read_table api size w n o s).0.cache.pairs ≡ some (id, u)
      → find p s.cache.pairs ≡ some (id, u)
  read_table-keys o p id u s h a below ne found = elim (Option-cases (find o s.cache.pairs)) [
    | inr ((i, t), e) ↦
        let after : (read_table api size w n o s).0.cache ≡ (get o s.cache).0 =
          ap (λ r. r.0.cache) (read_table-hit o i t s e) in
        sym (insert_other o (s.cache.next, t) s.cache.pairs p ne)
        ∙ sym (ap (λ c. find p c.0.pairs) (get-hit o i t s.cache e))
        ∙ sym (ap (λ c. find p c.pairs) after)
        ∙ found
    | inl e ↦
        let k = loaded_table-IsTable o s.file a below in
        let t = loaded_table api size w n o s.file in
        put_table-keys api laws size w n o t s k e h p id u ne
          (sym (ap (λ r. find p r.0.cache.pairs) (read_table-miss o s e)) ∙ found)
  ]
