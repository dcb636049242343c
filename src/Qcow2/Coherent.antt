-- ===== src/Qcow2/Coherent.antt =====
-- The caches of tables of images/qcow2.cc with the file behind them are one map from offsets to
-- tables: what is read, put and evicted changes no table.
use mvisor_x.Base.{
  ℕ, ◌*◌, ◌≤◌, ◌≡◌, ◌≢◌, inl, inr, refl, sym, ap, ◌∙◌, subst, true, List, [], ◌∷◌, Option, none,
  some, arith, ℕ_discrete,
}
use mvisor_x.StdMap.{
  IsOrdered, find, insert, erase, find-erase_self, find-erase_ne, insert-IsOrdered,
}
use mvisor_x.Lru.{put}
use mvisor_x.Lru.View.{IsValid}
use mvisor_x.Lru.Laws.{insert_other, insert_self}
use mvisor_x.Lru.Put.{put-IsValid}
use mvisor_x.Lru.Evict.{put-new, put-limits}
use mvisor_x.Qcow2.{FileApi, IsFile, Table, Store}
use mvisor_x.Qcow2.Tables.{held, write_back, file_table, put_table, content}
use mvisor_x.Qcow2.Evicted.{IsAligned, IsTable, write_back_self, write_back_other}

module _ {File : Type 0} (api : FileApi File) (laws : IsFile api) (size w n : ℕ) where
  -- The cache works, and each of its tables has its shape.
  pub record IsCoherent (s : Store File) : Type 0 where
    pub valid : IsValid s.cache
    pub room : 1 ≤ s.cache.max_size
    pub reports : s.cache.has_callback ≡ true
    pub tables :
        (o id : ℕ) (t : Table)
        → find o s.cache.pairs ≡ some (id, t)
        → IsTable api laws size w n o t s.file

  -- an evicted table leaves the others as they are
  pub IsTable-after :
      (o e : ℕ) (t u : Table) (f : File)
      → IsTable api laws size w n o t f
      → IsTable api laws size w n e u f
      → o ≢ e
      → IsTable api laws size w n o t (write_back api size w n ((e, u) ∷ []) f)
  IsTable-after o e t u f k l ne = record {
    offset = k.offset;
    aligned = k.aligned;
    inside = k.inside;
    length_eq = k.length_eq;
    below = k.below;
    clean = λ d. write_back_other api laws size w n e o u f l k.aligned ne ∙ k.clean d;
  }

  -- the maps of a coherent store
  abbrev pub AreTables : List (ℕ × (ℕ × Table)) → File → Type 0
  AreTables pairs f =
      (o id : ℕ) (t : Table) → find o pairs ≡ some (id, t) → IsTable api laws size w n o t f

  abbrev table_of : Option (ℕ × Table) → Table → Table
  table_of none u = u
  table_of (some (id, t)) u = t

  -- a new table in the map
  module _ (o i : ℕ) (t : Table) (pairs : List (ℕ × (ℕ × Table))) (f : File) where
    pub inserted-AreTables :
        IsTable api laws size w n o t f → AreTables pairs f → AreTables (insert o (i, t) pairs) f
    inserted-AreTables k tables p id u e = elim (ℕ_discrete o p) [
      | yes same ↦
          let e' : some (i, t) ≡ some (id, u) =
            sym (insert_self o (i, t) pairs) ∙ ap (λ q. find q (insert o (i, t) pairs)) same ∙ e in
          let t-u : t ≡ u = ap (λ x. table_of x u) e' in
          subst (λ q. IsTable api laws size w n q u f) same
            (subst (λ x. IsTable api laws size w n o x f) t-u k)
      | no ne ↦ tables p id u (sym (insert_other o (i, t) pairs p ne) ∙ e)
    ]

  -- a table that the cache gives up
  module _ (e i : ℕ) (v : Table) (pairs : List (ℕ × (ℕ × Table))) (f : File) where
    abbrev after : File
    after = write_back api size w n ((e, v) ∷ []) f

    evicted-AreTables :
        IsOrdered 0 pairs
        → AreTables pairs f
        → find e pairs ≡ some (i, v)
        → AreTables (erase e pairs) after
    evicted-AreTables ord tables fe p id u h = elim (ℕ_discrete e p) [
      | yes same ↦
          let gone = find-erase_self e 0 pairs ord in
          let there : find e (erase e pairs) ≡ some (id, u) =
            ap (λ q. find q (erase e pairs)) same ∙ h in
          absurd (cc)
      | no ne ↦
          IsTable-after p e u v f (tables p id u (sym (find-erase_ne e p pairs ne) ∙ h))
            (tables e i v fe) (λ x. ne (sym x))
    ]

    evicted-content :
        (p : ℕ)
        → IsOrdered 0 pairs
        → AreTables pairs f
        → find e pairs ≡ some (i, v)
        → IsAligned (w * n) p
        → held (find p (erase e pairs)) (file_table api size w n p after)
          ≡ held (find p pairs) (file_table api size w n p f)
    evicted-content p ord tables fe a = elim (ℕ_discrete e p) [
      | yes same ↦
          subst
            (λ q.
              held (find q (erase e pairs)) (file_table api size w n q after)
              ≡ held (find q pairs) (file_table api size w n q f))
            same
            (rw (find-erase_self e 0 pairs ord, fe)
              (write_back_self api laws size w n e v f (tables e i v fe)))
      | no ne ↦
          ap (λ r. held r (file_table api size w n p after)) (find-erase_ne e p pairs ne)
          ∙ ap (held (find p pairs))
              (write_back_other api laws size w n e p v f (tables e i v fe) a (λ x. ne (sym x)))
    ]

  -- a new table in the cache
  module _ (o : ℕ) (t : Table) (s : Store File) (k : IsTable api laws size w n o t s.file)
      (miss : find o s.cache.pairs ≡ none) (h : IsCoherent s) where
    abbrev put_store : Store File
    put_store = record {
      cache = (put o t s.cache).0;
      file = write_back api size w n (put o t s.cache).2 s.file;
    }

    put_table-eq : put_table api size w n t s ≡ put_store
    unfolding put_table
    put_table-eq =
        let build : ℕ → Store File = λ i. record {
          cache = (put i t s.cache).0;
          file = write_back api size w n (put i t s.cache).2 s.file;
        } in
        ap build k.offset

    -- the map and the file after it: the table is in the map, and one other may be written back
    put_result :
        AreTables put_store.cache.pairs put_store.file
        × ((p : ℕ)
            → IsAligned (w * n) p
            → held (find p put_store.cache.pairs) (file_table api size w n p put_store.file)
              ≡ held
                  (find p (insert o (s.cache.next, t) s.cache.pairs))
                  (file_table api size w n p s.file))
    unfolding write_back
    put_result =
        let pairs2 : List (ℕ × (ℕ × Table)) = insert o (s.cache.next, t) s.cache.pairs in
        let tables2 : AreTables pairs2 s.file =
          inserted-AreTables o s.cache.next t s.cache.pairs s.file k h.tables in
        elim (put-new o t s.cache h.valid h.room h.reports miss) [
          | inl (pairs, calls) ↦ rw (pairs, calls) (tables2, λ p a. refl)
          | inr (e, i, v, ne, fe, pairs, calls) ↦
              let ordered =
                insert-IsOrdered o (s.cache.next, t) 0 s.cache.pairs (omega arith)
                  h.valid.ordered in
              let there = insert_other o (s.cache.next, t) s.cache.pairs e ne ∙ fe in
              rw (pairs, calls)
                (
                  evicted-AreTables e i v pairs2 s.file ordered tables2 there,
                  λ p a. evicted-content e i v pairs2 s.file p ordered tables2 there a,
                )
        ]

    pub put_table-IsCoherent : IsCoherent (put_table api size w n t s)
    put_table-IsCoherent = rw put_table-eq (record {
      valid = put-IsValid o t s.cache h.valid;
      room = rw (put-limits o t s.cache).0 h.room;
      reports = (put-limits o t s.cache).1 ∙ h.reports;
      tables = put_result.0;
    })

    pub content-put_table_self : content api size w n o (put_table api size w n t s) ≡ t.entries
    content-put_table_self =
        ap (content api size w n o) put_table-eq
        ∙ put_result.1 o k.aligned
        ∙ ap (λ r. held r (file_table api size w n o s.file))
            (insert_self o (s.cache.next, t) s.cache.pairs)

    pub content-put_table_other :
        (p : ℕ)
        → IsAligned (w * n) p
        → o ≢ p
        → content api size w n p (put_table api size w n t s) ≡ content api size w n p s
    content-put_table_other p a ne =
        ap (content api size w n p) put_table-eq
        ∙ put_result.1 p a
        ∙ ap (λ r. held r (file_table api size w n p s.file))
            (insert_other o (s.cache.next, t) s.cache.pairs p ne)

    pub put_table-cached : find o (put_table api size w n t s).cache.pairs ≡ some (s.cache.next, t)
    put_table-cached =
        let there = insert_self o (s.cache.next, t) s.cache.pairs in
        ap (λ x. find o x.cache.pairs) put_table-eq
        ∙ elim (put-new o t s.cache h.valid h.room h.reports miss) [
          | inl (pairs, calls) ↦ ap (find o) pairs ∙ there
          | inr (e, i, v, ne, fe, pairs, calls) ↦
              ap (find o) pairs
              ∙ find-erase_ne e o (insert o (s.cache.next, t) s.cache.pairs) (λ x. ne (sym x))
              ∙ there
        ]

    -- no other table is new
    pub put_table-keys :
        (p id : ℕ) (u : Table)
        → o ≢ p
        → find p (put_table api size w n t s).cache.pairs ≡ some (id, u)
        → find p s.cache.pairs ≡ some (id, u)
    put_table-keys p id u ne found =
        let found' : find p put_store.cache.pairs ≡ some (id, u) =
          ap (λ x. find p x.cache.pairs) (sym put_table-eq) ∙ found in
        let old = insert_other o (s.cache.next, t) s.cache.pairs p ne in
        elim (put-new o t s.cache h.valid h.room h.reports miss) [
          | inl (pairs, calls) ↦ sym old ∙ sym (ap (find p) pairs) ∙ found'
          | inr (e, i, v, ne', fe, pairs, calls) ↦
              let rest = sym (ap (find p) pairs) ∙ found' in
              elim (ℕ_discrete e p) [
                | yes same ↦
                    let two : List (ℕ × (ℕ × Table)) = insert o (s.cache.next, t) s.cache.pairs in
                    let ordered =
                      insert-IsOrdered o (s.cache.next, t) 0 s.cache.pairs (omega arith)
                        h.valid.ordered in
                    let gone = find-erase_self e 0 two ordered in
                    let there : find e (erase e two) ≡ some (id, u) =
                      ap (λ q. find q (erase e two)) same ∙ rest in
                    absurd (cc)
                | no other ↦
                    sym old
                    ∙ sym (find-erase_ne e p (insert o (s.cache.next, t) s.cache.pairs) other)
                    ∙ rest
              ]
        ]
