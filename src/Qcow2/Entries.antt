-- ===== src/Qcow2/Entries.antt =====
-- The entries of images/qcow2.cc that are set through a table's pointer: one entry of one table.
use mvisor_x.Base.{
  ℕ, ◌^◌, ◌<◌, ◌≡◌, sym, ap, ◌∙◌, subst, some, set, length-set, ℕ_discrete, if_same, if_ne, ◌==◌,
  if◌then◌else◌,
}
use mvisor_x.StdMap.{find, insert}
use mvisor_x.Lru.View.{IsValid}
use mvisor_x.Lru.Laws.{insert_other, insert_self}
use mvisor_x.Lru.Evict.{change-IsValid, change-hit}
use mvisor_x.Qcow2.{FileApi, IsFile, Table, Store}
use mvisor_x.Qcow2.Words.{set-AllBelow}
use mvisor_x.Qcow2.Tables.{held, with_entry, file_table, set_entry, content}
use mvisor_x.Qcow2.Evicted.{IsTable}
use mvisor_x.Qcow2.Coherent.{IsCoherent, inserted-AreTables}

module _ {File : Type 0} (api : FileApi File) (laws : IsFile api) (size w n : ℕ) where
  with_entry-IsTable :
      (o i v : ℕ) (t : Table) (f : File)
      → v < 256 ^ w
      → IsTable api laws size w n o t f
      → IsTable api laws size w n o (with_entry i v t) f
  with_entry-IsTable o i v t f lt k = record {
    offset = k.offset;
    aligned = k.aligned;
    inside = k.inside;
    length_eq = length-set t.entries i v ∙ k.length_eq;
    below = set-AllBelow (256 ^ w) i v t.entries lt k.below;
    clean = λ d. absurd (cc);
  }

  module _ (o i v id : ℕ) (t : Table) (s : Store File)
      (e : find o s.cache.pairs ≡ some (id, t)) where
    set_entry-eq : set_entry api size w n o i v s ≡ record s {
      cache = record s.cache { pairs = insert o (id, with_entry i v t) s.cache.pairs };
    }
    unfolding set_entry
    set_entry-eq = ap (λ c. record s { cache = c }) (change-hit o id t (with_entry i v) s.cache e)

    set_entry-content :
        (p : ℕ)
        → content api size w n p (set_entry api size w n o i v s)
          ≡ held
              (find p (insert o (id, with_entry i v t) s.cache.pairs))
              (file_table api size w n p s.file)
    set_entry-content p = ap (content api size w n p) set_entry-eq

    -- Setting an entry of a cached table to a value that fits its width changes that entry of that
    -- table and nothing else that the store holds, and keeps the cache and the file coherent.
    pub set_entry-changes_one :
        (p : ℕ)
        → IsCoherent api laws size w n s
        → v < 256 ^ w
        → (content api size w n p (set_entry api size w n o i v s)
            ≡ (if o == p then set (content api size w n p s) i v else content api size w n p s))
          × IsCoherent api laws size w n (set_entry api size w n o i v s)
    set_entry-changes_one p h lt = (
      set_entry-content p ∙ elim (ℕ_discrete o p) [
        | yes same ↦
            let es = file_table api size w n p s.file in
            let there : find p (insert o (id, with_entry i v t) s.cache.pairs)
                ≡ some (id, with_entry i v t) =
              ap (λ q. find q (insert o (id, with_entry i v t) s.cache.pairs)) (sym same)
              ∙ insert_self o (id, with_entry i v t) s.cache.pairs in
            let before : find p s.cache.pairs ≡ some (id, t) =
              ap (λ q. find q s.cache.pairs) (sym same) ∙ e in
            ap (λ r. held r es) there
            ∙ ap (λ r. set (held r es) i v) (sym before)
            ∙ sym (if_same o p _ _ same)
        | no ne ↦
            ap (λ r. held r (file_table api size w n p s.file))
              (insert_other o (id, with_entry i v t) s.cache.pairs p ne)
            ∙ sym (if_ne o p _ _ ne)
      ],
      rw set_entry-eq (record {
        valid =
            subst IsValid (change-hit o id t (with_entry i v) s.cache e)
              (change-IsValid o (with_entry i v) s.cache h.valid);
        room = h.room;
        reports = h.reports;
        tables =
            inserted-AreTables api laws size w n o id (with_entry i v t) s.cache.pairs s.file
              (with_entry-IsTable o i v t s.file lt (h.tables o id t e)) h.tables;
      }),
    )

    -- no table is new
    pub set_entry-keys :
        (p j : ℕ) (u : Table)
        → find p (set_entry api size w n o i v s).cache.pairs ≡ some (j, u)
        → (j' : ℕ) × (u' : Table) × (find p s.cache.pairs ≡ some (j', u'))
    set_entry-keys p j u found = elim (ℕ_discrete o p) [
      | yes same ↦ (id, t, ap (λ q. find q s.cache.pairs) (sym same) ∙ e)
      | no ne ↦ (
        j,
        u,
        sym (insert_other o (id, with_entry i v t) s.cache.pairs p ne)
            ∙ sym (ap (λ x. find p x.cache.pairs) set_entry-eq)
            ∙ found,
      )
    ]

    pub set_entry-cached :
        find o (set_entry api size w n o i v s).cache.pairs ≡ some (id, with_entry i v t)
    set_entry-cached =
        ap (λ x. find o x.cache.pairs) set_entry-eq
        ∙ insert_self o (id, with_entry i v t) s.cache.pairs
