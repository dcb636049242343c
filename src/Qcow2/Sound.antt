-- ===== src/Qcow2/Sound.antt =====
-- The invariant of the refcounts of images/qcow2.cc, and what an entry that is set makes of them.
use mvisor_x.Base.{
  ℕ, ◌*◌, ◌/◌, ◌%◌, ◌^◌, ◌<◌, ◌≡◌, ◌≢◌, refl, sym, ap, ◌∙◌, none, some, length, get_elem?, get_or,
  set, ◌==◌, if◌then◌else◌, if_same, if_ne, ℕ_discrete, Option-cases, inl, inr, get_or-set_self,
  get_or-set_ne,
}
use native.Mathlib.Nat.{mod-lt}
use mvisor_x.StdMap.{find}
use mvisor_x.Qcow2.{FileApi, IsFile, Table, Store}
use mvisor_x.Qcow2.Tables.{held, content, file_table, set_entry}
use mvisor_x.Qcow2.Evicted.{IsAligned}
use mvisor_x.Qcow2.Coherent.{IsCoherent}
use mvisor_x.Qcow2.Entries.{set_entry-changes_one, set_entry-keys}
use mvisor_x.Qcow2.Refcounts.{Refs, entry_at, refcount_in, refcount}
use mvisor_x.Qcow2.Cells.{cell-eq}

module _ {File : Type 0} (api : FileApi File) (laws : IsFile api) (size n : ℕ) where
  -- The blocks of the refcount table lie on clusters of their own that are in use, as the header does,
  -- and the cache is coherent and holds no other table.
  pub record IsSound (r : Refs File) : Type 0 where
    pub coherent : IsCoherent api laws size 2 n r.store
    pub aligned : (i o : ℕ) → get_elem? r.refcount_table i ≡ some o → o ≢ 0 → IsAligned (2 * n) o
    pub inside : (i o : ℕ) → get_elem? r.refcount_table i ≡ some o → o ≢ 0 → o < size
    pub distinct :
        (i j o : ℕ)
        → get_elem? r.refcount_table i ≡ some o
        → get_elem? r.refcount_table j ≡ some o
        → o ≢ 0
        → i ≡ j
    pub owned :
        (i o : ℕ)
        → get_elem? r.refcount_table i ≡ some o
        → o ≢ 0
        → refcount api size n (o / (2 * n)) r ≢ 0
    pub header : refcount api size n 0 r ≢ 0
    pub keys :
        (o id : ℕ) (t : Table)
        → find o r.store.cache.pairs ≡ some (id, t)
        → (o ≢ 0) × (i : ℕ) × (get_elem? r.refcount_table i ≡ some o)

  refcount_in-block :
      (o i : ℕ) (s : Store File)
      → o ≢ 0
      → refcount_in api size n (some o) i s ≡ entry_at api size n o i s
  refcount_in-block o i s ne = if_ne o 0 _ _ ne

  -- the refcount at a place of the table
  pub refcount-some :
      (j o : ℕ) (r : Refs File)
      → get_elem? r.refcount_table (j / n) ≡ some o
      → o ≢ 0
      → refcount api size n j r ≡ entry_at api size n o (j % n) r.store
  unfolding refcount
  refcount-some j o r e ne =
      ap (λ b. refcount_in api size n b (j % n) r.store) e ∙ refcount_in-block o (j % n) r.store ne

  pub refcount-none :
      (j : ℕ) (r : Refs File)
      → get_elem? r.refcount_table (j / n) ≡ none
      → refcount api size n j r ≡ 0
  unfolding refcount
  refcount-none j r e = ap (λ b. refcount_in api size n b (j % n) r.store) e

  pub refcount-absent :
      (j : ℕ) (r : Refs File)
      → get_elem? r.refcount_table (j / n) ≡ some 0
      → refcount api size n j r ≡ 0
  unfolding refcount
  refcount-absent j r e = ap (λ b. refcount_in api size n b (j % n) r.store) e

  -- another store with the same blocks has the same refcounts
  pub refcount-same_blocks :
      (j : ℕ) (r r' : Refs File)
      → get_elem? r'.refcount_table (j / n) ≡ get_elem? r.refcount_table (j / n)
      → ((o : ℕ)
          → get_elem? r.refcount_table (j / n) ≡ some o
          → o ≢ 0
          → entry_at api size n o (j % n) r'.store ≡ entry_at api size n o (j % n) r.store)
      → refcount api size n j r' ≡ refcount api size n j r
  refcount-same_blocks j r r' table same =
      elim (Option-cases (get_elem? r.refcount_table (j / n))) [
        | inl e ↦ refcount-none j r' (table ∙ e) ∙ sym (refcount-none j r e)
        | inr (o, e) ↦ elim (ℕ_discrete o 0) [
          | yes z ↦
              let e0 = e ∙ ap some z in
              refcount-absent j r' (table ∙ e0) ∙ sym (refcount-absent j r e0)
          | no ne ↦
              refcount-some j o r' (table ∙ e) ne ∙ same o e ne ∙ sym (refcount-some j o r e ne)
        ]
      ]

  -- a block's entry set through its pointer
  module _ (pos : 0 < n) (ci o v id : ℕ) (t : Table) (r : Refs File) (h : IsSound r)
      (e : get_elem? r.refcount_table (ci / n) ≡ some o) (ne : o ≢ 0)
      (there : find o r.store.cache.pairs ≡ some (id, t)) (lt : v < 256 ^ 2) where
    abbrev pub entry_set : Refs File
    entry_set = record r { store = set_entry api size 2 n o (ci % n) v r.store }

    entry_set-content :
        (p : ℕ)
        → content api size 2 n p entry_set.store ≡ (
            if o == p
            then set (content api size 2 n p r.store) (ci % n) v
            else content api size 2 n p r.store)
    entry_set-content p =
        (set_entry-changes_one api laws size 2 n o (ci % n) v id t r.store there p h.coherent lt).0

    length-content : length (content api size 2 n o r.store) ≡ n
    length-content =
        ap (λ b. length (held b (file_table api size 2 n o r.store.file))) there
        ∙ (h.coherent.tables o id t there).length_eq

    pub refcount-entry_set :
        (j : ℕ) → refcount api size n j entry_set ≡ (if ci == j then v else refcount api size n j r)
    refcount-entry_set j = elim (ℕ_discrete ci j) [
      | yes same ↦
          let e' : get_elem? r.refcount_table (j / n) ≡ some o =
            ap (λ q. get_elem? r.refcount_table (q / n)) (sym same) ∙ e in
          let cell : ci % n ≡ j % n = ap (λ q. q % n) same in
          let in_range : j % n < length (content api size 2 n o r.store) =
            rw length-content (mod-lt j pos) in
          refcount-some j o entry_set e' ne
          ∙ ap (λ es. get_or es (j % n) 0) (entry_set-content o ∙ if_same o o _ _ refl)
          ∙ ap (λ i. get_or (set (content api size 2 n o r.store) i v) (j % n) 0) cell
          ∙ get_or-set_self (content api size 2 n o r.store) (j % n) v 0 in_range
          ∙ sym (if_same ci j v (refcount api size n j r) same)
      | no other ↦
          refcount-same_blocks j r entry_set refl (λ o' e' ne'. elim (ℕ_discrete o o') [
            | yes same ↦
                let one_table : ci / n ≡ j / n =
                  h.distinct (ci / n) (j / n) o e (e' ∙ ap some (sym same)) ne in
                let cells : ci % n ≢ j % n = λ x. other (cell-eq n ci j one_table x) in
                ap (λ es. get_or es (j % n) 0) (entry_set-content o' ∙ if_same o o' _ _ same)
                ∙ get_or-set_ne (content api size 2 n o' r.store) (ci % n) (j % n) v 0 cells
            | no apart ↦
                ap (λ es. get_or es (j % n) 0) (entry_set-content o' ∙ if_ne o o' _ _ apart)
          ])
          ∙ sym (if_ne ci j v (refcount api size n j r) other)
    ]

    -- the invariant, if the header and the blocks stay in use
    pub entry_set-IsSound :
        refcount api size n 0 entry_set ≢ 0
        → ((i p : ℕ)
            → get_elem? r.refcount_table i ≡ some p
            → p ≢ 0
            → refcount api size n (p / (2 * n)) entry_set ≢ 0)
        → IsSound entry_set
    entry_set-IsSound header owned = record {
      coherent =
          (set_entry-changes_one api laws size 2 n o (ci % n) v id t r.store there 0 h.coherent
            lt).1;
      aligned = h.aligned;
      inside = h.inside;
      distinct = h.distinct;
      owned = owned;
      header = header;
      keys = λ p j u found.
          let (j', u', before) =
            set_entry-keys api laws size 2 n o (ci % n) v id t r.store there p j u found in
          h.keys p j' u' before;
    }
