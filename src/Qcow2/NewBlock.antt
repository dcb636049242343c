-- ===== src/Qcow2/NewBlock.antt =====
-- `GetRefcountBlock` of images/qcow2.cc on the refcounts, where the block is a new one.
use mvisor_x.Base.{
  ℕ, zero, suc, ◌*◌, ◌/◌, ◌%◌, ◌^◌, ◌<◌, ◌≡◌, ◌≢◌, refl, sym, ap, ◌∙◌, subst, Bool, true, false,
  List, [], ◌∷◌, ◌⊎◌, none, some, arith, length, get_elem?, get_or, set, replicate, ◌==◌,
  if◌then◌else◌, if_same, if_ne, ℕ_discrete, Option-cases, inl, inr, get_or-set_self, get_or-set_ne,
  get_or-replicate, length-set, length-replicate, get_elem?-set_self, get_elem?-set_ne,
}
use native.Mathlib.Nat.{mod-lt, zero-div}
use mvisor_x.StdMap.{find}
use mvisor_x.Qcow2.{FileApi, IsFile, Table}
use mvisor_x.Qcow2.Words.{set-AllBelow, replicate-AllBelow}
use mvisor_x.Qcow2.Tables.{content, new_table, with_entry, put_table}
use mvisor_x.Qcow2.Evicted.{IsAligned, IsTable}
use mvisor_x.Qcow2.Coherent.{
  IsCoherent, put_table-IsCoherent, content-put_table_self, content-put_table_other,
  put_table-cached, put_table-keys,
}
use mvisor_x.Qcow2.Refcounts.{Refs, new_block, refcount}
use mvisor_x.Qcow2.Cells.{cell-eq, div-mul}
use mvisor_x.Qcow2.Sound.{IsSound, refcount-some, refcount-absent, refcount-same_blocks}

pub some_in_range : (l : List ℕ) (i o : ℕ) → get_elem? l i ≡ some o → i < length l
some_in_range [] i o e = absurd (cc)
some_in_range (x ∷ l) zero o e = omega arith
some_in_range (x ∷ l) (suc i) o e = omega (arith, some_in_range l i o e)

some_inj : (a b : ℕ) → some a ≡ some b → a ≡ b
some_inj a b e = ground arith

one_or : (b : Bool) (x : ℕ) → x ≢ 0 → (if b then 1 else x) ≢ 0
one_or true x ne e = absurd (omega arith)
one_or false x ne e = ne e

module _ {File : Type 0} (api : FileApi File) (laws : IsFile api) (size n : ℕ) where
  -- a new block, in the cluster that was asked for
  module _ (pos : 0 < n) (ci : ℕ) (r : Refs File) (h : IsSound api laws size n r)
      (e : get_elem? r.refcount_table (ci / n) ≡ some 0) (inside : ci * (2 * n) < size) where
    abbrev offset : ℕ
    offset = ci * (2 * n)

    abbrev block : Table
    block = with_entry (ci % n) 1 (new_table n offset)

    abbrev made : Refs File
    made = new_block api size n ci offset r

    unused : refcount api size n ci r ≡ 0
    unused = refcount-absent api laws size n ci r e

    pub not_header : offset ≢ 0
    not_header z =
        let first : ci ≡ 0 =
          sym (div-mul (2 * n) ci (omega arith)) ∙ ap (λ q. q / (2 * n)) z ∙ zero-div (2 * n) in
        h.header (ap (λ q. refcount api size n q r) (sym first) ∙ unused)

    no_block : (i p : ℕ) → get_elem? r.refcount_table i ≡ some p → p ≢ 0 → p ≢ offset
    no_block i p e' ne' same = h.owned i p e' ne' (
        ap (λ q. refcount api size n (q / (2 * n)) r) same
        ∙ ap (λ q. refcount api size n q r) (div-mul (2 * n) ci (omega arith))
        ∙ unused)

    not_cached : find offset r.store.cache.pairs ≡ none
    not_cached = elim (Option-cases (find offset r.store.cache.pairs)) [
      | inl miss ↦ miss
      | inr ((id, t), found) ↦
          let (ne, i, e') = h.keys offset id t found in absurd (no_block i offset e' ne refl)
    ]

    block-IsTable : IsTable api laws size 2 n offset block r.store.file
    block-IsTable = record {
      offset = refl;
      aligned = (ci, refl);
      inside = inside;
      length_eq = length-set (replicate n 0) (ci % n) 1 ∙ length-replicate n 0;
      below =
          set-AllBelow (256 ^ 2) (ci % n) 1 (replicate n 0) (omega arith)
            (replicate-AllBelow (256 ^ 2) n 0 (omega arith));
      clean = λ d. absurd (cc);
    }

    made-store : made.store ≡ put_table api size 2 n block r.store
    unfolding new_block
    made-store = refl

    made-table : made.refcount_table ≡ set r.refcount_table (ci / n) offset
    unfolding new_block
    made-table = refl

    in_table : ci / n < length r.refcount_table
    in_table = some_in_range r.refcount_table (ci / n) 0 e

    pub made-here : get_elem? made.refcount_table (ci / n) ≡ some offset
    made-here =
        ap (λ l. get_elem? l (ci / n)) made-table
        ∙ get_elem?-set_self r.refcount_table (ci / n) offset in_table

    made-there :
        (i : ℕ) → ci / n ≢ i → get_elem? made.refcount_table i ≡ get_elem? r.refcount_table i
    made-there i other =
        ap (λ l. get_elem? l i) made-table
        ∙ get_elem?-set_ne r.refcount_table {i = ci / n} {j = i} offset other

    made-content_self : content api size 2 n offset made.store ≡ set (replicate n 0) (ci % n) 1
    made-content_self =
        ap (content api size 2 n offset) made-store
        ∙ content-put_table_self api laws size 2 n offset block r.store block-IsTable not_cached
            h.coherent

    made-content_other :
        (p : ℕ)
        → IsAligned (2 * n) p
        → offset ≢ p
        → content api size 2 n p made.store ≡ content api size 2 n p r.store
    made-content_other p a other =
        ap (content api size 2 n p) made-store
        ∙ content-put_table_other api laws size 2 n offset block r.store block-IsTable not_cached
            h.coherent p a other

    -- the refcounts: the cluster of the block is in use, and no other has changed
    pub refcount-made :
        (j : ℕ) → refcount api size n j made ≡ (if ci == j then 1 else refcount api size n j r)
    refcount-made j = elim (ℕ_discrete (ci / n) (j / n)) [
      | yes table ↦
          let here : get_elem? made.refcount_table (j / n) ≡ some offset =
            ap (get_elem? made.refcount_table) (sym table) ∙ made-here in
          let absent =
            refcount-absent api laws size n j r (ap (get_elem? r.refcount_table) (sym table) ∙ e) in
          let got =
            refcount-some api laws size n j offset made here not_header
            ∙ ap (λ es. get_or es (j % n) 0) made-content_self in
          elim (ℕ_discrete ci j) [
            | yes same ↦
                let in_range : ci % n < length (replicate n 0) =
                  subst (λ l. ci % n < l) (sym (length-replicate {A = ℕ} n 0)) (mod-lt ci pos) in
                got
                ∙ ap (λ q. get_or (set (replicate n 0) (ci % n) 1) (q % n) 0) (sym same)
                ∙ get_or-set_self (replicate n 0) (ci % n) 1 0 in_range
                ∙ sym (if_same ci j 1 (refcount api size n j r) same)
            | no other ↦
                let cells : ci % n ≢ j % n = λ x. other (cell-eq n ci j table x) in
                got
                ∙ get_or-set_ne (replicate n 0) (ci % n) (j % n) 1 0 cells
                ∙ get_or-replicate n (j % n) 0
                ∙ sym absent
                ∙ sym (if_ne ci j 1 (refcount api size n j r) other)
          ]
      | no other ↦
          refcount-same_blocks api laws size n j r made (made-there (j / n) other) (λ p e' ne'.
            ap (λ es. get_or es (j % n) 0)
              (made-content_other p (h.aligned (j / n) p e' ne')
                (λ x. no_block (j / n) p e' ne' (sym x))))
          ∙ sym (if_ne ci j 1 (refcount api size n j r) (λ x. other (ap (λ q. q / n) x)))
    ]

    -- what was in use stays in use
    made-keeps : (j : ℕ) → refcount api size n j r ≢ 0 → refcount api size n j made ≢ 0
    made-keeps j used = rw (refcount-made j) (one_or (ci == j) (refcount api size n j r) used)

    -- a block of the new table is the new one or an old one
    made-case :
        (i p : ℕ)
        → get_elem? made.refcount_table i ≡ some p
        → ((ci / n ≡ i) × (p ≡ offset)) ⊎ ((ci / n ≢ i) × (get_elem? r.refcount_table i ≡ some p))
    made-case i p e' = elim (ℕ_discrete (ci / n) i) [
      | yes same ↦
          let both : some p ≡ some offset =
            sym e' ∙ ap (get_elem? made.refcount_table) (sym same) ∙ made-here in
          inl (same, some_inj p offset both)
      | no other ↦ inr (other, sym (made-there i other) ∙ e')
    ]

    made-keys :
        (p id : ℕ) (u : Table)
        → find p made.store.cache.pairs ≡ some (id, u)
        → (p ≢ 0) × (i : ℕ) × (get_elem? made.refcount_table i ≡ some p)
    made-keys p id u found = elim (ℕ_discrete offset p) [
      | yes same ↦ (λ z. not_header (same ∙ z), ci / n, made-here ∙ ap some same)
      | no other ↦
          let (ne', i, old) = h.keys p id u (
            put_table-keys api laws size 2 n offset block r.store block-IsTable not_cached
              h.coherent p id u other (ap (λ x. find p x.cache.pairs) (sym made-store) ∙ found)) in
          elim (ℕ_discrete (ci / n) i) [
            | yes here ↦
                let both : some 0 ≡ some p = sym e ∙ ap (get_elem? r.refcount_table) here ∙ old in
                absurd (ne' (sym (some_inj 0 p both)))
            | no there ↦ (ne', i, made-there i there ∙ old)
          ]
    ]

    pub made-IsSound : IsSound api laws size n made
    made-IsSound = record {
      coherent = subst (IsCoherent api laws size 2 n) (sym made-store) (
          put_table-IsCoherent api laws size 2 n offset block r.store block-IsTable not_cached
            h.coherent);
      aligned = λ i p e' ne'. elim (made-case i p e') [
        | inl (here, same) ↦ (ci, same)
        | inr (there, old) ↦ h.aligned i p old ne'
      ];
      inside = λ i p e' ne'. elim (made-case i p e') [
        | inl (here, same) ↦ rw same inside
        | inr (there, old) ↦ h.inside i p old ne'
      ];
      distinct = λ i j p e' e'' ne'. elim (made-case i p e') [
        | inl (here, same) ↦ elim (made-case j p e'') [
          | inl (here', same') ↦ sym here ∙ here'
          | inr (there, old) ↦ absurd (no_block j p old ne' same)
        ]
        | inr (there, old) ↦ elim (made-case j p e'') [
          | inl (here', same') ↦ absurd (no_block i p old ne' same')
          | inr (there', old') ↦ h.distinct i j p old old' ne'
        ]
      ];
      owned = λ i p e' ne'. elim (made-case i p e') [
        | inl (here, same) ↦
            let own : p / (2 * n) ≡ ci =
              ap (λ q. q / (2 * n)) same ∙ div-mul (2 * n) ci (omega arith) in
            rw (own, refcount-made ci, if_same ci ci 1 (refcount api size n ci r) refl)
              (λ z. absurd (omega (arith, z)))
        | inr (there, old) ↦ made-keeps (p / (2 * n)) (h.owned i p old ne')
      ];
      header = made-keeps 0 h.header;
      keys = made-keys;
    }

    pub made-cached : find offset made.store.cache.pairs ≡ some (r.store.cache.next, block)
    made-cached =
        ap (λ x. find offset x.cache.pairs) made-store
        ∙ put_table-cached api laws size 2 n offset block r.store block-IsTable not_cached
            h.coherent
