-- ===== src/Qcow2/Evicted.antt =====
-- Tables of images/qcow2.cc that go to the file: what `write_back` leaves in it.
use mvisor_x.Base.{
  ℕ, zero, suc, ◌+◌, ◌*◌, ◌^◌, ◌≤◌, ◌<◌, ◌≡◌, ◌≢◌, ◌⊎◌, inl, inr, sym, ap, ◌∙◌, subst, true, false,
  List, [], ◌∷◌, ◌++◌, arith, length, leb, dec_lt, replicate, take, Bool-cases,
}
use mvisor_x.Qcow2.{FileApi, IsFile, Table, read_file, write_file}
use mvisor_x.Qcow2.Words.{
  to_bytes, of_bytes, AllBelow, of_bytes-to_bytes, length-to_bytes, to_bytes-AllBelow,
  take-append_left,
}
use mvisor_x.Qcow2.Tables.{write_back, file_table}

-- a table's offset is a multiple of its size, the cluster's
abbrev pub IsAligned : ℕ → ℕ → Type 0
IsAligned c o = (q : ℕ) × (o ≡ q * c)

pub multiple_step : (c q r : ℕ) → q < r → q * c + c ≤ r * c
multiple_step c q zero h = absurd (omega arith)
multiple_step c q (suc r) h = elim (dec_lt q r) [
  | yes less ↦ let step = multiple_step c q r less in omega arith
  | no more ↦ let same : q ≡ r = omega arith in rw same (omega arith)
]

-- two clusters do not overlap
pub aligned-apart : (c o p : ℕ) → IsAligned c o → IsAligned c p → p ≢ o → p + c ≤ o ⊎ o + c ≤ p
aligned-apart c o p (q, e) (r, e') ne = elim (dec_lt q r) [
  | yes less ↦ let step = multiple_step c q r less in inr (omega arith)
  | no more ↦ elim (dec_lt r q) [
    | yes less ↦ let step = multiple_step c r q less in inl (omega arith)
    | no more' ↦
        let same : q ≡ r = omega arith in absurd (ne (e' ∙ ap (λ x. x * c) (sym same) ∙ sym e))
  ]
]

module _ {File : Type 0} (api : FileApi File) (laws : IsFile api) (size w n : ℕ) where
  -- What the caches keep true of a table under the offset o: its shape, and if it is clean, the file
  -- has it.
  pub record IsTable (o : ℕ) (t : Table) (f : File) : Type 0 where
    pub offset : t.offset_in_file ≡ o
    pub aligned : IsAligned (w * n) o
    pub inside : o < size
    pub length_eq : length t.entries ≡ n
    pub below : AllBelow (256 ^ w) t.entries
    pub clean : t.dirty ≡ false → file_table api size w n o f ≡ t.entries

  -- a table that was written reads back
  pub file_table-pwrite :
      (o : ℕ) (es : List ℕ) (f : File)
      → length es ≡ n
      → AllBelow (256 ^ w) es
      → file_table api size w n o (api.pwrite o (to_bytes w es) f) ≡ es
  unfolding read_file
  file_table-pwrite o es f len below =
      let bs = to_bytes w es in
      let len' : length bs ≡ w * n = length-to_bytes w es ∙ ap (λ m. w * m) len in
      let back =
        subst (λ m. api.pread o m (api.pwrite o bs f) ≡ bs) len'
          (laws.read_back o bs f (to_bytes-AllBelow w es)) in
      let whole : of_bytes w n bs ≡ es =
        subst (λ m. of_bytes w m bs ≡ es) len (of_bytes-to_bytes w es below) in
      ap (λ r. of_bytes w n (take (w * n) (r ++ replicate (w * n) 0))) back
      ∙ ap (of_bytes w n) (take-append_left (w * n) bs (replicate (w * n) 0) len')
      ∙ whole

  pub file_table-pwrite_other :
      (o p : ℕ) (es : List ℕ) (f : File)
      → length es ≡ n
      → IsAligned (w * n) o
      → IsAligned (w * n) p
      → p ≢ o
      → file_table api size w n p (api.pwrite o (to_bytes w es) f) ≡ file_table api size w n p f
  file_table-pwrite_other o p es f len a b ne =
      let len' : length (to_bytes w es) ≡ w * n = length-to_bytes w es ∙ ap (λ m. w * m) len in
      ap (of_bytes w n) (
        laws.elsewhere o p (w * n) (to_bytes w es) f
          (subst (λ m. p + w * n ≤ o ⊎ o + m ≤ p) (sym len') (aligned-apart (w * n) o p a b ne)))

  -- what one table leaves
  write_back-dirty :
      (o : ℕ) (t : Table) (f : File)
      → IsTable o t f
      → t.dirty ≡ true
      → write_back api size w n ((o, t) ∷ []) f ≡ api.pwrite o (to_bytes w t.entries) f
  unfolding write_back write_file
  write_back-dirty o t f k d =
      let fits : leb size o ≡ false = ground (arith, k.inside) in rw (d, k.offset) (rw fits)

  write_back-clean :
      (o : ℕ) (t : Table) (f : File) → t.dirty ≡ false → write_back api size w n ((o, t) ∷ []) f ≡ f
  unfolding write_back
  write_back-clean o t f d = rw d

  pub write_back_self :
      (o : ℕ) (t : Table) (f : File)
      → IsTable o t f
      → file_table api size w n o (write_back api size w n ((o, t) ∷ []) f) ≡ t.entries
  write_back_self o t f k = elim (Bool-cases t.dirty) [
    | inl d ↦ rw (write_back-dirty o t f k d) (file_table-pwrite o t.entries f k.length_eq k.below)
    | inr d ↦ rw (write_back-clean o t f d) (k.clean d)
  ]

  pub write_back_other :
      (o p : ℕ) (t : Table) (f : File)
      → IsTable o t f
      → IsAligned (w * n) p
      → p ≢ o
      → file_table api size w n p (write_back api size w n ((o, t) ∷ []) f)
        ≡ file_table api size w n p f
  write_back_other o p t f k a ne = elim (Bool-cases t.dirty) [
    | inl d ↦
        rw (write_back-dirty o t f k d)
          (file_table-pwrite_other o p t.entries f k.length_eq k.aligned a ne)
    | inr d ↦ rw (write_back-clean o t f d)
  ]
