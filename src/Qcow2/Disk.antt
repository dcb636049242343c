-- ===== src/Qcow2/Disk.antt =====
-- A file for the tests of images/qcow2.cc: a disk of bytes without an end, as the kernel would keep it.
use mvisor_x.Base.{
  ℕ, zero, suc, ◌+◌, ◌%◌, ◌≤◌, ◌<◌, ◌≡◌, ◌⊎◌, inl, inr, refl, ap, ◌∙◌, List, [], ◌∷◌, ◌++◌, arith,
  length, take, replicate, ◌==◌, if◌then◌else◌,
}
use mvisor_x.Qcow2.{FileApi, IsFile, read_file}
use mvisor_x.Qcow2.Words.{AllBelow}

abbrev pub Disk : Type 0
Disk = ℕ → ℕ

abbrev patch : ℕ → ℕ → Disk → Disk
patch o b f i = if i == o then b else f i

unfoldable pub pread_bytes : ℕ → ℕ → Disk → List ℕ
pread_bytes o zero f = []
pread_bytes o (suc n) f = (f o % 256) ∷ pread_bytes (suc o) n f

unfoldable pub pwrite_bytes : ℕ → List ℕ → Disk → Disk
pwrite_bytes o [] f = f
pwrite_bytes o (b ∷ bs) f = pwrite_bytes (suc o) bs (patch o b f)

abbrev pub disk : FileApi Disk
disk = record { pread = pread_bytes; pwrite = pwrite_bytes }

pwrite-outside :
    (o i : ℕ) (bs : List ℕ) (f : Disk) → i < o ⊎ o + length bs ≤ i → pwrite_bytes o bs f i ≡ f i
unfolding pwrite_bytes
pwrite-outside o i [] f h = refl
pwrite-outside o i (b ∷ bs) f (inl h) =
    pwrite-outside (suc o) i bs (patch o b f) (inl (omega arith)) ∙ ground arith
pwrite-outside o i (b ∷ bs) f (inr h) =
    pwrite-outside (suc o) i bs (patch o b f) (inr (omega arith)) ∙ ground arith

pread-pwrite :
    (o : ℕ) (bs : List ℕ) (f : Disk)
    → AllBelow 256 bs
    → pread_bytes o (length bs) (pwrite_bytes o bs f) ≡ bs
unfolding pread_bytes pwrite_bytes
pread-pwrite o [] f h = refl
pread-pwrite o (b ∷ bs) f h =
    let first : pwrite_bytes (suc o) bs (patch o b f) o ≡ b =
      pwrite-outside (suc o) o bs (patch o b f) (inl (omega arith)) ∙ ground arith in
    let byte : b % 256 ≡ b = omega (arith, h.0) in
    rw (first, byte) (ap (λ r. b ∷ r) (pread-pwrite (suc o) bs (patch o b f) h.1))

pread-same :
    (p n : ℕ) (f g : Disk)
    → ((i : ℕ) → p ≤ i → i < p + n → f i ≡ g i)
    → pread_bytes p n f ≡ pread_bytes p n g
unfolding pread_bytes
pread-same p zero f g h = refl
pread-same p (suc n) f g h = rw (h p (omega arith) (omega arith)) (
    ap (λ r. (g p % 256) ∷ r)
      (pread-same (suc p) n f g (λ i lo hi. h i (omega (arith, lo)) (omega (arith, hi)))))

pread-AllBelow : (o n : ℕ) (f : Disk) → AllBelow 256 (pread_bytes o n f)
unfolding pread_bytes
pread-AllBelow o zero f = tt
pread-AllBelow o (suc n) f = (omega arith, pread-AllBelow (suc o) n f)

apart :
    (o p n len : ℕ) → p + n ≤ o ⊎ o + len ≤ p → (i : ℕ) → p ≤ i → i < p + n → i < o ⊎ o + len ≤ i
apart o p n len (inl h) i lo hi = inl (omega arith)
apart o p n len (inr h) i lo hi = inr (omega arith)

pub disk-IsFile : IsFile disk
unfolding read_file
disk-IsFile = record {
  read_back = pread-pwrite;
  elsewhere = λ o p n bs f h.
      ap (λ r. take n (r ++ replicate n 0))
        (pread-same p n (pwrite_bytes o bs f) f
          (λ i lo hi. pwrite-outside o i bs f (apart o p n (length bs) h i lo hi)));
  bytes = pread-AllBelow;
}
