-- ===== src/Qcow2/Loop.antt =====
-- The loop of `BlockIo` of images/qcow2.cc: how many rounds it takes, and what it counts.
use mvisor_x.Base.{
  ℕ, zero, suc, ◌+◌, ◌-◌, ◌≤◌, ◌≡◌, refl, subst, List, [], ◌++◌, Option, none, some, ◌⊎◌, arith,
  drop, leb, ltb, pos, negsuc, if-splits, ltb→lt,
}
use mvisor_x.Qcow2.{FileApi}
use mvisor_x.Qcow2.Image.{Image}
use mvisor_x.Qcow2.Clusters.{Io}
use mvisor_x.Qcow2.Bounds.{AtMost, cluster_io-AtMost}
use mvisor_x.Qcow2.Requests.{IoType, image_size, cluster_io, after_bytes, go_on, block_io}

module _ {File : Type 0} (api : FileApi File) (decompress : List ℕ → List ℕ ⊎ ℕ) where
  -- a result is there
  abbrev Ends : Option (Io File) → Type 0
  Ends r = (x : Io File) × (r ≡ some x)

  Ends-after_bytes :
      (bytes : List ℕ) (r : Option (Io File)) → Ends r → Ends (after_bytes api decompress bytes r)
  Ends-after_bytes bytes none (x, e) = absurd (cc)
  Ends-after_bytes bytes (some none) h = (none, refl)
  Ends-after_bytes bytes (some (some (images, ret, more))) h =
      (some (images, ret, bytes ++ more), refl)

  Ends-go_on :
      (rest : List (Image File) → ℕ → Option (Io File)) (io : Io File)
      → ((images : List (Image File)) (k : ℕ) → Ends (rest images (suc k)))
      → Ends (go_on api decompress rest io)
  Ends-go_on rest none h = (none, refl)
  Ends-go_on rest (some (images, negsuc error, bytes)) h =
      (some (images, negsuc error, bytes), refl)
  Ends-go_on rest (some (images, pos zero, bytes)) h = (some (images, pos zero, bytes), refl)
  Ends-go_on rest (some (images, pos (suc k), bytes)) h =
      Ends-after_bytes bytes (rest images (suc k)) (h images k)

  -- The loop of `BlockIo` takes at most one round more than there are bytes left: with that much fuel
  -- it is not the fuel that ends it. A round is `cluster_io`; that a round ends is not stated here. A
  -- round without a result, which is a panic or an allocation that has not ended, ends the loop with
  -- no result.
  pub block_io-total :
      (fuel : ℕ) (type : IoType) (images : List (Image File)) (at : ℕ) (buffer : List ℕ)
      (len offset : ℕ)
      → 1 ≤ fuel
      → len + 1 ≤ fuel + offset
      → (x : Io File) × (block_io api decompress fuel type images at buffer len offset ≡ some x)
  unfolding block_io
  block_io-total zero type images at buffer len offset h enough = absurd (omega arith)
  block_io-total (suc fuel) type images at buffer len offset h enough =
      if-splits Ends (ltb offset len)
        (λ more.
          if-splits Ends (leb (image_size images) at)
            (λ past. (some (images, pos offset, []), refl))
            (λ inside.
              Ends-go_on
                (λ images' k.
                  block_io api decompress fuel type images' (at + k) (drop k buffer) len
                    (offset + k))
                (cluster_io api decompress type images at buffer (len - offset))
                (λ images' k.
                  block_io-total fuel type images' (at + suc k) (drop (suc k) buffer) len
                    (offset + suc k) (omega (arith, ltb→lt offset len more)) (omega arith))))
        (λ over. (some (images, pos offset, []), refl))

  -- what the loop counts
  abbrev Counted : ℕ → Option (Io File) → Type 0
  Counted len none = Unit {0}
  Counted len (some io) = AtMost len io

  Counted-after_bytes :
      (len : ℕ) (bytes : List ℕ) (r : Option (Io File))
      → Counted len r
      → Counted len (after_bytes api decompress bytes r)
  Counted-after_bytes len bytes none h = tt
  Counted-after_bytes len bytes (some none) h = tt
  Counted-after_bytes len bytes (some (some (images, ret, more))) h = h

  Counted-go_on :
      (len left : ℕ) (rest : List (Image File) → ℕ → Option (Io File)) (io : Io File)
      → left ≤ len
      → AtMost left io
      → ((images : List (Image File)) (k : ℕ) → suc k ≤ left → Counted len (rest images (suc k)))
      → Counted len (go_on api decompress rest io)
  Counted-go_on len left rest none le h more = tt
  Counted-go_on len left rest (some (images, negsuc error, bytes)) le h more = tt
  Counted-go_on len left rest (some (images, pos zero, bytes)) le h more = omega arith
  Counted-go_on len left rest (some (images, pos (suc k), bytes)) le h more =
      Counted-after_bytes len bytes (rest images (suc k)) (more images k h)

  block_io-Counted :
      (fuel : ℕ) (type : IoType) (images : List (Image File)) (at : ℕ) (buffer : List ℕ)
      (len offset : ℕ)
      → offset ≤ len
      → Counted len (block_io api decompress fuel type images at buffer len offset)
  unfolding block_io
  block_io-Counted zero type images at buffer len offset h = tt
  block_io-Counted (suc fuel) type images at buffer len offset h =
      if-splits (Counted len) (ltb offset len)
        (λ more.
          if-splits (Counted len) (leb (image_size images) at) (λ past. h)
            (λ inside.
              Counted-go_on len (len - offset)
                (λ images' k.
                  block_io api decompress fuel type images' (at + k) (drop k buffer) len
                    (offset + k))
                (cluster_io api decompress type images at buffer (len - offset)) (omega arith)
                (cluster_io-AtMost api decompress type images at buffer (len - offset))
                (λ images' k le.
                  block_io-Counted fuel type images' (at + suc k) (drop (suc k) buffer) len
                    (offset + suc k) (omega arith))))
        (λ over. h)

  -- What `BlockIo` reports as done, of a read, a write or a discard, is never more than was asked for.
  pub block_io-le :
      (fuel : ℕ) (type : IoType) (images images' : List (Image File)) (at : ℕ)
      (buffer bytes : List ℕ) (len done : ℕ)
      → block_io api decompress fuel type images at buffer len 0
        ≡ some (some (images', pos done, bytes))
      → done ≤ len
  block_io-le fuel type images images' at buffer bytes len done e =
      subst (Counted len) e (block_io-Counted fuel type images at buffer len 0 (omega arith))
