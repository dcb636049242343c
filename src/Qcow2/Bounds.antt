-- ===== src/Qcow2/Bounds.antt =====
-- `ReadCluster`, `WriteCluster` and `DiscardCluster` of images/qcow2.cc never report more bytes than
-- they were asked for, nor more than the cluster has.
use mvisor_x.Base.{
  ℕ, zero, suc, ◌+◌, ◌-◌, ◌%◌, ◌≤◌, Bool, true, false, not, ◌&&◌, ◌||◌, List, [], ◌∷◌, Option, none,
  some, ◌⊎◌, inl, inr, arith, length, take, drop, ltb, ◌==◌, if◌then◌else◌, if-keeps, ℤ, pos,
  negsuc, length-take, ◌>>=◌,
}
use mvisor_x.Qcow2.{FileApi, write_file}
use mvisor_x.Qcow2.Refcounts.{Refs, free_cluster}
use mvisor_x.Qcow2.Image.{
  Image, cluster_size, rfb_entries, offset_in_cluster, capped, l2_index, l2_entry, get_l2_table,
  is_copied, with_copied, is_compressed, descriptor, host_offset, allocate,
}
use mvisor_x.Qcow2.Clusters.{
  Io, decompressed, read_entry, under, read_missing, beside, read_cluster, write_data, overlaid,
  write_copied, has_backing, set_l2_entry, write_new, write_entry, write_cluster, discard_entry,
  discard_cluster,
}
use mvisor_x.Qcow2.Requests.{
  IoType, read, write, discard, write_zeros, flush, information, cluster_io,
}

-- a result counts at most this many bytes
abbrev pub CountsIn : ℕ → ℤ → Type 0
CountsIn len (pos k) = k ≤ len
CountsIn len (negsuc error) = Unit {0}

abbrev pub AtMost : {File : Type 0} → ℕ → Io File → Type 0
AtMost len none = Unit {0}
AtMost len (some (images, ret, bytes)) = CountsIn len ret

abbrev OneAtMost : {File : Type 0} → ℕ → Option (Image File × ℤ × List ℕ) → Type 0
OneAtMost len none = Unit {0}
OneAtMost len (some (img, ret, bytes)) = CountsIn len ret

pub capped-le : {File : Type 0} (img : Image File) (at len : ℕ) → capped img at len ≤ len
unfolding capped
capped-le img at len = ground arith

CountsIn-mono : (a b : ℕ) (ret : ℤ) → a ≤ b → CountsIn a ret → CountsIn b ret
CountsIn-mono a b (pos k) h c = omega arith
CountsIn-mono a b (negsuc error) h c = tt

AtMost-mono : {File : Type 0} (a b : ℕ) (io : Io File) → a ≤ b → AtMost a io → AtMost b io
AtMost-mono a b none h c = tt
AtMost-mono a b (some (images, ret, bytes)) h c = CountsIn-mono a b ret h c

module _ {File : Type 0} (api : FileApi File) (decompress : List ℕ → List ℕ ⊎ ℕ) where
  read_entry-OneAtMost :
      (entry offset len : ℕ) (img : Image File)
      → OneAtMost len (read_entry api decompress entry offset len img)
  unfolding read_entry
  read_entry-OneAtMost entry offset len img =
      if-keeps (OneAtMost len) (is_compressed entry)
        (if-keeps (OneAtMost len) img.is_zstd (clustered (decompressed api decompress entry img).1)
          tt)
        (if-keeps (OneAtMost len) (descriptor entry % 2 == 1) (omega arith) (omega arith))
    where
      clustered :
          (c : List ℕ ⊎ ℕ)
          → OneAtMost len (elim c [
            | inr error ↦ some ((decompressed api decompress entry img).0, negsuc error, [])
            | inl bytes ↦
                some
                  ((decompressed api decompress entry img).0, pos len, take len (drop offset bytes))
          ])
      clustered (inr error) = tt
      clustered (inl bytes) = omega arith

  under-AtMost :
      (rest : List (Image File)) (len : ℕ) (io : Io File) (img : Image File)
      → AtMost len io
      → AtMost len (under api decompress rest io img)
  under-AtMost rest len none img h = tt
  under-AtMost rest len (some (images, ret, bytes)) img h = h

  beside-AtMost :
      (rest : List (Image File)) (len : ℕ) (r : Option (Image File × ℤ × List ℕ))
      → OneAtMost len r
      → AtMost len (beside api decompress rest r)
  beside-AtMost rest len none h = tt
  beside-AtMost rest len (some (img, ret, bytes)) h = h

  read_missing-AtMost :
      (len : ℕ) (no_zero : Bool) (rest : List (Image File)) (below : Io File)
      → AtMost len below
      → AtMost len (read_missing api decompress len no_zero rest below)
  read_missing-AtMost len no_zero [] below h = if-keeps (AtMost len) no_zero tt (omega arith)
  read_missing-AtMost len no_zero (img ∷ rest) below h = h

  -- on a table that is there or missing
  AtMost-got :
      (len : ℕ) (missing : Image File → Io File) (found : Image File → ℕ → Io File)
      (g : Option (Image File × Option ℕ))
      → ((img : Image File) → AtMost len (missing img))
      → ((img : Image File) (table : ℕ) → AtMost len (found img table))
      → AtMost len
          (g >>= λ got. elim got.1 [ none ↦ missing got.0 | some table ↦ found got.0 table ])
  AtMost-got len missing found none h h' = tt
  AtMost-got len missing found (some (img, none)) h h' = h img
  AtMost-got len missing found (some (img, some table)) h h' = h' img table

  read_cluster-AtMost :
      (images : List (Image File)) (at len : ℕ) (no_zero : Bool)
      → AtMost len (read_cluster api decompress images at len no_zero)
  unfolding read_cluster
  read_cluster-AtMost [] at len no_zero = tt
  read_cluster-AtMost (img ∷ rest) at len no_zero =
      let len' : ℕ = capped img at len in
      let below : Io File =
        read_missing api decompress len' no_zero rest
          (read_cluster api decompress rest at len' false) in
      let entry : Image File → ℕ → ℕ = λ img' table. l2_entry api img' table (l2_index img at) in
      let missing : (img' : Image File) → AtMost len' (under api decompress rest below img') =
        λ img'. under-AtMost rest len' below img' (
          read_missing-AtMost len' no_zero rest (read_cluster api decompress rest at len' false)
            (read_cluster-AtMost rest at len' false)) in
      AtMost-mono len' len _ (capped-le img at len) (
        AtMost-got len' (under api decompress rest below)
          (λ img' table.
            if entry img' table == 0
            then under api decompress rest below img'
            else beside api decompress rest
                (read_entry api decompress (entry img' table) (offset_in_cluster img at) len' img'))
          (get_l2_table api false at img) missing
          (λ img' table. if-keeps (AtMost len') (entry img' table == 0) (missing img') (
            beside-AtMost rest len' _
              (read_entry-OneAtMost (entry img' table) (offset_in_cluster img at) len' img'))))

  write_data-AtMost :
      (offset : ℕ) (bytes : List ℕ) (len : ℕ) (failed : Io File) (img : Image File)
      (rest : List (Image File))
      → AtMost len failed
      → AtMost len (write_data api decompress offset bytes len failed img rest)
  unfolding write_data
  write_data-AtMost offset bytes len failed img rest h =
      if-keeps (AtMost len)
        ((write_file api img.size offset bytes img.refs.store.file).1 == length bytes) (omega arith)
        h

  write_copied-AtMost :
      (host offset : ℕ) (bytes : List ℕ) (img : Image File) (io : Io File)
      → AtMost (length bytes) (write_copied api decompress host offset bytes img io)
  write_copied-AtMost host offset bytes img none = tt
  write_copied-AtMost host offset bytes img (some (rest, negsuc error, cluster)) =
      write_data-AtMost (host + offset) bytes (length bytes) none img rest tt
  write_copied-AtMost host offset bytes img (some (rest, pos zero, cluster)) =
      write_data-AtMost (host + offset) bytes (length bytes) none img rest tt
  write_copied-AtMost host offset bytes img (some (rest, pos (suc n), cluster)) =
      if-keeps (AtMost (length bytes)) (suc n == cluster_size img)
        (write_data-AtMost host (overlaid api decompress offset bytes cluster) (length bytes) none
          img rest tt)
        tt

  write_new-AtMost :
      (table at : ℕ) (bytes : List ℕ) (img : Image File) (rest : List (Image File))
      → AtMost (length bytes) (write_new api decompress table at bytes img rest)
  unfolding write_new
  write_new-AtMost table at bytes img rest = placed (allocate api img)
    where
      offset : ℕ
      offset = offset_in_cluster img at

      whole : Bool
      whole = (offset == 0) && (length bytes == cluster_size img)

      placed :
          (a : Option (Image File × ℕ))
          → AtMost (length bytes) (
              a >>= λ a.
              let img' : Image File =
                set_l2_entry api decompress table (l2_index img at) (with_copied a.1) a.0 in
              if a.1 == 0
              then some (a.0 ∷ rest, negsuc 0, [])
              else if has_backing api decompress rest && not whole
              then write_copied api decompress a.1 offset bytes img'
                  (read_cluster api decompress rest (at - offset) (cluster_size img) true)
              else write_data api decompress (a.1 + offset) bytes (length bytes) none img' rest)
      placed none = tt
      placed (some (img', p)) = if-keeps (AtMost (length bytes)) (p == 0) tt (
          if-keeps (AtMost (length bytes)) (has_backing api decompress rest && not whole)
            (write_copied-AtMost p offset bytes
              (set_l2_entry api decompress table (l2_index img at) (with_copied p) img')
              (read_cluster api decompress rest (at - offset) (cluster_size img) true))
            (write_data-AtMost (p + offset) bytes (length bytes) none
              (set_l2_entry api decompress table (l2_index img at) (with_copied p) img') rest tt))

  write_entry-AtMost :
      (entry table at : ℕ) (bytes : List ℕ) (img : Image File) (rest : List (Image File))
      → AtMost (length bytes) (write_entry api decompress entry table at bytes img rest)
  unfolding write_entry
  write_entry-AtMost entry table at bytes img rest =
      if-keeps (AtMost (length bytes)) (is_compressed entry) tt (
        if-keeps (AtMost (length bytes)) (is_copied entry)
          (write_data-AtMost (host_offset entry + offset_in_cluster img at) bytes (length bytes)
            (some (img ∷ rest, negsuc 0, [])) img rest tt)
          (if-keeps (AtMost (length bytes)) (host_offset entry == 0)
            (write_new-AtMost table at bytes img rest) tt))

  write_cluster-AtMost :
      (images : List (Image File)) (at : ℕ) (buffer : List ℕ)
      → AtMost (length buffer) (write_cluster api decompress images at buffer)
  unfolding write_cluster
  write_cluster-AtMost [] at buffer = tt
  write_cluster-AtMost (img ∷ rest) at buffer =
      let bytes : List ℕ = take (capped img at (length buffer)) buffer in
      let short : length bytes ≤ length buffer =
        omega (arith, length-take (capped img at (length buffer)) buffer) in
      AtMost-got (length buffer) (λ img'. none)
        (λ img' table.
          write_entry api decompress (l2_entry api img' table (l2_index img at)) table at bytes img'
            rest)
        (get_l2_table api true at img) (λ img'. tt)
        (λ img' table.
          AtMost-mono (length bytes) (length buffer) _ short
            (write_entry-AtMost _ table at bytes img' rest))

  discard_entry-AtMost :
      (entry table at len : ℕ) (img : Image File) (rest : List (Image File))
      → AtMost len (discard_entry api decompress entry table at len img rest)
  unfolding discard_entry
  discard_entry-AtMost entry table at len img rest =
      if-keeps (AtMost len) (is_compressed entry) tt (
        if-keeps (AtMost len) ((descriptor entry % 2 == 1) || (host_offset entry == 0))
          (omega arith)
          (freed (free_cluster api img.size (rfb_entries img) (host_offset entry) img.refs)))
    where
      freed :
          (o : Option (Refs File))
          → AtMost len (
              o >>= λ refs. some (
                set_l2_entry api decompress table (l2_index img at) 0 (record img { refs = refs })
                    ∷ rest,
                pos len,
                [],
              ))
      freed none = tt
      freed (some refs) = omega arith

  discard_cluster-AtMost :
      (images : List (Image File)) (at len : ℕ)
      → AtMost len (discard_cluster api decompress images at len)
  unfolding discard_cluster
  discard_cluster-AtMost [] at len = tt
  discard_cluster-AtMost (img ∷ rest) at len =
      let len' : ℕ = capped img at len in
      AtMost-mono len' len _ (capped-le img at len) (
        AtMost-got len' (λ img'. some (img' ∷ rest, pos len', []))
          (λ img' table.
            if ltb 0 (offset_in_cluster img at) || ltb len' (cluster_size img)
            then some (img' ∷ rest, pos len', [])
            else discard_entry api decompress (l2_entry api img' table (l2_index img at)) table at
                len' img' rest)
          (get_l2_table api false at img) (λ img'. omega arith)
          (λ img' table.
            if-keeps (AtMost len') (ltb 0 (offset_in_cluster img at) || ltb len' (cluster_size img))
              (omega arith) (discard_entry-AtMost _ table at len' img' rest)))

  -- one round of `BlockIo`
  pub cluster_io-AtMost :
      (type : IoType) (images : List (Image File)) (at : ℕ) (buffer : List ℕ) (len : ℕ)
      → AtMost len (cluster_io api decompress type images at buffer len)
  unfolding cluster_io
  cluster_io-AtMost read images at buffer len = read_cluster-AtMost images at len false
  cluster_io-AtMost write images at buffer len =
      AtMost-mono (length (take len buffer)) len _ (omega (arith, length-take len buffer))
        (write_cluster-AtMost images at (take len buffer))
  cluster_io-AtMost discard images at buffer len = discard_cluster-AtMost images at len
  cluster_io-AtMost write_zeros images at buffer len = discard_cluster-AtMost images at len
  cluster_io-AtMost information images at buffer len = tt
  cluster_io-AtMost flush images at buffer len = tt
