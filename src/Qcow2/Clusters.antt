-- ===== src/Qcow2/Clusters.antt =====
-- `ReadCluster`, `WriteCluster` and `DiscardCluster` of images/qcow2.cc. An image with its backing
-- files is a list of images, the image itself first. The decompression is a parameter. A result is the
-- images, the number that the function returns, and the bytes that it leaves in the buffer.
use mvisor_x.Base.{
  ℕ, zero, suc, ◌+◌, ◌-◌, ◌*◌, ◌/◌, ◌%◌, ◌^◌, Bool, true, false, ◌&&◌, ◌||◌, not, List, [], ◌∷◌,
  ◌++◌, Option, none, some, ◌⊎◌, inl, inr, length, take, drop, replicate, ltb, ◌==◌, if◌then◌else◌,
  ◌>>=◌, ℤ, pos, negsuc,
}
use mvisor_x.Lru.{get, put}
use mvisor_x.Qcow2.{FileApi, read_file, write_file}
use mvisor_x.Qcow2.Tables.{set_entry}
use mvisor_x.Qcow2.Refcounts.{free_cluster}
use mvisor_x.Qcow2.Image.{
  Image, cluster_size, rfb_entries, offset_in_cluster, capped, l2_index, l2_store, with_file,
  with_l2_store, l2_entry, allocate, get_l2_table, is_copied, with_copied, is_compressed,
  descriptor, host_offset,
}

abbrev pub Io : Type 0 → Type 0
Io File = Option (List (Image File) × ℤ × List ℕ)

-- `zstd_decompress`: the cluster, or an error e, the number -(e + 1)
module _ {File : Type 0} (api : FileApi File) (decompress : List ℕ → List ℕ ⊎ ℕ) where
  -- where `compressed_` has at least `len` bytes
  abbrev resized : ℕ → List ℕ → List ℕ
  resized len bytes = bytes ++ replicate (len - length bytes) 0

  -- `ReadFile` into `compressed_`
  unfoldable pub load_compressed : ℕ → ℕ → Image File → Image File
  load_compressed offset len img =
      let bytes = api.pread offset len img.refs.store.file in
      record img { compressed = bytes ++ drop (length bytes) (resized len img.compressed) }

  -- the clusters that are compressed: the image, and the cluster or an error
  unfoldable pub decompressed : ℕ → Image File → Image File × (List ℕ ⊎ ℕ)
  decompressed entry img =
      let x = 62 - (img.cluster_bits - 8) in
      let sectors = descriptor entry / 2 ^ x % 2 ^ (img.cluster_bits - 8) + 1 in
      let len = sectors * 512 - descriptor entry % 512 in
      let offset = descriptor entry % 2 ^ x in
      let cached = get offset img.cluster_cache in
      let loaded : Image File =
        load_compressed offset len (record img { cluster_cache = cached.0 }) in
      elim cached.1 [
        | some cluster ↦ (record img { cluster_cache = cached.0 }, inl cluster)
        | none ↦ elim (decompress (take len loaded.compressed)) [
          | inr error ↦ (loaded, inr error)
          | inl cluster ↦ (
            record loaded { cluster_cache = (put offset cluster loaded.cluster_cache).0 },
            inl cluster,
          )
        ]
      ]

  -- the end of `ReadCluster`, on an entry of the L2 table that is not 0
  unfoldable pub read_entry : ℕ → ℕ → ℕ → Image File → Option (Image File × ℤ × List ℕ)
  read_entry entry offset len img =
      let (img', cluster) = decompressed entry img in
      if is_compressed entry
      then (if img.is_zstd
          then elim cluster [
            | inr error ↦ some (img', negsuc error, [])
            | inl bytes ↦ some (img', pos len, take len (drop offset bytes))
          ]
          else none)
      else if descriptor entry % 2 == 1
      then some (img, pos len, replicate len 0)
      else some (img, pos len, read_file api (host_offset entry + offset) len img.refs.store.file)

  abbrev pub under : List (Image File) → Io File → Image File → Io File
  under rest none img = none
  under rest (some (images, ret, bytes)) img = some (img ∷ images, ret, bytes)

  -- `ReadCluster` of the images from a backing file on, or without one
  abbrev pub read_missing : ℕ → Bool → List (Image File) → Io File → Io File
  read_missing len no_zero [] below =
      if no_zero then some ([], negsuc 1, []) else some ([], pos len, replicate len 0)
  read_missing len no_zero (img ∷ rest) below = below

  abbrev pub beside : List (Image File) → Option (Image File × ℤ × List ℕ) → Io File
  beside rest none = none
  beside rest (some (img, ret, bytes)) = some (img ∷ rest, ret, bytes)

  -- `ReadCluster`; no image of the list is no backing file
  unfoldable pub read_cluster : List (Image File) → ℕ → ℕ → Bool → Io File
  read_cluster [] at len no_zero = none
  read_cluster (img ∷ rest) at len no_zero =
      let len' = capped img at len in
      let below = read_missing len' no_zero rest (read_cluster rest at len' false) in
      get_l2_table api false at img >>= λ got. elim got.1 [
        | none ↦ under rest below got.0
        | some table ↦
            let entry = l2_entry api got.0 table (l2_index img at) in
            if entry == 0
            then under rest below got.0
            else beside rest (read_entry entry (offset_in_cluster img at) len' got.0)
      ]

  -- `WriteFile` at the end of `WriteCluster`: the images and the length, or what a failure is
  unfoldable pub write_data : ℕ → List ℕ → ℕ → Io File → Image File → List (Image File) → Io File
  write_data offset bytes len failed img rest =
      let (f, ret) = write_file api img.size offset bytes img.refs.store.file in
      if ret == length bytes then some (with_file img f ∷ rest, pos len, []) else failed

  -- the copy of a backing file's cluster, with the new bytes in it
  abbrev pub overlaid : ℕ → List ℕ → List ℕ → List ℕ
  overlaid offset bytes cluster =
      take offset cluster ++ bytes ++ drop (offset + length bytes) cluster

  -- `WriteCluster` into a new cluster: the bytes alone, or with those of the backing file around them
  abbrev pub write_copied : ℕ → ℕ → List ℕ → Image File → Io File → Io File
  write_copied host offset bytes img none = none
  write_copied host offset bytes img (some (rest, negsuc error, cluster)) =
      write_data (host + offset) bytes (length bytes) none img rest
  write_copied host offset bytes img (some (rest, pos zero, cluster)) =
      write_data (host + offset) bytes (length bytes) none img rest
  write_copied host offset bytes img (some (rest, pos (suc read), cluster)) =
      if suc read == cluster_size img
      then write_data host (overlaid offset bytes cluster) (length bytes) none img rest
      else none

  abbrev pub has_backing : List (Image File) → Bool
  has_backing [] = false
  has_backing (img ∷ rest) = true

  -- the new entry of the L2 table
  abbrev pub set_l2_entry : ℕ → ℕ → ℕ → Image File → Image File
  set_l2_entry table i v img =
      with_l2_store img (set_entry api img.size 8 img.l2_entries table i v (l2_store img))

  -- `WriteCluster` where the L2 table has no cluster
  unfoldable pub write_new : ℕ → ℕ → List ℕ → Image File → List (Image File) → Io File
  write_new table at bytes img rest =
      let offset = offset_in_cluster img at in
      let whole = (offset == 0) && (length bytes == cluster_size img) in
      allocate api img >>= λ a.
      let img' : Image File = set_l2_entry table (l2_index img at) (with_copied a.1) a.0 in
      if a.1 == 0
      then some (a.0 ∷ rest, negsuc 0, [])
      else if has_backing rest && not whole
      then write_copied a.1 offset bytes img'
          (read_cluster rest (at - offset) (cluster_size img) true)
      else write_data (a.1 + offset) bytes (length bytes) none img' rest

  -- `WriteCluster` on the entry of the L2 table
  unfoldable pub write_entry : ℕ → ℕ → ℕ → List ℕ → Image File → List (Image File) → Io File
  write_entry entry table at bytes img rest =
      if is_compressed entry
      then none
      else if is_copied entry
      then write_data (host_offset entry + offset_in_cluster img at) bytes (length bytes)
          (some (img ∷ rest, negsuc 0, [])) img rest
      else if host_offset entry == 0
      then write_new table at bytes img rest
      else none

  -- `WriteCluster` of a buffer
  unfoldable pub write_cluster : List (Image File) → ℕ → List ℕ → Io File
  write_cluster [] at buffer = none
  write_cluster (img ∷ rest) at buffer = get_l2_table api true at img >>= λ got. elim got.1 [
    | none ↦ none
    | some table ↦
        write_entry (l2_entry api got.0 table (l2_index img at)) table at
          (take (capped img at (length buffer)) buffer) got.0 rest
  ]

  -- `DiscardCluster` on the entry of the L2 table
  unfoldable pub discard_entry : ℕ → ℕ → ℕ → ℕ → Image File → List (Image File) → Io File
  discard_entry entry table at len img rest =
      if is_compressed entry
      then none
      else if (descriptor entry % 2 == 1) || (host_offset entry == 0)
      then some (img ∷ rest, pos len, [])
      else (free_cluster api img.size (rfb_entries img) (host_offset entry) img.refs >>= λ refs.
          some (
            set_l2_entry table (l2_index img at) 0 (record img { refs = refs }) ∷ rest,
            pos len,
            [],
          ))

  -- `DiscardCluster`
  unfoldable pub discard_cluster : List (Image File) → ℕ → ℕ → Io File
  discard_cluster [] at len = none
  discard_cluster (img ∷ rest) at len =
      let len' = capped img at len in
      get_l2_table api false at img >>= λ got. elim got.1 [
        | none ↦ some (got.0 ∷ rest, pos len', [])
        | some table ↦
            if ltb 0 (offset_in_cluster img at) || ltb len' (cluster_size img)
            then some (got.0 ∷ rest, pos len', [])
            else discard_entry (l2_entry api got.0 table (l2_index img at)) table at len' got.0 rest
      ]
