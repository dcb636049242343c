-- ===== src/Qcow2/Requests.antt =====
-- `BlockIo`, `FlushAll` and `HandleIoRequest` of images/qcow2.cc. `fsync` is a parameter, from the file
-- to its result.
use mvisor_x.Base.{
  ℕ, zero, suc, ◌+◌, ◌-◌, false, List, [], ◌∷◌, ◌++◌, Option, none, some, ◌⊎◌, length, take, drop,
  leb, ltb, if◌then◌else◌, ℤ, pos, negsuc,
}
use mvisor_x.Qcow2.{FileApi, write_file}
use mvisor_x.Qcow2.Words.{to_bytes}
use mvisor_x.Qcow2.Tables.{flush_tables}
use mvisor_x.Qcow2.Image.{Image, rfb_entries, l2_store, with_file, with_l2_store}
use mvisor_x.Qcow2.Clusters.{Io, read_cluster, write_cluster, discard_cluster}

-- `ImageIoType` of include/disk_image.h
pub data IoType : Type 0 where
  information : IoType
  read : IoType
  write : IoType
  flush : IoType
  discard : IoType
  write_zeros : IoType

-- `ImageIoRequest`; the buffers of its vector with what they hold
pub record IoRequest : Type 0 where
  pub type : IoType
  pub position : ℕ
  pub length_of : ℕ
  pub vector : List (List ℕ)

-- `image_header_.size`
abbrev pub image_size : {File : Type 0} → List (Image File) → ℕ
image_size [] = 0
image_size (img ∷ rest) = img.size

module _ {File : Type 0} (api : FileApi File) (decompress : List ℕ → List ℕ ⊎ ℕ) where
  -- the switch of `BlockIo`
  unfoldable pub cluster_io : IoType → List (Image File) → ℕ → List ℕ → ℕ → Io File
  cluster_io read images at buffer len = read_cluster api decompress images at len false
  cluster_io write images at buffer len = write_cluster api decompress images at (take len buffer)
  cluster_io discard images at buffer len = discard_cluster api decompress images at len
  cluster_io write_zeros images at buffer len = discard_cluster api decompress images at len
  cluster_io information images at buffer len = none
  cluster_io flush images at buffer len = none

  -- the bytes of one round before those of the rounds after it
  abbrev pub after_bytes : List ℕ → Option (Io File) → Option (Io File)
  after_bytes bytes none = none
  after_bytes bytes (some none) = some none
  after_bytes bytes (some (some (images, ret, more))) = some (some (images, ret, bytes ++ more))

  -- the end of a round: what it returns if that is not above 0, or the rounds after it. A round that
  -- has no result, as it panics or as its allocation is out of fuel, is the last one, and the loop has
  -- no result then: `some none`, apart from `none` for a loop that is out of rounds.
  abbrev pub go_on : (List (Image File) → ℕ → Option (Io File)) → Io File → Option (Io File)
  go_on rest none = some none
  go_on rest (some (images, negsuc error, bytes)) = some (some (images, negsuc error, bytes))
  go_on rest (some (images, pos zero, bytes)) = some (some (images, pos zero, bytes))
  go_on rest (some (images, pos (suc k), bytes)) = after_bytes bytes (rest images (suc k))

  -- `BlockIo` with fuel; no result is a loop that has not ended
  unfoldable pub block_io : ℕ → IoType → List (Image File) → ℕ → List ℕ → ℕ → ℕ → Option (Io File)
  block_io zero type images at buffer len offset = none
  block_io (suc fuel) type images at buffer len offset =
      let rest : List (Image File) → ℕ → Option (Io File) =
        λ images' k. block_io fuel type images' (at + k) (drop k buffer) len (offset + k) in
      if ltb offset len
      then (if leb (image_size images) at
          then some (some (images, pos offset, []))
          else go_on rest (cluster_io type images at buffer (len - offset)))
      else some (some (images, pos offset, []))

  -- the loop of `HandleIoRequest` over the request's vector
  unfoldable pub io_vector : IoType → List (Image File) → ℕ → ℕ → List (List ℕ) → Option (Io File)
  io_vector type images at total [] = some (some (images, pos total, []))
  io_vector type images at total (buffer ∷ vector) =
      let rest : List (Image File) → ℕ → Option (Io File) =
        λ images' k. io_vector type images' (at + k) (total + k) vector in
      elim (block_io (suc (length buffer)) type images at buffer (length buffer) 0) [
        | none ↦ none
        | some io ↦ go_on rest io
      ]

  -- `WriteL1Table` and `WriteRefcountTable`, where they are dirty
  abbrev pub write_l1_table : Image File → Image File
  write_l1_table img =
      if img.l1_table_dirty
      then record (with_file img
          (write_file api img.size img.l1_table_offset (to_bytes 8 img.l1_table)
            img.refs.store.file).0) { l1_table_dirty = false }
      else img

  abbrev pub write_refcount_table : Image File → Image File
  write_refcount_table img =
      let f =
        (write_file api img.size img.refcount_table_offset (to_bytes 8 img.refs.refcount_table)
          img.refs.store.file).0 in
      if img.refs.refcount_table_dirty
      then record img {
        refs = record img.refs {
          store = record img.refs.store { file = f };
          refcount_table_dirty = false;
        };
      }
      else img

  -- `FlushAll` before its fsync
  unfoldable pub flush_image : Image File → Image File
  flush_image img =
      let l2 : Image File =
        with_l2_store img (flush_tables api img.size 8 img.l2_entries (l2_store img)) in
      let refcounts : Image File = record l2 {
        refs = record l2.refs {
          store = flush_tables api img.size 2 (rfb_entries img) l2.refs.store;
        };
      } in
      write_refcount_table (write_l1_table refcounts)

  unfoldable pub flush_all : (File → ℤ) → List (Image File) → Io File
  flush_all fsync [] = none
  flush_all fsync (img ∷ rest) =
      if img.readonly
      then some (img ∷ rest, pos 0, [])
      else some (flush_image img ∷ rest, fsync (flush_image img).refs.store.file, [])

  -- `HandleIoRequest`
  unfoldable pub handle_io_request : (File → ℤ) → IoRequest → List (Image File) → Option (Io File)
  handle_io_request fsync request images = elim request.type [
    | read ↦ io_vector read images request.position 0 request.vector
    | write ↦ io_vector write images request.position 0 request.vector
    | discard ↦
        block_io (suc request.length_of) discard images request.position [] request.length_of 0
    | write_zeros ↦
        block_io (suc request.length_of) write_zeros images request.position [] request.length_of 0
    | flush ↦ some (flush_all fsync images)
    | information ↦ some (some (images, negsuc 0, []))
  ]
