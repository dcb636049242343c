-- ===== src/Qcow2/Image.antt =====
-- A `Qcow2Image` of images/qcow2.cc with its tables, and `GetL2Table`. A missing result stands for a
-- panic, a failed assertion or an access out of the bounds of a vector.
use mvisor_x.Base.{
  ℕ, ◌+◌, ◌-◌, ◌*◌, ◌/◌, ◌%◌, ◌^◌, Bool, true, List, Option, none, some, get_elem?, get_or, set,
  ltb, ◌==◌, if◌then◌else◌, ◌>>=◌,
}
use mvisor_x.Lru.{LruCache}
use mvisor_x.Qcow2.{FileApi, Table, Store}
use mvisor_x.Qcow2.Tables.{new_table, put_table, read_table, content}
use mvisor_x.Qcow2.Refcounts.{Refs, allocate_cluster}

-- `Qcow2Image`: the header's `size`, `cluster_bits` and the offsets of two tables, and whether its
-- compression type is zstd; the members of the L1 table, `l2_cache_`, `cluster_cache_`,
-- `compressed_`, and those of the refcounts
pub record Image (File : Type 0) : Type 0 where
  pub size : ℕ
  pub cluster_bits : ℕ
  pub l2_entries : ℕ
  pub is_zstd : Bool
  pub readonly : Bool
  pub l1_table_offset : ℕ
  pub refcount_table_offset : ℕ
  pub l1_table : List ℕ
  pub l1_table_dirty : Bool
  pub l2_cache : LruCache Table
  pub cluster_cache : LruCache (List ℕ)
  pub compressed : List ℕ
  pub refs : Refs File

-- QCOW2_OFLAG_COPIED, and an entry without or with it; QCOW2_OFLAG_COMPRESSED
abbrev pub is_copied : ℕ → Bool
is_copied entry = entry / 2 ^ 63 % 2 == 1

abbrev pub without_copied : ℕ → ℕ
without_copied entry = entry % 2 ^ 63

abbrev pub with_copied : ℕ → ℕ
with_copied offset = 2 ^ 63 + offset % 2 ^ 63

abbrev pub is_compressed : ℕ → Bool
is_compressed entry = entry / 2 ^ 62 % 2 == 1

-- QCOW2_DESCRIPTOR_MASK and QCOW2_STANDARD_OFFSET_MASK
abbrev pub descriptor : ℕ → ℕ
descriptor entry = entry % 2 ^ 62

abbrev pub host_offset : ℕ → ℕ
host_offset entry = descriptor entry / 512 % 2 ^ 47 * 512

module _ {File : Type 0} where
  -- `cluster_size_`, `rfb_entries_`
  abbrev pub cluster_size : Image File → ℕ
  cluster_size img = 8 * img.l2_entries

  abbrev pub rfb_entries : Image File → ℕ
  rfb_entries img = 4 * img.l2_entries

  -- what `GetL2Table` computes from a position: the offset in the cluster, the length that is left in
  -- the cluster, and the places in the two tables
  abbrev pub offset_in_cluster : Image File → ℕ → ℕ
  offset_in_cluster img pos = pos % cluster_size img

  unfoldable pub capped : Image File → ℕ → ℕ → ℕ
  capped img pos len =
      let left = cluster_size img - offset_in_cluster img pos in if ltb left len then left else len

  abbrev pub l1_index : Image File → ℕ → ℕ
  l1_index img pos = pos / cluster_size img / img.l2_entries

  abbrev pub l2_index : Image File → ℕ → ℕ
  l2_index img pos = pos / cluster_size img % img.l2_entries

  -- the L2 tables with the file, and an image with them changed
  abbrev pub l2_store : Image File → Store File
  l2_store img = record { cache = img.l2_cache; file = img.refs.store.file }

  abbrev pub with_file : Image File → File → Image File
  with_file img f = record img {
    refs = record img.refs { store = record img.refs.store { file = f } };
  }

  abbrev pub with_l2_store : Image File → Store File → Image File
  with_l2_store img s = record (with_file img s.file) { l2_cache = s.cache }

module _ {File : Type 0} (api : FileApi File) where
  -- `l2_table->entries[i]`
  abbrev pub l2_entry : Image File → ℕ → ℕ → ℕ
  l2_entry img offset i = get_or (content api img.size 8 img.l2_entries offset (l2_store img)) i 0

  -- `AllocateCluster` on the image
  abbrev pub allocate : Image File → Option (Image File × ℕ)
  allocate img = allocate_cluster api img.size (rfb_entries img) img.refs >>= λ r.
      some (record img { refs = r.0 }, r.1)

  -- a new L2 table, zeroed and dirty, at a position that was allocated
  unfoldable pub add_l2_table : ℕ → ℕ → Image File → Image File
  add_l2_table l1 offset img =
      let table : Table = record (new_table img.l2_entries offset) { dirty = true } in
      record (with_l2_store img (put_table api img.size 8 img.l2_entries table (l2_store img))) {
        l1_table = set img.l1_table l1 (with_copied offset);
        l1_table_dirty = true;
      }

  unfoldable pub allocate_l2_table : ℕ → Image File → Option (Image File × Option ℕ)
  allocate_l2_table l1 img =
      allocate img >>= λ r. if r.1 == 0 then none else some (add_l2_table l1 r.1 r.0, some r.1)

  -- `ReadL2Table`
  abbrev pub read_l2_table : ℕ → Image File → Image File
  read_l2_table offset img =
      with_l2_store img (read_table api img.size 8 img.l2_entries offset (l2_store img)).0

  -- `GetL2Table`: the table's offset, or none for a null pointer
  unfoldable pub get_l2_table : Bool → ℕ → Image File → Option (Image File × Option ℕ)
  get_l2_table is_write pos img = get_elem? img.l1_table (l1_index img pos) >>= λ entry.
      if is_copied entry
      then (if without_copied entry == 0
          then none
          else some (read_l2_table (without_copied entry) img, some (without_copied entry)))
      else if is_write
      then (if entry == 0 then allocate_l2_table (l1_index img pos) img else none)
      else some (img, none)
