-- ===== src/Qcow2/ImageExamples.antt =====
-- Tests of the images of images/qcow2.cc, with clusters of 512 bytes.
use mvisor_x.Base.{
  ℕ, ◌+◌, ◌^◌, ◌≤◌, ◌≡◌, ◌⊎◌, inr, refl, true, false, List, [], ◌∷◌, Option, none, some, arith,
  ◌==◌, if◌then◌else◌, pos,
}
use mvisor_x.StdMap.{find, insert}
use mvisor_x.Lru.{new_cache, get, put, contains, push_entry}
use mvisor_x.Lru.Invariant.{new_cache-IsValid}
use mvisor_x.Qcow2.{read_file, write_file}
use mvisor_x.Qcow2.Words.{of_be, of_bytes}
use mvisor_x.Qcow2.Tables.{write_back, put_table, read_table}
use mvisor_x.Qcow2.Coherent.{IsCoherent}
use mvisor_x.Qcow2.Image.{Image, capped, get_l2_table, l2_store}
use mvisor_x.Qcow2.Clusters.{Io, read_cluster, write_data, write_entry, write_cluster}
use mvisor_x.Qcow2.Requests.{write, cluster_io, block_io}
use mvisor_x.Qcow2.ReadBack.{read_cluster-write_cluster}
use mvisor_x.Qcow2.Loop.{block_io-total, block_io-le}
use mvisor_x.Qcow2.Disk.{Disk, disk, disk-IsFile, pread_bytes}

-- an L2 table at 512, whose first entry is the cluster at 1024
abbrev bytes : Disk
bytes i = if i == 512 then 128 else if i == 518 then 4 else 0

abbrev image : Image Disk
image = record {
  size = 10000;
  cluster_bits = 9;
  l2_entries = 64;
  is_zstd = false;
  readonly = false;
  l1_table_offset = 2048;
  refcount_table_offset = 3072;
  l1_table = (2 ^ 63 + 512) ∷ [];
  l1_table_dirty = false;
  l2_cache = new_cache 2 true;
  cluster_cache = new_cache 2 true;
  compressed = [];
  refs = record {
    free_cluster_index = 0;
    refcount_table = [];
    refcount_table_dirty = false;
    store = record { cache = new_cache 2 true; file = bytes };
  };
}

-- no cluster of the image is compressed
abbrev no_zstd : List ℕ → List ℕ ⊎ ℕ
no_zstd frame = inr 0

image-IsCoherent : IsCoherent disk disk-IsFile 10000 8 64 (l2_store image)
unfolding new_cache find
image-IsCoherent = record {
  valid = new_cache-IsValid 2 true;
  room = omega arith;
  reports = refl;
  tables = λ o id t e. absurd (cc);
}

read_cluster-write_cluster_example :
    (after reread : List (Image Disk)) × (write_cluster disk no_zstd (image ∷ []) 3 (7 ∷ 8 ∷ [])
      ≡ some (after, pos 2, []))
    × (read_cluster disk no_zstd after 3 2 false ≡ some (reread, pos 2, 7 ∷ 8 ∷ []))
unfolding read_file of_bytes of_be find new_cache pread_bytes
read_cluster-write_cluster_example =
    read_cluster-write_cluster disk disk-IsFile no_zstd image [] 3 (2 ^ 63 + 512) (7 ∷ 8 ∷ [])
      image-IsCoherent refl refl (λ e. absurd (omega (arith, e))) (1, refl) (omega arith)
      (omega arith, (omega arith, tt)) refl refl refl (omega arith) (omega arith)

block_io-total_example :
    (x : Io Disk) × (block_io disk no_zstd 3 write (image ∷ []) 3 (7 ∷ 8 ∷ []) 2 0 ≡ some x)
block_io-total_example =
    block_io-total disk no_zstd 3 write (image ∷ []) 3 (7 ∷ 8 ∷ []) 2 0 (omega arith) (omega arith)

abbrev images_of : Option (Io Disk) → List (Image Disk)
images_of none = []
images_of (some none) = []
images_of (some (some (images, ret, b))) = images

written_lem :
    let r = block_io disk no_zstd 3 write (image ∷ []) 3 (7 ∷ 8 ∷ []) 2 0 in
    r ≡ some (some (images_of r, pos 2, []))
unfolding block_io cluster_io write_cluster write_entry write_data write_file capped get_l2_table
    read_table put_table write_back read_file of_bytes of_be find insert new_cache get put contains
    push_entry pread_bytes
written_lem = refl

block_io-le_example : 2 ≤ 2
block_io-le_example =
    block_io-le disk no_zstd 3 write (image ∷ [])
      (images_of (block_io disk no_zstd 3 write (image ∷ []) 3 (7 ∷ 8 ∷ []) 2 0)) 3 (7 ∷ 8 ∷ []) []
      2 2 written_lem
