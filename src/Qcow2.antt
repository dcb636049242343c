-- ===== src/Qcow2.antt =====
-- images/qcow2.cc and include/qcow2.h, the qcow2 disk image: the state of a `Qcow2Image` and its
-- file. The file is the kernel's: `pread` and `pwrite` are parameters. An entry of a table is the
-- number that be64toh or be16toh makes of it.
pub mod Words
pub mod Tables
pub mod Evicted
pub mod Coherent
pub mod Refine
pub mod Entries
pub mod Flush
pub mod Refcounts
pub mod Cells
pub mod Sound
pub mod Blocks
pub mod NewBlock
pub mod Search
pub mod Take
pub mod Allocate
pub mod Free
pub mod Reuse
pub mod Image
pub mod Clusters
pub mod Requests
pub mod Bounds
pub mod Loop
pub mod ReadBack
mod Disk
mod Examples
mod ImageExamples
use mvisor_x.Base.{
  ℕ, ◌+◌, ◌*◌, ◌^◌, ◌≤◌, ◌≡◌, ◌⊎◌, Bool, List, ◌++◌, replicate, take, length, leb, if◌then◌else◌,
}
use mvisor_x.Lru.{LruCache}
use mvisor_x.Qcow2.Words.{AllBelow}

-- pread and pwrite on the file descriptor `fd_`, at an offset. A read may return fewer bytes. A write is
-- one that writes all its bytes, and gives the file after it.
pub record FileApi (File : Type 0) : Type 0 where
  pub pread : ℕ → ℕ → File → List ℕ
  pub pwrite : ℕ → List ℕ → File → File

-- `L2Table`, and `RefcountBlock`, which has the same members
pub record Table : Type 0 where
  pub offset_in_file : ℕ
  pub dirty : Bool
  pub entries : List ℕ

-- a cache of tables with the file behind it
pub record Store (File : Type 0) : Type 0 where
  pub cache : LruCache Table
  pub file : File

module _ {File : Type 0} (api : FileApi File) where
  -- `ReadFile` into a buffer of zeros, as `NewL2Table` and `NewRefcountBlock` leave it
  unfoldable pub read_file : ℕ → ℕ → File → List ℕ
  read_file offset n f = take n (api.pread offset n f ++ replicate n 0)

  -- `WriteFile` of a file with the header's `size`: the file and the result. Where pwrite fails or writes
  -- less, the MV_ASSERT on its result ends the program; these runs are not modelled, here and in all that
  -- writes to the file, so what holds of the model holds of the runs in which each pwrite wrote its bytes.
  unfoldable pub write_file : ℕ → ℕ → List ℕ → File → File × ℕ
  write_file size offset bytes f =
      if leb size offset then (f, 0) else (api.pwrite offset bytes f, length bytes)

  -- What the kernel promises of a regular file: a range reads as it was written last, and bytes
  -- that were never written read as zero or not at all. What it reads are bytes.
  pub record IsFile : Type 0 where
    pub read_back :
        (o : ℕ) (bs : List ℕ) (f : File)
        → AllBelow 256 bs
        → api.pread o (length bs) (api.pwrite o bs f) ≡ bs
    pub elsewhere :
        (o p n : ℕ) (bs : List ℕ) (f : File)
        → p + n ≤ o ⊎ o + length bs ≤ p
        → read_file p n (api.pwrite o bs f) ≡ read_file p n f
    pub bytes : (o n : ℕ) (f : File) → AllBelow 256 (api.pread o n f)
