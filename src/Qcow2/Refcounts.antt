-- ===== src/Qcow2/Refcounts.antt =====
-- The refcounts of the clusters of images/qcow2.cc: `GetRefcountBlock`, `FreeCluster` and
-- `AllocateCluster`. A pointer to a block is its key in the cache, null is `none`. The cluster size
-- is twice the entries of a block; a shift by the cluster bits is a product or a quotient.
use mvisor_x.Base.{
  ℕ, zero, suc, ◌+◌, ◌*◌, ◌/◌, ◌%◌, ◌^◌, Bool, true, false, ◌&&◌, List, Option, none, some, length,
  get_elem?, get_or, set, leb, ltb, ◌==◌, if◌then◌else◌,
}
use mvisor_x.Qcow2.{FileApi, Store}
use mvisor_x.Qcow2.Tables.{new_table, with_entry, put_table, read_table, set_entry, content}

-- the members of `Qcow2Image` that are about refcounts, with `rfb_cache_` and the file
pub record Refs (File : Type 0) : Type 0 where
  pub free_cluster_index : ℕ
  pub refcount_table : List ℕ
  pub refcount_table_dirty : Bool
  pub store : Store File

module _ {File : Type 0} (api : FileApi File) (size n : ℕ) where
  -- `rfb->entries[i]`
  abbrev pub entry_at : ℕ → ℕ → Store File → ℕ
  entry_at offset i s = get_or (content api size 2 n offset s) i 0

  -- `GetRefcountBlock` where no block is there: one in the cluster itself. What it changes through
  -- the pointer after `Put` is in the table that it puts.
  unfoldable pub new_block : ℕ → ℕ → Refs File → Refs File
  new_block cluster_index block_offset r = record r {
    store =
        put_table api size 2 n (with_entry (cluster_index % n) 1 (new_table n block_offset))
          r.store;
    refcount_table = set r.refcount_table (cluster_index / n) block_offset;
    refcount_table_dirty = true;
  }

  abbrev pub block_position : ℕ → ℕ
  block_position cluster_index = (cluster_index * (2 * n)) % 2 ^ 64

  -- the rest of `GetRefcountBlock`, from the entry of the refcount table on
  abbrev pub block_at : Option ℕ → ℕ → Bool → Refs File → Refs File × Option ℕ
  block_at none cluster_index allocate r = (r, none)
  block_at (some block_offset) cluster_index allocate r =
      if block_offset == 0
      then (if allocate
          then (
            new_block cluster_index (block_position cluster_index) r,
            some (block_position cluster_index),
          )
          else (r, none))
      else (
        record r { store = (read_table api size 2 n block_offset r.store).0 },
        some block_offset,
      )

  -- `GetRefcountBlock`; `*rfb_index` is the cluster's index modulo the entries
  unfoldable pub get_refcount_block : ℕ → Bool → Refs File → Refs File × Option ℕ
  get_refcount_block cluster_index allocate r =
      block_at (get_elem? r.refcount_table (cluster_index / n)) cluster_index allocate r

  -- `FreeCluster`; `none` is its panic
  unfoldable pub free_cluster : ℕ → Refs File → Option (Refs File)
  free_cluster start r =
      let cluster_index = start / (2 * n) in
      let got = get_refcount_block cluster_index false r in
      elim got.1 [
        | none ↦ none
        | some offset ↦
            let refcount = (entry_at offset (cluster_index % n) got.0.store + 65535) % 2 ^ 16 in
            some (record got.0 {
              store = set_entry api size 2 n offset (cluster_index % n) refcount got.0.store;
              free_cluster_index =
                  if (refcount == 0) && ltb cluster_index r.free_cluster_index
                  then cluster_index
                  else r.free_cluster_index;
            })
      ]

  -- `free_cluster_index_++`
  abbrev pub next_index : Refs File → Refs File
  next_index r = record r { free_cluster_index = (r.free_cluster_index + 1) % 2 ^ 64 }

  -- the end of `AllocateCluster`: the refcount of a free entry
  unfoldable pub take_entry : ℕ → ℕ → Refs File → Refs File
  take_entry offset i r = record r {
    store = set_entry api size 2 n offset i ((entry_at offset i r.store + 1) % 2 ^ 16) r.store;
  }

  -- the next entry of the loop: in the block, or in the next block
  abbrev pub next_entry : ℕ → ℕ → Refs File → Refs File × Option ℕ × ℕ
  next_entry offset i r =
      let cluster_index = r.free_cluster_index in
      let got = get_refcount_block cluster_index true (next_index r) in
      if leb n (i + 1)
      then (got.0, got.1, cluster_index % n)
      else (next_index r, some offset, i + 1)

  -- the loop of `AllocateCluster`, with fuel: the block, the entry in it, and the cluster's index
  unfoldable pub allocate_loop : ℕ → Refs File → Option ℕ → ℕ → ℕ → Option (Refs File × ℕ)
  allocate_loop zero r rfb i cluster_index = none
  allocate_loop (suc fuel) r none i cluster_index = some (r, 0)
  allocate_loop (suc fuel) r (some offset) i cluster_index =
      let next : Refs File × Option ℕ × ℕ = next_entry offset i r in
      let rest = allocate_loop fuel next.0 next.1 next.2 r.free_cluster_index in
      if entry_at offset i r.store == 0
      then some (take_entry offset i r, block_position cluster_index)
      else rest

  -- `AllocateCluster`: the state, and the cluster's position or 0
  unfoldable pub allocate_cluster : Refs File → Option (Refs File × ℕ)
  allocate_cluster r =
      let cluster_index = r.free_cluster_index in
      let got = get_refcount_block cluster_index true (next_index r) in
      allocate_loop (suc (length r.refcount_table * n)) got.0 got.1 (cluster_index % n)
        cluster_index

  -- The refcount of a cluster, wherever its block is: 0 where there is none.
  abbrev pub refcount_in : Option ℕ → ℕ → Store File → ℕ
  refcount_in none i s = 0
  refcount_in (some offset) i s = if offset == 0 then 0 else entry_at offset i s

  unfoldable pub refcount : ℕ → Refs File → ℕ
  refcount cluster_index r =
      refcount_in (get_elem? r.refcount_table (cluster_index / n)) (cluster_index % n) r.store
