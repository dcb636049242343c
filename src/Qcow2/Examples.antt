-- ===== src/Qcow2/Examples.antt =====
-- Tests of the model of images/qcow2.cc, on a disk with clusters of 8 bytes, and on an image with
-- clusters of 512.
use mvisor_x.Base.{
  ℕ, zero, suc, ◌+◌, ◌*◌, ◌/◌, ◌≤◌, ◌≡◌, ◌≢◌, refl, sym, ap, ◌∙◌, true, false, [], ◌∷◌, Option,
  none, some, arith, get_elem?, ◌==◌, if◌then◌else◌, some_inj,
}
use mvisor_x.StdMap.{find, insert}
use mvisor_x.Lru.{new_cache, get, put, contains, push_entry}
use mvisor_x.Lru.Evict.{change}
use mvisor_x.Lru.Invariant.{new_cache-IsValid}
use mvisor_x.Qcow2.{Table, Store, read_file}
use mvisor_x.Qcow2.Words.{of_be, of_bytes}
use mvisor_x.Qcow2.Tables.{write_back, put_table, read_table, set_entry, content}
use mvisor_x.Qcow2.Coherent.{IsCoherent}
use mvisor_x.Qcow2.Refine.{read_table-content}
use mvisor_x.Qcow2.Refcounts.{
  Refs, get_refcount_block, free_cluster, take_entry, allocate_loop, allocate_cluster, refcount,
}
use mvisor_x.Qcow2.Sound.{IsSound}
use mvisor_x.Qcow2.Allocate.{allocate_cluster-total, allocate_cluster-takes_free}
use mvisor_x.Qcow2.Reuse.{allocate_cluster-free_cluster}
use mvisor_x.Qcow2.Disk.{Disk, disk, disk-IsFile, pread_bytes}

-- a refcount block at 8, for the clusters 0 to 3, of which the last is free
abbrev small : Disk
small i = if i == 9 then 1 else if i == 11 then 1 else if i == 13 then 1 else 0

abbrev refs : Refs Disk
refs = record {
  free_cluster_index = 3;
  refcount_table = 8 ∷ 0 ∷ [];
  refcount_table_dirty = false;
  store = record { cache = new_cache 2 true; file = small };
}

refcounts : (refcount disk 1000 4 2 refs ≡ 1) × (refcount disk 1000 4 3 refs ≡ 0)
unfolding refcount read_file of_bytes of_be find new_cache pread_bytes
refcounts = (refl, refl)

empty-IsCoherent :
    (w n : ℕ)
    → IsCoherent disk disk-IsFile 1000 w n (record { cache = new_cache 2 true; file = small })
unfolding new_cache find
empty-IsCoherent w n = record {
  valid = new_cache-IsValid 2 true;
  room = omega arith;
  reports = refl;
  tables = λ o id t e. absurd (cc);
}

-- the one block
table_case : (i o : ℕ) → get_elem? (8 ∷ 0 ∷ []) i ≡ some o → o ≢ 0 → (i ≡ 0) × (o ≡ 8)
table_case zero o e ne = (refl, sym (some_inj e))
table_case (suc zero) o e ne = absurd (ne (sym (some_inj e)))
table_case (suc (suc i)) o e ne = absurd (cc)

in_use : (refcount disk 1000 4 1 refs ≡ 1) × (refcount disk 1000 4 0 refs ≡ 1)
unfolding refcount read_file of_bytes of_be find new_cache pread_bytes
in_use = (refl, refl)

refs-IsSound : IsSound disk disk-IsFile 1000 4 refs
unfolding new_cache find
refs-IsSound = record {
  coherent = empty-IsCoherent 2 4;
  aligned = λ i o e ne. (1, (table_case i o e ne).1);
  inside = λ i o e ne. rw (table_case i o e ne).1 (omega arith);
  distinct = λ i j o e e' ne. (table_case i o e ne).0 ∙ sym (table_case j o e' ne).0;
  owned = λ i o e ne z.
      let at = ap (λ q. refcount disk 1000 4 (q / 8) refs) (table_case i o e ne).1 in
      absurd (omega (arith, at, in_use.0, z));
  header = λ z. absurd (omega (arith, in_use.1, z));
  keys = λ o id t e. absurd (cc);
}

abbrev states : Option (Refs Disk × ℕ) → Refs Disk
states none = refs
states (some (r, p)) = r

abbrev freed_state : Option (Refs Disk) → Refs Disk
freed_state none = refs
freed_state (some r) = r

abbrev given : Refs Disk
given = states (allocate_cluster disk 1000 4 refs)

given_lem : allocate_cluster disk 1000 4 refs ≡ some (given, 24)
unfolding allocate_cluster allocate_loop get_refcount_block take_entry refcount read_file of_bytes
    of_be find insert new_cache pread_bytes read_table put_table set_entry change write_back get put
    contains push_entry
given_lem = refl

freed_lem : free_cluster disk 1000 4 16 refs ≡ some (freed_state (free_cluster disk 1000 4 16 refs))
unfolding free_cluster get_refcount_block refcount read_file of_bytes of_be find insert new_cache
    pread_bytes read_table put_table set_entry change write_back get put contains push_entry
freed_lem = refl

allocate_cluster-takes_free_example :
    IsSound disk disk-IsFile 1000 4 given
    × (refcount disk 1000 4 2 given ≡ refcount disk 1000 4 2 refs)
    × ((k : ℕ) × (24 ≡ k * 8)
        × (3 ≤ k)
        × (refcount disk 1000 4 k refs ≡ 0)
        × (refcount disk 1000 4 k given ≡ 1)
        × (given.free_cluster_index ≡ k + 1))
allocate_cluster-takes_free_example =
    allocate_cluster-takes_free disk disk-IsFile 1000 4 (omega arith) refs given 24 2 refs-IsSound
      (omega arith) given_lem (λ e. absurd (omega (arith, e))) (omega arith)
      (λ e. absurd (omega (arith, e, refcounts.0)))

allocate_cluster-total_example :
    (r' : Refs Disk) × (p : ℕ) × (allocate_cluster disk 1000 4 refs ≡ some (r', p))
allocate_cluster-total_example =
    allocate_cluster-total disk disk-IsFile 1000 4 (omega arith) refs (omega arith)

allocate_cluster-free_cluster_example :
    let r' = freed_state (free_cluster disk 1000 4 16 refs) in
    (r'' : Refs Disk) × (allocate_cluster disk 1000 4 r' ≡ some (r'', 16))
allocate_cluster-free_cluster_example =
    allocate_cluster-free_cluster disk disk-IsFile 1000 4 (omega arith) 2 refs
      (freed_state (free_cluster disk 1000 4 16 refs)) refs-IsSound (omega arith) refcounts.0
      (λ e. absurd (omega (arith, e)))
      (λ i p e ne z.
        let at = ap (λ q. q / 8) (table_case i p e ne).1 in absurd (omega (arith, at, z)))
      (omega arith) freed_lem

-- a read of the block, and its last entry set
abbrev after_read : Store Disk
after_read = (read_table disk 1000 2 4 8 refs.store).0

read_table-content_example :
    ((read_table disk 1000 2 4 8 refs.store).1.entries ≡ content disk 1000 2 4 8 refs.store)
    × (content disk 1000 2 4 16 after_read ≡ content disk 1000 2 4 16 refs.store)
    × IsCoherent disk disk-IsFile 1000 2 4 after_read
read_table-content_example =
    read_table-content disk disk-IsFile 1000 2 4 8 16 refs.store (empty-IsCoherent 2 4) (1, refl)
      (omega arith) (2, refl)

cached_block : Table
cached_block = record { offset_in_file = 8; dirty = false; entries = 1 ∷ 1 ∷ 1 ∷ 0 ∷ [] }

abbrev after_set : Store Disk
after_set = set_entry disk 1000 2 4 8 3 7 after_read
