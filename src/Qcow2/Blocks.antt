-- ===== src/Qcow2/Blocks.antt =====
-- `GetRefcountBlock` of images/qcow2.cc on the refcounts: a block that is there, and a new one.
use mvisor_x.Base.{ℕ, ◌*◌, ◌/◌, ◌%◌, ◌≡◌, ◌≢◌, refl, ap, ◌∙◌, some, get_elem?, get_or, ℕ_discrete}
use mvisor_x.StdMap.{find}
use mvisor_x.Qcow2.{FileApi, IsFile, Table}
use mvisor_x.Qcow2.Tables.{read_table}
use mvisor_x.Qcow2.Refine.{read_table-content, read_table-cached, read_table-keys}
use mvisor_x.Qcow2.Refcounts.{Refs, refcount}
use mvisor_x.Qcow2.Sound.{IsSound, refcount-same_blocks}

module _ {File : Type 0} (api : FileApi File) (laws : IsFile api) (size n : ℕ) where
  -- a block that is there
  module _ (i o : ℕ) (r : Refs File) (h : IsSound api laws size n r)
      (e : get_elem? r.refcount_table i ≡ some o) (ne : o ≢ 0) where
    abbrev pub block_read : Refs File
    block_read = record r { store = (read_table api size 2 n o r.store).0 }

    pub refcount-block_read : (j : ℕ) → refcount api size n j block_read ≡ refcount api size n j r
    refcount-block_read j = refcount-same_blocks api laws size n j r block_read refl (λ p e' ne'.
        ap (λ es. get_or es (j % n) 0)
          (read_table-content api laws size 2 n o p r.store h.coherent (h.aligned i o e ne)
            (h.inside i o e ne) (h.aligned (j / n) p e' ne')).1)

    pub block_read-IsSound : IsSound api laws size n block_read
    block_read-IsSound = record {
      coherent =
          (read_table-content api laws size 2 n o o r.store h.coherent (h.aligned i o e ne)
            (h.inside i o e ne) (h.aligned i o e ne)).2;
      aligned = h.aligned;
      inside = h.inside;
      distinct = h.distinct;
      owned = λ j p e' ne'. rw (refcount-block_read (p / (2 * n))) (h.owned j p e' ne');
      header = rw (refcount-block_read 0) h.header;
      keys = λ p id u found. elim (ℕ_discrete o p) [
        | yes same ↦ (λ z. ne (same ∙ z), i, e ∙ ap some same)
        | no other ↦ h.keys p id u (
            read_table-keys api laws size 2 n o p id u r.store h.coherent (h.aligned i o e ne)
              (h.inside i o e ne) other found)
      ];
    }

    pub block_read-cached :
        (id : ℕ) × (t : Table) × (find o block_read.store.cache.pairs ≡ some (id, t))
    block_read-cached =
        read_table-cached api laws size 2 n o r.store h.coherent (h.aligned i o e ne)
          (h.inside i o e ne)
