-- ===== src/Qcow2/Tables.antt =====
-- The caches of tables of images/qcow2.cc, `l2_cache_` and `rfb_cache_`: a table is read through its
-- cache, changed in place, and written to the file when the cache gives it up. A pointer to a
-- table is its key in the cache.
use mvisor_x.Base.{
  ℕ, ◌*◌, true, false, List, [], ◌∷◌, Option, none, some, set, replicate, if◌then◌else◌,
}
use mvisor_x.StdMap.{find}
use mvisor_x.Lru.{get, put}
use mvisor_x.Lru.Evict.{change}
use mvisor_x.Qcow2.{FileApi, Table, Store, read_file, write_file}
use mvisor_x.Qcow2.Words.{to_bytes, of_bytes}

-- `NewL2Table` and `NewRefcountBlock`, for tables of n entries
abbrev pub new_table : ℕ → ℕ → Table
new_table n offset = record { offset_in_file = offset; dirty = false; entries = replicate n 0 }

-- an entry set and the table marked as dirty
abbrev pub with_entry : ℕ → ℕ → Table → Table
with_entry i v t = record t { dirty = true; entries = set t.entries i v }

-- the entries of a cached table, or else those in the file
abbrev pub held : Option (ℕ × Table) → List ℕ → List ℕ
held none es = es
held (some (id, t)) es = t.entries

-- An image whose header has this `size`, and its tables of n words of w bytes.
module _ {File : Type 0} (api : FileApi File) (size w n : ℕ) where
  -- `WriteL2Table` and `WriteRefcountBlock`, of a table that is dirty
  abbrev pub write_dirty : Table → File → File
  write_dirty t f =
      if t.dirty then (write_file api size t.offset_in_file (to_bytes w t.entries) f).0 else f

  -- the calls of a cache's callback, for the tables that it gives up
  unfoldable pub write_back : List (ℕ × Table) → File → File
  write_back [] f = f
  write_back ((offset, t) ∷ calls) f = write_back calls (write_dirty t f)

  -- `FlushL2Tables` and `FlushRefcountBlocks`: the loop over the map, and what it makes of the cache
  unfoldable pub flush_pairs : List (ℕ × (ℕ × Table)) → File → List (ℕ × (ℕ × Table)) × File
  flush_pairs [] f = ([], f)
  flush_pairs ((offset, (id, t)) ∷ pairs) f =
      let (rest, f') = flush_pairs pairs (write_dirty t f) in
      ((offset, (id, record t { dirty = false })) ∷ rest, f')

  unfoldable pub flush_tables : Store File → Store File
  flush_tables s =
      let (pairs, f) = flush_pairs s.cache.pairs s.file in
      record { cache = record s.cache { pairs = pairs }; file = f }

  -- the table in the file
  abbrev pub file_table : ℕ → File → List ℕ
  file_table offset f = of_bytes w n (read_file api offset (w * n) f)

  -- `Put` on the cache
  unfoldable pub put_table : Table → Store File → Store File
  put_table t s =
      let (cache, _, calls) = put t.offset_in_file t s.cache in
      record { cache = cache; file = write_back calls s.file }

  -- a `NewL2Table` or `NewRefcountBlock` with `ReadFile` into its entries
  abbrev pub loaded_table : ℕ → File → Table
  loaded_table offset f = record (new_table n offset) { entries = file_table offset f }

  -- `ReadL2Table`, and the end of `GetRefcountBlock`
  unfoldable pub read_table : ℕ → Store File → Store File × Table
  read_table offset s =
      let found : Store File = record s { cache = (get offset s.cache).0 } in
      elim (get offset s.cache).1 [
        | some t ↦ (found, t)
        | none ↦ (put_table (loaded_table offset s.file) found, loaded_table offset s.file)
      ]

  -- `table->entries[i] = v; table->dirty = true`
  unfoldable pub set_entry : ℕ → ℕ → ℕ → Store File → Store File
  set_entry offset i v s = record s { cache = change offset (with_entry i v) s.cache }

  -- What a table holds, cached or not: the store as one map from offsets to entries.
  abbrev pub content : ℕ → Store File → List ℕ
  content offset s = held (find offset s.cache.pairs) (file_table offset s.file)
