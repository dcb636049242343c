-- ===== src/Qcow2/ReadBack.antt =====
-- `WriteCluster` of images/qcow2.cc into a cluster that the image has, and `ReadCluster` after it.
use mvisor_x.Base.{
  ℕ, ◌+◌, ◌-◌, ◌*◌, ◌%◌, ◌≤◌, ◌<◌, ◌≡◌, ◌≢◌, refl, sym, ap, ◌∙◌, subst, Bool, true, false, List, [],
  ◌∷◌, ◌++◌, some, ◌⊎◌, arith, length, take, replicate, get_elem?, get_or, leb, ◌==◌, if_ne,
  if_same, pos, negsuc,
}
use mvisor_x.StdMap.{find}
use mvisor_x.Qcow2.{FileApi, IsFile, Table, read_file, write_file}
use mvisor_x.Qcow2.Words.{AllBelow, take-append_left}
use mvisor_x.Qcow2.Tables.{held, content, file_table}
use mvisor_x.Qcow2.Evicted.{IsAligned}
use mvisor_x.Qcow2.Coherent.{IsCoherent}
use mvisor_x.Qcow2.Refine.{read_table-content, read_table-cached, read_table-hit, got-content}
use mvisor_x.Qcow2.Image.{
  Image, cluster_size, offset_in_cluster, capped, l1_index, l2_index, l2_store, with_file, l2_entry,
  read_l2_table, get_l2_table, is_copied, without_copied, is_compressed, descriptor, host_offset,
}
use mvisor_x.Qcow2.Clusters.{
  Io, beside, read_entry, read_cluster, write_data, write_entry, write_cluster,
}

take-all : (xs : List ℕ) → take (length xs) xs ≡ xs
take-all [] = refl
take-all (x ∷ xs) = ap (λ r. x ∷ r) (take-all xs)

pub copied-nonzero : (entry : ℕ) → is_copied entry ≡ true → entry ≢ 0
copied-nonzero entry h z =
    let bad : is_copied 0 ≡ true = subst (λ e. is_copied e ≡ true) z h in absurd (cc)

module _ {File : Type 0} (api : FileApi File) (laws : IsFile api)
    (decompress : List ℕ → List ℕ ⊎ ℕ) where
  -- a buffer inside the cluster
  capped-whole :
      (img : Image File) (at len : ℕ)
      → len ≤ cluster_size img - offset_in_cluster img at
      → capped img at len ≡ len
  unfolding capped
  capped-whole img at len h = ground arith

  -- what was written is read
  read_file-pwrite :
      (o : ℕ) (bytes : List ℕ) (f : File)
      → AllBelow 256 bytes
      → read_file api o (length bytes) (api.pwrite o bytes f) ≡ bytes
  unfolding read_file
  read_file-pwrite o bytes f b =
      ap (λ r. take (length bytes) (r ++ replicate (length bytes) 0)) (laws.read_back o bytes f b)
      ∙ take-append_left (length bytes) bytes (replicate (length bytes) 0) refl

  write_data-inside :
      (o : ℕ) (bytes : List ℕ) (failed : Io File) (img : Image File) (rest : List (Image File))
      → o < img.size
      → write_data api decompress o bytes (length bytes) failed img rest
        ≡ some
            (with_file img (api.pwrite o bytes img.refs.store.file) ∷ rest, pos (length bytes), [])
  unfolding write_data write_file
  write_data-inside o bytes failed img rest below =
      let fits : leb img.size o ≡ false = ground (arith, below) in
      rw fits (if_same (length bytes) (length bytes) _ _ refl)

  -- an L2 table that the L1 table has
  get_l2_table-copied :
      (is_write : Bool) (at e : ℕ) (img : Image File)
      → get_elem? img.l1_table (l1_index img at) ≡ some e
      → is_copied e ≡ true
      → without_copied e ≢ 0
      → get_l2_table api is_write at img
        ≡ some (read_l2_table api (without_copied e) img, some (without_copied e))
  unfolding get_l2_table
  get_l2_table-copied is_write at e img h copied ne =
      rw (h, get_l2_table) (rw copied (if_ne (without_copied e) 0 _ _ ne))

  read_entry-copied :
      (entry offset len : ℕ) (img : Image File)
      → is_compressed entry ≡ false
      → (descriptor entry % 2 == 1) ≡ false
      → read_entry api decompress entry offset len img
        ≡ some (img, pos len, read_file api (host_offset entry + offset) len img.refs.store.file)
  unfolding read_entry
  read_entry-copied entry offset len img c z = rw (c, z)

  write_entry-copied :
      (entry table at : ℕ) (bytes : List ℕ) (img : Image File) (rest : List (Image File))
      → is_compressed entry ≡ false
      → is_copied entry ≡ true
      → write_entry api decompress entry table at bytes img rest
        ≡ write_data api decompress
            (host_offset entry + offset_in_cluster img at)
            bytes
            (length bytes)
            (some (img ∷ rest, negsuc 0, []))
            img
            rest
  unfolding write_entry
  write_entry-copied entry table at bytes img rest c o = rw (c, o)

  write_cluster-found :
      (at table : ℕ) (buffer : List ℕ) (img img' : Image File) (rest : List (Image File))
      → get_l2_table api true at img ≡ some (img', some table)
      → write_cluster api decompress (img ∷ rest) at buffer
        ≡ write_entry api decompress
            (l2_entry api img' table (l2_index img at))
            table
            at
            (take (capped img at (length buffer)) buffer)
            img'
            rest
  unfolding write_cluster
  write_cluster-found at table buffer img img' rest e = rw e

  read_cluster-found :
      (at table len : ℕ) (no_zero : Bool) (img img' : Image File) (rest : List (Image File))
      → get_l2_table api false at img ≡ some (img', some table)
      → l2_entry api img' table (l2_index img at) ≢ 0
      → read_cluster api decompress (img ∷ rest) at len no_zero
        ≡ beside api decompress rest (
            read_entry api decompress
              (l2_entry api img' table (l2_index img at))
              (offset_in_cluster img at)
              (capped img at len)
              img')
  unfolding read_cluster
  read_cluster-found at table len no_zero img img' rest e ne =
      rw e (if_ne (l2_entry api img' table (l2_index img at)) 0 _ _ ne)

  -- the image after a write into the cluster
  module _ (img : Image File) (rest : List (Image File)) (at e : ℕ) (buffer : List ℕ)
      (coherent : IsCoherent api laws img.size 8 img.l2_entries (l2_store img))
      (l1 : get_elem? img.l1_table (l1_index img at) ≡ some e) (copied : is_copied e ≡ true)
      (ne : without_copied e ≢ 0) (aligned : IsAligned (8 * img.l2_entries) (without_copied e))
      (inside : without_copied e < img.size) where
    abbrev table : ℕ
    table = without_copied e

    abbrev entry : ℕ
    entry = l2_entry api img table (l2_index img at)

    abbrev read_once : Image File
    read_once = read_l2_table api table img

    abbrev place : ℕ
    place = host_offset entry + offset_in_cluster img at

    abbrev written : Image File
    written = with_file read_once (api.pwrite place buffer read_once.refs.store.file)

    same_entry : l2_entry api read_once table (l2_index img at) ≡ entry
    same_entry =
        ap (λ es. get_or es (l2_index img at) 0)
          (read_table-content api laws img.size 8 img.l2_entries table table (l2_store img) coherent
            aligned inside aligned).1

    cached : (id : ℕ) × (t : Table) × (find table (l2_store written).cache.pairs ≡ some (id, t))
    cached =
        read_table-cached api laws img.size 8 img.l2_entries table (l2_store img) coherent aligned
          inside

    -- the table is in the cache, so that the file does not matter
    entry-written : l2_entry api written table (l2_index img at) ≡ entry
    entry-written =
        let (id, t, found) = cached in
        let es = λ (f : File). file_table api img.size 8 img.l2_entries table f in
        ap (λ o. get_or (held o (es (l2_store written).file)) (l2_index img at) 0) found
        ∙ ap (λ o. get_or (held o (es (l2_store read_once).file)) (l2_index img at) 0) (sym found)
        ∙ same_entry

    entry-reread : l2_entry api (read_l2_table api table written) table (l2_index img at) ≡ entry
    entry-reread =
        let (id, t, found) = cached in
        ap (λ s. get_or (content api img.size 8 img.l2_entries table s) (l2_index img at) 0)
          (ap (λ r. r.0)
            (read_table-hit api laws img.size 8 img.l2_entries table id t (l2_store written) found))
        ∙ ap (λ es. get_or es (l2_index img at) 0)
            (got-content api laws img.size 8 img.l2_entries table id t (l2_store written) found
              table)
        ∙ entry-written

    file-reread : (read_l2_table api table written).refs.store.file ≡ written.refs.store.file
    file-reread =
        let (id, t, found) = cached in
        ap (λ r. r.0.file)
          (read_table-hit api laws img.size 8 img.l2_entries table id t (l2_store written) found)

    reread_lem :
        AllBelow 256 buffer
        → is_compressed entry ≡ false
        → (descriptor entry % 2 == 1) ≡ false
        → capped img at (length buffer) ≡ length buffer
        → read_entry api decompress
            (l2_entry api (read_l2_table api table written) table (l2_index img at))
            (offset_in_cluster img at)
            (capped img at (length buffer))
            (read_l2_table api table written)
          ≡ some (read_l2_table api table written, pos (length buffer), buffer)
    reread_lem b c z whole =
        let last : Image File = read_l2_table api table written in
        let offset = offset_in_cluster img at in
        let result = λ (b : List ℕ). some (last, pos (length buffer), b) in
        ap (λ x. read_entry api decompress x offset (capped img at (length buffer)) last)
          entry-reread
        ∙ ap (λ l. read_entry api decompress entry offset l last) whole
        ∙ read_entry-copied entry offset (length buffer) last c z
        ∙ ap result (
            ap (λ f. read_file api place (length buffer) f) file-reread
            ∙ read_file-pwrite place buffer read_once.refs.store.file b)

    -- Bytes written into a cluster that the image has, below the header's size and inside the cluster, are
    -- there when they are read next: the L1 table has the L2 table, the L2 entry has the flag of an
    -- own cluster, and neither that of a compressed one nor that of a cluster of zeros.
    pub read_cluster-write_cluster :
        AllBelow 256 buffer
        → is_compressed entry ≡ false
        → is_copied entry ≡ true
        → (descriptor entry % 2 == 1) ≡ false
        → length buffer ≤ cluster_size img - offset_in_cluster img at
        → place < img.size
        → (after reread : List (Image File)) × (write_cluster api decompress (img ∷ rest) at buffer
            ≡ some (after, pos (length buffer), []))
          × (read_cluster api decompress after at (length buffer) false
              ≡ some (reread, pos (length buffer), buffer))
    unfolding capped
    read_cluster-write_cluster b c o z fits below =
        let len : ℕ = length buffer in
        let whole = capped-whole img at len fits in
        let used : l2_entry api (read_l2_table api table written) table (l2_index img at) ≢ 0 =
          λ x. copied-nonzero entry o (sym entry-reread ∙ x) in
        (
          written ∷ rest,
          read_l2_table api table written ∷ rest,
          write_cluster-found at table buffer img read_once rest
                (get_l2_table-copied true at e img l1 copied ne)
              ∙ ap
                  (λ x.
                    write_entry api decompress x table at (take (capped img at len) buffer)
                      read_once rest)
                  same_entry
              ∙ ap (λ b. write_entry api decompress entry table at b read_once rest)
                  (ap (λ l. take l buffer) whole ∙ take-all buffer)
              ∙ write_entry-copied entry table at buffer read_once rest c o
              ∙ write_data-inside place buffer (some (read_once ∷ rest, negsuc 0, [])) read_once
                  rest below,
          read_cluster-found at table len false written (read_l2_table api table written) rest
                (get_l2_table-copied false at e written l1 copied ne) used
              ∙ ap (beside api decompress rest) (reread_lem b c z whole),
        )
