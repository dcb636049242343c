-- ===== src/Lru/Laws.antt =====
-- The methods of include/lru_cache.h do what the list of entries, most recently used first, does.
use mvisor_x.Base.{
  ℕ, ◌+◌, ◌≡◌, ◌≢◌, refl, Bool, true, false, List, [], ◌∷◌, none, some, arith, if◌then◌else◌, inl,
  inr, Option-cases, ◌∙◌, ap,
}
use mvisor_x.StdMap.{find, insert, erase, find-insert, find-erase_ne}
use mvisor_x.Lru.{Node, LruCache, erase_node, get, remove, callback}
use mvisor_x.Lru.Recency.{lookup, touch, take_out}
use mvisor_x.Lru.Nodes.{InNodes, NodeKeysNe}
use mvisor_x.Lru.View.{
  entries, view, IsValid, entries-other, NodeKeysNe-of_none, lookup-entries_other,
  erase_node-keys_ne, entries-erase_node, lookup-entries,
}

module _ {V : Type 0} where
  -- the state of `Get` and `Remove` on a hit
  abbrev pub hit_get : ℕ → ℕ → V → LruCache V → LruCache V
  hit_get k id v c = record c {
    lru = (record { id = c.next; key = k }) ∷ erase_node id c.lru;
    pairs = insert k (c.next, v) c.pairs;
    next = c.next + 1;
  }

  abbrev pub hit_remove : ℕ → ℕ → LruCache V → LruCache V
  hit_remove k id c = record c { lru = erase_node id c.lru; pairs = erase k c.pairs }

  module _ (k id : ℕ) (v : V) (c : LruCache V) where
    pub get-hit : find k c.pairs ≡ some (id, v) → get k c ≡ (hit_get k id v c, some v)
    unfolding get
    get-hit e = rw (e, get)

    pub remove-hit :
        find k c.pairs ≡ some (id, v)
        → remove k c ≡ (hit_remove k id c, true, callback c.has_callback k v)
    unfolding remove
    remove-hit e = rw (e, remove)

  module _ (k : ℕ) (c : LruCache V) where
    pub get-miss : find k c.pairs ≡ none → get k c ≡ (c, none)
    unfolding get
    get-miss e = rw (e, get)

    pub remove-miss : find k c.pairs ≡ none → remove k c ≡ (c, false, [])
    unfolding remove
    remove-miss e = rw (e, remove)

  pub lookup-miss :
      (k : ℕ) (c : LruCache V) → IsValid c → find k c.pairs ≡ none → lookup k (view c) ≡ none
  lookup-miss k c v e =
      lookup-entries_other k c.pairs c.lru (NodeKeysNe-of_none k c.pairs c.lru e v.linked)

  pub in_nodes :
      (k id : ℕ) (w : V) (c : LruCache V)
      → IsValid c
      → find k c.pairs ≡ some (id, w)
      → InNodes id k c.lru
  in_nodes k id w c v e = v.backed k id (rw e)

  pub lookup-hit :
      (k id : ℕ) (w : V) (c : LruCache V)
      → IsValid c
      → find k c.pairs ≡ some (id, w)
      → lookup k (view c) ≡ some w
  lookup-hit k id w c v e =
      lookup-entries k id w c.pairs e c.lru v.linked v.distinct (in_nodes k id w c v e)

  pub keys_ne :
      (k id : ℕ) (w : V) (c : LruCache V)
      → IsValid c
      → find k c.pairs ≡ some (id, w)
      → NodeKeysNe k (erase_node id c.lru)
  keys_ne k id w c v e =
      erase_node-keys_ne k id w c.pairs e c.lru v.linked v.distinct (in_nodes k id w c v e)

  pub insert_other :
      (k : ℕ) (a : ℕ × V) (p : List (ℕ × (ℕ × V))) (j : ℕ)
      → k ≢ j
      → find j (insert k a p) ≡ find j p
  insert_other k a p j ne = ground (arith, find-insert k j a p)

  pub insert_self : (k : ℕ) (a : ℕ × V) (p : List (ℕ × (ℕ × V))) → find k (insert k a p) ≡ some a
  insert_self k a p = ground (arith, find-insert k k a p)

  -- the entries with one put in front
  pub entries-front :
      (k next : ℕ) (w : V) (p : List (ℕ × (ℕ × V))) (ns : List Node)
      → NodeKeysNe k ns
      → entries (insert k (next, w) p) (record { id = next; key = k } ∷ ns) ≡ (k, w) ∷ entries p ns
  entries-front k next w p ns ne =
      rw (insert_self k (next, w) p, entries)
        (ap (λ h. (k, w) ∷ h)
          (entries-other k p (insert k (next, w) p) (insert_other k (next, w) p) ns ne))

  -- In a valid cache, `Get` returns the value of the key and brings its entry to the front, and on
  -- a missing key changes nothing.
  pub get_touches :
      (k : ℕ) (c : LruCache V) → IsValid c → (view (get k c).0, (get k c).1) ≡ touch k (view c)
  unfolding touch
  get_touches k c v = elim (Option-cases (find k c.pairs)) [
    | inl e ↦ rw (get-miss k c e) (rw (lookup-miss k c v e, touch))
    | inr ((id, w), e) ↦ rw (get-hit k id w c e) (
        rw (lookup-hit k id w c v e, touch)
          (rw (entries-front k c.next w c.pairs (erase_node id c.lru) (keys_ne k id w c v e)) (
            rw (
              entries-erase_node k id w c.pairs e c.lru v.linked v.distinct
                (in_nodes k id w c v e)))))
  ]

  abbrev pub reported : Bool → List (ℕ × V) → List (ℕ × V)
  reported has_callback h = if has_callback then h else []

  callback-reported : (b : Bool) (k : ℕ) (w : V) → callback b k w ≡ reported b ((k, w) ∷ [])
  callback-reported true k w = refl
  callback-reported false k w = refl

  pub reported-nil : (b : Bool) → [] ≡ reported b []
  reported-nil true = refl
  reported-nil false = refl

  -- In a valid cache, `Remove` takes the entry of the key out, says whether there was one, and
  -- hands it to the callback if there is a callback.
  pub remove_takes_out :
      (k : ℕ) (c : LruCache V)
      → IsValid c
      → let r = remove k c in
        let t = take_out k (view c) in
        (view r.0 ≡ t.0) × (r.1 ≡ t.1) × (r.2 ≡ reported c.has_callback t.2)
  unfolding take_out
  remove_takes_out k c v = elim (Option-cases (find k c.pairs)) [
    | inl e ↦
        rw (remove-miss k c e)
          (rw (lookup-miss k c v e, take_out) (refl, refl, reported-nil c.has_callback))
    | inr ((id, w), e) ↦
        let ns = erase_node id c.lru in
        rw (remove-hit k id w c e) (
          rw (lookup-hit k id w c v e, take_out)
            (
              entries-other k c.pairs (erase k c.pairs) (λ j ne. find-erase_ne k j c.pairs ne) ns
                    (keys_ne k id w c v e)
                  ∙ entries-erase_node k id w c.pairs e c.lru v.linked v.distinct
                      (in_nodes k id w c v e),
              refl,
              callback-reported c.has_callback k w,
            ))
  ]
