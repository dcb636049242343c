-- ===== src/Lru/Put.antt =====
-- `Put` of include/lru_cache.h against the list of entries.
use mvisor_x.Base.{
  ℕ, suc, ◌≤◌, ◌≡◌, refl, true, false, List, [], ◌∷◌, none, some, ltb, length, inl, inr,
  Option-cases, Bool-cases, ap,
}
use mvisor_x.StdMap.{find}
use mvisor_x.Lru.{Node, LruCache, back, contains, remove, put, push_entry}
use mvisor_x.Lru.Recency.{
  take_out, add_first, KeysNe, HasDistinctKeys, drop_last, last_of, without-last_of, lookup-last_of,
  add_first-old, add_first-room, add_first-full, length-add_first,
}
use mvisor_x.Lru.Nodes.{HasDistinctIds, NodeKeysNe}
use mvisor_x.Lru.View.{
  entries, view, AreLinked, IsValid, NodeKeysNe-of_IdNe, NodeKeysNe-of_none, linked-find,
  entries-cons,
}
use mvisor_x.Lru.Laws.{
  lookup-hit, lookup-miss, entries-front, reported, reported-nil, remove_takes_out,
}
use mvisor_x.Lru.Invariant.{push_entry-IsValid, remove-IsValid}

module _ {V : Type 0} where
  pub length-entries :
      (p : List (ℕ × (ℕ × V))) (ns : List Node) → AreLinked p ns → length (entries p ns) ≡ length ns
  length-entries p [] l = refl
  length-entries p (n ∷ ns) l =
      let (w, fn) = linked-find n.id (find n.key p) l.0 in
      rw (entries-cons p n ns n.id w fn) (ap suc (length-entries p ns l.1))

  key-back :
      (p : List (ℕ × (ℕ × V))) (n : Node) (w : V) (ns : List Node)
      → AreLinked p ns
      → (back n ns).key ≡ (last_of (n.key, w) (entries p ns)).0
  unfolding back last_of
  key-back p n w [] l = refl
  key-back p n w (m ∷ ns) l =
      let (u, fm) = linked-find m.id (find m.key p) l.0 in
      rw (entries-cons p m ns m.id u fm) (key-back p m u ns l.1)

  KeysNe-entries :
      (k : ℕ) (p : List (ℕ × (ℕ × V))) (ns : List Node) → NodeKeysNe k ns → KeysNe k (entries p ns)
  KeysNe-entries k p [] ne = tt
  KeysNe-entries k p (n ∷ ns) ne = elim (Option-cases (find n.key p)) [
    | inl e ↦ rw (e, entries) (KeysNe-entries k p ns ne.1)
    | inr ((i, w), e) ↦ rw (entries-cons p n ns i w e) (ne.0, KeysNe-entries k p ns ne.1)
  ]

  pub HasDistinctKeys-entries :
      (p : List (ℕ × (ℕ × V))) (ns : List Node)
      → AreLinked p ns
      → HasDistinctIds ns
      → HasDistinctKeys (entries p ns)
  HasDistinctKeys-entries p [] l d = tt
  HasDistinctKeys-entries p (n ∷ ns) l d =
      let (w, fn) = linked-find n.id (find n.key p) l.0 in
      rw (entries-cons p n ns n.id w fn) (
        KeysNe-entries n.key p ns (NodeKeysNe-of_IdNe n.key n.id p ns l.0 l.1 d.0),
        HasDistinctKeys-entries p ns l.1 d.1,
      )

  -- the states of `Put`
  module _ (k : ℕ) (w : V) (c : LruCache V) where
    abbrev pub new_node : Node
    new_node = record { id = c.next; key = k }

    put-old : {id : ℕ} {u : V} → find k c.pairs ≡ some (id, u) → put k w c ≡ (c, false, [])
    unfolding put contains
    put-old e = rw (e, contains, put)

    pub put-room :
        find k c.pairs ≡ none
        → ltb c.max_size (suc (length c.lru)) ≡ false
        → put k w c ≡ (push_entry k w c, true, [])
    unfolding put contains
    put-room e room = rw (e, contains, put) (rw room)

    pub put-full :
        find k c.pairs ≡ none
        → ltb c.max_size (suc (length c.lru)) ≡ true
        → put k w c ≡ (
          (remove (back new_node c.lru).key (push_entry k w c)).0,
          true,
          (remove (back new_node c.lru).key (push_entry k w c)).2,
        )
    unfolding put contains
    put-full e full = rw (e, contains, put) (rw full)

    view-push_entry : IsValid c → find k c.pairs ≡ none → view (push_entry k w c) ≡ (k, w) ∷ view c
    unfolding push_entry
    view-push_entry v e =
        entries-front k c.next w c.pairs c.lru (NodeKeysNe-of_none k c.pairs c.lru e v.linked)

    has_callback-push_entry : (push_entry k w c).has_callback ≡ c.has_callback
    unfolding push_entry
    has_callback-push_entry = refl

    HasDistinctKeys-pushed : IsValid c → find k c.pairs ≡ none → HasDistinctKeys ((k, w) ∷ view c)
    HasDistinctKeys-pushed v e = (
      KeysNe-entries k c.pairs c.lru (NodeKeysNe-of_none k c.pairs c.lru e v.linked),
      HasDistinctKeys-entries c.pairs c.lru v.linked v.distinct,
    )

  take_out-last :
      (e : ℕ × V) (h : List (ℕ × V))
      → HasDistinctKeys (e ∷ h)
      → take_out (last_of e h).0 (e ∷ h) ≡ (drop_last (e ∷ h), true, last_of e h ∷ [])
  unfolding take_out
  take_out-last e h d = rw (lookup-last_of e h d, take_out) (rw (without-last_of e h d))

  -- In a valid cache, `Put` leaves a key that is there alone and returns false; a new key's entry
  -- goes to the front, and where that makes more than `m_iMaxSize` entries the last one is
  -- dropped, and handed to the callback if there is a callback.
  pub put_adds_first :
      (k : ℕ) (w : V) (c : LruCache V)
      → IsValid c
      → let r = put k w c in
        let t = add_first c.max_size k w (view c) in
        (view r.0 ≡ t.0) × (r.1 ≡ t.1) × (r.2 ≡ reported c.has_callback t.2)
  unfolding push_entry
  put_adds_first k w c v = elim (Option-cases (find k c.pairs)) [
    | inr ((id, u), e) ↦
        rw (put-old k w c e, add_first-old c.max_size k w (view c) u (lookup-hit k id u c v e))
          (refl, refl, reported-nil c.has_callback)
    | inl e ↦
        let gone = lookup-miss k c v e in
        let len = length-entries c.pairs c.lru v.linked in
        elim (Bool-cases (ltb c.max_size (suc (length c.lru)))) [
          | inr room ↦
              rw (put-room k w c e room, add_first-room c.max_size k w (view c) gone (rw len room))
                (view-push_entry k w c v e, refl, reported-nil c.has_callback)
          | inl full ↦
              let j = (last_of (k, w) (view c)).0 in
              let pushed = push_entry k w c in
              let out = remove_takes_out j pushed (push_entry-IsValid k w c v e) in
              let out' =
                rw
                  (
                    view-push_entry k w c v e,
                    take_out-last (k, w) (view c) (HasDistinctKeys-pushed k w c v e),
                    has_callback-push_entry k w c,
                  )
                  at out in
              rw (put-full k w c e full, add_first-full c.max_size k w (view c) gone (rw len full))
                (rw (key-back c.pairs (new_node k w c) w c.lru v.linked) (out'.0, refl, out'.2))
        ]
  ]

  -- `Put` to a valid cache with at most `m_iMaxSize` entries leaves at most `m_iMaxSize` entries.
  pub length-put :
      (k : ℕ) (w : V) (c : LruCache V)
      → IsValid c
      → length (view c) ≤ c.max_size
      → length (view (put k w c).0) ≤ c.max_size
  length-put k w c v b =
      rw ((put_adds_first k w c v).0) (length-add_first c.max_size k w (view c) b)

  -- `Put` keeps a cache valid: its map and its list hold the same keys, each under an iterator of
  -- its own.
  pub put-IsValid : (k : ℕ) (w : V) (c : LruCache V) → IsValid c → IsValid (put k w c).0
  put-IsValid k w c v = elim (Option-cases (find k c.pairs)) [
    | inr ((id, u), e) ↦ rw (put-old k w c e) v
    | inl e ↦
        let pushed = push_entry-IsValid k w c v e in
        elim (Bool-cases (ltb c.max_size (suc (length c.lru)))) [
          | inr room ↦ rw (put-room k w c e room) pushed
          | inl full ↦
              rw (put-full k w c e full)
                (remove-IsValid (back (new_node k w c) c.lru).key (push_entry k w c) pushed)
        ]
  ]
