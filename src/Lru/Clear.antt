-- ===== src/Lru/Clear.antt =====
-- `Clear` of include/lru_cache.h ends, and empties the cache.
use mvisor_x.Base.{
  ℕ, zero, suc, ◌<◌, ◌≡◌, refl, Bool, true, false, List, [], ◌∷◌, ◌++◌, Option, none, some, arith,
  length, inl, sym, ◌∙◌, ap,
}
use mvisor_x.StdMap.{find}
use mvisor_x.Lru.{Node, LruCache, remove, after_calls, clear_loop, clear}
use mvisor_x.Lru.Recency.{lookup, without, take_out}
use mvisor_x.Lru.Nodes.{InNodes, length-erase_node}
use mvisor_x.Lru.View.{entries, view, AreLinked, IsValid, linked-find, entries-cons}
use mvisor_x.Lru.Laws.{reported, reported-nil, remove_takes_out, remove-hit}
use mvisor_x.Lru.Invariant.{remove-IsValid}

module _ {V : Type 0} where
  reported-append :
      (b : Bool) (h g : List (ℕ × V)) → reported b h ++ reported b g ≡ reported b (h ++ g)
  reported-append true h g = refl
  reported-append false h g = refl

  -- what removing the first entry leaves
  take_out-first :
      (k : ℕ) (w : V) (h : List (ℕ × V)) → take_out k ((k, w) ∷ h) ≡ (h, true, (k, w) ∷ [])
  unfolding take_out lookup without
  take_out-first k w h = ground arith

  record RemovedFirst (c : LruCache V) (n : Node) (ns : List Node) (w : V) : Type 0 where
    calls : (remove n.key c).2 ≡ reported c.has_callback ((n.key, w) ∷ [])
    rest : view (remove n.key c).0 ≡ entries c.pairs ns
    before : view c ≡ (n.key, w) ∷ entries c.pairs ns
    shorter : suc (length (remove n.key c).0.lru) ≡ length c.lru
    callback_kept : (remove n.key c).0.has_callback ≡ c.has_callback

  removed_first :
      (c : LruCache V) (n : Node) (ns : List Node)
      → IsValid c
      → c.lru ≡ n ∷ ns
      → (w : V) × RemovedFirst c n ns w
  removed_first c n ns v e =
      let linked : AreLinked c.pairs (n ∷ ns) = rw e at v.linked in
      let (w, fn) = linked-find n.id (find n.key c.pairs) linked.0 in
      let before : view c ≡ (n.key, w) ∷ entries c.pairs ns =
        ap (entries c.pairs) e ∙ entries-cons c.pairs n ns n.id w fn in
      let out = rw (before, take_out-first) at (remove_takes_out n.key c v) in
      let in_list : InNodes n.id n.key c.lru = rw e (inl (refl, refl)) in
      (
        w,
        record {
          calls = out.2;
          rest = out.0;
          before = before;
          shorter = rw (remove-hit n.key n.id w c fn) (length-erase_node n.id n.key c.lru in_list);
          callback_kept = rw (remove-hit n.key n.id w c fn);
        },
      )

  -- what `Clear` is to return for a cache
  abbrev pub Cleared : LruCache V → Option (LruCache V × List (ℕ × V)) → Type 0
  Cleared c none = ⊥
  Cleared c (some (c', calls)) =
      (c'.lru ≡ []) × (calls ≡ reported c.has_callback (view c)) × IsValid c'

  clear_loop-nil : (f : ℕ) (c : LruCache V) → c.lru ≡ [] → clear_loop (suc f) c ≡ some (c, [])
  unfolding clear_loop
  clear_loop-nil f c e = ground arith

  clear_loop-cons :
      (f : ℕ) (c : LruCache V) (n : Node) (ns : List Node)
      → c.lru ≡ n ∷ ns
      → clear_loop (suc f) c ≡ after_calls (remove n.key c).2 (clear_loop f (remove n.key c).0)
  unfolding clear_loop
  clear_loop-cons f c n ns e = ground arith

  Cleared-after :
      (c d : LruCache V) (calls : List (ℕ × V)) (o : Option (LruCache V × List (ℕ × V)))
      → d.has_callback ≡ c.has_callback
      → calls ++ reported c.has_callback (view d) ≡ reported c.has_callback (view c)
      → Cleared d o
      → Cleared c (after_calls calls o)
  Cleared-after c d calls none cb e h = absurd h
  Cleared-after c d calls (some (c', more)) cb e h =
      (h.0, ap (λ l. calls ++ l) (h.1 ∙ ap (λ b. reported b (view d)) cb) ∙ e, h.2)

  clear_loop-Cleared :
      (f : ℕ) (c : LruCache V) (ns : List Node)
      → c.lru ≡ ns
      → length c.lru < f
      → IsValid c
      → Cleared c (clear_loop f c)
  clear_loop-Cleared zero c ns e h v = absurd (omega arith)
  clear_loop-Cleared (suc f) c [] e h v =
      let empty : view c ≡ [] = ap (entries c.pairs) e in
      rw (clear_loop-nil f c e)
        (e, sym (ap (reported c.has_callback) empty ∙ sym (reported-nil c.has_callback)), v)
  clear_loop-Cleared (suc f) c (n ∷ ns) e h v =
      let (w, r) = removed_first c n ns v e in
      let d = (remove n.key c).0 in
      rw (clear_loop-cons f c n ns e) (
        Cleared-after c d (remove n.key c).2 (clear_loop f d) r.callback_kept
          (rw (r.calls, r.rest, r.before)
            (reported-append c.has_callback ((n.key, w) ∷ []) (entries c.pairs ns)))
          (clear_loop-Cleared f d d.lru refl (omega (arith, r.shorter)) (remove-IsValid n.key c v)))

  -- `Clear` of a valid cache ends, with the list empty, and hands every entry to the callback, the
  -- most recently used first, if there is a callback.
  pub clear-Cleared : (c : LruCache V) → IsValid c → Cleared c (clear c)
  unfolding clear
  clear-Cleared c v = clear_loop-Cleared (suc (length c.lru)) c c.lru refl (omega arith) v
