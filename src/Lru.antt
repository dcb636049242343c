-- ===== src/Lru.antt =====
-- include/lru_cache.h, the cache behind the tables of images/qcow2.cc. Keys are the numbers
-- (uint64_t) of its one instance; values are of any type. A std::list iterator is the number of
-- its node. A method returns the new cache, its result, and the calls of `m_removeCallback`.
pub mod Recency
pub mod Nodes
pub mod View
pub mod Laws
pub mod Invariant
pub mod Put
pub mod Evict
pub mod Clear
mod Examples
use mvisor_x.Base.{
  ℕ, zero, suc, ◌+◌, Bool, true, false, List, [], ◌∷◌, ◌++◌, Option, none, some, ltb, ◌==◌,
  if◌then◌else◌, length,
}
use mvisor_x.StdMap.{find, insert, erase}

-- a node of `m_listLru`
pub record Node : Type 0 where
  pub id : ℕ
  pub key : ℕ

-- `SimpleLRUCache`: `pairs` is `m_mapPair`, from a key to its iterator and its value, and `next`
-- the number of the next new node
pub record LruCache {ℓ} (V : Type ℓ) : Type ℓ where
  pub max_size : ℕ
  pub lru : List Node
  pub pairs : List (ℕ × (ℕ × V))
  pub has_callback : Bool
  pub next : ℕ

-- `m_listLru.erase(iterator)`
unfoldable pub erase_node : ℕ → List Node → List Node
erase_node id [] = []
erase_node id (n ∷ ns) = if n.id == id then ns else n ∷ erase_node id ns

-- `m_listLru.back()`
unfoldable pub back : Node → List Node → Node
back n [] = n
back n (m ∷ ns) = back m ns

module _ {ℓ} {V : Type ℓ} where
  -- the constructor and `Initialize`
  unfoldable pub new_cache : ℕ → Bool → LruCache V
  new_cache max_size has_callback = record {
    max_size = max_size;
    lru = [];
    pairs = [];
    has_callback = has_callback;
    next = 0;
  }

  -- `Contains`
  unfoldable pub contains : ℕ → LruCache V → Bool
  contains k c = elim (find k c.pairs) [ none ↦ false | some e ↦ true ]

  -- `Get`
  unfoldable pub get : ℕ → LruCache V → LruCache V × Option V
  get k c = elim (find k c.pairs) [
    | none ↦ (c, none)
    | some (id, v) ↦ (
      record c {
        lru = (record { id = c.next; key = k }) ∷ erase_node id c.lru;
        pairs = insert k (c.next, v) c.pairs;
        next = c.next + 1;
      },
      some v,
    )
  ]

  abbrev pub callback : Bool → ℕ → V → List (ℕ × V)
  callback true k v = (k, v) ∷ []
  callback false k v = []

  -- `Remove`
  unfoldable pub remove : ℕ → LruCache V → LruCache V × Bool × List (ℕ × V)
  remove k c = elim (find k c.pairs) [
    | none ↦ (c, false, [])
    | some (id, v) ↦ (
      record c { lru = erase_node id c.lru; pairs = erase k c.pairs },
      true,
      callback c.has_callback k v,
    )
  ]

  -- `Put` once the key is known to be new: the entry goes to the front
  unfoldable pub push_entry : ℕ → V → LruCache V → LruCache V
  push_entry k v c = record c {
    lru = (record { id = c.next; key = k }) ∷ c.lru;
    pairs = insert k (c.next, v) c.pairs;
    next = c.next + 1;
  }

  -- `Put`
  unfoldable pub put : ℕ → V → LruCache V → LruCache V × Bool × List (ℕ × V)
  put k v c = elim (contains k c) [
    | true ↦ (c, false, [])
    | false ↦
        if ltb c.max_size (suc (length c.lru))
        then (let (c', _, calls) =
              remove (back (record { id = c.next; key = k }) c.lru).key (push_entry k v c) in
            (c', true, calls))
        else (push_entry k v c, true, [])
  ]

  -- the calls of one round before those of the rounds after it
  abbrev pub after_calls :
      List (ℕ × V) → Option (LruCache V × List (ℕ × V)) → Option (LruCache V × List (ℕ × V))
  after_calls calls none = none
  after_calls calls (some (c, more)) = some (c, calls ++ more)

  -- `Clear`: the loop with fuel, and with the list's length for fuel. `none` is a loop that has
  -- not ended.
  unfoldable pub clear_loop : ℕ → LruCache V → Option (LruCache V × List (ℕ × V))
  clear_loop zero c = none
  clear_loop (suc f) c = elim c.lru [
    | [] ↦ some (c, [])
    | n ∷ ns ↦ after_calls (remove n.key c).2 (clear_loop f (remove n.key c).0)
  ]

  unfoldable pub clear : LruCache V → Option (LruCache V × List (ℕ × V))
  clear c = clear_loop (suc (length c.lru)) c
