-- ===== src/Dirty.antt =====
-- Bitmaps of dirty pages: `HandleBitmap` of core/memory_manager.cc and `IsDirty` of
-- core/memory_region.cc. The calls of a callback are a list, the first one first.
pub mod Sound
pub mod Visits
pub mod Foreach
mod Examples
use mvisor_x.Base.{
  ℕ, zero, suc, ◌+◌, ◌-◌, ◌*◌, ◌/◌, ◌^◌, Bool, true, false, ◌||◌, List, [], ◌∷◌, ◌++◌, ◌==◌,
  has_bits, if◌then◌else◌, get_or,
}

-- `byte & (1 << j)`
unfoldable pub bit_at : ℕ → ℕ → Bool
bit_at byte j = has_bits byte (2 ^ j)

-- a call of the callback, and what comes after it if it succeeds
unfoldable pub call : ℕ → Bool → List ℕ × Bool → List ℕ × Bool
call page true rest = (page ∷ rest.0, rest.1)
call page false rest = (page ∷ [], false)

-- the inner loop of `HandleBitmap` over the bits of byte i, `left` of them to go
unfoldable pub handle_byte : (ℕ → Bool) → ℕ → ℕ → ℕ → ℕ → List ℕ × Bool
handle_byte callback i byte zero j = ([], true)
handle_byte callback i byte (suc left) j =
    let rest = handle_byte callback i byte left (j + 1) in
    if bit_at byte j then call (i * 8 + j) (callback (i * 8 + j)) rest else rest

-- what the outer loop does after byte i
unfoldable pub and_then : List ℕ × Bool → List ℕ × Bool → List ℕ × Bool
and_then first rest = if first.1 then (first.0 ++ rest.0, rest.1) else first

unfoldable pub handle_bytes : (ℕ → Bool) → ℕ → List ℕ → List ℕ × Bool
handle_bytes callback i [] = ([], true)
handle_bytes callback i (byte ∷ bytes) =
    let rest = handle_bytes callback (i + 1) bytes in
    if byte == 0 then rest else and_then (handle_byte callback i byte 8 0) rest

-- `HandleBitmap`: the calls, and the result
unfoldable pub handle_bitmap : (ℕ → Bool) → List ℕ → List ℕ × Bool
handle_bitmap callback bitmap = handle_bytes callback 0 bitmap

-- the loop of `IsDirty` over the bits of a byte
unfoldable pub any_bit : ℕ → ℕ → ℕ → Bool
any_bit byte zero j = false
any_bit byte (suc left) j = bit_at byte j || any_bit byte left (j + 1)

-- the loop of `IsDirty` over the pages, `left` of them to go
unfoldable pub dirty_from : List ℕ → ℕ → ℕ → Bool
dirty_from bitmap zero i = false
dirty_from bitmap (suc left) i =
    let byte = get_or bitmap (i / 8) 0 in
    (if byte == 0 then false else any_bit byte 8 0) || dirty_from bitmap left (i + 1)

-- `IsDirty`; PAGE_SIZE is 4096, and the sums stay in the region, below 2^64
unfoldable pub is_dirty : List ℕ → ℕ → ℕ → Bool
is_dirty bitmap offset len =
    let start_i = offset / 4096 in
    let end_i = (offset + len + 4095) / 4096 in dirty_from bitmap (end_i - start_i) start_i
