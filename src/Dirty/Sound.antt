-- ===== src/Dirty/Sound.antt =====
-- `IsDirty` of core/memory_region.cc misses no dirty page of the range it is asked about.
use mvisor_x.Base.{
  ℕ, zero, suc, ◌+◌, ◌/◌, ◌%◌, ◌^◌, ◌<◌, ◌≤◌, ◌≡◌, refl, Bool, true, false, List, ◌==◌, get_or,
  arith, bit_and, dec_lt, subst, sym,
}
use Prim.Native.Nat.{bit_and-bitwise}
use mvisor_x.Dirty.{bit_at, any_bit, dirty_from, is_dirty}

-- the bit of a page in the bitmap
abbrev pub page_bit : List ℕ → ℕ → Bool
page_bit bitmap page = bit_at (get_or bitmap (page / 8) 0) (page % 8)

pub zero-bit_at : (j : ℕ) → bit_at 0 j ≡ false
unfolding bit_at
zero-bit_at j = let none_set : bit_and 0 (2 ^ j) ≡ 0 = bit_and-bitwise 0 (2 ^ j) in rw none_set refl

pub nonzero : (byte j : ℕ) → bit_at byte j ≡ true → (byte == 0) ≡ false
nonzero zero j h = absurd (cc (h, zero-bit_at j))
nonzero (suc byte) j h = ground arith

any_bit-bit_at :
    (byte left j k : ℕ) → j ≤ k → k < j + left → bit_at byte k ≡ true → any_bit byte left j ≡ true
unfolding any_bit
any_bit-bit_at byte zero j k lo hi h = absurd (omega arith)
any_bit-bit_at byte (suc left) j k lo hi h = elim (dec_lt j k) [
  | yes later ↦
      let rest = any_bit-bit_at byte left (j + 1) k (omega arith) (omega arith) h in ground arith
  | no here ↦
      let same : k ≡ j = omega arith in
      let set : bit_at byte j ≡ true = rw (sym same) h in ground arith
]

dirty_from-page_bit :
    (bitmap : List ℕ) (left i page : ℕ)
    → i ≤ page
    → page < i + left
    → page_bit bitmap page ≡ true
    → dirty_from bitmap left i ≡ true
unfolding dirty_from
dirty_from-page_bit bitmap zero i page lo hi h = absurd (omega arith)
dirty_from-page_bit bitmap (suc left) i page lo hi h = elim (dec_lt i page) [
  | yes later ↦
      let rest = dirty_from-page_bit bitmap left (i + 1) page (omega arith) (omega arith) h in
      ground arith
  | no here ↦
      let same : page ≡ i = omega arith in
      let set : bit_at (get_or bitmap (i / 8) 0) (i % 8) ≡ true =
        subst (λ n. page_bit bitmap n ≡ true) same h in
      let any =
        any_bit-bit_at (get_or bitmap (i / 8) 0) 8 0 (i % 8) (omega arith) (omega arith) set in
      let some_set = nonzero (get_or bitmap (i / 8) 0) (i % 8) set in ground arith
]

-- If the bit of a page is set and a byte of the range lies in the page, `IsDirty` answers true.
pub is_dirty-page_bit :
    (bitmap : List ℕ) (offset len at : ℕ)
    → offset ≤ at
    → at < offset + len
    → page_bit bitmap (at / 4096) ≡ true
    → is_dirty bitmap offset len ≡ true
unfolding is_dirty
is_dirty-page_bit bitmap offset len at lo hi h =
    dirty_from-page_bit bitmap _ (offset / 4096) (at / 4096) (omega arith) (omega arith) h
