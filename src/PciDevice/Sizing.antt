-- ===== src/PciDevice/Sizing.antt =====
-- The sizing of a base address register in core/pci_device.cc: the guest writes all ones and reads back
-- which bits of the address it can set.
use mvisor_x.Base.{
  ℕ, ◌+◌, ◌-◌, ◌*◌, ◌/◌, ◌%◌, ◌^◌, ◌≤◌, ◌<◌, ◌≡◌, refl, sym, ap, ◌∙◌, Bool, true, ◌&&◌, some, arith,
  length, bit_and, bit_or, ◌==◌, passes_from-at, get_or-set_self, ==_iff, both-true,
}
use mvisor_x.PciDevice.{PciDevice, bar_at, header_bar, set_header_bar, write_bar, Managers}

-- what is in the register then, for a size of 2 ^ k
abbrev sized : ℕ → ℕ → ℕ
sized k special =
    bit_or (bit_and (4294967295 - (2 ^ k % 2 ^ 32 + 4294967295) % 2 ^ 32) 4294967280) special

abbrev reads_back : ℕ → ℕ → Bool
reads_back k special =
    let v = sized k special in
    (v == 4294967296 - 2 ^ k + special) && (4294967296 - bit_and v 4294967280 == 2 ^ k)

abbrev sizing_test : ℕ → Bool
sizing_test n = reads_back (n / 16 + 4) (n % 16)

sized_lem :
    (k special : ℕ)
    → 4 ≤ k
    → k < 32
    → special < 16
    → (sized k special ≡ 4294967296 - 2 ^ k + special)
      × (4294967296 - bit_and (sized k special) 4294967280 ≡ 2 ^ k)
sized_lem k special low high small =
    let n : ℕ = (k - 4) * 16 + special in
    let passes = passes_from-at sizing_test 0 448 n refl (omega arith) (omega arith) in
    let place : n / 16 + 4 ≡ k = omega arith in
    let rest : n % 16 ≡ special = omega arith in
    let here : reads_back k special ≡ true =
      sym (ap (λ q. reads_back q (n % 16)) place ∙ ap (reads_back k) rest) ∙ passes in
    let (a, b) =
      both-true (sized k special == 4294967296 - 2 ^ k + special)
        (4294967296 - bit_and (sized k special) 4294967280 == 2 ^ k) here in
    (
      (==_iff (sized k special) (4294967296 - 2 ^ k + special)).0 a,
      (==_iff (4294967296 - bit_and (sized k special) 4294967280) (2 ^ k)).0 b,
    )

module _ (managers : Managers) (i k special : ℕ) (d : PciDevice) (lt : i < length d.header_bars)
    (mask : (bar_at i d).address_mask ≡ 4294967280) (size : (bar_at i d).size64 ≡ 2 ^ k)
    (bits : (bar_at i d).special_bits ≡ special) where
  after_sizing : write_bar managers i 4294967295 d ≡ some (set_header_bar i (sized k special) d)
  unfolding write_bar
  after_sizing = rw (mask, size, bits)

  -- A guest that writes all ones to a memory register of 2 ^ k bytes, 4 ≤ k < 32, reads back the bits
  -- of the address that it can set, and the register's type in the lowest four bits, from which it
  -- computes the size.
  pub write_bar-sizing :
      4 ≤ k
      → k < 32
      → special < 16
      → (d' : PciDevice) × (write_bar managers i 4294967295 d ≡ some d')
        × (header_bar i d' ≡ 4294967296 - 2 ^ k + special)
        × (4294967296 - bit_and (header_bar i d') 4294967280 ≡ 2 ^ k)
  write_bar-sizing low high small =
      let (value, back) = sized_lem k special low high small in
      let at = get_or-set_self d.header_bars i (sized k special) 0 lt in
      (
        set_header_bar i (sized k special) d,
        after_sizing,
        at ∙ value,
        ap (λ v. 4294967296 - bit_and v 4294967280) at ∙ back,
      )
