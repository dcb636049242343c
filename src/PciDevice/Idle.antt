-- ===== src/PciDevice/Idle.antt =====
-- The set-up of a register in core/pci_device.cc keeps a device without active registers.
use mvisor_x.Base.{
  ℕ, ◌-◌, ◌<◌, ◌≡◌, sym, ap, ◌∙◌, subst, true, false, [], length, get_or, set, ◌==◌, ℕ_discrete,
  get_or-set_self, get_or-set_ne,
}
use mvisor_x.PciDevice.{Bar, PciDevice, no_bar, bar_at, set_bar, is_typed, is64_high}
use mvisor_x.PciDevice.Setup.{add_bar, upper_half}
use mvisor_x.PciDevice.Kept.{IsSetUp}

-- a device no register of which is active
pub record IsIdle (d : PciDevice) : Type 0 where
  pub set_up : IsSetUp d
  pub inactive : (i : ℕ) → (bar_at i d).active ≡ false
  pub no_resource : d.resources ≡ []

module _ (i : ℕ) (b : Bar) (d : PciDevice) (lt : i < length d.bars) (off : b.active ≡ false)
    (h : IsIdle d) where
  set-inactive : (j : ℕ) → (bar_at j (set_bar i b d)).active ≡ false
  set-inactive j = elim (ℕ_discrete i j) [
    | yes same ↦
        subst (λ q. (get_or (set d.bars i b) q no_bar).active ≡ false) same
          (ap (λ x. x.active) (get_or-set_self d.bars i b no_bar lt) ∙ off)
    | no ne ↦ ap (λ x. x.active) (get_or-set_ne d.bars i j b no_bar ne) ∙ h.inactive j
  ]

  -- the type of the other registers stays
  set-is_typed :
      is_typed b.type ≡ true
      → (j : ℕ) → is_typed (bar_at j d).type ≡ true
      → is_typed (bar_at j (set_bar i b d)).type ≡ true
  set-is_typed typed j t = elim (ℕ_discrete i j) [
    | yes same ↦
        subst (λ q. is_typed (get_or (set d.bars i b) q no_bar).type ≡ true) same
          (ap (λ x. is_typed x.type) (get_or-set_self d.bars i b no_bar lt) ∙ typed)
    | no ne ↦ ap (λ x. is_typed x.type) (get_or-set_ne d.bars i j b no_bar ne) ∙ t
  ]

  set-IsSetUp :
      is_typed b.type ≡ true → (b.address_mask == 4294967295) ≡ false → IsSetUp (set_bar i b d)
  set-IsSetUp typed low = record {
    high = λ j e. elim (ℕ_discrete i j) [
      | yes same ↦
          let here =
            ap (λ x. x.address_mask == 4294967295) (get_or-set_self d.bars i b no_bar lt) ∙ low in
          let there : is64_high i (set_bar i b d) ≡ true =
            subst (λ q. is64_high q (set_bar i b d) ≡ true) (sym same) e in
          absurd (cc)
      | no ne ↦
          let old : is64_high j d ≡ true =
            sym (ap (λ x. x.address_mask == 4294967295) (get_or-set_ne d.bars i j b no_bar ne))
            ∙ e in
          set-is_typed typed (j - 1) (h.set_up.high j old)
    ];
    cleared = λ j e e'. elim (ℕ_discrete i j) [
      | yes same ↦
          let here = ap (λ x. is_typed x.type) (get_or-set_self d.bars i b no_bar lt) ∙ typed in
          let there : is_typed (bar_at i (set_bar i b d)).type ≡ false =
            subst (λ q. is_typed (bar_at q (set_bar i b d)).type ≡ false) (sym same) e in
          absurd (cc)
      | no ne ↦
          let kept = get_or-set_ne d.bars i j b no_bar ne in
          let (a, m) =
            h.set_up.cleared j (sym (ap (λ x. is_typed x.type) kept) ∙ e)
              (sym (ap (λ x. x.address_mask == 4294967295) kept) ∙ e') in
          (ap (λ x. x.address) kept ∙ a, ap (λ x. x.address_mask) kept ∙ m)
    ];
  }

  pub add_bar-IsIdle :
      is_typed b.type ≡ true → (b.address_mask == 4294967295) ≡ false → IsIdle (add_bar i b d)
  add_bar-IsIdle typed low =
      let set_up = set-IsSetUp typed low in
      record {
        set_up = record { high = set_up.high; cleared = set_up.cleared };
        inactive = set-inactive;
        no_resource = h.no_resource;
      }

module _ (k u : ℕ) (back : u - 1 ≡ k) (d : PciDevice) (lt : u < length d.bars) (h : IsIdle d)
    (typed : is_typed (bar_at k d).type ≡ true) where
  upper-is_typed :
      (j : ℕ) → is_typed (bar_at j d).type ≡ true → is_typed (bar_at j (upper_half u d)).type ≡ true
  upper-is_typed j t = elim (ℕ_discrete u j) [
    | yes same ↦
        subst
          (λ q.
            is_typed (bar_at q d).type ≡ true → is_typed (bar_at q (upper_half u d)).type ≡ true)
          same
          (λ t'.
            ap (λ x. is_typed x.type)
              (get_or-set_self d.bars u
                (record (bar_at u d) { address_mask = 4294967295; special_bits = 0 }) no_bar lt)
            ∙ t')
          t
    | no ne ↦
        ap (λ x. is_typed x.type)
          (get_or-set_ne d.bars u j
            (record (bar_at u d) { address_mask = 4294967295; special_bits = 0 }) no_bar ne)
        ∙ t
  ]

  upper_half-IsSetUp : IsSetUp (upper_half u d)
  upper_half-IsSetUp =
      let b : Bar = record (bar_at u d) { address_mask = 4294967295; special_bits = 0 } in
      record {
        high = λ j e. elim (ℕ_discrete u j) [
          | yes same ↦
              subst (λ q. is_typed (bar_at (q - 1) (upper_half u d)).type ≡ true) same
                (subst (λ q. is_typed (bar_at q (upper_half u d)).type ≡ true) (sym back)
                  (upper-is_typed k typed))
          | no ne ↦
              let kept = get_or-set_ne d.bars u j b no_bar ne in
              upper-is_typed (j - 1)
                (h.set_up.high j (sym (ap (λ x. x.address_mask == 4294967295) kept) ∙ e))
        ];
        cleared = λ j e e'. elim (ℕ_discrete u j) [
          | yes same ↦
              let here =
                ap (λ x. x.address_mask == 4294967295) (get_or-set_self d.bars u b no_bar lt) in
              let there : is64_high u (upper_half u d) ≡ false =
                subst (λ q. is64_high q (upper_half u d) ≡ false) (sym same) e' in
              let clash : true ≡ false = sym here ∙ there in absurd (cc)
          | no ne ↦
              let kept = get_or-set_ne d.bars u j b no_bar ne in
              let (a, m) =
                h.set_up.cleared j (sym (ap (λ x. is_typed x.type) kept) ∙ e)
                  (sym (ap (λ x. x.address_mask == 4294967295) kept) ∙ e') in
              (ap (λ x. x.address) kept ∙ a, ap (λ x. x.address_mask) kept ∙ m)
        ];
      }

  pub upper_half-IsIdle : IsIdle (upper_half u d)
  upper_half-IsIdle = record {
    set_up = upper_half-IsSetUp;
    inactive =
        set-inactive u (record (bar_at u d) { address_mask = 4294967295; special_bits = 0 }) d lt
          (h.inactive u) h;
    no_resource = h.no_resource;
  }
