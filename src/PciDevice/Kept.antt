-- ===== src/PciDevice/Kept.antt =====
-- What the writes of a guest to the registers of core/pci_device.cc keep of a device: what the assertions
-- are about.
use mvisor_x.Base.{
  ℕ, zero, suc, ◌-◌, ◌≡◌, refl, sym, ap, ◌∙◌, subst, Bool, true, false, not, ◌&&◌, ◌||◌, List, [],
  ◌∷◌, Option, none, some, arith, get_or, set, ◌==◌, ◌>>=◌, some_inj, ℕ_discrete,
}
use mvisor_x.PciDevice.{Bar, PciDevice, no_bar, bar_at, is_typed, is64_high, is_usable}

-- the upper half of a register follows one with a type, and a register without a type is cleared
pub record IsSetUp (d : PciDevice) : Type 0 where
  pub high : (i : ℕ) → is64_high i d ≡ true → is_typed (bar_at (i - 1) d).type ≡ true
  pub cleared :
      (i : ℕ)
      → is_typed (bar_at i d).type ≡ false
      → is64_high i d ≡ false
      → ((bar_at i d).address ≡ 0) × ((bar_at i d).address_mask ≡ 0)

pub typed_of : (typed zero_bar : Bool) → (not typed || zero_bar) ≡ false → typed ≡ true
typed_of true zero_bar e = refl
typed_of false zero_bar e = absurd (cc)

-- what an access leaves of a register
abbrev SameBar : Bar → Bar → Type 0
SameBar b b' =
    (b'.type ≡ b.type)
    × (b'.address_mask ≡ b.address_mask)
    × (is_typed b.type ≡ false → b'.address ≡ b.address)
    × (is_usable b' ≡ is_usable b)

pub SameBar-refl : (b : Bar) → SameBar b b
SameBar-refl b = (refl, refl, (λ h. refl), refl)

pub set-SameBar :
    (bars : List Bar) (i j : ℕ) (b : Bar)
    → SameBar (get_or bars i no_bar) b
    → SameBar (get_or bars j no_bar) (get_or (set bars i b) j no_bar)
set-SameBar [] i j b h = SameBar-refl no_bar
set-SameBar (x ∷ bars) zero zero b h = h
set-SameBar (x ∷ bars) zero (suc j) b h = SameBar-refl (get_or bars j no_bar)
set-SameBar (x ∷ bars) (suc i) zero b h = SameBar-refl x
set-SameBar (x ∷ bars) (suc i) (suc j) b h = set-SameBar bars i j b h

-- what an access leaves of a device
pub record Keeps (d d' : PciDevice) : Type 0 where
  pub bars : (i : ℕ) → SameBar (bar_at i d) (bar_at i d')
  pub rom_size : d'.rom_size ≡ d.rom_size
  pub rom_bar : d.rom_size ≡ 0 → d.rom_bar ≡ 0 → d'.rom_bar ≡ 0

pub Keeps-bars :
    (d d' : PciDevice)
    → ((i : ℕ) → SameBar (bar_at i d) (bar_at i d'))
    → d'.rom_size ≡ d.rom_size
    → d'.rom_bar ≡ d.rom_bar
    → Keeps d d'
Keeps-bars d d' k size bar = record { bars = k; rom_size = size; rom_bar = λ none_there e. bar ∙ e }

pub Keeps-refl : (d : PciDevice) → Keeps d d
Keeps-refl d = Keeps-bars d d (λ i. SameBar-refl (bar_at i d)) refl refl

pub Keeps-trans : (d d' d'' : PciDevice) → Keeps d d' → Keeps d' d'' → Keeps d d''
Keeps-trans d d' d'' k k' = record {
  bars = λ i.
      let (t, m, a, u) = k.bars i in
      let (t', m', a', u') = k'.bars i in
      (t' ∙ t, m' ∙ m, (λ h. a' (ap is_typed t ∙ h) ∙ a h), u' ∙ u);
  rom_size = k'.rom_size ∙ k.rom_size;
  rom_bar = λ none_there e. k'.rom_bar (k.rom_size ∙ none_there) (k.rom_bar none_there e);
}

pub same-IsSetUp :
    (d d' : PciDevice)
    → ((i : ℕ) → (bar_at i d').type ≡ (bar_at i d).type)
    → ((i : ℕ) → (bar_at i d').address_mask ≡ (bar_at i d).address_mask)
    → ((i : ℕ) → is_typed (bar_at i d).type ≡ false → (bar_at i d').address ≡ (bar_at i d).address)
    → IsSetUp d
    → IsSetUp d'
same-IsSetUp d d' t m a h = record {
  high = λ i e. ap is_typed (t (i - 1)) ∙ h.high i (ap (λ x. x == 4294967295) (sym (m i)) ∙ e);
  cleared = λ i e e'.
      let old = ap is_typed (sym (t i)) ∙ e in
      let (address, mask) = h.cleared i old (ap (λ x. x == 4294967295) (sym (m i)) ∙ e') in
      (a i old ∙ address, m i ∙ mask);
}

-- a device whose registers can all be activated, and that has a ROM or a ROM register of 0
pub record IsOperable (d : PciDevice) : Type 0 where
  pub set_up : IsSetUp d
  pub usable : (i : ℕ) → is_typed (bar_at i d).type ≡ true → is_usable (bar_at i d) ≡ true
  pub rom : d.rom_size ≡ 0 → d.rom_bar ≡ 0

pub Keeps-IsOperable : (d d' : PciDevice) → Keeps d d' → IsOperable d → IsOperable d'
Keeps-IsOperable d d' k h = record {
  set_up = same-IsSetUp d d' (λ i. (k.bars i).0) (λ i. (k.bars i).1) (λ i. (k.bars i).2) h.set_up;
  usable = λ i e. (k.bars i).3 ∙ h.usable i (ap is_typed (sym (k.bars i).0) ∙ e);
  rom = λ none_there. let before = sym k.rom_size ∙ none_there in k.rom_bar before (h.rom before);
}

pub all_true : {a b c : Bool} → a ≡ true → b ≡ true → c ≡ true → (a && (b && c)) ≡ true
all_true {a = true} {b = true} {c = true} e e' e'' = refl
all_true {a = true} {b = true} {c = false} e e' e'' = absurd (cc)
all_true {a = true} {b = false} e e' e'' = absurd (cc)
all_true {a = false} e e' e'' = absurd (cc)

pub rom_refused :
    (address : ℕ) (d : PciDevice) {maps : Bool}
    → (d.rom_size ≡ 0 → address ≡ 0)
    → (address == 0) ≡ false
    → (not (d.rom_size == 0) && maps) ≡ false
    → maps ≡ true
    → ⊥
rom_refused address d {maps = false} safe used refused e = absurd (cc)
rom_refused address d {maps = true} safe used refused e = elim (ℕ_discrete d.rom_size 0) [
  | yes none_there ↦ (let at = safe none_there in ground (arith, at, used))
  | no there ↦ ground (arith, there, refused)
]

-- a result is there, with the registers kept
abbrev pub Succeeds : PciDevice → Option PciDevice → Type 0
Succeeds d r = (d' : PciDevice) × (r ≡ some d') × Keeps d d'

-- from a device with the same registers on
pub Succeeds-from :
    (d d' : PciDevice) (r : Option PciDevice) → Keeps d d' → Succeeds d' r → Succeeds d r
Succeeds-from d d' r k (d'', e, k') = (d'', e, Keeps-trans d d' d'' k k')

pub Succeeds-bind :
    (d : PciDevice) (r : Option PciDevice) (f : PciDevice → Option PciDevice)
    → Succeeds d r
    → ((d' : PciDevice) → Keeps d d' → Succeeds d' (f d'))
    → Succeeds d (r >>= f)
Succeeds-bind d none f (d', e, k) h = absurd (cc)
Succeeds-bind d (some x) f (d', e, k) h =
    let same : x ≡ d' = some_inj e in
    let kept : Keeps d x = subst (Keeps d) (sym same) k in Succeeds-from d x (f x) kept (h x kept)
