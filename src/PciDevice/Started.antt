-- ===== src/PciDevice/Started.antt =====
-- The registers of core/pci_device.cc from the constructor of the device on.
use mvisor_x.Base.{
  ℕ, ◌+◌, ◌<◌, ◌≡◌, refl, sym, ap, ◌∙◌, subst, true, false, ◌&&◌, List, [], ◌∷◌, Option, none, some,
  arith, length, length-set, set, ltb, ◌==◌, if-splits, get_or-set_self, ◌>>=◌, both-true, ltb→lt,
}
use mvisor_x.PciDevice.{
  ResourceType, untyped, pio, mmio, ram, Bar, PciDevice, no_bar, bar_at, is_typed,
}
use mvisor_x.PciDevice.Setup.{
  by_type, is_mmio, add_bar, setup_pci_bar, setup_pci_bar64, Setup, bar32, bar64, host_memory_of,
  with_memory, run_setup, run_setups,
}
use mvisor_x.PciDevice.Access.{Access}
use mvisor_x.PciDevice.Registered.{registered, decoded, set_same}
use mvisor_x.PciDevice.Mapped.{IsMapped}
use mvisor_x.PciDevice.Kept.{same-IsSetUp}
use mvisor_x.PciDevice.Idle.{IsIdle, add_bar-IsIdle, upper_half-IsIdle}

-- no register is given a type that AddIoResource does not know
abbrev pub AreTyped : List Setup → Type 0
AreTyped [] = Unit {0}
AreTyped (bar32 i size type ∷ setups) = (is_typed type ≡ true) × AreTyped setups
AreTyped (bar64 i size type ∷ setups) = AreTyped setups
AreTyped (host_memory_of i ∷ setups) = AreTyped setups

-- what a step of the set-up leaves
abbrev AllIdle : Option PciDevice → Type 0
AllIdle none = Unit {0}
AllIdle (some d) = IsIdle d

mmio-is_typed : (type : ResourceType) → is_mmio type ≡ true → is_typed type ≡ true
mmio-is_typed untyped e = absurd (cc)
mmio-is_typed pio e = refl
mmio-is_typed mmio e = refl
mmio-is_typed ram e = refl

by_type_lem :
    (type : ResourceType) (b : Bar)
    → is_typed type ≡ true
    → ((by_type type b).active ≡ b.active)
      × ((by_type type b).type ≡ b.type)
      × (((by_type type b).address_mask == 4294967295) ≡ false)
by_type_lem untyped b e = absurd (cc)
by_type_lem pio b e = (refl, refl, refl)
by_type_lem mmio b e = (refl, refl, refl)
by_type_lem ram b e = (refl, refl, refl)

setup_pci_bar-AllIdle :
    (i size : ℕ) (type : ResourceType) (d : PciDevice)
    → IsIdle d
    → is_typed type ≡ true
    → AllIdle (setup_pci_bar i size type d)
unfolding setup_pci_bar
setup_pci_bar-AllIdle i size type d h typed =
    if-splits AllIdle (ltb i (length d.bars) && (bar_at i d).size64 == 0)
      (λ e.
        let (inside, clear) = both-true (ltb i (length d.bars)) ((bar_at i d).size64 == 0) e in
        let b : Bar = record (bar_at i d) { size64 = size; active = false; type = type } in
        let (off, same, low) = by_type_lem type b typed in
        add_bar-IsIdle i (by_type type b) d (ltb→lt i (length d.bars) inside) off h
          (ap is_typed same ∙ typed) low)
      (λ e. tt)

setup_pci_bar64-AllIdle :
    (i size : ℕ) (type : ResourceType) (d : PciDevice)
    → IsIdle d
    → AllIdle (setup_pci_bar64 i size type d)
unfolding setup_pci_bar64
setup_pci_bar64-AllIdle i size type d h =
    let test = ltb (i + 1) (length d.bars) && (bar_at i d).size64 == 0 in
    if-splits AllIdle (is_mmio type && test)
      (λ e.
        let (m, rest) = both-true (is_mmio type) test e in
        let (inside, clear) =
          both-true (ltb (i + 1) (length d.bars)) ((bar_at i d).size64 == 0) rest in
        let lt : i + 1 < length d.bars = ltb→lt (i + 1) (length d.bars) inside in
        let lt' : i < length d.bars = omega (arith, lt) in
        let b : Bar = record (bar_at i d) {
          size64 = size;
          active = false;
          type = type;
          address_mask = 4294967280;
          special_bits = 4;
        } in
        let typed = mmio-is_typed type m in
        let added = add_bar-IsIdle i b d lt' refl h typed refl in
        let room : i + 1 < length (set d.bars i b) =
          subst (λ n. i + 1 < n) (sym (length-set d.bars i b)) lt in
        upper_half-IsIdle i (i + 1) (omega arith) (add_bar i b d) room added
          (ap (λ x. is_typed x.type) (get_or-set_self d.bars i b no_bar lt') ∙ typed))
      (λ e. tt)

with_memory-IsIdle : (i : ℕ) (d : PciDevice) → IsIdle d → IsIdle (with_memory i d)
with_memory-IsIdle i d h =
    let b : Bar = record (bar_at i d) { host_memory = true } in
    record {
      set_up =
          same-IsSetUp d (with_memory i d) (λ j. set_same (λ x. x.type) d.bars i j b refl)
            (λ j. set_same (λ x. x.address_mask) d.bars i j b refl)
            (λ j e. set_same (λ x. x.address) d.bars i j b refl) h.set_up;
      inactive = λ j. set_same (λ x. x.active) d.bars i j b refl ∙ h.inactive j;
      no_resource = h.no_resource;
    }

run_setup-AllIdle :
    (s : Setup) (setups : List Setup) (d : PciDevice)
    → IsIdle d
    → AreTyped (s ∷ setups)
    → AllIdle (run_setup s d) × AreTyped setups
unfolding run_setup
run_setup-AllIdle (bar32 i size type) setups d h (t, rest) =
    (setup_pci_bar-AllIdle i size type d h t, rest)
run_setup-AllIdle (bar64 i size type) setups d h rest =
    (setup_pci_bar64-AllIdle i size type d h, rest)
run_setup-AllIdle (host_memory_of i) setups d h rest = (with_memory-IsIdle i d h, rest)

AllIdle-bind :
    (r : Option PciDevice) (f : PciDevice → Option PciDevice)
    → AllIdle r
    → ((d : PciDevice) → IsIdle d → AllIdle (f d))
    → AllIdle (r >>= f)
AllIdle-bind none f h k = tt
AllIdle-bind (some d) f h k = k d h

run_setups-AllIdle :
    (setups : List Setup) (d : PciDevice)
    → IsIdle d
    → AreTyped setups
    → AllIdle (run_setups setups d)
unfolding run_setups
run_setups-AllIdle [] d h typed = h
run_setups-AllIdle (s ∷ setups) d h typed =
    let (idle, rest) = run_setup-AllIdle s setups d h typed in
    AllIdle-bind (run_setup s d) (run_setups setups) idle
      (λ d' h'. run_setups-AllIdle setups d' h' rest)

cleared-IsIdle : (d : PciDevice) → ((j : ℕ) → bar_at j d ≡ no_bar) → d.resources ≡ [] → IsIdle d
cleared-IsIdle d clear none_yet = record {
  set_up = record {
    high = λ j e.
        let low = ap (λ x. x.address_mask == 4294967295) (clear j) in
        let clash : true ≡ false = sym e ∙ low in absurd (cc);
    cleared = λ j e e'. (ap (λ x. x.address) (clear j), ap (λ x. x.address_mask) (clear j));
  };
  inactive = λ j. ap (λ x. x.active) (clear j);
  no_resource = none_yet;
}

pub run_setups-IsIdle :
    (setups : List Setup) (d d1 : PciDevice)
    → ((j : ℕ) → bar_at j d ≡ no_bar)
    → d.resources ≡ []
    → AreTyped setups
    → run_setups setups d ≡ some d1
    → IsIdle d1
run_setups-IsIdle setups d d1 clear none_yet typed e =
    let idle : AllIdle (some d1) =
      subst AllIdle e (run_setups-AllIdle setups d (cleared-IsIdle d clear none_yet) typed) in
    idle

pub idle-IsMapped : (d : PciDevice) → IsIdle d → IsMapped d
unfolding registered
idle-IsMapped d h i =
    ap (registered i) h.no_resource
    ∙ sym (ap (λ on. decoded on (bar_at i d).address64 (bar_at i d).size64) (h.inactive i))
