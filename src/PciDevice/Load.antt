-- ===== src/PciDevice/Load.antt =====
-- The registers in `SaveState` and `LoadState` of core/pci_device.cc.
use mvisor_x.Base.{
  ℕ, zero, suc, ◌+◌, ◌*◌, ◌^◌, ◌≤◌, ◌≡◌, refl, sym, ap, ◌∙◌, subst, true, false, not, ◌&&◌, List,
  ◌∷◌, Option, some, arith, bit_and, ◌==◌, if◌then◌else◌, if-splits, ◌>>=◌, has_bits,
  get_or-set_self, get_or-set_ne, both-true,
}
use mvisor_x.PciDevice.{
  Bar, PciDevice, no_bar, bar_at, header_bar, set_bar, is_typed, is_decoded, activate_pci_bar,
  Managers, is_usable,
}
use mvisor_x.PciDevice.Registered.{
  registered, expected, decoded, typed_in_range, set-expected, set-active, set_same,
}
use mvisor_x.PciDevice.Mapped.{IsMapped, AllMapped, activate_pci_bar-AllMapped}
use mvisor_x.PciDevice.Idle.{IsIdle}
use mvisor_x.PciDevice.Started.{idle-IsMapped}

-- what `config_space` has of the registers
pub record Saved : Type 0 where
  pub command : ℕ
  pub status : ℕ
  pub header_bars : List ℕ
  pub rom_bar : ℕ

unfoldable pub save_state : PciDevice → Saved
save_state d = record {
  command = d.command;
  status = d.status;
  header_bars = d.header_bars;
  rom_bar = d.rom_bar;
}

-- the address of a register from the header's
abbrev pub loaded_bar : ℕ → PciDevice → Bar
loaded_bar i d =
    let b = bar_at i d in
    let low = bit_and (header_bar i d) b.address_mask in
    record b {
      address = low;
      address64 =
          if has_bits b.special_bits 4
          then bit_and (header_bar (i + 1) d) b.address_mask * 2 ^ 32 + low
          else low;
    }

module _ (managers : Managers) where
  unfoldable pub load_bar : ℕ → PciDevice → Option PciDevice
  load_bar i d =
      let b = loaded_bar i d in
      let d1 : PciDevice = set_bar i b d in
      if is_typed b.type && (not (b.address64 == 0) && is_decoded i d1)
      then activate_pci_bar managers i d1
      else some d1

  unfoldable pub load_bars : ℕ → ℕ → PciDevice → Option PciDevice
  load_bars i zero d = some d
  load_bars i (suc left) d = load_bar i d >>= load_bars (suc i) left

  unfoldable pub load_state : Saved → PciDevice → Option PciDevice
  load_state s d = load_bars 0 6 (record d {
    command = s.command;
    status = s.status;
    header_bars = s.header_bars;
    rom_bar = s.rom_bar;
  })

-- each register with a type can be activated
abbrev pub AllUsable : PciDevice → Type 0
AllUsable d = (i : ℕ) → is_typed (bar_at i d).type ≡ true → is_usable (bar_at i d) ≡ true

set-AllUsable :
    (i : ℕ) (b : Bar) (d : PciDevice)
    → b.type ≡ (bar_at i d).type
    → is_usable b ≡ is_usable (bar_at i d)
    → AllUsable d
    → AllUsable (set_bar i b d)
set-AllUsable i b d type usable h j typed =
    set_same is_usable d.bars i j b usable
    ∙ h j (ap is_typed (sym (set_same (λ x. x.type) d.bars i j b type)) ∙ typed)

-- the registers from `k` on are still to be loaded, and the header has what was saved
abbrev IsReady : Saved → ℕ → PciDevice → Type 0
IsReady s k d =
    IsMapped d × ((j : ℕ) → k ≤ j → (bar_at j d).active ≡ false) × (save_state d ≡ s) × AllUsable d

abbrev Loads : Saved → ℕ → Option PciDevice → Type 0
Loads s k r = (d : PciDevice) × (r ≡ some d) × IsReady s k d

activated : ℕ → PciDevice → PciDevice
activated i d =
    let b = bar_at i d in
    record (set_bar i (record b { active = true }) d) {
      resources = (i, b.address64, b.size64) ∷ d.resources;
    }

module _ (managers : Managers)
    (enables : (i : ℕ) (d : PciDevice) → managers.enables i d ≡ true) where
  activate_pci_bar-activated :
      (i : ℕ) (d : PciDevice)
      → (bar_at i d).active ≡ false
      → is_typed (bar_at i d).type ≡ true
      → is_usable (bar_at i d) ≡ true
      → activate_pci_bar managers i d ≡ some (activated i d)
  unfolding activate_pci_bar activated
  activate_pci_bar-activated i d off typed usable =
      let enabled = enables i d in rw (off, typed, usable, enabled)

  activate_pci_bar-Loads :
      (s : Saved) (i : ℕ) (d : PciDevice)
      → IsReady s i d
      → is_typed (bar_at i d).type ≡ true
      → Loads s (suc i) (activate_pci_bar managers i d)
  unfolding activated save_state
  activate_pci_bar-Loads s i d (mapped, off, saved, usable) typed =
      let e = activate_pci_bar-activated i d (off i (omega arith)) typed (usable i typed) in
      let after : AllMapped (some (activated i d)) =
        subst AllMapped e (activate_pci_bar-AllMapped managers i d mapped) in
      (
        activated i d,
        e,
        (
          after,
          λ j le.
              ap (λ x. x.active)
                (get_or-set_ne d.bars i j (record (bar_at i d) { active = true }) no_bar
                  (λ same. omega (arith, same, le)))
              ∙ off j (omega (arith, le)),
          saved,
          set-AllUsable i (record (bar_at i d) { active = true }) d refl refl usable,
        ),
      )

  loaded_bar-IsReady :
      (s : Saved) (i : ℕ) (d : PciDevice)
      → IsReady s i d
      → IsReady s i (set_bar i (loaded_bar i d) d)
  unfolding save_state
  loaded_bar-IsReady s i d (mapped, off, saved, usable) =
      let b = loaded_bar i d in
      let here = off i (omega arith) in
      let same : expected b ≡ expected (bar_at i d) =
        ap (λ x. decoded x b.address64 b.size64) here
        ∙ sym (ap (λ x. decoded x (bar_at i d).address64 b.size64) here) in
      (
        λ j. mapped j ∙ sym (set-expected d.bars i j b same),
        λ j le. set-active d.bars i j b refl ∙ off j le,
        saved,
        set-AllUsable i b d refl refl usable,
      )

  load_bar-Loads :
      (s : Saved) (i : ℕ) (d : PciDevice) → IsReady s i d → Loads s (suc i) (load_bar managers i d)
  unfolding load_bar
  load_bar-Loads s i d ready =
      let b = loaded_bar i d in
      let d1 : PciDevice = set_bar i b d in
      let ready1 = loaded_bar-IsReady s i d ready in
      let test = not (b.address64 == 0) && is_decoded i d1 in
      if-splits (Loads s (suc i)) (is_typed b.type && test)
        (λ e.
          let typed = (both-true (is_typed b.type) test e).0 in
          let lt = typed_in_range d.bars i typed in
          activate_pci_bar-Loads s i d1 ready1
            (ap (λ x. is_typed x.type) (get_or-set_self d.bars i b no_bar lt) ∙ typed))
        (λ e.
          let (mapped, off, saved, usable) = ready1 in
          (d1, refl, (mapped, λ j le. off j (omega (arith, le)), saved, usable)))

  load_bars-Loads :
      (s : Saved) (i left : ℕ) (d : PciDevice)
      → IsReady s i d
      → (d' : PciDevice) × (load_bars managers i left d ≡ some d')
        × IsMapped d'
        × (save_state d' ≡ s)
  unfolding load_bars
  load_bars-Loads s i zero d (mapped, off, saved, usable) = (d, refl, mapped, saved)
  load_bars-Loads s i (suc left) d ready =
      let (d1, e, ready1) = load_bar-Loads s i d ready in
      let (d2, e2, mapped, saved) = load_bars-Loads s (suc i) left d1 ready1 in
      (d2, ap (λ r. r >>= load_bars managers (suc i) left) e ∙ e2, mapped, saved)

  -- The managers are taken to enable each resource, with no panic such as that of port ranges that
  -- overlap. Loading a state, whatever it is, into a device with its registers set up, none of them
  -- active, and each of them that has a type with a size, and its host memory if it is one of memory,
  -- fails no assertion. What is saved afterwards is the state that was loaded, and the resources of a
  -- register are one at its address and of its size if it is active, and none otherwise.
  pub save_state-load_state :
      (s : Saved) (d : PciDevice) (i : ℕ)
      → IsIdle d
      → AllUsable d
      → (d' : PciDevice) × (load_state managers s d ≡ some d')
        × (save_state d' ≡ s)
        × (registered i d'.resources ≡ expected (bar_at i d'))
  unfolding load_state save_state
  save_state-load_state s d i h usable =
      let (d', e, mapped, saved) =
        load_bars-Loads s 0 6
          (record d {
            command = s.command;
            status = s.status;
            header_bars = s.header_bars;
            rom_bar = s.rom_bar;
          })
          (idle-IsMapped d h, λ j le. h.inactive j, refl, usable) in
      (d', e, saved, mapped i)
