-- ===== src/PciDevice/Total.antt =====
-- No write of a guest to the registers of core/pci_device.cc fails an assertion.
use mvisor_x.Base.{
  ℕ, zero, suc, ◌+◌, ◌-◌, ◌*◌, ◌^◌, ◌≡◌, inl, inr, refl, sym, ap, ◌∙◌, subst, Bool, true, false,
  not, ◌&&◌, ◌||◌, List, [], ◌∷◌, Option, none, some, arith, bit_and, bit_or, bit_xor, ◌==◌,
  if◌then◌else◌, if-splits, if-keeps, Bool-cases, ◌>>=◌, has_bits, ==_iff, bit_and-zero, ◌<◌,
}
use mvisor_x.PciDevice.{
  PciDevice, bar_at, header_bar, set_bar, set_header_bar, is_typed, activate_pci_bar,
  deactivate_pci_bar, with_address, is_decoded, is64_high, update_pci_bar_address, write_bar,
  update_rom_bar_address, write_rom_bar, toggle, command_bar, command_bars, command_rom,
  command_intx, Managers, is_usable, is_mapped_at, remove_resource, write_pci_command, command_io,
  command_memory, intx_disable, status_interrupt,
}
use mvisor_x.PciDevice.Access.{
  Access, command_write, status_write, reset, bar_write, rom_write, disconnect, disconnect_bars,
  write_access, run_accesses, AreAllowed,
}
use mvisor_x.PciDevice.Kept.{
  typed_of, SameBar-refl, set-SameBar, Keeps, Keeps-bars, Keeps-refl, Keeps-trans, IsOperable,
  Keeps-IsOperable, all_true, rom_refused, Succeeds, Succeeds-from, Succeeds-bind,
}

module _ (managers : Managers) (enables : (i : ℕ) (d : PciDevice) → managers.enables i d ≡ true)
    (maps_rom : (address : ℕ) (d : PciDevice) → managers.maps_rom address d ≡ true) where
  activate_pci_bar-Succeeds :
      (i : ℕ) (d : PciDevice)
      → is_typed (bar_at i d).type ≡ true
      → is_usable (bar_at i d) ≡ true
      → Succeeds d (activate_pci_bar managers i d)
  unfolding activate_pci_bar
  activate_pci_bar-Succeeds i d typed usable =
      let b = bar_at i d in
      let on : PciDevice = record (set_bar i (record b { active = true }) d) {
        resources = (i, b.address64, b.size64) ∷ d.resources;
      } in
      let kept : Keeps d on =
        Keeps-bars d on (λ j. set-SameBar d.bars i j (record b { active = true }) (SameBar-refl b))
          refl refl in
      let test = is_typed b.type && (is_usable b && managers.enables i d) in
      if-splits (Succeeds d) b.active (λ active. (d, refl, Keeps-refl d))
        (λ inactive.
          if-splits (Succeeds d) test (λ t. (on, refl, kept))
            (λ refused.
              let passes : test ≡ true = all_true typed usable (enables i d) in
              let bad : true ≡ false = sym passes ∙ refused in absurd (cc)))

  deactivate_pci_bar-Keeps : (i : ℕ) (d : PciDevice) → Keeps d (deactivate_pci_bar i d)
  unfolding deactivate_pci_bar
  deactivate_pci_bar-Keeps i d =
      let b = bar_at i d in
      if-keeps (Keeps d) b.active
        (Keeps-bars d
          (record (set_bar i (record b { active = false }) d) {
            resources = remove_resource i d.resources;
          })
          (λ j. set-SameBar d.bars i j (record b { active = false }) (SameBar-refl b)) refl refl)
        (Keeps-refl d)

  with_address-Keeps :
      (high : Bool) (i address : ℕ) (d : PciDevice)
      → is_typed (bar_at i d).type ≡ true
      → Keeps d (with_address high i address d)
  with_address-Keeps true i address d typed =
      let a = header_bar (i + 1) d * 2 ^ 32 + bit_and (header_bar i d) 4294967280 in
      Keeps-bars d (with_address true i address d)
        (λ j.
          set-SameBar d.bars i j (record (bar_at i d) { address64 = a })
            (SameBar-refl (bar_at i d)))
        refl refl
  with_address-Keeps false i address d typed =
      Keeps-bars d (with_address false i address d)
        (λ j.
          set-SameBar d.bars i j (record (bar_at i d) { address64 = address; address = address })
            (
              refl,
              refl,
              (λ untyped. let bad : true ≡ false = sym typed ∙ untyped in absurd (cc)),
              refl,
            ))
        refl refl

  update_pci_bar_address-Succeeds :
      (i address : ℕ) (d : PciDevice)
      → is_typed (bar_at (if is64_high i d then i - 1 else i) d).type ≡ true
      → IsOperable d
      → Succeeds d (update_pci_bar_address managers i address d)
  unfolding update_pci_bar_address
  update_pci_bar_address-Succeeds i address d typed h =
      let op : ℕ = if is64_high i d then i - 1 else i in
      let d1 : PciDevice = set_header_bar i (bit_or address (bar_at i d).special_bits) d in
      let off = deactivate_pci_bar-Keeps op d1 in
      let typed1 : is_typed (bar_at op (deactivate_pci_bar op d1)).type ≡ true =
        ap is_typed (off.bars op).0 ∙ typed in
      let d2 : PciDevice = with_address (is64_high i d) op address (deactivate_pci_bar op d1) in
      let k = with_address-Keeps (is64_high i d) op address (deactivate_pci_bar op d1) typed1 in
      let header : Keeps d d1 = Keeps-bars d d1 (λ j. SameBar-refl (bar_at j d)) refl refl in
      let kept : Keeps d d2 =
        Keeps-trans d d1 d2 header (Keeps-trans d1 (deactivate_pci_bar op d1) d2 off k) in
      let typed2 = ap is_typed (k.bars op).0 ∙ typed1 in
      if-keeps (Succeeds d) (is_decoded op d2)
        (Succeeds-from d d2 (activate_pci_bar managers op d2) kept (
          activate_pci_bar-Succeeds op d2 typed2 ((Keeps-IsOperable d d2 kept h).usable op typed2)))
        (d2, refl, kept)

  write_bar-Succeeds :
      (i value : ℕ) (d : PciDevice) → IsOperable d → Succeeds d (write_bar managers i value d)
  unfolding write_bar
  write_bar-Succeeds i value d h =
      let b = bar_at i d in
      let same : (v : ℕ) → Keeps d (set_header_bar i v d) =
        λ v. Keeps-bars d (set_header_bar i v d) (λ j. SameBar-refl (bar_at j d)) refl refl in
      if-splits (Succeeds d) (bit_and value 4294967280 == 4294967280) (λ sizing. (_, refl, same _))
        (λ address.
          if-splits (Succeeds d) (b.address == bit_and value b.address_mask)
            (λ unchanged. (_, refl, same _))
            (λ moved.
              update_pci_bar_address-Succeeds i (bit_and value b.address_mask) d
                (elim (Bool-cases (is64_high i d)) [
                  | inl high ↦ rw high (h.set_up.high i high)
                  | inr low ↦ rw low (elim (Bool-cases (is_typed b.type)) [
                    | inl typed ↦ typed
                    | inr untyped ↦
                        let (a, m) = h.set_up.cleared i untyped low in
                        let as_it_was : b.address ≡ bit_and value b.address_mask =
                          a ∙ sym (ap (bit_and value) m ∙ bit_and-zero value) in
                        let bad : true ≡ false =
                          sym ((==_iff b.address (bit_and value b.address_mask)).1 as_it_was)
                          ∙ moved in
                        absurd (cc)
                  ])
                ])
                h))

  update_rom_bar_address-Succeeds :
      (address : ℕ) (d : PciDevice)
      → (d.rom_size ≡ 0 → address ≡ 0)
      → Succeeds d (update_rom_bar_address managers address d)
  unfolding update_rom_bar_address
  update_rom_bar_address-Succeeds address d safe =
      let kept : (m : Option ℕ) → Keeps d (record d { rom_bar = address; rom_mapped = m }) = λ m.
        record {
          bars = λ i. SameBar-refl (bar_at i d);
          rom_size = refl;
          rom_bar = λ none_there e. safe none_there;
        } in
      if-keeps (Succeeds d)
        (not (has_bits d.command command_memory) || is_mapped_at d.rom_mapped address)
        (_, refl, kept d.rom_mapped)
        (if-splits (Succeeds d) (address == 0) (λ zero_address. (_, refl, kept none))
          (λ mapped.
            if-splits (Succeeds d) (not (d.rom_size == 0) && managers.maps_rom address d)
              (λ fits. (_, refl, kept (some address)))
              (λ refused. absurd (rom_refused address d safe mapped refused (maps_rom address d)))))

  write_rom_bar-Succeeds :
      (value : ℕ) (d : PciDevice) → 0 < d.rom_size → Succeeds d (write_rom_bar managers value d)
  unfolding write_rom_bar
  write_rom_bar-Succeeds value d there =
      let kept : (v : ℕ) → Keeps d (record d { rom_bar = v }) = λ v. record {
        bars = λ i. SameBar-refl (bar_at i d);
        rom_size = refl;
        rom_bar = λ none_there e. absurd (omega (arith, there, none_there));
      } in
      if-keeps (Succeeds d) (bit_and value 4294965248 == 4294965248) (_, refl, kept _)
        (update_rom_bar_address-Succeeds (bit_and value 4294965248) d
          (λ none_there. absurd (omega (arith, there, none_there))))

  command_bar-Succeeds :
      (diff new i : ℕ) (d : PciDevice)
      → IsOperable d
      → Succeeds d (command_bar managers diff new i d)
  unfolding command_bar
  command_bar-Succeeds diff new i d h =
      let same : Succeeds d (some d) = (d, refl, Keeps-refl d) in
      let toggled : (changed on : Bool)
          → is_typed (bar_at i d).type ≡ true
          → Succeeds d (toggle managers changed on d i) =
        λ changed on typed.
          if-keeps (Succeeds d) changed
            (if-keeps (Succeeds d) on (activate_pci_bar-Succeeds i d typed (h.usable i typed))
              (deactivate_pci_bar i d, refl, deactivate_pci_bar-Keeps i d))
            same in
      if-splits (Succeeds d) (not (is_typed (bar_at i d).type) || header_bar i d == 0)
        (λ skipped. same)
        (λ used.
          let typed = typed_of (is_typed (bar_at i d).type) (header_bar i d == 0) used in
          if-keeps (Succeeds d) (has_bits (header_bar i d) 1)
            (toggled (has_bits diff command_io) (has_bits new command_io) typed)
            (toggled (has_bits diff command_memory) (has_bits new command_memory) typed))

  command_bars-Succeeds :
      (diff new i left : ℕ) (d : PciDevice)
      → IsOperable d
      → Succeeds d (command_bars managers diff new i left d)
  unfolding command_bars
  command_bars-Succeeds diff new i zero d h = (d, refl, Keeps-refl d)
  command_bars-Succeeds diff new i (suc left) d h =
      Succeeds-bind d (command_bar managers diff new i d)
        (command_bars managers diff new (suc i) left) (command_bar-Succeeds diff new i d h)
        (λ d' k. command_bars-Succeeds diff new (suc i) left d' (Keeps-IsOperable d d' k h))

  command_rom-Succeeds :
      (new : ℕ) (d : PciDevice) → IsOperable d → Succeeds d (command_rom managers new d)
  unfolding command_rom
  command_rom-Succeeds new d h =
      if-keeps (Succeeds d) (has_bits new command_memory)
        (if-keeps (Succeeds d) (d.rom_bar == 0) (d, refl, Keeps-refl d)
          (update_rom_bar_address-Succeeds d.rom_bar d h.rom))
        (
          _,
          refl,
          Keeps-bars d (record d { rom_mapped = none }) (λ j. SameBar-refl (bar_at j d)) refl refl,
        )

  command_intx-Keeps : (diff new : ℕ) (d : PciDevice) → Keeps d (command_intx diff new d)
  command_intx-Keeps diff new d =
      if-keeps (Keeps d) (has_bits diff intx_disable && has_bits d.status status_interrupt)
        (Keeps-bars d
          (record d { levels = (if has_bits new intx_disable then 0 else 1) ∷ d.levels })
          (λ j. SameBar-refl (bar_at j d)) refl refl)
        (Keeps-refl d)

  write_pci_command-Succeeds :
      (new : ℕ) (d : PciDevice) → IsOperable d → Succeeds d (write_pci_command managers new d)
  unfolding write_pci_command
  write_pci_command-Succeeds new d h =
      let diff = bit_xor d.command new in
      let begin : PciDevice = record d { command = new } in
      let k0 : Keeps d begin = Keeps-bars d begin (λ j. SameBar-refl (bar_at j d)) refl refl in
      Succeeds-bind d (command_bars managers diff new 0 6 begin)
        (λ d1. command_rom managers new d1 >>= λ d2. some (command_intx diff new d2))
        (Succeeds-from d begin (command_bars managers diff new 0 6 begin) k0
          (command_bars-Succeeds diff new 0 6 begin (Keeps-IsOperable d begin k0 h)))
        (λ d1 k.
          Succeeds-bind d1 (command_rom managers new d1) (λ d2. some (command_intx diff new d2))
            (command_rom-Succeeds new d1 (Keeps-IsOperable d d1 k h))
            (λ d2 k2. (command_intx diff new d2, refl, command_intx-Keeps diff new d2)))

  disconnect_bars-Keeps : (i left : ℕ) (d : PciDevice) → Keeps d (disconnect_bars i left d)
  unfolding disconnect_bars
  disconnect_bars-Keeps i zero d = Keeps-refl d
  disconnect_bars-Keeps i (suc left) d =
      Keeps-trans d (deactivate_pci_bar i d) (disconnect_bars (suc i) left (deactivate_pci_bar i d))
        (deactivate_pci_bar-Keeps i d) (disconnect_bars-Keeps (suc i) left (deactivate_pci_bar i d))

  write_access-Succeeds :
      (a : Access) (accesses : List Access) (d : PciDevice)
      → IsOperable d
      → AreAllowed d.rom_size (a ∷ accesses)
      → Succeeds d (write_access managers a d) × AreAllowed d.rom_size accesses
  unfolding write_access
  write_access-Succeeds (command_write v) accesses d h ok = (write_pci_command-Succeeds v d h, ok)
  write_access-Succeeds (status_write v) accesses d h ok =
      let after : PciDevice = record d { status = bit_and d.status (65535 - v) } in
      ((after, refl, Keeps-bars d after (λ j. SameBar-refl (bar_at j d)) refl refl), ok)
  write_access-Succeeds (bar_write i v) accesses d h ok = (write_bar-Succeeds i v d h, ok)
  write_access-Succeeds (rom_write v) accesses d h (there, ok) =
      (write_rom_bar-Succeeds v d there, ok)
  write_access-Succeeds (reset status command) accesses d h ok =
      let begin : PciDevice = record d { status = status } in
      let k : Keeps d begin = Keeps-bars d begin (λ j. SameBar-refl (bar_at j d)) refl refl in
      (
        Succeeds-from d begin (write_pci_command managers command begin) k
            (write_pci_command-Succeeds command begin (Keeps-IsOperable d begin k h)),
        ok,
      )
  write_access-Succeeds disconnect accesses d h ok =
      ((disconnect_bars 0 6 d, refl, disconnect_bars-Keeps 0 6 d), ok)

  run_accesses-Succeeds :
      (accesses : List Access) (d : PciDevice)
      → IsOperable d
      → AreAllowed d.rom_size accesses
      → Succeeds d (run_accesses managers accesses d)
  unfolding run_accesses
  run_accesses-Succeeds [] d h ok = (d, refl, Keeps-refl d)
  run_accesses-Succeeds (a ∷ accesses) d h ok =
      let (first, rest) = write_access-Succeeds a accesses d h ok in
      Succeeds-bind d (write_access managers a d) (run_accesses managers accesses) first (λ d' k.
        run_accesses-Succeeds accesses d' (Keeps-IsOperable d d' k h)
          (subst (λ size. AreAllowed size accesses) (sym k.rom_size) rest))

  -- Whatever a guest writes to the registers of a device that can be operated, to the ROM register only
  -- if it has a ROM, no assertion fails, provided that the managers take what they are given: there is
  -- a device after the accesses, and it can be operated.
  pub run_accesses-IsOperable :
      (accesses : List Access) (d : PciDevice)
      → IsOperable d
      → AreAllowed d.rom_size accesses
      → (d' : PciDevice) × (run_accesses managers accesses d ≡ some d') × IsOperable d'
  run_accesses-IsOperable accesses d h ok =
      let (d', e, k) = run_accesses-Succeeds accesses d h ok in (d', e, Keeps-IsOperable d d' k h)
