-- ===== src/PciDevice/Mapped.antt =====
-- The resources of core/pci_device.cc are those of the active base address registers, each at the
-- register's address.
use mvisor_x.Base.{
  ℕ, zero, suc, ◌+◌, ◌-◌, ◌*◌, ◌^◌, ◌≡◌, sym, ap, ◌∙◌, subst, Bool, true, false, not, ◌&&◌, ◌||◌,
  List, [], ◌∷◌, Option, none, some, bit_and, bit_or, bit_xor, get_or, set, ◌==◌, if◌then◌else◌,
  if-keeps, if-splits, both-true, ℕ_discrete, get_or-set_self, get_or-set_ne, ◌>>=◌, has_bits,
}
use mvisor_x.PciDevice.{
  Bar, PciDevice, no_bar, bar_at, header_bar, set_header_bar, is_typed, activate_pci_bar,
  remove_resource, deactivate_pci_bar, with_address, is_decoded, is64_high, update_pci_bar_address,
  write_bar, update_rom_bar_address, write_rom_bar, toggle, command_bar, command_bars, command_rom,
  command_intx, Managers, is_usable, is_mapped_at, write_pci_command, command_io, command_memory,
  intx_disable, status_interrupt,
}
use mvisor_x.PciDevice.Access.{
  Access, command_write, status_write, reset, bar_write, rom_write, disconnect, disconnect_bars,
  write_access, run_accesses,
}
use mvisor_x.PciDevice.Registered.{
  registered, decoded, expected, registered-cons_ne, registered-cons_self, registered-remove_ne,
  registered-remove_self, typed_in_range, active_in_range, set-expected,
}

abbrev pub IsMapped : PciDevice → Type 0
IsMapped d = (i : ℕ) → registered i d.resources ≡ expected (bar_at i d)

abbrev pub AllMapped : Option PciDevice → Type 0
AllMapped none = Unit {0}
AllMapped (some d) = IsMapped d

deactivate_pci_bar-IsMapped :
    (i : ℕ) (d : PciDevice)
    → IsMapped d
    → IsMapped (deactivate_pci_bar i d) × ((bar_at i (deactivate_pci_bar i d)).active ≡ false)
unfolding deactivate_pci_bar
deactivate_pci_bar-IsMapped i d h =
    if-splits (λ d'. IsMapped d' × ((bar_at i d').active ≡ false)) (bar_at i d).active
      (λ on.
        let b = bar_at i d in
        let off : Bar = record b { active = false } in
        let lt = active_in_range d.bars i on in
        let at = get_or-set_self d.bars i off no_bar lt in
        (
          λ j. elim (ℕ_discrete i j) [
            | yes same ↦
                let one : registered i d.resources ≡ (b.address64, b.size64) ∷ [] =
                  h i ∙ ap (λ x. decoded x b.address64 b.size64) on in
                subst
                  (λ q.
                    registered q (remove_resource i d.resources)
                    ≡ expected (get_or (set d.bars i off) q no_bar))
                  same
                  (registered-remove_self i d.resources (b.address64, b.size64) one
                    ∙ sym (ap expected at))
            | no ne ↦
                registered-remove_ne i j d.resources ne
                ∙ h j
                ∙ sym (ap expected (get_or-set_ne d.bars i j off no_bar ne))
          ],
          ap (λ x. x.active) at,
        ))
      (λ off. (h, off))

-- an inactive register may change its address
with_address-IsMapped :
    (high : Bool) (i address : ℕ) (d : PciDevice)
    → IsMapped d
    → (bar_at i d).active ≡ false
    → IsMapped (with_address high i address d)
with_address-IsMapped true i address d h off j =
    let b = bar_at i d in
    let a = header_bar (i + 1) d * 2 ^ 32 + bit_and (header_bar i d) 4294967280 in
    h j
    ∙ sym (
        set-expected d.bars i j (record b { address64 = a })
          (ap (λ x. decoded x a b.size64) off ∙ sym (ap (λ x. decoded x b.address64 b.size64) off)))
with_address-IsMapped false i address d h off j =
    let b = bar_at i d in
    h j
    ∙ sym (
        set-expected d.bars i j (record b { address64 = address; address = address })
          (ap (λ x. decoded x address b.size64) off
            ∙ sym (ap (λ x. decoded x b.address64 b.size64) off)))

-- one step after another
AllMapped-bind :
    (r : Option PciDevice) (f : PciDevice → Option PciDevice)
    → AllMapped r
    → ((d : PciDevice) → IsMapped d → AllMapped (f d))
    → AllMapped (r >>= f)
AllMapped-bind none f h k = tt
AllMapped-bind (some d) f h k = k d h

disconnect_bars-IsMapped :
    (i left : ℕ) (d : PciDevice) → IsMapped d → IsMapped (disconnect_bars i left d)
unfolding disconnect_bars
disconnect_bars-IsMapped i zero d h = h
disconnect_bars-IsMapped i (suc left) d h =
    disconnect_bars-IsMapped (suc i) left (deactivate_pci_bar i d)
      (deactivate_pci_bar-IsMapped i d h).0

module _ (managers : Managers) where
  pub activate_pci_bar-AllMapped :
      (i : ℕ) (d : PciDevice) → IsMapped d → AllMapped (activate_pci_bar managers i d)
  unfolding activate_pci_bar
  activate_pci_bar-AllMapped i d h =
      if-splits AllMapped (bar_at i d).active (λ on. h)
        (λ off.
          let test = is_usable (bar_at i d) && managers.enables i d in
          if-splits AllMapped (is_typed (bar_at i d).type && test)
            (λ ready j.
              let typed = (both-true (is_typed (bar_at i d).type) test ready).0 in
              let b = bar_at i d in
              let lt = typed_in_range d.bars i typed in
              elim (ℕ_discrete i j) [
                | yes same ↦
                    let none_yet : registered i d.resources ≡ [] =
                      h i ∙ ap (λ on. decoded on b.address64 b.size64) off in
                    subst
                      (λ q.
                        registered q ((i, b.address64, b.size64) ∷ d.resources)
                        ≡ expected (get_or (set d.bars i (record b { active = true })) q no_bar))
                      same
                      (registered-cons_self i b.address64 b.size64 d.resources
                        ∙ ap (λ rs. (b.address64, b.size64) ∷ rs) none_yet
                        ∙ sym (
                            ap expected
                              (get_or-set_self d.bars i (record b { active = true }) no_bar lt)))
                | no ne ↦
                    registered-cons_ne i j b.address64 b.size64 d.resources ne
                    ∙ h j
                    ∙ sym (
                        ap expected
                          (get_or-set_ne d.bars i j (record b { active = true }) no_bar ne))
              ])
            (λ other. tt))

  update_pci_bar_address-AllMapped :
      (i address : ℕ) (d : PciDevice)
      → IsMapped d
      → AllMapped (update_pci_bar_address managers i address d)
  unfolding update_pci_bar_address
  update_pci_bar_address-AllMapped i address d h =
      let op = if is64_high i d then i - 1 else i in
      let d1 : PciDevice = set_header_bar i (bit_or address (bar_at i d).special_bits) d in
      let (mapped, off) = deactivate_pci_bar-IsMapped op d1 h in
      let d2 : PciDevice = with_address (is64_high i d) op address (deactivate_pci_bar op d1) in
      let mapped2 : IsMapped d2 =
        with_address-IsMapped (is64_high i d) op address (deactivate_pci_bar op d1) mapped off in
      if-keeps AllMapped (is_decoded op d2) (activate_pci_bar-AllMapped op d2 mapped2) mapped2

  write_bar-AllMapped :
      (i value : ℕ) (d : PciDevice) → IsMapped d → AllMapped (write_bar managers i value d)
  unfolding write_bar
  write_bar-AllMapped i value d h = if-keeps AllMapped (bit_and value 4294967280 == 4294967280) h (
      if-keeps AllMapped ((bar_at i d).address == bit_and value (bar_at i d).address_mask) h
        (update_pci_bar_address-AllMapped i (bit_and value (bar_at i d).address_mask) d h))

  -- the ROM has no part in it
  update_rom_bar_address-AllMapped :
      (address : ℕ) (d : PciDevice)
      → IsMapped d
      → AllMapped (update_rom_bar_address managers address d)
  unfolding update_rom_bar_address
  update_rom_bar_address-AllMapped address d h =
      if-keeps AllMapped
        (not (has_bits d.command command_memory) || is_mapped_at d.rom_mapped address) h
        (if-keeps AllMapped (address == 0) h
          (if-keeps AllMapped (not (d.rom_size == 0) && managers.maps_rom address d) h tt))

  write_rom_bar-AllMapped :
      (value : ℕ) (d : PciDevice) → IsMapped d → AllMapped (write_rom_bar managers value d)
  unfolding write_rom_bar
  write_rom_bar-AllMapped value d h =
      if-keeps AllMapped (bit_and value 4294965248 == 4294965248) h
        (update_rom_bar_address-AllMapped (bit_and value 4294965248) d h)

  toggle-AllMapped :
      (changed on : Bool) (i : ℕ) (d : PciDevice)
      → IsMapped d
      → AllMapped (toggle managers changed on d i)
  toggle-AllMapped changed on i d h =
      if-keeps AllMapped changed
        (if-keeps AllMapped on (activate_pci_bar-AllMapped i d h)
          (deactivate_pci_bar-IsMapped i d h).0)
        h

  command_bar-AllMapped :
      (diff new i : ℕ) (d : PciDevice) → IsMapped d → AllMapped (command_bar managers diff new i d)
  unfolding command_bar
  command_bar-AllMapped diff new i d h =
      if-keeps AllMapped (not (is_typed (bar_at i d).type) || header_bar i d == 0) h (
        if-keeps AllMapped (has_bits (header_bar i d) 1)
          (toggle-AllMapped (has_bits diff command_io) (has_bits new command_io) i d h)
          (toggle-AllMapped (has_bits diff command_memory) (has_bits new command_memory) i d h))

  command_bars-AllMapped :
      (diff new i left : ℕ) (d : PciDevice)
      → IsMapped d
      → AllMapped (command_bars managers diff new i left d)
  unfolding command_bars
  command_bars-AllMapped diff new i zero d h = h
  command_bars-AllMapped diff new i (suc left) d h =
      AllMapped-bind (command_bar managers diff new i d)
        (command_bars managers diff new (suc i) left) (command_bar-AllMapped diff new i d h)
        (command_bars-AllMapped diff new (suc i) left)

  command_rom-AllMapped :
      (new : ℕ) (d : PciDevice) → IsMapped d → AllMapped (command_rom managers new d)
  unfolding command_rom
  command_rom-AllMapped new d h =
      if-keeps AllMapped (has_bits new command_memory)
        (if-keeps AllMapped (d.rom_bar == 0) h (update_rom_bar_address-AllMapped d.rom_bar d h)) h

  write_pci_command-AllMapped :
      (new : ℕ) (d : PciDevice) → IsMapped d → AllMapped (write_pci_command managers new d)
  unfolding write_pci_command
  write_pci_command-AllMapped new d h =
      let diff = bit_xor d.command new in
      AllMapped-bind (command_bars managers diff new 0 6 (record d { command = new }))
        (λ d1. command_rom managers new d1 >>= λ d2. some (command_intx diff new d2))
        (command_bars-AllMapped diff new 0 6 _ h)
        (λ d1 h1.
          AllMapped-bind (command_rom managers new d1) (λ d2. some (command_intx diff new d2))
            (command_rom-AllMapped new d1 h1)
            (λ d2 h2.
              if-keeps IsMapped (has_bits diff intx_disable && has_bits d2.status status_interrupt)
                h2 h2))

  write_access-AllMapped :
      (a : Access) (d : PciDevice) → IsMapped d → AllMapped (write_access managers a d)
  unfolding write_access
  write_access-AllMapped (command_write v) d h = write_pci_command-AllMapped v d h
  write_access-AllMapped (status_write v) d h = h
  write_access-AllMapped (bar_write i v) d h = write_bar-AllMapped i v d h
  write_access-AllMapped (rom_write v) d h = write_rom_bar-AllMapped v d h
  write_access-AllMapped (reset status command) d h =
      write_pci_command-AllMapped command (record d { status = status }) h
  write_access-AllMapped disconnect d h = disconnect_bars-IsMapped 0 6 d h

  run_accesses-AllMapped :
      (accesses : List Access) (d : PciDevice)
      → IsMapped d
      → AllMapped (run_accesses managers accesses d)
  unfolding run_accesses
  run_accesses-AllMapped [] d h = h
  run_accesses-AllMapped (a ∷ accesses) d h =
      AllMapped-bind (write_access managers a d) (run_accesses managers accesses)
        (write_access-AllMapped a d h) (run_accesses-AllMapped accesses)

  -- Whatever is written to the command, status, base address and ROM registers of a device, also
  -- with resets and a disconnection between, the resources of a register are these: one, at the
  -- register's address and of its size, if it is active, and none otherwise, provided that this
  -- holds at the start.
  pub run_accesses-IsMapped :
      (accesses : List Access) (d d' : PciDevice) (i : ℕ)
      → IsMapped d
      → run_accesses managers accesses d ≡ some d'
      → registered i d'.resources ≡ expected (bar_at i d')
  run_accesses-IsMapped accesses d d' i h e =
      let all : AllMapped (some d') = subst AllMapped e (run_accesses-AllMapped accesses d h) in
      all i
