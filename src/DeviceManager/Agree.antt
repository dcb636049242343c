-- ===== src/DeviceManager/Agree.antt =====
-- The manager of core/device_manager.cc answers as one that never moves its handlers.
use mvisor_x.Base.{
  ℕ, zero, suc, ◌*◌, ◌-◌, ◌≡◌, inl, inr, refl, sym, ap, subst, Bool, true, false, List, [], ◌∷◌,
  ◌++◌, Option, none, some, if◌then◌else◌, ◌>>=◌, ◌%◌, ◌^◌, some_inj, take, drop,
}
use mvisor_x.PciDevice.{ResourceType, untyped, pio, mmio, ram}
use mvisor_x.DeviceManager.{
  IoResource, IoHandler, Host, DeviceManager, find_overlap, erase_handler, find_erased,
  register_port, add_zone, register_memory, register_typed, remove_zone, unmap_erased,
  unregister_typed, find_handler, move_to_front,
}
use mvisor_x.DeviceManager.Lookup.{Devices, write_each, read_each, call_device, io_found}
use mvisor_x.DeviceManager.Registry.{
  Has, IsRange, AreApart, IsDisjoint, IsDisjoint-ranges, find_handler-Found, move_to_front-Has,
  Compared, find_overlap-Compared, AreSame, Compared-AreSame, handler_of,
}
use mvisor_x.DeviceManager.Changes.{
  erase_handler-IsDisjoint, erase_handler-Has, Has-append, append-IsDisjoint,
  move_to_front-IsDisjoint,
}
use mvisor_x.DeviceManager.Dispatch.{on_devices}

module _ {M S : Type 0} (host : Host M) (devices : Devices S) where
  -- two managers with the same handlers of ports, and all else equal
  abbrev pub AreAlike : DeviceManager M → DeviceManager M → Type 0
  AreAlike m m' =
      (m' ≡ record m { pio_handlers = m'.pio_handlers })
      × AreSame m.pio_handlers m'.pio_handlers
      × IsDisjoint m.pio_handlers
      × IsDisjoint m'.pio_handlers

  abbrev pub BothAlike : Option (DeviceManager M) → Option (DeviceManager M) → Type 0
  BothAlike none none = Unit {0}
  BothAlike none (some m') = ⊥
  BothAlike (some m) none = ⊥
  BothAlike (some m) (some m') = AreAlike m m'

  module _ (m : DeviceManager M) (ks : List IoHandler) (same : AreSame m.pio_handlers ks)
      (d : IsDisjoint m.pio_handlers) (d' : IsDisjoint ks) where
    zone-BothAlike :
        (o : Option M) (b : Bool)
        → BothAlike (if b then (o >>= λ memory. some (record m { memory = memory })) else some m) (
            if b
            then (o >>= λ memory. some (record m { pio_handlers = ks; memory = memory }))
            else some (record m { pio_handlers = ks }))
    zone-BothAlike o false = (refl, same, d, d')
    zone-BothAlike none true = tt
    zone-BothAlike (some memory) true = (refl, same, d, d')

    overlap_same : (r : IoResource) → IsRange r → find_overlap m.pio_handlers r ≡ find_overlap ks r
    overlap_same r range =
        Compared-AreSame m.pio_handlers ks r (find_overlap m.pio_handlers r) (find_overlap ks r)
          same (find_overlap-Compared m.pio_handlers r (IsDisjoint-ranges m.pio_handlers d) range)
          (find_overlap-Compared ks r (IsDisjoint-ranges ks d') range)

    port_result :
        (device : ℕ) (r : IoResource)
        → IsRange r
        → (h : IoHandler) → h.resource ≡ r
        → (o o' : Option Bool) → o ≡ o'
        → Compared m.pio_handlers r o
        → Compared ks r o'
        → BothAlike
            ((o >>= λ found. if found then none else some (m.pio_handlers ++ (h ∷ []))) >>= λ hs.
              some (record m { pio_handlers = hs }))
            ((o' >>= λ found. if found then none else some (ks ++ (h ∷ []))) >>= λ hs.
              some (record m { pio_handlers = hs }))
    port_result device r range h at none o' e c c' = absurd c
    port_result device r range h at (some b) none e c c' = absurd c'
    port_result device r range h at (some true) (some true) e c c' = tt
    port_result device r range h at (some true) (some false) e c c' = absurd (cc)
    port_result device r range h at (some false) (some true) e c c' = absurd (cc)
    port_result device r range h at (some false) (some false) e c c' =
        let range' : IsRange h.resource = subst IsRange (sym at) range in
        let away : (hs : List IoHandler)
            → ((k : IoHandler) → Has k hs → AreApart k.resource r)
            → (k : IoHandler) → Has k hs
            → AreApart k.resource h.resource =
          λ hs f k n. subst (AreApart k.resource) (sym at) (f k n) in
        (
          refl,
          λ k.
              let (f, g) = Has-append m.pio_handlers h k in
              let (f', g') = Has-append ks h k in
              (
                λ n. g' (elim (f n) [ inl q ↦ inl ((same k).0 q) | inr q ↦ inr q ]),
                λ n. g (elim (f' n) [ inl q ↦ inl ((same k).1 q) | inr q ↦ inr q ]),
              ),
          append-IsDisjoint m.pio_handlers h d range' (away m.pio_handlers c),
          append-IsDisjoint ks h d' range' (away ks c'),
        )

    register_port-BothAlike :
        (device : ℕ) (r : IoResource)
        → IsRange r
        → BothAlike
            (register_port device r m.pio_handlers >>= λ hs. some (record m { pio_handlers = hs }))
            (register_port device r ks >>= λ hs. some (record m { pio_handlers = hs }))
    unfolding register_port
    register_port-BothAlike device r range =
        let h : IoHandler = record { resource = r; device = device; memory_region = none } in
        let c = find_overlap-Compared m.pio_handlers r (IsDisjoint-ranges m.pio_handlers d) range in
        let c' = find_overlap-Compared ks r (IsDisjoint-ranges ks d') range in
        let e = overlap_same r range in
        port_result device r range h refl (find_overlap m.pio_handlers r) (find_overlap ks r) e c c'

    erased-AreAlike :
        (device base : ℕ)
        → AreAlike
            (record m { pio_handlers = erase_handler device base m.pio_handlers })
            (record m { pio_handlers = erase_handler device base ks })
    erased-AreAlike device base = (
      refl,
      λ h.
          let (f, g) = erase_handler-Has device base m.pio_handlers h d in
          let (f', g') = erase_handler-Has device base ks h d' in
          (λ n. g' ((same h).0 (f n).0, (f n).1), λ n. g ((same h).1 (f' n).0, (f' n).1)),
      erase_handler-IsDisjoint device base m.pio_handlers d,
      erase_handler-IsDisjoint device base ks d',
    )

    overlapped-BothAlike :
        (r : IoResource) (o o' : Option Bool)
        → o ≡ o'
        → BothAlike (o >>= λ found. if found then none else add_zone host r m) (
            o' >>= λ found.
            if found then none else add_zone host r (record m { pio_handlers = ks }))
    overlapped-BothAlike r none none e = tt
    overlapped-BothAlike r none (some b) e = absurd (cc)
    overlapped-BothAlike r (some b) none e = absurd (cc)
    overlapped-BothAlike r (some true) (some true) e = tt
    overlapped-BothAlike r (some true) (some false) e = absurd (cc)
    overlapped-BothAlike r (some false) (some true) e = absurd (cc)
    overlapped-BothAlike r (some false) (some false) e =
        zone-BothAlike (host.register_zone r.base (r.length % 2 ^ 32) m.memory) r.is_coalescing

    remove_zone-BothAlike :
        (r : IoResource)
        → BothAlike (remove_zone host r m) (remove_zone host r (record m { pio_handlers = ks }))
    remove_zone-BothAlike r =
        zone-BothAlike (host.unregister_zone r.base (r.length % 2 ^ 32) m.memory) r.is_coalescing

  module _ (m : DeviceManager M) (ks : List IoHandler) (same : AreSame m.pio_handlers ks)
      (d : IsDisjoint m.pio_handlers) (d' : IsDisjoint ks) where
    pub register-BothAlike :
        (t : ResourceType) (device : ℕ) (r : IoResource)
        → IsRange r
        → BothAlike
            (register_typed host t device r m)
            (register_typed host t device r (record m { pio_handlers = ks }))
    unfolding register_memory
    register-BothAlike untyped device r range = (refl, same, d, d')
    register-BothAlike ram device r range = (refl, same, d, d')
    register-BothAlike pio device r range = register_port-BothAlike m ks same d d' device r range
    register-BothAlike mmio device r range =
        let (region, memory) = host.map r.base r.length m.memory in
        let m1 : DeviceManager M = record m {
          mmio_handlers =
              m.mmio_handlers
              ++ (record { resource = r; device = device; memory_region = some region } ∷ []);
          memory = memory;
        } in
        overlapped-BothAlike m1 ks same d d' r (find_overlap m.pio_handlers r) (find_overlap ks r)
          (overlap_same m ks same d d' r range)

    pub unregister-BothAlike :
        (t : ResourceType) (device : ℕ) (r : IoResource)
        → BothAlike
            (unregister_typed host t device r m)
            (unregister_typed host t device r (record m { pio_handlers = ks }))
    unregister-BothAlike untyped device r = (refl, same, d, d')
    unregister-BothAlike ram device r = (refl, same, d, d')
    unregister-BothAlike pio device r = erased-AreAlike m ks same d d' device r.base
    unregister-BothAlike mmio device r =
        let m1 : DeviceManager M = record m {
          mmio_handlers = erase_handler device r.base m.mmio_handlers;
          memory = unmap_erased host (find_erased device r.base m.mmio_handlers) m.memory;
        } in
        remove_zone-BothAlike m1 ks same d d' r

    pub moved-AreAlike :
        (port : ℕ)
        → AreAlike
            (record m {
              pio_handlers = move_to_front (find_handler 0 port m.pio_handlers) m.pio_handlers;
            })
            (record m { pio_handlers = ks })
    moved-AreAlike port =
        let found = find_handler 0 port m.pio_handlers in
        let f = find_handler-Found 0 port m.pio_handlers in
        (
          refl,
          λ h.
              let (to, from) = move_to_front-Has port m.pio_handlers found h f in
              (λ n. (same h).0 (to n), λ n. from ((same h).1 n)),
          move_to_front-IsDisjoint port m.pio_handlers found d f,
          d',
        )

  -- an access passes the manager by
  write_each-on_devices :
      (count : ℕ) (h : IoHandler) (offset size : ℕ) (bytes : List ℕ) (m : DeviceManager M) (s : S)
      → write_each (on_devices devices) count h offset size bytes (m, s)
        ≡ (m, write_each devices count h offset size bytes s)
  unfolding write_each
  write_each-on_devices zero h offset size bytes m s = refl
  write_each-on_devices (suc count) h offset size bytes m s =
      write_each-on_devices count h offset size (drop size bytes) m
        (devices.write h.device h.resource offset (take size bytes) s)

  read_each-on_devices :
      (count : ℕ) (h : IoHandler) (offset size : ℕ) (bytes : List ℕ) (m : DeviceManager M) (s : S)
      → read_each (on_devices devices) count h offset size bytes (m, s)
        ≡ (let r = read_each devices count h offset size bytes s in (r.0, (m, r.1)))
  unfolding read_each
  read_each-on_devices zero h offset size bytes m s = refl
  read_each-on_devices (suc count) h offset size bytes m s =
      let (bytes1, s1) = devices.read h.device h.resource offset (take size bytes) s in
      ap (λ r. (bytes1 ++ r.0, r.1))
        (read_each-on_devices count h offset size (drop size bytes) m s1)

  pub io_found-on_devices :
      (found : Option (ℕ × IoHandler)) (is_write : Bool) (count port size : ℕ) (bytes : List ℕ)
      (m : DeviceManager M) (s : S)
      → io_found (on_devices devices) found is_write count port size bytes (m, s)
        ≡ (let r = io_found devices found is_write count port size bytes s in (r.0, (m, r.1)))
  unfolding call_device
  io_found-on_devices none is_write count port size bytes m s = refl
  io_found-on_devices (some (i, h)) true count port size bytes m s =
      ap (λ t. (bytes, t)) (write_each-on_devices count h (port - h.resource.base) size bytes m s)
  io_found-on_devices (some (i, h)) false count port size bytes m s =
      ap (λ t. (t.0 ++ drop (size * count) bytes, t.1))
        (read_each-on_devices count h (port - h.resource.base) size bytes m s)

  pub io_found_same :
      (found found' : Option (ℕ × IoHandler)) (is_write : Bool) (count port size : ℕ)
      (bytes : List ℕ) (s : S)
      → handler_of found ≡ handler_of found'
      → io_found devices found is_write count port size bytes s
        ≡ io_found devices found' is_write count port size bytes s
  io_found_same none none is_write count port size bytes s e = refl
  io_found_same none (some (i, h)) is_write count port size bytes s e = absurd (cc)
  io_found_same (some (i, h)) none is_write count port size bytes s e = absurd (cc)
  io_found_same (some (i, h)) (some (i', h')) is_write count port size bytes s e =
      ap (λ k. call_device devices is_write count k port size bytes s) (some_inj e)
