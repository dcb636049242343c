-- ===== src/DeviceManager/Unordered.antt =====
-- The order of the handlers of core/device_manager.cc is not seen by a guest.
use mvisor_x.Base.{
  ℕ, ◌≡◌, refl, sym, ap, ◌∙◌, subst, Bool, List, [], ◌∷◌, Option, none, some, ◌>>=◌,
}
use mvisor_x.DeviceManager.{
  IoHandler, Host, DeviceManager, register_typed, register_io_handler, unregister_typed,
  unregister_io_handler, find_handler, move_to_front,
}
use mvisor_x.DeviceManager.Lookup.{Devices, io_found, handle_io}
use mvisor_x.DeviceManager.Registry.{IsDisjoint, find_handler-Found, AreSame, Found-AreSame}
use mvisor_x.DeviceManager.Dispatch.{
  Event, register, unregister, access, AreRanges, on_devices, prepend, plain_io, step, run,
}
use mvisor_x.DeviceManager.Agree.{
  AreAlike, BothAlike, register-BothAlike, unregister-BothAlike, moved-AreAlike,
  io_found-on_devices, io_found_same,
}

module _ {M S : Type 0} (host : Host M) (devices : Devices S) where
  abbrev StepAlike :
      Option (List ℕ × (DeviceManager M × S)) → Option (List ℕ × (DeviceManager M × S)) → Type 0
  StepAlike none none = Unit {0}
  StepAlike none (some r) = ⊥
  StepAlike (some r) none = ⊥
  StepAlike (some (o, (m, s))) (some (o', (m', s'))) =
      (o ≡ o') × (s ≡ s') × AreAlike host devices m m'

  after-StepAlike :
      (o o' : Option (DeviceManager M)) (s : S)
      → BothAlike host devices o o'
      → StepAlike (o >>= λ m1. some ([], (m1, s))) (o' >>= λ m1. some ([], (m1, s)))
  after-StepAlike none none s a = tt
  after-StepAlike none (some m') s a = absurd a
  after-StepAlike (some m) none s a = absurd a
  after-StepAlike (some m) (some m') s a = (refl, refl, a)

  module _ (m : DeviceManager M) (ks : List IoHandler) (same : AreSame m.pio_handlers ks)
      (d : IsDisjoint m.pio_handlers) (d' : IsDisjoint ks) (s : S) where
    access-StepAlike :
        (port : ℕ) (bytes : List ℕ) (size : ℕ) (is_write : Bool) (count : ℕ)
        → StepAlike (some (handle_io (on_devices devices) port bytes size is_write count (m, s))) (
            some (
              plain_io host devices port bytes size is_write count
                (record m { pio_handlers = ks }, s)))
    unfolding handle_io plain_io
    access-StepAlike port bytes size is_write count =
        let found = find_handler 0 port m.pio_handlers in
        let found' = find_handler 0 port ks in
        let m1 : DeviceManager M = record m { pio_handlers = move_to_front found m.pio_handlers } in
        let e = io_found_same host devices found found' is_write count port size bytes s (
          Found-AreSame port m.pio_handlers ks found found' d same
            (find_handler-Found 0 port m.pio_handlers) (find_handler-Found 0 port ks)) in
        subst
          (λ r. StepAlike (some r) (
            some (
              (io_found devices found' is_write count port size bytes s).0,
              (
                record m { pio_handlers = ks },
                (io_found devices found' is_write count port size bytes s).1,
              ),
            )))
          (sym (io_found-on_devices host devices found is_write count port size bytes m1 s))
          (ap (λ r. r.0) e, ap (λ r. r.1) e, moved-AreAlike host devices m ks same d d' port)

    step-StepAlike :
        (e : Event) (events : List Event)
        → AreRanges (e ∷ events)
        → StepAlike
            (step host devices (handle_io (on_devices devices)) e (m, s))
            (step host devices (plain_io host devices) e (record m { pio_handlers = ks }, s))
          × AreRanges events
    unfolding step register_io_handler unregister_io_handler
    step-StepAlike (register device r) events (range, rest) = (
      after-StepAlike (register_typed host r.type device r m)
          (register_typed host r.type device r (record m { pio_handlers = ks })) s
          (register-BothAlike host devices m ks same d d' r.type device r range),
      rest,
    )
    step-StepAlike (unregister device r) events rest = (
      after-StepAlike (unregister_typed host r.type device r m)
          (unregister_typed host r.type device r (record m { pio_handlers = ks })) s
          (unregister-BothAlike host devices m ks same d d' r.type device r),
      rest,
    )
    step-StepAlike (access port bytes size is_write count) events rest =
        (access-StepAlike port bytes size is_write count, rest)

  abbrev Agrees : List Event → Type 0
  Agrees events =
      (m : DeviceManager M) (ks : List IoHandler) (s : S)
      → AreSame m.pio_handlers ks
      → IsDisjoint m.pio_handlers
      → IsDisjoint ks
      → run host devices (handle_io (on_devices devices)) events (m, s)
        ≡ run host devices (plain_io host devices) events (record m { pio_handlers = ks }, s)

  continue-Agrees :
      (events : List Event)
      → Agrees events
      → (x x' : Option (List ℕ × (DeviceManager M × S))) → StepAlike x x'
      → (x >>= λ (out, st1).
          prepend out (run host devices (handle_io (on_devices devices)) events st1))
        ≡ (x' >>= λ (out, st1). prepend out (run host devices (plain_io host devices) events st1))
  continue-Agrees events ih none none a = refl
  continue-Agrees events ih none (some r) a = absurd a
  continue-Agrees events ih (some r) none a = absurd a
  continue-Agrees events ih (some (o, (m, s))) (some (o', (m', s'))) (eo, es, (em, same, d, d')) =
      let rest : run host devices (handle_io (on_devices devices)) events (m, s)
          ≡ run host devices (plain_io host devices) events (m', s') =
        ih m m'.pio_handlers s same d d'
        ∙ ap (λ q. run host devices (plain_io host devices) events (q, s)) (sym em)
        ∙ ap (λ q. run host devices (plain_io host devices) events (m', q)) es in
      ap (prepend o) rest
      ∙ ap (λ w. prepend w (run host devices (plain_io host devices) events (m', s'))) eo

  run-Agrees : (events : List Event) → AreRanges events → Agrees events
  unfolding run
  run-Agrees [] ranges m ks s same d d' = refl
  run-Agrees (e ∷ events) ranges m ks s same d d' =
      let (alike, rest) = step-StepAlike m ks same d d' s e events ranges in
      continue-Agrees events (run-Agrees events rest) _ _ alike

  -- Whatever sequence of registrations, removals and accesses of ports there is, of resources that are
  -- ranges below 2 ^ 64 and with devices that do not call the manager, it panics just when the same
  -- sequence does without moving handlers to the front, and otherwise the guest reads the same bytes
  -- and the devices end in the same state, if the handlers are apart at the start.
  pub handle_io-plain_io :
      (events : List Event) (m : DeviceManager M) (s : S)
      → AreRanges events
      → IsDisjoint m.pio_handlers
      → run host devices (handle_io (on_devices devices)) events (m, s)
        ≡ run host devices (plain_io host devices) events (m, s)
  handle_io-plain_io events m s ranges d =
      run-Agrees events ranges m m.pio_handlers s (λ h. (λ n. n, λ n. n)) d d
