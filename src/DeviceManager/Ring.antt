-- ===== src/DeviceManager/Ring.antt =====
-- `FlushCoalescingMmioBuffer` of core/device_manager.cc: the writes that KVM has put off. The ring has 170
-- entries, as many as fit into a page, and KVM adds none while it is flushed.
use mvisor_x.Base.{
  ℕ, zero, suc, ◌+◌, ◌-◌, ◌%◌, ◌^◌, ◌<◌, ◌≡◌, ◌≢◌, refl, sym, ap, ◌∙◌, Bool, true, List, ◌++◌,
  Option, none, some, arith, ◌==◌, if◌then◌else◌, if_same, if_ne, take, replicate,
}
use mvisor_x.DeviceManager.{DeviceManager}
use mvisor_x.DeviceManager.Lookup.{Devices, handle_io, handle_mmio}

-- `kvm_coalesced_mmio`
pub record Coalesced : Type 0 where
  pub phys_addr : ℕ
  pub len : ℕ
  pub to_port : Bool
  pub bytes : List ℕ

module _ {M S : Type 0} (devices : Devices (DeviceManager M × S)) (entries : ℕ → Coalesced) where
  -- one round of the loop
  unfoldable pub deliver : Coalesced → DeviceManager M × S → DeviceManager M × S
  deliver e st =
      let bytes = take e.len e.bytes ++ replicate (8 - e.len) 0 in
      if e.to_port
      then (handle_io devices (e.phys_addr % 2 ^ 16) bytes (e.len % 2 ^ 16) true 1 st).1
      else (handle_mmio devices e.phys_addr bytes (e.len % 2 ^ 16) true st).1

  -- `first` and the state at the end; without fuel `none`
  unfoldable pub flush_coalescing :
      ℕ → ℕ → ℕ → DeviceManager M × S → Option (ℕ × (DeviceManager M × S))
  flush_coalescing zero first last st = none
  flush_coalescing (suc fuel) first last st =
      let rest = flush_coalescing fuel ((first + 1) % 170) last (deliver (entries first) st) in
      if first == last then some (first, st) else rest

  -- n entries from a place on, in their order
  unfoldable pub deliver_from : ℕ → ℕ → DeviceManager M × S → DeviceManager M × S
  deliver_from zero place st = st
  deliver_from (suc n) place st = deliver_from n (place + 1) (deliver (entries (place % 170)) st)

  deliver_from-wrap :
      (n a b : ℕ) (st : DeviceManager M × S)
      → a % 170 ≡ b % 170
      → deliver_from n a st ≡ deliver_from n b st
  unfolding deliver_from
  deliver_from-wrap zero a b st e = refl
  deliver_from-wrap (suc n) a b st e =
      ap (λ p. deliver_from n (a + 1) (deliver (entries p) st)) e
      ∙ deliver_from-wrap n (a + 1) (b + 1) (deliver (entries (b % 170)) st) (omega (arith, e))

  flush-deliver_from :
      (n fuel first last : ℕ) (st : DeviceManager M × S)
      → first < 170
      → last < 170
      → n ≡ (last + 170 - first) % 170
      → n < fuel
      → flush_coalescing fuel first last st ≡ some (last, deliver_from n first st)
  unfolding flush_coalescing deliver_from
  flush-deliver_from n zero first last st lf ll e lt = absurd (omega (arith, lt))
  flush-deliver_from zero (suc fuel) first last st lf ll e lt =
      let same : first ≡ last = omega (arith, e, lf, ll) in
      let rest = flush_coalescing fuel ((first + 1) % 170) last (deliver (entries first) st) in
      if_same first last (some (first, st)) rest same ∙ ap (λ p. some (p, st)) same
  flush-deliver_from (suc n) (suc fuel) first last st lf ll e lt =
      let ne : first ≢ last = λ q. omega (arith, q, e, lf, ll) in
      let here : first % 170 ≡ first = omega (arith, lf) in
      let st1 = deliver (entries first) st in
      let next = (first + 1) % 170 in
      if_ne first last (some (first, st)) (flush_coalescing fuel next last st1) ne
      ∙ flush-deliver_from n fuel next last st1 (omega arith) ll (omega (arith, e, lf, ll, ne))
          (omega (arith, lt))
      ∙ ap (λ q. some (last, q))
          (deliver_from-wrap n next (first + 1) st1 (omega arith)
            ∙ ap (λ p. deliver_from n (first + 1) (deliver (entries p) st)) (sym here))

  -- The flush of a ring whose indices lie in it ends after at most as many rounds as it has entries: it
  -- hands on what lies between `first` and `last`, in the order of the ring and each once, and leaves
  -- the ring empty.
  pub flush_coalescing-total :
      (first last : ℕ) (st : DeviceManager M × S)
      → first < 170
      → last < 170
      → flush_coalescing 170 first last st
        ≡ some (last, deliver_from ((last + 170 - first) % 170) first st)
  flush_coalescing-total first last st lf ll =
      flush-deliver_from ((last + 170 - first) % 170) 170 first last st lf ll refl (omega arith)
