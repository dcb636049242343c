-- ===== src/DeviceManager/Slots.antt =====
-- The addresses that `RegisterDevice` of core/device_manager.cc gives to PCI devices. `registered_devices_`
-- is the list of their addresses, in which `LookupPciDevice` searches.
use mvisor_x.Base.{
  ℕ, zero, suc, ◌+◌, ◌≤◌, ◌<◌, ◌≡◌, refl, sym, ap, ◌∙◌, subst, Bool, true, false, ◌&&◌, List, [],
  ◌∷◌, Option, none, some, arith, ◌==◌, if◌then◌else◌, if-splits, if-keeps, if_same, ℕ_discrete,
  ◌>>=◌, has_bits,
}

pub record PciAddress : Type 0 where
  pub bus : ℕ
  pub slot : ℕ
  pub function : ℕ

abbrev pub is_address : PciAddress → PciAddress → Bool
is_address a b = a.bus == b.bus && (a.slot == b.slot && a.function == b.function)

-- `LookupPciDevice` finds a device
unfoldable pub lookup_pci_device : PciAddress → List PciAddress → Bool
lookup_pci_device a [] = false
lookup_pci_device a (d ∷ ds) = if is_address d a then true else lookup_pci_device a ds

-- the loops for a free function and for a free slot
unfoldable pub free_function : ℕ → ℕ → PciAddress → List PciAddress → PciAddress
free_function i zero a ds = a
free_function i (suc left) a ds =
    let rest = free_function (suc i) left a ds in
    let b : PciAddress = record a { function = i } in if lookup_pci_device b ds then rest else b

unfoldable pub free_slot : ℕ → ℕ → PciAddress → List PciAddress → PciAddress
free_slot i zero a ds = a
free_slot i (suc left) a ds =
    let rest = free_slot (suc i) left a ds in
    let b : PciAddress = record a { slot = i } in if lookup_pci_device b ds then rest else b

-- a parent that is a PCI device: its header type and its slot
abbrev pub assign : Option (ℕ × ℕ) → PciAddress → List PciAddress → PciAddress
assign none a ds = free_slot 1 30 a ds
assign (some (header_type, slot)) a ds =
    if has_bits header_type 128
    then free_function 0 8 (record a { slot = slot }) ds
    else free_slot 1 30 a ds

-- `RegisterDevice` of a PCI device
unfoldable pub register_device :
    Option (ℕ × ℕ) → PciAddress → List PciAddress → Option (List PciAddress)
register_device parent a ds =
    let b = if a.slot == 255 then assign parent a ds else a in
    if lookup_pci_device b ds then none else some (b ∷ ds)

-- `UnregisterDevice`
unfoldable pub unregister_device : PciAddress → List PciAddress → List PciAddress
unregister_device a [] = []
unregister_device a (d ∷ ds) = if is_address d a then ds else d ∷ unregister_device a ds

pub data Registration : Type 0 where
  arrive : Option (ℕ × ℕ) → PciAddress → Registration
  leave : PciAddress → Registration

unfoldable pub registrations : List Registration → List PciAddress → Option (List PciAddress)
registrations [] ds = some ds
registrations (arrive parent a ∷ rs) ds = register_device parent a ds >>= registrations rs
registrations (leave a ∷ rs) ds = registrations rs (unregister_device a ds)

-- no two devices have one address
abbrev pub AreDistinct : List PciAddress → Type 0
AreDistinct [] = Unit {0}
AreDistinct (d ∷ ds) = (lookup_pci_device d ds ≡ false) × AreDistinct ds

abbrev AllDistinct : Option (List PciAddress) → Type 0
AllDistinct none = Unit {0}
AllDistinct (some ds) = AreDistinct ds

lookup-unregister :
    (a b : PciAddress) (ds : List PciAddress)
    → lookup_pci_device a ds ≡ false
    → lookup_pci_device a (unregister_device b ds) ≡ false
unfolding lookup_pci_device unregister_device
lookup-unregister a b [] e = refl
lookup-unregister a b (d ∷ ds) e = ground (arith, lookup-unregister a b ds, e)

unregister_device-AreDistinct :
    (b : PciAddress) (ds : List PciAddress) → AreDistinct ds → AreDistinct (unregister_device b ds)
unfolding unregister_device
unregister_device-AreDistinct b [] h = h
unregister_device-AreDistinct b (d ∷ ds) (free, h) =
    if-keeps AreDistinct (is_address d b) h
      (lookup-unregister d b ds free, unregister_device-AreDistinct b ds h)

registrations-AllDistinct :
    (rs : List Registration) (ds : List PciAddress)
    → AreDistinct ds
    → AllDistinct (registrations rs ds)
unfolding registrations register_device
registrations-AllDistinct [] ds h = h
registrations-AllDistinct (arrive parent a ∷ rs) ds h =
    let b = if a.slot == 255 then assign parent a ds else a in
    if-splits (λ o. AllDistinct (o >>= registrations rs)) (lookup_pci_device b ds) (λ e. tt)
      (λ free. registrations-AllDistinct rs (b ∷ ds) (free, h))
registrations-AllDistinct (leave a ∷ rs) ds h =
    registrations-AllDistinct rs (unregister_device a ds) (unregister_device-AreDistinct a ds h)

-- Whatever PCI devices are registered and unregistered, none of it a panic, no two of those that are
-- there have the same bus, slot and function.
pub registrations-AreDistinct :
    (rs : List Registration) (ds : List PciAddress) → registrations rs [] ≡ some ds → AreDistinct ds
registrations-AreDistinct rs ds e =
    let all : AllDistinct (some ds) = subst AllDistinct e (registrations-AllDistinct rs [] tt) in
    all

-- the loop stops at the first free slot
abbrev SlotResult : ℕ → ℕ → PciAddress → List PciAddress → PciAddress → Type 0
SlotResult i end a ds b =
    (s : ℕ) × (b ≡ record a { slot = s })
    × (i ≤ s)
    × (s < end)
    × (lookup_pci_device (record a { slot = s }) ds ≡ false)
    × ((j : ℕ) → i ≤ j → j < s → lookup_pci_device (record a { slot = j }) ds ≡ true)

passed_slot : (p : ℕ → Bool) (i j : ℕ) → i ≤ j → p i ≡ true → p j ≡ false → suc i ≤ j
passed_slot p i j le used free = elim (ℕ_discrete i j) [
  | yes e ↦ (let bad = sym used ∙ ap p e ∙ free in absurd (cc))
  | no ne ↦ omega (arith, le, ne)
]

used_slots :
    (p : ℕ → Bool) (i s : ℕ)
    → p i ≡ true
    → ((j : ℕ) → suc i ≤ j → j < s → p j ≡ true)
    → (j : ℕ) → i ≤ j
    → j < s
    → p j ≡ true
used_slots p i s used below j le lt = elim (ℕ_discrete i j) [
  | yes e ↦ ap p (sym e) ∙ used
  | no ne ↦ below j (omega (arith, le, ne)) lt
]

free_slot-SlotResult :
    (i left j : ℕ) (a : PciAddress) (ds : List PciAddress)
    → i ≤ j
    → j < i + left
    → lookup_pci_device (record a { slot = j }) ds ≡ false
    → SlotResult i (i + left) a ds (free_slot i left a ds)
unfolding free_slot
free_slot-SlotResult i zero j a ds low high free = absurd (omega (arith, low, high))
free_slot-SlotResult i (suc left) j a ds low high free =
    if-splits (SlotResult i (i + suc left) a ds) (lookup_pci_device (record a { slot = i }) ds)
      (λ used.
        let p : ℕ → Bool = λ q. lookup_pci_device (record a { slot = q }) ds in
        let apart : suc i ≤ j = passed_slot p i j low used free in
        let (s, e, le, lt, open_slot, below) =
          free_slot-SlotResult (suc i) left j a ds apart (omega (arith, high)) free in
        (s, e, omega (arith, le), omega (arith, lt), open_slot, used_slots p i s used below))
      (λ here. (i, refl, omega arith, omega arith, here, λ q lo hi. absurd (omega (arith, lo, hi))))

-- A device without an address, whose parent is no PCI device, is registered at the first free of the
-- slots 1 to 30 of its bus and function, if one of these is free.
pub register_device-first_slot :
    (a : PciAddress) (ds : List PciAddress) (j : ℕ)
    → a.slot ≡ 255
    → 1 ≤ j
    → j < 31
    → lookup_pci_device (record a { slot = j }) ds ≡ false
    → (s : ℕ) × (register_device none a ds ≡ some (record a { slot = s } ∷ ds))
      × (1 ≤ s)
      × (s < 31)
      × (lookup_pci_device (record a { slot = s }) ds ≡ false)
      × ((q : ℕ) → 1 ≤ q → q < s → lookup_pci_device (record a { slot = q }) ds ≡ true)
unfolding register_device
register_device-first_slot a ds j auto low high free =
    let (s, e, le, lt, open_slot, below) =
      free_slot-SlotResult 1 30 j a ds low (omega (arith, high)) free in
    let chosen : (if a.slot == 255 then free_slot 1 30 a ds else a) ≡ record a { slot = s } =
      if_same a.slot 255 (free_slot 1 30 a ds) a auto ∙ e in
    (
      s,
      ap (λ (b : PciAddress). if lookup_pci_device b ds then none else some (b ∷ ds)) chosen
          ∙ ap (λ b. if b then none else some (record a { slot = s } ∷ ds)) open_slot,
      le,
      omega (arith, lt),
      open_slot,
      below,
    )
