-- ===== src/Memory/Translate.antt =====
-- Address translation over the slot table of core/memory_manager.cc.
use mvisor_x.Base.{
  ℕ, ◌+◌, ◌-◌, ◌≤◌, ◌<◌, ◌≡◌, ◌≢◌, refl, true, List, [], ◌∷◌, Option, none, some, ◌&&◌, ◌⊎◌, inl,
  inr, Bool-cases, Option-cases, arith, ◌↔◌,
}
use mvisor_x.Memory.Types.{MemorySlot, is_ram}
use mvisor_x.Memory.Api.{
  slot_before, first_slot, guest_to_host_address, host_to_guest_address, holds_host,
}

-- The table is a flat view: ordered from `lo` on, without overlaps, no slot empty, and neither the
-- guest nor the host addresses of a slot wrap.
abbrev pub IsFlat : ℕ → List (ℕ × MemorySlot) → Type 0
IsFlat lo [] = Unit {0}
IsFlat lo ((k, s) ∷ m) =
    (k ≡ s.begin)
    × (lo ≤ k)
    × (s.begin < s.end)
    × (s.end < 18446744073709551616)
    × (s.hva + (s.end - s.begin) < 18446744073709551616)
    × IsFlat s.end m

-- the slot stands in the table
abbrev pub InTable : MemorySlot → List (ℕ × MemorySlot) → Type 0
InTable s [] = ⊥
InTable s ((k, t) ∷ m) = (t ≡ s) ⊎ InTable s m

-- the guest address lies in the slot
abbrev pub Holds : MemorySlot → ℕ → Type 0
Holds s gpa = (s.begin ≤ gpa) × (gpa < s.end)

slot_before-above :
    (gpa lo : ℕ) (o : Option MemorySlot) (m : List (ℕ × MemorySlot))
    → IsFlat lo m
    → gpa < lo
    → slot_before gpa o m ≡ o
unfolding slot_before
slot_before-above gpa lo o [] f h = refl
slot_before-above gpa lo o ((k, s) ∷ m) f h = ground arith

slot_bounds :
    (s : MemorySlot) (lo : ℕ) (m : List (ℕ × MemorySlot))
    → IsFlat lo m
    → InTable s m
    → (lo ≤ s.begin)
      × (s.begin < s.end)
      × (s.end < 18446744073709551616)
      × (s.hva + (s.end - s.begin) < 18446744073709551616)
slot_bounds s lo [] f i = absurd i
slot_bounds s lo ((k, t) ∷ m) f (inl e) = ground arith
slot_bounds s lo ((k, t) ∷ m) f (inr i) = ground (arith, slot_bounds s t.end m f.5 i)

slot_before-Holds :
    (gpa : ℕ) (s : MemorySlot) (o : Option MemorySlot) (lo : ℕ) (m : List (ℕ × MemorySlot))
    → IsFlat lo m
    → InTable s m
    → Holds s gpa
    → slot_before gpa o m ≡ some s
unfolding slot_before
slot_before-Holds gpa s o lo [] f i h = absurd i
slot_before-Holds gpa s o lo ((k, t) ∷ m) f (inl e) h =
    ground (arith, slot_before-above gpa t.end (some t) m f.5)
slot_before-Holds gpa s o lo ((k, t) ∷ m) f (inr i) h =
    ground (arith, slot_bounds s t.end m f.5 i, slot_before-Holds gpa s (some t) t.end m f.5 i)

slot_before-InTable :
    (gpa : ℕ) (s : MemorySlot) (o : Option MemorySlot) (m : List (ℕ × MemorySlot))
    → slot_before gpa o m ≡ some s
    → (o ≡ some s) ⊎ InTable s m
unfolding slot_before
slot_before-InTable gpa s o [] h = inl h
slot_before-InTable gpa s o ((k, t) ∷ m) h = ground (arith, slot_before-InTable gpa s (some t) m)

-- A guest address of a slot of the table translates, to the host address at the same distance
-- from the slot's first.
pub guest_to_host_address-some :
    (gpa : ℕ) (s : MemorySlot) (lo : ℕ) (m : List (ℕ × MemorySlot))
    → IsFlat lo m
    → InTable s m
    → Holds s gpa
    → guest_to_host_address gpa m ≡ some (s.hva + (gpa - s.begin))
unfolding guest_to_host_address
guest_to_host_address-some gpa s lo m f i h =
    ground (arith, slot_bounds s lo m f i, slot_before-Holds gpa s (first_slot m) lo m f i h)

first_slot-InTable :
    (s : MemorySlot) (m : List (ℕ × MemorySlot)) → first_slot m ≡ some s → InTable s m
first_slot-InTable s [] h = cc
first_slot-InTable s ((k, t) ∷ m) h = inl (cc)

slot_before_first-InTable :
    (gpa : ℕ) (s : MemorySlot) (m : List (ℕ × MemorySlot))
    → slot_before gpa (first_slot m) m ≡ some s
    → InTable s m
slot_before_first-InTable gpa s m h = elim (slot_before-InTable gpa s (first_slot m) m h) [
  | inl e ↦ first_slot-InTable s m e
  | inr i ↦ i
]

guest_to_host_address-Holds :
    (gpa host lo : ℕ) (s : MemorySlot) (m : List (ℕ × MemorySlot))
    → IsFlat lo m
    → guest_to_host_address gpa m ≡ some host
    → slot_before gpa (first_slot m) m ≡ some s
    → Holds s gpa × (host ≡ s.hva + (gpa - s.begin))
unfolding guest_to_host_address
guest_to_host_address-Holds gpa host lo s m f h e =
    let i = slot_before_first-InTable gpa s m e in ground (arith, slot_bounds s lo m f i)

-- What translates lies in a slot of the table, and the result is that slot's.
pub guest_to_host_address-inv :
    (gpa host : ℕ) (lo : ℕ) (m : List (ℕ × MemorySlot))
    → IsFlat lo m
    → guest_to_host_address gpa m ≡ some host
    → (s : MemorySlot) × InTable s m × Holds s gpa × (host ≡ s.hva + (gpa - s.begin))
unfolding guest_to_host_address
guest_to_host_address-inv gpa host lo m f h =
    elim (Option-cases (slot_before gpa (first_slot m) m)) [
      | inl e ↦ absurd (ground arith)
      | inr (s, e) ↦
          let (held, at) = guest_to_host_address-Holds gpa host lo s m f h e in
          (s, slot_before_first-InTable gpa s m e, held, at)
    ]

-- In a flat table a guest address translates to a host address exactly when it lies in a slot of
-- the table, the host address being at the same distance from the slot's first.
pub guest_to_host_address_iff :
    (gpa host lo : ℕ) (m : List (ℕ × MemorySlot))
    → IsFlat lo m
    → (guest_to_host_address gpa m ≡ some host)
      ↔ ((s : MemorySlot) × InTable s m × Holds s gpa × (host ≡ s.hva + (gpa - s.begin)))
guest_to_host_address_iff gpa host lo m f = (
  guest_to_host_address-inv gpa host lo m f,
  λ (s, i, h, at). rw at (guest_to_host_address-some gpa s lo m f i h),
)

-- What `HostToGuestAddress` finds is in a RAM slot of the table.
host_to_guest_address-inv :
    (host gpa lo : ℕ) (m : List (ℕ × MemorySlot))
    → IsFlat lo m
    → host_to_guest_address host m ≡ some gpa
    → (s : MemorySlot) × InTable s m
      × (is_ram s.type ≡ true)
      × Holds s gpa
      × (host ≡ s.hva + (gpa - s.begin))
unfolding host_to_guest_address
host_to_guest_address-inv host gpa lo [] f h = absurd (cc)
host_to_guest_address-inv host gpa lo ((k, s) ∷ m) f h =
    elim (Bool-cases (is_ram s.type && holds_host host s)) [
      | inl e ↦ (s, inl refl, ground arith, ground arith, ground arith)
      | inr e ↦
          let (t, i, r, b, at) = host_to_guest_address-inv host gpa s.end m f.5 (ground arith) in
          (t, inr i, r, b, at)
    ]

-- In a flat table a host address that `HostToGuestAddress` translates comes back under
-- `GuestToHostAddress`.
pub guest_to_host_address-host_to_guest_address :
    (host gpa lo : ℕ) (m : List (ℕ × MemorySlot))
    → IsFlat lo m
    → host_to_guest_address host m ≡ some gpa
    → guest_to_host_address gpa m ≡ some host
guest_to_host_address-host_to_guest_address host gpa lo m f h =
    let (s, i, r, b, at) = host_to_guest_address-inv host gpa lo m f h in
    rw at (guest_to_host_address-some gpa s lo m f i b)

-- `HostToGuestAddress` translates each host address of a RAM slot of a flat table.
pub host_to_guest_address-total :
    (host : ℕ) (s : MemorySlot) (lo : ℕ) (m : List (ℕ × MemorySlot))
    → IsFlat lo m
    → InTable s m
    → is_ram s.type ≡ true
    → s.hva ≤ host
    → host < s.hva + (s.end - s.begin)
    → host_to_guest_address host m ≢ none
unfolding host_to_guest_address
host_to_guest_address-total host s lo [] f i r p q = absurd i
host_to_guest_address-total host s lo ((k, t) ∷ m) f (inl e) r p q = ground arith
host_to_guest_address-total host s lo ((k, t) ∷ m) f (inr i) r p q =
    ground (arith, host_to_guest_address-total host s t.end m f.5 i)

-- In a flat table the guest address of a RAM slot goes to a host address that
-- `HostToGuestAddress` translates back to a guest address of the same host address.
pub host_to_guest_address-guest_to_host_address :
    (gpa : ℕ) (s : MemorySlot) (lo : ℕ) (m : List (ℕ × MemorySlot))
    → IsFlat lo m
    → InTable s m
    → is_ram s.type ≡ true
    → Holds s gpa
    → (host alias : ℕ) × (guest_to_host_address gpa m ≡ some host)
      × (host_to_guest_address host m ≡ some alias)
      × (guest_to_host_address alias m ≡ some host)
host_to_guest_address-guest_to_host_address gpa s lo m f i r h =
    let host : ℕ = s.hva + (gpa - s.begin) in
    elim (Option-cases (host_to_guest_address host m)) [
      | inl e ↦ absurd (host_to_guest_address-total host s lo m f i r (omega arith) (omega arith) e)
      | inr (alias, e) ↦ (
        host,
        alias,
        guest_to_host_address-some gpa s lo m f i h,
        e,
        guest_to_host_address-host_to_guest_address host alias lo m f e,
      )
    ]
