-- ===== src/DeviceManager/Levels.antt =====
-- `SetPciIrqLevel` of core/device_manager.cc: the devices that share an interrupt line. The translator of
-- the chipset and the answer of KVM_IRQ_LINE are parameters.
use mvisor_x.Base.{
  ℕ, ◌%◌, ◌^◌, Bool, true, false, not, ◌&&◌, List, [], ◌∷◌, Option, none, some, get_or, set,
  replicate, ltb, ◌==◌, if◌then◌else◌, ◌>>=◌,
}

-- what the manager reads of a `PciDevice`
pub record IrqSource : Type 0 where
  pub id : ℕ
  pub slot : ℕ
  pub function : ℕ
  pub irq_pin : ℕ
  pub irq_line : ℕ

-- `pci_irq_raised_`, and the calls of KVM_IRQ_LINE, the last one first
pub record IrqLevels : Type 0 where
  pub pci_irq_raised : List (List ℕ)
  pub lines : List (ℕ × ℕ)

abbrev pub no_levels : IrqLevels
no_levels = record { pci_irq_raised = replicate 32 []; lines = [] }

unfoldable pub has_id : ℕ → List ℕ → Bool
has_id i [] = false
has_id i (x ∷ xs) = if x == i then true else has_id i xs

-- `insert` and `erase` of a set
abbrev pub insert_id : ℕ → List ℕ → List ℕ
insert_id i xs = if has_id i xs then xs else i ∷ xs

unfoldable pub erase_id : ℕ → List ℕ → List ℕ
erase_id i [] = []
erase_id i (x ∷ xs) = let rest = erase_id i xs in if x == i then rest else x ∷ rest

abbrev pub is_empty : List ℕ → Bool
is_empty [] = true
is_empty (x ∷ xs) = false

abbrev pub gsi_of : Option (ℕ → ℕ → ℕ → ℕ) → IrqSource → ℕ
gsi_of none pci = pci.irq_line
gsi_of (some translator) pci = translator pci.slot pci.function pci.irq_pin % 2 ^ 8

module _ (translator : Option (ℕ → ℕ → ℕ → ℕ)) (irq_line : ℕ → ℕ → Bool) where
  -- `SetGsiLevel`
  abbrev pub set_gsi_level : ℕ → ℕ → IrqLevels → Option IrqLevels
  set_gsi_level gsi level m =
      if irq_line gsi level then some (record m { lines = (gsi, level) ∷ m.lines }) else none

  -- `SetPciIrqLevel`
  unfoldable pub set_pci_irq_level : IrqSource → ℕ → IrqLevels → Option IrqLevels
  set_pci_irq_level pci level m =
      let gsi = gsi_of translator pci in
      let ids = get_or m.pci_irq_raised gsi [] in
      let ids1 = if level == 0 then erase_id pci.id ids else insert_id pci.id ids in
      if ltb gsi 32
      then set_gsi_level gsi (if is_empty ids1 then 0 else 1)
          (record m { pci_irq_raised = set m.pci_irq_raised gsi ids1 })
      else none

  unfoldable pub set_levels : List (IrqSource × ℕ) → IrqLevels → Option IrqLevels
  set_levels [] m = some m
  set_levels (c ∷ calls) m = set_pci_irq_level c.0 c.1 m >>= set_levels calls

  -- whether the last call of a device on an interrupt raised it
  unfoldable pub raises : List (IrqSource × ℕ) → ℕ → ℕ → Bool → Bool
  raises [] gsi id before = before
  raises (c ∷ calls) gsi id before =
      raises calls gsi id
        (if (gsi_of translator c.0 == gsi) && (c.0.id == id) then not (c.1 == 0) else before)

-- the level that KVM was given last
unfoldable pub level_of : ℕ → List (ℕ × ℕ) → ℕ
level_of gsi [] = 0
level_of gsi (l ∷ lines) = if l.0 == gsi then l.1 else level_of gsi lines
