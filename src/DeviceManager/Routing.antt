-- ===== src/DeviceManager/Routing.antt =====
-- The table of interrupt routes of core/device_manager.cc, of which KVM has a copy. KVM's answers are a
-- parameter; where it refuses, MV_PANIC is `none`. A trigger_fd of -1 is `none` too.
use mvisor_x.Base.{
  ℕ, zero, suc, ◌+◌, ◌/◌, ◌%◌, ◌^◌, Bool, true, false, List, [], ◌∷◌, ◌++◌, Option, none, some,
  ◌==◌, if◌then◌else◌, ◌>>=◌,
}

-- the part of `kvm_irq_routing_entry` that the type selects
pub data Target : Type 0 where
  irqchip : ℕ → ℕ → Target
  msi : ℕ → ℕ → ℕ → Target

pub record Route : Type 0 where
  pub gsi : ℕ
  pub target : Target

-- `installed` is what KVM_SET_GSI_ROUTING was given last
pub record RoutingTable : Type 0 where
  pub gsi_routing_table : List Route
  pub next_gsi : ℕ
  pub installed : List Route

-- KVM_SET_GSI_ROUTING, and KVM_IRQFD with the descriptor and the interrupt, to assign or to deassign
pub record Kvm : Type 0 where
  pub set_gsi_routing : List Route → Bool
  pub irqfd : Bool → ℕ → ℕ → Bool

-- the first route of an interrupt is taken out
unfoldable pub erase_route : ℕ → List Route → List Route
erase_route gsi [] = []
erase_route gsi (r ∷ rs) = if r.gsi == gsi then rs else r ∷ erase_route gsi rs

unfoldable pub has_route : ℕ → List Route → Bool
has_route gsi [] = false
has_route gsi (r ∷ rs) = if r.gsi == gsi then true else has_route gsi rs

-- the loops of `ResetGsiRoutingTable`
abbrev pub irq_route : ℕ → ℕ → ℕ → Route
irq_route gsi chip pin = record { gsi = gsi; target = irqchip chip pin }

unfoldable pub master_routes : ℕ → ℕ → List Route
master_routes i zero = []
master_routes i (suc left) =
    let rest = master_routes (suc i) left in if i == 2 then rest else irq_route i 0 i ∷ rest

unfoldable pub slave_routes : ℕ → ℕ → List Route
slave_routes i zero = []
slave_routes i (suc left) = irq_route (8 + i) 1 i ∷ slave_routes (suc i) left

unfoldable pub ioapic_routes : ℕ → ℕ → List Route
ioapic_routes i zero = []
ioapic_routes i (suc left) =
    let rest = ioapic_routes (suc i) left in
    if i == 0 then irq_route i 2 2 ∷ rest else if i == 2 then rest else irq_route i 2 i ∷ rest

pub data Notifier : Type 0 where
  add_msi : ℕ → ℕ → Option ℕ → Notifier
  remove_msi : ℕ → Option ℕ → Notifier
  reset_table : Notifier

module _ (kvm : Kvm) where
  -- `UpdateGsiRoutingTable`
  unfoldable pub update_gsi_routing_table : RoutingTable → Option RoutingTable
  update_gsi_routing_table m =
      if kvm.set_gsi_routing m.gsi_routing_table
      then some (record m { installed = m.gsi_routing_table })
      else none

  -- `ResetGsiRoutingTable`
  unfoldable pub reset_gsi_routing_table : RoutingTable → Option RoutingTable
  reset_gsi_routing_table m = update_gsi_routing_table (record m {
    gsi_routing_table = master_routes 0 8 ++ (slave_routes 0 8 ++ ioapic_routes 0 24);
    next_gsi = 24;
  })

  abbrev pub irqfd_accepts : Bool → Option ℕ → ℕ → Bool
  irqfd_accepts assign none gsi = true
  irqfd_accepts assign (some fd) gsi = kvm.irqfd assign fd gsi

  -- `AddMsiNotifier`
  unfoldable pub add_msi_notifier : ℕ → ℕ → Option ℕ → RoutingTable → Option (ℕ × RoutingTable)
  add_msi_notifier address message trigger_fd m =
      let gsi = m.next_gsi in
      let entry : Route = record {
        gsi = gsi;
        target = msi (address % 2 ^ 32) (address / 2 ^ 32 % 2 ^ 32) message;
      } in
      update_gsi_routing_table
        (record m { next_gsi = suc gsi; gsi_routing_table = m.gsi_routing_table ++ (entry ∷ []) })
      >>= λ m1. if irqfd_accepts true trigger_fd gsi then some (gsi, m1) else none

  -- `RemoveMsiNotifier`
  unfoldable pub remove_msi_notifier : ℕ → Option ℕ → RoutingTable → Option RoutingTable
  remove_msi_notifier gsi trigger_fd m =
      if has_route gsi m.gsi_routing_table
      then (if irqfd_accepts false trigger_fd gsi
          then update_gsi_routing_table
              (record m { gsi_routing_table = erase_route gsi m.gsi_routing_table })
          else none)
      else none

  unfoldable pub change_route : Notifier → RoutingTable → Option RoutingTable
  change_route (add_msi address message fd) m =
      add_msi_notifier address message fd m >>= λ (gsi, m1). some m1
  change_route (remove_msi gsi fd) m = remove_msi_notifier gsi fd m
  change_route reset_table m = reset_gsi_routing_table m

  unfoldable pub change_routes : List Notifier → RoutingTable → Option RoutingTable
  change_routes [] m = some m
  change_routes (n ∷ notifiers) m = change_route n m >>= change_routes notifiers
