-- ===== src/DeviceManager/Vectors.antt =====
-- What holds of the interrupt routes of core/device_manager.cc.
use mvisor_x.Base.{
  ℕ, suc, ◌/◌, ◌%◌, ◌^◌, ◌≤◌, ◌<◌, ◌≡◌, ◌≢◌, refl, sym, ap, ◌∙◌, subst, Bool, true, false, List, [],
  ◌∷◌, ◌++◌, Option, none, some, arith, ◌==◌, if◌then◌else◌, if-splits, if-keeps, if_same, if_ne,
  ◌>>=◌, some_inj, ltb,
}
use mvisor_x.DeviceManager.Routing.{
  msi, Route, RoutingTable, Kvm, erase_route, has_route, master_routes, slave_routes, ioapic_routes,
  update_gsi_routing_table, reset_gsi_routing_table, irqfd_accepts, add_msi_notifier,
  remove_msi_notifier, Notifier, add_msi, remove_msi, reset_table, change_route, change_routes,
}

-- interrupts below a bound, of which those from 24 on have one route
abbrev pub AreRoutes : ℕ → List Route → Type 0
AreRoutes next [] = Unit {0}
AreRoutes next (r ∷ rs) =
    (r.gsi < next) × (24 ≤ r.gsi → has_route r.gsi rs ≡ false) × AreRoutes next rs

-- KVM has the table, and no interrupt of it is still to be given out
abbrev pub IsInstalled : RoutingTable → Type 0
IsInstalled m =
    (m.installed ≡ m.gsi_routing_table)
    × (24 ≤ m.next_gsi)
    × AreRoutes m.next_gsi m.gsi_routing_table

abbrev msi_route : ℕ → ℕ → ℕ → Route
msi_route address message gsi = record {
  gsi = gsi;
  target = msi (address % 2 ^ 32) (address / 2 ^ 32 % 2 ^ 32) message;
}

AreRoutes-has :
    (next gsi : ℕ) (rs : List Route) → AreRoutes next rs → next ≤ gsi → has_route gsi rs ≡ false
unfolding has_route
AreRoutes-has next gsi [] a le = refl
AreRoutes-has next gsi (r ∷ rs) (below, once, a) le =
    if_ne r.gsi gsi true (has_route gsi rs) (λ e. omega (arith, e, below, le))
    ∙ AreRoutes-has next gsi rs a le

has_route-append :
    (gsi : ℕ) (rs : List Route) (x : Route)
    → has_route gsi rs ≡ false
    → x.gsi ≢ gsi
    → has_route gsi (rs ++ (x ∷ [])) ≡ false
unfolding has_route
has_route-append gsi [] x e ne = if_ne x.gsi gsi true false ne
has_route-append gsi (r ∷ rs) x e ne = ground (arith, has_route-append gsi rs x, ne, e)

AreRoutes-append :
    (next : ℕ) (rs : List Route) (x : Route)
    → AreRoutes next rs
    → x.gsi ≡ next
    → AreRoutes (suc next) (rs ++ (x ∷ []))
unfolding has_route
AreRoutes-append next [] x a e = (omega (arith, e), (λ h. refl), tt)
AreRoutes-append next (r ∷ rs) x (below, once, a) e = (
  omega (arith, below),
  λ h. has_route-append r.gsi rs x (once h) (λ q. omega (arith, q, e, below)),
  AreRoutes-append next rs x a e,
)

has_route-erase :
    (gsi g : ℕ) (rs : List Route)
    → has_route g rs ≡ false
    → has_route g (erase_route gsi rs) ≡ false
unfolding has_route erase_route
has_route-erase gsi g [] e = refl
has_route-erase gsi g (r ∷ rs) e = ground (arith, has_route-erase gsi g rs, e)

AreRoutes-erase :
    (next gsi : ℕ) (rs : List Route) → AreRoutes next rs → AreRoutes next (erase_route gsi rs)
unfolding erase_route
AreRoutes-erase next gsi [] a = a
AreRoutes-erase next gsi (r ∷ rs) (below, once, a) =
    if-splits (AreRoutes next) (r.gsi == gsi) (λ same. a)
      (λ other. (below, λ h. has_route-erase gsi r.gsi rs (once h), AreRoutes-erase next gsi rs a))

erase_route-append :
    (gsi : ℕ) (rs : List Route) (x : Route)
    → has_route gsi rs ≡ false
    → x.gsi ≡ gsi
    → erase_route gsi (rs ++ (x ∷ [])) ≡ rs
unfolding erase_route has_route
erase_route-append gsi [] x e at = if_same x.gsi gsi [] (x ∷ []) at
erase_route-append gsi (r ∷ rs) x e at = ground (arith, erase_route-append gsi rs x, e, at)

has_route-added :
    (gsi : ℕ) (rs : List Route) (x : Route) → x.gsi ≡ gsi → has_route gsi (rs ++ (x ∷ [])) ≡ true
unfolding has_route
has_route-added gsi [] x at = if_same x.gsi gsi true false at
has_route-added gsi (r ∷ rs) x at = ground (arith, has_route-added gsi rs x at)

are_below : ℕ → List Route → Bool
are_below next [] = true
are_below next (r ∷ rs) = if ltb r.gsi next then are_below next rs else false

AreRoutes-below : (rs : List Route) → are_below 24 rs ≡ true → AreRoutes 24 rs
unfolding are_below
AreRoutes-below [] e = tt
AreRoutes-below (r ∷ rs) e =
    let both : (r.gsi < 24) × (are_below 24 rs ≡ true) = ground (arith, e) in
    (both.0, λ h. absurd (omega (arith, h, both.0)), AreRoutes-below rs both.1)

first_routes : AreRoutes 24 (master_routes 0 8 ++ (slave_routes 0 8 ++ ioapic_routes 0 24))
unfolding are_below master_routes slave_routes ioapic_routes
first_routes = AreRoutes-below (master_routes 0 8 ++ (slave_routes 0 8 ++ ioapic_routes 0 24)) refl

abbrev AllInstalled : Option RoutingTable → Type 0
AllInstalled none = Unit {0}
AllInstalled (some m) = IsInstalled m

module _ (kvm : Kvm) where
  update-AllInstalled :
      (m : RoutingTable)
      → 24 ≤ m.next_gsi
      → AreRoutes m.next_gsi m.gsi_routing_table
      → AllInstalled (update_gsi_routing_table kvm m)
  unfolding update_gsi_routing_table
  update-AllInstalled m big a =
      if-keeps AllInstalled (kvm.set_gsi_routing m.gsi_routing_table) (refl, big, a) tt

  bind-AllInstalled :
      (o : Option RoutingTable) (f : RoutingTable → Option RoutingTable)
      → AllInstalled o
      → ((m : RoutingTable) → IsInstalled m → AllInstalled (f m))
      → AllInstalled (o >>= f)
  bind-AllInstalled none f a h = tt
  bind-AllInstalled (some m) f a h = h m a

  added-AllInstalled :
      (o : Option RoutingTable) (b : Bool) (gsi : ℕ)
      → AllInstalled o
      → AllInstalled (o >>= (λ m1. if b then some (gsi, m1) else none) >>= λ (g, m1). some m1)
  added-AllInstalled none b gsi a = tt
  added-AllInstalled (some m) true gsi a = a
  added-AllInstalled (some m) false gsi a = tt

  change_route-AllInstalled :
      (n : Notifier) (m : RoutingTable) → IsInstalled m → AllInstalled (change_route kvm n m)
  unfolding change_route add_msi_notifier remove_msi_notifier reset_gsi_routing_table
  change_route-AllInstalled (add_msi address message fd) m (at, big, a) =
      let entry = msi_route address message m.next_gsi in
      let m1 : RoutingTable = record m {
        next_gsi = suc m.next_gsi;
        gsi_routing_table = m.gsi_routing_table ++ (entry ∷ []);
      } in
      added-AllInstalled (update_gsi_routing_table kvm m1) (irqfd_accepts kvm true fd m.next_gsi)
        m.next_gsi
        (update-AllInstalled m1 (omega (arith, big))
          (AreRoutes-append m.next_gsi m.gsi_routing_table entry a refl))
  change_route-AllInstalled (remove_msi gsi fd) m (at, big, a) =
      if-keeps AllInstalled (has_route gsi m.gsi_routing_table)
        (if-keeps AllInstalled (irqfd_accepts kvm false fd gsi)
          (update-AllInstalled
            (record m { gsi_routing_table = erase_route gsi m.gsi_routing_table }) big
            (AreRoutes-erase m.next_gsi gsi m.gsi_routing_table a))
          tt)
        tt
  change_route-AllInstalled reset_table m h =
      update-AllInstalled
        (record m {
          gsi_routing_table = master_routes 0 8 ++ (slave_routes 0 8 ++ ioapic_routes 0 24);
          next_gsi = 24;
        })
        (omega arith) first_routes

  change_routes-AllInstalled :
      (notifiers : List Notifier) (m : RoutingTable)
      → IsInstalled m
      → AllInstalled (change_routes kvm notifiers m)
  unfolding change_routes
  change_routes-AllInstalled [] m h = h
  change_routes-AllInstalled (n ∷ notifiers) m h =
      bind-AllInstalled (change_route kvm n m) (change_routes kvm notifiers)
        (change_route-AllInstalled n m h) (λ m1 h1. change_routes-AllInstalled notifiers m1 h1)

  started-AllInstalled :
      (notifiers : List Notifier) (m : RoutingTable)
      → AllInstalled (change_routes kvm (reset_table ∷ notifiers) m)
  unfolding change_routes change_route reset_gsi_routing_table
  started-AllInstalled notifiers m =
      bind-AllInstalled (reset_gsi_routing_table kvm m) (change_routes kvm notifiers)
        (update-AllInstalled
          (record m {
            gsi_routing_table = master_routes 0 8 ++ (slave_routes 0 8 ++ ioapic_routes 0 24);
            next_gsi = 24;
          })
          (omega arith) first_routes)
        (λ m1 h1. change_routes-AllInstalled notifiers m1 h1)

  -- After a reset and whatever notifiers are added and removed then, also with resets between, and none
  -- of it a panic, KVM has the table of the manager, every interrupt of it is below the next one that
  -- is given out, and one from 24 on, which is a message's, has one route.
  pub change_routes-IsInstalled :
      (notifiers : List Notifier) (m m' : RoutingTable)
      → change_routes kvm (reset_table ∷ notifiers) m ≡ some m'
      → IsInstalled m'
  change_routes-IsInstalled notifiers m m' e =
      let all : AllInstalled (some m') = subst AllInstalled e (started-AllInstalled notifiers m) in
      all

  accepted :
      (m m1 : RoutingTable) (gsi gsi' : ℕ) (b b' : Bool)
      → ◌>>=◌ {B = ℕ × RoutingTable}
          (if b then some (record m { installed = m.gsi_routing_table }) else none)
          (λ m1'. if b' then some (gsi', m1') else none)
        ≡ some (gsi, m1)
      → (gsi ≡ gsi') × (m1 ≡ record m { installed = m.gsi_routing_table })
  accepted m m1 gsi gsi' true true e =
      let same = some_inj e in (ap (λ r. r.0) (sym same), ap (λ r. r.1) (sym same))
  accepted m m1 gsi gsi' true false e = absurd (cc)
  accepted m m1 gsi gsi' false b' e = absurd (cc)

  remove_msi_notifier_lem :
      (gsi : ℕ) (fd : Option ℕ) (m : RoutingTable) (rs : List Route)
      → has_route gsi m.gsi_routing_table ≡ true
      → irqfd_accepts kvm false fd gsi ≡ true
      → erase_route gsi m.gsi_routing_table ≡ rs
      → kvm.set_gsi_routing rs ≡ true
      → remove_msi_notifier kvm gsi fd m
        ≡ some (record m { gsi_routing_table = rs; installed = rs })
  unfolding remove_msi_notifier update_gsi_routing_table
  remove_msi_notifier_lem gsi fd m rs there free erased ok = rw (there, free, erased, ok)

  -- A notifier that is added to an installed table gets an interrupt that no route has, and removing it
  -- takes its route away again, so that KVM has the old table, provided that KVM accepts this table
  -- and gives the descriptor free.
  pub remove_msi_notifier-add_msi_notifier :
      (address message : ℕ) (fd : Option ℕ) (m m1 : RoutingTable) (gsi : ℕ)
      → IsInstalled m
      → add_msi_notifier kvm address message fd m ≡ some (gsi, m1)
      → kvm.set_gsi_routing m.gsi_routing_table ≡ true
      → irqfd_accepts kvm false fd gsi ≡ true
      → (has_route gsi m.gsi_routing_table ≡ false)
        × (has_route gsi m1.gsi_routing_table ≡ true)
        × (remove_msi_notifier kvm gsi fd m1 ≡ some (record m { next_gsi = suc m.next_gsi }))
  unfolding add_msi_notifier update_gsi_routing_table
  remove_msi_notifier-add_msi_notifier address message fd m m1 gsi (at, big, a) e table_ok free =
      let entry = msi_route address message m.next_gsi in
      let added = m.gsi_routing_table ++ (entry ∷ []) in
      let (same, after) =
        accepted (record m { next_gsi = suc m.next_gsi; gsi_routing_table = added }) m1 gsi
          m.next_gsi (kvm.set_gsi_routing added) (irqfd_accepts kvm true fd m.next_gsi) e in
      let fresh = AreRoutes-has m.next_gsi gsi m.gsi_routing_table a (omega (arith, same)) in
      let table = ap (λ x. x.gsi_routing_table) after in
      let there =
        ap (has_route gsi) table ∙ has_route-added gsi m.gsi_routing_table entry (sym same) in
      let erased =
        ap (erase_route gsi) table
        ∙ erase_route-append gsi m.gsi_routing_table entry fresh (sym same) in
      let rs = m.gsi_routing_table in
      (
        fresh,
        there,
        remove_msi_notifier_lem gsi fd m1 rs there free erased table_ok
            ∙ ap {A = RoutingTable}
                (λ x. some (record x { gsi_routing_table = rs; installed = rs })) after
            ∙ ap (λ t. some (record m { next_gsi = suc m.next_gsi; installed = t })) (sym at),
      )
