-- ===== src/DeviceManager/Shared.antt =====
-- The levels of the interrupt lines of core/device_manager.cc are those that the devices ask for.
use mvisor_x.Base.{
  ℕ, ◌≡◌, ◌≢◌, ◌<◌, ◌↔◌, refl, sym, ap, ◌∙◌, subst, Bool, true, false, not, ◌&&◌, List, [], ◌∷◌,
  Option, none, some, arith, get_or, set, length, length-set, get_or-set_self, get_or-set_ne,
  get_or-replicate, ltb, ltb→lt, ◌==◌, if◌then◌else◌, if-splits, if-keeps, if_same, if_ne, ◌>>=◌,
  ℕ_discrete,
}
use mvisor_x.DeviceManager.Levels.{
  IrqSource, IrqLevels, no_levels, has_id, insert_id, erase_id, is_empty, gsi_of, set_pci_irq_level,
  set_levels, raises, level_of,
}

has_id-erase_id_self : (i : ℕ) (xs : List ℕ) → has_id i (erase_id i xs) ≡ false
unfolding has_id erase_id
has_id-erase_id_self i [] = refl
has_id-erase_id_self i (x ∷ xs) = ground (arith, has_id-erase_id_self i xs)

has_id-erase_id_ne : (i j : ℕ) (xs : List ℕ) → i ≢ j → has_id j (erase_id i xs) ≡ has_id j xs
unfolding has_id erase_id
has_id-erase_id_ne i j [] ne = refl
has_id-erase_id_ne i j (x ∷ xs) ne = ground (arith, has_id-erase_id_ne i j xs ne, ne)

has_id-insert_id_self : (i : ℕ) (xs : List ℕ) → has_id i (insert_id i xs) ≡ true
unfolding has_id
has_id-insert_id_self i xs =
    if-splits (λ l. has_id i l ≡ true) (has_id i xs) (λ e. e)
      (λ e. if_same i i true (has_id i xs) refl)

has_id-insert_id_ne : (i j : ℕ) (xs : List ℕ) → i ≢ j → has_id j (insert_id i xs) ≡ has_id j xs
unfolding has_id
has_id-insert_id_ne i j xs ne =
    if-splits (λ l. has_id j l ≡ has_id j xs) (has_id i xs) (λ e. refl)
      (λ e. if_ne i j true (has_id j xs) ne)

-- the state after calls, of which `wants` says what they ask for
record Fits (wants : ℕ → ℕ → Bool) (m : IrqLevels) : Type 0 where
  size : length m.pci_irq_raised ≡ 32
  raised : (gsi id : ℕ) → has_id id (get_or m.pci_irq_raised gsi []) ≡ wants gsi id
  level :
      (gsi : ℕ)
      → level_of gsi m.lines ≡ (if is_empty (get_or m.pci_irq_raised gsi []) then 0 else 1)

chosen :
    (b : Bool) (id i : ℕ) (xs : List ℕ)
    → has_id i (if b then erase_id id xs else insert_id id xs)
      ≡ (if id == i then not b else has_id i xs)
chosen true id i xs = elim (ℕ_discrete id i) [
  | yes e ↦
      subst (λ q. has_id q (erase_id id xs) ≡ (if id == q then false else has_id q xs)) e
        (has_id-erase_id_self id xs ∙ sym (if_same id id false (has_id id xs) refl))
  | no ne ↦ has_id-erase_id_ne id i xs ne ∙ sym (if_ne id i false (has_id i xs) ne)
]
chosen false id i xs = elim (ℕ_discrete id i) [
  | yes e ↦
      subst (λ q. has_id q (insert_id id xs) ≡ (if id == q then true else has_id q xs)) e
        (has_id-insert_id_self id xs ∙ sym (if_same id id true (has_id id xs) refl))
  | no ne ↦ has_id-insert_id_ne id i xs ne ∙ sym (if_ne id i true (has_id i xs) ne)
]

both_same :
    (a b i j : ℕ) (x y : Bool)
    → a ≡ b
    → (if (a == b) && (i == j) then x else y) ≡ (if i == j then x else y)
both_same a b i j x y e = ground arith

both_ne : (a b i j : ℕ) (x y : Bool) → a ≢ b → (if (a == b) && (i == j) then x else y) ≡ y
both_ne a b i j x y e = ground arith

abbrev AllFit : (ℕ → ℕ → Bool) → Option IrqLevels → Type 0
AllFit wants none = Unit {0}
AllFit wants (some m) = Fits wants m

module _ (translator : Option (ℕ → ℕ → ℕ → ℕ)) (irq_line : ℕ → ℕ → Bool) where
  -- what is asked for after one more call
  abbrev after : (ℕ → ℕ → Bool) → IrqSource → ℕ → ℕ → ℕ → Bool
  after wants pci level gsi id =
      if (gsi_of translator pci == gsi) && (pci.id == id) then not (level == 0) else wants gsi id

  module _ (wants : ℕ → ℕ → Bool) (pci : IrqSource) (level : ℕ) (m : IrqLevels) (h : Fits wants m)
      (lt : gsi_of translator pci < 32) where
    abbrev ids1 : List ℕ
    ids1 =
        let ids = get_or m.pci_irq_raised (gsi_of translator pci) [] in
        if level == 0 then erase_id pci.id ids else insert_id pci.id ids

    abbrev m1 : IrqLevels
    m1 = record {
      pci_irq_raised = set m.pci_irq_raised (gsi_of translator pci) ids1;
      lines = (gsi_of translator pci, (if is_empty ids1 then 0 else 1)) ∷ m.lines;
    }

    inside : gsi_of translator pci < length m.pci_irq_raised
    inside = omega (arith, lt, h.size)

    raised_after :
        (gsi id : ℕ) → has_id id (get_or m1.pci_irq_raised gsi []) ≡ after wants pci level gsi id
    raised_after gsi id = elim (ℕ_discrete (gsi_of translator pci) gsi) [
      | yes e ↦
          let self = get_or-set_self m.pci_irq_raised (gsi_of translator pci) ids1 [] inside in
          subst (λ g. has_id id (get_or m1.pci_irq_raised g []) ≡ after wants pci level g id) e
            (ap (has_id id) self
              ∙ chosen (level == 0) pci.id id (get_or m.pci_irq_raised (gsi_of translator pci) [])
              ∙ ap (λ b. if pci.id == id then not (level == 0) else b)
                  (h.raised (gsi_of translator pci) id)
              ∙ sym (
                  both_same (gsi_of translator pci) (gsi_of translator pci) pci.id id
                    (not (level == 0)) (wants (gsi_of translator pci) id) refl))
      | no ne ↦
          ap (has_id id) (get_or-set_ne m.pci_irq_raised (gsi_of translator pci) gsi ids1 [] ne)
          ∙ h.raised gsi id
          ∙ sym (both_ne (gsi_of translator pci) gsi pci.id id (not (level == 0)) (wants gsi id) ne)
    ]

    level_after :
        (gsi : ℕ)
        → level_of gsi m1.lines ≡ (if is_empty (get_or m1.pci_irq_raised gsi []) then 0 else 1)
    unfolding level_of
    level_after gsi = elim (ℕ_discrete (gsi_of translator pci) gsi) [
      | yes e ↦
          let self = get_or-set_self m.pci_irq_raised (gsi_of translator pci) ids1 [] inside in
          subst
            (λ g. level_of g m1.lines ≡ (if is_empty (get_or m1.pci_irq_raised g []) then 0 else 1))
            e
            (if_same (gsi_of translator pci) (gsi_of translator pci)
                (if is_empty ids1 then 0 else 1) (level_of (gsi_of translator pci) m.lines) refl
              ∙ ap (λ l. if is_empty l then 0 else 1) (sym self))
      | no ne ↦
          if_ne (gsi_of translator pci) gsi (if is_empty ids1 then 0 else 1) (level_of gsi m.lines)
            ne
          ∙ h.level gsi
          ∙ ap (λ l. if is_empty l then 0 else 1)
              (sym (get_or-set_ne m.pci_irq_raised (gsi_of translator pci) gsi ids1 [] ne))
    ]

    m1-Fits : Fits (after wants pci level) m1
    m1-Fits = record {
      size = length-set m.pci_irq_raised (gsi_of translator pci) ids1 ∙ h.size;
      raised = raised_after;
      level = level_after;
    }

  set_pci_irq_level-AllFit :
      (wants : ℕ → ℕ → Bool) (pci : IrqSource) (level : ℕ) (m : IrqLevels)
      → Fits wants m
      → AllFit (after wants pci level) (set_pci_irq_level translator irq_line pci level m)
  unfolding set_pci_irq_level
  set_pci_irq_level-AllFit wants pci level m h =
      if-splits (AllFit (after wants pci level)) (ltb (gsi_of translator pci) 32)
        (λ e.
          let lt = ltb→lt (gsi_of translator pci) 32 e in
          let ids2 = ids1 wants pci level m h lt in
          if-keeps (AllFit (after wants pci level))
            (irq_line (gsi_of translator pci) (if is_empty ids2 then 0 else 1))
            (m1-Fits wants pci level m h lt) tt)
        (λ e. tt)

  bind-AllFit :
      (w w' : ℕ → ℕ → Bool) (o : Option IrqLevels) (f : IrqLevels → Option IrqLevels)
      → AllFit w o
      → ((m : IrqLevels) → Fits w m → AllFit w' (f m))
      → AllFit w' (o >>= f)
  bind-AllFit w w' none f a h = tt
  bind-AllFit w w' (some m) f a h = h m a

  set_levels-AllFit :
      (calls : List (IrqSource × ℕ)) (wants : ℕ → ℕ → Bool) (m : IrqLevels)
      → Fits wants m
      → AllFit
          (λ gsi id. raises translator irq_line calls gsi id (wants gsi id))
          (set_levels translator irq_line calls m)
  unfolding set_levels raises
  set_levels-AllFit [] wants m h = h
  set_levels-AllFit (c ∷ calls) wants m h =
      bind-AllFit (after wants c.0 c.1)
        (λ gsi id. raises translator irq_line calls gsi id (after wants c.0 c.1 gsi id))
        (set_pci_irq_level translator irq_line c.0 c.1 m) (set_levels translator irq_line calls)
        (set_pci_irq_level-AllFit wants c.0 c.1 m h) (set_levels-AllFit calls (after wants c.0 c.1))

  no_levels-Fits : Fits (λ gsi id. false) no_levels
  unfolding has_id level_of
  no_levels-Fits = record {
    size = refl;
    raised = λ gsi id. ap (has_id id) (get_or-replicate 32 gsi []);
    level = λ gsi. ap (λ l. if is_empty l then 0 else 1) (sym (get_or-replicate 32 gsi []));
  }

  raised_level :
      (ids : List ℕ) (wants : ℕ → Bool)
      → ((id : ℕ) → has_id id ids ≡ wants id)
      → (◌≡◌ {A = ℕ} (if is_empty ids then 0 else 1) 1) ↔ ((id : ℕ) × (wants id ≡ true))
  unfolding has_id
  raised_level [] wants h =
      (λ e. absurd (omega (arith, e)), λ (id, e). (let off = h id in absurd (cc)))
  raised_level (x ∷ ids) wants h =
      (λ e. (x, sym (h x) ∙ if_same x x true (has_id x ids) refl), λ w. refl)

  -- After whatever calls of `SetPciIrqLevel`, none of them a panic, the level that KVM was given last for
  -- an interrupt is 1 exactly if there is a device whose last call for this interrupt raised it.
  pub set_levels-level_of :
      (calls : List (IrqSource × ℕ)) (m : IrqLevels) (gsi : ℕ)
      → set_levels translator irq_line calls no_levels ≡ some m
      → (level_of gsi m.lines ≡ 1)
        ↔ ((id : ℕ) × (raises translator irq_line calls gsi id false ≡ true))
  set_levels-level_of calls m gsi e =
      let wants : ℕ → ℕ → Bool = λ g id. raises translator irq_line calls g id false in
      let fits : AllFit wants (some m) =
        subst (AllFit wants) e (set_levels-AllFit calls (λ g id. false) no_levels no_levels-Fits) in
      let (to, from) =
        raised_level (get_or m.pci_irq_raised gsi []) (wants gsi) (fits.raised gsi) in
      (λ one. to (sym (fits.level gsi) ∙ one), λ w. fits.level gsi ∙ from w)
