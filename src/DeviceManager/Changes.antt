-- ===== src/DeviceManager/Changes.antt =====
-- How `RegisterIoHandler`, `UnregisterIoHandler` and the accesses of core/device_manager.cc change the
-- set of handlers, and that the ranges stay disjoint.
use mvisor_x.Base.{
  ◌>>=◌, Bool, if◌then◌else◌, ◌+◌, ◌≤◌, ◌<◌, max, dec_lt, ℕ, zero, suc, ◌≡◌, ◌⊎◌, inl, inr, ◌↔◌,
  refl, sym, ap, ◌∙◌, subst, true, false, List, [], ◌∷◌, get_elem?, if-keeps, ◌++◌, Option, none,
  some, arith, leb, ◌==◌, if-splits, both-true, Bool-cases, some_inj, ==_iff,
}
use mvisor_x.DeviceManager.{
  IoResource, IoHandler, find_overlap, register_port, is_handler, erase_handler, erase_at,
  move_to_front,
}
use mvisor_x.DeviceManager.Registry.{
  Compared, find_overlap-Compared, Has, IsRange, AreApart, AreApart-sym, IsDisjoint,
  IsDisjoint-ranges, Found, n_j, get-Has,
}

-- what is left after `UnregisterIoHandler`
module _ (device base : ℕ) where
  one_base :
      (h k : IoHandler)
      → IsRange h.resource
      → IsRange k.resource
      → AreApart h.resource k.resource
      → is_handler device base h ≡ true
      → is_handler device base k ≡ true
      → ⊥
  one_base h k (ph, bh) (pk, bk) away eh ek =
      let at : h.resource.base ≡ base =
        (==_iff h.resource.base base).0
          (both-true (h.device == device) (h.resource.base == base) eh).1 in
      let at' : k.resource.base ≡ base =
        (==_iff k.resource.base base).0
          (both-true (k.device == device) (k.resource.base == base) ek).1 in
      ground (arith, away, at, at', ph, pk)

  erased-Has :
      (hs : List IoHandler) (h : IoHandler) → Has h (erase_handler device base hs) → Has h hs
  unfolding erase_handler
  erased-Has [] h = λ m. m
  erased-Has (x ∷ hs) h =
      if-splits (λ l. Has h l → Has h (x ∷ hs)) (is_handler device base x) (λ on m. inr m)
        (λ off m. elim m [ inl e ↦ inl e | inr n ↦ inr (erased-Has hs h n) ])

  pub erase_handler-IsDisjoint :
      (hs : List IoHandler) → IsDisjoint hs → IsDisjoint (erase_handler device base hs)
  unfolding erase_handler
  erase_handler-IsDisjoint [] d = d
  erase_handler-IsDisjoint (x ∷ hs) (range, apart, d) =
      if-splits IsDisjoint (is_handler device base x) (λ on. d)
        (λ off. (range, λ h m. apart h (erased-Has hs h m), erase_handler-IsDisjoint hs d))

  -- the handlers that are left are those that the device and the address do not name
  pub erase_handler-Has :
      (hs : List IoHandler) (h : IoHandler)
      → IsDisjoint hs
      → Has h (erase_handler device base hs) ↔ (Has h hs × (is_handler device base h ≡ false))
  unfolding erase_handler
  erase_handler-Has [] h d = (λ m. absurd m, λ (m, off). absurd m)
  erase_handler-Has (x ∷ hs) h (range, apart, d) =
      let (f, g) = erase_handler-Has hs h d in
      if-splits (λ l. Has h l ↔ (Has h (x ∷ hs) × (is_handler device base h ≡ false)))
        (is_handler device base x)
        (λ on. (
          λ m. (
            inr m,
            elim (Bool-cases (is_handler device base h)) [
              | inl on' ↦
                  absurd (one_base h x (IsDisjoint-ranges hs d h m) range (apart h m) on' on)
              | inr off ↦ off
            ],
          ),
          λ (m, off). elim m [
            | inl e ↦ (let on' = ap (is_handler device base) e ∙ on in absurd (cc))
            | inr n ↦ n
          ],
        ))
        (λ off. (
          λ m. elim m [
            | inl e ↦ (inl e, ap (is_handler device base) e ∙ off)
            | inr n ↦ (inr (f n).0, (f n).1)
          ],
          λ (m, off'). elim m [ inl e ↦ inl e | inr n ↦ inr (g (n, off')) ],
        ))

pub Has-append :
    (hs : List IoHandler) (x h : IoHandler) → Has h (hs ++ (x ∷ [])) ↔ (Has h hs ⊎ (h ≡ x))
Has-append [] x h = (
  λ m. elim m [ inl e ↦ inr e | inr n ↦ absurd n ],
  λ m. elim m [ inl n ↦ absurd n | inr e ↦ inl e ],
)
Has-append (y ∷ hs) x h =
    let (f, g) = Has-append hs x h in
    (
      λ m. elim m [
        | inl e ↦ inl (inl e)
        | inr n ↦ elim (f n) [ inl q ↦ inl (inr q) | inr e ↦ inr e ]
      ],
      λ m. elim m [
        | inl q ↦ elim q [ inl e ↦ inl e | inr n ↦ inr (g (inl n)) ]
        | inr e ↦ inr (g (inr e))
      ],
    )

-- a handler that is apart from the others is added
pub append-IsDisjoint :
    (hs : List IoHandler) (x : IoHandler)
    → IsDisjoint hs
    → IsRange x.resource
    → ((h : IoHandler) → Has h hs → AreApart h.resource x.resource)
    → IsDisjoint (hs ++ (x ∷ []))
append-IsDisjoint [] x d range away = (range, λ h m. absurd m, tt)
append-IsDisjoint (y ∷ hs) x (r, apart, d) range away = (
  r,
  λ h m. elim ((Has-append hs x h).0 m) [
    | inl n ↦ apart h n
    | inr e ↦
        subst (λ q. AreApart q.resource y.resource) (sym e)
          (AreApart-sym y.resource x.resource (away y (inl refl)))
  ],
  append-IsDisjoint hs x d range (λ h m. away h (inr m)),
)

-- the handler at a place is apart from those at the others
erase_at-IsDisjoint :
    (hs : List IoHandler) (j : ℕ) (h : IoHandler)
    → IsDisjoint hs
    → get_elem? hs j ≡ some h
    → IsDisjoint (erase_at j hs)
      × ((k : IoHandler) → Has k (erase_at j hs) → Has k hs × AreApart k.resource h.resource)
unfolding erase_at
erase_at-IsDisjoint [] j h d e = absurd (cc)
erase_at-IsDisjoint (x ∷ hs) zero h (range, apart, d) e =
    let same : x ≡ h = some_inj e in
    (d, λ k m. (inr m, subst (λ q. AreApart k.resource q.resource) same (apart k m)))
erase_at-IsDisjoint (x ∷ hs) (suc j) h (range, apart, d) e =
    let (rest, away) = erase_at-IsDisjoint hs j h d e in
    (
      (range, λ k m. apart k (away k m).0, rest),
      λ k m. elim m [
        | inl same ↦ (
          inl same,
          subst (λ q. AreApart q.resource h.resource) (sym same)
              (AreApart-sym h.resource x.resource (apart h (get-Has hs j h e))),
        )
        | inr n ↦ (inr (away k n).0, (away k n).1)
      ],
    )

pub move_to_front-IsDisjoint :
    (a : ℕ) (hs : List IoHandler) (r : Option (ℕ × IoHandler))
    → IsDisjoint hs
    → Found 0 a hs r
    → IsDisjoint (move_to_front r hs)
unfolding move_to_front
move_to_front-IsDisjoint a hs none d f = d
move_to_front-IsDisjoint a hs (some (n, h)) d (j, place, at, on) =
    let here = ap (get_elem? hs) (n_j n j place) ∙ at in
    let (rest, away) = erase_at-IsDisjoint hs n h d here in
    if-keeps IsDisjoint (leb 3 n)
      (IsDisjoint-ranges hs d h (get-Has hs n h here), λ k m. (away k m).1, rest) d

abbrev pub IsInside : ℕ → IoResource → Type 0
IsInside p r = (r.base ≤ p) × (p < r.base + r.length)

-- ranges that are not apart have a port in common
shared_port :
    (r s : IoResource)
    → IsRange r
    → IsRange s
    → (¬ (AreApart r s))
    → (p : ℕ) × IsInside p r × IsInside p s
shared_port r s (hr, br) (hs, bs) clash = elim (dec_lt r.base (s.base + s.length)) [
  | yes a ↦ elim (dec_lt s.base (r.base + r.length)) [
    | yes b ↦ (
      max r.base s.base,
      (omega (arith, a, b, hr, hs), omega (arith, a, b, hr, hs)),
      (omega (arith, a, b, hr, hs), omega (arith, a, b, hr, hs)),
    )
    | no far ↦ absurd (clash (inl (omega (arith, far))))
  ]
  | no far ↦ absurd (clash (inr (omega (arith, far))))
]

shared-clash : (r s : IoResource) (p : ℕ) → IsInside p r → IsInside p s → AreApart r s → ⊥
shared-clash r s p (a, b) (c, d) apart = ground (arith, a, b, c, d, apart)

Compared-none :
    (hs : List IoHandler) (r : IoResource) (o : Option Bool) (hs1 : List IoHandler)
    → IsDisjoint hs
    → IsRange r
    → Compared hs r o
    → ((o >>= λ found. if found then none else some hs1) ≡ none)
      ↔ ((h : IoHandler) × Has h hs × ((p : ℕ) × IsInside p h.resource × IsInside p r))
Compared-none hs r none hs1 d range c = absurd c
Compared-none hs r (some true) hs1 d range (h, m, clash) =
    (λ e. (h, m, shared_port h.resource r (IsDisjoint-ranges hs d h m) range clash), λ w. refl)
Compared-none hs r (some false) hs1 d range c =
    (λ e. absurd (cc), λ (h, m, (p, a, b)). absurd (shared-clash h.resource r p a b (c h m)))

-- Where the handlers of the ports are ranges below 2 ^ 64, apart from each other, the registration of
-- another such range panics exactly if a handler is there that shares a port with it.
pub register_port-none :
    (device : ℕ) (r : IoResource) (hs : List IoHandler)
    → IsDisjoint hs
    → IsRange r
    → (register_port device r hs ≡ none)
      ↔ ((h : IoHandler) × Has h hs × ((p : ℕ) × IsInside p h.resource × IsInside p r))
unfolding register_port
register_port-none device r hs d range =
    Compared-none hs r (find_overlap hs r)
      (hs ++ (record { resource = r; device = device; memory_region = none } ∷ [])) d range
      (find_overlap-Compared hs r (IsDisjoint-ranges hs d) range)
