-- ===== src/DeviceManager/Registry.antt =====
-- The handlers of core/device_manager.cc as a set: what is found, compared and erased does not depend
-- on the order of handlers that are apart.
use mvisor_x.Base.{
  ℕ, zero, suc, ◌+◌, ◌-◌, ◌%◌, ◌^◌, ◌≤◌, ◌<◌, ◌≡◌, ◌⊎◌, inl, inr, ◌↔◌, refl, sym, ap, ◌∙◌, subst,
  Bool, true, false, ◌&&◌, ◌||◌, List, [], ◌∷◌, get_elem?, if-keeps, Option, none, some, arith, ltb,
  leb, ◌==◌, if-splits, some_inj,
}
use mvisor_x.DeviceManager.{
  IoResource, IoHandler, range_get_last, ranges_overlap, find_overlap, handles, find_handler,
  erase_at, move_to_front,
}

abbrev pub Has : IoHandler → List IoHandler → Type 0
Has h [] = ⊥
Has h (x ∷ xs) = (h ≡ x) ⊎ Has h xs

-- a range that is not empty and does not wrap
abbrev pub IsRange : IoResource → Type 0
IsRange r = (0 < r.length) × (r.base + r.length < 2 ^ 64)

abbrev pub AreApart : IoResource → IoResource → Type 0
AreApart r s = (r.base + r.length ≤ s.base) ⊎ (s.base + s.length ≤ r.base)

-- ranges of ports, no two of which share a port
abbrev pub IsDisjoint : List IoHandler → Type 0
IsDisjoint [] = Unit {0}
IsDisjoint (x ∷ hs) =
    IsRange x.resource
    × ((h : IoHandler) → Has h hs → AreApart h.resource x.resource)
    × IsDisjoint hs

pub IsDisjoint-ranges :
    (hs : List IoHandler) → IsDisjoint hs → (h : IoHandler) → Has h hs → IsRange h.resource
IsDisjoint-ranges [] d h m = absurd m
IsDisjoint-ranges (x ∷ hs) (range, apart, d) h (inl same) =
    subst (λ k. IsRange k.resource) (sym same) range
IsDisjoint-ranges (x ∷ hs) (range, apart, d) h (inr m) = IsDisjoint-ranges hs d h m

pub AreApart-sym : (r s : IoResource) → AreApart r s → AreApart s r
AreApart-sym r s (inl a) = inr a
AreApart-sym r s (inr a) = inl a

pub IsDisjoint-apart :
    (hs : List IoHandler)
    → IsDisjoint hs
    → (h k : IoHandler) → Has h hs
    → Has k hs
    → (h ≡ k) ⊎ AreApart h.resource k.resource
IsDisjoint-apart [] d h k m n = absurd m
IsDisjoint-apart (x ∷ hs) (range, apart, d) h k (inl e) (inl e') = inl (e ∙ sym e')
IsDisjoint-apart (x ∷ hs) (range, apart, d) h k (inl e) (inr n) = inr (
    subst (λ q. AreApart q.resource k.resource) (sym e)
      (AreApart-sym k.resource x.resource (apart k n)))
IsDisjoint-apart (x ∷ hs) (range, apart, d) h k (inr m) (inl e) =
    inr (subst (λ q. AreApart h.resource q.resource) (sym e) (apart h m))
IsDisjoint-apart (x ∷ hs) (range, apart, d) h k (inr m) (inr n) = IsDisjoint-apart hs d h k m n

range_get_last_lem :
    (r : IoResource) → IsRange r → range_get_last r.base r.length ≡ r.base + (r.length - 1)
range_get_last_lem r (some_bytes, bound) = omega (arith, some_bytes, bound)

overlap_lem :
    (a m b n : ℕ)
    → 0 < m
    → 0 < n
    → (leb b (a + (m - 1)) && leb a (b + (n - 1))) ≡ false
    → (a + m ≤ b) ⊎ (b + n ≤ a)
overlap_lem a m b n hm hn e = ground arith

overlap-apart :
    (a m b n : ℕ)
    → 0 < m
    → 0 < n
    → (a + m ≤ b) ⊎ (b + n ≤ a)
    → (leb b (a + (m - 1)) && leb a (b + (n - 1))) ≡ false
overlap-apart a m b n hm hn apart = ground arith

pub ranges_overlap_iff :
    (r s : IoResource)
    → IsRange r
    → IsRange s
    → (ranges_overlap r.base r.length s.base s.length ≡ false) ↔ AreApart r s
ranges_overlap_iff r s hr hs =
    let e = range_get_last_lem r hr in
    let e' = range_get_last_lem s hs in
    let test : ranges_overlap r.base r.length s.base s.length
        ≡ (leb s.base (r.base + (r.length - 1)) && leb r.base (s.base + (s.length - 1))) =
      ap (λ x. leb s.base x && leb r.base (range_get_last s.base s.length)) e
      ∙ ap (λ x. leb s.base (r.base + (r.length - 1)) && leb r.base x) e' in
    (
      λ no. overlap_lem r.base r.length s.base s.length hr.0 hs.0 (sym test ∙ no),
      λ apart. test ∙ overlap-apart r.base r.length s.base s.length hr.0 hs.0 apart,
    )

handles_lem : (a b e : ℕ) → ((leb b a && ltb a e) ≡ true) ↔ ((b ≤ a) × (a < e))
handles_lem a b e = (λ h. ground arith, λ h. ground arith)

pub handles_iff :
    (a : ℕ) (h : IoHandler)
    → IsRange h.resource
    → (handles a h ≡ true) ↔ ((h.resource.base ≤ a) × (a < h.resource.base + h.resource.length))
handles_iff a h (some_bytes, bound) =
    let e : (h.resource.base + h.resource.length) % 2 ^ 64 ≡ h.resource.base + h.resource.length =
      omega (arith, bound) in
    let test = ap (λ x. leb h.resource.base a && ltb a x) e in
    let l = handles_lem a h.resource.base (h.resource.base + h.resource.length) in
    (λ yes. l.0 (sym test ∙ yes), λ inside. test ∙ l.1 inside)

-- two handlers of one address are one
pub same_handler :
    (a : ℕ) (hs : List IoHandler) (h k : IoHandler)
    → IsDisjoint hs
    → Has h hs
    → Has k hs
    → handles a h ≡ true
    → handles a k ≡ true
    → h ≡ k
same_handler a hs h k d mh mk eh ek =
    let ih = (handles_iff a h (IsDisjoint-ranges hs d h mh)).0 eh in
    let ik = (handles_iff a k (IsDisjoint-ranges hs d k mk)).0 ek in
    elim (IsDisjoint-apart hs d h k mh mk) [
      | inl same ↦ same
      | inr away ↦ absurd (ground (arith, away, ih, ik))
    ]

-- what the search for a handler gives
abbrev pub Found : ℕ → ℕ → List IoHandler → Option (ℕ × IoHandler) → Type 0
Found i a hs none = (k : IoHandler) → Has k hs → handles a k ≡ false
Found i a hs (some (n, h)) =
    (j : ℕ) × (n ≡ i + j) × (get_elem? hs j ≡ some h) × (handles a h ≡ true)

Found-cons :
    (i a : ℕ) (x : IoHandler) (hs : List IoHandler) (r : Option (ℕ × IoHandler))
    → handles a x ≡ false
    → Found (suc i) a hs r
    → Found i a (x ∷ hs) r
Found-cons i a x hs none off f =
    λ k m. elim m [ inl same ↦ ap (handles a) same ∙ off | inr later ↦ f k later ]
Found-cons i a x hs (some (n, h)) off (j, place, at, on) = (suc j, omega (arith, place), at, on)

pub find_handler-Found : (i a : ℕ) (hs : List IoHandler) → Found i a hs (find_handler i a hs)
unfolding find_handler
find_handler-Found i a [] = λ k m. absurd m
find_handler-Found i a (x ∷ hs) =
    if-splits (Found i a (x ∷ hs)) (handles a x) (λ yes. (0, omega arith, refl, yes))
      (λ no. Found-cons i a x hs (find_handler (suc i) a hs) no (find_handler-Found (suc i) a hs))

pub get-Has : (hs : List IoHandler) (j : ℕ) (h : IoHandler) → get_elem? hs j ≡ some h → Has h hs
get-Has [] j h e = absurd (cc)
get-Has (x ∷ hs) zero h e = inl (sym (some_inj e))
get-Has (x ∷ hs) (suc j) h e = inr (get-Has hs j h e)

-- moving a handler to the front keeps the set
erase_at-Has :
    (hs : List IoHandler) (j : ℕ) (h k : IoHandler)
    → get_elem? hs j ≡ some h
    → Has k (h ∷ erase_at j hs) ↔ Has k hs
unfolding erase_at
erase_at-Has [] j h k e = absurd (cc)
erase_at-Has (x ∷ hs) zero h k e =
    let same : x ≡ h = some_inj e in
    (
      λ m. elim m [ inl q ↦ inl (q ∙ sym same) | inr q ↦ inr q ],
      λ m. elim m [ inl q ↦ inl (q ∙ same) | inr q ↦ inr q ],
    )
erase_at-Has (x ∷ hs) (suc j) h k e =
    let (f, g) = erase_at-Has hs j h k e in
    (
      λ m. elim m [
        | inl q ↦ inr (f (inl q))
        | inr q ↦ elim q [ inl p ↦ inl p | inr p ↦ inr (f (inr p)) ]
      ],
      λ m. elim m [
        | inl q ↦ inr (inl q)
        | inr q ↦ elim (g q) [ inl p ↦ inl p | inr p ↦ inr (inr p) ]
      ],
    )

pub n_j : (n j : ℕ) → n ≡ 0 + j → n ≡ j
n_j n j e = omega (arith, e)

pub move_to_front-Has :
    (a : ℕ) (hs : List IoHandler) (r : Option (ℕ × IoHandler)) (k : IoHandler)
    → Found 0 a hs r
    → Has k (move_to_front r hs) ↔ Has k hs
unfolding move_to_front
move_to_front-Has a hs none k f = (λ m. m, λ m. m)
move_to_front-Has a hs (some (n, h)) k (j, place, at, on) =
    if-keeps (λ l. Has k l ↔ Has k hs) (leb 3 n)
      (erase_at-Has hs n h k (ap (get_elem? hs) (n_j n j place) ∙ at)) (λ m. m, λ m. m)

-- the comparison with a resource, when no range is empty
abbrev pub Compared : List IoHandler → IoResource → Option Bool → Type 0
Compared hs r none = ⊥
Compared hs r (some false) = (h : IoHandler) → Has h hs → AreApart h.resource r
Compared hs r (some true) = (h : IoHandler) × Has h hs × (¬ (AreApart h.resource r))

Compared-cons :
    (x : IoHandler) (hs : List IoHandler) (r : IoResource) (o : Option Bool)
    → AreApart x.resource r
    → Compared hs r o
    → Compared (x ∷ hs) r o
Compared-cons x hs r none apart c = c
Compared-cons x hs r (some false) apart c =
    λ h m. elim m [ inl same ↦ subst (λ k. AreApart k.resource r) (sym same) apart | inr q ↦ c h q ]
Compared-cons x hs r (some true) apart (h, m, clash) = (h, inr m, clash)

pub find_overlap-Compared :
    (hs : List IoHandler) (r : IoResource)
    → ((h : IoHandler) → Has h hs → IsRange h.resource)
    → IsRange r
    → Compared hs r (find_overlap hs r)
unfolding find_overlap
find_overlap-Compared [] r ranges range = λ h m. absurd m
find_overlap-Compared (x ∷ hs) r ranges range =
    let hx = ranges x (inl refl) in
    let rest = find_overlap-Compared hs r (λ h m. ranges h (inr m)) range in
    let (f, g) = ranges_overlap_iff x.resource r hx range in
    if-splits (Compared (x ∷ hs) r) (x.resource.length == 0 || r.length == 0)
      (λ empty. absurd (ground (arith, hx.0, range.0, empty)))
      (λ full.
        if-splits (Compared (x ∷ hs) r)
          (ranges_overlap x.resource.base x.resource.length r.base r.length)
          (λ clash. (x, inl refl, λ apart. let free = g apart in absurd (cc)))
          (λ free. Compared-cons x hs r (find_overlap hs r) (f free) rest))

-- two lists of the same handlers
abbrev pub AreSame : List IoHandler → List IoHandler → Type 0
AreSame hs ks = (h : IoHandler) → Has h hs ↔ Has h ks

pub Compared-AreSame :
    (hs ks : List IoHandler) (r : IoResource) (o o' : Option Bool)
    → AreSame hs ks
    → Compared hs r o
    → Compared ks r o'
    → o ≡ o'
Compared-AreSame hs ks r none o' same c c' = absurd c
Compared-AreSame hs ks r (some b) none same c c' = absurd c'
Compared-AreSame hs ks r (some false) (some false) same c c' = refl
Compared-AreSame hs ks r (some true) (some true) same c c' = refl
Compared-AreSame hs ks r (some false) (some true) same c (h, m, clash) =
    absurd (clash (c h ((same h).1 m)))
Compared-AreSame hs ks r (some true) (some false) same (h, m, clash) c' =
    absurd (clash (c' h ((same h).0 m)))

-- the handler that is found does not depend on the order
abbrev pub handler_of : Option (ℕ × IoHandler) → Option IoHandler
handler_of none = none
handler_of (some (n, h)) = some h

pub Found-AreSame :
    (a : ℕ) (hs ks : List IoHandler) (r r' : Option (ℕ × IoHandler))
    → IsDisjoint hs
    → AreSame hs ks
    → Found 0 a hs r
    → Found 0 a ks r'
    → handler_of r ≡ handler_of r'
Found-AreSame a hs ks none none d same f f' = refl
Found-AreSame a hs ks none (some (n, h)) d same f (j, place, at, on) =
    let off = f h ((same h).1 (get-Has ks j h at)) in absurd (cc)
Found-AreSame a hs ks (some (n, h)) none d same (j, place, at, on) f' =
    let off = f' h ((same h).0 (get-Has hs j h at)) in absurd (cc)
Found-AreSame a hs ks (some (n, h)) (some (n', h')) d same (j, place, at, on)
      (j', place', at', on') =
    ap some
      (same_handler a hs h h' d (get-Has hs j h at) ((same h').1 (get-Has ks j' h' at')) on on')
