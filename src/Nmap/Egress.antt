-- ===== src/Nmap/Egress.antt =====
-- The plan of `planEgress`: no target is lost, and only what lies in the source subnet is pinned.
use mathlib.Core.List.Permᴰ
use mathlib.Core.List.{Permᴰ}
use light_ipam.Base.{
  Bool, true, false, not, List, [], ◌∷◌, ◌++◌, Option, none, some, ◌⊎◌, inl, inr, Text, append-nil,
  if◌then◌else◌, ◌≡◌, ◌≢◌, refl, sym, ap, subst, ◌∙◌, In, here, In-cons, In-append, not-In-nil,
}
use light_ipam.Netip.{Prefix, Addr, contains}
use light_ipam.Netip.Parse.{parse_addr}
use light_ipam.Nmap.Adjacency.{Covers, local-contains, outside}
use light_ipam.Nmap.{
  EgressOptions, EgressSet, EgressPlan, PinMode, unset, auto, always, off, TargetAdjacency, local,
  routed, straddle, classify_adjacency, split_from, set_unless_empty, whole, plan_auto, plan_mode,
  plan_egress, pin_configured, effective_pin_mode, without_pin,
}

Adjacency-cases : (c : TargetAdjacency) → (c ≡ local) ⊎ ((c ≡ routed) ⊎ (c ≡ straddle))
Adjacency-cases local = inl refl
Adjacency-cases routed = inr (inl refl)
Adjacency-cases straddle = inr (inr refl)

apart :
    (t : Text) {targets : List Text} (xs ys : List Text)
    → Permᴰ targets (xs ++ ys)
    → Permᴰ (t ∷ targets) (xs ++ t ∷ ys)
apart t xs ys p = Permᴰ.trans (Permᴰ.cons refl p) (Permᴰ.symm (Permᴰ.middle t xs ys))

module _ (src : Option Prefix) where
  split_from-perm :
      (targets : List Text)
      → Permᴰ targets ((split_from src targets).pinned ++ (split_from src targets).unpinned)
  unfolding split_from
  split_from-perm [] = Permᴰ.nil
  split_from-perm (t ∷ targets) = elim (Adjacency-cases (classify_adjacency t src)) [
    | inl e ↦ rw (split_from, e) (Permᴰ.cons refl (split_from-perm targets))
    | inr (inl e) ↦ rw (split_from, e) (apart t _ _ (split_from-perm targets))
    | inr (inr e) ↦ rw (split_from, e) (apart t _ _ (split_from-perm targets))
  ]

  split_from-pinned :
      (targets : List Text) {t : Text}
      → In t (split_from src targets).pinned
      → classify_adjacency t src ≡ local
  unfolding split_from
  split_from-pinned [] m = absurd (not-In-nil m)
  split_from-pinned (x ∷ targets) m = elim (Adjacency-cases (classify_adjacency x src)) [
    | inl e ↦ elim (In-cons (rw (split_from, e) at m)) [
      | inl q ↦ ap (λ y. classify_adjacency y src) q ∙ e
      | inr r ↦ split_from-pinned targets r
    ]
    | inr (inl e) ↦ split_from-pinned targets (rw (split_from, e) at m)
    | inr (inr e) ↦ split_from-pinned targets (rw (split_from, e) at m)
  ]

  split_from-unpinned :
      (targets : List Text) {t : Text}
      → In t (split_from src targets).unpinned
      → classify_adjacency t src ≢ local
  unfolding split_from
  split_from-unpinned [] m = absurd (not-In-nil m)
  split_from-unpinned (x ∷ targets) m = elim (Adjacency-cases (classify_adjacency x src)) [
    | inl e ↦ split_from-unpinned targets (rw (split_from, e) at m)
    | inr (inl e) ↦ elim (In-cons (rw (split_from, e) at m)) [
      | inl q ↦ λ h. cc
      | inr r ↦ split_from-unpinned targets r
    ]
    | inr (inr e) ↦ elim (In-cons (rw (split_from, e) at m)) [
      | inl q ↦ λ h. cc
      | inr r ↦ split_from-unpinned targets r
    ]
  ]

abbrev pub all_targets : List EgressSet → List Text
all_targets [] = []
all_targets (s ∷ sets) = s.targets ++ all_targets sets

-- What lies in the source subnet, whatever the address of the target.
abbrev pub IsInside : Option Prefix → List Text → Type 0
IsInside net targets =
    (src : Prefix) × (net ≡ some src)
    × ((t : Text) (a : Addr) → In t targets → Covers t a → contains src a ≡ true)

-- A set with the pin: the pin is set, and the mode is `always` or the targets are inside.
abbrev pub IsPinned : EgressOptions → EgressSet → Type 0
IsPinned egress s =
    (s.egress ≡ egress)
    × (pin_configured egress ≡ true)
    × ((effective_pin_mode egress ≡ always) ⊎ IsInside egress.source_net s.targets)

-- A set with no pin: none is set, or the mode is `off`, or no host of it is in the source subnet.
abbrev pub IsUnpinned : EgressOptions → EgressSet → Type 0
IsUnpinned egress s =
    (s.egress ≡ without_pin egress)
    × ((pin_configured egress ≡ false)
        ⊎ ((effective_pin_mode egress ≡ off)
            ⊎ ((src : Prefix) (t : Text) (a : Addr)
                → egress.source_net ≡ some src
                → In t s.targets
                → parse_addr t ≡ some a
                → contains src a ≡ false)))

abbrev pub IsSetFor : EgressOptions → EgressSet → Type 0
IsSetFor egress s =
    ((s.pinned ≡ true) × IsPinned egress s) ⊎ ((s.pinned ≡ false) × IsUnpinned egress s)

pinned-IsInside :
    (net : Option Prefix) (targets : List Text)
    → targets ≢ []
    → ((t : Text) → In t targets → classify_adjacency t net ≡ local)
    → IsInside net targets
unfolding classify_adjacency
pinned-IsInside none [] ne h = absurd (ne refl)
pinned-IsInside none (t ∷ targets) ne h = absurd (routed-not-local (h t here))
  where
    routed-not-local : routed ≢ local
    routed-not-local e = cc e
pinned-IsInside (some src) targets ne h = (src, refl, λ t a m c. local-contains src t a (h t m) c)

set_unless_empty-cases :
    (targets : List Text) (egress : EgressOptions) (pinned : Bool) (P : EgressSet → Type 0)
    → (targets ≢ [] → P (record { targets = targets; egress = egress; pinned = pinned }))
    → (s : EgressSet) → In s (set_unless_empty targets egress pinned)
    → P s
set_unless_empty-cases [] egress pinned P h s m = absurd (not-In-nil m)
set_unless_empty-cases (t ∷ targets) egress pinned P h s m = elim (In-cons m) [
  | inl e ↦ subst P (sym e) (h (λ q. cc q))
  | inr r ↦ absurd (not-In-nil r)
]

all_targets-sets :
    (xs ys : List Text) (e e' : EgressOptions)
    → all_targets (set_unless_empty xs e true ++ set_unless_empty ys e' false) ≡ xs ++ ys
all_targets-sets [] [] e e' = refl
all_targets-sets [] (y ∷ ys) e e' = append-nil _
all_targets-sets (x ∷ xs) [] e e' = refl
all_targets-sets (x ∷ xs) (y ∷ ys) e e' = ap (λ l. x ∷ xs ++ l) (append-nil _)

set_unless_empty-pair :
    (xs ys : List Text) (e e' : EgressOptions) (P : EgressSet → Type 0)
    → (xs ≢ [] → P (record { targets = xs; egress = e; pinned = true }))
    → P (record { targets = ys; egress = e'; pinned = false })
    → (s : EgressSet) → In s (set_unless_empty xs e true ++ set_unless_empty ys e' false)
    → P s
set_unless_empty-pair xs ys e e' P h h' s m = elim (In-append _ _ m) [
  | inl l ↦ set_unless_empty-cases xs e true P h s l
  | inr r ↦ set_unless_empty-cases ys e' false P (λ _. h') s r
]

abbrev pub Plans : EgressOptions → List Text → EgressPlan → Type 0
Plans egress targets plan =
    Permᴰ targets (all_targets plan.sets) × ((s : EgressSet) → In s plan.sets → IsSetFor egress s)

plan_auto-Plans :
    (egress : EgressOptions) (targets : List Text)
    → pin_configured egress ≡ true
    → Plans egress targets (plan_auto egress (split_from egress.source_net targets))
plan_auto-Plans egress targets on =
    let s = split_from egress.source_net targets in
    (
      subst (Permᴰ targets) (sym (all_targets-sets s.pinned s.unpinned egress (without_pin egress)))
          (split_from-perm egress.source_net targets),
      set_unless_empty-pair s.pinned s.unpinned egress (without_pin egress) (IsSetFor egress)
          (λ ne. inl (
            refl,
            (
              refl,
              on,
              inr (
                  pinned-IsInside egress.source_net s.pinned ne
                    (λ t. split_from-pinned egress.source_net targets)),
            ),
          ))
          (inr (
            refl,
            (
              refl,
              inr (
                  inr (λ src t a e m p.
                    outside src t a
                      (subst (λ n. classify_adjacency t n ≢ local) e
                        (split_from-unpinned egress.source_net targets m))
                      p)),
            ),
          )),
    )

whole-Plans :
    (egress : EgressOptions) (targets : List Text) (e : EgressOptions) (pinned : Bool)
    → IsSetFor egress (record { targets = targets; egress = e; pinned = pinned })
    → Plans egress targets (whole targets e pinned)
whole-Plans egress targets e pinned h = (
  subst (Permᴰ targets) (sym (append-nil targets)) (Permᴰ.refl targets),
  λ s m. elim (In-cons m) [
    | inl q ↦ subst (IsSetFor egress) (sym q) h
    | inr r ↦ absurd (not-In-nil r)
  ],
)

plan_mode-Plans :
    (egress : EgressOptions) (targets : List Text) (mode : PinMode)
    → pin_configured egress ≡ true
    → effective_pin_mode egress ≡ mode
    → Plans egress targets (plan_mode egress targets mode)
plan_mode-Plans egress targets off on e =
    whole-Plans egress targets (without_pin egress) false (inr (refl, (refl, inr (inl e))))
plan_mode-Plans egress targets always on e =
    whole-Plans egress targets egress true (inl (refl, (refl, on, inl e)))
plan_mode-Plans egress targets auto on e = plan_auto-Plans egress targets on
plan_mode-Plans egress targets unset on e = plan_auto-Plans egress targets on

if_not-Plans :
    (egress : EgressOptions) (targets : List Text) (b : Bool) (bare planned : EgressPlan)
    → (b ≡ false → Plans egress targets bare)
    → (b ≡ true → Plans egress targets planned)
    → Plans egress targets (if not b then bare else planned)
if_not-Plans egress targets true _ _ f g = g refl
if_not-Plans egress targets false _ _ f g = f refl

-- The sets of a plan hold exactly the targets given, each as often as it was, in some order. A set
-- with the pin is scanned with the options given, only where a pin is configured, and, unless the
-- mode is to pin always, every address that one of its targets covers is in the source subnet, which
-- is known. A set without the pin is scanned with no interface and no source address; where a pin is
-- configured and the mode is not `off`, no host among its targets is in the source subnet.
pub plan_egress-Plans :
    (egress : EgressOptions) (targets : List Text)
    → Plans egress targets (plan_egress egress targets)
unfolding plan_egress
plan_egress-Plans egress targets =
    if_not-Plans egress targets (pin_configured egress) _ _
      (λ bare. whole-Plans egress targets (without_pin egress) false (inr (refl, (refl, inl bare))))
      (λ on. plan_mode-Plans egress targets (effective_pin_mode egress) on refl)
