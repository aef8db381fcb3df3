-- ===== src/Links/Joined.antt =====
-- No device is left alone in a group, whatever is linked, unlinked or dismissed: the changes.
use mathlib.Core.Option.{some-injective}
use light_ipam.Base.{
  ◌≤◌, Bool, true, false, ◌||◌, List, [], ◌∷◌, Option, some, ◌⊎◌, inl, inr, Text, map, any, length,
  same, same_refl, same-eq, ◌≡◌, ◌≢◌, refl, sym, ap, subst, ◌∙◌, arith, Bool-cases, In, here, there,
  In-cons, not-In-nil, In-map-intro, In-map-elim, In-any,
}
use light_ipam.Combined.Hosts.{IsHostList}
use light_ipam.Links.{
  Device, coalesce, is_one_of, found_devices, found_groups, in_groups, join_group, target_group,
}
use light_ipam.Combined.Hosts.{union_from-In, union_from-IsHostList}
use light_ipam.Links.{least_of, text_less}
use light_ipam.Links.Groups.{Keyed, Member, IsGrouped, not-same, Keyed-cons, map-Keyed}

-- Of two rows one has not a given id.
other_row :
    (x : Text) (rows : List Device)
    → Keyed rows
    → 2 ≤ length rows
    → (e : Device) × In e rows × (e.id ≢ x)
other_row x [] k h = absurd (omega arith)
other_row x (a ∷ []) k h = absurd (omega arith)
other_row x (a ∷ b ∷ rows) k h = elim (Bool-cases (same x a.id)) [
  | inr ne ↦ (a, here, not-same x a.id ne)
  | inl eq ↦ (b, there here, λ q. Keyed-cons a b (b ∷ rows) k here (q ∙ same-eq x a.id eq))
]

module _ (ids : List Text) where
  found_devices-fresh :
      (x : Text) (devices : List Device)
      → any (same x) (map (λ d. d.id) devices) ≡ false
      → any (same x) (map (λ d. d.id) (found_devices ids devices)) ≡ false
  unfolding found_devices any
  found_devices-fresh x [] h = refl
  found_devices-fresh x (d ∷ devices) h = elim (Bool-cases (is_one_of ids d.id)) [
    | inl e ↦ rw e (ground (arith, found_devices-fresh x devices))
    | inr e ↦ rw e (found_devices-fresh x devices (ground arith))
  ]

  found_devices-Keyed : (devices : List Device) → Keyed devices → Keyed (found_devices ids devices)
  unfolding found_devices
  found_devices-Keyed [] k = k
  found_devices-Keyed (d ∷ devices) (ne, fresh, k) = elim (Bool-cases (is_one_of ids d.id)) [
    | inl e ↦ rw e (ne, found_devices-fresh d.id devices fresh, found_devices-Keyed devices k)
    | inr e ↦ rw e (found_devices-Keyed devices k)
  ]

  pub In-found_devices :
      (e : Device) (devices : List Device)
      → In e (found_devices ids devices)
      → In e devices × (is_one_of ids e.id ≡ true)
  unfolding found_devices
  In-found_devices e [] m = absurd (not-In-nil m)
  In-found_devices e (d ∷ devices) m = elim (Bool-cases (is_one_of ids d.id)) [
    | inr out ↦ let (i, own) = In-found_devices e devices (rw out at m) in (there i, own)
    | inl hit ↦ elim (In-cons (rw hit at m)) [
      | inl q ↦ (
        subst (λ y. In e (y ∷ devices)) q here,
        subst (λ y. is_one_of ids y.id ≡ true) (sym q) hit,
      )
      | inr r ↦ let (i, own) = In-found_devices e devices r in (there i, own)
    ]
  ]

  found_devices-In :
      (e : Device) (devices : List Device)
      → In e devices
      → is_one_of ids e.id ≡ true
      → In e (found_devices ids devices)
  unfolding found_devices
  found_devices-In e [] m h = absurd (not-In-nil m)
  found_devices-In e (d ∷ devices) m h = elim (In-cons m) [
    | inl q ↦
        rw (subst (λ y. is_one_of ids y.id ≡ true) q h)
          (subst (λ y. In e (y ∷ found_devices ids devices)) q here)
    | inr r ↦ elim (Bool-cases (is_one_of ids d.id)) [
      | inl hit ↦ rw hit (there (found_devices-In e devices r h))
      | inr out ↦ rw out (found_devices-In e devices r h)
    ]
  ]

pub IsHostList-In : (h : Text) (hs : List Text) → IsHostList hs → In h hs → h ≢ []
IsHostList-In h [] d m = absurd (not-In-nil m)
IsHostList-In h (x ∷ hs) (ne, _, d) m = elim (In-cons m) [
  | inl q ↦ λ e. ne (sym q ∙ e)
  | inr r ↦ IsHostList-In h hs d r
]

In-least_of : (g : Text) (groups : List Text) → In (least_of g groups) (g ∷ groups)
unfolding least_of
In-least_of g [] = here
In-least_of g (x ∷ groups) = elim (Bool-cases (text_less x g)) [
  | inl e ↦ rw e (there (In-least_of x groups))
  | inr e ↦ rw e (skip (In-least_of g groups))
]
  where
    skip : {y : Text} → In y (g ∷ groups) → In y (g ∷ x ∷ groups)
    skip m = elim (In-cons m) [
      | inl q ↦ subst (λ z. In z (g ∷ x ∷ groups)) (sym q) here
      | inr r ↦ there (there r)
    ]

pub target_group-In :
    (token : Text) (groups : List Text)
    → (target_group token groups ≡ token) ⊎ In (target_group token groups) groups
target_group-In token [] = inl refl
target_group-In token (g ∷ groups) = inr (In-least_of g groups)

-- A row that the update of a link reaches.
abbrev pub reached : List Text → List Text → Device → Bool
reached ids groups d = is_one_of ids d.id || in_groups groups d.group

module _ (target : Text) (ids groups : List Text) where
  pub join_group-id : (d : Device) → (join_group target ids groups d).id ≡ d.id
  unfolding join_group
  join_group-id d = ground arith

  pub join_group-reached :
      (d : Device) → reached ids groups d ≡ true → Member target (join_group target ids groups d)
  unfolding join_group
  join_group-reached d h = rw h refl

  pub join_group-other :
      (d : Device) → reached ids groups d ≡ false → join_group target ids groups d ≡ d
  unfolding join_group
  join_group-other d h = rw h refl

  pub join_group-Member :
      (g : Text) (d : Device)
      → Member g (join_group target ids groups d)
      → ((reached ids groups d ≡ true) × (g ≡ target))
        ⊎ ((reached ids groups d ≡ false) × Member g d)
  join_group-Member g d own = elim (Bool-cases (reached ids groups d)) [
    | inl hit ↦ inl (hit, some-injective _ _ (sym own ∙ join_group-reached d hit))
    | inr out ↦ inr (out, subst (λ y. Member g y) (join_group-other d out) own)
  ]

pub in_groups-any :
    (groups : List Text) (o : Option Text) (g : Text)
    → o ≡ some g
    → in_groups groups o ≡ any (same g) groups
in_groups-any groups o g h = ap (in_groups groups) h

module _ (token : Text) (ids : List Text) (devices : List Device) where
  abbrev pub groups_of : List Text
  groups_of = found_groups (found_devices ids devices)

  abbrev pub join : Device → Device
  join = join_group (target_group token groups_of) ids groups_of

  -- The group of a device that is linked is among the merged groups.
  pub found_groups-In :
      (e : Device) (g : Text)
      → In e devices
      → is_one_of ids e.id ≡ true
      → Member g e
      → g ≢ []
      → In g groups_of
  unfolding found_groups
  found_groups-In e g m h own ne =
      union_from-In [] (map (λ d. coalesce d.group) (found_devices ids devices)) g ne (
        subst (λ x. In x (map (λ d. coalesce d.group) (found_devices ids devices)))
          (ap coalesce own)
          (In-map-intro (λ d. coalesce d.group) (found_devices-In ids e devices m h)))

  target-named : token ≢ [] → target_group token groups_of ≢ []
  unfolding found_groups
  target-named t = elim (target_group-In token groups_of) [
    | inl e ↦ λ q. t (sym e ∙ q)
    | inr m ↦
        IsHostList-In _ groups_of
          (union_from-IsHostList [] (map (λ d. coalesce d.group) (found_devices ids devices)) tt) m
  ]

  -- A partner of a row that the update does not reach is not reached either.
  pub partner-other :
      (d e : Device) (g : Text)
      → In e devices
      → Member g d
      → Member g e
      → g ≢ []
      → reached ids groups_of d ≡ false
      → reached ids groups_of e ≡ false
  partner-other d e g m own_d own_e ne out =
      let far : any (same g) groups_of ≡ false =
        ground (arith, out, in_groups-any groups_of d.group g own_d) in
      elim (Bool-cases (is_one_of ids e.id)) [
        | inl hit ↦
            absurd
              (clash (sym far ∙ In-any (same g) (found_groups-In e g m hit own_e ne) (same_refl g)))
        | inr miss ↦ ground (arith, miss, far, in_groups-any groups_of e.group g own_e)
      ]
    where
      clash : false ≡ true → ⊥
      clash h = cc

  pub hit-reached : (e : Device) → is_one_of ids e.id ≡ true → reached ids groups_of e ≡ true
  hit-reached e h = rw h refl

  -- A member of the merged group has another there: one of the devices that were named.
  target-paired :
      (d : Device)
      → Keyed devices
      → 2 ≤ length (found_devices ids devices)
      → (e : Device) × In e (map join devices)
        × Member (target_group token groups_of) e
        × (e.id ≢ d.id)
  target-paired d k two =
      let (e, me, apart) =
        other_row d.id (found_devices ids devices) (found_devices-Keyed ids devices k) two in
      let (i, hit) = In-found_devices ids e devices me in
      (
        join e,
        In-map-intro join i,
        join_group-reached _ ids groups_of e (hit-reached e hit),
        λ q. apart (sym (join_group-id _ ids groups_of e) ∙ q),
      )

  -- Another group keeps its members.
  other-paired :
      (d : Device) (g : Text)
      → IsGrouped devices
      → In d devices
      → Member g d
      → reached ids groups_of d ≡ false
      → (e : Device) × In e (map join devices) × Member g e × (e.id ≢ d.id)
  other-paired d g h m own out =
      let (e, me, own_e, apart) = h.paired d m g own in
      let far = partner-other d e g me own own_e (h.named d m g own) out in
      (
        e,
        subst (λ y. In y (map join devices)) (join_group-other _ ids groups_of e far)
            (In-map-intro join me),
        own_e,
        apart,
      )

  pub joined-IsGrouped :
      token ≢ []
      → 2 ≤ length (found_devices ids devices)
      → IsGrouped devices
      → IsGrouped (map join devices)
  joined-IsGrouped t two h = record {
    keys = map-Keyed join (join_group-id _ ids groups_of) devices h.keys;
    named = λ x i g own.
        let (d, m, dx) = In-map-elim join x devices i in
        elim (join_group-Member _ ids groups_of g d (ap (λ y. y.group) dx ∙ own)) [
          | inl (hit, q) ↦ λ e. target-named t (sym q ∙ e)
          | inr (out, own_d) ↦ h.named d m g own_d
        ];
    paired = λ x i g own.
        let (d, m, dx) = In-map-elim join x devices i in
        let same_id : d.id ≡ x.id = sym (join_group-id _ ids groups_of d) ∙ ap (λ y. y.id) dx in
        subst (λ k. (e : Device) × In e (map join devices) × Member g e × (e.id ≢ k)) same_id
          (elim (join_group-Member _ ids groups_of g d (ap (λ y. y.group) dx ∙ own)) [
            | inl (hit, q) ↦
                subst (λ k. (e : Device) × In e (map join devices) × Member k e × (e.id ≢ d.id))
                  (sym q) (target-paired d h.keys two)
            | inr (out, own_d) ↦ other-paired d g h m own_d out
          ]);
  }
