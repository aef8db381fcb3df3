-- ===== src/Links/Groups.antt =====
-- No device is left alone in a group, whatever is linked, unlinked or dismissed.
use mathlib.Core.Option.{some-injective}
use light_ipam.Base.{
  suc, ◌≤◌, true, false, List, [], ◌∷◌, Option, none, some, inl, inr, Text, map, any, same,
  same_refl, same-eq, ltb, ◌≡◌, ◌≢◌, refl, sym, ap, subst, ◌∙◌, arith, Bool-cases, Option-cases, In,
  here, there, In-cons, not-In-nil, In-map-intro, In-map-elim, In-any,
}
use light_ipam.Combined.Hosts.{IsHostList}
use light_ipam.Links.{
  Device, coalesce, find_device, leave_group, in_group, count_group, dissolve, dissolve_small,
}

-- The identifiers of the rows: a primary key.
abbrev pub Keyed : List Device → Type 0
Keyed devices = IsHostList (map (λ d. d.id) devices)

abbrev pub Member : Text → Device → Type 0
Member g d = d.group ≡ some g

-- Ids are a key, no group has the empty name, and every member of a group has another member.
pub record IsGrouped (devices : List Device) : Type 0 where
  pub keys : Keyed devices
  pub named : (d : Device) → In d devices → (g : Text) → Member g d → g ≢ []
  pub paired :
      (d : Device)
      → In d devices
      → (g : Text) → Member g d
      → (e : Device) × In e devices × Member g e × (e.id ≢ d.id)

pub not-same : (a b : Text) → same a b ≡ false → b ≢ a
not-same a b h e = true-false (sym h ∙ subst (λ c. same a c ≡ true) (sym e) (same_refl a))
  where
    true-false : false ≡ true → ⊥
    true-false h = cc

-- A row behind another has another id.
pub Keyed-cons :
    (d e : Device) (devices : List Device) → Keyed (d ∷ devices) → In e devices → e.id ≢ d.id
Keyed-cons d e devices (_, fresh, _) m q =
    let hit : any (same d.id) (map (λ x. x.id) devices) ≡ true =
      In-any (same d.id) (In-map-intro (λ x. x.id) m)
        (subst (λ i. same d.id i ≡ true) (sym q) (same_refl d.id)) in
    clash (sym fresh ∙ hit)
  where
    clash : false ≡ true → ⊥
    clash h = cc

pub in_group-Member : (g : Text) (d : Device) → in_group g d ≡ true → Member g d
in_group-Member g d h = elim (Option-cases d.group) [
  | inl e ↦ absurd (clash (rw e at h))
  | inr (k, e) ↦ e ∙ ap some (same-eq k g (rw e at h))
]
  where
    clash : false ≡ true → ⊥
    clash h = cc

pub Member-in_group : (g : Text) (d : Device) → Member g d → in_group g d ≡ true
Member-in_group g d h = rw h (same_refl g)

count_group-Member :
    (g : Text) (devices : List Device)
    → 1 ≤ count_group g devices
    → (e : Device) × In e devices × Member g e
unfolding count_group
count_group-Member g [] h = absurd (omega arith)
count_group-Member g (d ∷ devices) h = elim (Bool-cases (in_group g d)) [
  | inl e ↦ (d, here, in_group-Member g d e)
  | inr e ↦ let (x, m, k) = count_group-Member g devices (rw e at h) in (x, there m, k)
]

-- Of two members one is not the device with a given id.
count_group-other :
    (g x : Text) (devices : List Device)
    → Keyed devices
    → 2 ≤ count_group g devices
    → (e : Device) × In e devices × Member g e × (e.id ≢ x)
unfolding count_group
count_group-other g x [] k h = absurd (omega arith)
count_group-other g x (d ∷ devices) k h = elim (Bool-cases (in_group g d)) [
  | inr out ↦
      let (e, m, own, ne) = count_group-other g x devices k.2 (rw out at h) in (e, there m, own, ne)
  | inl own ↦ elim (Bool-cases (same x d.id)) [
    | inr ne ↦ (d, here, in_group-Member g d own, not-same x d.id ne)
    | inl eq ↦
        let more : 2 ≤ suc (count_group g devices) = rw own at h in
        let (e, m, own_e) = count_group-Member g devices (omega arith) in
        (e, there m, own_e, λ q. Keyed-cons d e devices k m (q ∙ same-eq x d.id eq))
  ]
]

-- Updates of rows keep the ids.
pub map-Keyed :
    (f : Device → Device)
    → ((d : Device) → (f d).id ≡ d.id)
    → (devices : List Device) → Keyed devices
    → Keyed (map f devices)
map-Keyed f h devices k = subst IsHostList (sym (ids devices)) k
  where
    ids : (devices : List Device) → map (λ d. d.id) (map f devices) ≡ map (λ d. d.id) devices
    ids [] = refl
    ids (d ∷ devices) = rw (h d, ids devices) refl

pub Keyed-unique :
    (d e : Device) (devices : List Device)
    → Keyed devices
    → In d devices
    → In e devices
    → d.id ≡ e.id
    → d ≡ e
Keyed-unique d e [] k m n q = absurd (not-In-nil m)
Keyed-unique d e (x ∷ devices) k m n q = elim (In-cons m) [
  | inl dx ↦ elim (In-cons n) [
    | inl ex ↦ dx ∙ sym ex
    | inr en ↦ absurd (Keyed-cons x e devices k en (sym q ∙ ap (λ y. y.id) dx))
  ]
  | inr dm ↦ elim (In-cons n) [
    | inl ex ↦ absurd (Keyed-cons x d devices k dm (q ∙ ap (λ y. y.id) ex))
    | inr en ↦ Keyed-unique d e devices k.2 dm en q
  ]
]

pub find_device-In :
    (id : Text) (devices : List Device) (d : Device)
    → find_device id devices ≡ some d
    → In d devices × (d.id ≡ id)
unfolding find_device
find_device-In id [] d h = cc
find_device-In id (x ∷ devices) d h = elim (Bool-cases (same x.id id)) [
  | inl e ↦
      let q : x ≡ d = some-injective _ _ (rw e at h) in
      (subst (λ y. In d (y ∷ devices)) (sym q) here, sym (ap (λ y. y.id) q) ∙ same-eq x.id id e)
  | inr e ↦ let (m, q) = find_device-In id devices d (rw e at h) in (there m, q)
]

none-Member : (g : Text) → ◌≡◌ {A = Option Text} none (some g) → ⊥
none-Member g h = cc

-- Rows after the device `id` left its group.
module _ (id : Text) where
  leave_group-id : (d : Device) → (leave_group id d).id ≡ d.id
  unfolding leave_group
  leave_group-id d = ground arith

  leave_group-Member :
      (g : Text) (d : Device) → Member g (leave_group id d) → Member g d × (d.id ≢ id)
  unfolding leave_group
  leave_group-Member g d h = elim (Bool-cases (same d.id id)) [
    | inl e ↦ absurd (none-Member g (rw e at h))
    | inr e ↦ (rw e at h, λ q. not-same d.id id e (sym q))
  ]

  leave_group-other : (d : Device) → d.id ≢ id → leave_group id d ≡ d
  unfolding leave_group
  leave_group-other d ne = elim (Bool-cases (same d.id id)) [
    | inl e ↦ absurd (ne (same-eq d.id id e))
    | inr e ↦ rw e refl
  ]

module _ (group : Text) where
  dissolve-id : (d : Device) → (dissolve group d).id ≡ d.id
  unfolding dissolve
  dissolve-id d = ground arith

  dissolve-Member : (g : Text) (d : Device) → Member g (dissolve group d) → Member g d × (g ≢ group)
  unfolding dissolve
  dissolve-Member g d h = elim (Bool-cases (in_group group d)) [
    | inl e ↦ absurd (none-Member g (rw e at h))
    | inr e ↦
        let own : Member g d = rw e at h in
        (own, λ q. clash (sym e ∙ Member-in_group group d (own ∙ ap some q)))
  ]
    where
      clash : false ≡ true → ⊥
      clash h = cc

  dissolve-other : (g : Text) (d : Device) → Member g d → g ≢ group → dissolve group d ≡ d
  unfolding dissolve
  dissolve-other g d own ne = elim (Bool-cases (in_group group d)) [
    | inl e ↦ absurd (ne (some-injective _ _ (sym own ∙ in_group-Member group d e)))
    | inr e ↦ rw e refl
  ]

-- All groups but one have their pairs still.
PairedBut : Text → List Device → Type 0
PairedBut group devices =
    (d : Device)
    → In d devices
    → (g : Text) → Member g d
    → g ≢ group
    → (e : Device) × In e devices × Member g e × (e.id ≢ d.id)

leave_group-PairedBut :
    (devices : List Device) (left : Device)
    → IsGrouped devices
    → In left devices
    → PairedBut (coalesce left.group) (map (leave_group left.id) devices)
unfolding PairedBut
leave_group-PairedBut devices left h m x i g own ne =
    let (d, md, dx) = In-map-elim (leave_group left.id) x devices i in
    let (own_d, _) = leave_group-Member left.id g d (ap (λ y. y.group) dx ∙ own) in
    let (e, me, own_e, apart) = h.paired d md g own_d in
    let e_stays : e.id ≢ left.id = λ q. ne (
      sym (
        ap coalesce
          (sym (ap (λ y. y.group) (Keyed-unique e left devices h.keys me m q)) ∙ own_e))) in
    (
      e,
      subst (λ y. In y (map (leave_group left.id) devices)) (leave_group-other left.id e e_stays)
          (In-map-intro (leave_group left.id) me),
      own_e,
      λ q. apart (q ∙ sym (ap (λ y. y.id) dx) ∙ leave_group-id left.id d),
    )

dissolve_small-IsGrouped :
    (group : Text) (devices : List Device)
    → Keyed devices
    → ((d : Device) → In d devices → (g : Text) → Member g d → g ≢ [])
    → PairedBut group devices
    → IsGrouped (dissolve_small group devices)
unfolding dissolve_small PairedBut
dissolve_small-IsGrouped group devices keys named pairs =
    elim (Bool-cases (ltb (count_group group devices) 2)) [
      | inr many ↦ rw many (record {
        keys = keys;
        named = named;
        paired = λ d m g own. elim (Bool-cases (same g group)) [
          | inr ne ↦ pairs d m g own (λ q. not-same g group ne (sym q))
          | inl eq ↦
              let two : 2 ≤ count_group group devices = ground arith in
              let (e, i, own_e, apart) = count_group-other group d.id devices keys two in
              (e, i, own_e ∙ ap some (sym (same-eq g group eq)), apart)
        ];
      })
      | inl few ↦ rw few (record {
        keys = map-Keyed (dissolve group) (dissolve-id group) devices keys;
        named = λ x m g own.
            let (d, i, dx) = In-map-elim (dissolve group) x devices m in
            named d i g (dissolve-Member group g d (ap (λ y. y.group) dx ∙ own)).0;
        paired = λ x m g own.
            let (d, i, dx) = In-map-elim (dissolve group) x devices m in
            let (own_d, ne) = dissolve-Member group g d (ap (λ y. y.group) dx ∙ own) in
            let (e, me, own_e, apart) = pairs d i g own_d ne in
            (
              e,
              subst (λ y. In y (map (dissolve group) devices)) (dissolve-other group g e own_e ne)
                  (In-map-intro (dissolve group) me),
              own_e,
              λ q. apart (q ∙ sym (ap (λ y. y.id) dx) ∙ dissolve-id group d),
            );
      })
    ]

-- When a member leaves, no other is left alone.
pub unlink-IsGrouped :
    (devices : List Device) (d : Device)
    → IsGrouped devices
    → In d devices
    → IsGrouped (dissolve_small (coalesce d.group) (map (leave_group d.id) devices))
unlink-IsGrouped devices d h m =
    dissolve_small-IsGrouped (coalesce d.group) (map (leave_group d.id) devices)
      (map-Keyed (leave_group d.id) (leave_group-id d.id) devices h.keys)
      (λ x i g own.
        let (y, j, yx) = In-map-elim (leave_group d.id) x devices i in
        h.named y j g (leave_group-Member d.id g y (ap (λ z. z.group) yx ∙ own)).0)
      (leave_group-PairedBut devices d h m)
