-- ===== src/Links/Merge.antt =====
-- `LinkDevices` as an operation on the partition of the devices: the named classes become one.
use light_ipam.Base.{
  true, false, List, [], some, ◌⊎◌, inl, inr, Text, map, same, same_refl, same-eq, ◌≡◌, ◌≢◌, ◌↔◌,
  refl, sym, ap, subst, ◌∙◌, arith, Bool-cases, Option-cases, In, not-In-nil, In-map-intro,
  In-map-elim, any-In, In-any,
}
use light_ipam.Combined.Merge.{union_from}
use light_ipam.Links.{
  Device, Db, coalesce, is_one_of, found_devices, found_groups, target_group, link_devices,
}
use light_ipam.Combined.Hosts.{union_from-In, In-union_from, union_from-IsHostList}
use light_ipam.Links.Groups.{Member, IsGrouped}
use light_ipam.Links.Joined.{
  IsHostList-In, reached, join_group-id, join_group-reached, join_group-other, join_group-Member,
  in_groups-any, groups_of, join, found_groups-In, partner-other, hit-reached, target_group-In,
  In-found_devices,
}
use light_ipam.Links.Steps.{link_unique-inr}

-- Two ids are of devices in one group.
abbrev pub SameHardware : List Device → Text → Text → Type 0
SameHardware devices x y =
    (d : Device) × In d devices
    × (d.id ≡ x)
    × ((e : Device) × In e devices × (e.id ≡ y) × ((g : Text) × Member g d × Member g e))

-- A device that is named, or is in a group with one that is.
abbrev pub Touched : List Device → List Text → Text → Type 0
Touched devices ids x =
    ((d : Device) × In d devices × (d.id ≡ x))
    × (In x ids ⊎ ((u : Text) × In u ids × SameHardware devices x u))

module _ (token : Text) (ids : List Text) (devices : List Device) (h : IsGrouped devices) where
  abbrev unique : List Text
  unique = union_from [] ids

  abbrev groups : List Text
  groups = groups_of token unique devices

  named-id : (d : Device) → In d devices → d.id ≢ []
  named-id d m = IsHostList-In d.id (map (λ x. x.id) devices) h.keys (In-map-intro (λ x. x.id) m)

  unique-In : (d : Device) → is_one_of unique d.id ≡ true → In d.id ids
  unique-In d hit =
      let (x, m, e) = any-In (same d.id) unique hit in
      elim (In-union_from [] ids x m) [
        | inl nowhere ↦ absurd (not-In-nil nowhere)
        | inr i ↦ subst (λ y. In y ids) (sym (same-eq d.id x e)) i
      ]

  In-unique : (d : Device) → In d devices → In d.id ids → is_one_of unique d.id ≡ true
  In-unique d m i = In-any (same d.id) (union_from-In [] ids d.id (named-id d m) i) (same_refl d.id)

  -- A group that is merged is the group of a device that is named.
  groups-In : (g : Text) → In g groups → (u : Device) × In u devices × In u.id ids × Member g u
  unfolding found_groups
  groups-In g m =
      let found = found_devices unique devices in
      let ne : g ≢ [] =
        IsHostList-In g groups (union_from-IsHostList [] (map (λ d. coalesce d.group) found) tt)
          m in
      elim (In-union_from [] (map (λ d. coalesce d.group) found) g m) [
        | inl nowhere ↦ absurd (not-In-nil nowhere)
        | inr i ↦
            let (u, mu, q) = In-map-elim (λ d. coalesce d.group) g found i in
            let (in_devices, hit) = In-found_devices unique u devices mu in
            (u, in_devices, unique-In u hit, coalesce-Member u g q ne)
      ]
    where
      coalesce-Member : (u : Device) (g : Text) → coalesce u.group ≡ g → g ≢ [] → Member g u
      coalesce-Member u g q ne = elim (Option-cases u.group) [
        | inl e ↦ absurd (ne (sym q ∙ ap coalesce e))
        | inr (k, e) ↦ e ∙ ap some (sym (ap coalesce e) ∙ q)
      ]

  reached-Touched :
      (d : Device) → In d devices → reached unique groups d ≡ true → Touched devices ids d.id
  reached-Touched d m r = elim (Bool-cases (is_one_of unique d.id)) [
    | inl hit ↦ ((d, m, refl), inl (unique-In d hit))
    | inr miss ↦ elim (Option-cases d.group) [
      | inl e ↦ absurd (clash (rw (miss, e) at r))
      | inr (g, e) ↦
          let (k, i, q) = any-In (same g) groups (rw (miss, e) at r) in
          let (u, mu, iu, own) = groups-In k i in
          (
            (d, m, refl),
            inr (u.id, iu, (d, m, refl, (u, mu, refl, (k, e ∙ ap some (same-eq g k q), own)))),
          )
    ]
  ]
    where
      clash : false ≡ true → ⊥
      clash h = cc

  group-reached :
      (d : Device) (g : Text) → Member g d → In g groups → reached unique groups d ≡ true
  group-reached d g own i =
      ground (arith, in_groups-any groups d.group g own, In-any (same g) i (same_refl g))

  Touched-reached :
      (x : Text)
      → Touched devices ids x
      → (d : Device) × In d devices × (d.id ≡ x) × (reached unique groups d ≡ true)
  Touched-reached x ((d, m, q), inl i) = (
    d,
    m,
    q,
    hit-reached token unique devices d (In-unique d m (subst (λ y. In y ids) (sym q) i)),
  )
  Touched-reached x ((d, m, q), inr (u, iu, (a, ma, qa, (b, mb, qb, (g, own_a, own_b))))) =
      let hit = In-unique b mb (subst (λ y. In y ids) (sym qb) iu) in
      (
        a,
        ma,
        qa,
        group-reached a g own_a
            (found_groups-In token unique devices b g mb hit own_b (h.named b mb g own_b)),
      )

  abbrev after : List Device
  after = map (join token unique devices) devices

  abbrev target : Text
  target = target_group token groups

  -- Only rows that the update reaches are in the merged group.
  target-reached :
      (d : Device)
      → Member target d
      → ((x : Device) → In x devices → Member token x → ⊥)
      → In d devices
      → reached unique groups d ≡ true
  target-reached d own fresh m = elim (target_group-In token groups) [
    | inl e ↦ absurd (fresh d m (own ∙ ap some e))
    | inr i ↦ group-reached d target own i
  ]

  SameHardware-after :
      (fresh : (x : Device) → In x devices → Member token x → ⊥) (x y : Text)
      → SameHardware after x y
      → SameHardware devices x y ⊎ (Touched devices ids x × Touched devices ids y)
  SameHardware-after fresh x y (d', m', dx, (e', n', ey, (g, own_d', own_e'))) =
      let (d, m, qd) = In-map-elim (join token unique devices) d' devices m' in
      let (e, n, qe) = In-map-elim (join token unique devices) e' devices n' in
      let ix : d.id ≡ x = sym (join_group-id target unique groups d) ∙ ap (λ z. z.id) qd ∙ dx in
      let iy : e.id ≡ y = sym (join_group-id target unique groups e) ∙ ap (λ z. z.id) qe ∙ ey in
      let touch : reached unique groups d ≡ true
          → reached unique groups e ≡ true
          → Touched devices ids x × Touched devices ids y =
        λ r q. (
          subst (Touched devices ids) ix (reached-Touched d m r),
          subst (Touched devices ids) iy (reached-Touched e n q),
        ) in
      elim (join_group-Member target unique groups g d (ap (λ z. z.group) qd ∙ own_d')) [
        | inl (rd, gd) ↦
            elim (join_group-Member target unique groups g e (ap (λ z. z.group) qe ∙ own_e')) [
              | inl (re, ge) ↦ inr (touch rd re)
              | inr (oe, own_e) ↦ inr (touch rd (target-reached e (own_e ∙ ap some gd) fresh n))
            ]
        | inr (od, own_d) ↦
            elim (join_group-Member target unique groups g e (ap (λ z. z.group) qe ∙ own_e')) [
              | inl (re, ge) ↦ inr (touch (target-reached d (own_d ∙ ap some ge) fresh m) re)
              | inr (oe, own_e) ↦ inl (d, m, ix, (e, n, iy, (g, own_d, own_e)))
            ]
      ]

  after-In : (d : Device) → In d devices → In (join token unique devices d) after
  after-In d m = In-map-intro (join token unique devices) m

  both-reached :
      (d e : Device)
      → In d devices
      → In e devices
      → reached unique groups d ≡ true
      → reached unique groups e ≡ true
      → SameHardware after d.id e.id
  both-reached d e m n rd re = (
    join token unique devices d,
    after-In d m,
    join_group-id target unique groups d,
    (
      join token unique devices e,
      after-In e n,
      join_group-id target unique groups e,
      (
        target,
        join_group-reached target unique groups d rd,
        join_group-reached target unique groups e re,
      ),
    ),
  )

  after-SameHardware : (x y : Text) → SameHardware devices x y → SameHardware after x y
  after-SameHardware x y (d, m, dx, (e, n, ey, (g, own_d, own_e))) =
      subst (λ k. SameHardware after k y) dx
        (subst (λ k. SameHardware after d.id k) ey
          (elim (Bool-cases (reached unique groups d)) [
            | inr od ↦
                let oe =
                  partner-other token unique devices d e g n own_d own_e (h.named d m g own_d) od in
                (
                  d,
                  subst (λ z. In z after) (join_group-other target unique groups d od)
                      (after-In d m),
                  refl,
                  (
                    e,
                    subst (λ z. In z after) (join_group-other target unique groups e oe)
                        (after-In e n),
                    refl,
                    (g, own_d, own_e),
                  ),
                )
            | inl rd ↦ elim (Bool-cases (reached unique groups e)) [
              | inl re ↦ both-reached d e m n rd re
              | inr oe ↦ absurd (
                  clash (
                    sym (
                      partner-other token unique devices e d g m own_e own_d (h.named e n g own_e)
                        oe)
                    ∙ rd))
            ]
          ]))
    where
      clash : false ≡ true → ⊥
      clash h = cc

  after-Touched :
      (x y : Text) → Touched devices ids x → Touched devices ids y → SameHardware after x y
  after-Touched x y tx ty =
      let (d, m, dx, rd) = Touched-reached x tx in
      let (e, n, ey, re) = Touched-reached y ty in
      subst (λ k. SameHardware after k y) dx
        (subst (λ k. SameHardware after d.id k) ey (both-reached d e m n rd re))

-- A link that succeeds merges groups and does nothing else: afterwards two devices are in one group
-- exactly if they were before, or if each of them is named in the call or was in a group with a
-- device that is. The devices are grouped as the operations leave them, and the new token is not in
-- use.
pub link_devices-SameHardware :
    (token : Text) (ids : List Text) (db db' : Db)
    → IsGrouped db.devices
    → ((d : Device) → In d db.devices → Member token d → ⊥)
    → link_devices token ids db ≡ inr db'
    → (x y : Text)
    → SameHardware db'.devices x y
      ↔ (SameHardware db.devices x y ⊎ (Touched db.devices ids x × Touched db.devices ids y))
unfolding link_devices
link_devices-SameHardware token ids db db' h fresh l x y =
    let (_, _, made) = link_unique-inr token (union_from [] ids) db db' l in
    subst
      (λ k.
        SameHardware k.devices x y
        ↔ (SameHardware db.devices x y ⊎ (Touched db.devices ids x × Touched db.devices ids y)))
      (sym made)
      (
        SameHardware-after token ids db.devices h fresh x y,
        λ s. elim s [
          | inl before ↦ after-SameHardware token ids db.devices h x y before
          | inr (tx, ty) ↦ after-Touched token ids db.devices h x y tx ty
        ],
      )
