-- ===== src/Inventory/Synced.antt =====
-- `SyncImportedDiscovery`: it leaves the review queue and creates no address and no device.
use light_ipam.Base.{
  ℕ, ◌≤◌, List, [], ◌∷◌, Option, none, some, Text, ◌≡◌, inl, inr, refl, ap, subst, ◌∙◌, map,
  Bool-cases, arith, is_empty, ◌&&◌, ◌==◌, Bool, sym, same, In, here, there, In-cons, not-In-nil,
  if◌then◌else◌,
}
use light_ipam.Netip.{Addr, Prefix, contains}
use light_ipam.Inventory.{
  Postgres, Address, Subnet, Device, Mac, Discovery, Db, ok, >>=-eq-ok, ok-injective,
}
use light_ipam.Inventory.Queue.{get_discovery, is_imported}
use light_ipam.Inventory.Import.{
  backfill_subnet_vlan, filled, upsert_mac, fill_vlans, device_exists, attach_known_mac,
  attach_discovery_mac, refresh_device, update_devices, fill_hostname, backfill_hostname,
  sync_device, sync_at, sync_imported_discovery,
}
use light_ipam.Inventory.Review.{place}

abbrev pub named : Device → ℕ × Text
named d = (d.id, d.name)

abbrev pub ranged : Subnet → ℕ × Prefix
ranged s = (s.id, s.cidr)

-- Every MAC stays, with its id, device and address.
abbrev pub KeepsMacs : List Mac → List Mac → Type 0
KeepsMacs macs after =
    (m : Mac)
    → In m macs
    → (m' : Mac) × In m' after
      × (m'.id ≡ m.id)
      × (m'.device_id ≡ m.device_id)
      × (m'.address ≡ m.address)

pub KeepsMacs-refl : (macs : List Mac) → KeepsMacs macs macs
KeepsMacs-refl macs m i = (m, i, refl, refl, refl)

pub KeepsMacs-trans : (a b c : List Mac) → KeepsMacs a b → KeepsMacs b c → KeepsMacs a c
KeepsMacs-trans a b c h k m i =
    let (x, ix, id, device, address) = h m i in
    let (y, iy, id', device', address') = k x ix in
    (y, iy, id' ∙ id, device' ∙ device, address' ∙ address)

upsert_mac-KeepsMacs :
    (id device : ℕ) (facts : Text × Text × Bool) (macs : List Mac)
    → KeepsMacs macs (upsert_mac id device facts macs)
unfolding upsert_mac
upsert_mac-KeepsMacs id device (mac, vendor, private) [] m i = absurd (not-In-nil i)
upsert_mac-KeepsMacs id device (mac, vendor, private) (x ∷ macs) m i =
    elim (Bool-cases (same x.address mac)) [
      | inl hit ↦ elim (In-cons i) [
        | inl e ↦
            rw (upsert_mac, hit)
              (
                record x { vendor = if is_empty x.vendor then vendor else x.vendor },
                here,
                ap (λ y. y.id) (sym e),
                ap (λ y. y.device_id) (sym e),
                ap (λ y. y.address) (sym e),
              )
        | inr later ↦ rw (upsert_mac, hit) (m, there later, refl, refl, refl)
      ]
      | inr miss ↦ elim (In-cons i) [
        | inl e ↦
            rw (upsert_mac, miss)
              (
                x,
                here,
                ap (λ y. y.id) (sym e),
                ap (λ y. y.device_id) (sym e),
                ap (λ y. y.address) (sym e),
              )
        | inr later ↦
            let (y, iy, e1, e2, e3) =
              upsert_mac-KeepsMacs id device (mac, vendor, private) macs m later in
            rw (upsert_mac, miss) (y, there iy, e1, e2, e3)
      ]
    ]

-- A step that creates nothing: the queue is the same, no id is given out twice, and the subnets with
-- their ranges, the addresses with their subnets, devices and states, the devices with their names
-- and the MACs with their devices stay.
abbrev pub CreatesNothing : Db → Db → Type 0
CreatesNothing db after =
    (after.discoveries ≡ db.discoveries)
    × (db.next_id ≤ after.next_id)
    × (map place after.addresses ≡ map place db.addresses)
    × (map named after.devices ≡ map named db.devices)
    × (map ranged after.subnets ≡ map ranged db.subnets)
    × KeepsMacs db.macs after.macs

pub CreatesNothing-refl : (db : Db) → CreatesNothing db db
CreatesNothing-refl db = (refl, omega arith, refl, refl, refl, KeepsMacs-refl db.macs)

pub CreatesNothing-trans :
    (a b c : Db) → CreatesNothing a b → CreatesNothing b c → CreatesNothing a c
CreatesNothing-trans a b c (q, n, p, d, s, m) (q', n', p', d', s', m') =
    (q' ∙ q, omega arith, p' ∙ p, d' ∙ d, s' ∙ s, KeepsMacs-trans a.macs b.macs c.macs m m')

map-named-update_devices :
    (pg : Postgres) (agents : Text → Text) (id : ℕ) (d : Discovery) (rows : List Device)
    → map named (update_devices pg agents id d [] rows) ≡ map named rows
unfolding update_devices refresh_device
map-named-update_devices pg agents id d [] = refl
map-named-update_devices pg agents id d (x ∷ rows) =
    let rest = ap (λ r. named x ∷ r) (map-named-update_devices pg agents id d rows) in
    elim (Bool-cases (x.id == id)) [ inl hit ↦ rw hit rest | inr miss ↦ rw miss rest ]

map-place-fill_hostname :
    (pg : Postgres) (agents : Text → Text) (id : ℕ) (hostname : Text) (rows : List Address)
    → map place (fill_hostname pg agents id hostname rows) ≡ map place rows
unfolding fill_hostname
map-place-fill_hostname pg agents id hostname [] = refl
map-place-fill_hostname pg agents id hostname (a ∷ rows) =
    let rest = ap (λ r. place a ∷ r) (map-place-fill_hostname pg agents id hostname rows) in
    elim (Bool-cases (a.id == id && is_empty a.hostname)) [
      | inl hit ↦ rw hit rest
      | inr miss ↦ rw miss rest
    ]

map-ranged-fill_vlans :
    (ip : Addr) (vlan : ℕ) (rows : List Subnet)
    → map ranged (fill_vlans ip vlan rows) ≡ map ranged rows
unfolding fill_vlans
map-ranged-fill_vlans ip vlan [] = refl
map-ranged-fill_vlans ip vlan (s ∷ rows) =
    let rest = ap (λ r. ranged s ∷ r) (map-ranged-fill_vlans ip vlan rows) in
    elim (Bool-cases (contains s.cidr ip)) [ inl hit ↦ rw hit rest | inr miss ↦ rw miss rest ]

filled-CreatesNothing : (db : Db) (ip : Addr) (vlan : ℕ) → CreatesNothing db (filled db ip vlan)
unfolding filled
filled-CreatesNothing db ip vlan = elim (Bool-cases (vlan == 0)) [
  | inl none_seen ↦ rw none_seen (CreatesNothing-refl db)
  | inr seen ↦ rw seen (
    refl,
    omega arith,
    refl,
    refl,
    map-ranged-fill_vlans ip vlan db.subnets,
    KeepsMacs-refl db.macs,
  )
]

attach_known_mac-CreatesNothing :
    (db : Db) (device : ℕ) (d : Discovery) → CreatesNothing db (attach_known_mac db device d)
unfolding attach_known_mac attach_discovery_mac
attach_known_mac-CreatesNothing db device d = elim (Bool-cases (is_empty d.mac)) [
  | inl blank ↦ rw blank (CreatesNothing-refl db)
  | inr given ↦
      rw given
        (refl, omega arith, refl, refl, refl, upsert_mac-KeepsMacs db.next_id device _ db.macs)
]

module _ (pg : Postgres) (agents : Text → Text) where
  backfill_hostname-CreatesNothing :
      (db : Db) (d : Discovery) (o : Option ℕ)
      → CreatesNothing db (backfill_hostname pg agents db d o)
  backfill_hostname-CreatesNothing db d none = CreatesNothing-refl db
  backfill_hostname-CreatesNothing db d (some id) = elim (Bool-cases (is_empty d.hostname)) [
    | inl blank ↦ rw blank (CreatesNothing-refl db)
    | inr given ↦ rw given (
      refl,
      omega arith,
      map-place-fill_hostname pg agents id d.hostname db.addresses,
      refl,
      refl,
      KeepsMacs-refl db.macs,
    )
  ]

  sync_device-CreatesNothing :
      (db : Db) (d : Discovery) (device : ℕ) → CreatesNothing db (sync_device pg agents db d device)
  unfolding sync_device
  sync_device-CreatesNothing db d device =
      let db1 = record db { devices = update_devices pg agents device d [] db.devices } in
      let db2 = attach_known_mac db1 device d in
      let db3 = backfill_hostname pg agents db2 d d.imported_address_id in
      let updated : CreatesNothing db db1 = (
        refl,
        omega arith,
        refl,
        map-named-update_devices pg agents device d db.devices,
        refl,
        KeepsMacs-refl db.macs,
      ) in
      CreatesNothing-trans db db1 (sync_device pg agents db d device) updated (
        CreatesNothing-trans db1 db2 (sync_device pg agents db d device)
          (attach_known_mac-CreatesNothing db1 device d)
          (CreatesNothing-trans db2 db3 (sync_device pg agents db d device)
            (backfill_hostname-CreatesNothing db2 d d.imported_address_id)
            (filled-CreatesNothing db3 d.ip d.vlan)))

  sync_at-CreatesNothing :
      (db : Db) (d : Discovery) (o : Option ℕ) {out : Db × Option ℕ}
      → sync_at pg agents db d o ≡ ok out
      → CreatesNothing db out.0
  unfolding sync_at
  sync_at-CreatesNothing db d none h =
      subst (λ (o : Db × Option ℕ). CreatesNothing db o.0) (ok-injective h) (CreatesNothing-refl db)
  sync_at-CreatesNothing db d (some device) {out} h = elim (Bool-cases (is_imported d.status)) [
    | inl done ↦ elim (Bool-cases (device_exists device db.devices)) [
      | inl there_is ↦
          let (_, _, synced) =
            >>=-eq-ok (backfill_subnet_vlan db d.ip d.vlan)
              (λ _. ok (sync_device pg agents db d device, some device))
              (rw (sync_at, done, there_is) at h) in
          subst (λ (o : Db × Option ℕ). CreatesNothing db o.0) (ok-injective synced)
            (sync_device-CreatesNothing db d device)
      | inr gone ↦
          subst (λ (o : Db × Option ℕ). CreatesNothing db o.0)
            (ok-injective (rw (sync_at, done, gone) at h)) (CreatesNothing-refl db)
    ]
    | inr not_yet ↦
        subst (λ (o : Db × Option ℕ). CreatesNothing db o.0)
          (ok-injective (rw (sync_at, not_yet) at h)) (CreatesNothing-refl db)
  ]

  -- A sync that succeeds leaves the review queue as it is, and creates and removes no subnet, address
  -- or device: each subnet keeps its range, each address its subnet, device and state, and each
  -- device its name. Every MAC stays with its device.
  pub sync_imported_discovery-CreatesNothing :
      (db : Db) (id : ℕ) {out : Db × Option ℕ}
      → sync_imported_discovery pg agents db id ≡ ok out
      → CreatesNothing db out.0
  unfolding sync_imported_discovery
  sync_imported_discovery-CreatesNothing db id h =
      let (d, found, rest) =
        >>=-eq-ok (get_discovery db id) (λ d. sync_at pg agents db d d.imported_device_id) h in
      sync_at-CreatesNothing db d d.imported_device_id rest
