-- ===== src/Inventory/Linked.antt =====
-- `ImportDiscovery` as a whole: the rows that it links, and the review queue that it leaves.
use mathlib.Core.Option.{some-injective}
use light_ipam.Base.{
  ℕ, ◌≤◌, true, List, [], ◌∷◌, Option, none, some, Text, ◌≡◌, inl, inr, refl, sym, ap, subst, ◌∙◌,
  Bool-cases, arith, is_empty, trim_space, ◌==◌, ==_iff, Option-cases,
}
use light_ipam.Netip.{Addr}
use light_ipam.Inventory.{
  Postgres, imported, Address, Subnet, Discovery, Db, ok, >>=-eq-ok, ok-injective, err≢ok,
}
use light_ipam.Inventory.Queue.{address_at, discovery_by_id, get_discovery}
use light_ipam.Inventory.Import.{
  containing_subnet, filled, backfill_subnet_vlan, device_exists, attach_known_mac,
  attach_discovery_mac, create_or_update, import_discovery_device, resolve_import_device,
  upsert_address, mark_imported, import_into, import_found, import_discovery,
}
use light_ipam.Inventory.Imported.{
  Picks, containing_subnet-Picks, upsert_address-row, mark_imported-row, OwnersExist,
  import_discovery_device-exists,
}

-- The parts of the database that a step leaves alone.
abbrev pub SameRecords : Db → Db → Type 0
SameRecords db after =
    (after.devices ≡ db.devices)
    × (after.macs ≡ db.macs)
    × (after.discoveries ≡ db.discoveries)
    × (after.next_id ≡ db.next_id)

filled-SameRecords : (db : Db) (ip : Addr) (vlan : ℕ) → SameRecords db (filled db ip vlan)
unfolding filled
filled-SameRecords db ip vlan = elim (Bool-cases (vlan == 0)) [
  | inl none_seen ↦ rw none_seen (refl, refl, refl, refl)
  | inr seen ↦ rw seen (refl, refl, refl, refl)
]

abbrev pub Grows : Db → Db → Type 0
Grows db after = (after.discoveries ≡ db.discoveries) × (db.next_id ≤ after.next_id)

pub attach_known_mac-Grows :
    (db : Db) (device : ℕ) (d : Discovery) → Grows db (attach_known_mac db device d)
unfolding attach_known_mac attach_discovery_mac
attach_known_mac-Grows db device d = elim (Bool-cases (is_empty d.mac)) [
  | inl blank ↦ rw blank (refl, omega arith)
  | inr given ↦ rw given (refl, omega arith)
]

create_or_update-Grows :
    (pg : Postgres) (agents : Text → Text) (db : Db) (d : Discovery) (name : Text) (o : Option ℕ)
    → Grows db (create_or_update pg agents db d name o).0
create_or_update-Grows pg agents db d name none = (refl, omega arith)
create_or_update-Grows pg agents db d name (some id) = (refl, omega arith)

import_discovery_device-Grows :
    (pg : Postgres) (agents : Text → Text) (db : Db) (d : Discovery) (name : Text)
    → Grows db (import_discovery_device pg agents db d name).0
unfolding import_discovery_device
import_discovery_device-Grows pg agents db d name =
    let out = create_or_update pg agents db d (trim_space name) (resolve_import_device db d) in
    let (same, more) =
      create_or_update-Grows pg agents db d (trim_space name) (resolve_import_device db d) in
    let (then_same, then_more) = attach_known_mac-Grows out.0 out.1 d in
    (then_same ∙ same, omega arith)

pub discovery_by_id-id :
    (id : ℕ) (rows : List Discovery) {d : Discovery} → discovery_by_id id rows ≡ some d → d.id ≡ id
unfolding discovery_by_id
discovery_by_id-id id [] h = absurd cc
discovery_by_id-id id (x ∷ rows) {d} h = elim (Bool-cases (x.id == id)) [
  | inl hit ↦ ap (λ o. o.id) (sym (some-injective x d (rw hit at h))) ∙ (==_iff x.id id).0 hit
  | inr miss ↦ discovery_by_id-id id rows (rw miss at h)
]

-- What an import leaves for the discovery `id`: it is imported, it names the row of its address and
-- a device that exists, the row names that device and lies in the longest subnet around the address.
abbrev pub Linked : Db → ℕ → Db → Type 0
Linked db id after =
    (e : Discovery) × (a : Address) × (s : Subnet) × (device : ℕ) × (discovery_by_id id
        after.discoveries
      ≡ some e)
    × (e.status ≡ imported)
    × (e.imported_address_id ≡ some a.id)
    × (e.imported_device_id ≡ some device)
    × (address_at e.ip after.addresses ≡ some a)
    × (a.device_id ≡ some device)
    × (a.subnet_id ≡ s.id)
    × (device_exists device after.devices ≡ true)
    × Picks e.ip db.subnets (some s)

module _ (pg : Postgres) (agents : Text → Text) where
  get_discovery-eq-ok :
      (db : Db) (id : ℕ) {d : Discovery}
      → get_discovery db id ≡ ok d
      → discovery_by_id id db.discoveries ≡ some d
  unfolding get_discovery
  get_discovery-eq-ok db id h = ground arith

  import_found-eq-ok :
      (db : Db) (d : Discovery) (name : Text) (now : ℕ) {after : Db}
      → import_found pg agents db d name now ≡ ok after
      → (s : Subnet) × (containing_subnet d.ip db.subnets ≡ some s)
        × (import_into pg agents db d name now s ≡ after)
  unfolding import_found
  import_found-eq-ok db d name now {after} h =
      elim (Option-cases (containing_subnet d.ip db.subnets)) [
        | inl outside ↦ absurd (err≢ok (rw (import_found, outside) at h))
        | inr (s, around) ↦
            let (_, _, done) =
              >>=-eq-ok (backfill_subnet_vlan db d.ip d.vlan)
                (λ _. ok (import_into pg agents db d name now s))
                (rw (import_found, around) at h) in
            (s, around, ok-injective done)
      ]

  -- Inversion of an import that succeeds.
  pub import_discovery-eq-ok :
      (db : Db) (id : ℕ) (name : Text) (now : ℕ) {after : Db}
      → import_discovery pg agents db id name now ≡ ok after
      → (d : Discovery) × (s : Subnet) × (discovery_by_id id db.discoveries ≡ some d)
        × (containing_subnet d.ip db.subnets ≡ some s)
        × (import_into pg agents db d name now s ≡ after)
  unfolding import_discovery
  import_discovery-eq-ok db id name now h =
      let (d, found, rest) =
        >>=-eq-ok (get_discovery db id) (λ d. import_found pg agents db d name now) h in
      let (s, around, done) = import_found-eq-ok db d name now rest in
      (d, s, get_discovery-eq-ok db id found, around, done)

  -- An import changes the review queue by marking its row.
  pub import_into-marks :
      (db : Db) (d : Discovery) (name : Text) (now : ℕ) (s : Subnet)
      → (address : ℕ) × (device : ℕ) × ((import_into pg agents db d name now s).discoveries
          ≡ mark_imported d.id address device db.discoveries)
        × (db.next_id ≤ (import_into pg agents db d name now s).next_id)
  unfolding import_into
  import_into-marks db d name now s =
      let db1 = filled db d.ip d.vlan in
      let (devices, macs, rows, next) = filled-SameRecords db d.ip d.vlan in
      let dev = import_discovery_device pg agents db1 d name in
      let (same, more) = import_discovery_device-Grows pg agents db1 d name in
      (
        (upsert_address dev.0.next_id s.id dev.1 d now dev.0.addresses).1,
        dev.1,
        ap
            (mark_imported d.id (upsert_address dev.0.next_id s.id dev.1 d now dev.0.addresses).1
              dev.1)
            (same ∙ rows),
        omega arith,
      )

  import_into-Linked :
      (db : Db) (d : Discovery) (name : Text) (now : ℕ) (s : Subnet)
      → OwnersExist db
      → discovery_by_id d.id db.discoveries ≡ some d
      → containing_subnet d.ip db.subnets ≡ some s
      → Linked db d.id (import_into pg agents db d name now s)
  unfolding import_into
  import_into-Linked db d name now s owners found around =
      let db1 = filled db d.ip d.vlan in
      let (devices, macs, rows, next) = filled-SameRecords db d.ip d.vlan in
      let dev = import_discovery_device pg agents db1 d name in
      let (same, more) = import_discovery_device-Grows pg agents db1 d name in
      let (a, at, aid, subnet, device) =
        upsert_address-row dev.0.next_id s.id dev.1 d now dev.0.addresses in
      let (e, marked, status, address, owner, ip) =
        mark_imported-row d.id (upsert_address dev.0.next_id s.id dev.1 d now dev.0.addresses).1
          dev.1 dev.0.discoveries {d = d} (rw (same, rows) found) in
      (
        e,
        a,
        s,
        dev.1,
        marked,
        status,
        address ∙ ap some (sym aid),
        owner,
        rw ip at,
        device,
        subnet,
        import_discovery_device-exists pg agents db1 d name (rw (devices, macs) owners),
        rw ip (subst (Picks d.ip db.subnets) around (containing_subnet-Picks d.ip db.subnets)),
      )

  -- Where the owner of each MAC exists, an import that succeeds leaves its discovery imported and
  -- naming the row of its address and an existing device, which that row names too; the row lies in
  -- a subnet around the address, and no subnet around it is longer.
  pub import_discovery-Linked :
      (db : Db) (id : ℕ) (name : Text) (now : ℕ) {after : Db}
      → OwnersExist db
      → import_discovery pg agents db id name now ≡ ok after
      → Linked db id after
  import_discovery-Linked db id name now owners h =
      let (d, s, found, around, done) = import_discovery-eq-ok db id name now h in
      let same = discovery_by_id-id id db.discoveries found in
      let linked =
        import_into-Linked db d name now s owners
          (subst (λ k. discovery_by_id k db.discoveries ≡ some d) (sym same) found) around in
      subst (Linked db id) done
        (subst (λ k. Linked db k (import_into pg agents db d name now s)) same linked)
