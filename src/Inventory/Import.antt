-- ===== src/Inventory/Import.antt =====
-- internal/store/discoveries.go: `ImportDiscovery`, `SyncImportedDiscovery` and what they call. The
-- name of an agent, which the source joins to a discovery's row, is the argument `agents`.
use light_ipam.Base.{
  ℕ, ◌+◌, Bool, true, false, not, ◌&&◌, List, [], ◌∷◌, ◌++◌, Option, none, some, Text, codes,
  is_empty, same, trim_space, leb, ltb, any, ◌==◌, if◌then◌else◌,
}
use light_ipam.Macaddr
use light_ipam.Macaddr.{Analysis}
use light_ipam.Netip.{Addr, contains}
use light_ipam.Inventory.{
  Postgres, imported, assigned, Subnet, Address, Device, Mac, Discovery, Db, no_containing_subnet,
  bad_vlan, Result, ok, err, ◌>>=◌, same_addr,
}
use light_ipam.Inventory.Queue.{newer, newer_services, or_else, get_discovery, is_imported}

-- `SELECT id FROM subnets WHERE cidr >>= $1 ORDER BY masklen(cidr) DESC LIMIT 1`.
abbrev pub longer : Subnet → Option Subnet → Subnet
longer s none = s
longer s (some t) = if leb t.cidr.bits s.cidr.bits then s else t

unfoldable pub containing_subnet : Addr → List Subnet → Option Subnet
unfolding contains
containing_subnet ip [] = none
containing_subnet ip (s ∷ rows) =
    let rest = containing_subnet ip rows in
    if contains s.cidr ip then some (longer s rest) else rest

-- `backfillSubnetVLAN`.
abbrev pub fill_vlan : ℕ → Option ℕ → Option ℕ
fill_vlan vlan none = some vlan
fill_vlan vlan (some v) = some v

unfoldable pub fill_vlans : Addr → ℕ → List Subnet → List Subnet
unfolding contains
fill_vlans ip vlan [] = []
fill_vlans ip vlan (s ∷ rows) =
    (if contains s.cidr ip then record s { vlan = fill_vlan vlan s.vlan } else s)
    ∷ fill_vlans ip vlan rows

unfoldable pub filled : Db → Addr → ℕ → Db
unfolding fill_vlans
filled db ip vlan = if vlan == 0 then db else record db { subnets = fill_vlans ip vlan db.subnets }

-- The UPDATE has a row to write to, with a number that its `CHECK` refuses.
unfoldable pub is_refused : Db → Addr → ℕ → Bool
unfolding contains any
is_refused db ip vlan =
    ltb 4094 vlan
    && any (λ s. contains s.cidr ip && elim s.vlan [ none ↦ true | some v ↦ false ]) db.subnets

unfoldable pub backfill_subnet_vlan : Db → Addr → ℕ → Result Db
unfolding filled is_refused
backfill_subnet_vlan db ip vlan =
    if is_refused db ip vlan then err bad_vlan else ok (filled db ip vlan)

unfoldable pub device_exists : ℕ → List Device → Bool
device_exists id [] = false
device_exists id (d ∷ rows) = if d.id == id then true else device_exists id rows

unfoldable pub owner_of_mac : Text → List Mac → Option ℕ
unfolding same
owner_of_mac mac [] = none
owner_of_mac mac (m ∷ rows) = if same m.address mac then some m.device_id else owner_of_mac mac rows

-- `resolveImportDevice`: `none` where a new device is to be created.
abbrev pub prior_device : Db → Option ℕ → Option ℕ
prior_device db none = none
prior_device db (some id) = if device_exists id db.devices then some id else none

unfoldable pub resolve_import_device : Db → Discovery → Option ℕ
unfolding device_exists owner_of_mac
resolve_import_device db d =
    or_else (prior_device db d.imported_device_id)
      (if is_empty d.mac then none else owner_of_mac d.mac db.macs)

-- `attachDiscoveryMAC`: what the MAC says of itself, the scanner's vendor preferred.
abbrev pub mac_facts : Text → Text → Macaddr.Result Analysis → Text × Text × Bool
mac_facts mac vendor (Macaddr.Result.ok a) = (a.address, newer vendor a.vendor, a.is_private)
mac_facts mac vendor (Macaddr.Result.err e) = (mac, vendor, false)

unfoldable pub upsert_mac : ℕ → ℕ → Text × Text × Bool → List Mac → List Mac
unfolding same
upsert_mac id device (mac, vendor, private) [] =
    record { id = id; device_id = device; address = mac; vendor = vendor; is_private = private }
    ∷ []
upsert_mac id device (mac, vendor, private) (m ∷ rows) =
    let rest = upsert_mac id device (mac, vendor, private) rows in
    if same m.address mac
    then record m { vendor = if is_empty m.vendor then vendor else m.vendor } ∷ rows
    else m ∷ rest

unfoldable pub attach_discovery_mac : Db → ℕ → Text → Text → Db
unfolding upsert_mac
attach_discovery_mac db device mac vendor = record db {
  macs = upsert_mac db.next_id device (mac_facts mac vendor (Macaddr.analyze mac)) db.macs;
  next_id = db.next_id + 1;
}

unfoldable pub attach_known_mac : Db → ℕ → Discovery → Db
unfolding attach_discovery_mac
attach_known_mac db device d =
    if is_empty d.mac then db else attach_discovery_mac db device d.mac d.vendor

module _ (pg : Postgres) (agents : Text → Text) where
  abbrev pub source_of : Discovery → Text
  source_of d = newer (agents d.agent_id) (codes "scan")

  -- The name of a new device: the operator's, the host's own, or one made of the address.
  abbrev pub new_device_name : Discovery → Text → Text
  new_device_name d manual = newer manual (newer d.hostname (codes "host-" ++ pg.host_text d.ip))

  unfoldable pub new_device : ℕ → Discovery → Text → Device
  new_device id d manual = record {
    id = id;
    name = new_device_name d manual;
    os_family = d.os_family;
    os_detail = d.os_detail;
    hw_serial = d.hw_serial;
    hw_object_id = d.hw_object_id;
    services = d.services;
    discovery_source = source_of d;
    hardware_group = none;
  }

  -- The UPDATE of an existing device; an empty finding changes nothing.
  unfoldable pub refresh_device : Discovery → Text → Device → Device
  refresh_device d manual row = record row {
    name = newer manual row.name;
    os_family = newer d.os_family row.os_family;
    os_detail = newer d.os_detail row.os_detail;
    hw_serial = newer d.hw_serial row.hw_serial;
    hw_object_id = newer d.hw_object_id row.hw_object_id;
    services = newer_services d.services row.services;
    discovery_source = source_of d;
  }

  unfoldable pub update_devices : ℕ → Discovery → Text → List Device → List Device
  unfolding refresh_device
  update_devices id d manual [] = []
  update_devices id d manual (row ∷ rows) =
      (if row.id == id then refresh_device d manual row else row) ∷ update_devices id d manual rows

  -- `importDiscoveryDevice`: the database, and the device that was created or reused.
  abbrev pub create_or_update : Db → Discovery → Text → Option ℕ → Db × ℕ
  create_or_update db d manual none = (
    record db {
      devices = db.devices ++ new_device db.next_id d manual ∷ [];
      next_id = db.next_id + 1;
    },
    db.next_id,
  )
  create_or_update db d manual (some id) =
      (record db { devices = update_devices id d manual db.devices }, id)

  unfoldable pub import_discovery_device : Db → Discovery → Text → Db × ℕ
  unfolding new_device update_devices resolve_import_device attach_known_mac trim_space
  import_discovery_device db d name =
      let out = create_or_update db d (trim_space name) (resolve_import_device db d) in
      (attach_known_mac out.0 out.1 d, out.1)

-- The INSERT into ip_addresses with its conflict clause: the table, and the id of the row.
unfoldable pub upsert_address : ℕ → ℕ → ℕ → Discovery → ℕ → List Address → List Address × ℕ
unfolding same_addr
upsert_address id subnet device d now [] = (
  record {
    id = id;
    subnet_id = subnet;
    device_id = some device;
    address = d.ip;
    state = assigned;
    hostname = d.hostname;
    last_seen_at = now;
  }
      ∷ [],
  id,
)
upsert_address id subnet device d now (a ∷ rows) =
    let rest = upsert_address id subnet device d now rows in
    if same_addr a.address d.ip
    then (
      record a {
        subnet_id = subnet;
        device_id = some device;
        hostname = newer d.hostname a.hostname;
        last_seen_at = now;
      }
          ∷ rows,
      a.id,
    )
    else (a ∷ rest.0, rest.1)

unfoldable pub mark_imported : ℕ → ℕ → ℕ → List Discovery → List Discovery
mark_imported id address device [] = []
mark_imported id address device (d ∷ rows) =
    (if d.id == id
      then record d {
        status = imported;
        imported_address_id = some address;
        imported_device_id = some device;
      }
      else d)
    ∷ mark_imported id address device rows

module _ (pg : Postgres) (agents : Text → Text) where
  -- The transaction of `ImportDiscovery`, once the containing subnet is found and the backfill
  -- accepted.
  unfoldable pub import_into : Db → Discovery → Text → ℕ → Subnet → Db
  unfolding filled import_discovery_device upsert_address mark_imported
  import_into db d name now subnet =
      let db1 = filled db d.ip d.vlan in
      let dev = import_discovery_device pg agents db1 d name in
      let out = upsert_address dev.0.next_id subnet.id dev.1 d now dev.0.addresses in
      record dev.0 {
        addresses = out.0;
        discoveries = mark_imported d.id out.1 dev.1 dev.0.discoveries;
        next_id = dev.0.next_id + 1;
      }

  unfoldable pub import_found : Db → Discovery → Text → ℕ → Result Db
  unfolding containing_subnet backfill_subnet_vlan import_into
  import_found db d name now = elim (containing_subnet d.ip db.subnets) [
    | none ↦ err no_containing_subnet
    | some subnet ↦
        backfill_subnet_vlan db d.ip d.vlan >>= λ _. ok (import_into db d name now subnet)
  ]

  -- `ImportDiscovery`; the source returns the row, which `get_discovery` reads from the result.
  unfoldable pub import_discovery : Db → ℕ → Text → ℕ → Result Db
  unfolding get_discovery import_found
  import_discovery db id name now = do d ← get_discovery db id; import_found db d name now

  -- The backfill of a hostname in `SyncImportedDiscovery`.
  unfoldable pub fill_hostname : ℕ → Text → List Address → List Address
  fill_hostname id hostname [] = []
  fill_hostname id hostname (a ∷ rows) =
      (if a.id == id && is_empty a.hostname then record a { hostname = hostname } else a)
      ∷ fill_hostname id hostname rows

  abbrev pub backfill_hostname : Db → Discovery → Option ℕ → Db
  backfill_hostname db d none = db
  backfill_hostname db d (some id) =
      if is_empty d.hostname
      then db
      else record db { addresses = fill_hostname id d.hostname db.addresses }

  -- The transaction of `SyncImportedDiscovery` on an existing device.
  unfoldable pub sync_device : Db → Discovery → ℕ → Db
  unfolding update_devices attach_known_mac fill_hostname filled
  sync_device db d device =
      let db1 = record db { devices = update_devices pg agents device d [] db.devices } in
      let db2 = attach_known_mac db1 device d in
      let db3 = backfill_hostname db2 d d.imported_address_id in filled db3 d.ip d.vlan

  -- `none` for the device is the empty id of a call that does nothing. A backfill that is refused
  -- undoes the whole.
  unfoldable pub sync_at : Db → Discovery → Option ℕ → Result (Db × Option ℕ)
  unfolding device_exists sync_device backfill_subnet_vlan
  sync_at db d none = ok (db, none)
  sync_at db d (some device) =
      if not (is_imported d.status)
      then ok (db, none)
      else if device_exists device db.devices
      then (backfill_subnet_vlan db d.ip d.vlan >>= λ _. ok (sync_device db d device, some device))
      else ok (db, none)

  unfoldable pub sync_imported_discovery : Db → ℕ → Result (Db × Option ℕ)
  unfolding get_discovery sync_at
  sync_imported_discovery db id = do d ← get_discovery db id; sync_at db d d.imported_device_id
