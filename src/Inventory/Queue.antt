-- ===== src/Inventory/Queue.antt =====
-- internal/store/discoveries.go: `reconcileDiscovery`, `UpsertDiscovery`, `GetDiscovery`,
-- `DismissDiscovery`.
use light_ipam.Base.{
  ℕ, zero, suc, Bool, true, false, not, ◌&&◌, List, [], ◌∷◌, Option, none, some, Text, codes,
  is_empty, same, ltb, ◌==◌, ◌+◌, if◌then◌else◌,
}
use light_ipam.Netip.{Addr}
use light_ipam.Protocol.{ServiceObservation}
use light_ipam.Inventory.{
  Postgres, ReviewStatus, pending, imported, dismissed, ReconcileStatus, new, matching, conflict,
  ConflictNote, no_note, deprecated_responds, mac_recorded_on, different_mac, AddressState,
  deprecated, Address, Device, Mac, Discovery, Db, bad_inet, bad_mac, not_found, Result, ok, err,
  ◌>>=◌, same_addr,
}

-- `DiscoveryInput`.
pub record DiscoveryInput : Type 0 where
  pub job_id : Text
  pub agent_id : Text
  pub ip : Text
  pub mac : Text
  pub vendor : Text
  pub hostname : Text
  pub os_family : Text
  pub os_detail : Text
  pub hw_serial : Text
  pub hw_object_id : Text
  pub vlan : ℕ
  pub services : List ServiceObservation

-- `DiscoveryUpsert`.
pub record DiscoveryUpsert : Type 0 where
  pub id : ℕ
  pub review_status : ReviewStatus
  pub reconcile_status : ReconcileStatus

-- The row of an address.
unfoldable pub address_at : Addr → List Address → Option Address
unfolding same_addr
address_at ip [] = none
address_at ip (a ∷ rows) = if same_addr a.address ip then some a else address_at ip rows

unfoldable pub device_name : Option ℕ → List Device → Text
device_name none rows = []
device_name (some id) [] = []
device_name (some id) (d ∷ rows) = if d.id == id then d.name else device_name (some id) rows

-- The MACs of a device, and those of them that are the one given; a NULL device has none.
abbrev pub owned_by : Option ℕ → Mac → Bool
owned_by none m = false
owned_by (some id) m = m.device_id == id

unfoldable pub count_macs : (Mac → Bool) → List Mac → ℕ
count_macs p [] = 0
count_macs p (m ∷ rows) = let rest = count_macs p rows in if p m then suc rest else rest

-- Another managed address of a device that has the MAC.
abbrev pub has_device : ℕ → Option ℕ → Bool
has_device id none = false
has_device id (some d) = d == id

unfoldable pub other_address : ℕ → Addr → List Address → Option Addr
unfolding same_addr
other_address device ip [] = none
other_address device ip (a ∷ rows) =
    if has_device device a.device_id && not (same_addr a.address ip)
    then some a.address
    else other_address device ip rows

abbrev pub or_else {ℓ} : {A : Type ℓ} → Option A → Option A → Option A
or_else (some a) o = some a
or_else none o = o

unfoldable pub mac_elsewhere : Text → Addr → List Mac → List Address → Option Addr
unfolding other_address
mac_elsewhere mac ip [] addresses = none
mac_elsewhere mac ip (m ∷ rows) addresses =
    let rest = mac_elsewhere mac ip rows addresses in
    if same m.address mac then or_else (other_address m.device_id ip addresses) rest else rest

abbrev pub is_deprecated : AddressState → Bool
is_deprecated deprecated = true
is_deprecated _ = false

abbrev pub or_another : Text → Text
or_another [] = codes "another device"
or_another (c ∷ name) = c ∷ name

module _ (pg : Postgres) where
  -- `reconcileDiscovery` on an address that is not managed, and on one that is.
  unfoldable pub reconcile_unmanaged : Db → Addr → Text → ReconcileStatus × ConflictNote
  unfolding mac_elsewhere
  reconcile_unmanaged db ip mac =
      if is_empty mac then (new, no_note) else elim (mac_elsewhere mac ip db.macs db.addresses) [
        | none ↦ (new, no_note)
        | some other ↦ (conflict, mac_recorded_on (pg.host_text other))
      ]

  unfoldable pub reconcile_managed : Db → Address → Text → ReconcileStatus × ConflictNote
  unfolding count_macs device_name
  reconcile_managed db a mac =
      let owned = count_macs (owned_by a.device_id) db.macs in
      let same_mac = count_macs (λ m. owned_by a.device_id m && same m.address mac) db.macs in
      if not (is_empty mac) && ltb 0 owned && same_mac == 0
      then (conflict, different_mac (or_another (device_name a.device_id db.devices)))
      else if is_deprecated a.state
      then (conflict, deprecated_responds)
      else (matching, no_note)

  unfoldable pub reconcile_at : Db → Addr → Text → Option Address → ReconcileStatus × ConflictNote
  unfolding reconcile_unmanaged reconcile_managed
  reconcile_at db ip mac none = reconcile_unmanaged db ip mac
  reconcile_at db ip mac (some a) = reconcile_managed db a mac

  unfoldable pub reconcile_discovery : Db → Addr → Text → ReconcileStatus × ConflictNote
  unfolding reconcile_at address_at
  reconcile_discovery db ip mac = reconcile_at db ip mac (address_at ip db.addresses)

abbrev pub newer : Text → Text → Text
newer [] old = old
newer (c ∷ s) old = c ∷ s

abbrev pub newer_services :
    List ServiceObservation → List ServiceObservation → List ServiceObservation
newer_services [] old = old
newer_services (s ∷ ss) old = s ∷ ss

-- The `status` of an existing row: reopened where its imported address is gone and it is new again.
abbrev pub reopened : ReviewStatus → Option ℕ → ReconcileStatus → ReviewStatus
reopened imported none new = pending
reopened status address reconcile = status

abbrev pub newer_number : ℕ → ℕ → ℕ
newer_number zero old = old
newer_number (suc n) old = suc n

-- `ON CONFLICT (ip) DO UPDATE`.
unfoldable pub refresh :
    Discovery → DiscoveryInput → Text → ReconcileStatus × ConflictNote → ℕ → Discovery
refresh row input mac r now = record row {
  job_id = input.job_id;
  agent_id = input.agent_id;
  mac = newer mac row.mac;
  vendor = newer input.vendor row.vendor;
  hostname = newer input.hostname row.hostname;
  os_family = newer input.os_family row.os_family;
  os_detail = newer input.os_detail row.os_detail;
  hw_serial = newer input.hw_serial row.hw_serial;
  hw_object_id = newer input.hw_object_id row.hw_object_id;
  vlan = newer_number input.vlan row.vlan;
  services = newer_services input.services row.services;
  status = reopened row.status row.imported_address_id r.0;
  reconcile_status = r.0;
  conflict_note = r.1;
  last_seen_at = now;
}

unfoldable pub fresh :
    ℕ → Addr → DiscoveryInput → Text → ReconcileStatus × ConflictNote → ℕ → Discovery
fresh id ip input mac r now = record {
  id = id;
  job_id = input.job_id;
  agent_id = input.agent_id;
  ip = ip;
  mac = mac;
  vendor = input.vendor;
  hostname = input.hostname;
  os_family = input.os_family;
  os_detail = input.os_detail;
  hw_serial = input.hw_serial;
  hw_object_id = input.hw_object_id;
  vlan = input.vlan;
  services = input.services;
  status = pending;
  reconcile_status = r.0;
  conflict_note = r.1;
  imported_address_id = none;
  imported_device_id = none;
  last_seen_at = now;
}

-- The INSERT with its conflict clause: the table, and the row that it returns.
unfoldable pub upsert_row :
    ℕ
    → Addr
    → DiscoveryInput
    → Text
    → ReconcileStatus × ConflictNote
    → ℕ
    → List Discovery
    → List Discovery × Discovery
unfolding refresh fresh same_addr
upsert_row id ip input mac r now [] = let row = fresh id ip input mac r now in (row ∷ [], row)
upsert_row id ip input mac r now (d ∷ rows) =
    let rest = upsert_row id ip input mac r now rows in
    if same_addr d.ip ip
    then (refresh d input mac r now ∷ rows, refresh d input mac r now)
    else (d ∷ rest.0, rest.1)

-- `UPDATE ip_addresses SET last_seen_at = now() WHERE address = $1`.
unfoldable pub touch_address : Addr → ℕ → List Address → List Address
unfolding same_addr
touch_address ip now [] = []
touch_address ip now (a ∷ rows) =
    (if same_addr a.address ip then record a { last_seen_at = now } else a)
    ∷ touch_address ip now rows

abbrev pub is_new : ReconcileStatus → Bool
is_new new = true
is_new _ = false

unfoldable pub mac_argument : Postgres → Text → Result Text
mac_argument pg [] = ok []
mac_argument pg (c ∷ mac) = elim (pg.cast_mac (c ∷ mac)) [ none ↦ err bad_mac | some m ↦ ok m ]

unfoldable pub ip_argument : Postgres → Text → Result Addr
ip_argument pg ip = elim (pg.cast_inet ip) [ none ↦ err bad_inet | some a ↦ ok a ]

-- `UpsertDiscovery` with its arguments cast.
unfoldable pub upsert_cast : Postgres → Db → DiscoveryInput → Addr → Text → ℕ → Db × DiscoveryUpsert
unfolding upsert_row touch_address reconcile_discovery
upsert_cast pg db input ip mac now =
    let r = reconcile_discovery pg db ip mac in
    let out = upsert_row db.next_id ip input mac r now db.discoveries in
    (
      record db {
        discoveries = out.0;
        addresses = if is_new r.0 then db.addresses else touch_address ip now db.addresses;
        next_id = db.next_id + 1;
      },
      record { id = out.1.id; review_status = out.1.status; reconcile_status = r.0 },
    )

unfoldable pub upsert_discovery : Postgres → Db → DiscoveryInput → ℕ → Result (Db × DiscoveryUpsert)
unfolding ip_argument mac_argument upsert_cast
upsert_discovery pg db input now = do
  ip ← ip_argument pg input.ip
  mac ← mac_argument pg input.mac
  ok (upsert_cast pg db input ip mac now)

unfoldable pub discovery_by_id : ℕ → List Discovery → Option Discovery
discovery_by_id id [] = none
discovery_by_id id (d ∷ rows) = if d.id == id then some d else discovery_by_id id rows

-- `GetDiscovery`.
unfoldable pub get_discovery : Db → ℕ → Result Discovery
unfolding discovery_by_id
get_discovery db id = elim (discovery_by_id id db.discoveries) [
  | none ↦ err not_found
  | some d ↦ ok d
]

abbrev pub is_imported : ReviewStatus → Bool
is_imported imported = true
is_imported _ = false

-- The UPDATE of `DismissDiscovery`: the table and the number of rows that it changed.
unfoldable pub dismiss_rows : ℕ → List Discovery → List Discovery × ℕ
dismiss_rows id [] = ([], 0)
dismiss_rows id (d ∷ rows) =
    let rest = dismiss_rows id rows in
    if d.id == id && not (is_imported d.status)
    then (record d { status = dismissed } ∷ rest.0, suc rest.1)
    else (d ∷ rest.0, rest.1)

unfoldable pub dismiss_discovery : Db → ℕ → Result Db
unfolding dismiss_rows
dismiss_discovery db id =
    let out = dismiss_rows id db.discoveries in
    if out.1 == 0 then err not_found else ok (record db { discoveries = out.0 })
