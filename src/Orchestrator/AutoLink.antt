-- ===== src/Orchestrator/AutoLink.antt =====
-- internal/scanner/orchestrator/orchestrator.go: `autoLinkBySerial`. The store's
-- `AutoLinkDeviceBySerial` reads the devices with their addresses and MACs, and writes their groups.
-- It reads no row of subnets. The audit is left out.
use light_ipam.Base.{
  ℕ, ◌+◌, List, [], ◌∷◌, Option, none, some, ◌⊎◌, inl, inr, Text, ◌==◌, if◌then◌else◌, ◌≡◌, refl,
  ap, arith, map,
}
use light_ipam.Links
use light_ipam.Links.Suggest.{auto_link_device_by_serial}
use light_ipam.Inventory.{Postgres, Address, Device, Mac, Db}
use light_ipam.Inventory.Queue.{has_device}
use light_ipam.Inventory.Synced.{CreatesNothing, CreatesNothing-refl, KeepsMacs-refl, named}

module _ (pg : Postgres) where
  unfoldable pub linked_ips : ℕ → List Address → List Links.LinkedIp
  linked_ips device [] = []
  linked_ips device (a ∷ rows) =
      let rest = linked_ips device rows in
      if has_device device a.device_id
      then record {
        ip = pg.host_text a.address;
        hostname = a.hostname;
        subnet = some (pg.id_text a.subnet_id);
      }
        ∷ rest
      else rest

  unfoldable pub linked_macs : ℕ → List Mac → List Text
  linked_macs device [] = []
  linked_macs device (m ∷ rows) =
      let rest = linked_macs device rows in if m.device_id == device then m.address ∷ rest else rest

  -- The tables as internal/store/device_links.go reads them.
  unfoldable pub links_of : Db → Links.Db
  unfolding linked_ips linked_macs
  links_of db = record {
    devices =
        map
          (λ (d : Device). record {
            id = pg.id_text d.id;
            name = d.name;
            os_family = d.os_family;
            hw_serial = d.hw_serial;
            group = d.hardware_group;
            addresses = linked_ips d.id db.addresses;
            macs = linked_macs d.id db.macs;
          })
          db.devices;
    subnets = [];
    rejections = db.rejections;
    auto_serial = db.auto_serial;
  }

  -- The groups of the rows after the call.
  unfoldable pub regrouped : List Device → List Links.Device → List Device
  regrouped [] rows = []
  regrouped (d ∷ devices) [] = d ∷ devices
  regrouped (d ∷ devices) (r ∷ rows) =
      record d { hardware_group = r.group } ∷ regrouped devices rows

  abbrev linked : Db → Links.LinkError ⊎ Links.Db × List Text → Db
  linked db (inl e) = db
  linked db (inr (after, ids)) = record db {
    devices = regrouped db.devices after.devices;
    next_id = db.next_id + 1;
  }

  -- `autoLinkBySerial`; an error is logged, and `none` is the empty id of a device.
  unfoldable pub auto_link_by_serial : Db → Option ℕ → Db
  unfolding links_of regrouped auto_link_device_by_serial
  auto_link_by_serial db none = db
  auto_link_by_serial db (some device) = linked db (
      auto_link_device_by_serial pg.below (pg.id_text db.next_id) (pg.id_text device) (links_of db))

  map-named-regrouped :
      (devices : List Device) (rows : List Links.Device)
      → map named (regrouped devices rows) ≡ map named devices
  unfolding regrouped
  map-named-regrouped [] rows = refl
  map-named-regrouped (d ∷ devices) [] = refl
  map-named-regrouped (d ∷ devices) (r ∷ rows) =
      ap (λ t. named d ∷ t) (map-named-regrouped devices rows)

  linked-CreatesNothing :
      (db : Db) (r : Links.LinkError ⊎ Links.Db × List Text) → CreatesNothing db (linked db r)
  linked-CreatesNothing db (inl e) = CreatesNothing-refl db
  linked-CreatesNothing db (inr (after, ids)) = (
    refl,
    omega arith,
    refl,
    map-named-regrouped db.devices after.devices,
    refl,
    KeepsMacs-refl db.macs,
  )

  pub auto_link_by_serial-CreatesNothing :
      (db : Db) (device : Option ℕ) → CreatesNothing db (auto_link_by_serial db device)
  unfolding auto_link_by_serial
  auto_link_by_serial-CreatesNothing db none = CreatesNothing-refl db
  auto_link_by_serial-CreatesNothing db (some device) = linked-CreatesNothing db _
