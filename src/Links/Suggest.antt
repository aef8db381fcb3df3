-- ===== src/Links/Suggest.antt =====
-- internal/store/device_links.go: the identity of a device, the suggestions, the automatic link by
-- serial and the list of linked devices. The order of texts in the database, by which a pair is
-- looked up, is the argument `below`; rows come in table order, whatever `ORDER BY` says.
use light_ipam.Base.{
  Bool, true, false, not, ◌&&◌, ◌||◌, List, [], ◌∷◌, Option, none, some, ◌⊎◌, inl, inr, Text, codes,
  map, any, is_empty, same, trim_space, trim_left, trim_right, to_lower, ◌==◌, if◌then◌else◌,
}
use light_ipam.Combined.Merge.{union_from}
use light_ipam.Links.{
  LinkedIp, Device, Subnet, Db, LinkError, not_found, DeviceIdentity, canonical_identity,
  disjoint_subnets, same_hardware_candidate, gold_hardware_candidate, single_hostname, coalesce,
  pair_is, link_devices, find_device,
}

-- SQL's `btrim`.
unfoldable pub btrim : Text → Text
unfolding trim_left trim_right
btrim s = trim_right (λ c. c == b' ') (trim_left (λ c. c == b' ') s)

-- The distinct host names of a device's addresses, and their distinct subnets.
unfoldable pub hostnames : Device → List Text
unfolding union_from btrim to_lower
hostnames d = union_from [] (map (λ a. to_lower (btrim a.hostname)) d.addresses)

unfoldable pub subnet_ids : Device → List Text
unfolding union_from
subnet_ids d = union_from [] (map (λ a. coalesce a.subnet) d.addresses)

-- `deviceLinkIdentity`: what it loads of a row.
unfoldable pub identity_of : Device → DeviceIdentity
unfolding hostnames subnet_ids single_hostname btrim
identity_of d = record {
  hostname = single_hostname (hostnames d);
  os_family = d.os_family;
  hw_serial = btrim d.hw_serial;
  subnet_ids = subnet_ids d;
}

-- `listLinkedAddresses`: the addresses of a device that are in a subnet.
pub record LinkedAddress : Type 0 where
  pub ip : Text
  pub subnet_id : Text
  pub subnet_name : Text
  pub subnet_cidr : Text

unfoldable pub find_subnet : Text → List Subnet → Option Subnet
unfolding same
find_subnet id [] = none
find_subnet id (s ∷ subnets) =
    let rest = find_subnet id subnets in if same s.id id then some s else rest

abbrev with_subnet : LinkedIp → Option Subnet → List LinkedAddress → List LinkedAddress
with_subnet a none rest = rest
with_subnet a (some s) rest =
    record { ip = a.ip; subnet_id = s.id; subnet_name = s.name; subnet_cidr = s.cidr } ∷ rest

abbrev subnet_of : List Subnet → Option Text → Option Subnet
subnet_of subnets none = none
subnet_of subnets (some id) = find_subnet id subnets

unfoldable pub list_linked_addresses : List Subnet → List LinkedIp → List LinkedAddress
unfolding find_subnet
list_linked_addresses subnets [] = []
list_linked_addresses subnets (a ∷ addresses) =
    with_subnet a (subnet_of subnets a.subnet) (list_linked_addresses subnets addresses)

-- The pair of two devices was dismissed.
unfoldable pub is_rejected : (Text → Text → Bool) → Db → Text → Text → Bool
unfolding any same
is_rejected below db a b =
    if below b a then any (pair_is b a) db.rejections else any (pair_is a b) db.rejections

-- A row that is another device, outside of the group, with the pair not dismissed and an address.
unfoldable pub is_open : (Text → Text → Bool) → Db → Device → Device → Bool
unfolding same is_rejected
is_open below db target d =
    not (same d.id target.id)
    && (is_empty (coalesce target.group)
        || elim d.group [ none ↦ true | some g ↦ not (same g (coalesce target.group)) ])
    && not (is_rejected below db d.id target.id)
    && not (is_empty d.addresses)

-- The serial, or the host name and the operating system, of the prefilter.
unfoldable pub same_serial : Text → Device → Bool
unfolding same btrim
same_serial serial d = not (is_empty serial) && same (btrim d.hw_serial) serial

unfoldable pub same_host : DeviceIdentity → Device → Bool
unfolding same btrim to_lower any canonical_identity hostnames
same_host target d =
    not (is_empty (canonical_identity target.hostname))
    && same (to_lower (btrim d.os_family)) (canonical_identity target.os_family)
    && any (same (canonical_identity target.hostname)) (hostnames d)

-- `DeviceLinkSuggestion`.
pub record DeviceLinkSuggestion : Type 0 where
  pub device_id : Text
  pub name : Text
  pub hostname : Text
  pub os_family : Text
  pub serial_match : Bool
  pub addresses : List LinkedAddress

abbrev pub suggestion : Db → DeviceIdentity → Device → DeviceLinkSuggestion
suggestion db target d = record {
  device_id = d.id;
  name = d.name;
  hostname = (identity_of d).hostname;
  os_family = d.os_family;
  serial_match = gold_hardware_candidate target (identity_of d);
  addresses = list_linked_addresses db.subnets d.addresses;
}

abbrev pub qualifies : (Text → Text → Bool) → Db → Device → Device → Bool
qualifies below db target d =
    is_open below db target d
    && (same_serial (trim_space (identity_of target).hw_serial) d
        || same_host (identity_of target) d)
    && (gold_hardware_candidate (identity_of target) (identity_of d)
        || same_hardware_candidate (identity_of target) (identity_of d))

-- The query, its prefilter and the loop over the candidates.
unfoldable pub suggest_from :
    (Text → Text → Bool) → Db → Device → List Device → List DeviceLinkSuggestion
unfolding is_open same_serial same_host identity_of gold_hardware_candidate same_hardware_candidate
    trim_space list_linked_addresses
suggest_from below db target [] = []
suggest_from below db target (d ∷ devices) =
    let rest = suggest_from below db target devices in
    if qualifies below db target d then suggestion db (identity_of target) d ∷ rest else rest

abbrev pub no_identity : DeviceIdentity → Bool
no_identity i =
    is_empty (trim_space i.hw_serial) && (is_empty i.hostname || is_empty i.os_family)
    || is_empty i.subnet_ids

abbrev pub suggest_for :
    (Text → Text → Bool) → Db → Option Device → LinkError ⊎ List DeviceLinkSuggestion
suggest_for below db none = inl not_found
suggest_for below db (some d) =
    if no_identity (identity_of d) then inr [] else inr (suggest_from below db d db.devices)

-- `ListDeviceLinkSuggestions`.
unfoldable pub list_device_link_suggestions :
    (Text → Text → Bool) → Text → Db → LinkError ⊎ List DeviceLinkSuggestion
unfolding find_device identity_of suggest_from trim_space
list_device_link_suggestions below id db = suggest_for below db (find_device id db.devices)

-- The devices of the same serial that `AutoLinkDeviceBySerial` links.
abbrev pub matches_serial : (Text → Text → Bool) → Db → Device → Device → Bool
matches_serial below db target d =
    is_open below db target d
    && same_serial (trim_space (identity_of target).hw_serial) d
    && disjoint_subnets (subnet_ids target) (subnet_ids d)

unfoldable pub matches_from : (Text → Text → Bool) → Db → Device → List Device → List Text
unfolding is_open same_serial identity_of trim_space disjoint_subnets subnet_ids
matches_from below db target [] = []
matches_from below db target (d ∷ devices) =
    let rest = matches_from below db target devices in
    if matches_serial below db target d then d.id ∷ rest else rest

abbrev pub with_matches : List Text → LinkError ⊎ Db → LinkError ⊎ Db × List Text
with_matches ids (inl e) = inl e
with_matches ids (inr db) = inr (db, ids)

abbrev pub link_matches : Text → Text → List Text → Db → LinkError ⊎ Db × List Text
link_matches token id [] db = inr (db, [])
link_matches token id (m ∷ ids) db = with_matches (m ∷ ids) (link_devices token (id ∷ m ∷ ids) db)

abbrev pub auto_link : (Text → Text → Bool) → Text → Db → Option Device → LinkError ⊎ Db × List Text
auto_link below token db none = inr (db, [])
auto_link below token db (some d) =
    if is_empty (trim_space (identity_of d).hw_serial) || is_empty (subnet_ids d)
    then inr (db, [])
    else link_matches token d.id (matches_from below db d db.devices) db

abbrev pub is_on : Option Text → Bool
is_on none = false
is_on (some value) = same value (codes "true")

-- `AutoLinkDeviceBySerial`: the database after it and the devices that it linked to.
unfoldable pub auto_link_device_by_serial :
    (Text → Text → Bool) → Text → Text → Db → LinkError ⊎ Db × List Text
unfolding same find_device identity_of subnet_ids trim_space matches_from link_devices
auto_link_device_by_serial below token id db =
    if is_on db.auto_serial
    then auto_link below token db (find_device id db.devices)
    else inr (db, [])

-- `ListLinkedDevices`: the other members of the group, each with its addresses and MACs.
pub record LinkedDevice : Type 0 where
  pub device : Device
  pub addresses : List LinkedAddress
  pub macs : List Text

unfoldable pub siblings : Db → Text → Text → List Device → List LinkedDevice
unfolding same list_linked_addresses
siblings db group id [] = []
siblings db group id (d ∷ devices) =
    let rest = siblings db group id devices in
    if elim d.group [ none ↦ false | some g ↦ same g group ] && not (same d.id id)
    then record {
      device = d;
      addresses = list_linked_addresses db.subnets d.addresses;
      macs = d.macs;
    }
      ∷ rest
    else rest

abbrev siblings_of : Db → Option Device → LinkError ⊎ List LinkedDevice
siblings_of db none = inl not_found
siblings_of db (some d) =
    if is_empty (coalesce d.group)
    then inr []
    else inr (siblings db (coalesce d.group) d.id db.devices)

unfoldable pub list_linked_devices : Text → Db → LinkError ⊎ List LinkedDevice
unfolding find_device siblings
list_linked_devices id db = siblings_of db (find_device id db.devices)
