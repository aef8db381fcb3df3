-- ===== src/Links.antt =====
-- internal/store/device_links.go: devices that are one piece of hardware. This file has the rows, the
-- rules and the changes; Links/Suggest.antt has the suggestions and the automatic link,
-- Links/Groups.antt and Links/Merge.antt what the changes do to the groups, and
-- Links/Guards.antt what is suggested. The tables are lists of rows with the columns that the file
-- reads; a transaction is one step. The token of a new group is an argument, and so
-- is the order of texts in the database, `below`.
pub mod Suggest
pub mod Groups
pub mod Joined
pub mod Steps
pub mod Merge
pub mod Guards
use light_ipam.Base.{
  ℕ, suc, Bool, true, false, not, ◌&&◌, ◌||◌, List, [], ◌∷◌, ◌++◌, Option, none, some, ◌⊎◌, inl,
  inr, Text, map, any, length, is_empty, same, trim_space, to_lower, ltb, ◌==◌, if◌then◌else◌,
}
use light_ipam.Combined.Merge.{keep_host, union_from}

-- A row of `ip_addresses`.
pub record LinkedIp : Type 0 where
  pub ip : Text
  pub hostname : Text
  pub subnet : Option Text

-- A row of `devices` with its addresses and MACs.
pub record Device : Type 0 where
  pub id : Text
  pub name : Text
  pub os_family : Text
  pub hw_serial : Text
  pub group : Option Text
  pub addresses : List LinkedIp
  pub macs : List Text

pub record Subnet : Type 0 where
  pub id : Text
  pub name : Text
  pub cidr : Text

pub record Db : Type 0 where
  pub devices : List Device
  pub subnets : List Subnet
  pub rejections : List (Text × Text)
  pub auto_serial : Option Text

pub data LinkError : Type 0 where
  two_required not_found check_failed : LinkError

-- `deviceIdentity`.
pub record DeviceIdentity : Type 0 where
  pub hostname : Text
  pub os_family : Text
  pub hw_serial : Text
  pub subnet_ids : List Text

-- `canonicalIdentity`.
unfoldable pub canonical_identity : Text → Text
unfolding trim_space to_lower
canonical_identity v = to_lower (trim_space v)

-- `disjointSubnets`.
unfoldable pub disjoint_subnets : List Text → List Text → Bool
unfolding any same
disjoint_subnets a b = not (is_empty a) && not (is_empty b) && not (any (λ id. any (same id) a) b)

-- `sameHardwareCandidate` and `goldHardwareCandidate`.
abbrev pub agree : Text → Text → Bool
agree a b = not (is_empty a) && same a b

unfoldable pub same_hardware_candidate : DeviceIdentity → DeviceIdentity → Bool
unfolding canonical_identity disjoint_subnets same
same_hardware_candidate a b =
    agree (canonical_identity a.hostname) (canonical_identity b.hostname)
    && agree (canonical_identity a.os_family) (canonical_identity b.os_family)
    && disjoint_subnets a.subnet_ids b.subnet_ids

unfoldable pub gold_hardware_candidate : DeviceIdentity → DeviceIdentity → Bool
unfolding trim_space disjoint_subnets same
gold_hardware_candidate a b =
    agree (trim_space a.hw_serial) (trim_space b.hw_serial)
    && disjoint_subnets a.subnet_ids b.subnet_ids

-- `singleHostname`.
unfoldable pub single_hostname : List Text → Text
single_hostname (h ∷ []) = h
single_hostname _ = []

-- `COALESCE(hardware_group_id, '')`.
abbrev pub coalesce : Option Text → Text
coalesce none = []
coalesce (some group) = group

-- Go's order of strings.
unfoldable pub text_less : Text → Text → Bool
text_less s [] = false
text_less [] (d ∷ t) = true
text_less (c ∷ s) (d ∷ t) = ltb c d || c == d && text_less s t

-- The first of the sorted groups, or the new token.
unfoldable pub least_of : Text → List Text → Text
unfolding text_less
least_of least [] = least
least_of least (g ∷ groups) = least_of (if text_less g least then g else least) groups

abbrev pub target_group : Text → List Text → Text
target_group token [] = token
target_group token (g ∷ groups) = least_of g groups

abbrev pub is_one_of : List Text → Text → Bool
is_one_of ids id = any (same id) ids

-- The rows that the query for the groups locks, and the distinct groups among them.
unfoldable pub found_devices : List Text → List Device → List Device
unfolding any same
found_devices ids [] = []
found_devices ids (d ∷ devices) =
    let rest = found_devices ids devices in if is_one_of ids d.id then d ∷ rest else rest

unfoldable pub found_groups : List Device → List Text
unfolding union_from
found_groups devices = union_from [] (map (λ d. coalesce d.group) devices)

abbrev pub in_groups : List Text → Option Text → Bool
in_groups groups none = false
in_groups groups (some g) = is_one_of groups g

-- The `UPDATE` of `LinkDevices`, on one row.
unfoldable pub join_group : Text → List Text → List Text → Device → Device
unfolding any same
join_group target ids groups d =
    if is_one_of ids d.id || in_groups groups d.group then record d { group = some target } else d

abbrev link_found : Text → List Text → List Text → Db → Db
link_found token ids groups db = record db {
  devices = map (join_group (target_group token groups) ids groups) db.devices;
}

abbrev pub link_unique : Text → List Text → Db → LinkError ⊎ Db
link_unique token ids db =
    if ltb (length ids) 2
    then inl two_required
    else if not (length (found_devices ids db.devices) == length ids)
    then inl not_found
    else inr (link_found token ids (found_groups (found_devices ids db.devices)) db)

-- `LinkDevices`.
unfoldable pub link_devices : Text → List Text → Db → LinkError ⊎ Db
unfolding union_from found_devices found_groups join_group least_of
link_devices token ids db = link_unique token (union_from [] ids) db

unfoldable pub find_device : Text → List Device → Option Device
unfolding same
find_device id [] = none
find_device id (d ∷ devices) =
    let rest = find_device id devices in if same d.id id then some d else rest

-- The two updates of `UnlinkDevice`.
unfoldable pub leave_group : Text → Device → Device
unfolding same
leave_group id d = if same d.id id then record d { group = none } else d

abbrev pub in_group : Text → Device → Bool
in_group group d = elim d.group [ none ↦ false | some g ↦ same g group ]

unfoldable pub count_group : Text → List Device → ℕ
unfolding same
count_group group [] = 0
count_group group (d ∷ devices) =
    let rest = count_group group devices in if in_group group d then suc rest else rest

unfoldable pub dissolve : Text → Device → Device
unfolding same
dissolve group d = if in_group group d then record d { group = none } else d

unfoldable pub dissolve_small : Text → List Device → List Device
unfolding count_group dissolve
dissolve_small group devices =
    if ltb (count_group group devices) 2 then map (dissolve group) devices else devices

abbrev pub unlink_found : Text → Db → Option Device → LinkError ⊎ Db
unlink_found id db none = inl not_found
unlink_found id db (some d) =
    if is_empty (coalesce d.group)
    then inr db
    else inr (record db {
      devices = dissolve_small (coalesce d.group) (map (leave_group id) db.devices);
    })

-- `UnlinkDevice`.
unfoldable pub unlink_device : Text → Db → LinkError ⊎ Db
unfolding find_device leave_group dissolve_small
unlink_device id db = unlink_found id db (find_device id db.devices)

-- `DismissDeviceLinkSuggestion`; a pair that is there already stays once.
abbrev pub pair_is : Text → Text → Text × Text → Bool
pair_is lo hi (a, b) = same a lo && same b hi

abbrev pub add_rejection : Text → Text → Db → Db
add_rejection lo hi db =
    if any (pair_is lo hi) db.rejections
    then db
    else record db { rejections = (lo, hi) ∷ db.rejections }

-- The `INSERT`, with the table's `CHECK (device_lo < device_hi)` in the order of the database.
abbrev pub insert_rejection : (Text → Text → Bool) → Text → Text → Db → LinkError ⊎ Db
insert_rejection below lo hi db =
    if not (below lo hi) then inl check_failed else inr (add_rejection lo hi db)

unfoldable pub dismiss_device_link_suggestion :
    (Text → Text → Bool) → Text → Text → Db → LinkError ⊎ Db
unfolding any same text_less
dismiss_device_link_suggestion below a b db =
    if is_empty a || is_empty b || same a b
    then inl two_required
    else if text_less b a
    then insert_rejection below b a db
    else insert_rejection below a b db
