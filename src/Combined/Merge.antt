-- ===== src/Combined/Merge.antt =====
-- internal/scanner/agent/combined.go: `mergeObservations`, `mergeInto`, `mergeServices`,
-- `unionHosts`, `hostTargets`. The map `byIP` and the list `order` of the source are one list of
-- records in first-seen order; the set `seen` is the list that it guards.
use light_ipam.Base.{
  ℕ, zero, suc, Bool, ◌&&◌, List, [], ◌∷◌, ◌++◌, Text, same, is_empty, any, ◌==◌, if◌then◌else◌,
  is_some,
}
use light_ipam.Netip.Parse.{parse_addr}
use light_ipam.Protocol.{Observation, ServiceObservation}

-- The text that the second fills in where the first is empty.
abbrev pub or_text : Text → Text → Text
or_text [] t = t
or_text (c ∷ s) t = c ∷ s

abbrev pub or_number : ℕ → ℕ → ℕ
or_number zero m = m
or_number (suc n) m = suc n

-- Two services have one key "protocol/port" exactly when both parts agree: a port has no slash.
abbrev pub same_service : ServiceObservation → ServiceObservation → Bool
same_service s t = same s.protocol t.protocol && s.port == t.port

unfoldable pub add_service : List ServiceObservation → ServiceObservation → List ServiceObservation
unfolding any same
add_service a s = if any (same_service s) a then a else a ++ s ∷ []

unfoldable pub merge_services :
    List ServiceObservation → List ServiceObservation → List ServiceObservation
unfolding add_service
merge_services a [] = a
merge_services a (s ∷ b) = merge_services (add_service a s) b

unfoldable pub merge_into : Observation → Observation → Observation
unfolding merge_services
merge_into base add = record base {
  mac = or_text base.mac add.mac;
  vendor = or_text base.vendor add.vendor;
  hostname = or_text base.hostname add.hostname;
  os_family = or_text base.os_family add.os_family;
  os_detail = or_text base.os_detail add.os_detail;
  vlan = or_number base.vlan add.vlan;
  hw_serial = or_text base.hw_serial add.hw_serial;
  hw_object_id = or_text base.hw_object_id add.hw_object_id;
  services = merge_services base.services add.services;
  evidence = base.evidence ++ add.evidence;
  observed_at = or_number base.observed_at add.observed_at;
}

-- One round of `mergeObservations` for an observation with an address.
unfoldable pub upsert : List Observation → Observation → List Observation
unfolding merge_into same
upsert [] obs = obs ∷ []
upsert (base ∷ out) obs =
    let rest = upsert out obs in
    if same base.ip obs.ip then merge_into base obs ∷ out else base ∷ rest

unfoldable pub merge_from : List Observation → List Observation → List Observation
unfolding upsert
merge_from out [] = out
merge_from out (obs ∷ obss) = merge_from (if is_empty obs.ip then out else upsert out obs) obss

unfoldable pub merge_observations : List Observation → List Observation
unfolding merge_from
merge_observations obss = merge_from [] obss

-- The body of the loops of `unionHosts`: a blank or a host that was seen is dropped.
unfoldable pub keep_host : List Text → Text → List Text
unfolding any same
keep_host out h = if is_empty h then out else if any (same h) out then out else out ++ h ∷ []

unfoldable pub union_from : List Text → List Text → List Text
unfolding keep_host
union_from out [] = out
union_from out (h ∷ hs) = union_from (keep_host out h) hs

unfoldable pub union_hosts : List Text → List Text → List Text
unfolding union_from
union_hosts a b = union_from (union_from [] a) b

unfoldable pub host_targets : List Text → List Text
host_targets [] = []
host_targets (t ∷ targets) =
    let rest = host_targets targets in if is_some (parse_addr t) then t ∷ rest else rest

-- internal/scanner/agent/nmap.go: `observedIPs`.
unfoldable pub observed_ips : List Observation → List Text
observed_ips [] = []
observed_ips (o ∷ os) = let rest = observed_ips os in if is_empty o.ip then rest else o.ip ∷ rest
