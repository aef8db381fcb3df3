-- ===== src/Dhcp/Discover.antt =====
-- internal/scanner/agent/dhcp.go: the choice of a format and `Discover`.
use light_ipam.Base.{
  ℕ, Bool, true, false, ◌&&◌, ◌||◌, List, [], ◌∷◌, ◌++◌, Option, none, some, ◌>>=◌, Text, codes,
  any, is_empty, same, trim_space, to_lower, ◌==◌, if◌then◌else◌,
}
use light_ipam.Netip.{Addr, Prefix, v4, v6, is4, masked}
use light_ipam.Netip.Parse.{parse_addr, parse_prefix}
use light_ipam.Protocol.{ScanJob, Observation, ScanError}
use light_ipam.Names.Lookup.{is_passive, within_scope}
use light_ipam.Dhcp.{Lease, Clock, scan_lines, parse_dnsmasq_leases}
use light_ipam.Dhcp.Isc.{opens, parse_isc_leases}

-- `looksLikeISC`.
unfoldable pub looks_like_isc : Text → Bool
unfolding any opens trim_space scan_lines
looks_like_isc contents = any (λ line. opens (trim_space line)) (scan_lines contents)

-- `parseLeases`; no result is a format that is not known.
unfoldable pub parse_leases : Clock → Text → Text → Option (List Lease)
unfolding to_lower trim_space same looks_like_isc parse_isc_leases parse_dnsmasq_leases
parse_leases clock contents format =
    let f = to_lower (trim_space format) in
    if same f (codes "isc")
    then some (parse_isc_leases clock contents)
    else if same f (codes "dnsmasq")
    then some (parse_dnsmasq_leases clock contents)
    else if is_empty f || same f (codes "auto")
    then some (
        if looks_like_isc contents
        then parse_isc_leases clock contents
        else parse_dnsmasq_leases clock contents)
    else none

-- `scopeFromTargets`; no result is a target that is neither a prefix nor an address.
abbrev whole_addr : Addr → Prefix
whole_addr (v4 n) = record { addr = v4 n; bits = 32 }
whole_addr (v6 n zone) = record { addr = v6 n []; bits = 128 }

unfoldable pub target_prefix : Text → Option Prefix
unfolding parse_prefix parse_addr masked
target_prefix t = elim (parse_prefix t) [
  | some p ↦ some (masked p)
  | none ↦ elim (parse_addr t) [ some a ↦ some (whole_addr a) | none ↦ none ]
]

unfoldable pub scope_from_targets : List Text → Option (List Prefix)
unfolding target_prefix
scope_from_targets [] = some []
scope_from_targets (t ∷ targets) = do
  p ← target_prefix t
  ps ← scope_from_targets targets
  some (p ∷ ps)

-- What reading the lease file gave.
pub data LeaseFile : Type 0 where
  no_lease_file : LeaseFile
  read_failed : Text → LeaseFile
  read_contents : Text → LeaseFile

-- What `Discover` returns; `bad_target` is its `error`.
pub record Found : Type 0 where
  pub observations : List Observation
  pub errors : List ScanError
  pub bad_target : Bool

abbrev problem : Text → Text → Found
problem code message = record {
  observations = [];
  errors = record { code = code; message = message; target = [] } ∷ [];
  bad_target = false;
}

abbrev expiry : Clock → ℕ → Text
expiry clock t = if t == 0 then [] else codes ", expires " ++ clock.format t

abbrev pub lease_observation : Clock → ℕ → Lease → Observation
lease_observation clock now lease = record {
  ip = lease.ip;
  mac = lease.mac;
  vendor = [];
  hostname = lease.hostname;
  os_family = [];
  os_detail = [];
  vlan = 0;
  hw_serial = [];
  hw_object_id = [];
  services = [];
  evidence =
      record {
        source = codes "dhcp";
        summary = codes "DHCP lease (active)" ++ expiry clock lease.expires;
        raw = [];
      }
      ∷ [];
  observed_at = now;
}

unfoldable pub lease_in_scope : List Prefix → Lease → Bool
unfolding parse_addr within_scope
lease_in_scope scope lease = elim (parse_addr lease.ip) [
  | none ↦ false
  | some a ↦ is4 a && within_scope a scope
]

unfoldable pub observe : Clock → ℕ → List Prefix → List Lease → List Observation
unfolding lease_in_scope
observe clock now scope [] = []
observe clock now scope (lease ∷ leases) =
    let rest = observe clock now scope leases in
    if lease_in_scope scope lease then lease_observation clock now lease ∷ rest else rest

abbrev observe_leases : Clock → ℕ → List Prefix → Option (List Lease) → Found
observe_leases clock now scope none =
    problem (codes "dhcp_failed") (codes "unknown DHCP lease format")
observe_leases clock now scope (some leases) = record {
  observations = observe clock now scope leases;
  errors = [];
  bad_target = false;
}

abbrev read_file : Clock → ℕ → Text → LeaseFile → List Prefix → Found
read_file clock now format no_lease_file scope =
    problem (codes "dhcp_unconfigured")
      (codes "no DHCP lease file configured (set AGENT_DHCP_LEASE_FILE on the agent)")
read_file clock now format (read_failed e) scope =
    problem (codes "dhcp_failed") (codes "read lease file: " ++ e)
read_file clock now format (read_contents contents) scope =
    observe_leases clock now scope (parse_leases clock contents format)

abbrev in_targets : (List Prefix → Found) → Option (List Prefix) → Found
in_targets k none = record { observations = []; errors = []; bad_target = true }
in_targets k (some scope) = k scope

-- `DHCPDiscoverer.Discover`; the message for an unknown format is without the format.
unfoldable pub discover : Clock → ℕ → Text → LeaseFile → ScanJob → Found
unfolding scope_from_targets observe parse_leases
discover clock now format file job =
    if is_passive job.mode
    then record { observations = []; errors = []; bad_target = false }
    else in_targets (read_file clock now format file) (scope_from_targets job.targets)
