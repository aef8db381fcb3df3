-- ===== src/Names/Lookup.antt =====
-- internal/scanner/agent/names.go: `Discover` and `lookup`, with the functions of snmp.go that read
-- the allowlist. The exchange of one datagram is an argument, as `udpExchanger` is in the source;
-- it is given the host, the port and the payload. `alive n` is the test of `ctx` with `n` targets left.
use light_ipam.Base.{
  ℕ, suc, Bool, true, false, not, List, [], ◌∷◌, ◌++◌, Option, none, some, ◌⊎◌, inl, inr, Text,
  codes, length, any, is_empty, trim_suffix, ◌==◌, if◌then◌else◌,
}
use light_ipam.Netip.{Addr, Prefix, is4, contains, masked}
use light_ipam.Netip.Parse.{parse_addr, parse_prefix}
use light_ipam.Protocol.{ScanJob, ScanMode, passive, Observation, ScanError}
use light_ipam.Names.{no_reply, Reading, ok, fail, panic, stuck, ◌>>=◌}
use light_ipam.Names.Netbios.{Station, nbstat_request, parse_nbstat_response}
use light_ipam.Names.Mdns.{mdns_reverse_request, parse_mdns_ptr_response}

-- The ports of `NameConfig`; the timeout belongs to the exchange.
pub record NameConfig : Type 0 where
  pub netbios_port : ℕ
  pub mdns_port : ℕ

-- `NameConfig.withDefaults`.
unfoldable pub with_defaults : NameConfig → NameConfig
with_defaults c = record {
  netbios_port = if c.netbios_port == 0 then 137 else c.netbios_port;
  mdns_port = if c.mdns_port == 0 then 5353 else c.mdns_port;
}

-- `NameDiscoverer`.
pub record NameDiscoverer : Type 0 where
  pub cfg : NameConfig
  pub exchange : Text → ℕ → List ℕ → Option (List ℕ)

-- `NewNameDiscoverer`.
unfoldable pub new_name_discoverer :
    NameConfig → (Text → ℕ → List ℕ → Option (List ℕ)) → NameDiscoverer
unfolding with_defaults
new_name_discoverer cfg exchange = record { cfg = with_defaults cfg; exchange = exchange }

abbrev pub reply : Option (List ℕ) → Reading (List ℕ)
reply none = fail no_reply
reply (some resp) = ok resp

-- `queryNetBIOS` and `queryMDNS`.
unfoldable pub query_netbios : NameDiscoverer → Text → Reading Station
unfolding parse_nbstat_response
query_netbios d ip =
    reply (d.exchange ip d.cfg.netbios_port nbstat_request) >>= parse_nbstat_response

unfoldable pub query_mdns : NameDiscoverer → Text → Reading Text
unfolding mdns_reverse_request parse_mdns_ptr_response
query_mdns d ip = do
  query ← mdns_reverse_request ip
  resp ← reply (d.exchange ip d.cfg.mdns_port query)
  parse_mdns_ptr_response resp

abbrev pub unnamed : Text → ℕ → Observation
unnamed ip now = record {
  ip = ip;
  mac = [];
  vendor = [];
  hostname = [];
  os_family = [];
  os_detail = [];
  vlan = 0;
  hw_serial = [];
  hw_object_id = [];
  services = [];
  evidence = [];
  observed_at = now;
}

abbrev noted : Observation → Text → Text → Observation
noted obs source summary = record obs {
  evidence = obs.evidence ++ record { source = source; summary = summary; raw = [] } ∷ [];
}

abbrev workgroup : Text → Text
workgroup group = if is_empty group then [] else codes " (workgroup " ++ (group ++ codes ")")

-- The observation so far and `found`.
abbrev pub Learned : Type 0
Learned = Observation × Bool

unfoldable pub learn_netbios : Learned → Station → Learned
learn_netbios (obs, found) st = if is_empty st.name then (obs, found) else (
  noted (record obs { hostname = st.name }) (codes "netbios")
      (codes "NetBIOS name: " ++ (st.name ++ workgroup st.group)),
  true,
)

unfoldable pub learn_mdns : Learned → Text → Learned
unfolding trim_suffix
learn_mdns (obs, found) name = if is_empty name then (obs, found) else (
  noted
      (record obs {
        hostname =
            if is_empty obs.hostname then trim_suffix name (codes ".local") else obs.hostname;
      })
      (codes "mdns") (codes "mDNS name: " ++ name),
  true,
)

-- A query that failed teaches nothing; a panic is no error and goes on.
abbrev pub learn : {A : Type 0} → (Learned → A → Learned) → Learned → Reading A → Reading Learned
learn f so_far (ok a) = ok (f so_far a)
learn f so_far (fail e) = ok so_far
learn f so_far panic = panic
learn f so_far stuck = stuck

-- `lookup`.
unfoldable pub lookup : NameDiscoverer → Text → ℕ → Reading Learned
unfolding query_netbios query_mdns learn_netbios learn_mdns
lookup d ip now = do
  by_netbios ← learn learn_netbios (unnamed ip now, false) (query_netbios d ip)
  learn learn_mdns by_netbios (query_mdns d ip)

-- `parseScopePrefixes`; the error is the entry that is no prefix.
pub data LookupError : Type 0 where
  no_target_hosts ctx_done : LookupError
  bad_allowlist : Text → LookupError

abbrev pub and_scope : Prefix → LookupError ⊎ List Prefix → LookupError ⊎ List Prefix
and_scope p (inl e) = inl e
and_scope p (inr rest) = inr (masked p ∷ rest)

unfoldable pub parse_scope_prefixes : List Text → LookupError ⊎ List Prefix
unfolding parse_prefix masked
parse_scope_prefixes [] = inr []
parse_scope_prefixes (c ∷ cidrs) = elim (parse_prefix c) [
  | none ↦ inl (bad_allowlist c)
  | some p ↦ and_scope p (parse_scope_prefixes cidrs)
]

-- `withinScope`.
unfoldable pub within_scope : Addr → List Prefix → Bool
unfolding any contains
within_scope addr prefixes = any (λ p. contains p addr) prefixes

-- `Discover`: what it returns.
pub record Answer : Type 0 where
  pub observations : List Observation
  pub errors : List ScanError
  pub failure : Option LookupError

abbrev unresolved : Text → Text → ScanError
unresolved message target = record {
  code = codes "name_unresolved";
  message = message;
  target = target;
}

abbrev needs_host : Text
needs_host = codes "name lookup needs single-host targets (cannot probe a CIDR)"

abbrev no_name : Text
no_name = codes "no NetBIOS or mDNS name (host may not run those services)"

abbrev pub add_observation : Observation → Answer → Answer
add_observation obs a = record a { observations = obs ∷ a.observations }

abbrev pub add_error : ScanError → Answer → Answer
add_error e a = record a { errors = e ∷ a.errors }

abbrev pub outcome_of : Text → Learned → Answer → Answer
outcome_of target (obs, found) =
    if found then add_observation obs else add_error (unresolved no_name target)

-- The loop over the targets, and one host of it.
unfoldable pub probe : NameDiscoverer → ℕ → List Prefix → Text → Reading (Answer → Answer)
unfolding parse_addr within_scope lookup
probe d now scope target = elim (parse_addr target) [
  | none ↦ ok (add_error (unresolved needs_host target))
  | some a ↦
      if not (is4 a)
      then ok (add_error (unresolved needs_host target))
      else if not (within_scope a scope)
      then ok (λ answer. answer)
      else lookup d target now >>= λ learned. ok (outcome_of target learned)
]

unfoldable pub probe_all :
    NameDiscoverer → ℕ → (ℕ → Bool) → List Prefix → List Text → Reading Answer
unfolding probe
probe_all d now alive scope [] = ok record { observations = []; errors = []; failure = none }
probe_all d now alive scope (target ∷ targets) =
    let rest = probe_all d now alive scope targets in
    if not (alive (suc (length targets)))
    then ok record { observations = []; errors = []; failure = some ctx_done }
    else probe d now scope target >>= λ add. rest >>= λ answer. ok (add answer)

abbrev pub failed : LookupError → Answer
failed e = record { observations = []; errors = []; failure = some e }

abbrev pub is_passive : ScanMode → Bool
is_passive passive = true
is_passive _ = false

abbrev pub in_scope :
    NameDiscoverer → ℕ → (ℕ → Bool) → List Text → LookupError ⊎ List Prefix → Reading Answer
in_scope d now alive targets (inl e) = ok (failed e)
in_scope d now alive targets (inr scope) = probe_all d now alive scope targets

unfoldable pub discover : NameDiscoverer → ℕ → (ℕ → Bool) → ScanJob → Reading Answer
unfolding parse_scope_prefixes probe_all
discover d now alive job =
    if is_passive job.mode
    then ok record { observations = []; errors = []; failure = none }
    else if is_empty job.targets
    then ok (failed no_target_hosts)
    else in_scope d now alive job.targets (parse_scope_prefixes job.allowed_cidrs)
