-- ===== src/Combined/Pipeline.antt =====
-- internal/scanner/agent/combined.go: `Discover`, `enrich`, `enrichHost`, `runPass`. The backends
-- are arguments, as the interface `Discoverer` is in the source; a call of one is a function of its
-- job. `ctx` is left out but for the test of the launch loop, `alive i` for host number i. The
-- worker pool writes `perHost[i]` for its own i only, so its results are taken in host order; its
-- notes come in some order, which Combined/Notices/Order.antt shows not to matter.
use light_ipam.Base.{
  ℕ, suc, Bool, List, [], ◌∷◌, ◌++◌, Text, codes, Option, none, some, is_empty, trim_space,
  if◌then◌else◌,
}
use light_ipam.Protocol.{
  ScanJob, ScanType, Observation, ScanError, combined, deep_active, snmp_inventory, arp_table,
  lldp_cdp, name_lookup, dns_lookup, dhcp_leases,
}
use light_ipam.Combined.Merge.{merge_observations, union_hosts, host_targets, observed_ips}
use light_ipam.Combined.Notices.{Note, target, whole, empty, collect_from, notices}

-- What a backend returns: observations, errors of single targets, and the `error`, if any.
pub record Outcome : Type 0 where
  pub observations : List Observation
  pub errors : List ScanError
  pub failure : Option Text

-- `CombinedDiscoverer`.
pub record Sources : Type 0 where
  pub nmap : ScanJob → Outcome
  pub snmp : ScanJob → Outcome
  pub names : ScanJob → Outcome
  pub dns : ScanJob → Outcome
  pub dhcp : ScanJob → Outcome

abbrev pub Found : Type 0
Found = List Observation × List Note

-- The notes of a pass that ran: one for each error, with or without a target.
unfoldable pub error_notes : Text → List ScanError → List Note
error_notes label [] = []
error_notes label (e ∷ errors) =
    (if is_empty (trim_space e.target) then whole label e.message else target label)
    ∷ error_notes label errors

abbrev pub pass_result : Text → Outcome → Option Text → Found
pass_result label r (some message) = ([], whole label message ∷ [])
pass_result label r none = (r.observations, error_notes label r.errors)

abbrev pub sub_job : ScanJob → List Text → ScanType → ScanJob
sub_job job targets scan_type = record job {
  scan_type = scan_type;
  mode = deep_active;
  targets = targets;
}

unfoldable pub run_pass : (ScanJob → Outcome) → ScanJob → List Text → ScanType → Text → Found
unfolding error_notes
run_pass discover job targets scan_type label =
    let r = discover (sub_job job targets scan_type) in
    if is_empty targets then ([], []) else pass_result label r r.failure

infixr 60 ◌and_then◌
abbrev pub ◌and_then◌ : Found → Found → Found
a and_then b = (a.0 ++ b.0, a.1 ++ b.1)

-- The further SNMP passes, only for a host that answered the inventory.
unfoldable pub snmp_passes : Sources → ScanJob → Text → List Observation → Found
unfolding run_pass
snmp_passes c job host [] = ([], [])
snmp_passes c job host (o ∷ inv) =
    run_pass c.snmp job (host ∷ []) arp_table (codes "ARP harvest")
    and_then run_pass c.snmp job (host ∷ []) lldp_cdp (codes "LLDP/CDP neighbors")

unfoldable pub enrich_host : Sources → ScanJob → Text → Found
unfolding run_pass snmp_passes
enrich_host c job host =
    let inv = run_pass c.snmp job (host ∷ []) snmp_inventory (codes "SNMP inventory") in
    inv
    and_then snmp_passes c job host inv.0
    and_then run_pass c.names job (host ∷ []) name_lookup (codes "name lookup")
    and_then run_pass c.dns job (host ∷ []) dns_lookup (codes "DNS lookup")

-- The launch loop, from host number i on; it stops when the context is done.
unfoldable pub enrich_hosts : Sources → (ℕ → Bool) → ScanJob → ℕ → List Text → Found
unfolding enrich_host
enrich_hosts c alive job i [] = ([], [])
enrich_hosts c alive job i (host ∷ hosts) =
    let rest = enrich_hosts c alive job (suc i) hosts in
    if alive i then enrich_host c job host and_then rest else ([], [])

abbrev pub per_host_found : Sources → (ℕ → Bool) → ScanJob → List Text → Found
per_host_found c alive job [] = (
  [],
  whole (codes "Per-host enrichment") (codes "no live hosts discovered to query (SNMP, names, DNS)")
      ∷ [],
)
per_host_found c alive job (host ∷ hosts) = enrich_hosts c alive job 0 (host ∷ hosts)

unfoldable pub enrich :
    Sources → (ℕ → Bool) → ScanJob → List Text → List Observation × List ScanError
unfolding run_pass enrich_hosts
enrich c alive job hosts =
    let found =
      per_host_found c alive job hosts
      and_then run_pass c.dhcp job job.targets dhcp_leases (codes "DHCP leases") in
    (found.0, notices (collect_from empty found.1))

pub data Scan : Type 0 where
  failed : Text → Scan
  done : List Observation → List ScanError → Scan

abbrev pub nmap_job : ScanJob → ScanJob
nmap_job job = record job { scan_type = combined; mode = deep_active }

-- The hosts that the per-host passes are aimed at.
unfoldable pub per_host_targets : ScanJob → List Observation → List Text
per_host_targets job observations =
    union_hosts (observed_ips observations) (host_targets job.targets)

unfoldable pub after_nmap : Sources → (ℕ → Bool) → ScanJob → Outcome → Option Text → Scan
unfolding enrich per_host_targets
after_nmap c alive job r (some message) = failed message
after_nmap c alive job r none =
    let enriched = enrich c alive job (per_host_targets job r.observations) in
    done (merge_observations (r.observations ++ enriched.0)) (r.errors ++ enriched.1)

-- `Discover`.
unfoldable pub discover : Sources → (ℕ → Bool) → ScanJob → Scan
unfolding after_nmap
discover c alive job = let r = c.nmap (nmap_job job) in after_nmap c alive job r r.failure
