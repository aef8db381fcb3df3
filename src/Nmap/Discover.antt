-- ===== src/Nmap/Discover.antt =====
-- internal/scanner/agent/nmap.go: `Discover`, `discoverSet` and `runNmap`. A run of the command is an
-- argument: it gives its output, decoded where it is XML, and its error, if any. Messages that only
-- name things are shortened.
use light_ipam.Base.{
  ℕ, Bool, true, false, not, ◌&&◌, List, [], ◌∷◌, ◌++◌, Option, none, some, ◌⊎◌, inl, inr, Text,
  codes, any, is_empty, if◌then◌else◌,
}
use light_ipam.Netip.{Prefix}
use light_ipam.Protocol.{ScanJob, ScanType, Observation, ScanError, host_discovery}
use light_ipam.Combined.Merge.{merge_observations, observed_ips}
use light_ipam.Combined.Notices.{scan_ignored}
use light_ipam.Names.Lookup.{is_passive}
use light_ipam.Nmap.{
  EgressOptions, EgressSet, TargetAdjacency, local, pin_configured, classify_adjacency, plan_egress,
}
use light_ipam.Nmap.Args.{host_discovery_args, service_scan_args}
use light_ipam.Nmap.Xml.{NmapHost, parse_nmap_xml}

pub data Output : Type 0 where
  no_output garbled : Output
  hosts : List NmapHost → Output

-- `commandRunner`: the output and the error.
abbrev pub CommandRunner : Type 0
CommandRunner = List Text → Output × Option Text

-- Observations and errors, or the error of the job.
abbrev pub Scan : Type 0
Scan = Text ⊎ List Observation × List ScanError

abbrev pub parsed : ℕ → Output → Option (List Observation)
parsed now no_output = some []
parsed now garbled = none
parsed now (hosts given) = some (parse_nmap_xml now given)

abbrev pub partial_run : Text → Option (List Observation) → Scan
partial_run message none = inl message
partial_run message (some []) = inl message
partial_run message (some (o ∷ found)) =
    inr (o ∷ found, record { code = codes "nmap_partial"; message = message; target = [] } ∷ [])

abbrev pub full_run : Option (List Observation) → Scan
full_run none = inl (codes "parse nmap xml")
full_run (some found) = inr (found, [])

-- `runNmap`.
abbrev pub read_run : ℕ → Output × Option Text → Scan
read_run now (out, some message) = partial_run message (parsed now out)
read_run now (out, none) = full_run (parsed now out)

unfoldable pub run_nmap : CommandRunner → ℕ → List Text → Scan
unfolding parse_nmap_xml
run_nmap run now args = read_run now (run args)

-- The second stage, on the hosts that are alive.
abbrev pub joined : List Observation → List ScanError → Scan → Scan
joined alive errs (inl e) = inl e
joined alive errs (inr (scanned, scan_errs)) = inr (alive ++ scanned, errs ++ scan_errs)

abbrev pub second_stage :
    CommandRunner → ℕ → List Observation → List ScanError → Option (List Text) → Scan
second_stage run now alive errs none = inl (codes "unsupported scan type")
second_stage run now alive errs (some args) = joined alive errs (run_nmap run now args)

abbrev pub is_host_discovery : ScanType → Bool
is_host_discovery host_discovery = true
is_host_discovery _ = false

abbrev pub after_first : CommandRunner → ℕ → ScanJob → EgressOptions → Scan → Scan
after_first run now job egress (inl e) = inl e
after_first run now job egress (inr (alive, errs)) =
    if is_host_discovery job.scan_type
    then inr (alive, errs)
    else if is_empty alive
    then inr ([], errs)
    else second_stage run now alive errs (service_scan_args job egress (observed_ips alive))

-- `discoverSet`.
unfoldable pub discover_set : CommandRunner → ℕ → ScanJob → List Text → EgressOptions → Scan
unfolding run_nmap host_discovery_args service_scan_args observed_ips
discover_set run now job targets egress =
    after_first run now (record job { targets = targets }) egress
      (run_nmap run now (host_discovery_args targets egress))

abbrev is_local : TargetAdjacency → Bool
is_local local = true
is_local _ = false

-- `setHasRouted`.
unfoldable pub set_has_routed : List Text → Option Prefix → Bool
unfolding any classify_adjacency
set_has_routed targets src = any (λ t. not (is_local (classify_adjacency t src))) targets

-- `zeroHostNotice`.
abbrev zero_host_message : EgressOptions → EgressSet → Text
zero_host_message egress set =
    if set.pinned && set_has_routed set.targets egress.source_net
    then codes "No live hosts discovered: the target is routed, outside the source subnet."
    else if not set.pinned
    then codes "No live hosts discovered over the default route (unpinned)."
    else codes "No live hosts discovered on the pinned source segment."

unfoldable pub zero_host_notice : EgressOptions → EgressSet → List ScanError
unfolding pin_configured set_has_routed
zero_host_notice egress set =
    if not (pin_configured egress)
    then []
    else record { code = scan_ignored; message = zero_host_message egress set; target = [] } ∷ []

-- One turn of the loop over the sets, before the others.
abbrev pub before_others :
    EgressOptions → EgressSet → List Observation × List ScanError → Scan → Scan
before_others egress set found (inl e) = inl e
before_others egress set (obs, errs) (inr (all_obs, all_errs)) = inr (
  obs ++ all_obs,
  ((if is_empty obs then zero_host_notice egress set else []) ++ errs) ++ all_errs,
)

abbrev pub in_order : EgressOptions → EgressSet → Scan → Scan → Scan
in_order egress set (inl e) others = inl e
in_order egress set (inr found) others = before_others egress set found others

unfoldable pub discover_sets : CommandRunner → ℕ → ScanJob → EgressOptions → List EgressSet → Scan
unfolding discover_set zero_host_notice
discover_sets run now job egress [] = inr ([], [])
discover_sets run now job egress (set ∷ sets) =
    in_order egress set (discover_set run now job set.targets set.egress)
      (discover_sets run now job egress sets)

abbrev pub merged : List ScanError → Scan → Scan
merged notices (inl e) = inl e
merged notices (inr (found, errs)) = inr (merge_observations found, notices ++ errs)

-- `NmapDiscoverer.Discover`.
unfoldable pub discover : CommandRunner → ℕ → EgressOptions → ScanJob → Scan
unfolding plan_egress discover_sets merge_observations
discover run now egress job =
    if is_passive job.mode
    then inr ([], [])
    else if is_empty job.targets
    then inl (codes "scan job has no targets")
    else merged (plan_egress egress job.targets).notices
        (discover_sets run now job egress (plan_egress egress job.targets).sets)
