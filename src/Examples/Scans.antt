-- ===== src/Examples/Scans.antt =====
-- The theorems on jobs and combined scans, at the job of Examples.antt.
use mathlib.Core.List.{Permᴰ}
use light_ipam.Base.{
  ℕ, Bool, true, List, [], ◌∷◌, Option, none, some, Text, codes, ◌≡◌, ◌≢◌, ◌↔◌, ◌⊎◌, refl, arith,
  All, In, here, map, ◌<◌, ◌≤◌, ◌^◌,
}
use light_ipam.Netip.{Addr, v4, contains}
use light_ipam.Netip.Parse.{parse_addr, parse_prefix}
use light_ipam.Protocol.{
  ScanJob, ScanType, Observation, ScanError, ServiceObservation, active, snmp_inventory,
}
use light_ipam.Protocol.Validate
use light_ipam.Protocol.Validate.{validate_agent_scope, validate_job_for_agent, prefix_within}
use light_ipam.Protocol.Targets.{Denotes, Allows, host}
use light_ipam.Protocol.Scope.{validate_agent_scope-Allows}
use light_ipam.Protocol.Within.{prefix_within_iff, prefix4}
use light_ipam.Orchestrator.{Jobs, enqueue, headline_error}
use light_ipam.Orchestrator.Enqueue.{enqueue-Allows}
use light_ipam.Orchestrator.Headline.{headline_error-discover}
use light_ipam.Combined.Merge.{merge_observations, union_hosts}
use light_ipam.Combined.MergeLaws.{first_text, find_ip, IsMergeOf, merge_observations-IsMergeOf}
use light_ipam.Combined.Hosts.{IsHostList, union_hosts_lem, map_ip-merge_observations}
use light_ipam.Combined.Notices.{Note, target, whole, notices, collect_from, empty}
use light_ipam.Combined.Notices.Order.{HasPlainLabel, notices-perm}
use light_ipam.Combined.Pipeline.{
  Outcome, Sources, Scan, failed, done, nmap_job, discover, run_pass, enrich_host,
}
use light_ipam.Combined.Fallback.{discover-nmap_leads, enrich_host-quiet_snmp}
use light_ipam.Examples
use light_ipam.Examples.{job, agent, seen}

scope-ok : validate_agent_scope job agent.allowed_cidrs ≡ Validate.Result.ok tt
unfolding validate_agent_scope Validate.parse_allowed_prefixes Validate.parse_allowed_prefix
    parse_prefix Validate.validate_cidrs Validate.within_any contains light_ipam.Netip.masked
    Validate.validate_job light_ipam.Protocol.scan_type_valid light_ipam.Protocol.scan_mode_valid
    Validate.not_positive Validate.validate_job_targets Validate.validate_target
scope-ok = refl

target-Denotes : Denotes (codes "10.1.2.3") Examples.host
unfolding parse_prefix parse_addr
target-Denotes = host refl refl

validate_agent_scope-Allows_example :
    Allows job.allowed_cidrs Examples.host × Allows agent.allowed_cidrs Examples.host
validate_agent_scope-Allows_example =
    validate_agent_scope-Allows job agent.allowed_cidrs (codes "10.1.2.3") Examples.host scope-ok
      here target-Denotes

abbrev no_jobs : Jobs
no_jobs = record { rows = []; started = [] }

abbrev one_job : Jobs
one_job = record { rows = record job { id = codes "j9" } ∷ []; started = codes "j9" ∷ [] }

enqueue-ok : enqueue no_jobs agent job (codes "j9") ≡ Validate.Result.ok one_job
unfolding enqueue light_ipam.Base.same validate_agent_scope Validate.parse_allowed_prefixes
    Validate.parse_allowed_prefix parse_prefix Validate.validate_cidrs Validate.within_any contains
    light_ipam.Netip.masked Validate.validate_job light_ipam.Protocol.scan_type_valid
    light_ipam.Protocol.scan_mode_valid Validate.not_positive Validate.validate_job_targets
    Validate.validate_target
enqueue-ok = refl

enqueue-Allows_example :
    (one_job.rows ≡ record job { id = codes "j9" } ∷ [])
    × (agent.status ≡ active)
    × (job.agent_id ≡ agent.id)
    × ((target : Text) (a : Addr)
        → In target job.targets
        → Denotes target a
        → Allows job.allowed_cidrs a × Allows agent.allowed_cidrs a)
enqueue-Allows_example = enqueue-Allows no_jobs agent job (codes "j9") enqueue-ok

-- 10.1.0.0/16 within 10.0.0.0/8.
prefix_within_iff_example : (prefix_within (prefix4 167837696 16) (prefix4 167772160 8) ≡ true) ↔ (
    (x : ℕ)
    → x < 2 ^ 32
    → contains (prefix4 167837696 16) (v4 x) ≡ true
    → contains (prefix4 167772160 8) (v4 x) ≡ true)
prefix_within_iff_example =
    prefix_within_iff 167837696 16 167772160 8 (omega arith) (omega arith) (omega arith)

abbrev printer : Text
printer = codes "10.1.2.3"

-- nmap finds the host without its name; a later source has it.
abbrev observed : List Observation
observed = seen printer [] ∷ seen printer (codes "printer") ∷ []

abbrev merged : Observation
merged = seen printer (codes "printer")

printer-given : printer ≢ []
printer-given e = cc

find-merged : find_ip printer (merge_observations observed) ≡ some merged
unfolding merge_observations
find-merged = refl

merge_observations-IsMergeOf_example : IsMergeOf printer observed merged
merge_observations-IsMergeOf_example =
    merge_observations-IsMergeOf printer observed printer-given find-merged

map_ip-merge_observations_example :
    (map Observation.ip (merge_observations observed)
      ≡ union_hosts (map Observation.ip observed) [])
    × IsHostList (map Observation.ip (merge_observations observed))
map_ip-merge_observations_example = map_ip-merge_observations observed

union_hosts_lem_example :
    IsHostList (union_hosts (printer ∷ [] ∷ printer ∷ []) (codes "10.1.2.4" ∷ []))
    × ((h : Text)
        → h ≢ []
        → In h (union_hosts (printer ∷ [] ∷ printer ∷ []) (codes "10.1.2.4" ∷ []))
          ↔ (In h (printer ∷ [] ∷ printer ∷ []) ⊎ In h (codes "10.1.2.4" ∷ [])))
union_hosts_lem_example = union_hosts_lem (printer ∷ [] ∷ printer ∷ []) (codes "10.1.2.4" ∷ [])

abbrev service : ℕ → Text → ServiceObservation
service port name = record {
  protocol = codes "tcp";
  port = port;
  state = codes "open";
  service_name = name;
  product = [];
  version = [];
}

-- Port 22 is in both lists.
abbrev first_list : List ServiceObservation
first_list = service 22 (codes "ssh") ∷ []

abbrev second_list : List ServiceObservation
second_list = service 80 (codes "http") ∷ service 22 [] ∷ []

abbrev quiet : Outcome
quiet = record { observations = []; errors = []; failure = none }

abbrev no_answer : Outcome
no_answer = record {
  observations = [];
  errors = record { code = codes "timeout"; message = codes "no answer"; target = printer } ∷ [];
  failure = none;
}

abbrev sources : Sources
sources = record {
  nmap = λ j. record { observations = observed; errors = []; failure = none };
  snmp = λ j. no_answer;
  names = λ j. quiet;
  dns = λ j. quiet;
  dhcp = λ j. quiet;
}

abbrev found_by : Scan → List Observation
found_by (done observations errors) = observations
found_by (failed message) = []

abbrev errors_by : Scan → List ScanError
errors_by (done observations errors) = errors
errors_by (failed message) = []

abbrev scan : Scan
scan = discover sources (λ i. true) job

scan-done : discover sources (λ i. true) job ≡ done (found_by scan) (errors_by scan)
unfolding discover
scan-done = refl

printer-observed : In printer (map Observation.ip (sources.nmap (nmap_job job)).observations)
printer-observed = here

discover-nmap_leads_example :
    In printer (map Observation.ip (found_by scan))
    × ((r : Observation)
        → find_ip printer (found_by scan) ≡ some r
        → first_text Observation.hostname printer observed ≢ []
        → r.hostname ≡ first_text Observation.hostname printer observed)
discover-nmap_leads_example =
    discover-nmap_leads sources (λ i. true) job printer printer-given scan-done printer-observed

headline_error-discover_example : headline_error (errors_by scan) ≡ headline_error []
headline_error-discover_example = headline_error-discover sources (λ i. true) job scan-done

inventory-quiet :
    (run_pass sources.snmp job (printer ∷ []) snmp_inventory (codes "SNMP inventory")).0 ≡ []
unfolding run_pass
inventory-quiet = refl

enrich_host-quiet_snmp_example :
    enrich_host (record sources { snmp = λ j. no_answer }) job printer
    ≡ enrich_host sources job printer
enrich_host-quiet_snmp_example =
    enrich_host-quiet_snmp sources job printer (λ j. no_answer) refl inventory-quiet

-- Two notes in either order.
abbrev notes : List Note
notes = target (codes "DNS") ∷ whole (codes "SNMP") (codes "off") ∷ []

abbrev swapped : List Note
swapped = whole (codes "SNMP") (codes "off") ∷ target (codes "DNS") ∷ []

notes-swapped : Permᴰ notes swapped
notes-swapped = Permᴰ.swap refl refl

notes-plain : All HasPlainLabel notes
notes-plain = (
  ((λ e. omega arith), ((λ e. omega arith), ((λ e. omega arith), tt))),
  (((λ e. omega arith), ((λ e. omega arith), ((λ e. omega arith), ((λ e. omega arith), tt)))), tt),
)

notices-perm_example : notices (collect_from empty notes) ≡ notices (collect_from empty swapped)
notices-perm_example = notices-perm notes swapped notes-plain notes-swapped
