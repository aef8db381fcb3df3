-- ===== src/Nmap/Args.antt =====
-- internal/scanner/agent/nmap.go: the command lines of the two stages.
use light_ipam.Base.{
  Bool, true, false, not, ◌&&◌, List, [], ◌∷◌, ◌++◌, Option, none, some, Text, codes, is_empty, ltb,
  if◌then◌else◌, ℤ, pos, negsuc,
}
use light_ipam.Protocol.{
  ScanJob, ScanMode, ScanType, light_active, standard_active, deep_active, service_detection,
  os_probe, combined,
}
use light_ipam.Combined.Notices.{decimal_text}
use light_ipam.Nmap.{EgressOptions, egress_args}

abbrev is_deep : ScanMode → Bool
is_deep deep_active = true
is_deep _ = false

abbrev is_standard : ScanMode → Bool
is_standard standard_active = true
is_standard _ = false

abbrev is_light : ScanMode → Bool
is_light light_active = true
is_light _ = false

-- `portArgsForMode`.
unfoldable pub port_args_for_mode : ScanMode → List Text
port_args_for_mode mode =
    if is_deep mode then codes "-p-" ∷ [] else codes "--top-ports" ∷ codes "1000" ∷ []

-- `versionAllForMode`, as the argument.
unfoldable pub version_all : ScanMode → List Text
version_all mode = if is_standard mode then codes "--version-all" ∷ [] else []

-- `timingArgs`.
unfoldable pub timing_args : ScanMode → Bool → List Text
timing_args mode rate_capped =
    if is_deep mode
    then (codes "-T4" ∷ codes "--max-retries" ∷ codes "2" ∷ [])
      ++ (if rate_capped then [] else codes "--min-rate" ∷ codes "1000" ∷ [])
    else []

-- `hostDiscoveryArgs`.
unfoldable pub host_discovery_args : List Text → EgressOptions → List Text
unfolding egress_args
host_discovery_args targets egress =
    (codes "-oX" ∷ codes "-" ∷ codes "--privileged" ∷ codes "-sn" ∷ codes "-T4" ∷ [])
    ++ (egress_args egress ++ ((codes "--host-timeout" ∷ codes "60s" ∷ codes "--" ∷ []) ++ targets))

-- A number that is positive, as an argument of its option.
abbrev option_of : Text → Text → ℤ → List Text
option_of name unit (negsuc n) = []
option_of name unit (pos n) = if ltb 0 n then name ∷ (decimal_text n ++ unit) ∷ [] else []

abbrev is_positive : ℤ → Bool
is_positive (negsuc n) = false
is_positive (pos n) = ltb 0 n

abbrev rate_of : ScanJob → ℤ
rate_of job =
    if not (is_positive job.rate_limit.probes_per_second) && not (is_deep job.mode)
    then pos 100
    else job.rate_limit.probes_per_second

-- The probes of a scan type; no result is a type that nmap does not serve.
unfoldable pub probe_args : ScanType → ScanMode → Option (List Text)
unfolding port_args_for_mode version_all
probe_args service_detection mode =
    some (codes "-sV" ∷ (port_args_for_mode mode ++ version_all mode))
probe_args os_probe mode = some (
    codes "-O"
    ∷ (if is_light mode then [] else codes "-sV" ∷ (port_args_for_mode mode ++ version_all mode)))
probe_args combined mode =
    some (codes "-sV" ∷ codes "-O" ∷ (port_args_for_mode mode ++ version_all mode))
probe_args _ mode = none

abbrev with_probes : ScanJob → EgressOptions → List Text → Option (List Text) → Option (List Text)
with_probes job egress hosts none = none
with_probes job egress hosts (some probes) = some (
    (codes "-oX" ∷ codes "-" ∷ codes "--privileged" ∷ codes "-Pn" ∷ [])
    ++ (egress_args egress
        ++ (option_of (codes "--max-rate") [] (rate_of job)
            ++ (option_of (codes "--max-parallelism") [] job.rate_limit.concurrency
                ++ (timing_args job.mode (is_positive (rate_of job))
                    ++ (option_of (codes "--host-timeout") (codes "s") job.timeout_seconds
                        ++ (probes ++ (codes "--" ∷ hosts))))))))

-- `serviceScanArgs`; no result is its error.
unfoldable pub service_scan_args : ScanJob → EgressOptions → List Text → Option (List Text)
unfolding egress_args timing_args probe_args decimal_text
service_scan_args job egress hosts =
    if is_empty hosts
    then none
    else with_probes job egress hosts (probe_args job.scan_type job.mode)
