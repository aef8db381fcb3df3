-- ===== src/Nmap/Stages.antt =====
-- internal/scanner/agent/nmap.go: what the two stages of `discoverSet` scan, and whose answers `Discover`
-- reports.
use light_ipam.Base.{
  ℕ, Bool, true, false, List, [], ◌∷◌, ◌++◌, Option, none, some, ◌⊎◌, inl, inr, Text, is_empty,
  if◌then◌else◌, ◌≡◌, refl, sym, subst, In, here, there, In-cons, In-append, not-In-nil, Bool-cases,
}
use light_ipam.Protocol.{ScanJob, Observation, ScanError}
use light_ipam.Combined.Merge.{observed_ips}
use light_ipam.Nmap.{EgressSet}
use light_ipam.Nmap.Args.{host_discovery_args, service_scan_args}
use light_ipam.Nmap.Xml.{parse_nmap_xml}
use light_ipam.Nmap.Source.{HasUp, parse_nmap_xml-HasUp}
use light_ipam.Nmap.Discover.{
  Output, no_output, garbled, hosts, CommandRunner, Scan, run_nmap, read_run, partial_run, joined,
  second_stage, after_first, is_host_discovery, discover_set,
}

-- What a scan finds is as `Q` says, if it gives a result.
abbrev pub OnFound : (List Observation → Type 0) → Scan → Type 0
OnFound Q (inl e) = Unit {0}
OnFound Q (inr (found, errs)) = Q found

abbrev pub Each : (Text → Type 0) → List Observation → Type 0
Each P found = (o : Observation) → In o found → P o.ip

pub if-OnFound :
    (Q : List Observation → Type 0) (b : Bool) (s t : Scan)
    → OnFound Q s
    → OnFound Q t
    → OnFound Q (if b then s else t)
if-OnFound Q true s t hs ht = hs
if-OnFound Q false s t hs ht = ht

pub Each-append :
    (P : Text → Type 0) (xs ys : List Observation) → Each P xs → Each P ys → Each P (xs ++ ys)
Each-append P xs ys hx hy o m = elim (In-append xs ys m) [ inl l ↦ hx o l | inr r ↦ hy o r ]

pub Each-nil : (P : Text → Type 0) → Each P []
Each-nil P o m = absurd (not-In-nil m)

-- The run with these arguments reports a host that is up and has the address.
abbrev pub Reports : CommandRunner → List Text → Text → Type 0
Reports run args ip = (given : List _) × ((run args).0 ≡ hosts given) × HasUp given ip

partial_run-OnFound :
    (Q : List Observation → Type 0) (message : Text) (found : List Observation)
    → Q found
    → OnFound Q (partial_run message (some found))
partial_run-OnFound Q message [] h = tt
partial_run-OnFound Q message (o ∷ found) h = h

read_run-OnFound :
    (P : Text → Type 0) (now : ℕ) (out : Output) (failed : Option Text)
    → ((given : List _) → out ≡ hosts given → Each P (parse_nmap_xml now given))
    → OnFound (Each P) (read_run now (out, failed))
read_run-OnFound P now no_output none h = Each-nil P
read_run-OnFound P now no_output (some message) h = tt
read_run-OnFound P now garbled none h = tt
read_run-OnFound P now garbled (some message) h = tt
read_run-OnFound P now (hosts given) none h = h given refl
read_run-OnFound P now (hosts given) (some message) h =
    partial_run-OnFound _ message (parse_nmap_xml now given) (h given refl)

run_nmap-Reports :
    (run : CommandRunner) (now : ℕ) (args : List Text)
    → OnFound (Each (Reports run args)) (run_nmap run now args)
unfolding run_nmap
run_nmap-Reports run now args =
    read_run-OnFound (Reports run args) now (run args).0 (run args).1
      (λ given e o m. (given, e, parse_nmap_xml-HasUp now given o m))

observed_ips-In :
    (found : List Observation) (ip : Text)
    → In ip (observed_ips found)
    → (o : Observation) × In o found × (ip ≡ o.ip)
unfolding observed_ips
observed_ips-In [] ip m = absurd (not-In-nil m)
observed_ips-In (o ∷ found) ip m = elim (Bool-cases (is_empty o.ip)) [
  | inl e ↦
      let (x, mx, q) = observed_ips-In found ip (rw (observed_ips, e) at m) in (x, there mx, q)
  | inr e ↦ elim (In-cons (rw (observed_ips, e) at m)) [
    | inl q ↦ (o, here, q)
    | inr later ↦ let (x, mx, q) = observed_ips-In found ip later in (x, there mx, q)
  ]
]

-- The command of the first stage for the set, or that of the second stage for addresses that the
-- first stage reports.
abbrev pub IsStage : CommandRunner → ScanJob → EgressSet → List Text → Type 0
IsStage run job s args =
    (args ≡ host_discovery_args s.targets s.egress)
    ⊎ ((alive : List Text) × (service_scan_args (record job { targets = s.targets }) s.egress alive
          ≡ some args)
        × ((ip : Text) → In ip alive → Reports run (host_discovery_args s.targets s.egress) ip))

-- Some stage for a set of the plan reports the address.
abbrev pub IsFoundIn : CommandRunner → ScanJob → EgressSet → Text → Type 0
IsFoundIn run job s ip = (args : List Text) × IsStage run job s args × Reports run args ip

module _ (run : CommandRunner) (now : ℕ) (job : ScanJob) (s : EgressSet) where
  abbrev sweep : List Text
  sweep = host_discovery_args s.targets s.egress

  first-IsFoundIn : (ip : Text) → Reports run sweep ip → IsFoundIn run job s ip
  first-IsFoundIn ip r = (sweep, inl refl, r)

  joined-OnFound :
      (P : Text → Type 0) (alive : List Observation) (errs : List ScanError) (scan : Scan)
      → Each P alive
      → OnFound (Each P) scan
      → OnFound (Each P) (joined alive errs scan)
  joined-OnFound P alive errs (inl e) ha h = tt
  joined-OnFound P alive errs (inr (scanned, more)) ha h = Each-append P alive scanned ha h

  second_stage-OnFound :
      (alive : List Observation) (errs : List ScanError) (args : Option (List Text))
      → Each (Reports run sweep) alive
      → service_scan_args (record job { targets = s.targets }) s.egress (observed_ips alive) ≡ args
      → OnFound (Each (IsFoundIn run job s)) (second_stage run now alive errs args)
  second_stage-OnFound alive errs none h e = tt
  second_stage-OnFound alive errs (some args) h e =
      joined-OnFound (IsFoundIn run job s) alive errs (run_nmap run now args)
        (λ o m. first-IsFoundIn o.ip (h o m))
        (weaken (run_nmap run now args) (run_nmap-Reports run now args))
    where
      seen : (ip : Text) → In ip (observed_ips alive) → Reports run sweep ip
      seen ip m =
          let (o, mo, q) = observed_ips-In alive ip m in subst (Reports run sweep) (sym q) (h o mo)

      weaken :
          (scan : Scan)
          → OnFound (Each (Reports run args)) scan
          → OnFound (Each (IsFoundIn run job s)) scan
      weaken (inl e) r = tt
      weaken (inr (found, more)) r = λ o m. (args, inr (observed_ips alive, e, seen), r o m)

  after_first-OnFound :
      (scan : Scan)
      → OnFound (Each (Reports run sweep)) scan
      → OnFound
          (Each (IsFoundIn run job s))
          (after_first run now (record job { targets = s.targets }) s.egress scan)
  after_first-OnFound (inl e) h = tt
  after_first-OnFound (inr (alive, errs)) h =
      if-OnFound _ (is_host_discovery job.scan_type) _ _ (λ o m. first-IsFoundIn o.ip (h o m))
        (if-OnFound _ (is_empty alive) _ _ (Each-nil (IsFoundIn run job s))
          (second_stage-OnFound alive errs _ h refl))

  pub discover_set-IsFoundIn :
      OnFound (Each (IsFoundIn run job s)) (discover_set run now job s.targets s.egress)
  unfolding discover_set
  discover_set-IsFoundIn =
      after_first-OnFound (run_nmap run now sweep) (run_nmap-Reports run now sweep)
