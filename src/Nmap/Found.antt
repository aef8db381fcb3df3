-- ===== src/Nmap/Found.antt =====
-- internal/scanner/agent/nmap.go: the addresses in the result of `Discover`.
use light_ipam.Base.{
  ℕ, List, [], ◌∷◌, inl, inr, Text, map, is_empty, ◌≡◌, ◌≢◌, sym, subst, ◌∙◌, In, here, there,
  In-cons, In-map-intro, In-map-elim, not-In-nil,
}
use light_ipam.Protocol.{ScanJob, Observation, ScanError}
use light_ipam.Names.Lookup.{is_passive}
use light_ipam.Combined.Merge.{merge_observations}
use light_ipam.Combined.Hosts.{IsHostList, map_ip-merge_observations, union_hosts_lem}
use light_ipam.Nmap.{EgressOptions, EgressSet, plan_egress}
use light_ipam.Nmap.Discover.{CommandRunner, Scan, in_order, discover_sets, merged, discover}
use light_ipam.Nmap.Stages.{
  OnFound, Each, if-OnFound, Each-append, Each-nil, IsFoundIn, discover_set-IsFoundIn,
}

-- Some stage for some set reports the address.
abbrev pub IsFound : CommandRunner → ScanJob → List EgressSet → Text → Type 0
IsFound run job sets ip = (s : EgressSet) × In s sets × IsFoundIn run job s ip

in_order-OnFound :
    (P : Text → Type 0) (egress : EgressOptions) (s : EgressSet) (scan others : Scan)
    → OnFound (Each P) scan
    → OnFound (Each P) others
    → OnFound (Each P) (in_order egress s scan others)
in_order-OnFound P egress s (inl e) others h h' = tt
in_order-OnFound P egress s (inr (obs, errs)) (inl e) h h' = tt
in_order-OnFound P egress s (inr (obs, errs)) (inr (rest, more)) h h' = Each-append P obs rest h h'

Each-OnFound :
    (P Q : Text → Type 0)
    → ((ip : Text) → P ip → Q ip)
    → (scan : Scan) → OnFound (Each P) scan
    → OnFound (Each Q) scan
Each-OnFound P Q f (inl e) h = tt
Each-OnFound P Q f (inr (found, errs)) h = λ o m. f o.ip (h o m)

discover_sets-IsFound :
    (run : CommandRunner) (now : ℕ) (job : ScanJob) (egress : EgressOptions) (sets : List EgressSet)
    → OnFound (Each (IsFound run job sets)) (discover_sets run now job egress sets)
unfolding discover_sets
discover_sets-IsFound run now job egress [] = Each-nil (IsFound run job [])
discover_sets-IsFound run now job egress (s ∷ sets) =
    in_order-OnFound (IsFound run job (s ∷ sets)) egress s _ _
      (Each-OnFound (IsFoundIn run job s) _ (λ ip f. (s, here, f)) _
        (discover_set-IsFoundIn run now job s))
      (Each-OnFound (IsFound run job sets) _ (λ ip (x, m, f). (x, there m, f)) _
        (discover_sets-IsFound run now job egress sets))

IsHostList-not_blank : (hs : List Text) (h : Text) → IsHostList hs → In h hs → h ≢ []
IsHostList-not_blank [] h d m = absurd (not-In-nil m)
IsHostList-not_blank (x ∷ hs) h (n, f, d) m = elim (In-cons m) [
  | inl q ↦ λ e. n (sym q ∙ e)
  | inr later ↦ IsHostList-not_blank hs h d later
]

-- The addresses of the result, each once and none blank.
abbrev pub IsResult : (Text → Type 0) → List Observation → Type 0
IsResult P found = IsHostList (map Observation.ip found) × Each P found

merge_observations-IsResult :
    (P : Text → Type 0) (found : List Observation)
    → Each P found
    → IsResult P (merge_observations found)
merge_observations-IsResult P found h =
    let (e, unique) = map_ip-merge_observations found in
    let ips = map Observation.ip found in
    (
      unique,
      λ o m.
          let listed : In o.ip (map Observation.ip (merge_observations found)) =
            In-map-intro Observation.ip m in
          let full = IsHostList-not_blank _ o.ip unique listed in
          elim (((union_hosts_lem ips []).1 o.ip full).0 (subst (In o.ip) e listed)) [
            | inr nowhere ↦ absurd (not-In-nil nowhere)
            | inl m' ↦
                let (x, mx, q) = In-map-elim Observation.ip o.ip found m' in subst P q (h x mx)
          ],
    )

merged-IsResult :
    (P : Text → Type 0) (notices : List ScanError) (scan : Scan)
    → OnFound (Each P) scan
    → OnFound (IsResult P) (merged notices scan)
merged-IsResult P notices (inl e) h = tt
merged-IsResult P notices (inr (found, errs)) h = merge_observations-IsResult P found h

-- When a scan gives a result, no two of its observations have the same address, none has a blank one,
-- and each is the IPv4 address of a host that is up, or has no status, in the output of a run: the
-- first stage's over the targets of a set of the plan, or the second stage's for such a set over
-- addresses all of which the first stage of that set reported as up.
pub discover-IsResult :
    (run : CommandRunner) (now : ℕ) (egress : EgressOptions) (job : ScanJob)
    (found : List Observation) (errs : List ScanError)
    → discover run now egress job ≡ inr (found, errs)
    → IsResult (IsFound run job (plan_egress egress job.targets).sets) found
unfolding discover
discover-IsResult run now egress job found errs h =
    let P = IsFound run job (plan_egress egress job.targets).sets in
    subst (OnFound (IsResult P)) h (
      if-OnFound (IsResult P) (is_passive job.mode) _ _ (tt, Each-nil P)
        (if-OnFound (IsResult P) (is_empty job.targets) _ _ tt
          (merged-IsResult P _ _ (discover_sets-IsFound run now job egress _))))
