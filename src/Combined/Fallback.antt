-- ===== src/Combined/Fallback.antt =====
-- What the combined scan promises (internal/scanner/agent/combined.go): nmap is the core, and
-- leads; every other source is best effort.
use light_ipam.Base.{
  ℕ, Bool, List, [], ◌∷◌, ◌++◌, Text, codes, Option, none, some, ◌≡◌, ◌≢◌, refl, sym, ap, ◌∙◌, same,
  In, map, inl, inr, Bool-cases, In-append_left, map-append,
}
use light_ipam.Protocol.{ScanJob, Observation, ScanError, snmp_inventory, name_lookup, dns_lookup}
use light_ipam.Combined.Merge.{merge_observations, or_text}
use light_ipam.Combined.MergeLaws.{find_ip, first_text, merge_observations-IsMergeOf, or_text_assoc}
use light_ipam.Combined.Hosts.{merged_has}
use light_ipam.Combined.Pipeline.{
  Outcome, Sources, done, nmap_job, after_nmap, discover, enrich_host, run_pass, enrich,
  per_host_targets, sub_job, snmp_passes, Found, pass_result, ◌and_then◌,
}

first_text-append :
    (f : Observation → Text) (ip : Text) (xs ys : List Observation)
    → first_text f ip (xs ++ ys) ≡ or_text (first_text f ip xs) (first_text f ip ys)
first_text-append f ip [] ys = refl
first_text-append f ip (x ∷ xs) ys = elim (Bool-cases (same x.ip ip)) [
  | inl e ↦ rw e (
      ap (or_text (f x)) (first_text-append f ip xs ys)
      ∙ sym (or_text_assoc (f x) (first_text f ip xs) (first_text f ip ys)))
  | inr e ↦ rw e (first_text-append f ip xs ys)
]

or_text-left : (s t : Text) → s ≢ [] → or_text s t ≡ s
or_text-left [] t h = absurd (h refl)
or_text-left (c ∷ s) t h = refl

-- A scan that is done returns nmap's observations merged with those of the other passes.
after_nmap-done :
    (c : Sources) (alive : ℕ → Bool) (job : ScanJob) (r : Outcome) (o : Option Text)
    {observations : List Observation} {errors : List ScanError}
    → after_nmap c alive job r o ≡ done observations errors
    → observations
      ≡ merge_observations
          (r.observations ++ (enrich c alive job (per_host_targets job r.observations)).0)
unfolding after_nmap
after_nmap-done c alive job r none h = cc
after_nmap-done c alive job r (some m) h = cc

-- nmap leads, and no host of nmap's is lost: a host that nmap observed has a record, and where
-- nmap names the host, the record has nmap's name for it.
pub discover-nmap_leads :
    (c : Sources) (alive : ℕ → Bool) (job : ScanJob) (ip : Text) {observations : List Observation}
    {errors : List ScanError}
    → ip ≢ []
    → discover c alive job ≡ done observations errors
    → In ip (map Observation.ip (c.nmap (nmap_job job)).observations)
    → In ip (map Observation.ip observations)
      × ((r : Observation)
          → find_ip ip observations ≡ some r
          → first_text Observation.hostname ip (c.nmap (nmap_job job)).observations ≢ []
          → r.hostname ≡ first_text Observation.hostname ip (c.nmap (nmap_job job)).observations)
unfolding discover
discover-nmap_leads c alive job ip {observations} n h seen =
    let r0 = c.nmap (nmap_job job) in
    let more = (enrich c alive job (per_host_targets job r0.observations)).0 in
    let merged : observations ≡ merge_observations (r0.observations ++ more) =
      after_nmap-done c alive job r0 r0.failure h in
    (
      rw merged (
          merged_has ip (r0.observations ++ more) n
            (rw map-append (In-append_left (map Observation.ip more) seen))),
      λ r found named.
          (merge_observations-IsMergeOf ip (r0.observations ++ more) n
            (rw merged at found)).hostname_first
          ∙ first_text-append Observation.hostname ip r0.observations more
          ∙ or_text-left _ (first_text Observation.hostname ip more) named,
    )

snmp_passes-nil :
    (c c' : Sources) (job : ScanJob) (host : Text) {inv : List Observation}
    → inv ≡ []
    → snmp_passes c' job host inv ≡ snmp_passes c job host inv
unfolding snmp_passes
snmp_passes-nil c c' job host e = rw e

-- A host that does not answer the SNMP inventory is asked nothing more over SNMP: what else the
-- SNMP backend would return does not show in the findings.
pub enrich_host-quiet_snmp :
    (c : Sources) (job : ScanJob) (host : Text) (snmp : ScanJob → Outcome)
    → snmp (sub_job job (host ∷ []) snmp_inventory)
      ≡ c.snmp (sub_job job (host ∷ []) snmp_inventory)
    → (run_pass c.snmp job (host ∷ []) snmp_inventory (codes "SNMP inventory")).0 ≡ []
    → enrich_host (record c { snmp = snmp }) job host ≡ enrich_host c job host
unfolding enrich_host
enrich_host-quiet_snmp c job host snmp alike quiet =
    let label = codes "SNMP inventory" in
    let rest : Found =
      run_pass c.names job (host ∷ []) name_lookup (codes "name lookup")
      and_then run_pass c.dns job (host ∷ []) dns_lookup (codes "DNS lookup") in
    ap
      (λ (r : Outcome).
        let inv : Found = pass_result label r r.failure in
        inv and_then snmp_passes (record c { snmp = snmp }) job host inv.0 and_then rest)
      alike
    ∙ ap
        (λ (more : Found).
          run_pass c.snmp job (host ∷ []) snmp_inventory label and_then more and_then rest)
        (snmp_passes-nil c (record c { snmp = snmp }) job host quiet)
