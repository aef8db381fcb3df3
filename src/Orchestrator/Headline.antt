-- ===== src/Orchestrator/Headline.antt =====
-- The headline error of a job and the notices of a combined scan.
use light_ipam.Base.{
  ℕ, Bool, true, List, [], ◌∷◌, ◌++◌, Option, none, some, Text, ◌≡◌, inl, inr, refl, ap, All, same,
  same_refl, Bool-cases,
}
use light_ipam.Protocol.{ScanError, ScanJob, Observation}
use light_ipam.Combined.Notices.{Collector, notices, whole_notices, target_notices, scan_ignored}
use light_ipam.Combined.Pipeline.{
  Sources, Outcome, Scan, failed, done, nmap_job, enrich, per_host_targets, after_nmap, discover,
}
use light_ipam.Orchestrator.{headline_error}

abbrev pub Ignored : ScanError → Type 0
Ignored e = same e.code scan_ignored ≡ true

All-append {ℓ κ} :
    {A : Type ℓ} (P : A → Type κ) (xs ys : List A) → All P xs → All P ys → All P (xs ++ ys)
All-append P [] ys h k = k
All-append P (x ∷ xs) ys (p, h) k = (p, All-append P xs ys h k)

whole_notices-Ignored : (m : List (Text × Text)) → All Ignored (whole_notices m)
unfolding whole_notices
whole_notices-Ignored [] = tt
whole_notices-Ignored ((k, label) ∷ m) = (same_refl scan_ignored, whole_notices-Ignored m)

target_notices-Ignored : (m : List (Text × ℕ)) → All Ignored (target_notices m)
unfolding target_notices
target_notices-Ignored [] = tt
target_notices-Ignored ((label, n) ∷ m) = (same_refl scan_ignored, target_notices-Ignored m)

notices-Ignored : (c : Collector) → All Ignored (notices c)
unfolding notices
notices-Ignored c =
    All-append Ignored (whole_notices c.whole_pass) (target_notices c.per_target)
      (whole_notices-Ignored c.whole_pass) (target_notices-Ignored c.per_target)

headline_error-Ignored : (es : List ScanError) → All Ignored es → headline_error es ≡ []
unfolding headline_error
headline_error-Ignored [] h = refl
headline_error-Ignored (e ∷ es) (i, h) = rw i (headline_error-Ignored es h)

headline_error-append :
    (es fs : List ScanError) → All Ignored fs → headline_error (es ++ fs) ≡ headline_error es
unfolding headline_error
headline_error-append [] fs h = headline_error-Ignored fs h
headline_error-append (e ∷ es) fs h = elim (Bool-cases (same e.code scan_ignored)) [
  | inl i ↦ rw i (headline_error-append es fs h)
  | inr real ↦ rw real refl
]

enrich-Ignored :
    (c : Sources) (alive : ℕ → Bool) (job : ScanJob) (hosts : List Text)
    → All Ignored (enrich c alive job hosts).1
unfolding enrich
enrich-Ignored c alive job hosts = notices-Ignored _

abbrev errors_of : Scan → List ScanError
errors_of (failed message) = []
errors_of (done observations errors) = errors

after_nmap-headline :
    (c : Sources) (alive : ℕ → Bool) (job : ScanJob) (r : Outcome) (o : Option Text)
    {observations : List Observation} {errors : List ScanError}
    → after_nmap c alive job r o ≡ done observations errors
    → headline_error errors ≡ headline_error r.errors
unfolding after_nmap
after_nmap-headline c alive job r none h =
    let more = enrich c alive job (per_host_targets job r.observations) in
    rw⁻¹ (ap errors_of h) (
      headline_error-append r.errors more.1
        (enrich-Ignored c alive job (per_host_targets job r.observations)))
after_nmap-headline c alive job r (some m) h = absurd cc

-- Where a combined scan ends, the job's headline error is the one of nmap's own errors: what SNMP,
-- the name lookups, DNS and DHCP could not do is never shown as the job's failure.
pub headline_error-discover :
    (c : Sources) (alive : ℕ → Bool) (job : ScanJob) {observations : List Observation}
    {errors : List ScanError}
    → discover c alive job ≡ done observations errors
    → headline_error errors ≡ headline_error (c.nmap (nmap_job job)).errors
unfolding discover
headline_error-discover c alive job h =
    after_nmap-headline c alive job (c.nmap (nmap_job job)) ((c.nmap (nmap_job job)).failure) h
