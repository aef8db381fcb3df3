-- ===== src/Protocol/Scope.antt =====
-- The security boundary of internal/scanner/protocol.go: what an accepted job may reach.
use light_ipam.Base.{◌≤◌, true, List, Text, ◌≡◌, sym, arith, In, subst, same_iff, ◌↔◌}
use light_ipam.Netip.{Addr, Prefix, bit_len, contains}
use light_ipam.Protocol.{AgentRegistration, ScanJob, active}
use light_ipam.Protocol.Validate.{
  ok, ◌>>=◌, ◌>>◌, wrap, agent_allowlist, job_allowlist, parse_allowed_prefixes,
  validate_job_targets, validate_job, validate_cidrs, validate_agent_scope, validate_job_for_agent,
  >>=-eq-ok, >>-eq-ok, wrap-eq-ok,
}
use light_ipam.Protocol.Targets.{
  Denotes, Allows, parse_prefix-bits, parsed-In, parsed-Allows, masked-bits, within_any-contains,
  length-parsed, validate_cidrs-In, validate_job_targets-Allows,
}

validate_job-targets : (job : ScanJob) → validate_job job ≡ ok tt → validate_job_targets job ≡ ok tt
unfolding validate_job
validate_job-targets job h = ground arith

-- What an accepted job has been checked for, with the two allowlists parsed.
record Scoped (job : ScanJob) (agent_cidrs : List Text) : Type 0 where
  agent_prefixes : List Prefix
  job_prefixes : List Prefix
  agent_parsed : parse_allowed_prefixes agent_cidrs ≡ ok agent_prefixes
  job_parsed : parse_allowed_prefixes job.allowed_cidrs ≡ ok job_prefixes
  cidrs_within : validate_cidrs job_prefixes job.allowed_cidrs agent_prefixes ≡ ok tt
  targets_within : validate_job_targets job ≡ ok tt

validate_agent_scope-Scoped :
    (job : ScanJob) (agent_cidrs : List Text)
    → validate_agent_scope job agent_cidrs ≡ ok tt
    → Scoped job agent_cidrs
unfolding validate_agent_scope
validate_agent_scope-Scoped job agent_cidrs h =
    let (rs, er, h3) =
      >>=-eq-ok (wrap agent_allowlist (parse_allowed_prefixes agent_cidrs))
        (λ rs. wrap job_allowlist (parse_allowed_prefixes job.allowed_cidrs) >>= λ qs.
          validate_cidrs qs job.allowed_cidrs rs >> validate_job job)
        (ground arith) in
    let (qs, eq, h4) =
      >>=-eq-ok (wrap job_allowlist (parse_allowed_prefixes job.allowed_cidrs))
        (λ qs. validate_cidrs qs job.allowed_cidrs rs >> validate_job job) h3 in
    let (scoped, h5) = >>-eq-ok (validate_cidrs qs job.allowed_cidrs rs) (validate_job job) h4 in
    record {
      agent_prefixes = rs;
      job_prefixes = qs;
      agent_parsed = wrap-eq-ok agent_allowlist (parse_allowed_prefixes agent_cidrs) er;
      job_parsed = wrap-eq-ok job_allowlist (parse_allowed_prefixes job.allowed_cidrs) eq;
      cidrs_within = scoped;
      targets_within = validate_job-targets job h5;
    }

parsed-bits :
    (values : List Text) {ps : List Prefix} {p : Prefix}
    → parse_allowed_prefixes values ≡ ok ps
    → In p ps
    → p.bits ≤ bit_len p.addr
parsed-bits values {ps} {p} e m =
    let (value, _, mask) = parsed-In values e m in
    subst (λ (p : Prefix). p.bits ≤ bit_len p.addr) (sym mask.is_masked)
      (masked-bits mask.parsed (parse_prefix-bits value mask.reads))

-- An address in a prefix of the job's allowlist is in one of the agent's.
Scoped-contains :
    (job : ScanJob) (agent_cidrs : List Text) (s : Scoped job agent_cidrs) (q : Prefix) (a : Addr)
    → In q s.job_prefixes
    → contains q a ≡ true
    → Allows agent_cidrs a
Scoped-contains job agent_cidrs s q a m c =
    let inside =
      validate_cidrs-In s.job_prefixes job.allowed_cidrs s.agent_prefixes s.cidrs_within
        (length-parsed job.allowed_cidrs s.job_parsed) m in
    let (r, mr, cr) =
      within_any-contains q s.agent_prefixes a (parsed-bits job.allowed_cidrs s.job_parsed m) inside
        c in
    parsed-Allows agent_cidrs {p = r} a s.agent_parsed mr cr

-- A job that the agent accepts reaches only what the agent's allowlist allows: each address that
-- one of its targets denotes is in an entry of the job's allowlist and in one of the agent's.
pub validate_agent_scope-Allows :
    (job : ScanJob) (agent_cidrs : List Text) (target : Text) (a : Addr)
    → validate_agent_scope job agent_cidrs ≡ ok tt
    → In target job.targets
    → Denotes target a
    → Allows job.allowed_cidrs a × Allows agent_cidrs a
validate_agent_scope-Allows job agent_cidrs target a h m d =
    let s = validate_agent_scope-Scoped job agent_cidrs h in
    let (ps, q, ep, at, c) = validate_job_targets-Allows job a s.targets_within m d in
    (
      parsed-Allows job.allowed_cidrs {p = q} a ep at c,
      Scoped-contains job agent_cidrs s q a (subst (In q) (cc (ep, s.job_parsed)) at) c,
    )

-- The app dispatches a job exactly when the agent is active, the job is addressed to it, and the
-- agent-side check accepts the job under the registered allowlist.
pub validate_job_for_agent_iff :
    (job : ScanJob) (agent : AgentRegistration)
    → (validate_job_for_agent job agent ≡ ok tt) ↔ (
        (agent.status ≡ active)
        × (job.agent_id ≡ agent.id)
        × (validate_agent_scope job agent.allowed_cidrs ≡ ok tt))
unfolding validate_job_for_agent
validate_job_for_agent_iff job agent = (
  (λ h. ground (arith, same_iff job.agent_id agent.id)),
  λ (s, i, v). ground (arith, same_iff job.agent_id agent.id),
)
