-- ===== src/Orchestrator/Enqueue.antt =====
-- `enqueue`: a job's row exists only for what the registered agent allows.
use light_ipam.Base.{◌∷◌, Text, codes, ◌≡◌, refl, In, sym, ap}
use light_ipam.Netip.{Addr}
use light_ipam.Protocol.{ScanJob, AgentRegistration, active}
use light_ipam.Protocol.Validate
use light_ipam.Protocol.Validate.{JobError, Check, validate_job_for_agent}
use light_ipam.Protocol.Targets.{Denotes, Allows}
use light_ipam.Protocol.Scope.{validate_agent_scope-Allows, validate_job_for_agent_iff}
use light_ipam.Orchestrator.{Jobs, created, enqueue}

row_of : {a b : Jobs} → Validate.Result.ok a ≡ Validate.Result.ok b → a ≡ b
row_of h = cc

created-eq-ok :
    (jobs : Jobs) (job : ScanJob) (named : Text) (c : Check) {after : Jobs}
    → created jobs job named c ≡ Validate.Result.ok after
    → (c ≡ Validate.Result.ok tt) × (after.rows ≡ record job { id = named } ∷ jobs.rows)
created-eq-ok jobs job named (Validate.Result.ok u) h = (refl, sym (ap Jobs.rows (row_of h)))
created-eq-ok jobs job named (Validate.Result.err e) h = cc

-- Where `enqueue` succeeds, it creates the one row of the job, the agent is active and is the one
-- that the job names, and each address that a target of the job denotes is in an entry of the
-- registered agent's allowlist and in one of the job's.
pub enqueue-Allows :
    (jobs : Jobs) (agent : AgentRegistration) (job : ScanJob) (named : Text) {after : Jobs}
    → enqueue jobs agent job named ≡ Validate.Result.ok after
    → (after.rows ≡ record job { id = named } ∷ jobs.rows)
      × (agent.status ≡ active)
      × (job.agent_id ≡ agent.id)
      × ((target : Text) (a : Addr)
          → In target job.targets
          → Denotes target a
          → Allows job.allowed_cidrs a × Allows agent.allowed_cidrs a)
unfolding enqueue
enqueue-Allows jobs agent job named h =
    let preview = record job { id = codes "preview" } in
    let (accepted, rows) = created-eq-ok jobs job named (validate_job_for_agent preview agent) h in
    let (is_on, named_agent, scope) = (validate_job_for_agent_iff preview agent).0 accepted in
    (
      rows,
      is_on,
      named_agent,
      λ target a m d. validate_agent_scope-Allows preview agent.allowed_cidrs target a scope m d,
    )
