-- ===== src/Orchestrator.antt =====
-- internal/scanner/orchestrator/orchestrator.go: what the app does with a job: `enqueue`, `dispatch`
-- and, in the files below, `recordDiscoveries` and `RunDueSchedules`. The call of the agent is the
-- argument `send`. A job's row is the job; its times, and the default that `CreateScanJob` has for
-- a timeout that the validation refuses, are left out.
pub mod AutoLink
pub mod Record
pub mod Enqueue
pub mod Headline
pub mod Schedules
pub mod Review
pub mod Trust
pub mod Lifecycle
pub mod Agents
pub mod Enrollment
pub mod Interleaving
pub mod Runs
use light_ipam.Base.{
  ℕ, zero, suc, Bool, true, false, not, List, [], ◌∷◌, Option, none, some, Text, codes, is_empty,
  same, if◌then◌else◌, ℤ,
}
use light_ipam.Protocol.{
  ScanJob, ScanError, ScanResult, AgentRegistration, JobStatus, succeeded, failed,
}
use light_ipam.Protocol.Validate
use light_ipam.Protocol.Validate.{JobError, Check, validate_job_for_agent}
use light_ipam.Budget.{scan_budget, dispatch_timeout}
use light_ipam.Combined.Notices.{scan_ignored}

-- `headlineError`.
unfoldable pub headline_error : List ScanError → Text
unfolding same
headline_error [] = []
headline_error (e ∷ errors) = if same e.code scan_ignored then headline_error errors else e.message

-- What a dispatch leaves in the job's row: `store.ScanJobResult`.
pub record JobResult : Type 0 where
  pub status : JobStatus
  pub error : Text

abbrev pub is_succeeded : JobStatus → Bool
is_succeeded succeeded = true
is_succeeded _ = false

-- `result.Status == ""`.
abbrev pub is_blank : JobStatus → Bool
is_blank (JobStatus.unknown t) = is_empty t
is_blank _ = false

abbrev pub not_configured : Text
not_configured = codes "scanner dispatch is not configured (set the app's mTLS client certificate)"

abbrev pub no_status : Text
no_status = codes "agent returned no status"

-- The row for what the agent returned.
unfoldable pub result_of : ScanResult → JobResult
unfolding headline_error
result_of result =
    if is_blank result.status
    then record { status = failed; error = no_status }
    else record { status = result.status; error = headline_error result.errors }

-- Whether the result's hosts go to the review queue.
unfoldable pub records : ScanResult → Bool
records result = if is_succeeded result.status then not (is_empty result.observations) else false

-- The result of the call: an error, or what the agent returned.
pub data Reply : Type 0 where
  refused : Text → Reply
  replied : ScanResult → Reply

-- `dispatch`, with the observations to record. `send` gets the timeout in nanoseconds; `none` is
-- the panic of `ScanBudget`. A dispatcher that is missing or disabled is `none`.
unfoldable pub dispatch :
    Option (ℕ → ScanJob → Reply) → ScanJob → Option (JobResult × Option ScanResult)
unfolding scan_budget dispatch_timeout result_of records
dispatch none job = some (record { status = failed; error = not_configured }, none)
dispatch (some send) job = elim (scan_budget job.timeout_seconds job.targets) [
  | none ↦ none
  | some budget ↦ elim (send (dispatch_timeout budget) job) [
    | refused message ↦ some (record { status = failed; error = message }, none)
    | replied result ↦ some (result_of result, if records result then some result else none)
  ]
]

-- The jobs that `enqueue` created, and what was audited for each, newest first.
pub record Jobs : Type 0 where
  pub rows : List ScanJob
  pub started : List Text

-- The row and the audit entry of a job that passed; `named` is the row's id.
abbrev pub created : Jobs → ScanJob → Text → Check → Validate.Result Jobs
created jobs job named (Validate.Result.err e) = Validate.Result.err e
created jobs job named (Validate.Result.ok u) =
    Validate.Result.ok
      record { rows = record job { id = named } ∷ jobs.rows; started = named ∷ jobs.started }

-- `enqueue`: the job is validated before its row exists.
unfoldable pub enqueue : Jobs → AgentRegistration → ScanJob → Text → Validate.Result Jobs
unfolding validate_job_for_agent
enqueue jobs agent job named =
    created jobs job named (validate_job_for_agent (record job { id = codes "preview" }) agent)
