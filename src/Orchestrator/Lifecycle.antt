-- ===== src/Orchestrator/Lifecycle.antt =====
-- internal/scanner/orchestrator/orchestrator.go: `run`, the goroutine of a job, as the statements that
-- it sends to the database, with the statements of internal/store/scans.go. A statement that fails is
-- logged and skipped: `stored n` says whether the n-th one reached the database. What `dispatch`
-- returned is given, and so are the times.
use light_ipam.Base.{
  ℕ, Bool, true, false, List, [], ◌∷◌, Option, none, some, Text, codes, is_empty, same,
  if◌then◌else◌,
}
use light_ipam.Protocol.{
  AgentRegistration, JobStatus, queued, running, succeeded, failed, cancelled, rejected,
}
use light_ipam.Orchestrator.{JobResult, is_succeeded}
use light_ipam.Orchestrator.Schedules.{Schedule, update_schedule}

-- The columns of `scan_jobs` that change, and its keys.
pub record JobRow : Type 0 where
  pub id : Text
  pub agent_id : Text
  pub schedule_id : Text
  pub status : JobStatus
  pub error : Text
  pub started_at : Option ℕ
  pub finished_at : Option ℕ

-- `store.ScanJobResult`; the encoded result is left out.
pub record ScanJobResult : Type 0 where
  pub status : JobStatus
  pub error : Text
  pub started_at : Option ℕ
  pub finished_at : Option ℕ

pub data Statement : Type 0 where
  update_scan_job_result : Text → ScanJobResult → Statement
  set_scan_schedule_last_run : Text → Text → Text → Text → ℕ → Statement
  touch_scan_agent : Text → Text → ℕ → Statement
  audit : Text → Text → JobStatus → Statement

pub record Tables : Type 0 where
  pub rows : List JobRow
  pub schedules : List Schedule
  pub agents : List AgentRegistration
  pub audits : List (Text × Text × JobStatus)

abbrev or_kept : Option ℕ → Option ℕ → Option ℕ
or_kept none kept = kept
or_kept (some t) kept = some t

-- `UpdateScanJobResult`, on its row.
unfoldable pub apply_result : ScanJobResult → JobRow → JobRow
apply_result r row = record row {
  status = r.status;
  error = r.error;
  started_at = or_kept r.started_at row.started_at;
  finished_at = r.finished_at;
}

unfoldable pub update_rows : Text → ScanJobResult → List JobRow → List JobRow
unfolding same apply_result
update_rows id r [] = []
update_rows id r (row ∷ rows) =
    (if same row.id id then apply_result r row else row) ∷ update_rows id r rows

-- `SetScanScheduleLastRun`, on its row.
unfoldable pub last_run : Text → Text → Text → ℕ → Schedule → Schedule
last_run status error job_id now s = record s {
  last_run_at = some now;
  last_run_status = status;
  last_run_error = error;
  last_job_id = job_id;
}

-- `TouchScanAgent`, on its row.
unfoldable pub touch : Text → ℕ → AgentRegistration → AgentRegistration
touch version now a = record a {
  last_seen_at = some now;
  version = if is_empty version then a.version else version;
}

unfoldable pub touch_agents : Text → Text → ℕ → List AgentRegistration → List AgentRegistration
unfolding same touch
touch_agents id version now [] = []
touch_agents id version now (a ∷ agents) =
    (if same a.id id then touch version now a else a) ∷ touch_agents id version now agents

unfoldable pub execute : Statement → Tables → Tables
unfolding update_rows update_schedule last_run touch_agents
execute (update_scan_job_result id r) t = record t { rows = update_rows id r t.rows }
execute (set_scan_schedule_last_run id status error job_id now) t = record t {
  schedules = update_schedule (last_run status error job_id now) id t.schedules;
}
execute (touch_scan_agent id version now) t = record t {
  agents = touch_agents id version now t.agents;
}
execute (audit action id status) t = record t { audits = (action, id, status) ∷ t.audits }

unfoldable pub execute_all : List Statement → Tables → Tables
unfolding execute
execute_all [] t = t
execute_all (s ∷ statements) t = execute_all statements (execute s t)

-- The text of a status.
abbrev pub status_text : JobStatus → Text
status_text queued = codes "queued"
status_text running = codes "running"
status_text succeeded = codes "succeeded"
status_text failed = codes "failed"
status_text cancelled = codes "cancelled"
status_text rejected = codes "rejected"
status_text (JobStatus.unknown t) = t

-- A job that is run: its keys, which statements are stored, the times, and what `dispatch` returned.
pub record Run : Type 0 where
  pub id : Text
  pub agent_id : Text
  pub schedule_id : Text
  pub stored : ℕ → Bool
  pub time : ℕ → ℕ
  pub answer : JobResult

abbrev pub kept : Bool → Statement → List Statement → List Statement
kept true s later = s ∷ later
kept false s later = later

-- `recordScheduleRun`.
unfoldable pub record_schedule_run : Run → ℕ → Text → Text → List Statement → List Statement
record_schedule_run r n status error later =
    if is_empty r.schedule_id
    then later
    else kept (r.stored n) (set_scan_schedule_last_run r.schedule_id status error r.id (r.time n))
        later

abbrev pub begun : Run → ScanJobResult
begun r = record { status = running; error = []; started_at = some (r.time 0); finished_at = none }

abbrev pub ended : Run → ScanJobResult
ended r = record {
  status = r.answer.status;
  error = r.answer.error;
  started_at = some (r.time 0);
  finished_at = some (r.time 2);
}

-- The end of `run`: the agent was seen, where the job succeeded, and the audit entry.
unfoldable pub close_run : Run → List Statement
close_run r =
    if is_succeeded r.answer.status
    then kept (r.stored 4) (touch_scan_agent r.agent_id [] (r.time 4))
        (kept (r.stored 5) (audit (codes "scan.job.completed") r.id r.answer.status) [])
    else kept (r.stored 5) (audit (codes "scan.job.failed") r.id r.answer.status) []

-- `run`.
unfoldable pub run : Run → List Statement
unfolding record_schedule_run close_run
run r = kept (r.stored 0) (update_scan_job_result r.id (begun r)) (
    record_schedule_run r 1 (codes "running") [] (
      kept (r.stored 2) (update_scan_job_result r.id (ended r))
        (record_schedule_run r 3 (status_text r.answer.status) r.answer.error (close_run r))))
