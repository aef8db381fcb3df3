-- ===== src/Orchestrator/Schedules.antt =====
-- internal/scanner/orchestrator/orchestrator.go: `RunDueSchedules` and `runSchedule`, with the
-- statements of internal/store/scans.go that they use. One time stands for the moments that a tick
-- reads. What `run` later writes is in Orchestrator/Lifecycle.antt; left out are the log and the
-- names that only the pages show.
pub mod Waits
use mathlib.Core.Bool.{true≢false}
use light_ipam.Base.{
  ℕ, ◌+◌, Bool, true, false, not, ◌&&◌, List, [], ◌∷◌, Option, none, some, Text, codes, same,
  same_iff, leb, ◌≡◌, ◌≢◌, ◌⊎◌, inl, inr, refl, sym, ap, ◌∙◌, In, here, there, In-cons, not-In-nil,
  Bool-cases, All, if◌then◌else◌, ℤ, pos,
}
use light_ipam.Protocol.{ScanJob, ScanType, ScanMode, AgentRegistration}
use light_ipam.Protocol.Validate
use light_ipam.Protocol.Validate.{JobError}
use light_ipam.Window.{Clock, ScheduleWindow, window_allows, window_from_schedule}
use light_ipam.Orchestrator.{Jobs, enqueue}

-- `store.ScanSchedule`.
pub record Schedule : Type 0 where
  pub id : Text
  pub agent_id : Text
  pub scan_type : ScanType
  pub mode : ScanMode
  pub allowed_cidrs : List Text
  pub targets : List Text
  pub timeout_seconds : ℤ
  pub interval_seconds : ℕ
  pub enabled : Bool
  pub window : ScheduleWindow
  pub last_run_at : Option ℕ
  pub last_run_status : Text
  pub last_run_error : Text
  pub last_job_id : Text
  pub next_run_at : ℕ

pub record Board : Type 0 where
  pub schedules : List Schedule
  pub agents : List AgentRegistration
  pub jobs : Jobs

-- `ListDueScanSchedules`: the due schedules, the one that is due longest first.
unfoldable pub insert_due : Schedule → List Schedule → List Schedule
insert_due s [] = s ∷ []
insert_due s (t ∷ due) =
    let rest = insert_due s due in if leb s.next_run_at t.next_run_at then s ∷ t ∷ due else t ∷ rest

abbrev pub is_due : ℕ → Schedule → Bool
is_due now s = s.enabled && leb s.next_run_at now

unfoldable pub list_due : ℕ → List Schedule → List Schedule
unfolding insert_due
list_due now [] = []
list_due now (s ∷ rows) =
    let rest = list_due now rows in if is_due now s then insert_due s rest else rest

-- An UPDATE of the row of an id.
unfoldable pub update_schedule : (Schedule → Schedule) → Text → List Schedule → List Schedule
unfolding same
update_schedule change id [] = []
update_schedule change id (s ∷ rows) =
    (if same s.id id then change s else s) ∷ update_schedule change id rows

-- `MarkScanScheduleRan`.
unfoldable pub mark_ran : ℕ → Schedule → Schedule
mark_ran now s = record s { last_run_at = some now; next_run_at = now + s.interval_seconds }

-- `SetScanScheduleLastRun` of a rejection.
unfoldable pub reject : ℕ → Text → Schedule → Schedule
reject now message s = record s {
  last_run_at = some now;
  last_run_status = codes "rejected";
  last_run_error = message;
  last_job_id = [];
}

-- `GetScanAgent`.
unfoldable pub get_agent : Text → List AgentRegistration → Option AgentRegistration
unfolding same
get_agent id [] = none
get_agent id (a ∷ rows) = if same a.id id then some a else get_agent id rows

-- The job that a schedule asks for.
abbrev pub job_of : Schedule → ℕ → ScanJob
job_of s now = record {
  id = codes "preview";
  agent_id = s.agent_id;
  requested_by = [];
  scan_type = s.scan_type;
  mode = s.mode;
  allowed_cidrs = s.allowed_cidrs;
  targets = s.targets;
  ports = [];
  rate_limit = record { probes_per_second = pos 0; concurrency = pos 0 };
  timeout_seconds = s.timeout_seconds;
  created_at = now;
}

-- `name` gives the id of the new row and `message` the text of an error.
module _ (name : Jobs → Text) (message : JobError → Text) (now : ℕ) where
  abbrev pub enqueued : Board → Schedule → Validate.Result Jobs → Board
  enqueued b s (Validate.Result.ok jobs) = record b { jobs = jobs }
  enqueued b s (Validate.Result.err e) = record b {
    schedules = update_schedule (reject now (message e)) s.id b.schedules;
  }

  abbrev pub run_for : Board → Schedule → Option AgentRegistration → Board
  run_for b s none = b
  run_for b s (some agent) = enqueued b s (enqueue b.jobs agent (job_of s now) (name b.jobs))

  -- `runSchedule`.
  unfoldable pub run_schedule : Board → Schedule → Board
  unfolding update_schedule reject get_agent enqueue
  run_schedule b s = run_for b s (get_agent s.agent_id b.agents)

  -- The loop of `RunDueSchedules`; `allowed` is the test of the window.
  unfoldable pub run_each : (Schedule → Bool) → Board → List Schedule → Board
  unfolding run_schedule mark_ran update_schedule
  run_each allowed b [] = b
  run_each allowed b (s ∷ due) =
      let fired = run_schedule b s in
      let marked = record fired {
        schedules = update_schedule (mark_ran now) s.id fired.schedules;
      } in
      if not (allowed s) then run_each allowed b due else run_each allowed marked due

  unfoldable pub run_due_schedules :
      {Location : Type 0}
      → (Location → Clock → Clock)
      → Location
      → (Text → Option Location)
      → Clock
      → Board
      → Board
  unfolding run_each list_due window_allows window_from_schedule
  run_due_schedules relocate utc load clock b =
      run_each (λ s. window_allows relocate (window_from_schedule utc load s.window) clock) b
        (list_due now b.schedules)
