-- ===== src/Examples/Ticks.antt =====
-- A tick of the scheduler at noon, with a schedule for the night.
use light_ipam.Base.{
  true, false, [], ◌∷◌, Option, none, some, Text, codes, pos, ◌≡◌, refl, sym, ◌∙◌, In, here,
  In-cons, not-In-nil, inl, inr,
}
use light_ipam.Protocol.{host_discovery, light_active}
use light_ipam.Protocol.Validate.{JobError}
use light_ipam.Window.{Clock, window_allows, window_from_schedule}
use light_ipam.Orchestrator.{Jobs}
use light_ipam.Orchestrator.Schedules.{Schedule, Board, run_due_schedules}
use light_ipam.Orchestrator.Schedules.Waits.{OneRow, run_due_schedules-In}
use light_ipam.Examples.{agent, job}

-- From 22:00 to 06:00, due since time 10.
abbrev nightly : Schedule
nightly = record {
  id = codes "s1";
  agent_id = agent.id;
  scan_type = host_discovery;
  mode = light_active;
  allowed_cidrs = job.allowed_cidrs;
  targets = job.targets;
  timeout_seconds = pos 60;
  interval_seconds = 3600;
  enabled = true;
  window = record {
    window_start_min = some (pos 1320);
    window_end_min = some (pos 360);
    window_days = [];
    window_tz = codes "UTC";
  };
  last_run_at = none;
  last_run_status = [];
  last_run_error = [];
  last_job_id = [];
  next_run_at = 10;
}

abbrev board : Board
board = record {
  schedules = nightly ∷ [];
  agents = agent ∷ [];
  jobs = record { rows = []; started = [] };
}

abbrev name : Jobs → Text
name jobs = codes "j1"

abbrev message : JobError → Text
message e = codes "rejected"

abbrev load : Text → Option Text
load zone = none

abbrev relocate : Text → Clock → Clock
relocate zone now = now

abbrev noon : Clock
noon = record { weekday = 1; hour = 12; minute = 0 }

only : (s : Schedule) → In s (nightly ∷ []) → s ≡ nightly
only s i = elim (In-cons i) [ inl e ↦ e | inr later ↦ absurd (not-In-nil later) ]

board-OneRow : OneRow board.schedules
board-OneRow s t i j same_id = only s i ∙ sym (only t j)

noon-outside :
    window_allows relocate (window_from_schedule (codes "UTC") load nightly.window) noon ≡ false
unfolding window_allows window_from_schedule
noon-outside = refl

run_due_schedules-In_example :
    In nightly (run_due_schedules name message 20 relocate (codes "UTC") load noon board).schedules
run_due_schedules-In_example =
    run_due_schedules-In name message 20 relocate (codes "UTC") load noon board nightly board-OneRow
      here noon-outside
