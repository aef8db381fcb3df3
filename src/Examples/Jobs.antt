-- ===== src/Examples/Jobs.antt =====
-- Two jobs that run at the same time, and the discovery of an agent.
use light_ipam.Base.{
  inl, inr, zero, suc, ℕ, Bool, true, false, List, [], ◌∷◌, Option, none, some, Text, codes, map,
  ◌≡◌, refl, here, there, any, same,
}
use light_ipam.Combined.Hosts.{IsHostList}
use light_ipam.Orchestrator.Agents.{ScanAgent, registered, discover_agent}
use light_ipam.Orchestrator.Enrollment.{Grants, discover_agent-Grants}
use light_ipam.Examples.{agent}
use light_ipam.Protocol.{AgentRegistration, queued, running, failed}
use light_ipam.Orchestrator.Lifecycle.{
  JobRow, Statement, Tables, Run, run, execute_all, update_scan_job_result, begun, ended, audit,
}
use light_ipam.Orchestrator.Interleaving.{Interleaving, first, later, all_done, next, find_row}
use light_ipam.Orchestrator.Runs.{outcome_of, execute_all-outcome}

abbrev job_run : Text → (ℕ → Bool) → Run
job_run id stored = record {
  id = id;
  agent_id = codes "a1";
  schedule_id = [];
  stored = stored;
  time = λ n. n;
  answer = record { status = failed; error = codes "no route" };
}

-- The last update of the second job is lost.
abbrev one : Run
one = job_run (codes "j1") (λ n. true)

abbrev but_last : ℕ → Bool
but_last (suc (suc zero)) = false
but_last n = true

abbrev two : Run
two = job_run (codes "j2") but_last

abbrev row_of : Text → JobRow
row_of id = record {
  id = id;
  agent_id = codes "a1";
  schedule_id = [];
  status = queued;
  error = [];
  started_at = none;
  finished_at = none;
}

abbrev start : Tables
start = record {
  rows = row_of (codes "j1") ∷ row_of (codes "j2") ∷ [];
  schedules = [];
  agents = [];
  audits = [];
}

abbrev mixed : List Statement
mixed =
    update_scan_job_result (codes "j1") (begun one)
    ∷ update_scan_job_result (codes "j2") (begun two)
    ∷ audit (codes "scan.job.failed") (codes "j2") failed
    ∷ update_scan_job_result (codes "j1") (ended one)
    ∷ audit (codes "scan.job.failed") (codes "j1") failed
    ∷ []

mixed-Interleaving : Interleaving (map run (one ∷ two ∷ [])) mixed
unfolding run
mixed-Interleaving = next first (
    next (later first) (next (later first) (next first (next first (all_done (refl, (refl, tt)))))))

ids : IsHostList (codes "j1" ∷ codes "j2" ∷ [])
unfolding any same
ids = ((λ e. cc), refl, ((λ e. cc), refl, tt))

execute_all-outcome_example :
    find_row (codes "j2") (execute_all mixed start).rows
    ≡ some (record (row_of (codes "j2")) { status = running; started_at = some 0 })
unfolding find_row light_ipam.Orchestrator.Runs.outcome
execute_all-outcome_example =
    execute_all-outcome (one ∷ two ∷ []) mixed start ids mixed-Interleaving two (there here)

abbrev printer : ScanAgent
printer = record {
  id = codes "a9";
  name = codes "edge";
  site_id = none;
  endpoint_url = codes "https://e";
  certificate_subject = [];
  allowed_cidrs = codes "10.0.0.0/8" ∷ [];
  status = codes "pending";
  auto_import = false;
  version = [];
  last_seen_at = none;
}

found_agent :
    discover_agent (codes "a9") (codes "https://e") (registered agent) []
    ≡ inr (printer ∷ [], printer, true)
unfolding discover_agent light_ipam.Base.is_space
found_agent = refl

discover_agent-Grants_example :
    Grants (codes "https://e") [] (printer ∷ [], printer, true)
    × ((id' : Text) (reg : AgentRegistration)
        → discover_agent id' (codes "https://e") (registered reg) (printer ∷ [])
          ≡ inr (printer ∷ [], printer, false))
discover_agent-Grants_example =
    discover_agent-Grants (codes "a9") (codes "https://e") (registered agent) []
      (printer ∷ [], printer, true) found_agent
