-- ===== src/Orchestrator/Record.antt =====
-- internal/scanner/orchestrator/orchestrator.go: `recordDiscoveries`, `maybeAutoImport`,
-- `syncImported`. The log is left out.
use light_ipam.Base.{
  ℕ, suc, Bool, true, false, not, ◌||◌, List, [], ◌∷◌, Option, none, some, Text, is_empty,
  trim_space, if◌then◌else◌,
}
use light_ipam.Protocol.{Observation}
use light_ipam.Inventory
use light_ipam.Inventory.{Postgres, ReviewStatus, pending, ReconcileStatus, conflict, Discovery, Db}
use light_ipam.Inventory.Queue.{
  DiscoveryInput, DiscoveryUpsert, upsert_discovery, is_imported, discovery_by_id,
}
use light_ipam.Orchestrator.AutoLink.{auto_link_by_serial}
use light_ipam.Inventory.Import.{import_discovery, sync_imported_discovery}

abbrev pub is_pending : ReviewStatus → Bool
is_pending pending = true
is_pending _ = false

abbrev pub is_conflict : ReconcileStatus → Bool
is_conflict conflict = true
is_conflict _ = false

-- What became of one observation, and the counts that are audited.
pub data Recorded : Type 0 where
  skipped queued_only auto_imported synced : Recorded

pub record Tally : Type 0 where
  pub recorded : ℕ
  pub imported : ℕ
  pub synced : ℕ

unfoldable pub count : Tally → Recorded → Tally
count t skipped = t
count t queued_only = record t { recorded = suc t.recorded }
count t auto_imported = record t { recorded = suc t.recorded; imported = suc t.imported }
count t synced = record t { recorded = suc t.recorded; synced = suc t.synced }

-- The input that an observation becomes; `servicesFromObservation` copies each field.
unfoldable pub input_of : Text → Text → Observation → DiscoveryInput
input_of job agent obs = record {
  job_id = job;
  agent_id = agent;
  ip = obs.ip;
  mac = obs.mac;
  vendor = obs.vendor;
  hostname = obs.hostname;
  os_family = obs.os_family;
  os_detail = obs.os_detail;
  hw_serial = obs.hw_serial;
  hw_object_id = obs.hw_object_id;
  vlan = obs.vlan;
  services = obs.services;
}

-- The device that the row of a discovery was imported into.
abbrev pub device_of : Option Discovery → Option ℕ
device_of none = none
device_of (some d) = d.imported_device_id

-- The database after an import or a sync with the automatic link that follows it, and whether it
-- happened; an error is logged.
abbrev pub import_landed : Postgres → ℕ → Db → Inventory.Result Db → Db × Bool
unfolding auto_link_by_serial discovery_by_id
import_landed pg id db (Inventory.Result.err e) = (db, false)
import_landed pg id db (Inventory.Result.ok after) =
    (auto_link_by_serial pg after (device_of (discovery_by_id id after.discoveries)), true)

abbrev pub sync_landed : Postgres → Db → Inventory.Result (Db × Option ℕ) → Db × Bool
unfolding auto_link_by_serial
sync_landed pg db (Inventory.Result.err e) = (db, false)
sync_landed pg db (Inventory.Result.ok after) = (auto_link_by_serial pg after.0 after.1, true)

-- `agents` gives the names of the agents, `trusted` is the agent's `auto_import`.
module _ (pg : Postgres) (agents : Text → Text) (job agent : Text) (trusted : Bool) (now : ℕ) where
  unfoldable pub maybe_auto_import : Db → DiscoveryUpsert → Db × Bool
  unfolding import_discovery auto_link_by_serial discovery_by_id
  maybe_auto_import db up =
      if not trusted || not (is_pending up.review_status) || is_conflict up.reconcile_status
      then (db, false)
      else import_landed pg up.id db (import_discovery pg agents db up.id [] now)

  unfoldable pub sync_imported : Db → DiscoveryUpsert → Db × Bool
  unfolding sync_imported_discovery auto_link_by_serial
  sync_imported db up =
      if not (is_imported up.review_status) || is_conflict up.reconcile_status
      then (db, false)
      else sync_landed pg db (sync_imported_discovery pg agents db up.id)

  -- The `switch` of the loop.
  unfoldable pub follow_up : Db → DiscoveryUpsert → Db × Recorded
  unfolding maybe_auto_import sync_imported
  follow_up db up =
      let import = maybe_auto_import db up in
      let sync = sync_imported import.0 up in
      if import.1
      then (import.0, auto_imported)
      else if sync.1
      then (sync.0, synced)
      else (sync.0, queued_only)

  abbrev pub followed : Db → Inventory.Result (Db × DiscoveryUpsert) → Db × Recorded
  unfolding follow_up
  followed db (Inventory.Result.err e) = (db, skipped)
  followed db (Inventory.Result.ok out) = follow_up out.0 out.1

  -- One turn of the loop.
  unfoldable pub record_observation : Db → Observation → Db × Recorded
  unfolding trim_space upsert_discovery input_of follow_up
  record_observation db obs =
      if is_empty (trim_space obs.ip)
      then (db, skipped)
      else followed db (upsert_discovery pg db (input_of job agent obs) now)

  -- `recordDiscoveries`.
  unfoldable pub record_from : Db → Tally → List Observation → Db × Tally
  unfolding record_observation count
  record_from db tally [] = (db, tally)
  record_from db tally (obs ∷ observations) =
      let one = record_observation db obs in record_from one.0 (count tally one.1) observations

  unfoldable pub record_discoveries : Db → List Observation → Db × Tally
  unfolding record_from
  record_discoveries db observations =
      record_from db (record { recorded = 0; imported = 0; synced = 0 }) observations
