-- ===== src/Examples.antt =====
-- Runs of the theorems on small inputs: an agent for 10.0.0.0/8, a job for 10.1.0.0/16 and a
-- database with one subnet and one discovered host.
mod Scans
mod Records
mod Numbers
mod Ticks
mod Packets
mod Leases
mod Hardware
mod Jobs
mod Sweeps
use light_ipam.Base.{ℕ, List, [], ◌∷◌, Option, none, some, Text, codes, ℤ, pos}
use light_ipam.Netip.{Addr, v4, Prefix}
use light_ipam.Netip.Parse.{parse_addr}
use light_ipam.Protocol.{
  AgentRegistration, AgentStatus, active, ScanJob, ScanType, ScanMode, host_discovery, light_active,
  Observation,
}
use light_ipam.Links.{text_less}
use light_ipam.Inventory.{
  Postgres, Subnet, Db, Discovery, ReviewStatus, ReconcileStatus, ConflictNote, pending, dismissed,
  new, no_note,
}

abbrev pub agent : AgentRegistration
agent = record {
  id = codes "a1";
  name = codes "edge";
  site_id = [];
  version = [];
  certificate_subject = [];
  allowed_cidrs = codes "10.0.0.0/8" ∷ [];
  status = active;
  created_at = 0;
  last_seen_at = none;
}

abbrev pub job : ScanJob
job = record {
  id = codes "j1";
  agent_id = codes "a1";
  requested_by = [];
  scan_type = host_discovery;
  mode = light_active;
  allowed_cidrs = codes "10.1.0.0/16" ∷ [];
  targets = codes "10.1.2.3" ∷ [];
  ports = [];
  rate_limit = record { probes_per_second = pos 0; concurrency = pos 0 };
  timeout_seconds = pos 60;
  created_at = 0;
}

abbrev pub seen : Text → Text → Observation
seen ip hostname = record {
  ip = ip;
  mac = [];
  vendor = [];
  hostname = hostname;
  os_family = [];
  os_detail = [];
  vlan = 0;
  hw_serial = [];
  hw_object_id = [];
  services = [];
  evidence = [];
  observed_at = 0;
}

-- 10.1.2.3.
abbrev pub host : Addr
host = v4 167838211

abbrev pub pg : Postgres
pg = record {
  cast_inet = parse_addr;
  host_text = λ a. codes "host";
  cast_mac = some;
  below = text_less;
  id_text = λ n. n ∷ [];
}

abbrev pub agents : Text → Text
agents id = codes "edge"

abbrev pub row : ReviewStatus → Discovery
row status = record {
  id = 1;
  job_id = codes "j1";
  agent_id = codes "a1";
  ip = host;
  mac = [];
  vendor = [];
  hostname = codes "printer";
  os_family = [];
  os_detail = [];
  hw_serial = [];
  hw_object_id = [];
  vlan = 0;
  services = [];
  status = status;
  reconcile_status = new;
  conflict_note = no_note;
  imported_address_id = none;
  imported_device_id = none;
  last_seen_at = 0;
}

-- One subnet, 10.1.0.0/16, and the row above.
abbrev pub db : ReviewStatus → Db
db status = record {
  subnets = record { id = 7; cidr = record { addr = v4 167837696; bits = 16 }; vlan = none } ∷ [];
  addresses = [];
  devices = [];
  macs = [];
  discoveries = row status ∷ [];
  rejections = [];
  auto_serial = none;
  next_id = 9;
}
