-- ===== src/Protocol.antt =====
-- internal/scanner/protocol.go: the versioned contract between the app and its scanner agents.
-- This file has its types; the validation of jobs is in Protocol/Validate.antt, what it guarantees
-- in Protocol/Scope.antt. Enumerations are string types in Go: a value that is none of the named
-- ones is kept as `unknown`. Times are seconds since the epoch, and zero is Go's zero time.
pub mod Validate
pub mod Within
pub mod Targets
pub mod Scope
use light_ipam.Base.{ℕ, Bool, true, false, List, Option, Text, ℤ}

pub data AgentStatus : Type 0 where
  pending active disabled revoked : AgentStatus
  unknown : Text → AgentStatus

pub data ScanType : Type 0 where
  host_discovery service_detection os_probe combined arp_table : ScanType
  snmp_inventory name_lookup dhcp_leases dns_lookup lldp_cdp : ScanType
  unknown : Text → ScanType

pub data ScanMode : Type 0 where
  passive light_active standard_active deep_active : ScanMode
  unknown : Text → ScanMode

pub data JobStatus : Type 0 where
  queued running succeeded failed cancelled rejected : JobStatus
  unknown : Text → JobStatus

pub record AgentRegistration : Type 0 where
  pub id : Text
  pub name : Text
  pub site_id : Text
  pub version : Text
  pub certificate_subject : Text
  pub allowed_cidrs : List Text
  pub status : AgentStatus
  pub created_at : ℕ
  pub last_seen_at : Option ℕ

pub record RateLimit : Type 0 where
  pub probes_per_second : ℤ
  pub concurrency : ℤ

pub record PortSelection : Type 0 where
  pub protocol : Text
  pub ports : List ℤ

pub record ScanJob : Type 0 where
  pub id : Text
  pub agent_id : Text
  pub requested_by : Text
  pub scan_type : ScanType
  pub mode : ScanMode
  pub allowed_cidrs : List Text
  pub targets : List Text
  pub ports : List PortSelection
  pub rate_limit : RateLimit
  pub timeout_seconds : ℤ
  pub created_at : ℕ

pub record ServiceObservation : Type 0 where
  pub protocol : Text
  pub port : ℕ
  pub state : Text
  pub service_name : Text
  pub product : Text
  pub version : Text

pub record Evidence : Type 0 where
  pub source : Text
  pub summary : Text
  pub raw : Text

pub record ScanError : Type 0 where
  pub code : Text
  pub message : Text
  pub target : Text

pub record Observation : Type 0 where
  pub ip : Text
  pub mac : Text
  pub vendor : Text
  pub hostname : Text
  pub os_family : Text
  pub os_detail : Text
  pub vlan : ℕ
  pub hw_serial : Text
  pub hw_object_id : Text
  pub services : List ServiceObservation
  pub evidence : List Evidence
  pub observed_at : ℕ

pub record ScanResult : Type 0 where
  pub protocol_version : Text
  pub job_id : Text
  pub agent_id : Text
  pub status : JobStatus
  pub started_at : Option ℕ
  pub finished_at : Option ℕ
  pub observations : List Observation
  pub errors : List ScanError

-- `ScanType.Valid`.
unfoldable pub scan_type_valid : ScanType → Bool
scan_type_valid (ScanType.unknown t) = false
scan_type_valid _ = true

-- `ScanMode.Valid`.
unfoldable pub scan_mode_valid : ScanMode → Bool
scan_mode_valid (ScanMode.unknown t) = false
scan_mode_valid _ = true
