-- ===== src/Orchestrator/Agents.antt =====
-- internal/store/scans.go: the table of agents, and `DiscoverAgent` of
-- internal/scanner/orchestrator/orchestrator.go. The call of the agent's /register endpoint and the
-- id of a new row are arguments.
use light_ipam.Base.{
  ℕ, Bool, true, false, List, [], ◌∷◌, ◌++◌, Option, none, some, ◌⊎◌, inl, inr, Text, codes,
  is_empty, same, trim_space, if◌then◌else◌,
}
use light_ipam.Protocol.{AgentRegistration}

-- `store.ScanAgent`.
pub record ScanAgent : Type 0 where
  pub id : Text
  pub name : Text
  pub site_id : Option Text
  pub endpoint_url : Text
  pub certificate_subject : Text
  pub allowed_cidrs : List Text
  pub status : Text
  pub auto_import : Bool
  pub version : Text
  pub last_seen_at : Option ℕ

-- `store.ScanAgentInput`.
pub record ScanAgentInput : Type 0 where
  pub name : Text
  pub site_id : Text
  pub endpoint_url : Text
  pub certificate_subject : Text
  pub allowed_cidrs : List Text
  pub status : Text
  pub auto_import : Bool

pub data AgentError : Type 0 where
  agent_not_found not_configured : AgentError
  fetch_failed : Text → AgentError

abbrev optional : Text → Option Text
optional [] = none
optional (c ∷ s) = some (c ∷ s)

-- `CreateScanAgent`.
unfoldable pub new_agent : Text → ScanAgentInput → ScanAgent
new_agent id input = record {
  id = id;
  name = input.name;
  site_id = optional input.site_id;
  endpoint_url = input.endpoint_url;
  certificate_subject = input.certificate_subject;
  allowed_cidrs = input.allowed_cidrs;
  status = if is_empty input.status then codes "pending" else input.status;
  auto_import = input.auto_import;
  version = [];
  last_seen_at = none;
}

unfoldable pub create_scan_agent :
    Text → ScanAgentInput → List ScanAgent → List ScanAgent × ScanAgent
unfolding new_agent
create_scan_agent id input agents = (agents ++ new_agent id input ∷ [], new_agent id input)

-- The row of an id is found, and changed.
unfoldable pub has_agent : Text → List ScanAgent → Bool
unfolding same
has_agent id [] = false
has_agent id (a ∷ agents) = if same a.id id then true else has_agent id agents

unfoldable pub change_agent : (ScanAgent → ScanAgent) → Text → List ScanAgent → List ScanAgent
unfolding same
change_agent change id [] = []
change_agent change id (a ∷ agents) =
    (if same a.id id then change a else a) ∷ change_agent change id agents

abbrev found_or : Bool → List ScanAgent → AgentError ⊎ List ScanAgent
found_or true agents = inr agents
found_or false agents = inl agent_not_found

-- `UpdateScanAgent`.
abbrev updated : ScanAgentInput → ScanAgent → ScanAgent
updated input a = record a {
  name = input.name;
  site_id = optional input.site_id;
  endpoint_url = input.endpoint_url;
  certificate_subject = input.certificate_subject;
  allowed_cidrs = input.allowed_cidrs;
  status = input.status;
  auto_import = input.auto_import;
}

unfoldable pub update_scan_agent :
    Text → ScanAgentInput → List ScanAgent → AgentError ⊎ List ScanAgent
unfolding has_agent change_agent
update_scan_agent id input agents =
    found_or (has_agent id agents) (change_agent (updated input) id agents)

-- `SetScanAgentStatus`.
unfoldable pub set_scan_agent_status : Text → Text → List ScanAgent → AgentError ⊎ List ScanAgent
unfolding has_agent change_agent
set_scan_agent_status id status agents =
    found_or (has_agent id agents) (change_agent (λ a. record a { status = status }) id agents)

-- `DeleteScanAgent`.
unfoldable pub without_agent : Text → List ScanAgent → List ScanAgent
unfolding same
without_agent id [] = []
without_agent id (a ∷ agents) =
    let rest = without_agent id agents in if same a.id id then rest else a ∷ rest

unfoldable pub delete_scan_agent : Text → List ScanAgent → AgentError ⊎ List ScanAgent
unfolding has_agent without_agent
delete_scan_agent id agents = found_or (has_agent id agents) (without_agent id agents)

-- `GetScanAgentByEndpoint`; with several, the first row.
unfoldable pub get_by_endpoint : Text → List ScanAgent → Option ScanAgent
unfolding same
get_by_endpoint url [] = none
get_by_endpoint url (a ∷ agents) =
    if same a.endpoint_url url then some a else get_by_endpoint url agents

-- The agents, the agent of the endpoint, and whether it was created.
abbrev pub Enrolled : Type 0
Enrolled = List ScanAgent × ScanAgent × Bool

abbrev created : List ScanAgent × ScanAgent → Enrolled
created (agents, agent) = (agents, agent, true)

abbrev pub enroll_new : Text → Text → ScanAgentInput → List ScanAgent → Option ScanAgent → Enrolled
enroll_new id url input agents (some existing) = (agents, existing, false)
enroll_new id url input agents none =
    created
      (create_scan_agent id (record input { endpoint_url = url; status = codes "pending" }) agents)

-- `EnrollDiscoveredAgent`.
unfoldable pub enroll_discovered_agent : Text → Text → ScanAgentInput → List ScanAgent → Enrolled
unfolding get_by_endpoint create_scan_agent
enroll_discovered_agent id url input agents =
    enroll_new id url input agents (get_by_endpoint url agents)

-- What `DiscoverAgent` makes of a registration: a name, the certificate and the allowlist.
abbrev or_url : Text → Text → Text
or_url url [] = url
or_url url (c ∷ name) = c ∷ name

unfoldable pub discovered_input : Text → AgentRegistration → ScanAgentInput
unfolding trim_space
discovered_input url reg = record {
  name = or_url url (trim_space reg.name);
  site_id = [];
  endpoint_url = [];
  certificate_subject = reg.certificate_subject;
  allowed_cidrs = reg.allowed_cidrs;
  status = [];
  auto_import = false;
}

-- The call: no dispatcher that could make it, an error, or the registration.
pub data Fetched : Type 0 where
  unavailable : Fetched
  refused : Text → Fetched
  registered : AgentRegistration → Fetched

-- `DiscoverAgent`.
unfoldable pub discover_agent : Text → Text → Fetched → List ScanAgent → AgentError ⊎ Enrolled
unfolding discovered_input enroll_discovered_agent
discover_agent id url unavailable agents = inl not_configured
discover_agent id url (refused message) agents = inl (fetch_failed message)
discover_agent id url (registered reg) agents =
    inr (enroll_discovered_agent id url (discovered_input url reg) agents)
