-- ===== src/Orchestrator/Enrollment.antt =====
-- Enrolling an agent gives it no right: a discovered agent waits for approval.
use light_ipam.Base.{
  true, false, List, [], ◌∷◌, ◌++◌, Option, none, some, ◌⊎◌, inl, inr, Text, codes, same, same_refl,
  ◌≡◌, refl, sym, subst, Bool-cases, Option-cases,
}
use light_ipam.Protocol.{AgentRegistration}
use light_ipam.Orchestrator.Agents.{
  ScanAgent, ScanAgentInput, get_by_endpoint, Enrolled, new_agent, create_scan_agent,
  enroll_discovered_agent, discovered_input, Fetched, unavailable, refused, registered,
  discover_agent,
}

-- What a discovery leaves: the agents as they were, or one more at the end, for the endpoint, that
-- waits for approval and imports nothing by itself.
abbrev pub Grants : Text → List ScanAgent → Enrolled → Type 0
Grants url agents (agents', agent, created) =
    ((created ≡ false) × (agents' ≡ agents) × (get_by_endpoint url agents ≡ some agent))
    ⊎ ((created ≡ true)
        × (agents' ≡ agents ++ agent ∷ [])
        × (get_by_endpoint url agents ≡ none)
        × (agent.endpoint_url ≡ url)
        × (agent.status ≡ codes "pending")
        × (agent.auto_import ≡ false))

none-some : {A : Type 0} {a : A} → ◌≡◌ {A = Option A} (some a) none → ⊥
none-some h = cc

inl-inr : {A B : Type 0} (a : A) (b : B) → ◌≡◌ {A = A ⊎ B} (inl a) (inr b) → ⊥
inl-inr a b h = cc

inr-injective : {A B : Type 0} (x y : B) → ◌≡◌ {A = A ⊎ B} (inr x) (inr y) → x ≡ y
inr-injective x y h = cc

get_by_endpoint-append :
    (url : Text) (agents : List ScanAgent) (a : ScanAgent)
    → get_by_endpoint url agents ≡ none
    → a.endpoint_url ≡ url
    → get_by_endpoint url (agents ++ a ∷ []) ≡ some a
unfolding get_by_endpoint
get_by_endpoint-append url [] a h e = rw (e, same_refl url) refl
get_by_endpoint-append url (b ∷ agents) a h e = elim (Bool-cases (same b.endpoint_url url)) [
  | inl hit ↦ absurd (none-some (rw hit at h))
  | inr miss ↦ rw miss (get_by_endpoint-append url agents a (rw miss at h) e)
]

enroll_discovered_agent-Grants :
    (id url : Text) (input : ScanAgentInput) (agents : List ScanAgent)
    → input.auto_import ≡ false
    → Grants url agents (enroll_discovered_agent id url input agents)
unfolding enroll_discovered_agent create_scan_agent new_agent
enroll_discovered_agent-Grants id url input agents h =
    elim (Option-cases (get_by_endpoint url agents)) [
      | inl e ↦ rw e (inr (refl, refl, refl, refl, refl, h))
      | inr (a, e) ↦ rw e (inl (refl, refl, refl))
    ]

-- The agent that a discovery leaves is the agent of the endpoint.
Grants-endpoint :
    (url : Text) (agents : List ScanAgent) (r : Enrolled)
    → Grants url agents r
    → get_by_endpoint url r.0 ≡ some r.1
Grants-endpoint url agents (agents', agent, created) (inl (_, e, found)) =
    subst (λ x. get_by_endpoint url x ≡ some agent) (sym e) found
Grants-endpoint url agents (agents', agent, created) (inr (_, e, missing, own, _, _)) =
    subst (λ x. get_by_endpoint url x ≡ some agent) (sym e)
      (get_by_endpoint-append url agents agent missing own)

again :
    (url : Text) (r : Enrolled)
    → get_by_endpoint url r.0 ≡ some r.1
    → (id : Text) (reg : AgentRegistration)
    → discover_agent id url (registered reg) r.0 ≡ inr (r.0, r.1, false)
unfolding discover_agent enroll_discovered_agent
again url (agents, agent, created) e id reg = rw e refl

-- Discovering an agent gives it no right and changes no other. Where it succeeds, either the endpoint
-- had an agent, and the table stays as it was, or a new agent for the endpoint stands behind the
-- others, which waits for approval and imports nothing by itself. Discovering the same endpoint
-- again, whatever it then reports, changes nothing.
pub discover_agent-Grants :
    (id url : Text) (fetched : Fetched) (agents : List ScanAgent) (r : Enrolled)
    → discover_agent id url fetched agents ≡ inr r
    → Grants url agents r
      × ((id' : Text) (reg : AgentRegistration)
          → discover_agent id' url (registered reg) r.0 ≡ inr (r.0, r.1, false))
unfolding discover_agent discovered_input
discover_agent-Grants id url unavailable agents r h = absurd (inl-inr _ _ h)
discover_agent-Grants id url (refused message) agents r h = absurd (inl-inr _ _ h)
discover_agent-Grants id url (registered reg) agents r h =
    let g : Grants url agents r =
      subst (Grants url agents) (inr-injective _ _ h)
        (enroll_discovered_agent-Grants id url (discovered_input url reg) agents refl) in
    (g, again url r (Grants-endpoint url agents r g))
