-- ===== src/Protocol/Validate.antt =====
-- internal/scanner/protocol.go: `ValidateJob`, `ValidateJobForAgent`, `ValidateAgentScope` and what
-- they call. An `error` is a value of `JobError`, one constructor for each message of the source,
-- with the values that the message shows; the wrapped parse error is left out.
use light_ipam.Base.{
  zero, suc, Bool, true, false, not, ◌&&◌, List, [], ◌∷◌, Option, none, some, Text, is_empty, same,
  ◌≡◌, refl, arith, leb, if◌then◌else◌, any, ℤ, pos, negsuc,
}
use light_ipam.Netip.{Addr, Prefix, is4, masked, contains}
use light_ipam.Netip.Parse.{parse_addr, parse_prefix}
use light_ipam.Protocol.{
  AgentStatus, active, ScanType, ScanMode, AgentRegistration, ScanJob, scan_type_valid,
  scan_mode_valid,
}

pub data JobError : Type 0 where
  no_id no_agent_id : JobError
  unknown_type : ScanType → JobError
  unknown_mode : ScanMode → JobError
  no_timeout : JobError
  agent_not_active : Text → AgentStatus → JobError
  agent_mismatch : Text → Text → JobError
  agent_has_no_cidrs job_has_no_cidrs job_has_no_targets : JobError
  bad_cidr : Text → JobError
  cidr_not_v4 : Text → JobError
  agent_allowlist : JobError → JobError
  job_allowlist : JobError → JobError
  cidr_outside : Text → JobError
  target_not_v4 : Text → JobError
  target_outside : Text → JobError
  target_unreadable : Text → JobError

pub data Result {ℓ} (A : Type ℓ) : Type ℓ where
  ok : A → Result A
  err : JobError → Result A

-- A check that returns only an `error`.
abbrev pub Check : Type 0
Check = Result (Unit {0})

infixl 5 ◌>>=◌ ◌>>◌
abbrev pub ◌>>=◌ {ℓ κ} : {A : Type ℓ} {B : Type κ} → Result A → (A → Result B) → Result B
err e >>= next = err e
ok found >>= next = next found

abbrev pub ◌>>◌ {ℓ} : {B : Type ℓ} → Check → Result B → Result B
m >> k = m >>= λ _. k

abbrev pub refuse_if : Bool → JobError → Check
refuse_if true e = err e
refuse_if false e = ok tt

-- `fmt.Errorf("...: %w", err)`.
abbrev pub wrap {ℓ} : {A : Type ℓ} → (JobError → JobError) → Result A → Result A
wrap f (ok a) = ok a
wrap f (err e) = err (f e)

unfoldable pub prefix_within : Prefix → Prefix → Bool
prefix_within target allowed = contains allowed target.addr && leb allowed.bits target.bits

-- `withinAny`.
unfoldable pub within_any : Prefix → List Prefix → Bool
unfolding prefix_within any
within_any target allowed = any (prefix_within target) allowed

-- The body of the loop of `parseAllowedPrefixes`.
unfoldable pub allowed_prefix : Text → Option Prefix → Result Prefix
allowed_prefix value none = err (bad_cidr value)
allowed_prefix value (some p) = if is4 p.addr then ok (masked p) else err (cidr_not_v4 value)

unfoldable pub parse_allowed_prefix : Text → Result Prefix
unfolding allowed_prefix
parse_allowed_prefix value = allowed_prefix value (parse_prefix value)

unfoldable pub parse_allowed_prefixes : List Text → Result (List Prefix)
parse_allowed_prefixes [] = ok []
parse_allowed_prefixes (value ∷ values) = do
  p ← parse_allowed_prefix value
  ps ← parse_allowed_prefixes values
  ok (p ∷ ps)

-- `validateTarget` on the two readings of the text, as a CIDR and as an address.
unfoldable pub target_check : Text → List Prefix → Option Prefix → Option Addr → Check
unfolding within_any
target_check value allowed (some p) a =
    if not (is4 p.addr)
    then err (target_not_v4 value)
    else if within_any (masked p) allowed
    then ok tt
    else err (target_outside value)
target_check value allowed none none = err (target_unreadable value)
target_check value allowed none (some a) =
    if not (is4 a)
    then err (target_not_v4 value)
    else if any (λ q. contains q a) allowed
    then ok tt
    else err (target_outside value)

unfoldable pub validate_target : Text → List Prefix → Check
unfolding target_check
validate_target value allowed = target_check value allowed (parse_prefix value) (parse_addr value)

unfoldable pub validate_targets : List Text → List Prefix → Check
validate_targets [] allowed = ok tt
validate_targets (target ∷ targets) allowed = do
  validate_target target allowed
  validate_targets targets allowed

unfoldable pub validate_job_targets : ScanJob → Check
unfolding validate_targets
validate_job_targets job = do
  refuse_if (is_empty job.allowed_cidrs) job_has_no_cidrs
  refuse_if (is_empty job.targets) job_has_no_targets
  allowed ← parse_allowed_prefixes job.allowed_cidrs
  validate_targets job.targets allowed

-- `n <= 0`.
unfoldable pub not_positive : ℤ → Bool
not_positive (pos zero) = true
not_positive (pos (suc n)) = false
not_positive (negsuc n) = true

unfoldable pub validate_job : ScanJob → Check
validate_job job = do
  refuse_if (is_empty job.id) no_id
  refuse_if (is_empty job.agent_id) no_agent_id
  refuse_if (not (scan_type_valid job.scan_type)) (unknown_type job.scan_type)
  refuse_if (not (scan_mode_valid job.mode)) (unknown_mode job.mode)
  refuse_if (not_positive job.timeout_seconds) no_timeout
  validate_job_targets job

-- The loop of `ValidateAgentScope`: each prefix with the text that it was parsed from.
unfoldable pub validate_cidrs : List Prefix → List Text → List Prefix → Check
validate_cidrs (p ∷ ps) (value ∷ values) agent = do
  refuse_if (not (within_any p agent)) (cidr_outside value)
  validate_cidrs ps values agent
validate_cidrs _ _ agent = ok tt

unfoldable pub validate_agent_scope : ScanJob → List Text → Check
validate_agent_scope job agent_cidrs = do
  refuse_if (is_empty agent_cidrs) agent_has_no_cidrs
  refuse_if (is_empty job.allowed_cidrs) job_has_no_cidrs
  agent_prefixes ← wrap agent_allowlist (parse_allowed_prefixes agent_cidrs)
  job_prefixes ← wrap job_allowlist (parse_allowed_prefixes job.allowed_cidrs)
  validate_cidrs job_prefixes job.allowed_cidrs agent_prefixes
  validate_job job

abbrev pub is_active : AgentStatus → Bool
is_active active = true
is_active _ = false

unfoldable pub validate_job_for_agent : ScanJob → AgentRegistration → Check
validate_job_for_agent job agent = do
  refuse_if (not (is_active agent.status)) (agent_not_active agent.id agent.status)
  refuse_if (not (same job.agent_id agent.id)) (agent_mismatch job.agent_id agent.id)
  validate_agent_scope job agent.allowed_cidrs

-- Inversion of the checks, for proofs where the parts stay shut.
pub >>=-eq-ok {ℓ κ} :
    {A : Type ℓ} {B : Type κ} (first : Result A) (next : A → Result B) {last : B}
    → (first >>= next) ≡ ok last
    → (found : A) × (first ≡ ok found) × (next found ≡ ok last)
>>=-eq-ok (ok found) next h = (found, refl, h)
>>=-eq-ok (err e) next h = cc

pub >>-eq-ok {ℓ} :
    {B : Type ℓ} (m : Check) (k : Result B) {b : B} → (m >> k) ≡ ok b → (m ≡ ok tt) × (k ≡ ok b)
>>-eq-ok (ok tt) k h = (refl, h)
>>-eq-ok (err e) k h = cc

pub refuse_if-eq-ok : (b : Bool) (e : JobError) → refuse_if b e ≡ ok tt → b ≡ false
refuse_if-eq-ok b e h = ground arith

pub wrap-eq-ok {ℓ} :
    {A : Type ℓ} (f : JobError → JobError) (m : Result A) {a : A} → wrap f m ≡ ok a → m ≡ ok a
wrap-eq-ok f m h = ground arith
