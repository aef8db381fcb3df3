-- ===== src/Protocol/Targets.antt =====
-- What the allowlists of internal/scanner/protocol.go hold once parsed, and what an accepted target
-- denotes.
use light_ipam.Base.{
  ℕ, ◌≤◌, true, not, List, [], ◌∷◌, Option, none, some, Text, ◌≡◌, refl, ◌∙◌, sym, inl, inr, arith,
  any, In, length, here, there, In-cons, not-In-nil, any-In, subst, leb, leb_iff,
  >>=-eq-some as Option_bind, if◌then◌else◌, Bool-cases, suc, ap, not-eq-false,
}
use light_ipam.Netip.{Addr, Prefix, is4, bit_len, v4, v6, mask_addr, masked, contains}
use light_ipam.Netip.Parse.{
  parse_addr, parse_prefix, prefix_from, cut_last_slash, zoned, prefix_bits,
}
use light_ipam.Protocol.{ScanJob}
use light_ipam.Protocol.Validate.{
  ok, refuse_if, within_any, parse_allowed_prefix, parse_allowed_prefixes, target_check,
  validate_target, validate_targets, validate_job_targets, validate_cidrs, >>=-eq-ok, >>-eq-ok,
  refuse_if-eq-ok, prefix_within, allowed_prefix,
}
use light_ipam.Protocol.Within.{contains_within, contains-masked}

-- The address `a` is in the prefix that the text is.
abbrev pub InCidr : Text → Addr → Type 0
InCidr value a = (p : Prefix) × (parse_prefix value ≡ some p) × (contains p a ≡ true)

-- The address `a` is one that a target asks to be scanned: a CIDR's, or the one that it spells.
pub data Denotes (target : Text) (a : Addr) : Type 0 where
  cidr : InCidr target a → Denotes target a
  host : parse_prefix target ≡ none → parse_addr target ≡ some a → Denotes target a

-- Some entry of an allowlist contains the address.
abbrev pub Allows : List Text → Addr → Type 0
Allows cidrs a = (value : Text) × In value cidrs × InCidr value a

pub prefix_from-bits :
    (a : Addr) (k : ℕ) {p : Prefix} → prefix_from a k ≡ some p → p.bits ≤ bit_len p.addr
unfolding prefix_from
prefix_from-bits a k {p} h = elim (Bool-cases (leb k (bit_len a))) [
  | inl e ↦
      let at : some (record { addr = a; bits = k }) ≡ some p = rw e at h in
      subst (λ (p : Prefix). p.bits ≤ bit_len p.addr) (cc at) ((leb_iff _ _).0 e)
  | inr e ↦ cc (rw e at h)
]

pub parse_prefix-bits : (s : Text) {p : Prefix} → parse_prefix s ≡ some p → p.bits ≤ bit_len p.addr
unfolding parse_prefix
parse_prefix-bits s h =
    let (parts, _, h1) = Option_bind (cut_last_slash s) _ h in
    let (a, _, h2) = Option_bind (parse_addr parts.0) _ h1 in
    let (k, _, h3) =
      Option_bind (if zoned a then none else prefix_bits parts.1) (prefix_from a) h2 in
    prefix_from-bits a k h3

-- Each prefix of a parsed allowlist is the masked form of an entry.
pub record IsMaskOf (value : Text) (p : Prefix) : Type 0 where
  pub parsed : Prefix
  pub reads : parse_prefix value ≡ some parsed
  pub v4_only : is4 parsed.addr ≡ true
  pub is_masked : p ≡ masked parsed

pub allowed_prefix-IsMaskOf :
    (value : Text) (o : Option Prefix) {p : Prefix}
    → parse_prefix value ≡ o
    → allowed_prefix value o ≡ ok p
    → IsMaskOf value p
unfolding allowed_prefix
allowed_prefix-IsMaskOf value none e h = cc
allowed_prefix-IsMaskOf value (some q) e h = elim (Bool-cases (is4 q.addr)) [
  | inl t ↦ record { parsed = q; reads = e; v4_only = t; is_masked = cc (rw t at h) }
  | inr f ↦ cc (rw f at h)
]

pub parsed-In :
    (values : List Text) {ps : List Prefix} {p : Prefix}
    → parse_allowed_prefixes values ≡ ok ps
    → In p ps
    → (value : Text) × In value values × IsMaskOf value p
unfolding parse_allowed_prefixes parse_allowed_prefix
parsed-In [] {ps} {p} h m = let e : [] ≡ ps = cc in absurd (not-In-nil (subst (In p) (sym e) m))
parsed-In (v ∷ values) {ps} {p} h m =
    let (q, eq, h') = >>=-eq-ok (parse_allowed_prefix v) _ h in
    let (qs, eqs, h'') = >>=-eq-ok (parse_allowed_prefixes values) (λ ps. ok (q ∷ ps)) h' in
    let e : q ∷ qs ≡ ps = cc h'' in
    elim (In-cons (subst (In p) (sym e) m)) [
      | inl is_q ↦ (v, here, subst (IsMaskOf v) (sym is_q) (allowed_prefix-IsMaskOf v _ refl eq))
      | inr later ↦ let (value, at, mask) = parsed-In values eqs later in (value, there at, mask)
    ]

-- An allowed prefix that contains an address is the masked form of an entry that contains it.
pub IsMaskOf-InCidr :
    (value : Text) {p : Prefix} (a : Addr) → IsMaskOf value p → contains p a ≡ true → InCidr value a
IsMaskOf-InCidr value {p} a m c = (
  m.parsed,
  m.reads,
  sym (contains-masked m.parsed a) ∙ subst (λ p. contains p a ≡ true) m.is_masked c,
)

pub parsed-Allows :
    (values : List Text) {ps : List Prefix} {p : Prefix} (a : Addr)
    → parse_allowed_prefixes values ≡ ok ps
    → In p ps
    → contains p a ≡ true
    → Allows values a
parsed-Allows values a e m c =
    let (value, at, mask) = parsed-In values e m in (value, at, IsMaskOf-InCidr value a mask c)

-- A prefix that passed `withinAny`: what it contains, one of the allowed ones contains.
pub within_any-contains :
    (p : Prefix) (allowed : List Prefix) (a : Addr)
    → p.bits ≤ bit_len p.addr
    → within_any p allowed ≡ true
    → contains p a ≡ true
    → (q : Prefix) × In q allowed × (contains q a ≡ true)
unfolding within_any
within_any-contains p allowed a le w c =
    let (q, m, inside) = any-In (prefix_within p) allowed w in
    (q, m, contains_within p q a le inside c)

pub cidr_check :
    (value : Text) (allowed : List Prefix) (p : Prefix) (o : Option Addr)
    → target_check value allowed (some p) o ≡ ok tt
    → within_any (masked p) allowed ≡ true
unfolding target_check
cidr_check value allowed p o h = ground arith

pub host_check :
    (value : Text) (allowed : List Prefix) (a : Addr)
    → target_check value allowed none (some a) ≡ ok tt
    → any (λ q. contains q a) allowed ≡ true
unfolding target_check
host_check value allowed a h = ground arith

pub masked-bits : (p : Prefix) → p.bits ≤ bit_len p.addr → (masked p).bits ≤ bit_len (masked p).addr
unfolding masked mask_addr
masked-bits p le = masked_len p.addr p.bits le
  where
    masked_len : (a : Addr) (k : ℕ) → k ≤ bit_len a → k ≤ bit_len (mask_addr a k)
    masked_len (v4 n) k h = h
    masked_len (v6 n z) k h = h

-- What an accepted target denotes is in an allowed prefix.
pub validate_target-contains :
    (value : Text) (allowed : List Prefix) (a : Addr)
    → Denotes value a
    → validate_target value allowed ≡ ok tt
    → (q : Prefix) × In q allowed × (contains q a ≡ true)
unfolding validate_target
validate_target-contains value allowed a (cidr (p, e, c)) h =
    let w = cidr_check value allowed p (parse_addr value) (rw e at h) in
    within_any-contains (masked p) allowed a (masked-bits p (parse_prefix-bits value e)) w
      (contains-masked p a ∙ c)
validate_target-contains value allowed a (host e e') h =
    any-In (λ q. contains q a) allowed (host_check value allowed a (rw (e, e') at h))

pub validate_targets-In :
    (targets : List Text) (allowed : List Prefix) {target : Text}
    → validate_targets targets allowed ≡ ok tt
    → In target targets
    → validate_target target allowed ≡ ok tt
unfolding validate_targets
validate_targets-In [] allowed h m = elim m [ ]
validate_targets-In (t ∷ targets) allowed h here = (>>-eq-ok (validate_target t allowed) _ h).0
validate_targets-In (t ∷ targets) allowed h (there m) =
    validate_targets-In targets allowed (>>-eq-ok (validate_target t allowed) _ h).1 m

pub validate_cidrs-In :
    (ps : List Prefix) (values : List Text) (agent : List Prefix) {p : Prefix}
    → validate_cidrs ps values agent ≡ ok tt
    → length ps ≡ length values
    → In p ps
    → within_any p agent ≡ true
unfolding validate_cidrs
validate_cidrs-In [] values agent h e m = elim m [ ]
validate_cidrs-In (q ∷ ps) [] agent h e m = cc
validate_cidrs-In (q ∷ ps) (v ∷ values) agent h e here =
    not-eq-false (refuse_if-eq-ok _ _ (>>-eq-ok (refuse_if (not (within_any q agent)) _) _ h).0)
validate_cidrs-In (q ∷ ps) (v ∷ values) agent h e (there m) =
    validate_cidrs-In ps values agent
      (>>-eq-ok (refuse_if (not (within_any q agent)) _) (validate_cidrs ps values agent) h).1
      (omega arith) m

pub length-parsed :
    (values : List Text) {ps : List Prefix}
    → parse_allowed_prefixes values ≡ ok ps
    → length ps ≡ length values
unfolding parse_allowed_prefixes
length-parsed [] {ps} h = let e : [] ≡ ps = cc in rw (← e)
length-parsed (v ∷ values) {ps} h =
    let (q, eq, h') = >>=-eq-ok (parse_allowed_prefix v) _ h in
    let (qs, eqs, h'') = >>=-eq-ok (parse_allowed_prefixes values) (λ ps. ok (q ∷ ps)) h' in
    let e : q ∷ qs ≡ ps = cc h'' in rw (← e) (ap suc (length-parsed values eqs))

-- The targets of a job that passed `ValidateJobTargets` denote only addresses that the job's own
-- allowlist allows.
pub validate_job_targets-Allows :
    (job : ScanJob) {target : Text} (a : Addr)
    → validate_job_targets job ≡ ok tt
    → In target job.targets
    → Denotes target a
    → (ps : List Prefix) × (q : Prefix) × (parse_allowed_prefixes job.allowed_cidrs ≡ ok ps)
      × In q ps
      × (contains q a ≡ true)
unfolding validate_job_targets
validate_job_targets-Allows job a h m d =
    let (ps, e, h3) =
      >>=-eq-ok (parse_allowed_prefixes job.allowed_cidrs) (validate_targets job.targets)
        (ground arith) in
    let (q, at, c) = validate_target-contains _ ps a d (validate_targets-In job.targets ps h3 m) in
    (ps, q, e, at, c)
