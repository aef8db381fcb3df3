-- ===== src/Names/Accounting.antt =====
-- `Discover` of the name lookups, seen from the job: it accounts for each host that it may probe.
use mathlib.Core.Option.{some-injective}
use light_ipam.Base.{
  ℕ, Bool, true, false, List, [], ◌∷◌, none, some, ◌⊎◌, inl, inr, Text, length, any, In, here,
  there, In-cons, not-In-nil, is_empty, ◌≡◌, ◌<◌, refl, sym, ap, ◌∙◌, arith, Bool-cases,
  Option-cases,
}
use light_ipam.Netip.{Addr, Prefix, is4, contains, masked}
use light_ipam.Netip.Parse.{parse_addr, parse_prefix}
use light_ipam.Protocol.{ScanJob, Observation}
use light_ipam.Names.{Returns, Returns-map}
use light_ipam.Names.Lookup.{
  NameDiscoverer, LookupError, and_scope, parse_scope_prefixes, within_scope, Answer, is_passive,
  in_scope, discover,
}
use light_ipam.Names.LookupLaws.{Reports, Accounts, probe_all-Returns}

-- A prefix of the allowlist contains the address.
abbrev pub Admits : List Text → Addr → Type 0
Admits cidrs a =
    (c : Text) × In c cidrs
    × (p : Prefix) × (parse_prefix c ≡ some p)
    × (contains (masked p) a ≡ true)

inr-injective : {A B : Type 0} {x y : B} → ◌≡◌ {A = A ⊎ B} (inr x) (inr y) → x ≡ y
inr-injective h = cc

true-false : false ≡ true → ⊥
true-false h = cc

inl-inr : {A B : Type 0} {a : A} {b : B} → inl a ≡ inr b → ⊥
inl-inr h = cc

and_scope-inr :
    (p : Prefix) (r : LookupError ⊎ List Prefix) (scope : List Prefix)
    → and_scope p r ≡ inr scope
    → (rest : List Prefix) × (r ≡ inr rest) × (scope ≡ masked p ∷ rest)
and_scope-inr p (inl e) scope h = absurd (inl-inr h)
and_scope-inr p (inr rest) scope h = (rest, refl, cc)

-- An allowlist that could be read: its first entry and the others.
parse_scope_prefixes-cons :
    (c : Text) (cidrs : List Text) (scope : List Prefix)
    → parse_scope_prefixes (c ∷ cidrs) ≡ inr scope
    → (p : Prefix) × (rest : List Prefix) × (parse_prefix c ≡ some p)
      × (parse_scope_prefixes cidrs ≡ inr rest)
      × (scope ≡ masked p ∷ rest)
unfolding parse_scope_prefixes
parse_scope_prefixes-cons c cidrs scope h = elim (Option-cases (parse_prefix c)) [
  | inl e ↦ absurd (inl-inr (rw (parse_scope_prefixes, e) at h))
  | inr (p, e) ↦
      let (rest, parsed, whole) =
        and_scope-inr p (parse_scope_prefixes cidrs) scope (rw (parse_scope_prefixes, e) at h) in
      (p, rest, e, parsed, whole)
]

scope-Admits :
    (cidrs : List Text) (scope : List Prefix) (a : Addr)
    → parse_scope_prefixes cidrs ≡ inr scope
    → within_scope a scope ≡ true
    → Admits cidrs a
unfolding within_scope any
scope-Admits [] scope a h w =
    let empty : [] ≡ scope = inr-injective {A = LookupError} (unfold parse_scope_prefixes in h) in
    absurd (true-false (rw (sym empty) at w))
scope-Admits (c ∷ cidrs) scope a h w =
    let (p, rest, e, parsed, whole) = parse_scope_prefixes-cons c cidrs scope h in
    elim (Bool-cases (contains (masked p) a)) [
      | inl hit ↦ (c, here, p, e, hit)
      | inr miss ↦
          let (c', m, p', e', hit) = scope-Admits cidrs rest a parsed (rw (whole, miss) at w) in
          (c', there m, p', e', hit)
    ]

Admits-scope :
    (cidrs : List Text) (scope : List Prefix) (a : Addr)
    → parse_scope_prefixes cidrs ≡ inr scope
    → Admits cidrs a
    → within_scope a scope ≡ true
unfolding within_scope any
Admits-scope [] scope a h (c, m, _, _, _) = absurd (not-In-nil m)
Admits-scope (c ∷ cidrs) scope a h (c', m, p', e', hit) =
    let (p, rest, e, parsed, whole) = parse_scope_prefixes-cons c cidrs scope h in
    elim (In-cons m) [
      | inl q ↦
          let same_prefix : p' ≡ p = some-injective _ _ (sym e' ∙ ap parse_prefix q ∙ e) in
          rw (whole, sym same_prefix, hit) refl
      | inr r ↦
          let ih = Admits-scope cidrs rest a parsed (c', r, p', e', hit) in
          rw whole (ground (arith, ih))
    ]

-- A target of the job that a name lookup may probe: a single IPv4 host on the allowlist.
abbrev pub Probed : ScanJob → Text → Type 0
Probed job t =
    In t job.targets
    × ((a : Addr) × (parse_addr t ≡ some a) × (is4 a ≡ true) × Admits job.allowed_cidrs a)

-- The answer reports on such hosts alone, each with what was heard of it, and misses none.
abbrev pub Explains : ScanJob → Answer → Type 0
Explains job answer =
    ((obs : Observation)
      → In obs answer.observations
      → Probed job obs.ip × (0 < length obs.evidence))
    × (is_passive job.mode ≡ false
        → answer.failure ≡ none
        → (t : Text) → Probed job t
        → Reports answer t)

Accounts-Explains :
    (job : ScanJob) (scope : List Prefix) (answer : Answer)
    → parse_scope_prefixes job.allowed_cidrs ≡ inr scope
    → Accounts scope job.targets answer
    → Explains job answer
Accounts-Explains job scope answer h (s, c) = (
  λ o m.
      let (i, (a, e, four, w), ev) = s o m in
      ((i, (a, e, four, scope-Admits job.allowed_cidrs scope a h w)), ev),
  λ active f t (m, (a, e, four, ad)).
      c f t m (a, e, four, Admits-scope job.allowed_cidrs scope a h ad),
)

Explains-silent :
    (job : ScanJob) (answer : Answer)
    → answer.observations ≡ []
    → (is_passive job.mode ≡ false → answer.failure ≡ none → ⊥)
    → Explains job answer
Explains-silent job answer e f =
    (λ o m. absurd (not-In-nil (rw e at m)), λ active n t p. absurd (f active n))

-- Whatever the hosts answer, and whenever the context ends, `Discover` of the name lookups neither
-- panics nor hangs. Each of its observations is of a single IPv4 target on the job's allowlist and
-- has evidence. If the job is not passive and no failure is returned, each such target has an
-- observation or an error of its own.
pub discover-Explains :
    (d : NameDiscoverer) (now : ℕ) (alive : ℕ → Bool) (job : ScanJob)
    → Returns (Explains job) (discover d now alive job)
unfolding discover
discover-Explains d now alive job = elim (Bool-cases (is_passive job.mode)) [
  | inl quiet ↦ rw (Returns, quiet) (Explains-silent job _ refl (λ active n. cc))
  | inr active ↦ elim (Bool-cases (is_empty job.targets)) [
    | inl none_given ↦ rw (Returns, active, none_given) (Explains-silent job _ refl (λ a n. cc))
    | inr given ↦ rw (active, given) (by_scope (parse_scope_prefixes job.allowed_cidrs) refl)
  ]
]
  where
    by_scope :
        (r : LookupError ⊎ List Prefix)
        → parse_scope_prefixes job.allowed_cidrs ≡ r
        → Returns (Explains job) (in_scope d now alive job.targets r)
    by_scope (inl e) h = Explains-silent job _ refl (λ a n. cc)
    by_scope (inr scope) h =
        Returns-map (Accounts scope job.targets) (Explains job) _
          (λ a. Accounts-Explains job scope a h) (probe_all-Returns d now alive scope job.targets)
