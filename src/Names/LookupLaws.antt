-- ===== src/Names/LookupLaws.antt =====
-- What `Discover` of the name lookups reports: it accounts for each host that it may probe.
use mathlib.Core.Option.{some-injective}
use light_ipam.Base.{
  ℕ, suc, Bool, true, false, List, [], ◌∷◌, none, some, ◌⊎◌, inl, inr, Text, length, In, here,
  there, In-cons, not-In-nil, is_empty, ◌≡◌, ◌≢◌, refl, sym, arith, Bool-cases, Option-cases,
  length-append, ◌<◌, ◌∙◌,
}
use light_ipam.Netip.{Addr, v4, v6, Prefix, is4}
use light_ipam.Netip.Parse.{parse_addr}
use light_ipam.Protocol.{Observation, ScanError}
use light_ipam.Names.{Reading, ok, fail, panic, stuck, ◌>>=◌, Returns, >>=-Returns}
use light_ipam.Names.Netbios.{Station, nbstat_request}
use light_ipam.Names.Mdns.{mdns_reverse_request, parse_mdns_ptr_response}
use light_ipam.Names.ReplyLaws.{
  Named, parse_nbstat_response-Returns, parse_mdns_ptr_response-Returns,
}
use light_ipam.Names.Lookup.{
  NameDiscoverer, reply, query_netbios, query_mdns, unnamed, Learned, learn_netbios, learn_mdns,
  learn, lookup, LookupError, within_scope, Answer, outcome_of, add_observation, add_error, probe,
  probe_all, failed,
}

query_netbios-Returns : (d : NameDiscoverer) (ip : Text) → Returns Named (query_netbios d ip)
unfolding query_netbios
query_netbios-Returns d ip = elim (Option-cases (d.exchange ip d.cfg.netbios_port nbstat_request)) [
  | inl e ↦ rw e tt
  | inr (resp, e) ↦ rw e (parse_nbstat_response-Returns resp)
]

-- What has been learned is of the host, and it was found only with evidence.
abbrev pub Knows : Text → Learned → Type 0
Knows ip (obs, found) = (obs.ip ≡ ip) × (found ≡ true → 0 < length obs.evidence)

learn-Returns :
    {A : Type 0} (ip : Text) (P : A → Type 0) (f : Learned → A → Learned) (so_far : Learned)
    (r : Reading A)
    → ((a : A) → Knows ip (f so_far a))
    → Knows ip so_far
    → Returns P r
    → Returns (Knows ip) (learn f so_far r)
learn-Returns ip P f so_far (ok a) k s h = k a
learn-Returns ip P f so_far (fail e) k s h = s
learn-Returns ip P f so_far panic k s h = h
learn-Returns ip P f so_far stuck k s h = h

learn_netbios-Knows :
    (ip : Text) (s : Learned) (st : Station) → Knows ip s → Knows ip (learn_netbios s st)
unfolding learn_netbios
learn_netbios-Knows ip (obs, found) st (own, h) = elim (Bool-cases (is_empty st.name)) [
  | inl e ↦ rw e (own, h)
  | inr e ↦ rw e (own, λ _. omega (arith, length-append obs.evidence (_ ∷ [])))
]

learn_mdns-Knows :
    (ip : Text) (s : Learned) (name : Text) → Knows ip s → Knows ip (learn_mdns s name)
unfolding learn_mdns
learn_mdns-Knows ip (obs, found) name (own, h) = elim (Bool-cases (is_empty name)) [
  | inl e ↦ rw e (own, h)
  | inr e ↦ rw e (own, λ _. omega (arith, length-append obs.evidence (_ ∷ [])))
]

request-Returns : (ip : Text) → Returns (λ q. Unit {0}) (mdns_reverse_request ip)
unfolding mdns_reverse_request
request-Returns ip = elim (Option-cases (parse_addr ip)) [
  | inl e ↦ rw (Returns, e) tt
  | inr (v4 n, e) ↦ rw (Returns, e) tt
  | inr (v6 n z, e) ↦ rw (Returns, e) tt
]

query_mdns-Returns :
    (d : NameDiscoverer) (ip : Text) → Returns (λ name. name ≢ []) (query_mdns d ip)
unfolding query_mdns
query_mdns-Returns d ip =
    >>=-Returns (λ q. Unit {0}) (λ name. name ≢ []) (mdns_reverse_request ip) _ (request-Returns ip)
      (λ query _. answered query)
  where
    answered :
        (query : List ℕ)
        → Returns
            (λ name. name ≢ [])
            (reply (d.exchange ip d.cfg.mdns_port query) >>= parse_mdns_ptr_response)
    answered query = elim (Option-cases (d.exchange ip d.cfg.mdns_port query)) [
      | inl e ↦ rw e tt
      | inr (resp, e) ↦ rw e (parse_mdns_ptr_response-Returns resp)
    ]

lookup-Returns : (d : NameDiscoverer) (ip : Text) (now : ℕ) → Returns (Knows ip) (lookup d ip now)
unfolding lookup
lookup-Returns d ip now =
    let start : Knows ip (unnamed ip now, false) = (refl, λ e. cc) in
    >>=-Returns (Knows ip) (Knows ip)
      (learn learn_netbios (unnamed ip now, false) (query_netbios d ip)) _
      (learn-Returns ip Named learn_netbios (unnamed ip now, false) (query_netbios d ip)
        (λ st. learn_netbios-Knows ip (unnamed ip now, false) st start) start
        (query_netbios-Returns d ip))
      (λ s k.
        learn-Returns ip (λ name. name ≢ []) learn_mdns s (query_mdns d ip)
          (λ name. learn_mdns-Knows ip s name k) k (query_mdns-Returns d ip))

-- A target that a name lookup may probe: a single IPv4 host that a prefix of the allowlist contains.
abbrev pub Hits : List Prefix → Text → Type 0
Hits scope t = (a : Addr) × (parse_addr t ≡ some a) × (is4 a ≡ true) × (within_scope a scope ≡ true)

-- What an answer reports on, and that it misses no target.
abbrev Sound : List Prefix → List Text → Answer → Type 0
Sound scope targets answer =
    (obs : Observation)
    → In obs answer.observations
    → In obs.ip targets × Hits scope obs.ip × (0 < length obs.evidence)

abbrev pub Reports : Answer → Text → Type 0
Reports answer t =
    ((obs : Observation) × In obs answer.observations × (obs.ip ≡ t))
    ⊎ ((e : ScanError) × In e answer.errors × (e.target ≡ t))

abbrev Complete : List Prefix → List Text → Answer → Type 0
Complete scope targets answer =
    answer.failure ≡ none → (t : Text) → In t targets → Hits scope t → Reports answer t

abbrev pub Accounts : List Prefix → List Text → Answer → Type 0
Accounts scope targets answer = Sound scope targets answer × Complete scope targets answer

-- What one turn of the loop adds to the answer of the rest.
abbrev Adds : List Prefix → Text → (Answer → Answer) → Type 0
Adds scope t add =
    (targets : List Text) (answer : Answer)
    → Accounts scope targets answer
    → Accounts scope (t ∷ targets) (add answer)

Sound-add_observation :
    (scope : List Prefix) (t : Text) (obs : Observation)
    → Hits scope t
    → obs.ip ≡ t
    → 0 < length obs.evidence
    → Adds scope t (add_observation obs)
Sound-add_observation scope t obs h own ev targets answer (s, c) = (
  λ o m. elim (In-cons m) [
    | inl e ↦ rw e (rw own here, rw own h, ev)
    | inr r ↦ let (i, hits, ev') = s o r in (there i, hits, ev')
  ],
  λ f u m hu. elim (In-cons m) [
    | inl e ↦ inl (obs, here, own ∙ sym e)
    | inr r ↦ elim (c f u r hu) [ inl (o, i, e) ↦ inl (o, there i, e) | inr q ↦ inr q ]
  ],
)

Sound-add_error : (scope : List Prefix) (e : ScanError) → Adds scope e.target (add_error e)
Sound-add_error scope e targets answer (s, c) = (
  λ o m. let (i, hits, ev') = s o m in (there i, hits, ev'),
  λ f u m hu. elim (In-cons m) [
    | inl q ↦ inr (e, here, sym q)
    | inr r ↦ elim (c f u r hu) [ inl q ↦ inl q | inr (x, i, q) ↦ inr (x, there i, q) ]
  ],
)

Adds-skip : (scope : List Prefix) (t : Text) → (Hits scope t → ⊥) → Adds scope t (λ answer. answer)
Adds-skip scope t misses targets answer (s, c) = (
  λ o m. let (i, hits, ev) = s o m in (there i, hits, ev),
  λ f u m hu. elim (In-cons m) [ inl q ↦ absurd (misses (rw q at hu)) | inr r ↦ c f u r hu ],
)

outcome_of-Adds :
    (scope : List Prefix) (t : Text) (learned : Learned)
    → Hits scope t
    → Knows t learned
    → Adds scope t (outcome_of t learned)
outcome_of-Adds scope t (obs, true) h (own, ev) = Sound-add_observation scope t obs h own (ev refl)
outcome_of-Adds scope t (obs, false) h (own, ev) = Sound-add_error scope _

probe-Returns :
    (d : NameDiscoverer) (now : ℕ) (scope : List Prefix) (t : Text)
    → Returns (Adds scope t) (probe d now scope t)
unfolding probe
probe-Returns d now scope t = elim (Option-cases (parse_addr t)) [
  | inl e ↦ rw (Returns, e) (Sound-add_error scope _)
  | inr (a, e) ↦ elim (Bool-cases (is4 a)) [
    | inr not4 ↦ rw (Returns, e, not4) (Sound-add_error scope _)
    | inl four ↦ elim (Bool-cases (within_scope a scope)) [
      | inr out ↦
          rw (Returns, e, four, out)
            (Adds-skip scope t (λ (b, eb, _, w). cc (out, w, some-injective _ _ (sym e ∙ eb))))
      | inl inside ↦
          rw (Returns, e, four, inside)
            (>>=-Returns (Knows t) (Adds scope t) (lookup d t now) _ (lookup-Returns d t now)
              (λ learned k. outcome_of-Adds scope t learned (a, e, four, inside) k))
    ]
  ]
]

Accounts-nil :
    (scope : List Prefix)
    → Accounts scope [] record { observations = []; errors = []; failure = none }
Accounts-nil scope = (λ o m. absurd (not-In-nil m), λ f t m h. absurd (not-In-nil m))

Accounts-failed :
    (scope : List Prefix) (targets : List Text) (e : LookupError)
    → Accounts scope targets (failed e)
Accounts-failed scope targets e = (λ o m. absurd (not-In-nil m), λ f. cc)

pub probe_all-Returns :
    (d : NameDiscoverer) (now : ℕ) (alive : ℕ → Bool) (scope : List Prefix) (targets : List Text)
    → Returns (Accounts scope targets) (probe_all d now alive scope targets)
unfolding probe_all
probe_all-Returns d now alive scope [] = Accounts-nil scope
probe_all-Returns d now alive scope (t ∷ targets) =
    elim (Bool-cases (alive (suc (length targets)))) [
      | inr done ↦ rw done (Accounts-failed scope (t ∷ targets) _)
      | inl live ↦ rw live (
          >>=-Returns (Adds scope t) (Accounts scope (t ∷ targets)) (probe d now scope t) _
            (probe-Returns d now scope t)
            (λ add k.
              >>=-Returns (Accounts scope targets) (Accounts scope (t ∷ targets))
                (probe_all d now alive scope targets) _
                (probe_all-Returns d now alive scope targets) (λ answer h. k targets answer h)))
    ]
