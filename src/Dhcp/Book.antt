-- ===== src/Dhcp/Book.antt =====
-- The leases that a lease file leaves: for each address its last lease, and each address once.
use mathlib.Core.Option.{some-injective}
use light_ipam.Base.{
  In-map-intro, In-map-elim, Bool, true, false, List, [], ◌∷◌, Option, none, some, is_some, Text,
  map, any, any-In, In-any, same, same_refl, if◌then◌else◌, All, same_comm, same-eq, ◌≡◌, ◌≢◌, ◌↔◌,
  inl, inr, refl, sym, ap, subst, ◌∙◌, arith, Bool-cases, Option-cases, In, here, there,
}
use light_ipam.Combined.Hosts.{IsHostList, IsHostList-concat, any-append}
use light_ipam.Dhcp.{Lease, Leases, nothing_kept, keep, or_no_lease, collect_leases}

true-false : false ≡ true → ⊥
true-false h = cc

none-some : {A : Type 0} {a : A} → none ≡ some a → ⊥
none-some h = cc

-- The last lease of an address in a list.
unfoldable pub last_for : Text → List Lease → Option Lease
unfolding same
last_for ip [] = none
last_for ip (lease ∷ leases) = elim (last_for ip leases) [
  | some later ↦ some later
  | none ↦ if same lease.ip ip then some lease else none
]

unfoldable pub keep_all : Leases → List Lease → Leases
unfolding keep
keep_all kept [] = kept
keep_all kept (lease ∷ leases) = keep_all (keep kept lease) leases

abbrev or_before : Option Lease → Option Lease → Option Lease
or_before none before = before
or_before (some later) before = some later

or_before-elim :
    (o : Option Lease) (b : Bool) (lease : Lease) (before : Option Lease)
    → or_before o (if b then some lease else before)
      ≡ or_before
          (elim o [ some later ↦ some later | none ↦ if b then some lease else none ])
          before
or_before-elim (some later) b lease before = refl
or_before-elim none true lease before = refl
or_before-elim none false lease before = refl

or_before-none : (o : Option Lease) → or_before o none ≡ o
or_before-none none = refl
or_before-none (some l) = refl

-- After a list of leases, an address has its last lease there, or else the one it had.
by_ip-keep_all :
    (kept : Leases) (leases : List Lease) (ip : Text)
    → (keep_all kept leases).by_ip ip ≡ or_before (last_for ip leases) (kept.by_ip ip)
unfolding keep_all keep last_for
by_ip-keep_all kept [] ip = refl
by_ip-keep_all kept (lease ∷ leases) ip =
    by_ip-keep_all (keep kept lease) leases ip
    ∙ or_before-elim (last_for ip leases) (same lease.ip ip) lease (kept.by_ip ip)

-- The order lists the addresses that have a lease, each once.
abbrev Ordered : Leases → Type 0
Ordered kept =
    IsHostList kept.order × ((ip : Text) → any (same ip) kept.order ≡ is_some (kept.by_ip ip))

keep-Ordered :
    (kept : Leases) (lease : Lease) → lease.ip ≢ [] → Ordered kept → Ordered (keep kept lease)
unfolding keep any
keep-Ordered kept lease ne (d, h) = elim (Bool-cases (is_some (kept.by_ip lease.ip))) [
  | inl seen ↦ rw seen (
    d,
    λ ip. elim (Bool-cases (same lease.ip ip)) [
      | inl e ↦ rw e (h ip ∙ (rw (same-eq lease.ip ip e) at seen))
      | inr e ↦ rw e (h ip)
    ],
  )
  | inr unseen ↦ rw unseen (
    IsHostList-concat kept.order lease.ip d ne (h lease.ip ∙ unseen),
    λ ip. any-append (same ip) kept.order (lease.ip ∷ []) ∙ added ip (h ip),
  )
]
  where
    added :
        (ip : Text)
        → any (same ip) kept.order ≡ is_some (kept.by_ip ip)
        → (if any (same ip) kept.order then true else if same ip lease.ip then true else false)
          ≡ is_some (if same lease.ip ip then some lease else kept.by_ip ip)
    added ip e = ground (arith, e, same_comm ip lease.ip)

keep_all-Ordered :
    (kept : Leases) (leases : List Lease)
    → All (λ l. l.ip ≢ []) leases
    → Ordered kept
    → Ordered (keep_all kept leases)
unfolding keep_all
keep_all-Ordered kept [] h o = o
keep_all-Ordered kept (lease ∷ leases) (h, hs) o =
    keep_all-Ordered (keep kept lease) leases hs (keep-Ordered kept lease h o)

pub last_for-ip :
    (ip : Text) (leases : List Lease) (l : Lease) → last_for ip leases ≡ some l → l.ip ≡ ip
unfolding last_for
last_for-ip ip [] l h = cc
last_for-ip ip (lease ∷ leases) l h = elim (Option-cases (last_for ip leases)) [
  | inr (later, e) ↦ last_for-ip ip leases l (e ∙ (rw e at h))
  | inl e ↦ elim (Bool-cases (same lease.ip ip)) [
    | inl own ↦
        ap (λ l. l.ip) (sym (some-injective _ _ (rw (e, own) at h))) ∙ same-eq lease.ip ip own
    | inr other ↦ absurd (none-some (rw (e, other) at h))
  ]
]

pub last_for-In :
    (ip : Text) (leases : List Lease) (l : Lease) → last_for ip leases ≡ some l → In l leases
unfolding last_for
last_for-In ip [] l h = cc
last_for-In ip (lease ∷ leases) l h = elim (Option-cases (last_for ip leases)) [
  | inr (later, e) ↦ there (last_for-In ip leases l (e ∙ (rw e at h)))
  | inl e ↦ elim (Bool-cases (same lease.ip ip)) [
    | inl own ↦ rw (some-injective _ _ (rw (e, own) at h)) here
    | inr other ↦ absurd (none-some (rw (e, other) at h))
  ]
]

map_ip-from :
    (kept : Leases) (ips : List Text)
    → ((ip : Text) → In ip ips → (l : Lease) × (kept.by_ip ip ≡ some l) × (l.ip ≡ ip))
    → map (λ l. l.ip) (map (λ ip. or_no_lease (kept.by_ip ip)) ips) ≡ ips
map_ip-from kept [] h = refl
map_ip-from kept (ip ∷ ips) h =
    let (l, e, own) = h ip here in rw (e, own, map_ip-from kept ips (λ i m. h i (there m))) refl

-- What a file leaves: every address once, none empty, and exactly the last lease of each address.
pub record IsLatest (given : List Lease) (result : List Lease) : Type 0 where
  pub once : IsHostList (map (λ l. l.ip) result)
  pub latest : (l : Lease) → In l result ↔ (last_for l.ip given ≡ some l)

module _ (given : List Lease) (named : All (λ l. l.ip ≢ []) given) where
  abbrev final : Leases
  final = keep_all nothing_kept given

  final-Ordered : Ordered final
  unfolding any
  final-Ordered = keep_all-Ordered nothing_kept given named (tt, λ ip. refl)

  final-by_ip : (ip : Text) → final.by_ip ip ≡ last_for ip given
  final-by_ip ip = by_ip-keep_all nothing_kept given ip ∙ or_before-none (last_for ip given)

  final-In : (ip : Text) → In ip final.order → (l : Lease) × (final.by_ip ip ≡ some l) × (l.ip ≡ ip)
  final-In ip m =
      let seen : is_some (final.by_ip ip) ≡ true =
        sym (final-Ordered.1 ip) ∙ In-any (same ip) m (same_refl ip) in
      elim (Option-cases (final.by_ip ip)) [
        | inl e ↦ absurd (true-false (rw e at seen))
        | inr (l, e) ↦ (l, e, last_for-ip ip given l (sym (final-by_ip ip) ∙ e))
      ]

  pub collect_leases-IsLatest : IsLatest given (collect_leases final)
  unfolding collect_leases
  collect_leases-IsLatest = record {
    once = rw (map_ip-from final final.order final-In) final-Ordered.0;
    latest = λ l. (to l, from l);
  }
    where
      to : (l : Lease) → In l (collect_leases final) → last_for l.ip given ≡ some l
      to l m =
          let (ip, i, e) = In-map-elim (λ ip. or_no_lease (final.by_ip ip)) l final.order m in
          let (l', found, own) = final-In ip i in
          let same_lease : l' ≡ l = (rw found at e) in
          let at : l.ip ≡ ip = ap (λ x. x.ip) (sym same_lease) ∙ own in
          subst (λ a. last_for a given ≡ some l) (sym at)
            (sym (final-by_ip ip) ∙ found ∙ ap some same_lease)

      from : (l : Lease) → last_for l.ip given ≡ some l → In l (collect_leases final)
      from l h =
          let found : final.by_ip l.ip ≡ some l = final-by_ip l.ip ∙ h in
          let listed : any (same l.ip) final.order ≡ true =
            final-Ordered.1 l.ip ∙ ap is_some found in
          let (ip, m, e) = any-In (same l.ip) final.order listed in
          let i : In l.ip final.order = rw (same-eq l.ip ip e) m in
          subst (λ x. In x (collect_leases final)) (ap or_no_lease found)
            (In-map-intro (λ ip. or_no_lease (final.by_ip ip)) i)
