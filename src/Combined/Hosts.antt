-- ===== src/Combined/Hosts.antt =====
-- Which hosts `unionHosts` and `mergeObservations` (internal/scanner/agent/combined.go) keep.
use light_ipam.Base.{
  Bool, true, false, List, [], ◌∷◌, ◌++◌, Text, same, same_comm, same_iff, is_empty, is_empty-eq,
  any, if◌then◌else◌, ◌≡◌, ◌≢◌, ◌↔◌, ◌⊎◌, refl, sym, ap, ◌∙◌, arith, map, Bool-cases, inl, inr,
  subst, In, here, there, In-append, In-append_left, In-append_right, any-In, not-In-nil, In-cons,
}
use light_ipam.Protocol.{Observation}
use light_ipam.Combined.Merge.{
  upsert, merge_from, merge_observations, union_from, union_hosts, keep_host,
}

-- No text is twice in the list, and none is empty.
abbrev pub IsHostList : List Text → Type 0
IsHostList [] = Unit {0}
IsHostList (h ∷ hs) = (h ≢ []) × (any (same h) hs ≡ false) × IsHostList hs

pub any-append :
    (p : Text → Bool) (xs ys : List Text) → any p (xs ++ ys) ≡ (if any p xs then true else any p ys)
unfolding any
any-append p [] ys = refl
any-append p (x ∷ xs) ys = ground (arith, any-append p xs ys)

pub IsHostList-concat :
    (hs : List Text) (h : Text)
    → IsHostList hs
    → h ≢ []
    → any (same h) hs ≡ false
    → IsHostList (hs ++ h ∷ [])
unfolding any
IsHostList-concat [] h d n f = (n, refl, tt)
IsHostList-concat (x ∷ hs) h (nx, fx, d) n f = (
  nx,
  ground (arith, any-append (same x) hs (h ∷ []), same_comm x h),
  IsHostList-concat hs h d n (ground arith),
)

keep_host-IsHostList : (out : List Text) (h : Text) → IsHostList out → IsHostList (keep_host out h)
unfolding keep_host
keep_host-IsHostList out h d = elim (Bool-cases (is_empty h)) [
  | inl e ↦ rw e d
  | inr e ↦ elim (Bool-cases (any (same h) out)) [
    | inl f ↦ rw (e, f) d
    | inr f ↦ rw (e, f) (IsHostList-concat out h d (λ n. cc (ap is_empty n)) f)
  ]
]

pub union_from-IsHostList : (out hs : List Text) → IsHostList out → IsHostList (union_from out hs)
unfolding union_from
union_from-IsHostList out [] d = d
union_from-IsHostList out (h ∷ hs) d =
    union_from-IsHostList (keep_host out h) hs (keep_host-IsHostList out h d)

In-keep_host : (out : List Text) (x h : Text) → In h (keep_host out x) → In h out ⊎ (h ≡ x)
unfolding keep_host
In-keep_host out x h m = elim (Bool-cases (is_empty x)) [
  | inl e ↦ inl (rw e at m)
  | inr e ↦ elim (Bool-cases (any (same x) out)) [
    | inl f ↦ inl (rw (e, f) at m)
    | inr f ↦ elim (In-append out (x ∷ []) (rw (e, f) at m)) [
      | inl l ↦ inl l
      | inr r ↦ elim (In-cons r) [ inl q ↦ inr q | inr none_left ↦ absurd (not-In-nil none_left) ]
    ]
  ]
]

keep_host-In : (out : List Text) (x h : Text) → In h out → In h (keep_host out x)
unfolding keep_host
keep_host-In out x h m = elim (Bool-cases (is_empty x)) [
  | inl e ↦ rw e m
  | inr e ↦ elim (Bool-cases (any (same x) out)) [
    | inl f ↦ rw (e, f) m
    | inr f ↦ rw (e, f) (In-append_left (x ∷ []) m)
  ]
]

keep_host-In_self : (out : List Text) (x : Text) → x ≢ [] → In x (keep_host out x)
unfolding keep_host
keep_host-In_self out x n = elim (Bool-cases (is_empty x)) [
  | inl e ↦ absurd (n (is_empty-eq x e))
  | inr e ↦ elim (Bool-cases (any (same x) out)) [
    | inl f ↦
        let (y, m, q) = any-In (same x) out f in
        rw (e, f) (subst (λ z. In z out) (sym ((same_iff x y).0 q)) m)
    | inr f ↦ rw (e, f) (In-append_right out here)
  ]
]

pub In-union_from : (out hs : List Text) (h : Text) → In h (union_from out hs) → In h out ⊎ In h hs
unfolding union_from
In-union_from out [] h m = inl m
In-union_from out (x ∷ hs) h m = elim (In-union_from (keep_host out x) hs h m) [
  | inr later ↦ inr (there later)
  | inl kept ↦ elim (In-keep_host out x h kept) [
    | inl old ↦ inl old
    | inr q ↦ inr (subst (λ z. In z (x ∷ hs)) (sym q) here)
  ]
]

union_from-In_out : (out hs : List Text) (h : Text) → In h out → In h (union_from out hs)
unfolding union_from
union_from-In_out out [] h m = m
union_from-In_out out (x ∷ hs) h m =
    union_from-In_out (keep_host out x) hs h (keep_host-In out x h m)

pub union_from-In : (out hs : List Text) (h : Text) → h ≢ [] → In h hs → In h (union_from out hs)
unfolding union_from
union_from-In out [] h n m = elim m [ ]
union_from-In out (x ∷ hs) h n m = elim (In-cons m) [
  | inl q ↦
      union_from-In_out (keep_host out x) hs h (rw q (keep_host-In_self out x (λ e. n (q ∙ e))))
  | inr later ↦ union_from-In (keep_host out x) hs h n later
]

-- The union of two host lists has no blank and no host twice, and it holds a host that is not
-- blank exactly when one of the lists does.
pub union_hosts_lem :
    (a b : List Text)
    → IsHostList (union_hosts a b)
      × ((h : Text) → h ≢ [] → In h (union_hosts a b) ↔ (In h a ⊎ In h b))
unfolding union_hosts
union_hosts_lem a b = (
  union_from-IsHostList (union_from [] a) b (union_from-IsHostList [] a tt),
  λ h n. (
    (λ m. elim (In-union_from (union_from [] a) b h m) [
      | inr right ↦ inr right
      | inl left ↦ elim (In-union_from [] a h left) [
        | inl nowhere ↦ absurd (not-In-nil nowhere)
        | inr there_a ↦ inl there_a
      ]
    ]),
    λ m. elim m [
      | inl left ↦ union_from-In_out (union_from [] a) b h (union_from-In [] a h n left)
      | inr right ↦ union_from-In (union_from [] a) b h n right
    ],
  ),
)

map_ip-upsert :
    (out : List Observation) (o : Observation)
    → map Observation.ip (upsert out o) ≡ (
        if any (same o.ip) (map Observation.ip out)
        then map Observation.ip out
        else map Observation.ip out ++ o.ip ∷ [])
unfolding upsert any
map_ip-upsert [] o = refl
map_ip-upsert (b ∷ out) o = ground (arith, map_ip-upsert out o, same_comm b.ip o.ip)

map_ip-step :
    (out : List Observation) (o : Observation)
    → map Observation.ip (if is_empty o.ip then out else upsert out o)
      ≡ keep_host (map Observation.ip out) o.ip
unfolding keep_host
map_ip-step out o = ground (arith, map_ip-upsert out o)

map_ip-merge_from :
    (out obss : List Observation)
    → map Observation.ip (merge_from out obss)
      ≡ union_from (map Observation.ip out) (map Observation.ip obss)
unfolding merge_from union_from
map_ip-merge_from out [] = refl
map_ip-merge_from out (o ∷ obss) =
    map_ip-merge_from (if is_empty o.ip then out else upsert out o) obss
    ∙ ap (λ hosts. union_from hosts (map Observation.ip obss)) (map_ip-step out o)

-- Merging and the union of hosts agree: the addresses of the merged records are the union of the
-- observed addresses, in first-seen order, each once and none blank.
pub map_ip-merge_observations :
    (obss : List Observation)
    → (map Observation.ip (merge_observations obss) ≡ union_hosts (map Observation.ip obss) [])
      × IsHostList (map Observation.ip (merge_observations obss))
unfolding merge_observations union_hosts
map_ip-merge_observations obss =
    let e = map_ip-merge_from [] obss in
    (e, rw e (union_from-IsHostList [] (map Observation.ip obss) tt))

pub merged_has :
    (ip : Text) (obss : List Observation)
    → ip ≢ []
    → In ip (map Observation.ip obss)
    → In ip (map Observation.ip (merge_observations obss))
merged_has ip obss n m =
    rw (map_ip-merge_observations obss).0
      (((union_hosts_lem (map Observation.ip obss) []).1 ip n).1 (inl m))
