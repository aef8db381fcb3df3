-- ===== src/Combined/MergeLaws.antt =====
-- What `mergeObservations` (internal/scanner/agent/combined.go) makes of the observations of one
-- address: one record, in which the leading source wins and no evidence is lost.
use light_ipam.Base.{
  ℕ, zero, suc, List, [], ◌∷◌, ◌++◌, Text, same, same_iff, is_empty, is_empty-eq, if◌then◌else◌,
  ◌≡◌, ◌≢◌, refl, sym, ap, ◌∙◌, arith, Option, none, some, append_assoc, append-nil, Bool-cases,
  inl, inr,
}
use light_ipam.Protocol.{Observation, Evidence}
use light_ipam.Combined.Merge.{
  or_text, or_number, merge_into, upsert, merge_from, merge_observations,
}

-- The record of an address.
abbrev pub find_ip : Text → List Observation → Option Observation
find_ip ip [] = none
find_ip ip (o ∷ os) = if same o.ip ip then some o else find_ip ip os

-- The values of a field over the observations of an address, in order, put together.
abbrev pub gather {ℓ} :
    {M : Type ℓ} → (M → M → M) → M → (Observation → M) → Text → List Observation → M
gather op unit f ip [] = unit
gather op unit f ip (o ∷ os) =
    if same o.ip ip then op (f o) (gather op unit f ip os) else gather op unit f ip os

-- The first text that one of them gives, the first number, and all their evidence.
abbrev pub first_text : (Observation → Text) → Text → List Observation → Text
first_text = gather or_text []

abbrev pub first_number : (Observation → ℕ) → Text → List Observation → ℕ
first_number = gather or_number 0

abbrev pub all_evidence : Text → List Observation → List Evidence
all_evidence = gather ◌++◌ [] Observation.evidence

-- The observations of one address, absorbed one after the other.
abbrev absorb : Option Observation → Observation → Option Observation
absorb none o = some o
absorb (some base) o = some (merge_into base o)

absorb_all : Text → Option Observation → List Observation → Option Observation
absorb_all ip acc [] = acc
absorb_all ip acc (o ∷ os) = absorb_all ip (if same o.ip ip then absorb acc o else acc) os

find_ip-upsert :
    (ip : Text) (out : List Observation) (o : Observation)
    → find_ip ip (upsert out o)
      ≡ (if same o.ip ip then absorb (find_ip ip out) o else find_ip ip out)
unfolding upsert
find_ip-upsert ip [] o = refl
find_ip-upsert ip (b ∷ out) o =
    ground (arith, find_ip-upsert ip out o, same_iff b.ip o.ip, same_iff b.ip ip, same_iff o.ip ip)

find_ip-step :
    (ip : Text) (out : List Observation) (o : Observation)
    → ip ≢ []
    → find_ip ip (if is_empty o.ip then out else upsert out o)
      ≡ (if same o.ip ip then absorb (find_ip ip out) o else find_ip ip out)
find_ip-step ip out o h =
    ground (arith, find_ip-upsert ip out o, same_iff o.ip ip, is_empty-eq o.ip)

find_ip-merge_from :
    (ip : Text) (out obss : List Observation)
    → ip ≢ []
    → find_ip ip (merge_from out obss) ≡ absorb_all ip (find_ip ip out) obss
unfolding merge_from absorb_all
find_ip-merge_from ip out [] h = refl
find_ip-merge_from ip out (o ∷ obss) h =
    find_ip-merge_from ip (if is_empty o.ip then out else upsert out o) obss h
    ∙ ap (λ acc. absorb_all ip acc obss) (find_ip-step ip out o h)

-- What a record of an address has, of the observations that it was made of.
pub record IsMergeOf (ip : Text) (obss : List Observation) (r : Observation) : Type 0 where
  pub mac_first : r.mac ≡ first_text Observation.mac ip obss
  pub vendor_first : r.vendor ≡ first_text Observation.vendor ip obss
  pub hostname_first : r.hostname ≡ first_text Observation.hostname ip obss
  pub os_family_first : r.os_family ≡ first_text Observation.os_family ip obss
  pub os_detail_first : r.os_detail ≡ first_text Observation.os_detail ip obss
  pub hw_serial_first : r.hw_serial ≡ first_text Observation.hw_serial ip obss
  pub hw_object_id_first : r.hw_object_id ≡ first_text Observation.hw_object_id ip obss
  pub vlan_first : r.vlan ≡ first_number Observation.vlan ip obss
  pub observed_at_first : r.observed_at ≡ first_number Observation.observed_at ip obss
  pub evidence_kept : r.evidence ≡ all_evidence ip obss

-- A field that merging puts together by an operation with a unit.
module _ {M : Type 0} (op : M → M → M) (unit : M) (f : Observation → M)
    (right_unit : (x : M) → op x unit ≡ x) (assoc : (x y z : M) → op (op x y) z ≡ op x (op y z))
    (hom : (b o : Observation) → f (merge_into b o) ≡ op (f b) (f o)) where
  gather-some :
      (ip : Text) (b : Observation) (obss : List Observation) {r : Observation}
      → absorb_all ip (some b) obss ≡ some r
      → f r ≡ op (f b) (gather op unit f ip obss)
  unfolding absorb_all
  gather-some ip b [] {r} h = let e : b ≡ r = cc in rw (right_unit, e)
  gather-some ip b (o ∷ obss) h = elim (Bool-cases (same o.ip ip)) [
    | inl e ↦ rw e (
        gather-some ip (merge_into b o) obss (rw e at h)
        ∙ ap (λ x. op x (gather op unit f ip obss)) (hom b o)
        ∙ assoc (f b) (f o) (gather op unit f ip obss))
    | inr e ↦ rw e (gather-some ip b obss (rw e at h))
  ]

  gather-none :
      (ip : Text) (obss : List Observation) {r : Observation}
      → absorb_all ip none obss ≡ some r
      → f r ≡ gather op unit f ip obss
  unfolding absorb_all
  gather-none ip [] h = cc
  gather-none ip (o ∷ obss) h = elim (Bool-cases (same o.ip ip)) [
    | inl e ↦ rw e (gather-some ip o obss (rw e at h))
    | inr e ↦ rw e (gather-none ip obss (rw e at h))
  ]

or_text-nil : (s : Text) → or_text s [] ≡ s
or_text-nil [] = refl
or_text-nil (c ∷ s) = refl

pub or_text_assoc : (s t u : Text) → or_text (or_text s t) u ≡ or_text s (or_text t u)
or_text_assoc [] t u = refl
or_text_assoc (c ∷ s) t u = refl

or_number-zero : (n : ℕ) → or_number n 0 ≡ n
or_number-zero zero = refl
or_number-zero (suc n) = refl

or_number_assoc : (a b c : ℕ) → or_number (or_number a b) c ≡ or_number a (or_number b c)
or_number_assoc zero b c = refl
or_number_assoc (suc a) b c = refl

module _ (ip : Text) (obss : List Observation) {r : Observation}
    (found : absorb_all ip none obss ≡ some r) where
  text_field :
      (f : Observation → Text)
      → ((b o : Observation) → f (merge_into b o) ≡ or_text (f b) (f o))
      → f r ≡ first_text f ip obss
  text_field f hom = gather-none or_text [] f or_text-nil or_text_assoc hom ip obss found

  number_field :
      (f : Observation → ℕ)
      → ((b o : Observation) → f (merge_into b o) ≡ or_number (f b) (f o))
      → f r ≡ first_number f ip obss
  number_field f hom = gather-none or_number 0 f or_number-zero or_number_assoc hom ip obss found

  absorb_all-IsMergeOf : IsMergeOf ip obss r
  unfolding merge_into
  absorb_all-IsMergeOf = record {
    mac_first = text_field Observation.mac (λ b o. refl);
    vendor_first = text_field Observation.vendor (λ b o. refl);
    hostname_first = text_field Observation.hostname (λ b o. refl);
    os_family_first = text_field Observation.os_family (λ b o. refl);
    os_detail_first = text_field Observation.os_detail (λ b o. refl);
    hw_serial_first = text_field Observation.hw_serial (λ b o. refl);
    hw_object_id_first = text_field Observation.hw_object_id (λ b o. refl);
    vlan_first = number_field Observation.vlan (λ b o. refl);
    observed_at_first = number_field Observation.observed_at (λ b o. refl);
    evidence_kept =
        gather-none ◌++◌ [] Observation.evidence append-nil append_assoc (λ b o. refl) ip obss
          found;
  }

-- In a merged list, the record of an address has each text and number field from the first
-- observation of that address that gives one, and the evidence of all of them, in order.
pub merge_observations-IsMergeOf :
    (ip : Text) (obss : List Observation) {r : Observation}
    → ip ≢ []
    → find_ip ip (merge_observations obss) ≡ some r
    → IsMergeOf ip obss r
unfolding merge_observations
merge_observations-IsMergeOf ip obss h found =
    absorb_all-IsMergeOf ip obss (sym (find_ip-merge_from ip [] obss h) ∙ found)
