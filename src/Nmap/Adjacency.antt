-- ===== src/Nmap/Adjacency.antt =====
-- internal/scanner/agent/nmap.go: what the class of a target says of the addresses that it covers.
use light_ipam.Base.{
  ◌≤◌, true, false, Option, none, some, ◌⊎◌, inl, inr, Text, if◌then◌else◌, ◌≡◌, ◌≢◌, refl, ◌∙◌,
  arith, Bool-cases, >>=-eq-some as Option_bind,
}
use light_ipam.Netip.{Prefix, Addr, contains, masked, bit_len}
use light_ipam.Netip.Parse.{parse_addr, parse_cidr, prefix_from, zoned, cidr_bits, cut}
use light_ipam.Protocol.Validate.{prefix_within}
use light_ipam.Protocol.Within.{contains_within, contains-masked}
use light_ipam.Protocol.Targets.{prefix_from-bits, masked-bits}
use light_ipam.Nmap.{local, classify_nets, classify_adjacency, classify_token}

-- An address that a target stands for: the host, or one of the network.
abbrev pub Covers : Text → Addr → Type 0
Covers t a =
    (parse_addr t ≡ some a)
    ⊎ ((parse_addr t ≡ none) × ((p : Prefix) × (parse_cidr t ≡ some p) × (contains p a ≡ true)))

parse_cidr-bits : (s : Text) {p : Prefix} → parse_cidr s ≡ some p → p.bits ≤ bit_len p.addr
unfolding parse_cidr
parse_cidr-bits s h =
    let (a, _, h2) = Option_bind (parse_addr (cut b'/' s).0) _ h in
    let (k, _, h3) =
      Option_bind (if zoned a then none else cidr_bits (cut b'/' s).1) (prefix_from a) h2 in
    prefix_from-bits a k h3

classify_nets-within : (src t : Prefix) → classify_nets src t ≡ local → prefix_within t src ≡ true
unfolding classify_nets prefix_within
classify_nets-within src t h = ground arith

host-local :
    (src : Prefix) (a : Addr) (o : Option Prefix)
    → classify_token src (some a) o ≡ local
    → contains src a ≡ true
host-local src a o h = ground arith

pub local-contains :
    (src : Prefix) (t : Text) (a : Addr)
    → classify_adjacency t (some src) ≡ local
    → Covers t a
    → contains src a ≡ true
unfolding classify_adjacency
local-contains src t a h (inl e) = host-local src a (parse_cidr t) (rw e at h)
local-contains src t a h (inr (e, (p, parsed, inside))) =
    let h1 : classify_token src none (parse_cidr t) ≡ local = rw e at h in
    let h2 : classify_nets src (masked p) ≡ local = rw parsed at h1 in
    contains_within (masked p) src a (masked-bits p (parse_cidr-bits t parsed))
      (classify_nets-within src (masked p) h2) (contains-masked p a ∙ inside)

pub outside :
    (src : Prefix) (t : Text) (a : Addr)
    → classify_adjacency t (some src) ≢ local
    → parse_addr t ≡ some a
    → contains src a ≡ false
unfolding classify_adjacency
outside src t a h e =
    let h1 : classify_token src (some a) (parse_cidr t) ≢ local = rw e at h in
    elim (Bool-cases (contains src a)) [ inl c ↦ absurd (h1 (rw c refl)) | inr c ↦ c ]
