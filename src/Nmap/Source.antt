-- ===== src/Nmap/Source.antt =====
-- internal/scanner/agent/nmap.go: where the addresses that `Discover` reports come from.
use light_ipam.Base.{
  ℕ, true, not, ◌&&◌, List, [], ◌∷◌, ◌⊎◌, inl, inr, Text, codes, same, same-eq, is_empty, ◌≡◌, ◌≢◌,
  refl, sym, ap, subst, ◌∙◌, arith, Bool-cases, In, here, there, In-cons, not-In-nil, and-eq-true,
}
use light_ipam.Protocol.{Observation}
use light_ipam.Nmap.Xml.{
  NmapHost, NmapAddress, with_address, with_addresses, host_observation, parse_nmap_xml, is_up,
  up_at, with_os, NmapOsMatch,
}

-- Some address of the host is the IPv4 address given.
abbrev pub HasIpv4 : List NmapAddress → Text → Type 0
HasIpv4 addresses ip =
    (a : NmapAddress) × In a addresses × (a.addr_type ≡ codes "ipv4") × (a.addr ≡ ip)

with_address-ip :
    (obs : Observation) (a : NmapAddress)
    → ((with_address obs a).ip ≡ obs.ip)
      ⊎ ((a.addr_type ≡ codes "ipv4") × (a.addr ≡ (with_address obs a).ip))
unfolding with_address
with_address-ip obs a = elim (Bool-cases (same a.addr_type (codes "ipv4"))) [
  | inl e ↦ inr (same-eq _ _ e, rw (with_address, e) refl)
  | inr e ↦ inl (ground arith)
]

with_addresses-ip :
    (obs : Observation) (addresses : List NmapAddress)
    → ((with_addresses obs addresses).ip ≡ obs.ip)
      ⊎ HasIpv4 addresses (with_addresses obs addresses).ip
unfolding with_addresses
with_addresses-ip obs [] = inl refl
with_addresses-ip obs (a ∷ addresses) = elim (with_addresses-ip (with_address obs a) addresses) [
  | inr (b, m, t, e) ↦ inr (b, there m, t, e)
  | inl e ↦ elim (with_address-ip obs a) [
    | inl e' ↦ inl (e ∙ e')
    | inr (t, e') ↦ inr (a, here, t, e' ∙ sym e)
  ]
]

with_os-ip : (obs : Observation) (matches : List NmapOsMatch) → (with_os obs matches).ip ≡ obs.ip
with_os-ip obs [] = refl
with_os-ip obs (best ∷ matches) = refl

host_observation-ip :
    (now : ℕ) (host : NmapHost)
    → (host_observation now host).ip ≡ (with_addresses (up_at now) host.addresses).ip
unfolding host_observation
host_observation-ip now host = with_os-ip _ host.os_matches

-- A host that is up and has the address.
abbrev pub HasUp : List NmapHost → Text → Type 0
HasUp hosts ip =
    (host : NmapHost) × In host hosts × (is_up host.status ≡ true) × HasIpv4 host.addresses ip

kept-Ipv4 :
    (now : ℕ) (host : NmapHost)
    → not (is_empty (host_observation now host).ip) ≡ true
    → HasIpv4 host.addresses (host_observation now host).ip
kept-Ipv4 now host h = elim (with_addresses-ip (up_at now) host.addresses) [
  | inl e ↦ absurd (blank (host_observation-ip now host ∙ e))
  | inr found ↦ subst (HasIpv4 host.addresses) (sym (host_observation-ip now host)) found
]
  where
    blank : (host_observation now host).ip ≢ []
    blank e = cc (sym h ∙ ap (λ ip. not (is_empty ip)) e)

pub parse_nmap_xml-HasUp :
    (now : ℕ) (hosts : List NmapHost) (o : Observation)
    → In o (parse_nmap_xml now hosts)
    → HasUp hosts o.ip
unfolding parse_nmap_xml
parse_nmap_xml-HasUp now [] o m = absurd (not-In-nil m)
parse_nmap_xml-HasUp now (host ∷ hosts) o m =
    elim (Bool-cases (is_up host.status && not (is_empty (host_observation now host).ip))) [
      | inr e ↦
          let (x, mx, up, has) = parse_nmap_xml-HasUp now hosts o (rw (parse_nmap_xml, e) at m) in
          (x, there mx, up, has)
      | inl e ↦ elim (In-cons (rw (parse_nmap_xml, e) at m)) [
        | inr later ↦
            let (x, mx, up, has) = parse_nmap_xml-HasUp now hosts o later in (x, there mx, up, has)
        | inl q ↦
            let (up, some_ip) = and-eq-true e in
            (
              host,
              here,
              up,
              subst (λ (y : Observation). HasIpv4 host.addresses y.ip) (sym q)
                  (kept-Ipv4 now host some_ip),
            )
      ]
    ]
