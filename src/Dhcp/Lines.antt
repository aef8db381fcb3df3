-- ===== src/Dhcp/Lines.antt =====
-- Which leases `parseDnsmasqLeases` reports.
use light_ipam.Base.{
  false, List, [], ◌∷◌, Option, none, some, Text, is_empty, ◌≡◌, ◌≢◌, inl, inr, refl, ◌∙◌,
  Bool-cases, All,
}
use light_ipam.Dhcp.{
  Lease, Clock, Leases, nothing_kept, keep_some, keep_lines, fields, scan_lines, dnsmasq_lease,
  parse_dnsmasq_leases,
}
use light_ipam.Dhcp.Book.{keep_all, IsLatest, collect_leases-IsLatest}

abbrev pub and_more : Option Lease → List Lease → List Lease
and_more none leases = leases
and_more (some lease) leases = lease ∷ leases

-- The leases of the lines of a dnsmasq file, in the order of the file.
unfoldable pub lines_leases : Clock → List Text → List Lease
unfolding dnsmasq_lease fields
lines_leases clock [] = []
lines_leases clock (line ∷ lines) =
    and_more (dnsmasq_lease clock (fields line)) (lines_leases clock lines)

pub keep_some-keep_all :
    (kept : Leases) (o : Option Lease) (leases : List Lease)
    → keep_all (keep_some kept o) leases ≡ keep_all kept (and_more o leases)
unfolding keep_all
keep_some-keep_all kept none leases = refl
keep_some-keep_all kept (some l) leases = refl

keep_lines-keep_all :
    (clock : Clock) (kept : Leases) (lines : List Text)
    → keep_lines clock kept lines ≡ keep_all kept (lines_leases clock lines)
unfolding keep_lines lines_leases keep_all
keep_lines-keep_all clock kept [] = refl
keep_lines-keep_all clock kept (line ∷ lines) =
    keep_lines-keep_all clock (keep_some kept (dnsmasq_lease clock (fields line))) lines
    ∙ keep_some-keep_all kept (dnsmasq_lease clock (fields line)) (lines_leases clock lines)

abbrev pub Named : List Lease → Type 0
Named = All (λ l. l.ip ≢ [])

abbrev pub MaybeNamed : Option Lease → Type 0
MaybeNamed none = Unit {0}
MaybeNamed (some l) = l.ip ≢ []

pub nonempty : (s : Text) → is_empty s ≡ false → s ≢ []
nonempty [] h = λ e. cc
nonempty (c ∷ s) h = λ e. cc

dnsmasq_lease-Named : (clock : Clock) (parts : List Text) → MaybeNamed (dnsmasq_lease clock parts)
unfolding dnsmasq_lease
dnsmasq_lease-Named clock [] = tt
dnsmasq_lease-Named clock (a ∷ []) = tt
dnsmasq_lease-Named clock (a ∷ b ∷ []) = tt
dnsmasq_lease-Named clock (a ∷ b ∷ c ∷ []) = tt
dnsmasq_lease-Named clock (epoch ∷ mac ∷ ip ∷ h ∷ more) = elim (Bool-cases (is_empty ip)) [
  | inl e ↦ rw e tt
  | inr e ↦ rw e (nonempty ip e)
]

pub and_more-Named :
    (o : Option Lease) (leases : List Lease)
    → MaybeNamed o
    → Named leases
    → Named (and_more o leases)
and_more-Named none leases h hs = hs
and_more-Named (some l) leases h hs = (h, hs)

lines_leases-Named : (clock : Clock) (lines : List Text) → Named (lines_leases clock lines)
unfolding lines_leases
lines_leases-Named clock [] = tt
lines_leases-Named clock (line ∷ lines) =
    and_more-Named (dnsmasq_lease clock (fields line)) (lines_leases clock lines)
      (dnsmasq_lease-Named clock (fields line)) (lines_leases-Named clock lines)

-- `parseDnsmasqLeases` reports each address once, none of them empty, and a lease is reported exactly
-- if it is the last lease that the lines of the file give for its address.
pub parse_dnsmasq_leases-IsLatest :
    (clock : Clock) (contents : Text)
    → IsLatest (lines_leases clock (scan_lines contents)) (parse_dnsmasq_leases clock contents)
unfolding parse_dnsmasq_leases
parse_dnsmasq_leases-IsLatest clock contents =
    rw (keep_lines-keep_all clock nothing_kept (scan_lines contents)) (
      collect_leases-IsLatest (lines_leases clock (scan_lines contents))
        (lines_leases-Named clock (scan_lines contents)))
