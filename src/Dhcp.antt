-- ===== src/Dhcp.antt =====
-- internal/scanner/agent/dhcp.go: the leases of a DHCP server as observations. This file has
-- the lines of a file, the leases kept and the dnsmasq format; Dhcp/Isc.antt has the ISC format and
-- Dhcp/Discover.antt `Discover`. Dhcp/Book.antt is about the leases kept, Dhcp/Lines.antt and
-- Dhcp/Blocks.antt about the two formats. A file is a text, and the calls of Go's `time` package are
-- an argument.
pub mod Isc
pub mod Discover
pub mod Book
pub mod Lines
pub mod Finished
pub mod Blocks
pub mod Active
use mathlib.Core.List.{foldl}
use light_ipam.Base.{
  ℕ, zero, suc, ◌+◌, ◌^◌, ◌<◌, Bool, true, false, not, ◌&&◌, ◌||◌, List, [], ◌∷◌, ◌++◌, Option,
  none, some, is_some, ◌>>=◌, Text, codes, length, map, any, is_empty, is_space, same, split,
  trim_space, trim_left, trim_right, trim_prefix, trim_suffix, has_prefix, has_suffix, to_lower,
  ltb, leb, ◌==◌, if◌then◌else◌,
}
use light_ipam.Netip.{Addr, Prefix, v4, v6, is4, masked, contains, bit_len}
use light_ipam.Netip.Parse.{parse_addr, parse_prefix, decimal}
use light_ipam.Protocol.{ScanJob, Observation, Evidence, ScanError}
use light_ipam.Names.Lookup.{is_passive, within_scope}

-- `dhcpLease`; zero is Go's zero time.
pub record Lease : Type 0 where
  pub ip : Text
  pub mac : Text
  pub hostname : Text
  pub expires : ℕ

-- `time.Unix`, `time.Parse` with the layout of a lease file, and `Time.Format`.
pub record Clock : Type 0 where
  pub unix : ℕ → ℕ
  pub parse : Text → Option ℕ
  pub format : ℕ → Text

-- `bufio.Scanner`: the lines without their ends; a line of 64 KiB ends the scan.
abbrev without_last : List Text → List Text
without_last [] = []
without_last ([] ∷ []) = []
without_last (line ∷ lines) = line ∷ without_last lines

unfoldable pub short_lines : List Text → List Text
short_lines [] = []
short_lines (line ∷ lines) =
    let rest = short_lines lines in
    if leb 65536 (length line) then [] else trim_suffix line (13 ∷ []) ∷ rest

unfoldable pub scan_lines : Text → List Text
unfolding short_lines split
scan_lines contents = short_lines (without_last (split 10 contents))

-- `strings.Fields`.
abbrev put : ℕ → Text → List Text → List Text
put c [] fields = (c ∷ []) ∷ fields
put c (d ∷ s) [] = (c ∷ []) ∷ []
put c (d ∷ s) (f ∷ fields) = if is_space d then (c ∷ []) ∷ f ∷ fields else (c ∷ f) ∷ fields

unfoldable pub fields : Text → List Text
unfolding is_space
fields [] = []
fields (c ∷ s) = let rest = fields s in if is_space c then rest else put c s rest

-- `normalizeMAC`.
unfoldable pub normalize_mac : Text → Text
unfolding trim_space to_lower same
normalize_mac mac = let mac = trim_space (to_lower mac) in if same mac (codes "*") then [] else mac

-- The leases by address, and the addresses in the order in which they came.
pub record Leases : Type 0 where
  pub by_ip : Text → Option Lease
  pub order : List Text

abbrev pub nothing_kept : Leases
nothing_kept = record { by_ip = λ ip. none; order = [] }

unfoldable pub keep : Leases → Lease → Leases
unfolding same
keep leases lease = record {
  by_ip = λ ip. if same lease.ip ip then some lease else leases.by_ip ip;
  order = if is_some (leases.by_ip lease.ip) then leases.order else leases.order ++ lease.ip ∷ [];
}

abbrev pub no_lease : Lease
no_lease = record { ip = []; mac = []; hostname = []; expires = 0 }

abbrev pub or_no_lease : Option Lease → Lease
or_no_lease none = no_lease
or_no_lease (some lease) = lease

-- `collectLeases`.
unfoldable pub collect_leases : Leases → List Lease
collect_leases leases = map (λ ip. or_no_lease (leases.by_ip ip)) leases.order

-- `strconv.ParseInt` in base 10, where its value is positive.
abbrev in_range : ℕ → Option ℕ
in_range n = if leb 1 n && ltb n (2 ^ 63) then some n else none

unfoldable pub positive_int : Text → Option ℕ
unfolding decimal
positive_int [] = none
positive_int (c ∷ s) = (if c == b'+' then decimal s else decimal (c ∷ s)) >>= in_range

abbrev unix_or_zero : Clock → Option ℕ → ℕ
unix_or_zero clock none = 0
unix_or_zero clock (some epoch) = clock.unix epoch

-- The loop of `parseDnsmasqLeases`: the lease of a line, if it has one.
unfoldable pub dnsmasq_lease : Clock → List Text → Option Lease
unfolding normalize_mac positive_int same
dnsmasq_lease clock (epoch ∷ mac ∷ ip ∷ h ∷ more) =
    if is_empty ip
    then none
    else some record {
      ip = ip;
      mac = normalize_mac mac;
      hostname = if is_empty h || same h (codes "*") then [] else h;
      expires = unix_or_zero clock (positive_int epoch);
    }
dnsmasq_lease clock _ = none

abbrev pub keep_some : Leases → Option Lease → Leases
keep_some leases none = leases
keep_some leases (some lease) = keep leases lease

unfoldable pub keep_lines : Clock → Leases → List Text → Leases
unfolding keep fields dnsmasq_lease
keep_lines clock leases [] = leases
keep_lines clock leases (line ∷ lines) =
    keep_lines clock (keep_some leases (dnsmasq_lease clock (fields line))) lines

unfoldable pub parse_dnsmasq_leases : Clock → Text → List Lease
unfolding keep_lines collect_leases scan_lines
parse_dnsmasq_leases clock contents =
    collect_leases (keep_lines clock nothing_kept (scan_lines contents))
