-- ===== src/Dhcp/Isc.antt =====
-- internal/scanner/agent/dhcp.go: the blocks of an ISC lease file.
use light_ipam.Base.{
  ℕ, Bool, true, false, not, ◌&&◌, List, [], ◌∷◌, ◌++◌, Option, none, some, Text, codes, is_empty,
  same, trim_space, trim_left, trim_right, trim_prefix, trim_suffix, has_prefix, has_suffix, ◌==◌,
  if◌then◌else◌,
}
use light_ipam.Dhcp.{
  Lease, Clock, Leases, nothing_kept, no_lease, keep, collect_leases, scan_lines, fields,
  normalize_mac,
}

-- `parseISCTime`.
unfoldable pub parse_isc_time : Clock → Text → Option ℕ
unfolding fields
parse_isc_time clock stmt = elim (fields stmt) [
  | _ ∷ _ ∷ date ∷ time ∷ _ ↦ clock.parse (date ++ (b' ' ∷ time))
  | _ ↦ none
]

-- The lease under construction: `cur` and `active`.
pub record Block : Type 0 where
  pub cur : Lease
  pub active : Bool

abbrev pub ends_at : Block → Option ℕ → Block
ends_at b none = b
ends_at b (some t) = record b { cur = record b.cur { expires = t } }

abbrev quoted : ℕ → Bool
quoted c = c == b'"'

unfoldable pub statement : Clock → Block → Text → Block
unfolding same has_prefix trim_prefix trim_left trim_right normalize_mac parse_isc_time
statement clock b stmt =
    if same stmt (codes "binding state active")
    then record b { active = true }
    else if has_prefix stmt (codes "hardware ethernet ")
    then record b {
      cur = record b.cur { mac = normalize_mac (trim_prefix stmt (codes "hardware ethernet ")) };
    }
    else if has_prefix stmt (codes "client-hostname ")
    then record b {
      cur = record b.cur {
        hostname =
            trim_right quoted (trim_left quoted (trim_prefix stmt (codes "client-hostname ")));
      };
    }
    else if has_prefix stmt (codes "ends ")
    then ends_at b (parse_isc_time clock stmt)
    else b

-- `parseISCLeaseLine`.
unfoldable pub parse_isc_lease_line : Clock → Block → Text → Block
unfolding statement trim_suffix
parse_isc_lease_line clock b line = statement clock b (trim_suffix line (codes ";"))

-- The variables of `parseISCLeases`.
pub record IscScan : Type 0 where
  pub block : Block
  pub in_block : Bool
  pub kept : Leases

unfoldable pub opens : Text → Bool
unfolding has_prefix has_suffix
opens line = has_prefix line (codes "lease ") && has_suffix line (codes "{")

unfoldable pub opened : Text → Block
unfolding trim_prefix trim_suffix trim_space
opened line = record {
  cur = record no_lease {
    ip = trim_space (trim_suffix (trim_prefix line (codes "lease ")) (codes "{"));
  };
  active = false;
}

-- The end of a block keeps its lease, if it is active and has an address.
unfoldable pub close_block : Leases → Block → Leases
unfolding keep
close_block leases b = if b.active && not (is_empty b.cur.ip) then keep leases b.cur else leases

unfoldable pub closes : Text → Bool
unfolding same
closes line = same line (codes "}")

-- The body of the loop, for a line that is trimmed.
unfoldable pub isc_line : Clock → IscScan → Text → IscScan
unfolding opens opened closes close_block parse_isc_lease_line
isc_line clock s line =
    if opens line
    then record { block = opened line; in_block = true; kept = s.kept }
    else if closes line && s.in_block
    then record { block = s.block; in_block = false; kept = close_block s.kept s.block }
    else if s.in_block
    then record { block = parse_isc_lease_line clock s.block line; in_block = true; kept = s.kept }
    else s

unfoldable pub isc_lines : Clock → IscScan → List Text → IscScan
unfolding isc_line trim_space
isc_lines clock s [] = s
isc_lines clock s (line ∷ lines) = isc_lines clock (isc_line clock s (trim_space line)) lines

abbrev pub outside : IscScan
outside = record {
  block = record { cur = no_lease; active = false };
  in_block = false;
  kept = nothing_kept;
}

-- `parseISCLeases`.
unfoldable pub parse_isc_leases : Clock → Text → List Lease
unfolding isc_lines scan_lines collect_leases
parse_isc_leases clock contents =
    let s = isc_lines clock outside (scan_lines contents) in collect_leases s.kept
