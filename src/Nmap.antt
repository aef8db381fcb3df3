-- ===== src/Nmap.antt =====
-- internal/scanner/agent/nmap.go: the scan by nmap. This file has the pin of the source and the plan of
-- the sets of targets, Nmap/Args.antt the command lines, Nmap/Xml.antt the reading of the result and
-- Nmap/Discover.antt `Discover`; Nmap/Adjacency.antt and Nmap/Egress.antt are about the plan, and
-- Nmap/Source.antt, Nmap/Stages.antt and Nmap/Found.antt about the result. Targets
-- are IPv4 hosts and networks, as the validation of a job makes sure, so `net.ParseIP` is the reading
-- of an address.
pub mod Args
pub mod Xml
pub mod Discover
pub mod Adjacency
pub mod Egress
pub mod Source
pub mod Stages
pub mod Found
use light_ipam.Base.{
  ℕ, Bool, true, false, not, ◌&&◌, ◌||◌, List, [], ◌∷◌, ◌++◌, Option, none, some, Text, codes,
  is_empty, same, trim_space, to_lower, ltb, leb, if◌then◌else◌,
}
use light_ipam.Netip.{Prefix, Addr, contains, masked}
use light_ipam.Netip.Parse.{parse_addr, parse_cidr}
use light_ipam.Protocol.{ScanError}
use light_ipam.Combined.Notices.{scan_ignored}

-- `PinMode`; `unset` is the empty one.
pub data PinMode : Type 0 where
  unset auto always off : PinMode

-- `ParsePinMode`.
unfoldable pub parse_pin_mode : Text → PinMode
unfolding same to_lower trim_space
parse_pin_mode s =
    let m = to_lower (trim_space s) in
    if same m (codes "always") then always else if same m (codes "off") then off else auto

pub record EgressOptions : Type 0 where
  pub interface : Text
  pub source_ip : Text
  pub pin_mode : PinMode
  pub source_net : Option Prefix

abbrev pub is_set : Text → Bool
is_set s = not (is_empty (trim_space s))

-- `EgressOptions.args`.
abbrev flag : Text → Text → List Text
flag name value = if is_set value then name ∷ value ∷ [] else []

unfoldable pub egress_args : EgressOptions → List Text
unfolding trim_space
egress_args e = flag (codes "-e") e.interface ++ flag (codes "-S") e.source_ip

-- `EgressOptions.effectivePinMode`.
unfoldable pub effective_pin_mode : EgressOptions → PinMode
effective_pin_mode e = elim e.pin_mode [ unset ↦ auto | auto ↦ auto | always ↦ always | off ↦ off ]

-- `EgressOptions.withoutPin`.
unfoldable pub without_pin : EgressOptions → EgressOptions
without_pin e = record e { interface = []; source_ip = [] }

-- `EgressOptions.pinConfigured`.
unfoldable pub pin_configured : EgressOptions → Bool
unfolding trim_space
pin_configured e = is_set e.interface || is_set e.source_ip

pub data TargetAdjacency : Type 0 where
  local routed straddle : TargetAdjacency

-- `classifyNets`.
unfoldable pub classify_nets : Prefix → Prefix → TargetAdjacency
unfolding contains
classify_nets src t =
    if contains src t.addr && leb src.bits t.bits
    then local
    else if contains t src.addr && ltb t.bits src.bits
    then straddle
    else routed

abbrev pub classify_cidr : Prefix → Option Prefix → TargetAdjacency
classify_cidr src none = routed
classify_cidr src (some t) = classify_nets src (masked t)

abbrev pub classify_token : Prefix → Option Addr → Option Prefix → TargetAdjacency
classify_token src (some a) t = if contains src a then local else routed
classify_token src none t = classify_cidr src t

-- `classifyAdjacency`.
unfoldable pub classify_adjacency : Text → Option Prefix → TargetAdjacency
unfolding contains masked classify_nets parse_addr parse_cidr
classify_adjacency token none = routed
classify_adjacency token (some src) = classify_token src (parse_addr token) (parse_cidr token)

pub record EgressSet : Type 0 where
  pub targets : List Text
  pub egress : EgressOptions
  pub pinned : Bool

pub record EgressPlan : Type 0 where
  pub sets : List EgressSet
  pub notices : List ScanError

-- The loop over the targets: the pinned ones, the others, and those that straddle the source net.
pub record Split : Type 0 where
  pub pinned : List Text
  pub unpinned : List Text
  pub straddling : List Text

unfoldable pub split_from : Option Prefix → List Text → Split
unfolding classify_adjacency
split_from src [] = record { pinned = []; unpinned = []; straddling = [] }
split_from src (t ∷ targets) =
    let rest = split_from src targets in
    elim (classify_adjacency t src) [
      | local ↦ record rest { pinned = t ∷ rest.pinned }
      | straddle ↦ record rest { unpinned = t ∷ rest.unpinned; straddling = t ∷ rest.straddling }
      | routed ↦ record rest { unpinned = t ∷ rest.unpinned }
    ]

unfoldable pub straddle_notices : List Text → List ScanError
straddle_notices [] = []
straddle_notices (t ∷ targets) =
    record { code = scan_ignored; message = codes "straddles the scan source subnet"; target = t }
    ∷ straddle_notices targets

abbrev pub set_unless_empty : List Text → EgressOptions → Bool → List EgressSet
set_unless_empty [] egress pinned = []
set_unless_empty (t ∷ targets) egress pinned =
    record { targets = t ∷ targets; egress = egress; pinned = pinned } ∷ []

abbrev pub whole : List Text → EgressOptions → Bool → EgressPlan
whole targets egress pinned = record {
  sets = record { targets = targets; egress = egress; pinned = pinned } ∷ [];
  notices = [];
}

abbrev pub plan_auto : EgressOptions → Split → EgressPlan
plan_auto egress s = record {
  sets =
      set_unless_empty s.pinned egress true
      ++ set_unless_empty s.unpinned (without_pin egress) false;
  notices = straddle_notices s.straddling;
}

abbrev pub plan_mode : EgressOptions → List Text → PinMode → EgressPlan
plan_mode egress targets off = whole targets (without_pin egress) false
plan_mode egress targets always = whole targets egress true
plan_mode egress targets auto = plan_auto egress (split_from egress.source_net targets)
plan_mode egress targets unset = plan_auto egress (split_from egress.source_net targets)

-- `planEgress`; the message of a notice is shortened.
unfoldable pub plan_egress : EgressOptions → List Text → EgressPlan
unfolding effective_pin_mode pin_configured without_pin split_from straddle_notices
plan_egress egress targets =
    if not (pin_configured egress)
    then whole targets (without_pin egress) false
    else plan_mode egress targets (effective_pin_mode egress)
