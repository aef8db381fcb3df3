-- ===== src/Nmap/Xml.antt =====
-- internal/scanner/agent/nmap.go: the observations of nmap's result. The decoding of the XML is the
-- library's: its result, `nmapRun`, is what is read here.
use light_ipam.Base.{
  ℕ, Bool, true, not, ◌&&◌, List, [], ◌∷◌, ◌++◌, Text, codes, is_empty, same, if◌then◌else◌,
}
use light_ipam.Protocol.{Observation, ServiceObservation, Evidence}

pub record NmapAddress : Type 0 where
  pub addr : Text
  pub addr_type : Text
  pub vendor : Text

-- A port with the attributes of its state and its service.
pub record NmapPort : Type 0 where
  pub protocol : Text
  pub port_id : ℕ
  pub state : Text
  pub service_name : Text
  pub product : Text
  pub version : Text

pub record NmapOsMatch : Type 0 where
  pub name : Text
  pub families : List Text

pub record NmapHost : Type 0 where
  pub status : Text
  pub addresses : List NmapAddress
  pub hostnames : List Text
  pub ports : List NmapPort
  pub os_matches : List NmapOsMatch

abbrev pub up_at : ℕ → Observation
up_at now = record {
  ip = [];
  mac = [];
  vendor = [];
  hostname = [];
  os_family = [];
  os_detail = [];
  vlan = 0;
  hw_serial = [];
  hw_object_id = [];
  services = [];
  evidence = [];
  observed_at = now;
}

-- The loop over the addresses.
unfoldable pub with_address : Observation → NmapAddress → Observation
unfolding same
with_address obs a =
    if same a.addr_type (codes "ipv4")
    then record obs { ip = a.addr }
    else if same a.addr_type (codes "mac")
    then record obs { mac = a.addr; vendor = a.vendor }
    else obs

unfoldable pub with_addresses : Observation → List NmapAddress → Observation
unfolding with_address
with_addresses obs [] = obs
with_addresses obs (a ∷ addresses) = with_addresses (with_address obs a) addresses

-- The loop over the ports: the open ones.
unfoldable pub open_services : List NmapPort → List ServiceObservation
unfolding same
open_services [] = []
open_services (p ∷ ports) =
    let rest = open_services ports in
    if same p.state (codes "open")
    then record {
      protocol = p.protocol;
      port = p.port_id;
      state = p.state;
      service_name = p.service_name;
      product = p.product;
      version = p.version;
    }
      ∷ rest
    else rest

abbrev first_text : List Text → Text
first_text [] = []
first_text (t ∷ texts) = t

abbrev pub with_os : Observation → List NmapOsMatch → Observation
with_os obs [] = obs
with_os obs (best ∷ matches) = record obs {
  os_detail = best.name;
  os_family = first_text best.families;
}

abbrev vendor_evidence : Text → List Evidence
vendor_evidence vendor =
    if is_empty vendor
    then []
    else record { source = codes "nmap"; summary = codes "MAC vendor: " ++ vendor; raw = [] } ∷ []

-- One host: its observation, with no address where it has none.
unfoldable pub host_observation : ℕ → NmapHost → Observation
unfolding with_addresses open_services
host_observation now host =
    let found = with_addresses (up_at now) host.addresses in
    with_os
      (record found {
        hostname = first_text host.hostnames;
        services = open_services host.ports;
        evidence = vendor_evidence found.vendor;
      })
      host.os_matches

abbrev pub is_up : Text → Bool
is_up status = if is_empty status then true else same status (codes "up")

-- The loop of `parseNmapXML`: the hosts that are up and have an IPv4 address.
unfoldable pub parse_nmap_xml : ℕ → List NmapHost → List Observation
unfolding same host_observation
parse_nmap_xml now [] = []
parse_nmap_xml now (host ∷ hosts) =
    let rest = parse_nmap_xml now hosts in
    if is_up host.status && not (is_empty (host_observation now host).ip)
    then host_observation now host ∷ rest
    else rest
