-- ===== src/Examples/Sweeps.antt =====
-- Plans of nmap's egress: a host and a network in the source subnet, one beside it and one around it.
use light_ipam.Base.{true, inr, none, is_space, List, [], ◌∷◌, some, Text, codes, map, ◌≡◌, refl}
use light_ipam.Netip.{v4}
use light_ipam.Nmap.{EgressOptions, EgressSet, auto, always, off, plan_egress}
use light_ipam.Nmap.Xml.{NmapHost}
use light_ipam.Nmap.Discover.{CommandRunner, hosts, discover}
use light_ipam.Nmap.Found.{IsFound, IsResult, discover-IsResult}
use light_ipam.Protocol.{ScanJob, Observation, ServiceObservation, service_detection}
use light_ipam.Examples.{job, seen}
use light_ipam.Nmap.Egress.{Plans, plan_egress-Plans}

abbrev lan : EgressOptions
lan = record {
  interface = codes "eth0";
  source_ip = [];
  pin_mode = auto;
  source_net = some (record { addr = v4 167837696; bits = 16 });
}

abbrev sweep : List Text
sweep = codes "10.0.0.0/8" ∷ codes "10.1.2.3" ∷ codes "10.2.0.0/16" ∷ codes "10.1.3.0/24" ∷ []

sweep_pinned :
    map (λ (s : EgressSet). s.targets) (plan_egress lan sweep).sets
    ≡ (codes "10.1.2.3" ∷ codes "10.1.3.0/24" ∷ [])
      ∷ (codes "10.0.0.0/8" ∷ codes "10.2.0.0/16" ∷ [])
      ∷ []
unfolding plan_egress is_space
sweep_pinned = refl

sweep_straddling : map (λ n. n.target) (plan_egress lan sweep).notices ≡ codes "10.0.0.0/8" ∷ []
unfolding plan_egress is_space
sweep_straddling = refl

sweep_always :
    map (λ (s : EgressSet). s.pinned) (plan_egress (record lan { pin_mode = always }) sweep).sets
    ≡ true ∷ []
unfolding plan_egress is_space
sweep_always = refl

sweep_off :
    map
      (λ (s : EgressSet). s.egress.interface)
      (plan_egress (record lan { pin_mode = off }) sweep).sets
    ≡ [] ∷ []
unfolding plan_egress is_space
sweep_off = refl

plan_egress-Plans_example : Plans lan sweep (plan_egress lan sweep)
plan_egress-Plans_example = plan_egress-Plans lan sweep

-- A printer with port 80 open, in the output of both stages.
abbrev printer : NmapHost
printer = record {
  status = codes "up";
  addresses = record { addr = codes "10.1.2.3"; addr_type = codes "ipv4"; vendor = [] } ∷ [];
  hostnames = [];
  ports =
      record {
        protocol = codes "tcp";
        port_id = 80;
        state = codes "open";
        service_name = [];
        product = [];
        version = [];
      }
      ∷ [];
  os_matches = [];
}

abbrev nmap : CommandRunner
nmap args = (hosts (printer ∷ []), none)

abbrev probe : ScanJob
probe = record job { scan_type = service_detection }

abbrev http : ServiceObservation
http = record {
  protocol = codes "tcp";
  port = 80;
  state = codes "open";
  service_name = [];
  product = [];
  version = [];
}

abbrev answers : List Observation
answers = record (seen (codes "10.1.2.3") []) { services = http ∷ [] } ∷ []

discover_printer : discover nmap 0 lan probe ≡ inr (answers, [])
unfolding discover is_space
discover_printer = refl

discover-IsResult_example :
    IsResult (IsFound nmap probe (plan_egress lan probe.targets).sets) answers
discover-IsResult_example = discover-IsResult nmap 0 lan probe answers [] discover_printer
