-- ===== src/Examples/Packets.antt =====
-- Runs on packets of the name protocols.
use light_ipam.Base.{
  ℕ, true, List, [], ◌∷◌, ◌++◌, some, codes, replicate, join, ◌==◌, if◌then◌else◌, ◌≡◌, refl, arith,
}
use light_ipam.Names.{ok, Returns, fail, compression_loop}
use light_ipam.Names.Dns.{read_dns_name, append_dns_name}
use light_ipam.Names.ReadLaws.{EndsAs, read_dns_name-Returns}
use light_ipam.Names.RoundTrip.{read_dns_name-append_dns_name}
use light_ipam.Names.Netbios.{encode_netbios_name, parse_nbstat_response}
use light_ipam.Names.Mdns.{parse_mdns_ptr_response}
use light_ipam.Names.Lookup.{NameDiscoverer, new_name_discoverer, discover}
use light_ipam.Names.Accounting.{Explains, discover-Explains}
use light_ipam.Examples.{job}

-- "a.local" behind a pointer, at 0; the pointer at 9; a loop at 11.
abbrev packet : List ℕ
packet = (1 ∷ b'a' ∷ 5 ∷ codes "local") ++ (0 ∷ 0xc0 ∷ 0 ∷ 0xc0 ∷ 11 ∷ [])

abbrev header : ℕ → ℕ → List ℕ
header qd an = 0 ∷ 0 ∷ 0 ∷ 0 ∷ 0 ∷ qd ∷ 0 ∷ an ∷ 0 ∷ 0 ∷ 0 ∷ 0 ∷ []

-- A machine FILES of the workgroup HOME.
abbrev station_reply : List ℕ
station_reply =
    header 0 1
    ++ (0 ∷ replicate 10 0)
    ++ (3 ∷ (codes "FILES          " ++ (0x20 ∷ 4 ∷ 0 ∷ [])))
    ++ (codes "FILES          " ++ (0 ∷ 4 ∷ 0 ∷ []))
    ++ (codes "HOME           " ++ (0 ∷ 0x84 ∷ 0 ∷ []))

abbrev mdns_reply : List ℕ
mdns_reply =
    header 0 1
    ++ (0 ∷ 0 ∷ 12 ∷ 0 ∷ 1 ∷ 0 ∷ 0 ∷ 0 ∷ 9 ∷ 0 ∷ 9 ∷ [])
    ++ (1 ∷ b'a' ∷ 5 ∷ codes "local")
    ++ (0 ∷ [])

-- A host that answers both protocols.
abbrev answering : NameDiscoverer
answering =
    new_name_discoverer record { netbios_port = 0; mdns_port = 0 }
      (λ ip port payload. if port == 137 then some station_reply else some mdns_reply)

pointer_followed : read_dns_name packet 9 ≡ ok (codes "a.local", 11)
unfolding read_dns_name
pointer_followed = refl

loop_found : read_dns_name packet 11 ≡ fail compression_loop
unfolding read_dns_name
loop_found = refl

encoded : encode_netbios_name (codes "A") ≡ codes "EBCACACACACACACACACACACACACACAAA"
unfolding encode_netbios_name
encoded = refl

station_read :
    parse_nbstat_response station_reply ≡ ok record { name = codes "FILES"; group = codes "HOME" }
unfolding parse_nbstat_response
station_read = refl

ptr_read : parse_mdns_ptr_response mdns_reply ≡ ok (codes "a.local")
unfolding parse_mdns_ptr_response
ptr_read = refl

read_dns_name-Returns_example : Returns (EndsAs packet 9) (read_dns_name packet 9)
read_dns_name-Returns_example = read_dns_name-Returns packet 9

read_dns_name-append_dns_name_example :
    read_dns_name (append_dns_name (7 ∷ []) (codes "nas.lan") ++ 9 ∷ []) 1
    ≡ ok (codes "nas.lan", 10)
unfolding join append_dns_name
read_dns_name-append_dns_name_example =
    read_dns_name-append_dns_name (7 ∷ []) (9 ∷ []) (codes "nas") (codes "lan" ∷ []) (
      (omega arith, omega arith, (omega arith, (omega arith, (omega arith, tt)))),
      ((omega arith, omega arith, (omega arith, (omega arith, (omega arith, tt)))), tt),
    )

discover-Explains_example : Returns (Explains job) (discover answering 0 (λ n. true) job)
discover-Explains_example = discover-Explains answering 0 (λ n. true) job
