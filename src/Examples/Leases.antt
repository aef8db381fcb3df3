-- ===== src/Examples/Leases.antt =====
-- Runs on lease files.
use light_ipam.Base.{ℕ, [], ◌∷◌, ◌++◌, none, some, Text, codes, map, trim_space, ◌≡◌, refl}
use light_ipam.Dhcp.{Lease, Clock, scan_lines, parse_dnsmasq_leases}
use light_ipam.Dhcp.Isc.{parse_isc_leases}
use light_ipam.Dhcp.Discover.{parse_leases}
use light_ipam.Dhcp.Book.{IsLatest}
use light_ipam.Dhcp.Lines.{lines_leases, parse_dnsmasq_leases-IsLatest}
use light_ipam.Dhcp.Active.{IsActiveOf, parse_isc_leases-IsActiveOf}

abbrev clock : Clock
clock = record { unix = λ n. n; parse = λ t. none; format = λ n. [] }

-- Two leases of 10.1.2.3, the later one with a name.
abbrev dnsmasq_file : Text
dnsmasq_file =
    codes "9 AA:00 10.1.2.3 * *"
    ++ (10 ∷ (codes "0 aa:01 10.1.2.4 nas *" ++ (10 ∷ codes "12 aa:00 10.1.2.3 tv *")))

-- An active lease, and a later block of the same address that has been released.
abbrev isc_file : Text
isc_file =
    codes "lease 10.1.2.3 {"
    ++ (10
        ∷ (codes " binding state active;"
            ++ (10
                ∷ (codes " client-hostname tv;"
                    ++ (10
                        ∷ (codes "}"
                            ++ (10
                                ∷ (codes "lease 10.1.2.3 {"
                                    ++ (10
                                        ∷ (codes " binding state free;"
                                            ++ (10 ∷ codes "}")))))))))))

abbrev lease : Text → Text → Text → ℕ → Lease
lease ip mac hostname expires = record {
  ip = ip;
  mac = mac;
  hostname = hostname;
  expires = expires;
}

dnsmasq_read :
    parse_leases clock dnsmasq_file []
    ≡ some (
        lease (codes "10.1.2.3") (codes "aa:00") (codes "tv") 12
        ∷ lease (codes "10.1.2.4") (codes "aa:01") (codes "nas") 0
        ∷ [])
unfolding parse_leases
dnsmasq_read = refl

-- The released address is reported still.
released_reported :
    parse_leases clock isc_file [] ≡ some (lease (codes "10.1.2.3") [] (codes "tv") 0 ∷ [])
unfolding parse_leases
released_reported = refl

parse_dnsmasq_leases-IsLatest_example :
    IsLatest
      (lines_leases clock (scan_lines dnsmasq_file))
      (parse_dnsmasq_leases clock dnsmasq_file)
parse_dnsmasq_leases-IsLatest_example = parse_dnsmasq_leases-IsLatest clock dnsmasq_file

parse_isc_leases-IsActiveOf_example :
    IsActiveOf clock (map trim_space (scan_lines isc_file)) (parse_isc_leases clock isc_file)
parse_isc_leases-IsActiveOf_example = parse_isc_leases-IsActiveOf clock isc_file
