-- ===== src/Examples/Numbers.antt =====
-- The theorems on windows, the lockout, budgets and MAC addresses, at small inputs.
use Prim.Native.Nat.{min, max}
use light_ipam.Base.{
  ℕ, zero, suc, map, All, Bool, true, false, not, List, [], ◌∷◌, Option, none, some, Text, codes, ℤ,
  pos, ◌≡◌, ◌≢◌, ◌↔◌, ◌⊎◌, inl, inr, refl, arith, In, ◌+◌, ◌*◌, ◌<◌, ◌≤◌, ◌^◌,
}
use light_ipam.Window.{Clock, ScheduleWindow, time_allows, window_allows, window_from_schedule}
use light_ipam.Window.Schedule.{IsZone, FiresAt, window_from_schedule-allows_iff}
use light_ipam.Window.Cycle.{ahead, time_allows_iff}
use light_ipam.Lockout.{Attempt, login_decision, LockoutPolicy, LoginFailureStats, evaluate_lockout}
use light_ipam.Lockout.Release.{
  Throttles, evaluate_lockout_iff, login_decision-releases, login_decision-holds,
}
use light_ipam.Budget.{
  target_hosts, second, scan_budget, estimate_target_hosts, max_scan_budget,
  host_discovery_allowance, scan_grace,
}
use light_ipam.Budget.Bounds.{scan_budget-min, estimate_target_hosts-sum, sum_hosts, IsHosts}
use light_ipam.Macaddr.{Analysis, analyze, Result, ok}
use light_ipam.Macaddr.Canonical.{analyze-address}

-- 22:00 to 06:00, at 23:00.
time_allows_iff_example :
    (time_allows (pos 1320) (pos 360) 1380 ≡ true) ↔ (ahead 1320 1380 < ahead 1320 360)
time_allows_iff_example =
    time_allows_iff 1320 360 1380 (omega arith) (omega arith) (omega arith) (λ e. omega arith)

-- The same on Mondays, in the zone of a schedule that names none.
abbrev nights : ScheduleWindow
nights = record {
  window_start_min = some (pos 1320);
  window_end_min = some (pos 360);
  window_days = pos 1 ∷ pos 9 ∷ [];
  window_tz = [];
}

-- 23:00 on a Monday, in any zone.
abbrev monday : Clock
monday = record { weekday = 1; hour = 23; minute = 0 }

abbrev same_zone : Text → Clock → Clock
same_zone zone now = now

abbrev no_zones : Text → Option Text
no_zones name = none

window_from_schedule-allows_iff_example :
    (loc : Text) × IsZone (codes "UTC") no_zones [] loc
    × ((window_allows same_zone (window_from_schedule (codes "UTC") no_zones nights) monday ≡ true)
        ↔ FiresAt (codes "UTC") no_zones nights monday)
window_from_schedule-allows_iff_example =
    window_from_schedule-allows_iff (codes "UTC") no_zones same_zone nights monday (omega arith)
      (omega arith) (λ zone. (omega arith, omega arith, omega arith))

abbrev policy : LockoutPolicy
policy = record { max_attempts = pos 5; window = 900; cooldown = 600 }

-- Six failures of one address, the last at time 1000.
abbrev stats : LoginFailureStats
stats = record { user_failures = 2; user_last = 990; ip_failures = 6; ip_last = 1000 }

evaluate_lockout_iff_example :
    ((evaluate_lockout policy stats 1200).locked ≡ true)
    ↔ (Throttles policy 2 990 1200 ⊎ Throttles policy 6 1000 1200)
evaluate_lockout_iff_example = evaluate_lockout_iff policy stats 1200

-- Five failures of one user, from 100 seconds to 900.
abbrev failures : List Attempt
failures =
    map (λ n. record { username = codes "ann"; ip = codes "10.1.2.3"; created_at = n })
      (900 ∷ 700 ∷ 500 ∷ 300 ∷ 100 ∷ [])

login_decision-releases_example :
    (login_decision policy (codes "ann") (codes "10.9.9.9") 1500 failures).locked ≡ false
unfolding login_decision
login_decision-releases_example =
    login_decision-releases policy (codes "ann") (codes "10.9.9.9") failures 950 1500 (omega arith)

login_decision-holds_example :
    (login_decision policy (codes "ann") (codes "10.9.9.9") 990 failures).locked ≡ true
unfolding login_decision
login_decision-holds_example =
    login_decision-holds policy (codes "ann") (codes "10.9.9.9") failures 950 990 refl (omega arith)
      (omega arith) refl

-- The first of them has left the window at time 1001, before the reported wait is over.
early_release :
    (login_decision policy (codes "ann") (codes "10.9.9.9") 1001 failures).locked ≡ false
unfolding login_decision
early_release = refl

early_wait : (login_decision policy (codes "ann") (codes "10.9.9.9") 950 failures).retry_after ≡ 550
unfolding login_decision
early_wait = refl

abbrev targets : List Text
targets = codes "10.1.2.3" ∷ codes "10.1.4.0/30" ∷ []

scan_budget-min_example :
    scan_budget (pos 60) targets
    ≡ some (
        min max_scan_budget
          (60 * second * estimate_target_hosts targets + host_discovery_allowance + scan_grace))
scan_budget-min_example = scan_budget-min 59 targets (omega arith)

sum-small : sum_hosts targets < 2 ^ 63
unfolding target_hosts light_ipam.Base.is_space light_ipam.Netip.Parse.parse_cidr
sum-small = omega arith

estimate_target_hosts-sum_example :
    (estimate_target_hosts targets ≡ max 1 (sum_hosts targets))
    × All (λ t. IsHosts t (target_hosts t)) targets
estimate_target_hosts-sum_example = estimate_target_hosts-sum targets sum-small

abbrev read : Result Analysis → Analysis
read (ok r) = r
read (Result.err e) = record { address = []; vendor = []; is_private = false; is_multicast = false }

abbrev analysis : Analysis
analysis = read (analyze (codes "B8-27-EB-00-00-01"))

analysis-ok : analyze (codes "B8-27-EB-00-00-01") ≡ ok analysis
unfolding analyze light_ipam.Macaddr.parse_mac light_ipam.Base.trim_space light_ipam.Base.is_space
    light_ipam.Macaddr.pairs light_ipam.Base.split light_ipam.Macaddr.analyze_bytes
analysis-ok = refl

analyze-address_example : analyze analysis.address ≡ ok analysis
analyze-address_example = analyze-address (codes "B8-27-EB-00-00-01") analysis-ok
