-- ===== src/Budget.antt =====
-- internal/scanner/budget.go: how long a scan may take. Durations are numbers of nanoseconds. Go's
-- `int` and `time.Duration` are 64 bits wide and wrap: a sum is kept modulo 2 ^ 64, and read as a
-- signed number by `signed`. Laws are in Budget/Bounds.antt.
pub mod Bounds
use light_ipam.Base.{
  ℕ, zero, suc, ◌+◌, ◌-◌, ◌*◌, ◌/◌, ◌%◌, ◌^◌, Bool, true, false, List, [], ◌∷◌, Option, none, some,
  Text, is_empty, trim_space, ltb, leb, ◌==◌, if◌then◌else◌, ℤ, pos, negsuc,
}
use light_ipam.Netip.{Prefix, bit_len}
use light_ipam.Netip.Parse.{parse_cidr}

abbrev pub second : ℕ
second = 1000000000

abbrev pub scan_grace : ℕ
scan_grace = 30 * second

abbrev pub host_discovery_allowance : ℕ
host_discovery_allowance = 120 * second

abbrev pub max_scan_budget : ℕ
max_scan_budget = 14400 * second

abbrev pub word : ℕ
word = 2 ^ 64

-- The signed number that a word of 64 bits stands for.
unfoldable pub signed : ℕ → ℤ
signed n = let m = n % word in if ltb m (2 ^ 63) then pos m else negsuc (word - 1 - m)

-- What one target adds: the addresses of a CIDR, one for anything else.
abbrev pub cidr_hosts : Option Prefix → ℕ
cidr_hosts none = 1
cidr_hosts (some p) = 2 ^ (bit_len p.addr - p.bits)

unfoldable pub target_hosts : Text → ℕ
unfolding trim_space
target_hosts t = let s = trim_space t in if is_empty s then 0 else cidr_hosts (parse_cidr s)

unfoldable pub total_hosts : List Text → ℕ
unfolding target_hosts
total_hosts [] = 0
total_hosts (t ∷ targets) = (target_hosts t + total_hosts targets) % word

abbrev pub at_least_one : ℤ → ℕ
at_least_one (pos zero) = 1
at_least_one (pos (suc n)) = suc n
at_least_one (negsuc n) = 1

-- `EstimateTargetHosts`.
unfoldable pub estimate_target_hosts : List Text → ℕ
unfolding signed total_hosts
estimate_target_hosts targets = at_least_one (signed (total_hosts targets))

-- `ScanBudget` from the per-host duration and the hosts: `none` is the panic of a division by
-- zero. A negative duration divides to zero or less, which any number of hosts exceeds.
unfoldable pub budget_for : ℤ → ℕ → Option ℕ
budget_for (pos zero) hosts = none
budget_for (pos (suc p)) hosts =
    let budget = suc p * hosts + host_discovery_allowance + scan_grace in
    if ltb (max_scan_budget / suc p) hosts
    then some max_scan_budget
    else if ltb max_scan_budget budget
    then some max_scan_budget
    else some budget
budget_for (negsuc p) hosts = some max_scan_budget

unfoldable pub scan_budget : ℤ → List Text → Option ℕ
unfolding signed budget_for
scan_budget (negsuc n) targets = some 0
scan_budget (pos zero) targets = some 0
scan_budget (pos (suc n)) targets =
    budget_for (signed (suc n * second)) (estimate_target_hosts targets)

-- internal/scanner/orchestrator/orchestrator.go: how long `dispatch` waits for the agent.
unfoldable pub dispatch_timeout : ℕ → ℕ
dispatch_timeout budget = (if budget == 0 then 1800 * second else budget) + 60 * second
