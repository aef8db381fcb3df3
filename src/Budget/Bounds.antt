-- ===== src/Budget/Bounds.antt =====
-- Bounds of the scan budget of internal/scanner/budget.go.
use Prim.Native.Nat.{min, max}
use native.Mathlib.Nat.{div-lt_iff_lt-mul}
use light_ipam.Base.{
  ℕ, zero, suc, ◌+◌, ◌*◌, ◌/◌, ◌^◌, ◌<◌, ◌≤◌, List, [], ◌∷◌, some, Text, ◌≡◌, ◌≢◌, ◌↔◌, ◌⊎◌, inl,
  inr, refl, ap, sym, ◌∙◌, arith, true, none, ◌-◌, All, Bool-cases, Option-cases, is_empty,
  trim_space, ==_iff, is_empty-eq, ℤ, pos, negsuc,
}
use light_ipam.Netip.{Addr, v4, v6, Prefix, bit_len, mask, contains}
use light_ipam.Netip.Parse.{parse_cidr}
use light_ipam.Netip.Containment.{contains_iff, top-eq_iff}
use light_ipam.Budget.{
  cidr_hosts, second, scan_grace, host_discovery_allowance, max_scan_budget, word, signed,
  at_least_one, estimate_target_hosts, total_hosts, target_hosts, budget_for, scan_budget,
}

at_least_one-max : (n : ℕ) → at_least_one (pos n) ≡ max 1 n
at_least_one-max zero = refl
at_least_one-max (suc n) = omega arith

-- A word below 2 ^ 63 is a number that is not negative.
signed-small : (n : ℕ) → n < 2 ^ 63 → signed n ≡ pos n
unfolding signed
signed-small n h = ground arith

at_least_one-pos : (z : ℤ) → 1 ≤ at_least_one z
at_least_one-pos (pos zero) = omega arith
at_least_one-pos (pos (suc n)) = omega arith
at_least_one-pos (negsuc n) = omega arith

quotient_exceeded : (p h m : ℕ) → m / suc p < h → m < suc p * h
quotient_exceeded p h m lt =
    omega (arith, (div-lt_iff_lt-mul {k = suc p} {x = m} {y = h} (omega arith)).0 lt)

budget_for-min :
    (p hosts : ℕ)
    → budget_for (pos (suc p)) hosts
      ≡ some (min max_scan_budget (suc p * hosts + host_discovery_allowance + scan_grace))
unfolding budget_for
budget_for-min p hosts = ground (arith, quotient_exceeded p hosts max_scan_budget)

budget_for-pos :
    (p hosts : ℕ)
    → 0 < p
    → budget_for (pos p) hosts
      ≡ some (min max_scan_budget (p * hosts + host_discovery_allowance + scan_grace))
budget_for-pos zero hosts h = absurd (omega arith)
budget_for-pos (suc p) hosts h = budget_for-min p hosts

-- The budget is the smaller of the cap and what every host in turn, the discovery stage and the
-- grace take: for a per-host timeout of up to nine billion seconds nothing wraps, and the guard
-- before the product refuses no budget below the cap.
pub scan_budget-min :
    (n : ℕ) (targets : List Text)
    → suc n ≤ 9000000000
    → scan_budget (pos (suc n)) targets
      ≡ some (
          min max_scan_budget (
            suc n * second * estimate_target_hosts targets + host_discovery_allowance + scan_grace))
unfolding scan_budget
scan_budget-min n targets h =
    let p = suc n * second in
    ap (λ z. budget_for z (estimate_target_hosts targets)) (signed-small p (omega arith))
    ∙ budget_for-pos p (estimate_target_hosts targets) (omega arith)

-- The sum of the hosts of the targets, with no wrapping.
abbrev pub sum_hosts : List Text → ℕ
sum_hosts [] = 0
sum_hosts (t ∷ targets) = target_hosts t + sum_hosts targets

total_hosts-sum :
    (targets : List Text) → sum_hosts targets < word → total_hosts targets ≡ sum_hosts targets
unfolding total_hosts
total_hosts-sum [] h = refl
total_hosts-sum (t ∷ targets) h = omega (arith, total_hosts-sum targets)

-- The address of a family with this value.
abbrev pub alike : Addr → ℕ → Addr
alike (v4 n) x = v4 x
alike (v6 n z) x = v6 x []

-- The prefix contains so many addresses: they are the values from some first one on.
abbrev pub Holds : Prefix → ℕ → Type 0
Holds p size =
    (first : ℕ) × ((x : ℕ)
      → (contains p (alike p.addr x) ≡ true) ↔ ((first ≤ x) × (x < first + size)))

prefix-Holds : (p : Prefix) → Holds p (cidr_hosts (some p))
unfolding contains
prefix-Holds p = at p.addr p.bits
  where
    at : (a : Addr) (k : ℕ) → Holds (record { addr = a; bits = k }) (2 ^ (bit_len a - k))
    at (v4 n) k = (mask 32 k n, contains_iff n k)
    at (v6 n z) k = (
      mask 128 k n,
      λ x. (
        λ h. (top-eq_iff 128 k n x).0 ((==_iff _ _).0 h),
        λ h. (==_iff _ _).1 ((top-eq_iff 128 k n x).1 h),
      ),
    )

-- The hosts of one target: none of a blank one, all the addresses of a CIDR, one of anything else.
abbrev pub IsHosts : Text → ℕ → Type 0
IsHosts target count =
    ((trim_space target ≡ []) × (count ≡ 0))
    ⊎ ((trim_space target ≢ []) × (parse_cidr (trim_space target) ≡ none) × (count ≡ 1))
    ⊎ ((p : Prefix) × (parse_cidr (trim_space target) ≡ some p) × Holds p count)

target_hosts-IsHosts : (target : Text) → IsHosts target (target_hosts target)
unfolding target_hosts
target_hosts-IsHosts target = elim (Bool-cases (is_empty (trim_space target))) [
  | inl e ↦ inl (is_empty-eq (trim_space target) e, rw e refl)
  | inr given ↦ elim (Option-cases (parse_cidr (trim_space target))) [
    | inl e ↦ inr (inl (λ q. cc (sym given ∙ ap is_empty q), e, rw (given, e) refl))
    | inr (p, e) ↦ inr (inr (p, e, rw (given, e) (prefix-Holds p)))
  ]
]

-- The estimate is the number of hosts of the targets, but at least one, as long as their sum fits: the
-- count that is added for a target is none for a blank one, the number of the addresses that it
-- contains for a CIDR, and one for anything else.
pub estimate_target_hosts-sum :
    (targets : List Text)
    → sum_hosts targets < 2 ^ 63
    → (estimate_target_hosts targets ≡ max 1 (sum_hosts targets))
      × All (λ t. IsHosts t (target_hosts t)) targets
unfolding estimate_target_hosts
estimate_target_hosts-sum targets h = (
  rw (total_hosts-sum targets (omega arith), signed-small (sum_hosts targets) h)
      (at_least_one-max (sum_hosts targets)),
  every targets,
)
  where
    every : (ts : List Text) → All (λ t. IsHosts t (target_hosts t)) ts
    every [] = tt
    every (t ∷ ts) = (target_hosts-IsHosts t, every ts)
