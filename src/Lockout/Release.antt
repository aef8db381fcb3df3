-- ===== src/Lockout/Release.antt =====
-- When a lock of internal/app/lockout.go holds and when it clears.
use light_ipam.Base.{
  ℕ, ◌+◌, ◌-◌, ◌<◌, ◌≤◌, Bool, true, false, List, [], ◌∷◌, Text, ltb, if◌then◌else◌, ◌≡◌, ◌↔◌, ◌⊎◌,
  inl, inr, arith, ℤ, pos, negsuc, Bool-cases, subst, sym,
}
use light_ipam.Lockout.{
  LockoutPolicy, LoginFailureStats, Attempt, below_limit, lockout_for_key, evaluate_lockout,
  count_since, last_since, recent_login_failures, login_decision, of_user, of_ip,
}

-- So many failures reach the limit; a limit of zero or less is none.
abbrev pub Reaches : ℤ → ℕ → Type 0
Reaches (pos m) failures = (0 < m) × (m ≤ failures)
Reaches (negsuc m) failures = ⊥

below_limit_iff :
    (limit : ℤ) (failures : ℕ) → (below_limit limit failures ≡ false) ↔ Reaches limit failures
below_limit_iff (pos m) failures = ground arith
below_limit_iff (negsuc m) failures = (λ h. cc, λ h. absurd h)

-- A key throttles at a time: it has reached the limit, and its cooldown is not over.
abbrev pub Throttles : LockoutPolicy → ℕ → ℕ → ℕ → Type 0
Throttles policy failures last now =
    Reaches policy.max_attempts failures × (0 < last) × (now < last + policy.cooldown)

key_locked :
    (policy : LockoutPolicy) (failures last now : ℕ)
    → ((lockout_for_key policy failures last now).locked ≡ true)
      ↔ Throttles policy failures last now
unfolding lockout_for_key
key_locked policy failures last now = ground (arith, below_limit_iff policy.max_attempts failures)

key_wait :
    (policy : LockoutPolicy) (failures last now : ℕ)
    → Throttles policy failures last now
    → now + (lockout_for_key policy failures last now).retry_after ≡ last + policy.cooldown
unfolding lockout_for_key
key_wait policy failures last now h = ground (arith, below_limit_iff policy.max_attempts failures)

either_locked :
    (policy : LockoutPolicy) (stats : LoginFailureStats) (now : ℕ)
    → ((evaluate_lockout policy stats now).locked ≡ true) ↔ (
        ((lockout_for_key policy stats.user_failures stats.user_last now).locked ≡ true)
        ⊎ ((lockout_for_key policy stats.ip_failures stats.ip_last now).locked ≡ true))
unfolding evaluate_lockout lockout_for_key
either_locked policy stats now = ground arith

-- A login is locked exactly when the username or the address throttles it: when the failures of one
-- of them are at least as many as a positive limit, and the cooldown since its last is not over.
pub evaluate_lockout_iff :
    (policy : LockoutPolicy) (stats : LoginFailureStats) (now : ℕ)
    → ((evaluate_lockout policy stats now).locked ≡ true) ↔ (
        Throttles policy stats.user_failures stats.user_last now
        ⊎ Throttles policy stats.ip_failures stats.ip_last now)
evaluate_lockout_iff policy stats now = ground (
  arith,
  either_locked policy stats now,
  key_locked policy stats.user_failures stats.user_last now,
  key_locked policy stats.ip_failures stats.ip_last now,
)

evaluate_lockout-exact :
    (policy : LockoutPolicy) (stats : LoginFailureStats) (now later : ℕ)
    → (evaluate_lockout policy stats now).locked ≡ true
    → now ≤ later
    → ((evaluate_lockout policy stats later).locked ≡ true)
      ↔ (later < now + (evaluate_lockout policy stats now).retry_after)
unfolding evaluate_lockout lockout_for_key
evaluate_lockout-exact policy stats now later h le = ground arith

-- A window that starts later counts no more failures, and has the same last one or none.
count_since-later :
    (key : Attempt → Bool) (since later : ℕ) (rows : List Attempt)
    → since ≤ later
    → count_since key later rows ≤ count_since key since rows
unfolding count_since
count_since-later key since later [] le = omega arith
count_since-later key since later (a ∷ rows) le =
    ground (arith, count_since-later key since later rows le)

last_since-later :
    (key : Attempt → Bool) (since later : ℕ) (rows : List Attempt)
    → since ≤ later
    → last_since key later rows
      ≡ (if ltb later (last_since key since rows) then last_since key since rows else 0)
unfolding last_since
last_since-later key since later [] le = ground arith
last_since-later key since later (a ∷ rows) le =
    ground (arith, last_since-later key since later rows le)

-- What a key throttles later, it throttles now, for at least as long.
still_Throttles :
    (policy : LockoutPolicy) (f f' l l' now later : ℕ)
    → f' ≤ f
    → (l' ≡ l) ⊎ (l' ≡ 0)
    → now ≤ later
    → Throttles policy f' l' later
    → Throttles policy f l now × (later < l + policy.cooldown)
still_Throttles policy f f' l l' now later fewer same_last le (r, p, h) = elim same_last [
  | inr e ↦ absurd (omega arith)
  | inl e ↦ ((more policy.max_attempts r, omega arith, omega arith), omega arith)
]
  where
    more : (limit : ℤ) → Reaches limit f' → Reaches limit f
    more (pos m) (q, le) = (q, omega arith)
    more (negsuc m) r = r

retry_after-max :
    (policy : LockoutPolicy) (stats : LoginFailureStats) (now : ℕ)
    → ((lockout_for_key policy stats.user_failures stats.user_last now).retry_after
        ≤ (evaluate_lockout policy stats now).retry_after)
      × ((lockout_for_key policy stats.ip_failures stats.ip_last now).retry_after
          ≤ (evaluate_lockout policy stats now).retry_after)
unfolding evaluate_lockout lockout_for_key
retry_after-max policy stats now = (ground arith, ground arith)

module _ (key : Attempt → Bool) (policy : LockoutPolicy) (rows : List Attempt) (now later : ℕ) where
  abbrev failures : ℕ → ℕ
  failures at = count_since key (at - policy.window) rows

  abbrev last : ℕ → ℕ
  last at = last_since key (at - policy.window) rows

  last-or_none : now ≤ later → (last later ≡ last now) ⊎ (last later ≡ 0)
  last-or_none le =
      let e =
        last_since-later key (now - policy.window) (later - policy.window) rows (omega arith) in
      elim (Bool-cases (ltb (later - policy.window) (last now))) [
        | inl t ↦ inl (rw t at e)
        | inr f ↦ inr (rw f at e)
      ]

  key-released :
      now ≤ later
      → Throttles policy (failures later) (last later) later
      → later < now + (lockout_for_key policy (failures now) (last now) now).retry_after
  key-released le h =
      let fewer =
        count_since-later key (now - policy.window) (later - policy.window) rows (omega arith) in
      let (t, before) =
        still_Throttles policy (failures now) (failures later) (last now) (last later) now later
          fewer (last-or_none le) le h in
      omega (arith, key_wait policy (failures now) (last now) now t)

locked-before :
    (policy : LockoutPolicy) (username ip : Text) (rows : List Attempt) (now later : ℕ)
    → now ≤ later
    → (login_decision policy username ip later rows).locked ≡ true
    → later < now + (login_decision policy username ip now rows).retry_after
unfolding login_decision recent_login_failures
locked-before policy username ip rows now later le h =
    let (user, addr) =
      retry_after-max policy (recent_login_failures username ip (now - policy.window) rows) now in
    let stats = recent_login_failures username ip (later - policy.window) rows in
    elim ((evaluate_lockout_iff policy stats later).0 h) [
      | inl u ↦ omega (arith, key-released (of_user username) policy rows now later le u)
      | inr i ↦ omega (arith, key-released (of_ip ip) policy rows now later le i)
    ]

-- With no further failure, a login is let through at every time from the end of the reported wait on,
-- whether or not it is locked now; the failures are counted in the window that ends at each time.
pub login_decision-releases :
    (policy : LockoutPolicy) (username ip : Text) (rows : List Attempt) (now later : ℕ)
    → now + (login_decision policy username ip now rows).retry_after ≤ later
    → (login_decision policy username ip later rows).locked ≡ false
login_decision-releases policy username ip rows now later le =
    elim (Bool-cases (login_decision policy username ip later rows).locked) [
      | inr free ↦ free
      | inl locked ↦
          absurd
            (omega (arith, locked-before policy username ip rows now later (omega arith) locked))
    ]

-- A lock holds until the reported wait is over, as long as no counted failure leaves the window: when
-- the counts at a later time are those of now, a login that is locked now is locked at that time if
-- the wait is not over.
pub login_decision-holds :
    (policy : LockoutPolicy) (username ip : Text) (rows : List Attempt) (now later : ℕ)
    → (login_decision policy username ip now rows).locked ≡ true
    → now ≤ later
    → later < now + (login_decision policy username ip now rows).retry_after
    → recent_login_failures username ip (later - policy.window) rows
      ≡ recent_login_failures username ip (now - policy.window) rows
    → (login_decision policy username ip later rows).locked ≡ true
unfolding login_decision
login_decision-holds policy username ip rows now later h le before same_counts =
    subst (λ stats. (evaluate_lockout policy stats later).locked ≡ true) (sym same_counts)
      ((evaluate_lockout-exact policy _ now later h le).1 before)
