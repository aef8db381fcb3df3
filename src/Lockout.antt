-- ===== src/Lockout.antt =====
-- internal/app/lockout.go and internal/store/login_attempts.go: login throttling, and the table of
-- failures that it counts. Times and durations are numbers of nanoseconds; the zero time, of a key with
-- no failure, is 0, and every time is later than a window. Laws are in Lockout/Release.antt.
pub mod Release
use light_ipam.Base.{
  ℕ, ◌+◌, ◌-◌, Bool, true, false, ◌||◌, ◌==◌, ltb, leb, if◌then◌else◌, ℤ, pos, negsuc, List, [],
  ◌∷◌, Text, same, not, ◌&&◌, suc,
}

-- `lockoutPolicy`. `Window` is used by the caller, which counts the failures.
pub record LockoutPolicy : Type 0 where
  pub max_attempts : ℤ
  pub window : ℕ
  pub cooldown : ℕ

pub record LockoutDecision : Type 0 where
  pub locked : Bool
  pub retry_after : ℕ

-- internal/store/login_attempts.go: `LoginFailureStats`.
pub record LoginFailureStats : Type 0 where
  pub user_failures : ℕ
  pub user_last : ℕ
  pub ip_failures : ℕ
  pub ip_last : ℕ

abbrev pub unlocked : LockoutDecision
unlocked = record { locked = false; retry_after = 0 }

-- `policy.MaxAttempts <= 0 || failures < policy.MaxAttempts`.
abbrev pub below_limit : ℤ → ℕ → Bool
below_limit (pos m) failures = m == 0 || ltb failures m
below_limit (negsuc m) failures = true

unfoldable pub lockout_for_key : LockoutPolicy → ℕ → ℕ → ℕ → LockoutDecision
lockout_for_key policy failures last_failure now =
    let unlock_at = last_failure + policy.cooldown in
    if below_limit policy.max_attempts failures || last_failure == 0
    then unlocked
    else if leb unlock_at now
    then unlocked
    else record { locked = true; retry_after = unlock_at - now }

unfoldable pub evaluate_lockout : LockoutPolicy → LoginFailureStats → ℕ → LockoutDecision
unfolding lockout_for_key
evaluate_lockout policy stats now =
    let user = lockout_for_key policy stats.user_failures stats.user_last now in
    let ip = lockout_for_key policy stats.ip_failures stats.ip_last now in
    if ltb user.retry_after ip.retry_after then ip else user

-- A row of login_attempts.
pub record Attempt : Type 0 where
  pub username : Text
  pub ip : Text
  pub created_at : ℕ

-- `RecordLoginFailure`.
unfoldable pub record_login_failure : Text → Text → ℕ → List Attempt → List Attempt
record_login_failure username ip now rows =
    record { username = username; ip = ip; created_at = now } ∷ rows

-- `ClearLoginFailures`.
unfoldable pub clear_login_failures : Text → List Attempt → List Attempt
unfolding same
clear_login_failures username [] = []
clear_login_failures username (a ∷ rows) =
    let rest = clear_login_failures username rows in
    if same a.username username then rest else a ∷ rest

-- The rows since a time that have a key: their number, and the time of the latest.
abbrev pub of_user : Text → Attempt → Bool
of_user username a = same a.username username

abbrev pub of_ip : Text → Attempt → Bool
of_ip ip a = same a.ip ip

unfoldable pub count_since : (Attempt → Bool) → ℕ → List Attempt → ℕ
count_since key since [] = 0
count_since key since (a ∷ rows) =
    let rest = count_since key since rows in
    if ltb since a.created_at && key a then suc rest else rest

unfoldable pub last_since : (Attempt → Bool) → ℕ → List Attempt → ℕ
last_since key since [] = 0
last_since key since (a ∷ rows) =
    let rest = last_since key since rows in
    if ltb since a.created_at && key a && ltb rest a.created_at then a.created_at else rest

-- `RecentLoginFailures`.
unfoldable pub recent_login_failures : Text → Text → ℕ → List Attempt → LoginFailureStats
unfolding same count_since last_since
recent_login_failures username ip since rows = record {
  user_failures = count_since (of_user username) since rows;
  user_last = last_since (of_user username) since rows;
  ip_failures = count_since (of_ip ip) since rows;
  ip_last = last_since (of_ip ip) since rows;
}

-- internal/app/app.go: the throttle of `loginSubmit`.
unfoldable pub login_decision : LockoutPolicy → Text → Text → ℕ → List Attempt → LockoutDecision
unfolding recent_login_failures evaluate_lockout
login_decision policy username ip now rows =
    evaluate_lockout policy (recent_login_failures username ip (now - policy.window) rows) now
