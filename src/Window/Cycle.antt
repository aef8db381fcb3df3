-- ===== src/Window/Cycle.antt =====
-- The time of day of a window (internal/scanner/orchestrator/windows.go) as an arc of the day.
use light_ipam.Base.{
  ℕ, ◌+◌, ◌-◌, ◌*◌, ◌%◌, ◌<◌, true, not, List, [], ◌≡◌, ◌≢◌, ◌↔◌, ◌⊎◌, arith, ◌==◌, ℤ, pos, negsuc,
  any, In, any-In, In-any, subst, ==_iff, ==_refl, is_empty-eq,
}
use light_ipam.Window.{Clock, ScanWindow, time_allows, day_allows, window_allows, in_zone}

-- The minutes from one time of the day to the next time that another is on the clock.
abbrev pub ahead : ℕ → ℕ → ℕ
ahead a b = (b + 1440 - a) % 1440

-- A window with distinct bounds in the day is the half-open arc of the day from its start to its
-- end, wherever midnight lies: a time is inside exactly when it comes up before the end does.
pub time_allows_iff :
    (s e cur : ℕ)
    → s < 1440
    → e < 1440
    → cur < 1440
    → s ≢ e
    → (time_allows (pos s) (pos e) cur ≡ true) ↔ (ahead s cur < ahead s e)
unfolding time_allows
time_allows_iff s e cur hs he hc ne = ground arith

-- A window and the one with its bounds swapped divide the day: each time is in exactly one of them.
time_allows-swap :
    (s e cur : ℕ) → s ≢ e → time_allows (pos e) (pos s) cur ≡ not (time_allows (pos s) (pos e) cur)
unfolding time_allows
time_allows-swap s e cur ne = ground arith

any_equal_iff : (xs : List ℕ) (n : ℕ) → (any (λ d. d == n) xs ≡ true) ↔ In n xs
any_equal_iff xs n = (
  (λ h. let (d, m, e) = any-In (λ d. d == n) xs h in subst (λ d. In d xs) ((==_iff d n).0 e) m),
  λ m. In-any (λ d. d == n) m (==_refl n),
)

-- What the bounds of a window ask of the time of the day.
abbrev pub TimeAllowed : ℤ → ℤ → ℕ → Type 0
TimeAllowed (pos s) (pos e) cur = (s ≡ e) ⊎ (ahead s cur < ahead s e)
TimeAllowed _ _ cur = Unit {0}

-- Bounds are minutes of a day, or below zero for none.
abbrev pub InDay : ℤ → Type 0
InDay (pos n) = n < 1440
InDay (negsuc n) = Unit {0}

time_allows-TimeAllowed :
    (s e : ℤ) (cur : ℕ)
    → InDay s
    → InDay e
    → cur < 1440
    → (time_allows s e cur ≡ true) ↔ TimeAllowed s e cur
time_allows-TimeAllowed (pos s) (pos e) cur hs he hc =
    unfold time_allows in (ground (arith, time_allows_iff s e cur hs he hc))
time_allows-TimeAllowed (pos s) (negsuc e) cur hs he hc = unfold time_allows in ground arith
time_allows-TimeAllowed (negsuc s) e cur hs he hc = unfold time_allows in ground arith

-- A window allows a time exactly when the weekday and the time of the day, in the zone that it reads
-- them in, are allowed.
pub window_allows_iff :
    {Location : Type 0} (relocate : Location → Clock → Clock) (w : ScanWindow Location)
    (now : Clock)
    → InDay w.start_min
    → InDay w.end_min
    → (in_zone relocate w.loc now).hour < 24
    → (in_zone relocate w.loc now).minute < 60
    → (window_allows relocate w now ≡ true) ↔ (
        ((w.days ≡ []) ⊎ In (in_zone relocate w.loc now).weekday w.days)
        × TimeAllowed w.start_min w.end_min
            ((in_zone relocate w.loc now).hour * 60 + (in_zone relocate w.loc now).minute))
unfolding window_allows day_allows
window_allows_iff relocate w now hs he hh hm =
    let t = in_zone relocate w.loc now in
    let times =
      time_allows-TimeAllowed w.start_min w.end_min (t.hour * 60 + t.minute) hs he (omega arith) in
    ground (arith, times, any_equal_iff w.days t.weekday, is_empty-eq w.days)
