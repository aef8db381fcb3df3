-- ===== src/Window.antt =====
-- internal/scanner/orchestrator/windows.go: when a schedule may fire. What the code reads of a
-- `time.Time` is its weekday, hour and minute in its zone; reading one in another zone
-- (`now.In(loc)`, by the zone database) is an argument. Laws are in Window/Cycle.antt and
-- Window/Schedule.antt.
pub mod Cycle
pub mod Schedule
use light_ipam.Base.{
  ℕ, zero, suc, ◌+◌, ◌*◌, Bool, true, false, not, ◌&&◌, ◌||◌, List, [], ◌∷◌, Option, none, some,
  Text, codes, is_empty, same, any, ◌==◌, ltb, leb, if◌then◌else◌, ℤ, pos, negsuc,
}

pub record Clock : Type 0 where
  pub weekday : ℕ
  pub hour : ℕ
  pub minute : ℕ

-- `scanWindow`; `days` holds the allowed weekdays.
pub record ScanWindow (Location : Type 0) : Type 0 where
  pub start_min : ℤ
  pub end_min : ℤ
  pub days : List ℕ
  pub loc : Option Location

-- The window of a stored schedule; `none` is a nil bound.
pub record ScheduleWindow : Type 0 where
  pub window_start_min : Option ℤ
  pub window_end_min : Option ℤ
  pub window_days : List ℤ
  pub window_tz : Text

-- The comparison of the time of day; bounds below zero restrict nothing.
unfoldable pub time_allows : ℤ → ℤ → ℕ → Bool
time_allows (negsuc s) e cur = true
time_allows (pos s) (negsuc e) cur = true
time_allows (pos s) (pos e) cur =
    if s == e then true else if ltb s e then leb s cur && ltb cur e else leb s cur || ltb cur e

unfoldable pub day_allows : List ℕ → ℕ → Bool
unfolding any
day_allows days weekday = is_empty days || any (λ d. d == weekday) days

module _ {Location : Type 0} (relocate : Location → Clock → Clock) where
  abbrev pub in_zone : Option Location → Clock → Clock
  in_zone none now = now
  in_zone (some loc) now = relocate loc now

  -- `windowAllows`.
  unfoldable pub window_allows : ScanWindow Location → Clock → Bool
  unfolding time_allows day_allows
  window_allows w now =
      let t = in_zone w.loc now in
      if not (day_allows w.days t.weekday)
      then false
      else time_allows w.start_min w.end_min (t.hour * 60 + t.minute)

abbrev pub bound : Option ℤ → ℤ
bound none = negsuc 0
bound (some n) = n

-- The days that are weekdays.
unfoldable pub weekdays : List ℤ → List ℕ
weekdays [] = []
weekdays (negsuc n ∷ ds) = weekdays ds
weekdays (pos n ∷ ds) = let rest = weekdays ds in if leb n 6 then n ∷ rest else rest

-- `windowFromSchedule`; `load` is `time.LoadLocation`.
module _ {Location : Type 0} (utc : Location) (load : Text → Option Location) where
  abbrev pub or_utc : Option Location → Location
  or_utc none = utc
  or_utc (some loc) = loc

  unfoldable pub window_from_schedule : ScheduleWindow → ScanWindow Location
  unfolding weekdays
  window_from_schedule s = record {
    start_min = bound s.window_start_min;
    end_min = bound s.window_end_min;
    days = weekdays s.window_days;
    loc = some (
        if is_empty s.window_tz || same s.window_tz (codes "UTC")
        then utc
        else or_utc (load s.window_tz));
  }
