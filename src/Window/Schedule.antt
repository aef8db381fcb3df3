-- ===== src/Window/Schedule.antt =====
-- When a stored schedule may fire: `windowAllows` after `windowFromSchedule`
-- (internal/scanner/orchestrator/windows.go).
use light_ipam.Base.{
  ℕ, ◌+◌, ◌*◌, ◌<◌, ◌≤◌, true, Bool-cases, ◌||◌, List, [], ◌∷◌, Option, none, some, Text, codes,
  is_empty, same, same-eq, same_refl, leb, leb_iff, if◌then◌else◌, ◌≡◌, ◌≢◌, ◌↔◌, ◌⊎◌, inl, inr,
  refl, sym, ap, subst, ◌∙◌, ℤ, pos, negsuc, In, here, there, In-cons, not-In-nil, is_empty-eq,
  Option-cases,
}
use light_ipam.Window.{
  Clock, ScheduleWindow, weekdays, or_utc, bound, window_from_schedule, window_allows,
}
use light_ipam.Window.Cycle.{ahead, TimeAllowed, InDay, window_allows_iff}

pos-injective : {n m : ℕ} → pos n ≡ pos m → n ≡ m
pos-injective h = cc

-- The weekdays among the days of a schedule.
In-weekdays : (ds : List ℤ) (n : ℕ) → In n (weekdays ds) → (n ≤ 6) × In (pos n) ds
unfolding weekdays
In-weekdays [] n m = absurd (not-In-nil m)
In-weekdays (negsuc k ∷ ds) n m = let (le, later) = In-weekdays ds n m in (le, there later)
In-weekdays (pos k ∷ ds) n m = elim (Bool-cases (leb k 6)) [
  | inl fits ↦ elim (In-cons (rw (weekdays, fits) at m)) [
    | inl e ↦ (
      subst (λ x. x ≤ 6) (sym e) ((leb_iff k 6).0 fits),
      subst (λ x. In (pos n) (pos x ∷ ds)) e here,
    )
    | inr later ↦ let (le, i) = In-weekdays ds n later in (le, there i)
  ]
  | inr off ↦ let (le, i) = In-weekdays ds n (rw (weekdays, off) at m) in (le, there i)
]

weekdays-In : (ds : List ℤ) (n : ℕ) → n ≤ 6 → In (pos n) ds → In n (weekdays ds)
unfolding weekdays
weekdays-In [] n le m = absurd (not-In-nil m)
weekdays-In (negsuc k ∷ ds) n le m = elim (In-cons m) [
  | inl e ↦ cc e
  | inr later ↦ weekdays-In ds n le later
]
weekdays-In (pos k ∷ ds) n le m = elim (Bool-cases (leb k 6)) [
  | inl fits ↦ elim (In-cons m) [
    | inl e ↦ rw (weekdays, fits) (subst (λ x. In n (x ∷ weekdays ds)) (pos-injective e) here)
    | inr later ↦ rw (weekdays, fits) (there (weekdays-In ds n le later))
  ]
  | inr off ↦ elim (In-cons m) [
    | inl e ↦
        let fits : leb k 6 ≡ true = (leb_iff k 6).1 (subst (λ x. x ≤ 6) (pos-injective e) le) in
        absurd (cc (sym fits ∙ off))
    | inr later ↦ rw (weekdays, off) (weekdays-In ds n le later)
  ]
]

-- The days of a schedule allow a weekday: it is listed, or no weekday is.
abbrev pub DayAllowed : List ℤ → ℕ → Type 0
DayAllowed ds n = ((k : ℕ) → k ≤ 6 → ¬ In (pos k) ds) ⊎ In (pos n) ds

weekdays-DayAllowed :
    (ds : List ℤ) (n : ℕ) → n ≤ 6 → ((weekdays ds ≡ []) ⊎ In n (weekdays ds)) ↔ DayAllowed ds n
weekdays-DayAllowed ds n le = (
  λ h. elim h [
    | inl e ↦ inl (λ k fits m. not-In-nil (subst (In k) e (weekdays-In ds k fits m)))
    | inr m ↦ inr (In-weekdays ds n m).1
  ],
  λ h. elim h [
    | inl bare ↦
        inl (nothing_in (weekdays ds) (λ k m. bare k (In-weekdays ds k m).0 (In-weekdays ds k m).1))
    | inr m ↦ inr (weekdays-In ds n le m)
  ],
)
  where
    nothing_in : (xs : List ℕ) → ((k : ℕ) → ¬ In k xs) → xs ≡ []
    nothing_in [] h = refl
    nothing_in (x ∷ xs) h = absurd (h x here)

-- The bounds of a schedule allow a time of the day: one of them is missing or below zero, they are
-- the same, or the time comes up before the end does.
abbrev pub TimeFor : Option ℤ → Option ℤ → ℕ → Type 0
TimeFor (some (pos s)) (some (pos e)) cur = (s ≡ e) ⊎ (ahead s cur < ahead s e)
TimeFor _ _ cur = Unit {0}

bounds_iff : (s e : Option ℤ) (cur : ℕ) → TimeAllowed (bound s) (bound e) cur ↔ TimeFor s e cur
bounds_iff none e cur = ((λ h. h), λ h. h)
bounds_iff (some (negsuc s)) e cur = ((λ h. h), λ h. h)
bounds_iff (some (pos s)) none cur = ((λ h. h), λ h. h)
bounds_iff (some (pos s)) (some (negsuc e)) cur = ((λ h. h), λ h. h)
bounds_iff (some (pos s)) (some (pos e)) cur = ((λ h. h), λ h. h)

abbrev pub BoundInDay : Option ℤ → Type 0
BoundInDay none = Unit {0}
BoundInDay (some n) = InDay n

bound-InDay : (o : Option ℤ) → BoundInDay o → InDay (bound o)
bound-InDay none h = tt
bound-InDay (some n) h = h

-- A weekday and a time of the day.
abbrev pub IsClock : Clock → Type 0
IsClock t = (t.weekday ≤ 6) × (t.hour < 24) × (t.minute < 60)

module _ {Location : Type 0} (utc : Location) (load : Text → Option Location) where
  -- The zone of a name: UTC for the empty one, `UTC` and one that is not known.
  abbrev pub IsZone : Text → Location → Type 0
  IsZone name loc =
      (((name ≡ []) ⊎ (name ≡ codes "UTC") ⊎ (load name ≡ none)) × (loc ≡ utc))
      ⊎ ((name ≢ []) × (name ≢ codes "UTC") × (load name ≡ some loc))

  abbrev zone_of : Text → Location
  zone_of name =
      if is_empty name || same name (codes "UTC") then utc else or_utc utc load (load name)

  zone_of-IsZone : (name : Text) → IsZone name (zone_of name)
  zone_of-IsZone name = elim (Bool-cases (is_empty name)) [
    | inl blank ↦ inl (inl (is_empty-eq name blank), rw blank refl)
    | inr given ↦ elim (Bool-cases (same name (codes "UTC"))) [
      | inl u ↦ inl (inr (inl (same-eq name (codes "UTC") u)), rw (given, u) refl)
      | inr other ↦ elim (Option-cases (load name)) [
        | inl unknown ↦ inl (inr (inr unknown), rw (given, other, unknown) refl)
        | inr (loc, known) ↦ inr (
          (λ e. cc (sym given ∙ ap is_empty e)),
          (λ e. cc (sym other ∙ ap (λ t. same t (codes "UTC")) e ∙ same_refl (codes "UTC"))),
          rw (given, other, known) refl,
        )
      ]
    ]
  ]

  -- What a schedule asks of a time in a zone.
  abbrev pub FiresAt : ScheduleWindow → Clock → Type 0
  FiresAt s t =
      DayAllowed s.window_days t.weekday
      × TimeFor s.window_start_min s.window_end_min (t.hour * 60 + t.minute)

  -- A stored schedule may fire at a time exactly when, in its zone, which is UTC where its name is
  -- empty, `UTC` or unknown, the weekday is listed or none is, and the time of the day is in the
  -- half-open arc from the start to the end, wherever midnight lies, or a bound is missing or below
  -- zero, or the two are the same. Bounds are in the day, and a clock shows a weekday and a time.
  pub window_from_schedule-allows_iff :
      (relocate : Location → Clock → Clock) (s : ScheduleWindow) (now : Clock)
      → BoundInDay s.window_start_min
      → BoundInDay s.window_end_min
      → ((loc : Location) → IsClock (relocate loc now))
      → (loc : Location) × IsZone s.window_tz loc
        × ((window_allows relocate (window_from_schedule utc load s) now ≡ true)
            ↔ FiresAt s (relocate loc now))
  unfolding window_from_schedule
  window_from_schedule-allows_iff relocate s now hs he clock =
      let loc = zone_of s.window_tz in
      let t = relocate loc now in
      let (day, hour, minute) = clock loc in
      let cur = t.hour * 60 + t.minute in
      let allowed =
        window_allows_iff relocate (window_from_schedule utc load s) now
          (bound-InDay s.window_start_min hs) (bound-InDay s.window_end_min he) hour minute in
      let days = weekdays-DayAllowed s.window_days t.weekday day in
      let times = bounds_iff s.window_start_min s.window_end_min cur in
      (
        loc,
        zone_of-IsZone s.window_tz,
        (
          (λ h. let (d, c) = allowed.0 h in (days.0 d, times.0 c)),
          λ (d, c). allowed.1 (days.1 d, times.1 c),
        ),
      )
