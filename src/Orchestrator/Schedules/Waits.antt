-- ===== src/Orchestrator/Schedules/Waits.antt =====
-- A schedule outside its window keeps its place among the due ones.
use mathlib.Core.Bool.{true≢false}
use light_ipam.Base.{
  ℕ, Bool, true, false, List, [], ◌∷◌, Option, none, some, Text, same, same_iff, leb, ◌≡◌, ◌≢◌, ◌⊎◌,
  inl, inr, sym, ap, ◌∙◌, In, here, there, In-cons, Bool-cases,
}
use light_ipam.Protocol.{AgentRegistration}
use light_ipam.Protocol.Validate
use light_ipam.Protocol.Validate.{JobError}
use light_ipam.Window.{Clock, window_allows, window_from_schedule}
use light_ipam.Orchestrator.{Jobs, enqueue}
use light_ipam.Orchestrator.Schedules.{
  Schedule, Board, insert_due, is_due, list_due, update_schedule, mark_ran, reject, get_agent,
  job_of, enqueued, run_for, run_schedule, run_each, run_due_schedules,
}

insert_due-In :
    (s t : Schedule) (due : List Schedule) → In s (insert_due t due) → (s ≡ t) ⊎ In s due
unfolding insert_due
insert_due-In s t [] i = In-cons i
insert_due-In s t (x ∷ due) i = elim (Bool-cases (leb t.next_run_at x.next_run_at)) [
  | inl first ↦ In-cons (rw first at i)
  | inr later ↦ elim (In-cons (rw later at i)) [
    | inl e ↦ inr (rw e here)
    | inr j ↦ elim (insert_due-In s t due j) [ inl e ↦ inl e | inr k ↦ inr (there k) ]
  ]
]

list_due-In : (s : Schedule) (now : ℕ) (rows : List Schedule) → In s (list_due now rows) → In s rows
unfolding list_due
list_due-In s now [] i = i
list_due-In s now (x ∷ rows) i = elim (Bool-cases (is_due now x)) [
  | inl due ↦ elim (insert_due-In s x (list_due now rows) (rw due at i)) [
    | inl e ↦ rw e here
    | inr j ↦ there (list_due-In s now rows j)
  ]
  | inr not_due ↦ there (list_due-In s now rows (rw not_due at i))
]

-- An update of another id leaves a row as it is.
update_schedule-In :
    (change : Schedule → Schedule) (id : Text) (r : Schedule) (rows : List Schedule)
    → r.id ≢ id
    → In r rows
    → In r (update_schedule change id rows)
unfolding update_schedule
update_schedule-In change id r [] other i = i
update_schedule-In change id r (x ∷ rows) other i = elim (In-cons i) [
  | inl e ↦ elim (Bool-cases (same x.id id)) [
    | inl hit ↦ absurd (other (ap (λ o. o.id) e ∙ (same_iff x.id id).0 hit))
    | inr miss ↦ rw (miss, e) here
  ]
  | inr later ↦ there (update_schedule-In change id r rows other later)
]

-- No id is twice in the table.
abbrev pub OneRow : List Schedule → Type 0
OneRow rows = (s t : Schedule) → In s rows → In t rows → s.id ≡ t.id → s ≡ t

module _ (name : Jobs → Text) (message : JobError → Text) (now : ℕ) where
  run_for-In :
      (b : Board) (s r : Schedule) (o : Option AgentRegistration)
      → r.id ≢ s.id
      → In r b.schedules
      → In r (run_for name message now b s o).schedules
  run_for-In b s r none other i = i
  run_for-In b s r (some agent) other i = landed (enqueue b.jobs agent (job_of s now) (name b.jobs))
    where
      landed : (c : Validate.Result Jobs) → In r (enqueued name message now b s c).schedules
      landed (Validate.Result.ok jobs) = i
      landed (Validate.Result.err e) =
          update_schedule-In (reject now (message e)) s.id r b.schedules other i

  run_schedule-In :
      (b : Board) (s r : Schedule)
      → r.id ≢ s.id
      → In r b.schedules
      → In r (run_schedule name message now b s).schedules
  unfolding run_schedule
  run_schedule-In b s r other i = run_for-In b s r (get_agent s.agent_id b.agents) other i

  run_each-In :
      (allowed : Schedule → Bool) (b : Board) (r : Schedule) (due : List Schedule)
      → ((s : Schedule) → In s due → allowed s ≡ true → r.id ≢ s.id)
      → In r b.schedules
      → In r (run_each name message now allowed b due).schedules
  unfolding run_each
  run_each-In allowed b r [] others i = i
  run_each-In allowed b r (s ∷ due) others i = elim (Bool-cases (allowed s)) [
    | inl inside ↦
        let fired = run_schedule name message now b s in
        let marked = record fired {
          schedules = update_schedule (mark_ran now) s.id fired.schedules;
        } in
        rw inside (
          run_each-In allowed marked r due (λ t j. others t (there j))
            (update_schedule-In (mark_ran now) s.id r fired.schedules (others s here inside)
              (run_schedule-In b s r (others s here inside) i)))
    | inr outside ↦ rw outside (run_each-In allowed b r due (λ t j. others t (there j)) i)
  ]

  -- Where ids are distinct, a schedule whose window does not allow the time of the tick keeps its
  -- row, with its next run, through the tick: it stays due, whatever the others do.
  pub run_due_schedules-In :
      {Location : Type 0} (relocate : Location → Clock → Clock) (utc : Location)
      (load : Text → Option Location) (clock : Clock) (b : Board) (r : Schedule)
      → OneRow b.schedules
      → In r b.schedules
      → window_allows relocate (window_from_schedule utc load r.window) clock ≡ false
      → In r (run_due_schedules name message now relocate utc load clock b).schedules
  unfolding run_due_schedules
  run_due_schedules-In relocate utc load clock b r one i outside =
      let allowed =
        λ (s : Schedule). window_allows relocate (window_from_schedule utc load s.window) clock in
      run_each-In allowed b r (list_due now b.schedules)
        (λ s j inside same_id. true≢false (
          sym inside
          ∙ ap allowed (sym (one r s i (list_due-In s now b.schedules j) same_id))
          ∙ outside))
        i
