-- ===== src/Orchestrator/Runs.antt =====
-- What the row of a job holds after any number of jobs ran at the same time.
use light_ipam.Base.{
  ℕ, Bool, true, false, List, [], ◌∷◌, Option, none, some, inl, inr, Text, map, any, is_empty, same,
  same_refl, same_comm, if◌then◌else◌, ◌≡◌, refl, sym, ap, subst, ◌∙◌, arith, Bool-cases, In,
  In-cons, not-In-nil, All, In-any, In-map-intro,
}
use light_ipam.Combined.Hosts.{IsHostList}
use light_ipam.Orchestrator.{is_succeeded}
use light_ipam.Orchestrator.Lifecycle.{
  JobRow, ScanJobResult, Statement, update_scan_job_result, Tables, apply_result, execute_all, Run,
  kept, record_schedule_run, begun, ended, close_run, run,
}
use light_ipam.Orchestrator.Interleaving.{
  Interleaving, find_row, writes, effect, apply_to, effect-of_other, effects, Quiet, Owner,
  find_row-execute_all, effects-Interleaving,
}

kept-Quiet :
    (id : Text) (stored : Bool) (s : Statement) (others : List Statement)
    → writes id s ≡ false
    → Quiet id others
    → Quiet id (kept stored s others)
kept-Quiet id true s others h q = (h, q)
kept-Quiet id false s others h q = q

record_schedule_run-Quiet :
    (id : Text) (r : Run) (n : ℕ) (status error : Text) (others : List Statement)
    → Quiet id others
    → Quiet id (record_schedule_run r n status error others)
unfolding record_schedule_run
record_schedule_run-Quiet id r n status error others q =
    elim (Bool-cases (is_empty r.schedule_id)) [
      | inl e ↦ rw e q
      | inr e ↦ rw e (kept-Quiet id (r.stored n) _ others refl q)
    ]

close_run-Quiet : (id : Text) (r : Run) → Quiet id (close_run r)
unfolding close_run
close_run-Quiet id r = elim (Bool-cases (is_succeeded r.answer.status)) [
  | inl e ↦ rw e (kept-Quiet id (r.stored 4) _ _ refl (kept-Quiet id (r.stored 5) _ _ refl tt))
  | inr e ↦ rw e (kept-Quiet id (r.stored 5) _ _ refl tt)
]

run-Quiet : (id : Text) (r : Run) → same r.id id ≡ false → Quiet id (run r)
unfolding run
run-Quiet id r h = kept-Quiet id (r.stored 0) _ _ h (
    record_schedule_run-Quiet id r 1 _ _ _ (
      kept-Quiet id (r.stored 2) _ _ h
        (record_schedule_run-Quiet id r 3 _ _ _ (close_run-Quiet id r))))

runs-Quiet :
    (id : Text) (runs : List Run)
    → any (same id) (map (λ r. r.id) runs) ≡ false
    → All (Quiet id) (map run runs)
unfolding any
runs-Quiet id [] h = tt
runs-Quiet id (r ∷ runs) h =
    (run-Quiet id r (ground (arith, h, same_comm r.id id)), runs-Quiet id runs (ground (arith, h)))

-- Of jobs with different ids each owns its row.
run-Owner :
    (r : Run) (runs : List Run)
    → IsHostList (map (λ x. x.id) runs)
    → In r runs
    → Owner r.id (run r) (map run runs)
run-Owner r [] d m = absurd (not-In-nil m)
run-Owner r (x ∷ runs) (ne, fresh, d) m = elim (In-cons m) [
  | inl q ↦ inl (
    ap run (sym q),
    subst (λ k. All (Quiet k.id) (map run runs)) (sym q) (runs-Quiet x.id runs fresh),
  )
  | inr i ↦ inr (run-Quiet r.id x (apart i), run-Owner r runs d i)
]
  where
    apart : In r runs → same x.id r.id ≡ false
    apart i = elim (Bool-cases (same x.id r.id)) [
      | inr e ↦ e
      | inl e ↦ e ∙ sym (In-any (same x.id) (In-map-intro (λ k. k.id) i) e) ∙ fresh
    ]

-- What the statements of a job that were stored make of its row.
unfoldable pub outcome : Run → JobRow → JobRow
unfolding apply_result
outcome r row =
    if r.stored 2
    then record row {
      status = r.answer.status;
      error = r.answer.error;
      started_at = some (r.time 0);
      finished_at = some (r.time 2);
    }
    else if r.stored 0
    then apply_result (begun r) row
    else row

abbrev pub outcome_of : Run → Option JobRow → Option JobRow
outcome_of r none = none
outcome_of r (some row) = some (outcome r row)

effects-kept :
    (id : Text) (stored : Bool) (s : Statement) (others : List Statement) (row : Option JobRow)
    → effects id (kept stored s others) row
      ≡ effects id others (if stored then effect id s row else row)
unfolding effects
effects-kept id true s others row = refl
effects-kept id false s others row = refl

effects-Quiet :
    (id : Text) (statements : List Statement) (row : Option JobRow)
    → Quiet id statements
    → effects id statements row ≡ row
unfolding effects
effects-Quiet id [] row q = refl
effects-Quiet id (s ∷ statements) row (h, q) =
    ap (effects id statements) (effect-of_other id s row h) ∙ effects-Quiet id statements row q

if-same : {A : Type 0} (b : Bool) (a : A) → (if b then a else a) ≡ a
if-same true a = refl
if-same false a = refl

effects-record_schedule_run :
    (r : Run) (n : ℕ) (status error : Text) (others : List Statement) (row : Option JobRow)
    → effects r.id (record_schedule_run r n status error others) row ≡ effects r.id others row
unfolding record_schedule_run
effects-record_schedule_run r n status error others row =
    elim (Bool-cases (is_empty r.schedule_id)) [
      | inl e ↦ rw e refl
      | inr e ↦ rw e (
          effects-kept r.id (r.stored n) _ others row
          ∙ ap (effects r.id others) (if-same (r.stored n) row))
    ]

effect-own :
    (r : Run) (result : ScanJobResult) (row : Option JobRow)
    → effect r.id (update_scan_job_result r.id result) row ≡ apply_to result row
effect-own r result row = rw (same_refl r.id) refl

-- The two updates of the row, where they were stored.
after_updates :
    (r : Run) (row : Option JobRow)
    → (if r.stored 2
        then apply_to (ended r) (if r.stored 0 then apply_to (begun r) row else row)
        else if r.stored 0
        then apply_to (begun r) row
        else row)
      ≡ outcome_of r row
unfolding outcome apply_result
after_updates r none = ground arith
after_updates r (some row) = elim (Bool-cases (r.stored 2)) [
  | inl e ↦ elim (Bool-cases (r.stored 0)) [ inl k ↦ rw (e, k) refl | inr k ↦ rw (e, k) refl ]
  | inr e ↦ elim (Bool-cases (r.stored 0)) [ inl k ↦ rw (e, k) refl | inr k ↦ rw (e, k) refl ]
]

effects-run : (r : Run) (row : Option JobRow) → effects r.id (run r) row ≡ outcome_of r row
unfolding run
effects-run r row =
    let begin =
      if r.stored 0 then effect r.id (update_scan_job_result r.id (begun r)) row else row in
    let end =
      if r.stored 2 then effect r.id (update_scan_job_result r.id (ended r)) begin else begin in
    effects-kept r.id (r.stored 0) (update_scan_job_result r.id (begun r)) _ row
    ∙ effects-record_schedule_run r 1 _ _ _ begin
    ∙ effects-kept r.id (r.stored 2) (update_scan_job_result r.id (ended r)) _ begin
    ∙ effects-record_schedule_run r 3 _ _ _ end
    ∙ effects-Quiet r.id (close_run r) end (close_run-Quiet r.id r)
    ∙ rw (effect-own r (begun r) row, effect-own r (ended r) _) (after_updates r row)

-- However the statements of jobs with different ids interleave, and whichever of them are lost, the
-- row of each job ends as if the job had run alone. Where the last update was stored the row has the
-- status and the error that `dispatch` returned, with both times; where only the first was, the job
-- is shown as running; where neither was, the row is as it was created.
pub execute_all-outcome :
    (runs : List Run) (statements : List Statement) (t : Tables)
    → IsHostList (map (λ r. r.id) runs)
    → Interleaving (map run runs) statements
    → (r : Run) → In r runs
    → find_row r.id (execute_all statements t).rows ≡ outcome_of r (find_row r.id t.rows)
execute_all-outcome runs statements t d i r m =
    find_row-execute_all r.id statements t
    ∙ effects-Interleaving r.id (run r) (map run runs) statements (find_row r.id t.rows) i
        (run-Owner r runs d m)
    ∙ effects-run r (find_row r.id t.rows)
