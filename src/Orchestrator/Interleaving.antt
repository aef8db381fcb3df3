-- ===== src/Orchestrator/Interleaving.antt =====
-- Jobs run at the same time, in any interleaving of their statements, and each row ends as if its job
-- had run alone.
use light_ipam.Base.{
  Bool, false, List, [], ◌∷◌, Option, none, some, ◌⊎◌, inl, inr, Text, same, same-eq, if◌then◌else◌,
  ◌≡◌, refl, sym, ap, subst, ◌∙◌, arith, Bool-cases, All,
}
use light_ipam.Orchestrator.Lifecycle.{
  JobRow, ScanJobResult, Statement, update_scan_job_result, set_scan_schedule_last_run,
  touch_scan_agent, audit, Tables, apply_result, update_rows, execute, execute_all,
}

-- One of several lists gives its first statement.
pub data Pick (s : Statement) : List (List Statement) → List (List Statement) → Type 0 where
  first :
      {rest : List Statement} {runs : List (List Statement)}
      → Pick s ((s ∷ rest) ∷ runs) (rest ∷ runs)
  later :
      {own : List Statement} {runs runs' : List (List Statement)}
      → Pick s runs runs'
      → Pick s (own ∷ runs) (own ∷ runs')

-- An order in which the statements of several goroutines reach the database.
pub data Interleaving : List (List Statement) → List Statement → Type 0 where
  all_done : {runs : List (List Statement)} → All (λ own. own ≡ []) runs → Interleaving runs []
  next :
      {s : Statement} {runs runs' : List (List Statement)} {statements : List Statement}
      → Pick s runs runs'
      → Interleaving runs' statements
      → Interleaving runs (s ∷ statements)

-- The row of a job.
unfoldable pub find_row : Text → List JobRow → Option JobRow
unfolding same
find_row id [] = none
find_row id (row ∷ rows) = let rest = find_row id rows in if same row.id id then some row else rest

abbrev pub writes : Text → Statement → Bool
writes id (update_scan_job_result own r) = same own id
writes id _ = false

abbrev pub apply_to : ScanJobResult → Option JobRow → Option JobRow
apply_to r none = none
apply_to r (some row) = some (apply_result r row)

-- What a statement does to the row of an id.
abbrev pub effect : Text → Statement → Option JobRow → Option JobRow
effect id (update_scan_job_result own r) row = if same own id then apply_to r row else row
effect id _ row = row

find_row-update_rows :
    (id own : Text) (r : ScanJobResult) (rows : List JobRow)
    → find_row id (update_rows own r rows)
      ≡ (if same own id then apply_to r (find_row id rows) else find_row id rows)
unfolding find_row update_rows apply_result
find_row-update_rows id own r [] = ground arith
find_row-update_rows id own r (row ∷ rows) =
    let ih = find_row-update_rows id own r rows in
    elim (Bool-cases (same row.id own)) [
      | inl hit ↦
          let q : same row.id id ≡ same own id = ap (λ x. same x id) (same-eq row.id own hit) in
          elim (Bool-cases (same own id)) [
            | inl e ↦ rw (hit, q, e) refl
            | inr e ↦ rw (hit, q, e) (ih ∙ (rw e refl))
          ]
      | inr miss ↦ elim (Bool-cases (same own id)) [
        | inl e ↦
            let q : same row.id id ≡ false =
              subst (λ x. same row.id x ≡ false) (same-eq own id e) miss in
            rw (miss, q, e) (ih ∙ (rw e refl))
        | inr e ↦ elim (Bool-cases (same row.id id)) [
          | inl k ↦ rw (miss, k, e) refl
          | inr k ↦ rw (miss, k, e) (ih ∙ (rw e refl))
        ]
      ]
    ]

find_row-execute :
    (id : Text) (s : Statement) (t : Tables)
    → find_row id (execute s t).rows ≡ effect id s (find_row id t.rows)
unfolding execute
find_row-execute id (update_scan_job_result own r) t = find_row-update_rows id own r t.rows
find_row-execute id (set_scan_schedule_last_run own status error job_id now) t = refl
find_row-execute id (touch_scan_agent own version now) t = refl
find_row-execute id (audit action own status) t = refl

-- What a list of statements does to the row of an id.
unfoldable pub effects : Text → List Statement → Option JobRow → Option JobRow
unfolding same apply_result
effects id [] row = row
effects id (s ∷ statements) row = effects id statements (effect id s row)

pub find_row-execute_all :
    (id : Text) (statements : List Statement) (t : Tables)
    → find_row id (execute_all statements t).rows ≡ effects id statements (find_row id t.rows)
unfolding execute_all effects
find_row-execute_all id [] t = refl
find_row-execute_all id (s ∷ statements) t =
    find_row-execute_all id statements (execute s t)
    ∙ ap (effects id statements) (find_row-execute id s t)

pub effect-of_other :
    (id : Text) (s : Statement) (row : Option JobRow) → writes id s ≡ false → effect id s row ≡ row
effect-of_other id (update_scan_job_result own r) row h = rw h refl
effect-of_other id (set_scan_schedule_last_run own status error job_id now) row h = refl
effect-of_other id (touch_scan_agent own version now) row h = refl
effect-of_other id (audit action own status) row h = refl

abbrev pub Quiet : Text → List Statement → Type 0
Quiet id = All (λ s. writes id s ≡ false)

-- One goroutine has the statements `own`, and no other writes the row.
abbrev pub Owner : Text → List Statement → List (List Statement) → Type 0
Owner id own [] = ⊥
Owner id own (x ∷ runs) = ((x ≡ own) × All (Quiet id) runs) ⊎ (Quiet id x × Owner id own runs)

-- The next statement is one of the owner's, or does not write the row.
abbrev Turned : Text → List Statement → Statement → List (List Statement) → Type 0
Turned id own s runs' =
    ((rest : List Statement) × (own ≡ s ∷ rest) × Owner id rest runs')
    ⊎ ((writes id s ≡ false) × Owner id own runs')

Pick-Quiet :
    (id : Text) (s : Statement) (runs runs' : List (List Statement))
    → Pick s runs runs'
    → All (Quiet id) runs
    → (writes id s ≡ false) × All (Quiet id) runs'
Pick-Quiet id s _ _ first ((h, own), others) = (h, (own, others))
Pick-Quiet id s _ _ (later p) (own, others) =
    let (h, rest) = Pick-Quiet id s _ _ p others in (h, (own, rest))

Pick-Turned :
    (id : Text) (own : List Statement) (s : Statement) (runs runs' : List (List Statement))
    → Pick s runs runs'
    → Owner id own runs
    → Turned id own s runs'
Pick-Turned id own s _ _ first (inl (mine, others)) = inl (_, sym mine, inl (refl, others))
Pick-Turned id own s _ _ first (inr ((h, quiet), owner)) = inr (h, inr (quiet, owner))
Pick-Turned id own s _ _ (later p) (inl (mine, others)) =
    let (h, rest) = Pick-Quiet id s _ _ p others in inr (h, inl (mine, rest))
Pick-Turned id own s _ _ (later p) (inr (quiet, owner)) = elim (Pick-Turned id own s _ _ p owner) [
  | inl (rest, q, o) ↦ inl (rest, q, inr (quiet, o))
  | inr (h, o) ↦ inr (h, inr (quiet, o))
]

Owner-done :
    (id : Text) (own : List Statement) (runs : List (List Statement))
    → All (λ x. x ≡ []) runs
    → Owner id own runs
    → own ≡ []
Owner-done id own [] h o = absurd o
Owner-done id own (x ∷ runs) (e, h) (inl (mine, _)) = sym mine ∙ e
Owner-done id own (x ∷ runs) (e, h) (inr (_, o)) = Owner-done id own runs h o

pub effects-Interleaving :
    (id : Text) (own : List Statement) (runs : List (List Statement)) (statements : List Statement)
    (row : Option JobRow)
    → Interleaving runs statements
    → Owner id own runs
    → effects id statements row ≡ effects id own row
unfolding effects
effects-Interleaving id own runs _ row (all_done h) o =
    ap (λ x. effects id x row) (sym (Owner-done id own runs h o))
effects-Interleaving id own runs _ row (next {s = s} {runs' = runs'} {statements = statements} p i)
      o =
    elim (Pick-Turned id own s runs runs' p o) [
      | inl (rest, q, o') ↦
          effects-Interleaving id rest runs' statements (effect id s row) i o'
          ∙ ap (λ x. effects id x row) (sym q)
      | inr (h, o') ↦
          effects-Interleaving id own runs' statements (effect id s row) i o'
          ∙ ap (effects id own) (effect-of_other id s row h)
    ]
