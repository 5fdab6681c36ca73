-- ===== src/Jobs/Rows.antt =====
-- The row of a step, and the writes that it comes from.
use stpp_connector.Base.{
  ℕ, ◌≡◌, refl, ap, ◌∙◌, subst, true, false, ◌&&◌, &&-true, Option, none, some, List, [], ◌∷◌, Text,
  text_eq, text_eq_iff, text_eq_refl, ◌==◌, ==_iff, ==_refl, keep_if, Bool-cases, inl, inr,
}
use stpp_connector.Jobs.Store.{StepRow, StepWrite, proposed, merged, is_row, upsert_row}
use stpp_connector.Jobs.Summary.{
  upsert_rows, find_row, is_write, summary, updated, updated-told, told-summary,
}

abbrev joined : StepWrite → Option StepRow → StepRow
joined w none = proposed w
joined w (some r) = merged w r

is_row-proposed : (w : StepWrite) → is_row w.job_id w.step_id (proposed w) ≡ true
unfolding proposed
is_row-proposed w = rw (text_eq_refl w.job_id) (==_refl w.step_id)

is_row-merged :
    (job_id : Text) (step_id : ℕ) (w : StepWrite) (r : StepRow)
    → is_row job_id step_id (merged w r) ≡ is_row job_id step_id r
unfolding merged
is_row-merged job_id step_id w r = refl

find_row-upsert_row :
    (w : StepWrite) (rows : List StepRow)
    → find_row w.job_id w.step_id (upsert_row w rows)
      ≡ some (joined w (find_row w.job_id w.step_id rows))
unfolding upsert_row
find_row-upsert_row w [] = rw (is_row-proposed w) refl
find_row-upsert_row w (r ∷ rows) = elim (Bool-cases (is_row w.job_id w.step_id r)) [
  | inl e ↦ rw (upsert_row, e, is_row-merged w.job_id w.step_id w r, e) refl
  | inr e ↦ rw (upsert_row, e, e) (find_row-upsert_row w rows)
]

-- A row and a write with the same key belong to the same rows.
is_row-is_write :
    (job_id : Text) (step_id : ℕ) (w : StepWrite) (r : StepRow)
    → is_row w.job_id w.step_id r ≡ true
    → is_row job_id step_id r ≡ is_write job_id step_id w
is_row-is_write job_id step_id w r h =
    let (same_job, same_step) = &&-true _ _ h in
    let a = (text_eq_iff r.job_id w.job_id).0 same_job in
    let b = (==_iff r.step_id w.step_id).0 same_step in
    λ i. text_eq (a i) job_id && (b i == step_id)

find_row-other :
    (job_id : Text) (step_id : ℕ) (w : StepWrite) (rows : List StepRow)
    → is_write job_id step_id w ≡ false
    → find_row job_id step_id (upsert_row w rows) ≡ find_row job_id step_id rows
unfolding upsert_row proposed
find_row-other job_id step_id w [] h = rw h refl
find_row-other job_id step_id w (r ∷ rows) h = elim (Bool-cases (is_row w.job_id w.step_id r)) [
  | inl e ↦
      let f = is_row-is_write job_id step_id w r e ∙ h in
      rw (upsert_row, e, is_row-merged job_id step_id w r, f) refl
  | inr e ↦ elim (Bool-cases (is_row job_id step_id r)) [
    | inl f ↦ rw (upsert_row, e, f) refl
    | inr f ↦ rw (upsert_row, e, f) (find_row-other job_id step_id w rows h)
  ]
]

abbrev after_writes : Option StepRow → List StepWrite → Option StepRow
after_writes o [] = o
after_writes o (w ∷ ws) = after_writes (some (joined w o)) ws

abbrev pub writes_of : Text → ℕ → List StepWrite → List StepWrite
writes_of job_id step_id = keep_if (is_write job_id step_id)

find_row-same :
    (job_id : Text) (step_id : ℕ) (w : StepWrite) (rows : List StepRow)
    → is_write job_id step_id w ≡ true
    → find_row job_id step_id (upsert_row w rows) ≡ some (joined w (find_row job_id step_id rows))
find_row-same job_id step_id w rows h =
    let (same_job, same_step) = &&-true _ _ h in
    let a = (text_eq_iff w.job_id job_id).0 same_job in
    let b = (==_iff w.step_id step_id).0 same_step in
    subst (λ j. find_row j step_id (upsert_row w rows) ≡ some (joined w (find_row j step_id rows)))
      a
      (subst
        (λ n. find_row w.job_id n (upsert_row w rows) ≡ some (joined w (find_row w.job_id n rows)))
        b (find_row-upsert_row w rows))

find_row-after :
    (job_id : Text) (step_id : ℕ) (ws : List StepWrite) (rows : List StepRow)
    → find_row job_id step_id (upsert_rows ws rows)
      ≡ after_writes (find_row job_id step_id rows) (writes_of job_id step_id ws)
unfolding upsert_rows
find_row-after job_id step_id [] rows = refl
find_row-after job_id step_id (w ∷ ws) rows =
    find_row-after job_id step_id ws (upsert_row w rows)
    ∙ elim (Bool-cases (is_write job_id step_id w)) [
      | inl e ↦ rw (e, find_row-same job_id step_id w rows e) refl
      | inr e ↦ rw (e, find_row-other job_id step_id w rows e) refl
    ]

after_writes-updated :
    (r : StepRow) (ws : List StepWrite) → after_writes (some r) ws ≡ some (updated r ws)
after_writes-updated r [] = refl
after_writes-updated r (w ∷ ws) = after_writes-updated (merged w r) ws

after_writes-summary : (ws : List StepWrite) → after_writes none ws ≡ summary ws
after_writes-summary [] = refl
after_writes-summary (w ∷ ws) =
    after_writes-updated (proposed w) ws
    ∙ ap some (updated-told (proposed w) ws)
    ∙ told-summary w ws

-- Whatever the writes to the table of steps, of any jobs and in any order: the row of a step is
-- what its own writes say. It has the status and the tool of the last one, the last arguments,
-- result and error that any of them gives, the time of the first one that is `running` and that of
-- the last one that is `complete` or `failed`; and there is a row exactly if there was a write.
pub upsert_rows-summary :
    (job_id : Text) (step_id : ℕ) (ws : List StepWrite)
    → find_row job_id step_id (upsert_rows ws []) ≡ summary (writes_of job_id step_id ws)
upsert_rows-summary job_id step_id ws =
    find_row-after job_id step_id ws [] ∙ after_writes-summary (writes_of job_id step_id ws)
