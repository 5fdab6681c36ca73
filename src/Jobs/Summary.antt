-- ===== src/Jobs/Summary.antt =====
-- What the writes of one step come to.
use stpp_connector.Base.{
  ℕ, ◌≡◌, refl, sym, ◌∙◌, Bool, ◌&&◌, Option, none, some, List, [], ◌∷◌, Text, text_eq, ◌==◌, first,
}
use stpp_connector.Jobs.Store.{
  StepRow, StepWrite, started_by, finished_by, coalesce, proposed, merged, is_row, upsert_row,
}

-- The writes of a job's steps, one after the other.
unfoldable pub upsert_rows : List StepWrite → List StepRow → List StepRow
upsert_rows [] rows = rows
upsert_rows (w ∷ ws) rows = upsert_rows ws (upsert_row w rows)

-- `WHERE job_id = … AND step_id = …`
abbrev pub find_row : Text → ℕ → List StepRow → Option StepRow
find_row job_id step_id = first (is_row job_id step_id)

abbrev pub is_write : Text → ℕ → StepWrite → Bool
is_write job_id step_id w = text_eq w.job_id job_id && (w.step_id == step_id)

-- The last value that is given, and the first one.
abbrev pub latest : {A : Type 0} → (StepWrite → Option A) → List StepWrite → Option A
latest f [] = none
latest f (w ∷ ws) = coalesce (latest f ws) (f w)

abbrev pub earliest : {A : Type 0} → (StepWrite → Option A) → List StepWrite → Option A
earliest f [] = none
earliest f (w ∷ ws) = coalesce (f w) (earliest f ws)

abbrev pub last_write : StepWrite → List StepWrite → StepWrite
last_write w [] = w
last_write w (v ∷ vs) = last_write v vs

-- What the writes of one step say: its last status and tool; the last arguments, result and error
-- that any of them has; when it first ran, and when it last ended.
abbrev pub summary : List StepWrite → Option StepRow
summary [] = none
summary (w ∷ ws) = some (record {
  job_id = w.job_id;
  step_id = w.step_id;
  status = StepWrite.status (last_write w ws);
  tool = StepWrite.tool (last_write w ws);
  args = latest (λ v. v.args) (w ∷ ws);
  result = latest (λ v. v.result) (w ∷ ws);
  error = latest (λ v. v.error) (w ∷ ws);
  started_at = earliest started_by (w ∷ ws);
  finished_at = latest finished_by (w ∷ ws);
})

coalesce_assoc :
    {A : Type 0} (a b c : Option A) → coalesce a (coalesce b c) ≡ coalesce (coalesce a b) c
coalesce_assoc none b c = refl
coalesce_assoc (some a) b c = refl

coalesce-none : {A : Type 0} (a : Option A) → coalesce a none ≡ a
coalesce-none none = refl
coalesce-none (some a) = refl

-- A row after more writes of its step.
abbrev pub updated : StepRow → List StepWrite → StepRow
updated r [] = r
updated r (w ∷ ws) = updated (merged w r) ws

abbrev pub text_after : (StepWrite → Text) → Text → List StepWrite → Text
text_after f t [] = t
text_after f t (w ∷ ws) = text_after f (f w) ws

abbrev pub told : StepRow → List StepWrite → StepRow
told r ws = record r {
  status = text_after (λ v. v.status) r.status ws;
  tool = text_after (λ v. v.tool) r.tool ws;
  args = coalesce (latest (λ v. v.args) ws) r.args;
  result = coalesce (latest (λ v. v.result) ws) r.result;
  error = coalesce (latest (λ v. v.error) ws) r.error;
  started_at = coalesce r.started_at (earliest started_by ws);
  finished_at = coalesce (latest finished_by ws) r.finished_at;
}

pub updated-told : (r : StepRow) (ws : List StepWrite) → updated r ws ≡ told r ws
unfolding merged
updated-told r [] = λ i. record r { started_at = sym (coalesce-none r.started_at) i }
updated-told r (w ∷ ws) = updated-told (merged w r) ws ∙ (λ i. record r {
  status = text_after (λ v. v.status) w.status ws;
  tool = text_after (λ v. v.tool) w.tool ws;
  args = coalesce_assoc (latest (λ v. v.args) ws) w.args r.args i;
  result = coalesce_assoc (latest (λ v. v.result) ws) w.result r.result i;
  error = coalesce_assoc (latest (λ v. v.error) ws) w.error r.error i;
  started_at = sym (coalesce_assoc r.started_at (started_by w) (earliest started_by ws)) i;
  finished_at = coalesce_assoc (latest finished_by ws) (finished_by w) r.finished_at i;
})

text_after-last :
    (f : StepWrite → Text) (w : StepWrite) (ws : List StepWrite)
    → text_after f (f w) ws ≡ f (last_write w ws)
text_after-last f w [] = refl
text_after-last f w (v ∷ vs) = text_after-last f v vs

pub told-summary :
    (w : StepWrite) (ws : List StepWrite) → some (told (proposed w) ws) ≡ summary (w ∷ ws)
unfolding proposed
told-summary w ws = λ i. some (record {
  job_id = w.job_id;
  step_id = w.step_id;
  status = text_after-last (λ v. v.status) w ws i;
  tool = text_after-last (λ v. v.tool) w ws i;
  args = coalesce (latest (λ v. v.args) ws) w.args;
  result = coalesce (latest (λ v. v.result) ws) w.result;
  error = coalesce (latest (λ v. v.error) ws) w.error;
  started_at = coalesce (started_by w) (earliest started_by ws);
  finished_at = coalesce (latest finished_by ws) (finished_by w);
})
