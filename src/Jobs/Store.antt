-- ===== src/Jobs/Store.antt =====
-- `PostgresJobStore` of services/integration-api/app/jobstore.py, with the tables of the `jobs`
-- database (db/migrations/jobs) that its statements read and write. Times are the server's `now()`,
-- in ticks; ids of jobs are the texts of their UUIDs.
use stpp_connector.Base.{
  ℕ, ◌*◌, ◌+◌, Bool, ◌&&◌, ◌||◌, not, Option, none, some, List, [], ◌∷◌, ◌++◌, Text, codes, text_eq,
  mem_text, keep_if, some_of, length, if◌then◌else◌, ◌==◌, ltb, Result, ok, err,
}
use stpp_connector.Json.{Value}

pub record JobRow : Type 0 where
  pub job_id : Text
  pub user_sub : Text
  pub query : Text
  pub status : Text
  pub messages : Option Value
  pub created_at : ℕ
  pub updated_at : ℕ

pub record PlanRow : Type 0 where
  pub job_id : Text
  pub plan : Value
  pub validated_at : ℕ

pub record StepRow : Type 0 where
  pub job_id : Text
  pub step_id : ℕ
  pub status : Text
  pub tool : Text
  pub args : Option Value
  pub result : Option Value
  pub error : Option Text
  pub started_at : Option ℕ
  pub finished_at : Option ℕ

pub record EventRow : Type 0 where
  pub job_id : Text
  pub seq : ℕ
  pub type : Text
  pub payload : Value

pub record Store : Type 0 where
  pub jobs : List JobRow
  pub plans : List PlanRow
  pub steps : List StepRow
  pub events : List EventRow

-- The constraint that refuses a statement.
pub data Violated : Type 0 where
  no_such_job : Violated
  null_tool : Violated
  unknown_status : Violated
  duplicate_key : Violated

abbrev pub Done : Type 0
Done = Result Violated Unit × Store

unfoldable pub has_job : Text → Store → Bool
has_job job_id store = some_of (λ j. text_eq (JobRow.job_id j) job_id) store.jobs

-- `new_id` is the UUID that the database makes.
unfoldable pub create_job : Text → ℕ → Text → Text → Option Value → Store → Text × Store
create_job new_id now user_sub query messages store = (
  new_id,
  record store {
    jobs =
        store.jobs
        ++ record {
          job_id = new_id;
          user_sub = user_sub;
          query = query;
          status = codes "planning";
          messages = messages;
          created_at = now;
          updated_at = now;
        }
          ∷ [];
  },
)

abbrev pub job_statuses : List Text
job_statuses =
    codes "planning"
    ∷ codes "executing"
    ∷ codes "synthesizing"
    ∷ codes "complete"
    ∷ codes "failed"
    ∷ []

unfoldable pub mark_jobs : Text → Text → ℕ → List JobRow → List JobRow
mark_jobs job_id status now [] = []
mark_jobs job_id status now (j ∷ js) =
    let rest = mark_jobs job_id status now js in
    if text_eq j.job_id job_id
    then record j { status = status; updated_at = now } ∷ rest
    else j ∷ rest

-- An UPDATE of no row succeeds; a status is checked only in a row.
unfoldable pub set_status : Text → Text → ℕ → Store → Done
set_status job_id status now store =
    if has_job job_id store && not (mem_text status job_statuses)
    then (err unknown_status, store)
    else (ok tt, record store { jobs = mark_jobs job_id status now store.jobs })

unfoldable pub append_event : Text → ℕ → Text → Value → Store → Done
append_event job_id seq type payload store =
    if has_job job_id store
    then if some_of (λ e. text_eq (EventRow.job_id e) job_id && (EventRow.seq e == seq))
        store.events
      then (err duplicate_key, store)
      else (
        ok tt,
        record store {
          events =
              store.events
              ++ record { job_id = job_id; seq = seq; type = type; payload = payload } ∷ [];
        },
      )
    else (err no_such_job, store)

-- `INSERT … ON CONFLICT (job_id) DO UPDATE`
unfoldable pub put_plan : PlanRow → List PlanRow → List PlanRow
put_plan row [] = row ∷ []
put_plan row (p ∷ ps) =
    if text_eq (PlanRow.job_id p) row.job_id then row ∷ ps else p ∷ put_plan row ps

unfoldable pub save_plan : Text → Value → ℕ → Store → Done
save_plan job_id plan now store =
    if has_job job_id store
    then (
      ok tt,
      record store {
        plans = put_plan (record { job_id = job_id; plan = plan; validated_at = now }) store.plans;
      },
    )
    else (err no_such_job, store)

-- The arguments of `upsert_step` with a tool, and the time.
pub record StepWrite : Type 0 where
  pub job_id : Text
  pub step_id : ℕ
  pub status : Text
  pub tool : Text
  pub args : Option Value
  pub result : Option Value
  pub error : Option Text
  pub now : ℕ

-- `CASE WHEN … THEN now() END`
unfoldable pub started_by : StepWrite → Option ℕ
started_by w = if text_eq w.status (codes "running") then some w.now else none

unfoldable pub finished_by : StepWrite → Option ℕ
finished_by w =
    if text_eq w.status (codes "complete") || text_eq w.status (codes "failed")
    then some w.now
    else none

-- `COALESCE(a, b)`
abbrev pub coalesce {ℓ} : {A : Type ℓ} → Option A → Option A → Option A
coalesce none b = b
coalesce (some a) b = some a

-- The row that is proposed for insertion.
unfoldable pub proposed : StepWrite → StepRow
proposed w = record {
  job_id = w.job_id;
  step_id = w.step_id;
  status = w.status;
  tool = w.tool;
  args = w.args;
  result = w.result;
  error = w.error;
  started_at = started_by w;
  finished_at = finished_by w;
}

-- The row after the conflict. `tool` is NOT NULL, so that its COALESCE is the new one.
unfoldable pub merged : StepWrite → StepRow → StepRow
merged w r = record r {
  status = w.status;
  tool = w.tool;
  args = coalesce w.args r.args;
  result = coalesce w.result r.result;
  error = coalesce w.error r.error;
  started_at = coalesce r.started_at (started_by w);
  finished_at = coalesce (finished_by w) r.finished_at;
}

abbrev pub is_row : Text → ℕ → StepRow → Bool
is_row job_id step_id r = text_eq r.job_id job_id && (r.step_id == step_id)

unfoldable pub upsert_row : StepWrite → List StepRow → List StepRow
upsert_row w [] = proposed w ∷ []
upsert_row w (r ∷ rs) = if is_row w.job_id w.step_id r then merged w r ∷ rs else r ∷ upsert_row w rs

abbrev pub step_statuses : List Text
step_statuses =
    codes "pending" ∷ codes "running" ∷ codes "repairing" ∷ codes "complete" ∷ codes "failed" ∷ []

-- NOT NULL and CHECK are decided on the proposed row, before the conflict is.
unfoldable pub upsert_step :
    Text → ℕ → Text → Option Text → Option Value → Option Value → Option Text → ℕ → Store → Done
upsert_step job_id step_id status none args result error now store = (err null_tool, store)
upsert_step job_id step_id status (some tool) args result error now store =
    if not (mem_text status step_statuses)
    then (err unknown_status, store)
    else if has_job job_id store
    then (
      ok tt,
      record store {
        steps =
            upsert_row
              (record {
                job_id = job_id;
                step_id = step_id;
                status = status;
                tool = tool;
                args = args;
                result = result;
                error = error;
                now = now;
              })
              store.steps;
      },
    )
    else (err no_such_job, store)

-- `created_at < now() - make_interval(hours => n)`, with `hour` ticks to the hour.
unfoldable pub is_old : ℕ → ℕ → ℕ → JobRow → Bool
is_old hour now retention_hours j = ltb (j.created_at + retention_hours * hour) now

-- The rows of other tables go with their job (ON DELETE CASCADE). The number of jobs is returned.
unfoldable pub sweep : ℕ → ℕ → ℕ → Store → ℕ × Store
sweep hour now retention_hours store =
    let old = keep_if (is_old hour now retention_hours) store.jobs in
    let gone : Text → Bool = λ id. some_of (λ j. text_eq (JobRow.job_id j) id) old in
    (
      length old,
      record {
        jobs = keep_if (λ j. not (is_old hour now retention_hours j)) store.jobs;
        plans = keep_if (λ p. not (gone (PlanRow.job_id p))) store.plans;
        steps = keep_if (λ s. not (gone (StepRow.job_id s))) store.steps;
        events = keep_if (λ e. not (gone (EventRow.job_id e))) store.events;
      },
    )
