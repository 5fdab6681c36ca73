-- ===== src/Jobs/View.antt =====
-- `get_job` of services/integration-api/app/jobstore.py: the document of GET /v1/jobs/{job_id}.
use stpp_connector.Base.{
  ℕ, ◌&&◌, Option, none, some, List, [], ◌∷◌, Text, codes, text_eq, keep_if, first, map,
  if◌then◌else◌, leb,
}
use stpp_connector.Json.{
  Value, Fields, null, int, pos, str, arr, obj, end, field, items_of, lookup_key,
}
use stpp_connector.Jobs.Store.{JobRow, PlanRow, StepRow, EventRow, Store}

abbrev pub or_null : Option Value → Value
or_null none = null
or_null (some v) = v

abbrev pub text_value : Option Text → Value
text_value none = null
text_value (some t) = str t

-- `ORDER BY step_id`
unfoldable pub insert_step : StepRow → List StepRow → List StepRow
insert_step s [] = s ∷ []
insert_step s (r ∷ rs) =
    if leb s.step_id (StepRow.step_id r) then s ∷ r ∷ rs else r ∷ insert_step s rs

unfoldable pub by_step_id : List StepRow → List StepRow
by_step_id [] = []
by_step_id (r ∷ rs) = insert_step r (by_step_id rs)

abbrev pub later : EventRow → Option EventRow → Option EventRow
later e none = some e
later e (some l) = if leb l.seq e.seq then some e else some l

-- `WHERE job_id = $1 AND type = … ORDER BY seq DESC LIMIT 1`
unfoldable pub last_event : Text → Text → List EventRow → Option EventRow
last_event job_id type [] = none
last_event job_id type (e ∷ es) =
    let rest = last_event job_id type es in
    if text_eq e.job_id job_id && text_eq e.type type then later e rest else rest

-- `payload.get(key)`; the data of an event are a dict.
abbrev pub get_or_null : Text → Value → Value
get_or_null k v = or_null (lookup_key k v)

-- `iso` stands for `datetime.isoformat`.
module _ (iso : ℕ → Text) where
  abbrev pub iso_or_null : Option ℕ → Value
  iso_or_null none = null
  iso_or_null (some t) = str (iso t)

  unfoldable pub step_document : StepRow → Value
  step_document s = obj (
      field (codes "step_id") (int (pos s.step_id)) (
        field (codes "status") (str s.status) (
          field (codes "tool") (str s.tool) (
            field (codes "args") (or_null s.args) (
              field (codes "result") (or_null s.result) (
                field (codes "error") (text_value s.error) (
                  field (codes "started_at") (iso_or_null s.started_at)
                    (field (codes "finished_at") (iso_or_null s.finished_at) end))))))))

  unfoldable pub error_part : Option EventRow → Fields
  error_part none = end
  error_part (some e) =
      field (codes "error")
        (obj (
          field (codes "error")
            (obj (
              field (codes "code") (get_or_null (codes "code") e.payload)
                (field (codes "message") (get_or_null (codes "message") e.payload) end)))
            end))
        end

  unfoldable pub plan_part : Option PlanRow → Fields → Fields
  plan_part none rest = rest
  plan_part (some p) rest = field (codes "plan") p.plan rest

  unfoldable pub messages_part : Option Value → Fields → Fields
  messages_part none rest = rest
  messages_part (some messages) rest = field (codes "messages") messages rest

  unfoldable pub answer_of : Option EventRow → Value
  answer_of none = null
  answer_of (some e) = get_or_null (codes "text") e.payload

  unfoldable pub steps_of : Text → List StepRow → List Value
  steps_of job_id steps =
      map step_document (by_step_id (keep_if (λ s. text_eq (StepRow.job_id s) job_id) steps))

  unfoldable pub document : JobRow → Store → Fields
  document job store =
      let answer = last_event job.job_id (codes "answer") store.events in
      let error = last_event job.job_id (codes "error") store.events in
      let plan = first (λ p. text_eq (PlanRow.job_id p) job.job_id) store.plans in
      field (codes "job_id") (str job.job_id) (
        field (codes "status") (str job.status) (
          field (codes "query") (str job.query) (
            field (codes "created_at") (str (iso job.created_at)) (
              field (codes "updated_at") (str (iso job.updated_at)) (
                field (codes "steps") (arr (items_of (steps_of job.job_id store.steps))) (
                  field (codes "answer") (answer_of answer)
                    (messages_part job.messages (plan_part plan (error_part error)))))))))

  unfoldable pub get_job : Text → Store → Option Fields
  get_job job_id store = elim (first (λ j. text_eq (JobRow.job_id j) job_id) store.jobs) [
    | none ↦ none
    | some job ↦ some (document job store)
  ]
