-- ===== src/Tests/JobTests.antt =====
-- Jobs on small inputs: a request, a run with its stream, and the writes of a step.
use stpp_connector.Base.{
  ℕ, ◌+◌, ◌*◌, ◌≤◌, ◌≡◌, refl, ◌⊎◌, true, Option, none, some, List, [], ◌∷◌, ◌++◌, Text, codes,
  text_eq, mem_text, length, ok,
}
use stpp_connector.Json.{Value, str, arr, obj, nil, cons, end, field, get_field}
use stpp_connector.Sink.{SinkCall}
use stpp_connector.Jobs.Run.{
  timed_out, final_of, closing_calls, is_agent_call, closing, System, after_call, after_closing,
  after_ping, called, Runs, here, more, started,
}
use stpp_connector.Jobs.Order.{IsOpen, IsFinished, Runs-IsFinished}
use stpp_connector.Jobs.Goes.{Goes, closes, pings}
use stpp_connector.Jobs.Ends.{IsOver, CanMove, Runs-IsOver}
use stpp_connector.Jobs.Store.{StepWrite}
use stpp_connector.Jobs.Summary.{upsert_rows, find_row, summary}
use stpp_connector.Jobs.Rows.{writes_of, upsert_rows-summary}
use stpp_connector.Jobs.Body.{
  Submission, submit_query, read_body, only_keys, read_query, read_list, read_messages,
  read_message, message_from, body_from, one_shape_last_turn_user, submission, with_messages,
  too_large, total_chars, last_message, all_but_last,
}
use stpp_connector.Jobs.Accepted.{IsAccepted, submit_query-IsAccepted}
use stpp_connector.Prompt.Conversation.{cut_mark, replayed, render_conversation_block}
use stpp_connector.Prompt.Bounds.{render_conversation_block-IsBounded}

-- The agent reports its first status.
abbrev executing : SinkCall
executing = SinkCall.status (codes "executing")

one_call : Runs started (after_call executing (true, true) started)
unfolding is_agent_call started
one_call = more here (called executing (true, true) refl refl)

Runs-IsFinished_example :
    IsOpen (after_call executing (true, true) started).job.sink.queued
    ⊎ IsFinished
        (after_call executing (true, true) started).job.status
        (after_call executing (true, true) started).job.sink.queued
Runs-IsFinished_example = Runs-IsFinished one_call

-- The limit of time ends it; the stream pings, and the task reports the error.
abbrev ending : System
ending = record (after_call executing (true, true) started) {
  phase = closing (closing_calls timed_out);
}

abbrev over_time : SinkCall
over_time =
    SinkCall.error (codes "budget_exceeded") (codes "job exceeded JOB_MAX_SECONDS wall clock")

abbrev last_calls : List SinkCall
last_calls = SinkCall.status (codes "failed") ∷ SinkCall.done (codes "failed") ∷ []

abbrev told : System
told = after_closing over_time last_calls (true, true) (after_ping (true, true) ending)

goes : Goes ending 1 1 told
unfolding after_ping after_call started closing_calls
goes = closes over_time last_calls (pings Goes.here refl) refl

Runs-IsOver_example :
    (1 + length (after_call executing (true, true) started).sent
      ≤ 6 + length (after_call executing (true, true) started).job.sink.queued + 1)
    × (IsOver (final_of timed_out) told ⊎ CanMove told)
unfolding after_call started
Runs-IsOver_example = Runs-IsOver timed_out one_call refl refl goes

abbrev written : Text → Option Value → Option Text → ℕ → StepWrite
written status result error now = record {
  job_id = codes "j";
  step_id = 1;
  status = status;
  tool = codes "get_proposal";
  args = none;
  result = result;
  error = error;
  now = now;
}

abbrev step_writes : List StepWrite
step_writes =
    written (codes "running") none none 5
    ∷ record (written (codes "running") none none 6) { step_id = 2 }
    ∷ written (codes "complete") (some (str (codes "r"))) none 9
    ∷ []

upsert_rows-summary_example :
    find_row (codes "j") 1 (upsert_rows step_writes [])
    ≡ summary (writes_of (codes "j") 1 step_writes)
upsert_rows-summary_example = upsert_rows-summary (codes "j") 1 step_writes

-- The row has both times and the result.
step_writes_row :
    find_row (codes "j") 1 (upsert_rows step_writes [])
    ≡ some (record {
      job_id = codes "j";
      step_id = 1;
      status = codes "complete";
      tool = codes "get_proposal";
      args = none;
      result = some (str (codes "r"));
      error = none;
      started_at = some 5;
      finished_at = some 9;
    })
unfolding upsert_rows stpp_connector.Jobs.Store.upsert_row stpp_connector.Jobs.Store.proposed
    stpp_connector.Jobs.Store.merged stpp_connector.Jobs.Store.started_by
    stpp_connector.Jobs.Store.finished_by stpp_connector.Base.text_eq
step_writes_row = refl

abbrev turn_value : Text → Text → Value
turn_value role content =
    obj (field (codes "role") (str role) (field (codes "content") (str content) end))

abbrev chat_request : Value
chat_request = obj (
    field (codes "messages")
      (arr (
        cons (turn_value (codes "user") (codes "Hi")) (
          cons (turn_value (codes "assistant") (codes "Hello"))
            (cons (turn_value (codes "user") (codes "More")) nil))))
      end)

abbrev accepted_chat : Submission
accepted_chat = record {
  query = codes "More";
  history =
      record { role = codes "user"; content = codes "Hi" }
      ∷ record { role = codes "assistant"; content = codes "Hello" }
      ∷ [];
  stored_messages = some (
      record { role = codes "user"; content = codes "Hi" }
      ∷ record { role = codes "assistant"; content = codes "Hello" }
      ∷ record { role = codes "user"; content = codes "More" }
      ∷ []);
}

chat_accepted : submit_query 20 100 chat_request ≡ ok accepted_chat
unfolding submit_query read_body only_keys read_query read_list read_messages read_message
    message_from body_from one_shape_last_turn_user submission with_messages too_large total_chars
    last_message all_but_last get_field text_eq mem_text
chat_accepted = refl

submit_query-IsAccepted_example : IsAccepted 20 100 accepted_chat
submit_query-IsAccepted_example =
    submit_query-IsAccepted 20 100 chat_request accepted_chat chat_accepted

render_conversation_block-IsBounded_example :
    length (render_conversation_block 3 accepted_chat.history) ≤ 19 + (100 + 46 * 20)
render_conversation_block-IsBounded_example =
    render_conversation_block-IsBounded 20 100 3 chat_request accepted_chat chat_accepted

-- The assistant's turn is cut to three characters.
cut_turn :
    replayed 3 (record { role = codes "assistant"; content = codes "Hello" })
    ≡ codes "Hel" ++ cut_mark
unfolding replayed text_eq
cut_turn = refl
