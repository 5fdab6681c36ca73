-- ===== src/Lib.antt =====
-- A verification of the query agent of the STPP connector and of the MCP server that it calls.
--
-- A query runs in services/integration-api/agent: one LLM call returns a plan, pure code
-- validates it, the steps run as tool calls against services/mcp-server in an order that their
-- dependencies allow, and a last LLM call writes the answer. A step's arguments may refer to the
-- results of earlier steps ("$steps[1].data[*].orcid").
--
-- The files, by part of the program:
--   Base: lists, texts (lists of code points), dicts, decimal numerals and computations that
--     raise. Numbers are the native natural numbers; Python's integers in JSON are ℤ.
--   Json: the values of Python's json, a dict as its fields in order.
--   Refs (services/integration-api/agent/refs.py): Syntax is parse_ref, Find is find_refs,
--     Resolve is resolve, Calls is _substitute and plan_step_calls. RoundTrip, Accepted, Places
--     and FanOut are about them.
--   Plan (contracts/plan-format.json): a step and a plan, and how a document is read as one.
--   Validator (services/integration-api/agent/validator.py): Graph is _graph_violations, Args is
--     _tool_violations, _mask_refs, _deref and _enum_violations, Checks is _args_violations,
--     validate_plan and validate_step. A violation is kept as the values that its message shows.
--     Sound is about them.
--   Order (services/integration-api/agent/runner.py): _topological_order. Pending and Round
--     relate it to the validator's cycle check, Loop and Complete follow its loop, Validated and
--     Accepted join the two.
--   Runner (services/integration-api/agent/runner.py): Reports is its data, Effects the state of
--     a run and the calls to the outside, Reply is _parse_json, Attempt is _attempt_calls, Steps
--     is _execute_step and _repair_step, Planning is _plan_with_repair, Run is _execute, _run and
--     run_query. A run passes its state on: the results, the current intent, and a log of the
--     calls to the sink, to the tools and to the LLM, which also stays when an exception ends the
--     run. Costs counts what is in the log; Budget, StepBudget, RunBudget and Query bound it;
--     Safety is about plans and denials.
--   Hygiene (services/mcp-server/app/hygiene.py): truncate_strings and envelope.
--   Dispatch (services/mcp-server/app/main.py, audit.py and errors.py beside it):
--     _dispatch_tool_call.
--   Sink (services/integration-api/app/sink.py): JobEventSink.
--   Jobs (services/integration-api/app/main.py and jobstore.py): Body is the request and
--     submit_query, Run is _run_job and the stream as moves of one system, Store is the statements
--     of PostgresJobStore on the tables of db/migrations/jobs, View is get_job. Turns and Accepted
--     are about the request, Order, Prefix, Goes and Ends about the moves, Summary and Rows about the
--     table of steps.
--   Llm (services/integration-api/agent/llm.py): make_llm_client; Retry is the loop that both
--     clients have, Gemini and Bedrock are the clients, Candidates and Replies
--     are about what Gemini's replies hold.
--   Session (services/integration-api/agent/mcp_http.py): HTTPMCPSession. Wire and Denial join it
--     to the server and to the runner.
--   Mock (services/integration-api/agent/mcp_mock.py): MockMCPSession and its canned results.
--   Context (services/integration-api/agent/context.py): the terms of a query and what is loaded.
--   Prompt (services/integration-api/agent/prompt.py): Fill is _fill, Conversation, Render,
--     Catalog and Reports are the blocks, Assemble the prompts.
--   Endpoint (services/mcp-server/app/main.py): mcp_endpoint, tools/list and tools/call.
--   Registry (services/mcp-server/app/registry.py and enums.py): render and visible; Cache is
--     ObservedEnumCache, whose calls may overlap, Served what they return.
--   Rfff (services/mcp-server/app/rfff_tools.py): Columns, Sql and Personnel are the statements, a
--     statement being the list of its pieces; Rows is what is made of rows, Tools the handlers.
--   Wdp (services/mcp-server/app/wdpclient.py and wdp_tools.py): Client and Tools.
--   Auth (services/mcp-server/app/auth.py): require_user, which the API has as well.
--   FakeWdp (services/fake-wdp/app/main.py): Queries and Service; Denial joins it to Wdp.
--   Http: what an HTTP client sees, a status and the JSON of the body.
--   Tests: runs on concrete inputs.
--
-- What the program takes from packages is a parameter: the errors that jsonschema reports,
-- json.loads and json.dumps, str.lower, repr, jwt.decode, the requests of httpx and boto3, and the
-- queries of the database pools, which take a statement and its parameters. Each of them may
-- depend on and change a state of its own, of any type. In the runner the LLM client and the MCP
-- session are such parameters too, and a prompt is kept there as the values that it is made from;
-- Session.Denial fills in the session.
--
-- A job is a sequence of moves: the calls of the agent and of _run_job, the pings and the events of
-- the stream, in any order that the two tasks allow; each call of the store may raise, and then has
-- stored nothing: a write whose reply is lost is not modelled.
--
-- Loops: parse_ref runs on as much fuel as the text is long, and each round takes a character.
-- _topological_order and the cycle check run on as many rounds as there are steps: a round
-- without a ready step ends the check, and would keep the order's loop running for ever, which is
-- the outcome `none`. _deref follows at most 32 references of a schema, where the contracts need
-- one.
--
-- Not modelled: the lifespan of the applications and the shutdown that cancels tasks, healthz, the
-- delays and timeouts of the clients, the values that many messages show, configuration, logging,
-- the reading of contract and template files, and the scripts. What loads the planner context and
-- opens the session comes before a run of the runner starts, and is modelled apart from it. A run
-- in which the sink raises is not modelled, and a query is followed alone: a second query of the
-- process, which shares the agent's current intent, is not. In a fan-out, a `returned` that is no
-- natural number is taken for a TypeError, and so is a document that passes its schema and has
-- another shape than the schema allows; a tool's argument or a row of the database of a type that
-- its schema excludes is a crash. The events of the sink and the rows of job_events are two models
-- of the same table.
pub mod Base
pub mod Json
pub mod Refs
pub mod Plan
pub mod Validator
pub mod Order
pub mod Runner
pub mod Hygiene
pub mod Dispatch
pub mod Sink
pub mod Rfff
pub mod Llm
pub mod Jobs
pub mod Context
pub mod Prompt
pub mod FakeWdp
pub mod Mock
pub mod Auth
pub mod Wdp
pub mod Registry
pub mod Http
pub mod Endpoint
pub mod Session
mod Tests
