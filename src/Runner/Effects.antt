-- ===== src/Runner/Effects.antt =====
-- The effects of the runner: the state of one run, and what it asks of the outside.
use stpp_connector.Base.{ℕ, Option, none, some, List, [], ◌∷◌, ◌++◌, Text, put_id, Result, ok, err}
use stpp_connector.Json.{Value}
use stpp_connector.Refs.Resolve.{Results, StepResult}
use stpp_connector.Validator.Args.{ToolIndex, ObservedEnums}
use stpp_connector.Runner.Reports.{
  Answer, LlmFault, Request, Raised, llm_fault, Event, tools_call, llm_call,
}

-- The LLM client, the MCP session, and the packages jsonschema and json. `W` is whatever they
-- depend on: each call may change it.
pub record Services (W : Type 0) : Type 0 where
  pub complete : Request → W → Result LlmFault Text × W
  pub call : Text → Value → W → Answer × W
  -- schema and document
  pub schema_errors : Value → Value → List Text
  -- `json.loads`, with the message of a JSONDecodeError
  pub loads : Text → Result Text Value
  -- `json.dumps(value, default=str)`
  pub dumps : Value → Text

-- What is fixed during a run: the budgets, plan-format.json, the tools of the session and the
-- observed values.
pub record Setting : Type 0 where
  pub plan_max_steps : ℕ
  pub plan_max_fanout : ℕ
  pub plan_schema : Value
  pub tools : ToolIndex
  pub observed : ObservedEnums

-- `results`, `self._current_intent`, and the log of what has left the agent.
pub record RunState (W : Type 0) : Type 0 where
  pub world : W
  pub results : Results
  pub current_intent : Text
  pub log : List Event

abbrev pub M : Type 0 → Type 0 → Type 0
M W A = RunState W → Result Raised A × RunState W

module _ {W : Type 0} where
  abbrev pub pure : {A : Type 0} → A → M W A
  pure a r = (ok a, r)

  abbrev pub raise : {A : Type 0} → Raised → M W A
  raise e r = (err e, r)

  abbrev pub bound :
      {A B : Type 0} → Result Raised A → RunState W → (A → M W B) → Result Raised B × RunState W
  bound (ok a) r f = f a r
  bound (err e) r f = (err e, r)

  infixl 5 ◌>>=◌
  unfoldable pub ◌>>=◌ : {A B : Type 0} → M W A → (A → M W B) → M W B
  m >>= f = λ r. bound (m r).0 (m r).1 f

  abbrev pub needs : {A : Type 0} → Raised → Option A → M W A
  needs e none = raise e
  needs e (some a) = pure a

  abbrev pub lifts : {E A : Type 0} → (E → Raised) → Result E A → M W A
  lifts f (ok a) = pure a
  lifts f (err e) = raise (f e)

  unfoldable pub emit : Event → M W Unit
  emit e r = (ok tt, record r { log = r.log ++ e ∷ [] })

  unfoldable pub get_results : M W Results
  get_results r = (ok r.results, r)

  unfoldable pub store : ℕ → StepResult → M W Unit
  store n s r = (ok tt, record r { results = put_id n s r.results })

  unfoldable pub set_intent : Text → M W Unit
  set_intent t r = (ok tt, record r { current_intent = t })

  unfoldable pub get_intent : M W Text
  get_intent r = (ok r.current_intent, r)

module _ {W : Type 0} (services : Services W) where
  -- `await self.llm.complete(prompt)`
  unfoldable pub ask : Request → M W Text
  ask q r =
      let (reply, world) = services.complete q r.world in
      lifts llm_fault reply (record r { world = world; log = r.log ++ llm_call q ∷ [] })

  -- `await session.tools_call(tool, args)`
  unfoldable pub call_tool : Text → Value → M W Answer
  call_tool tool args r =
      let (answer, world) = services.call tool args r.world in
      (ok answer, record r { world = world; log = r.log ++ tools_call tool args ∷ [] })
