-- ===== src/Order/Accepted.antt =====
-- What `validate_plan` promises to the runner.
use stpp_connector.Base.{
  ℕ, ◌≡◌, refl, ap, ◌∙◌, ◌≤◌, true, some, List, [], ◌∷◌, arith, All, Text, length, mem, distinct,
  every, append-nil_left, append-nil_right, Bool-cases, inl, inr, flat_map, ok, err, ◌>>=◌,
  >>=-Through, ok-injective, ltb,
}
use stpp_connector.Json.{Value}
use stpp_connector.Plan.{Step, Plan, ids_of}
use stpp_connector.Plan.Read.{plan_of}
use stpp_connector.Refs.Syntax.{Parsed}
use stpp_connector.Refs.Find.{find_refs}
use stpp_connector.Validator.Violations.{Violation}
use stpp_connector.Validator.Graph.{
  duplicate_violations, dependency_violations, reference_violations, step_violations,
  all_step_violations, graph_violations,
}
use stpp_connector.Validator.Args.{ToolIndex, ObservedEnums, is_available, tool_violations}
use stpp_connector.Validator.Checks.{
  needed, lifted, budget_violations, all_args_violations, steps_violations, schema_violations,
  validate_plan,
}
use stpp_connector.Validator.Sound.{
  HasDeclaredRefs, IsValidStep, tool_violations-nil, unknown-nil_any, needed-ok,
  reference_violations-HasDeclaredRefs,
}
use stpp_connector.Order.{topological_order}
use stpp_connector.Order.Complete.{IsOrderOf}
use stpp_connector.Order.Validated.{topological_order-validated}

-- What the graph checks say of each step.
abbrev IsLinked : List ℕ → Step → Type 0
IsLinked ids s = (every (λ d. mem d ids) s.depends_on ≡ true) × HasDeclaredRefs ids s

step_violations-IsLinked :
    (ids : List ℕ) (s : Step) → step_violations ids s ≡ ok [] → IsLinked ids s
unfolding step_violations dependency_violations
step_violations-IsLinked ids s h =
    let (more, e, rest) = >>=-Through (reference_violations ids s (find_refs s.args)) _ h in
    let both = ok-injective rest in
    (
      unknown-nil_any s.id ids s.depends_on (append-nil_left _ more both),
      reference_violations-HasDeclaredRefs ids s (find_refs s.args) refl
          (e ∙ ap ok (append-nil_right (dependency_violations ids s) more both)),
    )

all_step_violations-IsLinked :
    (ids : List ℕ) (ss : List Step) → all_step_violations ids ss ≡ ok [] → All (IsLinked ids) ss
unfolding all_step_violations
all_step_violations-IsLinked ids [] h = tt
all_step_violations-IsLinked ids (s ∷ ss) h =
    let (here, e, rest) = >>=-Through (step_violations ids s) _ h in
    let (more, f, last) = >>=-Through (all_step_violations ids ss) _ rest in
    let both = ok-injective last in
    (
      step_violations-IsLinked ids s (e ∙ ap ok (append-nil_left here more both)),
      all_step_violations-IsLinked ids ss (f ∙ ap ok (append-nil_right here more both)),
    )

graph_violations-IsLinked :
    (ss : List Step) → graph_violations ss ≡ ok [] → All (IsLinked (distinct (ids_of ss))) ss
unfolding graph_violations
graph_violations-IsLinked ss h =
    let ids = ids_of ss in
    let (per_step, e, rest) = >>=-Through (all_step_violations (distinct ids) ss) _ h in
    let later = append-nil_right (duplicate_violations ids) _ (ok-injective rest) in
    all_step_violations-IsLinked (distinct ids) ss (e ∙ ap ok (append-nil_left per_step _ later))

tools-available :
    (tools : ToolIndex) (ss : List Step)
    → flat_map (λ s. tool_violations s tools) ss ≡ []
    → All (λ s. is_available (Step.tool s) tools ≡ true) ss
tools-available tools [] h = tt
tools-available tools (s ∷ ss) h = (
  tool_violations-nil s tools (append-nil_left _ (flat_map (λ s. tool_violations s tools) ss) h),
  tools-available tools ss (append-nil_right (tool_violations s tools) _ h),
)

IsValidStep-All :
    (tools : ToolIndex) (ids : List ℕ) (ss : List Step)
    → All (λ s. is_available (Step.tool s) tools ≡ true) ss
    → All (IsLinked ids) ss
    → All (IsValidStep tools ids) ss
IsValidStep-All tools ids [] h k = tt
IsValidStep-All tools ids (s ∷ ss) h k = (
  record { available = h.0; depends = k.0.0; references = k.0.1 },
  IsValidStep-All tools ids ss h.1 k.1,
)

budget-nil : (max_steps n : ℕ) → budget_violations max_steps n ≡ [] → n ≤ max_steps
unfolding budget_violations
budget-nil m n h = elim (Bool-cases (ltb m n)) [ inl e ↦ cc (rw e at h) | inr e ↦ ground arith ]

lifted-ok : {A : Type 0} (m : Parsed A) {a : A} → lifted m ≡ ok a → m ≡ ok a
lifted-ok (ok a) h = ap ok (ok-injective h)
lifted-ok (err e) h = cc

-- What the runner may rely on, for the steps of a plan.
pub record IsAccepted (tools : ToolIndex) (max_steps : ℕ) (steps : List Step) : Type 0 where
  pub within : length steps ≤ max_steps
  pub valid : All (IsValidStep tools (distinct (ids_of steps))) steps
  pub has_order :
      (ordered : List Step) × (topological_order steps ≡ some ordered) × IsOrderOf steps ordered

module _ (schema_errors : Value → Value → List Text) where
  steps_violations-IsAccepted :
      (steps : List Step) (tools : ToolIndex) (observed : ObservedEnums) (max_steps : ℕ)
      → steps_violations schema_errors steps tools observed max_steps ≡ ok []
      → IsAccepted tools max_steps steps
  unfolding steps_violations
  steps_violations-IsAccepted steps tools observed max_steps h =
      let (shapes, e, rest) =
        >>=-Through (all_args_violations schema_errors steps tools observed) _ h in
      let (graph, f, last) = >>=-Through (lifted (graph_violations steps)) _ rest in
      let all = ok-injective last in
      let first_part = flat_map (λ s. tool_violations s tools) steps in
      let tail = append-nil_right shapes _ (append-nil_right first_part _ all) in
      let clean = lifted-ok (graph_violations steps) (f ∙ ap ok (append-nil_left graph _ tail)) in
      record {
        within = budget-nil max_steps (length steps) (append-nil_right graph _ tail);
        valid =
            IsValidStep-All tools (distinct (ids_of steps)) steps
              (tools-available tools steps (append-nil_left first_part _ all))
              (graph_violations-IsLinked steps clean);
        has_order = topological_order-validated steps clean;
      }

  -- If `validate_plan` reports nothing, the document is a plan of at most PLAN_MAX_STEPS steps;
  -- each step's tool is in the session, its dependencies are steps of the plan, and every reference
  -- of its arguments, at any depth, targets a step that its `depends_on` lists; and
  -- `_topological_order` ends, with every step once and after all that it depends on.
  pub validate_plan-IsAccepted :
      (doc schema : Value) (tools : ToolIndex) (observed : ObservedEnums) (max_steps : ℕ)
      → validate_plan schema_errors doc schema tools observed max_steps ≡ ok []
      → (p : Plan) × (plan_of doc ≡ some p) × IsAccepted tools max_steps p.steps
  unfolding validate_plan
  validate_plan-IsAccepted doc schema tools observed max_steps h =
      by_schema (schema_violations schema_errors doc schema) h
    where
      by_schema :
          (vs : List Violation)
          → (elim vs [
            | [] ↦ needed (plan_of doc) >>= λ read.
                steps_violations schema_errors (Plan.steps read) tools observed max_steps
            | v ∷ more ↦ ok (v ∷ more)
          ])
            ≡ ok []
          → (p : Plan) × (plan_of doc ≡ some p) × IsAccepted tools max_steps p.steps
      by_schema [] k =
          let (p, e, last) = >>=-Through (needed (plan_of doc)) _ k in
          (
            p,
            needed-ok (plan_of doc) e,
            steps_violations-IsAccepted p.steps tools observed max_steps last,
          )
      by_schema (v ∷ vs) k = cc (ok-injective k)
