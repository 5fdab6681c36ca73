-- ===== src/Validator/Sound.antt =====
-- What a step without violations satisfies.
use stpp_connector.Base.{
  ℕ, ◌≡◌, refl, ap, ◌∙◌, true, not, keep_if, Option, none, some, List, [], ◌∷◌, ◌++◌, arith, All,
  All-Member, map, mem, every, append-nil_left, append-nil_right, Bool-cases, inl, inr, ok, err,
  ◌>>=◌, >>=-Through, ok-injective, Text,
}
use stpp_connector.Json.{Value}
use stpp_connector.Plan.{Step}
use stpp_connector.Plan.Read.{step_of}
use stpp_connector.Refs.Syntax.{Ref, Parsed, syntax_error}
use stpp_connector.Refs.Find.{Place, Found, find_refs}
use stpp_connector.Refs.Places.{IsRefAt}
use stpp_connector.Refs.Places.Complete.{find_refs-exact}
use stpp_connector.Validator.Violations.{Violation}
use stpp_connector.Validator.Graph.{
  target_violation, target_violations, dependency_violations, star_violations, star_raws,
  reference_violations,
}
use stpp_connector.Validator.Args.{ToolIndex, ObservedEnums, is_available, tool_violations}
use stpp_connector.Validator.Checks.{
  needed, repaired_references, args_violations, step_schema, step_checks, schema_violations,
  validate_step,
}

-- Every reference of the arguments, at any depth, targets a step that `ids` and the step's own
-- `depends_on` list.
abbrev pub HasDeclaredRefs : List ℕ → Step → Type 0
HasDeclaredRefs ids s =
    (path : List Place) (ref : Ref)
    → IsRefAt s.args path ref
    → (mem ref.step_id ids ≡ true) × (mem ref.step_id s.depends_on ≡ true)

abbrev Targets : List ℕ → Step → Ref → Type 0
Targets ids s ref = (mem ref.step_id ids ≡ true) × (mem ref.step_id s.depends_on ≡ true)

target_violation-nil :
    (ids : List ℕ) (s : Step) (ref : Ref) → target_violation ids s ref ≡ [] → Targets ids s ref
unfolding target_violation
target_violation-nil ids s ref h = elim (Bool-cases (mem ref.step_id ids)) [
  | inl e ↦ elim (Bool-cases (mem ref.step_id s.depends_on)) [
    | inl f ↦ (e, f)
    | inr f ↦ cc (rw (e, f) at h)
  ]
  | inr e ↦ cc (rw e at h)
]

target_violations-nil :
    (ids : List ℕ) (s : Step) (found : Found)
    → target_violations ids s found ≡ []
    → All (λ (p, ref). Targets ids s ref) found
unfolding target_violations
target_violations-nil ids s [] h = tt
target_violations-nil ids s ((path, ref) ∷ found) h = (
  target_violation-nil ids s ref (append-nil_left _ (target_violations ids s found) h),
  target_violations-nil ids s found (append-nil_right (target_violation ids s ref) _ h),
)

found-HasDeclaredRefs :
    (ids : List ℕ) (s : Step) (found : Found)
    → find_refs s.args ≡ ok found
    → target_violations ids s found ≡ []
    → HasDeclaredRefs ids s
found-HasDeclaredRefs ids s found e h path ref at =
    All-Member (λ (p, r). Targets ids s r) (target_violations-nil ids s found h)
      ((find_refs-exact s.args found e path ref).1 at)

pub reference_violations-HasDeclaredRefs :
    (ids : List ℕ) (s : Step) (refs : Parsed Found)
    → find_refs s.args ≡ refs
    → reference_violations ids s refs ≡ ok []
    → HasDeclaredRefs ids s
unfolding reference_violations
reference_violations-HasDeclaredRefs ids s (ok found) e h =
    found-HasDeclaredRefs ids s found e
      (append-nil_right (star_violations s (star_raws found)) _ (ok-injective h))
reference_violations-HasDeclaredRefs ids s (err (syntax_error kind raw)) e h = cc (ok-injective h)
reference_violations-HasDeclaredRefs ids s (err f) e h = cc

repaired_references-HasDeclaredRefs :
    (ids : List ℕ) (s : Step) (refs : Parsed Found)
    → find_refs s.args ≡ refs
    → repaired_references ids s refs ≡ ok []
    → HasDeclaredRefs ids s
unfolding repaired_references
repaired_references-HasDeclaredRefs ids s (ok found) e h =
    found-HasDeclaredRefs ids s found e (ok-injective h)
repaired_references-HasDeclaredRefs ids s (err (syntax_error kind raw)) e h = cc (ok-injective h)
repaired_references-HasDeclaredRefs ids s (err f) e h = cc

pub tool_violations-nil :
    (s : Step) (tools : ToolIndex) → tool_violations s tools ≡ [] → is_available s.tool tools ≡ true
unfolding tool_violations
tool_violations-nil s tools h = elim (Bool-cases (is_available s.tool tools)) [
  | inl e ↦ e
  | inr e ↦ cc (rw e at h)
]

-- What the checks of one step promise, against the ids that it may name.
pub record IsValidStep (tools : ToolIndex) (ids : List ℕ) (s : Step) : Type 0 where
  pub available : is_available s.tool tools ≡ true
  pub depends : every (λ d. mem d ids) s.depends_on ≡ true
  pub references : HasDeclaredRefs ids s

pub unknown-nil_any :
    (n : ℕ) (ids deps : List ℕ)
    → map (λ d. Violation.unknown_dependency n d) (keep_if (λ d. not (mem d ids)) deps) ≡ []
    → every (λ d. mem d ids) deps ≡ true
unknown-nil_any n ids [] h = refl
unknown-nil_any n ids (d ∷ deps) h = elim (Bool-cases (mem d ids)) [
  | inl e ↦ ground (arith, unknown-nil_any n ids deps (rw e at h))
  | inr e ↦ cc (rw e at h)
]

pub needed-ok : {A : Type 0} (o : Option A) {a : A} → needed o ≡ ok a → o ≡ some a
needed-ok none h = cc
needed-ok (some a) h = ap some (ok-injective h)

module _ (schema_errors : Value → Value → List Text) where
  step_checks-IsValidStep :
      (s : Step) (tools : ToolIndex) (observed : ObservedEnums) (ids : List ℕ)
      → step_checks schema_errors s tools observed ids ≡ ok []
      → IsValidStep tools ids s
  unfolding step_checks dependency_violations
  step_checks-IsValidStep s tools observed ids h =
      let (shape, e, rest) = >>=-Through (args_violations schema_errors s tools observed) _ h in
      let (refs, f, last) = >>=-Through (repaired_references ids s (find_refs s.args)) _ rest in
      let all = ok-injective last in
      let later = append-nil_right shape _ (append-nil_right (tool_violations s tools) _ all) in
      record {
        available = tool_violations-nil s tools (append-nil_left _ (shape ++ _) all);
        depends = unknown-nil_any s.id ids s.depends_on (append-nil_left _ refs later);
        references =
            repaired_references-HasDeclaredRefs ids s (find_refs s.args) refl
              (f ∙ ap ok (append-nil_right (dependency_violations ids s) refs later));
      }

  -- If `validate_step` reports nothing for a repaired step, the document is a step whose tool is
  -- in the session, whose dependencies are all completed, and whose every reference, at any depth
  -- of its arguments, targets a completed step that its `depends_on` lists.
  pub validate_step-IsValidStep :
      (doc schema : Value) (tools : ToolIndex) (observed : ObservedEnums) (completed : List ℕ)
      → validate_step schema_errors doc schema tools observed completed ≡ ok []
      → (s : Step) × (step_of doc ≡ some s) × IsValidStep tools completed s
  unfolding validate_step
  validate_step-IsValidStep doc schema tools observed completed h =
      let (wanted, e, rest) = >>=-Through (needed (step_schema schema_errors schema)) _ h in
      by_schema wanted (schema_violations schema_errors doc wanted) rest
    where
      by_schema :
          (wanted : Value) (vs : List Violation)
          → (elim vs [
            | [] ↦ needed (step_of doc) >>= λ read.
                step_checks schema_errors read tools observed completed
            | v ∷ more ↦ ok (v ∷ more)
          ])
            ≡ ok []
          → (s : Step) × (step_of doc ≡ some s) × IsValidStep tools completed s
      by_schema wanted [] k =
          let (s, e, last) = >>=-Through (needed (step_of doc)) _ k in
          (s, needed-ok (step_of doc) e, step_checks-IsValidStep s tools observed completed last)
      by_schema wanted (v ∷ vs) k = cc (ok-injective k)
