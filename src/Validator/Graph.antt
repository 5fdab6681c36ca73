-- ===== src/Validator/Graph.antt =====
-- `_graph_violations` of services/integration-api/agent/validator.py (check 4).
use stpp_connector.Base.{
  ℕ, zero, suc, not, List, [], ◌∷◌, ◌++◌, map, Text, length, mem, distinct, sorted, keep_if,
  is_empty, mem_text, sorted_texts, ok, err, ◌>>=◌, if◌then◌else◌, ◌==◌, ltb,
}
use stpp_connector.Plan.{Step, ids_of, steps_dict}
use stpp_connector.Refs.Syntax.{Ref, Parsed, syntax_error, has_star}
use stpp_connector.Refs.Find.{Found, find_refs}
use stpp_connector.Validator.Violations.{
  Violation, malformed_reference, duplicate_ids, unknown_dependency, several_stars, unknown_target,
  undeclared_target, cycle,
}

abbrev count : ℕ → List ℕ → ℕ
count a [] = 0
count a (x ∷ xs) = if x == a then suc (count a xs) else count a xs

unfoldable pub duplicate_violations : List ℕ → List Violation
duplicate_violations ids =
    if length ids == length (distinct ids)
    then []
    else duplicate_ids (sorted (distinct (keep_if (λ i. ltb 1 (count i ids)) ids))) ∷ []

unfoldable pub dependency_violations : List ℕ → Step → List Violation
dependency_violations id_set step =
    map (λ d. unknown_dependency step.id d) (keep_if (λ d. not (mem d id_set)) step.depends_on)

-- `{ref.raw for _, ref in refs if has_star(ref)}`
unfoldable pub star_raws : Found → List Text
star_raws [] = []
star_raws ((path, ref) ∷ found) =
    let rest = star_raws found in
    if has_star ref then (if mem_text ref.raw rest then rest else ref.raw ∷ rest) else rest

unfoldable pub star_violations : Step → List Text → List Violation
star_violations step raws =
    if ltb 1 (length raws) then several_stars step.id (sorted_texts raws) ∷ [] else []

unfoldable pub target_violation : List ℕ → Step → Ref → List Violation
target_violation id_set step ref =
    if mem ref.step_id id_set
    then if mem ref.step_id step.depends_on
      then []
      else undeclared_target step.id ref.raw ref.step_id ∷ []
    else unknown_target step.id ref.raw ref.step_id ∷ []

unfoldable pub target_violations : List ℕ → Step → Found → List Violation
target_violations id_set step [] = []
target_violations id_set step ((path, ref) ∷ found) =
    target_violation id_set step ref ++ target_violations id_set step found

-- `except RefSyntaxError` around `find_refs`; any other exception goes on.
unfoldable pub reference_violations : List ℕ → Step → Parsed Found → Parsed (List Violation)
reference_violations id_set step (ok found) =
    ok (star_violations step (star_raws found) ++ target_violations id_set step found)
reference_violations id_set step (err (syntax_error kind raw)) =
    ok (malformed_reference step.id ∷ [])
reference_violations id_set step (err e) = err e

unfoldable pub step_violations : List ℕ → Step → Parsed (List Violation)
step_violations id_set step = reference_violations id_set step (find_refs step.args) >>= λ more.
    ok (dependency_violations id_set step ++ more)

unfoldable pub all_step_violations : List ℕ → List Step → Parsed (List Violation)
all_step_violations id_set [] = ok []
all_step_violations id_set (s ∷ ss) =
    step_violations id_set s >>= λ here. all_step_violations id_set ss >>= λ more. ok (here ++ more)

-- The dict of Kahn's algorithm: each step's dependencies that are still there.
abbrev pub Remaining : Type 0
Remaining = List (ℕ × List ℕ)

unfoldable pub ready_of : Remaining → List ℕ
ready_of [] = []
ready_of ((i, deps) ∷ r) = if is_empty deps then i ∷ ready_of r else ready_of r

-- `del remaining[i]` for each ready step, then `difference_update`.
unfoldable pub without : List ℕ → Remaining → Remaining
without ready [] = []
without ready ((i, deps) ∷ r) =
    if mem i ready
    then without ready r
    else (i, keep_if (λ d. not (mem d ready)) deps) ∷ without ready r

-- `while True`, on fuel: each round but the last takes a step away.
unfoldable pub kahn : ℕ → Remaining → Remaining
kahn zero r = r
kahn (suc fuel) r = elim (ready_of r) [ [] ↦ r | i ∷ is ↦ kahn fuel (without (i ∷ is) r) ]

abbrev left_ids : Remaining → List ℕ
left_ids [] = []
left_ids ((i, deps) ∷ r) = i ∷ left_ids r

unfoldable pub cycle_violations : Remaining → List Violation
cycle_violations [] = []
cycle_violations (e ∷ r) = cycle (sorted (left_ids (e ∷ r))) ∷ []

unfoldable pub acyclicity : List ℕ → List Step → List Violation
acyclicity id_set steps =
    let remaining = steps_dict (λ s. keep_if (λ d. mem d id_set) s.depends_on) [] steps in
    cycle_violations (kahn (length remaining) remaining)

unfoldable pub graph_violations : List Step → Parsed (List Violation)
graph_violations steps =
    let ids = ids_of steps in
    all_step_violations (distinct ids) steps >>= λ per_step.
    ok (duplicate_violations ids ++ (per_step ++ acyclicity (distinct ids) steps))
