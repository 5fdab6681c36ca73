-- ===== src/Order/Validated.antt =====
-- A plan that passes the graph checks of the validator has an execution order.
use mathlib.Core.List.Perm
use stpp_connector.Base.{
  ℕ, suc, ◌≡◌, refl, sym, ap, ◌∙◌, subst, true, not, some, List, [], ◌∷◌, append-nil_left,
  append-nil_right, mem-distinct, arith, All, map, mem, distinct, distinct-Unique, every, keep_if,
  length, Unique, Bool-cases, inl, inr, ok, >>=-Through, ok-injective,
}
use stpp_connector.Plan.{Step, ids_of, entries, steps_dict-Unique}
use stpp_connector.Refs.Find.{find_refs}
use stpp_connector.Validator.Violations.{Violation}
use stpp_connector.Validator.Graph.{
  Remaining, duplicate_violations, dependency_violations, reference_violations, step_violations,
  all_step_violations, kahn, cycle_violations, acyclicity, graph_violations,
}
use stpp_connector.Order.{topological_order}
use stpp_connector.Order.Pending.{rest_of, pending, Declared}
use stpp_connector.Order.Complete.{IsOrderOf, IsReached, order_on_complete}

duplicate_violations-Unique : (ids : List ℕ) → duplicate_violations ids ≡ [] → Unique ids
unfolding duplicate_violations
duplicate_violations-Unique ids h = distinct-Unique ids (ground arith)

pub unknown-nil :
    (n : ℕ) (ids deps : List ℕ)
    → map (λ d. Violation.unknown_dependency n d) (keep_if (λ d. not (mem d (distinct ids))) deps)
      ≡ []
    → every (λ d. mem d ids) deps ≡ true
unknown-nil n ids [] h = refl
unknown-nil n ids (d ∷ deps) h = elim (Bool-cases (mem d (distinct ids))) [
  | inl e ↦ ground (arith, mem-distinct d ids, unknown-nil n ids deps (rw e at h))
  | inr e ↦ cc (rw e at h)
]

step_violations-Declared :
    (ids : List ℕ) (s : Step) → step_violations (distinct ids) s ≡ ok [] → Declared ids s
unfolding step_violations dependency_violations
step_violations-Declared ids s h =
    let (more, e, rest) =
      >>=-Through (reference_violations (distinct ids) s (find_refs s.args)) _ h in
    unknown-nil s.id ids s.depends_on (append-nil_left _ more (ok-injective rest))

all_step_violations-Declared :
    (ids : List ℕ) (ss : List Step)
    → all_step_violations (distinct ids) ss ≡ ok []
    → All (Declared ids) ss
unfolding all_step_violations
all_step_violations-Declared ids [] h = tt
all_step_violations-Declared ids (s ∷ ss) h =
    let (here, e, rest) = >>=-Through (step_violations (distinct ids) s) _ h in
    let (more, f, last) = >>=-Through (all_step_violations (distinct ids) ss) _ rest in
    let both = ok-injective last in
    (
      step_violations-Declared ids s (e ∙ ap ok (append-nil_left here more both)),
      all_step_violations-Declared ids ss (f ∙ ap ok (append-nil_right here more both)),
    )

keep_if-declared :
    (ids deps : List ℕ)
    → every (λ d. mem d ids) deps ≡ true
    → keep_if (λ d. mem d (distinct ids)) deps ≡ keep_if (λ d. not (mem d [])) deps
keep_if-declared ids [] h = refl
keep_if-declared ids (d ∷ deps) h = ground (arith, mem-distinct d ids, keep_if-declared ids deps)

remaining-rest_of :
    (ids : List ℕ) (ss : List Step)
    → All (Declared ids) ss
    → entries (λ s. keep_if (λ d. mem d (distinct ids)) s.depends_on) ss ≡ rest_of [] ss
unfolding rest_of
remaining-rest_of ids [] h = refl
remaining-rest_of ids (s ∷ ss) h =
    ground (arith, keep_if-declared ids s.depends_on h.0, remaining-rest_of ids ss h.1)

pending-start : (ss : List Step) → pending [] ss ≡ ss
unfolding pending
pending-start [] = refl
pending-start (s ∷ ss) = ap (λ r. s ∷ r) (pending-start ss)

length-entries : {V : Type 0} (f : Step → V) (ss : List Step) → length (entries f ss) ≡ length ss
length-entries f [] = refl
length-entries f (s ∷ ss) = ap suc (length-entries f ss)

cycle_violations-nil : (r : Remaining) → cycle_violations r ≡ [] → r ≡ []
unfolding cycle_violations
cycle_violations-nil [] h = refl
cycle_violations-nil (e ∷ r) h = cc

-- If the graph checks of the validator report nothing, `_topological_order` ends, and its result
-- holds every step of the plan exactly once, each after all the steps that it depends on.
pub topological_order-validated :
    (steps : List Step)
    → graph_violations steps ≡ ok []
    → (ordered : List Step) × (topological_order steps ≡ some ordered) × IsOrderOf steps ordered
unfolding graph_violations acyclicity topological_order
topological_order-validated steps h =
    let ids = ids_of steps in
    let (per_step, e, rest) = >>=-Through (all_step_violations (distinct ids) steps) _ h in
    let none_left = ok-injective rest in
    let unique =
      duplicate_violations-Unique ids (append-nil_left (duplicate_violations ids) _ none_left) in
    let others = append-nil_right (duplicate_violations ids) _ none_left in
    let declared =
      all_step_violations-Declared ids steps (e ∙ ap ok (append-nil_left per_step _ others)) in
    let no_cycle = cycle_violations-nil _ (append-nil_right per_step _ others) in
    let same = remaining-rest_of ids steps declared in
    let dict =
      steps_dict-Unique (λ s. keep_if (λ d. mem d (distinct ids)) s.depends_on) steps unique in
    let emptied = subst (λ d. kahn (length d) d ≡ []) (dict ∙ same) no_cycle in
    let size : length (rest_of [] steps) ≡ length steps =
      sym (ap length same)
      ∙ length-entries (λ s. keep_if (λ d. mem d (distinct ids)) s.depends_on) steps in
    let start : IsReached steps unique declared [] [] = record {
      split = rw (pending-start steps) (Perm.refl steps);
      precedes = tt;
      ids = unfold ids_of in refl;
    } in
    rw (steps_dict-Unique (λ s. s) steps unique) (
      order_on_complete steps unique declared (length steps) [] [] start
        (subst (λ n. kahn n (rest_of [] steps) ≡ []) size emptied))
