-- ===== src/Order.antt =====
-- `_topological_order` of services/integration-api/agent/runner.py.
pub mod Pending
pub mod Round
pub mod Loop
pub mod Complete
pub mod Validated
pub mod Accepted
use stpp_connector.Base.{
  ℕ, zero, suc, Bool, true, false, not, ◌&&◌, ◌||◌, List, [], ◌∷◌, ◌++◌, length, mem, every, sorted,
  filter_map, put_id, lookup_id, Option, none, some, if◌then◌else◌, ltb, ◌==◌,
}
use stpp_connector.Plan.{Step, steps_dict, has_key}

abbrev pub ById : Type 0
ById = List (ℕ × Step)

-- Not done, and every dependency is done or is no step of the plan.
unfoldable pub is_ready : ById → List ℕ → ℕ → Step → Bool
is_ready by_id done sid step =
    not (mem sid done) && every (λ d. mem d done || not (has_key d by_id)) step.depends_on

unfoldable pub ready_ids : ById → List ℕ → ById → List ℕ
ready_ids by_id done [] = []
ready_ids by_id done ((sid, step) ∷ d) =
    let rest = ready_ids by_id done d in if is_ready by_id done sid step then sid ∷ rest else rest

-- The loop `while len(ordered) < len(steps)`, on fuel. `none`: it is still running.
unfoldable pub order_on : ℕ → ℕ → ById → List Step → List ℕ → Option (List Step)
order_on zero n by_id ordered done = if ltb (length ordered) n then none else some ordered
order_on (suc fuel) n by_id ordered done =
    let ready = sorted (ready_ids by_id done by_id) in
    let rest =
      order_on fuel n by_id (ordered ++ filter_map (λ sid. lookup_id sid by_id) ready)
        (done ++ ready) in
    if ltb (length ordered) n then rest else some ordered

-- A round puts at least one step in order, or the loop never ends: as many rounds as steps.
unfoldable pub topological_order : List Step → Option (List Step)
topological_order steps =
    order_on (length steps) (length steps) (steps_dict (λ s. s) [] steps) [] []
