-- ===== src/Plan/Read.antt =====
-- Reading a plan document: `plan["intent"]`, `plan["steps"]`, `step["id"]` and so on, at the types
-- that contracts/plan-format.json gives them. `none` is the KeyError or TypeError of a document of
-- another shape.
use stpp_connector.Base.{ℕ, Option, none, some, List, [], ◌∷◌, Text, codes}
use stpp_connector.Json.{Value, Items, int, pos, str, arr, nil, cons, lookup_key}
use stpp_connector.Plan.{Step, Plan}

infixl 5 ◌>>=◌
abbrev ◌>>=◌ : {A B : Type 0} → Option A → (A → Option B) → Option B
none >>= f = none
some a >>= f = f a

as_id : Value → Option ℕ
as_id (int (pos n)) = some n
as_id v = none

as_text : Value → Option Text
as_text (str s) = some s
as_text v = none

as_ids : Items → Option (List ℕ)
as_ids nil = some []
as_ids (cons v vs) = do n ← as_id v; ns ← as_ids vs; some (n ∷ ns)

as_items : Value → Option Items
as_items (arr vs) = some vs
as_items v = none

unfoldable pub step_of : Value → Option Step
unfolding as_id as_text as_ids as_items lookup_key
step_of v = do
  id ← (lookup_key (codes "id") v >>= as_id)
  tool ← (lookup_key (codes "tool") v >>= as_text)
  args ← lookup_key (codes "args") v
  deps ← (lookup_key (codes "depends_on") v >>= as_items)
  depends_on ← as_ids deps
  some (record { id = id; tool = tool; args = args; depends_on = depends_on })

unfoldable pub steps_of : Items → Option (List Step)
steps_of nil = some []
steps_of (cons v vs) = do s ← step_of v; ss ← steps_of vs; some (s ∷ ss)

unfoldable pub plan_of : Value → Option Plan
unfolding as_text as_items lookup_key
plan_of doc = do
  intent ← (lookup_key (codes "intent") doc >>= as_text)
  items ← (lookup_key (codes "steps") doc >>= as_items)
  steps ← steps_of items
  some (record { intent = intent; steps = steps })
