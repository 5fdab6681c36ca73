-- ===== src/Registry/Cache.antt =====
-- `ObservedEnumCache` of services/mcp-server/app/enums.py. Time is in the clock's own ticks. A call of
-- `get` waits for its query, so other calls may begin and end between its two parts, `get_now` and
-- `refresh`.
use stpp_connector.Base.{
  ℕ, ◌-◌, Bool, false, Option, none, some, List, [], ◌∷◌, ◌++◌, Text, mem_text, lookup_text,
  put_text, if◌then◌else◌, ltb, ◌≡◌,
}
use stpp_connector.Registry.{Observed}

pub record Cache : Type 0 where
  pub cached : Observed
  pub fetched_at : Option ℕ

abbrev pub new_cache : Cache
new_cache = record { cached = []; fetched_at = none }

-- `observed.setdefault(field_name, set()).add(value)`
unfoldable pub add_value : Text → Text → Observed → Observed
add_value name value observed = elim (lookup_text name observed) [
  | none ↦ put_text name (value ∷ []) observed
  | some values ↦
      if mem_text value values then observed else put_text name (values ++ value ∷ []) observed
]

unfoldable pub collect : List (Text × Text) → Observed → Observed
collect [] observed = observed
collect ((name, value) ∷ rows) observed = collect rows (add_value name value observed)

abbrev pub is_fresh : ℕ → ℕ → Option ℕ → Bool
is_fresh now ttl none = false
is_fresh now ttl (some at) = ltb (now - at) ttl

-- `get` up to its query: the cached values if they are fresh; `none` where it goes on to the query.
unfoldable pub get_now : ℕ → ℕ → Cache → Option Observed
get_now ttl now c = if is_fresh now ttl c.fetched_at then some c.cached else none

-- `get` from its query on, for a call that began at `now`: with the rows that the query returned, or
-- `none` if it raised. The call then returns what is cached.
unfoldable pub refresh : ℕ → Option (List (Text × Text)) → Cache → Cache
refresh now none c = record c { fetched_at = some now }
refresh now (some rows) c = record { cached = collect rows []; fetched_at = some now }

-- The queries that came back, the last one first: when the call began, and the rows.
abbrev pub Answers : Type 0
Answers = List (ℕ × Option (List (Text × Text)))

-- Calls of `get` that overlap in any way: the queries that came back, the calls that wait for
-- theirs, and the cache. A call that returns at once changes none of them.
pub data Calls (ttl : ℕ) : Answers → List ℕ → Cache → Type 0 where
  new : Calls ttl [] [] new_cache
  began :
      {answers : Answers} {waiting : List ℕ} {c : Cache} (now : ℕ)
      → Calls ttl answers waiting c
      → get_now ttl now c ≡ none
      → Calls ttl answers (now ∷ waiting) c
  came_back :
      {answers : Answers} {c : Cache} (before after : List ℕ) (now : ℕ)
      (rows : Option (List (Text × Text)))
      → Calls ttl answers (before ++ now ∷ after) c
      → Calls ttl ((now, rows) ∷ answers) (before ++ after) (refresh now rows c)
