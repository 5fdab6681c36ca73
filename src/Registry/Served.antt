-- ===== src/Registry/Served.antt =====
-- What calls of `ObservedEnumCache.get` return while others overlap with them.
use stpp_connector.Base.{
  ℕ, ◌-◌, ◌<◌, ◌≡◌, refl, sym, ◌∙◌, true, Option, none, some, List, [], ◌∷◌, Text, arith, subst, ap,
  ◌↔◌, Bool-cases, inl, inr,
}
use stpp_connector.Registry.{Observed}
use stpp_connector.Registry.Cache.{
  Cache, Answers, Calls, new, began, came_back, is_fresh, collect, get_now, refresh,
}

-- The values of the last query that worked; none before the first.
abbrev pub last_values : Answers → Observed
last_values [] = []
last_values ((now, none) ∷ answers) = last_values answers
last_values ((now, some rows) ∷ answers) = collect rows []

-- When the call began whose query came back last, worked or not.
abbrev pub last_time : Answers → Option ℕ
last_time [] = none
last_time ((now, rows) ∷ answers) = some now

Calls-cached :
    {ttl : ℕ} {answers : Answers} {waiting : List ℕ} {c : Cache}
    → Calls ttl answers waiting c
    → (c.cached ≡ last_values answers) × (c.fetched_at ≡ last_time answers)
unfolding refresh
Calls-cached new = (refl, refl)
Calls-cached (began now calls none_yet) = Calls-cached calls
Calls-cached (came_back before after now none calls) = ((Calls-cached calls).0, refl)
Calls-cached (came_back before after now (some rows) calls) = (refl, refl)

-- Began less than `ttl` before `now`.
abbrev pub IsRecent : ℕ → ℕ → Option ℕ → Type 0
IsRecent ttl now none = ⊥
IsRecent ttl now (some at) = now - at < ttl

fresh-IsRecent : (ttl now : ℕ) (o : Option ℕ) → is_fresh now ttl o ≡ true → IsRecent ttl now o
fresh-IsRecent ttl now none h = cc h
fresh-IsRecent ttl now (some at) h = ground arith

get_now-fresh :
    (ttl now : ℕ) (c : Cache) (values : Observed)
    → get_now ttl now c ≡ some values
    → (is_fresh now ttl c.fetched_at ≡ true) × (c.cached ≡ values)
unfolding get_now
get_now-fresh ttl now c values h = elim (Bool-cases (is_fresh now ttl c.fetched_at)) [
  | inl e ↦ (e, cc (rw (e, get_now) at h))
  | inr e ↦ absurd (cc (rw (e, get_now) at h))
]

IsRecent-fresh : (ttl now : ℕ) (o : Option ℕ) → IsRecent ttl now o → is_fresh now ttl o ≡ true
IsRecent-fresh ttl now none h = elim h [ ]
IsRecent-fresh ttl now (some at) h = ground arith

-- However calls of `get` overlap, and whether their queries work or raise: a call that begins at
-- `now` returns at once exactly if the query that came back last was asked for by a call that began
-- less than the time to live before; it then returns the values of the query that worked last. A
-- call whose query comes back returns the values of that query, or if that raised, again those of
-- the query that worked last.
pub Calls-served :
    {answers : Answers} {waiting : List ℕ} {c : Cache} (ttl now : ℕ)
    → Calls ttl answers waiting c
    → ((values : Observed)
        → (get_now ttl now c ≡ some values)
          ↔ (IsRecent ttl now (last_time answers) × (last_values answers ≡ values)))
      × ((rows : Option (List (Text × Text)))
          → (refresh now rows c).cached ≡ last_values ((now, rows) ∷ answers))
unfolding refresh get_now
Calls-served {answers} {waiting} {c} ttl now calls =
    let (values_of, time_of) = Calls-cached calls in
    (
      λ values. (
        λ h.
            let (fresh, same) = get_now-fresh ttl now c values h in
            (
              subst (IsRecent ttl now) time_of (fresh-IsRecent ttl now c.fetched_at fresh),
              sym values_of ∙ same,
            ),
        λ (recent, same).
            let fresh =
              IsRecent-fresh ttl now c.fetched_at (subst (IsRecent ttl now) (sym time_of) recent) in
            rw (get_now, fresh) (ap some (values_of ∙ same)),
      ),
      λ rows. elim rows as (λ r. (refresh now r c).cached ≡ last_values ((now, r) ∷ answers)) [
        | none ↦ values_of
        | some found ↦ refl
      ],
    )
