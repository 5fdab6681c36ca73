-- ===== src/Order/Loop.antt =====
-- The loop of `_topological_order`: if Kahn's algorithm takes every step away, the loop orders all
-- steps within as many rounds, each after its dependencies.
use stpp_connector.Base.{
  ℕ, ◌≡◌, refl, sym, ap, subst, true, false, Option, none, some, List, [], ◌∷◌, ◌++◌, append_assoc,
  append-nil, arith, All, All-map, mem, mem-append, every, sorted, insert_sorted, lookup_id, Unique,
  Bool-cases, inl, inr, ==_refl, leb,
}
use stpp_connector.Plan.{Step, ids_of, entries}
use stpp_connector.Order.{ById, is_ready, ready_ids}
use stpp_connector.Order.Pending.{Declared, has_key-entries, every-ready}
use stpp_connector.Order.Round.{IsIn, steps_at}

-- Each step comes after all its dependencies; `before` are the ids ahead of the list.
abbrev pub Precedes : List ℕ → List Step → Type 0
Precedes before [] = Unit
Precedes before (s ∷ ss) =
    (every (λ d. mem d before) s.depends_on ≡ true) × Precedes (before ++ s.id ∷ []) ss

IsIn-cons :
    (t : Step) (d : ById) (ss : List Step)
    → mem t.id (ids_of ss) ≡ false
    → All (IsIn d) ss
    → All (IsIn ((t.id, t) ∷ d)) ss
unfolding ids_of
IsIn-cons t d [] e h = tt
IsIn-cons t d (s ∷ ss) e h = (ground (arith, h.0), IsIn-cons t d ss (ground arith) h.1)

pub entries-IsIn : (ss : List Step) → Unique (ids_of ss) → All (IsIn (entries (λ s. s) ss)) ss
unfolding ids_of
entries-IsIn [] u = tt
entries-IsIn (s ∷ ss) u =
    (rw (==_refl s.id) refl, IsIn-cons s (entries (λ t. t) ss) ss u.0 (entries-IsIn ss u.1))

-- An id that is ready leads to a step whose dependencies are done.
abbrev pub IsReadyId : ById → List ℕ → ℕ → Type 0
IsReadyId by_id done i =
    (s : Step) × (lookup_id i by_id ≡ some s)
    × (s.id ≡ i)
    × (every (λ d. mem d done) s.depends_on ≡ true)

module _ (all : List Step) (done : List ℕ) where
  pub ready_ids-IsReadyId :
      (ss : List Step)
      → All (IsIn (entries (λ s. s) all)) ss
      → All (Declared (ids_of all)) ss
      → All
          (IsReadyId (entries (λ s. s) all) done)
          (ready_ids (entries (λ s. s) all) done (entries (λ s. s) ss))
  unfolding ready_ids is_ready
  ready_ids-IsReadyId [] h k = tt
  ready_ids-IsReadyId (s ∷ ss) h k =
      let same =
        every-ready done (ids_of all) s.depends_on (entries (λ t. t) all)
          (λ i. has_key-entries i all) k.0 in
      elim (Bool-cases (is_ready (entries (λ t. t) all) done s.id s)) [
        | inl e ↦ rw e ((s, h.0, refl, ground (arith, same)), ready_ids-IsReadyId ss h.1 k.1)
        | inr e ↦ rw e (ready_ids-IsReadyId ss h.1 k.1)
      ]

All-insert_sorted :
    (P : ℕ → Type 0) (a : ℕ) (xs : List ℕ) → P a → All P xs → All P (insert_sorted a xs)
All-insert_sorted P a [] p h = (p, tt)
All-insert_sorted P a (x ∷ xs) p h = elim (Bool-cases (leb a x)) [
  | inl e ↦ rw e (p, h)
  | inr e ↦ rw e (h.0, All-insert_sorted P a xs p h.1)
]

pub All-sorted : (P : ℕ → Type 0) (xs : List ℕ) → All P xs → All P (sorted xs)
All-sorted P [] h = tt
All-sorted P (x ∷ xs) h = All-insert_sorted P x (sorted xs) h.0 (All-sorted P xs h.1)

pub ids_of-steps_at :
    (by_id : ById) (done ids : List ℕ)
    → All (IsReadyId by_id done) ids
    → ids_of (steps_at by_id ids) ≡ ids
unfolding ids_of
ids_of-steps_at by_id done [] h = refl
ids_of-steps_at by_id done (i ∷ ids) h =
    let (s, at, e, d) = h.0 in ground (arith, at, e, ids_of-steps_at by_id done ids h.1)

abbrev pub Done : List ℕ → Step → Type 0
Done done s = every (λ d. mem d done) s.depends_on ≡ true

Done-push :
    (done : List ℕ) (o : Option Step) (s : Step) (ss : List Step)
    → o ≡ some s
    → Done done s
    → All (Done done) ss
    → All (Done done) (elim o [ none ↦ ss | some t ↦ t ∷ ss ])
Done-push done none s ss e d h = h
Done-push done (some t) s ss e d h = (subst (Done done) {x = s} {y = t} (cc) d, h)

pub steps_at-Done :
    (by_id : ById) (done ids : List ℕ)
    → All (IsReadyId by_id done) ids
    → All (Done done) (steps_at by_id ids)
steps_at-Done by_id done [] h = tt
steps_at-Done by_id done (i ∷ ids) h =
    let (s, at, e, d) = h.0 in
    Done-push done (lookup_id i by_id) s (steps_at by_id ids) at d
      (steps_at-Done by_id done ids h.1)

pub ids_of-append : (xs ys : List Step) → ids_of (xs ++ ys) ≡ ids_of xs ++ ids_of ys
unfolding ids_of
ids_of-append [] ys = refl
ids_of-append (x ∷ xs) ys = ap (λ r. x.id ∷ r) (ids_of-append xs ys)

every-weaken :
    (done more deps : List ℕ)
    → every (λ d. mem d done) deps ≡ true
    → every (λ d. mem d (done ++ more)) deps ≡ true
every-weaken done more [] h = refl
every-weaken done more (d ∷ deps) h =
    ground (arith, mem-append d done more, every-weaken done more deps)

pub Precedes-new : (before : List ℕ) (ss : List Step) → All (Done before) ss → Precedes before ss
Precedes-new before [] h = tt
Precedes-new before (s ∷ ss) h = (
  h.0,
  Precedes-new (before ++ s.id ∷ []) ss (
      All-map (Done before) (Done (before ++ s.id ∷ [])) ss
        (λ t k. every-weaken before (s.id ∷ []) t.depends_on k) h.1),
)

pub Precedes-append :
    (before : List ℕ) (xs ys : List Step)
    → Precedes before xs
    → Precedes (before ++ ids_of xs) ys
    → Precedes before (xs ++ ys)
unfolding ids_of
Precedes-append before [] ys h k = subst (λ b. Precedes b ys) (append-nil before) k
Precedes-append before (x ∷ xs) ys h k = (
  h.0,
  Precedes-append (before ++ x.id ∷ []) xs ys h.1
      (subst (λ b. Precedes b ys) (sym (append_assoc before (x.id ∷ []) (ids_of xs))) k),
)
