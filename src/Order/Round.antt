-- ===== src/Order/Round.antt =====
-- One round of `_topological_order` moves the ready steps from the pending to the ordered ones.
use mathlib.Core.List.{Perm, perm_middle}
use mathlib.Core.List.Perm
use stpp_connector.Base.{
  ℕ, ◌≡◌, refl, Bool, true, false, some, List, [], ◌∷◌, ◌++◌, arith, All, mem, filter_map, sorted,
  lookup_id, Unique, Bool-cases, inl, inr, if◌then◌else◌, ==_refl,
}
use stpp_connector.Plan.{Step, ids_of, entries}
use stpp_connector.Order.{ById, is_ready, ready_ids}
use stpp_connector.Order.Pending.{pending, mem-done}

unfoldable pub ready_steps : ById → List ℕ → List Step → List Step
ready_steps by_id done [] = []
ready_steps by_id done (s ∷ ss) =
    if is_ready by_id done s.id s then s ∷ ready_steps by_id done ss else ready_steps by_id done ss

-- A step's id is looked up to the step itself.
abbrev pub IsIn : ById → Step → Type 0
IsIn by_id s = lookup_id s.id by_id ≡ some s

abbrev pub steps_at : ById → List ℕ → List Step
steps_at by_id ids = filter_map (λ sid. lookup_id sid by_id) ids

pub steps_at-ready_ids :
    (by_id : ById) (done : List ℕ) (ss : List Step)
    → All (IsIn by_id) ss
    → steps_at by_id (ready_ids by_id done (entries (λ s. s) ss)) ≡ ready_steps by_id done ss
unfolding ready_ids ready_steps
steps_at-ready_ids by_id done [] h = refl
steps_at-ready_ids by_id done (s ∷ ss) h = ground (arith, h.0, steps_at-ready_ids by_id done ss h.1)

mem-ready_ids :
    (k : ℕ) (by_id : ById) (done : List ℕ) (ss : List Step)
    → mem k (ids_of ss) ≡ false
    → mem k (ready_ids by_id done (entries (λ s. s) ss)) ≡ false
unfolding ready_ids ids_of
mem-ready_ids k by_id done [] h = refl
mem-ready_ids k by_id done (s ∷ ss) h = ground (arith, mem-ready_ids k by_id done ss)

-- Where the ids are unique, the id of a step is among the ready ids exactly if the step is ready.
abbrev pub Agrees : ById → List ℕ → List ℕ → Step → Type 0
Agrees by_id done ready s = mem s.id ready ≡ is_ready by_id done s.id s

Agrees-cons :
    (by_id : ById) (done ready : List ℕ) (k : ℕ) (ss : List Step)
    → mem k (ids_of ss) ≡ false
    → All (Agrees by_id done ready) ss
    → All (Agrees by_id done (k ∷ ready)) ss
unfolding ids_of
Agrees-cons by_id done ready k [] e h = tt
Agrees-cons by_id done ready k (s ∷ ss) e h =
    (ground arith, Agrees-cons by_id done ready k ss (ground arith) h.1)

Agrees-if :
    (by_id : ById) (done ready : List ℕ) (s : Step) (ss : List Step) (b : Bool)
    → is_ready by_id done s.id s ≡ b
    → mem s.id ready ≡ false
    → mem s.id (ids_of ss) ≡ false
    → All (Agrees by_id done ready) ss
    → All (Agrees by_id done (if b then s.id ∷ ready else ready)) (s ∷ ss)
Agrees-if by_id done ready s ss true e r m h =
    (rw e (rw (==_refl s.id) refl), Agrees-cons by_id done ready s.id ss m h)
Agrees-if by_id done ready s ss false e r m h = (rw e r, h)

pub ready_ids-Agrees :
    (by_id : ById) (done : List ℕ) (ss : List Step)
    → Unique (ids_of ss)
    → All (Agrees by_id done (ready_ids by_id done (entries (λ s. s) ss))) ss
unfolding ids_of ready_ids
ready_ids-Agrees by_id done [] u = tt
ready_ids-Agrees by_id done (s ∷ ss) u =
    Agrees-if by_id done (ready_ids by_id done (entries (λ t. t) ss)) s ss
      (is_ready by_id done s.id s) refl (mem-ready_ids s.id by_id done ss u.0) u.0
      (ready_ids-Agrees by_id done ss u.1)

ready-not_done :
    (by_id : ById) (done : List ℕ) (s : Step)
    → mem s.id done ≡ true
    → is_ready by_id done s.id s ≡ false
unfolding is_ready
ready-not_done by_id done s h = ground arith

-- The ready steps and those that are pending after the round are those pending before it.
pub round-Perm :
    (by_id : ById) (done ready : List ℕ) (ss : List Step)
    → All (Agrees by_id done ready) ss
    → Perm (ready_steps by_id done ss ++ pending (done ++ sorted ready) ss) (pending done ss)
unfolding ready_steps pending
round-Perm by_id done ready [] h = Perm.refl []
round-Perm by_id done ready (s ∷ ss) h = elim (Bool-cases (mem s.id done)) [
  | inl d ↦
      rw (d, ready-not_done by_id done s d, mem-done s.id done ready, d)
        (round-Perm by_id done ready ss h.1)
  | inr d ↦ elim (Bool-cases (is_ready by_id done s.id s)) [
    | inl r ↦
        rw (d, r, mem-done s.id done ready, d, h.0, r)
          (Perm.cons s (round-Perm by_id done ready ss h.1))
    | inr r ↦
        rw (d, r, mem-done s.id done ready, d, h.0, r)
          (Perm.trans (perm_middle (ready_steps by_id done ss) (pending (done ++ sorted ready) ss))
            (Perm.cons s (round-Perm by_id done ready ss h.1)))
  ]
]
