-- ===== src/Order/Pending.antt =====
-- The steps that are not done, in the validator's algorithm and in the runner's.
use stpp_connector.Base.{
  ℕ, ◌≡◌, refl, ap, ◌∙◌, true, not, ◌||◌, List, [], ◌∷◌, ◌++◌, arith, All, mem, mem-append,
  mem-sorted, every, keep_if, is_empty, sorted, if◌then◌else◌,
}
use stpp_connector.Plan.{Step, ids_of, entries, has_key}
use stpp_connector.Validator.Graph.{Remaining, ready_of, without}
use stpp_connector.Order.{ById, is_ready, ready_ids}

-- What Kahn's algorithm has left when the steps in `done` are gone.
unfoldable pub rest_of : List ℕ → List Step → Remaining
rest_of done [] = []
rest_of done (s ∷ ss) =
    if mem s.id done
    then rest_of done ss
    else (s.id, keep_if (λ d. not (mem d done)) s.depends_on) ∷ rest_of done ss

unfoldable pub pending : List ℕ → List Step → List Step
pending done [] = []
pending done (s ∷ ss) = if mem s.id done then pending done ss else s ∷ pending done ss

-- Every dependency is among the ids.
abbrev pub Declared : List ℕ → Step → Type 0
Declared ids s = every (λ d. mem d ids) s.depends_on ≡ true

pub has_key-entries : (k : ℕ) (ss : List Step) → has_key k (entries (λ s. s) ss) ≡ mem k (ids_of ss)
unfolding ids_of
has_key-entries k [] = refl
has_key-entries k (s ∷ ss) = ground (arith, has_key-entries k ss)

every-is_empty :
    (done deps : List ℕ)
    → is_empty (keep_if (λ d. not (mem d done)) deps) ≡ every (λ d. mem d done) deps
every-is_empty done [] = refl
every-is_empty done (d ∷ deps) = ground (arith, every-is_empty done deps)

pub every-ready :
    (done ids deps : List ℕ) (by_id : ById)
    → ((k : ℕ) → has_key k by_id ≡ mem k ids)
    → every (λ d. mem d ids) deps ≡ true
    → every (λ d. mem d done || not (has_key d by_id)) deps ≡ every (λ d. mem d done) deps
every-ready done ids [] by_id h e = refl
every-ready done ids (d ∷ deps) by_id h e = ground (arith, h d, every-ready done ids deps by_id h)

-- Both algorithms find the same steps ready.
pub ready_of-rest_of :
    (all : List Step) (done : List ℕ) (ss : List Step)
    → All (Declared (ids_of all)) ss
    → ready_of (rest_of done ss) ≡ ready_ids (entries (λ s. s) all) done (entries (λ s. s) ss)
unfolding ready_of rest_of ready_ids is_ready
ready_of-rest_of all done [] h = refl
ready_of-rest_of all done (s ∷ ss) h = ground (
  arith,
  every-is_empty done s.depends_on,
  every-ready done (ids_of all) s.depends_on (entries (λ s. s) all) (λ k. has_key-entries k all)
      h.0,
  ready_of-rest_of all done ss h.1,
)

pub mem-done :
    (d : ℕ) (done ready : List ℕ) → mem d (done ++ sorted ready) ≡ (mem d done || mem d ready)
mem-done d done ready =
    mem-append d done (sorted ready) ∙ ap (λ b. mem d done || b) (mem-sorted d ready)

keep_if-done :
    (done ready deps : List ℕ)
    → keep_if (λ d. not (mem d ready)) (keep_if (λ d. not (mem d done)) deps)
      ≡ keep_if (λ d. not (mem d (done ++ sorted ready))) deps
keep_if-done done ready [] = refl
keep_if-done done ready (d ∷ deps) =
    ground (arith, mem-done d done ready, keep_if-done done ready deps)

-- Taking the ready steps away is adding them to what is done.
pub without-rest_of :
    (done ready : List ℕ) (ss : List Step)
    → without ready (rest_of done ss) ≡ rest_of (done ++ sorted ready) ss
unfolding without rest_of
without-rest_of done ready [] = refl
without-rest_of done ready (s ∷ ss) = ground (
  arith,
  mem-done s.id done ready,
  keep_if-done done ready s.depends_on,
  without-rest_of done ready ss,
)
