-- ===== src/Plan.antt =====
-- A plan and its steps, read by key as contracts/plan-format.json lays them out: `plan["steps"]`,
-- `step["id"]` and so on.
pub mod Read
use stpp_connector.Base.{
  ℕ, Bool, true, false, ◌||◌, ◌≡◌, refl, sym, ◌∙◌, arith, append-nil, append_assoc, List, [], ◌∷◌,
  ◌++◌, Text, mem, Unique, put_id, ◌==◌,
}
use stpp_connector.Json.{Value}

pub record Step : Type 0 where
  pub id : ℕ
  pub tool : Text
  pub args : Value
  pub depends_on : List ℕ

pub record Plan : Type 0 where
  pub intent : Text
  pub steps : List Step

unfoldable pub ids_of : List Step → List ℕ
ids_of [] = []
ids_of (s ∷ ss) = s.id ∷ ids_of ss

-- `{step["id"]: f(step) for step in steps}`
module _ {V : Type 0} where
  unfoldable pub steps_dict : (Step → V) → List (ℕ × V) → List Step → List (ℕ × V)
  steps_dict f d [] = d
  steps_dict f d (s ∷ ss) = steps_dict f (put_id s.id (f s) d) ss

  abbrev pub entries : (Step → V) → List Step → List (ℕ × V)
  entries f [] = []
  entries f (s ∷ ss) = (s.id, f s) ∷ entries f ss

  abbrev pub has_key : ℕ → List (ℕ × V) → Bool
  has_key k [] = false
  has_key k ((j, v) ∷ d) = (j == k) || has_key k d

  put_id-fresh :
      (k : ℕ) (v : V) (d : List (ℕ × V)) → has_key k d ≡ false → put_id k v d ≡ d ++ (k, v) ∷ []
  put_id-fresh k v [] h = refl
  put_id-fresh k v ((j, w) ∷ d) h = ground (arith, put_id-fresh k v d)

  has_key-append :
      (k j : ℕ) (v : V) (d : List (ℕ × V))
      → has_key k (d ++ (j, v) ∷ []) ≡ (has_key k d || (j == k))
  has_key-append k j v [] = ground arith
  has_key-append k j v ((i, w) ∷ d) = ground (arith, has_key-append k j v d)

  abbrev Fresh : List (ℕ × V) → List Step → Type 0
  Fresh d [] = Unit
  Fresh d (s ∷ ss) = (has_key s.id d ≡ false) × Fresh d ss

  Fresh-append :
      (d : List (ℕ × V)) (k : ℕ) (v : V) (ss : List Step)
      → Fresh d ss
      → mem k (ids_of ss) ≡ false
      → Fresh (d ++ (k, v) ∷ []) ss
  unfolding ids_of
  Fresh-append d k v [] h e = tt
  Fresh-append d k v (s ∷ ss) h e =
      (ground (arith, has_key-append s.id k v d), Fresh-append d k v ss h.1 (ground arith))

  steps_dict-append :
      (f : Step → V) (d : List (ℕ × V)) (ss : List Step)
      → Fresh d ss
      → Unique (ids_of ss)
      → steps_dict f d ss ≡ d ++ entries f ss
  unfolding steps_dict ids_of
  steps_dict-append f d [] h u = sym (append-nil d)
  steps_dict-append f d (s ∷ ss) h u = rw (put_id-fresh s.id (f s) d h.0) (
      steps_dict-append f (d ++ (s.id, f s) ∷ []) ss (Fresh-append d s.id (f s) ss h.1 u.0) u.1
      ∙ append_assoc d ((s.id, f s) ∷ []) (entries f ss))

  -- Where the ids are unique the dict has an entry for each step, in their order.
  pub steps_dict-Unique :
      (f : Step → V) (ss : List Step) → Unique (ids_of ss) → steps_dict f [] ss ≡ entries f ss
  steps_dict-Unique f ss u = steps_dict-append f [] ss (fresh ss) u
    where
      fresh : (ts : List Step) → Fresh [] ts
      fresh [] = tt
      fresh (t ∷ ts) = (refl, fresh ts)
