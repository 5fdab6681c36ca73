-- ===== src/Llm/Retry.antt =====
-- The loop `for attempt in range(2)` of both clients.
use stpp_connector.Base.{
  ℕ, suc, ◌≡◌, refl, ap, ◌↔◌, ◌⊎◌, inl, inr, Text, codes, ◌++◌, Result, ok, err,
}
use stpp_connector.Runner.Reports.{LlmFault, llm_unavailable}

-- What leaves `complete`: an exception of agent/errors.py, or any other.
pub data Refusal : Type 0 where
  fault : LlmFault → Refusal
  crash : Refusal

-- One round: the loop ends, or it goes on with `last_error`.
pub data Turn : Type 0 where
  ended : Result Refusal Text → Turn
  again : Text → Turn

unfoldable pub last_turn : Turn → Result Refusal Text
last_turn (ended result) = result
last_turn (again last_error) =
    err (fault (llm_unavailable (codes "LLM endpoint failed after retry: " ++ last_error)))

module _ {W : Type 0} where
  unfoldable pub second_turn : (W → Turn × W) → Turn → W → Result Refusal Text × W
  second_turn round (ended result) w = (result, w)
  second_turn round (again last_error) w = let (turn, after) = round w in (last_turn turn, after)

  -- The delay before the second round is not modelled.
  unfoldable pub complete_twice : (W → Turn × W) → W → Result Refusal Text × W
  complete_twice round w = let (turn, after) = round w in second_turn round turn after

  -- The world, and how often it was asked.
  abbrev pub counted : {Q R : Type 0} → (Q → W → R × W) → Q → W × ℕ → R × (W × ℕ)
  counted send q (w, n) = let (reply, after) = send q w in (reply, (after, suc n))

last_turn-ok : (turn : Turn) (text : Text) → last_turn turn ≡ ok text → turn ≡ ended (ok text)
unfolding last_turn
last_turn-ok (ended result) text h = ap ended h
last_turn-ok (again e) text h = cc

module _ {Q R : Type 0} (read : R → Turn) {W : Type 0} (send : Q → W → R × W) (q : Q) where
  -- A client's round: one request, and what the reply means.
  abbrev pub round : W → Turn × W
  round w = let (reply, after) = send q w in (read reply, after)

  -- The first reply has the text, or it is to be tried again and the second reply has it.
  abbrev pub Answers : W → Text → Type 0
  Answers w text =
      (read (send q w).0 ≡ ended (ok text))
      ⊎ (((e : Text) × (read (send q w).0 ≡ again e))
          × (read (send q (send q w).1).0 ≡ ended (ok text)))

  by_first :
      (w : W) (text : Text) (turn : Turn)
      → read (send q w).0 ≡ turn
      → ((second_turn round turn (send q w).1).0 ≡ ok text) ↔ Answers w text
  unfolding second_turn last_turn
  by_first w text (ended result) e =
      rw e (λ h. inl (ap ended h), λ a. elim a [ inl h ↦ cc | inr h ↦ absurd (cc (h.0.1)) ])
  by_first w text (again why) e = rw e (
    λ h. inr ((why, refl), last_turn-ok _ text h),
    λ a. elim a [ inl h ↦ absurd (cc h) | inr h ↦ rw (h.1) refl ],
  )

  pub complete_twice-Answers :
      (w : W) (text : Text) → ((complete_twice round w).0 ≡ ok text) ↔ Answers w text
  unfolding complete_twice
  complete_twice-Answers w text = by_first w text (read (send q w).0) refl

module _ {Q R : Type 0} (read : R → Turn) {W : Type 0} (send : Q → W → R × W) (q : Q) where
  pub complete_twice-ended :
      (w : W) (n : ℕ) (result : Result Refusal Text)
      → read (send q w).0 ≡ ended result
      → (complete_twice (round read (counted send) q) (w, n)).1.1 ≡ suc n
  unfolding complete_twice second_turn
  complete_twice-ended w n result e = rw (complete_twice, e, second_turn) refl

  pub complete_twice-again :
      (w : W) (n : ℕ) (why : Text)
      → read (send q w).0 ≡ again why
      → (complete_twice (round read (counted send) q) (w, n)).1.1 ≡ suc (suc n)
  unfolding complete_twice second_turn
  complete_twice-again w n why e = rw (complete_twice, e, second_turn) refl
