-- ===== src/Runner/Costs.antt =====
-- What the runner spends: tool calls and LLM calls are counted in the log, at a price each.
use stpp_connector.Base.{
  ℕ, suc, ◌+◌, ◌*◌, ◌≤◌, ◌≡◌, refl, Option, none, some, List, [], ◌∷◌, ◌++◌, Text, Result, ok, err,
  Ensures, arith,
}
use stpp_connector.Json.{Value}
use stpp_connector.Refs.Resolve.{StepResult}
use stpp_connector.Runner.Reports.{Request, LlmFault, Raised, Event, tools_call, llm_call}
use stpp_connector.Runner.Effects.{
  Services, RunState, M, bound, ◌>>=◌, needs, lifts, emit, store, get_results, get_intent,
  set_intent, ask, call_tool,
}

-- A tool call costs `c`, an LLM call costs `l`, and the rest is free.
abbrev pub price : ℕ → ℕ → Event → ℕ
price c l (tools_call tool args) = c
price c l (llm_call q) = l
price c l e = 0

unfoldable pub total : ℕ → ℕ → List Event → ℕ
total c l [] = 0
total c l (e ∷ es) = price c l e + total c l es

total-append :
    (c l : ℕ) (es : List Event) (e : Event) → total c l (es ++ e ∷ []) ≡ total c l es + price c l e
unfolding total
total-append c l [] e = omega arith
total-append c l (x ∷ es) e = omega (arith, total-append c l es e)

pub suc_mul : (n c : ℕ) → suc n * c ≡ c + n * c
suc_mul n c = grind arith

module _ {W : Type 0} (c l : ℕ) where
  -- However the action ends, it adds at most `n` to the costs in the log.
  abbrev pub Spends : {A : Type 0} → ℕ → M W A → Type 0
  Spends n m = (r : RunState W) → total c l (m r).1.log ≤ total c l r.log + n

  -- What holds of the value, where the action returns one.
  abbrev pub Returns : {A : Type 0} → (A → Type 0) → M W A → Type 0
  Returns P m = (r : RunState W) → Ensures P (m r).0

  -- An action that only returns leaves the log as it is.
  pub unchanged : (n : ℕ) (r : RunState W) → total c l r.log ≤ total c l r.log + n
  unchanged n r = omega arith

  pub Returns-bind_when :
      {A B : Type 0} (P : A → Type 0) (Q : B → Type 0) (m : M W A) (f : A → M W B)
      → Returns P m
      → ((x : A) → P x → Returns Q (f x))
      → Returns Q (m >>= f)
  unfolding ◌>>=◌
  Returns-bind_when {A = A} P Q m f p k r = by_result (m r).0 (p r)
    where
      by_result : (x : Result Raised A) → Ensures P x → Ensures Q (bound x (m r).1 f).0
      by_result (ok x) q = k x q (m r).1
      by_result (err e) q = tt

  pub Returns-bind :
      {A B : Type 0} (Q : B → Type 0) (m : M W A) (f : A → M W B)
      → ((x : A) → Returns Q (f x))
      → Returns Q (m >>= f)
  Returns-bind {A = A} Q m f k =
      Returns-bind_when (λ x. Unit {0}) Q m f (λ r. anything (m r).0) (λ x u. k x)
    where
      anything : (x : Result Raised A) → Ensures (λ y. Unit {0}) x
      anything (ok a) = tt
      anything (err e) = tt

  pub Spends-more : {A : Type 0} (a b : ℕ) (m : M W A) → Spends a m → a ≤ b → Spends b m
  Spends-more a b m h k r = omega (arith, h r)

  pub Spends-bind_when :
      {A B : Type 0} (P : A → Type 0) (a b : ℕ) (m : M W A) (f : A → M W B)
      → Spends a m
      → Returns P m
      → ((x : A) → P x → Spends b (f x))
      → Spends (a + b) (m >>= f)
  unfolding ◌>>=◌
  Spends-bind_when {A = A} P a b m f h p k r = by_result (m r).0 (h r) (p r)
    where
      by_result :
          (x : Result Raised A)
          → total c l (m r).1.log ≤ total c l r.log + a
          → Ensures P x
          → total c l (bound x (m r).1 f).1.log ≤ total c l r.log + (a + b)
      by_result (ok x) spent q = omega (arith, k x q (m r).1)
      by_result (err e) spent q = omega arith

  pub Spends-bind :
      {A B : Type 0} (a b : ℕ) (m : M W A) (f : A → M W B)
      → Spends a m
      → ((x : A) → Spends b (f x))
      → Spends (a + b) (m >>= f)
  Spends-bind {A = A} a b m f h k =
      Spends-bind_when (λ x. Unit {0}) a b m f h (λ r. anything (m r).0) (λ x u. k x)
    where
      anything : (x : Result Raised A) → Ensures (λ y. Unit {0}) x
      anything (ok a) = tt
      anything (err e) = tt

  -- Only the first action costs, or only the rest does.
  pub Spends-first :
      {A B : Type 0} (a : ℕ) (m : M W A) (f : A → M W B)
      → Spends a m
      → ((x : A) → Spends 0 (f x))
      → Spends a (m >>= f)
  Spends-first a m f h k r = omega (arith, Spends-bind a 0 m f h k r)

  pub Spends-last :
      {A B : Type 0} (b : ℕ) (m : M W A) (f : A → M W B)
      → Spends 0 m
      → ((x : A) → Spends b (f x))
      → Spends b (m >>= f)
  Spends-last b m f h k r = omega (arith, Spends-bind 0 b m f h k r)

  pub Spends-last_when :
      {A B : Type 0} (P : A → Type 0) (b : ℕ) (m : M W A) (f : A → M W B)
      → Spends 0 m
      → Returns P m
      → ((x : A) → P x → Spends b (f x))
      → Spends b (m >>= f)
  Spends-last_when P b m f h p k r = omega (arith, Spends-bind_when P 0 b m f h p k r)

  pub needs-Spends : {A : Type 0} (n : ℕ) (e : Raised) (o : Option A) → Spends n (needs e o)
  needs-Spends n e none r = omega arith
  needs-Spends n e (some a) r = omega arith

  pub needs-Returns :
      {A : Type 0} (e : Raised) (o : Option A) → Returns (λ a. o ≡ some a) (needs e o)
  needs-Returns e none r = tt
  needs-Returns e (some a) r = refl

  pub lifts-Spends : {E A : Type 0} (n : ℕ) (f : E → Raised) (x : Result E A) → Spends n (lifts f x)
  lifts-Spends n f (ok a) r = omega arith
  lifts-Spends n f (err e) r = omega arith

  pub emit-Spends : (e : Event) → Spends (price c l e) (emit e)
  unfolding emit
  emit-Spends e r = omega (arith, total-append c l r.log e)

  pub store-Spends : (n : ℕ) (s : StepResult) → Spends 0 (store n s)
  unfolding store
  store-Spends n s r = omega arith

  pub get_results-Spends : Spends 0 get_results
  unfolding get_results
  get_results-Spends r = omega arith

  pub get_intent-Spends : Spends 0 get_intent
  unfolding get_intent
  get_intent-Spends r = omega arith

  pub set_intent-Spends : (t : Text) → Spends 0 (set_intent t)
  unfolding set_intent
  set_intent-Spends t r = omega arith

  module _ (services : Services W) where
    pub ask-Spends : (q : Request) → Spends l (ask services q)
    unfolding ask
    ask-Spends q r =
        let reply = services.complete q r.world in
        by_reply reply.0 (record r { world = reply.1; log = r.log ++ llm_call q ∷ [] })
          (omega (arith, total-append c l r.log (llm_call q)))
      where
        by_reply :
            (x : Result LlmFault Text) (r' : RunState W)
            → total c l r'.log ≤ total c l r.log + l
            → total c l (lifts Raised.llm_fault x r').1.log ≤ total c l r.log + l
        by_reply (ok t) r' h = h
        by_reply (err e) r' h = h

    pub call_tool-Spends : (tool : Text) (args : Value) → Spends c (call_tool services tool args)
    unfolding call_tool
    call_tool-Spends tool args r = omega (arith, total-append c l r.log (tools_call tool args))
