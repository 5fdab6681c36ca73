-- ===== src/Base/Actions.antt =====
-- Computations that act on an outside state and may raise: the state stays as it is left.
use stpp_connector.Base.Outcome.{Result, ok, err}

abbrev pub Action : Type 0 → Type 0 → Type 0 → Type 0
Action E W A = W → Result E A × W

module _ {E W : Type 0} where
  abbrev pub returned : {A : Type 0} → Result E A → Action E W A
  returned x w = (x, w)

  abbrev pub after : {A B : Type 0} → Result E A → (A → Action E W B) → Action E W B
  after (ok a) f w = f a w
  after (err e) f w = (err e, w)

  infixl 5 ◌>>=◌
  abbrev pub ◌>>=◌ : {A B : Type 0} → Action E W A → (A → Action E W B) → Action E W B
  m >>= f = λ w. after (m w).0 f (m w).1
