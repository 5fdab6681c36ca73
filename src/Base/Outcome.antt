-- ===== src/Base/Outcome.antt =====
-- A computation that may raise: the value, or the exception.
use mathlib.Core.Path.{◌≡◌, refl, ap}

pub data Result {ℓ κ} (E : Type ℓ) (A : Type κ) : Type (ℓ ⊔ κ) where
  ok : A → Result E A
  err : E → Result E A

pub ok-injective {ℓ κ} :
    {E : Type ℓ} {A : Type κ} {a b : A} → ◌≡◌ {A = Result E A} (ok a) (ok b) → a ≡ b
ok-injective e = cc

module _ {ℓ κ μ} {E : Type ℓ} {A : Type κ} {B : Type μ} where
  infixl 5 ◌>>=◌
  abbrev pub ◌>>=◌ : Result E A → (A → Result E B) → Result E B
  ok a >>= f = f a
  err e >>= f = err e

  pub >>=-of : {m : Result E A} {a : A} (rest : A → Result E B) → m ≡ ok a → (m >>= rest) ≡ rest a
  >>=-of rest returned = ap (λ x. x >>= rest) returned

  -- The first part returned, and so did the rest of the block.
  abbrev pub Through : Result E A → (A → Result E B) → B → Type (ℓ ⊔ κ ⊔ μ)
  Through m f b = (x : A) × (m ≡ ok x) × (f x ≡ ok b)

  pub >>=-Through :
      (m : Result E A) (rest : A → Result E B) {b : B} → (m >>= rest) ≡ ok b → Through m rest b
  >>=-Through (err fault) rest ended = cc
  >>=-Through (ok x) rest ended = (x, refl, ended)

module _ {ℓ κ} {E : Type ℓ} {A : Type κ} where
  abbrev pub Ensures {μ} : (A → Type μ) → Result E A → Type μ
  Ensures P (ok a) = P a
  Ensures P (err e) = Unit

module _ {ℓ κ μ} {E : Type ℓ} {A : Type κ} {B : Type μ} where
  pub Ensures-bind {ν ξ} :
      (P : A → Type ν) (Q : B → Type ξ) (m : Result E A) (f : A → Result E B)
      → Ensures P m
      → ((a : A) → P a → Ensures Q (f a))
      → Ensures Q (m >>= f)
  Ensures-bind P Q (ok a) f h k = k a h
  Ensures-bind P Q (err e) f h k = tt

  -- The rest of the block may use what the first part returned.
  pub Ensures-bind_eq {ν} :
      (Q : B → Type ν) (m : Result E A) (f : A → Result E B)
      → ((a : A) → m ≡ ok a → Ensures Q (f a))
      → Ensures Q (m >>= f)
  Ensures-bind_eq Q (ok a) f k = k a refl
  Ensures-bind_eq Q (err e) f k = tt
