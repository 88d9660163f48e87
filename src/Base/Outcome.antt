-- ===== src/Base/Outcome.antt =====
-- A Go result `(value, error)` of which exactly one is meaningful.
use mathlib.Core.Path.{◌≡◌, refl}
use mathlib.Core.Logic.{◌⊎◌, inl, inr}

pub data Result {ℓ} (E A : Type ℓ) : Type ℓ where
  ok : A → Result E A
  err : E → Result E A

module _ {ℓ} {E A B : Type ℓ} where
  infixl 5 ◌>>=◌
  abbrev pub ◌>>=◌ : Result E A → (A → Result E B) → Result E B
  ok a >>= f = f a
  err e >>= f = err e

  pub bind-eq-ok :
      (m : Result E A) (f : A → Result E B) {b : B}
      → (m >>= f) ≡ ok b
      → (a : A) × (m ≡ ok a) × (f a ≡ ok b)
  bind-eq-ok (ok a) f h = (a, refl, h)
  bind-eq-ok (err e) f h = cc

module _ {ℓ} {E F A : Type ℓ} where
  -- fmt.Errorf("…: %w", err)
  abbrev pub wrap : (E → F) → Result E A → Result F A
  wrap w (ok a) = ok a
  wrap w (err e) = err (w e)

  pub wrap-eq-ok : (w : E → F) (r : Result E A) {a : A} → wrap w r ≡ ok a → r ≡ ok a
  wrap-eq-ok w (ok a) h = cc
  wrap-eq-ok w (err e) h = cc

module _ {ℓ} {E A : Type ℓ} where
  pub Result-cases : (r : Result E A) → ((a : A) × (r ≡ ok a)) ⊎ ((e : E) × (r ≡ err e))
  Result-cases (ok a) = inl (a, refl)
  Result-cases (err e) = inr (e, refl)

-- A result that is no error.
abbrev pub IsOk {ℓ} : {E A : Type ℓ} → Result E A → Type ℓ
IsOk {A = A} r = (a : A) × (r ≡ ok a)
