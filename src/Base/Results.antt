-- ===== src/Base/Results.antt =====
-- What a Go function with an error result returns.
use mathlib.Core.Path.{◌≡◌, refl}

pub data Outcome {ℓ} (E : Type 0) (A : Type ℓ) : Type ℓ where
  err : E → Outcome E A
  ok : A → Outcome E A

infixl 5 ◌>>=◌
abbrev pub ◌>>=◌ {ℓ κ} :
    {E : Type 0} {A : Type ℓ} {B : Type κ} → Outcome E A → (A → Outcome E B) → Outcome E B
err x >>= next = err x
ok y >>= next = next y

module _ {ℓ} {E : Type 0} {A : Type ℓ} where
  pub ok-injective : {a b : A} → ◌≡◌ {A = Outcome E A} (ok a) (ok b) → a ≡ b
  ok-injective h = cc

  pub err-injective : {x y : E} → ◌≡◌ {A = Outcome E A} (err x) (err y) → x ≡ y
  err-injective h = cc

  pub ok≢err : {a : A} {x : E} → ◌≡◌ {A = Outcome E A} (ok a) (err x) → ⊥
  ok≢err h = cc

  -- The two halves of a chain that succeeds.
  pub bind_ok {κ} :
      {B : Type κ} (first : Outcome E A) (next : A → Outcome E B) {y : B}
      → (first >>= next) ≡ ok y
      → (x : A) × (first ≡ ok x) × (next x ≡ ok y)
  bind_ok (err x) next success = cc
  bind_ok (ok x) next success = (x, refl, success)
