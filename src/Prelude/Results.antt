-- ===== src/Prelude/Results.antt =====
-- A Go call that returns a value and an error, and may panic (an index out of range, a send on a
-- closed channel).
use mathlib.Core.Path.{◌≡◌}
use mathlib.Core.Logic.{◌≢◌}

pub data Result {ℓ} (E A : Type ℓ) : Type ℓ where
  ok : A → Result E A
  err : E → Result E A
  panic : Result E A

infixl 5 ◌>>=◌
abbrev pub ◌>>=◌ {ℓ} : {E A B : Type ℓ} → Result E A → (A → Result E B) → Result E B
ok a >>= f = f a
err e >>= f = err e
panic >>= f = panic

pub ok-injective : {E A : Type 0} {a b : A} → ◌≡◌ {A = Result E A} (ok a) (ok b) → a ≡ b
ok-injective h = cc

pub ok-ne-err : {E A : Type 0} {a : A} {e : E} → ◌≢◌ {A = Result E A} (ok a) (err e)
ok-ne-err h = cc
