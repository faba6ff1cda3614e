-- ===== src/Prelude/Totals.antt =====
-- Sums of a weight over a list, and what a write at one place does to them.
use Prim.Native.Nat.{ℕ, zero, suc, ◌+◌, ◌≤◌}
use mathlib.Core.Path.{◌≡◌, refl}
use mathlib.Core.List.{List, [], ◌∷◌, ◌++◌}
use mathlib.Core.Option.{some}
use native.Mathlib.Omega.{arith}
use edge_sched.Prelude.Lists.{get_elem?, set, length, replicate}

module _ {A : Type 0} (w : A → ℕ) where
  abbrev pub total : List A → ℕ
  total [] = 0
  total (x ∷ xs) = w x + total xs

  pub total-set :
      (xs : List A) (i : ℕ) (old new : A)
      → get_elem? xs i ≡ some old
      → total (set xs i new) + w old ≡ total xs + w new
  total-set [] i old new e = absurd (cc)
  total-set (x ∷ xs) zero old new e = ground arith
  total-set (x ∷ xs) (suc i) old new e = omega (arith, total-set xs i old new e)

  pub total-append : (xs ys : List A) → total (xs ++ ys) ≡ total xs + total ys
  total-append [] ys = omega arith
  total-append (x ∷ xs) ys = omega (arith, total-append xs ys)

  pub total-le-length : ((a : A) → w a ≤ 1) → (xs : List A) → total xs ≤ length xs
  total-le-length small [] = omega arith
  total-le-length small (x ∷ xs) = omega (arith, small x, total-le-length small xs)

  pub total-replicate_zero : (n : ℕ) (a : A) → w a ≡ 0 → total (replicate n a) ≡ 0
  total-replicate_zero zero a h = refl
  total-replicate_zero (suc n) a h = omega (arith, total-replicate_zero n a h)

  -- One element's weight is at most the total.
  pub weight-le-total : (xs : List A) (i : ℕ) (a : A) → get_elem? xs i ≡ some a → w a ≤ total xs
  weight-le-total [] i a e = absurd (cc)
  weight-le-total (x ∷ xs) zero a e = ground arith
  weight-le-total (x ∷ xs) (suc i) a e = omega (arith, weight-le-total xs i a e)
