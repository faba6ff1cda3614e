-- ===== src/Prelude/Floats.antt =====
-- float64 and float32, and `strconv.ParseFloat`. The model takes the types and the operations that
-- the program uses as a parameter; `IsIeee` states what IEEE 754 says of the comparisons.
use Prim.Native.Nat.{ℕ, ◌≤◌, ◌<◌}
use mathlib.Core.Path.{◌≡◌}
use mathlib.Core.Bool.{Bool, true, false, not}
use mathlib.Core.Option.{Option}
use edge_sched.Prelude.Int.{ℤ, pos, pos_part}
use edge_sched.Prelude.Bytes.{Bytes}

pub record Floats : Type 1 where
  pub F : Type 0
  pub F32 : Type 0
  pub lt : F → F → Bool
  pub le : F → F → Bool
  pub is_nan : F → Bool
  pub of_int : ℤ → F
  pub of_float32 : F32 → F
  pub div : F → F → F
  pub parse : Bytes → Option F

-- Away from NaN, `<` is a strict weak order and `<=` is its complement; an int is no NaN.
pub record IsIeee (fl : Floats) : Type 0 where
  pub lt_irrefl : (a : fl.F) → fl.lt a a ≡ false
  pub lt_trans : (a b c : fl.F) → fl.lt a b ≡ true → fl.lt b c ≡ true → fl.lt a c ≡ true
  pub lt-not_nan : (a b : fl.F) → fl.lt a b ≡ true → (fl.is_nan a ≡ false) × (fl.is_nan b ≡ false)
  pub le-not_lt :
      (a b : fl.F) → fl.is_nan a ≡ false → fl.is_nan b ≡ false → fl.le a b ≡ not (fl.lt b a)
  pub lt_weak :
      (a b c : fl.F) → fl.is_nan b ≡ false → fl.lt a c ≡ true → fl.lt a b ≡ false → fl.lt b c ≡ true
  pub of_int-not_nan : (n : ℤ) → fl.is_nan (fl.of_int n) ≡ false

-- Multiplication, and `int(x)`.
pub record Scaling (fl : Floats) : Type 0 where
  pub mul : fl.F → fl.F → fl.F
  pub to_int : fl.F → ℤ

-- The ints up to 2 ^ 53 are exact as float64.
abbrev pub max_exact : ℕ
max_exact = 9007199254740992

-- What IEEE 754 says of these on numbers from 0 to 1 and on exact ints: rounding keeps the order, and
-- results that need no rounding are exact.
pub record IsScaling (fl : Floats) (ops : Scaling fl) : Type 0 where
  pub le_trans : (a b c : fl.F) → fl.le a b ≡ true → fl.le b c ≡ true → fl.le a c ≡ true
  pub of_int_mono : (m n : ℕ) → m ≤ n → fl.le (fl.of_int (pos m)) (fl.of_int (pos n)) ≡ true
  pub div_mono :
      (a b : fl.F) (n : ℕ)
      → 0 < n
      → fl.le a b ≡ true
      → fl.le (fl.div a (fl.of_int (pos n))) (fl.div b (fl.of_int (pos n))) ≡ true
  pub zero_div :
      (n : ℕ) → 0 < n → fl.div (fl.of_int (pos 0)) (fl.of_int (pos n)) ≡ fl.of_int (pos 0)
  pub div_self :
      (n : ℕ) → 0 < n → fl.div (fl.of_int (pos n)) (fl.of_int (pos n)) ≡ fl.of_int (pos 1)
  pub mul_mono :
      (a b : fl.F) (n : ℕ)
      → fl.le (fl.of_int (pos 0)) a ≡ true
      → fl.le a b ≡ true
      → fl.le b (fl.of_int (pos 1)) ≡ true
      → fl.le (ops.mul a (fl.of_int (pos n))) (ops.mul b (fl.of_int (pos n))) ≡ true
  pub zero_mul : (n : ℕ) → ops.mul (fl.of_int (pos 0)) (fl.of_int (pos n)) ≡ fl.of_int (pos 0)
  pub one_mul : (n : ℕ) → ops.mul (fl.of_int (pos 1)) (fl.of_int (pos n)) ≡ fl.of_int (pos n)
  pub to_int_range :
      (a : fl.F) (n : ℕ)
      → fl.le (fl.of_int (pos 0)) a ≡ true
      → fl.le a (fl.of_int (pos n)) ≡ true
      → n ≤ max_exact
      → (i : ℕ) × (ops.to_int a ≡ pos i) × i ≤ n
  pub to_int_mono :
      (a b : fl.F) (n : ℕ)
      → fl.le (fl.of_int (pos 0)) a ≡ true
      → fl.le a b ≡ true
      → fl.le b (fl.of_int (pos n)) ≡ true
      → n ≤ max_exact
      → pos_part (ops.to_int a) ≤ pos_part (ops.to_int b)
