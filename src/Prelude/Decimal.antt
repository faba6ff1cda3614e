-- ===== src/Prelude/Decimal.antt =====
-- `strconv.Itoa` and `strconv.Atoi` in base 10.
use Prim.Native.Nat.{ℕ, zero, suc, ◌+◌, ◌-◌, ◌*◌, ◌/◌, ◌%◌, ◌<◌}
use mathlib.Core.Path.{◌≡◌, refl, sym, ap, ◌∙◌}
use mathlib.Core.Logic.{◌≢◌, inl, inr}
use mathlib.Core.Bool.{Bool, true, false, ◌&&◌}
use mathlib.Core.Option.{Option, none, some}
use mathlib.Core.List.{[], ◌∷◌, ◌++◌}
use native.Mathlib.Omega.{arith}
use edge_sched.Prelude.Tests.{ltb, leb, ◌==◌, if◌then◌else◌, Bool-cases}
use edge_sched.Prelude.Int.{ℤ, pos, negsuc}
use edge_sched.Prelude.Bytes.{Bytes}

abbrev pub is_digit : ℕ → Bool
is_digit c = leb b'0' c && leb c b'9'

abbrev pub all_digits : Bytes → Bool
all_digits [] = true
all_digits (c ∷ s) = if is_digit c then all_digits s else false

-- The digits of a number, most significant first. Each round needs one unit of fuel.
unfoldable pub digits : ℕ → ℕ → Bytes
digits zero n = []
digits (suc f) n =
    let more = digits f (n / 10) ++ (48 + n % 10) ∷ [] in if ltb n 10 then (48 + n) ∷ [] else more

unfoldable pub itoa_nat : ℕ → Bytes
unfolding digits
itoa_nat n = digits (suc n) n

unfoldable pub itoa : ℤ → Bytes
unfolding itoa_nat
itoa (pos n) = itoa_nat n
itoa (negsuc n) = b'-' ∷ itoa_nat (suc n)

unfoldable pub value : ℕ → Bytes → ℕ
value acc [] = acc
value acc (c ∷ s) = value (acc * 10 + (c - 48)) s

-- Decimal digits, at least one.
unfoldable pub natural : Bytes → Option ℕ
unfolding value
natural [] = none
natural (c ∷ s) = if all_digits (c ∷ s) then some (value 0 (c ∷ s)) else none

abbrev pub at_most : ℕ → Option ℕ → Option ℕ
at_most limit none = none
at_most limit (some n) = if leb n limit then some n else none

abbrev pub negated : Option ℕ → Option ℤ
negated none = none
negated (some zero) = some (pos 0)
negated (some (suc n)) = some (negsuc n)

abbrev pub positive : Option ℕ → Option ℤ
positive none = none
positive (some n) = some (pos n)

-- `strconv.Atoi` on a 64-bit system: an optional sign, digits, and a value that fits an int.
unfoldable pub atoi : Bytes → Option ℤ
unfolding natural
atoi [] = none
atoi (c ∷ s) =
    if c == b'-'
    then negated (at_most 9223372036854775808 (natural s))
    else if c == b'+'
    then positive (at_most 9223372036854775807 (natural s))
    else positive (at_most 9223372036854775807 (natural (c ∷ s)))

value-append : (acc : ℕ) (s t : Bytes) → value acc (s ++ t) ≡ value (value acc s) t
unfolding value
value-append acc [] t = refl
value-append acc (c ∷ s) t = value-append (acc * 10 + (c - 48)) s t

all_digits-append :
    (s t : Bytes) → all_digits s ≡ true → all_digits t ≡ true → all_digits (s ++ t) ≡ true
all_digits-append [] t h k = k
all_digits-append (c ∷ s) t h k = ground (arith, all_digits-append s t)

value-digits : (f n : ℕ) → n < f → value 0 (digits f n) ≡ n
unfolding digits value
value-digits zero n h = absurd (omega arith)
value-digits (suc f) n h = elim (Bool-cases (ltb n 10)) [
  | inl small ↦ rw small (omega arith)
  | inr big ↦
      rw
        (
          big,
          value-append 0 (digits f (n / 10)) ((48 + n % 10) ∷ []),
          value-digits f (n / 10) (ground arith),
        )
        (ground arith)
]

digits-all_digits : (f n : ℕ) → all_digits (digits f n) ≡ true
unfolding digits
digits-all_digits zero n = refl
digits-all_digits (suc f) n = elim (Bool-cases (ltb n 10)) [
  | inl small ↦ rw small (ground arith)
  | inr big ↦
      rw big (all_digits-append (digits f (n / 10)) _ (digits-all_digits f (n / 10)) (ground arith))
]

snoc-ne-nil : (s : Bytes) (c : ℕ) → s ++ c ∷ [] ≢ []
snoc-ne-nil [] c e = cc
snoc-ne-nil (d ∷ s) c e = cc

digits-ne-nil : (f n : ℕ) → digits (suc f) n ≢ []
unfolding digits
digits-ne-nil f n = elim (Bool-cases (ltb n 10)) [
  | inl small ↦ rw small (snoc-ne-nil [] (48 + n))
  | inr big ↦ rw big (snoc-ne-nil (digits f (n / 10)) (48 + n % 10))
]

pub itoa_nat-all_digits : (n : ℕ) → all_digits (itoa_nat n) ≡ true
unfolding itoa_nat
itoa_nat-all_digits n = digits-all_digits (suc n) n

pub itoa_nat-ne-nil : (n : ℕ) → itoa_nat n ≢ []
unfolding itoa_nat
itoa_nat-ne-nil n = digits-ne-nil n n

value-itoa_nat : (n : ℕ) → value 0 (itoa_nat n) ≡ n
unfolding itoa_nat
value-itoa_nat n = value-digits (suc n) n (omega arith)

-- On digits alone `Atoi` returns their value, if that fits an int.
pub atoi_digits :
    (s : Bytes)
    → s ≢ []
    → all_digits s ≡ true
    → atoi s ≡ positive (at_most 9223372036854775807 (some (value 0 s)))
unfolding atoi
atoi_digits [] h d = absurd (h refl)
atoi_digits (c ∷ s) h d = ground arith

-- Printing a number that fits an int and parsing the digits gives it back.
pub atoi-itoa_nat : (n : ℕ) → n < 9223372036854775808 → atoi (itoa_nat n) ≡ some (pos n)
atoi-itoa_nat n h =
    atoi_digits (itoa_nat n) (itoa_nat-ne-nil n) (itoa_nat-all_digits n)
    ∙ rw (value-itoa_nat n) (ground arith)

pub itoa_nat-injective : (m n : ℕ) → itoa_nat m ≡ itoa_nat n → m ≡ n
itoa_nat-injective m n e = sym (value-itoa_nat m) ∙ ap (value 0) e ∙ value-itoa_nat n
