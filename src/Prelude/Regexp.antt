-- ===== src/Prelude/Regexp.antt =====
-- The regular expressions of the program. In each of them what follows a repetition cannot be part
-- of it, so that the greedy match is the only one from a given start.
use Prim.Native.Nat.{ℕ, zero, suc, ◌≤◌, ◌<◌}
use mathlib.Core.Path.{◌≡◌, refl, ap}
use mathlib.Core.Logic.{◌≢◌, inl, inr}
use mathlib.Core.Bool.{Bool, true, false, ◌&&◌, ◌||◌}
use mathlib.Core.Option.{Option, none, some}
use mathlib.Core.List.{List, [], ◌∷◌, ◌++◌}
use native.Mathlib.Omega.{arith}
use edge_sched.Prelude.Tests.{leb, ◌==◌, if◌then◌else◌, Bool-cases, true_not_false, Option-cases}
use edge_sched.Prelude.Lists.{length, In, here, there}
use edge_sched.Prelude.Bytes.{Bytes}
use edge_sched.Prelude.Decimal.{is_digit}

-- `\w`, `[\d.]`, `\s`
abbrev pub is_word : ℕ → Bool
is_word c = is_digit c || leb b'A' c && leb c b'Z' || leb b'a' c && leb c b'z' || c == b'_'

abbrev pub is_decimal : ℕ → Bool
is_decimal c = is_digit c || c == b'.'

abbrev pub is_space : ℕ → Bool
is_space c = c == 32 || c == 9 || c == 10 || c == 12 || c == 13

-- What follows a literal.
unfoldable pub strip_prefix : Bytes → Bytes → Option Bytes
strip_prefix [] s = some s
strip_prefix (p ∷ ps) [] = none
strip_prefix (p ∷ ps) (c ∷ s) = if c == p then strip_prefix ps s else none

abbrev pub push_front : ℕ → Bytes × Bytes → Bytes × Bytes
push_front c (s, rest) = (c ∷ s, rest)

-- `p*`, and what follows.
unfoldable pub run_of : (ℕ → Bool) → Bytes → Bytes × Bytes
run_of p [] = ([], [])
run_of p (c ∷ s) = if p c then push_front c (run_of p s) else ([], c ∷ s)

-- `p+`
abbrev pub not_empty : Bytes × Bytes → Option (Bytes × Bytes)
not_empty ([], rest) = none
not_empty (c ∷ s, rest) = some (c ∷ s, rest)

unfoldable pub some_run : (ℕ → Bool) → Bytes → Option (Bytes × Bytes)
unfolding run_of
some_run p s = not_empty (run_of p s)

module _ {A : Type 0} (at : Bytes → Option (A × Bytes)) where
  -- `FindStringSubmatch`: the match with the leftmost start.
  unfoldable pub find_first : Bytes → Option A
  find_first [] = elim (at []) [ some (a, rest) ↦ some a | none ↦ none ]
  find_first (c ∷ s) = elim (at (c ∷ s)) [ some (a, rest) ↦ some a | none ↦ find_first s ]

  -- `FindAllStringSubmatch`: the matches that do not overlap, from the left. No expression here
  -- matches the empty text. Each round consumes a byte at least and one unit of fuel.
  unfoldable pub find_all_from : ℕ → Bytes → List A
  find_all_from zero s = []
  find_all_from (suc f) [] = []
  find_all_from (suc f) (c ∷ s) = elim (at (c ∷ s)) [
    | some (a, rest) ↦ a ∷ find_all_from f rest
    | none ↦ find_all_from f s
  ]

  unfoldable pub find_all : Bytes → List A
  unfolding find_all_from
  find_all s = find_all_from (length s) s

pub strip_prefix-append : (p s : Bytes) → strip_prefix p (p ++ s) ≡ some s
unfolding strip_prefix
strip_prefix-append [] s = refl
strip_prefix-append (c ∷ p) s = ground (arith, strip_prefix-append p s)

abbrev pub all_in : (ℕ → Bool) → Bytes → Bool
all_in p [] = true
all_in p (c ∷ s) = if p c then all_in p s else false

-- A run ends at the first byte that is not of its class.
pub run_of-append :
    (p : ℕ → Bool) (s : Bytes) (c : ℕ) (t : Bytes)
    → all_in p s ≡ true
    → p c ≡ false
    → run_of p (s ++ c ∷ t) ≡ (s, c ∷ t)
unfolding run_of
run_of-append p [] c t h k = rw k
run_of-append p (d ∷ s) c t h k = elim (Bool-cases (p d)) [
  | inl ok ↦ rw (ok, run_of-append p s c t (rw ok at h) k)
  | inr bad ↦ absurd (true_not_false h (rw bad))
]

pub some_run-append :
    (p : ℕ → Bool) (s : Bytes) (c : ℕ) (t : Bytes)
    → s ≢ []
    → all_in p s ≡ true
    → p c ≡ false
    → some_run p (s ++ c ∷ t) ≡ some (s, c ∷ t)
unfolding some_run
some_run-append p [] c t n h k = absurd (n refl)
some_run-append p (d ∷ s) c t n h k = rw (run_of-append p (d ∷ s) c t h k)

module _ {A : Type 0} (at : Bytes → Option (A × Bytes)) where
  -- Where no match starts in the text before it, the first match is the one given.
  pub find_first-append :
      (pre s : Bytes) (a : A) (rest : Bytes)
      → s ≢ []
      → at s ≡ some (a, rest)
      → ((c : ℕ) (t : Bytes) → In c pre → at (c ∷ t) ≡ none)
      → find_first at (pre ++ s) ≡ some a
  unfolding find_first
  find_first-append [] [] a rest n e h = absurd (n refl)
  find_first-append [] (c ∷ s) a rest n e h = rw e
  find_first-append (c ∷ pre) s a rest n e h =
      rw (h c (pre ++ s) (here refl))
        (find_first-append pre s a rest n e (λ d t j. h d t (there j)))

  -- Every match takes a byte at least. Then fuel as long as the text is enough: more of it changes
  -- nothing.
  pub find_all_from-enough :
      (f g : ℕ) (s : Bytes)
      → ((u : Bytes) (a : A) (rest : Bytes) → at u ≡ some (a, rest) → length rest < length u)
      → length s ≤ f
      → length s ≤ g
      → find_all_from at f s ≡ find_all_from at g s
  unfolding find_all_from
  find_all_from-enough zero zero s h k l = refl
  find_all_from-enough zero (suc g) [] h k l = refl
  find_all_from-enough zero (suc g) (c ∷ s) h k l = absurd (omega arith)
  find_all_from-enough (suc f) zero [] h k l = refl
  find_all_from-enough (suc f) zero (c ∷ s) h k l = absurd (omega arith)
  find_all_from-enough (suc f) (suc g) [] h k l = refl
  find_all_from-enough (suc f) (suc g) (c ∷ s) h k l = elim (Option-cases (at (c ∷ s))) [
    | inl e ↦ rw (e, find_all_from) (find_all_from-enough f g s h (omega arith) (omega arith))
    | inr ((a, rest), e) ↦
        let less = h (c ∷ s) a rest e in
        rw (e, find_all_from)
          (ap (◌∷◌ a) (find_all_from-enough f g rest h (omega arith) (omega arith)))
  ]

infixl 5 ◌>>=◌
abbrev pub ◌>>=◌ {ℓ κ} : {A : Type ℓ} {B : Type κ} → Option A → (A → Option B) → Option B
none >>= k = none
some a >>= k = k a
