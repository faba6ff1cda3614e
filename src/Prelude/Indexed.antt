-- ===== src/Prelude/Indexed.antt =====
-- Reading a list at an index after a write, and what holds of all elements.
use Prim.Native.Nat.{ℕ, zero, suc, ◌+◌, ◌<◌}
use mathlib.Core.Path.{◌≡◌, refl, sym, ◌∙◌, subst}
use mathlib.Core.Logic.{inl, inr}
use mathlib.Core.List.{List, [], ◌∷◌, ◌++◌}
use mathlib.Core.Option.{Option, none, some}
use native.Mathlib.Omega.{arith}
use edge_sched.Prelude.Tests.{◌==◌, ==_iff, if◌then◌else◌, Bool-cases, some_inj}
use edge_sched.Prelude.Lists.{length, get_elem?, set, All}

module _ {A : Type 0} where
  pub get_elem?-snoc :
      (xs : List A) (a : A) (i : ℕ)
      → get_elem? (xs ++ a ∷ []) i ≡ (if length xs == i then some a else get_elem? xs i)
  get_elem?-snoc [] a zero = refl
  get_elem?-snoc [] a (suc i) = ground arith
  get_elem?-snoc (x ∷ xs) a zero = ground arith
  get_elem?-snoc (x ∷ xs) a (suc i) = ground (arith, get_elem?-snoc xs a i)

  pub get_elem?-set :
      (xs : List A) (i : ℕ) (old a : A) (j : ℕ)
      → get_elem? xs i ≡ some old
      → get_elem? (set xs i a) j ≡ (if i == j then some a else get_elem? xs j)
  get_elem?-set [] i old a j e = absurd (cc)
  get_elem?-set (x ∷ xs) zero old a zero e = refl
  get_elem?-set (x ∷ xs) zero old a (suc j) e = ground arith
  get_elem?-set (x ∷ xs) (suc i) old a zero e = ground arith
  get_elem?-set (x ∷ xs) (suc i) old a (suc j) e = ground (arith, get_elem?-set xs i old a j e)

  pub get_elem?-length : (xs : List A) → get_elem? xs (length xs) ≡ none
  get_elem?-length [] = refl
  get_elem?-length (x ∷ xs) = get_elem?-length xs

  pub get_elem?-lt : (xs : List A) (i : ℕ) (a : A) → get_elem? xs i ≡ some a → i < length xs
  get_elem?-lt [] i a e = absurd (cc)
  get_elem?-lt (x ∷ xs) zero a e = omega arith
  get_elem?-lt (x ∷ xs) (suc i) a e = omega (arith, get_elem?-lt xs i a e)

  pub All-of_get_elem? :
      (P : A → Type 0) (xs : List A) → ((i : ℕ) (a : A) → get_elem? xs i ≡ some a → P a) → All P xs
  All-of_get_elem? P [] h = tt
  All-of_get_elem? P (x ∷ xs) h = (h 0 x refl, All-of_get_elem? P xs (λ i a e. h (suc i) a e))

  pub All-later : {P Q : A → Type 0} → ((a : A) → P a → Q a) → (xs : List A) → All P xs → All Q xs
  All-later f [] h = tt
  All-later f (x ∷ xs) (h, hs) = (f x h, All-later f xs hs)

  pub All-set : (P : A → Type 0) (xs : List A) (i : ℕ) (a : A) → All P xs → P a → All P (set xs i a)
  All-set P [] i a h k = tt
  All-set P (x ∷ xs) zero a (h, hs) k = (k, hs)
  All-set P (x ∷ xs) (suc i) a (h, hs) k = (h, All-set P xs i a hs k)

  -- What a weight of the element at an index becomes.
  module _ (w : Option A → ℕ) (nothing : w none ≡ 0) where
    pub weight-snoc :
        (xs : List A) (a : A) (i : ℕ)
        → w (get_elem? (xs ++ a ∷ []) i)
          ≡ w (get_elem? xs i) + (if length xs == i then w (some a) else 0)
    weight-snoc [] a zero = ground (arith, nothing)
    weight-snoc [] a (suc i) = ground (arith, nothing)
    weight-snoc (x ∷ xs) a zero = ground arith
    weight-snoc (x ∷ xs) a (suc i) = ground (arith, weight-snoc xs a i)

    pub weight-set :
        (xs : List A) (i : ℕ) (old a : A) (j : ℕ)
        → get_elem? xs i ≡ some old
        → w (get_elem? (set xs i a) j) + (if i == j then w (some old) else 0)
          ≡ w (get_elem? xs j) + (if i == j then w (some a) else 0)
    weight-set [] i old a j e = absurd (cc)
    weight-set (x ∷ xs) zero old a zero e = ground arith
    weight-set (x ∷ xs) zero old a (suc j) e = ground arith
    weight-set (x ∷ xs) (suc i) old a zero e = ground arith
    weight-set (x ∷ xs) (suc i) old a (suc j) e = ground (arith, weight-set xs i old a j e)

  -- A property of every index and its element.
  module _ (P : ℕ → A → Type 0) where
    abbrev pub Everywhere : List A → Type 0
    Everywhere xs = (i : ℕ) (a : A) → get_elem? xs i ≡ some a → P i a

    pub Everywhere-snoc :
        (xs : List A) (a : A) → Everywhere xs → P (length xs) a → Everywhere (xs ++ a ∷ [])
    Everywhere-snoc xs a h p i b e = elim (Bool-cases (length xs == i)) [
      | inl new ↦
          let f : some a ≡ some b = rw new at (sym (get_elem?-snoc xs a i) ∙ e) in
          subst (λ j. P j b) ((==_iff _ _).0 new) (subst (P (length xs)) (some_inj f) p)
      | inr old ↦
          let f : get_elem? xs i ≡ some b = rw old at (sym (get_elem?-snoc xs a i) ∙ e) in h i b f
    ]

    pub Everywhere-set :
        (xs : List A) (j : ℕ) (old a : A)
        → get_elem? xs j ≡ some old
        → Everywhere xs
        → P j a
        → Everywhere (set xs j a)
    Everywhere-set xs j old a at h p i b e = elim (Bool-cases (j == i)) [
      | inl here ↦
          let f : some a ≡ some b = rw here at (sym (get_elem?-set xs j old a i at) ∙ e) in
          subst (λ n. P n b) ((==_iff _ _).0 here) (subst (P j) (some_inj f) p)
      | inr other ↦
          let f : get_elem? xs i ≡ some b = rw other at (sym (get_elem?-set xs j old a i at) ∙ e) in
          h i b f
    ]
