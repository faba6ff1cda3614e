-- ===== src/Prelude/Lists.antt =====
-- Lists measured and indexed by native numbers, and predicates and tests on lists.
use Prim.Native.Nat.{ℕ, zero, suc, ◌+◌, ◌≤◌, ◌<◌, min}
use mathlib.Core.Path.{◌≡◌, refl, ap, sym, subst, ◌∙◌}
use mathlib.Core.Logic.{inl, inr}
use mathlib.Core.Bool.{Bool, true, false}
use mathlib.Core.List.{List, [], ◌∷◌, ◌++◌, Permᴰ}
use mathlib.Core.List.Permᴰ
use mathlib.Core.Option.{Option, none, some}
use native.Mathlib.Omega.{arith}
use edge_sched.Prelude.Tests.{if◌then◌else◌, Bool-cases}

module _ {ℓ} {A : Type ℓ} where
  abbrev pub length : List A → ℕ
  length [] = 0
  length (x ∷ xs) = suc (length xs)

  abbrev pub get_elem? : List A → ℕ → Option A
  get_elem? [] i = none
  get_elem? (x ∷ xs) zero = some x
  get_elem? (x ∷ xs) (suc i) = get_elem? xs i

  -- A write out of bounds changes nothing.
  abbrev pub set : List A → ℕ → A → List A
  set [] i v = []
  set (x ∷ xs) zero v = v ∷ xs
  set (x ∷ xs) (suc i) v = x ∷ set xs i v

  abbrev pub take : ℕ → List A → List A
  take zero xs = []
  take (suc n) [] = []
  take (suc n) (x ∷ xs) = x ∷ take n xs

  abbrev pub replicate : ℕ → A → List A
  replicate zero a = []
  replicate (suc n) a = a ∷ replicate n a

  -- The elements that pass a Boolean test, in order.
  abbrev pub keep : (A → Bool) → List A → List A
  keep p [] = []
  keep p (x ∷ xs) = if p x then x ∷ keep p xs else keep p xs

  abbrev pub count_if : (A → Bool) → List A → ℕ
  count_if p [] = 0
  count_if p (x ∷ xs) = (if p x then 1 else 0) + count_if p xs

  abbrev pub any : (A → Bool) → List A → Bool
  any p [] = false
  any p (x ∷ xs) = if p x then true else any p xs

  pub length-append : (xs ys : List A) → length (xs ++ ys) ≡ length xs + length ys
  length-append [] ys = omega arith
  length-append (x ∷ xs) ys = omega (arith, length-append xs ys)

  pub length-set : (xs : List A) (i : ℕ) (v : A) → length (set xs i v) ≡ length xs
  length-set [] i v = refl
  length-set (x ∷ xs) zero v = refl
  length-set (x ∷ xs) (suc i) v = ap suc (length-set xs i v)

  pub length-take : (n : ℕ) (xs : List A) → length (take n xs) ≡ min n (length xs)
  length-take zero xs = omega arith
  length-take (suc n) [] = omega arith
  length-take (suc n) (x ∷ xs) = omega (arith, length-take n xs)

  pub length-replicate : (n : ℕ) (a : A) → length (replicate n a) ≡ n
  length-replicate zero a = refl
  length-replicate (suc n) a = ap suc (length-replicate n a)

  pub length-keep-le : (p : A → Bool) (xs : List A) → length (keep p xs) ≤ length xs
  length-keep-le p [] = omega arith
  length-keep-le p (x ∷ xs) = ground (arith, length-keep-le p xs)

  -- An index within the list has an element.
  pub get_elem?-total : (xs : List A) (i : ℕ) → i < length xs → (a : A) × (get_elem? xs i ≡ some a)
  get_elem?-total [] i h = absurd (omega arith)
  get_elem?-total (x ∷ xs) zero h = (x, refl)
  get_elem?-total (x ∷ xs) (suc i) h = get_elem?-total xs i (omega arith)

module _ {ℓ κ} {A : Type ℓ} where
  abbrev pub All : (A → Type κ) → List A → Type κ
  All P [] = Unit
  All P (x ∷ xs) = P x × All P xs

  pub All-append : (P : A → Type κ) (xs ys : List A) → All P xs → All P ys → All P (xs ++ ys)
  All-append P [] ys h k = k
  All-append P (x ∷ xs) ys (p, h) k = (p, All-append P xs ys h k)

  pub All-get_elem? :
      (P : A → Type κ) (xs : List A) (i : ℕ) (a : A) → All P xs → get_elem? xs i ≡ some a → P a
  All-get_elem? P [] i a h e = absurd (cc)
  All-get_elem? P (x ∷ xs) zero a (p, h) e = rw (← some_inj e) p
    where
      some_inj : {x y : A} → some x ≡ some y → x ≡ y
      some_inj q = cc
  All-get_elem? P (x ∷ xs) (suc i) a (p, h) e = All-get_elem? P xs i a h e

-- The elements of a list, with the place where each stands.
pub data In {ℓ} {A : Type ℓ} (a : A) : List A → Type ℓ where
  here : {x : A} {xs : List A} → a ≡ x → In a (x ∷ xs)
  there : {x : A} {xs : List A} → In a xs → In a (x ∷ xs)

module _ {ℓ} {A : Type ℓ} where
  pub In-get_elem? : (xs : List A) (i : ℕ) (a : A) → get_elem? xs i ≡ some a → In a xs
  In-get_elem? [] i a e = absurd (cc)
  In-get_elem? (x ∷ xs) zero a e = here (cc)
  In-get_elem? (x ∷ xs) (suc i) a e = there (In-get_elem? xs i a e)

  kept_cons :
      (p : A → Bool) (x : A) (xs ys : List A) {a : A}
      → p x ≡ true
      → (In a ys → In a xs × (p a ≡ true))
      → In a (x ∷ ys)
      → In a (x ∷ xs) × (p a ≡ true)
  kept_cons p x xs ys e rest (here same) = (here same, rw same e)
  kept_cons p x xs ys e rest (there j) = let (k, q) = rest j in (there k, q)

  -- An element that is kept passed the test and stood in the list.
  pub In-keep : (p : A → Bool) (xs : List A) {a : A} → In a (keep p xs) → In a xs × (p a ≡ true)
  In-keep p [] i = elim i [ ]
  In-keep p (x ∷ xs) i = elim (Bool-cases (p x)) [
    | inl accepted ↦ kept_cons p x xs (keep p xs) accepted (In-keep p xs) (rw accepted at i)
    | inr refused ↦ let (j, e) = In-keep p xs (rw refused at i) in (there j, e)
  ]

  pub keep-In : (p : A → Bool) (xs : List A) {a : A} → In a xs → p a ≡ true → In a (keep p xs)
  keep-In p [] i e = elim i [ ]
  keep-In p (x ∷ xs) (here same) e = rw (rw same at e) (here same)
  keep-In p (x ∷ xs) (there j) e = elim (Bool-cases (p x)) [
    | inl accepted ↦ rw accepted (there (keep-In p xs j e))
    | inr refused ↦ rw refused (keep-In p xs j e)
  ]

  pub In-All {κ} : (P : A → Type κ) (xs : List A) {a : A} → All P xs → In a xs → P a
  In-All P [] h j = elim j [ ]
  In-All P (x ∷ xs) (p, h) (here e) = subst P (sym e) p
  In-All P (x ∷ xs) (p, h) (there j) = In-All P xs h j

  pub All-of_In {κ} : (P : A → Type κ) (xs : List A) → ((a : A) → In a xs → P a) → All P xs
  All-of_In P [] h = tt
  All-of_In P (x ∷ xs) h = (h x (here refl), All-of_In P xs (λ a j. h a (there j)))

  pub Permᴰ-In : {a : A} {xs ys : List A} → Permᴰ xs ys → In a xs → In a ys
  Permᴰ-In (Permᴰ.cons e p) (here q) = here (q ∙ e)
  Permᴰ-In (Permᴰ.cons e p) (there j) = there (Permᴰ-In p j)
  Permᴰ-In (Permᴰ.swap e f) (here q) = there (here (q ∙ e))
  Permᴰ-In (Permᴰ.swap e f) (there (here q)) = here (q ∙ f)
  Permᴰ-In (Permᴰ.swap e f) (there (there j)) = there (there j)
  Permᴰ-In (Permᴰ.trans p q) j = Permᴰ-In q (Permᴰ-In p j)
  Permᴰ-In Permᴰ.nil j = elim j [ ]

  pub Permᴰ-All {κ} : (P : A → Type κ) {xs ys : List A} → Permᴰ xs ys → All P xs → All P ys
  Permᴰ-All P p h = All-of_In P _ (λ a j. In-All P _ h (Permᴰ-In (Permᴰ.symm p) j))

  pub Permᴰ-keep : (p : A → Bool) {xs ys : List A} → Permᴰ xs ys → Permᴰ (keep p xs) (keep p ys)
  Permᴰ-keep p Permᴰ.nil = Permᴰ.nil
  Permᴰ-keep p (Permᴰ.cons {a = a} {b = b} {l₁ = l} {l₂ = m} e q) =
      subst (λ c. Permᴰ (keep p (a ∷ l)) (keep p (c ∷ m))) e (go (p a) (Permᴰ-keep p q))
    where
      go :
          (t : Bool)
          → Permᴰ (keep p l) (keep p m)
          → Permᴰ (if t then a ∷ keep p l else keep p l) (if t then a ∷ keep p m else keep p m)
      go true r = Permᴰ.cons refl r
      go false r = r
  Permᴰ-keep p (Permᴰ.swap {a = a} {b = b} {a' = a'} {b' = b'} {l = l} e f) =
      subst (λ c. Permᴰ (keep p (a ∷ b ∷ l)) (keep p (a' ∷ c ∷ l))) e
        (subst (λ c. Permᴰ (keep p (a ∷ b ∷ l)) (keep p (c ∷ a ∷ l))) f (go (p a) (p b)))
    where
      go :
          (t u : Bool)
          → Permᴰ
              (if t
                then a ∷ (if u then b ∷ keep p l else keep p l)
                else (if u then b ∷ keep p l else keep p l))
              (if u
                then b ∷ (if t then a ∷ keep p l else keep p l)
                else (if t then a ∷ keep p l else keep p l))
      go true true = Permᴰ.swap refl refl
      go true false = Permᴰ.refl _
      go false true = Permᴰ.refl _
      go false false = Permᴰ.refl _
  Permᴰ-keep p (Permᴰ.trans q r) = Permᴰ.trans (Permᴰ-keep p q) (Permᴰ-keep p r)

  pub Permᴰ-length : {xs ys : List A} → Permᴰ xs ys → length xs ≡ length ys
  Permᴰ-length Permᴰ.nil = refl
  Permᴰ-length (Permᴰ.cons e p) = ap suc (Permᴰ-length p)
  Permᴰ-length (Permᴰ.swap e f) = refl
  Permᴰ-length (Permᴰ.trans p q) = Permᴰ-length p ∙ Permᴰ-length q
