-- ===== src/Prelude/Sort.antt =====
-- `sort.Slice` and `sort.Strings`: a sort by a string key. The library promises no stability; with
-- distinct keys there is one sorted order, so that this does not show.
use mathlib.Core.Path.{◌≡◌, refl, sym, ap, subst, ◌∙◌}
use mathlib.Core.Logic.{◌≢◌, inl, inr}
use mathlib.Core.Bool.{Bool, false}
use mathlib.Core.List.{List, [], ◌∷◌, Permᴰ}
use mathlib.Core.List.Permᴰ
use native.Mathlib.Omega.{arith}
use edge_sched.Prelude.Tests.{if◌then◌else◌, Bool-cases}
use edge_sched.Prelude.Lists.{All, All-of_In, In-All, In-keep, keep, Permᴰ-All}
use edge_sched.Prelude.Bytes.{Bytes, str_lt, str_lt_irrefl, str_lt_trans, str_lt_antisym}

module _ {A : Type 0} (key : A → Bytes) where
  unfoldable pub insert_by : A → List A → List A
  insert_by x [] = x ∷ []
  insert_by x (y ∷ ys) = if str_lt (key y) (key x) then y ∷ insert_by x ys else x ∷ y ∷ ys

  unfoldable pub sort_by : List A → List A
  unfolding insert_by
  sort_by [] = []
  sort_by (x ∷ xs) = insert_by x (sort_by xs)

  -- No key precedes the one before it.
  abbrev pub IsSortedBy : List A → Type 0
  IsSortedBy [] = Unit
  IsSortedBy (x ∷ xs) = All (λ y. str_lt (key y) (key x) ≡ false) xs × IsSortedBy xs

  -- The keys are pairwise distinct.
  abbrev pub DistinctBy : List A → Type 0
  DistinctBy [] = Unit
  DistinctBy (x ∷ xs) = All (λ y. key x ≢ key y) xs × DistinctBy xs

  insert_by_comm :
      (x y : A) (zs : List A)
      → key x ≢ key y
      → insert_by x (insert_by y zs) ≡ insert_by y (insert_by x zs)
  unfolding insert_by
  insert_by_comm x y [] h = ground (
    arith,
    str_lt_antisym (key x) (key y),
    str_lt_trans (key x) (key y) (key x),
    str_lt_irrefl (key x),
  )
  insert_by_comm x y (z ∷ zs) h = ground (
    arith,
    str_lt_antisym (key x) (key y),
    str_lt_trans (key x) (key y) (key x),
    str_lt_irrefl (key x),
    str_lt_trans (key z) (key y) (key x),
    str_lt_trans (key z) (key x) (key y),
    insert_by_comm x y zs h,
    str_lt_antisym (key z) (key y),
    str_lt_antisym (key z) (key x),
  )

  pub Permᴰ-DistinctBy : {xs ys : List A} → Permᴰ xs ys → DistinctBy xs → DistinctBy ys
  Permᴰ-DistinctBy Permᴰ.nil d = tt
  Permᴰ-DistinctBy (Permᴰ.cons {l₂ = l} e p) (h, d) = (
    subst (λ b. All (λ y. key b ≢ key y) l) e (Permᴰ-All (λ y. key _ ≢ key y) p h),
    Permᴰ-DistinctBy p d,
  )
  Permᴰ-DistinctBy (Permᴰ.swap {l = l} e f) ((n, h), (k, d)) = (
    (λ q. n (ap key e ∙ sym q ∙ sym (ap key f)), subst (λ b. All (λ y. key b ≢ key y) l) f k),
    (subst (λ b. All (λ y. key b ≢ key y) l) e h, d),
  )
  Permᴰ-DistinctBy (Permᴰ.trans p q) d = Permᴰ-DistinctBy q (Permᴰ-DistinctBy p d)

  pub sort_by-perm_eq : {xs ys : List A} → Permᴰ xs ys → DistinctBy xs → sort_by xs ≡ sort_by ys
  unfolding sort_by
  sort_by-perm_eq Permᴰ.nil d = refl
  sort_by-perm_eq (Permᴰ.cons e p) (h, d) = rw (e, sort_by-perm_eq p d)
  sort_by-perm_eq (Permᴰ.swap {a = a} {b = b} {l = l} e f) ((n, h), (k, d)) =
      rw (← e, ← f) (insert_by_comm a b (sort_by l) n)
  sort_by-perm_eq (Permᴰ.trans p q) d =
      sort_by-perm_eq p d ∙ sort_by-perm_eq q (Permᴰ-DistinctBy p d)

  insert_by-perm : (x : A) (xs : List A) → Permᴰ (insert_by x xs) (x ∷ xs)
  unfolding insert_by
  insert_by-perm x [] = Permᴰ.refl _
  insert_by-perm x (y ∷ ys) = elim (Bool-cases (str_lt (key y) (key x))) [
    | inl lt ↦ rw lt (Permᴰ.trans (Permᴰ.cons refl (insert_by-perm x ys)) (Permᴰ.swap refl refl))
    | inr ge ↦ rw ge (Permᴰ.refl _)
  ]

  -- Sorting keeps every element, as often.
  pub sort_by-perm : (xs : List A) → Permᴰ (sort_by xs) xs
  unfolding sort_by
  sort_by-perm [] = Permᴰ.nil
  sort_by-perm (x ∷ xs) =
      Permᴰ.trans (insert_by-perm x (sort_by xs)) (Permᴰ.cons refl (sort_by-perm xs))

  above_trans :
      (x y : A) (zs : List A)
      → str_lt (key y) (key x) ≡ false
      → All (λ z. str_lt (key z) (key y) ≡ false) zs
      → All (λ z. str_lt (key z) (key x) ≡ false) zs
  above_trans x y [] h a = tt
  above_trans x y (z ∷ zs) h (b, a) = (
    ground (
      arith,
      str_lt_antisym (key y) (key x),
      str_lt_trans (key z) (key x) (key y),
      Bool-cases (str_lt (key x) (key y)),
    ),
    above_trans x y zs h a,
  )

  insert_by-IsSortedBy : (x : A) (xs : List A) → IsSortedBy xs → IsSortedBy (insert_by x xs)
  unfolding insert_by
  insert_by-IsSortedBy x [] s = (tt, tt)
  insert_by-IsSortedBy x (y ∷ ys) (h, s) = elim (Bool-cases (str_lt (key y) (key x))) [
    | inl lt ↦ rw lt (
      Permᴰ-All _ (Permᴰ.symm (insert_by-perm x ys))
          (ground (arith, str_lt_trans (key x) (key y) (key x), str_lt_irrefl (key x)), h),
      insert_by-IsSortedBy x ys s,
    )
    | inr ge ↦ rw ge ((ge, above_trans x y ys ge h), (h, s))
  ]

  pub sort_by-IsSortedBy : (xs : List A) → IsSortedBy (sort_by xs)
  unfolding sort_by
  sort_by-IsSortedBy [] = tt
  sort_by-IsSortedBy (x ∷ xs) = insert_by-IsSortedBy x (sort_by xs) (sort_by-IsSortedBy xs)

  keep-All : (P : A → Type 0) (p : A → Bool) (xs : List A) → All P xs → All P (keep p xs)
  keep-All P p xs h = All-of_In P _ (λ a j. In-All P xs h (In-keep p xs j).0)

  pub keep-DistinctBy : (p : A → Bool) (xs : List A) → DistinctBy xs → DistinctBy (keep p xs)
  keep-DistinctBy p [] d = tt
  keep-DistinctBy p (x ∷ xs) (h, d) = elim (Bool-cases (p x)) [
    | inl accepted ↦ rw accepted (keep-All _ p xs h, keep-DistinctBy p xs d)
    | inr refused ↦ rw refused (keep-DistinctBy p xs d)
  ]
