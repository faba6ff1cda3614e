-- ===== src/Loadgen/Ascending.antt =====
-- scheduler/cmd/loadgen/main.go: the sorted latencies.
use mathlib.Core.List.{Permᴰ}
use mathlib.Core.List.Permᴰ
use edge_sched.Prelude.{
  ℕ, zero, suc, ◌≤◌, ◌≡◌, refl, sym, ◌∙◌, true, false, Bool-cases, inl, inr, List, [], ◌∷◌, some,
  some_inj, All, All-get_elem?, Permᴰ-All, get_elem?, arith,
}
use edge_sched.Prelude.Floats.{Floats, IsIeee}
use edge_sched.Loadgen.Latency.{less, insert, float64s}

module _ (fl : Floats) where
  insert-perm : (x : fl.F) (xs : List fl.F) → Permᴰ (insert fl x xs) (x ∷ xs)
  unfolding insert
  insert-perm x [] = Permᴰ.refl _
  insert-perm x (y ∷ ys) = elim (Bool-cases (less fl y x)) [
    | inl lt ↦ rw lt (Permᴰ.trans (Permᴰ.cons refl (insert-perm x ys)) (Permᴰ.swap refl refl))
    | inr ge ↦ rw ge (Permᴰ.refl _)
  ]

  pub float64s-perm : (xs : List fl.F) → Permᴰ (float64s fl xs) xs
  unfolding float64s
  float64s-perm [] = Permᴰ.nil
  float64s-perm (x ∷ xs) =
      Permᴰ.trans (insert-perm x (float64s fl xs)) (Permᴰ.cons refl (float64s-perm xs))

  abbrev pub IsAscending : List fl.F → Type 0
  IsAscending [] = Unit
  IsAscending (x ∷ xs) = All (λ y. less fl y x ≡ false) xs × IsAscending xs

  module _ (ieee : IsIeee fl) where
    less_asym : (a b : fl.F) → less fl a b ≡ true → less fl b a ≡ false
    less_asym a b h = ground (
      arith,
      ieee.lt_trans a b a,
      ieee.lt_irrefl a,
      ieee.lt-not_nan a b,
      ieee.lt-not_nan b a,
      Bool-cases (fl.lt a b),
      Bool-cases (fl.lt b a),
      h,
    )

    -- What is not below `y`, which is not below `x`, is not below `x`.
    less_weak : (x y z : fl.F) → less fl y x ≡ false → less fl z y ≡ false → less fl z x ≡ false
    less_weak x y z h k = ground (
      arith,
      ieee.lt_weak z y x,
      ieee.lt-not_nan z x,
      Bool-cases (fl.lt z x),
      Bool-cases (fl.lt z y),
      Bool-cases (fl.lt y x),
      Bool-cases (fl.is_nan x),
      Bool-cases (fl.is_nan y),
      Bool-cases (fl.is_nan z),
      h,
      k,
    )

    not_less :
        (x y : fl.F) (zs : List fl.F)
        → less fl y x ≡ false
        → All (λ z. less fl z y ≡ false) zs
        → All (λ z. less fl z x ≡ false) zs
    not_less x y [] h a = tt
    not_less x y (z ∷ zs) h (b, a) = (less_weak x y z h b, not_less x y zs h a)

    insert-IsAscending : (x : fl.F) (xs : List fl.F) → IsAscending xs → IsAscending (insert fl x xs)
    unfolding insert
    insert-IsAscending x [] s = (tt, tt)
    insert-IsAscending x (y ∷ ys) (h, s) = elim (Bool-cases (less fl y x)) [
      | inl lt ↦ rw lt (
        Permᴰ-All (λ z. less fl z y ≡ false) (Permᴰ.symm (insert-perm x ys)) (less_asym y x lt, h),
        insert-IsAscending x ys s,
      )
      | inr ge ↦ rw ge ((ge, not_less x y ys ge h), (h, s))
    ]

    pub float64s-IsAscending : (xs : List fl.F) → IsAscending (float64s fl xs)
    unfolding float64s
    float64s-IsAscending [] = tt
    float64s-IsAscending (x ∷ xs) = insert-IsAscending x (float64s fl xs) (float64s-IsAscending xs)

    -- An earlier element is not above a later one.
    pub get_elem?-IsAscending :
        (xs : List fl.F) (i j : ℕ) (a b : fl.F)
        → IsAscending xs
        → i ≤ j
        → get_elem? xs i ≡ some a
        → get_elem? xs j ≡ some b
        → less fl b a ≡ false
    get_elem?-IsAscending [] i j a b s h e f = absurd (cc)
    get_elem?-IsAscending (x ∷ xs) zero zero a b s h e f =
        ground (arith, ieee.lt_irrefl a, some_inj (sym e ∙ f))
    get_elem?-IsAscending (x ∷ xs) zero (suc j) a b (above, s) h e f =
        rw (← some_inj e) (All-get_elem? (λ y. less fl y x ≡ false) xs j b above f)
    get_elem?-IsAscending (x ∷ xs) (suc i) zero a b s h e f = absurd (omega arith)
    get_elem?-IsAscending (x ∷ xs) (suc i) (suc j) a b (_, s) h e f =
        get_elem?-IsAscending xs i j a b s (omega arith) e f
