-- ===== src/Routing/RoundRobin.antt =====
-- Fairness of the tie breaker. While the engines do not change, `k` consecutive picks among `k` tied
-- engines serve each of them once.
use mathlib.Core.List.Permᴰ
use native.Mathlib.Nat.{mod-lt}
use edge_sched.Prelude.{
  ℕ, zero, suc, ◌+◌, ◌*◌, ◌%◌, ◌<◌, ◌≡◌, ◌≢◌, refl, sym, ap, subst, ◌∙◌, ◌==◌, ==_iff,
  if◌then◌else◌, Bool, true, false, Bool-cases, inl, inr, List, [], ◌∷◌, some, length, get_elem?,
  get_elem?-total, In, here, there, In-get_elem?, In-All, Permᴰ-All, Permᴰ-In, Permᴰ-keep,
  Permᴰ-length, keep-In, Result, ok, arith,
}
use edge_sched.Prelude.Bytes.{Bytes, str_eq, str_eq_iff}
use edge_sched.Prelude.Sort.{DistinctBy, sort_by, sort_by-perm, keep-DistinctBy, Permᴰ-DistinctBy}
use edge_sched.Routing.Pick.{
  EngineState, engine_name, RoutingError, TieBreaker, uint64_add, uint64_sub, has_depth, min_depth,
  tied_at, choose, pick_sorted, pick,
}
use edge_sched.Routing.Sound.{IsLeastLoaded, min_depth-eq}
use edge_sched.Routing.Windows.{hit, hits, hits_windows}

-- The result is this engine's name.
abbrev pub is_name : Bytes → Result RoutingError Bytes → Bool
is_name n (ok m) = str_eq n m
is_name n _ = false

-- How often `n` picks in a row, from the given tie breaker, return the name.
unfoldable pub served : Bytes → ℕ → TieBreaker → List EngineState → ℕ
served name zero tb es = 0
served name (suc n) tb es =
    (if is_name name (pick tb es).0 then 1 else 0) + served name n (pick tb es).1 es

-- With distinct names, an engine stands at one place only.
index_unique :
    (es : List EngineState) (i j : ℕ) (x y : EngineState)
    → DistinctBy engine_name es
    → get_elem? es i ≡ some x
    → get_elem? es j ≡ some y
    → x.name ≡ y.name
    → i ≡ j
index_unique [] i j x y d p q e = absurd (cc)
index_unique (z ∷ zs) zero zero x y d p q e = refl
index_unique (z ∷ zs) zero (suc j) x y (h, d) p q e =
    let p' : z ≡ x = cc in
    absurd (In-All (λ w. z.name ≢ w.name) zs h (In-get_elem? zs j y q) (ap engine_name p' ∙ e))
index_unique (z ∷ zs) (suc i) zero x y (h, d) p q e =
    let q' : z ≡ y = cc in
    absurd (In-All (λ w. z.name ≢ w.name) zs h (In-get_elem? zs i x p) (ap engine_name q' ∙ sym e))
index_unique (z ∷ zs) (suc i) (suc j) x y (h, d) p q e = ap suc (index_unique zs i j x y d p q e)

index_of :
    (es : List EngineState) {e : EngineState}
    → In e es
    → (i : ℕ) × (i < length es) × (get_elem? es i ≡ some e)
index_of [] j = elim j [ ]
index_of (x ∷ xs) (here q) = (0, omega arith, rw q)
index_of (x ∷ xs) (there j) = let (i, h, q) = index_of xs j in (suc i, omega arith, q)

-- The counter before the increment, as the expression in the source computes it.
old_counter : (c : ℕ) → c < 18446744073709551616 → uint64_sub (uint64_add c 1) 1 ≡ c
old_counter c h = omega arith

name_hit :
    (i j : ℕ) (ts : List EngineState) (x e : EngineState)
    → DistinctBy engine_name ts
    → get_elem? ts i ≡ some x
    → get_elem? ts j ≡ some e
    → str_eq e.name x.name ≡ (i == j)
name_hit i j ts x e d p q = elim (Bool-cases (i == j)) [
  | inl same ↦
      let k : i ≡ j = (==_iff i j).0 same in
      let r : x ≡ e = some_inj (sym p ∙ ap (get_elem? ts) k ∙ q) in
      (str_eq_iff _ _).1 (sym (ap engine_name r)) ∙ sym same
  | inr other ↦ elim (Bool-cases (str_eq e.name x.name)) [
    | inl found ↦ absurd (
        true_not_false (
          sym ((==_iff i j).1 (index_unique ts i j x e d p q (sym ((str_eq_iff _ _).0 found))))
          ∙ other))
    | inr missed ↦ missed ∙ sym other
  ]
]
  where
    some_inj : {a b : EngineState} → some a ≡ some b → a ≡ b
    some_inj h = cc

    true_not_false : true ≡ false → ⊥
    true_not_false h = cc

-- The pick returns the name of the engine at place `j` exactly at the counter's values that leave `j`.
choose-hit :
    (c j : ℕ) (ts : List EngineState) (e : EngineState)
    → c < 18446744073709551616
    → DistinctBy engine_name ts
    → get_elem? ts j ≡ some e
    → j < length ts
    → (if is_name e.name (choose (uint64_add c 1) ts) then 1 else 0) ≡ hit (length ts) j c
unfolding choose
choose-hit c j [] e b d q lt = absurd (omega arith)
choose-hit c j (t ∷ ts) e b d q lt =
    let n : ℕ = length (t ∷ ts) in
    let (x, p) = get_elem?-total (t ∷ ts) (c % n) (mod-lt c (omega arith)) in
    rw (old_counter c b, p)
      (ap (λ (b : Bool). if b then 1 else 0) (name_hit (c % n) j (t ∷ ts) x e d p q))

-- The tied engines of a sorted list, and `pick` in terms of them.
tied_of : List EngineState → List EngineState
tied_of [] = []
tied_of (e ∷ es) = tied_at (min_depth e.queue_depth es) (e ∷ es)

pick_sorted_lem :
    (added : ℕ) (es : List EngineState) → pick_sorted added es ≡ choose added (tied_of es)
unfolding pick_sorted tied_of
pick_sorted_lem added [] = refl
pick_sorted_lem added (e ∷ es) = refl

tied_of_lem :
    (es : List EngineState) (e : EngineState)
    → IsLeastLoaded e es
    → tied_of es ≡ tied_at e.queue_depth es
unfolding tied_of
tied_of_lem [] e (j, least) = elim j [ ]
tied_of_lem (f ∷ fs) e best = rw (min_depth-eq f fs e best)

pick_lem :
    (c : ℕ) (es : List EngineState) (e : EngineState)
    → IsLeastLoaded e es
    → pick (record { counter = c }) es ≡ (
      choose (uint64_add c 1) (tied_at e.queue_depth (sort_by engine_name es)),
      record { counter = uint64_add c 1 },
    )
unfolding pick
pick_lem c [] e (j, least) = elim j [ ]
pick_lem c (f ∷ fs) e (j, least) =
    let p = Permᴰ.symm (sort_by-perm engine_name (f ∷ fs)) in
    rw (
      pick_sorted_lem (uint64_add c 1) (sort_by engine_name (f ∷ fs)),
      tied_of_lem (sort_by engine_name (f ∷ fs)) e (Permᴰ-In p j, Permᴰ-All _ p least),
    )

tied-DistinctBy :
    (m : ℕ) (es : List EngineState)
    → DistinctBy engine_name es
    → DistinctBy engine_name (tied_at m (sort_by engine_name es))
unfolding tied_at
tied-DistinctBy m es d =
    keep-DistinctBy engine_name (has_depth m) (sort_by engine_name es)
      (Permᴰ-DistinctBy engine_name (Permᴰ.symm (sort_by-perm engine_name es)) d)

length-tied_sorted :
    (m : ℕ) (es : List EngineState)
    → length (tied_at m (sort_by engine_name es)) ≡ length (tied_at m es)
unfolding tied_at
length-tied_sorted m es = Permᴰ-length (Permᴰ-keep (has_depth m) (sort_by-perm engine_name es))

tied_sorted-In :
    (es : List EngineState) (e : EngineState)
    → In e es
    → In e (tied_at e.queue_depth (sort_by engine_name es))
unfolding tied_at
tied_sorted-In es e j =
    keep-In (has_depth e.queue_depth) (sort_by engine_name es)
      (Permᴰ-In (Permᴰ.symm (sort_by-perm engine_name es)) j) ((==_iff _ _).1 refl)

served-eq-hits :
    (n c j : ℕ) (es : List EngineState) (e : EngineState)
    → IsLeastLoaded e es
    → DistinctBy engine_name es
    → c + n < 18446744073709551616
    → get_elem? (tied_at e.queue_depth (sort_by engine_name es)) j ≡ some e
    → j < length (tied_at e.queue_depth (sort_by engine_name es))
    → served e.name n (record { counter = c }) es
      ≡ hits (length (tied_at e.queue_depth (sort_by engine_name es))) j c n
unfolding served hits
served-eq-hits zero c j es e best d b q lt = refl
served-eq-hits (suc n) c j es e best d b q lt =
    let ts = tied_at e.queue_depth (sort_by engine_name es) in
    let next : uint64_add c 1 ≡ suc c = omega arith in
    rw (pick_lem c es e best) (
      rw (choose-hit c j ts e (omega arith) (tied-DistinctBy e.queue_depth es d) q lt) (
        rw next (
          ap (λ t. hit (length ts) j c + t)
            (served-eq-hits n (suc c) j es e best d (omega arith) q lt))))

-- The engines have distinct names, and `e` has the least queue. As long as the engines stay as they
-- are and the counter does not wrap, `n` picks for each of the tied engines return the name of `e`
-- exactly `n` times.
pub served_equally :
    (n c : ℕ) (es : List EngineState) (e : EngineState)
    → DistinctBy engine_name es
    → IsLeastLoaded e es
    → c + n * length (tied_at e.queue_depth es) < 18446744073709551616
    → served e.name (n * length (tied_at e.queue_depth es)) (record { counter = c }) es ≡ n
served_equally n c es e d best b =
    let k : ℕ = length (tied_at e.queue_depth es) in
    let same : length (tied_at e.queue_depth (sort_by engine_name es)) ≡ k =
      length-tied_sorted e.queue_depth es in
    let (j, lt, q) = index_of _ (tied_sorted-In es e best.0) in
    served-eq-hits (n * k) c j es e best d b q lt
    ∙ ap (λ m. hits m j c (n * k)) same
    ∙ hits_windows k j c n (subst (λ m. j < m) same lt)
