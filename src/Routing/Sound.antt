-- ===== src/Routing/Sound.antt =====
-- The engine that the tie breaker picks: one of the given, with the least queue.
use mathlib.Core.List.Permᴰ
use native.Mathlib.Nat.{mod-lt}
use edge_sched.Prelude.{
  ℕ, ◌%◌, ◌≤◌, ◌≡◌, refl, sym, subst, ◌⊎◌, inl, inr, ltb, ==_iff, if◌then◌else◌, Bool-cases, List,
  [], ◌∷◌, length, All, In, here, there, In-get_elem?, get_elem?-total, In-keep, keep-In, In-All,
  Permᴰ-All, Permᴰ-In, ok, arith,
}
use edge_sched.Prelude.Sort.{sort_by, sort_by-perm}
use edge_sched.Routing.Pick.{
  EngineState, engine_name, TieBreaker, uint64_add, uint64_sub, has_depth, min_depth, tied_at,
  choose, pick_sorted, pick,
}

-- `e` is one of `es`, and none of them has a shorter queue.
abbrev pub IsLeastLoaded : EngineState → List EngineState → Type 0
IsLeastLoaded e es = In e es × All (λ x. e.queue_depth ≤ x.queue_depth) es

min_depth-le : (d : ℕ) (es : List EngineState) → min_depth d es ≤ d
unfolding min_depth
min_depth-le d [] = omega arith
min_depth-le d (e ∷ es) =
    ground (arith, min_depth-le (if ltb e.queue_depth d then e.queue_depth else d) es)

min_depth-le-All : (d : ℕ) (es : List EngineState) → All (λ x. min_depth d es ≤ x.queue_depth) es
unfolding min_depth
min_depth-le-All d [] = tt
min_depth-le-All d (e ∷ es) = (
  ground (arith, min_depth-le (if ltb e.queue_depth d then e.queue_depth else d) es),
  min_depth-le-All (if ltb e.queue_depth d then e.queue_depth else d) es,
)

-- The least depth is the first engine's or that of one of the others.
min_depth_attained :
    (d : ℕ) (es : List EngineState)
    → (min_depth d es ≡ d) ⊎ ((e : EngineState) × In e es × (e.queue_depth ≡ min_depth d es))
unfolding min_depth
min_depth_attained d [] = inl refl
min_depth_attained d (e ∷ es) = elim (Bool-cases (ltb e.queue_depth d)) [
  | inl less ↦ rw less (elim (min_depth_attained e.queue_depth es) [
    | inl q ↦ inr (e, here refl, sym q)
    | inr (x, j, q) ↦ inr (x, there j, q)
  ])
  | inr more ↦
      rw more
        (elim (min_depth_attained d es) [ inl q ↦ inl q | inr (x, j, q) ↦ inr (x, there j, q) ])
]

-- Nobody has the least depth only in an empty list: the tied engines are at least one.
tied_at-min :
    (e : EngineState) (es : List EngineState)
    → (x : EngineState) × In x (tied_at (min_depth e.queue_depth es) (e ∷ es))
unfolding tied_at
tied_at-min e es = elim (min_depth_attained e.queue_depth es) [
  | inl q ↦ (
    e,
    keep-In (has_depth (min_depth e.queue_depth es)) (e ∷ es) (here refl) ((==_iff _ _).1 (sym q)),
  )
  | inr (x, j, q) ↦
      (x, keep-In (has_depth (min_depth e.queue_depth es)) (e ∷ es) (there j) ((==_iff _ _).1 q))
]

-- The index is within the tied engines, so the choice is one of them.
choose-In :
    (added : ℕ) (es : List EngineState) {x : EngineState}
    → In x es
    → (e : EngineState) × (choose added es ≡ ok e.name) × In e es
unfolding choose
choose-In added [] j = elim j [ ]
choose-In added (y ∷ ys) j =
    let i : ℕ = uint64_sub added 1 % length (y ∷ ys) in
    let (e, q) = get_elem?-total (y ∷ ys) i (mod-lt _ (omega arith)) in
    (e, rw q, In-get_elem? (y ∷ ys) i e q)

tied_at-IsLeastLoaded :
    (f : EngineState) (fs : List EngineState) (e : EngineState)
    → In e (tied_at (min_depth f.queue_depth fs) (f ∷ fs))
    → IsLeastLoaded e (f ∷ fs)
unfolding tied_at
tied_at-IsLeastLoaded f fs e j =
    let m : ℕ = min_depth f.queue_depth fs in
    let (k, q) = In-keep (has_depth m) (f ∷ fs) j in
    let same : e.queue_depth ≡ m = (==_iff _ _).0 q in
    (
      k,
      subst (λ d. All (λ x. d ≤ x.queue_depth) (f ∷ fs)) (sym same)
          (min_depth-le f.queue_depth fs, min_depth-le-All f.queue_depth fs),
    )

-- The least depth is that of every least loaded engine.
pub min_depth-eq :
    (f : EngineState) (fs : List EngineState) (e : EngineState)
    → IsLeastLoaded e (f ∷ fs)
    → min_depth f.queue_depth fs ≡ e.queue_depth
unfolding tied_at
min_depth-eq f fs e (j, least) =
    let m : ℕ = min_depth f.queue_depth fs in
    let (x, k) = tied_at-min f fs in
    let (l, q) = In-keep (has_depth m) (f ∷ fs) k in
    let same : x.queue_depth ≡ m = (==_iff _ _).0 q in
    let above : e.queue_depth ≤ x.queue_depth =
      In-All (λ y. e.queue_depth ≤ y.queue_depth) (f ∷ fs) least l in
    let all : All (λ y. m ≤ y.queue_depth) (f ∷ fs) =
      (min_depth-le f.queue_depth fs, min_depth-le-All f.queue_depth fs) in
    let below : m ≤ e.queue_depth = In-All (λ y. m ≤ y.queue_depth) (f ∷ fs) all j in omega arith

pick_sorted-IsLeastLoaded :
    (added : ℕ) (es : List EngineState) {x : EngineState}
    → In x es
    → (e : EngineState) × (pick_sorted added es ≡ ok e.name) × IsLeastLoaded e es
unfolding pick_sorted
pick_sorted-IsLeastLoaded added [] j = elim j [ ]
pick_sorted-IsLeastLoaded added (f ∷ fs) j =
    let (x, k) = tied_at-min f fs in
    let (e, q, l) = choose-In added (tied_at (min_depth f.queue_depth fs) (f ∷ fs)) k in
    (e, q, tied_at-IsLeastLoaded f fs e l)

-- Given an engine at all, the tie breaker picks one with the least queue, never panics, and counts
-- one more.
pub pick-IsLeastLoaded :
    (tb : TieBreaker) (f : EngineState) (fs : List EngineState)
    → (e : EngineState) × (pick tb (f ∷ fs)
        ≡ (ok e.name, record { counter = uint64_add tb.counter 1 }))
      × IsLeastLoaded e (f ∷ fs)
unfolding pick
pick-IsLeastLoaded tb f fs =
    let p = sort_by-perm engine_name (f ∷ fs) in
    let (e, q, (j, least)) =
      pick_sorted-IsLeastLoaded (uint64_add tb.counter 1) (sort_by engine_name (f ∷ fs))
        (Permᴰ-In (Permᴰ.symm p) (here refl)) in
    (e, rw q, (Permᴰ-In p j, Permᴰ-All _ p least))
