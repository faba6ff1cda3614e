-- ===== src/Loadgen/Latency.antt =====
-- scheduler/cmd/loadgen/main.go: `percentile` and the latencies that `main` sums up.
use edge_sched.Prelude.{
  ℕ, ◌&&◌, ◌||◌, not, if◌then◌else◌, Bool, List, [], ◌∷◌, Option, none, some, length, get_elem?,
}
use edge_sched.Prelude.Int.{ℤ, pos, negsuc}
use edge_sched.Prelude.Floats.{Floats, Scaling}

module _ (fl : Floats) where
  -- `sort.Float64s` puts NaN before all other values.
  abbrev pub less : fl.F → fl.F → Bool
  less a b = fl.lt a b || (fl.is_nan a && not (fl.is_nan b))

  unfoldable pub insert : fl.F → List fl.F → List fl.F
  insert x [] = x ∷ []
  insert x (y ∷ ys) = if less y x then y ∷ insert x ys else x ∷ y ∷ ys

  unfoldable pub float64s : List fl.F → List fl.F
  unfolding insert
  float64s [] = []
  float64s (x ∷ xs) = insert x (float64s xs)

  -- `sorted[idx]`; out of range it panics.
  abbrev pub at_index : List fl.F → ℤ → Option fl.F
  at_index xs (pos i) = get_elem? xs i
  at_index xs (negsuc i) = none

  pub record Latencies : Type 0 where
    pub p50 : fl.F
    pub p95 : fl.F
    pub p99 : fl.F
    pub max_ms : fl.F

  abbrev pub all_of : Option fl.F → Option fl.F → Option fl.F → Option fl.F → Option Latencies
  all_of (some a) (some b) (some c) (some d) =
      some (record { p50 = a; p95 = b; p99 = c; max_ms = d })
  all_of _ _ _ _ = none

  module _ (ops : Scaling fl) where
    -- `int(p / 100 * float64(len(sorted)-1))`
    abbrev pub rank : ℤ → ℕ → ℤ
    rank p last =
        ops.to_int (ops.mul (fl.div (fl.of_int p) (fl.of_int (pos 100))) (fl.of_int (pos last)))

    unfoldable pub percentile : List fl.F → ℤ → Option fl.F
    percentile [] p = some (fl.of_int (pos 0))
    percentile (x ∷ xs) p = at_index (x ∷ xs) (rank p (length xs))

    abbrev pub of_sorted : List fl.F → Option Latencies
    of_sorted [] =
        let zero = fl.of_int (pos 0) in
        some (record { p50 = zero; p95 = zero; p99 = zero; max_ms = zero })
    of_sorted (x ∷ xs) =
        all_of (percentile (x ∷ xs) (pos 50)) (percentile (x ∷ xs) (pos 95))
          (percentile (x ∷ xs) (pos 99)) (get_elem? (x ∷ xs) (length xs))

    -- `sort.Float64s(wallTimes)` and what follows from it; none is a panic.
    unfoldable pub latencies : List fl.F → Option Latencies
    unfolding float64s percentile
    latencies wall_times = of_sorted (float64s wall_times)
