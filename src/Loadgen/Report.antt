-- ===== src/Loadgen/Report.antt =====
-- scheduler/cmd/loadgen/main.go: what the summary says of a run.
use edge_sched.Prelude.{
  ℕ, ◌+◌, ◌≤◌, ◌≡◌, refl, sym, ap, subst, ◌∙◌, true, false, Bool-cases, inl, inr, List, [], ◌∷◌,
  All, All-append, count_if, length, some, Result, arith,
}
use edge_sched.Prelude.Int.{ℤ, pos, ltz}
use edge_sched.Prelude.Bytes.{Bytes}
use edge_sched.Prelude.Decimal.{itoa_nat}
use edge_sched.Prelude.Maps.{lookup, get_or}
use edge_sched.Prelude.Floats.{Floats, IsIeee, Scaling, IsScaling, max_exact}
use edge_sched.Loadgen.Send.{PredictReply, Sent}
use edge_sched.Loadgen.Tally.{
  Tally, no_results, is_failed, add_result, tally, succeeded_on, tally-counts,
}
use edge_sched.Loadgen.Latency.{Latencies, float64s, latencies}
use edge_sched.Loadgen.Percentiles.{latencies-ordered}
use edge_sched.Loadgen.Summary.{Summary, summary_of, summarise}
use edge_sched.Loadgen.Codes.{failed_with, text_counts-tally}
use edge_sched.Loadgen.Feed.{Run, Reach}
use edge_sched.Loadgen.Fed.{Fed}
use edge_sched.Loadgen.Once.{results-handed}

module _ (fl : Floats) where
  -- No time is NaN.
  abbrev pub AreNumbers : List (Sent fl) → Type 0
  AreNumbers rs = All (λ (r : Sent fl). fl.is_nan r.wall_ms ≡ false) rs

  tally-times :
      (t : Tally fl) (rs : List (Sent fl))
      → All (λ w. fl.is_nan w ≡ false) t.wall_times
      → AreNumbers rs
      → All (λ w. fl.is_nan w ≡ false) (tally fl t rs).wall_times
  unfolding tally
  tally-times t [] h k = h
  tally-times t (r ∷ rs) h (n, k) = tally-times (add_result fl t r) rs (add_result-times t r h n) k
    where
      add_result-times :
          (t : Tally fl) (r : Sent fl)
          → All (λ w. fl.is_nan w ≡ false) t.wall_times
          → fl.is_nan r.wall_ms ≡ false
          → All (λ w. fl.is_nan w ≡ false) (add_result fl t r).wall_times
      add_result-times t r h n = elim (Bool-cases (is_failed fl r)) [
        | inl bad ↦ rw bad h
        | inr good ↦
            rw good (All-append (λ w. fl.is_nan w ≡ false) t.wall_times (r.wall_ms ∷ []) h (n, tt))
      ]

  module _ (ops : Scaling fl) (scaling : IsScaling fl ops) (ieee : IsIeee fl) where
    -- The latencies of any times, none at all included.
    latencies-total :
        (ws : List fl.F)
        → All (λ w. fl.is_nan w ≡ false) ws
        → length ws ≤ max_exact
        → (l : Latencies fl) × (latencies fl ops ws ≡ some l)
    unfolding latencies float64s
    latencies-total [] numbers exact = (_, refl)
    latencies-total (w ∷ ws) numbers exact =
        let (l, e, _) =
          latencies-ordered fl ops scaling ieee (w ∷ ws) numbers (omega arith) exact in
        (l, e)

    -- What a summary says of the results of a number of images.
    abbrev pub Tells : List (Sent fl) → ℕ → Summary fl → Type 0
    Tells results images m =
        (m.total ≡ images)
        × (m.succeeded + m.failed ≡ images)
        × ((name : Bytes)
            → get_or (lookup name m.engine_counts) 0 ≡ count_if (succeeded_on fl name) results)
        × ((code : ℕ)
            → get_or (lookup (itoa_nat code) m.status_counts) 0
              ≡ count_if (failed_with fl code) results)

    summarise-Tells :
        (label : Bytes) (concurrency : ℤ) (seconds : fl.F) (results : List (Sent fl))
        → AreNumbers results
        → length results ≤ max_exact
        → (m : Summary fl) × (summarise fl ops label concurrency seconds results ≡ some m)
          × Tells results (length results) m
    unfolding summarise summary_of
    summarise-Tells label concurrency seconds results numbers exact =
        let (all, times, _, _, _) = tally-counts fl results [] in
        let t = tally fl (no_results fl) results in
        let (l, e) =
          latencies-total t.wall_times (tally-times (no_results fl) results tt numbers)
            (omega (arith, all, times, exact)) in
        (
          _,
          ap (summary_of fl label concurrency seconds results t) e,
          (
            refl,
            all,
            (λ name. (tally-counts fl results name).4),
            (λ code. text_counts-tally fl code results),
          ),
        )

    -- The results of a run are as many as its images.
    all_images :
        {zero_f : fl.F} {decode : Bytes → Result Bytes (PredictReply fl)} {paths : List Bytes}
        (duration concurrency : ℤ) {n : ℕ} {s : Run fl}
        → Reach fl zero_f decode paths duration concurrency n s
        → ltz (pos 0) duration ≡ false
        → ltz (pos 0) concurrency ≡ true
        → s.over ≡ true
        → length s.results ≡ length paths
    all_images {paths = paths} duration concurrency {s = s} reach once some_workers o =
        let (fed, same) = results-handed duration concurrency reach some_workers o in
        let e : s.handed ≡ paths = subst (λ b. Fed paths b s.handed) once fed in
        sym (count_if_all s.results) ∙ same (λ p. true) ∙ count_if_all s.handed ∙ ap length e
      where
        count_if_all : {A : Type 0} (xs : List A) → count_if (λ x. true) xs ≡ length xs
        count_if_all [] = refl
        count_if_all (x ∷ xs) = omega (arith, count_if_all xs)

    -- A run without a duration and with at least one worker is over, its images are at most 2 ^ 53, no
    -- time is NaN, and arithmetic is IEEE. Then `main` makes a summary of it: the total is the number
    -- of images, which the successes and failures add up to; the count of an engine is that of the
    -- successful results that it answered; and the count of a code, which the map has as text, is that
    -- of the failed results with the code.
    pub run-Tells :
        {zero_f : fl.F} {decode : Bytes → Result Bytes (PredictReply fl)} {paths : List Bytes}
        (duration concurrency : ℤ) {n : ℕ} {s : Run fl} (label : Bytes) (seconds : fl.F)
        → Reach fl zero_f decode paths duration concurrency n s
        → ltz (pos 0) duration ≡ false
        → ltz (pos 0) concurrency ≡ true
        → s.over ≡ true
        → AreNumbers s.results
        → length paths ≤ max_exact
        → (m : Summary fl) × (summarise fl ops label concurrency seconds s.results ≡ some m)
          × Tells s.results (length paths) m
    run-Tells {paths = paths} duration concurrency {s = s} label seconds reach once some_workers o
          numbers exact =
        let images = all_images duration concurrency reach once some_workers o in
        let (m, e, tells) =
          summarise-Tells label concurrency seconds s.results numbers
            (omega (arith, images, exact)) in
        (m, e, subst (λ k. Tells s.results k m) images tells)
