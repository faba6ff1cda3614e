-- ===== src/Loadgen/Summary.antt =====
-- scheduler/cmd/loadgen/main.go: the summary that `main` makes of the results.
use edge_sched.Prelude.{ℕ, List, [], ◌∷◌, Option, none, some, length}
use edge_sched.Prelude.Int.{ℤ, pos}
use edge_sched.Prelude.Bytes.{Bytes}
use edge_sched.Prelude.Decimal.{itoa_nat}
use edge_sched.Prelude.Maps.{GoMap, put}
use edge_sched.Prelude.Floats.{Floats, Scaling}
use edge_sched.Loadgen.Send.{Sent}
use edge_sched.Loadgen.Tally.{Tally, no_results, tally}
use edge_sched.Loadgen.Latency.{Latencies, latencies}

-- The map with the codes as text, onto what it has.
unfoldable pub text_counts : List (ℕ × ℕ) → GoMap ℕ → GoMap ℕ
text_counts [] m = m
text_counts ((code, n) ∷ codes) m = text_counts codes (put (itoa_nat code) n m)

module _ (fl : Floats) where
  -- `summaryJSON`
  pub record Summary : Type 0 where
    pub label : Bytes
    pub concurrency : ℤ
    pub duration_sec : fl.F
    pub total : ℕ
    pub succeeded : ℕ
    pub failed : ℕ
    pub throughput_rps : fl.F
    pub latency : Latencies fl
    pub engine_counts : GoMap ℕ
    pub status_counts : GoMap ℕ

  -- `seconds` is the time that the requests took.
  unfoldable pub summary_of :
      Bytes → ℤ → fl.F → List (Sent fl) → Tally fl → Option (Latencies fl) → Option Summary
  unfolding text_counts
  summary_of label concurrency seconds results t none = none
  summary_of label concurrency seconds results t (some l) = some (record {
    label = label;
    concurrency = concurrency;
    duration_sec = seconds;
    total = length results;
    succeeded = t.success_count;
    failed = t.fail_count;
    throughput_rps = fl.div (fl.of_int (pos (length results))) seconds;
    latency = l;
    engine_counts = t.engine_counts;
    status_counts = text_counts t.status_counts [];
  })

  -- From the results on; none is a panic.
  unfoldable pub summarise : Scaling fl → Bytes → ℤ → fl.F → List (Sent fl) → Option Summary
  unfolding summary_of tally latencies
  summarise ops label concurrency seconds results =
      let t = tally fl (no_results fl) results in
      summary_of label concurrency seconds results t (latencies fl ops t.wall_times)
