-- ===== src/Examples/Tools.antt =====
-- The metrics of one pool, and the rows of the scraper.
use edge_sched.Prelude.{
  ◌+◌, ◌≡◌, if◌then◌else◌, true, List, [], ◌∷◌, All, suc, count_if, ◌==◌, map, any, length, none,
  some,
}
use edge_sched.Prelude.Int.{ℤ, pos}
use edge_sched.Prelude.Bytes.{Bytes, bytes}
use edge_sched.Prelude.Maps.{GoMap}
use edge_sched.Sysmonitor.Monitor.{new}
use edge_sched.Workerpool.Pool as Workers
use edge_sched.Api.Wire.{PredictResponse}
use edge_sched.Api.Server.{EnginePool}
use edge_sched.Collector.{collect, IsDescribed}
use edge_sched.Collector.Gather.{AreDistinct, series, HasLabels, collect-gathers}
use edge_sched.Statscraper.{Poll, idle}
use edge_sched.Statscraper.Stops.{
  Event, signal_received, ticked, scrape, polls_before, ends_loop, has_reply, scrape-table,
}
use edge_sched.Examples.Floats.{whole}

abbrev one_pool : GoMap (EnginePool whole)
one_pool = (bytes "n", Workers.new ℤ (PredictResponse whole) (pos 1) (pos 1)) ∷ []

collect-gathers_example :
    All (IsDescribed whole) (collect whole one_pool (new whole))
    × All (HasLabels whole) (collect whole one_pool (new whole))
    × AreDistinct (map (series whole) (collect whole one_pool (new whole)))
collect-gathers_example = collect-gathers whole one_pool (new whole) (tt, tt)

abbrev first_poll : Poll whole
first_poll = record {
  resp = record {
    policy = bytes "least-queue";
    engines = record { name = bytes "n"; queue_depth = pos 3 } ∷ [];
    system = record {
      valid = true;
      max_temp_c = pos 41;
      power_mw = pos 5;
      gpu_util_pct = pos 9;
      ram_used_mb = pos 34;
    };
  };
  timestamp_ms = pos 100;
  elapsed_sec = pos 1;
}

abbrev print : ℤ → Bytes
print n = bytes "0"

abbrev events : List (Event whole)
events = ticked (pos 1) none ∷ ticked (pos 2) (some first_poll) ∷ signal_received ∷ []

scrape-table_example :
    let (s, stopped) = scrape whole print print (pos 0) (idle whole) events in
    let replies = count_if (has_reply whole) (polls_before whole (pos 0) events) in
    (stopped ≡ any (ends_loop whole (pos 0)) events)
    × (length s.rows ≡ (if replies == 0 then 0 else suc replies))
    × All (λ row. length row ≡ 8 + length s.engine_cols) s.rows
scrape-table_example = scrape-table whole print print (pos 0) events
