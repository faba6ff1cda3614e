-- ===== src/Examples/Hot.antt =====
-- A request to a server with two engines, after a hot line of tegrastats.
use edge_sched.Prelude.{◌≡◌, ◌≤◌, refl, true, false, [], ◌∷◌, some, In, here, there}
use edge_sched.Prelude.Int.{ℤ, pos}
use edge_sched.Prelude.Bytes.{bytes, str_eq}
use edge_sched.Prelude.Maps.{GoMap, lookup, put}
use edge_sched.Sysmonitor.Monitor.{new, apply_tegrastats_line}
use edge_sched.Healthcheck.Monitor as Health
use edge_sched.Healthcheck.Monitor.{healthy}
use edge_sched.Routing.Pick.{EngineState}
use edge_sched.Routing.Policy.{ThermalAware, thermal_aware, clamp_count}
use edge_sched.Routing.Candidates.{cheap_names}
use edge_sched.Workerpool.Pool as Workers
use edge_sched.Workerpool.Pool.{queue_depth}
use edge_sched.Api.Wire.{PredictResponse}
use edge_sched.Api.Budget.{default_latency_budget, parse_latency_budget}
use edge_sched.Api.Server.{EnginePool, no_metrics, new_server, engine_states}
use edge_sched.Api.Predict.{Query, go}
use edge_sched.Api.Handler.{Site, route}
use edge_sched.Api.Hot.{IsHotLine, route-hot}
use edge_sched.Examples.Sysmonitor.{whole, whole-IsIeee, line, parsing}

abbrev U : Type 0
U = Unit {0}

abbrev names : GoMap U
names = (bytes "m", tt) ∷ (bytes "n", tt) ∷ []

abbrev pool : EnginePool whole
pool = Workers.new ℤ (PredictResponse whole) (pos 1) (pos 1)

abbrev policy : ThermalAware whole
policy = record { tiers = bytes "n" ∷ []; temp_threshold_c = pos 40; cheap_tier_count = pos 1 }

abbrev hot_site : Site whole U
hot_site = new_server whole U (record {
  clients = names;
  pools = (bytes "m", pool) ∷ (bytes "n", pool) ∷ [];
  monitor = apply_tegrastats_line whole (new whole) 1 line;
  health_monitor = Health.new U names (pos 3000) (pos 1000);
  policy = record { kind = thermal_aware policy; tb = record { counter = 0 } };
  policy_name = bytes "thermal-aware";
  max_latency_budget = pos 30000000000;
  metrics = no_metrics whole;
})

abbrev query : Query
query = record {
  latency_budget = [];
  engine = [];
  body = record { content = 1 ∷ []; fails = false };
  channel = 0;
}

abbrev cheap : EngineState
cheap = record { name = bytes "n"; queue_depth = 0; healthy = true }

line-IsHotLine : IsHotLine whole whole-IsIeee (pos 40) line
unfolding parsing
line-IsHotLine = record {
  reading = (bytes "gpu", bytes "41");
  value = pos 41;
  has_temps = refl;
  is_read = there (here refl);
  parses = refl;
  threshold_not_nan = refl;
  value_not_nan = refl;
  above = refl;
}

route-hot_example :
    (e : EngineState) × ((route whole U hot_site query).0
      ≡ go (record { engine_name = e.name; auto_routed = true; budget = default_latency_budget }))
    × In e (engine_states whole U hot_site)
    × (e.healthy ≡ true)
    × In e.name (cheap_names policy)
    × ((p : EnginePool whole) × (lookup e.name hot_site.pools ≡ some p))
    × ((c : EngineState)
        → In c (engine_states whole U hot_site)
        → c.healthy ≡ true
        → In c.name (cheap_names policy)
        → e.queue_depth ≤ c.queue_depth)
unfolding new_server engine_states Health.new healthy clamp_count parse_latency_budget Workers.new
    queue_depth lookup str_eq put
route-hot_example =
    route-hot whole whole-IsIeee U policy (record { counter = 0 }) (new whole) 1 line line-IsHotLine
      hot_site refl refl cheap (there (here refl)) refl (here refl) query default_latency_budget
      refl refl
