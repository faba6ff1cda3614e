-- ===== src/Api/Hot.antt =====
-- From a line of tegrastats to the engine of a request: scheduler/internal/sysmonitor/monitor.go,
-- scheduler/internal/routing/policy.go and scheduler/internal/api/handlers.go together.
use edge_sched.Prelude.{◌≡◌, ◌≤◌, refl, ap, ◌∙◌, true, false, [], In, some, ok}
use edge_sched.Prelude.{ℕ}
use edge_sched.Prelude.Int.{ℤ}
use edge_sched.Prelude.Bytes.{Bytes}
use edge_sched.Prelude.Maps.{lookup}
use edge_sched.Prelude.Regexp.{find_all}
use edge_sched.Prelude.Floats.{Floats, IsIeee}
use edge_sched.Sysmonitor.Parse.{temp_at, parse_tegrastats_line}
use edge_sched.Sysmonitor.Monitor.{Monitor, current, merge, apply_tegrastats_line}
use edge_sched.Sysmonitor.Temps.{max_temp_c-above}
use edge_sched.Routing.Pick.{EngineState, TieBreaker}
use edge_sched.Routing.Policy.{Request, ThermalAware, thermal_aware}
use edge_sched.Routing.Candidates.{cheap_names}
use edge_sched.Routing.Thermal.{thermal_aware-hot}
use edge_sched.Api.Budget.{parse_latency_budget}
use edge_sched.Api.Server.{EnginePool, engine_states}
use edge_sched.Api.Predict.{Query, Routed, go, with_pool}
use edge_sched.Api.Handler.{Site, selected, choose_engine, with_budget, route}
use edge_sched.Api.Route.{states_of-In}

module _ (fl : Floats) (ieee : IsIeee fl) where
  -- The line reports a temperature at the threshold or above.
  pub record IsHotLine (threshold : fl.F) (line : Bytes) : Type 0 where
    pub reading : Bytes × Bytes
    pub value : fl.F
    pub has_temps : (parse_tegrastats_line fl line).has_temps ≡ true
    pub is_read : In reading (find_all temp_at line)
    pub parses : fl.parse reading.1 ≡ some value
    pub threshold_not_nan : fl.is_nan threshold ≡ false
    pub value_not_nan : fl.is_nan value ≡ false
    pub above : fl.le threshold value ≡ true

  line-hot :
      (threshold : fl.F) (m : Monitor fl) (now : ℕ) (line : Bytes)
      → IsHotLine threshold line
      → let sys = current fl (apply_tegrastats_line fl m now line) in
        (sys.valid ≡ true) × (fl.le threshold sys.max_temp_c ≡ true)
  unfolding current apply_tegrastats_line merge
  line-hot threshold m now line h =
      let above =
        max_temp_c-above fl ieee line threshold h.value h.reading h.has_temps h.is_read h.parses
          h.threshold_not_nan h.value_not_nan h.above in
      (refl, rw h.has_temps above)

  module _ (Client : Type 0) where
    -- The server has the thermal-aware policy, the last line of tegrastats reports a temperature at
    -- its threshold or above, and a healthy engine is in the cheap tier. Then a query with a valid
    -- budget and no engine goes to a healthy engine of the cheap tier that has a pool, and whose queue
    -- is not longer than that of any other healthy engine of the tier.
    pub route-hot :
        (t : ThermalAware fl) (tb : TieBreaker) (m : Monitor fl) (now : ℕ) (line : Bytes)
        → IsHotLine t.temp_threshold_c line
        → (s : Site fl Client) → s.policy ≡ record { kind = thermal_aware t; tb = tb }
        → s.monitor ≡ apply_tegrastats_line fl m now line
        → (x : EngineState) → In x (engine_states fl Client s)
        → x.healthy ≡ true
        → In x.name (cheap_names t)
        → (q : Query) (budget : ℤ) → q.engine ≡ []
        → parse_latency_budget q.latency_budget s.max_latency_budget ≡ ok budget
        → (e : EngineState) × ((route fl Client s q).0
            ≡ go (record { engine_name = e.name; auto_routed = true; budget = budget }))
          × In e (engine_states fl Client s)
          × (e.healthy ≡ true)
          × In e.name (cheap_names t)
          × ((p : EnginePool fl) × (lookup e.name s.pools ≡ some p))
          × ((c : EngineState)
              → In c (engine_states fl Client s)
              → c.healthy ≡ true
              → In c.name (cheap_names t)
              → e.queue_depth ≤ c.queue_depth)
    unfolding route with_budget choose_engine selected with_pool
    route-hot t tb m now line hot s policy monitor x j up cheap q budget none_named valid =
        let es = engine_states fl Client s in
        let req : Request = record { latency_budget = budget } in
        let (is_valid, above) = line-hot t.temp_threshold_c m now line hot in
        let (e, picked, k, alive, tier, least) =
          thermal_aware-hot fl t tb req (current fl (apply_tegrastats_line fl m now line)) es x
            is_valid above j up cheap in
        let (found, same) = states_of-In fl Client s.health_monitor s.pools e k in
        let r : Routed = record { engine_name = e.name; auto_routed = true; budget = budget } in
        (
          e,
          rw (none_named, valid, policy, monitor)
              (ap (λ o. selected fl Client s budget o) picked ∙ ap (with_pool fl r) found.1),
          k,
          alive,
          tier,
          found,
          least,
        )
