-- ===== src/Api/Handler.antt =====
-- scheduler/internal/api/handlers.go: `HandlePredict` on the server's state, as the sequence of its
-- phases.
use edge_sched.Prelude.{
  ℕ, if◌then◌else◌, Bool, true, false, [], ◌∷◌, Option, none, some, Result, ok, err, panic,
}
use edge_sched.Prelude.Int.{ℤ}
use edge_sched.Prelude.Bytes.{Bytes}
use edge_sched.Prelude.Maps.{lookup, put}
use edge_sched.Prelude.Floats.{Floats}
use edge_sched.Sysmonitor.Monitor.{current}
use edge_sched.Healthcheck.Monitor.{healthy}
use edge_sched.Routing.Pick.{RoutingError}
use edge_sched.Routing.Policy.{select_engine}
use edge_sched.Workerpool.Pool.{submit, queue_depth}
use edge_sched.Workerpool.Pool as Workers
use edge_sched.Api.Wire.{
  PredictResponse, http_error, retry_later, aborted, invalid_budget, no_route, unhealthy,
  overloaded,
}
use edge_sched.Api.Budget.{parse_latency_budget}
use edge_sched.Api.Server.{
  unknown, bad_request, routing_failed, engine_unhealthy, rejected, EnginePool, Server,
  engine_states,
}
use edge_sched.Api.Predict.{Query, Routed, Phase, go, stopped, with_pool}

module _ (fl : Floats) (Client : Type 0) where
  abbrev pub Resp : Type 0
  Resp = PredictResponse fl

  abbrev pub Site : Type 0
  Site = Server fl Client

  -- What the policy answered, and the lookup of the pool.
  unfoldable pub selected : Site → ℤ → Result RoutingError Bytes → Phase fl Routed
  unfolding with_pool
  selected s budget (ok name) =
      with_pool fl (record { engine_name = name; auto_routed = true; budget = budget })
        (lookup name s.pools)
  selected s budget (err e) = stopped fl [] routing_failed (http_error 503 (no_route e))
  selected s budget panic = stopped fl [] unknown aborted

  -- The branch on `engineName == ""`.
  unfoldable pub choose_engine : Site → ℤ → Bytes → Phase fl Routed × Site
  unfolding selected with_pool select_engine engine_states healthy current
  choose_engine s budget [] =
      let (r, p) =
        select_engine fl s.policy (record { latency_budget = budget }) (current fl s.monitor)
          (engine_states fl Client s) in
      (selected s budget r, record s { policy = p })
  choose_engine s budget (c ∷ name) =
      if healthy Client s.health_monitor (c ∷ name)
      then (
        with_pool fl (record { engine_name = c ∷ name; auto_routed = false; budget = budget })
            (lookup (c ∷ name) s.pools),
        s,
      )
      else (stopped fl (c ∷ name) engine_unhealthy (http_error 503 (unhealthy (c ∷ name))), s)

  unfoldable pub with_budget : Site → Bytes → Result Bytes ℤ → Phase fl Routed × Site
  unfolding choose_engine
  with_budget s engine (ok budget) = choose_engine s budget engine
  with_budget s engine (err raw) =
      (stopped fl [] bad_request (http_error 400 (invalid_budget raw)), s)
  with_budget s engine panic = (stopped fl [] unknown aborted, s)

  -- From the start to the lookup of the pool.
  unfoldable pub route : Site → Query → Phase fl Routed × Site
  unfolding with_budget parse_latency_budget
  route s q = with_budget s q.engine (parse_latency_budget q.latency_budget s.max_latency_budget)

  -- `pool.QueueDepth()`. The pool was found before, and the map is never written.
  abbrev pub depth_of : Option (EnginePool fl) → ℕ
  depth_of none = 0
  depth_of (some pool) = queue_depth ℤ Resp pool

  -- `none` is the panic of a send on the closed channel.
  unfoldable pub submitted :
      Site → Bytes → Option (Bool × EnginePool fl) → Phase fl (Unit {0}) × Site
  submitted s engine none = (stopped fl engine unknown aborted, s)
  submitted s engine (some (true, pool)) = (go tt, record s { pools = put engine pool s.pools })
  submitted s engine (some (false, pool)) = (
    stopped fl engine rejected (retry_later 503 (overloaded engine)),
    record s {
      metrics = record (s.metrics) {
        admission_rejections = engine ∷ s.metrics.admission_rejections;
      };
    },
  )

  abbrev pub submit_to :
      Option (EnginePool fl) → Workers.Request ℤ Resp → Option (Bool × EnginePool fl)
  submit_to none req = none
  submit_to (some pool) req = submit ℤ Resp pool req

  unfoldable pub admit : Site → Routed → ℕ → Bytes → Phase fl (Unit {0}) × Site
  unfolding submitted submit
  admit s r channel image = submitted s r.engine_name (
      submit_to (lookup r.engine_name s.pools)
        (record { ctx = r.budget; image_data = image; result = channel }))

  -- What the `select` receives: a result, with the response that its getters see, or the end of the
  -- context. `elapsed` and `now` are the clock when a result came.
  pub data Arrival : Type 0 where
    result : Workers.Result ℤ Resp → (elapsed : fl.F) → (now : ℤ) → Arrival
    deadline : Arrival
