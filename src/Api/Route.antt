-- ===== src/Api/Route.antt =====
-- Where the first phase of a prediction sends a request.
use edge_sched.Prelude.{
  ◌≡◌, ◌≢◌, refl, sym, ap, subst, ◌∙◌, ◌⊎◌, true, false, [], ◌∷◌, none, some, ok, Bool-cases, inl,
  inr, All, In, here, there,
}
use edge_sched.Prelude.Int.{ℤ}
use edge_sched.Prelude.Bytes.{Bytes, str_eq, str_eq_refl}
use edge_sched.Prelude.Maps.{GoMap, lookup}
use edge_sched.Prelude.Floats.{Floats}
use edge_sched.Sysmonitor.Monitor.{current}
use edge_sched.Healthcheck.Monitor as Health
use edge_sched.Healthcheck.Monitor.{healthy}
use edge_sched.Healthcheck.Polling.{Polling, Reach}
use edge_sched.Healthcheck.Status.{Reach-unknown}
use edge_sched.Routing.Pick.{EngineState, no_healthy_engines}
use edge_sched.Routing.Policy.{Request}
use edge_sched.Routing.Thermal.{healthy_cases, select_engine-err_iff, select_engine-healthy}
use edge_sched.Api.Wire.{http_error, no_route, unhealthy}
use edge_sched.Api.Budget.{parse_latency_budget}
use edge_sched.Api.Server.{routing_failed, engine_unhealthy, EnginePool, states_of, engine_states}
use edge_sched.Api.Predict.{Query, Routed, go, stopped, with_pool}
use edge_sched.Api.Handler.{Site, selected, choose_engine, with_budget, route}

module _ (fl : Floats) (Client : Type 0) where
  -- An engine of the snapshot has a pool, and its health is what the monitor answers.
  pub states_of-In :
      (h : Health.Monitor Client) (pools : GoMap (EnginePool fl)) (e : EngineState)
      → In e (states_of fl Client h pools)
      → ((p : EnginePool fl) × (lookup e.name pools ≡ some p))
        × (healthy Client h e.name ≡ e.healthy)
  unfolding states_of lookup
  states_of-In h [] e j = elim j [ ]
  states_of-In h ((name, pool) ∷ pools) e (here q) =
      subst
        (λ x.
          ((p : EnginePool fl) × (lookup x.name ((name, pool) ∷ pools) ≡ some p))
          × (healthy Client h x.name ≡ x.healthy))
        (sym q) ((pool, rw (str_eq_refl name) refl), refl)
  states_of-In h ((name, pool) ∷ pools) e (there j) =
      let ((p, found), same) = states_of-In h pools e j in
      elim (Bool-cases (str_eq name e.name)) [
        | inl first ↦ ((pool, rw first refl), same)
        | inr other ↦ ((p, rw other found), same)
      ]

  choose_engine-auto :
      (s : Site fl Client) (budget : ℤ)
      → ((r : Routed) × ((choose_engine fl Client s budget []).0 ≡ go r)
          × (r.budget ≡ budget)
          × (r.auto_routed ≡ true)
          × (healthy Client s.health_monitor r.engine_name ≡ true)
          × ((p : EnginePool fl) × (lookup r.engine_name s.pools ≡ some p)))
        ⊎ (All (λ e. e.healthy ≡ false) (engine_states fl Client s)
            × ((choose_engine fl Client s budget []).0
                ≡ stopped fl [] routing_failed (http_error 503 (no_route no_healthy_engines))))
  unfolding choose_engine selected with_pool
  choose_engine-auto s budget =
      let es = engine_states fl Client s in
      let req : Request = record { latency_budget = budget } in
      let sys = current fl s.monitor in
      elim (healthy_cases es) [
        | inl none_up ↦ inr (
          none_up,
          ap (λ t. selected fl Client s budget t.0)
              ((select_engine-err_iff fl s.policy req sys es).0.0 none_up),
        )
        | inr (x, j, up) ↦
            let (e, q, k, alive) = select_engine-healthy fl s.policy req sys es x j up in
            let (found, same) = states_of-In s.health_monitor s.pools e k in
            let r : Routed = record { engine_name = e.name; auto_routed = true; budget = budget } in
            inl (
              r,
              ap (λ t. selected fl Client s budget t.0) q ∙ ap (with_pool fl r) found.1,
              refl,
              refl,
              same ∙ alive,
              found,
            )
      ]

  -- The query has a budget that is valid, and no engine. Then the request goes, routed automatically
  -- and with that budget, to an engine that is healthy and has a pool, if there is a healthy one; and
  -- if there is none, routing fails with code 503.
  pub route-auto :
      (s : Site fl Client) (q : Query) (budget : ℤ)
      → q.engine ≡ []
      → parse_latency_budget q.latency_budget s.max_latency_budget ≡ ok budget
      → ((r : Routed) × ((route fl Client s q).0 ≡ go r)
          × (r.budget ≡ budget)
          × (r.auto_routed ≡ true)
          × (healthy Client s.health_monitor r.engine_name ≡ true)
          × ((p : EnginePool fl) × (lookup r.engine_name s.pools ≡ some p)))
        ⊎ (All (λ e. e.healthy ≡ false) (engine_states fl Client s)
            × ((route fl Client s q).0
                ≡ stopped fl [] routing_failed (http_error 503 (no_route no_healthy_engines))))
  unfolding route with_budget
  route-auto s q budget h e = rw (e, h) (choose_engine-auto s budget)

  choose_engine-down :
      (s : Site fl Client) (budget : ℤ) (engine : Bytes)
      → engine ≢ []
      → healthy Client s.health_monitor engine ≡ false
      → (choose_engine fl Client s budget engine).0
        ≡ stopped fl engine engine_unhealthy (http_error 503 (unhealthy engine))
  unfolding choose_engine
  choose_engine-down s budget [] n h = absurd (n refl)
  choose_engine-down s budget (c ∷ name) n h = rw h refl

  -- The health monitor is one that the polling of the configured engines reaches, the query has a
  -- valid budget, and it names an engine that is not configured. Then the reply is that the engine is
  -- unhealthy, with code 503, and not that it is unknown.
  pub route-unknown_engine :
      {clients : GoMap Client} {interval timeout : ℤ} {poll : Polling Client}
      → Reach Client clients interval timeout poll
      → (s : Site fl Client) (q : Query) (budget : ℤ) → s.health_monitor ≡ poll.monitor
      → q.engine ≢ []
      → lookup q.engine clients ≡ none
      → parse_latency_budget q.latency_budget s.max_latency_budget ≡ ok budget
      → (route fl Client s q).0
        ≡ stopped fl q.engine engine_unhealthy (http_error 503 (unhealthy q.engine))
  unfolding route with_budget
  route-unknown_engine reached s q budget m n missing e = rw e (
      choose_engine-down s budget q.engine n
        (ap (λ x. healthy Client x q.engine) m ∙ Reach-unknown Client reached q.engine missing))
