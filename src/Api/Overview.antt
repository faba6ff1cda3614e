-- ===== src/Api/Overview.antt =====
-- scheduler/internal/api/handlers.go: `HandleStatus` and `HandleHealth`.
use edge_sched.Prelude.{◌≡◌, ◌≢◌, refl, All, ap, Bool, [], ◌∷◌, Option, none, some, map}
use mathlib.Core.List.{Permᴰ}
use edge_sched.Prelude.Int.{ℤ, pos}
use edge_sched.Prelude.Bytes.{Bytes}
use edge_sched.Prelude.Sort.{sort_by, sort_by-perm_eq, DistinctBy}
use edge_sched.Prelude.Maps.{GoMap, lookup}
use edge_sched.Prelude.Floats.{Floats}
use edge_sched.Sysmonitor.State.{State}
use edge_sched.Sysmonitor.Monitor.{current}
use edge_sched.Healthcheck.Monitor as Health
use edge_sched.Routing.Pick.{EngineState, engine_name}
use edge_sched.Api.Wire.{
  EngineStatusJson, SystemStatusJson, LastResultJson, Reply, http_error, json, status_body,
  engine_health, missing_engine, unknown_engine, health_check_failed,
}
use edge_sched.Api.Server.{EnginePool, state_of, states_of, engine_states}
use edge_sched.Api.Handler.{Site}

module _ (fl : Floats) where
  unfoldable pub engine_status_json : EngineState → EngineStatusJson fl
  engine_status_json es = record {
    name = es.name;
    queue_depth = es.queue_depth;
    healthy = es.healthy;
  }

  unfoldable pub system_status_json : State fl → SystemStatusJson fl
  system_status_json state = record {
    valid = state.valid;
    max_temp_c = state.max_temp_c;
    power_mw = state.power_mw;
    gpu_util_pct = state.gpu_util_pct;
    ram_used_mb = state.ram_used_mb;
    ram_total_mb = state.ram_total_mb;
    power_mode = state.power_mode;
  }

  abbrev pub last_result_at_of : Option (LastResultJson fl) → ℤ
  last_result_at_of none = pos 0
  last_result_at_of (some r) = r.timestamp_ms

  -- What the client's `HealthCheck` returns: an error's text, or a response.
  pub data HealthAnswer : Type 0 where
    health_error : Bytes → HealthAnswer
    health_response : (serving : Bool) → (engine_name : Bytes) → HealthAnswer

  module _ (Client : Type 0) where
    unfoldable pub handle_status : Site fl Client → Reply fl
    unfolding engine_states engine_status_json system_status_json sort_by current
    handle_status s =
        let raw_states = engine_states fl Client s in
        json (
          status_body (record {
            policy = s.policy_name;
            engines = map engine_status_json (sort_by engine_name raw_states);
            system = system_status_json (current fl s.monitor);
            last_result_at = last_result_at_of s.last_result;
          }))

    -- After the lookup of the client, with what it answers.
    abbrev pub health_reply : HealthAnswer → Reply fl
    health_reply (health_error e) = http_error 503 (health_check_failed e)
    health_reply (health_response serving name) =
        json (engine_health (record { serving = serving; engine_name = name }))

    abbrev pub ask : Bytes → (Client → HealthAnswer) → Option Client → Reply fl
    ask engine answers none = http_error 400 (unknown_engine engine)
    ask engine answers (some client) = health_reply (answers client)

    unfoldable pub handle_health : Site fl Client → Bytes → (Client → HealthAnswer) → Reply fl
    unfolding lookup
    handle_health s [] answers = http_error 400 missing_engine
    handle_health s (c ∷ name) answers = ask (c ∷ name) answers (lookup (c ∷ name) s.clients)

    states_of-perm :
        (h : Health.Monitor Client) {ps qs : GoMap (EnginePool fl)}
        → Permᴰ ps qs
        → Permᴰ (states_of fl Client h ps) (states_of fl Client h qs)
    unfolding states_of
    states_of-perm h Permᴰ.nil = Permᴰ.nil
    states_of-perm h (Permᴰ.cons e p) =
        Permᴰ.cons (ap (state_of fl Client h) e) (states_of-perm h p)
    states_of-perm h (Permᴰ.swap e f) =
        Permᴰ.swap (ap (state_of fl Client h) e) (ap (state_of fl Client h) f)
    states_of-perm h (Permᴰ.trans p q) = Permᴰ.trans (states_of-perm h p) (states_of-perm h q)

    states_of-All :
        (h : Health.Monitor Client) (k : Bytes) (ps : GoMap (EnginePool fl))
        → All (λ p. k ≢ p.0) ps
        → All (λ e. k ≢ engine_name e) (states_of fl Client h ps)
    unfolding states_of
    states_of-All h k [] a = tt
    states_of-All h k (p ∷ ps) (n, a) = (n, states_of-All h k ps a)

    pub states_of-DistinctBy :
        (h : Health.Monitor Client) (ps : GoMap (EnginePool fl))
        → DistinctBy (λ p. p.0) ps
        → DistinctBy engine_name (states_of fl Client h ps)
    unfolding states_of
    states_of-DistinctBy h [] d = tt
    states_of-DistinctBy h (p ∷ ps) (a, d) = (states_of-All h p.0 ps a, states_of-DistinctBy h ps d)

    -- The pools have distinct names. Then the reply of the status page does not depend on the order
    -- in which the map of pools is visited.
    handle_status-perm_eq :
        (s : Site fl Client) (pools : GoMap (EnginePool fl))
        → Permᴰ s.pools pools
        → DistinctBy (λ p. p.0) s.pools
        → handle_status s ≡ handle_status (record s { pools = pools })
    unfolding handle_status engine_states
    handle_status-perm_eq s pools p d =
        let h = s.health_monitor in
        rw (sort_by-perm_eq engine_name (states_of-perm h p) (states_of-DistinctBy h s.pools d))
          refl
