-- ===== src/Api/Server.antt =====
-- scheduler/internal/api/handlers.go: `Server` and the snapshot of its engines. The maps of clients
-- and pools are never written; a pool behind its pointer is. A counter is the list of its increments,
-- the latest first.
use edge_sched.Prelude.{List, [], ◌∷◌, Option, none}
use edge_sched.Prelude.Int.{ℤ}
use edge_sched.Prelude.Bytes.{Bytes}
use edge_sched.Prelude.Maps.{GoMap}
use edge_sched.Prelude.Floats.{Floats}
use edge_sched.Sysmonitor.Monitor as Sys
use edge_sched.Healthcheck.Monitor as Health
use edge_sched.Routing.Pick.{EngineState}
use edge_sched.Routing.Policy.{Policy}
use edge_sched.Workerpool.Pool.{Pool, queue_depth}
use edge_sched.Api.Wire.{PredictResponse, LastResultJson}

-- The outcomes of a prediction: the values of the label `status`.
pub data Status : Type 0 where
  unknown bad_request routing_failed engine_unhealthy rejected error success timeout : Status

-- The values of the label `stage`.
pub data Stage : Type 0 where
  preprocess inference postprocess total : Stage

module _ (fl : Floats) where
  -- The metrics that the handlers write.
  pub record Metrics : Type 0 where
    pub requests_total : List (Bytes × Status)
    pub request_duration : List ((Bytes × Stage) × fl.F)
    pub admission_rejections : List Bytes

  abbrev pub no_metrics : Metrics
  no_metrics = record { requests_total = []; request_duration = []; admission_rejections = [] }

  -- The pool of an engine. A request's context is its latency budget.
  abbrev pub EnginePool : Type 0
  EnginePool = Pool ℤ (PredictResponse fl)

  module _ (Client : Type 0) where
    pub record ServerConfig : Type 0 where
      pub clients : GoMap Client
      pub pools : GoMap EnginePool
      pub monitor : Sys.Monitor fl
      pub health_monitor : Health.Monitor Client
      pub policy : Policy fl
      pub policy_name : Bytes
      pub max_latency_budget : ℤ
      pub metrics : Metrics

    pub record Server : Type 0 where
      pub clients : GoMap Client
      pub pools : GoMap EnginePool
      pub monitor : Sys.Monitor fl
      pub health_monitor : Health.Monitor Client
      pub policy : Policy fl
      pub policy_name : Bytes
      pub metrics : Metrics
      pub max_latency_budget : ℤ
      pub last_result : Option (LastResultJson fl)

    unfoldable pub new_server : ServerConfig → Server
    new_server cfg = record {
      clients = cfg.clients;
      pools = cfg.pools;
      monitor = cfg.monitor;
      health_monitor = cfg.health_monitor;
      policy = cfg.policy;
      policy_name = cfg.policy_name;
      metrics = cfg.metrics;
      max_latency_budget = cfg.max_latency_budget;
      last_result = none;
    }

    -- One round of the loop over the pools, and the loop. The source reads one depth and one health
    -- status after another; the model reads them all at one moment.
    abbrev pub state_of : Health.Monitor Client → Bytes × EnginePool → EngineState
    state_of h (name, pool) = record {
      name = name;
      queue_depth = queue_depth ℤ (PredictResponse fl) pool;
      healthy = Health.healthy Client h name;
    }

    unfoldable pub states_of : Health.Monitor Client → GoMap EnginePool → List EngineState
    states_of h [] = []
    states_of h (p ∷ pools) = state_of h p ∷ states_of h pools

    unfoldable pub engine_states : Server → List EngineState
    unfolding states_of
    engine_states s = states_of s.health_monitor s.pools
