-- ===== src/Collector/Registry.antt =====
-- scheduler/internal/metrics/metrics.go: `New` and `MustRegister`. Prometheus is outside: a counter, a
-- histogram and a description are what they are made from.
use edge_sched.Prelude.{List, [], ◌∷◌, ◌++◌, map}
use edge_sched.Prelude.Bytes.{Bytes, bytes}
use edge_sched.Collector.{
  Desc, queue_depth_desc, temp_desc, power_desc, gpu_util_desc, ram_used_desc, monitor_valid_desc,
  describe,
}

-- A name, a help text and the names of the labels.
pub record Opts : Type 0 where
  pub name : Bytes
  pub help : Bytes
  pub labels : List Bytes

-- The fields of `Registry` that hold metrics of their own.
pub data Vec : Type 0 where
  requests_total request_duration routing_decisions admission_rejections : Vec

unfoldable pub vec_opts : Vec → Opts
vec_opts requests_total = record {
  name = bytes "edgesched_requests_total";
  help = bytes "Total /predict requests, by engine and outcome.";
  labels = bytes "engine" ∷ bytes "status" ∷ [];
}
vec_opts request_duration = record {
  name = bytes "edgesched_request_duration_seconds";
  help = bytes "Per stage request duration, by engine and stage.";
  labels = bytes "engine" ∷ bytes "stage" ∷ [];
}
vec_opts routing_decisions = record {
  name = bytes "edgesched_routing_decisions_total";
  help =
      bytes
        "Number of times each engine was selected, by engine and whether routing was automatic.";
  labels = bytes "engine" ∷ bytes "auto_routed" ∷ [];
}
vec_opts admission_rejections = record {
  name = bytes "edgesched_admission_rejections_total";
  help = bytes "Requests rejected with 503 due to a full worker-pool queue, by engine.";
  labels = bytes "engine" ∷ [];
}

unfoldable pub desc_opts : Desc → Opts
desc_opts queue_depth_desc = record {
  name = bytes "edgesched_queue_depth";
  help = bytes "Current number of requests waiting in an engine's worker pool queue.";
  labels = bytes "engine" ∷ [];
}
desc_opts temp_desc = record {
  name = bytes "edgesched_system_max_temp_celsius";
  help = bytes "Highest reported sensor temperature.";
  labels = [];
}
desc_opts power_desc = record {
  name = bytes "edgesched_system_power_milliwatts";
  help = bytes "Total system power draw (VDD_IN).";
  labels = [];
}
desc_opts gpu_util_desc = record {
  name = bytes "edgesched_system_gpu_util_percent";
  help = bytes "Instantaneous GPU utilization.";
  labels = [];
}
desc_opts ram_used_desc = record {
  name = bytes "edgesched_system_ram_used_mb";
  help = bytes "Used system RAM in MB.";
  labels = [];
}
desc_opts monitor_valid_desc = record {
  name = bytes "edgesched_system_monitor_valid";
  help =
      bytes "1 if the system monitor has a valid reading yet, 0 before its first successful poll.";
  labels = [];
}

-- The order of `MustRegister`; the registry itself comes last, with its descriptions.
unfoldable pub registered : List Opts
unfolding vec_opts desc_opts describe
registered =
    map vec_opts (requests_total ∷ request_duration ∷ routing_decisions ∷ admission_rejections ∷ [])
    ++ map desc_opts describe
