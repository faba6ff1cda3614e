-- ===== src/Examples/Api.antt =====
-- A server with two engines, and requests to it.
use edge_sched.Prelude.{
  ◌<◌, ◌≤◌, take, length, ◌≡◌, ◌⊎◌, refl, true, false, [], ◌∷◌, none, some, All, arith,
}
use edge_sched.Prelude.Int.{ℤ, pos}
use edge_sched.Prelude.Bytes.{Bytes, bytes, str_eq}
use edge_sched.Prelude.Maps.{GoMap, lookup, put}
use edge_sched.Sysmonitor.Monitor as Sys
use edge_sched.Healthcheck.Monitor as Health
use edge_sched.Healthcheck.Monitor.{healthy}
use edge_sched.Healthcheck.Polling.{Reach, started, run}
use edge_sched.Routing.Pick.{no_healthy_engines}
use edge_sched.Routing.Policy.{least_queue}
use edge_sched.Workerpool.Pool as Workers
use edge_sched.Api.Wire.{PredictResponse, http_error, no_route, unhealthy}
use edge_sched.Api.Budget.{parse_latency_budget, default_latency_budget}
use edge_sched.Api.Server.{
  EnginePool, no_metrics, new_server, engine_states, routing_failed, engine_unhealthy,
}
use edge_sched.Api.Predict.{
  max_image_bytes, read_all, Query, Routed, go, stopped, with_pool, image_of, read_body,
}
use edge_sched.Api.Handler.{
  Site, choose_engine, with_budget, route, submitted, admit, Arrival, result, deadline,
}
use edge_sched.Api.Answer.{
  succeed, with_result, answer, finish, after_admit, after_read, after_route, Others,
  handle_predict,
}
use edge_sched.Api.Image.{read_body-image}
use edge_sched.Api.Codes.{
  reply_code, status_code, has_retry_after, is_rejected, handle_predict-Coded,
}
use edge_sched.Api.Effects.{counted_if, ResultOf}
use edge_sched.Api.Counted.{counted, IsQuiet, handle_predict-counted}
use edge_sched.Api.Latest.{Shown, handle_predict-last_result}
use edge_sched.Api.Route.{route-auto, route-unknown_engine}
use edge_sched.Examples.Floats.{whole}

abbrev pub U : Type 0
U = Unit {0}

abbrev pub Resp : Type 0
Resp = PredictResponse whole

abbrev pub names : GoMap U
names = (bytes "m", tt) ∷ (bytes "n", tt) ∷ []

abbrev pub pool : EnginePool whole
pool = Workers.new ℤ Resp (pos 1) (pos 1)

abbrev pub pools : GoMap (EnginePool whole)
pools = (bytes "m", pool) ∷ (bytes "n", pool) ∷ []

abbrev pub site : Site whole U
site = new_server whole U (record {
  clients = names;
  pools = pools;
  monitor = Sys.new whole;
  health_monitor = Health.new U names (pos 3000) (pos 1000);
  policy = record { kind = least_queue; tb = record { counter = 0 } };
  policy_name = bytes "least-queue";
  max_latency_budget = pos 30000000000;
  metrics = no_metrics whole;
})

abbrev pub query : Bytes → Query
query engine = record {
  latency_budget = [];
  engine = engine;
  body = record { content = 1 ∷ 2 ∷ []; fails = false };
  channel = 0;
}

abbrev pub base64 : Bytes → Bytes
base64 b = b

abbrev pub nobody : Others whole U base64 (pos 0)
nobody = record { reading = λ s. s; measuring = λ s. s; waiting = λ s. s }

nobody-IsQuiet : IsQuiet whole U base64 (pos 0) nobody
nobody-IsQuiet = record {
  reading_keeps = λ s. (refl, refl);
  measuring_keeps = λ s. (refl, refl);
  waiting_keeps = λ s. (refl, refl);
}

abbrev pub reply : Arrival whole U
reply =
    result
      (record {
        response = some (record {
          detections = [];
          preprocess_ms = pos 1;
          inference_ms = pos 2;
          postprocess_ms = pos 3;
        });
        err = none;
      })
      (pos 6) (pos 100)

unfoldable pub handler_ops : U
unfolding handle_predict route with_budget parse_latency_budget choose_engine with_pool after_route
    read_body read_all image_of after_read admit submitted after_admit answer with_result succeed
    finish new_server Health.new Health.all_up Health.healthy lookup put str_eq Workers.new
    Workers.submit Workers.find_parked Workers.send run
handler_ops = tt

handle_predict-Coded_example :
    let o = (handle_predict whole U base64 (pos 0) nobody site (query (bytes "n")) deadline).0 in
    (reply_code whole o.reply ≡ status_code o.status)
    × (has_retry_after whole o.reply ≡ is_rejected o.status)
handle_predict-Coded_example =
    handle_predict-Coded whole U base64 (pos 0) nobody site (query (bytes "n")) deadline

handle_predict-counted_example :
    let r = handle_predict whole U base64 (pos 0) nobody site (query (bytes "n")) reply in
    (r.1.metrics.requests_total ≡ counted r.0.engine_name r.0.status site.metrics.requests_total)
    × (r.1.metrics.admission_rejections
        ≡ counted_if (is_rejected r.0.status) r.0.engine_name site.metrics.admission_rejections)
    × ResultOf whole U r.0 site r.1
handle_predict-counted_example =
    handle_predict-counted whole U base64 (pos 0) nobody nobody-IsQuiet site (query (bytes "n"))
      reply

handle_predict-last_result_example :
    Shown whole U base64
      (pos 0)
      (handle_predict whole U base64 (pos 0) nobody site (query (bytes "n")) reply)
unfolding handler_ops
handle_predict-last_result_example =
    handle_predict-last_result whole U base64 (pos 0) nobody site (query (bytes "n")) reply refl

route-auto_example :
    ((r : Routed) × ((route whole U site (query [])).0 ≡ go r)
      × (r.budget ≡ default_latency_budget)
      × (r.auto_routed ≡ true)
      × (healthy U site.health_monitor r.engine_name ≡ true)
      × ((p : EnginePool whole) × (lookup r.engine_name site.pools ≡ some p)))
    ⊎ (All (λ e. e.healthy ≡ false) (engine_states whole U site)
        × ((route whole U site (query [])).0
            ≡ stopped whole [] routing_failed (http_error 503 (no_route no_healthy_engines))))
unfolding parse_latency_budget
route-auto_example = route-auto whole U site (query []) default_latency_budget refl refl

abbrev begun : Reach U names (pos 3000) (pos 1000) (run U names (pos 3000) (pos 1000))
begun = started

route-unknown_engine_example :
    (route whole U site (query (bytes "x"))).0
    ≡ stopped whole (bytes "x") engine_unhealthy (http_error 503 (unhealthy (bytes "x")))
unfolding handler_ops
route-unknown_engine_example =
    route-unknown_engine whole U begun site (query (bytes "x")) default_latency_budget refl
      (λ e. ground arith) refl refl

abbrev image : Bytes
image = 1 ∷ 2 ∷ []

read_body-image_example :
    (image ≡ take max_image_bytes image) × (0 < length image) × (length image ≤ max_image_bytes)
unfolding handler_ops
read_body-image_example =
    read_body-image whole (record { engine_name = bytes "n"; auto_routed = false; budget = pos 1 })
      (record { content = image; fails = false }) image refl
