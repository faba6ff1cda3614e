-- ===== src/Examples/Engineclient.antt =====
-- A prediction whose engine detects something.
use edge_sched.Prelude.{false, refl, [], ◌∷◌}
use edge_sched.Prelude.Int.{ℤ, pos}
use edge_sched.Prelude.Bytes.{Bytes, bytes}
use edge_sched.Sysmonitor.Monitor as Sys
use edge_sched.Healthcheck.Monitor as Health
use edge_sched.Routing.Policy.{least_queue}
use edge_sched.Workerpool.Pool as Workers
use edge_sched.Api.Wire.{Detection, PredictResponse}
use edge_sched.Api.Budget.{default_latency_budget}
use edge_sched.Api.Server.{no_metrics, new_server}
use edge_sched.Api.Predict.{Query, Routed}
use edge_sched.Api.Handler.{Site, result}
use edge_sched.Api.Answer.{Others, handle_predict}
use edge_sched.Api.Counted.{IsQuiet}
use edge_sched.Engineclient.Client.{
  PredictRequest, Call, failed, replied, Client, predict_request, predict, worker_result,
}
use edge_sched.Engineclient.Reached.{IsAccepted}
use edge_sched.Engineclient.Forward.{Forwards, handle_predict-Forwards}
use edge_sched.Examples.Floats.{whole}
use edge_sched.Examples.Codec.{codec}
use edge_sched.Examples.Api.{handler_ops}

abbrev client : Client (Unit {0})
client = record { name = bytes "n"; addr = bytes "h:1"; conn = tt }

abbrev site : Site whole (Client (Unit {0}))
site = new_server whole (Client (Unit {0})) (record {
  clients = (bytes "n", client) ∷ [];
  pools = (bytes "n", Workers.new ℤ (PredictResponse whole) (pos 1) (pos 1)) ∷ [];
  monitor = Sys.new whole;
  health_monitor = Health.new (Client (Unit {0})) ((bytes "n", client) ∷ []) (pos 3000) (pos 1000);
  policy = record { kind = least_queue; tb = record { counter = 0 } };
  policy_name = bytes "least-queue";
  max_latency_budget = pos 30000000000;
  metrics = no_metrics whole;
})

abbrev quote : Bytes → Bytes
quote s = b'"' ∷ s

abbrev base64 : Bytes → Bytes
base64 s = s

abbrev query : Query
query = record {
  latency_budget = [];
  engine = bytes "n";
  body = record { content = 1 ∷ []; fails = false };
  channel = 0;
}

abbrev routed : Routed
routed = record { engine_name = bytes "n"; auto_routed = false; budget = default_latency_budget }

abbrev nobody : Others whole (Client (Unit {0})) base64 (pos 0)
nobody = record { reading = λ s. s; measuring = λ s. s; waiting = λ s. s }

nobody-IsQuiet : IsQuiet whole (Client (Unit {0})) base64 (pos 0) nobody
nobody-IsQuiet = record {
  reading_keeps = λ s. (refl, refl);
  measuring_keeps = λ s. (refl, refl);
  waiting_keeps = λ s. (refl, refl);
}

query-IsAccepted :
    IsAccepted whole (Client (Unit {0})) base64 (pos 0) nobody site query routed (1 ∷ [])
unfolding handler_ops
query-IsAccepted = record { is_routed = refl; is_read = refl; is_admitted = refl }

abbrev found : Detection whole
found = record {
  x1 = pos 1;
  y1 = pos 2;
  x2 = pos 30;
  y2 = pos 40;
  confidence = pos 5;
  class_id = pos 7;
  class_name = bytes "car";
}

-- An engine that detects something in an image that has any bytes.
abbrev answers_to : Bytes → Call (PredictResponse whole)
answers_to [] = failed (bytes "unavailable")
answers_to (x ∷ image) = replied (record {
  detections = found ∷ [];
  preprocess_ms = pos 1;
  inference_ms = pos 2;
  postprocess_ms = pos 3;
})

abbrev engine : PredictRequest → Call (PredictResponse whole)
engine request = answers_to request.image_data

handle_predict-Forwards_example :
    let call = engine (predict_request (Unit {0}) (1 ∷ [])) in
    Forwards whole (Unit {0}) base64 (pos 0) quote codec site routed client call (
      handle_predict whole (Client (Unit {0})) base64 (pos 0) nobody site query (
        result
          (worker_result (Unit {0}) whole quote (predict (Unit {0}) whole client call))
          (pos 6)
          (pos 100)))
handle_predict-Forwards_example =
    handle_predict-Forwards whole (Unit {0}) base64 (pos 0) quote codec nobody nobody-IsQuiet site
      query routed (1 ∷ []) query-IsAccepted client engine (pos 6) (pos 100)
