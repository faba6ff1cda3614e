-- ===== src/Api/Predict.antt =====
-- scheduler/internal/api/handlers.go: `HandlePredict`, in the phases between which other goroutines
-- run: routing, with the lookup of the pool; reading the body; reading the queue depth; submitting;
-- and the answer. What the others do to the server between two phases is a parameter.
use edge_sched.Prelude.{
  ℕ, zero, suc, ◌/◌, ltb, if◌then◌else◌, Bool, [], ◌∷◌, Option, none, some, length, take, map,
}
use edge_sched.Prelude.Int.{ℤ, pos, negsuc}
use edge_sched.Prelude.Bytes.{Bytes}
use edge_sched.Prelude.Floats.{Floats}
use edge_sched.Api.Wire.{
  Detection, DetectionJson, PredictResponse, PredictResponseJson, LastResultJson, Reply, http_error,
  unknown_engine, unread_body, empty_body,
}
use edge_sched.Api.Server.{
  Status, bad_request, preprocess, inference, postprocess, total, Metrics, EnginePool,
}

abbrev pub max_image_bytes : ℕ
max_image_bytes = 20971520

-- A request's body: its bytes, and whether reading on after them fails.
pub record Reader : Type 0 where
  pub content : Bytes
  pub fails : Bool

-- `io.ReadAll(io.LimitReader(r.Body, maxImageBytes))`
unfoldable pub read_all : Reader → Option Bytes
read_all r =
    if ltb (length r.content) max_image_bytes
    then (if r.fails then none else some r.content)
    else some (take max_image_bytes r.content)

-- A prediction request: two query parameters, empty where missing, the body, and the identity of the
-- result channel that the handler makes.
pub record Query : Type 0 where
  pub latency_budget : Bytes
  pub engine : Bytes
  pub body : Reader
  pub channel : ℕ

-- The variables of the handler once the engine and its pool are known.
pub record Routed : Type 0 where
  pub engine_name : Bytes
  pub auto_routed : Bool
  pub budget : ℤ

-- `d / time.Millisecond`: the division truncates toward 0.
abbrev pub negated : ℕ → ℤ
negated zero = pos 0
negated (suc n) = negsuc n

unfoldable pub to_milliseconds : ℤ → ℤ
to_milliseconds (pos n) = pos (n / 1000000)
to_milliseconds (negsuc n) = negated (suc n / 1000000)

module _ (fl : Floats) where
  open fl use {F}

  -- What a phase ends with: the handler's return, with the deferred function's two variables, or the
  -- variables of the next phase.
  pub record Outcome : Type 0 where
    pub engine_name : Bytes
    pub status : Status
    pub reply : Reply fl

  pub data Phase (A : Type 0) : Type 0 where
    stop : Outcome → Phase A
    go : A → Phase A

  abbrev pub stopped : {A : Type 0} → Bytes → Status → Reply fl → Phase A
  stopped engine status reply =
      stop (record { engine_name = engine; status = status; reply = reply })

  -- `pool, ok := s.pools[engineName]`
  unfoldable pub with_pool : Routed → Option (EnginePool fl) → Phase Routed
  with_pool r none =
      stopped r.engine_name bad_request (http_error 400 (unknown_engine r.engine_name))
  with_pool r (some pool) = go r

  unfoldable pub image_of : Routed → Option Bytes → Phase Bytes
  image_of r none = stopped r.engine_name bad_request (http_error 400 unread_body)
  image_of r (some []) = stopped r.engine_name bad_request (http_error 400 empty_body)
  image_of r (some (b ∷ image)) = go (b ∷ image)

  unfoldable pub read_body : Routed → Reader → Phase Bytes
  unfolding read_all image_of
  read_body r body = image_of r (read_all body)

  unfoldable pub detection_json : Detection fl → DetectionJson fl
  detection_json d = record {
    x1 = d.x1;
    y1 = d.y1;
    x2 = d.x2;
    y2 = d.y2;
    confidence = d.confidence;
    class_id = d.class_id;
    class_name = d.class_name;
  }

  -- What the getters of a nil response give.
  module _ (zero_f32 : fl.F32) where
    abbrev pub response_of : Option (PredictResponse fl) → PredictResponse fl
    response_of none = record {
      detections = [];
      preprocess_ms = zero_f32;
      inference_ms = zero_f32;
      postprocess_ms = zero_f32;
    }
    response_of (some resp) = resp

  -- `Observe(float64(ms) / 1000)`
  abbrev pub seconds : fl.F32 → F
  seconds ms = fl.div (fl.of_float32 ms) (fl.of_int (pos 1000))

  unfoldable pub observe : Bytes → PredictResponse fl → F → Metrics fl → Metrics fl
  observe engine resp elapsed m = record m {
    request_duration =
        ((engine, total), elapsed)
        ∷ ((engine, postprocess), seconds resp.postprocess_ms)
        ∷ ((engine, inference), seconds resp.inference_ms)
        ∷ ((engine, preprocess), seconds resp.preprocess_ms)
        ∷ m.request_duration;
  }

  unfoldable pub prediction_json : Routed → PredictResponse fl → ℕ → PredictResponseJson fl
  unfolding detection_json to_milliseconds
  prediction_json r resp depth = record {
    engine = r.engine_name;
    detections = map detection_json resp.detections;
    preprocess_ms = resp.preprocess_ms;
    inference_ms = resp.inference_ms;
    postprocess_ms = resp.postprocess_ms;
    queue_depth = depth;
    auto_routed = r.auto_routed;
    latency_budget_ms = to_milliseconds r.budget;
  }

  -- `base64` is the encoder of the standard library, and `now` the time in milliseconds.
  unfoldable pub last_result_json :
      (Bytes → Bytes) → Routed → Bytes → PredictResponse fl → ℤ → LastResultJson fl
  unfolding detection_json
  last_result_json base64 r image resp now = record {
    image_base64 = base64 image;
    engine = r.engine_name;
    auto_routed = r.auto_routed;
    preprocess_ms = resp.preprocess_ms;
    inference_ms = resp.inference_ms;
    postprocess_ms = resp.postprocess_ms;
    detections = map detection_json resp.detections;
    timestamp_ms = now;
  }
