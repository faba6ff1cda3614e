-- ===== src/Api/Bodies.antt =====
-- scheduler/internal/api/handlers.go: the bytes of the replies. A JSON body is its record by the tags
-- of the struct; where encoding it fails, nothing is written. `quote` is the verb `%q`.
use edge_sched.Prelude.{ℕ, List, [], ◌∷◌, ◌++◌, map, Option, none, some}
use edge_sched.Prelude.Int.{pos}
use edge_sched.Prelude.Bytes.{Bytes, bytes}
use edge_sched.Prelude.Floats.{Floats}
use edge_sched.Json.Value.{Json, null, Codec}
use edge_sched.Json.Encode.{number_of, struct, items_of, array_of, text_of, int_of, bool_of}
use edge_sched.Routing.Pick.{RoutingError, no_engines_available, no_healthy_engines}
use edge_sched.Api.Wire.{
  DetectionJson, PredictResponseJson, EngineStatusJson, SystemStatusJson, StatusJson,
  LastResultJson, HealthJson, Reason, invalid_budget, no_route, unhealthy, unknown_engine,
  unread_body, empty_body, overloaded, inference_failed, timed_out, missing_engine,
  health_check_failed, no_result_yet, Body, prediction, engine_health, status_body,
  last_result_body, Reply, http_error, retry_later, json, aborted,
}

abbrev pub routing_error_text : RoutingError → Bytes
routing_error_text no_engines_available = bytes "no engines available"
routing_error_text no_healthy_engines = bytes "no healthy engines available"

module _ (fl : Floats) (codec : Codec fl) where
  unfoldable pub reason_text : (Bytes → Bytes) → Reason fl → Bytes
  reason_text quote (invalid_budget raw) =
      bytes "invalid latency_budget_ms: " ++ (quote raw ++ bytes " (must be a positive integer)")
  reason_text quote (no_route e) = bytes "routing failed: " ++ routing_error_text e
  reason_text quote (unhealthy name) =
      bytes "engine " ++ (quote name ++ bytes " is currently unhealthy")
  reason_text quote (unknown_engine name) = bytes "unknown engine: " ++ quote name
  reason_text quote unread_body = bytes "failed to read request body"
  reason_text quote empty_body = bytes "empty request body -- expected raw image bytes"
  reason_text quote (overloaded name) =
      bytes "engine " ++ (quote name ++ bytes " is overloaded (queue full), try again shortly")
  reason_text quote (inference_failed e) = bytes "inference failed: " ++ e
  reason_text quote timed_out =
      bytes "request timed out waiting for inference (latency budget exceeded)"
  reason_text quote missing_engine = bytes "missing required query param: engine"
  reason_text quote (health_check_failed e) = bytes "health check failed: " ++ e
  reason_text quote no_result_yet = bytes "no successful predictions yet"

  abbrev pub Value : Type 0
  Value = Option (Json codec.Num)

  abbrev pub float32_of : fl.F32 → Value
  float32_of x = number_of (codec.of_f32 x)

  abbrev pub float64_of : fl.F → Value
  float64_of x = number_of (codec.of_f64 x)

  abbrev pub detection_members : DetectionJson fl → List (Bytes × Value)
  detection_members d =
      (bytes "x1", float32_of d.x1)
      ∷ (bytes "y1", float32_of d.y1)
      ∷ (bytes "x2", float32_of d.x2)
      ∷ (bytes "y2", float32_of d.y2)
      ∷ (bytes "confidence", float32_of d.confidence)
      ∷ (bytes "class_id", int_of fl codec d.class_id)
      ∷ (bytes "class_name", text_of fl codec d.class_name)
      ∷ []

  unfoldable pub encode_detection : DetectionJson fl → Value
  encode_detection d = struct (detection_members d)

  -- A slice to which nothing was appended is nil.
  unfoldable pub encode_detections : List (DetectionJson fl) → Value
  encode_detections [] = some null
  encode_detections (d ∷ ds) = array_of (items_of (map encode_detection (d ∷ ds)))

  -- The members of a prediction, with the values of those that may have none.
  abbrev pub prediction_members :
      PredictResponseJson fl → Value → Value → Value → Value → List (Bytes × Value)
  prediction_members p detections preprocess inference postprocess =
      (bytes "engine", text_of fl codec p.engine)
      ∷ (bytes "detections", detections)
      ∷ (bytes "preprocess_ms", preprocess)
      ∷ (bytes "inference_ms", inference)
      ∷ (bytes "postprocess_ms", postprocess)
      ∷ (bytes "queue_depth_at_submit", int_of fl codec (pos p.queue_depth))
      ∷ (bytes "auto_routed", bool_of fl codec p.auto_routed)
      ∷ (bytes "latency_budget_ms", int_of fl codec p.latency_budget_ms)
      ∷ []

  unfoldable pub encode_prediction : PredictResponseJson fl → Value
  encode_prediction p = struct (
      prediction_members p (encode_detections p.detections) (float32_of p.preprocess_ms)
        (float32_of p.inference_ms) (float32_of p.postprocess_ms))

  unfoldable pub encode_engine : EngineStatusJson fl → Value
  encode_engine e = struct (
      (bytes "name", text_of fl codec e.name)
      ∷ (bytes "queue_depth", int_of fl codec (pos e.queue_depth))
      ∷ (bytes "healthy", bool_of fl codec e.healthy)
      ∷ [])

  unfoldable pub encode_system : SystemStatusJson fl → Value
  encode_system s = struct (
      (bytes "valid", bool_of fl codec s.valid)
      ∷ (bytes "max_temp_c", float64_of s.max_temp_c)
      ∷ (bytes "power_mw", float64_of s.power_mw)
      ∷ (bytes "gpu_util_pct", float64_of s.gpu_util_pct)
      ∷ (bytes "ram_used_mb", int_of fl codec s.ram_used_mb)
      ∷ (bytes "ram_total_mb", int_of fl codec s.ram_total_mb)
      ∷ (bytes "power_mode", text_of fl codec s.power_mode)
      ∷ [])

  unfoldable pub encode_status : StatusJson fl → Value
  encode_status s = struct (
      (bytes "policy", text_of fl codec s.policy)
      ∷ (bytes "engines", array_of (items_of (map encode_engine s.engines)))
      ∷ (bytes "system", encode_system s.system)
      ∷ (bytes "last_result_at", int_of fl codec s.last_result_at)
      ∷ [])

  unfoldable pub encode_last_result : LastResultJson fl → Value
  encode_last_result r = struct (
      (bytes "image_base64", text_of fl codec r.image_base64)
      ∷ (bytes "engine", text_of fl codec r.engine)
      ∷ (bytes "auto_routed", bool_of fl codec r.auto_routed)
      ∷ (bytes "preprocess_ms", float32_of r.preprocess_ms)
      ∷ (bytes "inference_ms", float32_of r.inference_ms)
      ∷ (bytes "postprocess_ms", float32_of r.postprocess_ms)
      ∷ (bytes "detections", encode_detections r.detections)
      ∷ (bytes "timestamp_ms", int_of fl codec r.timestamp_ms)
      ∷ [])

  -- A map, whose keys are written in order.
  unfoldable pub encode_health : HealthJson fl → Value
  encode_health h = struct (
      (bytes "engine_name", text_of fl codec h.engine_name)
      ∷ (bytes "serving", bool_of fl codec h.serving)
      ∷ [])

  unfoldable pub encode_body : Body fl → Value
  encode_body (prediction p) = encode_prediction p
  encode_body (engine_health h) = encode_health h
  encode_body (status_body s) = encode_status s
  encode_body (last_result_body r) = encode_last_result r

  abbrev pub written : Value → Bytes
  written none = []
  written (some j) = codec.print j

  -- The code and the body that a client receives, if any; `http.Error` ends its text with a newline.
  unfoldable pub sent_reply : (Bytes → Bytes) → Reply fl → Option (ℕ × Bytes)
  sent_reply quote (http_error code reason) = some (code, reason_text quote reason ++ b'\n' ∷ [])
  sent_reply quote (retry_later code reason) = some (code, reason_text quote reason ++ b'\n' ∷ [])
  sent_reply quote (json body) = some (200, written (encode_body body))
  sent_reply quote aborted = none
