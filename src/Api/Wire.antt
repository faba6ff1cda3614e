-- ===== src/Api/Wire.antt =====
-- scheduler/internal/api/handlers.go: the JSON bodies of the replies, and the fields of the engine's
-- protobuf messages that the handlers read. An encoded body is the record that is encoded.
use edge_sched.Prelude.{ℕ, Bool, List}
use edge_sched.Prelude.Int.{ℤ}
use edge_sched.Prelude.Bytes.{Bytes}
use edge_sched.Prelude.Floats.{Floats}
use edge_sched.Routing.Pick.{RoutingError}

module _ (fl : Floats) where
  open fl use {F, F32}

  -- `pb.Detection`, and `detectionJSON`, which has the same fields.
  pub record Detection : Type 0 where
    pub x1 : F32
    pub y1 : F32
    pub x2 : F32
    pub y2 : F32
    pub confidence : F32
    pub class_id : ℤ
    pub class_name : Bytes

  pub record DetectionJson : Type 0 where
    pub x1 : F32
    pub y1 : F32
    pub x2 : F32
    pub y2 : F32
    pub confidence : F32
    pub class_id : ℤ
    pub class_name : Bytes

  -- `pb.PredictResponse`
  pub record PredictResponse : Type 0 where
    pub detections : List Detection
    pub preprocess_ms : F32
    pub inference_ms : F32
    pub postprocess_ms : F32

  pub record PredictResponseJson : Type 0 where
    pub engine : Bytes
    pub detections : List DetectionJson
    pub preprocess_ms : F32
    pub inference_ms : F32
    pub postprocess_ms : F32
    pub queue_depth : ℕ
    pub auto_routed : Bool
    pub latency_budget_ms : ℤ

  pub record EngineStatusJson : Type 0 where
    pub name : Bytes
    pub queue_depth : ℕ
    pub healthy : Bool

  pub record SystemStatusJson : Type 0 where
    pub valid : Bool
    pub max_temp_c : F
    pub power_mw : F
    pub gpu_util_pct : F
    pub ram_used_mb : ℤ
    pub ram_total_mb : ℤ
    pub power_mode : Bytes

  pub record StatusJson : Type 0 where
    pub policy : Bytes
    pub engines : List EngineStatusJson
    pub system : SystemStatusJson
    pub last_result_at : ℤ

  pub record LastResultJson : Type 0 where
    pub image_base64 : Bytes
    pub engine : Bytes
    pub auto_routed : Bool
    pub preprocess_ms : F32
    pub inference_ms : F32
    pub postprocess_ms : F32
    pub detections : List DetectionJson
    pub timestamp_ms : ℤ

  -- The body of `GET /health`
  pub record HealthJson : Type 0 where
    pub serving : Bool
    pub engine_name : Bytes

  -- What `http.Error` writes: the reasons that the handlers give, with the texts they contain.
  pub data Reason : Type 0 where
    invalid_budget : Bytes → Reason
    no_route : RoutingError → Reason
    unhealthy : Bytes → Reason
    unknown_engine : Bytes → Reason
    unread_body : Reason
    empty_body : Reason
    overloaded : Bytes → Reason
    inference_failed : Bytes → Reason
    timed_out : Reason
    missing_engine : Reason
    health_check_failed : Bytes → Reason
    no_result_yet : Reason

  pub data Body : Type 0 where
    prediction : PredictResponseJson → Body
    engine_health : HealthJson → Body
    status_body : StatusJson → Body
    last_result_body : LastResultJson → Body

  -- A reply: `http.Error` with its code; the same after the header `Retry-After` was set; a JSON body;
  -- or a handler that panics, whose connection the server closes.
  pub data Reply : Type 0 where
    http_error : ℕ → Reason → Reply
    retry_later : ℕ → Reason → Reply
    json : Body → Reply
    aborted : Reply
