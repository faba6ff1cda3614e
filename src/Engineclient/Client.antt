-- ===== src/Engineclient/Client.antt =====
-- scheduler/internal/engineclient/client.go, and the worker's call of it in
-- scheduler/internal/workerpool/pool.go. gRPC is outside: a connection is a value of any type, and
-- what dialling, closing and a call return is an argument. `quote` is the verb `%q`.
use edge_sched.Prelude.{Bool, ◌++◌, Option, none, some, Result, ok, err, panic}
use edge_sched.Prelude.Bytes.{Bytes, bytes}
use edge_sched.Prelude.Floats.{Floats}
use edge_sched.Api.Wire.{PredictResponse}
use edge_sched.Healthcheck.Monitor.{Rpc, rpc_error, response}
use edge_sched.Workerpool.Pool as Workers

-- The errors that the client returns; each wraps the error of gRPC.
pub data ClientError : Type 0 where
  connecting : (name addr cause : Bytes) → ClientError
  health_checking : (name cause : Bytes) → ClientError
  predicting : (name cause : Bytes) → ClientError

-- `Error()`
unfoldable pub error_text : (Bytes → Bytes) → ClientError → Bytes
error_text quote (connecting name addr cause) =
    bytes "connecting to engine "
    ++ (quote name ++ (bytes " at " ++ (addr ++ (bytes ": " ++ cause))))
error_text quote (health_checking name cause) =
    bytes "health check on engine " ++ (quote name ++ (bytes ": " ++ cause))
error_text quote (predicting name cause) =
    bytes "predict on engine " ++ (quote name ++ (bytes ": " ++ cause))

-- `pb.HealthCheckResponse`
pub record HealthCheckResponse : Type 0 where
  pub serving : Bool
  pub engine_name : Bytes

-- `pb.PredictRequest`
pub record PredictRequest : Type 0 where
  pub image_data : Bytes

-- What a call of gRPC returns: an error's text, or a message.
pub data Call (A : Type 0) : Type 0 where
  failed : Bytes → Call A
  replied : A → Call A

module _ (Conn : Type 0) where
  pub record Client : Type 0 where
    pub name : Bytes
    pub addr : Bytes
    pub conn : Conn

  -- `New`, with what `grpc.NewClient` returned for the address.
  unfoldable pub new : Bytes → Bytes → Call Conn → Result ClientError Client
  new name addr (failed e) = err (connecting name addr e)
  new name addr (replied conn) = ok (record { name = name; addr = addr; conn = conn })

  -- `Close`: what closing the connection returns, and the connection after it.
  unfoldable pub close : (Conn → Option Bytes × Conn) → Client → Option Bytes × Client
  close close_conn c = let (e, conn) = close_conn c.conn in (e, record c { conn = conn })

  unfoldable pub health_check :
      Client → Call HealthCheckResponse → Result ClientError HealthCheckResponse
  health_check c (failed e) = err (health_checking c.name e)
  health_check c (replied resp) = ok resp

  -- The request that `Predict` sends, and its return.
  unfoldable pub predict_request : Bytes → PredictRequest
  predict_request image = record { image_data = image }

  module _ (fl : Floats) where
    unfoldable pub predict :
        Client → Call (PredictResponse fl) → Result ClientError (PredictResponse fl)
    predict c (failed e) = err (predicting c.name e)
    predict c (replied resp) = ok resp

    -- `resp, err := predictor.Predict(...)`, and the `Result` that a worker makes of it.
    unfoldable pub worker_result :
        {Ctx : Type 0}
        → (Bytes → Bytes)
        → Result ClientError (PredictResponse fl)
        → Workers.Result Ctx (PredictResponse fl)
    unfolding error_text
    worker_result quote (ok resp) = record { response = some resp; err = none }
    worker_result quote (err e) = record { response = none; err = some (error_text quote e) }
    worker_result quote panic = record { response = none; err = none }

  -- What the health monitor's checker makes of a check.
  unfoldable pub rpc_of : Result ClientError HealthCheckResponse → Rpc
  rpc_of (ok resp) = response resp.serving
  rpc_of (err e) = rpc_error
  rpc_of panic = rpc_error
