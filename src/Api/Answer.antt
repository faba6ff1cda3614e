-- ===== src/Api/Answer.antt =====
-- scheduler/internal/api/handlers.go: the end of `HandlePredict`, the handler as a whole, and
-- `HandleLastResult`. What other goroutines do to the server between two phases is a parameter.
use edge_sched.Prelude.{ℕ, [], ◌∷◌, Option, none, some}
use edge_sched.Prelude.Int.{ℤ}
use edge_sched.Prelude.Bytes.{Bytes}
use edge_sched.Prelude.Maps.{lookup}
use edge_sched.Prelude.Floats.{Floats}
use edge_sched.Api.Wire.{
  PredictResponse, Reply, http_error, json, prediction, last_result_body, inference_failed,
  timed_out, no_result_yet,
}
use edge_sched.Api.Server.{Status, error, success, timeout, Metrics}
use edge_sched.Api.Predict.{
  Query, Routed, Outcome, Phase, stop, go, read_body, response_of, observe, prediction_json,
  last_result_json,
}
use edge_sched.Api.Handler.{Site, route, depth_of, admit, Arrival, result, deadline}

module _ (fl : Floats) (Client : Type 0) (base64 : Bytes → Bytes) (zero_f32 : fl.F32) where
  abbrev pub outcome : Bytes → Status → Reply fl → Outcome fl
  outcome engine status reply = record { engine_name = engine; status = status; reply = reply }

  unfoldable pub succeed :
      Site fl Client
      → Routed
      → ℕ
      → Bytes
      → PredictResponse fl
      → fl.F
      → ℤ
      → Outcome fl × Site fl Client
  unfolding observe prediction_json last_result_json
  succeed s r depth image resp elapsed now = (
    outcome r.engine_name success (json (prediction (prediction_json fl r resp depth))),
    record s {
      metrics = observe fl r.engine_name resp elapsed s.metrics;
      last_result = some (last_result_json fl base64 r image resp now);
    },
  )

  -- `result.Err != nil`
  unfoldable pub with_result :
      Site fl Client
      → Routed
      → ℕ
      → Bytes
      → Option (PredictResponse fl)
      → Option Bytes
      → fl.F
      → ℤ
      → Outcome fl × Site fl Client
  unfolding succeed
  with_result s r depth image response (some e) elapsed now =
      (outcome r.engine_name error (http_error 500 (inference_failed e)), s)
  with_result s r depth image response none elapsed now =
      succeed s r depth image (response_of fl zero_f32 response) elapsed now

  -- The `select`
  unfoldable pub answer :
      Site fl Client → Routed → ℕ → Bytes → Arrival fl Client → Outcome fl × Site fl Client
  unfolding with_result
  answer s r depth image (result res elapsed now) =
      with_result s r depth image res.response res.err elapsed now
  answer s r depth image deadline = (outcome r.engine_name timeout (http_error 504 timed_out), s)

  -- The deferred function: `status` is counted if `engineName` is not empty.
  unfoldable pub count_request : Bytes → Status → Metrics fl → Metrics fl
  count_request [] status m = m
  count_request (c ∷ engine) status m = record m {
    requests_total = (c ∷ engine, status) ∷ m.requests_total;
  }

  unfoldable pub finish : Outcome fl × Site fl Client → Outcome fl × Site fl Client
  unfolding count_request
  finish (o, s) = (o, record s { metrics = count_request o.engine_name o.status s.metrics })

  -- What the other goroutines do while this one reads the body, between the queue depth and the
  -- submission, and while it waits.
  pub record Others : Type 0 where
    pub reading : Site fl Client → Site fl Client
    pub measuring : Site fl Client → Site fl Client
    pub waiting : Site fl Client → Site fl Client

  unfoldable pub after_admit :
      Others
      → Routed
      → ℕ
      → Bytes
      → Arrival fl Client
      → Phase fl (Unit {0}) × Site fl Client
      → Outcome fl × Site fl Client
  unfolding answer
  after_admit others r depth image arrival (stop o, s) = (o, s)
  after_admit others r depth image arrival (go _, s) =
      answer (others.waiting s) r depth image arrival

  unfoldable pub after_read :
      Others
      → Query
      → Routed
      → Arrival fl Client
      → Phase fl Bytes
      → Site fl Client
      → Outcome fl × Site fl Client
  unfolding after_admit admit
  after_read others q r arrival (stop o) s = (o, s)
  after_read others q r arrival (go image) s =
      after_admit others r (depth_of fl Client (lookup r.engine_name s.pools)) image arrival
        (admit fl Client (others.measuring s) r q.channel image)

  unfoldable pub after_route :
      Others
      → Query
      → Arrival fl Client
      → Phase fl Routed × Site fl Client
      → Outcome fl × Site fl Client
  unfolding after_read read_body
  after_route others q arrival (stop o, s) = (o, s)
  after_route others q arrival (go r, s) =
      after_read others q r arrival (read_body fl r q.body) (others.reading s)

  unfoldable pub handle_predict :
      Others → Site fl Client → Query → Arrival fl Client → Outcome fl × Site fl Client
  unfolding after_route route finish
  handle_predict others s q arrival = finish (after_route others q arrival (route fl Client s q))

  unfoldable pub handle_last_result : Site fl Client → Reply fl
  handle_last_result s = elim s.last_result [
    | none ↦ http_error 404 no_result_yet
    | some r ↦ json (last_result_body r)
  ]
