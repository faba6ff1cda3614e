-- ===== src/Engineclient/Forward.antt =====
-- What an engine answers to `Predict`, as the client of the API sees it: from the call in
-- scheduler/internal/engineclient/client.go to the reply of `HandlePredict`.
use edge_sched.Prelude.{ℕ, ◌≡◌, refl, ap, ◌∙◌, subst, sym, List, [], ◌∷◌, ◌++◌, map, some}
use edge_sched.Prelude.Int.{ℤ}
use edge_sched.Prelude.Bytes.{Bytes, bytes}
use edge_sched.Prelude.Maps.{lookup}
use edge_sched.Prelude.Floats.{Floats}
use edge_sched.Json.Value.{Codec}
use edge_sched.Api.Wire.{
  Detection, DetectionJson, PredictResponse, PredictResponseJson, json, prediction,
}
use edge_sched.Api.Bodies.{reason_text, sent_reply}
use edge_sched.Api.Server.{Status, success, error, Metrics}
use edge_sched.Api.Predict.{
  Query, Routed, Outcome, detection_json, observe, prediction_json, last_result_json,
}
use edge_sched.Api.Handler.{Site, route, depth_of, result}
use edge_sched.Api.Answer.{
  succeed, with_result, answer, count_request, finish, Others, handle_predict,
}
use edge_sched.Api.Effects.{Kept}
use edge_sched.Api.Counted.{counted, IsQuiet}
use edge_sched.Engineclient.Client.{
  PredictRequest, Call, failed, replied, Client, predict_request, predict, worker_result,
  error_text,
}
use edge_sched.Engineclient.Reached.{IsAccepted, selecting, handle_predict-accepted, selecting-Kept}

module _ (fl : Floats) where
  -- Field by field, what the engine detected.
  abbrev pub IsDetection : Detection fl → DetectionJson fl → Type 0
  IsDetection d e =
      (e.x1 ≡ d.x1)
      × (e.y1 ≡ d.y1)
      × (e.x2 ≡ d.x2)
      × (e.y2 ≡ d.y2)
      × (e.confidence ≡ d.confidence)
      × (e.class_id ≡ d.class_id)
      × (e.class_name ≡ d.class_name)

  -- One for one, and in the same order.
  abbrev pub AreDetections : List (Detection fl) → List (DetectionJson fl) → Type 0
  AreDetections [] [] = Unit
  AreDetections (d ∷ ds) (e ∷ es) = IsDetection d e × AreDetections ds es
  AreDetections _ _ = ⊥

  map-AreDetections : (ds : List (Detection fl)) → AreDetections ds (map (detection_json fl) ds)
  unfolding detection_json
  map-AreDetections [] = tt
  map-AreDetections (d ∷ ds) = ((refl, refl, refl, refl, refl, refl, refl), map-AreDetections ds)

  module _ (Conn : Type 0) (base64 : Bytes → Bytes) (zero_f32 : fl.F32) (quote : Bytes → Bytes)
      (codec : Codec fl) where
    abbrev pub Server : Type 0
    Server = Site fl (Client Conn)

    -- A success, with the engine's detections and times. Or an error, of which only the count changes
    -- the metrics, and nothing the latest result; what is sent has code 500, the name of the client's
    -- engine, and gRPC's own text. Both are counted if the engine has a name.
    abbrev pub Forwards :
        Server → Routed → Client Conn → Call (PredictResponse fl) → Outcome fl × Server → Type 0
    Forwards s r c (replied resp) (o, t) =
        (o.status ≡ success)
        × (t.metrics.requests_total ≡ counted r.engine_name success s.metrics.requests_total)
        × ((p : PredictResponseJson fl) × (o.reply ≡ json (prediction p))
            × (p.engine ≡ r.engine_name)
            × AreDetections resp.detections p.detections
            × (p.preprocess_ms ≡ resp.preprocess_ms)
            × (p.inference_ms ≡ resp.inference_ms)
            × (p.postprocess_ms ≡ resp.postprocess_ms))
    Forwards s r c (failed e) (o, t) =
        (o.status ≡ error)
        × (t.metrics ≡ record (s.metrics) {
          requests_total = counted r.engine_name error s.metrics.requests_total;
        })
        × (t.last_result ≡ s.last_result)
        × (sent_reply fl codec quote o.reply
            ≡ some (
              500,
              bytes "inference failed: predict on engine "
                  ++ ((quote c.name ++ (bytes ": " ++ e)) ++ b'\n' ∷ []),
            ))

    count_request-counted :
        (engine : Bytes) (status : Status) (m : Metrics fl)
        → count_request fl (Client Conn) base64 zero_f32 engine status m
          ≡ record m { requests_total = counted engine status m.requests_total }
    unfolding count_request
    count_request-counted [] status m = refl
    count_request-counted (c ∷ engine) status m = refl

    -- After what a worker made of the call.
    answer-Forwards :
        (s : Server) (r : Routed) (depth : ℕ) (image : Bytes) (c : Client Conn)
        (call : Call (PredictResponse fl)) (elapsed : fl.F) (now : ℤ)
        → Forwards s r c call (
            finish fl (Client Conn) base64 zero_f32 (
              answer fl
                (Client Conn)
                base64
                zero_f32
                s
                r
                depth
                image
                (result (worker_result Conn fl quote (predict Conn fl c call)) elapsed now)))
    unfolding answer with_result succeed observe prediction_json last_result_json predict
        worker_result error_text finish sent_reply reason_text
    answer-Forwards s r depth image c (replied resp) elapsed now = (
      refl,
      ap (λ (m : Metrics fl). m.requests_total)
          (count_request-counted r.engine_name success
            (observe fl r.engine_name resp elapsed s.metrics)),
      (
        prediction_json fl r resp depth,
        refl,
        refl,
        map-AreDetections resp.detections,
        refl,
        refl,
        refl,
      ),
    )
    answer-Forwards s r depth image c (failed e) elapsed now =
        (refl, count_request-counted r.engine_name error s.metrics, refl, refl)

    Forwards-Kept :
        (s t : Server) (r : Routed) (c : Client Conn) (call : Call (PredictResponse fl))
        (p : Outcome fl × Server)
        → Kept fl (Client Conn) s t
        → Forwards t r c call p
        → Forwards s r c call p
    Forwards-Kept s t r c (replied resp) p (e, f) (won, count, told) =
        (won, count ∙ ap (λ m. counted r.engine_name success m.requests_total) e, told)
    Forwards-Kept s t r c (failed x) p (e, f) (lost, metrics, latest, sent) = (
      lost,
      metrics
          ∙ ap
              (λ (m : Metrics fl). record m {
                requests_total = counted r.engine_name error m.requests_total;
              })
              e,
      latest ∙ f,
      sent,
    )

    -- A prediction is routed, its body is read as an image, and the pool accepts it; meanwhile no other
    -- request is served; and what the handler receives is what a worker made of the call of the engine
    -- with that image. If the engine replied, the prediction succeeds, is counted so if its engine has
    -- a name, and has the engine's detections, field by field and in order, and its times. If the call
    -- failed, the status is `error`; the client gets code 500 with the name of the worker's engine and
    -- gRPC's text; and of the metrics and the latest result nothing changes but the count of the
    -- request, if its engine has a name.
    pub handle_predict-Forwards :
        (others : Others fl (Client Conn) base64 zero_f32)
        → IsQuiet fl (Client Conn) base64 zero_f32 others
        → (s : Server) (q : Query) (r : Routed) (image : Bytes)
        → IsAccepted fl (Client Conn) base64 zero_f32 others s q r image
        → (c : Client Conn) (engine : PredictRequest → Call (PredictResponse fl)) (elapsed : fl.F)
          (now : ℤ)
        → let call = engine (predict_request Conn image) in
          Forwards s r c call (
            handle_predict fl
              (Client Conn)
              base64
              zero_f32
              others
              s
              q
              (result (worker_result Conn fl quote (predict Conn fl c call)) elapsed now))
    handle_predict-Forwards others quiet s q r image accepted c engine elapsed now =
        let call = engine (predict_request Conn image) in
        let arrival = result (worker_result Conn fl quote (predict Conn fl c call)) elapsed now in
        let t = selecting fl (Client Conn) base64 zero_f32 others s q r image in
        let pools = (others.reading (route fl (Client Conn) s q).1).pools in
        let depth = depth_of fl (Client Conn) (lookup r.engine_name pools) in
        let kept =
          selecting-Kept fl (Client Conn) base64 zero_f32 others s q r image quiet accepted in
        subst (Forwards s r c call)
          (sym (
            handle_predict-accepted fl (Client Conn) base64 zero_f32 others s q arrival r image
              accepted))
          (Forwards-Kept s t r c call _ kept (answer-Forwards t r depth image c call elapsed now))
