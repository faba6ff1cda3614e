-- ===== src/Loadgen/Agreed.antt =====
-- scheduler/internal/api/handlers.go and scheduler/cmd/loadgen/main.go: what the load generator takes
-- for a success, and what the scheduler counts as one.
use edge_sched.Prelude.{
  ◌≡◌, ◌≢◌, refl, ◌∙◌, ap, sym, true, Bool-cases, true_not_false, subst, [], length, Option, none,
  some, ◌⊎◌, inl, inr, Result, ok, err, panic, arith,
}
use edge_sched.Prelude.Int.{ℤ}
use edge_sched.Prelude.Bytes.{Bytes}
use edge_sched.Prelude.Floats.{Floats}
use edge_sched.Json.Value.{Json, Codec, IsCodec}
use edge_sched.Api.Wire.{
  PredictResponseJson, Reply, http_error, retry_later, json, aborted, prediction, engine_health,
  status_body, last_result_body,
}
use edge_sched.Api.Server.{
  Status, unknown, bad_request, routing_failed, engine_unhealthy, rejected, error, success, timeout,
}
use edge_sched.Api.Predict.{Query, Outcome}
use edge_sched.Api.Handler.{Site, Arrival}
use edge_sched.Api.Answer.{Others, handle_predict}
use edge_sched.Api.Codes.{
  status_code, is_success, reply_code, is_prediction, told_engine, Coded, outcome-Coded,
}
use edge_sched.Api.Bodies.{encode_prediction, encode_body, sent_reply}
use edge_sched.Loadgen.Send.{
  contents, replied, no_resp, PredictReply, Sent, decode_response, decoded, of_reply, send_one,
}
use edge_sched.Loadgen.Decode.{unmarshalled, decode_value, unmarshal_response, received}
use edge_sched.Loadgen.Outcome.{IsServed, send_one-ok_iff}
use edge_sched.Loadgen.Parsed.{encode_prediction-IsRead}

succeeds : (t : Status) → status_code t ≡ 200 → is_success t ≡ true
succeeds unknown h = absurd (cc)
succeeds bad_request h = absurd (ground (arith, h))
succeeds routing_failed h = absurd (ground (arith, h))
succeeds engine_unhealthy h = absurd (ground (arith, h))
succeeds rejected h = absurd (ground (arith, h))
succeeds error h = absurd (ground (arith, h))
succeeds success h = refl
succeeds timeout h = absurd (ground (arith, h))

is_success-success : (t : Status) → is_success t ≡ true → t ≡ success
is_success-success success h = refl
is_success-success unknown h = absurd (cc)
is_success-success bad_request h = absurd (cc)
is_success-success routing_failed h = absurd (cc)
is_success-success engine_unhealthy h = absurd (cc)
is_success-success rejected h = absurd (cc)
is_success-success error h = absurd (cc)
is_success-success timeout h = absurd (cc)

some_not_none : {A : Type 0} {a : A} → some a ≡ none → ⊥
some_not_none h = cc

module _ (fl : Floats) where
  is_prediction-json :
      (rep : Reply fl)
      → is_prediction fl rep ≡ true
      → (p : PredictResponseJson fl) × (rep ≡ json (prediction p))
  is_prediction-json (json (prediction p)) h = (p, refl)
  is_prediction-json (json (engine_health b)) h = absurd (cc)
  is_prediction-json (json (status_body b)) h = absurd (cc)
  is_prediction-json (json (last_result_body b)) h = absurd (cc)
  is_prediction-json (http_error code reason) h = absurd (cc)
  is_prediction-json (retry_later code reason) h = absurd (cc)
  is_prediction-json aborted h = absurd (cc)

  module _ (codec : Codec fl) (error_text : Bytes → Bytes) (zero : fl.F) where
    abbrev decode : Bytes → Result Bytes (PredictReply fl)
    decode body = unmarshal_response fl codec error_text zero body

    unmarshalled-not_panic :
        (body : Bytes) (o : Option (PredictReply fl))
        → unmarshalled fl codec error_text body o ≢ panic
    unmarshalled-not_panic body none h = cc
    unmarshalled-not_panic body (some r) h = cc

    decode_value-not_panic :
        (body : Bytes) (o : Option (Json codec.Num))
        → decode_value fl codec error_text zero body o ≢ panic
    decode_value-not_panic body none h = cc
    decode_value-not_panic body (some v) h = unmarshalled-not_panic body _ h

    decode-not_panic : (body : Bytes) → decode body ≢ panic
    unfolding unmarshal_response
    decode-not_panic body h = decode_value-not_panic body (codec.parse body) h

    -- A reply that is served has the code 200.
    served-code :
        (quote : Bytes → Bytes) (closed image : Bytes) (rep : Reply fl) (resp : PredictReply fl)
        → IsServed fl zero decode
            (contents image)
            (received closed (sent_reply fl codec quote rep))
            resp
        → reply_code fl rep ≡ 200
    unfolding sent_reply
    served-code quote closed image (http_error code reason) resp (h, d) = h
    served-code quote closed image (retry_later code reason) resp (h, d) = h
    served-code quote closed image (json body) resp h = refl
    served-code quote closed image aborted resp h = absurd h

    module _ (quote : Bytes → Bytes) (closed path image : Bytes) (wall_ms : fl.F) (at : ℤ) where
      -- What the load generator makes of a reply.
      abbrev pub result_of : Reply fl → Sent fl
      result_of rep =
          send_one fl zero decode path (contents image)
            (received closed (sent_reply fl codec quote rep)) wall_ms at

      -- The result has what the prediction says.
      abbrev pub Tells : PredictResponseJson fl → Sent fl → Type 0
      Tells p r =
          (r.error ≡ none)
          × (r.resp.engine ≡ codec.valid_text p.engine)
          × (r.resp.auto_routed ≡ p.auto_routed)
          × (r.resp.num_detections ≡ length p.detections)

      abbrev pub AfterPrediction : PredictResponseJson fl → Reply fl → Type 0
      AfterPrediction p rep =
          ((v : Json codec.Num) × (encode_prediction fl codec p ≡ some v) × Tells p (result_of rep))
          ⊎ ((encode_prediction fl codec p ≡ none)
              × ((result_of rep).error ≡ some (decode_response (error_text []))))

      abbrev awaiting : Sent fl
      awaiting = record {
        path = path;
        status_code = 200;
        error = none;
        wall_ms = wall_ms;
        timestamp_ms = at;
        resp = no_resp fl zero;
      }

      replied-200 :
          (body : Bytes) (d : Result Bytes (PredictReply fl))
          → decode body ≡ d
          → send_one fl zero decode path (contents image) (replied 200 body) wall_ms at
            ≡ decoded fl zero decode awaiting d
      unfolding send_one of_reply
      replied-200 body d h = ap (decoded fl zero decode awaiting) h

      result_of-prediction :
          (p : PredictResponseJson fl) → IsCodec fl codec → AfterPrediction p (json (prediction p))
      unfolding sent_reply encode_body unmarshal_response decoded
      result_of-prediction p laws =
          elim (encode_prediction-IsRead fl codec laws p (no_resp fl zero)) [
            | inl missing ↦ inr (
              missing,
              rw missing (
                  ap (λ (r : Sent fl). r.error)
                    (replied-200 [] (err (error_text []))
                      (ap (decode_value fl codec error_text zero []) laws.parse-nil))),
            )
            | inr (v, some_v, t, (resp, d, engine, auto, num)) ↦
                let body = codec.print v in
                let read =
                  ap (decode_value fl codec error_text zero body) (laws.parse-print v t)
                  ∙ ap (unmarshalled fl codec error_text body) d in
                let same : result_of (json (prediction p))
                    ≡ decoded fl zero decode awaiting (ok resp) =
                  rw some_v (replied-200 body (ok resp) read) in
                inl (v, some_v, subst (Tells p) (sym same) (refl, engine, auto, num))
          ]

      -- A prediction that was encoded gives no error.
      pub result_of-encoded :
          (p : PredictResponseJson fl) (v : Json codec.Num)
          → IsCodec fl codec
          → encode_prediction fl codec p ≡ some v
          → (result_of (json (prediction p))).error ≡ none
      result_of-encoded p v laws e = elim (result_of-prediction p laws) [
        | inl (_, _, tells) ↦ tells.0
        | inr (missing, _) ↦ absurd (some_not_none (sym e ∙ missing))
      ]

      -- Without an error the reply had the code of success.
      result_of-code : (rep : Reply fl) → (result_of rep).error ≡ none → reply_code fl rep ≡ 200
      result_of-code rep h =
          let (resp, served, _) =
            (send_one-ok_iff fl zero decode path (contents image)
                (received closed (sent_reply fl codec quote rep)) wall_ms at decode-not_panic).0
              h in
          served-code quote closed image rep resp served

      -- A success is a prediction of the engine. If it has been encoded, the result has what it says,
      -- and else an error of decoding nothing. What is no success gives an error.
      abbrev pub Agrees : Outcome fl → Type 0
      Agrees o =
          ((p : PredictResponseJson fl) × (o.status ≡ success)
            × (o.reply ≡ json (prediction p))
            × (p.engine ≡ o.engine_name)
            × AfterPrediction p o.reply)
          ⊎ ((o.status ≢ success) × ((result_of o.reply).error ≢ none))

      Coded-Agrees : IsCodec fl codec → (o : Outcome fl) → Coded fl o → Agrees o
      Coded-Agrees laws o (code, _, form, engine) = elim (Bool-cases (is_success o.status)) [
        | inl won ↦
            let (p, e) = is_prediction-json o.reply (form ∙ won) in
            inl (
              p,
              is_success-success o.status won,
              e,
              ap (λ rep. told_engine fl rep o.engine_name) (sym e) ∙ engine,
              subst (AfterPrediction p) (sym e) (result_of-prediction p laws),
            )
        | inr lost ↦ inr (
          (λ h. true_not_false (ap is_success h) lost),
          (λ h. true_not_false (succeeds o.status (sym code ∙ result_of-code o.reply h)) lost),
        )
      ]

      -- With a codec that keeps its laws, the load generator takes the answer to a prediction for a
      -- success exactly if the scheduler counted one and could encode it, and then has its engine, as
      -- valid UTF-8, how it was routed and its detections' number. A success that could not be encoded
      -- gives an error of decoding nothing.
      pub handle_predict-Agrees :
          (Client : Type 0) (base64 : Bytes → Bytes) (zero_f32 : fl.F32)
          → IsCodec fl codec
          → (others : Others fl Client base64 zero_f32) (s : Site fl Client) (q : Query)
            (arrival : Arrival fl Client)
          → Agrees (handle_predict fl Client base64 zero_f32 others s q arrival).0
      handle_predict-Agrees Client base64 zero_f32 laws others s q arrival =
          Coded-Agrees laws _ (outcome-Coded fl Client base64 zero_f32 others s q arrival)
