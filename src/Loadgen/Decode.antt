-- ===== src/Loadgen/Decode.antt =====
-- scheduler/cmd/loadgen/main.go: the decoding of a reply in `sendOne`. The text of the decoder's error
-- is an argument.
use edge_sched.Prelude.{[], ◌∷◌, length, Option, none, some, Result, ok, err}
use edge_sched.Prelude.Bytes.{Bytes, bytes}
use edge_sched.Prelude.Floats.{Floats}
use edge_sched.Json.Value.{Json, Codec}
use edge_sched.Json.Decode.{
  Fields, decode_struct, decode_slice, store_text, store_bool, store_number, store_slice,
}
use edge_sched.Loadgen.Send.{PredictReply, no_reply, replied, Posted, no_resp}
use Prim.Native.Nat.{ℕ}

module _ (fl : Floats) (codec : Codec fl) where
  -- `struct{}`
  abbrev pub decode_empty : Json codec.Num → Option (Unit {0})
  decode_empty v = decode_struct [] v tt

  abbrev pub predict_fields : Fields codec.Num (PredictReply fl)
  predict_fields =
      (bytes "engine", store_text (λ x r. record r { engine = x }))
      ∷ (bytes "auto_routed", store_bool (λ x r. record r { auto_routed = x }))
      ∷ (bytes "preprocess_ms", store_number codec.to_f64 (λ x r. record r { preprocess_ms = x }))
      ∷ (bytes "inference_ms", store_number codec.to_f64 (λ x r. record r { inference_ms = x }))
      ∷ (bytes "postprocess_ms", store_number codec.to_f64 (λ x r. record r { postprocess_ms = x }))
      ∷ (
        bytes "detections",
        store_slice (decode_slice decode_empty) (λ xs r. record r { num_detections = length xs }),
      )
      ∷ []

  module _ (error_text : Bytes → Bytes) where
    abbrev pub unmarshalled : Bytes → Option (PredictReply fl) → Result Bytes (PredictReply fl)
    unmarshalled body none = err (error_text body)
    unmarshalled body (some r) = ok r

    abbrev pub decode_value :
        fl.F → Bytes → Option (Json codec.Num) → Result Bytes (PredictReply fl)
    decode_value zero body none = err (error_text body)
    decode_value zero body (some v) =
        unmarshalled body (decode_struct predict_fields v (no_resp fl zero))

    -- `json.Unmarshal` into a `predictResponse` of zeros.
    unfoldable pub unmarshal_response : fl.F → Bytes → Result Bytes (PredictReply fl)
    unmarshal_response zero body = decode_value zero body (codec.parse body)

-- What a client receives of a reply, or of a connection that was closed.
abbrev pub received : Bytes → Option (ℕ × Bytes) → Posted
received closed none = no_reply closed
received closed (some (code, body)) = replied code body
