-- ===== src/Examples/Agreed.antt =====
-- The load generator's result of a prediction.
use edge_sched.Prelude.Int.{pos}
use edge_sched.Prelude.Bytes.{Bytes, bytes}
use edge_sched.Api.Answer.{handle_predict}
use edge_sched.Prelude.{◌≡◌, refl, false, [], ◌∷◌, none}
use edge_sched.Prelude.Bytes.{str_eq}
use edge_sched.Prelude.Split.{split, split_two}
use edge_sched.Api.Params.{raw_query, first_value, parse_pair, unescape, query_get, request_query}
use edge_sched.Api.Predict.{Query, prediction_json}
use edge_sched.Api.Bodies.{encode_prediction, encode_detections}
use edge_sched.Loadgen.Url.{build_predict_url, trim_slashes, join}
use edge_sched.Loadgen.Agreed.{Agrees, handle_predict-Agrees, result_of, result_of-encoded}
use edge_sched.Loadgen.Answered.{result_of-IsNamed}
use edge_sched.Examples.Floats.{whole}
use edge_sched.Examples.Codec.{codec, codec-IsCodec}
use edge_sched.Examples.Api.{U, site, query, base64, nobody, reply, handler_ops}

abbrev itself : Bytes → Bytes
itself s = s

handle_predict-Agrees_example :
    Agrees whole codec itself
      (pos 0)
      itself
      (bytes "closed")
      (bytes "a.jpg")
      (bytes "image")
      (pos 6)
      (pos 100)
      (handle_predict whole U base64 (pos 0) nobody site (query (bytes "n")) reply).0
handle_predict-Agrees_example =
    handle_predict-Agrees whole codec itself (pos 0) itself (bytes "closed") (bytes "a.jpg")
      (bytes "image") (pos 6) (pos 100) U base64 (pos 0) codec-IsCodec nobody site
      (query (bytes "n")) reply

abbrev asked : Query
asked =
    request_query (build_predict_url (bytes "h:1") (bytes "n") (pos 0))
      (record { content = 1 ∷ 2 ∷ []; fails = false }) 0

-- The request is answered, and the answer encoded.
answered :
    (result_of whole codec itself
      (pos 0)
      itself
      (bytes "closed")
      (bytes "a.jpg")
      (bytes "image")
      (pos 6)
      (pos 100)
      (handle_predict whole U base64 (pos 0) nobody site asked reply).0.reply).error
    ≡ none
unfolding handler_ops build_predict_url trim_slashes join request_query raw_query query_get split
    split_two first_value parse_pair unescape str_eq prediction_json encode_prediction
    encode_detections
answered =
    result_of-encoded whole codec itself (pos 0) itself (bytes "closed") (bytes "a.jpg")
      (bytes "image") (pos 6) (pos 100) _ _ codec-IsCodec refl

result_of-IsNamed_example :
    let r =
      result_of whole codec itself
        (pos 0)
        itself
        (bytes "closed")
        (bytes "a.jpg")
        (bytes "image")
        (pos 6)
        (pos 100)
        (handle_predict whole U base64 (pos 0) nobody site asked reply).0.reply in
    (r.resp.engine ≡ bytes "n") × (r.resp.auto_routed ≡ false)
result_of-IsNamed_example =
    result_of-IsNamed whole codec itself (pos 0) itself (bytes "closed") (bytes "a.jpg")
      (bytes "image") (pos 6) (pos 100) U base64 (pos 0) codec-IsCodec (bytes "h:1") (bytes "n") 0
      (refl, (refl, (refl, tt))) (refl, (refl, (refl, tt))) (refl, tt)
      (record { content = 1 ∷ 2 ∷ []; fails = false }) 0 nobody site reply answered
