-- ===== src/Loadgen/Parsed.antt =====
-- scheduler/internal/api/handlers.go and scheduler/cmd/loadgen/main.go: what the load generator reads of
-- an encoded prediction.
use edge_sched.Prelude.{
  ℕ, suc, ◌≡◌, refl, ap, List, [], ◌∷◌, map, length, Option, none, some, ◌⊎◌, inl, inr,
}
use edge_sched.Prelude.Int.{pos}
use edge_sched.Prelude.Bytes.{bytes, str_eq}
use edge_sched.Prelude.Floats.{Floats}
use edge_sched.Json.Value.{
  Json, null, boolean, number, text, object, array, no_members, member, Items, no_items, item,
  Codec, IsCodec, AreTexts, AreTextsItems,
}
use edge_sched.Json.Encode.{number_of, struct, with_item, items_of, array_of}
use edge_sched.Json.Decode.{
  decode_struct, decode_members, decode_items, decode_slice, exact_field, folded_field, fold_name,
}
use edge_sched.Json.Texts.{decode_struct-no_fields, number_of-HasTexts, IsObject, struct-IsObject}
use edge_sched.Api.Wire.{DetectionJson, PredictResponseJson}
use edge_sched.Api.Bodies.{
  detection_members, prediction_members, encode_detection, encode_detections, encode_prediction,
}
use edge_sched.Loadgen.Send.{PredictReply}
use edge_sched.Loadgen.Decode.{decode_empty, predict_fields}

module _ (fl : Floats) (codec : Codec fl) where
  -- Items with valid texts, of which the decoder counts `n`, unless one cannot be encoded.
  abbrev AreCounted : ℕ → Option (Items codec.Num) → Type 0
  AreCounted n o =
      (o ≡ none)
      ⊎ ((xs : Items codec.Num) × (o ≡ some xs)
          × AreTextsItems fl codec 1 xs
          × ((us : List (Unit {0})) × (decode_items (decode_empty fl codec) xs ≡ some us)
              × (length us ≡ n)))

  abbrev IsCounted : ℕ → Option (Json codec.Num) → Type 0
  IsCounted n o =
      (o ≡ none)
      ⊎ ((v : Json codec.Num) × (o ≡ some v)
          × AreTexts fl codec 2 v
          × ((us : List (Unit {0})) × (decode_slice (decode_empty fl codec) v ≡ some us)
              × (length us ≡ n)))

  with_item-AreCounted :
      (n : ℕ) (v : Option (Json codec.Num)) (xs : Option (Items codec.Num))
      → IsObject fl codec v
      → AreCounted n xs
      → AreCounted (suc n) (with_item v xs)
  unfolding AreTexts decode_items
  with_item-AreCounted n v xs (inl missing) hx = inl (rw missing refl)
  with_item-AreCounted n v xs (inr (ms, some_v, t)) (inl missing) = inl (rw (some_v, missing) refl)
  with_item-AreCounted n v xs (inr (ms, some_v, t)) (inr (ys, some_ys, ts, (us, d, l))) = inr (
    item (object ms) ys,
    rw (some_v, some_ys) refl,
    (t, ts),
    (tt ∷ us, rw (decode_struct-no_fields ms, d) refl, ap suc l),
  )

  array_of-IsCounted :
      (n : ℕ) (xs : Option (Items codec.Num)) → AreCounted n xs → IsCounted n (array_of xs)
  unfolding AreTexts decode_slice
  array_of-IsCounted n xs (inl missing) = inl (rw missing refl)
  array_of-IsCounted n xs (inr (ys, some_ys, ts, us)) = inr (array ys, rw some_ys refl, ts, us)

  -- A float32's token, if it has one, is that of a float64.
  abbrev HasFloat : Option codec.Num → Type 0
  HasFloat none = Unit
  HasFloat (some n) = (y : fl.F) × (codec.to_f64 n ≡ some y)

  module _ (laws : IsCodec fl codec) where
    of_f32-HasFloat : (x : fl.F32) → HasFloat (codec.of_f32 x)
    of_f32-HasFloat x = go_on (codec.of_f32 x) refl
      where
        go_on : (o : Option codec.Num) → codec.of_f32 x ≡ o → HasFloat o
        go_on none h = tt
        go_on (some n) h = laws.to_f64-of_f32 x n h

    encode_detection-IsObject :
        (d : DetectionJson fl) → IsObject fl codec (encode_detection fl codec d)
    unfolding encode_detection AreTexts
    encode_detection-IsObject d =
        let float = λ (x : fl.F32). number_of-HasTexts fl codec (codec.of_f32 x) in
        struct-IsObject fl codec laws (detection_members fl codec d) (
          (refl, float d.x1),
          (
            (refl, float d.y1),
            (
              (refl, float d.x2),
              (
                (refl, float d.y2),
                (
                  (refl, float d.confidence),
                  ((refl, tt), ((refl, laws.valid_text_idem d.class_name), tt)),
                ),
              ),
            ),
          ),
        )

    items_of-AreCounted :
        (ds : List (DetectionJson fl))
        → AreCounted (length ds) (items_of (map (encode_detection fl codec) ds))
    unfolding AreTexts decode_items
    items_of-AreCounted [] = inr (no_items, refl, tt, ([], refl, refl))
    items_of-AreCounted (d ∷ ds) =
        with_item-AreCounted (length ds) _ _ (encode_detection-IsObject d) (items_of-AreCounted ds)

    encode_detections-IsCounted :
        (ds : List (DetectionJson fl)) → IsCounted (length ds) (encode_detections fl codec ds)
    unfolding encode_detections AreTexts decode_slice
    encode_detections-IsCounted [] = inr (null, refl, tt, ([], refl, refl))
    encode_detections-IsCounted (d ∷ ds) =
        array_of-IsCounted (length (d ∷ ds)) _ (items_of-AreCounted (d ∷ ds))

    -- What is read of a prediction.
    abbrev pub IsRead :
        PredictResponseJson fl → ℕ → PredictReply fl → Option (Json codec.Num) → Type 0
    IsRead p n zero o =
        (o ≡ none)
        ⊎ ((v : Json codec.Num) × (o ≡ some v)
            × AreTexts fl codec 3 v
            × ((r : PredictReply fl) × (decode_struct (predict_fields fl codec) v zero ≡ some r)
                × (r.engine ≡ codec.valid_text p.engine)
                × (r.auto_routed ≡ p.auto_routed)
                × (r.num_detections ≡ n)))

    abbrev prediction_value :
        PredictResponseJson fl → Json codec.Num → codec.Num → codec.Num → codec.Num → Json codec.Num
    prediction_value p v x y z = object (
        member (bytes "engine") (text (codec.valid_text p.engine)) (
          member (bytes "detections") v (
            member (bytes "preprocess_ms") (number x) (
              member (bytes "inference_ms") (number y) (
                member (bytes "postprocess_ms") (number z) (
                  member (bytes "queue_depth_at_submit") (number (codec.of_int (pos p.queue_depth)))
                    (member (bytes "auto_routed") (boolean p.auto_routed) (
                      member (bytes "latency_budget_ms") (number (codec.of_int p.latency_budget_ms))
                        no_members))))))))

    members-IsRead :
        (p : PredictResponseJson fl) (n : ℕ) (zero : PredictReply fl) (d : Option (Json codec.Num))
        (a b c : Option codec.Num)
        → IsCounted n d
        → HasFloat a
        → HasFloat b
        → HasFloat c
        → IsRead p n zero
            (struct (prediction_members fl codec p d (number_of a) (number_of b) (number_of c)))
    unfolding decode_struct decode_members exact_field folded_field fold_name str_eq AreTexts
    members-IsRead p n zero d a b c (inl missing) ha hb hc = inl (rw missing refl)
    members-IsRead p n zero d none b c (inr (v, some_v, _, _)) ha hb hc = inl (rw some_v refl)
    members-IsRead p n zero d (some x) none c (inr (v, some_v, _, _)) ha hb hc =
        inl (rw some_v refl)
    members-IsRead p n zero d (some x) (some y) none (inr (v, some_v, _, _)) ha hb hc =
        inl (rw some_v refl)
    members-IsRead p n zero d (some x) (some y) (some z) (inr (v, some_v, t, (us, u, l))) (f, hf)
          (g, hg) (h, hh) =
        let key = laws.valid_text-ascii in
        inr (
          prediction_value p v x y z,
          rw some_v refl,
          (
            key (bytes "engine") refl,
            laws.valid_text_idem p.engine,
            (
              key (bytes "detections") refl,
              t,
              (
                key (bytes "preprocess_ms") refl,
                tt,
                (
                  key (bytes "inference_ms") refl,
                  tt,
                  (
                    key (bytes "postprocess_ms") refl,
                    tt,
                    (
                      key (bytes "queue_depth_at_submit") refl,
                      tt,
                      (
                        key (bytes "auto_routed") refl,
                        tt,
                        (key (bytes "latency_budget_ms") refl, tt, tt),
                      ),
                    ),
                  ),
                ),
              ),
            ),
          ),
          (
            record {
              engine = codec.valid_text p.engine;
              auto_routed = p.auto_routed;
              preprocess_ms = f;
              inference_ms = g;
              postprocess_ms = h;
              num_detections = length us;
            },
            rw (u, hf, hg, hh) refl,
            refl,
            refl,
            l,
          ),
        )

    pub encode_prediction-IsRead :
        (p : PredictResponseJson fl) (zero : PredictReply fl)
        → IsRead p (length p.detections) zero (encode_prediction fl codec p)
    unfolding encode_prediction
    encode_prediction-IsRead p zero =
        members-IsRead p (length p.detections) zero (encode_detections fl codec p.detections)
          (codec.of_f32 p.preprocess_ms) (codec.of_f32 p.inference_ms)
          (codec.of_f32 p.postprocess_ms) (encode_detections-IsCounted p.detections)
          (of_f32-HasFloat p.preprocess_ms) (of_f32-HasFloat p.inference_ms)
          (of_f32-HasFloat p.postprocess_ms)
