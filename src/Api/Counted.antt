-- ===== src/Api/Counted.antt =====
-- What a prediction does to the metrics and to the latest result.
use edge_sched.Prelude.{ℕ, ◌≡◌, refl, ap, ◌∙◌, List, [], ◌∷◌, Option, none, some, inl}
use edge_sched.Prelude.Bytes.{Bytes}
use edge_sched.Prelude.Floats.{Floats}
use edge_sched.Api.Server.{Status}
use edge_sched.Api.Predict.{
  Reader, read_all, Query, Routed, Outcome, Phase, stop, go, with_pool, image_of, read_body,
}
use edge_sched.Api.Handler.{Site, route, Arrival, result, deadline}
use edge_sched.Api.Answer.{
  succeed, with_result, answer, count_request, finish, Others, after_admit, after_read, after_route,
  handle_predict,
}
use edge_sched.Api.Codes.{is_rejected}
use edge_sched.Api.Effects.{
  counted_if, Kept, ResultOf, Served, StopsPlain, Starts, Admits, Kept-Served, Served-after,
  Kept-trans, read_body-StopsPlain, route-Starts, admit-Admits,
}

-- A request whose engine is known is counted once.
abbrev pub counted : Bytes → Status → List (Bytes × Status) → List (Bytes × Status)
counted [] status before = before
counted (c ∷ engine) status before = (c ∷ engine, status) ∷ before

module _ (fl : Floats) (Client : Type 0) where
  module _ (base64 : Bytes → Bytes) (zero_f32 : fl.F32) where
    answer-Served :
        (s : Site fl Client) (r : Routed) (depth : ℕ) (image : Bytes) (arrival : Arrival fl Client)
        → let p = answer fl Client base64 zero_f32 s r depth image arrival in
          Served fl Client p.0 s p.1
    unfolding answer with_result
    answer-Served s r depth image (result res elapsed now) = go_on res.err
      where
        go_on :
            (e : Option Bytes)
            → let p =
                with_result fl Client base64 zero_f32 s r depth image res.response e elapsed now in
              Served fl Client p.0 s p.1
        go_on none =
            unfold succeed edge_sched.Api.Predict.observe edge_sched.Api.Predict.last_result_json in
            record { requests = refl; rejections = refl; latest = inl (refl, (_, refl, refl)) }
        go_on (some e) = Kept-Served fl Client _ s s (refl, refl) (refl, refl)
    answer-Served s r depth image deadline = Kept-Served fl Client _ s s (refl, refl) (refl, refl)

    -- The other goroutines change neither the metrics nor the latest result: the workers and the
    -- polling loops do not, only other requests do.
    pub record IsQuiet (others : Others fl Client base64 zero_f32) : Type 0 where
      pub reading_keeps : (s : Site fl Client) → Kept fl Client s (others.reading s)
      pub measuring_keeps : (s : Site fl Client) → Kept fl Client s (others.measuring s)
      pub waiting_keeps : (s : Site fl Client) → Kept fl Client s (others.waiting s)

    module _ (others : Others fl Client base64 zero_f32) (quiet : IsQuiet others) where
      after_admit-Served :
          (s : Site fl Client) (r : Routed) (depth : ℕ) (image : Bytes)
          (arrival : Arrival fl Client) (p : Phase fl (Unit {0}) × Site fl Client)
          → Admits fl Client s p
          → let t = after_admit fl Client base64 zero_f32 others r depth image arrival p in
            Served fl Client t.0 s t.1
      unfolding after_admit
      after_admit-Served s r depth image arrival (stop o, t) h = h
      after_admit-Served s r depth image arrival (go _, t) h =
          Served-after fl Client _ s (others.waiting t) _
            (Kept-trans fl Client s t (others.waiting t) h (quiet.waiting_keeps t))
            (answer-Served (others.waiting t) r depth image arrival)

      after_read-Served :
          (q : Query) (r : Routed) (arrival : Arrival fl Client) (p : Phase fl Bytes)
          (s : Site fl Client)
          → StopsPlain fl Client p
          → let t = after_read fl Client base64 zero_f32 others q r arrival p s in
            Served fl Client t.0 s t.1
      unfolding after_read
      after_read-Served q r arrival (stop o) s h = Kept-Served fl Client o s s h (refl, refl)
      after_read-Served q r arrival (go image) s h =
          let s' = others.measuring s in
          Served-after fl Client _ s s' _ (quiet.measuring_keeps s) (
            after_admit-Served s' r _ image arrival _ (admit-Admits fl Client s' r q.channel image))

      after_route-Served :
          (s : Site fl Client) (q : Query) (arrival : Arrival fl Client)
          (p : Phase fl Routed × Site fl Client)
          → Starts fl Client s p
          → let t = after_route fl Client base64 zero_f32 others q arrival p in
            Served fl Client t.0 s t.1
      unfolding after_route
      after_route-Served s q arrival (stop o, t) (h, k) = Kept-Served fl Client o s t h k
      after_route-Served s q arrival (go r, t) (h, k) =
          Served-after fl Client _ s (others.reading t) _
            (Kept-trans fl Client s t (others.reading t) k (quiet.reading_keeps t))
            (after_read-Served q r arrival _ (others.reading t)
              (read_body-StopsPlain fl Client r q.body))

      -- No other request is served meanwhile. Then a prediction, however it ends, adds exactly one
      -- to the count of its engine and status if it has an engine, and nothing if it has none; it
      -- adds one rejection of its engine if its status is `rejected`, and else none; and it sets the
      -- latest result to one of its engine if it succeeds, and else leaves it.
      pub handle_predict-counted :
          (s : Site fl Client) (q : Query) (arrival : Arrival fl Client)
          → let r = handle_predict fl Client base64 zero_f32 others s q arrival in
            (r.1.metrics.requests_total
              ≡ counted r.0.engine_name r.0.status s.metrics.requests_total)
            × (r.1.metrics.admission_rejections
                ≡ counted_if
                    (is_rejected r.0.status)
                    r.0.engine_name
                    s.metrics.admission_rejections)
            × ResultOf fl Client r.0 s r.1
      unfolding handle_predict finish
      handle_predict-counted s q arrival =
          let p = after_route fl Client base64 zero_f32 others q arrival (route fl Client s q) in
          let v = after_route-Served s q arrival _ (route-Starts fl Client s q) in
          (
            count_request-requests p.0.engine_name p.0.status p.1
                ∙ ap (counted p.0.engine_name p.0.status) v.requests,
            count_request-rejections p.0.engine_name p.0.status p.1 ∙ v.rejections,
            v.latest,
          )
        where
          count_request-requests :
              (engine : Bytes) (status : Status) (t : Site fl Client)
              → (count_request fl Client base64 zero_f32 engine status t.metrics).requests_total
                ≡ counted engine status t.metrics.requests_total
          count_request-requests [] status t = unfold count_request in refl
          count_request-requests (c ∷ e) status t = unfold count_request in refl

          count_request-rejections :
              (engine : Bytes) (status : Status) (t : Site fl Client)
              → (count_request fl Client base64 zero_f32 engine status
                  t.metrics).admission_rejections
                ≡ t.metrics.admission_rejections
          count_request-rejections [] status t = unfold count_request in refl
          count_request-rejections (c ∷ e) status t = unfold count_request in refl
