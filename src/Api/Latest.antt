-- ===== src/Api/Latest.antt =====
-- The reply of a successful prediction, and what `/last-result` answers after it.
use edge_sched.Prelude.{
  ℕ, ◌≡◌, refl, ◌⊎◌, Bool, true, false, Option, none, some, inl, inr, true_not_false,
}
use edge_sched.Prelude.Bytes.{Bytes}
use edge_sched.Prelude.Maps.{lookup}
use edge_sched.Prelude.Floats.{Floats}
use edge_sched.Api.Wire.{PredictResponseJson, LastResultJson, json, prediction, last_result_body}
use edge_sched.Api.Server.{EnginePool}
use edge_sched.Api.Predict.{
  Query, Routed, Outcome, Phase, stop, go, observe, prediction_json, last_result_json,
}
use edge_sched.Api.Handler.{Site, submitted, submit_to, admit, Arrival, result, deadline}
use edge_sched.Api.Answer.{
  succeed, with_result, answer, finish, Others, after_admit, after_read, after_route,
  handle_predict, handle_last_result,
}
use edge_sched.Api.Codes.{is_success}
use edge_sched.Api.Effects.{StopsPlain, read_body-StopsPlain, route-Starts}

module _ (fl : Floats) (Client : Type 0) (base64 : Bytes → Bytes) (zero_f32 : fl.F32) where
  -- The prediction of the reply, and the latest result with the same engine, routing, times and
  -- detections.
  abbrev pub Shown : Outcome fl × Site fl Client → Type 0
  Shown (o, t) =
      (p : PredictResponseJson fl) × (l : LastResultJson fl) × (o.reply ≡ json (prediction p))
      × (handle_last_result fl Client base64 zero_f32 t ≡ json (last_result_body l))
      × (p.engine ≡ o.engine_name)
      × (l.engine ≡ p.engine)
      × (l.auto_routed ≡ p.auto_routed)
      × (l.preprocess_ms ≡ p.preprocess_ms)
      × (l.inference_ms ≡ p.inference_ms)
      × (l.postprocess_ms ≡ p.postprocess_ms)
      × (l.detections ≡ p.detections)

  abbrev FailsOrShown : Outcome fl × Site fl Client → Type 0
  FailsOrShown r = (is_success (r.0).status ≡ false) ⊎ Shown r

  abbrev pub StopsFail : {A : Type 0} → Phase fl A → Type 0
  StopsFail (stop o) = is_success o.status ≡ false
  StopsFail (go a) = Unit

  pub admit-StopsFail :
      (s : Site fl Client) (r : Routed) (channel : ℕ) (image : Bytes)
      → StopsFail (admit fl Client s r channel image).0
  unfolding admit submitted
  admit-StopsFail s r channel image = go_on (submit_to fl Client (lookup r.engine_name s.pools) _)
    where
      go_on :
          (o : Option (Bool × EnginePool fl)) → StopsFail (submitted fl Client s r.engine_name o).0
      go_on none = refl
      go_on (some (true, p)) = tt
      go_on (some (false, p)) = refl

  answer-FailsOrShown :
      (s : Site fl Client) (r : Routed) (depth : ℕ) (image : Bytes) (arrival : Arrival fl Client)
      → FailsOrShown (answer fl Client base64 zero_f32 s r depth image arrival)
  unfolding answer with_result
  answer-FailsOrShown s r depth image (result res elapsed now) = go_on res.err
    where
      go_on :
          (e : Option Bytes)
          → FailsOrShown
              (with_result fl Client base64 zero_f32 s r depth image res.response e elapsed now)
      go_on none =
          unfold succeed observe prediction_json last_result_json handle_last_result in
          inr (_, _, refl, refl, refl, refl, refl, refl, refl, refl, refl)
      go_on (some e) = inl refl
  answer-FailsOrShown s r depth image deadline = inl refl

  module _ (others : Others fl Client base64 zero_f32) where
    after_admit-FailsOrShown :
        (r : Routed) (depth : ℕ) (image : Bytes) (arrival : Arrival fl Client)
        (p : Phase fl (Unit {0}) × Site fl Client)
        → StopsFail p.0
        → FailsOrShown (after_admit fl Client base64 zero_f32 others r depth image arrival p)
    unfolding after_admit
    after_admit-FailsOrShown r depth image arrival (stop o, s) h = inl h
    after_admit-FailsOrShown r depth image arrival (go _, s) h =
        answer-FailsOrShown (others.waiting s) r depth image arrival

    after_read-FailsOrShown :
        (q : Query) (r : Routed) (arrival : Arrival fl Client) (p : Phase fl Bytes)
        (s : Site fl Client)
        → StopsPlain fl Client p
        → FailsOrShown (after_read fl Client base64 zero_f32 others q r arrival p s)
    unfolding after_read
    after_read-FailsOrShown q r arrival (stop o) s h = inl h.1
    after_read-FailsOrShown q r arrival (go image) s h =
        after_admit-FailsOrShown r _ image arrival _
          (admit-StopsFail (others.measuring s) r q.channel image)

    after_route-FailsOrShown :
        (q : Query) (arrival : Arrival fl Client) (p : Phase fl Routed × Site fl Client)
        → StopsPlain fl Client p.0
        → FailsOrShown (after_route fl Client base64 zero_f32 others q arrival p)
    unfolding after_route
    after_route-FailsOrShown q arrival (stop o, s) h = inl h.1
    after_route-FailsOrShown q arrival (go r, s) h =
        after_read-FailsOrShown q r arrival _ (others.reading s)
          (read_body-StopsPlain fl Client r q.body)

    finish-FailsOrShown :
        (r : Outcome fl × Site fl Client)
        → FailsOrShown r
        → FailsOrShown (finish fl Client base64 zero_f32 r)
    unfolding finish handle_last_result
    finish-FailsOrShown r h = h

    -- A prediction succeeds, whatever the other goroutines do meanwhile. Then its reply is a JSON
    -- prediction of its engine, and `/last-result` at that moment answers a result with the same
    -- engine, routing flag, stage times and detections.
    pub handle_predict-last_result :
        (s : Site fl Client) (q : Query) (arrival : Arrival fl Client)
        → is_success (handle_predict fl Client base64 zero_f32 others s q arrival).0.status ≡ true
        → Shown (handle_predict fl Client base64 zero_f32 others s q arrival)
    unfolding handle_predict
    handle_predict-last_result s q arrival ok =
        elim (finish-FailsOrShown _
          (after_route-FailsOrShown q arrival _ (route-Starts fl Client s q).0)) [
            | inl fails ↦ absurd (true_not_false ok fails)
            | inr shown ↦ shown
          ]
