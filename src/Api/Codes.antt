-- ===== src/Api/Codes.antt =====
-- The HTTP code that a client sees and the status that the metrics count.
use edge_sched.Prelude.{
  ℕ, ◌≡◌, refl, Bool, true, false, [], ◌∷◌, Option, none, some, Result, ok, err, panic, Bool-cases,
  inl, inr,
}
use edge_sched.Prelude.Int.{ℤ}
use edge_sched.Prelude.Bytes.{Bytes}
use edge_sched.Prelude.Maps.{lookup}
use edge_sched.Prelude.Floats.{Floats}
use edge_sched.Healthcheck.Monitor.{healthy}
use edge_sched.Routing.Pick.{RoutingError}
use edge_sched.Api.Wire.{Reply, prediction, http_error, retry_later, json, aborted}
use edge_sched.Api.Budget.{parse_latency_budget}
use edge_sched.Api.Server.{
  Status, unknown, bad_request, routing_failed, engine_unhealthy, rejected, error, success, timeout,
  EnginePool,
}
use edge_sched.Api.Predict.{
  Reader, read_all, Query, Routed, Outcome, Phase, stop, go, with_pool, image_of, read_body,
}
use edge_sched.Api.Handler.{
  Site, selected, choose_engine, with_budget, route, submitted, submit_to, admit, Arrival, result,
  deadline,
}
use edge_sched.Api.Answer.{
  with_result, answer, finish, Others, after_admit, after_read, after_route, handle_predict,
}

-- 0 stands for no reply at all.
abbrev pub status_code : Status → ℕ
status_code unknown = 0
status_code bad_request = 400
status_code routing_failed = 503
status_code engine_unhealthy = 503
status_code rejected = 503
status_code error = 500
status_code success = 200
status_code timeout = 504

abbrev pub is_rejected : Status → Bool
is_rejected rejected = true
is_rejected _ = false

abbrev pub is_success : Status → Bool
is_success success = true
is_success _ = false

module _ (fl : Floats) where
  abbrev pub reply_code : Reply fl → ℕ
  reply_code (http_error code reason) = code
  reply_code (retry_later code reason) = code
  reply_code (json body) = 200
  reply_code aborted = 0

  abbrev pub has_retry_after : Reply fl → Bool
  has_retry_after (retry_later code reason) = true
  has_retry_after _ = false

  abbrev pub is_prediction : Reply fl → Bool
  is_prediction (json (prediction p)) = true
  is_prediction _ = false

  -- The engine of a prediction, or else the given one.
  abbrev pub told_engine : Reply fl → Bytes → Bytes
  told_engine (json (prediction p)) engine = p.engine
  told_engine _ engine = engine

  -- The reply has the status's code, and the header `Retry-After` if the status is `rejected`; it is a
  -- prediction, of the outcome's engine, if the status is `success`.
  abbrev pub Coded : Outcome fl → Type 0
  Coded o =
      (reply_code o.reply ≡ status_code o.status)
      × (has_retry_after o.reply ≡ is_rejected o.status)
      × (is_prediction o.reply ≡ is_success o.status)
      × (told_engine o.reply o.engine_name ≡ o.engine_name)

  abbrev StopsCoded : {A : Type 0} → Phase fl A → Type 0
  StopsCoded (stop o) = Coded o
  StopsCoded (go a) = Unit

  with_pool-StopsCoded : (r : Routed) (o : Option (EnginePool fl)) → StopsCoded (with_pool fl r o)
  unfolding with_pool
  with_pool-StopsCoded r none = (refl, refl, refl, refl)
  with_pool-StopsCoded r (some p) = tt

  read_body-StopsCoded : (r : Routed) (body : Reader) → StopsCoded (read_body fl r body)
  unfolding read_body image_of
  read_body-StopsCoded r body = go_on (read_all body)
    where
      go_on : (o : Option Bytes) → StopsCoded (image_of fl r o)
      go_on none = (refl, refl, refl, refl)
      go_on (some []) = (refl, refl, refl, refl)
      go_on (some (b ∷ image)) = tt

  module _ (Client : Type 0) where
    selected-StopsCoded :
        (s : Site fl Client) (budget : ℤ) (r : Result RoutingError Bytes)
        → StopsCoded (selected fl Client s budget r)
    unfolding selected
    selected-StopsCoded s budget (ok name) = with_pool-StopsCoded _ (lookup name s.pools)
    selected-StopsCoded s budget (err e) = (refl, refl, refl, refl)
    selected-StopsCoded s budget panic = (refl, refl, refl, refl)

    choose_engine-StopsCoded :
        (s : Site fl Client) (budget : ℤ) (engine : Bytes)
        → StopsCoded (choose_engine fl Client s budget engine).0
    unfolding choose_engine
    choose_engine-StopsCoded s budget [] = selected-StopsCoded s budget _
    choose_engine-StopsCoded s budget (c ∷ name) =
        elim (Bool-cases (healthy Client s.health_monitor (c ∷ name))) [
          | inl up ↦ rw up (with_pool-StopsCoded _ (lookup (c ∷ name) s.pools))
          | inr down ↦ rw down (refl, refl, refl, refl)
        ]

    route-StopsCoded : (s : Site fl Client) (q : Query) → StopsCoded (route fl Client s q).0
    unfolding route with_budget
    route-StopsCoded s q = go_on (parse_latency_budget q.latency_budget s.max_latency_budget)
      where
        go_on : (r : Result Bytes ℤ) → StopsCoded (with_budget fl Client s q.engine r).0
        go_on (ok budget) = choose_engine-StopsCoded s budget q.engine
        go_on (err raw) = (refl, refl, refl, refl)
        go_on panic = (refl, refl, refl, refl)

    admit-StopsCoded :
        (s : Site fl Client) (r : Routed) (channel : ℕ) (image : Bytes)
        → StopsCoded (admit fl Client s r channel image).0
    unfolding admit submitted
    admit-StopsCoded s r channel image =
        go_on (submit_to fl Client (lookup r.engine_name s.pools) _)
      where
        go_on :
            (o : Option (Bool × EnginePool fl))
            → StopsCoded (submitted fl Client s r.engine_name o).0
        go_on none = (refl, refl, refl, refl)
        go_on (some (true, p)) = tt
        go_on (some (false, p)) = (refl, refl, refl, refl)

    module _ (base64 : Bytes → Bytes) (zero_f32 : fl.F32) where
      answer-Coded :
          (s : Site fl Client) (r : Routed) (depth : ℕ) (image : Bytes)
          (arrival : Arrival fl Client)
          → Coded (answer fl Client base64 zero_f32 s r depth image arrival).0
      unfolding answer with_result
      answer-Coded s r depth image (result res elapsed now) = go_on res.err
        where
          go_on :
              (e : Option Bytes)
              → Coded
                  (with_result fl Client base64 zero_f32 s r depth image res.response e elapsed
                    now).0
          go_on none = unfold edge_sched.Api.Answer.succeed in (refl, refl, refl, refl)
          go_on (some e) = (refl, refl, refl, refl)
      answer-Coded s r depth image deadline = (refl, refl, refl, refl)

      after_admit-Coded :
          (others : Others fl Client base64 zero_f32) (r : Routed) (depth : ℕ) (image : Bytes)
          (arrival : Arrival fl Client) (p : Phase fl (Unit {0}) × Site fl Client)
          → StopsCoded p.0
          → Coded (after_admit fl Client base64 zero_f32 others r depth image arrival p).0
      unfolding after_admit
      after_admit-Coded others r depth image arrival (stop o, s) h = h
      after_admit-Coded others r depth image arrival (go _, s) h =
          answer-Coded _ r depth image arrival

      after_read-Coded :
          (others : Others fl Client base64 zero_f32) (q : Query) (r : Routed)
          (arrival : Arrival fl Client) (p : Phase fl Bytes) (s : Site fl Client)
          → StopsCoded p
          → Coded (after_read fl Client base64 zero_f32 others q r arrival p s).0
      unfolding after_read
      after_read-Coded others q r arrival (stop o) s h = h
      after_read-Coded others q r arrival (go image) s h =
          after_admit-Coded others r _ image arrival _ (admit-StopsCoded _ r q.channel image)

      after_route-Coded :
          (others : Others fl Client base64 zero_f32) (q : Query) (arrival : Arrival fl Client)
          (p : Phase fl Routed × Site fl Client)
          → StopsCoded p.0
          → Coded (after_route fl Client base64 zero_f32 others q arrival p).0
      unfolding after_route
      after_route-Coded others q arrival (stop o, s) h = h
      after_route-Coded others q arrival (go r, s) h =
          after_read-Coded others q r arrival _ _ (read_body-StopsCoded r q.body)

      pub outcome-Coded :
          (others : Others fl Client base64 zero_f32) (s : Site fl Client) (q : Query)
          (arrival : Arrival fl Client)
          → Coded (handle_predict fl Client base64 zero_f32 others s q arrival).0
      unfolding handle_predict finish
      outcome-Coded others s q arrival = after_route-Coded others q arrival _ (route-StopsCoded s q)

      -- However a prediction ends, and whatever the other goroutines do meanwhile, the code of the
      -- reply is that of the status which the metrics count, and the reply has the header
      -- `Retry-After` exactly when the status is `rejected`.
      pub handle_predict-Coded :
          (others : Others fl Client base64 zero_f32) (s : Site fl Client) (q : Query)
          (arrival : Arrival fl Client)
          → let o = (handle_predict fl Client base64 zero_f32 others s q arrival).0 in
            (reply_code o.reply ≡ status_code o.status)
            × (has_retry_after o.reply ≡ is_rejected o.status)
      handle_predict-Coded others s q arrival =
          let (code, retry, _, _) = outcome-Coded others s q arrival in (code, retry)
