-- ===== src/Api/Named.antt =====
-- The engine of a successful prediction, and whether it was routed automatically, by the engine that
-- the query names.
use edge_sched.Prelude.{
  ℕ, ◌≡◌, refl, ap, sym, ◌∙◌, ◌⊎◌, Bool, true, false, Bool-cases, true_not_false, [], ◌∷◌, Option,
  none, some, some_inj, subst, Result, ok, err, panic, inl, inr,
}
use edge_sched.Prelude.Int.{ℤ}
use edge_sched.Prelude.Bytes.{Bytes}
use edge_sched.Prelude.Maps.{lookup}
use edge_sched.Prelude.Floats.{Floats}
use edge_sched.Healthcheck.Monitor.{healthy}
use edge_sched.Routing.Pick.{RoutingError}
use edge_sched.Api.Wire.{PredictResponseJson, Reply, json, prediction}
use edge_sched.Api.Budget.{parse_latency_budget}
use edge_sched.Api.Server.{EnginePool}
use edge_sched.Api.Predict.{Query, Routed, Outcome, Phase, stop, go, with_pool, prediction_json}
use edge_sched.Api.Handler.{
  Site, selected, choose_engine, with_budget, route, Arrival, result, deadline,
}
use edge_sched.Api.Answer.{
  succeed, with_result, answer, finish, Others, after_admit, after_read, after_route,
  handle_predict,
}
use edge_sched.Api.Codes.{is_success}
use edge_sched.Api.Effects.{StopsPlain, read_body-StopsPlain}
use edge_sched.Api.Latest.{StopsFail, admit-StopsFail}

-- The engine that was named, or an automatic routing.
abbrev pub IsNamed : Bytes → Bytes → Bool → Type 0
IsNamed [] engine auto_routed = auto_routed ≡ true
IsNamed (c ∷ name) engine auto_routed = (engine ≡ c ∷ name) × (auto_routed ≡ false)

module _ (fl : Floats) where
  -- The outcome is no success, or a prediction by what was routed.
  abbrev IsFrom : Bytes → Outcome fl → Type 0
  IsFrom named o =
      (is_success o.status ≡ false)
      ⊎ ((p : PredictResponseJson fl) × (o.reply ≡ json (prediction p))
          × IsNamed named p.engine p.auto_routed)

  abbrev RoutedNamed : Bytes → Phase fl Routed → Type 0
  RoutedNamed named (stop o) = is_success o.status ≡ false
  RoutedNamed named (go r) = IsNamed named r.engine_name r.auto_routed

  with_pool-RoutedNamed :
      (named : Bytes) (r : Routed) (o : Option (EnginePool fl))
      → IsNamed named r.engine_name r.auto_routed
      → RoutedNamed named (with_pool fl r o)
  unfolding with_pool
  with_pool-RoutedNamed named r none h = refl
  with_pool-RoutedNamed named r (some p) h = h

  prediction_of : Reply fl → Option (PredictResponseJson fl)
  prediction_of (json (prediction p)) = some p
  prediction_of _ = none

  the_prediction :
      {p p' : PredictResponseJson fl}
      → ◌≡◌ {A = Reply fl} (json (prediction p')) (json (prediction p))
      → p' ≡ p
  unfolding prediction_of
  the_prediction h = some_inj (ap prediction_of h)

  module _ (Client : Type 0) where
    selected-RoutedNamed :
        (s : Site fl Client) (budget : ℤ) (r : Result RoutingError Bytes)
        → RoutedNamed [] (selected fl Client s budget r)
    unfolding selected
    selected-RoutedNamed s budget (ok name) = with_pool-RoutedNamed [] _ (lookup name s.pools) refl
    selected-RoutedNamed s budget (err e) = refl
    selected-RoutedNamed s budget panic = refl

    choose_engine-RoutedNamed :
        (s : Site fl Client) (budget : ℤ) (named : Bytes)
        → RoutedNamed named (choose_engine fl Client s budget named).0
    unfolding choose_engine
    choose_engine-RoutedNamed s budget [] = selected-RoutedNamed s budget _
    choose_engine-RoutedNamed s budget (c ∷ name) =
        elim (Bool-cases (healthy Client s.health_monitor (c ∷ name))) [
          | inl up ↦
              rw up (with_pool-RoutedNamed (c ∷ name) _ (lookup (c ∷ name) s.pools) (refl, refl))
          | inr down ↦ rw down refl
        ]

    route-RoutedNamed :
        (s : Site fl Client) (q : Query) → RoutedNamed q.engine (route fl Client s q).0
    unfolding route with_budget
    route-RoutedNamed s q = go_on (parse_latency_budget q.latency_budget s.max_latency_budget)
      where
        go_on : (r : Result Bytes ℤ) → RoutedNamed q.engine (with_budget fl Client s q.engine r).0
        go_on (ok budget) = choose_engine-RoutedNamed s budget q.engine
        go_on (err raw) = refl
        go_on panic = refl

    module _ (base64 : Bytes → Bytes) (zero_f32 : fl.F32) where
      answer-IsFrom :
          (named : Bytes) (s : Site fl Client) (r : Routed) (depth : ℕ) (image : Bytes)
          (arrival : Arrival fl Client)
          → IsNamed named r.engine_name r.auto_routed
          → IsFrom named (answer fl Client base64 zero_f32 s r depth image arrival).0
      unfolding answer with_result
      answer-IsFrom named s r depth image (result res elapsed now) h = go_on res.err
        where
          go_on :
              (e : Option Bytes)
              → IsFrom named
                  (with_result fl Client base64 zero_f32 s r depth image res.response e elapsed
                    now).0
          go_on none = unfold succeed prediction_json in inr (_, refl, h)
          go_on (some e) = inl refl
      answer-IsFrom named s r depth image deadline h = inl refl

      module _ (others : Others fl Client base64 zero_f32) (named : Bytes) where
        after_admit-IsFrom :
            (r : Routed) (depth : ℕ) (image : Bytes) (arrival : Arrival fl Client)
            (p : Phase fl (Unit {0}) × Site fl Client)
            → IsNamed named r.engine_name r.auto_routed
            → StopsFail fl Client base64 zero_f32 p.0
            → IsFrom named (after_admit fl Client base64 zero_f32 others r depth image arrival p).0
        unfolding after_admit
        after_admit-IsFrom r depth image arrival (stop o, s) h k = inl k
        after_admit-IsFrom r depth image arrival (go _, s) h k =
            answer-IsFrom named (others.waiting s) r depth image arrival h

        after_read-IsFrom :
            (q : Query) (r : Routed) (arrival : Arrival fl Client) (p : Phase fl Bytes)
            (s : Site fl Client)
            → IsNamed named r.engine_name r.auto_routed
            → StopsPlain fl Client p
            → IsFrom named (after_read fl Client base64 zero_f32 others q r arrival p s).0
        unfolding after_read
        after_read-IsFrom q r arrival (stop o) s h k = inl k.1
        after_read-IsFrom q r arrival (go image) s h k =
            after_admit-IsFrom r _ image arrival _ h
              (admit-StopsFail fl Client base64 zero_f32 (others.measuring s) r q.channel image)

        after_route-IsFrom :
            (q : Query) (arrival : Arrival fl Client) (p : Phase fl Routed × Site fl Client)
            → RoutedNamed named p.0
            → IsFrom named (after_route fl Client base64 zero_f32 others q arrival p).0
        unfolding after_route
        after_route-IsFrom q arrival (stop o, s) h = inl h
        after_route-IsFrom q arrival (go r, s) h =
            after_read-IsFrom q r arrival _ (others.reading s) h
              (read_body-StopsPlain fl Client r q.body)

      -- A prediction that succeeds is by the engine that the query names, or, where it names none, by
      -- one that was routed automatically, and says so.
      pub handle_predict-IsNamed :
          (others : Others fl Client base64 zero_f32) (s : Site fl Client) (q : Query)
          (arrival : Arrival fl Client) (p : PredictResponseJson fl)
          → let o = (handle_predict fl Client base64 zero_f32 others s q arrival).0 in
            is_success o.status ≡ true
            → o.reply ≡ json (prediction p)
            → IsNamed q.engine p.engine p.auto_routed
      unfolding handle_predict finish
      handle_predict-IsNamed others s q arrival p won e =
          elim (after_route-IsFrom others q.engine q arrival _ (route-RoutedNamed s q)) [
            | inl fails ↦ absurd (true_not_false won fails)
            | inr (p', e', h) ↦
                subst (λ (x : PredictResponseJson fl). IsNamed q.engine x.engine x.auto_routed)
                  (the_prediction (sym e' ∙ e)) h
          ]
