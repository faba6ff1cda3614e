-- ===== src/Api/Effects.antt =====
-- What each phase of a prediction does to the metrics and to the latest result.
use edge_sched.Prelude.{
  ℕ, ◌≡◌, refl, ap, ◌∙◌, ◌⊎◌, Bool, true, false, List, [], ◌∷◌, Option, none, some, Result, ok, err,
  panic, Bool-cases, inl, inr,
}
use edge_sched.Prelude.Int.{ℤ}
use edge_sched.Prelude.Bytes.{Bytes}
use edge_sched.Prelude.Maps.{lookup}
use edge_sched.Prelude.Floats.{Floats}
use edge_sched.Healthcheck.Monitor.{healthy}
use edge_sched.Routing.Pick.{RoutingError}
use edge_sched.Api.Wire.{LastResultJson}
use edge_sched.Api.Budget.{parse_latency_budget}
use edge_sched.Api.Server.{EnginePool}
use edge_sched.Api.Predict.{
  Reader, read_all, Query, Routed, Outcome, Phase, stop, go, with_pool, image_of, read_body,
}
use edge_sched.Api.Handler.{
  Site, selected, choose_engine, with_budget, route, submitted, submit_to, admit,
}
use edge_sched.Api.Codes.{is_rejected, is_success}

abbrev pub counted_if : Bool → Bytes → List Bytes → List Bytes
counted_if true engine before = engine ∷ before
counted_if false engine before = before

module _ (fl : Floats) (Client : Type 0) where
  -- The metrics and the latest result are the same.
  abbrev pub Kept : Site fl Client → Site fl Client → Type 0
  Kept s t = (t.metrics ≡ s.metrics) × (t.last_result ≡ s.last_result)

  -- The latest result is that of this prediction after a success, and else the one before.
  abbrev pub ResultOf : Outcome fl → Site fl Client → Site fl Client → Type 0
  ResultOf o s t =
      ((is_success o.status ≡ true)
        × ((l : LastResultJson fl) × (t.last_result ≡ some l) × (l.engine ≡ o.engine_name)))
      ⊎ ((is_success o.status ≡ false) × (t.last_result ≡ s.last_result))

  -- What a prediction does before the deferred function.
  pub record Served (o : Outcome fl) (s t : Site fl Client) : Type 0 where
    pub requests : t.metrics.requests_total ≡ s.metrics.requests_total
    pub rejections :
        t.metrics.admission_rejections
        ≡ counted_if (is_rejected o.status) o.engine_name s.metrics.admission_rejections
    pub latest : ResultOf o s t

  -- A return that is neither a rejection nor a success.
  abbrev pub IsPlain : Outcome fl → Type 0
  IsPlain o = (is_rejected o.status ≡ false) × (is_success o.status ≡ false)

  abbrev pub StopsPlain : {A : Type 0} → Phase fl A → Type 0
  StopsPlain (stop o) = IsPlain o
  StopsPlain (go a) = Unit

  pub Kept-Served : (o : Outcome fl) (s t : Site fl Client) → IsPlain o → Kept s t → Served o s t
  Kept-Served o s t (n, m) (e, f) = record {
    requests = ap (λ x. x.requests_total) e;
    rejections = rw n (ap (λ x. x.admission_rejections) e);
    latest = inr (m, f);
  }

  pub Served-after :
      (o : Outcome fl) (s t u : Site fl Client) → Kept s t → Served o t u → Served o s u
  Served-after o s t u (e, f) v = record {
    requests = v.requests ∙ ap (λ x. x.requests_total) e;
    rejections =
        v.rejections
        ∙ ap (λ x. counted_if (is_rejected o.status) o.engine_name x.admission_rejections) e;
    latest = later v.latest;
  }
    where
      later : ResultOf o t u → ResultOf o s u
      later (inl r) = inl r
      later (inr (m, g)) = inr (m, g ∙ f)

  pub Kept-trans : (s t u : Site fl Client) → Kept s t → Kept t u → Kept s u
  Kept-trans s t u (e, f) (g, h) = (g ∙ e, h ∙ f)

  with_pool-StopsPlain : (r : Routed) (o : Option (EnginePool fl)) → StopsPlain (with_pool fl r o)
  unfolding with_pool
  with_pool-StopsPlain r none = (refl, refl)
  with_pool-StopsPlain r (some p) = tt

  selected-StopsPlain :
      (s : Site fl Client) (budget : ℤ) (r : Result RoutingError Bytes)
      → StopsPlain (selected fl Client s budget r)
  unfolding selected
  selected-StopsPlain s budget (ok name) = with_pool-StopsPlain _ (lookup name s.pools)
  selected-StopsPlain s budget (err e) = (refl, refl)
  selected-StopsPlain s budget panic = (refl, refl)

  -- The first phase changes neither the metrics nor the latest result.
  abbrev pub Starts : Site fl Client → Phase fl Routed × Site fl Client → Type 0
  Starts s p = StopsPlain p.0 × Kept s p.1

  choose_engine-Starts :
      (s : Site fl Client) (budget : ℤ) (engine : Bytes)
      → Starts s (choose_engine fl Client s budget engine)
  unfolding choose_engine
  choose_engine-Starts s budget [] = (selected-StopsPlain s budget _, (refl, refl))
  choose_engine-Starts s budget (c ∷ name) =
      elim (Bool-cases (healthy Client s.health_monitor (c ∷ name))) [
        | inl up ↦ rw up (with_pool-StopsPlain _ (lookup (c ∷ name) s.pools), (refl, refl))
        | inr down ↦ rw down ((refl, refl), (refl, refl))
      ]

  pub route-Starts : (s : Site fl Client) (q : Query) → Starts s (route fl Client s q)
  unfolding route with_budget
  route-Starts s q = go_on (parse_latency_budget q.latency_budget s.max_latency_budget)
    where
      go_on : (r : Result Bytes ℤ) → Starts s (with_budget fl Client s q.engine r)
      go_on (ok budget) = choose_engine-Starts s budget q.engine
      go_on (err raw) = ((refl, refl), (refl, refl))
      go_on panic = ((refl, refl), (refl, refl))

  pub read_body-StopsPlain : (r : Routed) (body : Reader) → StopsPlain (read_body fl r body)
  unfolding read_body image_of
  read_body-StopsPlain r body = go_on (read_all body)
    where
      go_on : (o : Option Bytes) → StopsPlain (image_of fl r o)
      go_on none = (refl, refl)
      go_on (some []) = (refl, refl)
      go_on (some (b ∷ image)) = tt

  -- A submission that goes on has changed neither; one that does not has served the request.
  abbrev pub Admits : Site fl Client → Phase fl (Unit {0}) × Site fl Client → Type 0
  Admits s (stop o, t) = Served o s t
  Admits s (go _, t) = Kept s t

  pub admit-Admits :
      (s : Site fl Client) (r : Routed) (channel : ℕ) (image : Bytes)
      → Admits s (admit fl Client s r channel image)
  unfolding admit submitted
  admit-Admits s r channel image = go_on (submit_to fl Client (lookup r.engine_name s.pools) _)
    where
      go_on : (o : Option (Bool × EnginePool fl)) → Admits s (submitted fl Client s r.engine_name o)
      go_on none = Kept-Served _ s s (refl, refl) (refl, refl)
      go_on (some (true, p)) = (refl, refl)
      go_on (some (false, p)) = record {
        requests = refl;
        rejections = refl;
        latest = inr (refl, refl);
      }
