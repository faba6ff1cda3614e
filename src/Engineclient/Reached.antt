-- ===== src/Engineclient/Reached.antt =====
-- scheduler/internal/api/handlers.go: a prediction that reaches the `select` of `HandlePredict`.
use edge_sched.Prelude.{ℕ, ◌≡◌, refl, ap, ◌∙◌}
use edge_sched.Prelude.Bytes.{Bytes}
use edge_sched.Prelude.Maps.{lookup}
use edge_sched.Prelude.Floats.{Floats}
use edge_sched.Api.Predict.{Query, Routed, Outcome, Phase, stop, go, read_body}
use edge_sched.Api.Handler.{Site, route, depth_of, admit, Arrival}
use edge_sched.Api.Answer.{
  answer, finish, Others, after_admit, after_read, after_route, handle_predict,
}
use edge_sched.Api.Effects.{Kept, Admits, Kept-trans, route-Starts, admit-Admits}
use edge_sched.Api.Counted.{IsQuiet}

module _ (fl : Floats) (Client : Type 0) (base64 : Bytes → Bytes) (zero_f32 : fl.F32)
    (others : Others fl Client base64 zero_f32) where
  -- The server when the handler submits.
  abbrev pub submitting : Site fl Client → Query → Site fl Client
  submitting s q = others.measuring (others.reading (route fl Client s q).1)

  -- The query was routed, its body read as an image, and the request accepted by the pool.
  pub record IsAccepted (s : Site fl Client) (q : Query) (r : Routed) (image : Bytes) : Type 0 where
    pub is_routed : (route fl Client s q).0 ≡ go r
    pub is_read : read_body fl r q.body ≡ go image
    pub is_admitted : (admit fl Client (submitting s q) r q.channel image).0 ≡ go tt

  -- The server when the `select` has received.
  abbrev pub selecting : Site fl Client → Query → Routed → Bytes → Site fl Client
  selecting s q r image = others.waiting (admit fl Client (submitting s q) r q.channel image).1

  not_stopped : {A : Type 0} {o : Outcome fl} {a : A} → ◌≡◌ {A = Phase fl A} (stop o) (go a) → ⊥
  not_stopped h = cc

  go-injective : {A : Type 0} {a b : A} → ◌≡◌ {A = Phase fl A} (go a) (go b) → a ≡ b
  go-injective h = cc

  after_admit-go :
      (r : Routed) (depth : ℕ) (image : Bytes) (arrival : Arrival fl Client)
      (p : Phase fl (Unit {0}) × Site fl Client)
      → p.0 ≡ go tt
      → after_admit fl Client base64 zero_f32 others r depth image arrival p
        ≡ answer fl Client base64 zero_f32 (others.waiting p.1) r depth image arrival
  unfolding after_admit
  after_admit-go r depth image arrival (stop o, s) h = absurd (not_stopped h)
  after_admit-go r depth image arrival (go _, s) h = refl

  after_read-go :
      (q : Query) (r : Routed) (arrival : Arrival fl Client) (p : Phase fl Bytes)
      (s : Site fl Client) (image : Bytes)
      → p ≡ go image
      → (admit fl Client (others.measuring s) r q.channel image).0 ≡ go tt
      → after_read fl Client base64 zero_f32 others q r arrival p s
        ≡ answer fl Client base64 zero_f32
            (others.waiting (admit fl Client (others.measuring s) r q.channel image).1)
            r
            (depth_of fl Client (lookup r.engine_name s.pools))
            image
            arrival
  unfolding after_read
  after_read-go q r arrival (stop o) s image h a = absurd (not_stopped h)
  after_read-go q r arrival (go i) s image h a = rw (go-injective h) (
      after_admit-go r (depth_of fl Client (lookup r.engine_name s.pools)) image arrival
        (admit fl Client (others.measuring s) r q.channel image) a)

  after_route-go :
      (q : Query) (arrival : Arrival fl Client) (p : Phase fl Routed × Site fl Client) (r : Routed)
      → p.0 ≡ go r
      → after_route fl Client base64 zero_f32 others q arrival p
        ≡ after_read fl Client base64 zero_f32 others q r arrival
            (read_body fl r q.body)
            (others.reading p.1)
  unfolding after_route
  after_route-go q arrival (stop o, s) r h = absurd (not_stopped h)
  after_route-go q arrival (go x, s) r h =
      ap
        (λ y.
          after_read fl Client base64 zero_f32 others q y arrival (read_body fl y q.body)
            (others.reading s))
        (go-injective h)

  -- How a prediction that was accepted goes on.
  pub handle_predict-accepted :
      (s : Site fl Client) (q : Query) (arrival : Arrival fl Client) (r : Routed) (image : Bytes)
      → IsAccepted s q r image
      → handle_predict fl Client base64 zero_f32 others s q arrival
        ≡ finish fl Client base64 zero_f32 (
            answer fl Client base64 zero_f32
              (selecting s q r image)
              r
              (depth_of fl Client
                (lookup r.engine_name (others.reading (route fl Client s q).1).pools))
              image
              arrival)
  unfolding handle_predict
  handle_predict-accepted s q arrival r image a =
      let t = others.reading (route fl Client s q).1 in
      ap (finish fl Client base64 zero_f32) (
        after_route-go q arrival (route fl Client s q) r a.is_routed
        ∙ after_read-go q r arrival (read_body fl r q.body) t image a.is_read a.is_admitted)

  admitted-Kept :
      (s : Site fl Client) (p : Phase fl (Unit {0}) × Site fl Client)
      → p.0 ≡ go tt
      → Admits fl Client s p
      → Kept fl Client s p.1
  admitted-Kept s (stop o, t) h k = absurd (not_stopped h)
  admitted-Kept s (go _, t) h k = k

  pub selecting-Kept :
      (s : Site fl Client) (q : Query) (r : Routed) (image : Bytes)
      → IsQuiet fl Client base64 zero_f32 others
      → IsAccepted s q r image
      → Kept fl Client s (selecting s q r image)
  selecting-Kept s q r image quiet a =
      let s1 = (route fl Client s q).1 in
      let s2 = others.reading s1 in
      let s3 = submitting s q in
      let s4 = (admit fl Client s3 r q.channel image).1 in
      let k1 = (route-Starts fl Client s q).1 in
      let k2 = Kept-trans fl Client s s1 s2 k1 (quiet.reading_keeps s1) in
      let k3 = Kept-trans fl Client s s2 s3 k2 (quiet.measuring_keeps s2) in
      let k4 =
        admitted-Kept s3 (admit fl Client s3 r q.channel image) a.is_admitted
          (admit-Admits fl Client s3 r q.channel image) in
      Kept-trans fl Client s s4 (selecting s q r image) (Kept-trans fl Client s s3 s4 k3 k4)
        (quiet.waiting_keeps s4)
