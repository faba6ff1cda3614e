-- ===== src/Command/Served.antt =====
-- What the routes of scheduler/cmd/scheduler/main.go do to the server.
use edge_sched.Prelude.{
  ◌≡◌, ◌≢◌, refl, ap, sym, ◌∙◌, ◌⊎◌, ltb, Bool, true, false, Bool-cases, ◌&&◌, ◌||◌, List, [], ◌∷◌,
  length, Option, none, some, some_inj, inl, inr, All, In, here, there, In-All, In-keep,
  true_not_false, arith,
}
use edge_sched.Prelude.Bytes.{Bytes, bytes, str_eq, str_eq_iff}
use edge_sched.Prelude.Floats.{Floats}
use edge_sched.Api.Params.{request_query}
use edge_sched.Api.Handler.{Site, Arrival}
use edge_sched.Api.Answer.{Others, handle_predict}
use edge_sched.Api.Overview.{HealthAnswer}
use edge_sched.Command.Mux.{
  Target, to_predict, to_health, to_status, to_last_result, to_metrics, to_files, Pattern, handle,
  routes, matches, longer, most_specific, dispatch, Incoming, serve_target, serve_pattern, serve,
  predicted,
}

longer-cases : (p : Pattern) (o : Option Pattern) → (longer p o ≡ some p) ⊎ (longer p o ≡ o)
longer-cases p none = inl refl
longer-cases p (some q) = elim (Bool-cases (ltb (length p.path) (length q.path))) [
  | inl less ↦ inr (rw less refl)
  | inr more ↦ inl (rw more refl)
]

most_specific-In : (ps : List Pattern) (p : Pattern) → most_specific ps ≡ some p → In p ps
unfolding most_specific
most_specific-In [] p h = absurd (cc)
most_specific-In (q ∷ ps) p h = elim (longer-cases q (most_specific ps)) [
  | inl this ↦ here (sym (some_inj (sym this ∙ h)))
  | inr other ↦ there (most_specific-In ps p (sym other ∙ h))
]

-- The pattern of a request is one of the routes, and matches it.
dispatch-In :
    (method path : Bytes) (p : Pattern)
    → dispatch method path ≡ some p
    → In p routes × (matches method path p ≡ true)
unfolding dispatch
dispatch-In method path p h = In-keep (matches method path) routes (most_specific-In _ p h)

-- What a route to the prediction asks of a request.
abbrev IsAsked : Bytes → Bytes → Pattern → Type 0
IsAsked method path p =
    p.target ≡ to_predict
    → matches method path p ≡ true
    → (method ≡ bytes "POST") × (path ≡ bytes "/predict")

both_true : (a b c : Bool) → (a || (false && c)) && b ≡ true → (a ≡ true) × (b ≡ true)
both_true a b c h = (ground (arith, h), ground (arith, h))

routes-IsAsked : (method path : Bytes) → All (IsAsked method path) routes
unfolding matches
routes-IsAsked method path = (
  λ t h.
      let (m, p) =
        both_true (str_eq (bytes "POST") method) (str_eq (bytes "/predict") path)
          (str_eq (bytes "HEAD") method) h in
      (
        sym ((str_eq_iff (bytes "POST") method).0 m),
        sym ((str_eq_iff (bytes "/predict") path).0 p),
      ),
  (
    (λ t h. absurd (cc)),
    (
      (λ t h. absurd (cc)),
      ((λ t h. absurd (cc)), ((λ t h. absurd (cc)), ((λ t h. absurd (cc)), tt))),
    ),
  ),
)

str_eq_cases : (s t : Bytes) → (s ≡ t) ⊎ (s ≢ t)
str_eq_cases s t = elim (Bool-cases (str_eq s t)) [
  | inl same ↦ inl ((str_eq_iff s t).0 same)
  | inr other ↦ inr (λ e. true_not_false ((str_eq_iff s t).1 e) other)
]

module _ (fl : Floats) (Client : Type 0) (base64 : Bytes → Bytes) (zero_f32 : fl.F32)
    (others : Others fl Client base64 zero_f32) (answers : Client → HealthAnswer fl) where
  -- A prediction, or a request that leaves the server as it is.
  abbrev IsHandled : Site fl Client → Incoming → Arrival fl Client → Type 0
  IsHandled s r arrival =
      ((r.method ≡ bytes "POST")
        × (r.path ≡ bytes "/predict")
        × (serve fl Client base64 zero_f32 others answers s r arrival
            ≡ predicted fl Client base64 zero_f32 others answers (
                handle_predict fl Client base64 zero_f32 others s
                  (request_query r.url r.body r.channel) arrival)))
      ⊎ ((serve fl Client base64 zero_f32 others answers s r arrival).1 ≡ s)

  serve_target_cases :
      (s : Site fl Client) (r : Incoming) (arrival : Arrival fl Client) (t : Target)
      → (t ≡ to_predict)
        ⊎ ((serve_target fl Client base64 zero_f32 others answers s r arrival t).1 ≡ s)
  serve_target_cases s r arrival to_predict = inl refl
  serve_target_cases s r arrival to_health = inr refl
  serve_target_cases s r arrival to_status = inr refl
  serve_target_cases s r arrival to_last_result = inr refl
  serve_target_cases s r arrival to_metrics = inr refl
  serve_target_cases s r arrival to_files = inr refl

  serve-IsHandled :
      (s : Site fl Client) (r : Incoming) (arrival : Arrival fl Client) → IsHandled s r arrival
  unfolding serve
  serve-IsHandled s r arrival = go_on (dispatch r.method r.path) refl
    where
      go_on :
          (o : Option Pattern)
          → dispatch r.method r.path ≡ o
          → ((r.method ≡ bytes "POST")
              × (r.path ≡ bytes "/predict")
              × (serve_pattern fl Client base64 zero_f32 others answers s r arrival o
                  ≡ predicted fl Client base64 zero_f32 others answers (
                      handle_predict fl Client base64 zero_f32 others s
                        (request_query r.url r.body r.channel)
                        arrival)))
            ⊎ ((serve_pattern fl Client base64 zero_f32 others answers s r arrival o).1 ≡ s)
      go_on none h = inr refl
      go_on (some p) h =
          let (i, m) = dispatch-In r.method r.path p h in
          elim (serve_target_cases s r arrival p.target) [
            | inl t ↦
                let (method, path) =
                  In-All (IsAsked r.method r.path) routes (routes-IsAsked r.method r.path) i t m in
                inl (method, path, rw t refl)
            | inr same ↦ inr same
          ]

  unchanged :
      (s : Site fl Client) (r : Incoming) (arrival : Arrival fl Client)
      → (r.method ≢ bytes "POST") ⊎ (r.path ≢ bytes "/predict")
      → IsHandled s r arrival
      → (serve fl Client base64 zero_f32 others answers s r arrival).1 ≡ s
  unchanged s r arrival (inl n) (inl (m, _, _)) = absurd (n m)
  unchanged s r arrival (inr n) (inl (_, p, _)) = absurd (n p)
  unchanged s r arrival h (inr same) = same

  dispatch-predict :
      (method path : Bytes)
      → method ≡ bytes "POST"
      → path ≡ bytes "/predict"
      → dispatch method path ≡ some (handle (bytes "POST") (bytes "/predict") to_predict)
  unfolding dispatch
  dispatch-predict method path m p = rw (m, p) refl

  -- A POST of /predict is handled as a prediction with the parameters of its URL, and any other request
  -- leaves the server as it is.
  pub serve_cases :
      (s : Site fl Client) (r : Incoming) (arrival : Arrival fl Client)
      → let served = serve fl Client base64 zero_f32 others answers s r arrival in
        ((r.method ≡ bytes "POST")
          × (r.path ≡ bytes "/predict")
          × (served
              ≡ predicted fl Client base64 zero_f32 others answers (
                  handle_predict fl Client base64 zero_f32 others s
                    (request_query r.url r.body r.channel)
                    arrival)))
        ⊎ (((r.method ≢ bytes "POST") ⊎ (r.path ≢ bytes "/predict")) × (served.1 ≡ s))
  unfolding serve
  serve_cases s r arrival = elim (str_eq_cases r.method (bytes "POST")) [
    | inl m ↦ elim (str_eq_cases r.path (bytes "/predict")) [
      | inl p ↦ inl (
        m,
        p,
        ap (serve_pattern fl Client base64 zero_f32 others answers s r arrival)
            (dispatch-predict r.method r.path m p),
      )
      | inr other ↦ inr (inr other, unchanged s r arrival (inr other) (serve-IsHandled s r arrival))
    ]
    | inr other ↦ inr (inl other, unchanged s r arrival (inl other) (serve-IsHandled s r arrival))
  ]
