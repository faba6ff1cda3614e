-- ===== src/Loadgen/Answered.antt =====
-- scheduler/cmd/loadgen/main.go and scheduler/internal/api/handlers.go: a request of the load generator,
-- from its URL to its result.
use edge_sched.Prelude.{
  ℕ, ◌==◌, ◌≡◌, refl, ap, sym, ◌∙◌, subst, true, false, Bool, [], ◌∷◌, All, none, some, inl, inr,
  arith,
}
use edge_sched.Prelude.Int.{ℤ, pos}
use edge_sched.Prelude.Bytes.{Bytes}
use edge_sched.Prelude.Floats.{Floats}
use edge_sched.Json.Value.{Codec, IsCodec, is_ascii}
use edge_sched.Api.Predict.{Reader}
use edge_sched.Api.Params.{request_query}
use edge_sched.Api.Escape.{AreSafe}
use edge_sched.Api.Handler.{Site, Arrival}
use edge_sched.Api.Answer.{Others, handle_predict}
use edge_sched.Api.Codes.{is_success}
use edge_sched.Api.Named.{IsNamed, handle_predict-IsNamed}
use edge_sched.Loadgen.Send.{SendError}
use edge_sched.Loadgen.Url.{build_predict_url}
use edge_sched.Loadgen.Asked.{request_query-engine}
use edge_sched.Loadgen.Agreed.{result_of, handle_predict-Agrees}

AreSafe-ascii : (s : Bytes) → AreSafe s → is_ascii s ≡ true
AreSafe-ascii [] h = refl
AreSafe-ascii (c ∷ s) (h, hs) = ground (arith, h, AreSafe-ascii s hs)

-- What is named is read back of a JSON text.
IsNamed-read :
    (named engine read : Bytes) (auto_routed : Bool) (valid : Bytes → Bytes)
    → (is_ascii named ≡ true → valid named ≡ named)
    → is_ascii named ≡ true
    → read ≡ valid engine
    → IsNamed named engine auto_routed
    → IsNamed named read auto_routed
IsNamed-read [] engine read auto_routed valid keeps ascii e h = h
IsNamed-read (c ∷ name) engine read auto_routed valid keeps ascii e (h, k) =
    (e ∙ ap valid h ∙ keeps ascii, k)

some_error : {e : SendError} → some e ≡ none → ⊥
some_error h = cc

module _ (fl : Floats) (codec : Codec fl) (error_text : Bytes → Bytes) (zero : fl.F)
    (quote : Bytes → Bytes) (closed path image : Bytes) (wall_ms : fl.F) (at : ℤ) where
  -- The codec keeps its laws, the address has neither `?` nor `#`, and the engine's name is of letters, digits, `_`, `-` and `.`.
  -- If the load generator's request to predict gives a result without an error, that has the engine
  -- that was asked for and was not routed automatically, or, if none was asked for, was routed so.
  pub result_of-IsNamed :
      (Client : Type 0) (base64 : Bytes → Bytes) (zero_f32 : fl.F32)
      → IsCodec fl codec
      → (base engine : Bytes) (ms : ℕ) → All (λ c. (c == b'?') ≡ false) base
      → All (λ c. (c == b'#') ≡ false) base
      → AreSafe engine
      → (body : Reader) (channel : ℕ)
      → (others : Others fl Client base64 zero_f32) (s : Site fl Client)
        (arrival : Arrival fl Client)
      → let query = request_query (build_predict_url base engine (pos ms)) body channel in
        let reply = (handle_predict fl Client base64 zero_f32 others s query arrival).0.reply in
        let r = result_of fl codec error_text zero quote closed path image wall_ms at reply in
        r.error ≡ none → IsNamed engine r.resp.engine r.resp.auto_routed
  result_of-IsNamed Client base64 zero_f32 laws base engine ms p f safe body channel others s
        arrival good =
      let query = request_query (build_predict_url base engine (pos ms)) body channel in
      let asked = request_query-engine base engine ms body channel p f safe in
      elim (handle_predict-Agrees fl codec error_text zero quote closed path image wall_ms at Client
        base64 zero_f32 laws others s query arrival) [
          | inl (x, won, e, _, inl (_, _, (_, told, auto, _))) ↦
              let named =
                handle_predict-IsNamed fl Client base64 zero_f32 others s query arrival x
                  (ap is_success won) e in
              let r =
                result_of fl codec error_text zero quote closed path image wall_ms at
                  (handle_predict fl Client base64 zero_f32 others s query arrival).0.reply in
              subst (λ b. IsNamed engine r.resp.engine b) (sym auto)
                (IsNamed-read engine x.engine r.resp.engine x.auto_routed codec.valid_text
                  (laws.valid_text-ascii engine) (AreSafe-ascii engine safe) told
                  (subst (λ n. IsNamed n x.engine x.auto_routed) asked named))
          | inl (x, won, e, _, inr (_, failed)) ↦ absurd (some_error (sym failed ∙ good))
          | inr (_, failed) ↦ absurd (failed good)
        ]
