-- ===== src/Command/Mux.antt =====
-- scheduler/cmd/scheduler/main.go: the routes of the server, and a request from the mux to its handler.
-- The path is the decoded one, and one that path.Clean leaves as it is: others are redirected.
use edge_sched.Prelude.{
  ℕ, ltb, if◌then◌else◌, Bool, true, false, ◌&&◌, ◌||◌, List, [], ◌∷◌, keep, length, Option, none,
  some,
}
use edge_sched.Prelude.Bytes.{Bytes, bytes, str_eq}
use edge_sched.Prelude.Floats.{Floats}
use edge_sched.Api.Wire.{Reply}
use edge_sched.Api.Predict.{Outcome, Reader}
use edge_sched.Api.Params.{raw_query, query_get, request_query}
use edge_sched.Api.Handler.{Site, Arrival}
use edge_sched.Api.Answer.{Others, handle_predict, handle_last_result}
use edge_sched.Api.Overview.{HealthAnswer, handle_status, handle_health}
use edge_sched.Collector.{Metric, collect}

pub data Target : Type 0 where
  to_predict to_health to_status to_last_result to_metrics to_files : Target

-- A pattern without a method has the empty text.
pub record Pattern : Type 0 where
  pub method : Bytes
  pub path : Bytes
  pub target : Target

abbrev pub handle : Bytes → Bytes → Target → Pattern
handle method path target = record { method = method; path = path; target = target }

abbrev pub routes : List Pattern
routes =
    handle (bytes "POST") (bytes "/predict") to_predict
    ∷ handle (bytes "GET") (bytes "/health") to_health
    ∷ handle (bytes "GET") (bytes "/status") to_status
    ∷ handle (bytes "GET") (bytes "/last-result") to_last_result
    ∷ handle (bytes "GET") (bytes "/metrics") to_metrics
    ∷ handle [] (bytes "/") to_files
    ∷ []

-- GET matches HEAD too.
abbrev pub matches_method : Bytes → Bytes → Bool
matches_method [] method = true
matches_method (c ∷ m) method =
    str_eq (c ∷ m) method || (str_eq (c ∷ m) (bytes "GET") && str_eq (bytes "HEAD") method)

abbrev pub ends_with_slash : Bytes → Bool
ends_with_slash [] = false
ends_with_slash (c ∷ []) = str_eq (c ∷ []) (bytes "/")
ends_with_slash (c ∷ d ∷ s) = ends_with_slash (d ∷ s)

unfoldable pub has_prefix : Bytes → Bytes → Bool
has_prefix [] s = true
has_prefix (c ∷ p) [] = false
has_prefix (c ∷ p) (d ∷ s) = str_eq (c ∷ []) (d ∷ []) && has_prefix p s

-- A path that ends with a slash stands for all below it.
abbrev pub matches_path : Bytes → Bytes → Bool
matches_path pattern path =
    if ends_with_slash pattern then has_prefix pattern path else str_eq pattern path

unfoldable pub matches : Bytes → Bytes → Pattern → Bool
unfolding str_eq has_prefix
matches method path p = matches_method p.method method && matches_path p.path path

-- Of the patterns of `main` that match a request, the one with the longest path is the most specific.
abbrev pub longer : Pattern → Option Pattern → Option Pattern
longer p none = some p
longer p (some q) = if ltb (length p.path) (length q.path) then some q else some p

unfoldable pub most_specific : List Pattern → Option Pattern
most_specific [] = none
most_specific (p ∷ ps) = longer p (most_specific ps)

unfoldable pub dispatch : Bytes → Bytes → Option Pattern
unfolding matches most_specific
dispatch method path = most_specific (keep (matches method path) routes)

pub record Incoming : Type 0 where
  pub method : Bytes
  pub path : Bytes
  pub url : Bytes
  pub body : Reader
  pub channel : ℕ

-- What is written: a handler's reply, the metrics of the collector, a file of the dashboard, or no such page.
pub data Response (fl : Floats) : Type 0 where
  replied : Reply fl → Response fl
  exposed : List (Metric fl) → Response fl
  file_server : Bytes → Response fl
  not_found : Response fl

module _ (fl : Floats) (Client : Type 0) (base64 : Bytes → Bytes) (zero_f32 : fl.F32)
    (others : Others fl Client base64 zero_f32) (answers : Client → HealthAnswer fl) where
  abbrev pub predicted : Outcome fl × Site fl Client → Response fl × Site fl Client
  predicted (o, s) = (replied o.reply, s)

  abbrev pub serve_target :
      Site fl Client → Incoming → Arrival fl Client → Target → Response fl × Site fl Client
  serve_target s r arrival to_predict = predicted (
      handle_predict fl Client base64 zero_f32 others s (request_query r.url r.body r.channel)
        arrival)
  serve_target s r arrival to_health = (
    replied (handle_health fl Client s (query_get (bytes "engine") (raw_query r.url)) answers),
    s,
  )
  serve_target s r arrival to_status = (replied (handle_status fl Client s), s)
  serve_target s r arrival to_last_result =
      (replied (handle_last_result fl Client base64 zero_f32 s), s)
  serve_target s r arrival to_metrics = (exposed (collect fl s.pools s.monitor), s)
  serve_target s r arrival to_files = (file_server r.path, s)

  abbrev pub serve_pattern :
      Site fl Client → Incoming → Arrival fl Client → Option Pattern → Response fl × Site fl Client
  serve_pattern s r arrival none = (not_found, s)
  serve_pattern s r arrival (some p) = serve_target s r arrival p.target

  unfoldable pub serve :
      Site fl Client → Incoming → Arrival fl Client → Response fl × Site fl Client
  serve s r arrival = serve_pattern s r arrival (dispatch r.method r.path)
