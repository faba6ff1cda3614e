-- ===== src/Examples/Mux.antt =====
-- A request to predict, and one for the health of an engine, at the routes of the server.
use edge_sched.Prelude.{◌≡◌, ◌≢◌, ◌⊎◌, refl, false, [], ◌∷◌, some}
use edge_sched.Prelude.Int.{pos}
use edge_sched.Prelude.Bytes.{bytes}
use edge_sched.Api.Params.{request_query}
use edge_sched.Api.Answer.{handle_predict}
use edge_sched.Api.Overview.{HealthAnswer, health_error}
use edge_sched.Command.Mux.{Incoming, handle, to_health, to_files, dispatch, predicted, serve}
use edge_sched.Command.Served.{serve_cases}
use edge_sched.Examples.Floats.{whole}
use edge_sched.Examples.Api.{U, site, base64, nobody, reply}

-- HEAD is served as GET, and a GET of /predict as a file of the dashboard.
head_test :
    dispatch (bytes "HEAD") (bytes "/health")
    ≡ some (handle (bytes "GET") (bytes "/health") to_health)
unfolding dispatch
head_test = refl

get_predict_test : dispatch (bytes "GET") (bytes "/predict") ≡ some (handle [] (bytes "/") to_files)
unfolding dispatch
get_predict_test = refl

abbrev answers : U → HealthAnswer whole
answers c = health_error (bytes "down")

abbrev incoming : Incoming
incoming = record {
  method = bytes "POST";
  path = bytes "/predict";
  url = bytes "/predict?engine=n";
  body = record { content = 1 ∷ 2 ∷ []; fails = false };
  channel = 0;
}

serve_cases_example :
    let served = serve whole U base64 (pos 0) nobody answers site incoming reply in
    ((bytes "POST" ≡ bytes "POST")
      × (bytes "/predict" ≡ bytes "/predict")
      × (served
          ≡ predicted whole U base64 (pos 0) nobody answers (
              handle_predict whole U base64
                (pos 0)
                nobody
                site
                (request_query incoming.url incoming.body 0)
                reply)))
    ⊎ (((bytes "POST" ≢ bytes "POST") ⊎ (bytes "/predict" ≢ bytes "/predict")) × (served.1 ≡ site))
serve_cases_example = serve_cases whole U base64 (pos 0) nobody answers site incoming reply
