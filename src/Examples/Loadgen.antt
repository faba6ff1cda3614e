-- ===== src/Examples/Loadgen.antt =====
-- A run of the load generator with one worker and one image, and a URL that it builds.
use edge_sched.Prelude.{
  ◌+◌, ◌*◌, ◌≤◌, ◌≡◌, refl, Bool, true, List, [], ◌∷◌, length, count_if, ok, Result, ◌⊎◌, false,
  some, arith,
}
use edge_sched.Prelude.Int.{pos, ltz}
use edge_sched.Prelude.Bytes.{Bytes, bytes}
use edge_sched.Loadgen.Send.{PredictReply, Sent, contents, replied, send_one}
use edge_sched.Loadgen.Fed.{Fed}
use edge_sched.Loadgen.Feed.{
  paths_closed, returned, workers_of, Run, Step, hands_out, passes, sends, collects, returns, ends,
  Reach, begun, later,
}
use edge_sched.Loadgen.Summary.{Summary, summarise}
use edge_sched.Loadgen.Report.{Tells, run-Tells}
use edge_sched.Prelude.Split.{split, split_two}
use edge_sched.Prelude.Bytes.{str_eq}
use edge_sched.Api.Params.{raw_query, unescape, parse_pair, first_value, query_get, request_query}
use edge_sched.Api.Budget.{parse_latency_budget}
use edge_sched.Loadgen.Url.{trim_slashes, join, build_predict_url}
use edge_sched.Loadgen.Asked.{budget_for, build_predict_url-read}
use edge_sched.Loadgen.Once.{results-handed}
use edge_sched.Loadgen.Ends.{one_pass-ends}
use edge_sched.Examples.Percentiles.{naturals, natural_ops, naturals-IsIeee, naturals-IsScaling}

abbrev answer : PredictReply naturals
answer = record {
  engine = bytes "n";
  auto_routed = true;
  preprocess_ms = 1;
  inference_ms = 2;
  postprocess_ms = 3;
  num_detections = 0;
}

abbrev decode : Bytes → Result Bytes (PredictReply naturals)
decode body = ok answer

abbrev good : Sent naturals
good = send_one naturals 0 decode (bytes "a.jpg") (contents (1 ∷ [])) (replied 200 []) 7 (pos 1)

abbrev paths : List Bytes
paths = bytes "a.jpg" ∷ []

abbrev finished : Run naturals
finished = record {
  producer = paths_closed;
  workers = returned ∷ [];
  results = good ∷ [];
  over = true;
  handed = paths;
}

finished-Reach : Reach naturals 0 decode paths (pos 0) (pos 1) 6 finished
finished-Reach =
    later
      (later
        (later
          (later
            (later (later begun (hands_out (bytes "a.jpg") [] 0 refl refl))
              (sends (bytes "a.jpg") 0 (contents (1 ∷ [])) (replied 200 []) 7 (pos 1) refl))
            (passes refl))
          (collects good 0 refl refl))
        (returns 0 refl refl))
      (ends (refl, tt) refl)

results-handed_example :
    Fed paths (ltz (pos 0) (pos 0)) finished.handed
    × ((f : Bytes → Bool)
        → count_if (λ (r : Sent naturals). f r.path) finished.results ≡ count_if f finished.handed)
results-handed_example = results-handed (pos 0) (pos 1) finished-Reach refl refl

one_pass-ends_example :
    6 ≤ 3 * length paths + length (workers_of naturals (pos 1)) + 2
    × ((finished.over ≡ true) ⊎ ((t : Run naturals) × Step naturals 0 decode paths finished t))
one_pass-ends_example = one_pass-ends (pos 0) (pos 1) finished-Reach refl

run-Tells_example :
    (m : Summary naturals) × (summarise naturals natural_ops (bytes "x") (pos 1) 9 finished.results
      ≡ some m)
    × Tells naturals natural_ops naturals-IsScaling naturals-IsIeee finished.results 1 m
run-Tells_example =
    run-Tells naturals natural_ops naturals-IsScaling naturals-IsIeee (pos 0) (pos 1) (bytes "x") 9
      finished-Reach refl refl refl (refl, tt) (omega arith)

build_predict_url-read_example :
    let query =
      request_query
        (build_predict_url (bytes "h:1") (bytes "n_8") (pos 5))
        (record { content = []; fails = false })
        0 in
    (query.engine ≡ bytes "n_8")
    × (parse_latency_budget query.latency_budget (pos 30000000000) ≡ ok (budget_for 5 30000000000))
build_predict_url-read_example =
    build_predict_url-read (bytes "h:1") (bytes "n_8") 5 30000000000
      (record { content = []; fails = false }) 0 (refl, (refl, (refl, tt)))
      (refl, (refl, (refl, tt))) (refl, (refl, (refl, tt))) (omega arith)

-- A name with an ampersand is cut.
unescaped_test :
    query_get (bytes "engine") (raw_query (build_predict_url (bytes "h") (bytes "a&b") (pos 0)))
    ≡ bytes "a"
unfolding build_predict_url trim_slashes join raw_query query_get split split_two first_value
    parse_pair unescape str_eq
unescaped_test = refl
