-- ===== src/Loadgen/Url.antt =====
-- scheduler/cmd/loadgen/main.go: `buildPredictURL`.
use edge_sched.Prelude.{ℕ, ◌≡◌, refl, ap, ◌==◌, if◌then◌else◌, List, [], ◌∷◌, ◌++◌}
use edge_sched.Prelude.Int.{ℤ, pos, ltz}
use edge_sched.Prelude.Bytes.{Bytes, bytes}
use edge_sched.Prelude.Decimal.{itoa}

-- `strings.TrimRight(s, "/")`
abbrev pub unless_last_slash : ℕ → Bytes → Bytes
unless_last_slash c [] = if c == b'/' then [] else c ∷ []
unless_last_slash c (d ∷ s) = c ∷ d ∷ s

unfoldable pub trim_slashes : Bytes → Bytes
trim_slashes [] = []
trim_slashes (c ∷ s) = unless_last_slash c (trim_slashes s)

-- `strings.Join(params, "&")`
unfoldable pub join : List Bytes → Bytes
join [] = []
join (p ∷ []) = p
join (p ∷ q ∷ ps) = p ++ b'&' ∷ join (q ∷ ps)

abbrev pub engine_param : Bytes → List Bytes
engine_param [] = []
engine_param (c ∷ name) = (bytes "engine=" ++ c ∷ name) ∷ []

abbrev pub budget_param : ℤ → List Bytes
budget_param ms = if ltz (pos 0) ms then (bytes "latency_budget_ms=" ++ itoa ms) ∷ [] else []

abbrev pub query_of : List Bytes → Bytes
query_of [] = []
query_of (p ∷ ps) = b'?' ∷ join (p ∷ ps)

unfoldable pub build_predict_url : Bytes → Bytes → ℤ → Bytes
unfolding trim_slashes join itoa
build_predict_url base engine ms =
    (trim_slashes base ++ bytes "/predict") ++ query_of (engine_param engine ++ budget_param ms)

trim_slashes-append : (s : Bytes) → trim_slashes (s ++ b'/' ∷ []) ≡ trim_slashes s
unfolding trim_slashes
trim_slashes-append [] = refl
trim_slashes-append (c ∷ s) = ap (unless_last_slash c) (trim_slashes-append s)

-- The slashes that an address ends in do not matter to the URL.
build_predict_url-slash :
    (base engine : Bytes) (ms : ℤ)
    → build_predict_url (base ++ b'/' ∷ []) engine ms ≡ build_predict_url base engine ms
unfolding build_predict_url
build_predict_url-slash base engine ms =
    ap (λ s. (s ++ bytes "/predict") ++ query_of (engine_param engine ++ budget_param ms))
      (trim_slashes-append base)
