-- ===== src/Loadgen/Asked.antt =====
-- scheduler/cmd/loadgen/main.go: what the handlers read of the URL that the load generator builds.
use edge_sched.Prelude.{
  ℕ, zero, suc, ◌*◌, ◌≤◌, ◌==◌, ◌≡◌, refl, ap, ◌∙◌, min, if◌then◌else◌, Bool, Bool-cases,
  true_not_false, true, false, inl, inr, List, [], ◌∷◌, ◌++◌, All, All-append, map, ok, arith,
}
use edge_sched.Prelude.Int.{ℤ, pos, ltz}
use edge_sched.Prelude.Bytes.{Bytes, bytes, str_eq}
use edge_sched.Prelude.Decimal.{itoa, itoa_nat, all_digits, itoa_nat-all_digits}
use edge_sched.Api.Params.{raw_query, query_get, request_query}
use edge_sched.Api.Predict.{Reader}
use edge_sched.Api.Escape.{is_safe, AreSafe, param, IsSafeParam, value_of}
use edge_sched.Api.Budget.{
  parse_latency_budget, default_latency_budget, parse_latency_budget-itoa_nat,
}
use edge_sched.Loadgen.Url.{
  trim_slashes, engine_param, budget_param, query_of, build_predict_url, unless_last_slash,
}
use edge_sched.Loadgen.Joined.{query_get-url}

-- The parameters that the load generator sends.
abbrev engine_pair : Bytes → List (Bytes × Bytes)
engine_pair [] = []
engine_pair (c ∷ name) = (bytes "engine", c ∷ name) ∷ []

abbrev budget_pair : ℕ → List (Bytes × Bytes)
budget_pair zero = []
budget_pair (suc n) = (bytes "latency_budget_ms", itoa_nat (suc n)) ∷ []

digits-AreSafe : (s : Bytes) → all_digits s ≡ true → AreSafe s
digits-AreSafe [] h = tt
digits-AreSafe (c ∷ s) h = (ground (arith, h), digits-AreSafe s (ground (arith, h)))

trim_slashes-All : (P : ℕ → Type 0) (s : Bytes) → All P s → All P (trim_slashes s)
unfolding trim_slashes
trim_slashes-All P [] h = tt
trim_slashes-All P (c ∷ s) (h, hs) = kept c (trim_slashes s) h (trim_slashes-All P s hs)
  where
    kept : (c : ℕ) (t : Bytes) → P c → All P t → All P (unless_last_slash c t)
    kept c [] h k = elim (Bool-cases (c == b'/')) [
      | inl slash ↦ rw slash tt
      | inr other ↦ rw other (h, tt)
    ]
    kept c (d ∷ t) h k = (h, k)

address-All :
    (P : ℕ → Type 0) (base : Bytes)
    → All P base
    → All P (bytes "/predict")
    → All P (trim_slashes base ++ bytes "/predict")
address-All P base h k =
    All-append P (trim_slashes base) (bytes "/predict") (trim_slashes-All P base h) k

ltz-suc : (n : ℕ) → ltz (pos 0) (pos (suc n)) ≡ true
ltz-suc n = ground arith

predict_plain :
    All (λ c. (c == b'?') ≡ false) (bytes "/predict")
    × All (λ c. (c == b'#') ≡ false) (bytes "/predict")
predict_plain = (
  (refl, (refl, (refl, (refl, (refl, (refl, (refl, (refl, tt)))))))),
  (refl, (refl, (refl, (refl, (refl, (refl, (refl, (refl, tt)))))))),
)

abbrev all_safe : Bytes → Bool
all_safe [] = true
all_safe (c ∷ s) = if is_safe c then all_safe s else false

safe_text : (s : Bytes) → all_safe s ≡ true → AreSafe s
safe_text [] h = tt
safe_text (c ∷ s) h = elim (Bool-cases (is_safe c)) [
  | inl safe ↦ (safe, safe_text s (rw safe at h))
  | inr other ↦ absurd (true_not_false (rw other at h) refl)
]

engine_safe : AreSafe (bytes "engine")
engine_safe = safe_text (bytes "engine") refl

budget_safe : (n : ℕ) → IsSafeParam (bytes "latency_budget_ms", itoa_nat (suc n))
budget_safe n = (
  safe_text (bytes "latency_budget_ms") refl,
  digits-AreSafe (itoa_nat (suc n)) (itoa_nat-all_digits (suc n)),
)

params-pairs :
    (engine : Bytes) (ms : ℕ)
    → engine_param engine ++ budget_param (pos ms)
      ≡ map param (engine_pair engine ++ budget_pair ms)
unfolding itoa
params-pairs [] zero = refl
params-pairs [] (suc n) = rw (ltz-suc n) refl
params-pairs (c ∷ name) zero = refl
params-pairs (c ∷ name) (suc n) = rw (ltz-suc n) refl

pairs-AreSafe :
    (engine : Bytes) (ms : ℕ)
    → AreSafe engine
    → All IsSafeParam (engine_pair engine ++ budget_pair ms)
pairs-AreSafe [] zero h = tt
pairs-AreSafe [] (suc n) h = (budget_safe n, tt)
pairs-AreSafe (c ∷ name) zero h = ((engine_safe, h), tt)
pairs-AreSafe (c ∷ name) (suc n) h = ((engine_safe, h), (budget_safe n, tt))

engine-read :
    (engine : Bytes) (ms : ℕ)
    → value_of (bytes "engine") (engine_pair engine ++ budget_pair ms) ≡ engine
unfolding str_eq
engine-read [] zero = refl
engine-read [] (suc n) = refl
engine-read (c ∷ name) zero = refl
engine-read (c ∷ name) (suc n) = refl

-- The text of the budget, empty for none.
abbrev budget_text : ℕ → Bytes
budget_text zero = []
budget_text (suc n) = itoa_nat (suc n)

budget-read :
    (engine : Bytes) (ms : ℕ)
    → value_of (bytes "latency_budget_ms") (engine_pair engine ++ budget_pair ms) ≡ budget_text ms
unfolding str_eq
budget-read [] zero = refl
budget-read [] (suc n) = refl
budget-read (c ∷ name) zero = refl
budget-read (c ∷ name) (suc n) = refl

-- The budget that the server takes a number of milliseconds for.
abbrev pub budget_for : ℕ → ℕ → ℤ
budget_for zero limit = default_latency_budget
budget_for (suc n) limit = pos (min (suc n * 1000000) limit)

budget_text-read :
    (ms limit : ℕ)
    → ms ≤ 9223372036854
    → parse_latency_budget (budget_text ms) (pos limit) ≡ ok (budget_for ms limit)
unfolding parse_latency_budget
budget_text-read zero limit h = refl
budget_text-read (suc n) limit h = parse_latency_budget-itoa_nat (suc n) limit (omega arith) h

key-read :
    (key base engine : Bytes) (ms : ℕ)
    → All (λ c. (c == b'?') ≡ false) base
    → All (λ c. (c == b'#') ≡ false) base
    → AreSafe engine
    → query_get key (raw_query (build_predict_url base engine (pos ms)))
      ≡ value_of key (engine_pair engine ++ budget_pair ms)
unfolding build_predict_url
key-read key base engine ms q f safe =
    ap (λ ps. query_get key (raw_query ((trim_slashes base ++ bytes "/predict") ++ query_of ps)))
      (params-pairs engine ms)
    ∙ query_get-url key (trim_slashes base ++ bytes "/predict")
        (engine_pair engine ++ budget_pair ms)
        (address-All (λ c. (c == b'?') ≡ false) base q predict_plain.0)
        (address-All (λ c. (c == b'#') ≡ false) base f predict_plain.1)
        (pairs-AreSafe engine ms safe)

-- The engine that a handler reads of the URL.
pub request_query-engine :
    (base engine : Bytes) (ms : ℕ) (body : Reader) (channel : ℕ)
    → All (λ c. (c == b'?') ≡ false) base
    → All (λ c. (c == b'#') ≡ false) base
    → AreSafe engine
    → (request_query (build_predict_url base engine (pos ms)) body channel).engine ≡ engine
unfolding request_query
request_query-engine base engine ms body channel q f safe =
    key-read (bytes "engine") base engine ms q f safe ∙ engine-read engine ms

-- The address has neither `?` nor `#`, the engine's name is of letters, digits, `_`, `-` and `.`, and
-- the nanoseconds of the budget fit an int64. Then a handler reads of the URL the engine, and for the
-- budget its nanoseconds or the limit if that is less; and for no budget its default.
pub build_predict_url-read :
    (base engine : Bytes) (ms limit : ℕ) (body : Reader) (channel : ℕ)
    → All (λ c. (c == b'?') ≡ false) base
    → All (λ c. (c == b'#') ≡ false) base
    → AreSafe engine
    → ms ≤ 9223372036854
    → let query = request_query (build_predict_url base engine (pos ms)) body channel in
      (query.engine ≡ engine)
      × (parse_latency_budget query.latency_budget (pos limit) ≡ ok (budget_for ms limit))
unfolding request_query
build_predict_url-read base engine ms limit body channel q f safe small = (
  request_query-engine base engine ms body channel q f safe,
  ap (λ s. parse_latency_budget s (pos limit))
        (key-read (bytes "latency_budget_ms") base engine ms q f safe ∙ budget-read engine ms)
      ∙ budget_text-read ms limit small,
)
