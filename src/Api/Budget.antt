-- ===== src/Api/Budget.antt =====
-- scheduler/internal/api/handlers.go: `parseLatencyBudget`. Durations are nanoseconds, and the
-- product with a millisecond wraps around at 64 bits.
use edge_sched.Prelude.{
  ℕ, zero, suc, ◌*◌, ◌≤◌, ◌<◌, ◌≡◌, ◌≢◌, refl, min, if◌then◌else◌, false, Bool-cases, inl, inr, [],
  ◌∷◌, Option, none, some, Result, ok, err, ok-injective, arith,
}
use edge_sched.Prelude.Int.{ℤ, pos, negsuc, ltz, int64, ltz_irrefl}
use edge_sched.Prelude.Bytes.{Bytes}
use edge_sched.Prelude.Decimal.{atoi, itoa_nat, itoa_nat-ne-nil, atoi-itoa_nat}

abbrev pub default_latency_budget : ℤ
default_latency_budget = pos 10000000000

-- `time.Duration(ms) * time.Millisecond`, for `ms > 0`.
unfoldable pub milliseconds : ℕ → ℤ
milliseconds ms = int64 (ms * 1000000)

-- `none` is an error of `Atoi`. The error of the result carries the text that it quotes.
unfoldable pub budget_of : Bytes → ℤ → Option ℤ → Result Bytes ℤ
unfolding milliseconds
budget_of raw max_budget none = err raw
budget_of raw max_budget (some (negsuc n)) = err raw
budget_of raw max_budget (some (pos zero)) = err raw
budget_of raw max_budget (some (pos (suc n))) =
    let budget = milliseconds (suc n) in ok (if ltz max_budget budget then max_budget else budget)

unfoldable pub parse_latency_budget : Bytes → ℤ → Result Bytes ℤ
unfolding budget_of atoi
parse_latency_budget [] max_budget = ok default_latency_budget
parse_latency_budget (c ∷ raw) max_budget = budget_of (c ∷ raw) max_budget (atoi (c ∷ raw))

-- The text of a parameter that is present.
parse_latency_budget-present :
    (raw : Bytes) (max_budget : ℤ)
    → raw ≢ []
    → parse_latency_budget raw max_budget ≡ budget_of raw max_budget (atoi raw)
unfolding parse_latency_budget
parse_latency_budget-present [] max_budget h = absurd (h refl)
parse_latency_budget-present (c ∷ raw) max_budget h = refl

budget_of-small :
    (raw : Bytes) (ms limit : ℕ)
    → 0 < ms
    → ms ≤ 9223372036854
    → budget_of raw (pos limit) (some (pos ms)) ≡ ok (pos (min (ms * 1000000) limit))
unfolding budget_of milliseconds
budget_of-small raw zero limit h k = absurd (omega arith)
budget_of-small raw (suc n) limit h k = ground arith

-- A positive decimal number of milliseconds whose nanoseconds fit an int64 is read as these
-- nanoseconds, or the limit if that is less.
pub parse_latency_budget-itoa_nat :
    (ms limit : ℕ)
    → 0 < ms
    → ms ≤ 9223372036854
    → parse_latency_budget (itoa_nat ms) (pos limit) ≡ ok (pos (min (ms * 1000000) limit))
parse_latency_budget-itoa_nat ms limit h k =
    rw
      (
        parse_latency_budget-present (itoa_nat ms) (pos limit) (itoa_nat-ne-nil ms),
        atoi-itoa_nat ms (omega arith),
      )
      (budget_of-small (itoa_nat ms) ms limit h k)

budget_of-bounded :
    (raw : Bytes) (max_budget b : ℤ) (o : Option ℤ)
    → budget_of raw max_budget o ≡ ok b
    → ltz max_budget b ≡ false
unfolding budget_of
budget_of-bounded raw max_budget b none h = absurd (cc)
budget_of-bounded raw max_budget b (some (negsuc n)) h = absurd (cc)
budget_of-bounded raw max_budget b (some (pos zero)) h = absurd (cc)
budget_of-bounded raw max_budget b (some (pos (suc n))) h =
    let budget = milliseconds (suc n) in
    elim (Bool-cases (ltz max_budget budget)) [
      | inl above ↦
          let e : max_budget ≡ b = ok-injective (rw above at h) in rw (← e) (ltz_irrefl max_budget)
      | inr within ↦ let e : budget ≡ b = ok-injective (rw within at h) in rw (← e) within
    ]

-- A budget that the request gives is never read as more than the limit.
parse_latency_budget-bounded :
    (raw : Bytes) (max_budget b : ℤ)
    → raw ≢ []
    → parse_latency_budget raw max_budget ≡ ok b
    → ltz max_budget b ≡ false
parse_latency_budget-bounded raw max_budget b h e =
    budget_of-bounded raw max_budget b (atoi raw)
      (rw (parse_latency_budget-present raw max_budget h) at e)
