-- ===== src/Loadgen/Tally.antt =====
-- scheduler/cmd/loadgen/main.go: the loop of `main` that counts the results.
use edge_sched.Prelude.{
  ℕ, suc, ◌+◌, ◌≡◌, refl, ◌==◌, if◌then◌else◌, Bool, true, false, none, some, Bool-cases, List, [],
  ◌∷◌, ◌++◌, inl, inr, length, length-append, count_if, arith,
}
use edge_sched.Prelude.Bytes.{Bytes, str_eq, str_eq_iff}
use edge_sched.Prelude.Maps.{GoMap, lookup, get_or}
use edge_sched.Prelude.Floats.{Floats}
use edge_sched.Loadgen.Send.{Sent}

-- `m[k]++` on a map with string keys, and on one with int keys; the codes of replies are not
-- negative.
unfoldable pub bump : Bytes → GoMap ℕ → GoMap ℕ
bump k [] = (k, 1) ∷ []
bump k ((j, n) ∷ m) = if str_eq j k then (j, n + 1) ∷ m else (j, n) ∷ bump k m

unfoldable pub bump_code : ℕ → List (ℕ × ℕ) → List (ℕ × ℕ)
bump_code k [] = (k, 1) ∷ []
bump_code k ((j, n) ∷ m) = if j == k then (j, n + 1) ∷ m else (j, n) ∷ bump_code k m

-- The sum of the counts.
abbrev pub sum_of {ℓ} : {K : Type ℓ} → List (K × ℕ) → ℕ
sum_of [] = 0
sum_of ((k, n) ∷ m) = n + sum_of m

sum_of-bump : (k : Bytes) (m : GoMap ℕ) → sum_of (bump k m) ≡ suc (sum_of m)
unfolding bump
sum_of-bump k [] = refl
sum_of-bump k ((j, n) ∷ m) = elim (Bool-cases (str_eq j k)) [
  | inl same ↦ rw same (omega arith)
  | inr other ↦ rw other (omega (arith, sum_of-bump k m))
]

sum_of-bump_code : (k : ℕ) (m : List (ℕ × ℕ)) → sum_of (bump_code k m) ≡ suc (sum_of m)
unfolding bump_code
sum_of-bump_code k [] = refl
sum_of-bump_code k ((j, n) ∷ m) = elim (Bool-cases (j == k)) [
  | inl same ↦ rw same (omega arith)
  | inr other ↦ rw other (omega (arith, sum_of-bump_code k m))
]

lookup-bump :
    (k j : Bytes) (m : GoMap ℕ)
    → get_or (lookup j (bump k m)) 0 ≡ (if str_eq k j then 1 else 0) + get_or (lookup j m) 0
unfolding bump lookup
lookup-bump k j [] = ground (arith, str_eq_iff k j)
lookup-bump k j ((i, n) ∷ m) =
    ground (arith, str_eq_iff k j, str_eq_iff i k, str_eq_iff i j, lookup-bump k j m)

module _ (fl : Floats) where
  -- `r.Err != nil`
  abbrev pub is_failed : Sent fl → Bool
  is_failed r = elim r.error [ none ↦ false | some e ↦ true ]

  pub record Tally : Type 0 where
    pub wall_times : List fl.F
    pub success_count : ℕ
    pub fail_count : ℕ
    pub engine_counts : GoMap ℕ
    pub status_counts : List (ℕ × ℕ)

  abbrev pub no_results : Tally
  no_results = record {
    wall_times = [];
    success_count = 0;
    fail_count = 0;
    engine_counts = [];
    status_counts = [];
  }

  -- One round.
  unfoldable pub add_result : Tally → Sent fl → Tally
  unfolding bump bump_code
  add_result t r =
      if is_failed r
      then record t {
        fail_count = t.fail_count + 1;
        status_counts = bump_code r.status_code t.status_counts;
      }
      else record t {
        success_count = t.success_count + 1;
        wall_times = t.wall_times ++ r.wall_ms ∷ [];
        engine_counts = bump r.resp.engine t.engine_counts;
      }

  unfoldable pub tally : Tally → List (Sent fl) → Tally
  unfolding add_result
  tally t [] = t
  tally t (r ∷ rs) = tally (add_result t r) rs

  -- A successful result of an engine.
  abbrev pub succeeded_on : Bytes → Sent fl → Bool
  succeeded_on name r = if is_failed r then false else str_eq r.resp.engine name

  pub record IsBalanced (t : Tally) : Type 0 where
    pub times_balance : length t.wall_times ≡ t.success_count
    pub engines_balance : sum_of t.engine_counts ≡ t.success_count
    pub codes_balance : sum_of t.status_counts ≡ t.fail_count

  add_result-IsBalanced : (t : Tally) (r : Sent fl) → IsBalanced t → IsBalanced (add_result t r)
  unfolding add_result
  add_result-IsBalanced t r v = elim (Bool-cases (is_failed r)) [
    | inl bad ↦ rw bad (record {
      times_balance = v.times_balance;
      engines_balance = v.engines_balance;
      codes_balance =
          omega (arith, sum_of-bump_code r.status_code t.status_counts, v.codes_balance);
    })
    | inr good ↦ rw good (record {
      times_balance = omega (arith, length-append t.wall_times (r.wall_ms ∷ []), v.times_balance);
      engines_balance = omega (arith, sum_of-bump r.resp.engine t.engine_counts, v.engines_balance);
      codes_balance = v.codes_balance;
    })
  ]

  tally-IsBalanced : (t : Tally) (rs : List (Sent fl)) → IsBalanced t → IsBalanced (tally t rs)
  unfolding tally
  tally-IsBalanced t [] v = v
  tally-IsBalanced t (r ∷ rs) v = tally-IsBalanced (add_result t r) rs (add_result-IsBalanced t r v)

  add_result-total :
      (t : Tally) (r : Sent fl)
      → (add_result t r).success_count + (add_result t r).fail_count
        ≡ suc (t.success_count + t.fail_count)
  unfolding add_result
  add_result-total t r = elim (Bool-cases (is_failed r)) [
    | inl bad ↦ rw bad (omega arith)
    | inr good ↦ rw good (omega arith)
  ]

  tally-total :
      (t : Tally) (rs : List (Sent fl))
      → (tally t rs).success_count + (tally t rs).fail_count
        ≡ t.success_count + t.fail_count + length rs
  unfolding tally
  tally-total t [] = omega arith
  tally-total t (r ∷ rs) = omega (arith, tally-total (add_result t r) rs, add_result-total t r)

  count_of :
      (t : Tally) (r : Sent fl) (name : Bytes)
      → get_or (lookup name (add_result t r).engine_counts) 0
        ≡ (if succeeded_on name r then 1 else 0) + get_or (lookup name t.engine_counts) 0
  unfolding add_result
  count_of t r name = elim (Bool-cases (is_failed r)) [
    | inl bad ↦ rw bad (omega arith)
    | inr good ↦ rw good (lookup-bump r.resp.engine name t.engine_counts)
  ]

  tally-count :
      (t : Tally) (rs : List (Sent fl)) (name : Bytes)
      → get_or (lookup name (tally t rs).engine_counts) 0
        ≡ count_if (succeeded_on name) rs + get_or (lookup name t.engine_counts) 0
  unfolding tally
  tally-count t [] name = omega arith
  tally-count t (r ∷ rs) name =
      omega (arith, tally-count (add_result t r) rs name, count_of t r name)

  -- Of any results, the successes and the failures add up to all; the counts by engine and the
  -- times are as many as the successes, and the counts by code as the failures; and the count of an
  -- engine is the number of the successful results that it answered.
  pub tally-counts :
      (rs : List (Sent fl)) (name : Bytes)
      → let t = tally no_results rs in
        (t.success_count + t.fail_count ≡ length rs)
        × (length t.wall_times ≡ t.success_count)
        × (sum_of t.engine_counts ≡ t.success_count)
        × (sum_of t.status_counts ≡ t.fail_count)
        × (get_or (lookup name t.engine_counts) 0 ≡ count_if (succeeded_on name) rs)
  tally-counts rs name =
      let v =
        tally-IsBalanced no_results rs
          (record { times_balance = refl; engines_balance = refl; codes_balance = refl }) in
      (
        omega (arith, tally-total no_results rs),
        v.times_balance,
        v.engines_balance,
        v.codes_balance,
        unfold lookup in omega (arith, tally-count no_results rs name),
      )
