-- ===== src/Loadgen/Codes.antt =====
-- scheduler/cmd/loadgen/main.go: the failures by code, as `main` counts them and as the summary has
-- them.
use edge_sched.Prelude.{
  ℕ, ◌+◌, ◌≤◌, ◌≡◌, refl, ◌∙◌, ◌==◌, ==_iff, max, if◌then◌else◌, Bool, false, Bool-cases, inl, inr,
  List, [], ◌∷◌, count_if, arith,
}
use edge_sched.Prelude.Bytes.{Bytes, str_eq, str_eq_iff, str_eq_refl}
use edge_sched.Prelude.Decimal.{itoa_nat, itoa_nat-injective}
use edge_sched.Prelude.Maps.{GoMap, lookup, put, lookup-put, get_or}
use edge_sched.Prelude.Floats.{Floats}
use edge_sched.Loadgen.Send.{Sent}
use edge_sched.Loadgen.Tally.{bump_code, Tally, no_results, is_failed, add_result, tally}
use edge_sched.Loadgen.Summary.{text_counts}

-- The count of a code, and how many entries it has.
abbrev pub count_at : ℕ → List (ℕ × ℕ) → ℕ
count_at code [] = 0
count_at code ((k, n) ∷ m) = (if k == code then n else 0) + count_at code m

abbrev pub entries_of : ℕ → List (ℕ × ℕ) → ℕ
entries_of code [] = 0
entries_of code ((k, n) ∷ m) = (if k == code then 1 else 0) + entries_of code m

count_at-bump_code :
    (k code : ℕ) (m : List (ℕ × ℕ))
    → count_at code (bump_code k m) ≡ (if k == code then 1 else 0) + count_at code m
unfolding bump_code
count_at-bump_code k code [] = ground arith
count_at-bump_code k code ((i, n) ∷ m) = ground (arith, count_at-bump_code k code m)

entries_of-bump_code :
    (k code : ℕ) (m : List (ℕ × ℕ))
    → entries_of code (bump_code k m)
      ≡ (if k == code then max 1 (entries_of code m) else entries_of code m)
unfolding bump_code
entries_of-bump_code k code [] = ground arith
entries_of-bump_code k code ((i, n) ∷ m) = ground (arith, entries_of-bump_code k code m)

no_entry : (code : ℕ) (m : List (ℕ × ℕ)) → entries_of code m ≡ 0 → count_at code m ≡ 0
no_entry code [] h = refl
no_entry code ((k, n) ∷ m) h = ground (arith, no_entry code m, h)

itoa_nat-str_eq : (k code : ℕ) → str_eq (itoa_nat k) (itoa_nat code) ≡ (k == code)
itoa_nat-str_eq k code = elim (Bool-cases (k == code)) [
  | inl same ↦ rw (same, (==_iff k code).0 same) (str_eq_refl (itoa_nat code))
  | inr other ↦ ground (
    arith,
    other,
    Bool-cases (str_eq (itoa_nat k) (itoa_nat code)),
    (str_eq_iff (itoa_nat k) (itoa_nat code)).0,
    itoa_nat-injective k code,
  )
]

get_or-put :
    (k code n : ℕ) (m : GoMap ℕ)
    → get_or (lookup (itoa_nat code) (put (itoa_nat k) n m)) 0
      ≡ (if k == code then n else get_or (lookup (itoa_nat code) m) 0)
get_or-put k code n m = elim (Bool-cases (k == code)) [
  | inl same ↦ rw (lookup-put (itoa_nat k) (itoa_nat code) n m, itoa_nat-str_eq k code, same) refl
  | inr other ↦ rw (lookup-put (itoa_nat k) (itoa_nat code) n m, itoa_nat-str_eq k code, other) refl
]

empty_lookup : (k : Bytes) → get_or {A = ℕ} (lookup k []) 0 ≡ 0
unfolding lookup
empty_lookup k = refl

-- The entry of a code as text, if the code has at most one.
lookup-text_counts :
    (code : ℕ) (codes : List (ℕ × ℕ)) (m : GoMap ℕ)
    → entries_of code codes ≤ 1
    → get_or (lookup (itoa_nat code) (text_counts codes m)) 0 ≡ (
        if entries_of code codes == 0
        then get_or (lookup (itoa_nat code) m) 0
        else count_at code codes)
unfolding text_counts
lookup-text_counts code [] m h = refl
lookup-text_counts code ((k, n) ∷ codes) m h =
    let rest = lookup-text_counts code codes (put (itoa_nat k) n m) (ground (arith, h)) in
    rest ∙ ground (arith, get_or-put k code n m, no_entry code codes, h)

module _ (fl : Floats) where
  -- A failed result with a code.
  abbrev pub failed_with : ℕ → Sent fl → Bool
  failed_with code r = if is_failed fl r then r.status_code == code else false

  code_of :
      (code : ℕ) (t : Tally fl) (r : Sent fl)
      → (entries_of code t.status_counts ≤ 1
          → entries_of code (add_result fl t r).status_counts ≤ 1)
        × (count_at code (add_result fl t r).status_counts
            ≡ (if failed_with code r then 1 else 0) + count_at code t.status_counts)
  unfolding add_result
  code_of code t r = elim (Bool-cases (is_failed fl r)) [
    | inl bad ↦ rw bad (
      (λ h. ground (arith, entries_of-bump_code r.status_code code t.status_counts, h)),
      count_at-bump_code r.status_code code t.status_counts,
    )
    | inr good ↦ rw good ((λ h. h), omega arith)
  ]

  tally-codes :
      (code : ℕ) (t : Tally fl) (rs : List (Sent fl))
      → entries_of code t.status_counts ≤ 1
      → (entries_of code (tally fl t rs).status_counts ≤ 1)
        × (count_at code (tally fl t rs).status_counts
            ≡ count_if (failed_with code) rs + count_at code t.status_counts)
  unfolding tally
  tally-codes code t [] h = (h, omega arith)
  tally-codes code t (r ∷ rs) h =
      let (f, e) = code_of code t r in
      let (k, e') = tally-codes code (add_result fl t r) rs (f h) in (k, omega (arith, e, e'))

  -- The summary's count of a code is that of the failed results with the code.
  pub text_counts-tally :
      (code : ℕ) (rs : List (Sent fl))
      → get_or
          (lookup (itoa_nat code) (text_counts (tally fl (no_results fl) rs).status_counts []))
          0
        ≡ count_if (failed_with code) rs
  text_counts-tally code rs =
      let (h, e) = tally-codes code (no_results fl) rs (omega arith) in
      lookup-text_counts code (tally fl (no_results fl) rs).status_counts [] h
      ∙ ground (
        arith,
        e,
        no_entry code (tally fl (no_results fl) rs).status_counts,
        empty_lookup (itoa_nat code),
      )
