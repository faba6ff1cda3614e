-- ===== src/Loadgen/Once.antt =====
-- scheduler/cmd/loadgen/main.go: what the goroutines of `main` have sent when it sums up.
use edge_sched.Prelude.{
  ℕ, ◌+◌, ◌≡◌, refl, sym, ap, subst, ◌∙◌, if◌then◌else◌, Bool, true, true_not_false, All-get_elem?,
  inl, inr, ◌⊎◌, List, [], ◌∷◌, some, Result, length, length-set, get_elem?, All, count_if, arith,
}
use edge_sched.Prelude.Int.{ℤ, pos, ltz}
use edge_sched.Prelude.Bytes.{Bytes}
use edge_sched.Prelude.Floats.{Floats}
use edge_sched.Prelude.Totals.{total, total-set}
use edge_sched.Loadgen.Send.{PredictReply, Sent, send_one}
use edge_sched.Loadgen.Fed.{
  Fed, SoFar, SoFar-hands_out, SoFar-cycles, SoFar-closes, SoFar-begin, SoFar-closed,
}
use edge_sched.Loadgen.Feed.{
  one_pass, sustained, paths_closed, Worker, asking, fetching, offering, returned, workers_of, Run,
  Step, hands_out, cycles, passes, expires, sends, collects, returns, ends, Reach, begun, later,
}
use edge_sched.Loadgen.Held.{
  send_one-path, held, gone, All-returned, gone-replicate, held-replicate, length-workers_of,
  handed_count, count_if-append,
}

pub record Inv {fl : Floats} (paths : List Bytes) (b : Bool) (s : Run fl) : Type 0 where
  pub so_far : SoFar paths b s.producer s.handed
  pub counted :
      (f : Bytes → Bool)
      → count_if f s.handed
        ≡ count_if (λ (r : Sent fl). f r.path) s.results + total (held f) s.workers
  pub early : (s.producer ≡ paths_closed) ⊎ (total gone s.workers ≡ 0)
  pub ended : s.over ≡ true → All (λ w. w ≡ returned) s.workers

-- No worker is at work once the results have ended.
not_over :
    {fl : Floats} {paths : List Bytes} {b : Bool} {s : Run fl}
    → Inv paths b s
    → (i : ℕ) (w : Worker fl) → get_elem? s.workers i ≡ some w
    → gone w ≡ 0
    → s.over ≡ true
    → ⊥
not_over {s = s} v i w at busy o =
    let e = All-get_elem? (λ w. w ≡ returned) s.workers i w (v.ended o) at in
    absurd (omega (arith, ap gone e, busy))

module _ {fl : Floats} {zero_f : fl.F} {decode : Bytes → Result Bytes (PredictReply fl)}
    {paths : List Bytes} where
  Step-Inv :
      {b : Bool} {s t : Run fl} → Step fl zero_f decode paths s t → Inv paths b s → Inv paths b t
  Step-Inv {b = b} {s = s} (hands_out p rest i e at) v = record {
    so_far =
        SoFar-hands_out paths b p rest s.handed (subst (λ q. SoFar paths b q s.handed) e v.so_far);
    counted = λ f. omega (
      arith,
      handed_count f s.handed p,
      v.counted f,
      total-set (held f) s.workers i asking (fetching p) at,
    );
    early = elim v.early [
      | inl c ↦ absurd (one_pass_open (sym e ∙ c))
      | inr n ↦ inr (omega (arith, n, total-set gone s.workers i asking (fetching p) at))
    ];
    ended = λ o. absurd (not_over v i asking at refl o);
  }
    where
      one_pass_open : one_pass (p ∷ rest) ≡ paths_closed → ⊥
      one_pass_open c = cc
  Step-Inv {b = b} {s = s} (cycles p idx i e here at) v = record {
    so_far =
        SoFar-cycles paths b p idx s.handed here (subst (λ q. SoFar paths b q s.handed) e v.so_far);
    counted = λ f. omega (
      arith,
      handed_count f s.handed p,
      v.counted f,
      total-set (held f) s.workers i asking (fetching p) at,
    );
    early = elim v.early [
      | inl c ↦ absurd (sustained_open (sym e ∙ c))
      | inr n ↦ inr (omega (arith, n, total-set gone s.workers i asking (fetching p) at))
    ];
    ended = λ o. absurd (not_over v i asking at refl o);
  }
    where
      sustained_open : sustained idx ≡ paths_closed → ⊥
      sustained_open c = cc
  Step-Inv {b = b} {s = s} (passes e) v = record {
    so_far = SoFar-closes paths b s.producer s.handed (inl e) v.so_far;
    counted = v.counted;
    early = inl refl;
    ended = v.ended;
  }
  Step-Inv {b = b} {s = s} (expires idx e) v = record {
    so_far = SoFar-closes paths b s.producer s.handed (inr (idx, e)) v.so_far;
    counted = v.counted;
    early = inl refl;
    ended = v.ended;
  }
  Step-Inv {s = s} (sends p i file_read posted wall_ms at fetches) v =
      let r = send_one fl zero_f decode p file_read posted wall_ms at in
      let named = send_one-path fl zero_f decode p file_read posted wall_ms at in
      record {
        so_far = v.so_far;
        counted = λ f. omega (
          arith,
          v.counted f,
          total-set (held f) s.workers i (fetching p) (offering r) fetches,
          ap {B = ℕ} (λ q. if f q then 1 else 0) named,
        );
        early = elim v.early [
          | inl c ↦ inl c
          | inr n ↦
              inr (omega (arith, n, total-set gone s.workers i (fetching p) (offering r) fetches))
        ];
        ended = λ o. absurd (not_over v i (fetching p) fetches refl o);
      }
  Step-Inv {s = s} (collects r i at unfinished) v = record {
    so_far = v.so_far;
    counted = λ f. omega (
      arith,
      v.counted f,
      count_if-append (λ (r : Sent fl). f r.path) s.results (r ∷ []),
      total-set (held f) s.workers i (offering r) asking at,
    );
    early = elim v.early [
      | inl c ↦ inl c
      | inr n ↦ inr (omega (arith, n, total-set gone s.workers i (offering r) asking at))
    ];
    ended = λ o. absurd (not_over v i (offering r) at refl o);
  }
  Step-Inv {s = s} (returns i e at) v = record {
    so_far = v.so_far;
    counted = λ f. omega (arith, v.counted f, total-set (held f) s.workers i asking returned at);
    early = inl e;
    ended = λ o. absurd (not_over v i asking at refl o);
  }
  Step-Inv (ends all unfinished) v = record {
    so_far = v.so_far;
    counted = v.counted;
    early = v.early;
    ended = λ o. all;
  }

  pub Reach-Inv :
      {duration concurrency : ℤ} {n : ℕ} {s : Run fl}
      → Reach fl zero_f decode paths duration concurrency n s
      → Inv paths (ltz (pos 0) duration) s
  Reach-Inv {duration = duration} {concurrency = concurrency} begun = record {
    so_far = SoFar-begin paths duration;
    counted = λ f. omega (arith, held-replicate fl concurrency f);
    early = inr (gone-replicate fl concurrency);
    ended = λ o. absurd (true_not_false o refl);
  }
  Reach-Inv (later reach st) = Step-Inv st (Reach-Inv reach)

  Step-length :
      {s t : Run fl} → Step fl zero_f decode paths s t → length t.workers ≡ length s.workers
  Step-length {s = s} (hands_out p rest i e at) = length-set s.workers i (fetching p)
  Step-length {s = s} (cycles p idx i e here at) = length-set s.workers i (fetching p)
  Step-length (passes e) = refl
  Step-length (expires idx e) = refl
  Step-length {s = s} (sends p i file_read posted wall_ms at fetches) =
      length-set s.workers i (offering (send_one fl zero_f decode p file_read posted wall_ms at))
  Step-length {s = s} (collects r i at unfinished) = length-set s.workers i asking
  Step-length {s = s} (returns i e at) = length-set s.workers i returned
  Step-length (ends all unfinished) = refl

  Reach-length :
      {duration concurrency : ℤ} {n : ℕ} {s : Run fl}
      → Reach fl zero_f decode paths duration concurrency n s
      → length s.workers ≡ length (workers_of fl concurrency)
  Reach-length begun = refl
  Reach-length (later r st) = Step-length st ∙ Reach-length r

  -- There is at least one worker, and `main` has seen the end of the results. Then the goroutine has
  -- handed out the paths: each once and in order, or round by round in the sustained mode; and for
  -- any test on paths, as many results as paths handed out have a path that passes it.
  pub results-handed :
      (duration concurrency : ℤ) {n : ℕ} {s : Run fl}
      → Reach fl zero_f decode paths duration concurrency n s
      → ltz (pos 0) concurrency ≡ true
      → s.over ≡ true
      → Fed paths (ltz (pos 0) duration) s.handed
        × ((f : Bytes → Bool)
            → count_if (λ (r : Sent fl). f r.path) s.results ≡ count_if f s.handed)
  results-handed duration concurrency {s = s} reach some_workers o =
      let v = Reach-Inv reach in
      let (n, k) = All-returned s.workers (v.ended o) in
      let crew = length-workers_of fl concurrency some_workers in
      (
        elim v.early [
          | inl c ↦
              SoFar-closed paths (ltz (pos 0) duration) s.handed
                (subst (λ q. SoFar paths (ltz (pos 0) duration) q s.handed) c v.so_far)
          | inr m ↦ absurd (omega (arith, n, m, Reach-length reach, crew))
        ],
        λ f. omega (arith, v.counted f, k f),
      )
