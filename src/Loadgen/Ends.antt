-- ===== src/Loadgen/Ends.antt =====
-- scheduler/cmd/loadgen/main.go: the one pass of `main` ends.
use edge_sched.Prelude.{
  ℕ, zero, suc, ◌+◌, ◌*◌, ◌≤◌, ◌≡◌, refl, sym, ap, subst, ◌∙◌, Bool-cases, true, false, inl, inr,
  ◌⊎◌, List, [], ◌∷◌, if◌then◌else◌, some, Result, length, replicate, length-replicate, get_elem?,
  All, arith,
}
use edge_sched.Prelude.Int.{ℤ, pos, negsuc, ltz}
use edge_sched.Prelude.Bytes.{Bytes}
use edge_sched.Prelude.Floats.{Floats}
use edge_sched.Prelude.Totals.{total, total-set}
use edge_sched.Loadgen.Send.{unreadable, no_reply, PredictReply, Sent, send_one}
use edge_sched.Loadgen.Fed.{SoFar}
use edge_sched.Loadgen.Feed.{
  Producer, one_pass, sustained, paths_closed, Worker, asking, fetching, offering, returned,
  workers_of, Run, Step, hands_out, cycles, passes, expires, sends, collects, returns, ends, Reach,
  begun, later,
}
use edge_sched.Loadgen.Once.{Inv, Reach-Inv}

-- The steps that are left of a producer, a worker, a run.
abbrev to_hand_out : Producer → ℕ
to_hand_out (one_pass rest) = 1 + 3 * length rest
to_hand_out (sustained idx) = 0
to_hand_out paths_closed = 0

abbrev load : {fl : Floats} → Worker fl → ℕ
load asking = 1
load (fetching p) = 3
load (offering r) = 2
load returned = 0

abbrev steps_left : {fl : Floats} → Run fl → ℕ
steps_left s = to_hand_out s.producer + total load s.workers + (if s.over then 0 else 1)

load-replicate : (fl : Floats) (n : ℕ) → total (load {fl = fl}) (replicate n asking) ≡ n
load-replicate fl zero = refl
load-replicate fl (suc n) = omega (arith, load-replicate fl n)

load-workers_of :
    (fl : Floats) (concurrency : ℤ)
    → total (load {fl = fl}) (workers_of fl concurrency) ≡ length (workers_of fl concurrency)
load-workers_of fl (pos n) = load-replicate fl n ∙ sym (length-replicate n asking)
load-workers_of fl (negsuc n) = refl

-- All workers ask or have returned, or one of them has a path or a result.
at_work :
    {fl : Floats} (ws : List (Worker fl))
    → All (λ w. w ≡ returned) ws
      ⊎ ((i : ℕ) × (get_elem? ws i ≡ some asking))
      ⊎ ((i : ℕ) × (p : Bytes) × (get_elem? ws i ≡ some (fetching p)))
      ⊎ ((i : ℕ) × (r : Sent fl) × (get_elem? ws i ≡ some (offering r)))
at_work [] = inl tt
at_work (asking ∷ ws) = inr (inl (0, refl))
at_work (fetching p ∷ ws) = inr (inr (inl (0, p, refl)))
at_work (offering r ∷ ws) = inr (inr (inr (0, r, refl)))
at_work (returned ∷ ws) = elim (at_work ws) [
  | inl h ↦ inl (refl, h)
  | inr (inl (i, e)) ↦ inr (inl (suc i, e))
  | inr (inr (inl (i, p, e))) ↦ inr (inr (inl (suc i, p, e)))
  | inr (inr (inr (i, r, e))) ↦ inr (inr (inr (suc i, r, e)))
]

module _ {fl : Floats} {zero_f : fl.F} {decode : Bytes → Result Bytes (PredictReply fl)}
    {paths : List Bytes} where
  -- Every step of the one pass uses up one.
  Step-uses_up :
      {s t : Run fl}
      → Inv paths false s
      → Step fl zero_f decode paths s t
      → suc (steps_left t) ≡ steps_left s
  Step-uses_up {s = s} v (hands_out p rest i e at) =
      omega (arith, ap to_hand_out e, total-set load s.workers i asking (fetching p) at)
  Step-uses_up {s = s} v (cycles p idx i e here at) =
      absurd (subst (λ q. SoFar paths false q s.handed) e v.so_far)
  Step-uses_up v (passes e) = omega (arith, ap to_hand_out e)
  Step-uses_up {s = s} v (expires idx e) =
      absurd (subst (λ q. SoFar paths false q s.handed) e v.so_far)
  Step-uses_up {s = s} v (sends p i file_read posted wall_ms at fetches) =
      let r = send_one fl zero_f decode p file_read posted wall_ms at in
      omega (arith, total-set load s.workers i (fetching p) (offering r) fetches)
  Step-uses_up {s = s} v (collects r i at unfinished) =
      omega (arith, total-set load s.workers i (offering r) asking at)
  Step-uses_up {s = s} v (returns i e at) =
      omega (arith, total-set load s.workers i asking returned at)
  Step-uses_up v (ends all unfinished) = ground (arith, unfinished)

  asking-Step :
      (s : Run fl) (i : ℕ) (q : Producer)
      → s.producer ≡ q
      → get_elem? s.workers i ≡ some asking
      → SoFar paths false q s.handed
      → (t : Run fl) × Step fl zero_f decode paths s t
  asking-Step s i (one_pass []) e at h = (_, passes e)
  asking-Step s i (one_pass (p ∷ rest)) e at h = (_, hands_out p rest i e at)
  asking-Step s i (sustained idx) e at h = absurd h
  asking-Step s i paths_closed e at h = (_, returns i e at)

  -- A run that is not over goes on.
  goes_on :
      {s : Run fl}
      → Inv paths false s
      → s.over ≡ false
      → (t : Run fl) × Step fl zero_f decode paths s t
  goes_on {s = s} v unfinished = elim (at_work s.workers) [
    | inl h ↦ (_, ends h unfinished)
    | inr (inl (i, e)) ↦ asking-Step s i s.producer refl e v.so_far
    | inr (inr (inl (i, p, e))) ↦ (_, sends p i (unreadable []) (no_reply []) zero_f (pos 0) e)
    | inr (inr (inr (i, r, e))) ↦ (_, collects r i e unfinished)
  ]

  Reach-uses_up :
      {duration concurrency : ℤ} {n : ℕ} {s : Run fl}
      → Reach fl zero_f decode paths duration concurrency n s
      → ltz (pos 0) duration ≡ false
      → n + steps_left s ≡ 3 * length paths + length (workers_of fl concurrency) + 2
  Reach-uses_up {concurrency = concurrency} begun once =
      rw once (omega (arith, load-workers_of fl concurrency))
  Reach-uses_up (later r st) once =
      omega (arith, Reach-uses_up r once, Step-uses_up (rw once at (Reach-Inv r)) st)

  -- Without a duration, a run has taken at most three steps for each path, one for each worker and
  -- two more; and it is over, or some step can be taken.
  pub one_pass-ends :
      (duration concurrency : ℤ) {n : ℕ} {s : Run fl}
      → Reach fl zero_f decode paths duration concurrency n s
      → ltz (pos 0) duration ≡ false
      → n ≤ 3 * length paths + length (workers_of fl concurrency) + 2
        × ((s.over ≡ true) ⊎ ((t : Run fl) × Step fl zero_f decode paths s t))
  one_pass-ends duration concurrency {s = s} reach once = (
    omega (arith, Reach-uses_up reach once),
    elim (Bool-cases s.over) [
      | inl o ↦ inl o
      | inr unfinished ↦ inr (goes_on (rw once at (Reach-Inv reach)) unfinished)
    ],
  )
