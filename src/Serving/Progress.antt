-- ===== src/Serving/Progress.antt =====
-- The workers answer every caller that waits, given that `Predict` returns.
use edge_sched.Prelude.{
  ℕ, zero, suc, ◌+◌, ◌<◌, ◌≡◌, refl, ap, ◌∙◌, Bool, inl, inr, List, [], none, some, Option-cases,
  In, ◌⊎◌, length, get_elem?, arith,
}
use native.Mathlib.Decide.{dec_lt}
use edge_sched.Prelude.Int.{ℤ}
use edge_sched.Prelude.Totals.{total, total-set}
use edge_sched.Workerpool.Pool.{Request, Result, running, busy, sending, receive, respond, deliver}
use edge_sched.Workerpool.Invariant.Defs.{passes, holds, is_parked, has_exited}
use edge_sched.Workerpool.Invariant.{Reach-Inv}
use edge_sched.Workerpool.Submit.{Reach-conserves, Reach-crew}
use edge_sched.Workerpool.Drain.{at_least_one}
use edge_sched.Serving.System.{
  waiting, Caller, Service, Step, receives, responds, delivers, Reach, later,
}
use edge_sched.Serving.Counts.{at, admitted, filled}
use edge_sched.Serving.Told.{BufferTold, Reach-pool}
use edge_sched.Serving.Replies.{Reach-Valid, send_ready}
use edge_sched.Serving.Work.{
  work_left, to_do, receive-to_do, resting, IsWork, Works, done, more, Stays, Stays-refl, Stays-set,
}

module _ {Ctx Resp : Type 0} where
  -- The workers have nothing to do.
  abbrev Rests : Service Ctx Resp → Type 0
  Rests s =
      let ws = s.history.pool.workers in
      (total is_parked ws + total has_exited ws ≡ length ws)
      × ((q : Request Ctx Resp → Bool) → total (holds q) ws ≡ 0)

  abbrev Advances : Service Ctx Resp → Type 0
  Advances s =
      (t : Service Ctx Resp) × ((st : Step Ctx Resp s t) × IsWork st)
      × (to_do t.history.pool < to_do s.history.pool)
      × Stays s.callers t.callers

  advance :
      {queue_size concurrency : ℤ} {s : Service Ctx Resp}
      → Reach Ctx Resp queue_size concurrency s
      → Rests s ⊎ Advances s
  unfolding receive respond deliver
  advance {s = s} reach =
      let ws = s.history.pool.workers in
      elim (resting ws) [
        | inl h ↦ inl h
        | inr (inl (i, e)) ↦ inr (
          _,
          (receives i e, tt),
          receive-to_do s.history.pool i s.history.pool.queue refl e,
          Stays-refl s.callers,
        )
        | inr (inr (inl (i, r, e))) ↦
            let res : Result Ctx Resp = record { response = none; err = none } in
            inr (
              _,
              (responds i r res e, tt),
              omega (arith, total-set work_left ws i (busy r) (sending r res) e),
              Stays-refl s.callers,
            )
        | inr (inr (inr (i, r, res, e))) ↦
            let (k, stands, _, empty, _) = send_ready reach i r res e in
            inr (
              _,
              (delivers i r res k e stands empty, tt),
              omega (arith, total-set work_left ws i (sending r res) running e),
              Stays-set s.callers r.result k (some res) stands,
            )
      ]

  Stays-trans : (s t u : List (Caller Ctx Resp)) → Stays s t → Stays t u → Stays s u
  Stays-trans s t u f g c k e =
      let (l, e', a, b) = f c k e in let (m, e'', a', b') = g c l e' in (m, e'', a' ∙ a, b' ∙ b)

  run_on :
      {queue_size concurrency : ℤ} (fuel : ℕ) (s : Service Ctx Resp)
      → Reach Ctx Resp queue_size concurrency s
      → to_do s.history.pool < fuel
      → (t : Service Ctx Resp) × Works s t
        × Reach Ctx Resp queue_size concurrency t
        × Rests t
        × Stays s.callers t.callers
  run_on zero s reach m = absurd (omega arith)
  run_on (suc fuel) s reach m = elim (advance reach) [
    | inl h ↦ (s, done, reach, h, Stays-refl s.callers)
    | inr (t, (st, w), less, stays) ↦
        let (u, ws, r, h, stays') = run_on fuel t (later reach st) (omega arith) in
        (u, more st w ws, r, h, Stays-trans s.callers t.callers u.callers stays stays')
  ]

  -- Where the workers have nothing to do, the queue is empty.
  Rests-queue :
      {queue_size concurrency : ℤ} {s : Service Ctx Resp}
      → Reach Ctx Resp queue_size concurrency s
      → Rests s
      → s.history.pool.queue ≡ []
  Rests-queue {concurrency = concurrency} {s = s} reach (h, _) =
      let v = Reach-Inv (Reach-pool reach) in
      let ws = s.history.pool.workers in
      elim (dec_lt 0 (total is_parked ws)) [
        | yes parked_some ↦ (v.idle parked_some).0
        | no nobody ↦
            (v.gone
              (omega (arith, h, Reach-crew (Reach-pool reach), at_least_one concurrency, nobody))).0
      ]

  held_result :
      (k : Caller Ctx Resp)
      → k.phase ≡ waiting
      → filled (some k) ≡ 1
      → (res : Result Ctx Resp) × (k.buffer ≡ some res)
  held_result k w f = elim (Option-cases k.buffer) [
    | inl empty ↦ absurd (ground (arith, w, f, empty))
    | inr held ↦ held
  ]

  -- In a reachable state a caller waits in the `select`. Then the workers can run on, given that
  -- `Predict` returns, to a state in which its channel holds the answer of `Predict` to its request,
  -- while the caller still waits.
  pub waiting_served :
      {queue_size concurrency : ℤ} {s : Service Ctx Resp}
      → Reach Ctx Resp queue_size concurrency s
      → (c : ℕ) (k : Caller Ctx Resp) → get_elem? s.callers c ≡ some k
      → k.phase ≡ waiting
      → (t : Service Ctx Resp) × Works s t
        × ((l : Caller Ctx Resp) × (get_elem? t.callers c ≡ some l)
            × (l.request ≡ k.request)
            × (l.phase ≡ waiting)
            × ((res : Result Ctx Resp) × (l.buffer ≡ some res) × In (l.request, res) t.predictions))
  waiting_served {s = s} reach c k stands w =
      let (t, ws, r, rests, stays) = run_on (suc (to_do s.history.pool)) s reach (omega arith) in
      let (l, stands', same, phase) = stays c k stands in
      let v = Reach-Valid r in
      let q : Request Ctx Resp → Bool = at c in
      let w' = phase ∙ w in
      let one : filled (some l) ≡ 1 = omega (
        arith,
        (Reach-conserves (Reach-pool r)).1 q,
        ap (total (passes q)) (Rests-queue r rests),
        rests.1 q,
        v.counted.accepted_count c ∙ ap admitted stands',
        v.counted.delivered_count c ∙ ap filled stands',
        waiting-admitted l w',
      ) in
      let (res, held) = held_result l w' one in
      let told : BufferTold t.predictions l.request (some res) =
        rw held at (v.told c l stands').0 in
      (t, ws, (l, stands', same, w', (res, held, told)))
    where
      waiting-admitted : (x : Caller Ctx Resp) → x.phase ≡ waiting → admitted (some x) ≡ 1
      waiting-admitted x e = ground (arith, e)
