-- ===== src/Workerpool/Drain.antt =====
-- `Close`: it stops the intake and waits. Every worker step brings the end nearer, there is always
-- one to make, and in the end everything that was accepted has been delivered.
use edge_sched.Prelude.{
  ℕ, zero, suc, ◌+◌, ◌*◌, ◌<◌, ◌≡◌, refl, sym, ap, ◌∙◌, true_not_false, Bool, true, ◌⊎◌, inl, inr,
  List, [], ◌∷◌, none, some, length, get_elem?, arith,
}
use edge_sched.Prelude.Int.{ℤ, pos, negsuc}
use edge_sched.Prelude.Totals.{total, total-set}
use edge_sched.Workerpool.Pool.{
  Request, Result, Worker, running, parked, busy, sending, exited, Pool, receive_from, receive,
  respond, deliver, drained,
}
use edge_sched.Workerpool.Trace.{History, Work, receives, responds, delivers, works, Reach, later}
use edge_sched.Workerpool.Invariant.Defs.{is_parked, has_exited, holds, passes, Inv}
use edge_sched.Workerpool.Invariant.{Reach-Inv}
use edge_sched.Workerpool.Submit.{Reach-conserves, at_least, Reach-crew}

pub at_least_one : (n : ℤ) → 0 < at_least 1 n
at_least_one (pos n) = ground arith
at_least_one (negsuc n) = omega arith

module _ {Ctx Resp : Type 0} where
  -- The steps that a worker still has to make before it receives again or returns.
  abbrev pub steps_left : Worker Ctx Resp → ℕ
  steps_left running = 1
  steps_left parked = 1
  steps_left (busy r) = 3
  steps_left (sending r s) = 2
  steps_left exited = 0

  abbrev pub measure : Pool Ctx Resp → ℕ
  measure p = 3 * length p.queue + total steps_left p.workers

  receive-measure :
      (p : Pool Ctx Resp) (i : ℕ) (xs : List (Request Ctx Resp))
      → p.queue ≡ xs
      → p.closed ≡ true
      → get_elem? p.workers i ≡ some running
      → measure (receive_from Ctx Resp p i xs) < measure p
  unfolding receive_from
  receive-measure p i [] e c at =
      rw (c) (omega (arith, ap length e, total-set steps_left p.workers i running exited at))
  receive-measure p i (r ∷ rs) e c at =
      omega (arith, ap length e, total-set steps_left p.workers i running (busy r) at)

  -- After `Close`, every step of a worker lowers the measure, so `Close` cannot wait for ever while
  -- workers run; and the channel stays closed.
  Work-measure :
      {h g : History Ctx Resp}
      → Work Ctx Resp h g
      → h.pool.closed ≡ true
      → (measure g.pool < measure h.pool) × (g.pool.closed ≡ true)
  unfolding receive respond deliver
  Work-measure {h} (receives i at) c =
      (receive-measure h.pool i h.pool.queue refl c at, receive-closed h.pool.queue)
    where
      receive-closed :
          (xs : List (Request Ctx Resp)) → (receive_from Ctx Resp h.pool i xs).closed ≡ true
      receive-closed [] = unfold receive_from in c
      receive-closed (x ∷ xs) = unfold receive_from in c
  Work-measure {h} (responds i r s at) c =
      (omega (arith, total-set steps_left h.pool.workers i (busy r) (sending r s) at), c)
  Work-measure {h} (delivers i r s at) c =
      (omega (arith, total-set steps_left h.pool.workers i (sending r s) running at), c)

  Work-accepted : {h g : History Ctx Resp} → Work Ctx Resp h g → g.accepted ≡ h.accepted
  Work-accepted (receives i at) = refl
  Work-accepted (responds i r s at) = refl
  Work-accepted (delivers i r s at) = refl

  -- A worker that has not returned, and where it stands.
  unfinished :
      (ws : List (Worker Ctx Resp))
      → total is_parked ws ≡ 0
      → (drained Ctx Resp ws ≡ true)
        ⊎ ((i : ℕ) × (get_elem? ws i ≡ some running))
        ⊎ ((i : ℕ) × (r : Request Ctx Resp) × (get_elem? ws i ≡ some (busy r)))
        ⊎ ((i : ℕ) × (r : Request Ctx Resp) × (s : Result Ctx Resp) × (get_elem? ws i
              ≡ some (sending r s)))
  unfolding drained
  unfinished [] z = inl refl
  unfinished (running ∷ ws) z = inr (inl (0, refl))
  unfinished (parked ∷ ws) z = absurd (omega arith)
  unfinished (busy r ∷ ws) z = inr (inr (inl (0, r, refl)))
  unfinished (sending r s ∷ ws) z = inr (inr (inr (0, r, s, refl)))
  unfinished (exited ∷ ws) z = elim (unfinished ws (omega arith)) [
    | inl d ↦ inl d
    | inr (inl (i, e)) ↦ inr (inl (suc i, e))
    | inr (inr (inl (i, r, e))) ↦ inr (inr (inl (suc i, r, e)))
    | inr (inr (inr (i, r, s, e))) ↦ inr (inr (inr (suc i, r, s, e)))
  ]

  no_parked :
      (h : History Ctx Resp) → Inv h → h.pool.closed ≡ true → total is_parked h.pool.workers ≡ 0
  no_parked h v c = go (total is_parked h.pool.workers) refl
    where
      go : (n : ℕ) → total is_parked h.pool.workers ≡ n → n ≡ 0
      go zero e = refl
      go (suc n) e = absurd (true_not_false c (v.idle (omega arith)).1)

  -- After `Close`, either every worker has returned, or some worker can make a step.
  progress :
      (h : History Ctx Resp)
      → Inv h
      → h.pool.closed ≡ true
      → (drained Ctx Resp h.pool.workers ≡ true) ⊎ ((g : History Ctx Resp) × Work Ctx Resp h g)
  progress h v c = elim (unfinished h.pool.workers (no_parked h v c)) [
    | inl d ↦ inl d
    | inr (inl (i, e)) ↦ inr (_, receives i e)
    | inr (inr (inl (i, r, e))) ↦ inr (_, responds i r (record { response = none; err = none }) e)
    | inr (inr (inr (i, r, s, e))) ↦ inr (_, delivers i r s e)
  ]

  -- A run of worker steps.
  pub data Works : History Ctx Resp → History Ctx Resp → Type 0 where
    done : {h : History Ctx Resp} → Works h h
    more : {h g k : History Ctx Resp} → Work Ctx Resp h g → Works g k → Works h k

  drained-has_exited :
      (ws : List (Worker Ctx Resp)) → drained Ctx Resp ws ≡ true → total has_exited ws ≡ length ws
  unfolding drained
  drained-has_exited [] d = refl
  drained-has_exited (exited ∷ ws) d = omega (arith, drained-has_exited ws d)
  drained-has_exited (w ∷ ws) d = absurd (cc)

  drained-holds :
      (q : Request Ctx Resp → Bool) (ws : List (Worker Ctx Resp))
      → drained Ctx Resp ws ≡ true
      → total (holds q) ws ≡ 0
  unfolding drained
  drained-holds q [] d = refl
  drained-holds q (exited ∷ ws) d = omega (arith, drained-holds q ws d)
  drained-holds q (w ∷ ws) d = absurd (cc)

  -- When every worker of a reachable pool has returned, which is when `Close` returns, the queue is
  -- empty and what was accepted has been delivered, each request as often, whichever requests `q`
  -- counts.
  drained-delivered :
      {queue_size concurrency : ℤ} {h : History Ctx Resp}
      → Reach Ctx Resp queue_size concurrency h
      → drained Ctx Resp h.pool.workers ≡ true
      → (h.pool.queue ≡ [])
        × ((q : Request Ctx Resp → Bool)
            → total (passes q) h.accepted ≡ total (passes q) h.delivered)
  drained-delivered {concurrency = concurrency} {h = h} reach d =
      let v = Reach-Inv reach in
      let ws = h.pool.workers in
      let (empty, _) =
        v.gone
          (omega (arith, drained-has_exited ws d, Reach-crew reach, at_least_one concurrency)) in
      (
        empty,
        λ q.
            omega (
              arith,
              (Reach-conserves reach).1 q,
              drained-holds q ws d,
              ap (total (passes q)) empty,
            ),
      )

  drain :
      {queue_size concurrency : ℤ} (fuel : ℕ) (h : History Ctx Resp)
      → Reach Ctx Resp queue_size concurrency h
      → h.pool.closed ≡ true
      → measure h.pool < fuel
      → (g : History Ctx Resp) × Works h g
        × Reach Ctx Resp queue_size concurrency g
        × (drained Ctx Resp g.pool.workers ≡ true)
        × (g.accepted ≡ h.accepted)
  drain zero h reach c m = absurd (omega arith)
  drain (suc fuel) h reach c m = elim (progress h (Reach-Inv reach) c) [
    | inl d ↦ (h, done, reach, d, refl)
    | inr (g, w) ↦
        let (less, c') = Work-measure w c in
        let (k, ws, r, d, e) = drain fuel g (later reach (works w)) c' (omega arith) in
        (k, more w ws, r, d, e ∙ Work-accepted w)
  ]

  -- From every reachable state in which the pool has been closed, workers can run on, given that
  -- `Predict` returns, until every worker has returned; all that had been accepted is then
  -- delivered, each request as often as it was accepted.
  pub close_returns :
      {queue_size concurrency : ℤ} {h : History Ctx Resp}
      → Reach Ctx Resp queue_size concurrency h
      → h.pool.closed ≡ true
      → (g : History Ctx Resp) × Works h g
        × (drained Ctx Resp g.pool.workers ≡ true)
        × ((q : Request Ctx Resp → Bool)
            → total (passes q) h.accepted ≡ total (passes q) g.delivered)
  close_returns {h = h} reach c =
      let (g, ws, r, d, e) = drain (suc (measure h.pool)) h reach c (omega arith) in
      (g, ws, d, λ q. ap (total (passes q)) (sym e) ∙ (drained-delivered r d).1 q)
