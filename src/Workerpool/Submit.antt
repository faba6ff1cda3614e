-- ===== src/Workerpool/Submit.antt =====
-- Admission control: the bounds that a pool keeps, when it refuses, and what becomes of what it
-- accepts.
use edge_sched.Prelude.{
  ℕ, suc, ◌+◌, ◌≤◌, ◌≡◌, refl, sym, ap, ◌∙◌, subst, ◌↔◌, true_not_false, some_inj, if_returned, ◌⊎◌,
  ltb, ltb→lt, if◌then◌else◌, Bool, true, false, Bool-cases, inl, inr, List, [], ◌∷◌, ◌++◌, Option,
  none, some, Option-cases, length, length-set, length-replicate, set, map, arith,
}
use edge_sched.Prelude.Int.{ℤ, pos, negsuc, ltz, pos_part}
use edge_sched.Prelude.Totals.{total, total-append, total-le-length, weight-le-total}
use edge_sched.Workerpool.Pool.{
  Request, Worker, running, parked, busy, Pool, new, find_parked, send, submit, queue_depth,
  receive_from, receive, respond, deliver, woken, close,
}
use edge_sched.Workerpool.Trace.{
  History, Work, receives, responds, delivers, Step, works, accepts, rejects, closes, Reach,
  started_up, later,
}
use edge_sched.Workerpool.Invariant.Defs.{in_predict, is_parked, holds, passes}
use edge_sched.Workerpool.Invariant.Sends.{submit_cases, find_parked-none, find_parked-some}
use edge_sched.Workerpool.Invariant.{Reach-Inv}

-- The sizes that `New` makes of its arguments.
abbrev pub at_least : ℕ → ℤ → ℕ
at_least n (negsuc k) = n
at_least n (pos k) = if ltb k n then n else k

module _ {Ctx Resp : Type 0} where
  -- The capacity and the number of workers are those of the start.
  record Sizes (queue_size concurrency : ℤ) (p : Pool Ctx Resp) : Type 0 where
    capacity : p.cap ≡ at_least 0 queue_size
    crew : length p.workers ≡ at_least 1 concurrency

  receive-Sizes :
      {queue_size concurrency : ℤ} (p : Pool Ctx Resp) (i : ℕ) (xs : List (Request Ctx Resp))
      → Sizes queue_size concurrency p
      → Sizes queue_size concurrency (receive_from Ctx Resp p i xs)
  unfolding receive_from
  receive-Sizes p i [] z = record {
    capacity = z.capacity;
    crew = length-set p.workers i _ ∙ z.crew;
  }
  receive-Sizes p i (r ∷ rs) z = record {
    capacity = z.capacity;
    crew = length-set p.workers i _ ∙ z.crew;
  }

  send-Sizes :
      {queue_size concurrency : ℤ} (p : Pool Ctx Resp) (r : Request Ctx Resp) (o : Option ℕ)
      → Sizes queue_size concurrency p
      → Sizes queue_size concurrency (send Ctx Resp p r o).1
  unfolding send
  send-Sizes p r (some i) z = record {
    capacity = z.capacity;
    crew = length-set p.workers i _ ∙ z.crew;
  }
  send-Sizes p r none z = elim (Bool-cases (ltb (length p.queue) p.cap)) [
    | inl room ↦ rw room (record { capacity = z.capacity; crew = z.crew })
    | inr full ↦ rw full z
  ]

  length-woken : (ws : List (Worker Ctx Resp)) → length (map (woken Ctx Resp) ws) ≡ length ws
  length-woken [] = refl
  length-woken (w ∷ ws) = ap suc (length-woken ws)

  Work-Sizes :
      {queue_size concurrency : ℤ} {h g : History Ctx Resp}
      → Work Ctx Resp h g
      → Sizes queue_size concurrency h.pool
      → Sizes queue_size concurrency g.pool
  unfolding receive respond deliver
  Work-Sizes {h = h} (receives i at) z = receive-Sizes h.pool i h.pool.queue z
  Work-Sizes {h = h} (responds i r s at) z = record {
    capacity = z.capacity;
    crew = length-set h.pool.workers i _ ∙ z.crew;
  }
  Work-Sizes {h = h} (delivers i r s at) z = record {
    capacity = z.capacity;
    crew = length-set h.pool.workers i _ ∙ z.crew;
  }

  Step-Sizes :
      {queue_size concurrency : ℤ} {h g : History Ctx Resp}
      → Step Ctx Resp h g
      → Sizes queue_size concurrency h.pool
      → Sizes queue_size concurrency g.pool
  unfolding close
  Step-Sizes (works w) z = Work-Sizes w z
  Step-Sizes {queue_size} {concurrency} {h = h} (accepts r p e) z =
      subst (λ x. Sizes queue_size concurrency x) (ap (λ t. t.1) (submit_cases h r true p e).1)
        (send-Sizes h.pool r _ z)
  Step-Sizes {queue_size} {concurrency} {h = h} (rejects r p e) z =
      subst (λ x. Sizes queue_size concurrency x) (ap (λ t. t.1) (submit_cases h r false p e).1)
        (send-Sizes h.pool r _ z)
  Step-Sizes {queue_size} {concurrency} {h = h} (closes p e) z =
      subst (λ x. Sizes queue_size concurrency x) (if_returned h.pool.closed e).1
        (record { capacity = z.capacity; crew = length-woken h.pool.workers ∙ z.crew })

  start-Sizes :
      (queue_size concurrency : ℤ)
      → Sizes queue_size concurrency (new Ctx Resp queue_size concurrency)
  unfolding new
  start-Sizes queue_size concurrency = record {
    capacity = clamp_zero queue_size;
    crew = length-replicate _ _ ∙ clamp_one concurrency;
  }
    where
      clamp_zero : (n : ℤ) → pos_part (if ltz n (pos 0) then pos 0 else n) ≡ at_least 0 n
      clamp_zero (pos n) = ground arith
      clamp_zero (negsuc n) = refl

      clamp_one : (n : ℤ) → pos_part (if ltz n (pos 1) then pos 1 else n) ≡ at_least 1 n
      clamp_one (pos n) = ground arith
      clamp_one (negsuc n) = refl

  Reach-Sizes :
      {queue_size concurrency : ℤ} {h : History Ctx Resp}
      → Reach Ctx Resp queue_size concurrency h
      → Sizes queue_size concurrency h.pool
  Reach-Sizes {queue_size} {concurrency} started_up = start-Sizes queue_size concurrency
  Reach-Sizes (later r st) = Step-Sizes st (Reach-Sizes r)

  in_predict-le-one : (w : Worker Ctx Resp) → in_predict w ≤ 1
  in_predict-le-one running = omega arith
  in_predict-le-one w = omega arith

  pub Reach-crew :
      {queue_size concurrency : ℤ} {h : History Ctx Resp}
      → Reach Ctx Resp queue_size concurrency h
      → length h.pool.workers ≡ at_least 1 concurrency
  Reach-crew r = (Reach-Sizes r).crew

  -- In every state that a pool reaches, the queue holds at most `queueSize` requests (0 if that is
  -- negative), and at most `concurrency` requests are in `Predict` (1 if that is below 1).
  pub Reach-bounds :
      {queue_size concurrency : ℤ} {h : History Ctx Resp}
      → Reach Ctx Resp queue_size concurrency h
      → (queue_depth Ctx Resp h.pool ≤ at_least 0 queue_size)
        × (total in_predict h.pool.workers ≤ at_least 1 concurrency)
  unfolding queue_depth
  Reach-bounds {h = h} r =
      let v = Reach-Inv r in
      let z = Reach-Sizes r in
      (
        omega (arith, v.fits, z.capacity),
        omega (arith, z.crew, total-le-length in_predict in_predict-le-one h.pool.workers),
      )

  -- An open pool accepts, and has a parked worker or room; or it refuses, and has neither.
  submit_open :
      (p : Pool Ctx Resp) (r : Request Ctx Resp)
      → p.closed ≡ false
      → ((q : Pool Ctx Resp) × (submit Ctx Resp p r ≡ some (true, q))
          × (total is_parked p.workers ≡ 0 → p.cap ≤ length p.queue → ⊥))
        ⊎ ((submit Ctx Resp p r ≡ some (false, p))
            × (total is_parked p.workers ≡ 0)
            × (p.cap ≤ length p.queue))
  unfolding submit send
  submit_open p r c = elim (Option-cases (find_parked Ctx Resp p.workers)) [
    | inl f ↦ elim (Bool-cases (ltb (length p.queue) p.cap)) [
      | inl room ↦ inl (
        record p { queue = p.queue ++ r ∷ [] },
        rw (c, f, room),
        λ z full. absurd (omega (arith, ltb→lt _ _ room)),
      )
      | inr full ↦ inr (rw (c, f, full), find_parked-none p.workers f, ground arith)
    ]
    | inr (i, f) ↦
        let at = weight-le-total is_parked p.workers i parked (find_parked-some p.workers i f) in
        inl (
          record p { workers = set p.workers i (busy r) },
          rw (c, f),
          λ z full. absurd (omega (arith, at)),
        )
  ]

  -- On an open pool in a reachable state, `Submit` refuses exactly when no worker waits and the
  -- queue is full. It then changes nothing; otherwise it accepts.
  pub submit-false_iff :
      {queue_size concurrency : ℤ} {h : History Ctx Resp}
      → Reach Ctx Resp queue_size concurrency h
      → h.pool.closed ≡ false
      → (r : Request Ctx Resp)
      → ((submit Ctx Resp h.pool r ≡ some (false, h.pool)) ↔ (
          (total is_parked h.pool.workers ≡ 0)
          × (queue_depth Ctx Resp h.pool ≡ at_least 0 queue_size)))
        × ((submit Ctx Resp h.pool r ≡ some (false, h.pool))
            ⊎ ((p : Pool Ctx Resp) × (submit Ctx Resp h.pool r ≡ some (true, p))))
  unfolding queue_depth
  submit-false_iff {h = h} reach c r =
      let v = Reach-Inv reach in
      let z = Reach-Sizes reach in
      elim (submit_open h.pool r c) [
        | inl (p, e, able) ↦ (
          (
            λ f. absurd (true_not_false {b = true} refl (ap (λ t. t.0) (some_inj (sym e ∙ f)))),
            λ (nobody, full). absurd (able nobody (omega (arith, full, z.capacity))),
          ),
          inr (p, e),
        )
        | inr (e, nobody, full) ↦
            ((λ f. (nobody, omega (arith, full, v.fits, z.capacity)), λ _. e), inl e)
      ]

  -- In every reachable state the requests are taken from the queue in the order in which they were
  -- accepted, and every accepted request is, as often as it was accepted, in the queue, in a
  -- worker's hands, or delivered: `q` picks the requests that are counted.
  pub Reach-conserves :
      {queue_size concurrency : ℤ} {h : History Ctx Resp}
      → Reach Ctx Resp queue_size concurrency h
      → (h.accepted ≡ h.started ++ h.pool.queue)
        × ((q : Request Ctx Resp → Bool)
            → total (passes q) h.accepted
              ≡ total (passes q) h.pool.queue
                + total (holds q) h.pool.workers
                + total (passes q) h.delivered)
  Reach-conserves {h = h} reach =
      let v = Reach-Inv reach in
      (
        v.fifo,
        λ q. omega (
          arith,
          ap (total (passes q)) v.fifo,
          total-append (passes q) h.started h.pool.queue,
          v.kept q,
        ),
      )
