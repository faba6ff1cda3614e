-- ===== src/Workerpool/Invariant/Defs.antt =====
-- The invariant of a pool, and the weights by which workers and requests are counted.
use edge_sched.Prelude.{
  ℕ, ◌+◌, ◌≤◌, ◌<◌, ◌≡◌, refl, if◌then◌else◌, Bool, true, false, List, [], ◌∷◌, ◌++◌, length, arith,
}
use edge_sched.Prelude.Int.{ℤ}
use edge_sched.Prelude.Totals.{total, total-replicate_zero}
use edge_sched.Workerpool.Pool.{Request, Worker, running, parked, busy, sending, exited, new}
use edge_sched.Workerpool.Trace.{History, start}

module _ {Ctx Resp : Type 0} where
  -- The weights by which workers are counted.
  abbrev pub in_predict : Worker Ctx Resp → ℕ
  in_predict (busy r) = 1
  in_predict _ = 0

  abbrev pub is_parked : Worker Ctx Resp → ℕ
  is_parked parked = 1
  is_parked _ = 0

  abbrev pub has_exited : Worker Ctx Resp → ℕ
  has_exited exited = 1
  has_exited _ = 0

  -- The requests in a worker's hands that pass a test.
  abbrev pub holds : (Request Ctx Resp → Bool) → Worker Ctx Resp → ℕ
  holds q (busy r) = if q r then 1 else 0
  holds q (sending r s) = if q r then 1 else 0
  holds q _ = 0

  abbrev pub passes : (Request Ctx Resp → Bool) → Request Ctx Resp → ℕ
  passes q r = if q r then 1 else 0

  -- `fits`: the queue is within its capacity. `idle`: while a worker is parked the queue is empty
  -- and open. `gone`: a worker returns only from an empty, closed queue. `fifo`: requests are taken
  -- in the order of acceptance. `kept`: what was taken is in a worker's hands or delivered, as
  -- often, whichever requests are counted.
  pub record Inv (h : History Ctx Resp) : Type 0 where
    pub fits : length h.pool.queue ≤ h.pool.cap
    pub idle : 0 < total is_parked h.pool.workers → (h.pool.queue ≡ []) × (h.pool.closed ≡ false)
    pub gone : 0 < total has_exited h.pool.workers → (h.pool.queue ≡ []) × (h.pool.closed ≡ true)
    pub fifo : h.accepted ≡ h.started ++ h.pool.queue
    pub kept :
        (q : Request Ctx Resp → Bool)
        → total (passes q) h.started ≡ total (holds q) h.pool.workers + total (passes q) h.delivered

  pub start-Inv : (queue_size concurrency : ℤ) → Inv (start Ctx Resp queue_size concurrency)
  unfolding new
  start-Inv queue_size concurrency = record {
    fits = omega arith;
    idle = λ h. absurd (omega (arith, h, total-replicate_zero is_parked _ running refl));
    gone = λ h. absurd (omega (arith, h, total-replicate_zero has_exited _ running refl));
    fifo = refl;
    kept = λ q. omega (arith, total-replicate_zero (holds q) _ running refl);
  }

  pub nil_not_cons : {r : Request Ctx Resp} {rs : List (Request Ctx Resp)} → [] ≡ r ∷ rs → ⊥
  nil_not_cons h = cc
