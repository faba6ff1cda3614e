-- ===== src/Workerpool/Trace.antt =====
-- The pool as a transition system: callers submit, workers take turns in any order, the predictor
-- answers anything, and somebody closes the pool. The history beside the pool records what was
-- accepted, what a worker has taken, and what was sent to a caller's channel, oldest first.
use edge_sched.Prelude.{ℕ, ◌≡◌, true, false, List, [], ◌∷◌, ◌++◌, Option, none, some, get_elem?}
use edge_sched.Prelude.Int.{ℤ}
use edge_sched.Workerpool.Pool.{
  Request, Result, running, busy, sending, Pool, new, find_parked, submit, receive, respond,
  deliver, close,
}

module _ (Ctx Resp : Type 0) where
  pub record History : Type 0 where
    pub pool : Pool Ctx Resp
    pub accepted : List (Request Ctx Resp)
    pub started : List (Request Ctx Resp)
    pub delivered : List (Request Ctx Resp)

  abbrev pub start : ℤ → ℤ → History
  start queue_size concurrency = record {
    pool = new Ctx Resp queue_size concurrency;
    accepted = [];
    started = [];
    delivered = [];
  }

  -- What a receive takes out of the queue: its head.
  abbrev pub taken : List (Request Ctx Resp) → List (Request Ctx Resp)
  taken [] = []
  taken (r ∷ rs) = r ∷ []

  -- A submission that finds a parked worker is started at once.
  abbrev pub handed : Option ℕ → Request Ctx Resp → List (Request Ctx Resp)
  handed none r = []
  handed (some i) r = r ∷ []

  -- One step of a worker.
  pub data Work (h : History) : History → Type 0 where
    receives :
        (i : ℕ)
        → get_elem? h.pool.workers i ≡ some running
        → Work h (record h {
          pool = receive Ctx Resp h.pool i;
          started = h.started ++ taken h.pool.queue;
        })
    responds :
        (i : ℕ) (r : Request Ctx Resp) (s : Result Ctx Resp)
        → get_elem? h.pool.workers i ≡ some (busy r)
        → Work h (record h { pool = respond Ctx Resp h.pool i r s })
    delivers :
        (i : ℕ) (r : Request Ctx Resp) (s : Result Ctx Resp)
        → get_elem? h.pool.workers i ≡ some (sending r s)
        → Work h (record h { pool = deliver Ctx Resp h.pool i; delivered = h.delivered ++ r ∷ [] })

  pub data Step (h : History) : History → Type 0 where
    works : {g : History} → Work h g → Step h g
    accepts :
        (r : Request Ctx Resp) (p : Pool Ctx Resp)
        → submit Ctx Resp h.pool r ≡ some (true, p)
        → Step h (record h {
          pool = p;
          accepted = h.accepted ++ r ∷ [];
          started = h.started ++ handed (find_parked Ctx Resp h.pool.workers) r;
        })
    rejects :
        (r : Request Ctx Resp) (p : Pool Ctx Resp)
        → submit Ctx Resp h.pool r ≡ some (false, p)
        → Step h (record h { pool = p })
    closes : (p : Pool Ctx Resp) → close Ctx Resp h.pool ≡ some p → Step h (record h { pool = p })

  pub data Reach (queue_size concurrency : ℤ) : History → Type 0 where
    started_up : Reach queue_size concurrency (start queue_size concurrency)
    later :
        {h g : History} → Reach queue_size concurrency h → Step h g → Reach queue_size concurrency g
