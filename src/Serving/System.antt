-- ===== src/Serving/System.antt =====
-- The callers of one pool and the pool, in any interleaving. A caller makes a channel of capacity 1
-- and submits; if it is accepted it waits in the `select` for a result or for the end of its
-- context. A worker's send blocks while the channel is full. The channel that is made when there
-- are `n` callers has the identity `n`.
use edge_sched.Prelude.{
  ℕ, ◌≡◌, true, false, List, [], ◌∷◌, ◌++◌, Option, none, some, length, get_elem?, set,
}
use edge_sched.Prelude.Int.{ℤ}
use edge_sched.Prelude.Bytes.{Bytes}
use edge_sched.Workerpool.Pool.{
  Request, Result, running, busy, sending, Pool, find_parked, submit, receive, respond, deliver,
  close,
}
use edge_sched.Workerpool.Trace.{History, start, taken, handed}

module _ (Ctx Resp : Type 0) where
  -- Where a handler stands after `Submit`: it has returned with a rejection, it is in the `select`,
  -- it has returned as the context ended, or it has received a result.
  pub data Phase : Type 0 where
    refused : Phase
    waiting : Phase
    timed_out : Phase
    answered : Result Ctx Resp → Phase

  -- `buffer` is what the caller's channel holds.
  pub record Caller : Type 0 where
    pub request : Request Ctx Resp
    pub buffer : Option (Result Ctx Resp)
    pub phase : Phase

  -- `predictions` records what `Predict` answered to which request.
  pub record Service : Type 0 where
    pub history : History Ctx Resp
    pub callers : List Caller
    pub predictions : List (Request Ctx Resp × Result Ctx Resp)

  unfoldable pub open_service : ℤ → ℤ → Service
  open_service queue_size concurrency = record {
    history = start Ctx Resp queue_size concurrency;
    callers = [];
    predictions = [];
  }

  -- The request of a new caller.
  abbrev pub new_request : Service → Ctx → Bytes → Request Ctx Resp
  new_request s ctx image = record { ctx = ctx; image_data = image; result = length s.callers }

  abbrev pub joins : Service → Request Ctx Resp → Phase → List Caller
  joins s r phase = s.callers ++ record { request = r; buffer = none; phase = phase } ∷ []

  pub data Step (s : Service) : Service → Type 0 where
    accepts :
        (ctx : Ctx) (image : Bytes) (p : Pool Ctx Resp)
        → submit Ctx Resp s.history.pool (new_request s ctx image) ≡ some (true, p)
        → Step s (record s {
          history = record (s.history) {
            pool = p;
            accepted = s.history.accepted ++ new_request s ctx image ∷ [];
            started =
                s.history.started
                ++ handed Ctx Resp
                    (find_parked Ctx Resp s.history.pool.workers)
                    (new_request s ctx image);
          };
          callers = joins s (new_request s ctx image) waiting;
        })
    rejects :
        (ctx : Ctx) (image : Bytes) (p : Pool Ctx Resp)
        → submit Ctx Resp s.history.pool (new_request s ctx image) ≡ some (false, p)
        → Step s (record s {
          history = record (s.history) { pool = p };
          callers = joins s (new_request s ctx image) refused;
        })
    receives :
        (i : ℕ)
        → get_elem? s.history.pool.workers i ≡ some running
        → Step s (record s {
          history = record (s.history) {
            pool = receive Ctx Resp s.history.pool i;
            started = s.history.started ++ taken Ctx Resp s.history.pool.queue;
          };
        })
    responds :
        (i : ℕ) (r : Request Ctx Resp) (res : Result Ctx Resp)
        → get_elem? s.history.pool.workers i ≡ some (busy r)
        → Step s (record s {
          history = record (s.history) { pool = respond Ctx Resp s.history.pool i r res };
          predictions = (r, res) ∷ s.predictions;
        })
    -- The send to the caller's channel, which needs room.
    delivers :
        (i : ℕ) (r : Request Ctx Resp) (res : Result Ctx Resp) (k : Caller)
        → get_elem? s.history.pool.workers i ≡ some (sending r res)
        → get_elem? s.callers r.result ≡ some k
        → k.buffer ≡ none
        → Step s (record s {
          history = record (s.history) {
            pool = deliver Ctx Resp s.history.pool i;
            delivered = s.history.delivered ++ r ∷ [];
          };
          callers = set s.callers r.result (record k { buffer = some res });
        })
    -- `case result := <-resultCh`
    answers :
        (c : ℕ) (k : Caller) (res : Result Ctx Resp)
        → get_elem? s.callers c ≡ some k
        → k.phase ≡ waiting
        → k.buffer ≡ some res
        → Step s (record s {
          callers = set s.callers c (record k { buffer = none; phase = answered res });
        })
    -- `case <-ctx.Done()`
    times_out :
        (c : ℕ) (k : Caller)
        → get_elem? s.callers c ≡ some k
        → k.phase ≡ waiting
        → Step s (record s { callers = set s.callers c (record k { phase = timed_out }) })
    closes :
        (p : Pool Ctx Resp)
        → close Ctx Resp s.history.pool ≡ some p
        → Step s (record s { history = record (s.history) { pool = p } })

  pub data Reach (queue_size concurrency : ℤ) : Service → Type 0 where
    opened : Reach queue_size concurrency (open_service queue_size concurrency)
    later :
        {s t : Service} → Reach queue_size concurrency s → Step s t → Reach queue_size concurrency t
