-- ===== src/Workerpool/Pool.antt =====
-- scheduler/internal/workerpool/pool.go: the pool's state and its operations. A channel of capacity
-- `cap` is the list of its waiting requests, oldest first. A worker that waits on the empty channel
-- is `parked`: the runtime hands it the next request that is sent, past the buffer.
use edge_sched.Prelude.{
  ℕ, zero, suc, ltb, if◌then◌else◌, Bool, true, false, List, [], ◌∷◌, ◌++◌, Option, none, some,
  length, set, replicate, map,
}
use edge_sched.Prelude.Int.{ℤ, pos, ltz, pos_part}
use edge_sched.Prelude.Bytes.{Bytes}

-- The index in a list, from the index in its tail.
abbrev pub next_index : Option ℕ → Option ℕ
next_index none = none
next_index (some i) = some (suc i)

module _ (Ctx Resp : Type 0) where
  -- `result` is the identity of the channel that the caller owns.
  pub record Request : Type 0 where
    pub ctx : Ctx
    pub image_data : Bytes
    pub result : ℕ

  -- What `Predict` returned: a response, or an error.
  pub record Result : Type 0 where
    pub response : Option Resp
    pub err : Option Bytes

  -- Where a worker stands: about to receive, waiting on the empty channel, in `Predict`, about to
  -- send the result, or returned.
  pub data Worker : Type 0 where
    running : Worker
    parked : Worker
    busy : Request → Worker
    sending : Request → Result → Worker
    exited : Worker

  pub record Pool : Type 0 where
    pub cap : ℕ
    pub queue : List Request
    pub closed : Bool
    pub workers : List Worker

  unfoldable pub new : ℤ → ℤ → Pool
  new queue_size concurrency = record {
    cap = pos_part (if ltz queue_size (pos 0) then pos 0 else queue_size);
    queue = [];
    closed = false;
    workers = replicate (pos_part (if ltz concurrency (pos 1) then pos 1 else concurrency)) running;
  }

  unfoldable pub find_parked : List Worker → Option ℕ
  find_parked [] = none
  find_parked (parked ∷ ws) = some zero
  find_parked (_ ∷ ws) = next_index (find_parked ws)

  -- The non-blocking send of `Submit` on an open channel. Which waiting worker receives is left to
  -- the runtime; workers carry no identity, and the model takes the first.
  unfoldable pub send : Pool → Request → Option ℕ → Bool × Pool
  send p req (some i) = (true, record p { workers = set p.workers i (busy req) })
  send p req none =
      if ltb (length p.queue) p.cap
      then (true, record p { queue = p.queue ++ req ∷ [] })
      else (false, p)

  -- `none` is the panic of a send on a closed channel.
  unfoldable pub submit : Pool → Request → Option (Bool × Pool)
  unfolding find_parked send
  submit p req = if p.closed then none else some (send p req (find_parked p.workers))

  unfoldable pub queue_depth : Pool → ℕ
  queue_depth p = length p.queue

  -- One round of `for req := range p.queue`: what worker `i` finds when it receives.
  unfoldable pub receive_from : Pool → ℕ → List Request → Pool
  receive_from p i [] = record p { workers = set p.workers i (if p.closed then exited else parked) }
  receive_from p i (req ∷ rest) = record p { queue = rest; workers = set p.workers i (busy req) }

  unfoldable pub receive : Pool → ℕ → Pool
  unfolding receive_from
  receive p i = receive_from p i p.queue

  -- `Predict` returns to worker `i`, which serves `req`.
  unfoldable pub respond : Pool → ℕ → Request → Result → Pool
  respond p i req res = record p { workers = set p.workers i (sending req res) }

  -- Worker `i` has sent its result and goes back to the loop.
  unfoldable pub deliver : Pool → ℕ → Pool
  deliver p i = record p { workers = set p.workers i running }

  -- The receive of a parked worker fails when the channel is closed, and the worker returns.
  abbrev pub woken : Worker → Worker
  woken parked = exited
  woken running = running
  woken (busy r) = busy r
  woken (sending r s) = sending r s
  woken exited = exited

  -- `close(p.queue)`; closing twice panics.
  unfoldable pub close : Pool → Option Pool
  close p =
      if p.closed then none else some (record p { closed = true; workers = map woken p.workers })

  abbrev pub is_exited : Worker → Bool
  is_exited exited = true
  is_exited _ = false

  -- `p.wg.Wait()` returns when every worker has returned.
  unfoldable pub drained : List Worker → Bool
  drained [] = true
  drained (w ∷ ws) = if is_exited w then drained ws else false
