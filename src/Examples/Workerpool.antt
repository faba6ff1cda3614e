-- ===== src/Examples/Workerpool.antt =====
-- A pool with one worker and room for one request, run by hand, as in
-- scheduler/internal/workerpool/pool_test.go.
use edge_sched.Prelude.{
  ℕ, ◌+◌, ◌≤◌, ◌≡◌, ◌↔◌, ◌⊎◌, refl, Bool, true, false, [], ◌∷◌, ◌++◌, none, some,
}
use edge_sched.Prelude.Int.{pos}
use edge_sched.Prelude.Totals.{total}
use edge_sched.Workerpool.Pool.{
  Request, Result, Pool, new, submit, queue_depth, receive, respond, deliver, close, drained,
}
use edge_sched.Workerpool.Trace.{
  History, receives, responds, delivers, works, accepts, closes, Reach, started_up, later,
}
use edge_sched.Workerpool.Invariant.Defs.{in_predict, is_parked, holds, passes}
use edge_sched.Workerpool.Submit.{Reach-bounds, submit-false_iff, Reach-conserves}
use edge_sched.Workerpool.Drain.{Works, close_returns}

abbrev U : Type 0
U = Unit {0}

abbrev first : Request U ℕ
first = record { ctx = tt; image_data = 1 ∷ []; result = 0 }

abbrev second : Request U ℕ
second = record { ctx = tt; image_data = 2 ∷ []; result = 1 }

abbrev reply : Result U ℕ
reply = record { response = some 7; err = none }

pool_ops : U
unfolding new submit receive respond deliver close drained queue_depth
pool_ops = tt

abbrev Run : Type 0
Run = (h : History U ℕ) × Reach U ℕ (pos 1) (pos 1) h

-- The worker serves the first request and the second one fills the queue.
abbrev full : Run
unfolding pool_ops
full = (
  _,
  later (later (later started_up (accepts first _ refl)) (works (receives 0 refl)))
      (accepts second _ refl),
)

abbrev shut : Run
unfolding pool_ops
shut = (_, later full.1 (closes _ refl))

abbrev finished : Run
unfolding pool_ops
finished = (
  _,
  later
      (later
        (later
          (later
            (later (later shut.1 (works (responds 0 first reply refl)))
              (works (delivers 0 first reply refl)))
            (works (receives 0 refl)))
          (works (responds 0 second reply refl)))
        (works (delivers 0 second reply refl)))
      (works (receives 0 refl)),
)

full_test :
    (submit U ℕ full.0.pool first ≡ some (false, full.0.pool)) × (queue_depth U ℕ full.0.pool ≡ 1)
unfolding pool_ops
full_test = (refl, refl)

Reach-bounds_example :
    (queue_depth U ℕ full.0.pool ≤ 1) × (total in_predict full.0.pool.workers ≤ 1)
unfolding pool_ops
Reach-bounds_example = Reach-bounds full.1

submit-false_iff_example :
    ((submit U ℕ full.0.pool first ≡ some (false, full.0.pool))
      ↔ ((total is_parked full.0.pool.workers ≡ 0) × (queue_depth U ℕ full.0.pool ≡ 1)))
    × ((submit U ℕ full.0.pool first ≡ some (false, full.0.pool))
        ⊎ ((p : Pool U ℕ) × (submit U ℕ full.0.pool first ≡ some (true, p))))
unfolding pool_ops
submit-false_iff_example = submit-false_iff full.1 refl first

Reach-conserves_example :
    (full.0.accepted ≡ full.0.started ++ full.0.pool.queue)
    × ((q : Request U ℕ → Bool)
        → total (passes q) full.0.accepted
          ≡ total (passes q) full.0.pool.queue
            + total (holds q) full.0.pool.workers
            + total (passes q) full.0.delivered)
unfolding pool_ops
Reach-conserves_example = Reach-conserves full.1

close_returns_example :
    (g : History U ℕ) × Works shut.0 g
    × (drained U ℕ g.pool.workers ≡ true)
    × ((q : Request U ℕ → Bool) → total (passes q) shut.0.accepted ≡ total (passes q) g.delivered)
unfolding pool_ops
close_returns_example = close_returns shut.1 refl
