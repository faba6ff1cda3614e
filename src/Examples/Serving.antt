-- ===== src/Examples/Serving.antt =====
-- One caller of a pool with one worker, from the submission to the reply.
use edge_sched.Prelude.{ℕ, ◌≡◌, ◌⊎◌, refl, [], ◌∷◌, none, some, get_elem?, In}
use edge_sched.Prelude.Int.{pos}
use edge_sched.Prelude.Totals.{total}
use edge_sched.Workerpool.Pool.{
  Request, Result, new, find_parked, send, submit, receive_from, receive, respond, deliver,
}
use edge_sched.Workerpool.Invariant.Defs.{passes}
use edge_sched.Serving.System.{
  waiting, timed_out, answered, Caller, Service, open_service, accepts, receives, responds,
  delivers, answers, Reach, opened, later,
}
use edge_sched.Serving.Counts.{at}
use edge_sched.Serving.Replies.{send_ready, own_result}
use edge_sched.Serving.Work.{Works}
use edge_sched.Serving.Progress.{waiting_served}

abbrev U : Type 0
U = Unit {0}

abbrev request : Request U ℕ
request = record { ctx = tt; image_data = 9 ∷ []; result = 0 }

abbrev reply : Result U ℕ
reply = record { response = some 7; err = none }

serving_ops : U
unfolding new find_parked send submit receive_from receive respond deliver open_service
serving_ops = tt

abbrev Run : Type 0
Run = (s : Service U ℕ) × Reach U ℕ (pos 1) (pos 1) s

abbrev submitted : Run
unfolding serving_ops
submitted = (_, later opened (accepts tt (9 ∷ []) _ refl))

abbrev predicted : Run
unfolding serving_ops
predicted = (_, later (later submitted.1 (receives 0 refl)) (responds 0 request reply refl))

abbrev replied : Run
unfolding serving_ops
replied = (
  _,
  later (later predicted.1 (delivers 0 request reply _ refl refl refl))
      (answers 0 _ reply refl refl refl),
)

send_ready_example :
    (k : Caller U ℕ) × (get_elem? predicted.0.callers 0 ≡ some k)
    × (k.request ≡ request)
    × (k.buffer ≡ none)
    × ((k.phase ≡ waiting) ⊎ (k.phase ≡ timed_out))
unfolding serving_ops
send_ready_example = send_ready predicted.1 0 request reply refl

own_result_example :
    In (request, reply) replied.0.predictions
    × (request.result ≡ 0)
    × (total (passes (at 0)) replied.0.history.accepted ≡ 1)
    × (total (passes (at 0)) replied.0.history.delivered ≡ 1)
unfolding serving_ops
own_result_example =
    own_result replied.1 0 (record { request = request; buffer = none; phase = answered reply })
      reply refl refl

waiting_served_example :
    (t : Service U ℕ) × Works submitted.0 t
    × ((l : Caller U ℕ) × (get_elem? t.callers 0 ≡ some l)
        × (l.request ≡ request)
        × (l.phase ≡ waiting)
        × ((res : Result U ℕ) × (l.buffer ≡ some res) × In (l.request, res) t.predictions))
unfolding serving_ops
waiting_served_example =
    waiting_served submitted.1 0 (record { request = request; buffer = none; phase = waiting }) refl
      refl
