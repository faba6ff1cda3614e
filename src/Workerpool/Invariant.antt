-- ===== src/Workerpool/Invariant.antt =====
-- What holds in every state that a pool can reach.
pub mod Defs
pub mod Works
pub mod Sends
pub mod Close
use edge_sched.Prelude.{
  ℕ, zero, suc, ◌+◌, ◌≤◌, ◌<◌, ◌≡◌, refl, sym, ap, subst, true_not_false, if_returned, some_inj,
  ltb→lt, ◌∙◌, ◌⊎◌, inl, inr, ltb, if◌then◌else◌, Bool, true, false, Bool-cases, List, [], ◌∷◌,
  ◌++◌, Option, none, some, length, length-append, length-set, length-replicate, get_elem?, set,
  replicate, map, max, append-nil, append_assoc, Option-cases, arith,
}
use native.Mathlib.Decide.{dec_lt}
use edge_sched.Prelude.Int.{ℤ, pos, negsuc, ltz, pos_part}
use edge_sched.Prelude.Totals.{
  total, total-set, total-append, total-le-length, total-replicate_zero, weight-le-total,
}
use edge_sched.Workerpool.Pool.{
  Request, Result, Worker, running, parked, busy, sending, exited, Pool, new, find_parked, send,
  submit, next_index, receive_from, receive, respond, deliver, woken, close,
}
use edge_sched.Workerpool.Trace.{
  History, start, taken, handed, Work, receives, responds, delivers, Step, works, accepts, rejects,
  closes, Reach, started_up, later,
}
use Defs.{in_predict, is_parked, has_exited, holds, passes, Inv, start-Inv, nil_not_cons}
use Works.{receive-Inv, respond-Inv, deliver-Inv}
use Sends.{send-Inv, send-false, submit_cases}
use Close.{close-Inv}

module _ {Ctx Resp : Type 0} where
  pub Work-Inv : {h g : History Ctx Resp} → Work Ctx Resp h g → Inv h → Inv g
  unfolding receive
  Work-Inv {h} (receives i at) v = receive-Inv h h.pool.queue i refl at v
  Work-Inv {h} (responds i r s at) v = respond-Inv h i r s at v
  Work-Inv {h} (delivers i r s at) v = deliver-Inv h i r s at v

  pub Step-Inv : {h g : History Ctx Resp} → Step Ctx Resp h g → Inv h → Inv g
  Step-Inv (works w) v = Work-Inv w v
  Step-Inv {h} (accepts r p e) v =
      let (c, s) = submit_cases h r true p e in send-Inv h r _ p refl c s v
  Step-Inv {h} (rejects r p e) v =
      let (c, s) = submit_cases h r false p e in
      let (_, _, same) = send-false h.pool p r _ s in
      subst (λ x. Inv (record h { pool = x })) same v
  Step-Inv {h} (closes p e) v = close-Inv h p e v

  pub Reach-Inv :
      {queue_size concurrency : ℤ} {h : History Ctx Resp}
      → Reach Ctx Resp queue_size concurrency h
      → Inv h
  Reach-Inv {queue_size} {concurrency} started_up = start-Inv queue_size concurrency
  Reach-Inv (later r st) = Step-Inv st (Reach-Inv r)
