-- ===== src/Serving/Told.antt =====
-- What the callers' channels hold, and that a worker's result is owed to a caller.
use edge_sched.Prelude.{
  ℕ, ◌+◌, ◌≤◌, ◌≡◌, refl, ap, ◌∙◌, ==_iff, Bool, List, [], ◌∷◌, ◌++◌, Option, none, some, length,
  get_elem?, All-get_elem?, In, there, arith,
}
use edge_sched.Prelude.Int.{ℤ}
use edge_sched.Prelude.Indexed.{get_elem?-snoc, Everywhere}
use edge_sched.Prelude.Totals.{weight-le-total}
use edge_sched.Workerpool.Pool.{Request, Result, sending}
use edge_sched.Workerpool.Trace as Pool
use edge_sched.Workerpool.Invariant.Defs.{holds}
use edge_sched.Workerpool.Submit.{Reach-conserves}
use edge_sched.Serving.System.{
  Phase, refused, waiting, timed_out, answered, Caller, Service, open_service, accepts, rejects,
  receives, responds, delivers, answers, times_out, closes, Reach, opened, later,
}
use edge_sched.Serving.Known.{Answers, HoldsKnown, PoolKnown}
use edge_sched.Serving.Counts.{at, admitted, filled, Counted}

module _ {Ctx Resp : Type 0} where
  -- The pool's part of a reachable service is a reachable pool.
  pub Reach-pool :
      {queue_size concurrency : ℤ} {s : Service Ctx Resp}
      → Reach Ctx Resp queue_size concurrency s
      → Pool.Reach Ctx Resp queue_size concurrency s.history
  unfolding open_service
  Reach-pool opened = Pool.started_up
  Reach-pool (later r (accepts ctx image p e)) = Pool.later (Reach-pool r) (Pool.accepts _ p e)
  Reach-pool (later r (rejects ctx image p e)) = Pool.later (Reach-pool r) (Pool.rejects _ p e)
  Reach-pool (later r (receives i e)) = Pool.later (Reach-pool r) (Pool.works (Pool.receives i e))
  Reach-pool (later r (responds i q res e)) =
      Pool.later (Reach-pool r) (Pool.works (Pool.responds i q res e))
  Reach-pool (later r (delivers i q res k e f g)) =
      Pool.later (Reach-pool r) (Pool.works (Pool.delivers i q res e))
  Reach-pool (later r (answers c k res e f g)) = Reach-pool r
  Reach-pool (later r (times_out c k e f)) = Reach-pool r
  Reach-pool (later r (closes p e)) = Pool.later (Reach-pool r) (Pool.closes p e)

  abbrev pub BufferTold : Answers Ctx Resp → Request Ctx Resp → Option (Result Ctx Resp) → Type 0
  BufferTold ps r none = Unit
  BufferTold ps r (some res) = In (r, res) ps

  abbrev pub PhaseTold : Answers Ctx Resp → Request Ctx Resp → Phase Ctx Resp → Type 0
  PhaseTold ps r (answered res) = In (r, res) ps
  PhaseTold ps r phase = Unit

  -- What a caller's channel holds, and what it received, is an answer of `Predict` to its request.
  abbrev pub Told : Answers Ctx Resp → ℕ → Caller Ctx Resp → Type 0
  Told ps c k = BufferTold ps k.request k.buffer × PhaseTold ps k.request k.phase

  pub record Valid (s : Service Ctx Resp) : Type 0 where
    pub counted : Counted s
    pub pool_known : PoolKnown s.callers s.predictions s.history.pool
    pub told : Everywhere (Told s.predictions) s.callers

  pub Told-later :
      (ps : Answers Ctx Resp) (a : Request Ctx Resp × Result Ctx Resp) (c : ℕ) (k : Caller Ctx Resp)
      → Told ps c k
      → Told (a ∷ ps) c k
  Told-later ps a c k (b, p) = (buffer_later k.buffer b, phase_later k.phase p)
    where
      buffer_later :
          (o : Option (Result Ctx Resp))
          → BufferTold ps k.request o
          → BufferTold (a ∷ ps) k.request o
      buffer_later none h = tt
      buffer_later (some res) h = there h

      phase_later : (x : Phase Ctx Resp) → PhaseTold ps k.request x → PhaseTold (a ∷ ps) k.request x
      phase_later refused h = tt
      phase_later waiting h = tt
      phase_later timed_out h = tt
      phase_later (answered res) h = there h

  pub admitted-le-one : (k : Caller Ctx Resp) → admitted (some k) ≤ 1
  admitted-le-one k = ground arith

  -- A worker that is about to send: its request is a caller's, which is owed a result.
  pub owed_caller :
      {queue_size concurrency : ℤ} {s : Service Ctx Resp}
      → Reach Ctx Resp queue_size concurrency s
      → Valid s
      → (i : ℕ) (r : Request Ctx Resp) (res : Result Ctx Resp)
      → get_elem? s.history.pool.workers i ≡ some (sending r res)
      → (k : Caller Ctx Resp) × (get_elem? s.callers r.result ≡ some k)
        × (k.request ≡ r)
        × In (r, res) s.predictions
        × (admitted (some k) ≡ 1)
        × (filled (some k) ≡ 0)
  owed_caller {s = s} reach v i r res e =
      let ((k, stands, same), j) : HoldsKnown s.callers s.predictions (sending r res) =
        All-get_elem? _ s.history.pool.workers i (sending r res) v.pool_known.workers_known e in
      let c = r.result in
      let q : Request Ctx Resp → Bool = at c in
      let one : holds q (sending r res) ≡ 1 = rw ((==_iff c c).1 refl) refl in
      let most = weight-le-total (holds q) s.history.pool.workers i (sending r res) e in
      let conserved = (Reach-conserves (Reach-pool reach)).1 q in
      let a = v.counted.accepted_count c ∙ ap admitted stands in
      let d = v.counted.delivered_count c ∙ ap filled stands in
      (
        k,
        stands,
        same,
        j,
        omega (arith, conserved, most, one, a, d, admitted-le-one k),
        omega (arith, conserved, most, one, a, d, admitted-le-one k),
      )

  pub newest :
      (cs : List (Caller Ctx Resp)) (k : Caller Ctx Resp)
      → get_elem? (cs ++ k ∷ []) (length cs) ≡ some k
  newest cs k = get_elem?-snoc cs k (length cs) ∙ rw ((==_iff (length cs) (length cs)).1 refl) refl

  pub buffered :
      (k : Caller Ctx Resp) (res : Result Ctx Resp)
      → admitted (some k) ≡ 1
      → filled (some k) ≡ 0
      → filled (some (record k { buffer = some res })) ≡ filled (some k) + 1
  buffered k res a f = ground arith
