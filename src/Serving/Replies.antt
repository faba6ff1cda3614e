-- ===== src/Serving/Replies.antt =====
-- What a caller can count on.
use edge_sched.Prelude.{
  ℕ, ◌≡◌, refl, sym, ap, subst, ◌∙◌, true, false, [], ◌∷◌, ◌++◌, none, some, some_inj, ◌⊎◌,
  get_elem?, All-get_elem?, In, here, there, arith,
}
use edge_sched.Prelude.Int.{ℤ}
use edge_sched.Prelude.Indexed.{Everywhere-snoc, Everywhere-set}
use edge_sched.Prelude.Totals.{total, total-append}
use edge_sched.Workerpool.Pool.{Request, Result, sending, receive, respond, deliver, running}
use edge_sched.Workerpool.Invariant.Defs.{passes}
use edge_sched.Workerpool.Invariant.Sends.{send-false, submit_cases}
use edge_sched.Serving.System.{
  Phase, refused, waiting, timed_out, answered, Caller, Service, open_service, new_request, Step,
  accepts, rejects, receives, responds, delivers, answers, times_out, closes, Reach, opened, later,
}
use edge_sched.Serving.Known.{
  Answers, PoolKnown, PoolKnown-later, new-PoolKnown, place-PoolKnown, receive-PoolKnown,
  send-PoolKnown, close-PoolKnown, Extends-refl, Extends-snoc, Extends-set,
}
use edge_sched.Serving.Counts.{
  at, admitted, filled, open-Counted, refused-Counted, waiting-Counted, update-Counted,
  pool-Counted, owed_cases,
}
use edge_sched.Serving.Told.{
  BufferTold, PhaseTold, Told, Valid, Told-later, owed_caller, newest, buffered,
}

module _ {Ctx Resp : Type 0} where
  Step-Valid :
      {queue_size concurrency : ℤ} {s t : Service Ctx Resp}
      → Reach Ctx Resp queue_size concurrency s
      → Step Ctx Resp s t
      → Valid s
      → Valid t
  unfolding receive respond deliver
  Step-Valid {s = s} reach (accepts ctx image p e) v =
      let r = new_request Ctx Resp s ctx image in
      let k : Caller Ctx Resp = record { request = r; buffer = none; phase = waiting } in
      let grown =
        PoolKnown-later s.history.pool (Extends-snoc s.callers k) (λ a j. j) v.pool_known in
      record {
        counted = waiting-Counted s r refl _ refl refl v.counted;
        pool_known =
            subst (PoolKnown _ s.predictions) (ap (λ x. x.1) (submit_cases s.history r true p e).1)
              (send-PoolKnown _ _ s.history.pool r _ (k, newest s.callers k, refl) grown);
        told = Everywhere-snoc (Told s.predictions) s.callers k v.told (tt, tt);
      }
  Step-Valid {s = s} reach (rejects ctx image p e) v =
      let r = new_request Ctx Resp s ctx image in
      let k : Caller Ctx Resp = record { request = r; buffer = none; phase = refused } in
      let grown =
        PoolKnown-later s.history.pool (Extends-snoc s.callers k) (λ a j. j) v.pool_known in
      let (_, sent) = submit_cases s.history r false p e in
      let (_, _, same) = send-false s.history.pool p r _ sent in
      record {
        counted = pool-Counted _ _ refl refl (refused-Counted s r refl v.counted);
        pool_known = subst (λ x. PoolKnown (s.callers ++ k ∷ []) s.predictions x) same grown;
        told = Everywhere-snoc (Told s.predictions) s.callers k v.told (tt, tt);
      }
  Step-Valid {s = s} reach (receives i e) v = record {
    counted = pool-Counted s _ refl refl v.counted;
    pool_known =
        receive-PoolKnown s.callers s.predictions s.history.pool i s.history.pool.queue refl
          v.pool_known;
    told = v.told;
  }
  Step-Valid {s = s} reach (responds i r res e) v =
      let known = All-get_elem? _ s.history.pool.workers i _ v.pool_known.workers_known e in
      let ps = (r, res) ∷ s.predictions in
      let grown =
        PoolKnown-later s.history.pool (Extends-refl s.callers) (λ a j. there j) v.pool_known in
      record {
        counted = record {
          accepted_count = v.counted.accepted_count;
          delivered_count = v.counted.delivered_count;
          own_channel = v.counted.own_channel;
        };
        pool_known =
            place-PoolKnown s.callers ps s.history.pool i (sending r res) (known, here refl) grown;
        told = λ c k stands. Told-later s.predictions (r, res) c k (v.told c k stands);
      }
  Step-Valid {s = s} reach (delivers i r res k e f g) v =
      let (k', stands, same, j, adm, fil) = owed_caller reach v i r res e in
      let u : k' ≡ k = some_inj (sym stands ∙ f) in
      let adm' : admitted (some k) ≡ 1 = subst (λ x. admitted (some x) ≡ 1) u adm in
      let fil' : filled (some k) ≡ 0 = subst (λ x. filled (some x) ≡ 0) u fil in
      let l : Caller Ctx Resp = record k { buffer = some res } in
      let req : k.request ≡ r = ap (λ x. x.request) (sym u) ∙ same in
      let grown =
        PoolKnown-later s.history.pool (Extends-set s.callers r.result k l f refl) (λ a h. h)
          v.pool_known in
      record {
        counted =
            update-Counted s _ r.result 1 k l f refl refl (buffered k res adm' fil') refl
              (λ d. total-append (passes (at d)) s.history.delivered (r ∷ []) ∙ ground arith)
              v.counted;
        pool_known = place-PoolKnown _ s.predictions s.history.pool i running tt grown;
        told =
            Everywhere-set (Told s.predictions) s.callers r.result k l f v.told
              (subst (λ x. In (x, res) s.predictions) (sym req) j, (v.told r.result k f).1);
      }
  Step-Valid {s = s} reach (answers c k res e f g) v =
      let l : Caller Ctx Resp = record k { buffer = none; phase = answered res } in
      let sent : BufferTold s.predictions k.request (some res) = rw g at (v.told c k e).0 in
      record {
        counted =
            update-Counted s s.history c 0 k l e refl (ground (arith, f)) (ground (arith, f, g))
              refl (λ d. ground arith) v.counted;
        pool_known =
            PoolKnown-later s.history.pool (Extends-set s.callers c k l e refl) (λ a h. h)
              v.pool_known;
        told = Everywhere-set (Told s.predictions) s.callers c k l e v.told (tt, sent);
      }
  Step-Valid {s = s} reach (times_out c k e f) v =
      let l : Caller Ctx Resp = record k { phase = timed_out } in
      record {
        counted =
            update-Counted s s.history c 0 k l e refl (ground (arith, f)) (ground (arith, f)) refl
              (λ d. ground arith) v.counted;
        pool_known =
            PoolKnown-later s.history.pool (Extends-set s.callers c k l e refl) (λ a h. h)
              v.pool_known;
        told = Everywhere-set (Told s.predictions) s.callers c k l e v.told ((v.told c k e).0, tt);
      }
  Step-Valid {s = s} reach (closes p e) v = record {
    counted = pool-Counted s _ refl refl v.counted;
    pool_known = close-PoolKnown s.callers s.predictions s.history.pool p e v.pool_known;
    told = v.told;
  }

  open-Valid : (queue_size concurrency : ℤ) → Valid (open_service Ctx Resp queue_size concurrency)
  unfolding open_service
  open-Valid queue_size concurrency = record {
    counted = open-Counted queue_size concurrency;
    pool_known = new-PoolKnown [] [] queue_size concurrency;
    told = λ c k e. absurd (cc);
  }

  pub Reach-Valid :
      {queue_size concurrency : ℤ} {s : Service Ctx Resp}
      → Reach Ctx Resp queue_size concurrency s
      → Valid s
  Reach-Valid {queue_size} {concurrency} opened = open-Valid queue_size concurrency
  Reach-Valid (later r st) = Step-Valid r st (Reach-Valid r)

  -- In every reachable state, a worker that is about to send a result finds the channel of its
  -- request's own caller empty, so that the send does not block; that caller is in the `select` or
  -- has returned at the end of its context.
  pub send_ready :
      {queue_size concurrency : ℤ} {s : Service Ctx Resp}
      → Reach Ctx Resp queue_size concurrency s
      → (i : ℕ) (r : Request Ctx Resp) (res : Result Ctx Resp)
      → get_elem? s.history.pool.workers i ≡ some (sending r res)
      → (k : Caller Ctx Resp) × (get_elem? s.callers r.result ≡ some k)
        × (k.request ≡ r)
        × (k.buffer ≡ none)
        × ((k.phase ≡ waiting) ⊎ (k.phase ≡ timed_out))
  send_ready reach i r res e =
      let (k, stands, same, j, adm, fil) = owed_caller reach (Reach-Valid reach) i r res e in
      let (empty, phase) = owed_cases k adm fil in (k, stands, same, empty, phase)

  answered_told :
      (ps : Answers Ctx Resp) (r : Request Ctx Resp) (phase : Phase Ctx Resp)
      (res : Result Ctx Resp)
      → phase ≡ answered res
      → PhaseTold ps r phase
      → In (r, res) ps
  answered_told ps r phase res e h = rw e at h

  -- In every reachable state, what a caller has received is what `Predict` answered to that caller's
  -- own request, which carries the caller's own channel, and the request was accepted and delivered
  -- exactly once.
  pub own_result :
      {queue_size concurrency : ℤ} {s : Service Ctx Resp}
      → Reach Ctx Resp queue_size concurrency s
      → (c : ℕ) (k : Caller Ctx Resp) (res : Result Ctx Resp) → get_elem? s.callers c ≡ some k
      → k.phase ≡ answered res
      → In (k.request, res) s.predictions
        × (k.request.result ≡ c)
        × (total (passes (at c)) s.history.accepted ≡ 1)
        × (total (passes (at c)) s.history.delivered ≡ 1)
  own_result {s = s} reach c k res stands e =
      let v = Reach-Valid reach in
      (
        answered_told s.predictions k.request k.phase res e (v.told c k stands).1,
        v.counted.own_channel c k stands,
        v.counted.accepted_count c ∙ ap admitted stands ∙ ground (arith, e),
        v.counted.delivered_count c ∙ ap filled stands ∙ ground (arith, e),
      )
