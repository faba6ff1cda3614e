-- ===== src/Workerpool/Invariant/Works.antt =====
-- A worker's steps keep the invariant.
use edge_sched.Prelude.{
  ℕ, ◌<◌, ◌≡◌, sym, ap, true_not_false, ◌∙◌, inl, inr, Bool-cases, List, [], ◌∷◌, ◌++◌, some,
  length, get_elem?, set, append-nil, append_assoc, arith,
}
use edge_sched.Prelude.Totals.{total, total-set, total-append}
use edge_sched.Workerpool.Pool.{
  Request, Result, running, parked, busy, sending, exited, receive_from, respond, deliver,
}
use edge_sched.Workerpool.Trace.{History, taken}
use edge_sched.Workerpool.Invariant.Defs.{is_parked, has_exited, holds, passes, Inv, nil_not_cons}

module _ {Ctx Resp : Type 0} where
  pub receive-Inv :
      (h : History Ctx Resp) (xs : List (Request Ctx Resp)) (i : ℕ)
      → h.pool.queue ≡ xs
      → get_elem? h.pool.workers i ≡ some running
      → Inv h
      → Inv (record h {
        pool = receive_from Ctx Resp h.pool i xs;
        started = h.started ++ taken Ctx Resp xs;
      })
  unfolding receive_from
  receive-Inv h [] i e at v = record {
    fits = v.fits;
    idle = λ k. elim (Bool-cases h.pool.closed) [
      | inl c ↦
          let k' : 0 < total is_parked (set h.pool.workers i exited) = rw c at k in
          absurd (
            true_not_false c
              (v.idle (omega (arith, total-set is_parked h.pool.workers i running exited at))).1)
      | inr c ↦ (e, c)
    ];
    gone = λ k. elim (Bool-cases h.pool.closed) [
      | inl c ↦ (e, c)
      | inr c ↦
          let k' : 0 < total has_exited (set h.pool.workers i parked) = rw c at k in
          v.gone (omega (arith, total-set has_exited h.pool.workers i running parked at))
    ];
    fifo = v.fifo ∙ ap (λ s. s ++ h.pool.queue) (sym (append-nil h.started));
    kept = λ q. elim (Bool-cases h.pool.closed) [
      | inl c ↦
          rw (c, append-nil)
            (omega (arith, v.kept q, total-set (holds q) h.pool.workers i running exited at))
      | inr c ↦
          rw (c, append-nil)
            (omega (arith, v.kept q, total-set (holds q) h.pool.workers i running parked at))
    ];
  }
  receive-Inv h (r ∷ rs) i e at v = record {
    fits = omega (arith, ap length e, v.fits);
    idle = λ k. absurd (
        nil_not_cons (
          sym
            (v.idle (omega (arith, k, total-set is_parked h.pool.workers i running (busy r) at))).0
          ∙ e));
    gone = λ k. absurd (
        nil_not_cons (
          sym
            (v.gone (omega (arith, k, total-set has_exited h.pool.workers i running (busy r) at))).0
          ∙ e));
    fifo = v.fifo ∙ ap (λ s. h.started ++ s) e ∙ sym (append_assoc h.started (r ∷ []) rs);
    kept = λ q. omega (
      arith,
      v.kept q,
      total-append (passes q) h.started (r ∷ []),
      total-set (holds q) h.pool.workers i running (busy r) at,
    );
  }

  pub respond-Inv :
      (h : History Ctx Resp) (i : ℕ) (r : Request Ctx Resp) (s : Result Ctx Resp)
      → get_elem? h.pool.workers i ≡ some (busy r)
      → Inv h
      → Inv (record h { pool = respond Ctx Resp h.pool i r s })
  unfolding respond
  respond-Inv h i r s at v = record {
    fits = v.fits;
    idle = λ k.
        v.idle (omega (arith, k, total-set is_parked h.pool.workers i (busy r) (sending r s) at));
    gone = λ k.
        v.gone (omega (arith, k, total-set has_exited h.pool.workers i (busy r) (sending r s) at));
    fifo = v.fifo;
    kept = λ q.
        omega (arith, v.kept q, total-set (holds q) h.pool.workers i (busy r) (sending r s) at);
  }

  pub deliver-Inv :
      (h : History Ctx Resp) (i : ℕ) (r : Request Ctx Resp) (s : Result Ctx Resp)
      → get_elem? h.pool.workers i ≡ some (sending r s)
      → Inv h
      → Inv (record h { pool = deliver Ctx Resp h.pool i; delivered = h.delivered ++ r ∷ [] })
  unfolding deliver
  deliver-Inv h i r s at v = record {
    fits = v.fits;
    idle = λ k.
        v.idle (omega (arith, k, total-set is_parked h.pool.workers i (sending r s) running at));
    gone = λ k.
        v.gone (omega (arith, k, total-set has_exited h.pool.workers i (sending r s) running at));
    fifo = v.fifo;
    kept = λ q. omega (
      arith,
      v.kept q,
      total-append (passes q) h.delivered (r ∷ []),
      total-set (holds q) h.pool.workers i (sending r s) running at,
    );
  }
