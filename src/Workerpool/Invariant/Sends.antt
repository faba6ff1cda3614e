-- ===== src/Workerpool/Invariant/Sends.antt =====
-- Submissions keep the invariant.
use edge_sched.Prelude.{
  ℕ, zero, suc, ◌≤◌, ◌<◌, ◌≡◌, refl, sym, ap, subst, true_not_false, if_returned, ltb→lt, inl, inr,
  ltb, Bool, true, false, Bool-cases, List, [], ◌∷◌, ◌++◌, Option, none, some, length,
  length-append, get_elem?, append-nil, append_assoc, arith,
}
use edge_sched.Prelude.Totals.{total, total-set, total-append, weight-le-total}
use edge_sched.Workerpool.Pool.{
  Request, Worker, parked, busy, Pool, find_parked, send, submit, next_index,
}
use edge_sched.Workerpool.Trace.{History, handed}
use edge_sched.Workerpool.Invariant.Defs.{is_parked, has_exited, holds, passes, Inv}

next_index-some :
    (o : Option ℕ) (i : ℕ) → next_index o ≡ some i → (j : ℕ) × (o ≡ some j) × (i ≡ suc j)
next_index-some none i e = absurd (cc)
next_index-some (some j) i e = (j, refl, ground arith)

next_index-none : (o : Option ℕ) → next_index o ≡ none → o ≡ none
next_index-none none e = refl
next_index-none (some i) e = absurd (cc)

module _ {Ctx Resp : Type 0} where
  pub find_parked-some :
      (ws : List (Worker Ctx Resp)) (i : ℕ)
      → find_parked Ctx Resp ws ≡ some i
      → get_elem? ws i ≡ some parked
  unfolding find_parked
  find_parked-some [] i e = absurd (cc)
  find_parked-some (parked ∷ ws) zero e = refl
  find_parked-some (parked ∷ ws) (suc i) e = absurd (cc)
  find_parked-some (w ∷ ws) i e =
      let (j, f, g) = next_index-some (find_parked Ctx Resp ws) i e in
      subst (λ k. get_elem? (w ∷ ws) k ≡ some parked) (sym g) (find_parked-some ws j f)

  handed_fifo :
      (acc started queue : List (Request Ctx Resp)) (r : Request Ctx Resp)
      → acc ≡ started ++ queue
      → queue ≡ []
      → acc ++ r ∷ [] ≡ (started ++ r ∷ []) ++ queue
  handed_fifo acc started queue r e f = rw (e, f) (simp append-nil)

  queued_fifo :
      (acc started queue : List (Request Ctx Resp)) (r : Request Ctx Resp)
      → acc ≡ started ++ queue
      → acc ++ r ∷ [] ≡ (started ++ []) ++ (queue ++ r ∷ [])
  queued_fifo acc started queue r e = rw (e, append-nil) (append_assoc started queue (r ∷ []))

  pub find_parked-none :
      (ws : List (Worker Ctx Resp)) → find_parked Ctx Resp ws ≡ none → total is_parked ws ≡ 0
  unfolding find_parked
  find_parked-none [] e = refl
  find_parked-none (parked ∷ ws) e = absurd (cc)
  find_parked-none (w ∷ ws) e =
      omega (arith, find_parked-none ws (next_index-none (find_parked Ctx Resp ws) e))

  pub send-Inv :
      (h : History Ctx Resp) (r : Request Ctx Resp) (o : Option ℕ) (p : Pool Ctx Resp)
      → find_parked Ctx Resp h.pool.workers ≡ o
      → h.pool.closed ≡ false
      → send Ctx Resp h.pool r o ≡ (true, p)
      → Inv h
      → Inv (record h {
        pool = p;
        accepted = h.accepted ++ r ∷ [];
        started = h.started ++ handed Ctx Resp o r;
      })
  unfolding send
  send-Inv h r (some i) p f c e v =
      let at = find_parked-some h.pool.workers i f in
      let some_parked : 0 < total is_parked h.pool.workers =
        omega (arith, weight-le-total is_parked h.pool.workers i parked at) in
      let (empty, open_) = v.idle some_parked in
      subst
        (λ x.
          Inv
            (record h { pool = x; accepted = h.accepted ++ r ∷ []; started = h.started ++ r ∷ [] }))
        (ap (λ t. t.1) e)
        (record {
          fits = v.fits;
          idle = λ k. (empty, open_);
          gone = λ k.
              v.gone (omega (arith, k, total-set has_exited h.pool.workers i parked (busy r) at));
          fifo = handed_fifo h.accepted h.started h.pool.queue r v.fifo empty;
          kept = λ q. omega (
            arith,
            v.kept q,
            total-append (passes q) h.started (r ∷ []),
            total-set (holds q) h.pool.workers i parked (busy r) at,
          );
        })
  send-Inv h r none p f c e v = elim (Bool-cases (ltb (length h.pool.queue) h.pool.cap)) [
    | inl room ↦
        let e' = rw room at e in
        subst
          (λ x.
            Inv (record h { pool = x; accepted = h.accepted ++ r ∷ []; started = h.started ++ [] }))
          (ap (λ t. t.1) e')
          (record {
            fits = omega (arith, ltb→lt _ _ room, length-append h.pool.queue (r ∷ []));
            idle = λ k. absurd (omega (arith, k, find_parked-none h.pool.workers f));
            gone = λ k. absurd (true_not_false (v.gone k).1 c);
            fifo = queued_fifo h.accepted h.started h.pool.queue r v.fifo;
            kept = λ q. rw append-nil (v.kept q);
          })
    | inr full ↦ let e' = rw full at e in absurd (true_not_false refl (sym (ap (λ t. t.0) e')))
  ]

  pub submit_cases :
      (h : History Ctx Resp) (r : Request Ctx Resp) (b : Bool) (p : Pool Ctx Resp)
      → submit Ctx Resp h.pool r ≡ some (b, p)
      → (h.pool.closed ≡ false)
        × (send Ctx Resp h.pool r (find_parked Ctx Resp h.pool.workers) ≡ (b, p))
  unfolding submit
  submit_cases h r b p e = if_returned h.pool.closed e

  -- A refused submission leaves the pool as it was.
  pub send-false :
      (p q : Pool Ctx Resp) (r : Request Ctx Resp) (o : Option ℕ)
      → send Ctx Resp p r o ≡ (false, q)
      → (o ≡ none) × (p.cap ≤ length p.queue) × (p ≡ q)
  unfolding send
  send-false p q r (some i) e = absurd (true_not_false refl (ap (λ t. t.0) e))
  send-false p q r none e = elim (Bool-cases (ltb (length p.queue) p.cap)) [
    | inl room ↦ absurd (true_not_false refl (ap (λ t. t.0) (rw room at e)))
    | inr full ↦ (refl, ground arith, ap (λ t. t.1) (rw full at e))
  ]
