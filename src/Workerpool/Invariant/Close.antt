-- ===== src/Workerpool/Invariant/Close.antt =====
-- Closing the pool keeps the invariant.
use edge_sched.Prelude.{
  ℕ, ◌+◌, ◌<◌, ◌≡◌, refl, subst, true_not_false, if_returned, Bool, false, List, [], ◌∷◌, some, map,
  arith,
}
use native.Mathlib.Decide.{dec_lt}
use edge_sched.Prelude.Totals.{total}
use edge_sched.Workerpool.Pool.{Request, Worker, parked, Pool, woken, close}
use edge_sched.Workerpool.Trace.{History}
use edge_sched.Workerpool.Invariant.Defs.{is_parked, has_exited, holds, Inv}

module _ {Ctx Resp : Type 0} where
  total-woken :
      (w : Worker Ctx Resp → ℕ) (ws : List (Worker Ctx Resp))
      → ((x : Worker Ctx Resp) → w (woken Ctx Resp x) ≡ w x)
      → total w (map (woken Ctx Resp) ws) ≡ total w ws
  total-woken w [] h = refl
  total-woken w (x ∷ ws) h = omega (arith, h x, total-woken w ws h)

  parked-woken : (ws : List (Worker Ctx Resp)) → total is_parked (map (woken Ctx Resp) ws) ≡ 0
  parked-woken [] = refl
  parked-woken (parked ∷ ws) = omega (arith, parked-woken ws)
  parked-woken (w ∷ ws) = omega (arith, parked-woken ws)

  exited-woken :
      (ws : List (Worker Ctx Resp))
      → total has_exited (map (woken Ctx Resp) ws) ≡ total has_exited ws + total is_parked ws
  exited-woken [] = refl
  exited-woken (parked ∷ ws) = omega (arith, exited-woken ws)
  exited-woken (w ∷ ws) = omega (arith, exited-woken ws)

  holds-woken :
      (q : Request Ctx Resp → Bool) (x : Worker Ctx Resp) → holds q (woken Ctx Resp x) ≡ holds q x
  holds-woken q parked = refl
  holds-woken q x = refl

  -- A worker of an open pool that returns when the pool is closed was parked, on an empty queue.
  close_empty :
      (h : History Ctx Resp)
      → Inv h
      → h.pool.closed ≡ false
      → 0 < total has_exited h.pool.workers + total is_parked h.pool.workers
      → h.pool.queue ≡ []
  close_empty h v c k = elim (dec_lt 0 (total is_parked h.pool.workers)) [
    | yes some_parked ↦ (v.idle some_parked).0
    | no nobody ↦ absurd (true_not_false (v.gone (omega arith)).1 c)
  ]

  pub close-Inv :
      (h : History Ctx Resp) (p : Pool Ctx Resp)
      → close Ctx Resp h.pool ≡ some p
      → Inv h
      → Inv (record h { pool = p })
  unfolding close
  close-Inv h p e v =
      let (c, same) = if_returned h.pool.closed e in
      let ws = h.pool.workers in
      subst (λ x. Inv (record h { pool = x })) same
        (record {
          fits = v.fits;
          idle = λ k. absurd (omega (arith, k, parked-woken ws));
          gone = λ k. (close_empty h v c (omega (arith, k, exited-woken ws)), refl);
          fifo = v.fifo;
          kept = λ q. omega (arith, v.kept q, total-woken (holds q) ws (holds-woken q));
        })
