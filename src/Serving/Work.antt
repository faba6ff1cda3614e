-- ===== src/Serving/Work.antt =====
-- The work that the workers of a pool have left, and the callers while they do it.
use edge_sched.Prelude.{
  ℕ, suc, ◌+◌, ◌*◌, ◌<◌, ◌≡◌, refl, sym, ap, subst, ◌∙◌, ◌==◌, ==_iff, Bool, Bool-cases, inl, inr,
  List, [], ◌∷◌, Option, some, some_inj, ◌⊎◌, length, get_elem?, set, arith,
}
use edge_sched.Prelude.Indexed.{get_elem?-set}
use edge_sched.Prelude.Totals.{total, total-set}
use edge_sched.Workerpool.Pool.{
  Request, Result, Worker, Pool, running, parked, busy, sending, exited, receive_from,
}
use edge_sched.Workerpool.Invariant.Defs.{holds, is_parked, has_exited}
use edge_sched.Serving.System.{Caller, Service, Step, receives, responds, delivers}
use edge_sched.Serving.Counts.{at}

module _ {Ctx Resp : Type 0} where
  -- The steps that a worker still has to make before it has nothing to do.
  abbrev pub work_left : Worker Ctx Resp → ℕ
  work_left running = 1
  work_left parked = 0
  work_left (busy r) = 3
  work_left (sending r res) = 2
  work_left exited = 0

  abbrev pub to_do : Pool Ctx Resp → ℕ
  to_do p = 3 * length p.queue + total work_left p.workers

  pub receive-to_do :
      (p : Pool Ctx Resp) (i : ℕ) (xs : List (Request Ctx Resp))
      → p.queue ≡ xs
      → get_elem? p.workers i ≡ some running
      → to_do (receive_from Ctx Resp p i xs) < to_do p
  unfolding receive_from
  receive-to_do p i [] e at = elim (Bool-cases p.closed) [
    | inl c ↦ rw c (omega (arith, ap length e, total-set work_left p.workers i running exited at))
    | inr o ↦ rw o (omega (arith, ap length e, total-set work_left p.workers i running parked at))
  ]
  receive-to_do p i (r ∷ rs) e at =
      omega (arith, ap length e, total-set work_left p.workers i running (busy r) at)

  -- Every worker waits or has returned; or one of them can make a step.
  pub resting :
      (ws : List (Worker Ctx Resp))
      → (total is_parked ws + total has_exited ws ≡ length ws)
          × ((q : Request Ctx Resp → Bool) → total (holds q) ws ≡ 0)
        ⊎ ((i : ℕ) × (get_elem? ws i ≡ some running))
        ⊎ ((i : ℕ) × (r : Request Ctx Resp) × (get_elem? ws i ≡ some (busy r)))
        ⊎ ((i : ℕ) × (r : Request Ctx Resp) × (res : Result Ctx Resp) × (get_elem? ws i
              ≡ some (sending r res)))
  resting [] = inl (refl, λ q. refl)
  resting (running ∷ ws) = inr (inl (0, refl))
  resting (busy r ∷ ws) = inr (inr (inl (0, r, refl)))
  resting (sending r res ∷ ws) = inr (inr (inr (0, r, res, refl)))
  resting (parked ∷ ws) = elim (resting ws) [
    | inl (n, h) ↦ inl (omega arith, λ q. omega (arith, h q))
    | inr (inl (i, e)) ↦ inr (inl (suc i, e))
    | inr (inr (inl (i, r, e))) ↦ inr (inr (inl (suc i, r, e)))
    | inr (inr (inr (i, r, res, e))) ↦ inr (inr (inr (suc i, r, res, e)))
  ]
  resting (exited ∷ ws) = elim (resting ws) [
    | inl (n, h) ↦ inl (omega arith, λ q. omega (arith, h q))
    | inr (inl (i, e)) ↦ inr (inl (suc i, e))
    | inr (inr (inl (i, r, e))) ↦ inr (inr (inl (suc i, r, e)))
    | inr (inr (inr (i, r, res, e))) ↦ inr (inr (inr (suc i, r, res, e)))
  ]

  -- A step of a worker.
  abbrev pub IsWork : {s t : Service Ctx Resp} → Step Ctx Resp s t → Type 0
  IsWork (receives i e) = Unit
  IsWork (responds i r res e) = Unit
  IsWork (delivers i r res k e f g) = Unit
  IsWork _ = ⊥

  -- A run of worker steps.
  pub data Works : Service Ctx Resp → Service Ctx Resp → Type 0 where
    done : {s : Service Ctx Resp} → Works s s
    more : {s t u : Service Ctx Resp} (st : Step Ctx Resp s t) → IsWork st → Works t u → Works s u

  -- Every caller is still there, with its request and where it stood.
  abbrev pub Stays : List (Caller Ctx Resp) → List (Caller Ctx Resp) → Type 0
  Stays cs ds =
      (c : ℕ) (k : Caller Ctx Resp)
      → get_elem? cs c ≡ some k
      → (l : Caller Ctx Resp) × (get_elem? ds c ≡ some l)
        × (l.request ≡ k.request)
        × (l.phase ≡ k.phase)

  pub Stays-refl : (cs : List (Caller Ctx Resp)) → Stays cs cs
  Stays-refl cs c k e = (k, e, refl, refl)

  pub Stays-set :
      (cs : List (Caller Ctx Resp)) (i : ℕ) (k : Caller Ctx Resp) (o : Option (Result Ctx Resp))
      → get_elem? cs i ≡ some k
      → Stays cs (set cs i (record k { buffer = o }))
  Stays-set cs i k o stands c m f =
      let l : Caller Ctx Resp = record k { buffer = o } in
      elim (Bool-cases (i == c)) [
        | inl same ↦
            let u : some k ≡ some m =
              sym stands ∙ subst (λ j. get_elem? cs j ≡ some m) (sym ((==_iff _ _).0 same)) f in
            (
              l,
              get_elem?-set cs i k l c stands ∙ rw same refl,
              ap (λ x. x.request) (some_inj u),
              ap (λ x. x.phase) (some_inj u),
            )
        | inr other ↦ (m, get_elem?-set cs i k l c stands ∙ rw other f, refl, refl)
      ]
