-- ===== src/Serving/Known.antt =====
-- The requests in a pool's hands are those of its callers, and what a worker sends or a caller holds
-- is what `Predict` answered.
use edge_sched.Prelude.{
  ℕ, zero, suc, ◌≡◌, refl, sym, ap, subst, ◌∙◌, ◌==◌, ==_iff, if◌then◌else◌, if_returned, Bool,
  true, false, Bool-cases, inl, inr, List, [], ◌∷◌, ◌++◌, Option, none, some, some_inj, length,
  get_elem?, set, map, replicate, All, All-append, In, ltb,
}
use edge_sched.Prelude.Indexed.{All-later, All-set, get_elem?-snoc, get_elem?-set, get_elem?-length}
use edge_sched.Prelude.Int.{ℤ}
use edge_sched.Workerpool.Pool.{
  Request, Result, Worker, running, parked, busy, sending, exited, Pool, new, send, receive_from,
  woken, close,
}
use edge_sched.Serving.System.{Caller}

abbrev pub Answers : Type 0 → Type 0 → Type 0
Answers Ctx Resp = List (Request Ctx Resp × Result Ctx Resp)

none_not_some {ℓ} : {A : Type ℓ} {a : A} → none ≡ some a → ⊥
none_not_some e = cc

module _ {Ctx Resp : Type 0} where
  -- The caller at the request's channel made the request.
  abbrev pub IsKnown : List (Caller Ctx Resp) → Request Ctx Resp → Type 0
  IsKnown cs r = (k : Caller Ctx Resp) × (get_elem? cs r.result ≡ some k) × (k.request ≡ r)

  abbrev pub HoldsKnown : List (Caller Ctx Resp) → Answers Ctx Resp → Worker Ctx Resp → Type 0
  HoldsKnown cs ps (busy r) = IsKnown cs r
  HoldsKnown cs ps (sending r res) = IsKnown cs r × In (r, res) ps
  HoldsKnown cs ps _ = Unit

  pub record PoolKnown (cs : List (Caller Ctx Resp)) (ps : Answers Ctx Resp) (p : Pool Ctx Resp)
      : Type 0 where
    pub queue_known : All (IsKnown cs) p.queue
    pub workers_known : All (HoldsKnown cs ps) p.workers

  -- Later callers: each earlier one is still there, with its request.
  abbrev pub Extends : List (Caller Ctx Resp) → List (Caller Ctx Resp) → Type 0
  Extends cs ds =
      (c : ℕ) (k : Caller Ctx Resp)
      → get_elem? cs c ≡ some k
      → (l : Caller Ctx Resp) × (get_elem? ds c ≡ some l) × (l.request ≡ k.request)

  IsKnown-later :
      (cs ds : List (Caller Ctx Resp)) (r : Request Ctx Resp)
      → Extends cs ds
      → IsKnown cs r
      → IsKnown ds r
  IsKnown-later cs ds r ext (k, at, e) = let (l, at', f) = ext r.result k at in (l, at', f ∙ e)

  HoldsKnown-later :
      (cs ds : List (Caller Ctx Resp)) (ps qs : Answers Ctx Resp) (w : Worker Ctx Resp)
      → Extends cs ds
      → ((a : Request Ctx Resp × Result Ctx Resp) → In a ps → In a qs)
      → HoldsKnown cs ps w
      → HoldsKnown ds qs w
  HoldsKnown-later cs ds ps qs running ext more h = tt
  HoldsKnown-later cs ds ps qs parked ext more h = tt
  HoldsKnown-later cs ds ps qs exited ext more h = tt
  HoldsKnown-later cs ds ps qs (busy r) ext more h = IsKnown-later cs ds r ext h
  HoldsKnown-later cs ds ps qs (sending r res) ext more (h, j) =
      (IsKnown-later cs ds r ext h, more (r, res) j)

  pub PoolKnown-later :
      {cs ds : List (Caller Ctx Resp)} {ps qs : Answers Ctx Resp} (p : Pool Ctx Resp)
      → Extends cs ds
      → ((a : Request Ctx Resp × Result Ctx Resp) → In a ps → In a qs)
      → PoolKnown cs ps p
      → PoolKnown ds qs p
  PoolKnown-later {cs} {ds} {ps} {qs} p ext more v = record {
    queue_known = All-later (λ r. IsKnown-later cs ds r ext) p.queue v.queue_known;
    workers_known =
        All-later (λ w. HoldsKnown-later cs ds ps qs w ext more) p.workers v.workers_known;
  }

  module _ (cs : List (Caller Ctx Resp)) (ps : Answers Ctx Resp) where
    pub new-PoolKnown :
        (queue_size concurrency : ℤ) → PoolKnown cs ps (new Ctx Resp queue_size concurrency)
    unfolding new
    new-PoolKnown queue_size concurrency = record {
      queue_known = tt;
      workers_known = all_running _;
    }
      where
        all_running : (n : ℕ) → All (HoldsKnown cs ps) (replicate n running)
        all_running zero = tt
        all_running (suc n) = (tt, all_running n)

    -- A worker is set to a state whose request is known.
    pub place-PoolKnown :
        (p : Pool Ctx Resp) (i : ℕ) (w : Worker Ctx Resp)
        → HoldsKnown cs ps w
        → PoolKnown cs ps p
        → PoolKnown cs ps (record p { workers = set p.workers i w })
    place-PoolKnown p i w h v = record {
      queue_known = v.queue_known;
      workers_known = All-set (HoldsKnown cs ps) p.workers i w v.workers_known h;
    }

    pub receive-PoolKnown :
        (p : Pool Ctx Resp) (i : ℕ) (xs : List (Request Ctx Resp))
        → p.queue ≡ xs
        → PoolKnown cs ps p
        → PoolKnown cs ps (receive_from Ctx Resp p i xs)
    unfolding receive_from
    receive-PoolKnown p i [] e v =
        place-PoolKnown p i (if p.closed then exited else parked) (at_rest p.closed) v
      where
        at_rest : (b : Bool) → HoldsKnown cs ps (if b then exited else parked)
        at_rest true = tt
        at_rest false = tt
    receive-PoolKnown p i (r ∷ rs) e v =
        let (h, hs) : All (IsKnown cs) (r ∷ rs) = rw e at v.queue_known in
        record {
          queue_known = hs;
          workers_known = All-set (HoldsKnown cs ps) p.workers i (busy r) v.workers_known h;
        }

    pub send-PoolKnown :
        (p : Pool Ctx Resp) (r : Request Ctx Resp) (o : Option ℕ)
        → IsKnown cs r
        → PoolKnown cs ps p
        → PoolKnown cs ps (send Ctx Resp p r o).1
    unfolding send
    send-PoolKnown p r (some i) h v = place-PoolKnown p i (busy r) h v
    send-PoolKnown p r none h v = elim (Bool-cases (ltb (length p.queue) p.cap)) [
      | inl room ↦ rw room (record {
        queue_known = All-append (IsKnown cs) p.queue (r ∷ []) v.queue_known (h, tt);
        workers_known = v.workers_known;
      })
      | inr full ↦ rw full v
    ]

    woken-HoldsKnown :
        (ws : List (Worker Ctx Resp))
        → All (HoldsKnown cs ps) ws
        → All (HoldsKnown cs ps) (map (woken Ctx Resp) ws)
    woken-HoldsKnown [] h = tt
    woken-HoldsKnown (running ∷ ws) (h, hs) = (tt, woken-HoldsKnown ws hs)
    woken-HoldsKnown (parked ∷ ws) (h, hs) = (tt, woken-HoldsKnown ws hs)
    woken-HoldsKnown (exited ∷ ws) (h, hs) = (tt, woken-HoldsKnown ws hs)
    woken-HoldsKnown (busy r ∷ ws) (h, hs) = (h, woken-HoldsKnown ws hs)
    woken-HoldsKnown (sending r res ∷ ws) (h, hs) = (h, woken-HoldsKnown ws hs)

    pub close-PoolKnown :
        (p q : Pool Ctx Resp) → close Ctx Resp p ≡ some q → PoolKnown cs ps p → PoolKnown cs ps q
    unfolding close
    close-PoolKnown p q e v =
        subst (λ x. PoolKnown cs ps x) (if_returned p.closed e).1
          (record {
            queue_known = v.queue_known;
            workers_known = woken-HoldsKnown p.workers v.workers_known;
          })

  pub Extends-refl : (cs : List (Caller Ctx Resp)) → Extends cs cs
  Extends-refl cs c k e = (k, e, refl)

  pub Extends-snoc : (cs : List (Caller Ctx Resp)) (l : Caller Ctx Resp) → Extends cs (cs ++ l ∷ [])
  Extends-snoc cs l c k e = elim (Bool-cases (length cs == c)) [
    | inl new ↦
        let f : get_elem? cs (length cs) ≡ some k =
          subst (λ i. get_elem? cs i ≡ some k) (sym ((==_iff _ _).0 new)) e in
        absurd (none_not_some (sym (get_elem?-length cs) ∙ f))
    | inr old ↦ (k, get_elem?-snoc cs l c ∙ rw old e, refl)
  ]

  pub Extends-set :
      (cs : List (Caller Ctx Resp)) (i : ℕ) (k l : Caller Ctx Resp)
      → get_elem? cs i ≡ some k
      → l.request ≡ k.request
      → Extends cs (set cs i l)
  Extends-set cs i k l stands same c m e = elim (Bool-cases (i == c)) [
    | inl new ↦
        let f : some k ≡ some m =
          sym stands ∙ subst (λ j. get_elem? cs j ≡ some m) (sym ((==_iff _ _).0 new)) e in
        (l, get_elem?-set cs i k l c stands ∙ rw new refl, same ∙ ap (λ x. x.request) (some_inj f))
    | inr old ↦ (m, get_elem?-set cs i k l c stands ∙ rw old e, refl)
  ]
