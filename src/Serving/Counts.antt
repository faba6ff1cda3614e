-- ===== src/Serving/Counts.antt =====
-- How often a channel occurs among the accepted and the delivered requests of a pool.
use edge_sched.Prelude.{
  ℕ, ◌+◌, ◌≡◌, refl, ap, ◌∙◌, ◌==◌, if◌then◌else◌, Bool, [], ◌∷◌, ◌++◌, Option, none, some, ◌⊎◌,
  length, get_elem?, set, arith,
}
use edge_sched.Prelude.Int.{ℤ}
use edge_sched.Prelude.Indexed.{weight-snoc, weight-set, Everywhere-snoc, Everywhere-set}
use edge_sched.Prelude.Totals.{total, total-append}
use edge_sched.Workerpool.Pool.{Request, Result}
use edge_sched.Workerpool.Trace.{History}
use edge_sched.Workerpool.Invariant.Defs.{passes}
use edge_sched.Serving.System.{
  Phase, refused, waiting, timed_out, answered, Caller, Service, open_service, joins,
}

module _ {Ctx Resp : Type 0} where
  -- The requests with the channel `c`.
  abbrev pub at : ℕ → Request Ctx Resp → Bool
  at c r = r.result == c

  -- 1 for a caller that was accepted.
  abbrev pub admitted : Option (Caller Ctx Resp) → ℕ
  admitted none = 0
  admitted (some k) = elim k.phase [ refused ↦ 0 | waiting ↦ 1 | timed_out ↦ 1 | answered res ↦ 1 ]

  abbrev pub held : Option (Result Ctx Resp) → ℕ
  held none = 0
  held (some res) = 1

  -- 1 for a caller that a result was sent to.
  abbrev pub filled : Option (Caller Ctx Resp) → ℕ
  filled none = 0
  filled (some k) = elim k.phase [
    | refused ↦ 0
    | waiting ↦ held k.buffer
    | timed_out ↦ held k.buffer
    | answered res ↦ 1
  ]

  -- Each channel was accepted, and sent to, as often as its caller says; each caller stands at its
  -- own channel.
  pub record Counted (s : Service Ctx Resp) : Type 0 where
    pub accepted_count :
        (c : ℕ) → total (passes (at c)) s.history.accepted ≡ admitted (get_elem? s.callers c)
    pub delivered_count :
        (c : ℕ) → total (passes (at c)) s.history.delivered ≡ filled (get_elem? s.callers c)
    pub own_channel :
        (c : ℕ) (k : Caller Ctx Resp) → get_elem? s.callers c ≡ some k → k.request.result ≡ c

  pub open-Counted :
      (queue_size concurrency : ℤ) → Counted (open_service Ctx Resp queue_size concurrency)
  unfolding open_service
  open-Counted queue_size concurrency = record {
    accepted_count = λ c. refl;
    delivered_count = λ c. refl;
    own_channel = λ c k e. absurd (cc);
  }

  -- A caller joins, with its channel.
  module _ (s : Service Ctx Resp) (r : Request Ctx Resp) (own : r.result ≡ length s.callers) where
    abbrev newcomer : Phase Ctx Resp → Caller Ctx Resp
    newcomer phase = record { request = r; buffer = none; phase = phase }

    pub refused-Counted : Counted s → Counted (record s { callers = joins Ctx Resp s r refused })
    refused-Counted v = record {
      accepted_count = λ c.
          ground
            (arith, v.accepted_count c, weight-snoc admitted refl s.callers (newcomer refused) c);
      delivered_count = λ c.
          ground
            (arith, v.delivered_count c, weight-snoc filled refl s.callers (newcomer refused) c);
      own_channel =
          Everywhere-snoc (λ c k. k.request.result ≡ c) s.callers (newcomer refused) v.own_channel
            own;
    }

    pub waiting-Counted :
        (h : History Ctx Resp)
        → h.accepted ≡ s.history.accepted ++ r ∷ []
        → h.delivered ≡ s.history.delivered
        → Counted s
        → Counted (record s { history = h; callers = joins Ctx Resp s r waiting })
    waiting-Counted h e f v = record {
      accepted_count = λ c.
          rw (e, total-append (passes (at c)) s.history.accepted (r ∷ []))
            (ground (
              arith,
              v.accepted_count c,
              weight-snoc admitted refl s.callers (newcomer waiting) c,
              own,
            ));
      delivered_count = λ c. ground (
        arith,
        ap (total (passes (at c))) f,
        v.delivered_count c,
        weight-snoc filled refl s.callers (newcomer waiting) c,
      );
      own_channel =
          Everywhere-snoc (λ c k. k.request.result ≡ c) s.callers (newcomer waiting) v.own_channel
            own;
    }

  -- The caller at `c` is replaced, and `n` more requests have been delivered to its channel.
  pub update-Counted :
      (s : Service Ctx Resp) (h : History Ctx Resp) (c n : ℕ) (k l : Caller Ctx Resp)
      → get_elem? s.callers c ≡ some k
      → l.request ≡ k.request
      → admitted (some l) ≡ admitted (some k)
      → filled (some l) ≡ filled (some k) + n
      → h.accepted ≡ s.history.accepted
      → ((d : ℕ)
          → total (passes (at d)) h.delivered
            ≡ total (passes (at d)) s.history.delivered + (if c == d then n else 0))
      → Counted s
      → Counted (record s { history = h; callers = set s.callers c l })
  update-Counted s h c n k l stands same a f e g v = record {
    accepted_count = λ d. ground (
      arith,
      ap (total (passes (at d))) e,
      v.accepted_count d,
      weight-set admitted refl s.callers c k l d stands,
      a,
    );
    delivered_count = λ d.
        ground
          (arith, g d, v.delivered_count d, weight-set filled refl s.callers c k l d stands, f);
    own_channel =
        Everywhere-set (λ d x. x.request.result ≡ d) s.callers c k l stands v.own_channel
          (ap (λ x. x.result) same ∙ v.own_channel c k stands);
  }

  -- The pool makes a step that neither accepts nor delivers.
  pub pool-Counted :
      (s : Service Ctx Resp) (h : History Ctx Resp)
      → h.accepted ≡ s.history.accepted
      → h.delivered ≡ s.history.delivered
      → Counted s
      → Counted (record s { history = h })
  pool-Counted s h e f v = record {
    accepted_count = λ c. ap (total (passes (at c))) e ∙ v.accepted_count c;
    delivered_count = λ c. ap (total (passes (at c))) f ∙ v.delivered_count c;
    own_channel = v.own_channel;
  }

  -- Who was accepted and was sent nothing yet is in the `select`, or has left it at the end of the
  -- context, and the channel is empty.
  pub owed_cases :
      (k : Caller Ctx Resp)
      → admitted (some k) ≡ 1
      → filled (some k) ≡ 0
      → (k.buffer ≡ none) × ((k.phase ≡ waiting) ⊎ (k.phase ≡ timed_out))
  owed_cases k a f = ground arith
