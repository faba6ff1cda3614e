-- ===== src/Routing/Thermal.antt =====
-- What the policies promise: who is selected, when they fail, and when the temperature decides.
use edge_sched.Prelude.{
  ◌≤◌, ◌≡◌, ◌↔◌, refl, sym, ap, ◌∙◌, ◌⊎◌, inl, inr, true, false, Bool-cases, List, [], ◌∷◌, All, In,
  here, there, In-All, Result, ok, err, subst,
}
use edge_sched.Prelude.Bytes.{Bytes}
use edge_sched.Prelude.Floats.{Floats}
use edge_sched.Sysmonitor.State.{State}
use edge_sched.Routing.Pick.{
  EngineState, RoutingError, no_healthy_engines, TieBreaker, uint64_add, filter_healthy,
}
use edge_sched.Routing.Policy.{
  Request, filter_to_cheap_tier, or_healthy, ThermalAware, least_queue, thermal_aware, Policy,
  is_hot, candidates, select_engine,
}
use edge_sched.Routing.Sound.{IsLeastLoaded}
use edge_sched.Routing.Candidates.{
  filter_healthy-eq-nil, filter_healthy-In, In-filter_healthy, or_healthy_of_In, cheap_names,
  cheap-In, In-cheap, candidates-In, select_engine_lem,
}

-- A healthy engine, or the fact that there is none.
pub healthy_cases :
    (es : List EngineState)
    → All (λ e. e.healthy ≡ false) es ⊎ ((x : EngineState) × In x es × (x.healthy ≡ true))
healthy_cases [] = inl tt
healthy_cases (e ∷ es) = elim (Bool-cases e.healthy) [
  | inl up ↦ inr (e, here refl, up)
  | inr down ↦ elim (healthy_cases es) [
    | inl h ↦ inl (down, h)
    | inr (x, j, up) ↦ inr (x, there j, up)
  ]
]

module _ (fl : Floats) where
  select_engine-none :
      (p : Policy fl) (req : Request) (sys : State fl) (es : List EngineState)
      → All (λ e. e.healthy ≡ false) es
      → select_engine fl p req sys es ≡ (err no_healthy_engines, p)
  unfolding select_engine
  select_engine-none p req sys es h = rw (filter_healthy-eq-nil es h)

  -- A policy fails exactly when no engine is healthy. Then its state is as before, and the error is
  -- `no_healthy_engines`; it never panics.
  pub select_engine-err_iff :
      (p : Policy fl) (req : Request) (sys : State fl) (es : List EngineState)
      → (All (λ e. e.healthy ≡ false) es
          ↔ (select_engine fl p req sys es ≡ (err no_healthy_engines, p)))
        × (All (λ e. e.healthy ≡ false) es
            ⊎ ((name : Bytes) × ((select_engine fl p req sys es).0 ≡ ok name)))
  select_engine-err_iff p req sys es = elim (healthy_cases es) [
    | inl h ↦ ((λ _. select_engine-none p req sys es h, λ _. h), inl h)
    | inr (x, j, up) ↦
        let (e, q, _) = select_engine_lem fl p req sys es j up in
        (
          (
            λ h. select_engine-none p req sys es h,
            λ r. absurd (err_not_ok (ap (λ t. t.0) (sym r ∙ q))),
          ),
          inr (e.name, ap (λ t. t.0) q),
        )
  ]
    where
      err_not_ok :
          {a : Bytes} → ◌≡◌ {A = Result RoutingError Bytes} (err no_healthy_engines) (ok a) → ⊥
      err_not_ok h = cc

  -- If some engine is healthy, either policy selects one of the given engines that is healthy, and
  -- moves its tie breaker on by one.
  pub select_engine-healthy :
      (p : Policy fl) (req : Request) (sys : State fl) (es : List EngineState) (x : EngineState)
      → In x es
      → x.healthy ≡ true
      → (e : EngineState) × (select_engine fl p req sys es
          ≡ (ok e.name, record p { tb = record { counter = uint64_add p.tb.counter 1 } }))
        × In e es
        × (e.healthy ≡ true)
  select_engine-healthy p req sys es x j up =
      let (e, q, (k, _)) = select_engine_lem fl p req sys es j up in
      let (l, h) = filter_healthy-In es (candidates-In fl p.kind sys (filter_healthy es) k) in
      (e, q, l, h)

  -- The least-queue policy selects a healthy engine such that no healthy engine has a shorter queue.
  pub least_queue-select_engine :
      (tb : TieBreaker) (req : Request) (sys : State fl) (es : List EngineState) (x : EngineState)
      → In x es
      → x.healthy ≡ true
      → (e : EngineState) × ((select_engine fl
            (record { kind = least_queue; tb = tb })
            req
            sys
            es).0
          ≡ ok e.name)
        × In e es
        × (e.healthy ≡ true)
        × ((c : EngineState) → In c es → c.healthy ≡ true → e.queue_depth ≤ c.queue_depth)
  unfolding candidates
  least_queue-select_engine tb req sys es x j up =
      let (e, q, (k, best)) =
        select_engine_lem fl (record { kind = least_queue; tb = tb }) req sys es j up in
      let (l, h) = filter_healthy-In es k in
      (
        e,
        ap (λ t. t.0) q,
        l,
        h,
        λ c i u.
            In-All (λ y. e.queue_depth ≤ y.queue_depth) (filter_healthy es) best
              (In-filter_healthy es i u),
      )

  -- When the snapshot is valid, its temperature is at the threshold or above, and a healthy engine is in the cheap tier, the thermal-aware policy
  -- selects a healthy engine of the cheap tier such that no healthy engine of the cheap tier has a
  -- shorter queue.
  pub thermal_aware-hot :
      (t : ThermalAware fl) (tb : TieBreaker) (req : Request) (sys : State fl)
      (es : List EngineState) (x : EngineState)
      → sys.valid ≡ true
      → fl.le t.temp_threshold_c sys.max_temp_c ≡ true
      → In x es
      → x.healthy ≡ true
      → In x.name (cheap_names t)
      → (e : EngineState) × ((select_engine fl
            (record { kind = thermal_aware t; tb = tb })
            req
            sys
            es).0
          ≡ ok e.name)
        × In e es
        × (e.healthy ≡ true)
        × In e.name (cheap_names t)
        × ((c : EngineState)
            → In c es
            → c.healthy ≡ true
            → In c.name (cheap_names t)
            → e.queue_depth ≤ c.queue_depth)
  unfolding candidates is_hot
  thermal_aware-hot t tb req sys es x valid above j up cheap =
      let hs = filter_healthy es in
      let cs = filter_to_cheap_tier hs t.tiers t.cheap_tier_count in
      let (e, q, best) =
        select_engine_lem fl (record { kind = thermal_aware t; tb = tb }) req sys es j up in
      let only : candidates fl (thermal_aware t) sys hs ≡ cs =
        rw (valid, above)
          (or_healthy_of_In hs cs (In-cheap fl t hs (In-filter_healthy es j up) cheap)) in
      let (k, least) = subst (IsLeastLoaded e) only best in
      let (i, tier) = cheap-In fl t hs k in
      let (l, h) = filter_healthy-In es i in
      (
        e,
        ap (λ r. r.0) q,
        l,
        h,
        tier,
        λ c m u n.
            In-All (λ y. e.queue_depth ≤ y.queue_depth) cs least
              (In-cheap fl t hs (In-filter_healthy es m u) n),
      )

  no_cheap :
      (t : ThermalAware fl) (hs : List EngineState)
      → ((c : EngineState) → In c hs → In c.name (cheap_names t) → ⊥)
      → filter_to_cheap_tier hs t.tiers t.cheap_tier_count ≡ []
  no_cheap t hs none_in = go _ (λ c k. let (i, tier) = cheap-In fl t hs k in none_in c i tier)
    where
      go : (cs : List EngineState) → ((c : EngineState) → In c cs → ⊥) → cs ≡ []
      go [] h = refl
      go (c ∷ cs) h = absurd (h c (here refl))

  -- When the snapshot is not valid, its temperature is not at the threshold or above, or no healthy
  -- engine is in the cheap tier, the thermal-aware policy selects what the least-queue policy with the same tie breaker selects.
  pub thermal_aware-cool :
      (t : ThermalAware fl) (tb : TieBreaker) (req : Request) (sys : State fl)
      (es : List EngineState)
      → (sys.valid ≡ false)
        ⊎ (fl.le t.temp_threshold_c sys.max_temp_c ≡ false)
        ⊎ ((c : EngineState) → In c es → c.healthy ≡ true → In c.name (cheap_names t) → ⊥)
      → (select_engine fl (record { kind = thermal_aware t; tb = tb }) req sys es).0
        ≡ (select_engine fl (record { kind = least_queue; tb = tb }) req sys es).0
  unfolding select_engine candidates or_healthy is_hot
  thermal_aware-cool t tb req sys es (inl cool) = rw cool
  thermal_aware-cool t tb req sys es (inr (inl cool)) = elim (Bool-cases sys.valid) [
    | inl v ↦ rw (v, cool)
    | inr v ↦ rw v
  ]
  thermal_aware-cool t tb req sys es (inr (inr none_in)) =
      let same =
        no_cheap t (filter_healthy es)
          (λ c i tier. let (l, h) = filter_healthy-In es i in none_in c l h tier) in
      elim (Bool-cases (is_hot fl t sys)) [ inl hot ↦ rw (hot, same) | inr cool ↦ rw cool ]
