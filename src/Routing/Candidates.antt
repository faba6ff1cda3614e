-- ===== src/Routing/Candidates.antt =====
-- scheduler/internal/routing/policy.go: the candidates of each policy, among the healthy engines.
use edge_sched.Prelude.{
  ◌≡◌, refl, inl, inr, true, false, Bool-cases, List, [], ◌∷◌, length, take, All, In, here, In-keep,
  keep-In, ok,
}
use edge_sched.Prelude.Bytes.{Bytes, any_str_eq→In, In→any_str_eq}
use edge_sched.Prelude.Floats.{Floats}
use edge_sched.Sysmonitor.State.{State}
use edge_sched.Routing.Pick.{EngineState, is_healthy, TieBreaker, uint64_add, filter_healthy}
use edge_sched.Routing.Policy.{
  Request, clamp_count, is_allowed, filter_to_cheap_tier, or_healthy, pick_healthy, ThermalAware,
  Kind, least_queue, thermal_aware, Policy, is_hot, candidates, select_engine,
}
use edge_sched.Routing.Sound.{IsLeastLoaded, pick-IsLeastLoaded}

pub filter_healthy-eq-nil :
    (es : List EngineState) → All (λ e. e.healthy ≡ false) es → filter_healthy es ≡ []
unfolding filter_healthy
filter_healthy-eq-nil [] h = refl
filter_healthy-eq-nil (e ∷ es) (p, h) = rw p (filter_healthy-eq-nil es h)

pub filter_healthy-In :
    (es : List EngineState) {e : EngineState}
    → In e (filter_healthy es)
    → In e es × (e.healthy ≡ true)
unfolding filter_healthy
filter_healthy-In es j = In-keep is_healthy es j

pub In-filter_healthy :
    (es : List EngineState) {e : EngineState}
    → In e es
    → e.healthy ≡ true
    → In e (filter_healthy es)
unfolding filter_healthy
In-filter_healthy es j h = keep-In is_healthy es j h

or_healthy-In :
    (hs cs : List EngineState) {e : EngineState}
    → ((x : EngineState) → In x cs → In x hs)
    → In e (or_healthy hs cs)
    → In e hs
unfolding or_healthy
or_healthy-In hs [] sub j = j
or_healthy-In hs (c ∷ cs) sub j = sub _ j

-- With one candidate at least, `or_healthy` keeps them.
pub or_healthy_of_In :
    (hs cs : List EngineState) {e : EngineState} → In e cs → or_healthy hs cs ≡ cs
unfolding or_healthy
or_healthy_of_In hs [] j = elim j [ ]
or_healthy_of_In hs (c ∷ cs) j = refl

or_healthy-some :
    (hs cs : List EngineState) {e : EngineState}
    → In e hs
    → (x : EngineState) × In x (or_healthy hs cs)
unfolding or_healthy
or_healthy-some hs [] {e} j = (e, j)
or_healthy-some hs (c ∷ cs) j = (c, here refl)

pick_healthy-IsLeastLoaded :
    (tb : TieBreaker) (hs cs : List EngineState) {x y : EngineState}
    → In x hs
    → In y cs
    → (e : EngineState) × (pick_healthy tb hs cs
        ≡ (ok e.name, record { counter = uint64_add tb.counter 1 }))
      × IsLeastLoaded e cs
unfolding pick_healthy
pick_healthy-IsLeastLoaded tb [] cs j k = elim j [ ]
pick_healthy-IsLeastLoaded tb (h ∷ hs) [] j k = elim k [ ]
pick_healthy-IsLeastLoaded tb (h ∷ hs) (c ∷ cs) j k = pick-IsLeastLoaded tb c cs

abbrev pub cheap_names : {fl : Floats} → ThermalAware fl → List Bytes
cheap_names p = take (clamp_count p.cheap_tier_count (length p.tiers)) p.tiers

module _ (fl : Floats) where
  pub cheap-In :
      (p : ThermalAware fl) (hs : List EngineState) {e : EngineState}
      → In e (filter_to_cheap_tier hs p.tiers p.cheap_tier_count)
      → In e hs × In e.name (cheap_names p)
  unfolding filter_to_cheap_tier
  cheap-In p hs {e} j =
      let (k, a) = In-keep (is_allowed (cheap_names p)) hs j in
      (k, any_str_eq→In e.name (cheap_names p) a)

  pub In-cheap :
      (p : ThermalAware fl) (hs : List EngineState) {e : EngineState}
      → In e hs
      → In e.name (cheap_names p)
      → In e (filter_to_cheap_tier hs p.tiers p.cheap_tier_count)
  unfolding filter_to_cheap_tier
  In-cheap p hs {e} j k =
      keep-In (is_allowed (cheap_names p)) hs j (In→any_str_eq e.name (cheap_names p) k)

  pub candidates-In :
      (k : Kind fl) (sys : State fl) (hs : List EngineState) {e : EngineState}
      → In e (candidates fl k sys hs)
      → In e hs
  unfolding candidates
  candidates-In least_queue sys hs j = j
  candidates-In (thermal_aware p) sys hs j = elim (Bool-cases (is_hot fl p sys)) [
    | inl hot ↦ or_healthy-In hs _ (λ x c. (cheap-In p hs c).0) (rw hot at j)
    | inr cool ↦ rw cool at j
  ]

  candidates-some :
      (k : Kind fl) (sys : State fl) (hs : List EngineState) {x : EngineState}
      → In x hs
      → (y : EngineState) × In y (candidates fl k sys hs)
  unfolding candidates
  candidates-some least_queue sys hs {x} j = (x, j)
  candidates-some (thermal_aware p) sys hs {x} j = elim (Bool-cases (is_hot fl p sys)) [
    | inl hot ↦ rw hot (or_healthy-some hs _ j)
    | inr cool ↦ rw cool (x, j)
  ]

  -- The engine that a policy selects, with what is left to say about its candidates.
  pub select_engine_lem :
      (p : Policy fl) (req : Request) (sys : State fl) (es : List EngineState) {x : EngineState}
      → In x es
      → x.healthy ≡ true
      → (e : EngineState) × (select_engine fl p req sys es
          ≡ (ok e.name, record p { tb = record { counter = uint64_add p.tb.counter 1 } }))
        × IsLeastLoaded e (candidates fl p.kind sys (filter_healthy es))
  unfolding select_engine
  select_engine_lem p req sys es j h =
      let hs = filter_healthy es in
      let k = In-filter_healthy es j h in
      let (y, l) = candidates-some p.kind sys hs k in
      let (e, q, best) = pick_healthy-IsLeastLoaded p.tb hs (candidates fl p.kind sys hs) k l in
      (e, rw q, best)
