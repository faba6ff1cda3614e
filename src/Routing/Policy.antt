-- ===== src/Routing/Policy.antt =====
-- scheduler/internal/routing/policy.go: the two policies behind the `Policy` interface.
use edge_sched.Prelude.{
  ℕ, ltb, if◌then◌else◌, Bool, ◌&&◌, List, [], ◌∷◌, length, take, any, keep, Result, err,
}
use edge_sched.Prelude.Int.{ℤ, pos, ltz, pos_part}
use edge_sched.Prelude.Bytes.{Bytes, str_eq}
use edge_sched.Prelude.Floats.{Floats}
use edge_sched.Sysmonitor.State.{State}
use edge_sched.Routing.Pick.{
  EngineState, RoutingError, no_healthy_engines, TieBreaker, filter_healthy, pick,
}

-- The hints of a request. Neither policy reads them.
pub record Request : Type 0 where
  pub latency_budget : ℤ

-- `count`, raised to 1 and lowered to `len(tiers)`.
unfoldable pub clamp_count : ℤ → ℕ → ℕ
clamp_count count tiers =
    let raised = if ltz count (pos 1) then 1 else pos_part count in
    if ltb tiers raised then tiers else raised

-- Membership in the map `allowed`.
unfoldable pub is_allowed : List Bytes → EngineState → Bool
is_allowed names e = any (str_eq e.name) names

unfoldable pub filter_to_cheap_tier : List EngineState → List Bytes → ℤ → List EngineState
unfolding clamp_count is_allowed
filter_to_cheap_tier engines tiers count =
    keep (is_allowed (take (clamp_count count (length tiers)) tiers)) engines

-- The candidates when the system is hot: the healthy engines of the cheap tier, unless none is left.
unfoldable pub or_healthy : List EngineState → List EngineState → List EngineState
or_healthy healthy [] = healthy
or_healthy healthy (e ∷ es) = e ∷ es

-- `return "", fmt.Errorf("no healthy engines available")` before the tie breaker is asked.
unfoldable pub pick_healthy :
    TieBreaker → List EngineState → List EngineState → Result RoutingError Bytes × TieBreaker
unfolding pick
pick_healthy tb [] candidates = (err no_healthy_engines, tb)
pick_healthy tb (e ∷ es) candidates = pick tb candidates

module _ (fl : Floats) where
  open fl use {F, le}

  pub record ThermalAware : Type 0 where
    pub tiers : List Bytes
    pub temp_threshold_c : F
    pub cheap_tier_count : ℤ

  -- A policy in use: `LeastQueuePolicy` or `ThermalAwarePolicy`, each with its tie breaker.
  pub data Kind : Type 0 where
    least_queue : Kind
    thermal_aware : ThermalAware → Kind

  pub record Policy : Type 0 where
    pub kind : Kind
    pub tb : TieBreaker

  -- `sys.Valid && sys.MaxTempC >= p.TempThresholdC`
  unfoldable pub is_hot : ThermalAware → State fl → Bool
  is_hot p sys = sys.valid && le p.temp_threshold_c sys.max_temp_c

  unfoldable pub candidates : Kind → State fl → List EngineState → List EngineState
  unfolding is_hot filter_to_cheap_tier or_healthy
  candidates least_queue sys healthy = healthy
  candidates (thermal_aware p) sys healthy =
      if is_hot p sys
      then or_healthy healthy (filter_to_cheap_tier healthy p.tiers p.cheap_tier_count)
      else healthy

  unfoldable pub select_engine :
      Policy → Request → State fl → List EngineState → Result RoutingError Bytes × Policy
  unfolding candidates filter_healthy pick_healthy
  select_engine p req sys engines =
      let healthy = filter_healthy engines in
      let (r, tb') = pick_healthy p.tb healthy (candidates p.kind sys healthy) in
      (r, record p { tb = tb' })
