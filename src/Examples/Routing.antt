-- ===== src/Examples/Routing.antt =====
-- Selections on small sets of engines, as in scheduler/internal/routing/policy_test.go.
use mathlib.Core.List.{Permᴰ}
use edge_sched.Prelude.{
  ℕ, ◌≤◌, ◌*◌, ◌≡◌, ◌↔◌, ◌⊎◌, refl, inl, inr, Bool, true, false, List, [], ◌∷◌, length, All, In,
  here, there, ok, err, arith,
}
use edge_sched.Prelude.Int.{ℤ, pos}
use edge_sched.Prelude.Bytes.{Bytes, bytes, str_eq, str_lt}
use edge_sched.Sysmonitor.State.{State}
use edge_sched.Routing.Pick.{EngineState, no_healthy_engines, TieBreaker, tied_at}
use edge_sched.Routing.Policy.{
  Request, ThermalAware, Kind, least_queue, thermal_aware, Policy, select_engine,
}
use edge_sched.Routing.Thermal.{
  select_engine-err_iff, least_queue-select_engine, thermal_aware-cool,
}
use edge_sched.Routing.Order.{select_engine-perm_eq}
use edge_sched.Routing.RoundRobin.{served, served_equally}
use edge_sched.Examples.Floats.{whole}

abbrev engine : Bytes → ℕ → Bool → EngineState
engine n d h = record { name = n; queue_depth = d; healthy = h }

abbrev small : EngineState
small = engine (bytes "n") 4 true

abbrev large : EngineState
large = engine (bytes "m") 1 true

abbrev down : EngineState
down = engine (bytes "d") 0 false

abbrev fleet : List EngineState
fleet = small ∷ large ∷ down ∷ []

abbrev request : Request
request = record { latency_budget = pos 10 }

abbrev reading : ℤ → Bool → State whole
reading t v = record {
  timestamp = 0;
  gpu_util_pct = pos 0;
  temps = [];
  max_temp_c = t;
  power_mw = pos 0;
  ram_used_mb = pos 0;
  ram_total_mb = pos 0;
  power_mode = [];
  valid = v;
}

abbrev tiers : ThermalAware whole
tiers = record {
  tiers = bytes "n" ∷ bytes "m" ∷ [];
  temp_threshold_c = pos 60;
  cheap_tier_count = pos 1;
}

abbrev zero_count : TieBreaker
zero_count = record { counter = 0 }

abbrev policy : Kind whole → Policy whole
policy k = record { kind = k; tb = zero_count }

least_queue_test :
    (select_engine whole (policy least_queue) request (reading (pos 70) true) fleet).0
    ≡ ok (bytes "m")
unfolding select_engine str_eq str_lt
least_queue_test = refl

hot_test :
    (select_engine whole (policy (thermal_aware tiers)) request (reading (pos 70) true) fleet).0
    ≡ ok (bytes "n")
unfolding select_engine str_eq str_lt
hot_test = refl

down-unhealthy : All (λ e. e.healthy ≡ false) (down ∷ [])
down-unhealthy = (refl, tt)

select_engine-err_iff_example :
    (All (λ e. e.healthy ≡ false) (down ∷ []) ↔ (
      select_engine whole (policy least_queue) request (reading (pos 0) false) (down ∷ [])
      ≡ (err no_healthy_engines, policy least_queue)))
    × (All (λ e. e.healthy ≡ false) (down ∷ [])
        ⊎ ((name : Bytes) × ((select_engine whole
                (policy least_queue)
                request
                (reading (pos 0) false)
                (down ∷ [])).0
              ≡ ok name)))
select_engine-err_iff_example =
    select_engine-err_iff whole (policy least_queue) request (reading (pos 0) false) (down ∷ [])

least_queue-select_engine_example :
    (e : EngineState) × ((select_engine whole
        (policy least_queue)
        request
        (reading (pos 0) false)
        fleet).0
      ≡ ok e.name)
    × In e fleet
    × (e.healthy ≡ true)
    × ((c : EngineState) → In c fleet → c.healthy ≡ true → e.queue_depth ≤ c.queue_depth)
least_queue-select_engine_example =
    least_queue-select_engine whole zero_count request (reading (pos 0) false) fleet large
      (there (here refl)) refl

thermal_aware-cool_example :
    (select_engine whole (policy (thermal_aware tiers)) request (reading (pos 59) true) fleet).0
    ≡ (select_engine whole (policy least_queue) request (reading (pos 59) true) fleet).0
thermal_aware-cool_example =
    thermal_aware-cool whole tiers zero_count request (reading (pos 59) true) fleet (inr (inl refl))

select_engine-perm_eq_example :
    select_engine whole (policy least_queue) request (reading (pos 0) false) (small ∷ large ∷ [])
    ≡ select_engine whole (policy least_queue) request (reading (pos 0) false) (large ∷ small ∷ [])
select_engine-perm_eq_example =
    select_engine-perm_eq whole (policy least_queue) request (reading (pos 0) false)
      (small ∷ large ∷ []) (large ∷ small ∷ []) (Permᴰ.swap refl refl)
      (((λ e. ground arith), tt), (tt, tt))

abbrev twins : List EngineState
twins = engine (bytes "a") 2 true ∷ engine (bytes "b") 2 true ∷ []

served_equally_example :
    served (bytes "a") (50 * length (tied_at 2 twins)) (record { counter = 0 }) twins ≡ 50
unfolding tied_at
served_equally_example =
    served_equally 50 0 twins (engine (bytes "a") 2 true) (((λ e. ground arith), tt), (tt, tt))
      (here refl, (omega arith, (omega arith, tt))) (omega arith)
