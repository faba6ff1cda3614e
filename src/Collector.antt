-- ===== src/Collector.antt =====
-- scheduler/internal/metrics/metrics.go: `Describe` and `Collect`. A channel is the list of what is
-- sent on it, and a metric is its description, its value and its labels.
pub mod Registry
pub mod Gather
use edge_sched.Prelude.{
  ℕ, ◌≡◌, refl, ◌∙◌, if◌then◌else◌, Bool, true, false, Bool-cases, List, [], ◌∷◌, ◌++◌, All,
  All-append, In, here, there, any, inl, inr,
}
use edge_sched.Prelude.Int.{ℤ, pos}
use edge_sched.Prelude.Bytes.{Bytes}
use edge_sched.Prelude.Maps.{GoMap}
use edge_sched.Prelude.Floats.{Floats}
use edge_sched.Sysmonitor.State.{State}
use edge_sched.Sysmonitor.Monitor.{Monitor, new, current, apply_lines}
use edge_sched.Sysmonitor.Merge.{apply_lines-last_given}
use edge_sched.Workerpool.Pool.{queue_depth}
use edge_sched.Api.Wire.{PredictResponse}
use edge_sched.Api.Server.{EnginePool}

-- The descriptions of a registry.
pub data Desc : Type 0 where
  queue_depth_desc temp_desc power_desc gpu_util_desc ram_used_desc monitor_valid_desc : Desc

unfoldable pub describe : List Desc
describe =
    queue_depth_desc ∷ temp_desc ∷ power_desc ∷ gpu_util_desc ∷ ram_used_desc ∷ monitor_valid_desc
    ∷ []

module _ (fl : Floats) where
  pub record Metric : Type 0 where
    pub desc : Desc
    pub value : fl.F
    pub labels : List Bytes

  abbrev pub gauge : Desc → fl.F → Metric
  gauge desc value = record { desc = desc; value = value; labels = [] }

  -- The loop over the pools.
  unfoldable pub depths : GoMap (EnginePool fl) → List Metric
  depths [] = []
  depths ((name, pool) ∷ pools) =
      record {
        desc = queue_depth_desc;
        value = fl.of_int (pos (queue_depth ℤ (PredictResponse fl) pool));
        labels = name ∷ [];
      }
      ∷ depths pools

  unfoldable pub system_gauges : State fl → List Metric
  system_gauges state =
      if state.valid
      then gauge temp_desc state.max_temp_c
        ∷ gauge power_desc state.power_mw
        ∷ gauge gpu_util_desc state.gpu_util_pct
        ∷ gauge ram_used_desc (fl.of_int state.ram_used_mb)
        ∷ []
      else []

  unfoldable pub collect : GoMap (EnginePool fl) → Monitor fl → List Metric
  unfolding depths system_gauges
  collect pools monitor =
      let state = current fl monitor in
      depths pools
      ++ gauge monitor_valid_desc (if state.valid then fl.of_int (pos 1) else fl.of_int (pos 0))
        ∷ system_gauges state

  abbrev pub IsDescribed : Metric → Type 0
  IsDescribed m = In m.desc describe

  -- A gauge of the system, which is not its `valid` one.
  abbrev pub is_reading : Metric → Bool
  is_reading m = elim m.desc [
    | queue_depth_desc ↦ false
    | monitor_valid_desc ↦ false
    | temp_desc ↦ true
    | power_desc ↦ true
    | gpu_util_desc ↦ true
    | ram_used_desc ↦ true
  ]

  depths-IsDescribed : (pools : GoMap (EnginePool fl)) → All IsDescribed (depths pools)
  unfolding depths describe
  depths-IsDescribed [] = tt
  depths-IsDescribed ((name, pool) ∷ pools) = (here refl, depths-IsDescribed pools)

  system_gauges-IsDescribed : (state : State fl) → All IsDescribed (system_gauges state)
  unfolding system_gauges describe
  system_gauges-IsDescribed state = elim (Bool-cases state.valid) [
    | inl valid ↦ rw valid (
      there (here refl),
      (
        there (there (here refl)),
        (there (there (there (here refl))), (there (there (there (there (here refl)))), tt)),
      ),
    )
    | inr not_yet ↦ rw not_yet tt
  ]

  -- Every metric that is collected has one of the descriptions that the registry announces.
  pub collect-IsDescribed :
      (pools : GoMap (EnginePool fl)) (monitor : Monitor fl)
      → All IsDescribed (collect pools monitor)
  unfolding collect describe
  collect-IsDescribed pools monitor =
      All-append IsDescribed (depths pools) _ (depths-IsDescribed pools) (
        there (there (there (there (there (here refl))))),
        system_gauges-IsDescribed (current fl monitor),
      )

  any-append_reading :
      (pools : GoMap (EnginePool fl)) (ms : List Metric)
      → any is_reading (depths pools ++ ms) ≡ any is_reading ms
  unfolding depths
  any-append_reading [] ms = refl
  any-append_reading ((name, pool) ∷ pools) ms = any-append_reading pools ms

  any-system_gauges : (state : State fl) → any is_reading (system_gauges state) ≡ state.valid
  unfolding system_gauges
  any-system_gauges state = elim (Bool-cases state.valid) [
    | inl valid ↦ rw valid refl
    | inr not_yet ↦ rw not_yet refl
  ]

  abbrev pub is_empty : List (ℕ × Bytes) → Bool
  is_empty [] = true
  is_empty (l ∷ ls) = false

  -- After any number of lines of tegrastats on a new monitor the readings of the system are
  -- collected if there was a line, and not if there was none.
  collect-readings :
      (pools : GoMap (EnginePool fl)) (lines : List (ℕ × Bytes))
      → any is_reading (collect pools (apply_lines fl (new fl) lines))
        ≡ (if is_empty lines then false else true)
  unfolding collect new current
  collect-readings pools lines =
      let m = apply_lines fl (new fl) lines in
      any-append_reading pools _
      ∙ any-system_gauges (current fl m)
      ∙ (apply_lines-last_given fl (new fl) lines).7
      ∙ by_cases lines
    where
      by_cases :
          (ls : List (ℕ × Bytes))
          → (elim ls [ [] ↦ false | l ∷ rest ↦ true ]) ≡ (if is_empty ls then false else true)
      by_cases [] = refl
      by_cases (l ∷ ls) = refl
