-- ===== src/Sysmonitor/State.antt =====
-- scheduler/internal/sysmonitor/monitor.go: `State`, one snapshot of the system.
use edge_sched.Prelude.{ℕ, Bool, List}
use edge_sched.Prelude.Int.{ℤ}
use edge_sched.Prelude.Bytes.{Bytes}
use edge_sched.Prelude.Floats.{Floats}

module _ (fl : Floats) where
  open fl use {F}

  -- `timestamp` is in milliseconds. `temps` is the map of sensor readings, a pair for each sensor.
  pub record State : Type 0 where
    pub timestamp : ℕ
    pub gpu_util_pct : F
    pub temps : List (Bytes × F)
    pub max_temp_c : F
    pub power_mw : F
    pub ram_used_mb : ℤ
    pub ram_total_mb : ℤ
    pub power_mode : Bytes
    pub valid : Bool
