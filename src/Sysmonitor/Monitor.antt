-- ===== src/Sysmonitor/Monitor.antt =====
-- scheduler/internal/sysmonitor/monitor.go: the monitor, the merge of a parsed line, and the two
-- polling loops, which share one atomic pointer. Each loop loads the pointer and stores it later;
-- other stores may come between.
use edge_sched.Prelude.{ℕ, if◌then◌else◌, Bool, true, false, List, [], ◌∷◌, Option, none, some}
use edge_sched.Prelude.Int.{pos}
use edge_sched.Prelude.Bytes.{Bytes}
use edge_sched.Prelude.Floats.{Floats}
use edge_sched.Sysmonitor.State.{State}
use edge_sched.Sysmonitor.Parse.{TegraFields, parse_tegrastats_line, parse_nvpmodel_output}

module _ (fl : Floats) where
  -- `State{}`: not valid.
  abbrev pub zero_state : State fl
  zero_state = record {
    timestamp = 0;
    gpu_util_pct = fl.of_int (pos 0);
    temps = [];
    max_temp_c = fl.of_int (pos 0);
    power_mw = fl.of_int (pos 0);
    ram_used_mb = pos 0;
    ram_total_mb = pos 0;
    power_mode = [];
    valid = false;
  }

  -- The intervals are in milliseconds.
  pub record Monitor : Type 0 where
    pub state : State fl
    pub tegra_interval : ℕ
    pub nvp_interval : ℕ

  unfoldable pub new : Monitor
  new = record { state = zero_state; tegra_interval = 1000; nvp_interval = 5000 }

  unfoldable pub current : Monitor → State fl
  current m = m.state

  -- What `applyTegrastatsLine` makes of the state that it loaded.
  unfoldable pub merge : TegraFields fl → ℕ → State fl → State fl
  merge fields now prev = record prev {
    timestamp = now;
    valid = true;
    gpu_util_pct = if fields.has_gpu then fields.gpu_util_pct else prev.gpu_util_pct;
    ram_used_mb = if fields.has_ram then fields.ram_used_mb else prev.ram_used_mb;
    ram_total_mb = if fields.has_ram then fields.ram_total_mb else prev.ram_total_mb;
    power_mw = if fields.has_power then fields.power_mw else prev.power_mw;
    temps = if fields.has_temps then fields.temps else prev.temps;
    max_temp_c = if fields.has_temps then fields.max_temp_c else prev.max_temp_c;
  }

  unfoldable pub apply_tegrastats_line : Monitor → ℕ → Bytes → Monitor
  unfolding merge current
  apply_tegrastats_line m now line = record m {
    state = merge (parse_tegrastats_line fl line) now (current m);
  }

  -- The loop of `runTegrastats` over the lines of the pipe, each with the time when it is applied.
  unfoldable pub apply_lines : Monitor → List (ℕ × Bytes) → Monitor
  unfolding apply_tegrastats_line
  apply_lines m [] = m
  apply_lines m ((now, line) ∷ lines) = apply_lines (apply_tegrastats_line m now line) lines

  -- What `pollNvpmodel` makes of the state that it loaded: `none` is a failed command.
  unfoldable pub with_mode : Bytes × Bool → State fl → State fl
  with_mode (mode, false) prev = prev
  with_mode (mode, true) prev = record prev { power_mode = mode }

  unfoldable pub poll_nvpmodel : Monitor → Option Bytes → Monitor
  unfolding with_mode current
  poll_nvpmodel m none = m
  poll_nvpmodel m (some out) = record m {
    state = with_mode (parse_nvpmodel_output out) (current m);
  }

  -- The pointer, and what each loop is about to store.
  pub record Shared : Type 0 where
    pub stored : State fl
    pub tegra_next : Option (State fl)
    pub nvp_next : Option (State fl)

  -- A load, with the computation of the next state, or a store.
  pub data Action : Type 0 where
    tegra_load : ℕ → Bytes → Action
    tegra_store : Action
    nvp_load : Bytes → Action
    nvp_store : Action

  abbrev pub store_of : Option (State fl) → State fl → State fl
  store_of none s = s
  store_of (some n) s = n

  -- `pollNvpmodel` stores nothing where the output does not parse.
  abbrev pub next_of : Bytes × Bool → State fl → Option (State fl)
  next_of (mode, false) s = none
  next_of (mode, true) s = some (record s { power_mode = mode })

  unfoldable pub exec : Action → Shared → Shared
  unfolding merge
  exec (tegra_load now line) s = record s {
    tegra_next = some (merge (parse_tegrastats_line fl line) now s.stored);
  }
  exec tegra_store s = record s { stored = store_of s.tegra_next s.stored; tegra_next = none }
  exec (nvp_load out) s = record s { nvp_next = next_of (parse_nvpmodel_output out) s.stored }
  exec nvp_store s = record s { stored = store_of s.nvp_next s.stored; nvp_next = none }

  unfoldable pub exec_all : List Action → Shared → Shared
  unfolding exec
  exec_all [] s = s
  exec_all (a ∷ as') s = exec_all as' (exec a s)
