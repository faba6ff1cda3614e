-- ===== src/Examples/Debug.antt =====
-- A run of the debug command on a machine without tegrastats.
use edge_sched.Prelude.{◌≡◌, refl, false, [], some, here, there}
use edge_sched.Prelude.Bytes.{bytes}
use edge_sched.Sysmonitor.Monitor.{zero_state}
use edge_sched.Sysmonitor.Loops.{
  starting_tegrastats, start_run, tegra_returns, run_returns, start_fails, returns,
}
use edge_sched.Sysmonitor.Debug.{
  Debug, start_debug, DebugReach, debug_begun, debug_later, monitors, reports, announces, prints,
}
use edge_sched.Sysmonitor.Shown.{start_error-shown}
use edge_sched.Examples.Floats.{whole}

abbrev Run : Type 0
Run = (s : Debug whole) × DebugReach whole s

abbrev failed : Run
unfolding start_debug start_run tegra_returns
failed = (_, debug_later debug_begun (monitors refl (start_fails (bytes "not found") refl)))

abbrev reported : Run
unfolding start_debug start_run tegra_returns run_returns
reported = (
  _,
  debug_later
      (debug_later (debug_later failed.1 (monitors refl (returns _ [] refl refl)))
        (reports (some (starting_tegrastats (bytes "not found"))) refl refl refl))
      (announces refl refl),
)

abbrev printed : Run
unfolding start_debug start_run tegra_returns run_returns
printed = (_, debug_later reported.1 (prints refl refl))

start_error-shown_example : (zero_state whole).valid ≡ false
unfolding start_debug start_run tegra_returns run_returns
start_error-shown_example =
    start_error-shown whole printed.1 (starting_tegrastats (bytes "not found")) refl (here refl)
      (zero_state whole) (there (there (here refl)))
