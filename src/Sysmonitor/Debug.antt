-- ===== src/Sysmonitor/Debug.antt =====
-- scheduler/cmd/sysmonitor_debug/main.go: the command, with the monitor that it runs, as steps in any
-- interleaving. A printed state is the state that is marshalled.
use edge_sched.Prelude.{◌≡◌, Bool, true, false, List, [], ◌∷◌, ◌++◌, Option, none, some}
use edge_sched.Prelude.Floats.{Floats}
use edge_sched.Sysmonitor.State.{State}
use edge_sched.Sysmonitor.Loops.{LoopError, Supervisor, start_run, Step}

-- What the command prints: that it has started, the error that `m.Run` returned, and a state.
pub data Line (fl : Floats) : Type 0 where
  started : Line fl
  monitor_error : LoopError → Line fl
  shown : State fl → Line fl

module _ (fl : Floats) where
  -- `reported` is that the goroutine of the monitor is past its print, `announced` that `main` is past
  -- its first.
  pub record Debug : Type 0 where
    pub monitor : Supervisor fl
    pub reported : Bool
    pub announced : Bool
    pub output : List (Line fl)
    pub ended : Bool

  unfoldable pub start_debug : Debug
  start_debug = record {
    monitor = start_run fl;
    reported = false;
    announced = false;
    output = [];
    ended = false;
  }

  -- `if err := m.Run(ctx); err != nil`
  abbrev pub report : Option LoopError → List (Line fl)
  report none = []
  report (some e) = monitor_error e ∷ []

  -- No step is taken after `main` has returned.
  pub data DebugStep (s : Debug) : Debug → Type 0 where
    monitors :
        {t : Supervisor fl}
        → s.ended ≡ false
        → Step fl s.monitor t
        → DebugStep s (record s { monitor = t })
    reports :
        (e : Option LoopError)
        → s.ended ≡ false
        → s.reported ≡ false
        → s.monitor.result ≡ some e
        → DebugStep s (record s { reported = true; output = s.output ++ report e })
    announces :
        s.ended ≡ false
        → s.announced ≡ false
        → DebugStep s (record s { announced = true; output = s.output ++ started ∷ [] })
    -- `case <-ticker.C`
    prints :
        s.ended ≡ false
        → s.announced ≡ true
        → DebugStep s (record s { output = s.output ++ shown s.monitor.shared.stored ∷ [] })
    -- `case <-ctx.Done()`
    interrupted :
        s.ended ≡ false
        → s.announced ≡ true
        → s.monitor.cancelled ≡ true
        → DebugStep s (record s { ended = true })

  pub data DebugReach : Debug → Type 0 where
    debug_begun : DebugReach start_debug
    debug_later : {s t : Debug} → DebugReach s → DebugStep s t → DebugReach t
