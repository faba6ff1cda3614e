-- ===== src/Sysmonitor/Loops.antt =====
-- scheduler/internal/sysmonitor/monitor.go: `Run` with its two goroutines, `runTegrastats` and
-- `runNvpmodel`, in any interleaving. What the commands do is the environment: tegrastats may fail
-- to start, print any lines and exit in any way; nvpmodel may fail or print anything.
use edge_sched.Prelude.{
  ℕ, ◌≡◌, if◌then◌else◌, Bool, true, false, List, [], ◌∷◌, ◌++◌, Option, none, some,
}
use edge_sched.Prelude.Bytes.{Bytes}
use edge_sched.Prelude.Floats.{Floats}
use edge_sched.Sysmonitor.Monitor.{
  Shared, zero_state, tegra_load, tegra_store, nvp_load, nvp_store, exec,
}

-- The errors of `runTegrastats`, with what they wrap: its own three, and `ctx.Err()`.
pub data LoopError : Type 0 where
  stdout_pipe : Bytes → LoopError
  starting_tegrastats : Bytes → LoopError
  exited_unexpectedly : Bytes → LoopError
  context_ended : LoopError

-- Where `runTegrastats` stands: before `cmd.Start`, in the loop of the scanner, after the check of
-- `cmd.Wait`, or returned, with its error sent.
pub data TegraPhase : Type 0 where
  starting scanning waited returned : TegraPhase

-- Where `runNvpmodel` stands: before a poll, in the `select`, or returned.
pub data NvpPhase : Type 0 where
  polling selecting stopped : NvpPhase

-- `ctx.Err()`
abbrev pub ctx_err : Bool → Option LoopError
ctx_err true = some context_ended
ctx_err false = none

module _ (fl : Floats) where
  -- `err_ch` is the channel of capacity 2, oldest first; `returned` is what `Run` has returned.
  pub record Supervisor : Type 0 where
    pub shared : Shared fl
    pub tegra : TegraPhase
    pub nvp : NvpPhase
    pub cancelled : Bool
    pub err_ch : List (Option LoopError)
    pub result : Option (Option LoopError)

  unfoldable pub start_run : Supervisor
  start_run = record {
    shared = record { stored = zero_state fl; tegra_next = none; nvp_next = none };
    tegra = starting;
    nvp = polling;
    cancelled = false;
    err_ch = [];
    result = none;
  }

  -- `errCh <- m.runTegrastats(ctx)`
  unfoldable pub tegra_returns : Supervisor → Option LoopError → Supervisor
  tegra_returns s e = record s { tegra = returned; err_ch = s.err_ch ++ e ∷ [] }

  -- `cmd.Wait()` has returned: an error is reported unless the context has ended.
  unfoldable pub wait_returns : Supervisor → Option Bytes → Supervisor
  unfolding tegra_returns
  wait_returns s none = record s { tegra = waited }
  wait_returns s (some e) =
      if s.cancelled
      then record s { tegra = waited }
      else tegra_returns s (some (exited_unexpectedly e))

  -- `err := <-errCh`, and the test of the context.
  unfoldable pub run_returns : Supervisor → Option LoopError → List (Option LoopError) → Supervisor
  run_returns s e rest = record s { err_ch = rest; result = some (if s.cancelled then none else e) }

  pub data Step (s : Supervisor) : Supervisor → Type 0 where
    cancels : Step s (record s { cancelled = true })
    pipe_fails : (e : Bytes) → s.tegra ≡ starting → Step s (tegra_returns s (some (stdout_pipe e)))
    start_fails :
        (e : Bytes) → s.tegra ≡ starting → Step s (tegra_returns s (some (starting_tegrastats e)))
    starts : s.tegra ≡ starting → Step s (record s { tegra = scanning })
    -- `applyTegrastatsLine`: the load, and later the store.
    loads_line :
        (now : ℕ) (line : Bytes)
        → s.tegra ≡ scanning
        → s.shared.tegra_next ≡ none
        → Step s (record s { shared = exec fl (tegra_load now line) s.shared })
    stores_line : s.tegra ≡ scanning → Step s (record s { shared = exec fl tegra_store s.shared })
    -- The pipe ends, and tegrastats has exited.
    exits :
        (wait : Option Bytes)
        → s.tegra ≡ scanning
        → s.shared.tegra_next ≡ none
        → Step s (wait_returns s wait)
    -- `return ctx.Err()`
    ends : s.tegra ≡ waited → Step s (tegra_returns s (ctx_err s.cancelled))
    -- `pollNvpmodel`: the command fails, or its output is read and merged.
    query_fails : s.nvp ≡ polling → Step s (record s { nvp = selecting })
    loads_mode :
        (out : Bytes)
        → s.nvp ≡ polling
        → s.shared.nvp_next ≡ none
        → Step s (record s { shared = exec fl (nvp_load out) s.shared })
    stores_mode :
        s.nvp ≡ polling → Step s (record s { shared = exec fl nvp_store s.shared; nvp = selecting })
    ticks : s.nvp ≡ selecting → Step s (record s { nvp = polling })
    -- `case <-ctx.Done()`
    nvp_ends :
        s.nvp ≡ selecting
        → s.cancelled ≡ true
        → Step s (record s { nvp = stopped; err_ch = s.err_ch ++ none ∷ [] })
    returns :
        (e : Option LoopError) (rest : List (Option LoopError))
        → s.result ≡ none
        → s.err_ch ≡ e ∷ rest
        → Step s (run_returns s e rest)

  pub data Reach : Supervisor → Type 0 where
    begun : Reach start_run
    later : {s t : Supervisor} → Reach s → Step s t → Reach t
