-- ===== src/Sysmonitor/Unstarted.antt =====
-- scheduler/internal/sysmonitor/monitor.go: what is stored when tegrastats cannot be started, with the
-- lines that the debug command prints.
use edge_sched.Prelude.{
  ◌≡◌, refl, ◌⊎◌, inl, inr, if◌then◌else◌, Bool, true, false, List, [], ◌∷◌, Option, none, some,
  All, All-append,
}
use edge_sched.Prelude.Bytes.{Bytes}
use edge_sched.Prelude.Floats.{Floats}
use edge_sched.Sysmonitor.State.{State}
use edge_sched.Sysmonitor.Parse.{parse_nvpmodel_output}
use edge_sched.Sysmonitor.Monitor.{Shared, exec, store_of, next_of}
use edge_sched.Sysmonitor.Loops.{
  LoopError, stdout_pipe, starting_tegrastats, exited_unexpectedly, TegraPhase, starting, scanning,
  waited, returned, ctx_err, Supervisor, tegra_returns, wait_returns, run_returns, Step, cancels,
  pipe_fails, start_fails, starts, loads_line, stores_line, exits, ends, query_fails, loads_mode,
  stores_mode, ticks, nvp_ends, returns,
}
use edge_sched.Sysmonitor.Debug.{Line, monitor_error, shown}

-- The errors with which tegrastats was not started.
abbrev pub is_start_error : LoopError → Bool
is_start_error (stdout_pipe e) = true
is_start_error (starting_tegrastats e) = true
is_start_error _ = false

abbrev pub NotStart : Option LoopError → Type 0
NotStart none = Unit
NotStart (some e) = is_start_error e ≡ false

abbrev pub ResultNotStart : Option (Option LoopError) → Type 0
ResultNotStart none = Unit
ResultNotStart (some r) = NotStart r

-- What holds in a phase of `runTegrastats`, if `C` is that no such error was returned, and `D` that
-- no state has been valid.
abbrev pub Kept : TegraPhase → Type 0 → Type 0 → Type 0
Kept starting C D = C × D
Kept scanning C D = C
Kept waited C D = C
Kept returned C D = C ⊎ D

pub Kept-map :
    {C C' D D' : Type 0} (p : TegraPhase) → (C → C') → (D → D') → Kept p C D → Kept p C' D'
Kept-map starting f g (c, d) = (f c, g d)
Kept-map scanning f g c = f c
Kept-map waited f g c = f c
Kept-map returned f g (inl c) = inl (f c)
Kept-map returned f g (inr d) = inr (g d)

module _ (fl : Floats) where
  abbrev pub LineNotStart : Line fl → Type 0
  LineNotStart (monitor_error e) = is_start_error e ≡ false
  LineNotStart _ = Unit

  abbrev pub LineNotValid : Line fl → Type 0
  LineNotValid (shown st) = st.valid ≡ false
  LineNotValid _ = Unit

  abbrev pub NextNotValid : Option (State fl) → Type 0
  NextNotValid none = Unit
  NextNotValid (some st) = st.valid ≡ false

  -- No error of a start was sent, returned or printed.
  pub record IsClean (err_ch : List (Option LoopError)) (run_result : Option (Option LoopError))
      (output : List (Line fl)) : Type 0 where
    pub channel : All NotStart err_ch
    pub result : ResultNotStart run_result
    pub lines : All LineNotStart output

  -- No state that is stored, about to be stored or printed is valid, but for those of tegrastats.
  pub record IsDull (shared : Shared fl) (output : List (Line fl)) : Type 0 where
    pub stored : shared.stored.valid ≡ false
    pub next : NextNotValid shared.nvp_next
    pub lines : All LineNotValid output

  abbrev pub Inv : Supervisor fl → List (Line fl) → Type 0
  Inv m output = Kept m.tegra (IsClean m.err_ch m.result output) (IsDull m.shared output)

  next_of-NotValid :
      (r : Bytes × Bool) (st : State fl) → st.valid ≡ false → NextNotValid (next_of fl r st)
  next_of-NotValid (mode, false) st h = tt
  next_of-NotValid (mode, true) st h = h

  store_of-NotValid :
      (o : Option (State fl)) (st : State fl)
      → NextNotValid o
      → st.valid ≡ false
      → (store_of fl o st).valid ≡ false
  store_of-NotValid none st n h = h
  store_of-NotValid (some next) st n h = n

  -- `runTegrastats` was past its start, and returns another error than those of the start.
  tegra_returns-Inv :
      (m : Supervisor fl) (output : List (Line fl)) (e : Option LoopError)
      → NotStart e
      → IsClean m.err_ch m.result output
      → Inv (tegra_returns fl m e) output
  unfolding tegra_returns
  tegra_returns-Inv m output e h c = inl (record {
    channel = All-append NotStart m.err_ch (e ∷ []) c.channel (h, tt);
    result = c.result;
    lines = c.lines;
  })

  -- It was not started.
  start_fails-Inv :
      (m : Supervisor fl) (output : List (Line fl)) (e : Option LoopError)
      → m.tegra ≡ starting
      → Inv m output
      → Inv (tegra_returns fl m e) output
  unfolding tegra_returns
  start_fails-Inv m output e at v = let (c, d) = rw at at v in inr d

  ctx_err-NotStart : (c : Bool) → NotStart (ctx_err c)
  ctx_err-NotStart true = refl
  ctx_err-NotStart false = tt

  wait_returns-Inv :
      (m : Supervisor fl) (output : List (Line fl)) (wait : Option Bytes)
      → IsClean m.err_ch m.result output
      → Inv (wait_returns fl m wait) output
  unfolding wait_returns
  wait_returns-Inv m output none c = c
  wait_returns-Inv m output (some e) c =
      either (record m { tegra = waited }) (tegra_returns fl m (some (exited_unexpectedly e)))
        m.cancelled c (tegra_returns-Inv m output (some (exited_unexpectedly e)) refl c)
    where
      either :
          (t u : Supervisor fl) (b : Bool)
          → Inv t output
          → Inv u output
          → Inv (if b then t else u) output
      either t u true h k = h
      either t u false h k = k

  run_result-NotStart :
      (c : Bool) (e : Option LoopError) → NotStart e → NotStart (if c then none else e)
  run_result-NotStart true e h = tt
  run_result-NotStart false e h = h

  pub Step-Inv :
      {m t : Supervisor fl} (output : List (Line fl)) → Step fl m t → Inv m output → Inv t output
  unfolding exec run_returns
  Step-Inv output cancels v = v
  Step-Inv {m} output (pipe_fails x at) v = start_fails-Inv m output _ at v
  Step-Inv {m} output (start_fails x at) v = start_fails-Inv m output _ at v
  Step-Inv output (starts at) v = (rw at at v).0
  Step-Inv {m} output (loads_line now line at empty) v = rw at (rw at at v)
  Step-Inv {m} output (stores_line at) v = rw at (rw at at v)
  Step-Inv {m} output (exits wait at empty) v = wait_returns-Inv m output wait (rw at at v)
  Step-Inv {m} output (ends at) v =
      tegra_returns-Inv m output _ (ctx_err-NotStart m.cancelled) (rw at at v)
  Step-Inv output (query_fails at) v = v
  Step-Inv {m} output (loads_mode out at empty) v =
      Kept-map m.tegra (λ c. c)
        (λ d. record {
          stored = d.stored;
          next = next_of-NotValid (parse_nvpmodel_output out) m.shared.stored d.stored;
          lines = d.lines;
        })
        v
  Step-Inv {m} output (stores_mode at) v =
      Kept-map m.tegra (λ c. c)
        (λ d. record {
          stored = store_of-NotValid m.shared.nvp_next m.shared.stored d.next d.stored;
          next = tt;
          lines = d.lines;
        })
        v
  Step-Inv output (ticks at) v = v
  Step-Inv {m} output (nvp_ends at stop) v =
      Kept-map m.tegra
        (λ c. record {
          channel = All-append NotStart m.err_ch (none ∷ []) c.channel (tt, tt);
          result = c.result;
          lines = c.lines;
        })
        (λ d. d) v
  Step-Inv {m} output (returns e rest first head) v =
      Kept-map m.tegra
        (λ c.
          let (h, hs) : All NotStart (e ∷ rest) = rw head at c.channel in
          record { channel = hs; result = run_result-NotStart m.cancelled e h; lines = c.lines })
        (λ d. d) v
