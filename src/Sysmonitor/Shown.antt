-- ===== src/Sysmonitor/Shown.antt =====
-- What scheduler/cmd/sysmonitor_debug prints when tegrastats cannot be started.
use edge_sched.Prelude.{
  ◌≡◌, refl, inl, inr, true, false, [], ◌∷◌, Option, none, some, All, All-append, In, In-All,
  true_not_false,
}
use edge_sched.Prelude.Floats.{Floats}
use edge_sched.Sysmonitor.State.{State}
use edge_sched.Sysmonitor.Loops.{
  LoopError, TegraPhase, starting, scanning, waited, returned, start_run,
}
use edge_sched.Sysmonitor.Debug.{
  started, monitor_error, shown, Debug, start_debug, report, DebugStep, monitors, reports,
  announces, prints, interrupted, DebugReach, debug_begun, debug_later,
}
use edge_sched.Sysmonitor.Unstarted.{
  is_start_error, NotStart, Kept, Kept-map, LineNotStart, LineNotValid, IsClean, Inv, Step-Inv,
}

module _ (fl : Floats) where
  report-NotStart : (e : Option LoopError) → NotStart e → All (LineNotStart fl) (report fl e)
  report-NotStart none h = tt
  report-NotStart (some e) h = (h, tt)

  report-NotValid : (e : Option LoopError) → All (LineNotValid fl) (report fl e)
  report-NotValid none = tt
  report-NotValid (some e) = (tt, tt)

  DebugStep-Inv :
      {s t : Debug fl} → DebugStep fl s t → Inv fl s.monitor s.output → Inv fl t.monitor t.output
  DebugStep-Inv {s} (monitors on st) v = Step-Inv fl s.output st v
  DebugStep-Inv {s} (reports e on first result) v =
      Kept-map s.monitor.tegra
        (λ c. record {
          channel = c.channel;
          result = c.result;
          lines =
              All-append (LineNotStart fl) s.output (report fl e) c.lines
                (report-NotStart e (rw result at c.result));
        })
        (λ d. record {
          stored = d.stored;
          next = d.next;
          lines = All-append (LineNotValid fl) s.output (report fl e) d.lines (report-NotValid e);
        })
        v
  DebugStep-Inv {s} (announces on first) v =
      Kept-map s.monitor.tegra
        (λ c. record {
          channel = c.channel;
          result = c.result;
          lines = All-append (LineNotStart fl) s.output (started ∷ []) c.lines (tt, tt);
        })
        (λ d. record {
          stored = d.stored;
          next = d.next;
          lines = All-append (LineNotValid fl) s.output (started ∷ []) d.lines (tt, tt);
        })
        v
  DebugStep-Inv {s} (prints on told) v =
      let line = shown s.monitor.shared.stored in
      Kept-map s.monitor.tegra
        (λ c. record {
          channel = c.channel;
          result = c.result;
          lines = All-append (LineNotStart fl) s.output (line ∷ []) c.lines (tt, tt);
        })
        (λ d. record {
          stored = d.stored;
          next = d.next;
          lines = All-append (LineNotValid fl) s.output (line ∷ []) d.lines (d.stored, tt);
        })
        v
  DebugStep-Inv (interrupted on told stop) v = v

  DebugReach-Inv : {s : Debug fl} → DebugReach fl s → Inv fl s.monitor s.output
  unfolding start_debug start_run
  DebugReach-Inv debug_begun = (
    record { channel = tt; result = tt; lines = tt },
    record { stored = refl; next = tt; lines = tt },
  )
  DebugReach-Inv (debug_later r st) = DebugStep-Inv st (DebugReach-Inv r)

  kept_dull : {C D : Type 0} (p : TegraPhase) → (C → ⊥) → Kept p C D → D
  kept_dull starting h (c, d) = d
  kept_dull scanning h c = absurd (h c)
  kept_dull waited h c = absurd (h c)
  kept_dull returned h (inl c) = absurd (h c)
  kept_dull returned h (inr d) = d

  -- If the command has printed that tegrastats could not be started, no state that it prints, before
  -- or after, is valid.
  pub start_error-shown :
      {s : Debug fl}
      → DebugReach fl s
      → (e : LoopError) → is_start_error e ≡ true
      → In (monitor_error e) s.output
      → (st : State fl) → In (shown st) s.output
      → st.valid ≡ false
  start_error-shown {s} r e fatal i st j =
      let dull =
        kept_dull s.monitor.tegra
          (λ (c : IsClean fl s.monitor.err_ch s.monitor.result s.output).
            true_not_false fatal (In-All (LineNotStart fl) s.output c.lines i))
          (DebugReach-Inv r) in
      In-All (LineNotValid fl) s.output dull.lines j
