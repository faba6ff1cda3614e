-- ===== src/Sysmonitor/Supervision.antt =====
-- What `Run` returns, and when.
use edge_sched.Prelude.{
  ◌+◌, ◌≤◌, ◌≡◌, ◌≢◌, refl, ap, ◌⊎◌, inl, inr, if◌then◌else◌, Bool, true, false, [], ◌∷◌, Option,
  none, some, length, length-append, All, All-append, arith,
}
use edge_sched.Prelude.Indexed.{All-later}
use edge_sched.Prelude.Bytes.{Bytes}
use edge_sched.Prelude.Floats.{Floats}
use edge_sched.Sysmonitor.Loops.{
  LoopError, exited_unexpectedly, TegraPhase, scanning, waited, returned, NvpPhase, polling,
  selecting, stopped, ctx_err, Supervisor, start_run, tegra_returns, wait_returns, run_returns,
  Step, cancels, pipe_fails, start_fails, starts, loads_line, stores_line, exits, ends, query_fails,
  loads_mode, stores_mode, ticks, nvp_ends, returns, Reach, begun, later,
}
use edge_sched.Sysmonitor.Explained.{
  tegra_sent, nvp_sent, run_received, Explained, ResultExplained, Explained-later,
  ResultExplained-later, run_result-Explained,
}

module _ (fl : Floats) where
  record Inv (s : Supervisor fl) : Type 0 where
    sent : length s.err_ch + run_received s.result ≡ tegra_sent s.tegra + nvp_sent s.nvp
    stopped_late : s.nvp ≡ stopped → s.cancelled ≡ true
    channel : All (Explained s.cancelled s.tegra) s.err_ch
    why : ResultExplained s.cancelled s.tegra s.result

  begun-Inv : Inv (start_run fl)
  unfolding start_run
  begun-Inv = record { sent = refl; stopped_late = λ e. absurd (cc); channel = tt; why = tt }

  -- The tegrastats goroutine moves on, and sends nothing.
  moves-Inv :
      (s : Supervisor fl) (p : TegraPhase)
      → tegra_sent s.tegra ≡ 0
      → tegra_sent p ≡ 0
      → Inv s
      → Inv (record s { tegra = p })
  moves-Inv s p a b v = record {
    sent = omega (arith, a, b, v.sent);
    stopped_late = v.stopped_late;
    channel = All-later (Explained-later _ _ _ _ (λ h. h) (not_yet a)) s.err_ch v.channel;
    why = ResultExplained-later _ _ _ _ (λ h. h) (not_yet a) s.result v.why;
  }
    where
      not_yet : {q : TegraPhase} → tegra_sent s.tegra ≡ 0 → s.tegra ≡ returned → q ≡ returned
      not_yet h e = absurd (omega (arith, h, ap tegra_sent e))

  tegra_returns-Inv :
      (s : Supervisor fl) (e : Option LoopError)
      → tegra_sent s.tegra ≡ 0
      → Explained s.cancelled returned e
      → Inv s
      → Inv (tegra_returns fl s e)
  unfolding tegra_returns
  tegra_returns-Inv s e a h v = record {
    sent = omega (arith, length-append s.err_ch (e ∷ []), a, v.sent);
    stopped_late = v.stopped_late;
    channel =
        All-append _ s.err_ch (e ∷ [])
          (All-later (Explained-later _ _ _ _ (λ k. k) (λ k. refl)) s.err_ch v.channel) (h, tt);
    why = ResultExplained-later _ _ _ _ (λ k. k) (λ k. refl) s.result v.why;
  }

  wait_returns-Inv :
      (s : Supervisor fl) (wait : Option Bytes)
      → s.tegra ≡ scanning
      → Inv s
      → Inv (wait_returns fl s wait)
  unfolding wait_returns
  wait_returns-Inv s none e v = moves-Inv s waited (ap tegra_sent e) refl v
  wait_returns-Inv s (some x) e v =
      either s.cancelled (moves-Inv s waited (ap tegra_sent e) refl v)
        (tegra_returns-Inv s (some (exited_unexpectedly x)) (ap tegra_sent e) refl v)
    where
      either : {t u : Supervisor fl} (b : Bool) → Inv t → Inv u → Inv (if b then t else u)
      either true h k = h
      either false h k = k

  ctx_err-Explained : (c : Bool) → Explained c returned (ctx_err c)
  ctx_err-Explained true = (refl, refl)
  ctx_err-Explained false = inr refl

  Step-Inv : {s t : Supervisor fl} → Step fl s t → Inv s → Inv t
  unfolding run_returns
  Step-Inv {s} cancels v = record {
    sent = v.sent;
    stopped_late = λ e. refl;
    channel = All-later (Explained-later _ _ _ _ (λ h. refl) (λ h. h)) s.err_ch v.channel;
    why = ResultExplained-later _ _ _ _ (λ h. refl) (λ h. h) s.result v.why;
  }
  Step-Inv {s} (pipe_fails x e) v = tegra_returns-Inv s _ (ap tegra_sent e) refl v
  Step-Inv {s} (start_fails x e) v = tegra_returns-Inv s _ (ap tegra_sent e) refl v
  Step-Inv {s} (starts e) v = moves-Inv s scanning (ap tegra_sent e) refl v
  Step-Inv (loads_line now line e f) v = record {
    sent = v.sent;
    stopped_late = v.stopped_late;
    channel = v.channel;
    why = v.why;
  }
  Step-Inv (stores_line e) v = record {
    sent = v.sent;
    stopped_late = v.stopped_late;
    channel = v.channel;
    why = v.why;
  }
  Step-Inv {s} (exits wait e f) v = wait_returns-Inv s wait e v
  Step-Inv {s} (ends e) v =
      tegra_returns-Inv s _ (ap tegra_sent e) (ctx_err-Explained s.cancelled) v
  Step-Inv (query_fails e) v = record {
    sent = omega (arith, ap nvp_sent e, v.sent);
    stopped_late = λ h. absurd (cc);
    channel = v.channel;
    why = v.why;
  }
  Step-Inv (loads_mode out e f) v = record {
    sent = v.sent;
    stopped_late = v.stopped_late;
    channel = v.channel;
    why = v.why;
  }
  Step-Inv (stores_mode e) v = record {
    sent = omega (arith, ap nvp_sent e, v.sent);
    stopped_late = λ h. absurd (cc);
    channel = v.channel;
    why = v.why;
  }
  Step-Inv (ticks e) v = record {
    sent = omega (arith, ap nvp_sent e, v.sent);
    stopped_late = λ h. absurd (cc);
    channel = v.channel;
    why = v.why;
  }
  Step-Inv {s} (nvp_ends e c) v = record {
    sent = omega (arith, ap nvp_sent e, length-append s.err_ch (none ∷ []), v.sent);
    stopped_late = λ h. c;
    channel = All-append _ s.err_ch (none ∷ []) v.channel (inl c, tt);
    why = v.why;
  }
  Step-Inv {s} (returns e rest n f) v =
      let (h, hs) : All (Explained s.cancelled s.tegra) (e ∷ rest) = rw f at v.channel in
      record {
        sent = omega (arith, v.sent, ap length f, ap run_received n);
        stopped_late = v.stopped_late;
        channel = hs;
        why = run_result-Explained s.cancelled s.tegra e h;
      }

  Reach-Inv : {s : Supervisor fl} → Reach fl s → Inv s
  Reach-Inv begun = begun-Inv
  Reach-Inv (later r st) = Step-Inv st (Reach-Inv r)

  -- In every reachable state the channel of errors holds at most two, so that no send to it blocks;
  -- `runNvpmodel` has returned only if the context has ended; and if `Run` has returned an error,
  -- that is one of the three of `runTegrastats` itself, which has returned, and if it has returned
  -- nil, the context has ended or `runTegrastats` has returned.
  pub Reach-supervised :
      {s : Supervisor fl}
      → Reach fl s
      → (length s.err_ch ≤ 2)
        × (s.nvp ≢ stopped ⊎ (s.cancelled ≡ true))
        × ResultExplained s.cancelled s.tegra s.result
  Reach-supervised {s} r =
      let v = Reach-Inv r in
      (
        omega (arith, v.sent, tegra_sent-le-one s.tegra, nvp_sent-le-one s.nvp),
        stops s.nvp v.stopped_late,
        v.why,
      )
    where
      tegra_sent-le-one : (p : TegraPhase) → tegra_sent p ≤ 1
      tegra_sent-le-one p = ground arith

      nvp_sent-le-one : (p : NvpPhase) → nvp_sent p ≤ 1
      nvp_sent-le-one p = ground arith

      stops :
          (p : NvpPhase) → (p ≡ stopped → s.cancelled ≡ true) → p ≢ stopped ⊎ (s.cancelled ≡ true)
      stops stopped h = inr (h refl)
      stops polling h = inl (λ e. cc)
      stops selecting h = inl (λ e. cc)
