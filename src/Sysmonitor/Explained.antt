-- ===== src/Sysmonitor/Explained.antt =====
-- Why `Run` and its goroutines return what they return.
use edge_sched.Prelude.{
  ℕ, ◌≡◌, refl, ◌⊎◌, inl, inr, if◌then◌else◌, Bool, true, false, true_not_false, Option, none, some,
}
use edge_sched.Sysmonitor.Loops.{
  LoopError, stdout_pipe, starting_tegrastats, exited_unexpectedly, context_ended, TegraPhase,
  returned, NvpPhase, stopped,
}

-- 1 for a goroutine that has sent its error.
abbrev pub tegra_sent : TegraPhase → ℕ
tegra_sent returned = 1
tegra_sent _ = 0

abbrev pub nvp_sent : NvpPhase → ℕ
nvp_sent stopped = 1
nvp_sent _ = 0

-- 1 once `Run` has returned.
abbrev pub run_received : Option (Option LoopError) → ℕ
run_received none = 0
run_received (some r) = 1

-- Why a goroutine sent what it sent. A nil error: the context has ended, or tegrastats has exited by
-- itself without an error. An error: `runTegrastats` has returned it, and if it is the context's,
-- that has ended.
abbrev pub Explained : Bool → TegraPhase → Option LoopError → Type 0
Explained cancelled tegra none = (cancelled ≡ true) ⊎ (tegra ≡ returned)
Explained cancelled tegra (some context_ended) = (tegra ≡ returned) × (cancelled ≡ true)
Explained cancelled tegra (some e) = tegra ≡ returned

-- Why `Run` returned what it returned: an error is one of the three of `runTegrastats` itself.
abbrev pub ResultExplained : Bool → TegraPhase → Option (Option LoopError) → Type 0
ResultExplained cancelled tegra none = Unit
ResultExplained cancelled tegra (some none) = (cancelled ≡ true) ⊎ (tegra ≡ returned)
ResultExplained cancelled tegra (some (some context_ended)) = ⊥
ResultExplained cancelled tegra (some (some e)) = tegra ≡ returned

module _ (c c' : Bool) (p p' : TegraPhase) (still : c ≡ true → c' ≡ true)
    (stays : p ≡ returned → p' ≡ returned) where
  pub Explained-later : (e : Option LoopError) → Explained c p e → Explained c' p' e
  Explained-later none (inl h) = inl (still h)
  Explained-later none (inr h) = inr (stays h)
  Explained-later (some context_ended) (h, k) = (stays h, still k)
  Explained-later (some (stdout_pipe e)) h = stays h
  Explained-later (some (starting_tegrastats e)) h = stays h
  Explained-later (some (exited_unexpectedly e)) h = stays h

  pub ResultExplained-later :
      (r : Option (Option LoopError)) → ResultExplained c p r → ResultExplained c' p' r
  ResultExplained-later none h = tt
  ResultExplained-later (some none) (inl h) = inl (still h)
  ResultExplained-later (some none) (inr h) = inr (stays h)
  ResultExplained-later (some (some context_ended)) h = h
  ResultExplained-later (some (some (stdout_pipe e))) h = stays h
  ResultExplained-later (some (some (starting_tegrastats e))) h = stays h
  ResultExplained-later (some (some (exited_unexpectedly e))) h = stays h

-- What `Run` makes of what it receives.
pub run_result-Explained :
    (c : Bool) (p : TegraPhase) (e : Option LoopError)
    → Explained c p e
    → ResultExplained c p (some (if c then none else e))
run_result-Explained true p e h = inl refl
run_result-Explained false p none h = h
run_result-Explained false p (some context_ended) (h, k) = true_not_false k refl
run_result-Explained false p (some (stdout_pipe e)) h = h
run_result-Explained false p (some (starting_tegrastats e)) h = h
run_result-Explained false p (some (exited_unexpectedly e)) h = h
