-- ===== src/Sysmonitor/Merge.antt =====
-- What the snapshot holds after any number of lines, and what the two loops do to each other.
use edge_sched.Prelude.{
  ℕ, ◌≡◌, refl, if◌then◌else◌, Bool, true, false, List, [], ◌∷◌, Option, none, some,
}
use edge_sched.Prelude.Bytes.{Bytes}
use edge_sched.Prelude.Floats.{Floats}
use edge_sched.Sysmonitor.State.{State}
use edge_sched.Sysmonitor.Parse.{TegraFields, parse_tegrastats_line, parse_nvpmodel_output}
use edge_sched.Sysmonitor.Monitor.{
  Monitor, current, merge, apply_tegrastats_line, apply_lines, with_mode, poll_nvpmodel, Shared,
  tegra_load, tegra_store, nvp_load, nvp_store, exec_all,
}

module _ (fl : Floats) where
  open fl use {F}

  -- The value of the last line that has one, or else the value before the lines.
  abbrev pub last_given :
      {A : Type 0} → (TegraFields fl → Bool) → (TegraFields fl → A) → A → List (ℕ × Bytes) → A
  last_given has get before [] = before
  last_given has get before ((now, line) ∷ lines) =
      let f = parse_tegrastats_line fl line in
      last_given has get (if has f then get f else before) lines

  -- Each reading of `t` is that of the last line which has it, or that of `s`; the power mode is that
  -- of `s`; and `t` is valid if `s` is or there is a line.
  abbrev pub HasLastGiven : State fl → List (ℕ × Bytes) → State fl → Type 0
  HasLastGiven s lines t =
      (t.gpu_util_pct ≡ last_given (λ f. f.has_gpu) (λ f. f.gpu_util_pct) s.gpu_util_pct lines)
      × (t.ram_used_mb ≡ last_given (λ f. f.has_ram) (λ f. f.ram_used_mb) s.ram_used_mb lines)
      × (t.ram_total_mb ≡ last_given (λ f. f.has_ram) (λ f. f.ram_total_mb) s.ram_total_mb lines)
      × (t.power_mw ≡ last_given (λ f. f.has_power) (λ f. f.power_mw) s.power_mw lines)
      × (t.max_temp_c ≡ last_given (λ f. f.has_temps) (λ f. f.max_temp_c) s.max_temp_c lines)
      × (t.temps ≡ last_given (λ f. f.has_temps) (λ f. f.temps) s.temps lines)
      × (t.power_mode ≡ s.power_mode)
      × (t.valid ≡ (elim lines [ [] ↦ s.valid | l ∷ ls ↦ true ]))

  -- After any number of lines each reading of the snapshot is that of the last line which had it,
  -- or the one before the lines; the power mode is as before; and the snapshot is valid if it was
  -- or there was a line.
  pub apply_lines-last_given :
      (m : Monitor fl) (lines : List (ℕ × Bytes))
      → HasLastGiven (current fl m) lines (current fl (apply_lines fl m lines))
  unfolding apply_lines
  apply_lines-last_given m [] = (refl, refl, refl, refl, refl, refl, refl, refl)
  apply_lines-last_given m ((now, line) ∷ lines) =
      let ih = apply_lines-last_given (apply_tegrastats_line fl m now line) lines in
      (ih.0, ih.1, ih.2, ih.3, ih.4, ih.5, ih.6, valid_after lines ih.7)
    where
      valid_after :
          {t : Bool} (ls : List (ℕ × Bytes))
          → t ≡ (elim ls [ [] ↦ true | l ∷ ls ↦ true ])
          → t ≡ true
      valid_after [] e = e
      valid_after (l ∷ ls) e = e

  -- Run one after the other, in either order, the update of a line and that of the power mode lead
  -- to the same snapshot.
  line-mode_comm :
      (m : Monitor fl) (now : ℕ) (line : Bytes) (out : Option Bytes)
      → poll_nvpmodel fl (apply_tegrastats_line fl m now line) out
        ≡ apply_tegrastats_line fl (poll_nvpmodel fl m out) now line
  unfolding poll_nvpmodel apply_tegrastats_line
  line-mode_comm m now line none = refl
  line-mode_comm m now line (some out) = go (parse_nvpmodel_output out)
    where
      go :
          (r : Bytes × Bool)
          → record m {
            state = with_mode fl r (merge fl (parse_tegrastats_line fl line) now m.state);
          }
            ≡ record m {
              state = merge fl (parse_tegrastats_line fl line) now (with_mode fl r m.state);
            }
      go (mode, true) = refl
      go (mode, false) = refl

  -- The two loops overlap: the power mode's loop loads the pointer before a line is applied, and
  -- stores after it. Where its output parses, the line is lost: the snapshot is the one from before
  -- the line but for the power mode. In particular it is valid only if it was before the line.
  pub overlap-loses_line :
      (s : Shared fl) (now : ℕ) (line out mode : Bytes)
      → parse_nvpmodel_output out ≡ (mode, true)
      → let t = exec_all fl (nvp_load out ∷ tegra_load now line ∷ tegra_store ∷ nvp_store ∷ []) s in
        (t.stored ≡ record (s.stored) { power_mode = mode }) × (t.stored.valid ≡ s.stored.valid)
  unfolding exec_all
  overlap-loses_line s now line out mode e = (rw e, rw e)
