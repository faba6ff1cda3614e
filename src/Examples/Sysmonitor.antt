-- ===== src/Examples/Sysmonitor.antt =====
-- A line of tegrastats with a memory field and two temperatures, and an output of nvpmodel.
use edge_sched.Prelude.{
  length, ◌≢◌, ◌≤◌, ℕ, ◌≡◌, ◌⊎◌, refl, true, false, not, List, [], ◌∷◌, ◌++◌, none, some, All, In,
  arith,
}
use edge_sched.Prelude.Int.{ℤ, pos, negsuc, ltz, ltz_irrefl}
use edge_sched.Prelude.Bytes.{Bytes, bytes, str_eq}
use edge_sched.Prelude.Maps.{put}
use edge_sched.Prelude.Decimal.{atoi, natural, value}
use edge_sched.Prelude.Regexp.{strip_prefix, run_of, some_run, find_first, find_all_from, find_all}
use edge_sched.Prelude.Floats.{Floats, IsIeee}
use edge_sched.Sysmonitor.Parse.{
  gpu_util_at, ram_at, power_at, temp_at, nvp_mode_at, parse_nvpmodel_output, with_gpu, with_ram,
  with_power, add_temp, add_temps, with_temps, start_max, parse_tegrastats_line,
}
use edge_sched.Sysmonitor.Monitor.{
  Shared, zero_state, tegra_load, tegra_store, nvp_load, nvp_store, exec_all, new, current,
  apply_lines,
}
use edge_sched.Sysmonitor.Loops.{
  Supervisor, start_run, tegra_returns, wait_returns, run_returns, starts, exits, ends, query_fails,
  returns, selecting, stopped, Reach, begun, later,
}
use edge_sched.Sysmonitor.Explained.{ResultExplained}
use edge_sched.Sysmonitor.Supervision.{Reach-supervised}
use edge_sched.Sysmonitor.Merge.{HasLastGiven, apply_lines-last_given, overlap-loses_line}
use edge_sched.Sysmonitor.Temps.{NotBelow, max_temp_c-Maximum}
use edge_sched.Sysmonitor.Ram.{ram_text, parse_tegrastats_line-ram_text}

-- Whole numbers as floats.
abbrev pub whole : Floats
whole = record {
  F = ℤ;
  F32 = ℤ;
  lt = ltz;
  le = λ a b. not (ltz b a);
  is_nan = λ a. false;
  of_int = λ a. a;
  of_float32 = λ a. a;
  div = λ a b. a;
  parse = atoi;
}

ltz_trans : (a b c : ℤ) → ltz a b ≡ true → ltz b c ≡ true → ltz a c ≡ true
ltz_trans (pos a) (pos b) (pos c) h k = ground arith
ltz_trans (pos a) (pos b) (negsuc c) h k = k
ltz_trans (pos a) (negsuc b) c h k = absurd (ground arith)
ltz_trans (negsuc a) b (pos c) h k = refl
ltz_trans (negsuc a) (pos b) (negsuc c) h k = absurd (ground arith)
ltz_trans (negsuc a) (negsuc b) (negsuc c) h k = ground arith

ltz_weak : (a b c : ℤ) → ltz a c ≡ true → ltz a b ≡ false → ltz b c ≡ true
ltz_weak (pos a) (pos b) (pos c) h k = ground arith
ltz_weak (pos a) (negsuc b) (pos c) h k = refl
ltz_weak (pos a) b (negsuc c) h k = absurd (ground arith)
ltz_weak (negsuc a) (pos b) c h k = absurd (ground arith)
ltz_weak (negsuc a) (negsuc b) (pos c) h k = refl
ltz_weak (negsuc a) (negsuc b) (negsuc c) h k = ground arith

pub whole-IsIeee : IsIeee whole
whole-IsIeee = record {
  lt_irrefl = ltz_irrefl;
  lt_trans = ltz_trans;
  lt-not_nan = λ a b h. (refl, refl);
  le-not_lt = λ a b h k. refl;
  lt_weak = λ a b c n h k. ltz_weak a b c h k;
  of_int-not_nan = λ n. refl;
}

abbrev pub line : Bytes
line = bytes "RAM 34/76MB cpu@-5C gpu@41C"

abbrev out : Bytes
out = bytes "NV Power Mode: MAXN\n"

unfoldable pub parsing : Unit {0}
unfolding parse_tegrastats_line gpu_util_at ram_at power_at temp_at nvp_mode_at
    parse_nvpmodel_output with_gpu with_ram with_power add_temp add_temps with_temps strip_prefix
    run_of some_run find_first find_all_from find_all natural value atoi put str_eq
parsing = tt

max_temp_c_test : (parse_tegrastats_line whole line).max_temp_c ≡ pos 41
unfolding parsing
max_temp_c_test = refl

max_temp_c-Maximum_example :
    let m = (parse_tegrastats_line whole line).max_temp_c in
    (ltz m (start_max whole) ≡ false)
    × All (NotBelow whole whole-IsIeee m) (find_all temp_at line)
    × ((m ≡ start_max whole)
        ⊎ ((t : Bytes × Bytes) × In t (find_all temp_at line) × (atoi t.1 ≡ some m)))
unfolding parsing
max_temp_c-Maximum_example = max_temp_c-Maximum whole whole-IsIeee line refl

parse_tegrastats_line-ram_text_example :
    let f = parse_tegrastats_line whole (bytes "x " ++ ram_text 34 76 (bytes " y")) in
    (f.has_ram ≡ true) × (f.ram_used_mb ≡ pos 34) × (f.ram_total_mb ≡ pos 76)
parse_tegrastats_line-ram_text_example =
    parse_tegrastats_line-ram_text whole (bytes "x ") 34 76 (bytes " y")
      ((λ e. ground arith), ((λ e. ground arith), tt)) (ground arith) (ground arith)

overlap-loses_line_example :
    let s : Shared whole = record {
      stored = zero_state whole;
      tegra_next = none;
      nvp_next = none;
    } in
    let t = exec_all whole (nvp_load out ∷ tegra_load 1 line ∷ tegra_store ∷ nvp_store ∷ []) s in
    (t.stored ≡ record (s.stored) { power_mode = bytes "MAXN" }) × (t.stored.valid ≡ s.stored.valid)
unfolding parsing
overlap-loses_line_example =
    overlap-loses_line whole
      (record { stored = zero_state whole; tegra_next = none; nvp_next = none }) 1 line out
      (bytes "MAXN") refl

abbrev two_lines : List (ℕ × Bytes)
two_lines = (1, line) ∷ (2, bytes "VDD_IN 5mW") ∷ []

apply_lines-last_given_example :
    HasLastGiven whole
      (current whole (new whole))
      two_lines
      (current whole (apply_lines whole (new whole) two_lines))
apply_lines-last_given_example = apply_lines-last_given whole (new whole) two_lines

loop_ops : Unit {0}
unfolding start_run tegra_returns wait_returns run_returns
loop_ops = tt

-- tegrastats exits by itself without an error: `Run` returns nil, while nvpmodel is still polled.
abbrev silent : (s : Supervisor whole) × Reach whole s
unfolding loop_ops
silent = (
  _,
  later
      (later (later (later (later begun (starts refl)) (exits none refl refl)) (ends refl))
        (query_fails refl))
      (returns none [] refl refl),
)

silent_test :
    (silent.0.result ≡ some none) × (silent.0.cancelled ≡ false) × (silent.0.nvp ≡ selecting)
unfolding loop_ops
silent_test = (refl, refl, refl)

Reach-supervised_example :
    (length silent.0.err_ch ≤ 2)
    × (silent.0.nvp ≢ stopped ⊎ (silent.0.cancelled ≡ true))
    × ResultExplained silent.0.cancelled silent.0.tegra silent.0.result
Reach-supervised_example = Reach-supervised whole silent.1
