-- ===== src/Sysmonitor/Parse.antt =====
-- scheduler/internal/sysmonitor/monitor.go: the parsers of a tegrastats line and of the output of
-- nvpmodel. Both are bytes.
use edge_sched.Prelude.{
  ℕ, ◌==◌, not, ◌++◌, if◌then◌else◌, Bool, true, false, List, [], ◌∷◌, Option, none, some,
}
use edge_sched.Prelude.Int.{ℤ, pos, negsuc}
use edge_sched.Prelude.Bytes.{Bytes, bytes}
use edge_sched.Prelude.Maps.{GoMap, put}
use edge_sched.Prelude.Decimal.{is_digit, atoi}
use edge_sched.Prelude.Regexp.{
  is_word, is_decimal, is_space, strip_prefix, run_of, some_run, find_first, find_all, ◌>>=◌,
}
use edge_sched.Prelude.Floats.{Floats}

-- `GR3D_FREQ (\d+)%`
unfoldable pub gpu_util_at : Bytes → Option (Bytes × Bytes)
unfolding strip_prefix some_run
gpu_util_at s = do
  r ← strip_prefix (bytes "GR3D_FREQ ") s
  t ← some_run is_digit r
  rest ← strip_prefix (bytes "%") t.1
  some (t.0, rest)

-- `RAM (\d+)/(\d+)MB`
unfoldable pub ram_at : Bytes → Option ((Bytes × Bytes) × Bytes)
unfolding strip_prefix some_run
ram_at s = do
  r ← strip_prefix (bytes "RAM ") s
  t ← some_run is_digit r
  r' ← strip_prefix (bytes "/") t.1
  u ← some_run is_digit r'
  rest ← strip_prefix (bytes "MB") u.1
  some ((t.0, u.0), rest)

-- `VDD_IN (\d+)mW`
unfoldable pub power_at : Bytes → Option (Bytes × Bytes)
unfolding strip_prefix some_run
power_at s = do
  r ← strip_prefix (bytes "VDD_IN ") s
  t ← some_run is_digit r
  rest ← strip_prefix (bytes "mW") t.1
  some (t.0, rest)

-- `-?`
abbrev pub optional_minus : Bytes → Bytes × Bytes
optional_minus [] = ([], [])
optional_minus (c ∷ s) = if c == b'-' then (c ∷ [], s) else ([], c ∷ s)

-- `(\w+)@(-?[\d.]+)C`
unfoldable pub temp_at : Bytes → Option ((Bytes × Bytes) × Bytes)
unfolding strip_prefix some_run
temp_at s = do
  t ← some_run is_word s
  r ← strip_prefix (bytes "@") t.1
  let m = optional_minus r
  u ← some_run is_decimal m.1
  rest ← strip_prefix (bytes "C") u.1
  some ((t.0, m.0 ++ u.0), rest)

abbrev pub is_not_space : ℕ → Bool
is_not_space c = not (is_space c)

-- `NV Power Mode:\s*(\S+)`
unfoldable pub nvp_mode_at : Bytes → Option (Bytes × Bytes)
unfolding strip_prefix run_of some_run
nvp_mode_at s = do
  r ← strip_prefix (bytes "NV Power Mode:") s
  some_run is_not_space (run_of is_space r).1

-- The mode, and `ok`.
unfoldable pub parse_nvpmodel_output : Bytes → Bytes × Bool
unfolding nvp_mode_at find_first
parse_nvpmodel_output output = elim (find_first nvp_mode_at output) [
  | none ↦ ([], false)
  | some mode ↦ (mode, true)
]

module _ (fl : Floats) where
  open fl use {F, lt, of_int, parse}

  pub record TegraFields : Type 0 where
    pub gpu_util_pct : F
    pub has_gpu : Bool
    pub ram_used_mb : ℤ
    pub ram_total_mb : ℤ
    pub has_ram : Bool
    pub power_mw : F
    pub has_power : Bool
    pub temps : GoMap F
    pub max_temp_c : F
    pub has_temps : Bool

  -- `var f tegraFields`
  abbrev pub no_fields : TegraFields
  no_fields = record {
    gpu_util_pct = of_int (pos 0);
    has_gpu = false;
    ram_used_mb = pos 0;
    ram_total_mb = pos 0;
    has_ram = false;
    power_mw = of_int (pos 0);
    has_power = false;
    temps = [];
    max_temp_c = of_int (pos 0);
    has_temps = false;
  }

  -- The four parts of `parseTegrastatsLine`, in its order.
  unfoldable pub with_gpu : Option F → TegraFields → TegraFields
  with_gpu none f = f
  with_gpu (some v) f = record f { gpu_util_pct = v; has_gpu = true }

  unfoldable pub with_ram : Option ℤ → Option ℤ → TegraFields → TegraFields
  with_ram (some used) (some total) f = record f {
    ram_used_mb = used;
    ram_total_mb = total;
    has_ram = true;
  }
  with_ram used total f = f

  unfoldable pub with_power : Option F → TegraFields → TegraFields
  with_power none f = f
  with_power (some v) f = record f { power_mw = v; has_power = true }

  -- One round of the loop over the temperature matches; a reading that does not parse is skipped.
  unfoldable pub add_temp : Bytes → Option F → GoMap F × F → GoMap F × F
  add_temp name none (temps, max_temp) = (temps, max_temp)
  add_temp name (some val) (temps, max_temp) =
      (put name val temps, if lt max_temp val then val else max_temp)

  unfoldable pub add_temps : List (Bytes × Bytes) → GoMap F × F → GoMap F × F
  unfolding add_temp
  add_temps [] acc = acc
  add_temps ((name, text) ∷ ms) acc = add_temps ms (add_temp name (parse text) acc)

  unfoldable pub with_temps : GoMap F × F → TegraFields → TegraFields
  with_temps ([], max_temp) f = f
  with_temps (t ∷ ts, max_temp) f = record f {
    temps = t ∷ ts;
    max_temp_c = max_temp;
    has_temps = true;
  }

  abbrev pub start_max : F
  start_max = of_int (negsuc 999)

  unfoldable pub parse_tegrastats_line : Bytes → TegraFields
  unfolding gpu_util_at ram_at power_at temp_at find_first find_all with_gpu with_ram with_power
      add_temps with_temps atoi
  parse_tegrastats_line line =
      let f = with_gpu (find_first gpu_util_at line >>= parse) no_fields in
      let ram = find_first ram_at line in
      let g = with_ram (ram >>= λ m. atoi m.0) (ram >>= λ m. atoi m.1) f in
      let h = with_power (find_first power_at line >>= parse) g in
      with_temps (add_temps (find_all temp_at line) ([], start_max)) h
