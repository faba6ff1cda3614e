-- ===== src/Sysmonitor/Ram.antt =====
-- Reading back the memory field that tegrastats prints.
use edge_sched.Prelude.{
  ℕ, ◌<◌, ◌≡◌, ◌≢◌, refl, ap, ◌∙◌, ◌==◌, ==_iff, true, false, Bool-cases, inl, inr, [], ◌∷◌, ◌++◌,
  Option, none, some, All, In-All, arith,
}
use edge_sched.Prelude.Int.{pos}
use edge_sched.Prelude.Bytes.{Bytes, bytes}
use edge_sched.Prelude.Maps.{GoMap}
use edge_sched.Prelude.Decimal.{
  is_digit, all_digits, itoa_nat, itoa_nat-all_digits, itoa_nat-ne-nil, atoi, atoi-itoa_nat,
}
use edge_sched.Prelude.Regexp.{
  strip_prefix, some_run, some_run-append, all_in, find_first, find_first-append, find_all, ◌>>=◌,
}
use edge_sched.Prelude.Floats.{Floats}
use edge_sched.Sysmonitor.Parse.{
  gpu_util_at, ram_at, power_at, temp_at, TegraFields, no_fields, with_gpu, with_ram, with_power,
  add_temps, with_temps, start_max, parse_tegrastats_line,
}

-- The field as tegrastats prints it: `RAM 3456/7620MB`.
abbrev pub ram_text : ℕ → ℕ → Bytes → Bytes
ram_text used total rest =
    bytes "RAM " ++ (itoa_nat used ++ (b'/' ∷ (itoa_nat total ++ (b'M' ∷ b'B' ∷ rest))))

all_digits-all_in : (s : Bytes) → all_digits s ≡ true → all_in is_digit s ≡ true
all_digits-all_in [] h = refl
all_digits-all_in (c ∷ s) h = ground (arith, all_digits-all_in s)

run_itoa :
    (n c : ℕ) (t : Bytes)
    → is_digit c ≡ false
    → some_run is_digit (itoa_nat n ++ c ∷ t) ≡ some (itoa_nat n, c ∷ t)
run_itoa n c t h =
    some_run-append is_digit (itoa_nat n) c t (itoa_nat-ne-nil n)
      (all_digits-all_in (itoa_nat n) (itoa_nat-all_digits n)) h

ram_at-ram_text :
    (used total : ℕ) (rest : Bytes)
    → ram_at (ram_text used total rest) ≡ some ((itoa_nat used, itoa_nat total), rest)
unfolding ram_at strip_prefix
ram_at-ram_text used total rest =
    let tail = itoa_nat total ++ (b'M' ∷ b'B' ∷ rest) in
    rw (run_itoa used b'/' tail refl, ram_at, strip_prefix)
      (rw (run_itoa total b'M' (b'B' ∷ rest) refl, ram_at, strip_prefix) refl)

ram_at-other : (c : ℕ) (t : Bytes) → c ≢ b'R' → ram_at (c ∷ t) ≡ none
unfolding ram_at strip_prefix
ram_at-other c t h = elim (Bool-cases (c == b'R')) [
  | inl same ↦ absurd (h ((==_iff c b'R').0 same))
  | inr other ↦ rw (other, ram_at, strip_prefix) refl
]

ram_text-ne-nil : (used total : ℕ) (rest : Bytes) → ram_text used total rest ≢ []
ram_text-ne-nil used total rest e = cc

-- No `R` comes before the field. Then the first match of the expression is the field.
find_first-ram_text :
    (pre : Bytes) (used total : ℕ) (rest : Bytes)
    → All (λ c. c ≢ b'R') pre
    → find_first ram_at (pre ++ ram_text used total rest) ≡ some (itoa_nat used, itoa_nat total)
find_first-ram_text pre used total rest h =
    find_first-append ram_at pre (ram_text used total rest) _ rest (ram_text-ne-nil used total rest)
      (ram_at-ram_text used total rest) (λ c t j. ram_at-other c t (In-All _ pre h j))

module _ (fl : Floats) where
  open fl use {F, parse}

  -- The three fields of the memory.
  record SameRam (f g : TegraFields fl) : Type 0 where
    same_has : g.has_ram ≡ f.has_ram
    same_used : g.ram_used_mb ≡ f.ram_used_mb
    same_total : g.ram_total_mb ≡ f.ram_total_mb

  with_power-SameRam : (v : Option F) (f : TegraFields fl) → SameRam f (with_power fl v f)
  unfolding with_power
  with_power-SameRam none f = record { same_has = refl; same_used = refl; same_total = refl }
  with_power-SameRam (some v) f = record { same_has = refl; same_used = refl; same_total = refl }

  with_temps-SameRam : (r : GoMap F × F) (f : TegraFields fl) → SameRam f (with_temps fl r f)
  unfolding with_temps
  with_temps-SameRam ([], m) f = record { same_has = refl; same_used = refl; same_total = refl }
  with_temps-SameRam (t ∷ ts, m) f = record { same_has = refl; same_used = refl; same_total = refl }

  -- A line has the memory field as tegrastats prints it, of two numbers that fit an int, with no `R`
  -- before it and anything after it. Then parsing the line gives the two numbers back.
  pub parse_tegrastats_line-ram_text :
      (pre : Bytes) (used total : ℕ) (rest : Bytes)
      → All (λ c. c ≢ b'R') pre
      → used < 9223372036854775808
      → total < 9223372036854775808
      → let f = parse_tegrastats_line fl (pre ++ ram_text used total rest) in
        (f.has_ram ≡ true) × (f.ram_used_mb ≡ pos used) × (f.ram_total_mb ≡ pos total)
  unfolding parse_tegrastats_line with_ram
  parse_tegrastats_line-ram_text pre used total rest h k l =
      let line = pre ++ ram_text used total rest in
      let r = add_temps fl (find_all temp_at line) ([], start_max fl) in
      let ram = find_first ram_at line in
      let f = with_gpu fl (find_first gpu_util_at line >>= parse) (no_fields fl) in
      let g = with_ram fl (ram >>= λ m. atoi m.0) (ram >>= λ m. atoi m.1) f in
      let e : g ≡ with_ram fl (some (pos used)) (some (pos total)) f =
        rw (find_first-ram_text pre used total rest h, atoi-itoa_nat used k, atoi-itoa_nat total l)
          refl in
      let p = with_power-SameRam (find_first power_at line >>= parse) g in
      let t = with_temps-SameRam r (with_power fl (find_first power_at line >>= parse) g) in
      (
        t.same_has ∙ p.same_has ∙ ap (λ x. x.has_ram) e,
        t.same_used ∙ p.same_used ∙ ap (λ x. x.ram_used_mb) e,
        t.same_total ∙ p.same_total ∙ ap (λ x. x.ram_total_mb) e,
      )
