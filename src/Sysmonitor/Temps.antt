-- ===== src/Sysmonitor/Temps.antt =====
-- The temperature readings of a line, and their maximum.
use edge_sched.Prelude.{
  ◌≡◌, refl, sym, ap, subst, ◌∙◌, ◌⊎◌, inl, inr, true, false, Bool-cases, true_not_false, List, [],
  ◌∷◌, Option, none, some, some_inj, All, In, In-All, arith, here, there,
}
use edge_sched.Prelude.Int.{ℤ, negsuc}
use edge_sched.Prelude.Bytes.{Bytes}
use edge_sched.Prelude.Maps.{GoMap, put}
use edge_sched.Prelude.Regexp.{find_all, find_first, ◌>>=◌}
use edge_sched.Prelude.Decimal.{atoi}
use edge_sched.Prelude.Floats.{Floats, IsIeee}
use edge_sched.Sysmonitor.Parse.{
  temp_at, gpu_util_at, ram_at, power_at, TegraFields, no_fields, with_gpu, with_ram, with_power,
  add_temp, add_temps, with_temps, start_max, parse_tegrastats_line,
}

module _ (fl : Floats) (ieee : IsIeee fl) where
  open fl use {F, lt, is_nan, parse}

  -- `m` is not below the reading of the match `t`, if that parses.
  abbrev pub NotBelow : F → Bytes × Bytes → Type 0
  NotBelow m t = (v : F) → parse t.1 ≡ some v → lt m v ≡ false

  -- What the loop of the readings ends with.
  record Maximum (start m : F) (ts : List (Bytes × Bytes)) : Type 0 where
    above_start : lt m start ≡ false
    above_all : All (NotBelow m) ts
    attained : (m ≡ start) ⊎ ((t : Bytes × Bytes) × In t ts × (parse t.1 ≡ some m))
    not_nan : is_nan m ≡ false

  neg_trans : (a b c : F) → is_nan b ≡ false → lt a b ≡ false → lt b c ≡ false → lt a c ≡ false
  neg_trans a b c n h k = elim (Bool-cases (lt a c)) [
    | inl less ↦ absurd (true_not_false (ieee.lt_weak a b c n less h) k)
    | inr e ↦ e
  ]

  not_above : (a b : F) → lt a b ≡ true → lt b a ≡ false
  not_above a b h = elim (Bool-cases (lt b a)) [
    | inl less ↦ absurd (true_not_false (ieee.lt_trans a b a h less) (ieee.lt_irrefl a))
    | inr e ↦ e
  ]

  none_not_some : {v : F} → none ≡ some v → ⊥
  none_not_some h = cc

  later_reading :
      {start m : F} (t : Bytes × Bytes) (ts : List (Bytes × Bytes))
      → (m ≡ start) ⊎ ((u : Bytes × Bytes) × In u ts × (parse u.1 ≡ some m))
      → (m ≡ start) ⊎ ((u : Bytes × Bytes) × In u (t ∷ ts) × (parse u.1 ≡ some m))
  later_reading t ts (inl e) = inl e
  later_reading t ts (inr (u, j, e)) = inr (u, there j, e)

  this_reading :
      {start m v : F} (t : Bytes × Bytes) (ts : List (Bytes × Bytes))
      → parse t.1 ≡ some v
      → (m ≡ v) ⊎ ((u : Bytes × Bytes) × In u ts × (parse u.1 ≡ some m))
      → (m ≡ start) ⊎ ((u : Bytes × Bytes) × In u (t ∷ ts) × (parse u.1 ≡ some m))
  this_reading t ts p (inl e) = inr (t, here refl, p ∙ ap some (sym e))
  this_reading t ts p (inr (u, j, e)) = inr (u, there j, e)

  -- One round of the loop, with what the later rounds do.
  add_temp-Maximum :
      (ts : List (Bytes × Bytes)) (name text : Bytes) (o : Option F) (temps : GoMap F) (start : F)
      → ((temps' : GoMap F) (s : F)
          → is_nan s ≡ false
          → Maximum s (add_temps fl ts (temps', s)).1 ts)
      → parse text ≡ o
      → is_nan start ≡ false
      → Maximum start (add_temps fl ts (add_temp fl name o (temps, start))).1 ((name, text) ∷ ts)
  unfolding add_temp
  add_temp-Maximum ts name text none temps start ih e n =
      let v = ih temps start n in
      record {
        above_start = v.above_start;
        above_all = (λ x p. absurd (none_not_some (sym e ∙ p)), v.above_all);
        attained = later_reading (name, text) ts v.attained;
        not_nan = v.not_nan;
      }
  add_temp-Maximum ts name text (some val) temps start ih e n = elim (Bool-cases (lt start val)) [
    | inl less ↦
        let real = (ieee.lt-not_nan start val less).1 in
        let v = ih (put name val temps) val real in
        let m = (add_temps fl ts (put name val temps, val)).1 in
        rw less (record {
          above_start = neg_trans m val start real v.above_start (not_above start val less);
          above_all = (
            λ x p. subst (λ y. lt m y ≡ false) (some_inj (sym e ∙ p)) v.above_start,
            v.above_all,
          );
          attained = this_reading (name, text) ts e v.attained;
          not_nan = v.not_nan;
        })
    | inr same ↦
        let v = ih (put name val temps) start n in
        let m = (add_temps fl ts (put name val temps, start)).1 in
        let below = neg_trans m start val n v.above_start same in
        rw same (record {
          above_start = v.above_start;
          above_all =
              (λ x p. subst (λ y. lt m y ≡ false) (some_inj (sym e ∙ p)) below, v.above_all);
          attained = later_reading (name, text) ts v.attained;
          not_nan = v.not_nan;
        })
  ]

  add_temps-Maximum :
      (ts : List (Bytes × Bytes)) (temps : GoMap F) (start : F)
      → is_nan start ≡ false
      → Maximum start (add_temps fl ts (temps, start)).1 ts
  unfolding add_temps
  add_temps-Maximum [] temps start n = record {
    above_start = ieee.lt_irrefl start;
    above_all = tt;
    attained = inl refl;
    not_nan = n;
  }
  add_temps-Maximum ((name, text) ∷ ts) temps start n =
      add_temp-Maximum ts name text (parse text) temps start (add_temps-Maximum ts) refl n

  with_temps-max :
      (r : GoMap F × F) (h : TegraFields fl)
      → h.has_temps ≡ false
      → (with_temps fl r h).has_temps ≡ true
      → (with_temps fl r h).max_temp_c ≡ r.1
  unfolding with_temps
  with_temps-max ([], m) h n e = absurd (true_not_false e n)
  with_temps-max (t ∷ ts, m) h n e = refl

  -- Before the temperatures are read there are none.
  with_gpu-has_temps :
      (v : Option F) (f : TegraFields fl) → (with_gpu fl v f).has_temps ≡ f.has_temps
  unfolding with_gpu
  with_gpu-has_temps none f = refl
  with_gpu-has_temps (some v) f = refl

  with_ram-has_temps :
      (u t : Option ℤ) (f : TegraFields fl) → (with_ram fl u t f).has_temps ≡ f.has_temps
  unfolding with_ram
  with_ram-has_temps (some u) (some t) f = refl
  with_ram-has_temps u t f = refl

  with_power-has_temps :
      (v : Option F) (f : TegraFields fl) → (with_power fl v f).has_temps ≡ f.has_temps
  unfolding with_power
  with_power-has_temps none f = refl
  with_power-has_temps (some v) f = refl

  -- The maximum of a line that has temperatures.
  line_max-Maximum :
      (line : Bytes)
      → (parse_tegrastats_line fl line).has_temps ≡ true
      → Maximum (start_max fl) (parse_tegrastats_line fl line).max_temp_c (find_all temp_at line)
  unfolding parse_tegrastats_line
  line_max-Maximum line has =
      let ts = find_all temp_at line in
      let r = add_temps fl ts ([], start_max fl) in
      let ram = find_first ram_at line in
      let f = with_gpu fl (find_first gpu_util_at line >>= parse) (no_fields fl) in
      let g = with_ram fl (ram >>= λ m. atoi m.0) (ram >>= λ m. atoi m.1) f in
      let h = with_power fl (find_first power_at line >>= parse) g in
      let v = add_temps-Maximum ts [] (start_max fl) (ieee.of_int-not_nan (negsuc 999)) in
      let before : h.has_temps ≡ false =
        with_power-has_temps _ g ∙ with_ram-has_temps _ _ f ∙ with_gpu-has_temps _ (no_fields fl) in
      let same : (with_temps fl r h).max_temp_c ≡ r.1 = with_temps-max r h before has in
      subst (λ m. Maximum (start_max fl) m ts) (sym same) v

  -- If a line has temperatures, its maximum is not below any reading of the line that parses, nor
  -- below -1000; and it is one of the readings, or -1000.
  pub max_temp_c-Maximum :
      (line : Bytes)
      → (parse_tegrastats_line fl line).has_temps ≡ true
      → let m = (parse_tegrastats_line fl line).max_temp_c in
        (lt m (start_max fl) ≡ false)
        × All (NotBelow m) (find_all temp_at line)
        × ((m ≡ start_max fl)
            ⊎ ((t : Bytes × Bytes) × In t (find_all temp_at line) × (parse t.1 ≡ some m)))
  max_temp_c-Maximum line has =
      let v = line_max-Maximum line has in (v.above_start, v.above_all, v.attained)

  -- A line with temperatures and a reading at a threshold or above has its maximum there too.
  pub max_temp_c-above :
      (line : Bytes) (threshold v : F) (t : Bytes × Bytes)
      → (parse_tegrastats_line fl line).has_temps ≡ true
      → In t (find_all temp_at line)
      → parse t.1 ≡ some v
      → is_nan threshold ≡ false
      → is_nan v ≡ false
      → fl.le threshold v ≡ true
      → fl.le threshold (parse_tegrastats_line fl line).max_temp_c ≡ true
  max_temp_c-above line threshold v t has j e n k above =
      let m = (parse_tegrastats_line fl line).max_temp_c in
      let w = line_max-Maximum line has in
      let below : lt m v ≡ false = In-All (NotBelow m) (find_all temp_at line) w.above_all j v e in
      let reached : lt v threshold ≡ false =
        ground (arith, ieee.le-not_lt threshold v n k, above) in
      let no_lower = neg_trans m v threshold k below reached in
      ground (arith, ieee.le-not_lt threshold m n w.not_nan, no_lower)
