-- ===== src/Healthcheck/Status.antt =====
-- What `Healthy` answers, in every state that the polling reaches.
use edge_sched.Prelude.{
  ◌≡◌, ◌≢◌, refl, sym, ap, subst, ◌∙◌, ◌⊎◌, inl, inr, Bool, true, false, Bool-cases, if◌then◌else◌,
  List, [], ◌∷◌, Option, none, some, Option-cases, true_not_false, All, arith,
}
use edge_sched.Prelude.Int.{ℤ}
use edge_sched.Prelude.Bytes.{Bytes, str_eq, str_eq_iff}
use edge_sched.Prelude.Sort.{DistinctBy}
use edge_sched.Prelude.Maps.{GoMap, lookup, put, lookup-put, get_or}
use edge_sched.Healthcheck.Monitor.{
  Reply, Monitor, all_up, new, is_healthy_reply, check, healthy, copy, snapshot,
}
use edge_sched.Healthcheck.Polling.{
  Phase, starting, selecting, returned, spawn, Polling, run, checked, first_check, tick, done,
  cancel, Reach, started, later,
}

-- The outcome of the latest check of an engine.
abbrev pub last_outcome : Bytes → List (Bytes × Reply) → Option Bool
last_outcome name [] = none
last_outcome name ((n, r) ∷ cs) =
    if str_eq n name then some (if r.failed then false else r.serving) else last_outcome name cs

abbrev pub is_some {ℓ} : {A : Type ℓ} → Option A → Bool
is_some none = false
is_some (some a) = true

module _ (Client : Type 0) where
  pub lookup-all_up :
      (clients : GoMap Client) (name : Bytes)
      → get_or (lookup name (all_up Client clients)) false ≡ is_some (lookup name clients)
  unfolding all_up lookup
  lookup-all_up [] name = refl
  lookup-all_up ((n, c) ∷ clients) name =
      ground (arith, lookup-put n name true (all_up Client clients), lookup-all_up clients name)

  healthy-check :
      (m : Monitor Client) (n name : Bytes) (r : Reply)
      → healthy Client (check Client m n r) name
        ≡ (if str_eq n name then (if r.failed then false else r.serving) else healthy Client m name)
  unfolding healthy check
  healthy-check m n name r =
      ground (arith, lookup-put n name (is_healthy_reply Client r) m.statuses)

  -- In every state that the polling reaches, `Healthy` answers the outcome of the engine's latest
  -- check, which is `serving` if there was no error and false if there was; before the first check
  -- it answers true exactly for the configured engines.
  pub Reach-healthy :
      {clients : GoMap Client} {interval timeout : ℤ} {s : Polling Client}
      → Reach Client clients interval timeout s
      → (name : Bytes)
      → healthy Client s.monitor name
        ≡ get_or (last_outcome name s.checks) (is_some (lookup name clients))
  unfolding run new healthy checked
  Reach-healthy {clients} started name = lookup-all_up clients name
  Reach-healthy (later {s} r (first_check n reply at)) name =
      ground (arith, healthy-check s.monitor n name reply, Reach-healthy r name)
  Reach-healthy (later {s} r (tick n reply at)) name =
      ground (arith, healthy-check s.monitor n name reply, Reach-healthy r name)
  Reach-healthy (later r (done n at c)) name = Reach-healthy r name
  Reach-healthy (later r cancel) name = Reach-healthy r name

  -- A key of a map is found; a loop exists for configured engines only.
  record Configured (clients : GoMap Client) (s : Polling Client) : Type 0 where
    loops_known : (name : Bytes) → is_some (lookup name s.loops) ≡ is_some (lookup name clients)
    checks_known :
        (name : Bytes)
        → is_some (last_outcome name s.checks) ≡ true
        → is_some (lookup name clients) ≡ true
    first_made :
        (name : Bytes)
        → lookup name s.loops ≡ some selecting ⊎ (lookup name s.loops ≡ some returned)
        → is_some (last_outcome name s.checks) ≡ true

  lookup-spawn :
      (cs : GoMap Client) (name : Bytes)
      → lookup name (spawn Client cs) ≡ (if is_some (lookup name cs) then some starting else none)
  unfolding spawn lookup
  lookup-spawn [] name = refl
  lookup-spawn ((n, c) ∷ cs) name =
      ground (arith, lookup-put n name starting (spawn Client cs), lookup-spawn cs name)

  module _ {clients : GoMap Client} where
    start-Configured :
        (interval timeout : ℤ) → Configured clients (run Client clients interval timeout)
    unfolding run
    start-Configured interval timeout = record {
      loops_known = λ name. ground (arith, lookup-spawn clients name);
      checks_known = λ name h. absurd (cc);
      first_made = λ name h. ground (arith, lookup-spawn clients name);
    }

    checked-Configured :
        {s : Polling Client} (n : Bytes) (r : Reply) (p : Phase)
        → lookup n s.loops ≡ some p
        → Configured clients s
        → Configured clients (checked Client s n r)
    unfolding checked
    checked-Configured {s} n r p at v = record {
      loops_known = λ name. ground (
        arith,
        lookup-put n name selecting s.loops,
        v.loops_known n,
        v.loops_known name,
        str_eq_iff n name,
      );
      checks_known =
          λ name h. ground (arith, v.loops_known n, v.checks_known name, str_eq_iff n name);
      first_made = λ name h.
          ground (arith, lookup-put n name selecting s.loops, v.first_made name, str_eq_iff n name);
    }

    done-Configured :
        {s : Polling Client} (n : Bytes)
        → lookup n s.loops ≡ some selecting
        → Configured clients s
        → Configured clients (record s { loops = put n returned s.loops })
    done-Configured {s} n at v = record {
      loops_known = λ name. ground (
        arith,
        lookup-put n name returned s.loops,
        v.loops_known n,
        v.loops_known name,
        str_eq_iff n name,
      );
      checks_known = v.checks_known;
      first_made = λ name h. ground (
        arith,
        lookup-put n name returned s.loops,
        v.first_made name,
        v.first_made n,
        str_eq_iff n name,
      );
    }

    Reach-Configured :
        {interval timeout : ℤ} {s : Polling Client}
        → Reach Client clients interval timeout s
        → Configured clients s
    Reach-Configured {interval} {timeout} started = start-Configured interval timeout
    Reach-Configured (later r (first_check n reply at)) =
        checked-Configured n reply starting at (Reach-Configured r)
    Reach-Configured (later r (tick n reply at)) =
        checked-Configured n reply selecting at (Reach-Configured r)
    Reach-Configured (later r (done n at c)) = done-Configured n at (Reach-Configured r)
    Reach-Configured (later r cancel) =
        let v = Reach-Configured r in
        record {
          loops_known = v.loops_known;
          checks_known = v.checks_known;
          first_made = v.first_made;
        }

    -- An engine that is not configured is never healthy, in any state that the polling reaches.
    pub Reach-unknown :
        {interval timeout : ℤ} {s : Polling Client}
        → Reach Client clients interval timeout s
        → (name : Bytes) → lookup name clients ≡ none
        → healthy Client s.monitor name ≡ false
    Reach-unknown {s = s} r name missing =
        let v = Reach-Configured r in ground (arith, Reach-healthy r name, v.checks_known name)

    -- A loop that waits in its `select`, or has returned, has made at least one check.
    Reach-first_check :
        {interval timeout : ℤ} {s : Polling Client}
        → Reach Client clients interval timeout s
        → (name : Bytes)
        → lookup name s.loops ≡ some selecting ⊎ (lookup name s.loops ≡ some returned)
        → (b : Bool) × (last_outcome name s.checks ≡ some b) × (healthy Client s.monitor name ≡ b)
    Reach-first_check {s = s} r name at =
        let made = (Reach-Configured r).first_made name at in
        elim (Option-cases (last_outcome name s.checks)) [
          | inl missing ↦ absurd (true_not_false made (ap is_some missing))
          | inr (b, e) ↦
              (b, e, Reach-healthy r name ∙ ap (λ o. get_or o (is_some (lookup name clients))) e)
        ]

  lookup_missing : (k : Bytes) (m : GoMap Bool) → All (λ p. k ≢ p.0) m → lookup k m ≡ none
  unfolding lookup
  lookup_missing k [] h = refl
  lookup_missing k ((j, v) ∷ m) (n, h) = elim (Bool-cases (str_eq j k)) [
    | inl same ↦ absurd (n (sym ((str_eq_iff j k).0 same)))
    | inr other ↦ rw other (lookup_missing k m h)
  ]

  abbrev or_else : Option Bool → Option Bool → Option Bool
  or_else (some v) o = some v
  or_else none o = o

  lookup-copy :
      (out src : GoMap Bool) (k : Bytes)
      → DistinctBy (λ p. p.0) src
      → lookup k (copy Client out src) ≡ or_else (lookup k src) (lookup k out)
  unfolding copy lookup
  lookup-copy out [] k d = refl
  lookup-copy out ((j, v) ∷ src) k (h, d) = elim (Bool-cases (str_eq j k)) [
    | inl same ↦
        let e : j ≡ k = (str_eq_iff j k).0 same in
        let gone = lookup_missing k src (subst (λ x. All (λ p. x ≢ p.0) src) e h) in
        rw same (lookup-copy (put j v out) src k d ∙ ground (arith, gone, lookup-put j k v out))
    | inr other ↦
        rw other (lookup-copy (put j v out) src k d ∙ ground (arith, lookup-put j k v out))
  ]

  -- The keys of the status map are distinct. Then a snapshot has, for every name, what `Healthy`
  -- answers.
  snapshot-healthy :
      (m : Monitor Client) (name : Bytes)
      → DistinctBy (λ p. p.0) m.statuses
      → get_or (lookup name (snapshot Client m)) false ≡ healthy Client m name
  unfolding snapshot healthy
  snapshot-healthy m name d =
      ap (λ o. get_or o false)
        (lookup-copy [] m.statuses name d ∙ or_else-none (lookup name m.statuses))
    where
      or_else-none : (o : Option Bool) → or_else o (lookup name []) ≡ o
      or_else-none none = unfold lookup in refl
      or_else-none (some v) = refl
