-- ===== src/Collector/Gather.antt =====
-- scheduler/internal/metrics/metrics.go: what `Collect` sends can be gathered.
use edge_sched.Prelude.{
  ◌≡◌, ◌≢◌, refl, ap, false, true_not_false, Bool-cases, if◌then◌else◌, List, [], ◌∷◌, ◌++◌, map,
  length, All, All-append, inl, inr,
}
use edge_sched.Prelude.Int.{pos}
use edge_sched.Prelude.Bytes.{Bytes, str_eq, str_eq_iff}
use edge_sched.Prelude.Maps.{GoMap}
use edge_sched.Prelude.Sort.{DistinctBy}
use edge_sched.Prelude.Floats.{Floats}
use edge_sched.Sysmonitor.State.{State}
use edge_sched.Sysmonitor.Monitor.{Monitor, current}
use edge_sched.Api.Server.{EnginePool}
use edge_sched.Collector.{
  queue_depth_desc, monitor_valid_desc, Metric, gauge, depths, system_gauges, collect, IsDescribed,
  collect-IsDescribed,
}
use edge_sched.Collector.Registry.{desc_opts}

-- The elements are pairwise distinct.
abbrev pub AreDistinct {ℓ} : {A : Type ℓ} → List A → Type ℓ
AreDistinct [] = Unit
AreDistinct (x ∷ xs) = All (λ y. x ≢ y) xs × AreDistinct xs

differs : (a b : Bytes) → str_eq a b ≡ false → a ≢ b
differs a b h e = true_not_false ((str_eq_iff a b).1 e) h

module _ (fl : Floats) where
  -- What tells a series from another: the name and the values of the labels.
  abbrev pub series : Metric fl → Bytes × List Bytes
  series m = ((desc_opts m.desc).name, m.labels)

  abbrev pub HasLabels : Metric fl → Type 0
  HasLabels m = length m.labels ≡ length (desc_opts m.desc).labels

  depths-HasLabels : (pools : GoMap (EnginePool fl)) → All HasLabels (depths fl pools)
  unfolding depths desc_opts
  depths-HasLabels [] = tt
  depths-HasLabels ((name, pool) ∷ pools) = (refl, depths-HasLabels pools)

  system_gauges-HasLabels : (state : State fl) → All HasLabels (system_gauges fl state)
  unfolding system_gauges desc_opts
  system_gauges-HasLabels state = elim (Bool-cases state.valid) [
    | inl valid ↦ rw valid (refl, (refl, (refl, (refl, tt))))
    | inr not_yet ↦ rw not_yet tt
  ]

  -- The depth of an engine differs from the series of other engines and of the system.
  depth-apart :
      (name : Bytes) (pools : GoMap (EnginePool fl)) (ms : List (Metric fl))
      → All (λ (e : Bytes × EnginePool fl). name ≢ e.0) pools
      → All (λ (y : Bytes × List Bytes). (desc_opts queue_depth_desc).name ≢ y.0) (map series ms)
      → All
          (λ (y : Bytes × List Bytes). ((desc_opts queue_depth_desc).name, name ∷ []) ≢ y)
          (map series (depths fl pools ++ ms))
  unfolding depths
  depth-apart name [] [] h k = tt
  depth-apart name [] (m ∷ ms) h (q, k) =
      ((λ e. q (ap (λ (y : Bytes × List Bytes). y.0) e)), depth-apart name [] ms h k)
  depth-apart name ((n, pool) ∷ pools) ms (d, h) k = (
    (λ e. d (first_label (ap (λ (y : Bytes × List Bytes). y.1) e))),
    depth-apart name pools ms h k,
  )
    where
      first_label : {a b : Bytes} → a ∷ [] ≡ b ∷ [] → a ≡ b
      first_label e = cc

  depths-AreDistinct :
      (pools : GoMap (EnginePool fl)) (ms : List (Metric fl))
      → DistinctBy (λ e. e.0) pools
      → AreDistinct (map series ms)
      → All (λ (y : Bytes × List Bytes). (desc_opts queue_depth_desc).name ≢ y.0) (map series ms)
      → AreDistinct (map series (depths fl pools ++ ms))
  unfolding depths
  depths-AreDistinct [] ms d apart k = apart
  depths-AreDistinct ((name, pool) ∷ pools) ms (h, d) apart k =
      (depth-apart name pools ms h k, depths-AreDistinct pools ms d apart k)

  abbrev system_metrics : State fl → List (Metric fl)
  system_metrics state =
      gauge fl monitor_valid_desc (if state.valid then fl.of_int (pos 1) else fl.of_int (pos 0))
      ∷ system_gauges fl state

  name_apart : {x y : Bytes × List Bytes} → str_eq x.0 y.0 ≡ false → x ≢ y
  name_apart {x = x} {y = y} h e = differs x.0 y.0 h (ap (λ (z : Bytes × List Bytes). z.0) e)

  system-AreDistinct : (state : State fl) → AreDistinct (map series (system_metrics state))
  unfolding system_gauges desc_opts str_eq
  system-AreDistinct state = elim (Bool-cases state.valid) [
    | inl valid ↦ rw valid (
      (name_apart refl, (name_apart refl, (name_apart refl, (name_apart refl, tt)))),
      (
        (name_apart refl, (name_apart refl, (name_apart refl, tt))),
        ((name_apart refl, (name_apart refl, tt)), ((name_apart refl, tt), (tt, tt))),
      ),
    )
    | inr not_yet ↦ rw not_yet (tt, tt)
  ]

  system-apart :
      (state : State fl)
      → All
          (λ (y : Bytes × List Bytes). (desc_opts queue_depth_desc).name ≢ y.0)
          (map series (system_metrics state))
  unfolding system_gauges desc_opts str_eq
  system-apart state = elim (Bool-cases state.valid) [
    | inl valid ↦ rw valid (
      differs _ _ refl,
      (differs _ _ refl, (differs _ _ refl, (differs _ _ refl, (differs _ _ refl, tt)))),
    )
    | inr not_yet ↦ rw not_yet (differs _ _ refl, tt)
  ]

  -- The pools have distinct names. Then every metric that is collected has one of the descriptions
  -- that the registry announces, with a value for each of its labels, and no two have the same name
  -- and label values.
  pub collect-gathers :
      (pools : GoMap (EnginePool fl)) (monitor : Monitor fl)
      → DistinctBy (λ e. e.0) pools
      → All (IsDescribed fl) (collect fl pools monitor)
        × All HasLabels (collect fl pools monitor)
        × AreDistinct (map series (collect fl pools monitor))
  unfolding collect desc_opts
  collect-gathers pools monitor d =
      let state = current fl monitor in
      (
        collect-IsDescribed fl pools monitor,
        All-append HasLabels (depths fl pools) (system_metrics state) (depths-HasLabels pools)
            (refl, system_gauges-HasLabels state),
        depths-AreDistinct pools (system_metrics state) d (system-AreDistinct state)
            (system-apart state),
      )
