-- ===== src/Routing/Order.antt =====
-- The engine states come from a Go map, whose iteration order is not specified. The selection does
-- not depend on it.
use mathlib.Core.List.{Permᴰ}
use mathlib.Core.List.Permᴰ
use edge_sched.Prelude.{
  ◌≡◌, refl, ap, Bool-cases, inl, inr, List, [], ◌∷◌, keep, Permᴰ-keep, Permᴰ-In, In, here,
}
use edge_sched.Prelude.Sort.{DistinctBy, sort_by-perm_eq, keep-DistinctBy}
use edge_sched.Prelude.Floats.{Floats}
use edge_sched.Sysmonitor.State.{State}
use edge_sched.Routing.Pick.{EngineState, engine_name, is_healthy, TieBreaker, filter_healthy, pick}
use edge_sched.Routing.Policy.{
  Request, is_allowed, filter_to_cheap_tier, or_healthy, pick_healthy, Kind, least_queue,
  thermal_aware, Policy, is_hot, candidates, select_engine,
}
use edge_sched.Routing.Candidates.{cheap_names}

not-In-nil : {e : EngineState} → In e [] → ⊥
not-In-nil j = elim j [ ]

pick-perm_eq :
    (tb : TieBreaker) (xs ys : List EngineState)
    → Permᴰ xs ys
    → DistinctBy engine_name xs
    → pick tb xs ≡ pick tb ys
unfolding pick
pick-perm_eq tb [] [] p d = refl
pick-perm_eq tb [] (y ∷ ys) p d = absurd (not-In-nil (Permᴰ-In (Permᴰ.symm p) (here refl)))
pick-perm_eq tb (x ∷ xs) [] p d = absurd (not-In-nil (Permᴰ-In p (here refl)))
pick-perm_eq tb (x ∷ xs) (y ∷ ys) p d = rw (sort_by-perm_eq engine_name p d)

pick_healthy-perm_eq :
    (tb : TieBreaker) (hs gs cs ds : List EngineState)
    → Permᴰ hs gs
    → Permᴰ cs ds
    → DistinctBy engine_name cs
    → pick_healthy tb hs cs ≡ pick_healthy tb gs ds
unfolding pick_healthy
pick_healthy-perm_eq tb [] [] cs ds p q d = refl
pick_healthy-perm_eq tb [] (g ∷ gs) cs ds p q d =
    absurd (not-In-nil (Permᴰ-In (Permᴰ.symm p) (here refl)))
pick_healthy-perm_eq tb (h ∷ hs) [] cs ds p q d = absurd (not-In-nil (Permᴰ-In p (here refl)))
pick_healthy-perm_eq tb (h ∷ hs) (g ∷ gs) cs ds p q d = pick-perm_eq tb cs ds q d

or_healthy-perm :
    (hs gs cs ds : List EngineState)
    → Permᴰ hs gs
    → Permᴰ cs ds
    → Permᴰ (or_healthy hs cs) (or_healthy gs ds)
unfolding or_healthy
or_healthy-perm hs gs [] [] p q = p
or_healthy-perm hs gs [] (d ∷ ds) p q = absurd (not-In-nil (Permᴰ-In (Permᴰ.symm q) (here refl)))
or_healthy-perm hs gs (c ∷ cs) [] p q = absurd (not-In-nil (Permᴰ-In q (here refl)))
or_healthy-perm hs gs (c ∷ cs) (d ∷ ds) p q = q

or_healthy-DistinctBy :
    (hs cs : List EngineState)
    → DistinctBy engine_name hs
    → DistinctBy engine_name cs
    → DistinctBy engine_name (or_healthy hs cs)
unfolding or_healthy
or_healthy-DistinctBy hs [] d e = d
or_healthy-DistinctBy hs (c ∷ cs) d e = e

module _ (fl : Floats) where
  candidates-perm :
      (k : Kind fl) (sys : State fl) (hs gs : List EngineState)
      → Permᴰ hs gs
      → Permᴰ (candidates fl k sys hs) (candidates fl k sys gs)
  unfolding candidates filter_to_cheap_tier
  candidates-perm least_queue sys hs gs p = p
  candidates-perm (thermal_aware t) sys hs gs p = elim (Bool-cases (is_hot fl t sys)) [
    | inl hot ↦ rw hot (or_healthy-perm hs gs _ _ p (Permᴰ-keep (is_allowed (cheap_names t)) p))
    | inr cool ↦ rw cool p
  ]

  candidates-DistinctBy :
      (k : Kind fl) (sys : State fl) (hs : List EngineState)
      → DistinctBy engine_name hs
      → DistinctBy engine_name (candidates fl k sys hs)
  unfolding candidates filter_to_cheap_tier
  candidates-DistinctBy least_queue sys hs d = d
  candidates-DistinctBy (thermal_aware t) sys hs d = elim (Bool-cases (is_hot fl t sys)) [
    | inl hot ↦ rw hot (
        or_healthy-DistinctBy hs _ d
          (keep-DistinctBy engine_name (is_allowed (cheap_names t)) hs d))
    | inr cool ↦ rw cool d
  ]

  -- The engines have distinct names. Then the selection, and the policy's state after it, are the
  -- same for every order in which the engines are listed.
  pub select_engine-perm_eq :
      (p : Policy fl) (req : Request) (sys : State fl) (xs ys : List EngineState)
      → Permᴰ xs ys
      → DistinctBy engine_name xs
      → select_engine fl p req sys xs ≡ select_engine fl p req sys ys
  unfolding select_engine filter_healthy
  select_engine-perm_eq p req sys xs ys q d =
      let hs = keep is_healthy xs in
      let gs = keep is_healthy ys in
      let r = Permᴰ-keep is_healthy q in
      let e = keep-DistinctBy engine_name is_healthy xs d in
      ap (λ t. (t.0, record p { tb = t.1 }))
        (pick_healthy-perm_eq p.tb hs gs _ _ r (candidates-perm p.kind sys hs gs r)
          (candidates-DistinctBy p.kind sys hs e))
