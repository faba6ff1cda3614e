-- ===== src/Loadgen/Fed.antt =====
-- scheduler/cmd/loadgen/main.go: which paths the goroutine of `main` hands out.
use edge_sched.Prelude.{
  ℕ, ◌+◌, ◌%◌, ◌≡◌, refl, sym, subst, ◌∙◌, Bool, true, false, Bool-cases, inl, inr, ◌⊎◌, List, [],
  ◌∷◌, ◌++◌, append-nil, append_assoc, some, length, length-append, get_elem?, arith,
}
use edge_sched.Prelude.Int.{ℤ, pos, ltz}
use edge_sched.Prelude.Bytes.{Bytes}
use edge_sched.Prelude.Indexed.{Everywhere, Everywhere-snoc}
use edge_sched.Loadgen.Feed.{Producer, one_pass, sustained, paths_closed, producer_of}

module _ (paths : List Bytes) where
  -- The sustained mode has handed out the paths round by round; the other mode each once.
  abbrev pub Fed : Bool → List Bytes → Type 0
  Fed true handed = Everywhere (λ i p. get_elem? paths (i % length paths) ≡ some p) handed
  Fed false handed = handed ≡ paths

  abbrev pub SoFar : Bool → Producer → List Bytes → Type 0
  SoFar true (one_pass rest) handed = ⊥
  SoFar true (sustained idx) handed = Fed true handed × (length handed ≡ idx)
  SoFar true paths_closed handed = Fed true handed
  SoFar false (one_pass rest) handed = handed ++ rest ≡ paths
  SoFar false (sustained idx) handed = ⊥
  SoFar false paths_closed handed = Fed false handed

  pub SoFar-hands_out :
      (b : Bool) (p : Bytes) (rest handed : List Bytes)
      → SoFar b (one_pass (p ∷ rest)) handed
      → SoFar b (one_pass rest) (handed ++ p ∷ [])
  SoFar-hands_out true p rest handed h = h
  SoFar-hands_out false p rest handed h = append_assoc handed (p ∷ []) rest ∙ h

  pub SoFar-cycles :
      (b : Bool) (p : Bytes) (idx : ℕ) (handed : List Bytes)
      → get_elem? paths (idx % length paths) ≡ some p
      → SoFar b (sustained idx) handed
      → SoFar b (sustained (idx + 1)) (handed ++ p ∷ [])
  SoFar-cycles true p idx handed e (h, n) = (
    Everywhere-snoc (λ i p. get_elem? paths (i % length paths) ≡ some p) handed p h
        (subst (λ j. get_elem? paths (j % length paths) ≡ some p) (sym n) e),
    omega (arith, length-append handed (p ∷ []), n),
  )
  SoFar-cycles false p idx handed e h = h

  pub SoFar-closes :
      (b : Bool) (q : Producer) (handed : List Bytes)
      → (q ≡ one_pass []) ⊎ ((idx : ℕ) × (q ≡ sustained idx))
      → SoFar b q handed
      → SoFar b paths_closed handed
  SoFar-closes true q handed (inl e) h = absurd (subst (λ q. SoFar true q handed) e h)
  SoFar-closes true q handed (inr (idx, e)) h = (subst (λ q. SoFar true q handed) e h).0
  SoFar-closes false q handed (inl e) h =
      sym (append-nil handed) ∙ subst (λ q. SoFar false q handed) e h
  SoFar-closes false q handed (inr (idx, e)) h = absurd (subst (λ q. SoFar false q handed) e h)

  pub SoFar-begin : (duration : ℤ) → SoFar (ltz (pos 0) duration) (producer_of duration paths) []
  SoFar-begin duration = elim (Bool-cases (ltz (pos 0) duration)) [
    | inl long ↦ rw long ((λ i p e. absurd (cc)), refl)
    | inr once ↦ rw once refl
  ]

  pub SoFar-closed : (b : Bool) (handed : List Bytes) → SoFar b paths_closed handed → Fed b handed
  SoFar-closed true handed h = h
  SoFar-closed false handed h = h
