-- ===== src/Prelude/Split.antt =====
-- `strings.Split` and `strings.Cut` at one byte.
use Prim.Native.Nat.{ℕ}
use mathlib.Core.Path.{◌≡◌, refl}
use mathlib.Core.Bool.{true, false}
use mathlib.Core.Option.{Option, none, some}
use mathlib.Core.List.{List, [], ◌∷◌, ◌++◌}
use edge_sched.Prelude.Tests.{◌==◌, if◌then◌else◌}
use edge_sched.Prelude.Lists.{All}
use edge_sched.Prelude.Bytes.{Bytes}

-- `strings.Split` at one byte.
abbrev pub push_head : ℕ → List Bytes → List Bytes
push_head c [] = (c ∷ []) ∷ []
push_head c (s ∷ parts) = (c ∷ s) ∷ parts

unfoldable pub split : ℕ → Bytes → List Bytes
split sep [] = [] ∷ []
split sep (c ∷ s) = if c == sep then [] ∷ split sep s else push_head c (split sep s)

-- `strings.SplitN(s, sep, 2)` where it gives two parts.
abbrev pub push_first : ℕ → Option (Bytes × Bytes) → Option (Bytes × Bytes)
push_first c none = none
push_first c (some (a, b)) = some (c ∷ a, b)

unfoldable pub split_two : ℕ → Bytes → Option (Bytes × Bytes)
split_two sep [] = none
split_two sep (c ∷ s) = if c == sep then some ([], s) else push_first c (split_two sep s)

pub split-last : (sep : ℕ) (s : Bytes) → All (λ c. (c == sep) ≡ false) s → split sep s ≡ s ∷ []
unfolding split
split-last sep [] h = refl
split-last sep (c ∷ s) (n, h) = rw (n, split-last sep s h) refl

pub split-append :
    (sep : ℕ) (s t : Bytes)
    → All (λ c. (c == sep) ≡ false) s
    → (sep == sep) ≡ true
    → split sep (s ++ sep ∷ t) ≡ s ∷ split sep t
unfolding split
split-append sep [] t h k = rw k refl
split-append sep (c ∷ s) t (n, h) k = rw (n, split-append sep s t h k) refl

pub split_two-append :
    (sep : ℕ) (s t : Bytes)
    → All (λ c. (c == sep) ≡ false) s
    → (sep == sep) ≡ true
    → split_two sep (s ++ sep ∷ t) ≡ some (s, t)
unfolding split_two
split_two-append sep [] t h k = rw k refl
split_two-append sep (c ∷ s) t (n, h) k = rw (n, split_two-append sep s t h k) refl
