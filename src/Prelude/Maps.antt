-- ===== src/Prelude/Maps.antt =====
-- Go maps with string keys, as lists of pairs. The first pair with a key holds its value; a write
-- replaces it, or adds a pair at the end. Iteration visits the pairs in some order.
use mathlib.Core.Path.{◌≡◌, refl}
use mathlib.Core.Option.{Option, none, some}
use mathlib.Core.List.{List, [], ◌∷◌}
use native.Mathlib.Omega.{arith}
use edge_sched.Prelude.Tests.{if◌then◌else◌}
use edge_sched.Prelude.Bytes.{Bytes, str_eq, str_eq_iff, str_eq_refl}

abbrev pub GoMap : Type 0 → Type 0
GoMap V = List (Bytes × V)

module _ {V : Type 0} where
  -- `v, ok := m[k]`
  unfoldable pub lookup : Bytes → GoMap V → Option V
  lookup k [] = none
  lookup k ((j, v) ∷ m) = if str_eq j k then some v else lookup k m

  -- `m[k] = v`
  unfoldable pub put : Bytes → V → GoMap V → GoMap V
  put k v [] = (k, v) ∷ []
  put k v ((j, w) ∷ m) = if str_eq j k then (j, v) ∷ m else (j, w) ∷ put k v m

  abbrev pub keys : GoMap V → List Bytes
  keys [] = []
  keys ((k, v) ∷ m) = k ∷ keys m

  pub lookup-put :
      (k j : Bytes) (v : V) (m : GoMap V)
      → lookup j (put k v m) ≡ (if str_eq k j then some v else lookup j m)
  unfolding lookup put
  lookup-put k j v [] = refl
  lookup-put k j v ((i, w) ∷ m) =
      ground (arith, str_eq_iff k j, str_eq_iff i k, str_eq_iff i j, lookup-put k j v m)

  pub lookup-put_self : (k : Bytes) (v : V) (m : GoMap V) → lookup k (put k v m) ≡ some v
  lookup-put_self k v m = ground (arith, lookup-put k k v m, str_eq_refl k)

-- The value, or the zero value where the key is missing.
abbrev pub get_or {ℓ} : {A : Type ℓ} → Option A → A → A
get_or none d = d
get_or (some a) d = a
