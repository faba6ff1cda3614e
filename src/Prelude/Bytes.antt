-- ===== src/Prelude/Bytes.antt =====
-- Go strings, as sequences of bytes: equality and the order of `<`, which is lexicographic.
use Prim.Native.Nat.{ℕ}
use Prim.Native.Char.{code}
use Prim.Native.String.{String}
use mathlib.Core.Path.{◌≡◌, refl}
use mathlib.Core.Logic.{◌↔◌, inl, inr}
use mathlib.Core.Bool.{Bool, true, false}
use mathlib.Core.List.{List, [], ◌∷◌}
use native.Mathlib.Omega.{arith}
use edge_sched.Prelude.Lists.{In, here, there, any}
use edge_sched.Prelude.Tests.{ltb, ◌==◌, if◌then◌else◌, Bool-cases}

abbrev pub Bytes : Type 0
Bytes = List ℕ

-- The bytes of an ASCII literal.
abbrev pub bytes : String → Bytes
bytes String.[] = []
bytes (String.◌∷◌ c s) = code c ∷ bytes s

unfoldable pub str_eq : Bytes → Bytes → Bool
str_eq [] [] = true
str_eq [] (b ∷ t) = false
str_eq (a ∷ s) [] = false
str_eq (a ∷ s) (b ∷ t) = if a == b then str_eq s t else false

unfoldable pub str_lt : Bytes → Bytes → Bool
str_lt s [] = false
str_lt [] (b ∷ t) = true
str_lt (a ∷ s) (b ∷ t) = if a == b then str_lt s t else ltb a b

pub str_eq_iff : (s t : Bytes) → (str_eq s t ≡ true) ↔ (s ≡ t)
unfolding str_eq
str_eq_iff [] [] = (λ h. refl, λ h. refl)
str_eq_iff [] (b ∷ t) = (λ h. cc, λ h. cc)
str_eq_iff (a ∷ s) [] = (λ h. cc, λ h. cc)
str_eq_iff (a ∷ s) (b ∷ t) =
    (λ h. ground (arith, str_eq_iff s t), λ h. ground (arith, str_eq_iff s t))

pub str_eq_refl : (s : Bytes) → str_eq s s ≡ true
str_eq_refl s = (str_eq_iff s s).1 refl

pub str_lt_irrefl : (s : Bytes) → str_lt s s ≡ false
unfolding str_lt
str_lt_irrefl [] = refl
str_lt_irrefl (a ∷ s) = ground (arith, str_lt_irrefl s)

pub str_lt_trans : (s t u : Bytes) → str_lt s t ≡ true → str_lt t u ≡ true → str_lt s u ≡ true
unfolding str_lt
str_lt_trans s [] u h k = absurd (cc)
str_lt_trans s (b ∷ t) [] h k = absurd (cc)
str_lt_trans [] (b ∷ t) (c ∷ u) h k = refl
str_lt_trans (a ∷ s) (b ∷ t) (c ∷ u) h k = ground (arith, str_lt_trans s t u)

-- Two strings that neither precedes are equal.
pub str_lt_antisym : (s t : Bytes) → str_lt s t ≡ false → str_lt t s ≡ false → s ≡ t
unfolding str_lt
str_lt_antisym [] [] h k = refl
str_lt_antisym [] (b ∷ t) h k = absurd (cc)
str_lt_antisym (a ∷ s) [] h k = absurd (cc)
str_lt_antisym (a ∷ s) (b ∷ t) h k = ground (arith, str_lt_antisym s t)

-- A name is found among names by `==` exactly when it is one of them.
pub any_str_eq→In : (s : Bytes) (ts : List Bytes) → any (str_eq s) ts ≡ true → In s ts
any_str_eq→In s [] h = absurd (cc)
any_str_eq→In s (t ∷ ts) h = elim (Bool-cases (str_eq s t)) [
  | inl same ↦ here ((str_eq_iff s t).0 same)
  | inr other ↦ there (any_str_eq→In s ts (rw other at h))
]

pub In→any_str_eq : (s : Bytes) (ts : List Bytes) → In s ts → any (str_eq s) ts ≡ true
In→any_str_eq s [] j = elim j [ ]
In→any_str_eq s (t ∷ ts) (here e) = rw ((str_eq_iff s t).1 e)
In→any_str_eq s (t ∷ ts) (there j) = ground (arith, In→any_str_eq s ts j)
