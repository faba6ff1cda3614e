-- ===== src/Api/Escape.antt =====
-- scheduler/internal/api/handlers.go: parameters whose bytes need no escape.
use edge_sched.Prelude.{
  ℕ, ◌==◌, ◌≡◌, ◌≢◌, refl, ap, ◌∙◌, leb, ◌&&◌, ◌||◌, Bool, true, false, if◌then◌else◌, any, List,
  [], ◌∷◌, ◌++◌, All, map, some, arith,
}
use edge_sched.Prelude.Bytes.{Bytes, str_eq}
use edge_sched.Prelude.Split.{split_two, split_two-append}
use edge_sched.Api.Params.{unescape, parse_pair, value_or, first_value}

-- A letter, a digit, or one of `_`, `-` and `.`.
abbrev pub is_safe : ℕ → Bool
is_safe c =
    (leb b'a' c && leb c b'z')
    || (leb b'A' c && leb c b'Z')
    || (leb b'0' c && leb c b'9')
    || c == b'_'
    || c == b'-'
    || c == b'.'

abbrev pub AreSafe : Bytes → Type 0
AreSafe s = All (λ c. is_safe c ≡ true) s

All-safe : (P : ℕ → Type 0) → ((c : ℕ) → is_safe c ≡ true → P c) → (s : Bytes) → AreSafe s → All P s
All-safe P f [] h = tt
All-safe P f (c ∷ s) (h, hs) = (f c h, All-safe P f s hs)

-- A byte that is not safe does not stand in a safe text.
pub safe-apart :
    (sep : ℕ) → is_safe sep ≡ false → (s : Bytes) → AreSafe s → All (λ c. (c == sep) ≡ false) s
safe-apart sep bad = All-safe (λ c. (c == sep) ≡ false) (λ c h. ground (arith, h, bad))

unescape-safe : (s : Bytes) → AreSafe s → unescape s ≡ some s
unfolding unescape
unescape-safe [] h = refl
unescape-safe (c ∷ []) (h, _) = ground (arith, h)
unescape-safe (c ∷ d ∷ []) (h, hs) = ground (arith, h, unescape-safe (d ∷ []) hs)
unescape-safe (c ∷ d ∷ e ∷ s) (h, hs) = ground (arith, h, unescape-safe (d ∷ e ∷ s) hs)

any-none : (sep : ℕ) (s : Bytes) → All (λ c. (c == sep) ≡ false) s → any (λ b. b == sep) s ≡ false
any-none sep [] h = refl
any-none sep (c ∷ s) (h, hs) = rw (h, any-none sep s hs) refl

any-append :
    (sep : ℕ) (s t : Bytes)
    → any (λ b. b == sep) s ≡ false
    → any (λ b. b == sep) t ≡ false
    → any (λ b. b == sep) (s ++ t) ≡ false
any-append sep [] t h k = k
any-append sep (c ∷ s) t h k = ground (arith, any-append sep s t, h, k)

parse_pair-present :
    (p k v : Bytes)
    → p ≢ []
    → any (λ b. b == b';') p ≡ false
    → split_two b'=' p ≡ some (k, v)
    → unescape k ≡ some k
    → unescape v ≡ some v
    → parse_pair p ≡ some (k, v)
unfolding parse_pair
parse_pair-present [] k v n h e a b = absurd (n refl)
parse_pair-present (c ∷ s) k v n h e a b = rw (h, e, a, b) refl

append-ne-nil : (s : Bytes) (c : ℕ) (t : Bytes) → s ++ c ∷ t ≢ []
append-ne-nil [] c t e = cc
append-ne-nil (d ∷ s) c t e = cc

-- A parameter is read as it was written.
pub parse_pair-safe :
    (k v : Bytes) → AreSafe k → AreSafe v → parse_pair (k ++ b'=' ∷ v) ≡ some (k, v)
parse_pair-safe k v h g =
    parse_pair-present (k ++ b'=' ∷ v) k v (append-ne-nil k b'=' v)
      (any-append b';' k (b'=' ∷ v) (any-none b';' k (safe-apart b';' refl k h))
        (any-none b';' v (safe-apart b';' refl v g)))
      (split_two-append b'=' k v (safe-apart b'=' refl k h) refl) (unescape-safe k h)
      (unescape-safe v g)

-- The parameters of a request.
abbrev pub param : Bytes × Bytes → Bytes
param (k, v) = k ++ b'=' ∷ v

abbrev pub IsSafeParam : Bytes × Bytes → Type 0
IsSafeParam (k, v) = AreSafe k × AreSafe v

abbrev pub value_of : Bytes → List (Bytes × Bytes) → Bytes
value_of key [] = []
value_of key ((k, v) ∷ ps) = if str_eq k key then v else value_of key ps

pub first_value-params :
    (key : Bytes) (ps : List (Bytes × Bytes))
    → All IsSafeParam ps
    → first_value key (map param ps) ≡ value_of key ps
unfolding first_value
first_value-params key [] h = refl
first_value-params key ((k, v) ∷ ps) ((a, b), h) =
    ap (λ o. value_or key o (first_value key (map param ps))) (parse_pair-safe k v a b)
    ∙ ap (value_or key (some (k, v))) (first_value-params key ps h)
