-- ===== src/Command/Listing.antt =====
-- Reading back the list of engines that the flag `-engines` gives.
use edge_sched.Prelude.{
  ℕ, ◌==◌, ◌≡◌, ◌≢◌, refl, sym, ap, ◌∙◌, false, Bool-cases, inl, inr, List, [], ◌∷◌, ◌++◌,
  append-nil, append_assoc, none, some, All, ok, map,
}
use edge_sched.Prelude.Bytes.{Bytes, str_eq, str_eq_iff}
use edge_sched.Prelude.Sort.{DistinctBy}
use edge_sched.Prelude.Maps.{GoMap, lookup, put}
use edge_sched.Prelude.Split.{split, split_two, split-last, split-append, split_two-append}
use edge_sched.Command.Engines.{
  is_blank, trim_left, unless_last_blank, trim_right, trim_space, add_parts, add_pair, add_pairs,
  not_empty, parse_engines,
}

-- A byte that the list does not use for itself.
abbrev pub IsPlain : ℕ → Type 0
IsPlain c = (is_blank c ≡ false) × ((c == b',') ≡ false)

-- An engine that the list can write: its bytes are plain, and the name has no `=`.
pub record IsListable (e : Bytes × Bytes) : Type 0 where
  pub name_plain : All IsPlain e.0
  pub name_no_equals : All (λ c. (c == b'=') ≡ false) e.0
  pub addr_plain : All IsPlain e.1

-- `name=address`, and the list.
abbrev pub pair_text : Bytes × Bytes → Bytes
pair_text (name, addr) = name ++ b'=' ∷ addr

abbrev pub engines_text : Bytes × Bytes → List (Bytes × Bytes) → Bytes
engines_text e [] = pair_text e
engines_text e (f ∷ es) = pair_text e ++ b',' ∷ engines_text f es

trim_left-plain : (s : Bytes) → All (λ c. is_blank c ≡ false) s → trim_left s ≡ s
unfolding trim_left
trim_left-plain [] h = refl
trim_left-plain (c ∷ s) (n, h) = rw n refl

trim_right-plain : (s : Bytes) → All (λ c. is_blank c ≡ false) s → trim_right s ≡ s
unfolding trim_right
trim_right-plain [] h = refl
trim_right-plain (c ∷ s) (n, h) = rw (trim_right-plain s h) (kept s)
  where
    kept : (t : Bytes) → unless_last_blank c t ≡ c ∷ t
    kept [] = rw n refl
    kept (d ∷ t) = refl

trim_space-plain : (s : Bytes) → All (λ c. is_blank c ≡ false) s → trim_space s ≡ s
unfolding trim_space
trim_space-plain s h = rw (trim_left-plain s h) (trim_right-plain s h)

-- The bytes of a listable engine's text.
pair_text-All :
    (P : ℕ → Type 0) (name addr : Bytes)
    → ((c : ℕ) → IsPlain c → P c)
    → P b'='
    → All IsPlain name
    → All IsPlain addr
    → All P (pair_text (name, addr))
pair_text-All P [] addr f k h a = (k, all_plain addr a)
  where
    all_plain : (s : Bytes) → All IsPlain s → All P s
    all_plain [] u = tt
    all_plain (c ∷ s) (p, u) = (f c p, all_plain s u)
pair_text-All P (c ∷ name) addr f k (p, h) a = (f c p, pair_text-All P name addr f k h a)

add_pair-pair_text :
    (e : Bytes × Bytes) (m : GoMap Bytes)
    → IsListable e
    → add_pair (trim_space (pair_text e)) m ≡ ok (put e.0 e.1 m)
add_pair-pair_text (name, addr) m v =
    let trimmed = trim_space-plain (pair_text (name, addr)) (
      pair_text-All (λ c. is_blank c ≡ false) name addr (λ c p. p.0) refl v.name_plain
        v.addr_plain) in
    rw trimmed (not_nil name (split_two-append b'=' name addr v.name_no_equals refl))
  where
    not_nil :
        (n : Bytes)
        → split_two b'=' (n ++ b'=' ∷ addr) ≡ some (name, addr)
        → add_pair (n ++ b'=' ∷ addr) m ≡ ok (put name addr m)
    not_nil [] h = unfold add_pair add_parts in ap (λ o. add_parts (b'=' ∷ addr) o m) h
    not_nil (c ∷ n) h =
        unfold add_pair add_parts in ap (λ o. add_parts (c ∷ (n ++ b'=' ∷ addr)) o m) h

-- A write of a missing key goes to the end.
put-missing : (k v : Bytes) (m : GoMap Bytes) → lookup k m ≡ none → put k v m ≡ m ++ (k, v) ∷ []
unfolding put lookup
put-missing k v [] h = refl
put-missing k v ((j, w) ∷ m) h = elim (Bool-cases (str_eq j k)) [
  | inl same ↦ absurd (some_not_none (rw same at h))
  | inr other ↦ rw other (ap (◌∷◌ (j, w)) (put-missing k v m (rw other at h)))
]
  where
    some_not_none : {a : Bytes} → some a ≡ none → ⊥
    some_not_none e = cc

lookup-snoc :
    (j k v : Bytes) (m : GoMap Bytes)
    → lookup j m ≡ none
    → k ≢ j
    → lookup j (m ++ (k, v) ∷ []) ≡ none
unfolding lookup
lookup-snoc j k v [] h n = elim (Bool-cases (str_eq k j)) [
  | inl same ↦ absurd (n ((str_eq_iff k j).0 same))
  | inr other ↦ rw other refl
]
lookup-snoc j k v ((i, w) ∷ m) h n = elim (Bool-cases (str_eq i j)) [
  | inl same ↦ absurd (some_not_none (rw same at h))
  | inr other ↦ rw other (lookup-snoc j k v m (rw other at h) n)
]
  where
    some_not_none : {a : Bytes} → some a ≡ none → ⊥
    some_not_none e = cc

-- No engine of a list is in the map.
abbrev Missing : GoMap Bytes → List (Bytes × Bytes) → Type 0
Missing m es = All (λ e. lookup e.0 m ≡ none) es

Missing-snoc :
    (m : GoMap Bytes) (k v : Bytes) (es : List (Bytes × Bytes))
    → Missing m es
    → All (λ e. k ≢ e.0) es
    → Missing (m ++ (k, v) ∷ []) es
Missing-snoc m k v [] h n = tt
Missing-snoc m k v (e ∷ es) (h, hs) (n, ns) =
    (lookup-snoc e.0 k v m h n, Missing-snoc m k v es hs ns)

Missing-nil : (es : List (Bytes × Bytes)) → Missing [] es
unfolding lookup
Missing-nil [] = tt
Missing-nil (e ∷ es) = (refl, Missing-nil es)

add_pairs-texts :
    (es : List (Bytes × Bytes)) (m : GoMap Bytes)
    → All IsListable es
    → DistinctBy (λ e. e.0) es
    → Missing m es
    → add_pairs (map pair_text es) (ok m) ≡ ok (m ++ es)
unfolding add_pairs
add_pairs-texts [] m v d h = ap ok (sym (append-nil m))
add_pairs-texts (e ∷ es) m (v, vs) (n, d) (h, hs) =
    ap (add_pairs (map pair_text es)) (add_pair-pair_text e m v ∙ ap ok (put-missing e.0 e.1 m h))
    ∙ add_pairs-texts es (m ++ e ∷ []) vs d (Missing-snoc m e.0 e.1 es hs n)
    ∙ ap ok (append_assoc m (e ∷ []) es)

no_comma : (e : Bytes × Bytes) → IsListable e → All (λ c. (c == b',') ≡ false) (pair_text e)
no_comma (name, addr) v =
    pair_text-All (λ c. (c == b',') ≡ false) name addr (λ c p. p.1) refl v.name_plain v.addr_plain

split-engines_text :
    (e : Bytes × Bytes) (es : List (Bytes × Bytes))
    → All IsListable (e ∷ es)
    → split b',' (engines_text e es) ≡ map pair_text (e ∷ es)
split-engines_text e [] (v, _) = split-last b',' (pair_text e) (no_comma e v)
split-engines_text e (f ∷ es) (v, vs) =
    split-append b',' (pair_text e) (engines_text f es) (no_comma e v) refl
    ∙ ap (◌∷◌ (pair_text e)) (split-engines_text f es vs)

-- Engines with distinct names, at least one, have names and addresses without white space or commas,
-- and no `=` in a name. Then parsing the list `name=address,...` of them gives the map of them.
pub parse_engines-engines_text :
    (e : Bytes × Bytes) (es : List (Bytes × Bytes))
    → All IsListable (e ∷ es)
    → DistinctBy (λ f. f.0) (e ∷ es)
    → parse_engines (engines_text e es) ≡ ok (e ∷ es)
unfolding parse_engines
parse_engines-engines_text e es v d =
    ap (λ parts. not_empty (add_pairs parts (ok []))) (split-engines_text e es v)
    ∙ ap not_empty (add_pairs-texts (e ∷ es) [] v d (Missing-nil (e ∷ es)))
