-- ===== src/Json/Decode.antt =====
-- `json.Unmarshal` into a struct: each member goes to the field of its name, else to one that has the
-- name but for the case; a null changes nothing, a value of another type is an error.
use edge_sched.Prelude.{
  ℕ, ◌+◌, ◌==◌, ◌&&◌, leb, if◌then◌else◌, Bool, List, [], ◌∷◌, Option, none, some,
}
use edge_sched.Prelude.Bytes.{Bytes, str_eq}
use edge_sched.Json.Value.{
  Json, null, boolean, number, text, array, object, Items, no_items, item, Members, no_members,
  member,
}

abbrev pub lower_case : ℕ → ℕ
lower_case c = if leb b'A' c && leb c b'Z' then c + 32 else c

-- A name in lower case. Of what is not ASCII only the long s and the Kelvin sign fold to ASCII.
unfoldable pub fold_name : Bytes → Bytes
fold_name [] = []
fold_name (c ∷ []) = lower_case c ∷ []
fold_name (c ∷ d ∷ []) =
    let rest = fold_name (d ∷ []) in
    if c == 0xc5 && d == 0xbf then b's' ∷ [] else lower_case c ∷ rest
fold_name (c ∷ d ∷ e ∷ s) =
    let rest = fold_name (d ∷ e ∷ s) in
    let after_two = fold_name (e ∷ s) in
    let after_three = fold_name s in
    if c == 0xc5 && d == 0xbf
    then b's' ∷ after_two
    else if c == 0xe2 && d == 0x84 && e == 0xaa
    then b'k' ∷ after_three
    else lower_case c ∷ rest

-- The fields of a struct, each with how a value is stored in it.
abbrev pub Fields : Type 0 → Type 0 → Type 0
Fields Num S = List (Bytes × (Json Num → S → Option S))

abbrev pub after : {S : Type 0} → Option S → (S → Option S) → Option S
after none f = none
after (some s) f = f s

abbrev pub cons_of : {S : Type 0} → Option S → Option (List S) → Option (List S)
cons_of (some x) (some xs) = some (x ∷ xs)
cons_of _ _ = none

abbrev pub stored : {A S : Type 0} → (A → S → S) → S → Option A → Option S
stored set s none = none
stored set s (some a) = some (set a s)

module _ {Num S : Type 0} where
  unfoldable pub exact_field : Bytes → Fields Num S → Option (Json Num → S → Option S)
  exact_field key [] = none
  exact_field key ((name, store) ∷ fs) = if str_eq key name then some store else exact_field key fs

  unfoldable pub folded_field : Bytes → Fields Num S → Option (Json Num → S → Option S)
  folded_field key [] = none
  folded_field key ((name, store) ∷ fs) =
      if str_eq (fold_name key) name then some store else folded_field key fs

  -- A key without a field is passed over.
  abbrev pub store_in :
      Option (Json Num → S → Option S) → Option (Json Num → S → Option S) → Json Num → S → Option S
  store_in (some store) folded v s = store v s
  store_in none (some store) v s = store v s
  store_in none none v s = some s

  unfoldable pub decode_members : Fields Num S → Members Num → S → Option S
  decode_members fs no_members s = some s
  decode_members fs (member k v ms) s =
      after (store_in (exact_field k fs) (folded_field k fs) v s) (decode_members fs ms)

  unfoldable pub decode_struct : Fields Num S → Json Num → S → Option S
  decode_struct fs null s = some s
  decode_struct fs (object ms) s = decode_members fs ms s
  decode_struct fs _ s = none

  -- The elements of a slice, each from its zero value.
  unfoldable pub decode_items : (Json Num → Option S) → Items Num → Option (List S)
  decode_items f no_items = some []
  decode_items f (item v xs) = cons_of (f v) (decode_items f xs)

  unfoldable pub decode_slice : (Json Num → Option S) → Json Num → Option (List S)
  decode_slice f null = some []
  decode_slice f (array vs) = decode_items f vs
  decode_slice f _ = none

  -- The fields of the basic types. An int of 64 bits has no fraction, exponent or overflow.
  abbrev pub store_text : (Bytes → S → S) → Json Num → S → Option S
  store_text set null s = some s
  store_text set (text t) s = some (set t s)
  store_text set _ s = none

  abbrev pub store_bool : (Bool → S → S) → Json Num → S → Option S
  store_bool set null s = some s
  store_bool set (boolean b) s = some (set b s)
  store_bool set _ s = none

  -- What a number's token gives, if it fits.
  abbrev pub store_number : {A : Type 0} → (Num → Option A) → (A → S → S) → Json Num → S → Option S
  store_number of set null s = some s
  store_number of set (number n) s = stored set s (of n)
  store_number of set _ s = none

  abbrev pub store_slice :
      {A : Type 0} → (Json Num → Option (List A)) → (List A → S → S) → Json Num → S → Option S
  store_slice decode set v s = stored set s (decode v)
