-- ===== src/Json/Encode.antt =====
-- `json.Encoder.Encode` on structs: the members in the order of the fields; an error if a float has
-- no token.
use edge_sched.Prelude.{Bool, List, [], ◌∷◌, Option, none, some}
use edge_sched.Prelude.Int.{ℤ}
use edge_sched.Prelude.Bytes.{Bytes}
use edge_sched.Prelude.Floats.{Floats}
use edge_sched.Json.Value.{
  Json, boolean, number, text, array, object, Items, no_items, item, Members, no_members, member,
  Codec, AreTexts,
}

module _ {Num : Type 0} where
  abbrev pub number_of : Option Num → Option (Json Num)
  number_of none = none
  number_of (some n) = some (number n)

  abbrev pub with_member : Bytes → Option (Json Num) → Option (Members Num) → Option (Members Num)
  with_member k (some v) (some ms) = some (member k v ms)
  with_member k _ _ = none

  abbrev pub members_of : List (Bytes × Option (Json Num)) → Option (Members Num)
  members_of [] = some no_members
  members_of ((k, v) ∷ fs) = with_member k v (members_of fs)

  abbrev pub object_of : Option (Members Num) → Option (Json Num)
  object_of none = none
  object_of (some ms) = some (object ms)

  -- A struct, with its fields' names and values.
  abbrev pub struct : List (Bytes × Option (Json Num)) → Option (Json Num)
  struct fs = object_of (members_of fs)

  abbrev pub with_item : Option (Json Num) → Option (Items Num) → Option (Items Num)
  with_item (some v) (some xs) = some (item v xs)
  with_item _ _ = none

  abbrev pub items_of : List (Option (Json Num)) → Option (Items Num)
  items_of [] = some no_items
  items_of (x ∷ xs) = with_item x (items_of xs)

  -- A slice that is not nil.
  abbrev pub array_of : Option (Items Num) → Option (Json Num)
  array_of none = none
  array_of (some xs) = some (array xs)

module _ (fl : Floats) (codec : Codec fl) where
  abbrev pub text_of : Bytes → Option (Json codec.Num)
  text_of s = some (text (codec.valid_text s))

  abbrev pub int_of : ℤ → Option (Json codec.Num)
  int_of n = some (number (codec.of_int n))

  abbrev pub bool_of : Bool → Option (Json codec.Num)
  bool_of b = some (boolean b)

  -- What is encoded is no array or object, and a text is valid UTF-8.
  abbrev pub HasTexts : Option (Json codec.Num) → Type 0
  HasTexts none = Unit
  HasTexts (some j) = AreTexts fl codec 0 j
