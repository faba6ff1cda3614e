-- ===== src/Examples/Codec.antt =====
-- A codec of JSON for the tests: a value is written as a code of tags and of numbers from 16 on, which
-- is read from its end with a stack.
use edge_sched.Prelude.{
  ℕ, ◌+◌, ◌-◌, ◌==◌, ◌≡◌, refl, ap, sym, ◌∙◌, ltb, if◌then◌else◌, true, false, List, [], ◌∷◌,
  Option, none, some, arith,
}
use edge_sched.Prelude.Int.{ℤ, pos, negsuc}
use edge_sched.Prelude.Bytes.{Bytes}
use edge_sched.Json.Value.{
  Json, null, boolean, number, text, array, object, Items, no_items, item, Members, no_members,
  member, fits_int64, Codec, IsCodec,
}
use edge_sched.Examples.Floats.{whole}

data Thing : Type 0 where
  raw : ℕ → Thing
  letters : Bytes → Thing
  value : Json ℤ → Thing
  items : Items ℤ → Thing
  members : Members ℤ → Thing

abbrev put_text : Bytes → Bytes → Bytes
put_text [] s = 5 ∷ s
put_text (c ∷ t) s = 6 ∷ (c + 16) ∷ put_text t s

unfoldable mutual
  put : Json ℤ → Bytes → Bytes
  put null s = 0 ∷ s
  put (boolean false) s = 1 ∷ s
  put (boolean true) s = 2 ∷ s
  put (number (pos n)) s = 3 ∷ (n + 16) ∷ s
  put (number (negsuc n)) s = 4 ∷ (n + 16) ∷ s
  put (text t) s = 7 ∷ put_text t s
  put (array xs) s = 8 ∷ put_items xs s
  put (object ms) s = 9 ∷ put_members ms s

  put_items : Items ℤ → Bytes → Bytes
  put_items no_items s = 10 ∷ s
  put_items (item v xs) s = 11 ∷ put v (put_items xs s)

  put_members : Members ℤ → Bytes → Bytes
  put_members no_members s = 12 ∷ s
  put_members (member k v ms) s = 13 ∷ put_text k (put v (put_members ms s))

abbrev read_pos : List Thing → List Thing
read_pos (raw n ∷ st) = value (number (pos n)) ∷ st
read_pos _ = []

abbrev read_negsuc : List Thing → List Thing
read_negsuc (raw n ∷ st) = value (number (negsuc n)) ∷ st
read_negsuc _ = []

abbrev read_letter : List Thing → List Thing
read_letter (raw c ∷ letters t ∷ st) = letters (c ∷ t) ∷ st
read_letter _ = []

abbrev read_text : List Thing → List Thing
read_text (letters t ∷ st) = value (text t) ∷ st
read_text _ = []

abbrev read_array : List Thing → List Thing
read_array (items xs ∷ st) = value (array xs) ∷ st
read_array _ = []

abbrev read_object : List Thing → List Thing
read_object (members ms ∷ st) = value (object ms) ∷ st
read_object _ = []

abbrev read_item : List Thing → List Thing
read_item (value v ∷ items xs ∷ st) = items (item v xs) ∷ st
read_item _ = []

abbrev read_member : List Thing → List Thing
read_member (letters k ∷ value v ∷ members ms ∷ st) = members (member k v ms) ∷ st
read_member _ = []

unfoldable act : ℕ → List Thing → List Thing
act c st =
    if c == 0
    then value null ∷ st
    else if c == 1
    then value (boolean false) ∷ st
    else if c == 2
    then value (boolean true) ∷ st
    else if c == 3
    then read_pos st
    else if c == 4
    then read_negsuc st
    else if c == 5
    then letters [] ∷ st
    else if c == 6
    then read_letter st
    else if c == 7
    then read_text st
    else if c == 8
    then read_array st
    else if c == 9
    then read_object st
    else if c == 10
    then items no_items ∷ st
    else if c == 11
    then read_item st
    else if c == 12
    then members no_members ∷ st
    else if c == 13
    then read_member st
    else []

abbrev read_code : ℕ → List Thing → List Thing
read_code c st = if ltb c 16 then act c st else raw (c - 16) ∷ st

unfoldable read : Bytes → List Thing
unfolding act
read [] = []
read (c ∷ s) = read_code c (read s)

abbrev the_value : List Thing → Option (Json ℤ)
the_value (value v ∷ []) = some v
the_value _ = none

number_code : (n : ℕ) (st : List Thing) → read_code (n + 16) st ≡ raw n ∷ st
number_code n st = ground arith

read-put_text : (t : Bytes) (s : Bytes) → read (put_text t s) ≡ letters t ∷ read s
unfolding read
read-put_text [] s = refl
read-put_text (c ∷ t) s = rw (number_code c (read (put_text t s)), read-put_text t s) refl

mutual
  unfolding read put

  read-put : (v : Json ℤ) (s : Bytes) → read (put v s) ≡ value v ∷ read s
  read-put null s = refl
  read-put (boolean false) s = refl
  read-put (boolean true) s = refl
  read-put (number (pos n)) s = rw (number_code n (read s)) refl
  read-put (number (negsuc n)) s = rw (number_code n (read s)) refl
  read-put (text t) s = ap read_text (read-put_text t s)
  read-put (array xs) s = ap read_array (read-put_items xs s)
  read-put (object ms) s = ap read_object (read-put_members ms s)

  read-put_items : (xs : Items ℤ) (s : Bytes) → read (put_items xs s) ≡ items xs ∷ read s
  read-put_items no_items s = refl
  read-put_items (item v xs) s =
      ap read_item (read-put v (put_items xs s) ∙ ap (λ st. value v ∷ st) (read-put_items xs s))

  read-put_members : (ms : Members ℤ) (s : Bytes) → read (put_members ms s) ≡ members ms ∷ read s
  read-put_members no_members s = refl
  read-put_members (member k v ms) s = ap read_member (
      read-put_text k (put v (put_members ms s))
      ∙ ap (λ st. letters k ∷ st)
          (read-put v (put_members ms s) ∙ ap (λ st. value v ∷ st) (read-put_members ms s)))

pub print_value : Json ℤ → Bytes
unfolding put
print_value v = put v []

pub parse_value : Bytes → Option (Json ℤ)
unfolding read
parse_value s = the_value (read s)

parse_value-print : (v : Json ℤ) → parse_value (print_value v) ≡ some v
unfolding parse_value print_value
parse_value-print v = ap the_value (read-put v [])

parse_value-nil : parse_value [] ≡ none
unfolding parse_value
parse_value-nil = refl

abbrev pub codec : Codec whole
codec = record {
  Num = ℤ;
  of_f32 = some;
  of_f64 = some;
  of_int = λ n. n;
  to_f64 = some;
  to_int = λ n. if fits_int64 n then some n else none;
  valid_text = λ s. s;
  print = print_value;
  parse = parse_value;
  parse_first = parse_value;
}

pub codec-IsCodec : IsCodec whole codec
codec-IsCodec = record {
  valid_text-ascii = λ s h. refl;
  valid_text_idem = λ s. refl;
  parse-print = λ j h. parse_value-print j;
  parse_first-print = λ j h. parse_value-print j;
  parse-nil = parse_value-nil;
  to_int-of_int = λ n h. rw h refl;
  to_f64-of_f64 = λ x n h. sym h;
  to_f64-of_f32 = λ x n h. (n, refl);
}
