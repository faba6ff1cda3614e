-- ===== src/Json/Value.antt =====
-- JSON values, and what the code relies on of encoding/json: a number's token, the printing and
-- the parsing of a text are parameters.
use edge_sched.Prelude.{
  ℕ, zero, suc, ◌≡◌, ltb, Bool, true, false, if◌then◌else◌, [], ◌∷◌, Option, none, some,
}
use edge_sched.Prelude.Int.{ℤ, pos, negsuc}
use edge_sched.Prelude.Bytes.{Bytes}
use edge_sched.Prelude.Floats.{Floats}

module _ (Num : Type 0) where
  mutual
    pub data Json : Type 0 where
      null : Json
      boolean : Bool → Json
      number : Num → Json
      text : Bytes → Json
      array : Items → Json
      object : Members → Json

    pub data Items : Type 0 where
      no_items : Items
      item : Json → Items → Items

    pub data Members : Type 0 where
      no_members : Members
      member : Bytes → Json → Members → Members

-- What `int64` holds.
abbrev pub fits_int64 : ℤ → Bool
fits_int64 (pos n) = ltb n 9223372036854775808
fits_int64 (negsuc n) = ltb n 9223372036854775808

abbrev pub is_ascii : Bytes → Bool
is_ascii [] = true
is_ascii (c ∷ s) = if ltb c 128 then is_ascii s else false

-- A float has no token if it is NaN or infinite. `valid_text` is the text with invalid UTF-8
-- replaced; `parse_first` reads the first value of a stream.
pub record Codec (fl : Floats) : Type 1 where
  pub Num : Type 0
  pub of_f32 : fl.F32 → Option Num
  pub of_f64 : fl.F → Option Num
  pub of_int : ℤ → Num
  pub to_f64 : Num → Option fl.F
  pub to_int : Num → Option ℤ
  pub valid_text : Bytes → Bytes
  pub print : Json Num → Bytes
  pub parse : Bytes → Option (Json Num)
  pub parse_first : Bytes → Option (Json Num)

module _ (fl : Floats) (codec : Codec fl) where
  -- All texts and keys are valid UTF-8, and arrays and objects are nested at most `n` deep.
  unfoldable mutual
    pub AreTexts : ℕ → Json codec.Num → Type 0
    AreTexts n null = Unit
    AreTexts n (boolean b) = Unit
    AreTexts n (number m) = Unit
    AreTexts n (text s) = codec.valid_text s ≡ s
    AreTexts zero (array xs) = ⊥
    AreTexts (suc n) (array xs) = AreTextsItems n xs
    AreTexts zero (object ms) = ⊥
    AreTexts (suc n) (object ms) = AreTextsMembers n ms

    pub AreTextsItems : ℕ → Items codec.Num → Type 0
    AreTextsItems n no_items = Unit
    AreTextsItems n (item x xs) = AreTexts n x × AreTextsItems n xs

    pub AreTextsMembers : ℕ → Members codec.Num → Type 0
    AreTextsMembers n no_members = Unit
    AreTextsMembers n (member k v ms) =
        (codec.valid_text k ≡ k) × AreTexts n v × AreTextsMembers n ms

  -- A printed value that is nested no deeper than the bodies is parsed back; an int that fits and a float64 come back from their tokens, and
  -- the token of a float32 is a float64, if perhaps another one; the empty text is no value.
  pub record IsCodec : Type 0 where
    pub valid_text-ascii : (s : Bytes) → is_ascii s ≡ true → codec.valid_text s ≡ s
    pub valid_text_idem : (s : Bytes) → codec.valid_text (codec.valid_text s) ≡ codec.valid_text s
    pub parse-print : (j : Json codec.Num) → AreTexts 3 j → codec.parse (codec.print j) ≡ some j
    pub parse_first-print :
        (j : Json codec.Num) → AreTexts 3 j → codec.parse_first (codec.print j) ≡ some j
    pub parse-nil : codec.parse [] ≡ none
    pub to_int-of_int : (n : ℤ) → fits_int64 n ≡ true → codec.to_int (codec.of_int n) ≡ some n
    pub to_f64-of_f64 :
        (x : fl.F) (n : codec.Num) → codec.of_f64 x ≡ some n → codec.to_f64 n ≡ some x
    pub to_f64-of_f32 :
        (x : fl.F32) (n : codec.Num)
        → codec.of_f32 x ≡ some n
        → (y : fl.F) × (codec.to_f64 n ≡ some y)
