-- ===== src/Json/Texts.antt =====
-- What `Encode` makes of a struct has valid texts, and decodes into a struct without fields.
use edge_sched.Prelude.{◌≡◌, refl, true, List, [], ◌∷◌, All, Option, none, some, ◌⊎◌, inl, inr}
use edge_sched.Prelude.Bytes.{Bytes}
use edge_sched.Prelude.Floats.{Floats}
use edge_sched.Json.Value.{
  Json, object, Members, no_members, member, is_ascii, Codec, IsCodec, AreTexts, AreTextsMembers,
}
use edge_sched.Json.Encode.{number_of, with_member, members_of, object_of, struct, HasTexts}
use edge_sched.Json.Decode.{decode_members, decode_struct, exact_field, folded_field}

decode_members-no_fields : {Num : Type 0} (ms : Members Num) → decode_members [] ms tt ≡ some tt
unfolding decode_members exact_field folded_field
decode_members-no_fields no_members = refl
decode_members-no_fields (member k v ms) = decode_members-no_fields ms

pub decode_struct-no_fields :
    {Num : Type 0} (ms : Members Num) → decode_struct [] (object ms) tt ≡ some tt
unfolding decode_struct
decode_struct-no_fields ms = decode_members-no_fields ms

module _ (fl : Floats) (codec : Codec fl) where
  pub number_of-HasTexts : (o : Option codec.Num) → HasTexts fl codec (number_of o)
  unfolding AreTexts
  number_of-HasTexts none = tt
  number_of-HasTexts (some n) = tt

  -- A field with an ASCII name and valid texts.
  abbrev pub IsField : Bytes × Option (Json codec.Num) → Type 0
  IsField (k, v) = (is_ascii k ≡ true) × HasTexts fl codec v

  -- Members with valid texts, unless a value cannot be encoded.
  abbrev pub MembersTexts : Option (Members codec.Num) → Type 0
  MembersTexts none = Unit
  MembersTexts (some ms) = AreTextsMembers fl codec 0 ms

  -- An object with valid texts, unless a value cannot be encoded.
  abbrev pub IsObject : Option (Json codec.Num) → Type 0
  IsObject o =
      (o ≡ none)
      ⊎ ((ms : Members codec.Num) × (o ≡ some (object ms)) × AreTextsMembers fl codec 0 ms)

  with_member-texts :
      (k : Bytes) (v : Option (Json codec.Num)) (ms : Option (Members codec.Num))
      → codec.valid_text k ≡ k
      → HasTexts fl codec v
      → MembersTexts ms
      → MembersTexts (with_member k v ms)
  unfolding AreTexts
  with_member-texts k none ms hk hv hms = tt
  with_member-texts k (some v) none hk hv hms = tt
  with_member-texts k (some v) (some ms) hk hv hms = (hk, hv, hms)

  object_of-IsObject : (ms : Option (Members codec.Num)) → MembersTexts ms → IsObject (object_of ms)
  object_of-IsObject none h = inl refl
  object_of-IsObject (some ms) h = inr (ms, refl, h)

  module _ (laws : IsCodec fl codec) where
    members_of-texts :
        (fs : List (Bytes × Option (Json codec.Num)))
        → All IsField fs
        → MembersTexts (members_of fs)
    unfolding AreTexts
    members_of-texts [] h = tt
    members_of-texts ((k, v) ∷ fs) ((ascii, hv), h) =
        with_member-texts k v (members_of fs) (laws.valid_text-ascii k ascii) hv
          (members_of-texts fs h)

    pub struct-IsObject :
        (fs : List (Bytes × Option (Json codec.Num))) → All IsField fs → IsObject (struct fs)
    struct-IsObject fs h = object_of-IsObject (members_of fs) (members_of-texts fs h)
