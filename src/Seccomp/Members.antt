-- ===== src/Seccomp/Members.antt =====
-- Options that are written as JSON are read back.
use cmgr.Common.{
  ◌≡◌, refl, ap, ◌∙◌, Bool, true, false, not, none, some, List, [], ◌∷◌, map, if◌then◌else◌, Text,
  codes, text_eq, is_empty, ok,
}
use cmgr.Json.{Json, bool, arr, Fields, end, get, items_of, texts_of-items_of}
use cmgr.Policy.{SeccompOptions}
use cmgr.Seccomp.{Library, no_texts, has_tweaks, unless, encoded, encode_options}
use cmgr.Seccomp.Reading.{or_bad, text_member, texts_member, bool_member, decode_options}

-- No text of the options is changed by the encoding.
pub record IsPlain (lib : Library) (o : SeccompOptions) : Type 0 where
  pub tweaks : map lib.replaced o.tweaks ≡ o.tweaks
  pub profile : lib.replaced o.profile ≡ o.profile
  pub profile_hash : lib.replaced o.profile_hash ≡ o.profile_hash
  pub snapshot : lib.replaced o.effective_profile ≡ o.effective_profile

pub text_member-unless :
    (lib : Library) (t : Text)
    → lib.replaced t ≡ t
    → text_member (if is_empty t then none else some (encoded lib t)) ≡ ok t
text_member-unless lib [] e = refl
text_member-unless lib (c ∷ s) e = ap ok e

texts_member-unless :
    (lib : Library) (ts : List Text)
    → map lib.replaced ts ≡ ts
    → texts_member (if no_texts ts then none else some (arr (items_of (map lib.replaced ts))))
      ≡ ok ts
texts_member-unless lib [] e = refl
texts_member-unless lib (t ∷ ts) e = ap or_bad (texts_of-items_of _) ∙ ap ok e

bool_member-unless : (b : Bool) → bool_member (if not b then none else some (bool true)) ≡ ok b
bool_member-unless true = refl
bool_member-unless false = refl

get-unless_other :
    (k j : Text) (t : Bool) (v : Json) (rest : Fields)
    → text_eq j k ≡ false
    → get k (unless t j v rest) ≡ get k rest
get-unless_other k j true v rest h = refl
get-unless_other k j false v rest h = rw h refl

get-unless_same :
    (k : Text) (t : Bool) (v : Json) (rest : Fields)
    → text_eq k k ≡ true
    → get k rest ≡ none
    → get k (unless t k v rest) ≡ (if t then none else some v)
get-unless_same k true v rest h n = n
get-unless_same k false v rest h n = rw h refl

module _ (lib : Library) (o : SeccompOptions) where
  abbrev hash_field : Fields
  hash_field =
      unless (is_empty o.profile_hash) (codes "profile_hash") (encoded lib o.profile_hash) end

  abbrev profile_field : Fields
  profile_field = unless (is_empty o.profile) (codes "profile") (encoded lib o.profile) hash_field

  abbrev tweaks_value : Json
  tweaks_value = arr (items_of (map lib.replaced o.tweaks))

  abbrev tweaks_field : Fields
  tweaks_field = unless (not (has_tweaks o)) (codes "tweaks") tweaks_value profile_field

  abbrev option_fields : Fields
  option_fields = unless (not o.legacy) (codes "legacy") (bool true) tweaks_field

  no_hash_field : (k : Text) → text_eq (codes "profile_hash") k ≡ false → get k hash_field ≡ none
  no_hash_field k h =
      get-unless_other k (codes "profile_hash") (is_empty o.profile_hash)
        (encoded lib o.profile_hash) end h

  no_profile_field :
      (k : Text)
      → text_eq (codes "profile_hash") k ≡ false
      → text_eq (codes "profile") k ≡ false
      → get k profile_field ≡ none
  no_profile_field k h p =
      get-unless_other k (codes "profile") (is_empty o.profile) (encoded lib o.profile) hash_field p
      ∙ no_hash_field k h

  get-legacy :
      get (codes "legacy") option_fields ≡ (if not o.legacy then none else some (bool true))
  get-legacy = get-unless_same (codes "legacy") (not o.legacy) (bool true) tweaks_field refl (
      get-unless_other (codes "legacy") (codes "tweaks") (not (has_tweaks o)) tweaks_value
        profile_field refl
      ∙ no_profile_field (codes "legacy") refl refl)

  double_negation : (b : Bool) → not (not b) ≡ b
  double_negation true = refl
  double_negation false = refl

  get-tweaks :
      get (codes "tweaks") option_fields ≡ (if no_texts o.tweaks then none else some tweaks_value)
  get-tweaks =
      get-unless_other (codes "tweaks") (codes "legacy") (not o.legacy) (bool true) tweaks_field
        refl
      ∙ get-unless_same (codes "tweaks") (not (has_tweaks o)) tweaks_value profile_field refl
          (no_profile_field (codes "tweaks") refl refl)
      ∙ ap (λ b. if b then none else some tweaks_value) (double_negation (no_texts o.tweaks))

  past_tweaks :
      (k : Text)
      → text_eq (codes "legacy") k ≡ false
      → text_eq (codes "tweaks") k ≡ false
      → get k option_fields ≡ get k profile_field
  past_tweaks k l t =
      get-unless_other k (codes "legacy") (not o.legacy) (bool true) tweaks_field l
      ∙ get-unless_other k (codes "tweaks") (not (has_tweaks o)) tweaks_value profile_field t

  get-profile :
      get (codes "profile") option_fields
      ≡ (if is_empty o.profile then none else some (encoded lib o.profile))
  get-profile =
      past_tweaks (codes "profile") refl refl
      ∙ get-unless_same (codes "profile") (is_empty o.profile) (encoded lib o.profile) hash_field
          refl (no_hash_field (codes "profile") refl)

  get-hash :
      get (codes "profile_hash") option_fields
      ≡ (if is_empty o.profile_hash then none else some (encoded lib o.profile_hash))
  get-hash =
      past_tweaks (codes "profile_hash") refl refl
      ∙ get-unless_other (codes "profile_hash") (codes "profile") (is_empty o.profile)
          (encoded lib o.profile) hash_field refl
      ∙ get-unless_same (codes "profile_hash") (is_empty o.profile_hash)
          (encoded lib o.profile_hash) end refl refl

  -- All fields but the snapshot are read back.
  pub decode-encode_options :
      IsPlain lib o
      → decode_options (encode_options lib o) ≡ ok (some (record o { effective_profile = [] }))
  unfolding encode_options
  decode-encode_options plain = rw (ap bool_member get-legacy ∙ bool_member-unless o.legacy) (
      rw (ap texts_member get-tweaks ∙ texts_member-unless lib o.tweaks plain.tweaks) (
        rw (ap text_member get-profile ∙ text_member-unless lib o.profile plain.profile) (
          rw (ap text_member get-hash ∙ text_member-unless lib o.profile_hash plain.profile_hash)
            refl)))
