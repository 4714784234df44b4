-- ===== src/Validation/Flags.antt =====
-- A format that passes has one placeholder, and the flag is the format around the digest.
use cmgr.Common.{
  ℕ, ◌≡◌, ◌≤◌, refl, false, ◌&&◌, none, [], ◌∷◌, ◌++◌, ◌==◌, arith, Text, length, take, Bool-cases,
  inl, inr, ap,
}
use cmgr.Validation.{
  count_placeholders, count_percent, validate_flag_format, replace_placeholder, make_flag,
}

-- `pre` and `post` around the only directive of the format.
pub record Splits (format : Text) : Type 0 where
  pub pre : Text
  pub post : Text
  pub whole : format ≡ pre ++ 37 ∷ 115 ∷ post
  pub pre_plain : count_percent pre ≡ 0
  pub post_plain : count_percent post ≡ 0
  pub replaced : (digest : Text) → replace_placeholder digest format ≡ pre ++ digest ++ post

placeholders-le-percent : (s : Text) → count_placeholders s ≤ count_percent s
unfolding count_placeholders count_percent
placeholders-le-percent [] = omega arith
placeholders-le-percent (c ∷ []) = omega arith
placeholders-le-percent (c ∷ d ∷ s) = ground (arith, placeholders-le-percent (d ∷ s))

-- A character that does not start the directive goes before the rest.
after :
    (c d : ℕ) (s : Text)
    → ((c == 37) && (d == 115)) ≡ false
    → Splits (d ∷ s)
    → (c == 37) ≡ false
    → Splits (c ∷ d ∷ s)
after c d s later r other = record {
  pre = c ∷ r.pre;
  post = r.post;
  whole = ap (λ t. c ∷ t) r.whole;
  pre_plain = unfold count_percent in rw other r.pre_plain;
  post_plain = r.post_plain;
  replaced = λ digest. unfold replace_placeholder in rw later (ap (λ t. c ∷ t) (r.replaced digest));
}

splits : (format : Text) → count_placeholders format ≡ 1 → count_percent format ≡ 1 → Splits format
unfolding count_placeholders count_percent
splits [] h k = cc
splits (c ∷ []) h k = cc
splits (c ∷ d ∷ s) h k = elim (Bool-cases ((c == 37) && (d == 115))) [
  | inl here ↦ record {
    pre = [];
    post = s;
    whole = ground arith;
    pre_plain = refl;
    post_plain = ground arith;
    replaced = λ digest. unfold replace_placeholder in rw here;
  }
  | inr later ↦
      after c d s later
        (splits (d ∷ s) (ground arith) (ground (arith, placeholders-le-percent (d ∷ s))))
        (ground (arith, placeholders-le-percent (d ∷ s)))
]

-- A format that passes the checks is at most 128 bytes, has exactly one `%`, that of its `%s`, and
-- every flag made from it is the format with the first eight digits of the digest in that place.
pub validate_flag_format-make_flag :
    (format : Text)
    → validate_flag_format format ≡ none
    → (length format ≤ 128)
      × (pre post : Text) × (format ≡ pre ++ 37 ∷ 115 ∷ post)
      × (count_percent pre ≡ 0)
      × (count_percent post ≡ 0)
      × ((sum : Text) → make_flag sum format ≡ pre ++ take 8 sum ++ post)
unfolding validate_flag_format make_flag
validate_flag_format-make_flag format h =
    let s : Splits format = splits format (ground arith) (ground arith) in
    (
      ground arith,
      s.pre,
      s.post,
      s.whole,
      s.pre_plain,
      s.post_plain,
      λ sum. s.replaced (take 8 sum),
    )
