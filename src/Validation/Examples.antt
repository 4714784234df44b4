-- ===== src/Validation/Examples.antt =====
-- A flag format, seeds and an error.
use cmgr.Common.{
  ◌≡◌, ◌≤◌, refl, none, List, [], ◌∷◌, ◌++◌, Text, codes, length, take, pos, negsuc, ℤ,
}
use cmgr.Validation.{
  validate_flag_format, count_placeholders, count_percent, make_flag, ApiError, wrap,
  unknown_identifier,
}
use cmgr.Validation.Flags.{validate_flag_format-make_flag}

abbrev format : Text
format = codes "flag{%s}"

format-accepted : validate_flag_format format ≡ none
unfolding validate_flag_format count_placeholders count_percent
format-accepted = refl

validate_flag_format-make_flag_example :
    (length format ≤ 128)
    × (pre post : Text) × (format ≡ pre ++ 37 ∷ 115 ∷ post)
    × (count_percent pre ≡ 0)
    × (count_percent post ≡ 0)
    × ((sum : Text) → make_flag sum format ≡ pre ++ take 8 sum ++ post)
validate_flag_format-make_flag_example = validate_flag_format-make_flag format format-accepted

abbrev seeds : List ℤ
seeds = pos 1 ∷ negsuc 0 ∷ pos 1 ∷ []

abbrev missing : ApiError
missing = wrap (unknown_identifier (codes "challenge"))
