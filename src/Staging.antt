-- ===== src/Staging.antt =====
-- The names of images and artifact archives of a build in cmgr/docker.go, with and without the
-- qualifier of a staged update, and the functions that recognise the staged ones.
pub mod RoundTrip
mod Examples
use cmgr.Common.{
  ℕ, zero, suc, ◌-◌, ◌+◌, Bool, true, false, ◌&&◌, ◌||◌, Option, none, some, List, [], ◌∷◌, ◌++◌,
  ◌==◌, leb, ltb, if◌then◌else◌, Text, codes, text_eq, is_empty, cut_prefix, index_byte, take, drop,
  length, all, ℤ, pos, negsuc, parse_int, itoa,
}

abbrev pub qualifier_prefix : Text
qualifier_prefix = codes "cmgr-validate-"

abbrev pub is_hex : ℕ → Bool
is_hex c = (leb 48 c && leb c 57) || (leb 97 c && leb c 102)

-- The prefix, then the 32 digits of a random identifier.
abbrev qualifier_digits : Option Text → Bool
qualifier_digits none = false
qualifier_digits (some digits) = (length digits == 32) && all is_hex digits

unfoldable pub is_update_qualifier : Text → Bool
is_update_qualifier value = qualifier_digits (cut_prefix qualifier_prefix value)

-- dockerId.
unfoldable pub docker_id : ℤ → Text → Text
docker_id build host = itoa build ++ 45 ∷ host

abbrev qualified : Text → Text → Text
qualified [] tag = tag
qualified (c ∷ q) tag = (c ∷ q) ++ 45 ∷ tag

unfoldable pub build_image_name : Text → ℤ → Text → Text → Text
unfolding docker_id
build_image_name challenge build host qualifier =
    challenge ++ 58 ∷ qualified qualifier (docker_id build host)

-- A positive int64.
abbrev pub positive : Option ℤ → Option ℤ
positive none = none
positive (some (pos zero)) = none
positive (some (pos (suc n))) = some (pos (suc n))
positive (some (negsuc n)) = none

-- What follows the qualifier: a positive number, a dash, and a host that is not empty.
abbrev pub build_before : Option ℕ → Text → Option ℤ
build_before none s = none
build_before (some zero) s = none
build_before (some (suc i)) s =
    if suc i + 1 == length s then none else positive (parse_int (take (suc i) s))

unfoldable pub build_of_tag : Text → Option ℤ
build_of_tag s = build_before (index_byte s 45) s

-- The loop over the dashes of the tag: `before` stands ahead of the part that is still searched.
unfoldable pub find_qualifier : Text → Text → Option ℤ
find_qualifier before [] = none
find_qualifier before (c ∷ s) =
    let later = find_qualifier (before ++ c ∷ []) s in
    if c == 45 then if is_update_qualifier before then build_of_tag s else later else later

unfoldable pub staged_image_build_id : Text → Text → Option ℤ
staged_image_build_id tag challenge = elim (cut_prefix (challenge ++ 58 ∷ []) tag) [
  | none ↦ none
  | some remainder ↦ find_qualifier [] remainder
]
