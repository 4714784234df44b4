-- ===== src/Validation.antt =====
-- The checks of cmgr/api.go on flag formats, seeds and schema definitions, validateSeedLimit of
-- cmgr/policy.go, makeFlag of cmgr/docker.go, and the error kinds of cmgr/errors.go with the HTTP
-- status that cmgrd gives them (errorStatus of cmd/cmgrd/main.go).
pub mod Flags
pub mod Seeds
mod Examples
use cmgr.Common.{
  ℕ, zero, suc, ◌+◌, Bool, true, false, not, ◌&&◌, ◌||◌, Option, none, some, List, [], ◌∷◌, ◌++◌,
  ◌==◌, ltb, if◌then◌else◌, ℤ, pos, negsuc, int_eq, int_lt, Text, codes, is_empty, has_prefix, any,
  length, take, Result, ok, err, ◌>>=◌, ◌>>◌, reject_if,
}
use cmgr.Common.{◌≡◌, arith}
use cmgr.Store.{dynamic_instances}

pub data Invalid : Type 0 where
  format_too_long : ℕ → Invalid
  no_placeholder other_directive : Invalid
  repeated_seed : ℤ → Invalid
  null_schema empty_name reserved_name : Invalid
  bad_instance_count : Text → ℤ → Invalid
  in_challenge : Text → Invalid → Invalid
  too_many_seeds : ℕ → Invalid

-- strings.Count(format, "%s"): occurrences cannot overlap.
pub count_placeholders : Text → ℕ
count_placeholders [] = 0
count_placeholders (c ∷ []) = 0
count_placeholders (c ∷ d ∷ s) =
    let rest = count_placeholders (d ∷ s) in if (c == 37) && (d == 115) then suc rest else rest

-- strings.Count(format, "%").
pub count_percent : Text → ℕ
count_percent [] = 0
count_percent (c ∷ s) = let rest = count_percent s in if c == 37 then suc rest else rest

abbrev pub max_flag_format_bytes : ℕ
max_flag_format_bytes = 128

pub validate_flag_format : Text → Option Invalid
validate_flag_format format =
    if ltb max_flag_format_bytes (length format)
    then some (format_too_long (length format))
    else if not (count_placeholders format == 1)
    then some no_placeholder
    else if not (count_percent format == 1)
    then some other_directive
    else none

-- strings.Replace(format, "%s", digest, 1).
pub replace_placeholder : Text → Text → Text
replace_placeholder digest [] = []
replace_placeholder digest (c ∷ []) = c ∷ []
replace_placeholder digest (c ∷ d ∷ s) =
    let rest = c ∷ replace_placeholder digest (d ∷ s) in
    if (c == 37) && (d == 115) then digest ++ s else rest

-- makeFlag; `sum` is the hexadecimal SHA-256 of challenge, format and seed.
pub make_flag : Text → Text → Text
make_flag sum format = replace_placeholder (take 8 sum) format

-- The loop of validateSeeds, with the seeds seen.
pub check_seeds : List ℤ → List ℤ → Option Invalid
check_seeds seen [] = none
check_seeds seen (s ∷ ss) =
    let rest = check_seeds (s ∷ seen) ss in
    if any (int_eq s) seen then some (repeated_seed s) else rest

pub validate_seeds : List ℤ → Option Invalid
unfolding check_seeds
validate_seeds seeds = check_seeds [] seeds

pub record Specification : Type 0 where
  pub seeds : List ℤ
  pub instance_count : ℤ

pub record Schema : Type 0 where
  pub name : Text
  pub flag_format : Text
  pub challenges : List (Text × Specification)

abbrev pub manual_schema_prefix : Text
manual_schema_prefix = codes "manual-"

-- The first error of a chain of checks.
infixr 25 ◌or_else◌
abbrev pub ◌or_else◌ : Option Invalid → Option Invalid → Option Invalid
none or_else b = b
some e or_else b = some e

abbrev pub fail_if : Bool → Invalid → Option Invalid
fail_if true e = some e
fail_if false e = none

abbrev pub within : Text → Option Invalid → Option Invalid
within c none = none
within c (some e) = some (in_challenge c e)

-- The map of challenges in the order in which the loop meets it.
pub validate_challenges : List (Text × Specification) → Option Invalid
validate_challenges [] = none
validate_challenges ((c, spec) ∷ rest) =
    fail_if (int_lt spec.instance_count dynamic_instances)
      (bad_instance_count c spec.instance_count)
    or_else within c (validate_seeds spec.seeds)
    or_else validate_challenges rest

pub validate_schema_definition : Option Schema → Option Invalid
validate_schema_definition none = some null_schema
validate_schema_definition (some s) =
    fail_if (is_empty s.name) empty_name
    or_else fail_if (has_prefix manual_schema_prefix s.name) reserved_name
    or_else validate_flag_format s.flag_format
    or_else validate_challenges s.challenges

pub validate_seed_limit : ℕ → ℕ → Option Invalid
validate_seed_limit limit n = fail_if (ltb 0 limit && ltb limit n) (too_many_seeds n)

pub check_limits : ℕ → List (Text × Specification) → Option Invalid
check_limits limit [] = none
check_limits limit ((c, spec) ∷ rest) =
    within c (validate_seed_limit limit (length spec.seeds)) or_else check_limits limit rest

-- An error and the errors that it wraps, the outer one first.
pub data ApiError : Type 0 where
  plain : ApiError
  wrap : ApiError → ApiError
  unknown_identifier : Text → ApiError
  invalid_input : ApiError → ApiError
  conflict_error : ApiError → ApiError

-- errors.As for each of the three types.
pub is_unknown : ApiError → Bool
is_unknown plain = false
is_unknown (wrap e) = is_unknown e
is_unknown (unknown_identifier n) = true
is_unknown (invalid_input e) = is_unknown e
is_unknown (conflict_error e) = is_unknown e

pub is_invalid : ApiError → Bool
is_invalid plain = false
is_invalid (wrap e) = is_invalid e
is_invalid (unknown_identifier n) = false
is_invalid (invalid_input e) = true
is_invalid (conflict_error e) = is_invalid e

pub is_conflict : ApiError → Bool
is_conflict plain = false
is_conflict (wrap e) = is_conflict e
is_conflict (unknown_identifier n) = false
is_conflict (invalid_input e) = is_conflict e
is_conflict (conflict_error e) = true

-- invalidInput: an error that is invalid input already is left as it is.
pub to_invalid_input : ApiError → ApiError
to_invalid_input e = if is_invalid e then e else invalid_input e

pub error_status : ApiError → ℕ → ℕ
error_status e fallback =
    if is_unknown e
    then 404
    else if is_invalid e
    then 400
    else if is_conflict e
    then 409
    else fallback

-- Marking an error as invalid input twice is marking it once, and gives status 400 unless the error
-- tells of an unknown identifier, which stays 404.
pub to_invalid_input_status :
    (e : ApiError) (fallback : ℕ)
    → (to_invalid_input (to_invalid_input e) ≡ to_invalid_input e)
      × (error_status (to_invalid_input e) fallback ≡ (if is_unknown e then 404 else 400))
unfolding to_invalid_input error_status is_invalid is_unknown
to_invalid_input_status e fallback = ground arith
