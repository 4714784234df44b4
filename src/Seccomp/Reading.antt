-- ===== src/Seccomp/Reading.antt =====
-- unmarshalSeccompOptions and validatePersistedSeccompOptions of cmgr/seccomp.go: options that are read
-- from the database are checked again.
use cmgr.Common.{
  Bool, false, not, ◌&&◌, ◌||◌, Option, none, some, List, [], if◌then◌else◌, Text, codes, text_eq,
  is_empty, Result, ok, err, ◌>>=◌, ◌>>◌, reject_if,
}
use cmgr.Json.{Json, null, bool, num, text, arr, obj, Fields, get, as_object, as_text, as_texts}
use cmgr.Interceptor.Tweaks.{normalize_tweaks}
use cmgr.Policy.{SeccompOptions}
use cmgr.Seccomp.{
  SeccompError, many_modes, bad_filename, unexpected_snapshot, no_snapshot, hash_mismatch,
  no_options, bad_stored, Library, validate_seccomp_profile, validate_seccomp_profile_filename,
  has_tweaks, has_profile, many, tweaked,
}

abbrev pub or_bad : {A : Type 0} → Option A → Result SeccompError A
or_bad none = err bad_stored
or_bad (some a) = ok a

-- A field that is absent keeps the value of an empty record.
abbrev pub text_member : Option Json → Result SeccompError Text
text_member none = ok []
text_member (some v) = or_bad (as_text v)

abbrev pub texts_member : Option Json → Result SeccompError (List Text)
texts_member none = ok []
texts_member (some v) = or_bad (as_texts v)

abbrev as_bool : Json → Option Bool
as_bool null = some false
as_bool (bool b) = some b
as_bool (num n) = none
as_bool (text t) = none
as_bool (arr xs) = none
as_bool (obj fs) = none

abbrev pub bool_member : Option Json → Result SeccompError Bool
bool_member none = ok false
bool_member (some v) = or_bad (as_bool v)

abbrev pub decode_fields : Fields → Result SeccompError SeccompOptions
decode_fields fs = do
  legacy ← bool_member (get (codes "legacy") fs)
  tweaks ← texts_member (get (codes "tweaks") fs)
  profile ← text_member (get (codes "profile") fs)
  hash ← text_member (get (codes "profile_hash") fs)
  ok (record {
    legacy = legacy;
    tweaks = tweaks;
    profile = profile;
    profile_hash = hash;
    effective_profile = [];
  })

-- A pointer: null, or an object.
abbrev pub decode_options : Json → Result SeccompError (Option SeccompOptions)
decode_options null = ok none
decode_options (obj fs) = decode_fields fs >>= λ o. ok (some o)
decode_options (bool b) = err bad_stored
decode_options (num n) = err bad_stored
decode_options (text t) = err bad_stored
decode_options (arr xs) = err bad_stored

abbrev pub options_member : Option Json → Result SeccompError (Option SeccompOptions)
options_member none = ok none
options_member (some v) = decode_options v

abbrev pub no_profile_stored : SeccompOptions → Bool
no_profile_stored o = is_empty o.effective_profile && is_empty o.profile_hash

abbrev pub check_snapshot : Library → SeccompOptions → Result SeccompError SeccompOptions
check_snapshot lib o =
    reject_if (has_profile o && not (validate_seccomp_profile_filename o.profile)) bad_filename
    >> reject_if (is_empty o.effective_profile) no_snapshot
    >> validate_seccomp_profile lib o.effective_profile
    >> reject_if (not (text_eq o.profile_hash (lib.sha256 o.effective_profile))) hash_mismatch
    >> ok o

abbrev pub check_tweaks_alone : SeccompOptions → Result SeccompError SeccompOptions
check_tweaks_alone o = do
  o' ← tweaked o (normalize_tweaks o.tweaks)
  reject_if (not (no_profile_stored o)) unexpected_snapshot
  ok o'

unfoldable pub validate_persisted_seccomp_options :
    Library → SeccompOptions → Result SeccompError SeccompOptions
validate_persisted_seccomp_options lib o =
    if many o.legacy (has_tweaks o) (has_profile o)
    then err many_modes
    else if has_tweaks o
    then check_tweaks_alone o
    else if o.legacy || has_profile o
    then check_snapshot lib o
    else reject_if (not (no_profile_stored o)) unexpected_snapshot >> ok o

abbrev pub accept_options :
    Library → Option SeccompOptions → Text → Result SeccompError (Option SeccompOptions)
accept_options lib none effective = if not (is_empty effective) then err no_options else ok none
accept_options lib (some o) effective =
    validate_persisted_seccomp_options lib (record o { effective_profile = effective }) >>= λ o'.
    ok (some o')

unfoldable pub unmarshal_seccomp_options :
    Library → Option Json → Result SeccompError (Option SeccompOptions)
unmarshal_seccomp_options lib none = ok none
unmarshal_seccomp_options lib (some v) = do
  persisted ← or_bad (as_object v)
  options ← options_member (get (codes "options") persisted)
  effective ← text_member (get (codes "effective_profile") persisted)
  accept_options lib options effective
