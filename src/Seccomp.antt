-- ===== src/Seccomp.antt =====
-- The seccomp options of cmgr/seccomp.go: how they are resolved, stored and read back, and the tweaks
-- that a build adds.
pub mod Reading
pub mod Required
pub mod Members
pub mod Stored
mod Examples
use cmgr.Common.{
  ℕ, suc, ◌+◌, Bool, true, false, not, ◌&&◌, ◌||◌, Option, none, some, List, [], ◌∷◌, ◌++◌, ◌==◌,
  leb, ltb, if◌then◌else◌, Text, codes, text_eq, is_empty, any, all, split_byte, map, lookup,
  delete, Result, ok, err, ◌>>=◌, ◌>>◌, reject_if,
}
use cmgr.Json.{
  Json, null, bool, text, arr, obj, Fields, end, field, get, as_object, as_text, as_texts, items_of,
}
use cmgr.Interceptor.Tweaks.{TweakError, normalize_tweaks}
use cmgr.Interceptor.Runtime.{is_abs}
use cmgr.Policy.{SeccompOptions}

-- What json.Unmarshal reads of a profile.
pub record Rule : Type 0 where
  pub name : Text
  pub names : List Text
  pub action : Text
  pub operators : List Text

pub record Profile : Type 0 where
  pub default_action : Text
  pub syscalls : List Rule

pub data SeccompError : Type 0 where
  many_modes : SeccompError
  bad_tweaks : TweakError → SeccompError
  bad_filename unreadable not_json : SeccompError
  no_default_action both_names no_names no_action no_operator : SeccompError
  unexpected_snapshot no_snapshot hash_mismatch : SeccompError
  no_options bad_stored : SeccompError

-- `parse` is json.Unmarshal into a profile, `sha256` the digest in hexadecimal, `read_profile` what
-- the file of a name in the challenge directory holds, `legacy_policy` the embedded profile, and
-- `replaced` a text as json.Marshal writes it, with each byte that is not UTF-8 replaced.
pub record Library : Type 0 where
  pub parse : Text → Option Profile
  pub sha256 : Text → Text
  pub read_profile : Text → Option Text
  pub legacy_policy : Text
  pub replaced : Text → Text

abbrev pub no_texts : List Text → Bool
no_texts [] = true
no_texts (t ∷ ts) = false

abbrev pub check_rule : Rule → Result SeccompError (Unit {0})
check_rule r =
    reject_if (not (is_empty r.name) && not (no_texts r.names)) both_names
    >> reject_if (is_empty r.name && no_texts r.names) no_names
    >> reject_if (is_empty r.action) no_action
    >> reject_if (any is_empty r.operators) no_operator

pub check_rules : List Rule → Result SeccompError (Unit {0})
check_rules [] = ok tt
check_rules (r ∷ rs) = check_rule r >> check_rules rs

pub validate_seccomp_profile : Library → Text → Result SeccompError (Unit {0})
validate_seccomp_profile lib profile = elim (lib.parse profile) [
  | none ↦ err not_json
  | some p ↦ reject_if (is_empty p.default_action) no_default_action >> check_rules p.syscalls
]

abbrev is_letter : ℕ → Bool
is_letter c = (leb 97 c && leb c 122) || (leb 65 c && leb c 90)

abbrev is_number : ℕ → Bool
is_number c = leb 48 c && leb c 57

abbrev pub filename_byte : ℕ → Bool
filename_byte c = is_letter c || is_number c || c == 95 || c == 45 || c == 46

-- filepath.Ext is the end of the name from its last dot on.
abbrev pub has_suffix : Text → Text → Bool
has_suffix suffix [] = text_eq [] suffix
has_suffix suffix (c ∷ s) = let rest = has_suffix suffix s in text_eq (c ∷ s) suffix || rest

abbrev pub starts_with_dot : Text → Bool
starts_with_dot [] = false
starts_with_dot (c ∷ s) = c == 46

-- A name without a directory: `filepath.Base(path) == path`.
pub validate_seccomp_profile_filename : Text → Bool
validate_seccomp_profile_filename path =
    not (is_empty path)
    && not (is_abs path)
    && not (any (λ c. c == 47) path)
    && not (starts_with_dot path)
    && has_suffix (codes ".json") path
    && not (text_eq path (codes "problem.json"))
    && all filename_byte path

abbrev pub read_seccomp_profile : Library → Text → Result SeccompError Text
read_seccomp_profile lib path =
    if not (validate_seccomp_profile_filename path)
    then err bad_filename
    else elim (lib.read_profile path) [ none ↦ err unreadable | some contents ↦ ok contents ]

abbrev pub has_tweaks : SeccompOptions → Bool
has_tweaks o = not (no_texts o.tweaks)

abbrev pub has_profile : SeccompOptions → Bool
has_profile o = not (is_empty o.profile)

-- More than one of three.
abbrev pub many : Bool → Bool → Bool → Bool
many legacy tweaks profile = (legacy && tweaks) || (legacy && profile) || (tweaks && profile)

abbrev pub tweaked :
    SeccompOptions → Result TweakError (List Text) → Result SeccompError SeccompOptions
tweaked o (ok tweaks) = ok (record o { tweaks = tweaks })
tweaked o (err e) = err (bad_tweaks e)

abbrev pub with_profile : Library → SeccompOptions → Text → Result SeccompError SeccompOptions
with_profile lib o profile =
    validate_seccomp_profile lib profile
    >> ok (record o { profile_hash = lib.sha256 profile; effective_profile = profile })

-- SeccompOptions.resolve.
pub resolve : Library → SeccompOptions → Result SeccompError SeccompOptions
resolve lib opts =
    let o = record opts { profile_hash = []; effective_profile = [] } in
    if many o.legacy (has_tweaks o) (has_profile o)
    then err many_modes
    else if o.legacy
    then with_profile lib o lib.legacy_policy
    else if has_tweaks o
    then tweaked o (normalize_tweaks o.tweaks)
    else if has_profile o
    then read_seccomp_profile lib o.profile >>= with_profile lib o
    else ok o

-- Fields with `omitempty`.
abbrev pub unless : Bool → Text → Json → Fields → Fields
unless empty name v rest = if empty then rest else field name v rest

abbrev pub encoded : Library → Text → Json
encoded lib t = text (lib.replaced t)

pub encode_options : Library → SeccompOptions → Json
encode_options lib o = obj (
    unless (not o.legacy) (codes "legacy") (bool true) (
      unless (not (has_tweaks o)) (codes "tweaks") (arr (items_of (map lib.replaced o.tweaks))) (
        unless (is_empty o.profile) (codes "profile") (encoded lib o.profile) (
          unless (is_empty o.profile_hash) (codes "profile_hash") (encoded lib o.profile_hash)
            end))))

-- marshalSeccompOptions; no document stands for the empty text.
pub marshal_seccomp_options : Library → Option SeccompOptions → Option Json
marshal_seccomp_options lib none = none
marshal_seccomp_options lib (some o) = some (
    obj (
      field (codes "options") (encode_options lib o) (
        unless (is_empty o.effective_profile) (codes "effective_profile")
          (encoded lib o.effective_profile) end)))
