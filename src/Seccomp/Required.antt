-- ===== src/Seccomp/Required.antt =====
-- withRequiredSeccompTweaks and consumeBuildSeccompTweaks of cmgr/seccomp.go: the tweaks that a build
-- finds to be needed.
use cmgr.Common.{
  ℕ, Bool, true, false, ◌&&◌, ◌||◌, ◌==◌, Option, none, some, List, [], ◌∷◌, ◌++◌, map, any,
  if◌then◌else◌, Text, codes, text_eq, is_empty, split_byte, lookup, delete, Result, ok, err, ◌>>=◌,
}
use cmgr.Interceptor.Tweaks.{normalize_tweaks}
use cmgr.Policy.{SeccompOptions}
use cmgr.Seccomp.{SeccompError, no_texts, tweaked, bad_tweaks}

-- The keys of the map, in some order; normalize_tweaks sorts them.
unfoldable pub unique : List Text → List Text
unique [] = []
unique (t ∷ ts) = let rest = unique ts in if any (text_eq t) ts then rest else t ∷ rest

abbrev pub default_options : SeccompOptions
default_options = record {
  legacy = false;
  tweaks = [];
  profile = [];
  profile_hash = [];
  effective_profile = [];
}

abbrev pub base_options : Option SeccompOptions → SeccompOptions
base_options none = default_options
base_options (some o) = o

abbrev pub is_none : Option SeccompOptions → Bool
is_none none = true
is_none (some o) = false

unfoldable pub with_required_seccomp_tweaks :
    Option SeccompOptions → List Text → Result SeccompError (Option SeccompOptions)
with_required_seccomp_tweaks configured required =
    if is_none configured && no_texts required
    then ok none
    else tweaked (base_options configured)
        (normalize_tweaks (unique ((base_options configured).tweaks ++ required)))
      >>= λ o. ok (some o)

abbrev is_space : ℕ → Bool
is_space c = c == 32 || c == 9 || c == 10 || c == 11 || c == 12 || c == 13

-- strings.TrimSpace, on ASCII.
abbrev pub trim_left : Text → Text
trim_left [] = []
trim_left (c ∷ s) = let rest = trim_left s in if is_space c then rest else c ∷ s

abbrev pub trim_right : Text → Text
trim_right [] = []
trim_right (c ∷ s) = let rest = trim_right s in if is_empty rest && is_space c then [] else c ∷ rest

abbrev pub trim_space : Text → Text
trim_space s = trim_right (trim_left s)

abbrev pub build_metadata_seccomp_tweaks_key : Text
build_metadata_seccomp_tweaks_key = codes "__cmgr_seccomp_tweaks"

abbrev pub build_tweaks : Text → Result SeccompError (List Text)
build_tweaks encoded =
    if is_empty (trim_space encoded)
    then ok []
    else elim (normalize_tweaks (map trim_space (split_byte 44 encoded))) [
      | ok tweaks ↦ ok tweaks
      | err e ↦ err (bad_tweaks e)
    ]

-- The metadata without the key, and the tweaks.
unfoldable pub consume_build_seccomp_tweaks :
    List (Text × Text) → List (Text × Text) × Result SeccompError (List Text)
consume_build_seccomp_tweaks metadata = elim (lookup build_metadata_seccomp_tweaks_key metadata) [
  | none ↦ (metadata, ok [])
  | some encoded ↦ (delete build_metadata_seccomp_tweaks_key metadata, build_tweaks encoded)
]
