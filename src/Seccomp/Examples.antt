-- ===== src/Seccomp/Examples.antt =====
-- A custom profile that is stored and read back, and the tweaks of a build.
use cmgr.Common.{◌≡◌, refl, none, some, [], ◌∷◌, codes, ok, false, is_empty, if◌then◌else◌}
use cmgr.Interceptor.Runtime.{is_abs}
use cmgr.Interceptor.Tweaks.{normalize_tweaks}
use cmgr.Policy.{SeccompOptions}
use cmgr.Seccomp.{
  Profile, Library, check_rules, validate_seccomp_profile, validate_seccomp_profile_filename,
  resolve, marshal_seccomp_options,
}
use cmgr.Seccomp.Reading.{unmarshal_seccomp_options}
use cmgr.Seccomp.Required.{unique, with_required_seccomp_tweaks, consume_build_seccomp_tweaks}
use cmgr.Seccomp.Members.{IsPlain}
use cmgr.Seccomp.Stored.{unmarshal-marshal_seccomp_options}

abbrev profile : Profile
profile = record { default_action = codes "SCMP_ACT_ERRNO"; syscalls = [] }

abbrev library : Library
library = record {
  parse = λ t. if is_empty t then none else some profile;
  sha256 = λ t. codes "5e";
  read_profile = λ name. some (codes "{}");
  legacy_policy = codes "{}";
  replaced = λ t. t;
}

abbrev chosen : SeccompOptions
chosen = record {
  legacy = false;
  tweaks = [];
  profile = codes "web.json";
  profile_hash = [];
  effective_profile = [];
}

abbrev resolved : SeccompOptions
resolved = record chosen { profile_hash = codes "5e"; effective_profile = codes "{}" }

is_resolved : resolve library chosen ≡ ok resolved
unfolding resolve validate_seccomp_profile validate_seccomp_profile_filename check_rules is_abs
is_resolved = refl

is_plain : IsPlain library resolved
is_plain = record { tweaks = refl; profile = refl; profile_hash = refl; snapshot = refl }

unmarshal-marshal_seccomp_options_example :
    unmarshal_seccomp_options library (marshal_seccomp_options library (some resolved))
    ≡ ok (some resolved)
unmarshal-marshal_seccomp_options_example =
    unmarshal-marshal_seccomp_options library chosen refl is_resolved is_plain

required :
    with_required_seccomp_tweaks none (codes "allow-disable-aslr" ∷ codes "allow-disable-aslr" ∷ [])
    ≡ ok (
        some (record {
          legacy = false;
          tweaks = codes "allow-disable-aslr" ∷ [];
          profile = [];
          profile_hash = [];
          effective_profile = [];
        }))
unfolding with_required_seccomp_tweaks unique normalize_tweaks
required = refl

consumed :
    consume_build_seccomp_tweaks
      ((codes "__cmgr_seccomp_tweaks", codes " allow-disable-aslr ") ∷ [])
    ≡ ([], ok (codes "allow-disable-aslr" ∷ []))
unfolding consume_build_seccomp_tweaks normalize_tweaks
consumed = refl
