-- ===== src/Interceptor/Examples.antt =====
-- Concrete bundle arguments and tweaks.
use cmgr.Common.{◌≡◌, refl, false, some, List, [], ◌∷◌, Text, codes, is_empty, ok}
use cmgr.Interceptor.Bundle.{find_bundle_path, find_bundle_path_strict, find_bundle_path-strict}
use cmgr.Interceptor.Tweaks.{tweak_allow_disable_aslr}

abbrev run_args : List Text
run_args = codes "run" ∷ codes "--bundle=/run/b2" ∷ codes "c2" ∷ []

strict_bundle : find_bundle_path_strict run_args ≡ ok (codes "/run/b2")
unfolding find_bundle_path_strict
strict_bundle = refl

find_bundle_path-strict_example :
    (find_bundle_path run_args ≡ some (codes "/run/b2")) × (is_empty (codes "/run/b2") ≡ false)
find_bundle_path-strict_example = find_bundle_path-strict run_args strict_bundle

abbrev both : List Text
both = tweak_allow_disable_aslr ∷ tweak_allow_disable_aslr ∷ []
