-- ===== src/Staging/Examples.antt =====
-- A staged image name and a canonical one.
use cmgr.Common.{◌≡◌, refl, true, some, Text, codes, pos, arith}
use cmgr.Staging.{is_update_qualifier, build_image_name, staged_image_build_id}
use cmgr.Staging.RoundTrip.{staged_image_build_id-build_image_name}

abbrev qualifier : Text
qualifier = codes "cmgr-validate-0123456789abcdef0123456789abcdef"

qualifier-accepted : is_update_qualifier qualifier ≡ true
unfolding is_update_qualifier
qualifier-accepted = refl

staged_image_build_id-build_image_name_example :
    staged_image_build_id
      (build_image_name (codes "custom/heap") (pos 17) (codes "web-1") qualifier)
      (codes "custom/heap")
    ≡ some (pos 17)
staged_image_build_id-build_image_name_example =
    staged_image_build_id-build_image_name (codes "custom/heap") 16 (codes "web-1") qualifier
      qualifier-accepted (omega arith) refl
