-- ===== src/Promotion/Cleanup/Examples.antt =====
-- An interrupted update of build 7 of the challenge c has left an image, an archive and a backup.
use cmgr.Common.{
  ◌≡◌, ◌≢◌, refl, arith, true, false, none, some, List, [], ◌∷◌, Text, codes, pos, parse_int, itoa,
}
use cmgr.Staging.{
  build_of_tag, is_update_qualifier, build_image_name, staged_image_build_id, find_qualifier,
}
use cmgr.Promotion.{World, Faults, artifacts_filename, qualified_filename, backup_filename}
use cmgr.Promotion.Leftover.{
  find_archive, split_last, cut_suffix, archive_after, staged_artifact_build_id,
}
use cmgr.Promotion.Leftover.Recognised.{find_archive-ne-none}
use cmgr.Promotion.Cleanup.{clean_interrupted, clean_images, clean_archives}
use cmgr.Promotion.Cleanup.Images.{is_in}
use cmgr.Promotion.Cleanup.Removed.{clean_interrupted-kept, clean_interrupted-removed}

abbrev qualifier : Text
qualifier = codes "cmgr-validate-0123456789abcdef0123456789abcdef"

abbrev no_faults : Faults
no_faults = record {
  inspect = λ n. false;
  tag = λ s t. false;
  remove = λ n. false;
  stat = λ n. false;
  rename = λ f t. false;
  unlink = λ n. false;
}

abbrev full : World
full = record { image = λ n. some (codes "id"); archive = λ n. some (codes "bytes") }

abbrev tags : List Text
tags = codes "c:7-web" ∷ codes "c:cmgr-validate-0123456789abcdef0123456789abcdef-7-web" ∷ []

abbrev names : List Text
names =
    codes "7.tar.gz"
    ∷ codes ".cmgr-validate-0123456789abcdef0123456789abcdef-7.tar.gz"
    ∷ codes ".cmgr-old-cmgr-validate-0123456789abcdef0123456789abcdef-7.tar.gz"
    ∷ []

qualifier-accepted : is_update_qualifier qualifier ≡ true
unfolding is_update_qualifier
qualifier-accepted = refl

cleaned :
    (clean_interrupted no_faults (codes "c") (pos 7 ∷ []) (some tags) (some names) full).1 ≡ true
unfolding clean_interrupted clean_images clean_archives build_of_tag staged_image_build_id
    find_qualifier is_update_qualifier staged_artifact_build_id archive_after find_archive
    split_last cut_suffix parse_int
cleaned = refl

clean_interrupted-kept_example :
    ((clean_interrupted no_faults (codes "c") (pos 7 ∷ []) (some tags) (some names) full).0.image
        (build_image_name (codes "c") (pos 7) (codes "web") [])
      ≡ some (codes "id"))
    × ((clean_interrupted no_faults
            (codes "c")
            (pos 7 ∷ [])
            (some tags)
            (some names)
            full).0.archive
          (artifacts_filename (pos 7))
        ≡ some (codes "bytes"))
clean_interrupted-kept_example =
    clean_interrupted-kept no_faults (codes "c") (pos 7 ∷ []) (some tags) (some names) full 7
      (codes "web")

clean_interrupted-removed_example :
    (is_in (build_image_name (codes "c") (pos 7) (codes "web") qualifier) tags ≡ true
      → (clean_interrupted no_faults (codes "c") (pos 7 ∷ []) (some tags) (some names) full).0.image
          (build_image_name (codes "c") (pos 7) (codes "web") qualifier)
        ≡ none)
    × (is_in (qualified_filename qualifier (pos 7)) names ≡ true
        → (clean_interrupted no_faults
              (codes "c")
              (pos 7 ∷ [])
              (some tags)
              (some names)
              full).0.archive
            (qualified_filename qualifier (pos 7))
          ≡ none)
    × (is_in (backup_filename qualifier (pos 7)) names ≡ true
        → (clean_interrupted no_faults
              (codes "c")
              (pos 7 ∷ [])
              (some tags)
              (some names)
              full).0.archive
            (backup_filename qualifier (pos 7))
          ≡ none)
clean_interrupted-removed_example =
    clean_interrupted-removed no_faults (codes "c") (pos 7 ∷ []) tags names full 6 (codes "web")
      qualifier refl (omega arith) refl qualifier-accepted cleaned

find_archive-ne-none_example : find_archive 9 (codes "a-b-7") ≢ none
find_archive-ne-none_example = find_archive-ne-none 9 (codes "a-b-7") (omega arith)

-- The names are in the lists.
listed : is_in (build_image_name (codes "c") (pos 7) (codes "web") qualifier) tags ≡ true
unfolding build_image_name itoa
listed = refl
