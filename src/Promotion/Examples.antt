-- ===== src/Promotion/Examples.antt =====
-- A concrete build that is promoted, and one whose promotion fails at its archive.
use cmgr.Common.{
  ◌≡◌, refl, Bool, true, false, none, some, [], ◌∷◌, if◌then◌else◌, Text, codes, text_eq, pos, ok,
  err, itoa,
}
use cmgr.Staging.{is_update_qualifier, build_image_name}
use cmgr.Promotion.{
  World, Faults, Candidate, artifacts_filename, qualified_filename, backup_filename, Promotion,
  not_installed, restore_images, rollback_staged_build, snapshot_images, tag_images,
  promote_staged_build,
}
use cmgr.Promotion.Rollback.{IsRestored, never}
use cmgr.Promotion.Outcome.{
  taken, promote_staged_build-IsRestored, rollback_staged_build-promote_staged_build,
}

abbrev qualifier : Text
qualifier = codes "cmgr-validate-0123456789abcdef0123456789abcdef"

abbrev candidate : Candidate
candidate = record {
  id = pos 7;
  challenge = codes "c";
  hosts = codes "web" ∷ [];
  has_artifacts = true;
}

abbrev faults : Bool → Faults
faults broken = record {
  inspect = λ n. false;
  tag = λ s t. false;
  remove = λ n. false;
  stat = λ n. false;
  rename = λ f t.
      if broken
      then text_eq f (codes ".cmgr-validate-0123456789abcdef0123456789abcdef-7.tar.gz")
      else false;
  unlink = λ n. false;
}

abbrev before : World
before = record {
  image = λ n.
      if text_eq n (codes "c:7-web")
      then some (codes "old")
      else if text_eq n (codes "c:cmgr-validate-0123456789abcdef0123456789abcdef-7-web")
      then some (codes "new")
      else none;
  archive = λ n.
      if text_eq n (codes "7.tar.gz")
      then some (codes "old files")
      else if text_eq n (codes ".cmgr-validate-0123456789abcdef0123456789abcdef-7.tar.gz")
      then some (codes "new files")
      else none;
}

abbrev promotion : Promotion
promotion = record {
  canonical_images = (codes "c:7-web", some (codes "old")) ∷ [];
  staged_names = codes "c:cmgr-validate-0123456789abcdef0123456789abcdef-7-web" ∷ [];
  canonical_artifact = codes "7.tar.gz";
  backup_artifact = codes ".cmgr-old-cmgr-validate-0123456789abcdef0123456789abcdef-7.tar.gz";
  had_artifact = true;
  installed_artifact = true;
}

abbrev promoted : World
promoted = (promote_staged_build (faults false) candidate qualifier before).0

is_promoted :
    promote_staged_build (faults false) candidate qualifier before ≡ (promoted, ok promotion)
unfolding promote_staged_build snapshot_images tag_images artifacts_filename qualified_filename
    backup_filename build_image_name itoa
is_promoted = refl

is_valid : is_update_qualifier qualifier ≡ true
unfolding is_update_qualifier
is_valid = refl

is_free : before.archive (backup_filename qualifier candidate.id) ≡ none
unfolding backup_filename artifacts_filename
is_free = refl

can_roll_back : (rollback_staged_build (faults false) promotion promoted).1 ≡ true
unfolding rollback_staged_build restore_images promote_staged_build snapshot_images tag_images
    artifacts_filename qualified_filename backup_filename build_image_name itoa
can_roll_back = refl

rollback_staged_build-promote_staged_build_example :
    IsRestored
      (taken (faults false) candidate qualifier before)
      before
      (rollback_staged_build (faults false) promotion promoted).0
rollback_staged_build-promote_staged_build_example =
    rollback_staged_build-promote_staged_build (faults false) (faults false) candidate qualifier
      before is_valid is_free is_promoted can_roll_back

abbrev abandoned : World
abandoned = (promote_staged_build (faults true) candidate qualifier before).0

is_abandoned :
    promote_staged_build (faults true) candidate qualifier before
    ≡ (abandoned, err (not_installed true))
unfolding promote_staged_build snapshot_images tag_images artifacts_filename qualified_filename
    backup_filename build_image_name itoa rollback_staged_build restore_images
is_abandoned = refl

promote_staged_build-IsRestored_example : IsRestored never before abandoned
promote_staged_build-IsRestored_example =
    promote_staged_build-IsRestored (faults true) candidate qualifier before is_valid is_free
      is_abandoned refl
