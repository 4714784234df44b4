-- ===== src/Promotion/Cleanup/Removed.antt =====
-- What the cleanup removes and what it leaves.
use cmgr.Common.{
  ℕ, suc, ◌<◌, ◌^◌, Bool, true, false, Option, none, some, List, [], ◌∷◌, ◌≡◌, refl, ap, ◌∙◌,
  and-true, any, Text, is_empty, ℤ, pos, int_eq,
}
use cmgr.Staging.{is_update_qualifier, build_image_name, staged_image_build_id}
use cmgr.Staging.RoundTrip.{staged_image_build_id-build_image_name, staged_image_build_id-canonical}
use cmgr.Promotion.{World, Faults, artifacts_filename, qualified_filename, backup_filename}
use cmgr.Promotion.Leftover.{staged_artifact_build_id}
use cmgr.Promotion.Leftover.Recognised.{
  staged_artifact_build_id-qualified_filename, staged_artifact_build_id-backup_filename,
  staged_artifact_build_id-artifacts_filename,
}
use cmgr.Promotion.Cleanup.{is_expected, clean_images, clean_archives, clean_interrupted, listed}
use cmgr.Promotion.Cleanup.Images.{
  is_in, clean_images-other, clean_images-archive, clean_images-removed,
}
use cmgr.Promotion.Cleanup.Files.{
  clean_archives-image, clean_archives-other, clean_archives-removed,
}

abbrev images_cleaned : Faults → Text → List ℤ → Option (List Text) → World → World × Bool
images_cleaned d challenge ids tags = listed tags (clean_images d challenge ids [])

abbrev archives_cleaned : Faults → List ℤ → Option (List Text) → World → World × Bool
archives_cleaned d ids names = listed names (clean_archives d ids)

module _ (d : Faults) (challenge : Text) (ids : List ℤ) where
  images_cleaned-other :
      (x : Text) (tags : Option (List Text)) (w : World)
      → is_expected ids (staged_image_build_id x challenge) ≡ false
      → (images_cleaned d challenge ids tags w).0.image x ≡ w.image x
  images_cleaned-other x none w h = refl
  images_cleaned-other x (some ts) w h = clean_images-other d challenge ids x [] ts w h

  images_cleaned-archive :
      (tags : Option (List Text)) (w : World)
      → (images_cleaned d challenge ids tags w).0.archive ≡ w.archive
  images_cleaned-archive none w = refl
  images_cleaned-archive (some ts) w = clean_images-archive d challenge ids [] ts w

  archives_cleaned-image :
      (names : Option (List Text)) (w : World) → (archives_cleaned d ids names w).0.image ≡ w.image
  archives_cleaned-image none w = refl
  archives_cleaned-image (some ns) w = clean_archives-image d ids ns w

  archives_cleaned-other :
      (x : Text) (names : Option (List Text)) (w : World)
      → is_expected ids (staged_artifact_build_id x) ≡ false
      → (archives_cleaned d ids names w).0.archive x ≡ w.archive x
  archives_cleaned-other x none w h = refl
  archives_cleaned-other x (some ns) w h = clean_archives-other d ids x ns w h

-- The cleanup keeps the image names of the challenge that are not staged ones, and the archives of
-- builds, whatever calls fail.
pub clean_interrupted-kept :
    (d : Faults) (challenge : Text) (ids : List ℤ) (tags names : Option (List Text)) (w : World)
    (n : ℕ) (host : Text)
    → ((clean_interrupted d challenge ids tags names w).0.image
          (build_image_name challenge (pos n) host [])
        ≡ w.image (build_image_name challenge (pos n) host []))
      × ((clean_interrupted d challenge ids tags names w).0.archive (artifacts_filename (pos n))
          ≡ w.archive (artifacts_filename (pos n)))
unfolding clean_interrupted
clean_interrupted-kept d challenge [] tags names w n host = (refl, refl)
clean_interrupted-kept d challenge (i ∷ ids) tags names w n host =
    let image = build_image_name challenge (pos n) host [] in
    let archive = artifacts_filename (pos n) in
    let v = (images_cleaned d challenge (i ∷ ids) tags w).0 in
    (
      ap (λ f. f image) (archives_cleaned-image d challenge (i ∷ ids) names v)
          ∙ images_cleaned-other d challenge (i ∷ ids) image tags w
              (ap (is_expected (i ∷ ids)) (staged_image_build_id-canonical challenge n host)),
      archives_cleaned-other d challenge (i ∷ ids) archive names v
            (ap (is_expected (i ∷ ids)) (staged_artifact_build_id-artifacts_filename n))
          ∙ ap (λ f. f archive) (images_cleaned-archive d challenge (i ∷ ids) tags w),
    )

-- A cleanup that succeeds has removed the staged image, the staged archive and the backup of each
-- of the builds, where the lists of tags and of files have them: for positive 63-bit build numbers,
-- hosts that are not empty and the qualifiers of updates.
pub clean_interrupted-removed :
    (d : Faults) (challenge : Text) (ids : List ℤ) (tags names : List Text) (w : World) (n : ℕ)
    (host q : Text)
    → any (int_eq (pos (suc n))) ids ≡ true
    → suc n < 2 ^ 63
    → is_empty host ≡ false
    → is_update_qualifier q ≡ true
    → (clean_interrupted d challenge ids (some tags) (some names) w).1 ≡ true
    → (is_in (build_image_name challenge (pos (suc n)) host q) tags ≡ true
        → (clean_interrupted d challenge ids (some tags) (some names) w).0.image
            (build_image_name challenge (pos (suc n)) host q)
          ≡ none)
      × (is_in (qualified_filename q (pos (suc n))) names ≡ true
          → (clean_interrupted d challenge ids (some tags) (some names) w).0.archive
              (qualified_filename q (pos (suc n)))
            ≡ none)
      × (is_in (backup_filename q (pos (suc n))) names ≡ true
          → (clean_interrupted d challenge ids (some tags) (some names) w).0.archive
              (backup_filename q (pos (suc n)))
            ≡ none)
unfolding clean_interrupted
clean_interrupted-removed d challenge [] tags names w n host q m k e h done = cc
clean_interrupted-removed d challenge (i ∷ ids) tags names w n host q m k e h done =
    let image = build_image_name challenge (pos (suc n)) host q in
    let r = clean_images d challenge (i ∷ ids) [] tags w in
    let first : r.1 ≡ true = (and-true (r.1) _ done).0 in
    let second : (clean_archives d (i ∷ ids) names (r.0)).1 ≡ true = (and-true (r.1) _ done).1 in
    (
      λ there.
          ap (λ f. f image) (clean_archives-image d (i ∷ ids) names (r.0))
          ∙ clean_images-removed d challenge (i ∷ ids) image [] tags w
              (ap (is_expected (i ∷ ids))
                  (staged_image_build_id-build_image_name challenge n host q h k e)
                ∙ m)
              (λ z. cc) there first,
      λ there.
          clean_archives-removed d (i ∷ ids) (qualified_filename q (pos (suc n))) names (r.0)
            (ap (is_expected (i ∷ ids)) (staged_artifact_build_id-qualified_filename q n h k) ∙ m)
            there second,
      λ there.
          clean_archives-removed d (i ∷ ids) (backup_filename q (pos (suc n))) names (r.0)
            (ap (is_expected (i ∷ ids)) (staged_artifact_build_id-backup_filename q n h k) ∙ m)
            there second,
    )
