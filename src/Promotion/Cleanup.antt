-- ===== src/Promotion/Cleanup.antt =====
-- cleanupInterruptedBuildResources of cmgr/docker.go: images and archives that interrupted updates of the
-- builds of a challenge have left.
mod Images
mod Files
pub mod Removed
mod Examples
use cmgr.Common.{
  Bool, true, false, not, ◌&&◌, Option, none, some, List, [], ◌∷◌, any, if◌then◌else◌, Text,
  text_eq, ℤ, int_eq,
}
use cmgr.Staging.{staged_image_build_id}
use cmgr.Promotion.{World, Faults, remove_image, unlink_file, and_then}
use cmgr.Promotion.Leftover.{staged_artifact_build_id}

-- Staged for one of these builds.
abbrev pub is_expected : List ℤ → Option ℤ → Bool
is_expected ids none = false
is_expected ids (some b) = any (int_eq b) ids

-- The loops over the tags of all images; `removed` are the tags that were met before.
pub clean_images : Faults → Text → List ℤ → List Text → List Text → World → World × Bool
clean_images d challenge ids removed [] w = (w, true)
clean_images d challenge ids removed (t ∷ ts) w =
    let skipped = clean_images d challenge ids removed ts w in
    let done = and_then (remove_image d t w) (clean_images d challenge ids (t ∷ removed) ts) in
    if is_expected ids (staged_image_build_id t challenge) && not (any (text_eq t) removed)
    then done
    else skipped

-- The loop over the files of the artifacts directory.
pub clean_archives : Faults → List ℤ → List Text → World → World × Bool
clean_archives d ids [] w = (w, true)
clean_archives d ids (n ∷ ns) w =
    let skipped = clean_archives d ids ns w in
    let done = and_then (unlink_file d n w) (clean_archives d ids ns) in
    if is_expected ids (staged_artifact_build_id n) then done else skipped

abbrev pub listed : Option (List Text) → (List Text → World → World × Bool) → World → World × Bool
listed none clean w = (w, false)
listed (some names) clean w = clean names w

-- Docker's list of tags and that of the directory, where they can be read.
pub clean_interrupted :
    Faults → Text → List ℤ → Option (List Text) → Option (List Text) → World → World × Bool
clean_interrupted d challenge [] tags names w = (w, true)
clean_interrupted d challenge (i ∷ ids) tags names w =
    and_then (listed tags (clean_images d challenge (i ∷ ids) []) w)
      (listed names (clean_archives d (i ∷ ids)))
