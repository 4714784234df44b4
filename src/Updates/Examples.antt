-- ===== src/Updates/Examples.antt =====
-- Updates of a manager with one challenge: the second build whose instance is cut over fails.
mod Manager
use cmgr.Common.{
  ◌≡◌, refl, ap, arith, Bool, true, false, ◌&&◌, Option, none, some, List, ℤ, itoa, decimal, [],
  ◌∷◌, if◌then◌else◌, Text, codes, text_eq, text_eq_iff, pos, Result, ok, err,
}
use cmgr.Changes.{Challenge, Answers, Verdict, compare}
use cmgr.Updates.{
  StagedBuildUpdate, UpdateError, Operations, not_cut_over, no_errors, update_challenge, refresh,
  rebuild, rebuild_listed, update_builds, update_build, stage_update, record_build, cut_over,
  rollback_build_update, rollback_cutovers, rollback_updates,
}
use cmgr.Updates.Marker.{IsMarked, update_challenge-IsMarked, update_challenge-retried}
use cmgr.Updates.Undo.{Same}
use cmgr.Updates.Restored.{update_builds-Same}
use cmgr.Staging.{build_image_name, docker_id, is_update_qualifier}
use cmgr.Promotion.{
  World, Promotion, promote_staged_build, rollback_staged_build, backup_filename,
  artifacts_filename, qualified_filename, snapshot_images, tag_images, restore_images,
}
use cmgr.Updates.Examples.Manager.{
  Site, site, site_row, site_rows, flag_of, container_of, seen_of, site_undo, SiteBuild,
}

abbrev old_challenge : Challenge
old_challenge = record {
  id = codes "one";
  path = codes "/c/one/problem.json";
  kind = codes "custom";
  source_digest = codes "aa";
  metadata_digest = codes "bb";
  solve_script = false;
  policies = [];
}

abbrev new_challenge : Challenge
new_challenge = record old_challenge { source_digest = codes "cc" }

-- The images and the archive of build 7, and what the two builds stage.
abbrev images_and_archives : World
images_and_archives = record {
  image = λ n.
      if text_eq n (codes "one:7-web")
      then some (codes "old")
      else if text_eq n (codes "one:cmgr-validate-0123456789abcdef0123456789abcdef-7-web")
      then some (codes "new")
      else if text_eq n (codes "one:cmgr-validate-fedcba9876543210fedcba9876543210-8-web")
      then some (codes "newer")
      else none;
  archive = λ n.
      if text_eq n (codes "7.tar.gz")
      then some (codes "old files")
      else if text_eq n (codes ".cmgr-validate-0123456789abcdef0123456789abcdef-7.tar.gz")
      then some (codes "new files")
      else if text_eq n (codes ".cmgr-validate-fedcba9876543210fedcba9876543210-8.tar.gz")
      then some (codes "newer files")
      else none;
}

abbrev before : Site
before = record {
  row = old_challenge;
  world = images_and_archives;
  flag = codes "flag{old}";
  container = codes "c1";
}

abbrev rebuild_run :
    Site × Result (List UpdateError) (List (StagedBuildUpdate SiteBuild Promotion Text))
rebuild_run = update_builds site new_challenge [] (pos 7 ∷ pos 8 ∷ []) before

rebuilt : rebuild_run ≡ (rebuild_run.0, err (not_cut_over true ∷ []))
unfolding update_builds update_build stage_update record_build cut_over rollback_build_update
    rollback_cutovers rollback_updates promote_staged_build rollback_staged_build backup_filename
    artifacts_filename qualified_filename snapshot_images tag_images restore_images build_image_name
    docker_id itoa is_update_qualifier decimal
rebuilt = refl

update_builds-Same_example : Same site seen_of flag_of container_of rebuild_run.0 before
update_builds-Same_example =
    update_builds-Same site seen_of flag_of container_of site_undo new_challenge
      (pos 7 ∷ pos 8 ∷ []) before rebuild_run.0 rebuilt refl

update_challenge-IsMarked_example :
    IsMarked new_challenge old_challenge
      (site_row (codes "one") (update_challenge site true true new_challenge before).0)
      (update_challenge site true true new_challenge before).1
update_challenge-IsMarked_example =
    update_challenge-IsMarked site site_rows true new_challenge old_challenge before refl

abbrev answers : Answers
answers = record {
  directory = none;
  inventory = λ d. ([], []);
  listed = none;
  stored = λ i. none;
  inside = λ p d. false;
  challenge_dir = [];
  same_options = λ a b. true;
}

fails : (update_challenge site true true new_challenge before).1 ≡ not_cut_over true ∷ []
unfolding update_challenge rebuild rebuild_listed refresh update_builds update_build stage_update
    record_build cut_over rollback_build_update rollback_cutovers rollback_updates
    promote_staged_build rollback_staged_build backup_filename artifacts_filename qualified_filename
    snapshot_images tag_images restore_images build_image_name docker_id itoa is_update_qualifier
    decimal
fails = refl

update_challenge-retried_example :
    (c : Challenge) × (site_row
        (codes "one")
        (update_challenge site true true new_challenge before).0
      ≡ some c)
    × (compare answers c new_challenge c ≡ Verdict.rebuild new_challenge)
update_challenge-retried_example =
    update_challenge-retried site site_rows true answers new_challenge old_challenge before refl
      refl (ap no_errors fails)
