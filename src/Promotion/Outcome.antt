-- ===== src/Promotion/Outcome.antt =====
-- What a promotion leaves: the state of a promotion that is done, or the state before it.
use cmgr.Common.{
  either_way, option_way, ◌≡◌, refl, sym, ap, subst, ◌∙◌, Bool, true, false, not, Option, none,
  some, List, arith, Text, text_eq, text_eq_refl, ok, err, Result,
}
use cmgr.Staging.{is_update_qualifier}
use cmgr.Promotion.{
  World, Faults, Candidate, Promotion, PromotionError, not_inspected, not_tagged, not_preserved,
  no_stat, not_installed, artifacts_filename, qualified_filename, backup_filename, rename_file,
  rollback_staged_build, snapshot_images, tag_images, abandon, install, promote_artifacts, prepared,
  promote_images, promote_staged_build,
}
use cmgr.Promotion.Branches.{attempt_way}
use cmgr.Promotion.Names.{canonical-backup, staged-backup}
use cmgr.Promotion.Images.{tag_images-archive}
use cmgr.Promotion.Archives.{rename_file-archive}
use cmgr.Promotion.Rollback.{
  IsRestored, never, IsPromoting, rename_file-image, rename_file-failed, rollback-IsRestored,
}

-- The rollback within the promotion reported no error, or there was nothing to roll back.
abbrev pub rolled_back : PromotionError → Bool
rolled_back not_inspected = true
rolled_back (not_tagged done) = done
rolled_back (not_preserved done) = done
rolled_back (no_stat done) = done
rolled_back (not_installed done) = done

module _ (d : Faults) (b : Candidate) (q : Text) (before : World) where
  -- The file that a promotion takes away: the staged archive.
  abbrev pub taken : Text → Bool
  taken n = text_eq (qualified_filename q b.id) n

  abbrev pub Outcome : World × Result PromotionError Promotion → Type 0
  Outcome (w, err e) = rolled_back e ≡ true → IsRestored never before w
  Outcome (w, ok p) = IsPromoting d b q taken before p w

  abandon-Outcome :
      (p : Promotion) (e : Bool → PromotionError) (w : World)
      → ((x : Bool) → rolled_back (e x) ≡ x)
      → IsPromoting d b q never before p w
      → Outcome (abandon d p e w)
  abandon-Outcome p e w same m h = rollback-IsRestored d d b q never before p w m (sym (same _) ∙ h)

  loosen :
      (p : Promotion) (w : World)
      → IsPromoting d b q never before p w
      → IsPromoting d b q taken before p w
  loosen p w m = record {
    snapshot = m.snapshot;
    tagged = m.tagged;
    canonical = m.canonical;
    backup = m.backup;
    held = record {
      others = λ n c b' l. m.held.others n c b' refl;
      free = m.held.free;
      preserved = m.held.preserved;
      still_free = m.held.still_free;
      untouched = m.held.untouched;
      absent = m.held.absent;
    };
  }

  -- The archive of the update is in place.
  installed-IsPromoting :
      (p : Promotion) (w : World)
      → is_update_qualifier q ≡ true
      → IsPromoting d b q never before p w
      → (p.had_artifact ≡ false → before.archive p.canonical_artifact ≡ none)
      → (rename_file d (qualified_filename q b.id) p.canonical_artifact w).1 ≡ true
      → IsPromoting d b q taken before
          (record p { installed_artifact = true })
          (rename_file d (qualified_filename q b.id) p.canonical_artifact w).0
  installed-IsPromoting p w valid m gone h =
      let now = rename_file-archive d (qualified_filename q b.id) p.canonical_artifact w h in
      let apart : text_eq p.canonical_artifact p.backup_artifact ≡ false =
        rw m.canonical (rw m.backup (canonical-backup q b.id)) in
      let apart' : text_eq (qualified_filename q b.id) p.backup_artifact ≡ false =
        rw m.backup (staged-backup q b.id valid) in
      let at_backup = now p.backup_artifact in
      record {
        snapshot = m.snapshot;
        tagged = rename_file-image d _ p.canonical_artifact w ∙ m.tagged;
        canonical = m.canonical;
        backup = m.backup;
        held = record {
          others = λ n c b' l. now n ∙ ground (arith, c, l, m.held.others n c b' refl);
          free = m.held.free;
          preserved = λ g. at_backup ∙ ground (arith, apart, apart', m.held.preserved g);
          still_free = λ g. at_backup ∙ ground (arith, apart, apart', m.held.still_free g);
          untouched = λ g i. absurd (ground (arith, i));
          absent = λ g i. gone g;
        };
      }

  install-Outcome :
      (p : Promotion) (w : World)
      → is_update_qualifier q ≡ true
      → IsPromoting d b q never before p w
      → (p.had_artifact ≡ false → before.archive p.canonical_artifact ≡ none)
      → Outcome (install d b q p w)
  install-Outcome p w valid m gone =
      either_way Outcome (not b.has_artifacts) _ _
        (λ a.
          attempt_way Outcome (rename_file d (qualified_filename q b.id) p.canonical_artifact w)
            (abandon d p not_installed) (λ v. (v, ok (record p { installed_artifact = true })))
            (λ h.
              abandon-Outcome p not_installed _ (λ x. refl)
                (subst (IsPromoting d b q never before p) (sym (rename_file-failed d _ _ w h)) m))
            (installed-IsPromoting p w valid m gone))
        (λ a. loosen p w m)

  -- The current archive is preserved.
  preserved-IsPromoting :
      (p : Promotion) (w : World)
      → IsPromoting d b q never before p w
      → p.had_artifact ≡ false
      → p.installed_artifact ≡ false
      → (rename_file d p.canonical_artifact p.backup_artifact w).1 ≡ true
      → IsPromoting d b q never before
          (record p { had_artifact = true })
          (rename_file d p.canonical_artifact p.backup_artifact w).0
  preserved-IsPromoting p w m had inst h =
      let now = rename_file-archive d p.canonical_artifact p.backup_artifact w h in
      record {
        snapshot = m.snapshot;
        tagged = rename_file-image d p.canonical_artifact p.backup_artifact w ∙ m.tagged;
        canonical = m.canonical;
        backup = m.backup;
        held = record {
          others = λ n c b' l. now n ∙ ground (arith, c, b', m.held.others n c b' l);
          free = m.held.free;
          preserved = λ g.
              now p.backup_artifact
              ∙ ground (arith, text_eq_refl p.backup_artifact, m.held.untouched had inst);
          still_free = λ g. absurd (ground (arith, g));
          untouched = λ g i. absurd (ground (arith, g));
          absent = λ g i. absurd (ground (arith, g));
        };
      }

  promote_artifacts-Outcome :
      (p : Promotion) (w : World)
      → is_update_qualifier q ≡ true
      → IsPromoting d b q never before p w
      → p.had_artifact ≡ false
      → p.installed_artifact ≡ false
      → Outcome (promote_artifacts d b q p w)
  promote_artifacts-Outcome p w valid m had inst =
      either_way Outcome (d.stat p.canonical_artifact) _ _
        (λ s.
          option_way Outcome (w.archive p.canonical_artifact) _ _
            (λ e. install-Outcome p w valid m (λ g. sym (m.held.untouched had inst) ∙ e))
            (λ x e.
              attempt_way Outcome (rename_file d p.canonical_artifact p.backup_artifact w)
                (abandon d p not_preserved) (install d b q (record p { had_artifact = true }))
                (λ h.
                  abandon-Outcome p not_preserved _ (λ y. refl)
                    (subst (IsPromoting d b q never before p) (sym (rename_file-failed d _ _ w h))
                      m))
                (λ h.
                  install-Outcome (record p { had_artifact = true }) _ valid
                    (preserved-IsPromoting p w m had inst h) (λ g. absurd (ground (arith, g))))))
        (λ s. abandon-Outcome p no_stat w (λ x. refl) m)

  promote_images-Outcome :
      (images : List (Text × Option Text))
      → is_update_qualifier q ≡ true
      → before.archive (backup_filename q b.id) ≡ none
      → snapshot_images d b b.hosts before ≡ some images
      → Outcome (promote_images d b q images before)
  promote_images-Outcome images valid free s =
      let w = (tag_images d b q b.hosts before).0 in
      let same = tag_images-archive d b q b.hosts before in
      let m : IsPromoting d b q never before (prepared b q images) w = record {
        snapshot = s;
        tagged = refl;
        canonical = refl;
        backup = refl;
        held = record {
          others = λ n c b' l. ap (λ f. f n) same;
          free = free;
          preserved = λ g. absurd (ground (arith, g));
          still_free = λ g. ap (λ f. f (backup_filename q b.id)) same ∙ free;
          untouched = λ g i. ap (λ f. f (artifacts_filename b.id)) same;
          absent = λ g i. absurd (ground (arith, i));
        };
      } in
      attempt_way Outcome (tag_images d b q b.hosts before)
        (abandon d (prepared b q images) not_tagged) (promote_artifacts d b q (prepared b q images))
        (λ h. abandon-Outcome (prepared b q images) not_tagged w (λ x. refl) m)
        (λ h. promote_artifacts-Outcome (prepared b q images) w valid m refl refl)

  pub promote_staged_build-Outcome :
      is_update_qualifier q ≡ true
      → before.archive (backup_filename q b.id) ≡ none
      → Outcome (promote_staged_build d b q before)
  unfolding promote_staged_build
  promote_staged_build-Outcome valid free =
      option_way Outcome (snapshot_images d b b.hosts before) _ _
        (λ e h. record { images = λ n. refl; archives = λ n l. refl })
        (λ images s. promote_images-Outcome images valid free s)

-- A promotion under the qualifier of an update that fails, and that reports no error of its
-- rollback, leaves every image name and every archive as it was, where no archive stands yet at the
-- name of the backup.
pub promote_staged_build-IsRestored :
    (d : Faults) (b : Candidate) (q : Text) (before : World) {after : World} {e : PromotionError}
    → is_update_qualifier q ≡ true
    → before.archive (backup_filename q b.id) ≡ none
    → promote_staged_build d b q before ≡ (after, err e)
    → rolled_back e ≡ true
    → IsRestored never before after
promote_staged_build-IsRestored d b q before valid free h =
    subst (Outcome d b q before) h (promote_staged_build-Outcome d b q before valid free)

-- A rollback that reports no error of a completed promotion under the qualifier of an update
-- restores every image name and every archive but the staged one, where no archive stood at the
-- name of the backup.
pub rollback_staged_build-promote_staged_build :
    (d d' : Faults) (b : Candidate) (q : Text) (before : World) {promoted : World} {p : Promotion}
    → is_update_qualifier q ≡ true
    → before.archive (backup_filename q b.id) ≡ none
    → promote_staged_build d b q before ≡ (promoted, ok p)
    → (rollback_staged_build d' p promoted).1 ≡ true
    → IsRestored (taken d b q before) before (rollback_staged_build d' p promoted).0
rollback_staged_build-promote_staged_build d d' b q before {promoted} {p} valid free h =
    rollback-IsRestored d d' b q (taken d b q before) before p promoted
      (subst (Outcome d b q before) h (promote_staged_build-Outcome d b q before valid free))
