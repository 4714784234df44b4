-- ===== src/Promotion/Visible.antt =====
-- What the rest of the program sees of a promotion: the images and the archives of builds, and the backups.
-- The names of staged images and archives are not seen.
use cmgr.Common.{
  ◌≡◌, refl, sym, ap, subst, ◌∙◌, arith, Bool, true, false, Option, none, some, List, [], ◌∷◌,
  Bool-cases, inl, inr, Option-cases, Text, ℤ, ok, err,
}
use cmgr.Staging.{is_update_qualifier, build_image_name}
use cmgr.Promotion.{
  World, Faults, Candidate, Promotion, PromotionError, artifacts_filename, backup_filename,
  rollback_staged_build, promote_staged_build, restore_images, uninstall, put_back,
}
use cmgr.Promotion.Names.{staged-any_backup, staged-any_canonical}
use cmgr.Promotion.Images.{restore_images-archive}
use cmgr.Promotion.Rollback.{IsRestored, never, uninstall-image, put_back-image}
use cmgr.Promotion.Outcome.{
  taken, Outcome, promote_staged_build-Outcome, rolled_back, promote_staged_build-IsRestored,
  rollback_staged_build-promote_staged_build,
}

pub record Visible : Type 0 where
  pub build_image : Text → ℤ → Text → Option Text
  pub build_archive : ℤ → Option Text
  pub backup : Text → ℤ → Option Text

abbrev pub visible : World → Visible
visible w = record {
  build_image = λ challenge id host. w.image (build_image_name challenge id host []);
  build_archive = λ id. w.archive (artifacts_filename id);
  backup = λ q id. w.archive (backup_filename q id);
}

restore_images-image :
    (d : Faults) (es : List (Text × Option Text)) (v w : World) (n : Text)
    → v.image n ≡ w.image n
    → (restore_images d es v).0.image n ≡ (restore_images d es w).0.image n
unfolding restore_images
restore_images-image d [] v w n h = h
restore_images-image d ((k, none) ∷ es) v w n h = elim (Bool-cases (d.remove k)) [
  | inl f ↦ rw f (restore_images-image d es v w n h)
  | inr f ↦ rw f (restore_images-image d es _ _ n (ground (arith, h)))
]
restore_images-image d ((k, some id) ∷ es) v w n h = elim (Bool-cases (d.tag id k)) [
  | inl f ↦ rw f (restore_images-image d es v w n h)
  | inr f ↦ rw f (restore_images-image d es _ _ n (ground (arith, h)))
]

restore_images-done :
    (d : Faults) (es : List (Text × Option Text)) (v w : World)
    → (restore_images d es v).1 ≡ (restore_images d es w).1
unfolding restore_images
restore_images-done d [] v w = refl
restore_images-done d ((k, none) ∷ es) v w = elim (Bool-cases (d.remove k)) [
  | inl f ↦ rw f refl
  | inr f ↦ rw f (restore_images-done d es _ _)
]
restore_images-done d ((k, some id) ∷ es) v w = elim (Bool-cases (d.tag id k)) [
  | inl f ↦ rw f refl
  | inr f ↦ rw f (restore_images-done d es _ _)
]

uninstall-archive :
    (d : Faults) (p : Promotion) (v w : World) (n : Text)
    → v.archive n ≡ w.archive n
    → (uninstall d p v).0.archive n ≡ (uninstall d p w).0.archive n
uninstall-archive d p v w n h = ground (arith, h)

uninstall-done :
    (d : Faults) (p : Promotion) (v w : World) → (uninstall d p v).1 ≡ (uninstall d p w).1
uninstall-done d p v w = ground arith

put_back-archive :
    (d : Faults) (p : Promotion) (v w : World) (n : Text)
    → v.archive p.backup_artifact ≡ w.archive p.backup_artifact
    → v.archive n ≡ w.archive n
    → ((put_back d p v).0.archive n ≡ (put_back d p w).0.archive n)
      × ((put_back d p v).1 ≡ (put_back d p w).1)
put_back-archive d p v w n b h = elim (Option-cases (w.archive p.backup_artifact)) [
  | inl e ↦ ground (arith, b, h, e)
  | inr (x, e) ↦ ground (arith, b, h, e)
]

rollback-image :
    (d : Faults) (p : Promotion) (w : World) (n : Text)
    → (rollback_staged_build d p w).0.image n ≡ (restore_images d p.canonical_images w).0.image n
unfolding rollback_staged_build
rollback-image d p w n =
    let w1 = (restore_images d p.canonical_images w).0 in
    ap (λ f. f n) (put_back-image d p (uninstall d p w1).0 ∙ uninstall-image d p w1)

-- A rollback reads the backup and changes each name by itself.
rollback-archive :
    (d : Faults) (p : Promotion) (v w : World) (n : Text)
    → v.archive p.backup_artifact ≡ w.archive p.backup_artifact
    → v.archive n ≡ w.archive n
    → ((rollback_staged_build d p v).0.archive n ≡ (rollback_staged_build d p w).0.archive n)
      × ((rollback_staged_build d p v).1 ≡ (rollback_staged_build d p w).1)
unfolding rollback_staged_build
rollback-archive d p v w n b h =
    let v1 = (restore_images d p.canonical_images v).0 in
    let w1 = (restore_images d p.canonical_images w).0 in
    let same : (m : Text) → v.archive m ≡ w.archive m → v1.archive m ≡ w1.archive m = λ m e.
      ap (λ f. f m) (restore_images-archive d p.canonical_images v)
      ∙ e
      ∙ sym (ap (λ f. f m) (restore_images-archive d p.canonical_images w)) in
    let (archives, done) =
      put_back-archive d p (uninstall d p v1).0 (uninstall d p w1).0 n
        (uninstall-archive d p v1 w1 p.backup_artifact (same p.backup_artifact b))
        (uninstall-archive d p v1 w1 n (same n h)) in
    (
      archives,
      rw (done, uninstall-done d p v1 w1, restore_images-done d p.canonical_images v w) refl,
    )

restored-visible :
    (loose : Text → Bool) {before after : World}
    → IsRestored loose before after
    → ((id : ℤ) → loose (artifacts_filename id) ≡ false)
    → ((q : Text) (id : ℤ) → loose (backup_filename q id) ≡ false)
    → visible after ≡ visible before
restored-visible loose r canonical backups = λ i. record {
  build_image = λ challenge id host. r.images (build_image_name challenge id host []) i;
  build_archive = λ id. r.archives (artifacts_filename id) (canonical id) i;
  backup = λ q id. r.archives (backup_filename q id) (backups q id) i;
}

visible-rollback :
    (d : Faults) (p : Promotion) (b : Candidate) (q : Text) (v w : World)
    → p.backup_artifact ≡ backup_filename q b.id
    → visible v ≡ visible w
    → ((rollback_staged_build d p v).1 ≡ (rollback_staged_build d p w).1)
      × (visible (rollback_staged_build d p v).0 ≡ visible (rollback_staged_build d p w).0)
visible-rollback d p b q v w named same =
    let held : v.archive p.backup_artifact ≡ w.archive p.backup_artifact =
      rw named (ap (λ x. x.backup q b.id) same) in
    let images : (n : Text)
        → v.image n ≡ w.image n
        → (rollback_staged_build d p v).0.image n ≡ (rollback_staged_build d p w).0.image n =
      λ n e.
        rollback-image d p v n
        ∙ restore_images-image d p.canonical_images v w n e
        ∙ sym (rollback-image d p w n) in
    let archives : (n : Text)
        → v.archive n ≡ w.archive n
        → (rollback_staged_build d p v).0.archive n ≡ (rollback_staged_build d p w).0.archive n =
      λ n e. (rollback-archive d p v w n held e).0 in
    (
      (rollback-archive d p v w p.backup_artifact held held).1,
      λ i. record {
        build_image = λ challenge id host.
            images (build_image_name challenge id host [])
              (ap (λ x. x.build_image challenge id host) same) i;
        build_archive =
            λ id. archives (artifacts_filename id) (ap (λ x. x.build_archive id) same) i;
        backup = λ r id. archives (backup_filename r id) (ap (λ x. x.backup r id) same) i;
      },
    )

module _ (d : Faults) (b : Candidate) (q : Text) (before : World) {after : World}
    (valid : is_update_qualifier q ≡ true)
    (free : before.archive (backup_filename q b.id) ≡ none) where
  -- A promotion that fails and is rolled back is not seen.
  pub visible-promote_staged_build :
      {e : PromotionError}
      → promote_staged_build d b q before ≡ (after, err e)
      → rolled_back e ≡ true
      → visible after ≡ visible before
  visible-promote_staged_build h done =
      restored-visible never (promote_staged_build-IsRestored d b q before valid free h done)
        (λ id. refl) (λ r id. refl)

  -- Nor is a promotion that is rolled back later, where nothing that is seen has changed since.
  pub visible-rollback_staged_build :
      (d' : Faults) {p : Promotion} (t : World)
      → promote_staged_build d b q before ≡ (after, ok p)
      → visible t ≡ visible after
      → (rollback_staged_build d' p t).1 ≡ true
      → visible (rollback_staged_build d' p t).0 ≡ visible before
  visible-rollback_staged_build d' {p} t h same done =
      let m =
        subst (Outcome d b q before) h (promote_staged_build-Outcome d b q before valid free) in
      let (flags, seen) = visible-rollback d' p b q t after m.backup same in
      seen
      ∙ restored-visible (taken d b q before)
          (rollback_staged_build-promote_staged_build d d' b q before valid free h
            (sym flags ∙ done))
          (λ id. staged-any_canonical q b.id id) (λ r id. staged-any_backup q r b.id id valid)
