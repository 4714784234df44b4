-- ===== src/Promotion/Rollback.antt =====
-- A rollback after a promotion, or after a part of one, restores the images and the archives.
use cmgr.Common.{
  ◌≡◌, refl, sym, ap, subst, ◌∙◌, inl, inr, Bool, true, false, some, arith, Text, text_eq,
  Bool-cases, Option-cases,
}
use cmgr.Promotion.{
  World, Faults, Candidate, Promotion, artifacts_filename, backup_filename, rename_file,
  restore_images, uninstall, put_back, rollback_staged_build, snapshot_images, tag_images,
}
use cmgr.Promotion.Names.{canonical-backup}
use cmgr.Promotion.Images.{restore_images-archive, restore-tag_images}
use cmgr.Promotion.Archives.{IsHeld, put_back-uninstall}

-- Every image name stands for what it did, and every file but those of loose names is as it was.
pub record IsRestored (loose : Text → Bool) (before after : World) : Type 0 where
  pub images : (n : Text) → after.image n ≡ before.image n
  pub archives : (n : Text) → loose n ≡ false → after.archive n ≡ before.archive n

abbrev pub never : Text → Bool
never n = false

pub uninstall-image : (d : Faults) (p : Promotion) (w : World) → (uninstall d p w).0.image ≡ w.image
uninstall-image d p w = elim (Bool-cases p.installed_artifact) [
  | inr i ↦ rw i refl
  | inl i ↦ elim (Bool-cases (d.unlink p.canonical_artifact)) [
    | inl f ↦ rw i (rw f refl)
    | inr f ↦ rw i (rw f refl)
  ]
]

pub rename_file-image :
    (d : Faults) (from to : Text) (w : World) → (rename_file d from to w).0.image ≡ w.image
rename_file-image d from to w = elim (Option-cases (w.archive from)) [
  | inl e ↦ rw (e, rename_file) refl
  | inr (x, e) ↦ elim (Bool-cases (d.rename from to)) [
    | inl f ↦ rw (e, rename_file) (rw f refl)
    | inr f ↦ rw (e, rename_file) (rw f refl)
  ]
]

pub rename_file-failed :
    (d : Faults) (from to : Text) (w : World)
    → (rename_file d from to w).1 ≡ false
    → (rename_file d from to w).0 ≡ w
rename_file-failed d from to w h = elim (Option-cases (w.archive from)) [
  | inl e ↦ rw (e, rename_file) refl
  | inr (x, e) ↦ elim (Bool-cases (d.rename from to)) [
    | inl f ↦ rw (e, rename_file) (rw f refl)
    | inr f ↦ absurd (ground (arith, h, e, f))
  ]
]

pub put_back-image : (d : Faults) (p : Promotion) (w : World) → (put_back d p w).0.image ≡ w.image
put_back-image d p w = elim (Bool-cases p.had_artifact) [
  | inr i ↦ rw i refl
  | inl i ↦ rw (i, put_back) (rename_file-image d p.backup_artifact p.canonical_artifact w)
]

-- What holds between the steps of a promotion.
pub record IsPromoting (d : Faults) (b : Candidate) (q : Text) (loose : Text → Bool)
    (before : World) (p : Promotion) (w : World) : Type 0 where
  pub snapshot : snapshot_images d b b.hosts before ≡ some p.canonical_images
  pub tagged : w.image ≡ (tag_images d b q b.hosts before).0.image
  pub canonical : p.canonical_artifact ≡ artifacts_filename b.id
  pub backup : p.backup_artifact ≡ backup_filename q b.id
  pub held : IsHeld p loose before.archive w.archive

pub rollback-IsRestored :
    (d d' : Faults) (b : Candidate) (q : Text) (loose : Text → Bool) (before : World)
    (p : Promotion) (w : World)
    → IsPromoting d b q loose before p w
    → (rollback_staged_build d' p w).1 ≡ true
    → IsRestored loose before (rollback_staged_build d' p w).0
unfolding rollback_staged_build
rollback-IsRestored d d' b q loose before p w m h =
    let w1 = (restore_images d' p.canonical_images w).0 in
    let same : w1.archive ≡ w.archive = restore_images-archive d' p.canonical_images w in
    let apart : text_eq p.canonical_artifact p.backup_artifact ≡ false =
      rw m.canonical (rw m.backup (canonical-backup q b.id)) in
    record {
      images = λ n.
          ap (λ f. f n) (put_back-image d' p (uninstall d' p w1).0 ∙ uninstall-image d' p w1)
          ∙ restore-tag_images d d' b q b.hosts before w m.snapshot m.tagged (ground (arith, h)) n;
      archives =
          put_back-uninstall d' p loose before.archive w1
            (subst (IsHeld p loose before.archive) (sym same) m.held) apart (ground (arith, h))
            (ground (arith, h));
    }
