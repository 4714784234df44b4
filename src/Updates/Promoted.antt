-- ===== src/Updates/Promoted.antt =====
-- The promotions of cmgr/docker.go as the calls of an update: what UndoLaws asks of promotions and of their
-- rollbacks, for the image names and archives that are seen.
use cmgr.Common.{
  ◌≡◌, sym, ap, ◌∙◌, Bool, true, some, none, ◌++◌, Text, ℤ, Result, ok, err, arith, Result-cases,
  inl, inr,
}
use cmgr.Changes.{Challenge}
use cmgr.Staging.{qualifier_prefix, is_update_qualifier}
use cmgr.Promotion.{
  World, Faults, Candidate, Promotion, PromotionError, backup_filename, promote_staged_build,
  rollback_staged_build,
}
use cmgr.Promotion.Outcome.{rolled_back}
use cmgr.Promotion.Visible.{
  Visible, visible, visible-promote_staged_build, visible-rollback_staged_build,
}
use cmgr.Updates.{Operations}

-- The update asks of an error only whether the promotion was rolled back.
abbrev pub to_recovered : Result PromotionError Promotion → Result Bool Promotion
to_recovered (ok p) = ok p
to_recovered (err e) = err (rolled_back e)

abbrev pub answer : World × Result PromotionError Promotion → World × Result Bool Promotion
answer (w, r) = (w, to_recovered r)

module _ {S Build Cutover : Type 0} (o : Operations S Build Promotion Cutover) (world : S → World)
    (candidate : Build → Candidate) where
  open o use {lookup_build, reset_flag, execute, promote, rollback_staged, random_identifier}

  -- The calls run promotions. An identifier is random: no backup has its name.
  pub record HasPromotions : Type 0 where
    pub faults : S → Faults
    pub promoted :
        (b : Build) (q : Text) (s : S)
        → (world (promote b q s).0, (promote b q s).1)
          ≡ answer (promote_staged_build (faults s) (candidate b) q (world s))
    pub undone :
        (p : Promotion) (s : S)
        → (world (rollback_staged p s).0, (rollback_staged p s).1)
          ≡ rollback_staged_build (faults s) p (world s)
    pub fresh :
        (md : Challenge) (n : ℤ) (b : Build) (r : Text) (s : S)
        → lookup_build n s ≡ some b
        → random_identifier s ≡ some r
        → let e = execute md (reset_flag b) (qualifier_prefix ++ r) s in
          (is_update_qualifier (qualifier_prefix ++ r) ≡ true)
          × ((world (e.0)).archive (backup_filename (qualifier_prefix ++ r) (candidate (e.1)).id)
              ≡ none)

  abbrev pub seen : S → Visible
  seen s = visible (world s)

  module _ (has : HasPromotions) (md : Challenge) (n : ℤ) (b : Build) (r : Text) (s : S)
      (found : lookup_build n s ≡ some b) (identified : random_identifier s ≡ some r) where
    abbrev q : Text
    q = qualifier_prefix ++ r

    abbrev executed : S × Build × Bool
    executed = execute md (reset_flag b) q s

    abbrev outcome : World × Result PromotionError Promotion
    outcome =
        promote_staged_build (has.faults (executed.0)) (candidate (executed.1)) q
          (world (executed.0))

    abbrev promotion_answer :
        (world (promote (executed.1) q (executed.0)).0, (promote (executed.1) q (executed.0)).1)
        ≡ answer outcome
    promotion_answer = has.promoted (executed.1) q (executed.0)

    pub promote_failed-seen :
        (promote (executed.1) q (executed.0)).1 ≡ err true
        → seen (promote (executed.1) q (executed.0)).0 ≡ seen (executed.0)
    promote_failed-seen h =
        let (valid, free) = has.fresh md n b r s found identified in
        let said : to_recovered (outcome.1) ≡ err true = sym (ap (λ x. x.1) promotion_answer) ∙ h in
        ap (λ x. visible (x.0)) promotion_answer ∙ (elim (Result-cases (outcome.1)) [
          | inl (p, e) ↦ absurd (ground (arith, said, e))
          | inr (x, e) ↦
              visible-promote_staged_build (has.faults (executed.0)) (candidate (executed.1)) q
                (world (executed.0)) valid free (ap (λ y. (outcome.0, y)) e)
                (ground (arith, said, e))
        ])

    pub promote_undone-seen :
        (p : Promotion) (t : S)
        → (promote (executed.1) q (executed.0)).1 ≡ ok p
        → seen t ≡ seen (promote (executed.1) q (executed.0)).0
        → (rollback_staged p t).1 ≡ true
        → seen (rollback_staged p t).0 ≡ seen (executed.0)
    promote_undone-seen p t h same done =
        let (valid, free) = has.fresh md n b r s found identified in
        let said : to_recovered (outcome.1) ≡ ok p = sym (ap (λ x. x.1) promotion_answer) ∙ h in
        ap (λ x. visible (x.0)) (has.undone p t) ∙ (elim (Result-cases (outcome.1)) [
          | inr (x, e) ↦ absurd (ground (arith, said, e))
          | inl (p', e) ↦
              visible-rollback_staged_build (has.faults (executed.0)) (candidate (executed.1)) q
                (world (executed.0)) valid free (has.faults t) (world t)
                (ap (λ y. (outcome.0, y)) (ground (arith, said, e)))
                (same ∙ ap (λ x. visible (x.0)) promotion_answer)
                (sym (ap (λ x. x.1) (has.undone p t)) ∙ done)
        ])
