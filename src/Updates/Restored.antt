-- ===== src/Updates/Restored.antt =====
-- A rebuild of the builds of a challenge is all or nothing.
use cmgr.Common.{
  not, some, List, [], ◌∷◌, ◌++◌, ◌≡◌, refl, ◌∙◌, arith, inl, inr, subst, Result-cases, Text, ℤ,
  Result, ok, err, either_way, option_way,
}
use cmgr.Changes.{Challenge}
use cmgr.Staging.{qualifier_prefix}
use cmgr.Updates.{
  Operations, StagedBuildUpdate, UpdateError, failed_with, not_cut_over, not_finalized,
  no_instances, rollback_build_update, cut_over, record_build, stage_update, update_build,
  rollback_updates, update_builds,
}
use cmgr.Updates.Undo.{
  AreHarmless, harmless-append, Same, UndoLaws, IsUndone, rollback_build_update-Same,
}

module _ {S Build Promotion Cutover F R M : Type 0} (o : Operations S Build Promotion Cutover)
    (files : S → F) (rows : S → R) (machine : S → M) (laws : UndoLaws o files rows machine) where
  open o use {
    lookup_build, reset_flag, execute, discard, promote, finalize, prepare, instances,
    random_identifier,
  }
  open laws use {
    execute_same, discard_same, promote_rows, promote_machine, promote_failed, promote_undo,
    finalize_files, finalize_machine, finalize_undo, prepare_files, prepare_rows, prepare_failed,
    prepare_undo,
  }

  abbrev Restores : S → S → Type 0
  Restores s t = Same o files rows machine s t

  abbrev HasUndo : StagedBuildUpdate Build Promotion Cutover → S → S → Type 0
  HasUndo u before now = IsUndone o files rows machine u before now

  -- An update that fails leaves the state from which it started, or says what is left to be undone; one
  -- that succeeds can be undone.
  abbrev Ends :
      S → S × Result (List UpdateError) (StagedBuildUpdate Build Promotion Cutover) → Type 0
  Ends before (t, err es) = AreHarmless es → Restores t before
  Ends before (t, ok u) = HasUndo u before t

  rollback-Ends :
      (md : Challenge) (u : StagedBuildUpdate Build Promotion Cutover) (e : UpdateError)
      (before now t : S)
      → HasUndo u before now
      → (AreHarmless (e ∷ (rollback_build_update o md u t).1) → Restores t now)
      → Ends before (failed_with o e (rollback_build_update o md u t))
  rollback-Ends md u e before now t i same h =
      rollback_build_update-Same o files rows machine laws md u before now t i (same h)
        (harmless-append (e ∷ []) (rollback_build_update o md u t).1 h).1

  cut_over-Ends :
      (md : Challenge) (u : StagedBuildUpdate Build Promotion Cutover) (is : List ℤ) (before s : S)
      → HasUndo u before s
      → Ends before (cut_over o md u is s)
  unfolding cut_over
  cut_over-Ends md u [] before s i = i
  cut_over-Ends md u (n ∷ is) before s i =
      let r = prepare md u.candidate n s in
      elim (Result-cases (r.1)) [
        | inl (c, e) ↦
            let now : HasUndo (record u { cutovers = c ∷ u.cutovers }) before (r.0) = record {
              of_files = λ t same. i.of_files t (same ∙ prepare_files md u.candidate n s);
              of_rows = λ t same. i.of_rows t (same ∙ prepare_rows md u.candidate n s);
              of_machine = (machine s, i.of_machine, λ t. prepare_undo md u.candidate n s c t e);
            } in
            rw (e, cut_over)
              (cut_over-Ends md (record u { cutovers = c ∷ u.cutovers }) is before _ now)
        | inr (recovered, e) ↦
            rw (e, cut_over)
              (rollback-Ends md u (not_cut_over recovered) before s (r.0) i (λ h. (
                prepare_files md u.candidate n s,
                prepare_rows md u.candidate n s,
                prepare_failed md u.candidate n s (ground (arith, e, h)),
              )))
      ]

  record_build-Ends :
      (md : Challenge) (u : StagedBuildUpdate Build Promotion Cutover) (before s : S)
      → HasUndo u before (finalize u.candidate s).0
      → Ends before (record_build o md u s)
  unfolding record_build
  record_build-Ends md u before s i =
      let t = (finalize u.candidate s).0 in
      either_way (Ends before) (not (finalize u.candidate s).1) _ _
        (λ a.
          option_way (Ends before) (instances u.candidate t) _ _
            (λ b. rollback-Ends md u no_instances before t t i (λ h. (refl, refl, refl)))
            (λ is b. cut_over-Ends md u is before t i))
        (λ a. rollback-Ends md u not_finalized before t t i (λ h. (refl, refl, refl)))

  stage_update-Ends :
      (md : Challenge) (n : ℤ) (b : Build) (r : Text) (s : S)
      → lookup_build n s ≡ some b
      → random_identifier s ≡ some r
      → Ends s (stage_update o md b (qualifier_prefix ++ r) s)
  unfolding stage_update
  stage_update-Ends md n b r s l identified =
      let q = qualifier_prefix ++ r in
      let e = execute md (reset_flag b) q s in
      let p = promote (e.1) q (e.0) in
      let (ef, er, em) = execute_same md (reset_flag b) q s in
      either_way (Ends s) (not e.2) _ _
        (λ a. elim (Result-cases (p.1)) [
          | inr (recovered, c) ↦
              let (df, dr, dm) = discard_same md (e.1) q (p.0) in
              rw (c, stage_update)
                (λ h. (
                  df ∙ promote_failed md n b r s l identified (ground (arith, c, h)) ∙ ef,
                  dr ∙ promote_rows (e.1) q (e.0) ∙ er,
                  dm ∙ promote_machine (e.1) q (e.0) ∙ em,
                ))
          | inl (promotion, c) ↦
              rw (c, stage_update)
                (record_build-Ends md _ s (p.0) (record {
                  of_files = λ t same done.
                      promote_undo md n b r s promotion t l identified c
                        (same ∙ finalize_files (e.1) (p.0)) done
                      ∙ ef;
                  of_rows = λ t same.
                      finalize_undo n b md q s (p.0) t l (promote_rows (e.1) q (e.0) ∙ er) same;
                  of_machine = finalize_machine (e.1) (p.0) ∙ promote_machine (e.1) q (e.0) ∙ em;
                }))
        ])
        (λ a h. let (df, dr, dm) = discard_same md (e.1) q (e.0) in (df ∙ ef, dr ∙ er, dm ∙ em))

  update_build-Ends : (md : Challenge) (n : ℤ) (s : S) → Ends s (update_build o md n s)
  unfolding update_build
  update_build-Ends md n s =
      option_way (Ends s) (lookup_build n s) _ _ (λ a h. (refl, refl, refl))
        (λ b a.
          option_way (Ends s) (random_identifier s) _ _ (λ c h. (refl, refl, refl))
            (λ r c. stage_update-Ends md n b r s a c))

  -- From one state to another by updates that can be undone, the last one first.
  abbrev HaveUndo : List (StagedBuildUpdate Build Promotion Cutover) → S → S → Type 0
  HaveUndo [] before now = Restores now before
  HaveUndo (u ∷ us) before now = (between : S) × HaveUndo us before between × HasUndo u between now

  rollback_updates-Same :
      (md : Challenge) (us : List (StagedBuildUpdate Build Promotion Cutover)) (before now t : S)
      → HaveUndo us before now
      → Restores t now
      → AreHarmless (rollback_updates o md us t).1
      → Restores (rollback_updates o md us t).0 before
  unfolding rollback_updates
  rollback_updates-Same md [] before now t (nf, nr, nm) (sf, sr, sm) h = (sf ∙ nf, sr ∙ nr, sm ∙ nm)
  rollback_updates-Same md (u ∷ us) before now t (between, more, i) same h =
      let r = rollback_build_update o md u t in
      let (h1, h2) = harmless-append (r.1) (rollback_updates o md us (r.0)).1 h in
      rollback_updates-Same md us before between (r.0) more
        (rollback_build_update-Same o files rows machine laws md u between now t i same h1) h2

  abbrev AllEnd :
      S → S × Result (List UpdateError) (List (StagedBuildUpdate Build Promotion Cutover)) → Type 0
  AllEnd before (t, err es) = AreHarmless es → Restores t before
  AllEnd before (t, ok us) = HaveUndo us before t

  update_builds-AllEnd :
      (md : Challenge) (us : List (StagedBuildUpdate Build Promotion Cutover)) (ids : List ℤ)
      (before s : S)
      → HaveUndo us before s
      → AllEnd before (update_builds o md us ids s)
  unfolding update_builds
  update_builds-AllEnd md us [] before s i = i
  update_builds-AllEnd md us (n ∷ ids) before s i =
      let r = update_build o md n s in
      elim (Result-cases (r.1)) [
        | inl (u, e) ↦
            rw (e, update_builds)
              (update_builds-AllEnd md (u ∷ us) ids before (r.0)
                (s, i, subst (λ x. Ends s (r.0, x)) e (update_build-Ends md n s)))
        | inr (es, e) ↦
            let undone : AreHarmless es → Restores (r.0) s =
              subst (λ x. Ends s (r.0, x)) e (update_build-Ends md n s) in
            rw (e, update_builds)
              (λ h.
                let (h1, h2) = harmless-append es (rollback_updates o md us (r.0)).1 h in
                rollback_updates-Same md us before s (r.0) i (undone h1) h2)
      ]

  -- A rebuild of the builds of a challenge that fails and reports nothing left over has undone
  -- every change to image names and archives, to the rows of the builds, and to the containers and
  -- rows of the instances. The condition on the calls that the rebuild makes is UndoLaws: each
  -- changes only the parts that it is for, and its undoing, or its own recovery, restores what it
  -- changed.
  pub update_builds-Same :
      (md : Challenge) (ids : List ℤ) (s t : S) {es : List UpdateError}
      → update_builds o md [] ids s ≡ (t, err es)
      → AreHarmless es
      → Same o files rows machine t s
  update_builds-Same md ids s t e h =
      subst (AllEnd s) e (update_builds-AllEnd md [] ids s s (refl, refl, refl)) h
