-- ===== src/Updates/Rows.antt =====
-- Neither the updates of builds nor their rollback write the row of a challenge.
use cmgr.Common.{
  not, ◌&&◌, some, List, [], ◌∷◌, ◌≡◌, refl, ◌∙◌, Bool-cases, Result-cases, inl, inr, if◌then◌else◌,
  Text, text_eq, ℤ, Result, either_way, option_way,
}
use cmgr.Changes.{Challenge}
use cmgr.Updates.{
  cutover_left, Operations, StagedBuildUpdate, UpdateError, note, also, restore_build,
  rollback_cutovers, rollback_build_update, finish_cutovers, remove_images, finish_build_update,
  cut_over, record_build, stage_update, update_build, rollback_updates, update_builds,
  finish_updates,
}

module _ {S Build Promotion Cutover : Type 0} (o : Operations S Build Promotion Cutover) where
  open o use {
    stored, replace, execute, discard, promote, finalize, set_last_solved, prepare,
    rollback_cutover, finish_cutover, rollback_staged, finish_staged, remove_image,
    clean_interrupted,
  }

  -- A replacement writes the row of one challenge or nothing; no other call writes the row of a
  -- challenge. A row is found under its own identifier.
  pub record RowLaws : Type 0 where
    pub own_id : (i : Text) (s : S) (c : Challenge) → stored i s ≡ some c → c.id ≡ i
    pub replace_row :
        (c : Challenge) (s : S) (i : Text)
        → stored i (replace c s).0
          ≡ (if (replace c s).1 && text_eq c.id i then some c else stored i s)
    pub execute_row :
        (md : Challenge) (b : Build) (q : Text) (s : S) (i : Text)
        → stored i (execute md b q s).0 ≡ stored i s
    pub discard_row :
        (md : Challenge) (b : Build) (q : Text) (s : S) (i : Text)
        → stored i (discard md b q s).0 ≡ stored i s
    pub promote_row :
        (b : Build) (q : Text) (s : S) (i : Text) → stored i (promote b q s).0 ≡ stored i s
    pub finalize_row : (b : Build) (s : S) (i : Text) → stored i (finalize b s).0 ≡ stored i s
    pub solved_row : (b : Build) (s : S) (i : Text) → stored i (set_last_solved b s).0 ≡ stored i s
    pub prepare_row :
        (md : Challenge) (b : Build) (n : ℤ) (s : S) (i : Text)
        → stored i (prepare md b n s).0 ≡ stored i s
    pub undo_cutover_row :
        (c : Cutover) (s : S) (i : Text) → stored i (rollback_cutover c s).0 ≡ stored i s
    pub finish_cutover_row :
        (c : Cutover) (s : S) (i : Text) → stored i (finish_cutover c s).0 ≡ stored i s
    pub undo_staged_row :
        (p : Promotion) (s : S) (i : Text) → stored i (rollback_staged p s).0 ≡ stored i s
    pub finish_staged_row :
        (p : Promotion) (s : S) (i : Text) → stored i (finish_staged p s).0 ≡ stored i s
    pub remove_image_row :
        (b : Build) (h : Text) (s : S) (i : Text) → stored i (remove_image b h s).0 ≡ stored i s
    pub clean_row :
        (n : Text) (ids : List ℤ) (s : S) (i : Text)
        → stored i (clean_interrupted n ids s).0 ≡ stored i s

  module _ (laws : RowLaws) (i : Text) where
    open laws use {
      own_id, replace_row, execute_row, discard_row, promote_row, finalize_row, solved_row,
      prepare_row, undo_cutover_row, finish_cutover_row, undo_staged_row, finish_staged_row,
      remove_image_row, clean_row,
    }

    -- What an update of a build, or of all builds, returns comes with the same row.
    abbrev Keeps :
        S → S × Result (List UpdateError) (StagedBuildUpdate Build Promotion Cutover) → Type 0
    Keeps s r = stored i (r.0) ≡ stored i s

    also-row :
        (r : S × List UpdateError) (next : S → S × List UpdateError) (s : S)
        → stored i (r.0) ≡ stored i s
        → ((t : S) → stored i (next t).0 ≡ stored i t)
        → stored i (also r next).0 ≡ stored i s
    also-row r next s h k = k (r.0) ∙ h

    rollback_cutovers-row :
        (cs : List Cutover) (s : S) → stored i (rollback_cutovers o cs s).0 ≡ stored i s
    unfolding rollback_cutovers
    rollback_cutovers-row [] s = refl
    rollback_cutovers-row (c ∷ cs) s =
        also-row (note cutover_left (rollback_cutover c s)) (rollback_cutovers o cs) s
          (undo_cutover_row c s i) (rollback_cutovers-row cs)

    restore_build-row : (b : Build) (s : S) → stored i (restore_build o b s).0 ≡ stored i s
    restore_build-row b s = elim (Bool-cases (finalize b s).1) [
      | inl done ↦ rw done (solved_row b (finalize b s).0 i ∙ finalize_row b s i)
      | inr failed ↦ rw failed (finalize_row b s i)
    ]

    rollback_build_update-row :
        (md : Challenge) (u : StagedBuildUpdate Build Promotion Cutover) (s : S)
        → stored i (rollback_build_update o md u s).0 ≡ stored i s
    unfolding rollback_build_update
    rollback_build_update-row md u s =
        discard_row md u.candidate u.qualifier _ i
        ∙ restore_build-row u.previous _
        ∙ undo_staged_row u.promotion _ i
        ∙ rollback_cutovers-row u.cutovers s

    finish_cutovers-row :
        (cs : List Cutover) (s : S) → stored i (finish_cutovers o cs s).0 ≡ stored i s
    unfolding finish_cutovers
    finish_cutovers-row [] s = refl
    finish_cutovers-row (c ∷ cs) s = finish_cutover_row c _ i ∙ finish_cutovers-row cs s

    remove_images-row :
        (b : Build) (hs : List Text) (s : S) → stored i (remove_images o b hs s).0 ≡ stored i s
    unfolding remove_images
    remove_images-row b [] s = refl
    remove_images-row b (h ∷ hs) s = remove_images-row b hs _ ∙ remove_image_row b h s i

    pub finish_updates-row :
        (us : List (StagedBuildUpdate Build Promotion Cutover)) (s : S)
        → stored i (finish_updates o us s).0 ≡ stored i s
    unfolding finish_updates finish_build_update
    finish_updates-row [] s = refl
    finish_updates-row (u ∷ us) s =
        remove_images-row u.previous _ _
        ∙ finish_staged_row u.promotion _ i
        ∙ finish_cutovers-row u.cutovers _
        ∙ finish_updates-row us s

    cut_over-row :
        (md : Challenge) (u : StagedBuildUpdate Build Promotion Cutover) (is : List ℤ) (s : S)
        → stored i (cut_over o md u is s).0 ≡ stored i s
    unfolding cut_over
    cut_over-row md u [] s = refl
    cut_over-row md u (n ∷ is) s = elim (Result-cases (prepare md u.candidate n s).1) [
      | inl (c, e) ↦
          rw (e, cut_over) (cut_over-row md (record u { cutovers = c ∷ u.cutovers }) is _)
          ∙ prepare_row md u.candidate n s i
      | inr (b, e) ↦
          rw (e, cut_over) (rollback_build_update-row md u _) ∙ prepare_row md u.candidate n s i
    ]

    record_build-row :
        (md : Challenge) (u : StagedBuildUpdate Build Promotion Cutover) (s : S)
        → stored i (record_build o md u s).0 ≡ stored i s
    unfolding record_build
    record_build-row md u s =
        let f = finalize u.candidate s in
        let kept = finalize_row u.candidate s i in
        either_way (Keeps s) (not f.1) _ _
          (λ a.
            option_way (Keeps s) (o.instances u.candidate (f.0)) _ _
              (λ b. rollback_build_update-row md u (f.0) ∙ kept)
              (λ is b. cut_over-row md u is (f.0) ∙ kept))
          (λ a. rollback_build_update-row md u (f.0) ∙ kept)

    stage_update-row :
        (md : Challenge) (b : Build) (q : Text) (s : S)
        → stored i (stage_update o md b q s).0 ≡ stored i s
    unfolding stage_update
    stage_update-row md b q s =
        let e = execute md (o.reset_flag b) q s in
        let p = promote (e.1) q (e.0) in
        let kept = execute_row md (o.reset_flag b) q s i in
        either_way (Keeps s) (not e.2) _ _
          (λ a. elim (Result-cases (p.1)) [
            | inr (x, c) ↦
                rw (c, stage_update) (discard_row md (e.1) q (p.0) i)
                ∙ promote_row (e.1) q (e.0) i
                ∙ kept
            | inl (x, c) ↦
                rw (c, stage_update) (record_build-row md _ (p.0))
                ∙ promote_row (e.1) q (e.0) i
                ∙ kept
          ])
          (λ a. discard_row md (e.1) q (e.0) i ∙ kept)

    update_build-row :
        (md : Challenge) (n : ℤ) (s : S) → stored i (update_build o md n s).0 ≡ stored i s
    unfolding update_build
    update_build-row md n s =
        option_way (Keeps s) (o.lookup_build n s) _ _ (λ a. refl)
          (λ b a.
            option_way (Keeps s) (o.random_identifier s) _ _ (λ c. refl)
              (λ r c. stage_update-row md b _ s))

    rollback_updates-row :
        (md : Challenge) (us : List (StagedBuildUpdate Build Promotion Cutover)) (s : S)
        → stored i (rollback_updates o md us s).0 ≡ stored i s
    unfolding rollback_updates
    rollback_updates-row md [] s = refl
    rollback_updates-row md (u ∷ us) s =
        rollback_updates-row md us _ ∙ rollback_build_update-row md u s

    pub update_builds-row :
        (md : Challenge) (us : List (StagedBuildUpdate Build Promotion Cutover)) (ids : List ℤ)
        (s : S)
        → stored i (update_builds o md us ids s).0 ≡ stored i s
    unfolding update_builds
    update_builds-row md us [] s = refl
    update_builds-row md us (n ∷ ids) s =
        let kept = update_build-row md n s in
        elim (Result-cases (update_build o md n s).1) [
          | inl (u, e) ↦ rw (e, update_builds) (update_builds-row md (u ∷ us) ids _) ∙ kept
          | inr (es, e) ↦ rw (e, update_builds) (rollback_updates-row md us _) ∙ kept
        ]
