-- ===== src/Updates/Undo.antt =====
-- What an update of builds leaves to be undone, and that its rollback undoes it: the files (names of images
-- and archives), the rows of the builds, and the machine (containers and the rows of instances).
use cmgr.Common.{
  Bool, true, false, some, List, [], ◌∷◌, ◌++◌, ◌≡◌, refl, ◌∙◌, arith, Bool-cases, inl, inr, all,
  Text, ℤ, ok, err, Result,
}
use cmgr.Changes.{Challenge}
use cmgr.Staging.{qualifier_prefix}
use cmgr.Updates.{
  Operations, StagedBuildUpdate, UpdateError, not_promoted, not_cut_over, cutover_left,
  promotion_left, build_left, last_solved_left, not_discarded, note, restore_build,
  rollback_cutovers, rollback_build_update,
}

-- An error after which nothing is left to be undone.
abbrev pub is_harmless : UpdateError → Bool
is_harmless (not_promoted recovered) = recovered
is_harmless (not_cut_over recovered) = recovered
is_harmless cutover_left = false
is_harmless promotion_left = false
is_harmless build_left = false
is_harmless last_solved_left = false
is_harmless e = true

abbrev pub AreHarmless : List UpdateError → Type 0
AreHarmless es = all is_harmless es ≡ true

pub harmless-append :
    (es more : List UpdateError) → AreHarmless (es ++ more) → AreHarmless es × AreHarmless more
harmless-append [] more h = (refl, h)
harmless-append (e ∷ es) more h = ground (arith, harmless-append es more)

module _ {S Build Promotion Cutover F R M : Type 0} (o : Operations S Build Promotion Cutover)
    (files : S → F) (rows : S → R) (machine : S → M) where
  open o use {
    random_identifier, lookup_build, reset_flag, execute, discard, promote, finalize,
    set_last_solved, prepare, rollback_cutover, rollback_staged,
  }

  abbrev pub Same : S → S → Type 0
  Same s t = (files s ≡ files t) × (rows s ≡ rows t) × (machine s ≡ machine t)

  -- The promotion of a build that was executed with an identifier.
  abbrev pub staged_candidate : Challenge → Build → Text → S → S × Result Bool Promotion
  staged_candidate md b r s =
      let e = execute md (reset_flag b) (qualifier_prefix ++ r) s in
      promote (e.1) (qualifier_prefix ++ r) (e.0)

  -- Each call changes one of the three parts at most, and each has a call that undoes it.
  pub record UndoLaws : Type 0 where
    pub execute_same : (md : Challenge) (b : Build) (q : Text) (s : S) → Same (execute md b q s).0 s
    pub discard_same : (md : Challenge) (b : Build) (q : Text) (s : S) → Same (discard md b q s).0 s
    pub promote_rows : (b : Build) (q : Text) (s : S) → rows (promote b q s).0 ≡ rows s
    pub promote_machine : (b : Build) (q : Text) (s : S) → machine (promote b q s).0 ≡ machine s
    pub promote_failed :
        (md : Challenge) (n : ℤ) (b : Build) (r : Text) (s : S)
        → lookup_build n s ≡ some b
        → random_identifier s ≡ some r
        → (staged_candidate md b r s).1 ≡ err true
        → files (staged_candidate md b r s).0
          ≡ files (execute md (reset_flag b) (qualifier_prefix ++ r) s).0
    pub promote_undo :
        (md : Challenge) (n : ℤ) (b : Build) (r : Text) (s : S) (p : Promotion) (t : S)
        → lookup_build n s ≡ some b
        → random_identifier s ≡ some r
        → (staged_candidate md b r s).1 ≡ ok p
        → files t ≡ files (staged_candidate md b r s).0
        → (rollback_staged p t).1 ≡ true
        → files (rollback_staged p t).0
          ≡ files (execute md (reset_flag b) (qualifier_prefix ++ r) s).0
    pub staged_rows : (p : Promotion) (s : S) → rows (rollback_staged p s).0 ≡ rows s
    pub staged_machine : (p : Promotion) (s : S) → machine (rollback_staged p s).0 ≡ machine s
    pub finalize_files : (b : Build) (s : S) → files (finalize b s).0 ≡ files s
    pub finalize_machine : (b : Build) (s : S) → machine (finalize b s).0 ≡ machine s
    pub solved_files : (b : Build) (s : S) → files (set_last_solved b s).0 ≡ files s
    pub solved_machine : (b : Build) (s : S) → machine (set_last_solved b s).0 ≡ machine s
    pub finalize_undo :
        (n : ℤ) (b : Build) (md : Challenge) (q : Text) (s u t : S)
        → lookup_build n s ≡ some b
        → rows u ≡ rows s
        → rows t ≡ rows (finalize (execute md (reset_flag b) q s).1 u).0
        → (finalize b t).1 ≡ true
        → (set_last_solved b (finalize b t).0).1 ≡ true
        → rows (set_last_solved b (finalize b t).0).0 ≡ rows s
    pub prepare_files :
        (md : Challenge) (b : Build) (n : ℤ) (s : S) → files (prepare md b n s).0 ≡ files s
    pub prepare_rows :
        (md : Challenge) (b : Build) (n : ℤ) (s : S) → rows (prepare md b n s).0 ≡ rows s
    pub prepare_failed :
        (md : Challenge) (b : Build) (n : ℤ) (s : S)
        → (prepare md b n s).1 ≡ err true
        → machine (prepare md b n s).0 ≡ machine s
    pub prepare_undo :
        (md : Challenge) (b : Build) (n : ℤ) (s : S) (c : Cutover) (t : S)
        → (prepare md b n s).1 ≡ ok c
        → machine t ≡ machine (prepare md b n s).0
        → (rollback_cutover c t).1 ≡ true
        → machine (rollback_cutover c t).0 ≡ machine s
    pub cutover_files : (c : Cutover) (s : S) → files (rollback_cutover c s).0 ≡ files s
    pub cutover_rows : (c : Cutover) (s : S) → rows (rollback_cutover c s).0 ≡ rows s

  -- From one machine to another by cutovers, the last one first, each with a rollback.
  abbrev pub AreUndone : List Cutover → M → M → Type 0
  AreUndone [] before now = now ≡ before
  AreUndone (c ∷ cs) before now =
      (between : M) × AreUndone cs before between
      × ((t : S)
          → machine t ≡ now
          → (rollback_cutover c t).1 ≡ true
          → machine (rollback_cutover c t).0 ≡ between)

  -- An update that has gone some way from one state to another.
  pub record IsUndone (u : StagedBuildUpdate Build Promotion Cutover) (before now : S)
      : Type 0 where
    pub of_files :
        (t : S)
        → files t ≡ files now
        → (rollback_staged u.promotion t).1 ≡ true
        → files (rollback_staged u.promotion t).0 ≡ files before
    pub of_rows :
        (t : S)
        → rows t ≡ rows now
        → (finalize u.previous t).1 ≡ true
        → (set_last_solved u.previous (finalize u.previous t).0).1 ≡ true
        → rows (set_last_solved u.previous (finalize u.previous t).0).0 ≡ rows before
    pub of_machine : AreUndone u.cutovers (machine before) (machine now)

  module _ (laws : UndoLaws) where
    open laws use {
      discard_same, staged_rows, staged_machine, finalize_files, finalize_machine, solved_files,
      solved_machine, cutover_files, cutover_rows,
    }

    rollback_cutovers-files :
        (cs : List Cutover) (t : S) → files (rollback_cutovers o cs t).0 ≡ files t
    unfolding rollback_cutovers
    rollback_cutovers-files [] t = refl
    rollback_cutovers-files (c ∷ cs) t = rollback_cutovers-files cs _ ∙ cutover_files c t

    rollback_cutovers-rows :
        (cs : List Cutover) (t : S) → rows (rollback_cutovers o cs t).0 ≡ rows t
    unfolding rollback_cutovers
    rollback_cutovers-rows [] t = refl
    rollback_cutovers-rows (c ∷ cs) t = rollback_cutovers-rows cs _ ∙ cutover_rows c t

    rollback_cutovers-machine :
        (cs : List Cutover) (before now : M) (t : S)
        → AreUndone cs before now
        → machine t ≡ now
        → AreHarmless (rollback_cutovers o cs t).1
        → machine (rollback_cutovers o cs t).0 ≡ before
    unfolding rollback_cutovers
    rollback_cutovers-machine [] before now t u e h = e ∙ u
    rollback_cutovers-machine (c ∷ cs) before now t (between, more, undo) e h =
        elim (Bool-cases (rollback_cutover c t).1) [
          | inl done ↦
              rollback_cutovers-machine cs before between (rollback_cutover c t).0 more
                (undo t e done) (ground (arith, h, done))
          | inr failed ↦ absurd (ground (arith, h, failed))
        ]

    restore_build-files : (b : Build) (t : S) → files (restore_build o b t).0 ≡ files t
    restore_build-files b t = elim (Bool-cases (finalize b t).1) [
      | inl done ↦ rw done (solved_files b _ ∙ finalize_files b t)
      | inr failed ↦ rw failed (finalize_files b t)
    ]

    restore_build-machine : (b : Build) (t : S) → machine (restore_build o b t).0 ≡ machine t
    restore_build-machine b t = elim (Bool-cases (finalize b t).1) [
      | inl done ↦ rw done (solved_machine b _ ∙ finalize_machine b t)
      | inr failed ↦ rw failed (finalize_machine b t)
    ]

    restore_build-rows :
        (b : Build) (t before : S)
        → ((finalize b t).1 ≡ true
            → (set_last_solved b (finalize b t).0).1 ≡ true
            → rows (set_last_solved b (finalize b t).0).0 ≡ rows before)
        → AreHarmless (restore_build o b t).1
        → rows (restore_build o b t).0 ≡ rows before
    restore_build-rows b t before k h = elim (Bool-cases (finalize b t).1) [
      | inr failed ↦ absurd (ground (arith, h, failed))
      | inl done ↦ elim (Bool-cases (set_last_solved b (finalize b t).0).1) [
        | inr failed ↦ absurd (ground (arith, h, done, failed))
        | inl set ↦ rw done (k done set)
      ]
    ]

    note-harmless :
        (e : UpdateError) (t : S × Bool)
        → is_harmless e ≡ false
        → AreHarmless (note e t).1
        → t.1 ≡ true
    note-harmless e (t, true) n h = refl
    note-harmless e (t, false) n h = absurd (ground (arith, n, h))

    -- A rollback that leaves nothing undone restores the state from which the update started.
    pub rollback_build_update-Same :
        (md : Challenge) (u : StagedBuildUpdate Build Promotion Cutover) (before now t : S)
        → IsUndone u before now
        → Same t now
        → AreHarmless (rollback_build_update o md u t).1
        → Same (rollback_build_update o md u t).0 before
    unfolding rollback_build_update
    rollback_build_update-Same md u before now t i (sf, sr, sm) h =
        let t1 = (rollback_cutovers o u.cutovers t).0 in
        let t2 = (rollback_staged u.promotion t1).0 in
        let t3 = (restore_build o u.previous t2).0 in
        let e1 = (rollback_cutovers o u.cutovers t).1 in
        let e2 = (note promotion_left (rollback_staged u.promotion t1)).1 in
        let e3 = (restore_build o u.previous t2).1 in
        let e4 = (note not_discarded (discard md u.candidate u.qualifier t3)).1 in
        let (h3, _) = harmless-append ((e1 ++ e2) ++ e3) e4 h in
        let (h2, hr) = harmless-append (e1 ++ e2) e3 h3 in
        let (h1, hp) = harmless-append e1 e2 h2 in
        let last = discard_same md u.candidate u.qualifier t3 in
        (
          last.0
              ∙ restore_build-files u.previous t2
              ∙ i.of_files t1 (rollback_cutovers-files u.cutovers t ∙ sf)
                  (note-harmless promotion_left (rollback_staged u.promotion t1) refl hp),
          last.1
              ∙ restore_build-rows u.previous t2 before
                  (i.of_rows t2
                    (staged_rows u.promotion t1 ∙ rollback_cutovers-rows u.cutovers t ∙ sr))
                  hr,
          last.2
              ∙ restore_build-machine u.previous t2
              ∙ staged_machine u.promotion t1
              ∙ rollback_cutovers-machine u.cutovers (machine before) (machine now) t i.of_machine
                  sm h1,
        )
