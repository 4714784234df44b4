-- ===== src/Updates/Marker.antt =====
-- The source digest in the row of a challenge is the marker of its rebuild.
use cmgr.Common.{
  Bool, true, false, not, ◌&&◌, Option, some, List, [], ◌∷◌, ◌++◌, ◌≡◌, ◌⊎◌, refl, ◌∙◌, arith,
  Bool-cases, Result-cases, inl, inr, Text, text_eq_iff, text_eq_refl, subst, ℤ, Result, ok, err,
  either_way, option_way,
}
use cmgr.Changes.{Challenge, Answers, Verdict, compare}
use cmgr.Updates.{
  Operations, StagedBuildUpdate, UpdateError, no_context, not_listed, no_errors, cut_over,
  record_build, stage_update, update_build, update_builds, finish_updates, refresh, complete,
  finish_or_stop, on_updates, abandon, rebuild_listed, rebuild, in_progress, update_challenge,
}
use cmgr.Updates.Rows.{RowLaws, finish_updates-row, update_builds-row}

-- A failure comes with an error.
abbrev Reports : {A : Type 0} → Result (List UpdateError) A → Type 0
Reports (ok a) = Unit
Reports (err es) = no_errors es ≡ false

-- The row is that of the new metadata exactly if there was no error; otherwise it is the old one, or the
-- marker of a rebuild that is not complete.
pub record IsMarked (md previous : Challenge) (row : Option Challenge) (es : List UpdateError)
    : Type 0 where
  pub complete : no_errors es ≡ true → row ≡ some md
  pub incomplete : no_errors es ≡ false → (row ≡ some previous) ⊎ (row ≡ some (in_progress md))

no_errors-append :
    (es more : List UpdateError) → no_errors es ≡ false → no_errors (es ++ more) ≡ false
no_errors-append [] more h = cc
no_errors-append (e ∷ es) more h = refl

module _ {S Build Promotion Cutover : Type 0} (o : Operations S Build Promotion Cutover) where
  open o use {stored, replace, clean_interrupted, prepare, finalize, execute, promote}

  abbrev ReportsWith : {A : Type 0} → S × Result (List UpdateError) A → Type 0
  ReportsWith r = Reports (r.1)

  cut_over-Reports :
      (md : Challenge) (u : StagedBuildUpdate Build Promotion Cutover) (is : List ℤ) (s : S)
      → Reports (cut_over o md u is s).1
  unfolding cut_over
  cut_over-Reports md u [] s = tt
  cut_over-Reports md u (n ∷ is) s = elim (Result-cases (prepare md u.candidate n s).1) [
    | inl (c, e) ↦
        rw (e, cut_over) (cut_over-Reports md (record u { cutovers = c ∷ u.cutovers }) is _)
    | inr (b, e) ↦ rw (e, cut_over) refl
  ]

  record_build-Reports :
      (md : Challenge) (u : StagedBuildUpdate Build Promotion Cutover) (s : S)
      → Reports (record_build o md u s).1
  unfolding record_build
  record_build-Reports md u s =
      either_way ReportsWith (not (finalize u.candidate s).1) _ _
        (λ a.
          option_way ReportsWith (o.instances u.candidate (finalize u.candidate s).0) _ _
            (λ b. refl) (λ is b. cut_over-Reports md u is _))
        (λ a. refl)

  stage_update-Reports :
      (md : Challenge) (b : Build) (q : Text) (s : S) → Reports (stage_update o md b q s).1
  unfolding stage_update
  stage_update-Reports md b q s =
      let e = execute md (o.reset_flag b) q s in
      either_way ReportsWith (not e.2) _ _
        (λ a. elim (Result-cases (promote (e.1) q (e.0)).1) [
          | inr (x, c) ↦ rw (c, stage_update) refl
          | inl (x, c) ↦ rw (c, stage_update) (record_build-Reports md _ _)
        ])
        (λ a. refl)

  update_build-Reports : (md : Challenge) (n : ℤ) (s : S) → Reports (update_build o md n s).1
  unfolding update_build
  update_build-Reports md n s =
      option_way ReportsWith (o.lookup_build n s) _ _ (λ a. refl)
        (λ b a.
          option_way ReportsWith (o.random_identifier s) _ _ (λ c. refl)
            (λ r c. stage_update-Reports md b _ s))

  update_builds-Reports :
      (md : Challenge) (us : List (StagedBuildUpdate Build Promotion Cutover)) (ids : List ℤ)
      (s : S)
      → Reports (update_builds o md us ids s).1
  unfolding update_builds
  update_builds-Reports md us [] s = tt
  update_builds-Reports md us (n ∷ ids) s = elim (Result-cases (update_build o md n s).1) [
    | inl (u, e) ↦ rw (e, update_builds) (update_builds-Reports md (u ∷ us) ids _)
    | inr (es, e) ↦
        rw (e, update_builds)
          (no_errors-append es _ (subst Reports e (update_build-Reports md n s)))
  ]

  module _ (laws : RowLaws o) (md previous : Challenge) (own : previous.id ≡ md.id) where
    open laws use {replace_row, clean_row}

    abbrev IsMarkedIn : S × List UpdateError → Type 0
    IsMarkedIn r = IsMarked md previous (stored md.id (r.0)) (r.1)

    abbrev HasMarker : S → Type 0
    HasMarker s = stored md.id s ≡ some (in_progress md)

    -- The way back: the old metadata is written, or the marker stays.
    abandon-IsMarked :
        (s : S) (es : List UpdateError)
        → HasMarker s
        → no_errors es ≡ false
        → IsMarkedIn (abandon o previous (s, es))
    unfolding refresh
    abandon-IsMarked s es m h = record {
      complete = λ z. cc (no_errors-append es (refresh o previous s).1 h);
      incomplete = λ z.
          let found : stored previous.id s ≡ some (in_progress md) = rw own m in
          elim (Bool-cases (replace previous s).1) [
            | inl done ↦ inl (
                rw (found, refresh)
                  (ground (
                    arith,
                    replace_row previous s md.id,
                    done,
                    own,
                    text_eq_iff previous.id md.id,
                  )))
            | inr failed ↦
                inr (rw (found, refresh) (ground (arith, replace_row previous s md.id, failed, m)))
          ];
    }

    complete-IsMarked : (ids : List ℤ) (s : S) → HasMarker s → IsMarkedIn (complete o md ids s)
    unfolding complete
    complete-IsMarked ids s m =
        let c = clean_interrupted md.id ids s in
        let row : stored md.id (c.0) ≡ some (in_progress md) = clean_row md.id ids s md.id ∙ m in
        either_way IsMarkedIn (not c.1) _ _
          (λ a. elim (Bool-cases (replace md (c.0)).1) [
            | inl done ↦ record {
              complete = λ z. ground (arith, replace_row md (c.0) md.id, done, text_eq_refl md.id);
              incomplete = λ z. absurd (ground (arith, z, done));
            }
            | inr failed ↦ record {
              complete = λ z. absurd (ground (arith, z, failed));
              incomplete = λ z. inr (ground (arith, replace_row md (c.0) md.id, failed, row));
            }
          ])
          (λ a. record { complete = λ z. cc; incomplete = λ z. inr row })

    finish_or_stop-IsMarked :
        (ids : List ℤ) (us : List (StagedBuildUpdate Build Promotion Cutover)) (s : S)
        → HasMarker s
        → IsMarkedIn (finish_or_stop o md ids us s)
    unfolding finish_or_stop
    finish_or_stop-IsMarked ids us s m =
        let row = finish_updates-row o laws md.id us s ∙ m in
        either_way IsMarkedIn (not (no_errors (finish_updates o us s).1)) _ _
          (λ a. complete-IsMarked ids _ row)
          (λ a. record { complete = λ z. cc (rw z at a); incomplete = λ z. inr row })

    on_updates-IsMarked :
        (ids : List ℤ)
        (r : S × Result (List UpdateError) (List (StagedBuildUpdate Build Promotion Cutover)))
        → HasMarker (r.0)
        → Reports (r.1)
        → IsMarkedIn (on_updates o md previous ids r)
    on_updates-IsMarked ids (s, err es) m h = abandon-IsMarked s es m h
    on_updates-IsMarked ids (s, ok us) m h = finish_or_stop-IsMarked ids us s m

    rebuild_listed-IsMarked :
        (ids : List ℤ) (s : S) → HasMarker s → IsMarkedIn (rebuild_listed o md previous ids s)
    unfolding rebuild_listed
    rebuild_listed-IsMarked [] s m = complete-IsMarked [] s m
    rebuild_listed-IsMarked (n ∷ ids) s m =
        either_way IsMarkedIn (not (o.create_context md s)) _ _
          (λ a.
            on_updates-IsMarked (n ∷ ids) (update_builds o md [] (n ∷ ids) s)
              (update_builds-row o laws md.id md [] (n ∷ ids) s ∙ m)
              (update_builds-Reports md [] (n ∷ ids) s))
          (λ a. abandon-IsMarked s (no_context ∷ []) m refl)

    rebuild-IsMarked : (s : S) → HasMarker s → IsMarkedIn (rebuild o md previous s)
    unfolding rebuild
    rebuild-IsMarked s m =
        option_way IsMarkedIn (o.build_ids md.id s) _ _
          (λ a. abandon-IsMarked s (not_listed ∷ []) m refl)
          (λ ids a. rebuild_listed-IsMarked ids s m)

  -- An update that rebuilds a known challenge leaves the new metadata in its row if it reports no
  -- error; otherwise it leaves the old metadata, or the new with an empty source digest. The
  -- condition on the calls that it makes is RowLaws: only the replacement of a challenge writes
  -- rows of challenges, and only the row of that challenge.
  pub update_challenge-IsMarked :
      (laws : RowLaws o) (checks : Bool) (md previous : Challenge) (s : S)
      → stored md.id s ≡ some previous
      → IsMarked md previous
          (stored md.id (update_challenge o true checks md s).0)
          (update_challenge o true checks md s).1
  unfolding update_challenge
  update_challenge-IsMarked laws checks md previous s h =
      let w = replace (in_progress md) s in
      let row = laws.replace_row (in_progress md) s md.id in
      rw (h, update_challenge)
        (either_way (λ (r : S × List UpdateError). IsMarked md previous (stored md.id (r.0)) (r.1))
          (checks && not (o.preflight md s)) _ _
          (λ a.
            either_way
              (λ (r : S × List UpdateError). IsMarked md previous (stored md.id (r.0)) (r.1))
              (not w.1) _ _
              (λ b.
                rebuild-IsMarked laws md previous (laws.own_id md.id s previous h) (w.0)
                  (ground (arith, row, b, text_eq_refl md.id)))
              (λ b. record {
                complete = λ z. cc;
                incomplete = λ z. inl (ground (arith, row, b, h));
              }))
          (λ a. record { complete = λ z. cc; incomplete = λ z. inl h }))

  -- A challenge whose rebuild reported an error is taken for changed by the next comparison with
  -- the same files, so that it is rebuilt again, where the files asked for a rebuild before and, as
  -- RowLaws says, only the replacement of a challenge writes its row.
  pub update_challenge-retried :
      (laws : RowLaws o) (checks : Bool) (a : Answers) (md previous : Challenge) (s : S)
      → stored md.id s ≡ some previous
      → compare a previous md previous ≡ Verdict.rebuild md
      → no_errors (update_challenge o true checks md s).1 ≡ false
      → (c : Challenge) × (stored md.id (update_challenge o true checks md s).0 ≡ some c)
        × (compare a c md c ≡ Verdict.rebuild md)
  update_challenge-retried laws checks a md previous s h v e =
      elim ((update_challenge-IsMarked laws checks md previous s h).incomplete e) [
        | inl old ↦ (previous, old, v)
        | inr marker ↦ (in_progress md, marker, refl)
      ]
