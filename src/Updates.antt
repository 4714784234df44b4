-- ===== src/Updates.antt =====
-- updateChallengesInternal of cmgr/database_challenges.go, with rollbackBuildUpdate and finishBuildUpdate
-- of cmgr/docker.go: new metadata of a challenge, the rebuild of all its builds, and the way back where
-- one of them fails.
pub mod Rows
pub mod Marker
pub mod Undo
pub mod Restored
mod Promoted
mod Examples
use cmgr.Common.{
  Bool, true, false, not, ◌&&◌, Option, none, some, List, [], ◌∷◌, ◌++◌, any, keep, if◌then◌else◌,
  Text, codes, text_eq, ℤ, Result, ok, err,
}
use cmgr.Changes.{Challenge}
use cmgr.Staging.{qualifier_prefix}

-- The errors, with whether a part that fails has undone its own changes.
pub data UpdateError : Type 0 where
  not_found not_preflighted not_replaced not_listed no_context no_build no_identifier : UpdateError
  not_executed not_discarded not_finalized no_instances : UpdateError
  not_promoted not_cut_over : (recovered : Bool) → UpdateError
  cutover_left promotion_left build_left last_solved_left : UpdateError
  cutover_unfinished promotion_unfinished image_left not_cleaned : UpdateError

-- The calls that the update makes: of the database, of Docker, and of the other parts of the program.
-- A Boolean says whether a call succeeded.
pub record Operations (S Build Promotion Cutover : Type 0) : Type 0 where
  pub stored : Text → S → Option Challenge
  pub preflight : Challenge → S → Bool
  pub replace : Challenge → S → S × Bool
  pub build_ids : Text → S → Option (List ℤ)
  pub create_context : Challenge → S → Bool
  pub lookup_build : ℤ → S → Option Build
  pub random_identifier : S → Option Text
  pub reset_flag : Build → Build
  pub hosts : Build → List Text
  pub execute : Challenge → Build → Text → S → S × Build × Bool
  pub discard : Challenge → Build → Text → S → S × Bool
  pub promote : Build → Text → S → S × Result Bool Promotion
  pub finalize : Build → S → S × Bool
  pub set_last_solved : Build → S → S × Bool
  pub instances : Build → S → Option (List ℤ)
  pub prepare : Challenge → Build → ℤ → S → S × Result Bool Cutover
  pub rollback_cutover : Cutover → S → S × Bool
  pub finish_cutover : Cutover → S → S × Bool
  pub rollback_staged : Promotion → S → S × Bool
  pub finish_staged : Promotion → S → S × Bool
  pub remove_image : Build → Text → S → S × Bool
  pub clean_interrupted : Text → List ℤ → S → S × Bool

-- The update of one build; the cutovers stand with the last one first.
pub record StagedBuildUpdate (Build Promotion Cutover : Type 0) : Type 0 where
  pub previous : Build
  pub candidate : Build
  pub qualifier : Text
  pub promotion : Promotion
  pub cutovers : List Cutover

abbrev pub note : {S : Type 0} → UpdateError → S × Bool → S × List UpdateError
note e (s, done) = (s, if done then [] else e ∷ [])

-- Errors add up.
abbrev pub also :
    {S : Type 0} → S × List UpdateError → (S → S × List UpdateError) → S × List UpdateError
also (s, es) next = let (s', more) = next s in (s', es ++ more)

abbrev pub no_errors : List UpdateError → Bool
no_errors [] = true
no_errors (e ∷ es) = false

-- Metadata whose source digest is empty: a rebuild has begun.
abbrev pub in_progress : Challenge → Challenge
in_progress md = record md { source_digest = [] }

module _ {S Build Promotion Cutover : Type 0} (o : Operations S Build Promotion Cutover) where
  open o use {
    stored, preflight, replace, build_ids, create_context, lookup_build, random_identifier,
    reset_flag, hosts, execute, discard, promote, finalize, set_last_solved, instances, prepare,
    rollback_cutover, finish_cutover, rollback_staged, finish_staged, remove_image,
    clean_interrupted,
  }

  abbrev Update : Type 0
  Update = StagedBuildUpdate Build Promotion Cutover

  pub rollback_cutovers : List Cutover → S → S × List UpdateError
  rollback_cutovers [] s = (s, [])
  rollback_cutovers (c ∷ cs) s =
      also (note cutover_left (rollback_cutover c s)) (rollback_cutovers cs)

  abbrev pub restore_build : Build → S → S × List UpdateError
  restore_build b s =
      let (s', done) = finalize b s in
      if done then note last_solved_left (set_last_solved b s') else (s', build_left ∷ [])

  -- Every step runs, whether or not the steps before it succeed.
  pub rollback_build_update : Challenge → Update → S → S × List UpdateError
  rollback_build_update md u s =
      also
        (also
          (also (rollback_cutovers u.cutovers s)
            (λ t. note promotion_left (rollback_staged u.promotion t)))
          (restore_build u.previous))
        (λ t. note not_discarded (discard md u.candidate u.qualifier t))

  pub finish_cutovers : List Cutover → S → S × List UpdateError
  finish_cutovers [] s = (s, [])
  finish_cutovers (c ∷ cs) s =
      also (finish_cutovers cs s) (λ t. note cutover_unfinished (finish_cutover c t))

  pub remove_images : Build → List Text → S → S × List UpdateError
  remove_images b [] s = (s, [])
  remove_images b (h ∷ hs) s = also (note image_left (remove_image b h s)) (remove_images b hs)

  -- Images of hosts that the new build no longer has are removed.
  pub finish_build_update : Update → S → S × List UpdateError
  finish_build_update u s =
      also
        (also (finish_cutovers u.cutovers s)
          (λ t. note promotion_unfinished (finish_staged u.promotion t)))
        (remove_images u.previous
          (keep (λ h. not (any (text_eq h) (hosts u.candidate))) (hosts u.previous)))

  abbrev pub failed_with :
      {A : Type 0} → UpdateError → S × List UpdateError → S × Result (List UpdateError) A
  failed_with e (s, es) = (s, err (e ∷ es))

  -- The loop over the instances of a build.
  pub cut_over : Challenge → Update → List ℤ → S → S × Result (List UpdateError) Update
  cut_over md u [] s = (s, ok u)
  cut_over md u (i ∷ is) s =
      let r = prepare md u.candidate i s in
      elim (r.1) [
        | err recovered ↦ failed_with (not_cut_over recovered) (rollback_build_update md u (r.0))
        | ok c ↦ cut_over md (record u { cutovers = c ∷ u.cutovers }) is (r.0)
      ]

  pub record_build : Challenge → Update → S → S × Result (List UpdateError) Update
  record_build md u s =
      let f = finalize u.candidate s in
      if not f.1
      then failed_with not_finalized (rollback_build_update md u (f.0))
      else elim (instances u.candidate (f.0)) [
        | none ↦ failed_with no_instances (rollback_build_update md u (f.0))
        | some is ↦ cut_over md u is (f.0)
      ]

  pub stage_update : Challenge → Build → Text → S → S × Result (List UpdateError) Update
  stage_update md b q s =
      let e = execute md (reset_flag b) q s in
      let p = promote (e.1) q (e.0) in
      if not e.2
      then failed_with not_executed (note not_discarded (discard md (e.1) q (e.0)))
      else elim (p.1) [
        | err recovered ↦
            failed_with (not_promoted recovered) (note not_discarded (discard md (e.1) q (p.0)))
        | ok promotion ↦
            record_build md
              (record {
                previous = b;
                candidate = e.1;
                qualifier = q;
                promotion = promotion;
                cutovers = [];
              })
              (p.0)
      ]

  pub update_build : Challenge → ℤ → S → S × Result (List UpdateError) Update
  update_build md id s = elim (lookup_build id s) [
    | none ↦ (s, err (no_build ∷ []))
    | some b ↦ elim (random_identifier s) [
      | none ↦ (s, err (no_identifier ∷ []))
      | some r ↦ stage_update md b (qualifier_prefix ++ r) s
    ]
  ]

  pub rollback_updates : Challenge → List Update → S → S × List UpdateError
  rollback_updates md [] s = (s, [])
  rollback_updates md (u ∷ us) s = also (rollback_build_update md u s) (rollback_updates md us)

  -- The loop over the builds; the completed updates stand with the last one first.
  pub update_builds :
      Challenge → List Update → List ℤ → S → S × Result (List UpdateError) (List Update)
  update_builds md completed [] s = (s, ok completed)
  update_builds md completed (i ∷ is) s =
      let r = update_build md i s in
      elim (r.1) [
        | err es ↦ let (s', more) = rollback_updates md completed (r.0) in (s', err (es ++ more))
        | ok u ↦ update_builds md (u ∷ completed) is (r.0)
      ]

  pub finish_updates : List Update → S → S × List UpdateError
  finish_updates [] s = (s, [])
  finish_updates (u ∷ us) s = also (finish_updates us s) (finish_build_update u)

  -- A change of the row of a challenge and nothing else.
  pub refresh : Challenge → S → S × List UpdateError
  refresh md s = elim (stored md.id s) [
    | none ↦ (s, not_found ∷ [])
    | some c ↦ note not_replaced (replace md s)
  ]

  pub complete : Challenge → List ℤ → S → S × List UpdateError
  complete md ids s =
      let c = clean_interrupted md.id ids s in
      if not c.1 then (c.0, not_cleaned ∷ []) else note not_replaced (replace md (c.0))

  abbrev pub abandon : Challenge → S × List UpdateError → S × List UpdateError
  abandon previous r = also r (refresh previous)

  pub finish_or_stop : Challenge → List ℤ → List Update → S → S × List UpdateError
  finish_or_stop md ids us s =
      let f = finish_updates us s in if not (no_errors f.1) then f else complete md ids (f.0)

  abbrev pub on_updates :
      Challenge
      → Challenge
      → List ℤ
      → S × Result (List UpdateError) (List Update)
      → S × List UpdateError
  on_updates md previous ids (s, err es) = abandon previous (s, es)
  on_updates md previous ids (s, ok us) = finish_or_stop md ids us s

  pub rebuild_listed : Challenge → Challenge → List ℤ → S → S × List UpdateError
  rebuild_listed md previous [] s = complete md [] s
  rebuild_listed md previous (i ∷ is) s =
      if not (create_context md s)
      then abandon previous (s, no_context ∷ [])
      else on_updates md previous (i ∷ is) (update_builds md [] (i ∷ is) s)

  pub rebuild : Challenge → Challenge → S → S × List UpdateError
  rebuild md previous s = elim (build_ids md.id s) [
    | none ↦ abandon previous (s, not_listed ∷ [])
    | some ids ↦ rebuild_listed md previous ids s
  ]

  pub update_challenge : (rebuilds checks : Bool) → Challenge → S → S × List UpdateError
  update_challenge rebuilds checks md s =
      let w = replace (if rebuilds then in_progress md else md) s in
      elim (stored md.id s) [
        | none ↦ (s, not_found ∷ [])
        | some previous ↦
            if checks && not (preflight md s)
            then (s, not_preflighted ∷ [])
            else if not w.1
            then (w.0, not_replaced ∷ [])
            else if rebuilds
            then rebuild md previous (w.0)
            else (w.0, [])
      ]

  pub update_challenges : (rebuilds checks : Bool) → List Challenge → S → S × List UpdateError
  update_challenges rebuilds checks [] s = (s, [])
  update_challenges rebuilds checks (md ∷ mds) s =
      also (update_challenge rebuilds checks md s) (update_challenges rebuilds checks mds)
