-- ===== src/Schemas.antt =====
-- Builds, instances and schemas as cmgr/api.go manages them, with the Docker daemon as a parameter:
-- convergeSchema and what it calls, CreateSchema, UpdateSchema, DeleteSchema, Start, Stop, Destroy.
pub mod Api
pub mod Staging
pub mod Scaling
pub mod Atomic
pub mod Lifecycle
mod Examples
use cmgr.Common.{
  ℕ, zero, suc, ◌+◌, ◌-◌, Bool, true, false, not, ◌&&◌, ◌||◌, Option, none, some, List, [], ◌∷◌,
  ◌++◌, map, ◌==◌, ltb, if◌then◌else◌, ℤ, pos, negsuc, int_eq, Text, text_eq, is_empty, any, all,
  count, length, drop, flatten, Result, ok, err,
}
use cmgr.Store.{
  Db, Build, Instance, StoreError, unknown_schema, unknown_build, unknown_instance, conflict,
  build_failed, start_failed, stop_failed, remove_failed, source_changed, already_exists,
  dynamic_instances, locked, find_build, find_instance, stage_build, open_build, finalize_build,
  get_build_instances, remove_build_metadata, activate_schema_builds, schema_exists,
  schema_is_manual, create_schema_record, delete_schema_record_if_empty, delete_schema_record,
  removed_schema_builds, removed_schema_instances, lock_schema, open_instance,
  remove_instance_metadata,
}

-- What the Docker daemon and the file system answer; an answer may depend on all that is recorded.
pub record Docker : Type 0 where
  pub unchanged : Db → Text → Bool  -- the challenge's sources are as recorded, and can be packed
  pub executes : Db → Build → Option Text  -- executeBuild, with the flag of the new build
  pub starts : Db → ℕ → Build → Bool  -- startNetwork and startContainers of an instance
  pub stops : Db → ℕ → Bool  -- stopContainers and stopNetwork of an instance
  pub removes : Db → ℕ → Bool  -- the artifacts and images of a build are gone

-- How convergeSchema ends: with an error before the activation, or after it with those collected.
pub data Converged : Type 0 where
  failed_before : Db → List StoreError → Converged
  activated : Db → List StoreError → Converged

-- The entries of the desired schema, one for each challenge and seed, staged in turn.
pub stage_builds : Db → List Build → Db × List Build
stage_builds db [] = (db, [])
stage_builds db (w ∷ ws) =
    let (db', b) = stage_build db w in let (db'', bs) = stage_builds db' ws in (db'', b ∷ bs)

-- Staging goes group by group, a group for each challenge.
pub stage_groups : Db → List (List Build) → Db × List (List Build)
stage_groups db [] = (db, [])
stage_groups db (g ∷ gs) =
    let (db', bs) = stage_builds db g in let (db'', rest) = stage_groups db' gs in (db'', bs ∷ rest)

module _ (docker : Docker) where
  open docker use {unchanged, executes, starts, stops, removes}

  -- newInstance; on a failure the deferred cleanup removes the row again.
  pub new_instance : Db → Build → Db × Result StoreError ℕ
  new_instance db b =
      let (db', i) = open_instance db b.id in
      if starts db' i b then (db', ok i) else (remove_instance_metadata db' i, err start_failed)

  pub stop_instance : Db → ℕ → Db × Option StoreError
  stop_instance db i =
      if stops db i then (remove_instance_metadata db i, none) else (db, some stop_failed)

  -- lookupInstanceMetadata, then stopInstance.
  pub lookup_and_stop : Db → ℕ → Db × Option StoreError
  lookup_and_stop db i = elim (find_instance i db.instances) [
    | none ↦ (db, some (unknown_instance i))
    | some row ↦ stop_instance db i
  ]

  -- The build of one entry, once its row is known: executeBuild and finalizeBuild, and the removal
  -- of the row if either fails.
  pub execute_row : Db → Build → Db × Result StoreError Build
  execute_row db b = elim (executes db b) [
    | none ↦ elim (remove_build_metadata db b.id) [
      | err e ↦ (db, err build_failed)
      | ok db' ↦ (db', err build_failed)
    ]
    | some flag ↦ elim (finalize_build db b.id flag) [
      | ok db' ↦ (db', ok (record b { flag = flag }))
      | err e ↦ (db, err e)
    ]
  ]

  -- The body of the loop of generateBuilds. An id of 0 marks a build that was not staged.
  pub generate_row : Db → Build → Db × Result StoreError Build
  generate_row db b =
      if not (is_empty b.flag)
      then (db, ok b)
      else if b.id == 0
      then (let (db', row) = open_build db b in
          if is_empty row.flag then execute_row db' row else (db', ok row))
      else elim (find_build b.id db.builds) [
        | none ↦ (db, err (unknown_build b.id))
        | some row ↦
            if is_empty row.flag
            then execute_row db b
            else (db, ok (record row { instance_count = b.instance_count }))
      ]

  pub generate_rows : Db → List Build → Db × Result StoreError (List Build)
  generate_rows db [] = (db, ok [])
  generate_rows db (b ∷ bs) =
      let step = generate_row db b in
      let rest = generate_rows step.0 bs in
      elim (step.1) [
        | err e ↦ (step.0, err e)
        | ok b' ↦ elim (rest.1) [ err e ↦ (rest.0, err e) | ok bs' ↦ (rest.0, ok (b' ∷ bs')) ]
      ]

  abbrev pub all_complete : List Build → Bool
  all_complete = all (λ b. not (is_empty b.flag))

  pub generate_builds : Db → List Build → Db × Result StoreError (List Build)
  unfolding generate_rows
  generate_builds db [] = (db, ok [])
  generate_builds db (b ∷ bs) =
      if all_complete (b ∷ bs)
      then (db, ok (b ∷ bs))
      else if unchanged db b.challenge
      then generate_rows db (b ∷ bs)
      else (db, err (source_changed b.challenge))

  -- destroyImages.
  pub destroy_images : Db → ℕ → Db × Option StoreError
  destroy_images db n = elim (find_build n db.builds) [
    | none ↦ (db, some (unknown_build n))
    | some b ↦
        if any (λ i. i.build == n) db.instances
        then (db, some conflict)
        else if removes db n
        then elim (remove_build_metadata db n) [ err e ↦ (db, some e) | ok db' ↦ (db', none) ]
        else (db, some remove_failed)
  ]

  pub generate_groups : Db → List (List Build) → Db × Option StoreError
  generate_groups db [] = (db, none)
  generate_groups db (g ∷ gs) =
      let step = generate_builds db g in
      let rest = generate_groups step.0 gs in
      elim (step.1) [ err e ↦ (step.0, some e) | ok bs ↦ rest ]

  -- `for i := len(instances); i < target; i++`: `n` instances more, and those that were made.
  pub scale_up : Db → Build → ℕ → List ℕ → Db × List ℕ × Option StoreError
  scale_up db b zero created = (db, created, none)
  scale_up db b (suc n) created =
      let step = new_instance db b in
      elim (step.1) [
        | err e ↦ (step.0, created, some e)
        | ok i ↦ scale_up step.0 b n (created ++ i ∷ [])
      ]

  abbrev pub wanted : Build → Db → ℕ
  wanted b db = target b.instance_count - length (get_build_instances db b.id)
    where
      target : ℤ → ℕ
      target (pos n) = n
      target (negsuc n) = 0

  pub scale_all : Db → List Build → List ℕ → Db × List ℕ × Option StoreError
  scale_all db [] created = (db, created, none)
  scale_all db (b ∷ bs) created =
      let (db', made, failed) = scale_up db b (wanted b db) created in
      elim failed [ some e ↦ (db', made, some e) | none ↦ scale_all db' bs made ]

  -- failBeforeActivation: the new instances are stopped again, the last one first.
  -- An error of the undoing is added to the others.
  pub undo_instances : Db → List ℕ → Db × List StoreError
  undo_instances db [] = (db, [])
  undo_instances db (i ∷ is') =
      let rest = undo_instances db is' in
      let step = lookup_and_stop rest.0 i in
      (step.0, elim (step.1) [ some e ↦ rest.1 ++ e ∷ [] | none ↦ rest.1 ])

  abbrev pub fail_before_activation : Db → List ℕ → StoreError → Converged
  fail_before_activation db created e =
      let undone = undo_instances db created in failed_before undone.0 (e ∷ undone.1)

  pub stop_all : Db → List ℕ → Db × Option StoreError
  stop_all db [] = (db, none)
  stop_all db (i ∷ is') =
      let step = lookup_and_stop db i in
      elim (step.1) [ some e ↦ (step.0, some e) | none ↦ stop_all step.0 is' ]

  pub destroy_all : Db → List ℕ → Db × Option StoreError
  destroy_all db [] = (db, none)
  destroy_all db (n ∷ ns) =
      let step = destroy_images db n in
      elim (step.1) [ some e ↦ (step.0, some e) | none ↦ destroy_all step.0 ns ]

  pub cleanup_schema_resources : Db → Text → Db × Option StoreError
  cleanup_schema_resources db s =
      let stopped = stop_all db (removed_schema_instances db s) in
      elim (stopped.1) [
        | some e ↦ (stopped.0, some e)
        | none ↦ destroy_all stopped.0 (removed_schema_builds stopped.0 s)
      ]

  -- The reductions: a failure is recorded, and the loop goes on.
  pub stop_each : Db → List ℕ → Db × List StoreError
  stop_each db [] = (db, [])
  stop_each db (i ∷ is') =
      let step = lookup_and_stop db i in
      let rest = stop_each step.0 is' in
      (rest.0, elim (step.1) [ some e ↦ e ∷ rest.1 | none ↦ rest.1 ])

  abbrev pub surplus : ℤ → List Instance → List ℕ
  surplus (pos n) is' = map (λ i. i.id) (drop n is')
  surplus (negsuc n) is' = []

  pub reduce_all : Db → List Build → Db × List StoreError
  reduce_all db [] = (db, [])
  reduce_all db (b ∷ bs) =
      let step = stop_each db (surplus b.instance_count (get_build_instances db b.id)) in
      let rest = reduce_all step.0 bs in (rest.0, step.1 ++ rest.1)

  -- After activation: cleanup, then the reductions; neither stops the other.
  pub finish_converge : Db → Text → List Build → Converged
  finish_converge db s state =
      let cleaned = cleanup_schema_resources db s in
      let reduced = reduce_all cleaned.0 state in
      activated reduced.0 (elim (cleaned.1) [ some e ↦ e ∷ reduced.1 | none ↦ reduced.1 ])

  abbrev pub targets_of : List Build → List (ℕ × ℤ)
  targets_of = map (λ b. (b.id, b.instance_count))

  pub activate_state : Db → Text → List Build → List ℕ → Converged
  activate_state db s state created =
      let activation = activate_schema_builds db s (targets_of state) in
      elim (activation.1) [
        | some e ↦ fail_before_activation activation.0 created e
        | none ↦ finish_converge activation.0 s state
      ]

  -- convergeSchema, for the groups of entries that the definition asks for.
  pub converge_schema : Db → Text → List (List Build) → Converged
  converge_schema db s groups =
      if not (schema_exists db s)
      then failed_before db (unknown_schema s ∷ [])
      else (let (db', staged) = stage_groups db groups in
          let state = flatten staged in
          let generated = generate_groups db' staged in
          elim (generated.1) [
            | some e ↦ fail_before_activation generated.0 [] e
            | none ↦
                let (db'', created, failed) = scale_all generated.0 state [] in
                elim failed [
                  | some e ↦ fail_before_activation db'' created e
                  | none ↦ activate_state db'' s state created
                ]
          ])
