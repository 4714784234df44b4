-- ===== src/Schemas/Api.antt =====
-- The methods of Manager in cmgr/api.go on builds, instances and schemas, each as it runs once it
-- holds the operation lock: Build, Start, Stop, Destroy, CreateSchema, UpdateSchema, DeleteSchema.
use cmgr.Common.{
  ℕ, Bool, true, false, not, ◌&&◌, Option, none, some, List, [], ◌∷◌, ◌++◌, map, if◌then◌else◌, ℤ,
  int_eq, Text, text_eq, any, length, Result, ok, err,
}
use cmgr.Store.{
  Db, Build, StoreError, unknown_build, unknown_instance, unknown_schema, conflict,
  dynamic_instances, locked, find_build, find_instance, schema_exists, schema_is_manual,
  create_schema_record, delete_schema_record, delete_schema_record_if_empty, lock_schema,
}
use cmgr.Validation.{
  Invalid, Schema, manual_schema_prefix, validate_flag_format, validate_seeds, validate_seed_limit,
  validate_schema_definition, check_limits, ◌or_else◌,
}
use cmgr.Schemas.{
  Docker, new_instance, stop_instance, destroy_images, generate_builds, cleanup_schema_resources,
  Converged, failed_before, activated, converge_schema,
}

pub data ApiError : Type 0 where
  no_seeds : ApiError
  invalid : Invalid → ApiError
  failed : StoreError → ApiError

module _ (docker : Docker) where
  unfoldable pub start : Db → ℕ → Db × Result StoreError ℕ
  start db n = elim (find_build n db.builds) [
    | none ↦ (db, err (unknown_build n))
    | some b ↦
        if int_eq b.instance_count dynamic_instances
        then new_instance docker db b
        else (db, err conflict)
  ]

  unfoldable pub stop : Db → ℕ → Db × Option StoreError
  stop db n = elim (find_instance n db.instances) [
    | none ↦ (db, some (unknown_instance n))
    | some i ↦ elim (find_build i.build db.builds) [
      | none ↦ (db, some (unknown_build i.build))
      | some b ↦
          if int_eq b.instance_count dynamic_instances
          then stop_instance docker db i.id
          else (db, some conflict)
    ]
  ]

  pub destroy : Db → ℕ → Db × Option StoreError
  destroy db n = elim (find_build n db.builds) [
    | none ↦ (db, some (unknown_build n))
    | some b ↦ elim (schema_is_manual db b.schema) [
      | err e ↦ (db, some e)
      | ok false ↦ (db, some conflict)
      | ok true ↦
          let step = destroy_images docker db n in
          elim (step.1) [
            | some e ↦ (step.0, some e)
            | none ↦ (delete_schema_record_if_empty step.0 b.schema, none)
          ]
    ]
  ]

  -- The rows that Build and convergeSchema ask for; 0 is the id of a build without a row.
  abbrev pub wanted_build : Text → Text → Text → ℤ → ℤ → Build
  wanted_build schema challenge format instances seed = record {
    id = 0;
    flag = [];
    seed = seed;
    format = format;
    challenge = challenge;
    schema = schema;
    instance_count = instances;
  }

  -- getSchemaBuilds.
  pub ids_of_schema : Text → List Build → List ℕ
  ids_of_schema s [] = []
  ids_of_schema s (b ∷ bs) =
      let rest = ids_of_schema s bs in if text_eq b.schema s then b.id ∷ rest else rest

  -- Every build of the failed request is tried; what fails is only reported.
  pub destroy_each : Db → List ℕ → Db
  destroy_each db [] = db
  destroy_each db (n ∷ ns) = destroy_each (destroy_images docker db n).0 ns

  abbrev built : Text → Db × Result StoreError (List Build) → Db × Result ApiError (List Build)
  built schema (db, ok bs) = (db, ok bs)
  built schema (db, err e) = (
    delete_schema_record_if_empty (destroy_each db (ids_of_schema schema db.builds)) schema,
    err (failed e),
  )

  -- Build; `suffix` is the random identifier and `limit` the policy's number of seeds.
  pub build : ℕ → Db → Text → Text → List ℤ → Text → Db × Result ApiError (List Build)
  build limit db suffix challenge seeds format =
      let schema = manual_schema_prefix ++ suffix in
      let wanted = map (wanted_build schema challenge format dynamic_instances) seeds in
      elim (seeds) [
        | [] ↦ (db, err no_seeds)
        | seed ∷ more ↦
            elim (validate_flag_format format
              or_else validate_seeds (seed ∷ more)
              or_else validate_seed_limit limit (length (seed ∷ more))) [
                | some e ↦ (db, err (invalid e))
                | none ↦ elim (create_schema_record db schema true) [
                  | err e ↦ (db, err (failed e))
                  | ok db' ↦ built schema (generate_builds docker db' wanted)
                ]
              ]
      ]

  -- The groups of entries of a schema, a group for each challenge.
  pub groups_of : Schema → List (List Build)
  groups_of s =
      map (λ c. map (wanted_build s.name (c.0) s.flag_format (c.1).instance_count) (c.1).seeds)
        s.challenges

  abbrev checked : ℕ → Schema → Option Invalid
  checked limit s = validate_schema_definition (some s) or_else check_limits limit s.challenges

  pub update_schema : ℕ → Db → Schema → Db × List ApiError
  update_schema limit db s = elim (checked limit s) [
    | some e ↦ (db, invalid e ∷ [])
    | none ↦
        if schema_exists db s.name
        then outcome (converge_schema docker db s.name (groups_of s))
        else (db, failed (unknown_schema s.name) ∷ [])
  ]
    where
      outcome : Converged → Db × List ApiError
      outcome (failed_before db' es) = (db', map failed es)
      outcome (activated db' es) = (db', map failed es)

  -- Builds of a schema that are not LOCKED.
  pub active_builds : Text → List Build → Bool
  active_builds s bs = any (λ b. text_eq b.schema s && not (int_eq b.instance_count locked)) bs

  -- What CreateSchema does once convergeSchema has reported errors: a schema in which nothing became
  -- active is removed again.
  pub abandon_schema : Db → Text → List ApiError → Db × List ApiError
  abandon_schema db s errs =
      let cleaned = cleanup_schema_resources docker db s in
      if active_builds s db.builds then (db, errs) else elim (cleaned.1) [
        | some e ↦ (cleaned.0, errs ++ failed e ∷ [])
        | none ↦ elim (delete_schema_record cleaned.0 s) [
          | err e ↦ (cleaned.0, errs ++ failed e ∷ [])
          | ok db' ↦ (db', errs)
        ]
      ]

  pub create_schema : ℕ → Db → Schema → Db × List ApiError
  create_schema limit db s = elim (checked limit s) [
    | some e ↦ (db, invalid e ∷ [])
    | none ↦
        if schema_exists db s.name
        then (db, failed conflict ∷ [])
        else elim (create_schema_record db s.name false) [
          | err e ↦ (db, failed e ∷ [])
          | ok db' ↦ outcome (converge_schema docker db' s.name (groups_of s))
        ]
  ]
    where
      outcome : Converged → Db × List ApiError
      outcome (failed_before db' es) = abandon_schema db' s.name (map failed es)
      outcome (activated db' []) = (db', [])
      outcome (activated db' (e ∷ es)) = abandon_schema db' s.name (map failed (e ∷ es))

  pub delete_schema : Db → Text → Db × Option StoreError
  delete_schema db s = elim (schema_is_manual db s) [
    | err e ↦ (db, some e)
    | ok true ↦ (db, some conflict)
    | ok false ↦
        let cleaned = cleanup_schema_resources docker (lock_schema db s) s in
        elim (cleaned.1) [
          | some e ↦ (cleaned.0, some e)
          | none ↦ elim (delete_schema_record cleaned.0 s) [
            | err e ↦ (cleaned.0, some e)
            | ok db' ↦ (db', none)
          ]
        ]
  ]
