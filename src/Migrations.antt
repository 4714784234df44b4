-- ===== src/Migrations.antt =====
-- The start of the database in cmgr/database.go: initDatabaseWithSchemaChanges with the migration
-- latch and the backup, ensureDatabaseSchemaWithChanges, and migrateDatabase. The SQL statements and
-- the files are parameters.
pub mod Backup
pub mod Ready
mod Examples
use cmgr.Common.{
  ℕ, zero, suc, Bool, true, false, not, ◌&&◌, Option, none, some, List, [], ◌∷◌, ◌==◌, ltb, leb,
  if◌then◌else◌,
}

abbrev pub current_version : ℕ
current_version = 2

pub data MigrationError : Type 0 where
  newer_version no_tables no_migration : ℕ → MigrationError
  migration_failed : (from to : ℕ) → MigrationError
  needs_exclusive creation_failed invalid_schema unfinished : MigrationError
  blocked latch_failed backup_failed unlatch_failed : MigrationError

-- A database file, the latch beside it, and the backups with their versions. `D` is what the tables
-- hold, and `none` a database without tables.
pub record Disk (D : Type 0) : Type 0 where
  pub version : ℕ
  pub tables : Option D
  pub latch : Bool
  pub backups : List (ℕ × D)

-- What the statements do: the two migrations, a new schema, and the check of the current one.
pub record Statements (D : Type 0) : Type 0 where
  pub to_v1 : D → Option D
  pub to_v2 : D → Option D
  pub create : Option D
  pub valid : D → Bool

pub data Removal : Type 0 where
  removed : Removal
  kept : Removal  -- the removal failed
  unsynced : Removal  -- removed, but the directory could not be synced

-- What the file system answers. A latch that could not be written may be left all the same.
pub record Host : Type 0 where
  pub latch_written : Bool
  pub latch_left : Bool
  pub backed_up : Bool
  pub removal : Removal

module _ {D : Type 0} (statements : Statements D) where
  open statements use {to_v1, to_v2, create, valid}

  -- databaseMigrations.
  abbrev pub database_migrations : ℕ → Option (ℕ × (D → Option D))
  database_migrations zero = some (1, to_v1)
  database_migrations (suc zero) = some (2, to_v2)
  database_migrations (suc (suc n)) = none

  -- The loop of migrateDatabase on fuel; each migration is a transaction.
  pub run_migrations : ℕ → ℕ → D → ℕ × D × Option MigrationError
  run_migrations zero v d = (v, d, if ltb v current_version then some unfinished else none)
  run_migrations (suc n) v d = elim (ltb v current_version) [
    | false ↦ (v, d, none)
    | true ↦ elim (database_migrations v) [
      | none ↦ (v, d, some (no_migration v))
      | some (to, apply) ↦ elim (leb to v) [
        | true ↦ (v, d, some (no_migration v))
        | false ↦ elim (apply d) [
          | none ↦ (v, d, some (migration_failed v to))
          | some d' ↦ run_migrations n to d'
        ]
      ]
    ]
  ]

  -- validateCurrentDatabaseSchema.
  abbrev pub validated : Disk D → D → Disk D × Option MigrationError
  validated disk d = (disk, if valid d then none else some invalid_schema)

  pub migrated : Disk D → D → Disk D × Option MigrationError
  migrated disk d =
      let run = run_migrations current_version disk.version d in
      let disk' = record disk { version = run.0; tables = some run.1 } in
      elim (run.2) [ some e ↦ (disk', some e) | none ↦ validated disk' run.1 ]

  pub ensure_database_schema : Bool → Disk D → Disk D × Option MigrationError
  ensure_database_schema allow disk =
      if ltb current_version disk.version
      then (disk, some (newer_version disk.version))
      else elim (disk.tables) [
        | none ↦
            if not (disk.version == 0)
            then (disk, some (no_tables disk.version))
            else if not allow
            then (disk, some needs_exclusive)
            else elim create [
              | none ↦ (disk, some creation_failed)
              | some d ↦ validated (record disk { version = current_version; tables = some d }) d
            ]
        | some d ↦
            if disk.version == current_version
            then validated disk d
            else if not allow
            then (disk, some needs_exclusive)
            else migrated disk d
      ]

  pub remove_latch : Removal → Disk D → Disk D × Option MigrationError
  remove_latch removed disk = (record disk { latch = false }, none)
  remove_latch kept disk = (disk, some unlatch_failed)
  remove_latch unsynced disk = (record disk { latch = false }, some unlatch_failed)

  -- The start of a database that has to be migrated, with the tables `d`.
  pub migrate_latched : Host → Disk D → D → Disk D × Option MigrationError
  migrate_latched host disk d =
      let latched = record disk { latch = true } in
      let ensured =
        ensure_database_schema true
          (record latched { backups = (disk.version, d) ∷ disk.backups }) in
      if not host.latch_written
      then (record disk { latch = host.latch_left }, some latch_failed)
      else if not host.backed_up
      then (latched, some backup_failed)
      else elim (ensured.1) [
        | some e ↦ (ensured.0, some e)
        | none ↦ remove_latch host.removal ensured.0
      ]

  pub init_database : Bool → Host → Disk D → Disk D × Option MigrationError
  init_database allow host disk = if disk.latch then (disk, some blocked) else elim (disk.tables) [
    | none ↦ ensure_database_schema allow disk
    | some d ↦
        if allow && ltb disk.version current_version
        then migrate_latched host disk d
        else ensure_database_schema allow disk
  ]
