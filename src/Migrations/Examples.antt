-- ===== src/Migrations/Examples.antt =====
-- A database of version 0 whose second migration fails.
use cmgr.Common.{ℕ, ◌≡◌, ◌⊎◌, refl, suc, true, false, none, some, [], In}
use cmgr.Migrations.{
  Disk, Statements, Host, removed, init_database, migrate_latched, ensure_database_schema, migrated,
  run_migrations, remove_latch,
}
use cmgr.Migrations.Backup.{IsCurrent, init_database_backed_up}
use cmgr.Migrations.Ready.{init_database_ready}

-- The tables are counted; the step to version 2 does not go through.
abbrev stuck : Statements ℕ
stuck = record { to_v1 = λ d. some (suc d); to_v2 = λ d. none; create = some 9; valid = λ d. true }

abbrev working : Host
working = record { latch_written = true; latch_left = true; backed_up = true; removal = removed }

abbrev old_disk : Disk ℕ
old_disk = record { version = 0; tables = some 7; latch = false; backups = [] }

init_database_backed_up_example :
    (((init_database stuck true working old_disk).0.version ≡ 0)
      × ((init_database stuck true working old_disk).0.tables ≡ some 7))
    ⊎ (In (0, 7) (init_database stuck true working old_disk).0.backups
        × (((init_database stuck true working old_disk).0.latch ≡ true)
            ⊎ IsCurrent stuck (init_database stuck true working old_disk).0))
init_database_backed_up_example = init_database_backed_up stuck true working old_disk refl

abbrev sound : Statements ℕ
sound = record stuck { to_v2 = λ d. some (suc d) }

starts : (init_database sound true working old_disk).1 ≡ none
unfolding init_database migrate_latched ensure_database_schema migrated run_migrations remove_latch
starts = refl

init_database_ready_example : IsCurrent sound (init_database sound true working old_disk).0
init_database_ready_example = init_database_ready sound true working old_disk starts
