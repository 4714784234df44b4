-- ===== src/Migrations/Backup.antt =====
-- A database is migrated only after a backup, and a migration that fails leaves the latch.
use cmgr.Common.{
  ℕ, zero, suc, ◌+◌, ◌≤◌, ◌<◌, ◌≡◌, refl, ap, ◌∙◌, ◌⊎◌, inl, inr, Bool, true, false, ◌&&◌, none,
  some, ◌∷◌, ltb, arith, In, Bool-cases, Option-cases,
}
use cmgr.Migrations.{
  current_version, Disk, Statements, Removal, removed, kept, unsynced, Host, run_migrations,
  migrated, ensure_database_schema, remove_latch, migrate_latched, init_database,
}

module _ {D : Type 0} (statements : Statements D) where
  open statements use {to_v1, to_v2, create, valid}

  -- With fuel for the versions that are missing, a run without an error ends at the current one.
  run_migrations_current :
      (n v : ℕ) (d : D)
      → v ≤ 2
      → 2 ≤ v + n
      → (run_migrations statements n v d).2 ≡ none
      → (run_migrations statements n v d).0 ≡ 2
  unfolding run_migrations
  run_migrations_current zero v d a b h = omega arith
  run_migrations_current (suc n) zero d a b h = elim (Option-cases (to_v1 d)) [
    | inl e ↦ cc (rw (e, run_migrations) at h)
    | inr (d', e) ↦
        rw (e, run_migrations)
          (run_migrations_current n 1 d' (omega arith) (omega arith) (rw (e, run_migrations) at h))
  ]
  run_migrations_current (suc n) (suc zero) d a b h = elim (Option-cases (to_v2 d)) [
    | inl e ↦ cc (rw (e, run_migrations) at h)
    | inr (d', e) ↦
        rw (e, run_migrations)
          (run_migrations_current n 2 d' (omega arith) (omega arith) (rw (e, run_migrations) at h))
  ]
  run_migrations_current (suc n) (suc (suc zero)) d a b h = refl
  run_migrations_current (suc n) (suc (suc (suc v))) d a b h = absurd (omega arith)

  -- The tables are those of the current version and pass its check.
  abbrev pub IsCurrent : Disk D → Type 0
  IsCurrent disk = (disk.version ≡ 2) × ((d : D) × (disk.tables ≡ some d) × (valid d ≡ true))

  pub migrated_outcome :
      (disk : Disk D) (d : D)
      → disk.version ≤ 2
      → ((migrated statements disk d).1 ≡ none)
      → IsCurrent (migrated statements disk d).0
  unfolding migrated
  migrated_outcome disk d b h =
      let run = run_migrations statements current_version disk.version d in
      elim (Option-cases run.2) [
        | inr (x, e) ↦ cc (rw (e, migrated) at h)
        | inl e ↦ elim (Bool-cases (valid run.1)) [
          | inr bad ↦ cc (rw bad at (rw (e, migrated) at h))
          | inl good ↦
              let last : run.0 ≡ 2 =
                run_migrations_current current_version disk.version d b (omega arith) e in
              rw (e, migrated) (last, (run.1, refl, good))
        ]
      ]

  migrated_frame :
      (disk : Disk D) (d : D)
      → ((migrated statements disk d).0.latch ≡ disk.latch)
        × ((migrated statements disk d).0.backups ≡ disk.backups)
  unfolding migrated
  migrated_frame disk d =
      elim (Option-cases (run_migrations statements current_version disk.version d).2) [
        | inr (x, e) ↦ rw (e, migrated) (refl, refl)
        | inl e ↦ rw (e, migrated) (refl, refl)
      ]

  pub ensure_old :
      (disk : Disk D) {d : D}
      → disk.tables ≡ some d
      → disk.version < 2
      → ensure_database_schema statements true disk ≡ migrated statements disk d
  unfolding ensure_database_schema
  ensure_old disk e b = ground (arith, e)

  ensure_kept :
      (allow : Bool) (disk : Disk D) {d : D}
      → disk.tables ≡ some d
      → (allow && ltb disk.version current_version) ≡ false
      → (ensure_database_schema statements allow disk).0 ≡ disk
  unfolding ensure_database_schema
  ensure_kept allow disk e b = ground (arith, e)

  -- What is left when the start has gone through the latch.
  abbrev Safe : Disk D → D → Disk D → Type 0
  Safe before d after =
      ((after.version ≡ before.version) × (after.tables ≡ some d))
      ⊎ (In (before.version, d) after.backups × ((after.latch ≡ true) ⊎ IsCurrent after))

  remove_latch-Safe :
      (r : Removal) (before now : Disk D) (d : D)
      → In (before.version, d) now.backups
      → IsCurrent now
      → Safe before d (remove_latch statements r now).0
  unfolding remove_latch
  remove_latch-Safe removed before now d i c = inr (i, inr c)
  remove_latch-Safe kept before now d i c = inr (i, inr c)
  remove_latch-Safe unsynced before now d i c = inr (i, inr c)

  migrated-Safe :
      (host : Host) (disk : Disk D) (d : D)
      → disk.tables ≡ some d
      → disk.version < 2
      → Safe disk d (migrate_latched statements host disk d).0
  unfolding migrate_latched
  migrated-Safe host disk d e b =
      let latched : Disk D = record disk {
        latch = true;
        backups = (disk.version, d) ∷ disk.backups;
      } in
      let started = ensure_database_schema statements true latched in
      let same : started ≡ migrated statements latched d = ensure_old latched e b in
      let stored : In (disk.version, d) started.0.backups =
        rw same (rw (migrated_frame latched d).1 (inl refl)) in
      elim (Bool-cases host.latch_written) [
        | inr w ↦ rw (w, migrate_latched) (inl (refl, e))
        | inl w ↦ elim (Bool-cases host.backed_up) [
          | inr k ↦ rw (w, migrate_latched) (rw k (inl (refl, e)))
          | inl k ↦ elim (Option-cases started.1) [
            | inr (x, f) ↦
                rw (w, migrate_latched)
                  (rw k (rw f (inr (stored, inl (rw same ((migrated_frame latched d).0))))))
            | inl f ↦
                let current : IsCurrent started.0 =
                  rw same (migrated_outcome latched d (omega arith) (rw same at f)) in
                rw (w, migrate_latched)
                  (rw k (rw f (remove_latch-Safe host.removal disk started.0 d stored current)))
          ]
        ]
      ]

  -- Starting a database with tables either leaves them, and their version, as they were; or a
  -- backup of them and their version was made, and what is there now is current and passes the
  -- check, or the latch is set, which blocks the next start.
  pub init_database_backed_up :
      (allow : Bool) (host : Host) (disk : Disk D) {d : D}
      → disk.tables ≡ some d
      → (((init_database statements allow host disk).0.version ≡ disk.version)
          × ((init_database statements allow host disk).0.tables ≡ some d))
        ⊎ (In (disk.version, d) (init_database statements allow host disk).0.backups
            × (((init_database statements allow host disk).0.latch ≡ true)
                ⊎ IsCurrent (init_database statements allow host disk).0))
  unfolding init_database
  init_database_backed_up allow host disk {d} e = elim (Bool-cases disk.latch) [
    | inl l ↦ rw (l, init_database) (inl (refl, e))
    | inr l ↦ elim (Bool-cases (allow && ltb disk.version current_version)) [
      | inl old ↦ rw (l, init_database) (rw e (rw old (migrated-Safe host disk d e (ground arith))))
      | inr new ↦
          rw (l, init_database)
            (rw e (
              rw new (
                inl (
                  ap (λ k. k.version) (ensure_kept allow disk e new),
                  ap (λ k. k.tables) (ensure_kept allow disk e new) ∙ e,
                ))))
    ]
  ]
