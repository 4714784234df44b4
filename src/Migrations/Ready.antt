-- ===== src/Migrations/Ready.antt =====
-- A start without an error leaves a database that can be used.
use cmgr.Common.{
  ◌<◌, ◌≡◌, sym, inl, inr, subst, Bool, true, ◌&&◌, none, some, ◌∷◌, ◌==◌, ltb, arith, Bool-cases,
  Option-cases,
}
use cmgr.Migrations.{
  current_version, Disk, Statements, Removal, removed, kept, unsynced, Host, ensure_database_schema,
  remove_latch, migrate_latched, init_database,
}
use cmgr.Migrations.Backup.{IsCurrent, ensure_old, migrated_outcome}

module _ {D : Type 0} (statements : Statements D) where
  open statements use {create}

  ensure_migrated :
      (disk : Disk D) {d : D}
      → disk.tables ≡ some d
      → disk.version < 2
      → (ensure_database_schema statements true disk).1 ≡ none
      → IsCurrent statements (ensure_database_schema statements true disk).0
  ensure_migrated disk {d} e below h =
      let same = ensure_old statements disk e below in
      rw same (migrated_outcome statements disk d (omega arith) (rw same at h))

  ensure-IsCurrent :
      (allow : Bool) (disk : Disk D)
      → (ensure_database_schema statements allow disk).1 ≡ none
      → IsCurrent statements (ensure_database_schema statements allow disk).0
  unfolding ensure_database_schema
  ensure-IsCurrent allow disk h = elim (Bool-cases (ltb current_version disk.version)) [
    | inl newer ↦ cc (rw (newer, ensure_database_schema) at h)
    | inr known ↦ elim (Option-cases disk.tables) [
      | inl e ↦ elim (Option-cases create) [
        | inl f ↦ absurd (ground (arith, h, e, f))
        | inr (d, f) ↦
            (ground (arith, h, e, f), (d, ground (arith, h, e, f), ground (arith, h, e, f)))
      ]
      | inr (d, e) ↦ elim (Bool-cases (disk.version == current_version)) [
        | inl now ↦ (ground (arith, h, e), (d, ground (arith, h, e), ground (arith, h, e)))
        | inr old ↦ elim (Bool-cases allow) [
          | inr shared ↦ absurd (ground (arith, h, e, old, known, shared))
          | inl alone ↦
              let below : disk.version < 2 = ground (arith, old, known) in
              subst (λ a. IsCurrent statements (ensure_database_schema statements a disk).0)
                (sym alone)
                (ensure_migrated disk e below
                  (subst (λ a. (ensure_database_schema statements a disk).1 ≡ none) alone h))
        ]
      ]
    ]
  ]

  remove_latch-IsCurrent :
      (r : Removal) (now : Disk D)
      → IsCurrent statements now
      → IsCurrent statements (remove_latch statements r now).0
  unfolding remove_latch
  remove_latch-IsCurrent removed now c = c
  remove_latch-IsCurrent kept now c = c
  remove_latch-IsCurrent unsynced now c = c

  latched_ready :
      (host : Host) (disk : Disk D) (d : D)
      → (migrate_latched statements host disk d).1 ≡ none
      → IsCurrent statements (migrate_latched statements host disk d).0
  unfolding migrate_latched
  latched_ready host disk d h =
      let latched : Disk D = record disk {
        latch = true;
        backups = (disk.version, d) ∷ disk.backups;
      } in
      let started = ensure_database_schema statements true latched in
      elim (Bool-cases host.latch_written) [
        | inr w ↦ cc (rw (w, migrate_latched) at h)
        | inl w ↦ elim (Bool-cases host.backed_up) [
          | inr k ↦ cc (rw k at (rw (w, migrate_latched) at h))
          | inl k ↦ elim (Option-cases started.1) [
            | inr (x, f) ↦ cc (rw f at (rw k at (rw (w, migrate_latched) at h)))
            | inl f ↦
                rw (w, migrate_latched)
                  (rw k (
                    rw f (
                      remove_latch-IsCurrent host.removal started.0
                        (ensure-IsCurrent true latched f))))
          ]
        ]
      ]

  -- A start without an error leaves a database of the current version that passes the check, whether
  -- it was created, migrated or found so.
  pub init_database_ready :
      (allow : Bool) (host : Host) (disk : Disk D)
      → (init_database statements allow host disk).1 ≡ none
      → IsCurrent statements (init_database statements allow host disk).0
  unfolding init_database
  init_database_ready allow host disk h = elim (Bool-cases disk.latch) [
    | inl l ↦ cc (rw (l, init_database) at h)
    | inr l ↦ elim (Option-cases disk.tables) [
      | inl e ↦
          rw (l, init_database)
            (rw e (ensure-IsCurrent allow disk (rw e at (rw (l, init_database) at h))))
      | inr (d, e) ↦ elim (Bool-cases (allow && ltb disk.version current_version)) [
        | inl old ↦
            rw (l, init_database)
              (rw e (
                rw old
                  (latched_ready host disk d (rw old at (rw e at (rw (l, init_database) at h))))))
        | inr new ↦
            rw (l, init_database)
              (rw e (
                rw new
                  (ensure-IsCurrent allow disk (rw new at (rw e at (rw (l, init_database) at h))))))
      ]
    ]
  ]
