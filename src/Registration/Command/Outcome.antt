-- ===== src/Registration/Command/Outcome.antt =====
-- How a run of the registration command leaves the file: registered, or as it was.
use cmgr.Common.{
  ◌≡◌, ◌≢◌, refl, sym, ◌∙◌, inl, inr, Bool, true, false, not, ◌&&◌, arith, Text, Bool-cases, Result,
  ok, err,
}
use cmgr.Registration.{Entry, Registered, kept, changed, failed}
use cmgr.Registration.Spares.{Spares, register_runtime-Spares}
use cmgr.Registration.Command.{
  Flags, Parsed, help, bad_flags, flags, Machine, Restoring, restored, not_replaced, not_durable,
  Host, Report, exit_code, Snapshot, entry_of, restore_file, reload_docker, reload_restored,
  rollback_registration, prepare, load_registration, apply_registration, run_prepared,
  run_register_command,
}
use cmgr.Registration.Command.Checks.{prepare-IsPrepared}

-- A run that fails leaves the file as it was.
abbrev Undone : Machine → Machine × Report → Type 0
Undone m r = exit_code r.1 ≢ 0 → r.0.entry ≡ m.entry

restore_file-entry :
    (r : Restoring) (s : Snapshot) (e : Entry)
    → r ≢ not_replaced
    → (restore_file r s e).0 ≡ entry_of s
restore_file-entry restored s e h = refl
restore_file-entry not_replaced s e h = absurd (h refl)
restore_file-entry not_durable s e h = refl

reload_restored-entry :
    (host : Host) (m : Machine) (r : Entry × Bool) → (reload_restored host m r).0.entry ≡ r.0
reload_restored-entry host m (entry, false) = refl
reload_restored-entry host m (entry, true) = elim (Bool-cases host.reloads_again) [
  | inr b ↦ rw b refl
  | inl b ↦ rw b refl
]

rollback_registration-entry :
    (host : Host) (original : Snapshot) (is_new : Bool) (m : Machine)
    → host.restoring ≢ not_replaced
    → (is_new ≡ false → m.entry ≡ entry_of original)
    → (rollback_registration host original is_new m).0.entry ≡ entry_of original
unfolding rollback_registration
rollback_registration-entry host original true m r same =
    reload_restored-entry host m _ ∙ restore_file-entry host.restoring original m.entry r
rollback_registration-entry host original false m r same =
    reload_restored-entry host m (m.entry, true) ∙ same refl

load_registration-Undone :
    (host : Host) (f : Flags) (original : Snapshot) (is_new : Bool) (before m : Machine)
    → host.restoring ≢ not_replaced
    → entry_of original ≡ before.entry
    → (is_new ≡ false → m.entry ≡ entry_of original)
    → Undone before (load_registration host f original is_new m)
unfolding load_registration rollback_registration exit_code
load_registration-Undone host f original is_new before m r o same = elim (Bool-cases f.no_reload) [
  | inl n ↦ rw n (λ x. absurd (x refl))
  | inr n ↦ elim (Bool-cases host.reloads) [
    | inr l ↦
        rw (n, load_registration)
          (rw l (λ x. rollback_registration-entry host original is_new m r same ∙ o))
    | inl l ↦ elim (Bool-cases host.adopted) [
      | inl a ↦ rw (n, load_registration) (rw l (rw a (λ x. absurd (x refl))))
      | inr a ↦
          rw (n, load_registration)
            (rw l (
              rw a (λ x.
                rollback_registration-entry host original is_new (reload_docker true m) r same
                ∙ o)))
    ]
  ]
]

apply_registration-Undone :
    (host : Host) (f : Flags) (original : Snapshot) (m : Machine) (r : Entry × Registered)
    → host.restoring ≢ not_replaced
    → host.files.synced ≡ true
    → entry_of original ≡ m.entry
    → Spares host.files m.entry r
    → Undone m (apply_registration host f original m r)
unfolding apply_registration exit_code
apply_registration-Undone host f original m (entry, failed e) r s o spared = λ x. spared s
apply_registration-Undone host f original m (entry, kept) r s o spared =
    load_registration-Undone host f original false m _ r o (λ q. spared ∙ sym o)
apply_registration-Undone host f original m (entry, changed) r s o spared =
    elim (Bool-cases (host.can_validate && not host.valid)) [
      | inr v ↦
          rw (v, apply_registration)
            (load_registration-Undone host f original true m _ r o
              (λ q. absurd (ground (arith, q))))
      | inl v ↦ rw v (λ x. restore_file-entry host.restoring original entry r ∙ o)
    ]

run_prepared-Undone :
    (host : Host) (f : Flags) (m : Machine) (p : Result _ (Text × Text × Snapshot))
    → host.restoring ≢ not_replaced
    → host.files.synced ≡ true
    → prepare host f m.entry ≡ p
    → Undone m (run_prepared host f m p)
run_prepared-Undone host f m (err e) r s h = λ x. refl
run_prepared-Undone host f m (ok (runtime, runc, original)) r s h =
    apply_registration-Undone host f original m _ r s (prepare-IsPrepared host f m.entry h).saved
      (register_runtime-Spares host.files m.entry runtime runc f.force)

-- A run that fails leaves the registration file as it was, whatever failed: the checks, the
-- registration, Docker's validation, the reload, or Docker's adoption. The condition is that the
-- directory of the file is synced after the write, and that the old file can be put back.
pub run_register_command-undone :
    (host : Host) (arguments : Parsed) (m : Machine)
    → host.restoring ≢ not_replaced
    → host.files.synced ≡ true
    → exit_code (run_register_command host arguments m).1 ≢ 0
    → (run_register_command host arguments m).0.entry ≡ m.entry
unfolding run_register_command
run_register_command-undone host help m r s x = refl
run_register_command-undone host bad_flags m r s x = refl
run_register_command-undone host (flags f) m r s x = run_prepared-Undone host f m _ r s refl x
