-- ===== src/Registration/Command/Safety.antt =====
-- What the registration command reports is what it did, and a failed run leaves the file as it was.
use cmgr.Common.{
  ◌≡◌, refl, ◌∙◌, inl, inr, Bool, true, false, not, ◌&&◌, arith, Text, Bool-cases, Result, ok, err,
}
use cmgr.Registration.{Entry, Registered, kept, changed, failed}
use cmgr.Registration.Spares.{register_runtime-kept}
use cmgr.Registration.Command.Checks.{prepare-IsPrepared}
use cmgr.Registration.Command.{
  Flags, Parsed, help, bad_flags, flags, Machine, Restoring, restored, not_replaced, not_durable,
  Host, Refusal, Report, usage, bad_usage, refused, not_registered, rejected, not_reloaded,
  not_adopted, registered, Snapshot, entry_of, restore_file, reload_docker, reload_restored,
  rollback_registration, prepare, load_registration, reject_configuration, apply_registration,
  run_prepared, run_register_command,
}

-- What a report says of the machine before and after. A rollback that is not reported as done says
-- nothing.
abbrev pub IsTrue : Report → Machine → Machine → Type 0
IsTrue usage m m' = m' ≡ m
IsTrue bad_usage m m' = m' ≡ m
IsTrue (refused r) m m' = m' ≡ m
IsTrue (not_registered e) m m' = m'.loaded ≡ m.loaded
IsTrue (rejected true) m m' = (m'.entry ≡ m.entry) × (m'.loaded ≡ m.loaded)
IsTrue (not_reloaded true) m m' = (m'.entry ≡ m.entry) × (m'.loaded ≡ m.entry)
IsTrue (not_adopted true) m m' = (m'.entry ≡ m.entry) × (m'.loaded ≡ m.entry)
IsTrue (rejected false) m m' = Unit
IsTrue (not_reloaded false) m m' = Unit
IsTrue (not_adopted false) m m' = Unit
IsTrue (registered is_new true) m m' = m'.loaded ≡ m'.entry
IsTrue (registered is_new false) m m' = m'.loaded ≡ m.loaded

restore_file-eq :
    (r : Restoring) (s : Snapshot) (e : Entry)
    → (restore_file r s e).1 ≡ true
    → (restore_file r s e).0 ≡ entry_of s
restore_file-eq restored s e h = refl
restore_file-eq not_replaced s e h = absurd (ground (arith, h))
restore_file-eq not_durable s e h = refl

reload_restored-IsTrue :
    (host : Host) (before m : Machine) (r : Entry × Bool)
    → (r.1 ≡ true → r.0 ≡ before.entry)
    → IsTrue (not_reloaded (reload_restored host m r).1) before (reload_restored host m r).0
reload_restored-IsTrue host before m (entry, false) h = tt
reload_restored-IsTrue host before m (entry, true) h = elim (Bool-cases host.reloads_again) [
  | inr b ↦ rw b tt
  | inl b ↦ rw b (h refl, h refl)
]

-- Both reports of a rollback say the same.
rollback-IsTrue :
    (host : Host) (original : Snapshot) (is_new : Bool) (before m : Machine)
    → entry_of original ≡ before.entry
    → (is_new ≡ false → m.entry ≡ before.entry)
    → let r = rollback_registration host original is_new m in IsTrue (not_reloaded r.1) before r.0
unfolding rollback_registration
rollback-IsTrue host original true before m o same =
    reload_restored-IsTrue host before m _
      (λ d. restore_file-eq host.restoring original m.entry d ∙ o)
rollback-IsTrue host original false before m o same =
    reload_restored-IsTrue host before m (m.entry, true) (λ d. same refl)

not_adopted-IsTrue :
    (r : Machine × Bool) (before : Machine)
    → IsTrue (not_reloaded r.1) before r.0
    → IsTrue (not_adopted r.1) before r.0
not_adopted-IsTrue (m, true) before h = h
not_adopted-IsTrue (m, false) before h = tt

load_registration-IsTrue :
    (host : Host) (f : Flags) (original : Snapshot) (is_new : Bool) (before m : Machine)
    → entry_of original ≡ before.entry
    → (is_new ≡ false → m.entry ≡ before.entry)
    → m.loaded ≡ before.loaded
    → let r = load_registration host f original is_new m in IsTrue r.1 before r.0
unfolding load_registration rollback_registration
load_registration-IsTrue host f original is_new before m o same l = elim (Bool-cases f.no_reload) [
  | inl n ↦ rw n l
  | inr n ↦ elim (Bool-cases host.reloads) [
    | inr r ↦
        rw (n, load_registration) (rw r (rollback-IsTrue host original is_new before m o same))
    | inl r ↦ elim (Bool-cases host.adopted) [
      | inl a ↦ rw (n, load_registration) (rw r (rw a refl))
      | inr a ↦
          rw (n, load_registration)
            (rw r (
              rw a (
                not_adopted-IsTrue _ before
                  (rollback-IsTrue host original is_new before (reload_docker true m) o same))))
    ]
  ]
]

reject_configuration-IsTrue :
    (m m' : Machine) (r : Entry × Bool)
    → (r.1 ≡ true → r.0 ≡ m.entry)
    → m'.loaded ≡ m.loaded
    → let s = reject_configuration m' r in IsTrue s.1 m s.0
reject_configuration-IsTrue m m' (entry, true) same l = (same refl, l)
reject_configuration-IsTrue m m' (entry, false) same l = tt

apply_registration-IsTrue :
    (host : Host) (f : Flags) (original : Snapshot) (m : Machine) (r : Entry × Registered)
    → entry_of original ≡ m.entry
    → (r.1 ≡ kept → r.0 ≡ m.entry)
    → let s = apply_registration host f original m r in IsTrue s.1 m s.0
unfolding apply_registration
apply_registration-IsTrue host f original m (entry, failed e) o same = refl
apply_registration-IsTrue host f original m (entry, kept) o same =
    load_registration-IsTrue host f original false m (record m { entry = entry }) o (λ q. same refl)
      refl
apply_registration-IsTrue host f original m (entry, changed) o same =
    elim (Bool-cases (host.can_validate && not host.valid)) [
      | inr v ↦
          rw (v, apply_registration)
            (load_registration-IsTrue host f original true m (record m { entry = entry }) o
              (λ q. absurd (ground (arith, q))) refl)
      | inl v ↦ rw v (
          reject_configuration-IsTrue m (record m { entry = entry })
            (restore_file host.restoring original entry)
            (λ d. restore_file-eq host.restoring original entry d ∙ o) refl)
    ]

run_prepared-IsTrue :
    (host : Host) (f : Flags) (m : Machine) (p : Result Refusal (Text × Text × Snapshot))
    → prepare host f m.entry ≡ p
    → let s = run_prepared host f m p in IsTrue s.1 m s.0
run_prepared-IsTrue host f m (err r) h = refl
run_prepared-IsTrue host f m (ok (runtime, runc, original)) h =
    let prepared = prepare-IsPrepared host f m.entry h in
    apply_registration-IsTrue host f original m _ prepared.saved
      (register_runtime-kept host.files m.entry runtime runc f.force)

-- What the registration command reports is true. A refused run, a usage error or a help text changes
-- nothing; when the previous configuration is reported as restored, the file is as it was and Docker
-- was not told of another one since; when Docker is reported as reloaded, it has loaded the file.
pub run_register_command-IsTrue :
    (host : Host) (arguments : Parsed) (m : Machine)
    → let s = run_register_command host arguments m in IsTrue s.1 m s.0
unfolding run_register_command
run_register_command-IsTrue host help m = refl
run_register_command-IsTrue host bad_flags m = refl
run_register_command-IsTrue host (flags f) m = run_prepared-IsTrue host f m _ refl
