-- ===== src/Registration/Command/Success.antt =====
-- What a successful run of the registration command has established.
use cmgr.Common.{
  ◌≡◌, subst, refl, sym, ap, ◌∙◌, inl, inr, Bool, true, false, not, ◌&&◌, some, arith, Text,
  Bool-cases, Result, ok, err,
}
use cmgr.Registration.{Entry, Registered, kept, changed, failed, register_runtime}
use cmgr.Registration.Merge.{IsMerged, register_runtime-IsMerged}
use cmgr.Registration.Again.{IsRegistered, register_runtime-IsRegistered}
use cmgr.Registration.Spares.{Spares, register_runtime-Spares}
use cmgr.Registration.Command.{
  Flags, flags, Machine, Host, Refusal, registered, Snapshot, is_privileged, prepare,
  load_registration, apply_registration, run_prepared, run_register_command,
}
use cmgr.Registration.Command.Checks.{IsPrepared, prepare-IsPrepared}

-- What a run that registered the runtime did.
pub record IsDone (host : Host) (f : Flags) (m m' : Machine) (is_new : Bool) : Type 0 where
  pub runtime : Text
  pub runc : Text
  pub runtime_found : host.runtime ≡ some runtime
  pub runc_found : host.runc ≡ some runc
  pub by_root : is_privileged host f ≡ true → host.root ≡ true
  pub trusts :
      is_privileged host f ≡ true → (host.trusted runtime ≡ true) × (host.trusted runc ≡ true)
  pub merged : is_new ≡ true → IsMerged runtime runc m.entry m'.entry
  pub there : is_new ≡ false → IsRegistered runtime runc m.entry × (m'.entry ≡ m.entry)
  pub accepted : is_new ≡ true → (host.can_validate && not host.valid) ≡ false

load_registration-registered :
    (host : Host) (f : Flags) (original : Snapshot) (is_new : Bool) (m : Machine) {m' : Machine}
    {new reloaded : Bool}
    → load_registration host f original is_new m ≡ (m', registered new reloaded)
    → (m'.entry ≡ m.entry) × (new ≡ is_new)
unfolding load_registration
load_registration-registered host f original is_new m h = elim (Bool-cases f.no_reload) [
  | inl n ↦ ground (arith, h, n)
  | inr n ↦ elim (Bool-cases host.reloads) [
    | inr l ↦ absurd (ground (arith, h, n, l))
    | inl l ↦ elim (Bool-cases host.adopted) [
      | inl a ↦ ground (arith, h, n, l, a)
      | inr a ↦ absurd (ground (arith, h, n, l, a))
    ]
  ]
]

module _ (host : Host) (f : Flags) (m : Machine) (runtime runc : Text) (original : Snapshot) where
  apply_registration-IsDone :
      (entry : Entry) (outcome : Registered) {m' : Machine} {is_new reloaded : Bool}
      → IsPrepared host f m.entry runtime runc original
      → register_runtime host.files m.entry runtime runc f.force ≡ (entry, outcome)
      → apply_registration host f original m (entry, outcome) ≡ (m', registered is_new reloaded)
      → IsDone host f m m' is_new
  unfolding apply_registration
  apply_registration-IsDone entry (failed e) p r h = absurd (ground (arith, h))
  apply_registration-IsDone entry kept p r h =
      let (same, new) =
        load_registration-registered host f original false (record m { entry = entry }) h in
      let there =
        register_runtime-IsRegistered host.files m.entry runtime runc f.force (ap (λ x. x.1) r) in
      let unchanged =
        subst (Spares host.files m.entry) r
          (register_runtime-Spares host.files m.entry runtime runc f.force) in
      record {
        runtime = runtime;
        runc = runc;
        runtime_found = p.runtime_found;
        runc_found = p.runc_found;
        by_root = p.by_root;
        trusts = p.trusts;
        merged = λ q. absurd (ground (arith, q, new));
        there = λ q. (there, same ∙ unchanged);
        accepted = λ q. absurd (ground (arith, q, new));
      }
  apply_registration-IsDone entry changed p r h =
      elim (Bool-cases (host.can_validate && not host.valid)) [
        | inl v ↦ absurd (ground (arith, h, v))
        | inr v ↦
            let (same, new) =
              load_registration-registered host f original true (record m { entry = entry })
                (rw (v, apply_registration) at h) in
            let merged = register_runtime-IsMerged host.files m.entry runtime runc f.force r in
            record {
              runtime = runtime;
              runc = runc;
              runtime_found = p.runtime_found;
              runc_found = p.runc_found;
              by_root = p.by_root;
              trusts = p.trusts;
              merged = λ q. subst (IsMerged runtime runc m.entry) (sym same) merged;
              there = λ q. absurd (ground (arith, q, new));
              accepted = λ q. v;
            }
      ]

run_prepared-IsDone :
    (host : Host) (f : Flags) (m : Machine) (p : Result Refusal (Text × Text × Snapshot))
    {m' : Machine} {is_new reloaded : Bool}
    → prepare host f m.entry ≡ p
    → run_prepared host f m p ≡ (m', registered is_new reloaded)
    → IsDone host f m m' is_new
run_prepared-IsDone host f m (err e) p h = absurd (ground (arith, h))
run_prepared-IsDone host f m (ok (runtime, runc, original)) p h =
    apply_registration-IsDone host f m runtime runc original _ _
      (prepare-IsPrepared host f m.entry p) refl h

-- A run that reports success has registered the two programs that it found: in a new file that
-- differs from the old one in the registration only, and that Docker's validation did not refuse
-- where there is one, or already in the file, which is then unchanged. Only where the file is
-- /etc/docker/daemon.json is it established that the run is root's and that both programs are
-- trusted.
pub run_register_command-IsDone :
    (host : Host) (f : Flags) (m : Machine) {m' : Machine} {is_new reloaded : Bool}
    → run_register_command host (flags f) m ≡ (m', registered is_new reloaded)
    → IsDone host f m m' is_new
unfolding run_register_command
run_register_command-IsDone host f m h =
    run_prepared-IsDone host f m (prepare host f m.entry) refl h
