-- ===== src/Registration/Command.antt =====
-- RunRegisterCommand of internal/ociinterceptor/register.go: the checks before the registration, the
-- registration itself, and the rollback when Docker refuses it.
pub mod Checks
mod Examples
pub mod Safety
pub mod Success
pub mod Outcome
use cmgr.Common.{
  ℕ, Bool, true, false, not, ◌&&◌, ◌||◌, Option, none, some, ◌==◌, if◌then◌else◌, ltb, Text, codes,
  text_eq, Result, ok, err, ◌>>=◌, ◌>>◌, reject_if,
}
use cmgr.Registration.{
  Contents, json, garbage, Entry, absent, other, file, RegisterError, Files, max_docker_config_size,
  Registered, kept, changed, failed, register_runtime,
}

-- What the flag package makes of the arguments.
pub record Flags : Type 0 where
  pub config : Text
  pub force : Bool
  pub no_reload : Bool
  pub positional : ℕ

pub data Parsed : Type 0 where
  help : Parsed
  bad_flags : Parsed
  flags : Flags → Parsed

-- The registration file, and what Docker last loaded of it.
pub record Machine : Type 0 where
  pub entry : Entry
  pub loaded : Entry

-- How putting the old file back ends.
pub data Restoring : Type 0 where
  restored not_replaced not_durable : Restoring

-- What the system and Docker answer. `clean` is filepath.Clean; `runtime` and `runc` are the paths
-- of the two programs after they are resolved; the answers of systemctl are those of the first call
-- and of the one that a rollback makes.
pub record Host : Type 0 where
  pub linux : Bool
  pub root : Bool
  pub clean : Text → Text
  pub runtime : Option Text
  pub runc : Option Text
  pub trusted : Text → Bool
  pub directory_made : Bool
  pub directory_owned : Bool
  pub config_owned : Bool
  pub config_inspected : Bool
  pub locked : Bool
  pub files : Files
  pub can_validate : Bool
  pub valid : Bool
  pub restoring : Restoring
  pub reloads : Bool
  pub reloads_again : Bool
  pub adopted : Bool

pub data Refusal : Type 0 where
  positional_arguments : Refusal
  not_linux not_root : Refusal
  no_runtime no_runc unsafe_runtime unsafe_runc : Refusal
  no_directory unsafe_directory unsafe_config uninspected not_locked no_snapshot : Refusal

-- What the command reports. The Boolean of a rollback says whether it is reported as done.
pub data Report : Type 0 where
  usage : Report
  bad_usage : Report
  refused : Refusal → Report
  not_registered : RegisterError → Report
  rejected not_reloaded not_adopted : (rolled_back : Bool) → Report
  registered : (is_new reloaded : Bool) → Report

pub exit_code : Report → ℕ
exit_code usage = 0
exit_code bad_usage = 2
exit_code (refused positional_arguments) = 2
exit_code (refused r) = 1
exit_code (not_registered e) = 1
exit_code (rejected b) = 1
exit_code (not_reloaded b) = 1
exit_code (not_adopted b) = 1
exit_code (registered c l) = 0

abbrev pub default_docker_config_path : Text
default_docker_config_path = codes "/etc/docker/daemon.json"

pub data Snapshot : Type 0 where
  no_file : Snapshot
  saved : (contents : Contents) (mode size : ℕ) → Snapshot

pub snapshot_file : Entry → Result Refusal Snapshot
snapshot_file absent = ok no_file
snapshot_file other = err no_snapshot
snapshot_file (file contents mode size) =
    if ltb max_docker_config_size size then err no_snapshot else ok (saved contents mode size)

abbrev pub entry_of : Snapshot → Entry
entry_of no_file = absent
entry_of (saved contents mode size) = file contents mode size

abbrev pub restore_file : Restoring → Snapshot → Entry → Entry × Bool
restore_file restored s entry = (entry_of s, true)
restore_file not_replaced s entry = (entry, false)
restore_file not_durable s entry = (entry_of s, false)

-- systemctl reload docker.
abbrev pub reload_docker : Bool → Machine → Machine
reload_docker done m = if done then record m { loaded = m.entry } else m

abbrev pub reload_restored : Host → Machine → Entry × Bool → Machine × Bool
reload_restored host m (entry, done) =
    let m' = record m { entry = entry } in
    if not done then (m', false) else (reload_docker host.reloads_again m', host.reloads_again)

pub rollback_registration : Host → Snapshot → Bool → Machine → Machine × Bool
rollback_registration host original is_new m =
    reload_restored host m
      (if is_new then restore_file host.restoring original m.entry else (m.entry, true))

abbrev pub or_refuse : {A : Type 0} → Option A → Refusal → Result Refusal A
or_refuse none r = err r
or_refuse (some a) r = ok a

abbrev pub is_there : Entry → Bool
is_there absent = false
is_there other = true
is_there (file contents mode size) = true

-- The path that dockerd reads by itself.
abbrev pub is_privileged : Host → Flags → Bool
is_privileged host f = text_eq (host.clean f.config) default_docker_config_path

pub may_register : Host → Flags → Result Refusal (Unit {0})
may_register host f =
    reject_if (not (f.positional == 0)) positional_arguments
    >> reject_if (not host.linux) not_linux
    >> reject_if (is_privileged host f && not host.root) not_root

pub trusted_programs : Host → Bool → Text → Text → Result Refusal (Unit {0})
trusted_programs host privileged runtime runc =
    reject_if (privileged && not (host.trusted runtime)) unsafe_runtime
    >> reject_if (privileged && not (host.trusted runc)) unsafe_runc

pub trusted_config : Host → Bool → Entry → Result Refusal (Unit {0})
trusted_config host privileged entry =
    reject_if (not host.directory_made) no_directory
    >> reject_if (privileged && not host.directory_owned) unsafe_directory
    >> reject_if (privileged && not host.config_inspected) uninspected
    >> reject_if (privileged && is_there entry && not host.config_owned) unsafe_config
    >> reject_if (not host.locked) not_locked

-- The checks up to the snapshot: the two programs and the file as it is.
pub prepare : Host → Flags → Entry → Result Refusal (Text × Text × Snapshot)
prepare host f entry = do
  _ ← may_register host f
  runtime ← or_refuse host.runtime no_runtime
  runc ← or_refuse host.runc no_runc
  _ ← trusted_programs host (is_privileged host f) runtime runc
  _ ← trusted_config host (is_privileged host f) entry
  snapshot ← snapshot_file entry
  ok (runtime, runc, snapshot)

abbrev pub with_report : (Bool → Report) → Machine × Bool → Machine × Report
with_report report (m, done) = (m, report done)

-- Docker is told of the file, unless --no-reload is given.
pub load_registration : Host → Flags → Snapshot → Bool → Machine → Machine × Report
load_registration host f original is_new m =
    if f.no_reload
    then (m, registered is_new false)
    else if not host.reloads
    then with_report not_reloaded (rollback_registration host original is_new m)
    else let m' = reload_docker true m in
      if not host.adopted
      then with_report not_adopted (rollback_registration host original is_new m')
      else (m', registered is_new true)

abbrev pub reject_configuration : Machine → Entry × Bool → Machine × Report
reject_configuration m (entry, done) = (record m { entry = entry }, rejected done)

-- dockerd --validate, where it is supported, and then the reload.
pub apply_registration : Host → Flags → Snapshot → Machine → Entry × Registered → Machine × Report
apply_registration host f original m (entry, failed e) =
    (record m { entry = entry }, not_registered e)
apply_registration host f original m (entry, kept) =
    load_registration host f original false (record m { entry = entry })
apply_registration host f original m (entry, changed) =
    let m' = record m { entry = entry } in
    if host.can_validate && not host.valid
    then reject_configuration m' (restore_file host.restoring original entry)
    else load_registration host f original true m'

abbrev pub run_prepared :
    Host → Flags → Machine → Result Refusal (Text × Text × Snapshot) → Machine × Report
run_prepared host f m (err r) = (m, refused r)
run_prepared host f m (ok (runtime, runc, original)) =
    apply_registration host f original m (register_runtime host.files m.entry runtime runc f.force)

pub run_register_command : Host → Parsed → Machine → Machine × Report
run_register_command host help m = (m, usage)
run_register_command host bad_flags m = (m, bad_usage)
run_register_command host (flags f) m = run_prepared host f m (prepare host f m.entry)
