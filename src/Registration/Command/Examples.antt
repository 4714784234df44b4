-- ===== src/Registration/Command/Examples.antt =====
-- Concrete runs of the registration command.
use cmgr.Common.{◌≡◌, ◌≢◌, refl, true, false, some, Bool, arith, codes}
use cmgr.Interceptor.Runtime.{is_abs, shell_safe_path}
use cmgr.Registration.{open_config, plan_runtimes, register_runtime}
use cmgr.Registration.Command.{
  Flags, flags, Machine, restored, not_replaced, Host, not_reloaded, registered, exit_code,
  snapshot_file, rollback_registration, may_register, trusted_programs, trusted_config, prepare,
  load_registration, apply_registration, run_register_command,
}
use cmgr.Registration.Command.Safety.{IsTrue, run_register_command-IsTrue}
use cmgr.Registration.Command.Outcome.{run_register_command-undone}
use cmgr.Registration.Command.Success.{IsDone, run_register_command-IsDone}
use cmgr.Registration.Examples.{runtime, runc, files, daemon, registered_daemon}

-- A host on which the reload answers as given.
abbrev host : Bool → Host
host reloads = record {
  linux = true;
  root = true;
  clean = λ p. p;
  runtime = some runtime;
  runc = some runc;
  trusted = λ p. true;
  directory_made = true;
  directory_owned = true;
  config_owned = true;
  config_inspected = true;
  locked = true;
  files = files;
  can_validate = true;
  valid = true;
  restoring = restored;
  reloads = reloads;
  reloads_again = true;
  adopted = true;
}

abbrev system_flags : Flags
system_flags = record {
  config = codes "/etc/docker/daemon.json";
  force = false;
  no_reload = false;
  positional = 0;
}

abbrev machine : Machine
machine = record { entry = daemon; loaded = daemon }

abbrev registered_machine : Machine
registered_machine = record { entry = registered_daemon; loaded = registered_daemon }

success :
    run_register_command (host true) (flags system_flags) machine
    ≡ (registered_machine, registered true true)
unfolding run_register_command prepare may_register trusted_programs trusted_config snapshot_file
    apply_registration load_registration register_runtime plan_runtimes open_config is_abs
    shell_safe_path
success = refl

run_register_command-IsDone_example :
    IsDone (host true) system_flags machine registered_machine true
run_register_command-IsDone_example =
    run_register_command-IsDone (host true) system_flags machine success

-- Another file than Docker's own is written by anyone, and names programs that are not trusted.
untrusted :
    run_register_command
      (record (host true) { root = false; trusted = λ p. false })
      (flags (record system_flags { config = codes "/tmp/daemon.json" }))
      machine
    ≡ (registered_machine, registered true true)
unfolding run_register_command prepare may_register trusted_programs trusted_config snapshot_file
    apply_registration load_registration register_runtime plan_runtimes open_config is_abs
    shell_safe_path
untrusted = refl

failure :
    run_register_command (host false) (flags system_flags) machine ≡ (machine, not_reloaded true)
unfolding run_register_command prepare may_register trusted_programs trusted_config snapshot_file
    apply_registration load_registration rollback_registration register_runtime plan_runtimes
    open_config is_abs shell_safe_path
failure = refl

not_replaced-no : restored ≢ not_replaced
not_replaced-no h = absurd (ground (arith, h))

failure_code : exit_code (run_register_command (host false) (flags system_flags) machine).1 ≢ 0
unfolding exit_code
failure_code h = absurd (ground (arith, h, failure))

run_register_command-undone_example :
    (run_register_command (host false) (flags system_flags) machine).0.entry ≡ daemon
run_register_command-undone_example =
    run_register_command-undone (host false) (flags system_flags) machine not_replaced-no refl
      failure_code

run_register_command-IsTrue_example :
    let s = run_register_command (host false) (flags system_flags) machine in IsTrue s.1 machine s.0
run_register_command-IsTrue_example =
    run_register_command-IsTrue (host false) (flags system_flags) machine
