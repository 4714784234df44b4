-- ===== src/Registration/Examples.antt =====
-- Concrete runs of the registration.
use cmgr.Common.{◌≡◌, refl, true, false, codes, Text}
use cmgr.Json.{obj, text, end, field}
use cmgr.Interceptor.Runtime.{is_abs, shell_safe_path}
use cmgr.Registration.{
  Entry, file, json, Files, registration, open_config, plan_runtimes, changed, register_runtime,
}

abbrev pub runtime : Text
runtime = codes "/usr/bin/cmgr-oci-interceptor"

abbrev pub runc : Text
runc = codes "/usr/bin/runc"

abbrev pub files : Files
files = record { executable = true; written = true; synced = true; encoded_size = λ doc. 300 }

abbrev pub daemon : Entry
daemon = file (json (obj (field (codes "debug") (text (codes "on")) end))) 420 20

abbrev pub registered_daemon : Entry
registered_daemon =
    file
      (json (
        obj (
          field (codes "debug") (text (codes "on")) (
            field (codes "runtimes")
              (obj (field (codes "cmgr-oci-interceptor") (registration runtime runc) end)) end))))
      420 300

pub first_run : register_runtime files daemon runtime runc false ≡ (registered_daemon, changed)
unfolding register_runtime plan_runtimes open_config is_abs shell_safe_path
first_run = refl
