-- ===== src/Interceptor/Runtime/Examples.antt =====
-- Concrete invocations of the OCI runtime wrapper.
use cmgr.Common.{
  ◌≡◌, ◌⊎◌, refl, Bool, true, false, Option, some, List, [], ◌∷◌, ◌++◌, Text, codes, ok,
}
use cmgr.Interceptor.Bundle.{find_bundle_path, find_bundle_path_strict, invocation_requires_rewrite}
use cmgr.Interceptor.Runtime.{
  is_abs, shell_safe_path, classify, scan_arguments, accept_scan, parse_runtime_arguments,
  runtime_arguments, run_runtime, ran,
}
use cmgr.Interceptor.Runtime.Arguments.{IsForwardable, parse-runtime_arguments}
use cmgr.Interceptor.Runtime.Safety.{run_runtime_safe}

abbrev runc : Text
runc = codes "/usr/bin/runc"

abbrev create : List Text
create = codes "create" ∷ codes "--bundle" ∷ codes "/run/b1" ∷ codes "c1" ∷ []

abbrev rewrites_all : Text → Option Bool
rewrites_all b = some true

create_runs : run_runtime rewrites_all (runtime_arguments runc ++ create) ≡ ran runc create
unfolding run_runtime parse_runtime_arguments runtime_arguments scan_arguments classify accept_scan
    is_abs shell_safe_path invocation_requires_rewrite find_bundle_path_strict
create_runs = refl

run_runtime_safe_example :
    (is_abs runc ≡ true)
    × (shell_safe_path runc ≡ true)
    × IsForwardable create
    × ((invocation_requires_rewrite create ≡ false)
        ⊎ ((b : Text) × (find_bundle_path create ≡ some b) × (rewrites_all b ≡ some true)))
run_runtime_safe_example =
    run_runtime_safe rewrites_all (runtime_arguments runc ++ create) create_runs

create-IsForwardable : IsForwardable create
unfolding classify
create-IsForwardable = (refl, (refl, (refl, (refl, tt))))

runc-abs : is_abs runc ≡ true
unfolding is_abs
runc-abs = refl

runc-safe : shell_safe_path runc ≡ true
unfolding shell_safe_path
runc-safe = refl

parse-runtime_arguments_example :
    parse_runtime_arguments (runtime_arguments runc ++ create) ≡ ok (runc, create)
parse-runtime_arguments_example =
    parse-runtime_arguments runc create create-IsForwardable runc-abs runc-safe

registered : parse_runtime_arguments (runtime_arguments runc ++ create) ≡ ok (runc, create)
unfolding parse_runtime_arguments runtime_arguments scan_arguments classify accept_scan is_abs
    shell_safe_path
registered = refl
