-- ===== src/Registration.antt =====
-- The registration of the runtime wrapper in internal/ociinterceptor/register.go: RegisterRuntime on
-- Docker's daemon.json, and RunRegisterCommand with its rollback.
pub mod Merge
mod Examples
pub mod Again
pub mod Spares
pub mod Command
use cmgr.Common.{
  ℕ, ◌+◌, Bool, true, false, not, ◌&&◌, ◌||◌, Option, none, some, List, [], ◌∷◌, ◌++◌, ltb,
  if◌then◌else◌, Text, codes, is_empty, map,
}
use cmgr.Json.{
  Json, text, arr, obj, Fields, end, field, get, put, as_object, items_of, is_null, json_eq,
}
use cmgr.Interceptor.Runtime.{is_abs, shell_safe_path, runtime_arguments}

-- What a configuration file holds: JSON, or bytes that are none.
pub data Contents : Type 0 where
  json : Json → Contents
  garbage : Text → Contents

-- What stands at the path of the configuration.
pub data Entry : Type 0 where
  absent : Entry
  other : Entry  -- not a regular file, or one that cannot be read
  file : (contents : Contents) (mode size : ℕ) → Entry

pub data RegisterError : Type 0 where
  unsafe_paths not_executable : RegisterError
  not_regular too_large not_json not_object bad_runtimes : RegisterError
  conflicting not_written not_synced : RegisterError

-- What the system answers to RegisterRuntime. `encoded_size` is the length of the new file.
pub record Files : Type 0 where
  pub executable : Bool
  pub written : Bool
  pub synced : Bool
  pub encoded_size : Json → ℕ

abbrev pub max_docker_config_size : ℕ
max_docker_config_size = 16777216

abbrev pub runtime_name : Text
runtime_name = codes "cmgr-oci-interceptor"

pub registration : Text → Text → Json
registration runtime runc = obj (
    field (codes "path") (text runtime)
      (field (codes "runtimeArgs") (arr (items_of (runtime_arguments runc))) end))

-- What is read: a document with the mode of the file, or an error.
pub data Opened : Type 0 where
  refused : RegisterError → Opened
  document : Fields → ℕ → Opened

abbrev pub decoded : Contents → ℕ → Opened
decoded (garbage bytes) mode = refused not_json
decoded (json v) mode =
    if is_null v
    then refused not_object
    else elim (as_object v) [ none ↦ refused not_json | some fs ↦ document fs mode ]

-- A file that is not there gives an empty document with the mode 0644.
pub open_config : Entry → Opened
open_config absent = document end 420
open_config other = refused not_regular
open_config (file contents mode size) =
    if ltb max_docker_config_size size then refused too_large else decoded contents mode

-- The member `runtimes`; null is refused.
abbrev pub runtimes_of : Option Json → Option Fields
runtimes_of none = some end
runtimes_of (some v) = if is_null v then none else as_object v

-- What to do with the runtimes that are there: nothing, a refusal, or the new object.
pub data Plan : Type 0 where
  unchanged : Plan
  refuse : RegisterError → Plan
  write : Fields → Plan

pub plan_runtimes : Json → Bool → Fields → Plan
plan_runtimes new force runtimes = elim (get runtime_name runtimes) [
  | none ↦ write (put runtime_name new runtimes)
  | some existing ↦
      if json_eq existing new
      then unchanged
      else if not force
      then refuse conflicting
      else write (put runtime_name new runtimes)
]

pub data Registered : Type 0 where
  kept : Registered
  changed : Registered
  failed : RegisterError → Registered

abbrev pub write_document : Files → Entry → Fields → ℕ → Entry × Registered
write_document files entry doc mode =
    let new = file (json (obj doc)) mode (files.encoded_size (obj doc)) in
    if not files.written
    then (entry, failed not_written)
    else if not files.synced
    then (new, failed not_synced)
    else (new, changed)

abbrev pub follow : Files → Entry → Fields → ℕ → Plan → Entry × Registered
follow files entry doc mode unchanged = (entry, kept)
follow files entry doc mode (refuse e) = (entry, failed e)
follow files entry doc mode (write runtimes) =
    write_document files entry (put (codes "runtimes") (obj runtimes) doc) mode

abbrev pub register_document : Files → Entry → Text → Text → Bool → Fields → ℕ → Entry × Registered
register_document files entry runtime runc force doc mode =
    elim (runtimes_of (get (codes "runtimes") doc)) [
      | none ↦ (entry, failed bad_runtimes)
      | some runtimes ↦
          follow files entry doc mode (plan_runtimes (registration runtime runc) force runtimes)
    ]

abbrev pub safe_paths : Text → Text → Bool
safe_paths runtime runc =
    is_abs runtime
    && shell_safe_path runtime
    && not (is_empty runc)
    && is_abs runc
    && shell_safe_path runc

-- RegisterRuntime; the path of the configuration is not empty.
pub register_runtime : Files → Entry → Text → Text → Bool → Entry × Registered
register_runtime files entry runtime runc force =
    if not (safe_paths runtime runc)
    then (entry, failed unsafe_paths)
    else if not files.executable
    then (entry, failed not_executable)
    else elim (open_config entry) [
      | refused e ↦ (entry, failed e)
      | document doc mode ↦ register_document files entry runtime runc force doc mode
    ]
