-- ===== src/Policy.antt =====
-- The runtime options of a container: mergeRuntimeDefaults of cmgr/policy.go, and
-- effectiveContainerOptions of cmgr/docker.go.
pub mod Ulimits
pub mod Inherited
mod Examples
use cmgr.Common.{
  ℕ, Bool, true, false, not, Option, none, some, List, [], ◌∷◌, ◌++◌, ◌==◌, if◌then◌else◌, ℤ, pos,
  int_eq, Text, text_eq, is_empty, index_byte, take, any, keep, lookup,
}

pub record SeccompOptions : Type 0 where
  pub legacy : Bool
  pub tweaks : List Text
  pub profile : Text
  pub profile_hash : Text
  pub effective_profile : Text

pub record ContainerOptions : Type 0 where
  pub init : Bool
  pub cpus : Text
  pub memory : Text
  pub ulimits : List Text
  pub pids_limit : ℤ
  pub readonly_rootfs : Bool
  pub dropped_caps : List Text
  pub no_new_privileges : Bool
  pub disk_quota : Text
  pub cgroup_parent : Text
  pub seccomp : Option SeccompOptions

-- The part before the first '='.
abbrev pub name_before : Text → Option ℕ → Text
name_before limit none = limit
name_before limit (some i) = take i limit

pub limit_name : Text → Text
limit_name limit = name_before limit (index_byte limit 61)

-- The map `present`, as the test for membership.
pub is_present : List Text → Text → Bool
is_present limits name = any (λ l. text_eq (limit_name l) name) limits

abbrev pub own_text : Text → Text → Text
own_text own default = if is_empty own then default else own

abbrev pub merge_ulimits : List Text → List Text → List Text
merge_ulimits defaults own = own ++ keep (λ l. not (is_present own (limit_name l))) defaults

-- Without default limits the loops are skipped, which leaves the limits as they are.
pub merge_runtime_defaults : ContainerOptions → ContainerOptions → ContainerOptions
merge_runtime_defaults defaults challenge = record challenge {
  cpus = own_text challenge.cpus defaults.cpus;
  memory = own_text challenge.memory defaults.memory;
  pids_limit =
      if int_eq challenge.pids_limit (pos 0) then defaults.pids_limit else challenge.pids_limit;
  ulimits = elim (defaults.ulimits) [
    | [] ↦ challenge.ulimits
    | l ∷ ls ↦ merge_ulimits (l ∷ ls) challenge.ulimits
  ];
}

-- `hostOptions.Seccomp == nil` takes the seccomp options of the challenge.
abbrev pub own_seccomp : Option SeccompOptions → Option SeccompOptions → Option SeccompOptions
own_seccomp (some s) default = some s
own_seccomp none default = default

abbrev pub default_seccomp : Option ContainerOptions → Option SeccompOptions
default_seccomp none = none
default_seccomp (some d) = d.seccomp

-- `none` stands for the zero value with `false`.
pub effective_container_options : List (Text × ContainerOptions) → Text → Option ContainerOptions
effective_container_options options host = elim (lookup host options) [
  | none ↦ lookup [] options
  | some h ↦
      some (record h { seccomp = own_seccomp h.seccomp (default_seccomp (lookup [] options)) })
]
