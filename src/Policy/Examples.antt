-- ===== src/Policy/Examples.antt =====
-- Options of a challenge, of one of its hosts, and the defaults.
use cmgr.Common.{◌≡◌, true, false, none, some, List, [], ◌∷◌, pos, Text, codes, if◌then◌else◌}
use cmgr.Policy.{ContainerOptions, SeccompOptions, merge_runtime_defaults, is_present}
use cmgr.Policy.Ulimits.{limits_of, limits_of-merge_runtime_defaults}

abbrev plain : ContainerOptions
plain = record {
  init = false;
  cpus = [];
  memory = [];
  ulimits = codes "nofile=1024" ∷ [];
  pids_limit = pos 0;
  readonly_rootfs = false;
  dropped_caps = [];
  no_new_privileges = true;
  disk_quota = [];
  cgroup_parent = [];
  seccomp = none;
}

abbrev policy : SeccompOptions
policy = record {
  legacy = false;
  tweaks = codes "allow-disable-aslr" ∷ [];
  profile = [];
  profile_hash = [];
  effective_profile = [];
}

abbrev defaults : ContainerOptions
defaults = record plain { ulimits = codes "nofile=64" ∷ codes "nproc=32" ∷ [] }

limits_of-merge_runtime_defaults_example :
    limits_of (codes "nofile") (merge_runtime_defaults defaults plain).ulimits ≡ (
      if is_present plain.ulimits (codes "nofile")
      then limits_of (codes "nofile") plain.ulimits
      else limits_of (codes "nofile") defaults.ulimits)
limits_of-merge_runtime_defaults_example =
    limits_of-merge_runtime_defaults (codes "nofile") defaults plain

abbrev options : List (Text × ContainerOptions)
options = ([], record plain { seccomp = some policy }) ∷ (codes "web", plain) ∷ []
