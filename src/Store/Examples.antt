-- ===== src/Store/Examples.antt =====
-- A schema with two builds, of which one stays.
use cmgr.Common.{ℕ, ◌≡◌, ◌⊎◌, none, some, List, [], ◌∷◌, map, false, ℤ, pos, codes}
use cmgr.Store.{Db, Build, StoreError, activate_schema_builds}
use cmgr.Store.Activation.{activate_schema_builds_exact, activated_row}

abbrev build_of : ℕ → ℤ → Build
build_of n seed = record {
  id = n;
  flag = codes "flag{1}";
  seed = seed;
  format = codes "flag{%s}";
  challenge = codes "custom/heap";
  schema = codes "event";
  instance_count = pos 2;
}

abbrev db : Db
db = record {
  schemas = record { name = codes "event"; manual = false } ∷ [];
  builds = build_of 1 (pos 5) ∷ build_of 2 (pos 6) ∷ [];
  instances = [];
}

abbrev targets : List (ℕ × ℤ)
targets = (2, pos 1) ∷ []

activate_schema_builds_exact_example :
    (activate_schema_builds db (codes "event") targets
      ≡ (record db { builds = map (activated_row (codes "event") targets) db.builds }, none))
    ⊎ ((e : StoreError) × (activate_schema_builds db (codes "event") targets ≡ (db, some e)))
activate_schema_builds_exact_example = activate_schema_builds_exact db (codes "event") targets
