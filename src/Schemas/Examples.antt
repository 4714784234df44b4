-- ===== src/Schemas/Examples.antt =====
-- A schema whose second instance does not start.
use cmgr.Common.{
  ◌≡◌, ◌==◌, refl, sym, ap, inl, inr, true, false, not, none, some, List, [], ◌∷◌, pos, codes,
  arith, In, ok, err, ◌⊎◌, ◌∙◌, ◌≢◌,
}
use mathlib.Core.List.{flatten}
use cmgr.Store.{
  locked, dynamic_instances, StoreError, Db, Build, start_failed, schema_exists, stage_build,
  find_key, fresh_build_id, fresh_instance_id, find_build, find_instance, get_build_instances,
  remove_build_metadata, finalize_build, set_flag, open_instance, remove_instance_metadata,
}
use cmgr.Store.Rows.{Kept, WellKeyed}
use cmgr.Schemas.{
  Docker, failed_before, converge_schema, stage_groups, stage_builds, generate_groups,
  generate_builds, generate_rows, generate_row, execute_row, scale_all, scale_up, new_instance,
  undo_instances, lookup_and_stop, stop_instance,
}
use cmgr.Schemas.Api.{start, stop}
use cmgr.Schemas.Lifecycle.{start_exact, stop-start}
use cmgr.Schemas.Atomic.{converge_schema-Kept}

-- Everything works, except that the instance with the number 3 does not start.
abbrev weak_docker : Docker
weak_docker = record {
  unchanged = λ db c. true;
  executes = λ db b. some (codes "flag{new}");
  starts = λ db i b. not (i == 3);
  stops = λ db i. true;
  removes = λ db n. true;
}

abbrev old_build : Build
old_build = record {
  id = 1;
  flag = codes "flag{old}";
  seed = pos 5;
  format = codes "flag{%s}";
  challenge = codes "custom/heap";
  schema = codes "event";
  instance_count = pos 1;
}

abbrev new_entry : Build
new_entry = record old_build { id = 0; flag = []; seed = pos 6; instance_count = pos 2 }

abbrev before : Db
before = record {
  schemas = record { name = codes "event"; manual = false } ∷ [];
  builds = old_build ∷ [];
  instances = record { id = 1; build = 1 } ∷ [];
}

before-WellKeyed : WellKeyed before
before-WellKeyed = record { unique = only; positive = numbered }
  where
    only : (r t : Build) → In r before.builds → In t before.builds → r.id ≡ t.id → r ≡ t
    only r t (inl e) (inl f) h = sym e ∙ f
    only r t (inl e) (inr j) h = absurd j
    only r t (inr i) j h = absurd i

    numbered : (r : Build) → In r before.builds → r.id ≢ 0
    numbered r (inl e) h = absurd (omega (arith, ap (λ (b : Build). b.id) e, h))
    numbered r (inr i) h = absurd i

abbrev groups : List (List Build)
groups = (new_entry ∷ []) ∷ []

-- The new build is there, LOCKED; its first instance, number 2, is gone again.
abbrev ending : Db
ending = record before {
  builds =
      old_build
      ∷ record new_entry { id = 2; flag = codes "flag{new}"; instance_count = locked }
      ∷ [];
}

second_fails :
    converge_schema weak_docker before (codes "event") groups
    ≡ failed_before ending (start_failed ∷ [])
unfolding flatten converge_schema stage_groups stage_builds generate_groups generate_builds
    generate_rows generate_row execute_row scale_all scale_up new_instance undo_instances
    lookup_and_stop stop_instance schema_exists stage_build find_key fresh_build_id
    fresh_instance_id find_build find_instance get_build_instances remove_build_metadata
    finalize_build set_flag open_instance remove_instance_metadata
second_fails = refl

converge_schema-Kept_example : Kept before ending
converge_schema-Kept_example =
    converge_schema-Kept weak_docker before (codes "event") groups before-WellKeyed second_fails

-- The same tables, with a build that is started by hand.
abbrev dynamic_build : Build
dynamic_build = record old_build { instance_count = dynamic_instances }

abbrev by_hand : Db
by_hand = record before { builds = dynamic_build ∷ [] }

abbrev with_second : Db
with_second = record by_hand {
  instances = record { id = 1; build = 1 } ∷ record { id = 2; build = 1 } ∷ [];
}

started : start weak_docker by_hand 1 ≡ (with_second, ok 2)
unfolding start new_instance find_build open_instance fresh_instance_id
started = refl

stop-start_example : stop weak_docker with_second 2 ≡ (by_hand, none)
stop-start_example = stop-start weak_docker by_hand 1 started refl

start_exact_example :
    ((e : StoreError) × (start weak_docker by_hand 1 ≡ (by_hand, err e)))
    ⊎ ((b : Build) × (find_build 1 by_hand.builds ≡ some b)
        × (b.instance_count ≡ dynamic_instances)
        × (start weak_docker by_hand 1
            ≡ ((open_instance by_hand b.id).0, ok (open_instance by_hand b.id).1)))
start_exact_example = start_exact weak_docker by_hand 1
