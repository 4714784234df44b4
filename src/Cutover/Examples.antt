-- ===== src/Cutover/Examples.antt =====
-- An instance with one container, whose replacement starts, or does not start.
use cmgr.Common.{
  ◌≡◌, refl, Bool, true, false, some, List, [], ◌∷◌, arith, Text, codes, text_eq, ok, err,
  if◌then◌else◌,
}
use cmgr.Cutover.{
  Machine, elem, Faults, Creation, InstanceCutover, not_replaced, start_all, start_containers,
  pause_container_processes, resume_container_processes, remove_retired_container_ids,
  prepare_instance_cutover, rollback_instance_cutover, finish_instance_cutover,
}
use cmgr.Cutover.Containers.{ids_of}
use cmgr.Cutover.Undo.{
  IsRestored, AreNew, prepare_instance_cutover-IsRestored, rollback-prepare_instance_cutover,
}
use cmgr.Cutover.Recorded.{AllRecorded, cutover-AllRecorded}

abbrev old : List Text
old = codes "a" ∷ []

abbrev new : List Creation
new = record { id = some (codes "b"); ready = true } ∷ []

-- Docker cannot start the new container.
abbrev faults : Bool → Faults
faults broken = record {
  stop = λ c. false;
  start = λ c. if text_eq c (codes "b") then broken else false;
  remove = λ c. false;
  forget = λ c. false;
  retire = λ c. false;
  replace = λ ids. false;
}

abbrev machine : Machine
machine = record {
  live = λ c. elem c old;
  running = λ c. elem c old;
  owned = λ c. elem c old;
  retired = λ c. false;
}

runs : (x : Text) → elem x old ≡ true → machine.running x ≡ true
runs x h = h

are_new : AreNew machine (ids_of new)
are_new [] h = refl
are_new (c ∷ x) h = ground (arith, h)

abbrev cutover : InstanceCutover
cutover = record { old = old; candidate = codes "b" ∷ [] }

abbrev replaced : Machine
replaced = (prepare_instance_cutover (faults false) old new machine).0

is_replaced : prepare_instance_cutover (faults false) old new machine ≡ (replaced, ok cutover)
unfolding prepare_instance_cutover pause_container_processes start_containers start_all
is_replaced = refl

can_roll_back : (rollback_instance_cutover (faults false) cutover replaced).1 ≡ true
unfolding rollback_instance_cutover remove_retired_container_ids resume_container_processes
can_roll_back = refl

rollback-prepare_instance_cutover_example :
    IsRestored old machine (rollback_instance_cutover (faults false) cutover replaced).0
rollback-prepare_instance_cutover_example =
    rollback-prepare_instance_cutover (faults false) (faults false) old new machine runs (λ x. refl)
      are_new is_replaced can_roll_back

abbrev recovered_machine : Machine
recovered_machine = (prepare_instance_cutover (faults true) old new machine).0

is_recovered :
    prepare_instance_cutover (faults true) old new machine
    ≡ (recovered_machine, err (not_replaced true))
unfolding prepare_instance_cutover pause_container_processes start_containers start_all
    remove_retired_container_ids resume_container_processes
is_recovered = refl

prepare_instance_cutover-IsRestored_example : IsRestored old machine recovered_machine
prepare_instance_cutover-IsRestored_example =
    prepare_instance_cutover-IsRestored (faults true) old new machine runs are_new is_recovered refl

all_recorded : AllRecorded machine
all_recorded x h = ground (arith, h)

cutover-AllRecorded_example :
    AllRecorded (prepare_instance_cutover (faults true) old new machine).0
    × AllRecorded (rollback_instance_cutover (faults true) cutover machine).0
    × AllRecorded (finish_instance_cutover (faults true) cutover machine).0
cutover-AllRecorded_example =
    cutover-AllRecorded (faults true) old new cutover machine (λ x. refl) all_recorded
