-- ===== src/Cutover.antt =====
-- The cutover of an instance in cmgr/docker.go and cmgr/database_instances.go: the containers of an
-- instance are stopped and replaced, and kept until the update of the challenge is known to succeed.
pub mod Containers
pub mod Undo
pub mod Recorded
mod Examples
use cmgr.Common.{
  ◌≡◌, Bool, true, false, not, ◌&&◌, ◌||◌, Option, none, some, List, [], ◌∷◌, any, if◌then◌else◌,
  Text, text_eq, Result, ok, err,
}

-- Which containers Docker has, which of them run, and which the tables `containers`, for the
-- instance, and `retiredContainers` name.
pub record Machine : Type 0 where
  pub live : Text → Bool
  pub running : Text → Bool
  pub owned : Text → Bool
  pub retired : Text → Bool

abbrev pub set : Text → Bool → (Text → Bool) → Text → Bool
set c b f x = if text_eq c x then b else f x

abbrev pub elem : Text → List Text → Bool
elem x cs = any (λ c. text_eq c x) cs

-- Which calls fail: those of Docker on a container, and the statements of the database.
pub record Faults : Type 0 where
  pub stop : Text → Bool
  pub start : Text → Bool
  pub remove : Text → Bool
  pub forget : Text → Bool
  pub retire : Text → Bool
  pub replace : List Text → Bool

-- The new container of one image: its id, unless Docker makes none, and whether its ports are
-- reported in time.
pub record Creation : Type 0 where
  pub id : Option Text
  pub ready : Bool

-- replaceInstanceRuntimeMetadata: rows that are no longer active are retired.
abbrev pub replace_runtime : List Text → Machine → Machine
replace_runtime ids s = record s {
  owned = λ c. elem c ids;
  retired = λ c. not (elem c ids) && (s.retired c || s.owned c);
}

abbrev pub created : Text → Machine → Machine
created c s = record s { live = set c true s.live }

abbrev pub recorded : Text → Machine → Machine
recorded c s = record s { retired = set c true s.retired }

abbrev pub started : Text → Machine → Machine
started c s = record s { running = set c true s.running }

abbrev pub stopped : Text → Machine → Machine
stopped c s = record s { running = set c false s.running }

abbrev pub removed : Text → Machine → Machine
removed c s = record s { live = set c false s.live; running = set c false s.running }

abbrev pub forgotten : Text → Machine → Machine
forgotten c s = record s { retired = set c false s.retired }

-- The state after a loop, the containers that it dealt with, and whether it reached its end.
pub record Loop : Type 0 where
  pub machine : Machine
  pub ids : List Text
  pub finished : Bool

abbrev pub cons_id : Text → Loop → Loop
cons_id c l = record l { ids = c ∷ l.ids }

-- One container, and then the rest: a container counts as soon as it is created.
abbrev pub start_one : Faults → Text → Bool → Machine → (Machine → Loop) → Loop
start_one f c ready s rest =
    let s1 = created c s in
    let s2 = recorded c s1 in
    let s3 = started c s2 in
    if f.retire c
    then record { machine = s1; ids = c ∷ []; finished = false }
    else if f.start c
    then record { machine = s2; ids = c ∷ []; finished = false }
    else if not ready
    then record { machine = s3; ids = c ∷ []; finished = false }
    else cons_id c (rest s3)

-- The loop of startContainersWithPersistence over the images.
pub start_all : Faults → List Creation → Machine → Loop
start_all f [] s = record { machine = s; ids = []; finished = true }
start_all f (c ∷ cs) s = elim c.id [
  | none ↦ record { machine = s; ids = []; finished = false }
  | some id ↦ start_one f id c.ready s (start_all f cs)
]

abbrev pub publish : Faults → Loop → Loop
publish f l =
    if not l.finished
    then l
    else if f.replace l.ids
    then record l { finished = false }
    else record l { machine = replace_runtime l.ids l.machine }

pub start_containers : Faults → List Creation → Machine → Loop
start_containers f cs s = publish f (start_all f cs s)

-- The loop stops at the first container that cannot be stopped.
pub pause_container_processes : Faults → List Text → Machine → Loop
pause_container_processes f [] s = record { machine = s; ids = []; finished = true }
pause_container_processes f (c ∷ cs) s =
    let rest = pause_container_processes f cs (stopped c s) in
    if f.stop c then record { machine = s; ids = []; finished = false } else cons_id c rest

-- Every container is tried.
pub resume_container_processes : Faults → List Text → Machine → Machine × Bool
resume_container_processes f [] s = (s, true)
resume_container_processes f (c ∷ cs) s =
    let failed = resume_container_processes f cs s in
    let done = resume_container_processes f cs (started c s) in
    if f.start c then (failed.0, false) else done

pub remove_retired_container_ids : Faults → List Text → Machine → Machine × Bool
remove_retired_container_ids f [] s = (s, true)
remove_retired_container_ids f (c ∷ cs) s =
    let kept = remove_retired_container_ids f cs s in
    let noted = remove_retired_container_ids f cs (removed c s) in
    let done = remove_retired_container_ids f cs (forgotten c (removed c s)) in
    if f.remove c then (kept.0, false) else if f.forget c then (noted.0, false) else done

pub record InstanceCutover : Type 0 where
  pub old : List Text
  pub candidate : List Text

-- Whether the recovery reported no problem.
pub data CutoverError : Type 0 where
  not_paused not_replaced : (recovered : Bool) → CutoverError

abbrev pub recover : Faults → List Text → Loop → Machine × Result CutoverError InstanceCutover
recover f old l =
    let cleaned = remove_retired_container_ids f l.ids l.machine in
    let resumed = resume_container_processes f old cleaned.0 in
    (resumed.0, err (not_replaced (cleaned.1 && resumed.1)))

abbrev pub replace_paused :
    Faults → List Text → List Creation → Machine → Machine × Result CutoverError InstanceCutover
replace_paused f old cs s =
    let l = start_containers f cs s in
    if not l.finished
    then recover f old l
    else (l.machine, ok (record { old = old; candidate = l.ids }))

abbrev pub resume_paused : Faults → Loop → Machine × Result CutoverError InstanceCutover
resume_paused f l =
    let resumed = resume_container_processes f l.ids l.machine in
    (resumed.0, err (not_paused resumed.1))

-- `old` are the containers of the instance.
pub prepare_instance_cutover :
    Faults → List Text → List Creation → Machine → Machine × Result CutoverError InstanceCutover
prepare_instance_cutover f old cs s =
    let l = pause_container_processes f old s in
    if not l.finished then resume_paused f l else replace_paused f old cs l.machine

pub rollback_instance_cutover : Faults → InstanceCutover → Machine → Machine × Bool
rollback_instance_cutover f c s =
    let cleaned = remove_retired_container_ids f c.candidate (replace_runtime c.old s) in
    let resumed = resume_container_processes f c.old cleaned.0 in
    if f.replace c.old then (s, false) else (resumed.0, cleaned.1 && resumed.1)

pub finish_instance_cutover : Faults → InstanceCutover → Machine → Machine × Bool
finish_instance_cutover f c s = remove_retired_container_ids f c.old s
