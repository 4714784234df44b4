-- ===== src/Cutover/Recorded.antt =====
-- No container is lost: whatever happens in a cutover, the database names every container of Docker.
use cmgr.Common.{
  either_way, option_way, ◌≡◌, inl, inr, Bool, true, false, not, ◌||◌, List, [], ◌∷◌, arith, Text,
  Bool-cases, Result,
}
use cmgr.Cutover.{
  Machine, Faults, Creation, replace_runtime, created, recorded, started, stopped, removed,
  forgotten, Loop, start_one, start_all, publish, start_containers, pause_container_processes,
  resume_container_processes, remove_retired_container_ids, InstanceCutover,
  prepare_instance_cutover, rollback_instance_cutover, finish_instance_cutover, replace_paused,
}

-- Every container of Docker belongs to the instance or is retired.
abbrev pub AllRecorded : Machine → Type 0
AllRecorded s = (x : Text) → s.live x ≡ true → (s.owned x || s.retired x) ≡ true

replace_runtime-AllRecorded :
    (ids : List Text) (s : Machine) → AllRecorded s → AllRecorded (replace_runtime ids s)
replace_runtime-AllRecorded ids s r x l = ground (arith, r x l)

resume-AllRecorded :
    (f : Faults) (cs : List Text) (s : Machine)
    → AllRecorded s
    → AllRecorded (resume_container_processes f cs s).0
unfolding resume_container_processes
resume-AllRecorded f [] s r = r
resume-AllRecorded f (c ∷ cs) s r = elim (Bool-cases (f.start c)) [
  | inl b ↦ rw b (resume-AllRecorded f cs s r)
  | inr b ↦ rw b (resume-AllRecorded f cs (started c s) r)
]

pause-AllRecorded :
    (f : Faults) (cs : List Text) (s : Machine)
    → AllRecorded s
    → AllRecorded (pause_container_processes f cs s).machine
unfolding pause_container_processes
pause-AllRecorded f [] s r = r
pause-AllRecorded f (c ∷ cs) s r = elim (Bool-cases (f.stop c)) [
  | inl b ↦ rw b r
  | inr b ↦ rw b (pause-AllRecorded f cs (stopped c s) r)
]

removed-AllRecorded : (c : Text) (s : Machine) → AllRecorded s → AllRecorded (removed c s)
removed-AllRecorded c s r x l = ground (arith, l, r x)

forgotten-AllRecorded :
    (c : Text) (s : Machine) → AllRecorded s → AllRecorded (forgotten c (removed c s))
forgotten-AllRecorded c s r x l = ground (arith, l, r x)

remove-AllRecorded :
    (f : Faults) (cs : List Text) (s : Machine)
    → AllRecorded s
    → AllRecorded (remove_retired_container_ids f cs s).0
unfolding remove_retired_container_ids
remove-AllRecorded f [] s r = r
remove-AllRecorded f (c ∷ cs) s r = elim (Bool-cases (f.remove c)) [
  | inl b ↦ rw b (remove-AllRecorded f cs s r)
  | inr b ↦ elim (Bool-cases (f.forget c)) [
    | inl g ↦ rw b (rw g (remove-AllRecorded f cs (removed c s) (removed-AllRecorded c s r)))
    | inr g ↦
        rw b
          (rw g (remove-AllRecorded f cs (forgotten c (removed c s)) (forgotten-AllRecorded c s r)))
  ]
]

recorded-AllRecorded :
    (c : Text) (s : Machine) → AllRecorded s → AllRecorded (recorded c (created c s))
recorded-AllRecorded c s r x l = ground (arith, l, r x)

start_one-AllRecorded :
    (f : Faults) (c : Text) (ready : Bool) (s : Machine) (rest : Machine → Loop)
    → f.retire c ≡ false
    → AllRecorded s
    → AllRecorded (rest (started c (recorded c (created c s)))).machine
    → AllRecorded (start_one f c ready s rest).machine
start_one-AllRecorded f c ready s rest safe r next =
    either_way (λ (l : Loop). AllRecorded l.machine) (f.retire c) _ _
      (λ a.
        either_way (λ (l : Loop). AllRecorded l.machine) (f.start c) _ _
          (λ b.
            either_way (λ (l : Loop). AllRecorded l.machine) (not ready) _ _ (λ d. next)
              (λ d. recorded-AllRecorded c s r))
          (λ b. recorded-AllRecorded c s r))
      (λ a. absurd (ground (arith, a, safe)))

start_all-AllRecorded :
    (f : Faults) (cs : List Creation) (s : Machine)
    → ((c : Text) → f.retire c ≡ false)
    → AllRecorded s
    → AllRecorded (start_all f cs s).machine
unfolding start_all
start_all-AllRecorded f [] s safe r = r
start_all-AllRecorded f (c ∷ cs) s safe r =
    option_way (λ (l : Loop). AllRecorded l.machine) c.id _ _ (λ e. r)
      (λ id e.
        start_one-AllRecorded f id c.ready s (start_all f cs) (safe id) r
          (start_all-AllRecorded f cs _ safe (recorded-AllRecorded id s r)))

publish-AllRecorded :
    (f : Faults) (l : Loop) → AllRecorded l.machine → AllRecorded (publish f l).machine
publish-AllRecorded f l r = elim (Bool-cases l.finished) [
  | inr a ↦ rw (a, publish) r
  | inl a ↦ elim (Bool-cases (f.replace l.ids)) [
    | inl b ↦ rw (a, publish) (rw b r)
    | inr b ↦ rw (a, publish) (rw b (replace_runtime-AllRecorded l.ids l.machine r))
  ]
]

replace_paused-AllRecorded :
    (f : Faults) (old : List Text) (cs : List Creation) (s : Machine)
    → ((c : Text) → f.retire c ≡ false)
    → AllRecorded s
    → AllRecorded (replace_paused f old cs s).0
unfolding start_containers
replace_paused-AllRecorded f old cs s safe r =
    let l = publish f (start_all f cs s) in
    let p : AllRecorded l.machine =
      publish-AllRecorded f (start_all f cs s) (start_all-AllRecorded f cs s safe r) in
    either_way (λ (t : Machine × Result _ InstanceCutover). AllRecorded t.0) (not l.finished) _ _
      (λ h. p) (λ h. resume-AllRecorded f old _ (remove-AllRecorded f l.ids l.machine p))

prepare-AllRecorded :
    (f : Faults) (old : List Text) (cs : List Creation) (s : Machine)
    → ((c : Text) → f.retire c ≡ false)
    → AllRecorded s
    → AllRecorded (prepare_instance_cutover f old cs s).0
unfolding prepare_instance_cutover
prepare-AllRecorded f old cs s safe r =
    let l = pause_container_processes f old s in
    let p = pause-AllRecorded f old s r in
    either_way (λ (t : Machine × Result _ InstanceCutover). AllRecorded t.0) (not l.finished) _ _
      (λ h. replace_paused-AllRecorded f old cs l.machine safe p)
      (λ h. resume-AllRecorded f l.ids l.machine p)

rollback-AllRecorded :
    (f : Faults) (c : InstanceCutover) (s : Machine)
    → AllRecorded s
    → AllRecorded (rollback_instance_cutover f c s).0
unfolding rollback_instance_cutover
rollback-AllRecorded f c s r =
    either_way (λ (t : Machine × Bool). AllRecorded t.0) (f.replace c.old) _ _
      (λ h.
        resume-AllRecorded f c.old _
          (remove-AllRecorded f c.candidate _ (replace_runtime-AllRecorded c.old s r)))
      (λ h. r)

-- Preparing, undoing and finishing a cutover keep every container of Docker in the database, as one
-- of the instance or as a retired one, whatever calls of Docker or changes of rows fail, where this
-- held before and the row of each new container can be written.
pub cutover-AllRecorded :
    (f : Faults) (old : List Text) (cs : List Creation) (c : InstanceCutover) (s : Machine)
    → ((x : Text) → f.retire x ≡ false)
    → AllRecorded s
    → AllRecorded (prepare_instance_cutover f old cs s).0
      × AllRecorded (rollback_instance_cutover f c s).0
      × AllRecorded (finish_instance_cutover f c s).0
unfolding finish_instance_cutover
cutover-AllRecorded f old cs c s safe r = (
  prepare-AllRecorded f old cs s safe r,
  rollback-AllRecorded f c s r,
  remove-AllRecorded f c.old s r,
)
