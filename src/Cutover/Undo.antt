-- ===== src/Cutover/Undo.antt =====
-- A cutover that fails, or that is rolled back, leaves the old containers.
use cmgr.Common.{
  either_way, ◌≡◌, refl, sym, ap, subst, ◌∙◌, inl, inr, Bool, true, false, not, ◌||◌, List, arith,
  Text, Bool-cases, Result, ok, err,
}
use cmgr.Cutover.{
  Machine, elem, Faults, Creation, replace_runtime, Loop, start_all, publish, start_containers,
  pause_container_processes, resume_container_processes, remove_retired_container_ids,
  InstanceCutover, CutoverError, not_paused, not_replaced, replace_paused, resume_paused,
  prepare_instance_cutover, rollback_instance_cutover,
}
use cmgr.Cutover.Containers.{
  IsKept, pause-IsKept, resume-IsKept, resume-running, remove-live, remove-owned, start_all-IsAdded,
  start_all-Within, ids_of, pause-running,
}

-- Docker has the same containers, the instance owns the same, and the old ones run.
pub record IsRestored (old : List Text) (s t : Machine) : Type 0 where
  pub live : (x : Text) → t.live x ≡ s.live x
  pub owned : (x : Text) → t.owned x ≡ s.owned x
  pub running : (x : Text) → elem x old ≡ true → t.running x ≡ true

abbrev pub recovered : CutoverError → Bool
recovered (not_paused done) = done
recovered (not_replaced done) = done

-- The new ids stand for no container that is there.
abbrev pub AreNew : Machine → List Text → Type 0
AreNew s ids = (x : Text) → elem x ids ≡ true → s.live x ≡ false

-- Removing the new containers and starting the old ones.
clean :
    (f : Faults) (old ids : List Text) (s t : Machine)
    → AreNew s ids
    → ((x : Text) → t.live x ≡ (s.live x || elem x ids))
    → ((x : Text) → t.owned x ≡ s.owned x)
    → (remove_retired_container_ids f ids t).1 ≡ true
    → (resume_container_processes f old (remove_retired_container_ids f ids t).0).1 ≡ true
    → IsRestored old s (resume_container_processes f old (remove_retired_container_ids f ids t).0).0
clean f old ids s t new live owned a b =
    let u = (remove_retired_container_ids f ids t).0 in
    let k = resume-IsKept f old u in
    record {
      live = λ x. ap (λ g. g x) k.live ∙ remove-live f ids t x a ∙ ground (arith, live x, new x);
      owned = λ x. ap (λ g. g x) (k.owned ∙ remove-owned f ids t) ∙ owned x;
      running = λ x e. resume-running f old u x b ∙ ground (arith, e);
    }

publish-failed :
    (f : Faults) (l : Loop)
    → (publish f l).finished ≡ false
    → ((publish f l).machine ≡ l.machine) × ((publish f l).ids ≡ l.ids)
publish-failed f l h = elim (Bool-cases l.finished) [
  | inr a ↦ rw (a, publish) (refl, refl)
  | inl a ↦ elim (Bool-cases (f.replace l.ids)) [
    | inl b ↦ rw (a, publish) (rw b (refl, refl))
    | inr b ↦ absurd (ground (arith, h, a, b))
  ]
]

publish-finished :
    (f : Faults) (l : Loop)
    → (publish f l).finished ≡ true
    → ((publish f l).machine.live ≡ l.machine.live) × ((publish f l).ids ≡ l.ids)
publish-finished f l h = elim (Bool-cases l.finished) [
  | inr a ↦ absurd (ground (arith, h, a))
  | inl a ↦ elim (Bool-cases (f.replace l.ids)) [
    | inl b ↦ absurd (ground (arith, h, a, b))
    | inr b ↦ rw (a, publish) (rw b (refl, refl))
  ]
]

-- What prepareInstanceCutover answers, and how it leaves the machine.
abbrev Outcome : List Text → Machine → Machine × Result CutoverError InstanceCutover → Type 0
Outcome old s (t, err e) = recovered e ≡ true → IsRestored old s t
Outcome old s (t, ok c) =
    (c.old ≡ old)
    × AreNew s c.candidate
    × ((x : Text) → t.live x ≡ (s.live x || elem x c.candidate))

resume_paused-Outcome :
    (f : Faults) (old : List Text) (s : Machine)
    → ((x : Text) → elem x old ≡ true → s.running x ≡ true)
    → Outcome old s (resume_paused f (pause_container_processes f old s))
resume_paused-Outcome f old s runs h =
    let l = pause_container_processes f old s in
    let k = pause-IsKept f old s in
    let j = resume-IsKept f l.ids l.machine in
    record {
      live = λ x. ap (λ g. g x) (j.live ∙ k.live);
      owned = λ x. ap (λ g. g x) (j.owned ∙ k.owned);
      running = λ x e.
          resume-running f l.ids l.machine x h ∙ ground (arith, pause-running f old s x, runs x e);
    }

replace_paused-Outcome :
    (f : Faults) (old : List Text) (cs : List Creation) (s t : Machine)
    → IsKept s t
    → AreNew s (ids_of cs)
    → Outcome old s (replace_paused f old cs t)
unfolding start_containers
replace_paused-Outcome f old cs s t k new =
    let l = start_all f cs t in
    let add = start_all-IsAdded f cs t in
    let fresh : AreNew s l.ids = λ x e. new x (start_all-Within f cs t x e) in
    let live : (x : Text) → l.machine.live x ≡ (s.live x || elem x l.ids) =
      λ x. add.live x ∙ ap (λ g. g x || elem x l.ids) k.live in
    either_way (Outcome old s) (not (publish f l).finished) _ _
      (λ h.
        let (same, ids) = publish-finished f l (ground (arith, h)) in
        (
          refl,
          subst (AreNew s) (sym ids) fresh,
          λ x. ap (λ g. g x) same ∙ live x ∙ ap (λ i. s.live x || elem x i) (sym ids),
        ))
      (λ h r.
        let (same, ids) = publish-failed f l (ground (arith, h)) in
        clean f old (publish f l).ids s (publish f l).machine (subst (AreNew s) (sym ids) fresh)
          (λ x. ap (λ m. m.live x) same ∙ live x ∙ ap (λ i. s.live x || elem x i) (sym ids))
          (λ x. ap (λ m. m.owned x) same ∙ ap (λ g. g x) (add.owned ∙ k.owned)) (ground (arith, r))
          (ground (arith, r)))

prepare-Outcome :
    (f : Faults) (old : List Text) (cs : List Creation) (s : Machine)
    → ((x : Text) → elem x old ≡ true → s.running x ≡ true)
    → AreNew s (ids_of cs)
    → Outcome old s (prepare_instance_cutover f old cs s)
unfolding prepare_instance_cutover
prepare-Outcome f old cs s runs new =
    either_way (Outcome old s) (not (pause_container_processes f old s).finished) _ _
      (λ h.
        replace_paused-Outcome f old cs s (pause_container_processes f old s).machine
          (pause-IsKept f old s) new)
      (λ h. resume_paused-Outcome f old s runs)

-- A cutover that fails and whose recovery reports no problem leaves Docker with the same
-- containers, the instance with the same rows, and the old containers running, where these ran
-- before and no new container has the id of one that is there.
pub prepare_instance_cutover-IsRestored :
    (f : Faults) (old : List Text) (cs : List Creation) (s : Machine) {t : Machine}
    {e : CutoverError}
    → ((x : Text) → elem x old ≡ true → s.running x ≡ true)
    → AreNew s (ids_of cs)
    → prepare_instance_cutover f old cs s ≡ (t, err e)
    → recovered e ≡ true
    → IsRestored old s t
prepare_instance_cutover-IsRestored f old cs s runs new h =
    subst (Outcome old s) h (prepare-Outcome f old cs s runs new)

rollback-IsRestored :
    (f : Faults) (c : InstanceCutover) (s t : Machine)
    → AreNew s c.candidate
    → ((x : Text) → s.owned x ≡ elem x c.old)
    → ((x : Text) → t.live x ≡ (s.live x || elem x c.candidate))
    → (rollback_instance_cutover f c t).1 ≡ true
    → IsRestored c.old s (rollback_instance_cutover f c t).0
unfolding rollback_instance_cutover
rollback-IsRestored f c s t new owns live h = elim (Bool-cases (f.replace c.old)) [
  | inl b ↦ absurd (ground (arith, h, b))
  | inr b ↦ rw b (
      clean f c.old c.candidate s (replace_runtime c.old t) new live (λ x. sym (owns x))
        (ground (arith, h, b)) (ground (arith, h, b)))
]

-- A rollback of a prepared cutover that reports no error leaves Docker with the containers of
-- before, and the old ones owned by the instance and running, where the instance owned just these
-- before, they ran, and no new container has the id of one that was there.
pub rollback-prepare_instance_cutover :
    (f f' : Faults) (old : List Text) (cs : List Creation) (s : Machine) {t : Machine}
    {c : InstanceCutover}
    → ((x : Text) → elem x old ≡ true → s.running x ≡ true)
    → ((x : Text) → s.owned x ≡ elem x old)
    → AreNew s (ids_of cs)
    → prepare_instance_cutover f old cs s ≡ (t, ok c)
    → (rollback_instance_cutover f' c t).1 ≡ true
    → IsRestored old s (rollback_instance_cutover f' c t).0
rollback-prepare_instance_cutover f f' old cs s {t} {c} runs owns new h r =
    let (same, fresh, live) = subst (Outcome old s) h (prepare-Outcome f old cs s runs new) in
    subst (λ o. IsRestored o s (rollback_instance_cutover f' c t).0) same
      (rollback-IsRestored f' c s t fresh (λ x. owns x ∙ ap (elem x) (sym same)) live r)
