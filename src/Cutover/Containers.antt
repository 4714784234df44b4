-- ===== src/Cutover/Containers.antt =====
-- What the loops over containers change.
use cmgr.Common.{
  either_way, option_way, ◌≡◌, refl, ◌∙◌, inl, inr, Bool, true, not, ◌&&◌, ◌||◌, none, some, List,
  [], ◌∷◌, arith, Text, Bool-cases, Option-cases,
}
use cmgr.Cutover.{
  Machine, elem, Faults, Creation, created, recorded, started, stopped, removed, forgotten, Loop,
  start_one, start_all, pause_container_processes, resume_container_processes,
  remove_retired_container_ids,
}

-- Two machines with the same containers and the same rows of the instance.
pub record IsKept (s t : Machine) : Type 0 where
  pub live : t.live ≡ s.live
  pub owned : t.owned ≡ s.owned

pub pause-IsKept :
    (f : Faults) (cs : List Text) (s : Machine)
    → IsKept s (pause_container_processes f cs s).machine
unfolding pause_container_processes
pause-IsKept f [] s = record { live = refl; owned = refl }
pause-IsKept f (c ∷ cs) s =
    let k = pause-IsKept f cs (stopped c s) in
    elim (Bool-cases (f.stop c)) [
      | inl b ↦ rw b (record { live = refl; owned = refl })
      | inr b ↦ rw b (record { live = k.live; owned = k.owned })
    ]

pub resume-IsKept :
    (f : Faults) (cs : List Text) (s : Machine) → IsKept s (resume_container_processes f cs s).0
unfolding resume_container_processes
resume-IsKept f [] s = record { live = refl; owned = refl }
resume-IsKept f (c ∷ cs) s = elim (Bool-cases (f.start c)) [
  | inl b ↦ rw b (resume-IsKept f cs s)
  | inr b ↦
      let k = resume-IsKept f cs (started c s) in rw b (record { live = k.live; owned = k.owned })
]

-- A container that runs still runs, and a container that was started runs.
pub resume-running :
    (f : Faults) (cs : List Text) (s : Machine) (x : Text)
    → (resume_container_processes f cs s).1 ≡ true
    → (resume_container_processes f cs s).0.running x ≡ (elem x cs || s.running x)
unfolding resume_container_processes
resume-running f [] s x h = refl
resume-running f (c ∷ cs) s x h = elim (Bool-cases (f.start c)) [
  | inl b ↦ absurd (ground (arith, h, b))
  | inr b ↦ rw b (resume-running f cs (started c s) x (rw b at h) ∙ ground arith)
]

pub remove-live :
    (f : Faults) (cs : List Text) (s : Machine) (x : Text)
    → (remove_retired_container_ids f cs s).1 ≡ true
    → (remove_retired_container_ids f cs s).0.live x ≡ (s.live x && not (elem x cs))
unfolding remove_retired_container_ids
remove-live f [] s x h = ground arith
remove-live f (c ∷ cs) s x h = elim (Bool-cases (f.remove c)) [
  | inl b ↦ absurd (ground (arith, h, b))
  | inr b ↦ elim (Bool-cases (f.forget c)) [
    | inl g ↦ absurd (ground (arith, h, b, g))
    | inr g ↦
        rw b (
          rw g
            (remove-live f cs (forgotten c (removed c s)) x (rw g at (rw b at h)) ∙ ground arith))
  ]
]

pub remove-owned :
    (f : Faults) (cs : List Text) (s : Machine)
    → (remove_retired_container_ids f cs s).0.owned ≡ s.owned
unfolding remove_retired_container_ids
remove-owned f [] s = refl
remove-owned f (c ∷ cs) s = elim (Bool-cases (f.remove c)) [
  | inl b ↦ rw b (remove-owned f cs s)
  | inr b ↦ elim (Bool-cases (f.forget c)) [
    | inl g ↦ rw b (rw g (remove-owned f cs (removed c s)))
    | inr g ↦ rw b (rw g (remove-owned f cs (forgotten c (removed c s))))
  ]
]

-- What the new containers add.
pub record IsAdded (s : Machine) (l : Loop) : Type 0 where
  pub live : (x : Text) → l.machine.live x ≡ (s.live x || elem x l.ids)
  pub owned : l.machine.owned ≡ s.owned

start_one-IsAdded :
    (f : Faults) (c : Text) (ready : Bool) (s : Machine) (rest : Machine → Loop)
    → IsAdded (started c (recorded c (created c s))) (rest (started c (recorded c (created c s))))
    → IsAdded s (start_one f c ready s rest)
start_one-IsAdded f c ready s rest r =
    either_way (IsAdded s) (f.retire c) _ _
      (λ a.
        either_way (IsAdded s) (f.start c) _ _
          (λ b.
            either_way (IsAdded s) (not ready) _ _
              (λ d. record { live = λ x. r.live x ∙ ground arith; owned = r.owned })
              (λ d. record { live = λ x. ground arith; owned = refl }))
          (λ b. record { live = λ x. ground arith; owned = refl }))
      (λ a. record { live = λ x. ground arith; owned = refl })

pub start_all-IsAdded :
    (f : Faults) (cs : List Creation) (s : Machine) → IsAdded s (start_all f cs s)
unfolding start_all
start_all-IsAdded f [] s = record { live = λ x. ground arith; owned = refl }
start_all-IsAdded f (c ∷ cs) s =
    option_way (IsAdded s) c.id _ _ (λ e. record { live = λ x. ground arith; owned = refl })
      (λ id e. start_one-IsAdded f id c.ready s (start_all f cs) (start_all-IsAdded f cs _))

-- The ids that Docker would give.
abbrev pub ids_of : List Creation → List Text
ids_of [] = []
ids_of (c ∷ cs) = elim c.id [ none ↦ [] | some id ↦ id ∷ ids_of cs ]

-- Every container that was created has one of the ids.
abbrev Within : List Text → Loop → Type 0
Within ids l = (x : Text) → elem x l.ids ≡ true → elem x ids ≡ true

start_one-Within :
    (f : Faults) (c : Text) (ready : Bool) (s : Machine) (rest : Machine → Loop) (ids : List Text)
    → Within ids (rest (started c (recorded c (created c s))))
    → Within (c ∷ ids) (start_one f c ready s rest)
start_one-Within f c ready s rest ids r =
    either_way (Within (c ∷ ids)) (f.retire c) _ _
      (λ a.
        either_way (Within (c ∷ ids)) (f.start c) _ _
          (λ b.
            either_way (Within (c ∷ ids)) (not ready) _ _ (λ d x e. ground (arith, e, r x))
              (λ d x e. ground (arith, e)))
          (λ b x e. ground (arith, e)))
      (λ a x e. ground (arith, e))

pub start_all-Within :
    (f : Faults) (cs : List Creation) (s : Machine) → Within (ids_of cs) (start_all f cs s)
unfolding start_all
start_all-Within f [] s = λ x e. e
start_all-Within f (c ∷ cs) s = elim (Option-cases c.id) [
  | inl e ↦ rw (e, start_all) (λ x h. h)
  | inr (id, e) ↦
      rw (e, start_all)
        (start_one-Within f id c.ready s (start_all f cs) (ids_of cs) (start_all-Within f cs _))
]

pub pause-running :
    (f : Faults) (cs : List Text) (s : Machine) (x : Text)
    → (pause_container_processes f cs s).machine.running x
      ≡ (s.running x && not (elem x (pause_container_processes f cs s).ids))
unfolding pause_container_processes
pause-running f [] s x = ground arith
pause-running f (c ∷ cs) s x = elim (Bool-cases (f.stop c)) [
  | inl b ↦ rw b (ground arith)
  | inr b ↦ rw b (pause-running f cs (stopped c s) x ∙ ground arith)
]
