-- ===== src/Schemas/Lifecycle.antt =====
-- Start and Stop of cmgr/api.go undo each other, and a failed Start leaves no trace.
use cmgr.Common.{
  ℕ, ◌≤◌, ◌≡◌, refl, sym, subst, ap, ◌∙◌, ◌⊎◌, inl, inr, true, false, not, none, some, List, [],
  ◌∷◌, ◌++◌, ◌==◌, arith, keep, Bool-cases, Option-cases, int_eq, int_eq_iff, Result, ok, err,
}
use cmgr.Store.{
  Db, Build, Instance, StoreError, unknown_build, conflict, start_failed, dynamic_instances,
  fresh_instance_id, find_build, find_instance, open_instance, remove_instance_metadata,
}
use cmgr.Schemas.{Docker, new_instance, stop_instance}
use cmgr.Store.Rows.{find_build-In}
use cmgr.Schemas.Scaling.{same_ok}
use cmgr.Schemas.Api.{start, stop}

keep_new :
    (is' : List Instance) (x : Instance)
    → fresh_instance_id is' ≤ x.id
    → keep (λ i. not (i.id == x.id)) (is' ++ x ∷ []) ≡ is'
unfolding fresh_instance_id
keep_new [] x h = ground arith
keep_new (i ∷ is') x h =
    let rest = keep_new is' x (ground arith) in
    let other : (i.id == x.id) ≡ false = ground arith in rw (other, rest)

find_new :
    (is' : List Instance) (x : Instance)
    → fresh_instance_id is' ≤ x.id
    → find_instance x.id (is' ++ x ∷ []) ≡ some x
unfolding fresh_instance_id find_instance
find_new [] x h = ground arith
find_new (i ∷ is') x h = ground (arith, find_new is' x (ground arith))

remove-open_instance :
    (db : Db) (b : ℕ) → remove_instance_metadata (open_instance db b).0 (open_instance db b).1 ≡ db
unfolding open_instance remove_instance_metadata
remove-open_instance db b =
    ap (λ l. record db { instances = l }) (keep_new db.instances _ (omega arith))

-- What Start does: either nothing changes and an error is reported, or the build is a dynamic one
-- and the tables are those before with one row more, for the instance that is returned.
pub start_exact :
    (docker : Docker) (db : Db) (n : ℕ)
    → ((e : StoreError) × (start docker db n ≡ (db, err e)))
      ⊎ ((b : Build) × (find_build n db.builds ≡ some b)
          × (b.instance_count ≡ dynamic_instances)
          × (start docker db n ≡ ((open_instance db b.id).0, ok (open_instance db b.id).1)))
unfolding start new_instance
start_exact docker db n = elim (Option-cases (find_build n db.builds)) [
  | inl e ↦ inl (unknown_build n, rw (e, start) refl)
  | inr (b, e) ↦
      let opened = open_instance db b.id in
      elim (Bool-cases (int_eq b.instance_count dynamic_instances)) [
        | inr managed ↦ inl (conflict, rw (e, start) (rw managed refl))
        | inl dynamic ↦ elim (Bool-cases (docker.starts opened.0 opened.1 b)) [
          | inl s ↦ inr (
            b,
            e,
            (int_eq_iff _ _).0 dynamic,
            rw (e, start) (rw dynamic (rw (s, new_instance) refl)),
          )
          | inr s ↦ inl (
            start_failed,
            rw (e, start)
                (rw dynamic (rw (s, new_instance) (rw (remove-open_instance db b.id) refl))),
          )
        ]
      ]
]

found_after :
    (db : Db) (b : ℕ)
    → find_instance (open_instance db b).1 (open_instance db b).0.instances
      ≡ some (record { id = (open_instance db b).1; build = b })
unfolding open_instance
found_after db b = find_new db.instances _ (omega arith)

builds_after : (db : Db) (b : ℕ) → (open_instance db b).0.builds ≡ db.builds
unfolding open_instance
builds_after db b = refl

stop-open_instance :
    (docker : Docker) (db : Db) (b : Build)
    → find_build b.id db.builds ≡ some b
    → b.instance_count ≡ dynamic_instances
    → docker.stops (open_instance db b.id).0 (open_instance db b.id).1 ≡ true
    → stop docker (open_instance db b.id).0 (open_instance db b.id).1 ≡ (db, none)
unfolding stop stop_instance
stop-open_instance docker db b found dynamic s =
    rw (found_after db b.id, stop)
      (rw (builds_after db b.id) (
        rw found (
          rw ((int_eq_iff _ _).1 dynamic)
            (rw (s, stop_instance) (rw (remove-open_instance db b.id) refl)))))

-- Stop undoes Start: if Docker can stop the instance that was just started, it is stopped, and the
-- tables are those before the start.
pub stop-start :
    (docker : Docker) (db : Db) (n : ℕ) {db' : Db} {i : ℕ}
    → start docker db n ≡ (db', ok i)
    → docker.stops db' i ≡ true
    → stop docker db' i ≡ (db, none)
stop-start docker db n {db'} {i} h s = elim (start_exact docker db n) [
  | inl (e, k) ↦ cc (sym k ∙ h)
  | inr (b, found, dynamic, k) ↦
      let (there, same) = find_build-In n db.builds found in
      let p = sym k ∙ h in
      let p0 : (open_instance db b.id).0 ≡ db' = ap (λ (q : Db × Result StoreError ℕ). q.0) p in
      let p1 : (open_instance db b.id).1 ≡ i =
        same_ok (ap (λ (q : Db × Result StoreError ℕ). q.1) p) in
      subst (λ d. stop docker d i ≡ (db, none)) p0
        (subst (λ m. stop docker (open_instance db b.id).0 m ≡ (db, none)) p1
          (stop-open_instance docker db b
            (subst (λ m. find_build m db.builds ≡ some b) (sym same) found) dynamic
            (rw (p0, p1) s)))
]
