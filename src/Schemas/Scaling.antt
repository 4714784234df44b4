-- ===== src/Schemas/Scaling.antt =====
-- The instances that convergeSchema starts can be stopped again without a loss.
use cmgr.Common.{
  ℕ, zero, suc, ◌≡◌, ◌≢◌, refl, sym, subst, ◌∙◌, inl, inr, not, List, [], ◌∷◌, ◌++◌, ◌==◌, arith,
  In, Bool-cases, Option-cases, Result, ok, err, Result-cases,
}
use cmgr.Store.{
  Db, Build, Instance, find_instance, open_instance, remove_instance_metadata, StoreError,
}
use cmgr.Store.Rows.{In-append, In-keep, In-snoc, instance_below_fresh}
use cmgr.Schemas.{
  Docker, new_instance, stop_instance, lookup_and_stop, scale_up, scale_all, undo_instances, wanted,
}

-- `db` has the builds of `base` and its instances, and none of those is among the created ones.
pub record Undoable (base db : Db) (created : List ℕ) : Type 0 where
  pub builds : db.builds ≡ base.builds
  pub instances : (i : Instance) → In i base.instances → In i db.instances
  pub apart : (c : ℕ) → In c created → (i : Instance) → In i base.instances → i.id ≢ c

pub Undoable-refl : (base : Db) → Undoable base base []
Undoable-refl base = record { builds = refl; instances = λ i h. h; apart = λ c h. absurd h }

-- An instance that is not one of `base` can go.
remove-Undoable :
    {base db : Db} {created : List ℕ} (n : ℕ)
    → Undoable base db created
    → ((i : Instance) → In i base.instances → i.id ≢ n)
    → Undoable base (remove_instance_metadata db n) created
unfolding remove_instance_metadata
remove-Undoable {db = db} n u d = record {
  builds = u.builds;
  instances = λ i h.
      let other : i.id ≢ n = d i h in
      In-keep (λ i. not (i.id == n)) i db.instances (u.instances i h) (ground (arith, other));
  apart = u.apart;
}

open-Undoable :
    {base db : Db} {created : List ℕ} (b : ℕ)
    → Undoable base db created
    → Undoable base (open_instance db b).0 created
unfolding open_instance
open-Undoable {db = db} b u = record {
  builds = u.builds;
  instances = λ i h. In-append i db.instances _ (u.instances i h);
  apart = u.apart;
}

new_id :
    {base db : Db} {created : List ℕ} (b : ℕ)
    → Undoable base db created
    → (i : Instance) → In i base.instances
    → i.id ≢ (open_instance db b).1
unfolding open_instance
new_id {db = db} b u i h = omega (arith, instance_below_fresh i db.instances (u.instances i h))

with_new :
    {base db : Db} {created : List ℕ} {n : ℕ}
    → Undoable base db created
    → ((i : Instance) → In i base.instances → i.id ≢ n)
    → Undoable base db (created ++ n ∷ [])
with_new {created = created} {n = n} u d = record {
  builds = u.builds;
  instances = u.instances;
  apart = λ c h i k. elim (In-snoc c created n h) [
    | inl old ↦ u.apart c old i k
    | inr new ↦ λ e. d i k (e ∙ sym new)
  ];
}

pub same_ok : {m n : ℕ} → ◌≡◌ {A = Result StoreError ℕ} (ok m) (ok n) → m ≡ n
same_ok e = ground arith

module _ (docker : Docker) where
  open docker use {starts, stops}

  -- What newInstance leaves, whether it fails or not.
  abbrev NewUndoable : Db → List ℕ → Db × Result StoreError ℕ → Type 0
  NewUndoable base created step =
      ((n : ℕ) → step.1 ≡ ok n → Undoable base step.0 (created ++ n ∷ []))
      × ((e : StoreError) → step.1 ≡ err e → Undoable base step.0 created)

  new_instance-Undoable :
      {base : Db} (db : Db) {created : List ℕ} (b : Build)
      → Undoable base db created
      → NewUndoable base created (new_instance docker db b)
  unfolding new_instance
  new_instance-Undoable {base} db {created} b u =
      let opened = open_instance db b.id in
      let v : Undoable base opened.0 created = open-Undoable b.id u in
      let grown : Undoable base opened.0 (created ++ opened.1 ∷ []) = with_new v (new_id b.id u) in
      elim (Bool-cases (starts opened.0 opened.1 b)) [
        | inl s ↦
            rw (s, new_instance)
              (
                λ n e. subst (λ m. Undoable base opened.0 (created ++ m ∷ [])) (same_ok e) grown,
                λ x e. cc,
              )
        | inr s ↦
            rw (s, new_instance) (λ n e. cc, λ x e. remove-Undoable opened.1 v (new_id b.id u))
      ]

  pub scale_up-Undoable :
      (n : ℕ) {base : Db} (db : Db) (b : Build) (created : List ℕ)
      → Undoable base db created
      → Undoable base (scale_up docker db b n created).0 (scale_up docker db b n created).1
  unfolding scale_up
  scale_up-Undoable zero db b created u = u
  scale_up-Undoable (suc n) db b created u =
      let (made, unmade) = new_instance-Undoable db b u in
      elim (Result-cases (new_instance docker db b).1) [
        | inl (i, e) ↦
            rw (e, scale_up)
              (scale_up-Undoable n (new_instance docker db b).0 b (created ++ i ∷ []) (made i e))
        | inr (x, e) ↦ rw (e, scale_up) (unmade x e)
      ]

  pub scale_all-Undoable :
      (bs : List Build) {base : Db} (db : Db) (created : List ℕ)
      → Undoable base db created
      → Undoable base (scale_all docker db bs created).0 (scale_all docker db bs created).1
  unfolding scale_all
  scale_all-Undoable [] db created u = u
  scale_all-Undoable (b ∷ bs) db created u =
      let step = scale_up docker db b (wanted docker b db) created in
      let v = scale_up-Undoable (wanted docker b db) db b created u in
      elim (Option-cases step.2) [
        | inr (x, e) ↦ rw (e, scale_all) v
        | inl e ↦ rw (e, scale_all) (scale_all-Undoable bs step.0 step.1 v)
      ]

  lookup_and_stop-Undoable :
      {base : Db} (db : Db) {created : List ℕ} (n : ℕ)
      → Undoable base db created
      → In n created
      → Undoable base (lookup_and_stop docker db n).0 created
  unfolding lookup_and_stop stop_instance
  lookup_and_stop-Undoable db n u h = elim (Option-cases (find_instance n db.instances)) [
    | inl e ↦ rw (e, lookup_and_stop) u
    | inr (row, e) ↦ elim (Bool-cases (stops db n)) [
      | inl s ↦ rw (e, lookup_and_stop) (rw (s, stop_instance) (remove-Undoable n u (u.apart n h)))
      | inr s ↦ rw (e, lookup_and_stop) (rw (s, stop_instance) u)
    ]
  ]

  pub undo_instances-Undoable :
      {base : Db} (db : Db) {created : List ℕ} (ns : List ℕ)
      → Undoable base db created
      → ((n : ℕ) → In n ns → In n created)
      → Undoable base (undo_instances docker db ns).0 created
  unfolding undo_instances
  undo_instances-Undoable db [] u h = u
  undo_instances-Undoable db (n ∷ ns) u h =
      lookup_and_stop-Undoable _ n (undo_instances-Undoable db ns u (λ m k. h m (inr k)))
        (h n (inl refl))
