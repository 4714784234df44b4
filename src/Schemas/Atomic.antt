-- ===== src/Schemas/Atomic.antt =====
-- A change of a schema that fails before its activation loses nothing.
use cmgr.Common.{
  ℕ, ◌≡◌, sym, subst, ap, inl, inr, ℤ, Option, none, some, List, [], flatten, Text, Bool-cases,
  Option-cases,
}
use cmgr.Store.{Db, Build, schema_exists, activate_schema_builds, StoreError}
use cmgr.Store.Activation.{activate_schema_builds_exact}
use cmgr.Store.Rows.{Kept, Kept-refl, Kept-trans, WellKeyed}
use cmgr.Schemas.{
  Docker, Converged, failed_before, activated, stage_groups, generate_groups, scale_all,
  fail_before_activation, finish_converge, activate_state, targets_of, converge_schema,
}
use cmgr.Schemas.Staging.{Grown-trans, stage_groups-Grown, generate_groups-Grown}
use cmgr.Schemas.Scaling.{Undoable, Undoable-refl, scale_all-Undoable, undo_instances-Undoable}

-- An ending before the activation keeps the rows of `a`; one after it is not spoken of.
abbrev LosesNothing : Db → Converged → Type 0
LosesNothing a (failed_before b es) = Kept a b
LosesNothing a (activated b es) = Unit

Undoable-Kept : {base db : Db} {created : List ℕ} → Undoable base db created → Kept base db
Undoable-Kept u = record { builds = λ r i h. rw u.builds i; instances = u.instances }

fail_before_activation-Kept :
    (docker : Docker) {a base : Db} (db : Db) (created : List ℕ) (e : StoreError)
    → Kept a base
    → Undoable base db created
    → LosesNothing a (fail_before_activation docker db created e)
fail_before_activation-Kept docker db created e k u =
    Kept-trans k (Undoable-Kept (undo_instances-Undoable docker db created u (λ n i. i)))

rolled_back :
    (db : Db) (s : Text) (targets : List (ℕ × ℤ)) {e : StoreError}
    → (activate_schema_builds db s targets).1 ≡ some e
    → (activate_schema_builds db s targets).0 ≡ db
rolled_back db s targets h = elim (activate_schema_builds_exact db s targets) [
  | inl e ↦ cc (ap (λ (p : Db × Option StoreError). p.1) e, h)
  | inr (x, e) ↦ ap (λ (p : Db × Option StoreError). p.0) e
]

activate_state-Kept :
    (docker : Docker) {a base : Db} (db : Db) (s : Text) (state : List Build) (created : List ℕ)
    → Kept a base
    → Undoable base db created
    → LosesNothing a (activate_state docker db s state created)
unfolding activate_state finish_converge
activate_state-Kept docker {a} {base} db s state created k u =
    let activation = activate_schema_builds db s (targets_of docker state) in
    elim (Option-cases activation.1) [
      | inl e ↦ rw (e, activate_state) tt
      | inr (x, e) ↦
          let v : Undoable base activation.0 created =
            subst (λ d. Undoable base d created)
              (sym (rolled_back db s (targets_of docker state) e)) u in
          rw (e, activate_state) (fail_before_activation-Kept docker activation.0 created x k v)
    ]

scaled-LosesNothing :
    (docker : Docker) {a : Db} (db : Db) (s : Text) (state : List Build)
    → Kept a db
    → LosesNothing a (elim (scale_all docker db state []).2 [
      | some e ↦
          fail_before_activation docker
            (scale_all docker db state []).0
            (scale_all docker db state []).1
            e
      | none ↦
          activate_state docker
            (scale_all docker db state []).0
            s
            state
            (scale_all docker db state []).1
    ])
scaled-LosesNothing docker db s state k =
    let scaled = scale_all docker db state [] in
    let u = scale_all-Undoable docker state db [] (Undoable-refl db) in
    elim (Option-cases scaled.2) [
      | inr (x, e) ↦ rw e (fail_before_activation-Kept docker scaled.0 scaled.1 x k u)
      | inl e ↦ rw e (activate_state-Kept docker scaled.0 s state scaled.1 k u)
    ]

converge_schema-LosesNothing :
    (docker : Docker) (db : Db) (s : Text) (groups : List (List Build))
    → WellKeyed db
    → LosesNothing db (converge_schema docker db s groups)
unfolding converge_schema
converge_schema-LosesNothing docker db s groups w =
    let staged = stage_groups db groups in
    let (g, all) = stage_groups-Grown db groups w in
    let made = generate_groups docker staged.0 staged.1 in
    let h = Grown-trans g (generate_groups-Grown docker staged.0 staged.1 (g.1) all) in
    elim (Bool-cases (schema_exists db s)) [
      | inr e ↦ rw (e, converge_schema) (Kept-refl db)
      | inl e ↦ elim (Option-cases made.1) [
        | inr (x, f) ↦
            rw (e, converge_schema)
              (rw f (fail_before_activation-Kept docker made.0 [] x (h.0) (Undoable-refl made.0)))
        | inl f ↦
            rw (e, converge_schema)
              (rw f (scaled-LosesNothing docker made.0 s (flatten staged.1) (h.0)))
      ]
    ]

-- A change of a schema that fails before the activation loses nothing, whatever the Docker daemon
-- answers in the course of it: every completed build of every schema is still there with the count
-- and the flag that it had, and every instance is still there. The builds must have distinct,
-- positive ids.
pub converge_schema-Kept :
    (docker : Docker) (db : Db) (s : Text) (groups : List (List Build)) {db' : Db}
    {es : List StoreError}
    → WellKeyed db
    → converge_schema docker db s groups ≡ failed_before db' es
    → Kept db db'
converge_schema-Kept docker db s groups w h =
    subst (LosesNothing db) h (converge_schema-LosesNothing docker db s groups w)
