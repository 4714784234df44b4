-- ===== src/Schemas/Staging.antt =====
-- Staging and building for convergeSchema keep the completed builds and the instances.
use cmgr.Common.{
  ◌≡◌, ◌≢◌, inl, inr, true, false, some, List, [], ◌∷◌, ◌==◌, arith, is_empty, all, All, Bool-cases,
  Option-cases, Result-cases,
}
use cmgr.Store.{Db, Build, find_build, stage_build, finalize_build, remove_build_metadata}
use cmgr.Store.Rows.{Kept-refl, Kept-trans, WellKeyed}
use cmgr.Store.Kept.{Grown, stage_build-Grown, remove_build_metadata-Grown, finalize_build-Grown}
use cmgr.Schemas.{
  Docker, execute_row, generate_row, generate_rows, generate_builds, stage_builds, stage_groups,
  generate_groups, all_complete,
}

pub Grown-refl : (a : Db) → WellKeyed a → Grown a a
Grown-refl a w = (Kept-refl a, w)

pub Grown-trans : {a b c : Db} → Grown a b → Grown b c → Grown a c
Grown-trans g h = (Kept-trans (g.0) (h.0), h.1)

-- Builds that have a row.
abbrev pub Staged : List Build → Type 0
Staged = All (λ b. b.id ≢ 0)

stage_builds-Grown :
    (db : Db) (ws : List Build)
    → WellKeyed db
    → Grown db (stage_builds db ws).0 × Staged (stage_builds db ws).1
unfolding stage_builds
stage_builds-Grown db [] w = (Grown-refl db w, tt)
stage_builds-Grown db (want ∷ ws) w =
    let (g, d) = stage_build-Grown db want w in
    let (h, all) = stage_builds-Grown (stage_build db want).0 ws (g.1) in
    (Grown-trans g h, (d, all))

pub stage_groups-Grown :
    (db : Db) (gs : List (List Build))
    → WellKeyed db
    → Grown db (stage_groups db gs).0 × All Staged (stage_groups db gs).1
unfolding stage_groups
stage_groups-Grown db [] w = (Grown-refl db w, tt)
stage_groups-Grown db (g ∷ gs) w =
    let (k, all) = stage_builds-Grown db g w in
    let (l, rest) = stage_groups-Grown (stage_builds db g).0 gs (k.1) in
    (Grown-trans k l, (all, rest))

module _ (docker : Docker) where
  open docker use {unchanged, executes}

  execute_row-Grown :
      (db : Db) (b row : Build)
      → WellKeyed db
      → find_build b.id db.builds ≡ some row
      → is_empty row.flag ≡ true
      → Grown db (execute_row docker db b).0
  unfolding execute_row
  execute_row-Grown db b row w found blank = elim (Option-cases (executes db b)) [
    | inl e ↦ elim (Result-cases (remove_build_metadata db b.id)) [
      | inl (db', r) ↦
          rw (e, execute_row) (rw r (remove_build_metadata-Grown db b.id row w found blank r))
      | inr (x, r) ↦ rw (e, execute_row) (rw r (Grown-refl db w))
    ]
    | inr (flag, e) ↦ elim (Result-cases (finalize_build db b.id flag)) [
      | inl (db', r) ↦
          rw (e, execute_row) (rw r (finalize_build-Grown db b.id row flag w found blank r))
      | inr (x, r) ↦ rw (e, execute_row) (rw r (Grown-refl db w))
    ]
  ]

  generate_row-Grown :
      (db : Db) (b : Build) → WellKeyed db → b.id ≢ 0 → Grown db (generate_row docker db b).0
  unfolding generate_row
  generate_row-Grown db b w d = elim (Bool-cases (is_empty b.flag)) [
    | inr full ↦ rw (full, generate_row) (Grown-refl db w)
    | inl blank ↦ elim (Option-cases (find_build b.id db.builds)) [
      | inl e ↦ rw (blank, zero_test, e, generate_row) (Grown-refl db w)
      | inr (row, e) ↦ elim (Bool-cases (is_empty row.flag)) [
        | inl bare ↦
            rw (blank, zero_test, e, generate_row) (rw bare (execute_row-Grown db b row w e bare))
        | inr done ↦ rw (blank, zero_test, e, generate_row) (rw done (Grown-refl db w))
      ]
    ]
  ]
    where
      zero_test : (b.id == 0) ≡ false
      zero_test = ground (arith, d)

  generate_rows-Grown :
      (db : Db) (bs : List Build)
      → WellKeyed db
      → Staged bs
      → Grown db (generate_rows docker db bs).0
  unfolding generate_rows
  generate_rows-Grown db [] w d = Grown-refl db w
  generate_rows-Grown db (b ∷ bs) w (d, ds) =
      let g = generate_row-Grown db b w d in
      elim (Result-cases (generate_row docker db b).1) [
        | inr (x, e) ↦ rw (e, generate_rows) g
        | inl (b', e) ↦
            let h = Grown-trans g (generate_rows-Grown (generate_row docker db b).0 bs (g.1) ds) in
            elim (Result-cases (generate_rows docker (generate_row docker db b).0 bs).1) [
              | inl (bs', r) ↦ rw (e, generate_rows) (rw r h)
              | inr (x, r) ↦ rw (e, generate_rows) (rw r h)
            ]
      ]

  generate_builds-Grown :
      (db : Db) (bs : List Build)
      → WellKeyed db
      → Staged bs
      → Grown db (generate_builds docker db bs).0
  unfolding generate_builds
  generate_builds-Grown db [] w d = Grown-refl db w
  generate_builds-Grown db (b ∷ bs) w d = elim (Bool-cases (all_complete docker (b ∷ bs))) [
    | inl c ↦ rw (c, generate_builds) (Grown-refl db w)
    | inr c ↦ elim (Bool-cases (unchanged db b.challenge)) [
      | inl u ↦ rw (c, generate_builds) (rw u (generate_rows-Grown db (b ∷ bs) w d))
      | inr u ↦ rw (c, generate_builds) (rw u (Grown-refl db w))
    ]
  ]

  pub generate_groups-Grown :
      (db : Db) (gs : List (List Build))
      → WellKeyed db
      → All Staged gs
      → Grown db (generate_groups docker db gs).0
  unfolding generate_groups
  generate_groups-Grown db [] w d = Grown-refl db w
  generate_groups-Grown db (g ∷ gs) w (d, ds) =
      let h = generate_builds-Grown db g w d in
      elim (Result-cases (generate_builds docker db g).1) [
        | inr (x, e) ↦ rw (e, generate_groups) h
        | inl (bs, e) ↦
            rw (e, generate_groups)
              (Grown-trans h (generate_groups-Grown (generate_builds docker db g).0 gs (h.1) ds))
      ]
