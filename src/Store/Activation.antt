-- ===== src/Store/Activation.antt =====
-- What activateSchemaBuilds leaves in the table builds.
use cmgr.Common.{
  ℕ, ◌⊎◌, ◌≡◌, refl, ap, ◌∙◌, inl, inr, none, some, List, [], ◌∷◌, map, ◌==◌, arith, if◌then◌else◌,
  ℤ, Text, text_eq, Bool-cases, ok, Result-cases,
}
use cmgr.Store.{
  Db, Build, StoreError, locked, lock_all, target_row, apply_targets, activate_schema_builds,
}

-- The count that the targets give a build; a later target for the same build wins.
abbrev pub target_of : ℕ → List (ℕ × ℤ) → ℤ → ℤ
target_of n [] c = c
target_of n ((k, t) ∷ ts) c = target_of n ts (if n == k then t else c)

-- A row once the targets were applied in order to its count `c`.
abbrev retarget : Text → List (ℕ × ℤ) → Build → Build
retarget s ts b =
    if text_eq b.schema s
    then record b { instance_count = target_of b.id ts b.instance_count }
    else b

-- A row of the schema gets its target, or LOCKED; any other row is as it was.
abbrev pub activated_row : Text → List (ℕ × ℤ) → Build → Build
activated_row s ts b =
    if text_eq b.schema s then record b { instance_count = target_of b.id ts locked } else b

retarget_nil : (s : Text) (b : Build) → b ≡ retarget s [] b
retarget_nil s b = elim (Bool-cases (text_eq b.schema s)) [ inl e ↦ rw e refl | inr e ↦ rw e refl ]

retarget_cons :
    (s : Text) (n : ℕ) (c : ℤ) (ts : List (ℕ × ℤ)) (b : Build)
    → retarget s ts (target_row s n c b) ≡ retarget s ((n, c) ∷ ts) b
unfolding target_row
retarget_cons s n c ts b = elim (Bool-cases (text_eq b.schema s)) [
  | inr f ↦ elim (Bool-cases (b.id == n)) [ inl g ↦ rw (g, f, f) refl | inr g ↦ rw (g, f) refl ]
  | inl e ↦ elim (Bool-cases (b.id == n)) [ inl g ↦ rw (g, e) (rw e refl) | inr g ↦ rw (g, e) refl ]
]

map_nil : (s : Text) (bs : List Build) → bs ≡ map (retarget s []) bs
map_nil s [] = refl
map_nil s (b ∷ bs) = cc (retarget_nil s b, map_nil s bs)

map_cons :
    (s : Text) (n : ℕ) (c : ℤ) (ts : List (ℕ × ℤ)) (bs : List Build)
    → map (retarget s ts) (map (target_row s n c) bs) ≡ map (retarget s ((n, c) ∷ ts)) bs
map_cons s n c ts [] = refl
map_cons s n c ts (b ∷ bs) = cc (retarget_cons s n c ts b, map_cons s n c ts bs)

apply_targets-map :
    (s : Text) (ts : List (ℕ × ℤ)) (bs : List Build) {r : List Build}
    → apply_targets s ts bs ≡ ok r
    → r ≡ map (retarget s ts) bs
unfolding apply_targets
apply_targets-map s [] bs h = ground (arith, map_nil s bs)
apply_targets-map s ((n, c) ∷ ts) bs {r} h =
    apply_targets-map s ts (map (target_row s n c) bs) (ground arith) ∙ map_cons s n c ts bs

after_lock :
    (s : Text) (ts : List (ℕ × ℤ)) (bs : List Build)
    → map (retarget s ts) (lock_all s bs) ≡ map (activated_row s ts) bs
unfolding lock_all
after_lock s ts [] = refl
after_lock s ts (b ∷ bs) = elim (Bool-cases (text_eq b.schema s)) [
  | inl e ↦
      rw (e, e)
        (ap (λ t. record b { instance_count = target_of b.id ts locked } ∷ t) (after_lock s ts bs))
  | inr e ↦ rw (e, e) (ap (λ t. b ∷ t) (after_lock s ts bs))
]

-- Activation is all or nothing. Without an error the rows are those before, in order, except that
-- each build of the schema has the count that its targets give, or LOCKED if it has none, and
-- schemas and instances are as before; with an error nothing has changed.
pub activate_schema_builds_exact :
    (db : Db) (s : Text) (targets : List (ℕ × ℤ))
    → (activate_schema_builds db s targets
        ≡ (record db { builds = map (activated_row s targets) db.builds }, none))
      ⊎ ((e : StoreError) × (activate_schema_builds db s targets ≡ (db, some e)))
unfolding activate_schema_builds
activate_schema_builds_exact db s targets =
    elim (Result-cases (apply_targets s targets (lock_all s db.builds))) [
      | inl (bs, e) ↦
          let exact : bs ≡ map (activated_row s targets) db.builds =
            apply_targets-map s targets (lock_all s db.builds) e ∙ after_lock s targets db.builds in
          inl (rw (e, activate_schema_builds) (rw exact refl))
      | inr (x, e) ↦ inr (x, rw (e, activate_schema_builds) refl)
    ]
