-- ===== src/Store.antt =====
-- The tables schemas, builds and instances with the statements of cmgr/database_builds.go and
-- cmgr/database_instances.go that schemas and instances are managed by.
pub mod Activation
pub mod Rows
pub mod Kept
mod Examples
use cmgr.Common.{
  ℕ, zero, suc, ◌+◌, Bool, true, false, not, ◌&&◌, ◌||◌, Option, none, some, List, [], ◌∷◌, ◌++◌,
  map, ◌==◌, ltb, if◌then◌else◌, ℤ, pos, negsuc, int_eq, Text, text_eq, is_empty, any, count, keep,
  Result, ok, err,
}

-- DYNAMIC_INSTANCES and LOCKED of cmgr/types.go.
abbrev pub dynamic_instances : ℤ
dynamic_instances = negsuc 0

abbrev pub locked : ℤ
locked = negsuc 1

-- A row of builds. An empty flag marks a build that was never completed.
pub record Build : Type 0 where
  pub id : ℕ
  pub flag : Text
  pub seed : ℤ
  pub format : Text
  pub challenge : Text
  pub schema : Text
  pub instance_count : ℤ

pub record Instance : Type 0 where
  pub id : ℕ
  pub build : ℕ

pub record SchemaRow : Type 0 where
  pub name : Text
  pub manual : Bool

pub record Db : Type 0 where
  pub schemas : List SchemaRow
  pub builds : List Build
  pub instances : List Instance

pub data StoreError : Type 0 where
  unknown_schema : Text → StoreError
  unknown_build : ℕ → StoreError
  unknown_instance : ℕ → StoreError
  conflict : StoreError
  missing_build : ℕ → StoreError
  builds_remain : Text → StoreError
  build_failed : StoreError
  start_failed : StoreError
  stop_failed : StoreError
  remove_failed : StoreError
  source_changed : Text → StoreError
  already_exists : Text → StoreError

-- SQLite gives a new row of an INTEGER PRIMARY KEY table the id after the largest one.
abbrev pub larger : ℕ → ℕ → ℕ
larger a b = if ltb a b then b else a

unfoldable pub fresh_build_id : List Build → ℕ
fresh_build_id [] = 1
fresh_build_id (b ∷ bs) = larger (suc b.id) (fresh_build_id bs)

unfoldable pub fresh_instance_id : List Instance → ℕ
fresh_instance_id [] = 1
fresh_instance_id (i ∷ is') = larger (suc i.id) (fresh_instance_id is')

unfoldable pub find_build : ℕ → List Build → Option Build
find_build n [] = none
find_build n (b ∷ bs) = let rest = find_build n bs in if b.id == n then some b else rest

unfoldable pub find_instance : ℕ → List Instance → Option Instance
find_instance n [] = none
find_instance n (i ∷ is') = let rest = find_instance n is' in if i.id == n then some i else rest

-- UNIQUE(schema, format, challenge, seed).
abbrev pub same_key : Build → Build → Bool
same_key a b =
    text_eq a.schema b.schema
    && text_eq a.format b.format
    && text_eq a.challenge b.challenge
    && int_eq a.seed b.seed

unfoldable pub find_key : Build → List Build → Option Build
find_key k [] = none
find_key k (b ∷ bs) = let rest = find_key k bs in if same_key k b then some b else rest

-- stageBuild: `INSERT ... ON CONFLICT DO NOTHING` with the count LOCKED, then the row is read back
-- and given the count that was asked for. The row of the table keeps its own count.
abbrev staged_row : Build → Db → Option Build → Db × Build
staged_row want db (some b) = (db, record b { instance_count = want.instance_count })
staged_row want db none =
    let row = record want { id = fresh_build_id db.builds; flag = []; instance_count = locked } in
    (
      record db { builds = db.builds ++ row ∷ [] },
      record row { instance_count = want.instance_count },
    )

unfoldable pub stage_build : Db → Build → Db × Build
stage_build db want = staged_row want db (find_key want db.builds)

-- openBuild: on a conflict the row takes the count of the request.
pub set_count : ℕ → ℤ → List Build → List Build
set_count n c [] = []
set_count n c (b ∷ bs) =
    (if b.id == n then record b { instance_count = c } else b) ∷ set_count n c bs

abbrev opened_row : Build → Db → Option Build → Db × Build
opened_row want db (some b) = (
  record db { builds = set_count b.id want.instance_count db.builds },
  record b { instance_count = want.instance_count },
)
opened_row want db none =
    let row = record want { id = fresh_build_id db.builds } in
    (record db { builds = db.builds ++ row ∷ [] }, row)

pub open_build : Db → Build → Db × Build
open_build db want = opened_row want db (find_key want db.builds)

-- finalizeBuild, as far as these tables go: the row takes the flag.
unfoldable pub set_flag : ℕ → Text → List Build → List Build
set_flag n f [] = []
set_flag n f (b ∷ bs) = (if b.id == n then record b { flag = f } else b) ∷ set_flag n f bs

unfoldable pub finalize_build : Db → ℕ → Text → Result StoreError Db
finalize_build db n f = elim (find_build n db.builds) [
  | none ↦ err (unknown_build n)
  | some b ↦ ok (record db { builds = set_flag n f db.builds })
]

unfoldable pub get_build_instances : Db → ℕ → List Instance
get_build_instances db n = keep (λ i. i.build == n) db.instances

-- removeBuildMetadata; the foreign key of instances refuses the deletion of a build in use.
unfoldable pub remove_build_metadata : Db → ℕ → Result StoreError Db
remove_build_metadata db n = elim (find_build n db.builds) [
  | none ↦ err (unknown_build n)
  | some b ↦
      if any (λ i. i.build == n) db.instances
      then err conflict
      else ok (record db { builds = keep (λ b. not (b.id == n)) db.builds })
]

-- `UPDATE builds SET instancecount = LOCKED WHERE schema = ?`, also lockSchema.
pub lock_all : Text → List Build → List Build
lock_all s [] = []
lock_all s (b ∷ bs) =
    (if text_eq b.schema s then record b { instance_count = locked } else b) ∷ lock_all s bs

-- `UPDATE builds SET instancecount = ? WHERE id = ? AND schema = ?` and the rows affected.
pub target_row : Text → ℕ → ℤ → Build → Build
target_row s n c b =
    if (b.id == n) && text_eq b.schema s then record b { instance_count = c } else b

-- The loop over the targets; a target without exactly one row ends the transaction.
pub apply_targets : Text → List (ℕ × ℤ) → List Build → Result StoreError (List Build)
apply_targets s [] bs = ok bs
apply_targets s ((n, c) ∷ ts) bs =
    let rest = apply_targets s ts (map (target_row s n c) bs) in
    if count (λ b. (b.id == n) && text_eq b.schema s) bs == 1 then rest else err (missing_build n)

-- activateSchemaBuilds; on an error the transaction is rolled back.
pub activate_schema_builds : Db → Text → List (ℕ × ℤ) → Db × Option StoreError
activate_schema_builds db s targets = elim (apply_targets s targets (lock_all s db.builds)) [
  | err e ↦ (db, some e)
  | ok bs ↦ (record db { builds = bs }, none)
]

unfoldable pub schema_exists : Db → Text → Bool
schema_exists db s = any (λ r. text_eq r.name s) db.schemas

pub find_schema : Text → List SchemaRow → Option SchemaRow
find_schema s [] = none
find_schema s (r ∷ rs) = let rest = find_schema s rs in if text_eq r.name s then some r else rest

pub schema_is_manual : Db → Text → Result StoreError Bool
schema_is_manual db s = elim (find_schema s db.schemas) [
  | none ↦ err (unknown_schema s)
  | some r ↦ ok r.manual
]

-- createSchemaRecord; the name is the primary key.
pub create_schema_record : Db → Text → Bool → Result StoreError Db
create_schema_record db s manual =
    if schema_exists db s
    then err (already_exists s)
    else ok (record db { schemas = db.schemas ++ record { name = s; manual = manual } ∷ [] })

pub has_builds : Db → Text → Bool
has_builds db s = any (λ b. text_eq b.schema s) db.builds

pub delete_schema_record_if_empty : Db → Text → Db
delete_schema_record_if_empty db s =
    if has_builds db s
    then db
    else record db { schemas = keep (λ r. not (text_eq r.name s)) db.schemas }

pub delete_schema_record : Db → Text → Result StoreError Db
delete_schema_record db s =
    if has_builds db s
    then err (builds_remain s)
    else if any (λ r. text_eq r.name s && not r.manual) db.schemas
    then ok (record db { schemas = keep (λ r. not (text_eq r.name s && not r.manual)) db.schemas })
    else err (unknown_schema s)

pub is_locked_in : Text → Build → Bool
is_locked_in s b = text_eq b.schema s && int_eq b.instance_count locked

pub removed_schema_builds : Db → Text → List ℕ
removed_schema_builds db s = map (λ b. b.id) (keep (is_locked_in s) db.builds)

-- The join of instances and builds.
pub removed_schema_instances : Db → Text → List ℕ
removed_schema_instances db s =
    map (λ i. i.id)
      (keep (λ i. any (λ b. (b.id == i.build) && is_locked_in s b) db.builds) db.instances)

pub lock_schema : Db → Text → Db
lock_schema db s = record db { builds = lock_all s db.builds }

-- openInstance and removeInstanceMetadata.
unfoldable pub open_instance : Db → ℕ → Db × ℕ
open_instance db b =
    let i = fresh_instance_id db.instances in
    (record db { instances = db.instances ++ record { id = i; build = b } ∷ [] }, i)

unfoldable pub remove_instance_metadata : Db → ℕ → Db
remove_instance_metadata db n = record db { instances = keep (λ i. not (i.id == n)) db.instances }
