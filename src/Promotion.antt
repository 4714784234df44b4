-- ===== src/Promotion.antt =====
-- The staged update of a build in cmgr/docker.go: promoteStagedBuild puts the staged images and
-- artifacts in the place of the current ones, rollbackStagedBuild puts these back, and
-- finishStagedBuild and discardStagedBuild remove what is left over.
pub mod Names
pub mod Images
pub mod Archives
pub mod Rollback
pub mod Visible
mod Examples
pub mod Branches
pub mod Outcome
pub mod Leftover
pub mod Cleanup
use cmgr.Common.{
  ◌≡◌, Bool, true, false, not, ◌&&◌, Option, none, some, List, [], ◌∷◌, ◌++◌, map, if◌then◌else◌,
  Text, codes, text_eq, ℤ, itoa, Result, ok, err,
}
use cmgr.Staging.{build_image_name}

-- What names stand for: image names for ids, files of the artifacts directory for their contents.
pub record World : Type 0 where
  pub image : Text → Option Text
  pub archive : Text → Option Text

abbrev pub set : Text → Option Text → (Text → Option Text) → Text → Option Text
set k v f j = if text_eq k j then v else f j

-- Which calls fail, other than with "not found".
pub record Faults : Type 0 where
  pub inspect : Text → Bool
  pub tag : (source target : Text) → Bool
  pub remove : Text → Bool
  pub stat : Text → Bool
  pub rename : (from to : Text) → Bool
  pub unlink : Text → Bool

pub record Candidate : Type 0 where
  pub id : ℤ
  pub challenge : Text
  pub hosts : List Text
  pub has_artifacts : Bool

unfoldable pub artifacts_filename : ℤ → Text
artifacts_filename id = itoa id ++ codes ".tar.gz"

-- With a qualifier that is not empty.
unfoldable pub qualified_filename : Text → ℤ → Text
qualified_filename q id = 46 ∷ q ++ 45 ∷ artifacts_filename id

unfoldable pub backup_filename : Text → ℤ → Text
backup_filename q id = codes ".cmgr-old-" ++ q ++ 45 ∷ artifacts_filename id

abbrev pub canonical : Candidate → Text → Text
canonical b host = build_image_name b.challenge b.id host []

abbrev pub staged : Candidate → Text → Text → Text
staged b q host = build_image_name b.challenge b.id host q

-- `none` in canonical_images is the empty id of the source: there was no image.
pub record Promotion : Type 0 where
  pub canonical_images : List (Text × Option Text)
  pub staged_names : List Text
  pub canonical_artifact : Text
  pub backup_artifact : Text
  pub had_artifact : Bool
  pub installed_artifact : Bool

-- The calls give the new state, and whether they succeed.
abbrev pub tag_id : Faults → Text → Text → World → World × Bool
tag_id d id target w =
    if d.tag id target
    then (w, false)
    else (record w { image = set target (some id) w.image }, true)

abbrev pub tag_name : Faults → Text → Text → World → World × Bool
tag_name d source target w = elim (w.image source) [
  | none ↦ (w, false)
  | some id ↦
      if d.tag source target
      then (w, false)
      else (record w { image = set target (some id) w.image }, true)
]

abbrev pub remove_image : Faults → Text → World → World × Bool
remove_image d name w =
    if d.remove name then (w, false) else (record w { image = set name none w.image }, true)

abbrev pub unlink_file : Faults → Text → World → World × Bool
unlink_file d name w =
    if d.unlink name then (w, false) else (record w { archive = set name none w.archive }, true)

abbrev pub rename_file : Faults → Text → Text → World → World × Bool
rename_file d from to w = elim (w.archive from) [
  | none ↦ (w, false)
  | some contents ↦
      if d.rename from to
      then (w, false)
      else (record w { archive = set to (some contents) (set from none w.archive) }, true)
]

-- A second call on what the first left; both must succeed.
abbrev pub and_then : World × Bool → (World → World × Bool) → World × Bool
and_then (w, done) next = let (w', done') = next w in (w', done && done')

-- What follows a call that failed, and one that succeeded.
abbrev pub attempt : {A : Type 0} → World × Bool → (World → A) → (World → A) → A
attempt (w, done) failed next = if done then next w else failed w

abbrev pub restore_image : Faults → Text → Option Text → World → World × Bool
restore_image d name none w = remove_image d name w
restore_image d name (some id) w = tag_id d id name w

unfoldable pub restore_images : Faults → List (Text × Option Text) → World → World × Bool
restore_images d [] w = (w, true)
restore_images d ((name, id) ∷ es) w = and_then (restore_image d name id w) (restore_images d es)

abbrev pub uninstall : Faults → Promotion → World → World × Bool
uninstall d p w = if p.installed_artifact then unlink_file d p.canonical_artifact w else (w, true)

abbrev pub put_back : Faults → Promotion → World → World × Bool
put_back d p w =
    if p.had_artifact then rename_file d p.backup_artifact p.canonical_artifact w else (w, true)

-- Every step runs, whether or not the steps before it succeed.
unfoldable pub rollback_staged_build : Faults → Promotion → World → World × Bool
rollback_staged_build d p w =
    and_then (and_then (restore_images d p.canonical_images w) (uninstall d p)) (put_back d p)

pub data PromotionError : Type 0 where
  not_inspected : PromotionError
  not_tagged not_preserved no_stat not_installed : (rolled_back : Bool) → PromotionError

-- What the canonical names of the images stand for.
unfoldable pub snapshot_images :
    Faults → Candidate → List Text → World → Option (List (Text × Option Text))
snapshot_images d b [] w = some []
snapshot_images d b (h ∷ hs) w = elim (snapshot_images d b hs w) [
  | none ↦ none
  | some es ↦
      if d.inspect (canonical b h)
      then none
      else some ((canonical b h, w.image (canonical b h)) ∷ es)
]

-- The loop stops at the first image that cannot be tagged.
unfoldable pub tag_images : Faults → Candidate → Text → List Text → World → World × Bool
tag_images d b q [] w = (w, true)
tag_images d b q (h ∷ hs) w =
    attempt (tag_name d (staged b q h) (canonical b h) w) (λ v. (v, false)) (tag_images d b q hs)

abbrev pub abandon :
    Faults → Promotion → (Bool → PromotionError) → World → World × Result PromotionError Promotion
abandon d p e w = let (w', done) = rollback_staged_build d p w in (w', err (e done))

abbrev pub install :
    Faults → Candidate → Text → Promotion → World → World × Result PromotionError Promotion
install d b q p w =
    if not b.has_artifacts
    then (w, ok p)
    else attempt (rename_file d (qualified_filename q b.id) p.canonical_artifact w)
        (abandon d p not_installed) (λ v. (v, ok (record p { installed_artifact = true })))

abbrev pub promote_artifacts :
    Faults → Candidate → Text → Promotion → World → World × Result PromotionError Promotion
promote_artifacts d b q p w =
    if d.stat p.canonical_artifact
    then abandon d p no_stat w
    else elim (w.archive p.canonical_artifact) [
      | none ↦ install d b q p w
      | some contents ↦
          attempt (rename_file d p.canonical_artifact p.backup_artifact w)
            (abandon d p not_preserved) (install d b q (record p { had_artifact = true }))
    ]

-- The record before anything is changed.
abbrev pub prepared : Candidate → Text → List (Text × Option Text) → Promotion
prepared b q images = record {
  canonical_images = images;
  staged_names = map (staged b q) b.hosts;
  canonical_artifact = artifacts_filename b.id;
  backup_artifact = backup_filename q b.id;
  had_artifact = false;
  installed_artifact = false;
}

abbrev pub promote_images :
    Faults
    → Candidate
    → Text
    → List (Text × Option Text)
    → World
    → World × Result PromotionError Promotion
promote_images d b q images w =
    attempt (tag_images d b q b.hosts w) (abandon d (prepared b q images) not_tagged)
      (promote_artifacts d b q (prepared b q images))

unfoldable pub promote_staged_build :
    Faults → Candidate → Text → World → World × Result PromotionError Promotion
promote_staged_build d b q w = elim (snapshot_images d b b.hosts w) [
  | none ↦ (w, err not_inspected)
  | some images ↦ promote_images d b q images w
]

pub remove_images : Faults → List Text → World → World × Bool
remove_images d [] w = (w, true)
remove_images d (n ∷ ns) w = and_then (remove_image d n w) (remove_images d ns)

pub finish_staged_build : Faults → Promotion → World → World × Bool
finish_staged_build d p w =
    and_then (remove_images d p.staged_names w)
      (λ v. if p.had_artifact then unlink_file d p.backup_artifact v else (v, true))

-- `hosts` are those of the challenge.
pub discard_staged_build : Faults → List Text → Candidate → Text → World → World × Bool
discard_staged_build d hosts b q w =
    and_then (remove_images d (map (staged b q) hosts) w)
      (unlink_file d (qualified_filename q b.id))
