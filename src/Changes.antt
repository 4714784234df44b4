-- ===== src/Changes.antt =====
-- DetectChanges and Update of cmgr/api.go: the challenges of a directory against those of the database.
pub mod Sorted
mod Examples
use cmgr.Common.{
  ℕ, ◌≡◌, Bool, true, false, not, ◌&&◌, ◌||◌, Option, none, some, List, [], ◌∷◌, ◌++◌, ◌==◌, map,
  length, keep, all, any, if◌then◌else◌, Text, codes, text_eq, is_empty, lookup, delete,
}

-- What identifies a seccomp policy.
pub record Fingerprint : Type 0 where
  pub legacy : Bool
  pub tweaks : List Text
  pub profile : Text
  pub profile_hash : Text

-- The columns and fields that DetectChanges reads; `policies` are the policies of the options of each
-- host, `none` for options without one.
pub record Challenge : Type 0 where
  pub id : Text
  pub path : Text
  pub kind : Text
  pub source_digest : Text
  pub metadata_digest : Text
  pub solve_script : Bool
  pub policies : List (Text × Option Fingerprint)

abbrev pub Found : Type 0
Found = List (Text × Challenge)

pub data ChangeError : Type 0 where
  bad_directory : ChangeError
  bad_challenge : Text → ChangeError  -- of the walk through the directory
  not_listed : ChangeError
  not_looked_up : Text → ChangeError

-- The fields of ChallengeUpdates.
pub record Updates : Type 0 where
  pub added : List Challenge
  pub refreshed : List Challenge
  pub updated : List Challenge
  pub removed : List Challenge
  pub unmodified : List Challenge
  pub errors : List ChangeError

-- What the file system and the database answer. `directory` is the normalized path; `inventory` gives
-- the challenges in it by their ids, none of them after an error of the walk; `same_options` is
-- reflect.DeepEqual.
pub record Answers : Type 0 where
  pub directory : Option Text
  pub inventory : Text → Found × List ChangeError
  pub listed : Option (List Challenge)
  pub stored : Text → Option Challenge
  pub inside : (path dir : Text) → Bool
  pub challenge_dir : Text
  pub same_options : Challenge → Challenge → Bool

abbrev texts_eq : List Text → List Text → Bool
texts_eq [] [] = true
texts_eq [] (t ∷ ts) = false
texts_eq (s ∷ ss) [] = false
texts_eq (s ∷ ss) (t ∷ ts) = text_eq s t && texts_eq ss ts

abbrev bool_eq : Bool → Bool → Bool
bool_eq true b = b
bool_eq false b = not b

abbrev pub fingerprint_eq : Fingerprint → Fingerprint → Bool
fingerprint_eq a b =
    bool_eq a.legacy b.legacy
    && texts_eq a.tweaks b.tweaks
    && text_eq a.profile b.profile
    && text_eq a.profile_hash b.profile_hash

-- challengeSeccompPolicies: only hosts with a policy.
abbrev pub challenge_seccomp_policies : List (Text × Option Fingerprint) → List (Text × Fingerprint)
challenge_seccomp_policies [] = []
challenge_seccomp_policies ((host, none) ∷ os) = challenge_seccomp_policies os
challenge_seccomp_policies ((host, some f) ∷ os) = (host, f) ∷ challenge_seccomp_policies os

abbrev pub has_policy : List (Text × Fingerprint) → Text × Fingerprint → Bool
has_policy ps (host, f) = elim (lookup host ps) [ none ↦ false | some g ↦ fingerprint_eq f g ]

-- Equality of the two maps.
pub seccomp_policies_equal : Challenge → Challenge → Bool
seccomp_policies_equal a b =
    let left = challenge_seccomp_policies a.policies in
    let right = challenge_seccomp_policies b.policies in
    (length left == length right) && all (has_policy right) left

abbrev pub is_hacksport_challenge_type : Text → Bool
is_hacksport_challenge_type kind =
    any (text_eq kind)
      (codes "hacksport" ∷ codes "hacksport-ubuntu26" ∷ codes "hacksport-legacy" ∷ [])

pub safe_to_refresh : Answers → Challenge → Bool
safe_to_refresh a new = elim (a.stored new.id) [
  | none ↦ false
  | some old ↦
      text_eq old.kind new.kind
      && a.same_options old new
      && not (is_hacksport_challenge_type new.kind)
]

-- What is done with one challenge of the database.
pub data Verdict : Type 0 where
  gone : Verdict
  elsewhere : Verdict  -- not found, and not looked for
  unreadable : Verdict
  same : Verdict
  refresh : Challenge → Verdict
  rebuild : Challenge → Verdict

abbrev pub missing : Answers → Text → Challenge → Verdict
missing a dir curr =
    if a.inside curr.path dir || not (a.inside curr.path a.challenge_dir) then gone else elsewhere

-- No digest, or another one.
abbrev pub digest_changed : Text → Text → Bool
digest_changed old new = is_empty old || not (text_eq old new)

abbrev pub compare : Answers → Challenge → Challenge → Challenge → Verdict
compare a curr new stored =
    let source_changed = digest_changed curr.source_digest new.source_digest in
    let metadata_changed = digest_changed curr.metadata_digest new.metadata_digest in
    let solve_script_changed = not (bool_eq curr.solve_script new.solve_script) in
    let seccomp_changed = not (seccomp_policies_equal stored new) in
    if not (source_changed || metadata_changed || solve_script_changed || seccomp_changed)
    then same
    else if not source_changed && not seccomp_changed && safe_to_refresh a new
    then refresh new
    else rebuild new

abbrev pub classify_found : Answers → Challenge → Challenge → Verdict
classify_found a curr new = elim (a.stored curr.id) [
  | none ↦ unreadable
  | some stored ↦ compare a curr new stored
]

pub verdict : Answers → Text → Option Challenge → Challenge → Verdict
verdict a dir none curr = missing a dir curr
verdict a dir (some new) curr = classify_found a curr new

-- The challenges that are left to be added, after one of the database.
abbrev pub still_found : Option Challenge → Text → Found → Found
still_found none id found = found
still_found (some new) id found = delete id found

abbrev pub place : Verdict → Challenge → Updates → Updates
place gone curr cu = record cu { removed = curr ∷ cu.removed }
place elsewhere curr cu = cu
place unreadable curr cu = record cu { errors = not_looked_up curr.id ∷ cu.errors }
place same curr cu = record cu { unmodified = curr ∷ cu.unmodified }
place (refresh new) curr cu = record cu { refreshed = new ∷ cu.refreshed }
place (rebuild new) curr cu = record cu { updated = new ∷ cu.updated }

abbrev pub value : Text × Challenge → Challenge
value e = e.1

-- The loop over the challenges of the database, and what follows it; `errs` are those of the inventory.
pub sort_changes : Answers → Text → List ChangeError → Found → List Challenge → Updates
sort_changes a dir errs found [] = record {
  added = map value found;
  refreshed = [];
  updated = [];
  removed = [];
  unmodified = [];
  errors = errs;
}
sort_changes a dir errs found (curr ∷ rest) =
    let new = lookup curr.id found in
    place (verdict a dir new curr) curr
      (sort_changes a dir errs (still_found new curr.id found) rest)

abbrev pub only_errors : List ChangeError → Updates
only_errors errs = record {
  added = [];
  refreshed = [];
  updated = [];
  removed = [];
  unmodified = [];
  errors = errs;
}

pub detect_changes : Answers → Updates
detect_changes a = elim a.directory [
  | none ↦ only_errors (bad_directory ∷ [])
  | some dir ↦
      let (found, errs) = a.inventory dir in
      elim a.listed [
        | none ↦ only_errors (errs ++ not_listed ∷ [])
        | some db ↦ sort_changes a dir errs found db
      ]
]
