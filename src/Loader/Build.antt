-- ===== src/Loader/Build.antt =====
-- validateBuild of cmgr/loader.go: the files and the lookup values of a build against the templates of
-- the challenge. The regular expressions are arguments: the names that they find in a text.
mod Marked
mod References
mod Examples
use cmgr.Common.{
  Bool, true, false, Option, none, some, List, [], ◌∷◌, ◌++◌, map, flatten, if◌then◌else◌, Text,
  lookup, insert,
}

pub data BuildError : Type 0 where
  unknown_artifact unknown_lookup unused_artifact unused_lookup : Text → BuildError

-- A table of what is there, with whether something refers to it.
abbrev pub unused : List Text → List (Text × Bool)
unused [] = []
unused (k ∷ ks) = insert k false (unused ks)

-- The loop over the references of a text.
pub check_references :
    (Text → BuildError) → List Text → List (Text × Bool) → List (Text × Bool) × List BuildError
check_references unknown [] table = (table, [])
check_references unknown (r ∷ rs) table =
    let seen = check_references unknown rs (insert r true table) in
    let missed = check_references unknown rs table in
    elim (lookup r table) [ some b ↦ seen | none ↦ (missed.0, unknown r ∷ missed.1) ]

-- What nothing refers to.
abbrev pub leftover : (Text → BuildError) → List (Text × Bool) → List BuildError
leftover bad [] = []
leftover bad ((k, used) ∷ table) =
    let rest = leftover bad table in if used then rest else bad k ∷ rest

pub record Tables : Type 0 where
  pub files : List (Text × Bool)
  pub lookups : List (Text × Bool)
  pub errors : List BuildError

module _ (file_references lookup_references : Text → List Text) where
  -- checkTemplated.
  pub check_templated : Tables → Text → Tables
  check_templated t s =
      let files = check_references unknown_artifact (file_references s) t.files in
      let lookups = check_references unknown_lookup (lookup_references s) t.lookups in
      record { files = files.0; lookups = lookups.0; errors = t.errors ++ files.1 ++ lookups.1 }

  pub check_texts : Tables → List Text → Tables
  check_texts t [] = t
  check_texts t (s ∷ ss) = check_texts (check_templated t s) ss

  -- The keys of the lookup data; no error means that the build is accepted.
  pub validate_build : Text → List Text → List Text → List Text → List BuildError
  validate_build details hints lookup_keys files =
      let start : Tables = record {
        files = unused files;
        lookups = unused lookup_keys;
        errors = [];
      } in
      let t = check_texts start (details ∷ hints) in
      t.errors ++ leftover unused_artifact t.files ++ leftover unused_lookup t.lookups
