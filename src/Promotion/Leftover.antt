-- ===== src/Promotion/Leftover.antt =====
-- stagedArtifactBuildID of cmgr/docker.go: which build a file of the artifacts directory was staged for.
pub mod Recognised
use cmgr.Common.{
  ℕ, zero, suc, Option, none, some, List, [], ◌∷◌, ◌==◌, if◌then◌else◌, Text, codes, text_eq,
  cut_prefix, length, ℤ, parse_int,
}
use cmgr.Staging.{is_update_qualifier, positive}

-- What stands before and after the last of these bytes.
unfoldable pub split_last : ℕ → Text → Option (Text × Text)
split_last b [] = none
split_last b (c ∷ s) = elim (split_last b s) [
  | none ↦ if c == b then some ([], s) else none
  | some p ↦ some (c ∷ p.0, p.1)
]

-- strings.CutSuffix.
unfoldable pub cut_suffix : Text → Text → Option Text
cut_suffix suffix [] = if text_eq [] suffix then some [] else none
cut_suffix suffix (c ∷ s) =
    let rest : Option Text = elim (cut_suffix suffix s) [ none ↦ none | some t ↦ some (c ∷ t) ] in
    if text_eq (c ∷ s) suffix then some [] else rest

-- The loop over the dashes, from the last one; `none` means that the fuel ran out.
unfoldable pub find_archive : ℕ → Text → Option (Option ℤ)
find_archive zero s = none
find_archive (suc fuel) s = elim (split_last 45 s) [
  | none ↦ some none
  | some p ↦
      let rest = find_archive fuel (p.0) in
      if is_update_qualifier (p.0) then some (positive (parse_int (p.1))) else rest
]

abbrev pub flat : Option (Option ℤ) → Option ℤ
flat none = none
flat (some b) = b

abbrev pub extension : Text
extension = codes ".tar.gz"

-- A loop has one round for each dash at most.
unfoldable pub archive_after : Text → Text → Option ℤ
archive_after prefix name = elim (cut_prefix prefix name) [
  | none ↦ none
  | some remainder ↦ elim (cut_suffix extension remainder) [
    | none ↦ none
    | some s ↦ flat (find_archive (suc (length s)) s)
  ]
]

unfoldable pub staged_artifact_build_id : Text → Option ℤ
staged_artifact_build_id name = elim (archive_after (codes ".") name) [
  | some b ↦ some b
  | none ↦ archive_after (codes ".cmgr-old-") name
]
