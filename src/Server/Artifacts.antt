-- ===== src/Server/Artifacts.antt =====
-- artifactsHandler of cmd/cmgrd/main.go: the archive of a build, or one file of it.
use cmgr.Common.{
  arith, ◌≡◌, refl, Bool, true, not, Option, none, some, List, [], ◌∷◌, if◌then◌else◌, Text, codes,
  text_eq, text_eq_refl, ◌++◌, all, split_byte, ℤ, parse_int, Result, ok, err,
}
use cmgr.Validation.{ApiError, plain}
use cmgr.Server.{Method, get_method, Response, content, message, status_only, failed, bad_request}

-- What the reader of a compressed archive gives: the files in order, and whether the archive ends after
-- them or an error does.
pub record Reading : Type 0 where
  pub files : List (Text × Text)
  pub at_end : Bool

-- The file of the archive, and what reading it as one gives, where that can start.
pub record Archive : Type 0 where
  pub bytes : Text
  pub reading : Option Reading

abbrev last_three : List Text → Option (Text × (Text × Text))
last_three [] = none
last_three (x ∷ []) = none
last_three (x ∷ y ∷ []) = none
last_three (x ∷ y ∷ z ∷ []) = some (x, (y, z))
last_three (x ∷ y ∷ z ∷ u ∷ rest) = last_three (y ∷ z ∷ u ∷ rest)

-- The parts of the path of an artifact: the build and the file.
abbrev build_and_file : Option (Text × (Text × Text)) → Option (Text × Text)
build_and_file none = none
build_and_file (some p) = if text_eq (p.0) (codes "builds") then some (p.1) else none

abbrev served : Text → Response
served bytes = record { status = 200; body = content bytes }

abbrev server_error : Response
server_error = record { status = 500; body = message plain }

-- The loop over the files of the archive.
pub serve_file : Text → List (Text × Text) → Bool → Response
serve_file name [] at_end = if at_end then status_only 404 else server_error
serve_file name ((n, bytes) ∷ files) at_end =
    let rest = serve_file name files at_end in if text_eq n name then served bytes else rest

abbrev serve_archive : Text → Option Archive → Response
serve_archive name none = server_error
serve_archive name (some a) =
    if text_eq name (codes "artifacts.tar.gz")
    then served a.bytes
    else elim a.reading [ none ↦ server_error | some r ↦ serve_file name r.files r.at_end ]

abbrev serve_build : Text → Result ApiError Bool → Option Archive → Response
serve_build name (err e) archive = failed e
serve_build name (ok has_artifacts) archive =
    if not has_artifacts then status_only 404 else serve_archive name archive

-- The metadata of a build say whether it has artifacts; the archives are those that can be opened.
module _ {S : Type 0} (has_artifacts : ℤ → S → Result ApiError Bool)
    (archives : ℤ → Option Archive) where
  abbrev on_file : S → Option (Text × Text) → Response
  on_file s none = status_only 404
  on_file s (some p) = elim (parse_int (p.0)) [
    | none ↦ bad_request plain
    | some n ↦ serve_build (p.1) (has_artifacts n s) (archives n)
  ]

  pub artifacts_handler : Method → Text → S → Response
  artifacts_handler method path s = elim method [
    | get_method ↦ on_file s (build_and_file (last_three (split_byte 47 path)))
    | _ ↦ status_only 405
  ]

-- A file of the archive is served from its first entry of that name, whatever follows.
serve_file-append :
    (name bytes : Text) (before after : List (Text × Text)) (at_end : Bool)
    → all (λ f. not (text_eq (f.0) name)) before ≡ true
    → serve_file name (before ++ (name, bytes) ∷ after) at_end ≡ served bytes
unfolding serve_file
serve_file-append name bytes [] after at_end h = rw (text_eq_refl name) refl
serve_file-append name bytes ((n, b) ∷ before) after at_end h =
    ground (arith, serve_file-append name bytes before after at_end)
