-- ===== src/Loader/Build/Examples.antt =====
-- A build with one artifact and one lookup value.
use cmgr.Common.{◌≡◌, ◌↔◌, refl, none, some, List, [], ◌∷◌, Text, codes, cut_prefix}
use cmgr.Loader.Build.{
  check_references, check_texts, check_templated, validate_build, unused_artifact,
}
use cmgr.Loader.Build.Marked.{is_in}
use cmgr.Loader.Build.References.{all_references, validate_build_iff}

-- A reference is a text that starts with its kind.
abbrev named : Text → Text → List Text
named kind s = elim (cut_prefix kind s) [ none ↦ [] | some name ↦ name ∷ [] ]

abbrev details : Text
details = codes "url:notes.txt"

abbrev hints : List Text
hints = codes "look closely" ∷ codes "lookup:offset" ∷ []

validate_build_iff_example :
    (validate_build
        (named (codes "url:"))
        (named (codes "lookup:"))
        details
        hints
        (codes "offset" ∷ [])
        (codes "notes.txt" ∷ [])
      ≡ [])
    ↔ (((k : Text)
          → is_in k (codes "notes.txt" ∷ [])
            ≡ is_in k (all_references (named (codes "url:")) (details ∷ hints)))
        × ((k : Text)
            → is_in k (codes "offset" ∷ [])
              ≡ is_in k (all_references (named (codes "lookup:")) (details ∷ hints))))
validate_build_iff_example =
    validate_build_iff (named (codes "url:")) (named (codes "lookup:")) details hints
      (codes "offset" ∷ []) (codes "notes.txt" ∷ [])

accepted :
    validate_build
      (named (codes "url:"))
      (named (codes "lookup:"))
      details
      hints
      (codes "offset" ∷ [])
      (codes "notes.txt" ∷ [])
    ≡ []
unfolding validate_build check_texts check_templated check_references
accepted = refl

-- A file that no text refers to.
not_referenced :
    validate_build
      (named (codes "url:"))
      (named (codes "lookup:"))
      details
      []
      []
      (codes "notes.txt" ∷ codes "b" ∷ [])
    ≡ unused_artifact (codes "b") ∷ []
unfolding validate_build check_texts check_templated check_references
not_referenced = refl
