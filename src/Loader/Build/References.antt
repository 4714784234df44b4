-- ===== src/Loader/Build/References.antt =====
-- validateBuild accepts a build exactly if its texts refer to all that is there and to nothing else.
use cmgr.Common.{Bool, true, List, [], ◌∷◌, ◌++◌, Text, insert, arith, ◌≡◌, ◌↔◌, refl}
use cmgr.Loader.Build.{
  BuildError, unknown_artifact, unknown_lookup, unused_artifact, unused_lookup, unused,
  check_references, Tables, check_templated, check_texts, validate_build,
}
use cmgr.Loader.Build.Marked.{is_in, table_iff}

append-eq-nil : {A : Type 0} (xs ys : List A) → ((xs ++ ys) ≡ []) ↔ ((xs ≡ []) × (ys ≡ []))
append-eq-nil [] ys = (λ h. (refl, h), λ h. h.1)
append-eq-nil (x ∷ xs) ys = (λ h. cc, λ h. cc)

check_references-append :
    (bad : Text → BuildError) (xs ys : List Text) (table : List (Text × Bool))
    → check_references bad (xs ++ ys) table ≡ (
      (check_references bad ys (check_references bad xs table).0).0,
      (check_references bad xs table).1
          ++ (check_references bad ys (check_references bad xs table).0).1,
    )
unfolding check_references
check_references-append bad [] ys table = refl
check_references-append bad (x ∷ xs) ys table = ground (
  arith,
  check_references-append bad xs ys table,
  check_references-append bad xs ys (insert x true table),
)

-- All references of some texts.
abbrev pub all_references : (Text → List Text) → List Text → List Text
all_references references [] = []
all_references references (s ∷ ss) = references s ++ all_references references ss

module _ (file_references lookup_references : Text → List Text) where
  -- The texts, one after another, are checked like one text with all their references.
  record IsChecked (t : Tables) (ss : List Text) (t' : Tables) : Type 0 where
    pub files :
        t'.files ≡ (check_references unknown_artifact (all_references file_references ss) t.files).0
    pub lookups :
        t'.lookups
        ≡ (check_references unknown_lookup (all_references lookup_references ss) t.lookups).0
    pub errors : (t'.errors ≡ []) ↔ (
        (t.errors ≡ [])
        × ((check_references unknown_artifact (all_references file_references ss) t.files).1 ≡ [])
        × ((check_references unknown_lookup (all_references lookup_references ss) t.lookups).1
            ≡ []))

  check_texts-IsChecked :
      (t : Tables) (ss : List Text)
      → IsChecked t ss (check_texts file_references lookup_references t ss)
  unfolding check_texts check_templated check_references
  check_texts-IsChecked t [] = record {
    files = refl;
    lookups = refl;
    errors = (λ h. (h, refl, refl), λ h. h.0);
  }
  check_texts-IsChecked t (s ∷ ss) =
      let t1 = check_templated file_references lookup_references t s in
      let more = check_texts-IsChecked t1 ss in
      let f =
        check_references-append unknown_artifact (file_references s)
          (all_references file_references ss) t.files in
      let l =
        check_references-append unknown_lookup (lookup_references s)
          (all_references lookup_references ss) t.lookups in
      record {
        files = rw f more.files;
        lookups = rw l more.lookups;
        errors =
            rw (f, l)
              (
                λ h.
                    let (e, f2, l2) = more.errors.0 h in
                    let (e1, l1) = (append-eq-nil _ _).0 e in
                    let (e0, f1) = (append-eq-nil _ _).0 e1 in
                    (e0, (append-eq-nil _ _).1 (f1, f2), (append-eq-nil _ _).1 (l1, l2)),
                λ (e0, fs, ls).
                    let (f1, f2) = (append-eq-nil _ _).0 fs in
                    let (l1, l2) = (append-eq-nil _ _).0 ls in
                    more.errors.1
                      ((append-eq-nil _ _).1 ((append-eq-nil _ _).1 (e0, f1), l1), f2, l2),
              );
      }

  -- A build is accepted exactly if its files are the artifacts that the details and the hints refer to,
  -- and its lookup values those that they refer to.
  pub validate_build_iff :
      (details : Text) (hints keys files : List Text)
      → (validate_build file_references lookup_references details hints keys files ≡ []) ↔ (
          ((k : Text) → is_in k files ≡ is_in k (all_references file_references (details ∷ hints)))
          × ((k : Text)
              → is_in k keys ≡ is_in k (all_references lookup_references (details ∷ hints))))
  unfolding validate_build
  validate_build_iff details hints keys files =
      let start : Tables = record { files = unused files; lookups = unused keys; errors = [] } in
      let c = check_texts-IsChecked start (details ∷ hints) in
      let f =
        table_iff unknown_artifact unused_artifact files
          (all_references file_references (details ∷ hints)) in
      let l =
        table_iff unknown_lookup unused_lookup keys
          (all_references lookup_references (details ∷ hints)) in
      rw (c.files, c.lookups)
        (
          λ h.
              let (e, lookups_left) = (append-eq-nil _ _).0 h in
              let (e0, files_left) = (append-eq-nil _ _).0 e in
              let (_, files_known, lookups_known) = c.errors.0 e0 in
              (f.0 (files_known, files_left), l.0 (lookups_known, lookups_left)),
          λ (hf, hl).
              let (files_known, files_left) = f.1 hf in
              let (lookups_known, lookups_left) = l.1 hl in
              (append-eq-nil _ _).1 (
                (append-eq-nil _ _).1 (c.errors.1 (refl, files_known, lookups_known), files_left),
                lookups_left,
              ),
        )
