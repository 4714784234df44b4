-- ===== src/Promotion/Cleanup/Files.antt =====
-- The loop of the cleanup over the files of the artifacts directory.
use cmgr.Common.{
  true, false, none, List, [], ◌∷◌, ◌≡◌, refl, arith, Bool-cases, inl, inr, Text, text_eq,
  text_eq_iff, text_eq_refl, ℤ,
}
use cmgr.Promotion.{World, Faults, set}
use cmgr.Promotion.Leftover.{staged_artifact_build_id}
use cmgr.Promotion.Cleanup.{is_expected, clean_archives}
use cmgr.Promotion.Cleanup.Images.{is_in}

module _ (d : Faults) (ids : List ℤ) where
  pub clean_archives-image :
      (ns : List Text) (w : World) → (clean_archives d ids ns w).0.image ≡ w.image
  unfolding clean_archives
  clean_archives-image [] w = refl
  clean_archives-image (n ∷ ns) w = ground (
    arith,
    clean_archives-image ns w,
    clean_archives-image ns (record w { archive = set n none w.archive }),
  )

  pub clean_archives-other :
      (x : Text) (ns : List Text) (w : World)
      → is_expected ids (staged_artifact_build_id x) ≡ false
      → (clean_archives d ids ns w).0.archive x ≡ w.archive x
  unfolding clean_archives
  clean_archives-other x [] w h = refl
  clean_archives-other x (n ∷ ns) w h = ground (
    arith,
    text_eq_iff n x,
    clean_archives-other x ns w h,
    clean_archives-other x ns (record w { archive = set n none w.archive }) h,
  )

  clean_archives-gone :
      (x : Text) (ns : List Text) (w : World)
      → w.archive x ≡ none
      → (clean_archives d ids ns w).0.archive x ≡ none
  unfolding clean_archives
  clean_archives-gone x [] w h = h
  clean_archives-gone x (n ∷ ns) w h = ground (
    arith,
    clean_archives-gone x ns w h,
    clean_archives-gone x ns (record w { archive = set n none w.archive }),
  )

  pub clean_archives-removed :
      (x : Text) (ns : List Text) (w : World)
      → is_expected ids (staged_artifact_build_id x) ≡ true
      → is_in x ns ≡ true
      → (clean_archives d ids ns w).1 ≡ true
      → (clean_archives d ids ns w).0.archive x ≡ none
  unfolding clean_archives
  clean_archives-removed x [] w h i done = cc
  clean_archives-removed x (n ∷ ns) w h i done =
      let w' : World = record w { archive = set n none w.archive } in
      elim (Bool-cases (text_eq x n)) [
        | inl same ↦
            ground
              (arith, same, h, done, text_eq_iff x n, text_eq_refl x, clean_archives-gone x ns w')
        | inr apart ↦ ground (
          arith,
          apart,
          h,
          i,
          done,
          clean_archives-removed x ns w h,
          clean_archives-removed x ns w' h,
        )
      ]
