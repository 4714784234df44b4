-- ===== src/Promotion/Cleanup/Images.antt =====
-- The loop of the cleanup over the tags of all images.
use cmgr.Common.{
  Bool, true, false, none, List, [], ◌∷◌, ◌≡◌, refl, arith, Bool-cases, inl, inr, any, Text,
  text_eq, text_eq_iff, text_eq_refl, ℤ,
}
use cmgr.Staging.{staged_image_build_id}
use cmgr.Promotion.{World, Faults, set}
use cmgr.Promotion.Cleanup.{is_expected, clean_images}

abbrev pub is_in : Text → List Text → Bool
is_in x ts = any (text_eq x) ts

module _ (d : Faults) (challenge : Text) (ids : List ℤ) where
  abbrev wanted : Text → Bool
  wanted t = is_expected ids (staged_image_build_id t challenge)

  -- A name that is not taken for a staged one keeps its image, and no archive is touched.
  pub clean_images-other :
      (x : Text) (removed ts : List Text) (w : World)
      → wanted x ≡ false
      → (clean_images d challenge ids removed ts w).0.image x ≡ w.image x
  unfolding clean_images
  clean_images-other x removed [] w h = refl
  clean_images-other x removed (t ∷ ts) w h = ground (
    arith,
    text_eq_iff t x,
    clean_images-other x removed ts w h,
    clean_images-other x (t ∷ removed) ts w h,
    clean_images-other x (t ∷ removed) ts (record w { image = set t none w.image }) h,
  )

  pub clean_images-archive :
      (removed ts : List Text) (w : World)
      → (clean_images d challenge ids removed ts w).0.archive ≡ w.archive
  unfolding clean_images
  clean_images-archive removed [] w = refl
  clean_images-archive removed (t ∷ ts) w = ground (
    arith,
    clean_images-archive removed ts w,
    clean_images-archive (t ∷ removed) ts w,
    clean_images-archive (t ∷ removed) ts (record w { image = set t none w.image }),
  )

  -- A name that stands for nothing does so afterwards.
  clean_images-gone :
      (x : Text) (removed ts : List Text) (w : World)
      → w.image x ≡ none
      → (clean_images d challenge ids removed ts w).0.image x ≡ none
  unfolding clean_images
  clean_images-gone x removed [] w h = h
  clean_images-gone x removed (t ∷ ts) w h =
      let w' : World = record w { image = set t none w.image } in
      ground (
        arith,
        clean_images-gone x removed ts w h,
        clean_images-gone x (t ∷ removed) ts w h,
        clean_images-gone x (t ∷ removed) ts w',
      )

  pub clean_images-removed :
      (x : Text) (removed ts : List Text) (w : World)
      → wanted x ≡ true
      → (is_in x removed ≡ true → w.image x ≡ none)
      → is_in x ts ≡ true
      → (clean_images d challenge ids removed ts w).1 ≡ true
      → (clean_images d challenge ids removed ts w).0.image x ≡ none
  unfolding clean_images
  clean_images-removed x removed [] w h k i done = cc
  clean_images-removed x removed (t ∷ ts) w h k i done =
      let w' : World = record w { image = set t none w.image } in
      elim (Bool-cases (text_eq x t)) [
        | inl same ↦ ground (
          arith,
          same,
          h,
          k,
          done,
          text_eq_iff x t,
          text_eq_refl x,
          clean_images-gone x removed ts w,
          clean_images-gone x (t ∷ removed) ts w',
        )
        | inr apart ↦
            let kept : is_in x (t ∷ removed) ≡ true → w'.image x ≡ none =
              λ e. ground (arith, apart, e, k, text_eq_iff t x) in
            ground (
              arith,
              apart,
              h,
              k,
              i,
              done,
              clean_images-removed x removed ts w h k,
              clean_images-removed x (t ∷ removed) ts w' h kept,
            )
      ]
