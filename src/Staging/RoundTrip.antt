-- ===== src/Staging/RoundTrip.antt =====
-- The staged image names are recognised, and the canonical ones are not.
use cmgr.Common.{
  ℕ, suc, ◌^◌, ◌<◌, ◌≡◌, ◌≢◌, refl, sym, ap, ◌∙◌, Bool, true, false, ◌&&◌, none, some, [], ◌∷◌,
  ◌++◌, ◌==◌, arith, append_assoc, append-nil, Text, is_empty, cut_prefix, cut_prefix-append,
  cut_prefix-eq-some, index_byte, length, length-append, take-append, all, pos, parse_int,
  parse_int-decimal, itoa, decimal, all-decimal, is_digit, is_empty-decimal, Bool-cases,
  Option-cases, inl, inr,
}
use cmgr.Staging.{
  is_hex, build_before, qualifier_prefix, is_update_qualifier, docker_id, build_image_name,
  build_of_tag, find_qualifier, staged_image_build_id,
}

length_of_qualifier : (q : Text) → is_update_qualifier q ≡ true → length q ≡ 46
unfolding is_update_qualifier
length_of_qualifier q h = elim (Option-cases (cut_prefix qualifier_prefix q)) [
  | inl e ↦ cc (rw e at h)
  | inr (r, e) ↦ omega (
    arith,
    ap length (cut_prefix-eq-some qualifier_prefix q e),
    length-append qualifier_prefix r,
    digits r (rw e at h),
  )
]
  where
    digits : (r : Text) → ((length r == 32) && all is_hex r) ≡ true → length r ≡ 32
    digits r k = ground arith

find_qualifier-end :
    (before s rest : Text)
    → is_update_qualifier (before ++ s) ≡ true
    → find_qualifier before (s ++ 45 ∷ rest) ≡ build_of_tag rest
unfolding find_qualifier
find_qualifier-end before [] rest h = rw (rw append-nil at h)
find_qualifier-end before (c ∷ s) rest h = elim (Bool-cases (is_update_qualifier before)) [
  | inl early ↦ absurd (
      omega (
        arith,
        length_of_qualifier before early,
        length_of_qualifier (before ++ c ∷ s) h,
        length-append before (c ∷ s),
      ))
  | inr later ↦ ground (arith, find_qualifier-end (before ++ c ∷ []) s rest (rw append_assoc h))
]

index_of_dash : (s t : Text) → all is_digit s ≡ true → index_byte (s ++ 45 ∷ t) 45 ≡ some (length s)
index_of_dash [] t h = refl
index_of_dash (c ∷ s) t h = ground (arith, index_of_dash s t)

build_before-digits :
    (c : ℕ) (s : Text) (h : ℕ) (host : Text) {n : ℕ}
    → parse_int (c ∷ s) ≡ some (pos (suc n))
    → build_before (some (length (c ∷ s))) ((c ∷ s) ++ 45 ∷ h ∷ host) ≡ some (pos (suc n))
build_before-digits c s h host p =
    rw (take-append s (45 ∷ h ∷ host)) (rw p (ground (arith, length-append s (45 ∷ h ∷ host))))

no_qualifier : is_update_qualifier [] ≡ true → ◌≡◌ {A = Bool} false true
unfolding is_update_qualifier
no_qualifier h = h

build_of_tag-digits :
    (s host : Text) {n : ℕ}
    → all is_digit s ≡ true
    → parse_int s ≡ some (pos (suc n))
    → is_empty s ≡ false
    → is_empty host ≡ false
    → build_of_tag (s ++ 45 ∷ host) ≡ some (pos (suc n))
unfolding build_of_tag
build_of_tag-digits s [] d p e f = cc
build_of_tag-digits [] (h ∷ host) d p e f = cc
build_of_tag-digits (c ∷ s) (h ∷ host) d p e f =
    ap (λ i. build_before i ((c ∷ s) ++ 45 ∷ h ∷ host)) (index_of_dash (c ∷ s) (h ∷ host) d)
    ∙ build_before-digits c s h host p

build_of_tag-docker_id :
    (n : ℕ) (host : Text)
    → suc n < 2 ^ 63
    → is_empty host ≡ false
    → build_of_tag (docker_id (pos (suc n)) host) ≡ some (pos (suc n))
unfolding docker_id itoa
build_of_tag-docker_id n host h e =
    build_of_tag-digits (decimal (suc n)) host (all-decimal (suc n)) (parse_int-decimal (suc n) h)
      (is_empty-decimal (suc n)) e

cut_repository :
    (challenge t : Text) → cut_prefix (challenge ++ 58 ∷ []) (challenge ++ (58 ∷ t)) ≡ some t
cut_repository challenge t =
    ap (cut_prefix (challenge ++ 58 ∷ [])) (sym (append_assoc challenge (58 ∷ []) t))
    ∙ cut_prefix-append (challenge ++ 58 ∷ []) t

staged-repository :
    (challenge t : Text)
    → staged_image_build_id (challenge ++ (58 ∷ t)) challenge ≡ find_qualifier [] t
unfolding staged_image_build_id
staged-repository challenge t = rw (cut_repository challenge t, staged_image_build_id)

-- The name of a staged image is recognised, with the build that it belongs to: for every challenge,
-- qualifier of an update, positive 63-bit build number and host that is not empty.
pub staged_image_build_id-build_image_name :
    (challenge : Text) (n : ℕ) (host q : Text)
    → is_update_qualifier q ≡ true
    → suc n < 2 ^ 63
    → is_empty host ≡ false
    → staged_image_build_id (build_image_name challenge (pos (suc n)) host q) challenge
      ≡ some (pos (suc n))
unfolding build_image_name
staged_image_build_id-build_image_name challenge n host [] h k e = cc (no_qualifier h)
staged_image_build_id-build_image_name challenge n host (c ∷ q) h k e =
    staged-repository challenge ((c ∷ q) ++ 45 ∷ docker_id (pos (suc n)) host)
    ∙ find_qualifier-end [] (c ∷ q) (docker_id (pos (suc n)) host) h
    ∙ build_of_tag-docker_id n host k e

starts_other : (c : ℕ) (s : Text) → c ≢ 99 → is_update_qualifier (c ∷ s) ≡ false
unfolding is_update_qualifier
starts_other c s h = ground arith

find_qualifier-other : (c : ℕ) (before s : Text) → c ≢ 99 → find_qualifier (c ∷ before) s ≡ none
unfolding find_qualifier
find_qualifier-other c before [] h = refl
find_qualifier-other c before (d ∷ s) h =
    ground (arith, starts_other c before h, find_qualifier-other c (before ++ d ∷ []) s h)

find_qualifier-digits :
    (s t : Text) → all is_digit s ≡ true → is_empty s ≡ false → find_qualifier [] (s ++ t) ≡ none
find_qualifier-digits [] t d e = cc
find_qualifier-digits (c ∷ s) t d e =
    unfold find_qualifier in ground (arith, find_qualifier-other c [] (s ++ t))

-- The canonical name of an image is never taken for a staged one, whatever the host is called.
pub staged_image_build_id-canonical :
    (challenge : Text) (n : ℕ) (host : Text)
    → staged_image_build_id (build_image_name challenge (pos n) host []) challenge ≡ none
unfolding build_image_name docker_id itoa
staged_image_build_id-canonical challenge n host =
    staged-repository challenge (decimal n ++ 45 ∷ host)
    ∙ find_qualifier-digits (decimal n) (45 ∷ host) (all-decimal n) (is_empty-decimal n)
