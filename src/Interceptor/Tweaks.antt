-- ===== src/Interceptor/Tweaks.antt =====
-- NormalizeTweaks of internal/ociinterceptor/interceptor.go.
use cmgr.Common.{
  ◌↔◌, ℕ, suc, ◌≡◌, refl, ◌⊎◌, inl, inr, Bool, true, false, ◌&&◌, ◌||◌, Option, none, some, List,
  [], ◌∷◌, arith, ltb, ◌==◌, if◌then◌else◌, Text, codes, text_eq, text_eq→eq, text_eq_refl,
  Bool-cases, sym, ◌∙◌, Result, ok, err, length, ap,
}
use mathlib.Core.Bool.{false≢true}

abbrev pub tweak_allow_disable_aslr : Text
tweak_allow_disable_aslr = codes "allow-disable-aslr"

-- The order of Go's strings, byte by byte.
abbrev pub text_le : Text → Text → Bool
text_le [] t = true
text_le (x ∷ s) [] = false
text_le (x ∷ s) (y ∷ t) = ltb x y || ((x == y) && text_le s t)

insert_sorted : Text → List Text → List Text
insert_sorted t [] = t ∷ []
insert_sorted t (u ∷ us) = if text_le t u then t ∷ u ∷ us else u ∷ insert_sorted t us

-- sort.Strings on a copy.
pub sort_strings : List Text → List Text
unfolding insert_sorted
sort_strings [] = []
sort_strings (t ∷ ts) = insert_sorted t (sort_strings ts)

pub data TweakError : Type 0 where
  repeated : Text → TweakError
  unsupported : Text → TweakError

abbrev is_repeat : Option Text → Text → Bool
is_repeat none t = false
is_repeat (some p) t = text_eq p t

-- The loop over the sorted names, with the name before the present one.
check_tweaks : Option Text → List Text → Result TweakError (List Text)
check_tweaks previous [] = ok []
check_tweaks previous (t ∷ ts) =
    let rest = check_tweaks (some t) ts in
    if is_repeat previous t
    then err (repeated t)
    else if text_eq t tweak_allow_disable_aslr
    then elim rest [ ok us ↦ ok (t ∷ us) | err e ↦ err e ]
    else err (unsupported t)

unfoldable pub normalize_tweaks : List Text → Result TweakError (List Text)
unfolding sort_strings check_tweaks
normalize_tweaks tweaks = check_tweaks none (sort_strings tweaks)

length-insert_sorted : (t : Text) (us : List Text) → length (insert_sorted t us) ≡ suc (length us)
unfolding insert_sorted
length-insert_sorted t [] = refl
length-insert_sorted t (u ∷ us) = ground (arith, length-insert_sorted t us)

length-sort_strings : (ts : List Text) → length (sort_strings ts) ≡ length ts
unfolding sort_strings
length-sort_strings [] = refl
length-sort_strings (t ∷ ts) =
    ground (arith, length-insert_sorted t (sort_strings ts), length-sort_strings ts)

text_eq_of_both : (u v k : Text) → text_eq u k ≡ true → text_eq v k ≡ true → text_eq u v ≡ true
text_eq_of_both u v k p q = cc (text_eq→eq u k p, text_eq→eq v k q, text_eq_refl u)

-- Two names always fail: they are equal, or one of them is unsupported.
check_tweaks_two :
    (u v : Text) (us : List Text) → (e : TweakError) × (check_tweaks none (u ∷ v ∷ us) ≡ err e)
unfolding check_tweaks
check_tweaks_two u v us = elim (Bool-cases (text_eq u tweak_allow_disable_aslr)) [
  | inr other ↦ (unsupported u, rw other)
  | inl known ↦ elim (Bool-cases (text_eq u v)) [
    | inl same ↦ (repeated v, rw (known, same))
    | inr differ ↦ elim (Bool-cases (text_eq v tweak_allow_disable_aslr)) [
      | inr other ↦ (unsupported v, rw (known, differ, other))
      | inl known' ↦
          absurd
            (false≢true (sym differ ∙ text_eq_of_both u v tweak_allow_disable_aslr known known'))
    ]
  ]
]

check_tweaks_one :
    (u : Text) {out : List Text}
    → check_tweaks none (u ∷ []) ≡ ok out
    → (out ≡ u ∷ []) × (u ≡ tweak_allow_disable_aslr)
unfolding check_tweaks
check_tweaks_one u h = elim (Bool-cases (text_eq u tweak_allow_disable_aslr)) [
  | inl known ↦ (cc (rw known at h), text_eq→eq u tweak_allow_disable_aslr known)
  | inr other ↦ cc (rw other at h)
]

-- Sorted lists of two names or more are refused, so a longer request is refused too.
two_of_length :
    (us : List Text) {n : ℕ}
    → length us ≡ suc (suc n)
    → (e : TweakError) × (check_tweaks none us ≡ err e)
two_of_length [] h = absurd (omega arith)
two_of_length (u ∷ []) h = absurd (omega arith)
two_of_length (u ∷ v ∷ us) h = check_tweaks_two u v us

normalize_tweaks-eq-ok :
    (ts : List Text) {out : List Text}
    → normalize_tweaks ts ≡ ok out
    → (out ≡ ts) × ((ts ≡ []) ⊎ (ts ≡ tweak_allow_disable_aslr ∷ []))
unfolding normalize_tweaks
normalize_tweaks-eq-ok [] h = (cc, inl refl)
normalize_tweaks-eq-ok (t ∷ []) h =
    let (same, known) = check_tweaks_one t h in (same, inr (ap (λ u. u ∷ []) known))
normalize_tweaks-eq-ok (t ∷ u ∷ ts) h =
    let (e, failed) =
      two_of_length (sort_strings (t ∷ u ∷ ts)) (length-sort_strings (t ∷ u ∷ ts)) in
    cc (failed, h)

normalize_tweaks-nil : normalize_tweaks [] ≡ ok []
unfolding normalize_tweaks
normalize_tweaks-nil = refl

normalize_tweaks-one :
    normalize_tweaks (tweak_allow_disable_aslr ∷ []) ≡ ok (tweak_allow_disable_aslr ∷ [])
unfolding normalize_tweaks
normalize_tweaks-one = refl

-- A list of tweaks is accepted exactly if it is empty or holds the one supported name once, and the
-- result is then the list itself.
pub normalize_tweaks_iff :
    (ts out : List Text)
    → (normalize_tweaks ts ≡ ok out)
      ↔ ((out ≡ ts) × ((ts ≡ []) ⊎ (ts ≡ tweak_allow_disable_aslr ∷ [])))
normalize_tweaks_iff ts out = (
  λ h. normalize_tweaks-eq-ok ts h,
  λ h. elim h.1 [
    | inl e ↦ cc (h.0, e, normalize_tweaks-nil)
    | inr e ↦ cc (h.0, e, normalize_tweaks-one)
  ],
)
