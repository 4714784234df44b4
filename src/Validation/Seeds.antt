-- ===== src/Validation/Seeds.antt =====
-- validateSeeds accepts exactly the lists of distinct seeds.
use cmgr.Common.{
  ◌≡◌, ◌↔◌, refl, true, none, List, [], ◌∷◌, arith, any, In, ℤ, int_eq, int_eq_iff, Bool-cases, inl,
  inr, sym, subst, ◌∙◌,
}
use mathlib.Core.Bool.{false≢true}
use cmgr.Validation.{check_seeds, validate_seeds}

abbrev pub Distinct : List ℤ → Type 0
Distinct [] = Unit
Distinct (s ∷ ss) = ¬ In s ss × Distinct ss

any-In : (s : ℤ) (ss : List ℤ) → any (int_eq s) ss ≡ true → In s ss
any-In s [] h = cc
any-In s (t ∷ ts) h = elim (Bool-cases (int_eq s t)) [
  | inl e ↦ inl (sym ((int_eq_iff s t).0 e))
  | inr e ↦ inr (any-In s ts (rw e at h))
]

In-any : (s : ℤ) (ss : List ℤ) → In s ss → any (int_eq s) ss ≡ true
In-any s [] h = absurd h
In-any s (t ∷ ts) (inl e) = ground (arith, (int_eq_iff s t).1 (sym e))
In-any s (t ∷ ts) (inr h) = ground (arith, In-any s ts h)

-- The loop passes if the seeds are distinct and none was seen before.
Apart : List ℤ → List ℤ → Type 0
Apart seen ss = Distinct ss × ((s : ℤ) → In s ss → ¬ In s seen)

check_seeds-Apart : (seen ss : List ℤ) → check_seeds seen ss ≡ none → Apart seen ss
unfolding check_seeds Apart
check_seeds-Apart seen [] h = (tt, λ s i. absurd i)
check_seeds-Apart seen (s ∷ ss) h = elim (Bool-cases (any (int_eq s) seen)) [
  | inl e ↦ cc (rw e at h)
  | inr e ↦
      let (d, a) = check_seeds-Apart (s ∷ seen) ss (rw e at h) in
      (
        (λ i. a s i (inl refl), d),
        λ t i. elim i [
          | inl same ↦ λ j. false≢true (sym e ∙ In-any s seen (subst (λ u. In u seen) (sym same) j))
          | inr later ↦ λ j. a t later (inr j)
        ],
      )
]

Apart-check_seeds : (seen ss : List ℤ) → Apart seen ss → check_seeds seen ss ≡ none
unfolding check_seeds Apart
Apart-check_seeds seen [] h = refl
Apart-check_seeds seen (s ∷ ss) h = elim (Bool-cases (any (int_eq s) seen)) [
  | inl e ↦ absurd (h.1 s (inl refl) (any-In s seen e))
  | inr e ↦ rw e (
      Apart-check_seeds (s ∷ seen) ss (
        h.0.1,
        λ t i j. elim j [
          | inl same ↦ h.0.0 (subst (λ u. In u ss) (sym same) i)
          | inr old ↦ h.1 t (inr i) old
        ],
      ))
]

-- A list of seeds is accepted exactly if no seed occurs twice in it.
pub validate_seeds_iff : (seeds : List ℤ) → (validate_seeds seeds ≡ none) ↔ Distinct seeds
unfolding validate_seeds Apart
validate_seeds_iff seeds =
    (λ h. (check_seeds-Apart [] seeds h).0, λ d. Apart-check_seeds [] seeds (d, λ s i j. j))
