-- ===== src/Promotion/Names.antt =====
-- The names of the archives of a build are three different ones.
use cmgr.Common.{
  ◌≡◌, refl, inl, inr, true, false, [], ◌∷◌, ◌++◌, arith, Text, text_eq, cut_prefix,
  cut_prefix-eq-some, all, ℤ, pos, negsuc, itoa, decimal, all-decimal, is_digit, is_empty,
  is_empty-decimal, Option-cases, Bool-cases, text_eq_iff, text_eq_refl,
}
use cmgr.Staging.{qualifier_prefix, is_update_qualifier}
use cmgr.Promotion.{artifacts_filename, qualified_filename, backup_filename}

digits-dot :
    (t u s : Text) → all is_digit t ≡ true → is_empty t ≡ false → text_eq (t ++ u) (46 ∷ s) ≡ false
digits-dot [] u s a e = absurd (ground (arith, e))
digits-dot (c ∷ t) u s a e = ground (arith, a)

-- No name of a build starts with a dot.
artifacts_filename-dot : (id : ℤ) (s : Text) → text_eq (artifacts_filename id) (46 ∷ s) ≡ false
unfolding artifacts_filename itoa
artifacts_filename-dot (pos n) s = digits-dot (decimal n) _ s (all-decimal n) (is_empty-decimal n)
artifacts_filename-dot (negsuc n) s = refl

pub canonical-backup :
    (q : Text) (id : ℤ) → text_eq (artifacts_filename id) (backup_filename q id) ≡ false
unfolding backup_filename
canonical-backup q id = artifacts_filename-dot id _

pub canonical-staged :
    (q : Text) (id : ℤ) → text_eq (artifacts_filename id) (qualified_filename q id) ≡ false
unfolding qualified_filename
canonical-staged q id = artifacts_filename-dot id _

-- No staged archive is named like a backup, also not like one of another build.
pub staged-any_backup :
    (q r : Text) (id other : ℤ)
    → is_update_qualifier q ≡ true
    → text_eq (qualified_filename q id) (backup_filename r other) ≡ false
unfolding qualified_filename backup_filename is_update_qualifier
staged-any_backup q r id other h = elim (Option-cases (cut_prefix qualifier_prefix q)) [
  | inl e ↦ absurd (ground (arith, h, e))
  | inr (s, e) ↦ rw (cut_prefix-eq-some qualifier_prefix q e) refl
]

pub staged-any_canonical :
    (q : Text) (id other : ℤ) → text_eq (qualified_filename q id) (artifacts_filename other) ≡ false
unfolding qualified_filename
staged-any_canonical q id other =
    elim (Bool-cases (text_eq (qualified_filename q id) (artifacts_filename other))) [
      | inr apart ↦ apart
      | inl same ↦ ground (
        arith,
        same,
        text_eq_iff (qualified_filename q id) (artifacts_filename other),
        artifacts_filename-dot other (q ++ 45 ∷ artifacts_filename id),
        text_eq_refl (qualified_filename q id),
      )
    ]

pub staged-backup :
    (q : Text) (id : ℤ)
    → is_update_qualifier q ≡ true
    → text_eq (qualified_filename q id) (backup_filename q id) ≡ false
staged-backup q id = staged-any_backup q q id id
