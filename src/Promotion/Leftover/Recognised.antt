-- ===== src/Promotion/Leftover/Recognised.antt =====
-- The archives that a staged update writes are recognised, and those of a build are not.
use cmgr.Common.{
  ℕ, zero, suc, ◌<◌, ◌^◌, true, false, not, none, some, [], ◌∷◌, ◌++◌, ◌≡◌, ◌≢◌, refl, sym, ap, ◌∙◌,
  arith, ◌==◌, Bool-cases, Option-cases, inl, inr, Text, codes, text_eq, text_eq_refl, text_eq→eq,
  cut_prefix, cut_prefix-append, length, length-append, all, pos, itoa, decimal, parse_int-decimal,
  all-decimal, is_digit, append_assoc, is_empty, is_empty-decimal,
}
use cmgr.Promotion.{artifacts_filename, qualified_filename, backup_filename}
use cmgr.Staging.{qualifier_prefix, is_update_qualifier}
use cmgr.Promotion.Leftover.{
  split_last, cut_suffix, find_archive, archive_after, extension, staged_artifact_build_id,
}

split_last-none : (b : ℕ) (s : Text) → all (λ c. not (c == b)) s ≡ true → split_last b s ≡ none
unfolding split_last
split_last-none b [] h = refl
split_last-none b (c ∷ s) h = ground (arith, split_last-none b s)

split_last-append :
    (b : ℕ) (s t : Text)
    → all (λ c. not (c == b)) t ≡ true
    → split_last b (s ++ b ∷ t) ≡ some (s, t)
unfolding split_last
split_last-append b [] t h = ground (arith, split_last-none b t)
split_last-append b (c ∷ s) t h = rw (split_last-append b s t h, split_last) refl

split_last-eq-some :
    (b : ℕ) (s : Text) {p : Text × Text} → split_last b s ≡ some p → s ≡ p.0 ++ b ∷ p.1
unfolding split_last
split_last-eq-some b [] h = cc
split_last-eq-some b (c ∷ s) {p} h = elim (Option-cases (split_last b s)) [
  | inl e ↦ ground (arith, h, e)
  | inr (q, e) ↦ ground (arith, h, e, split_last-eq-some b s {p = q} e)
]

split_last-length :
    (b : ℕ) (s : Text) {p : Text × Text} → split_last b s ≡ some p → length (p.0) < length s
split_last-length b s {p} h =
    omega (arith, ap length (split_last-eq-some b s {p = p} h), length-append {0} (p.0) (b ∷ p.1))

-- The loop over the dashes of a file name ends, whatever the name, where its fuel is more than the
-- bytes of the name.
pub find_archive-ne-none : (fuel : ℕ) (s : Text) → length s < fuel → find_archive fuel s ≢ none
unfolding find_archive
find_archive-ne-none zero s h = absurd (omega arith)
find_archive-ne-none (suc fuel) s h = elim (Option-cases (split_last 45 s)) [
  | inl e ↦ λ z. cc (rw (e, find_archive) at z)
  | inr (p, e) ↦
      let less : length (p.0) < fuel = omega (arith, split_last-length 45 s {p = p} e) in
      λ z. ground (arith, e, find_archive-ne-none fuel (p.0) less)
]

cut_suffix_self : (suffix : Text) → cut_suffix suffix suffix ≡ some []
unfolding cut_suffix
cut_suffix_self [] = refl
cut_suffix_self (c ∷ s) = ground (arith, text_eq_refl (c ∷ s))

cut_suffix-append : (suffix s : Text) → cut_suffix suffix (s ++ suffix) ≡ some s
unfolding cut_suffix
cut_suffix-append suffix [] = cut_suffix_self suffix
cut_suffix-append suffix (c ∷ s) = elim (Bool-cases (text_eq (c ∷ (s ++ suffix)) suffix)) [
  | inl same ↦ absurd (
      omega
        (arith, ap length (text_eq→eq (c ∷ (s ++ suffix)) suffix same), length-append {0} s suffix))
  | inr longer ↦ ground (arith, longer, cut_suffix-append suffix s)
]

no_dash_digits : (s : Text) → all is_digit s ≡ true → all (λ c. not (c == 45)) s ≡ true
no_dash_digits [] h = refl
no_dash_digits (c ∷ s) h = ground (arith, no_dash_digits s)

no_dash : (n : ℕ) → all (λ c. not (c == 45)) (decimal n) ≡ true
no_dash n = no_dash_digits (decimal n) (all-decimal n)

-- The last dash ends the qualifier.
find_archive-qualifier :
    (fuel n : ℕ) (q : Text)
    → is_update_qualifier q ≡ true
    → suc n < 2 ^ 63
    → find_archive (suc fuel) (q ++ 45 ∷ decimal (suc n)) ≡ some (some (pos (suc n)))
unfolding find_archive
find_archive-qualifier fuel n q h k = ground (
  arith,
  split_last-append 45 q (decimal (suc n)) (no_dash (suc n)),
  h,
  parse_int-decimal (suc n) k,
)

-- A text that does not start like a qualifier has none before any of its dashes.
cut_prefix-prefix : (p l r : Text) → cut_prefix p (l ++ r) ≡ none → cut_prefix p l ≡ none
cut_prefix-prefix [] l r h = cc
cut_prefix-prefix (c ∷ p) [] r h = refl
cut_prefix-prefix (c ∷ p) (d ∷ l) r h = ground (arith, cut_prefix-prefix p l r)

find_archive-none :
    (fuel : ℕ) (s : Text)
    → length s < fuel
    → cut_prefix qualifier_prefix s ≡ none
    → find_archive fuel s ≡ some none
unfolding find_archive is_update_qualifier
find_archive-none zero s h p = absurd (omega arith)
find_archive-none (suc fuel) s h p = elim (Option-cases (split_last 45 s)) [
  | inl e ↦ rw (e, find_archive) refl
  | inr (q, e) ↦
      let less : length (q.0) < fuel = omega (arith, split_last-length 45 s {p = q} e) in
      let shape = split_last-eq-some 45 s {p = q} e in
      let free : cut_prefix qualifier_prefix (q.0) ≡ none =
        cut_prefix-prefix qualifier_prefix (q.0) (45 ∷ q.1)
          (ap (cut_prefix qualifier_prefix) (sym shape) ∙ p) in
      rw (e, find_archive) (rw free (find_archive-none fuel (q.0) less free))
]

archive_after-named :
    (prefix q : Text) (n : ℕ)
    → is_update_qualifier q ≡ true
    → suc n < 2 ^ 63
    → archive_after prefix (prefix ++ (q ++ 45 ∷ (decimal (suc n) ++ extension)))
      ≡ some (pos (suc n))
unfolding archive_after
archive_after-named prefix q n h k =
    let s = q ++ 45 ∷ decimal (suc n) in
    ground (
      arith,
      cut_prefix-append prefix (q ++ 45 ∷ (decimal (suc n) ++ extension)),
      append_assoc q (45 ∷ decimal (suc n)) extension,
      cut_suffix-append extension s,
      find_archive-qualifier (length s) n q h k,
    )

artifacts_filename-pos : (n : ℕ) → artifacts_filename (pos n) ≡ decimal n ++ extension
unfolding artifacts_filename itoa
artifacts_filename-pos n = refl

module _ (q : Text) (n : ℕ) where
  qualified_filename-parts :
      qualified_filename q (pos n) ≡ codes "." ++ (q ++ 45 ∷ (decimal n ++ extension))
  unfolding qualified_filename
  qualified_filename-parts = ap (λ t. 46 ∷ (q ++ 45 ∷ t)) (artifacts_filename-pos n)

  backup_filename-parts :
      backup_filename q (pos n) ≡ codes ".cmgr-old-" ++ (q ++ 45 ∷ (decimal n ++ extension))
  unfolding backup_filename
  backup_filename-parts =
      append_assoc (codes ".cmgr-old-") q (45 ∷ artifacts_filename (pos n))
      ∙ ap (λ t. codes ".cmgr-old-" ++ (q ++ 45 ∷ t)) (artifacts_filename-pos n)

-- The archive of a staged update is recognised, with its build.
pub staged_artifact_build_id-qualified_filename :
    (q : Text) (n : ℕ)
    → is_update_qualifier q ≡ true
    → suc n < 2 ^ 63
    → staged_artifact_build_id (qualified_filename q (pos (suc n))) ≡ some (pos (suc n))
unfolding staged_artifact_build_id
staged_artifact_build_id-qualified_filename q n h k =
    ground (arith, qualified_filename-parts q (suc n), archive_after-named (codes ".") q n h k)

old_not_staged :
    (q : Text) (n : ℕ)
    → archive_after (codes ".") (codes ".cmgr-old-" ++ (q ++ 45 ∷ (decimal n ++ extension))) ≡ none
unfolding archive_after
old_not_staged q n =
    let s = codes "cmgr-old-" ++ (q ++ 45 ∷ decimal n) in
    let whole : s ++ extension ≡ codes "cmgr-old-" ++ (q ++ 45 ∷ (decimal n ++ extension)) =
      ap (λ t. codes "cmgr-old-" ++ t) (append_assoc q (45 ∷ decimal n) extension) in
    ground (
      arith,
      whole,
      cut_suffix-append extension s,
      find_archive-none (suc (length s)) s (omega arith) refl,
    )

-- So is the backup of the archive that it replaces.
pub staged_artifact_build_id-backup_filename :
    (q : Text) (n : ℕ)
    → is_update_qualifier q ≡ true
    → suc n < 2 ^ 63
    → staged_artifact_build_id (backup_filename q (pos (suc n))) ≡ some (pos (suc n))
unfolding staged_artifact_build_id
staged_artifact_build_id-backup_filename q n h k = ground (
  arith,
  backup_filename-parts q (suc n),
  old_not_staged q (suc n),
  archive_after-named (codes ".cmgr-old-") q n h k,
)

-- The archive of a build itself is not.
digits_first :
    (s t p : Text)
    → all is_digit s ≡ true
    → is_empty s ≡ false
    → cut_prefix (46 ∷ p) (s ++ t) ≡ none
digits_first [] t p d e = cc
digits_first (c ∷ s) t p d e = ground arith

pub staged_artifact_build_id-artifacts_filename :
    (n : ℕ) → staged_artifact_build_id (artifacts_filename (pos n)) ≡ none
unfolding staged_artifact_build_id archive_after
staged_artifact_build_id-artifacts_filename n =
    let first =
      λ (p : Text). digits_first (decimal n) extension p (all-decimal n) (is_empty-decimal n) in
    ground (arith, artifacts_filename-pos n, first [], first (codes "cmgr-old-"))
