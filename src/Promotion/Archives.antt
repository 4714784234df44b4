-- ===== src/Promotion/Archives.antt =====
-- The artifact archives before and after a promotion and a rollback.
use cmgr.Common.{
  ◌≡◌, refl, ap, ◌∙◌, inl, inr, Bool, true, false, not, ◌&&◌, Option, none, arith, if◌then◌else◌,
  Text, text_eq, text_eq→eq, Bool-cases, Option-cases,
}
use cmgr.Promotion.{World, Faults, Promotion, rename_file, uninstall, put_back}

-- How the files stand, after some of the steps of a promotion, to what they were before it. `loose`
-- are names whose files are not kept.
pub record IsHeld (p : Promotion) (loose : Text → Bool) (old new : Text → Option Text)
    : Type 0 where
  pub others :
      (n : Text)
      → text_eq p.canonical_artifact n ≡ false
      → text_eq p.backup_artifact n ≡ false
      → loose n ≡ false
      → new n ≡ old n
  pub free : old p.backup_artifact ≡ none
  pub preserved : p.had_artifact ≡ true → new p.backup_artifact ≡ old p.canonical_artifact
  pub still_free : p.had_artifact ≡ false → new p.backup_artifact ≡ none
  pub untouched :
      p.had_artifact ≡ false
      → p.installed_artifact ≡ false
      → new p.canonical_artifact ≡ old p.canonical_artifact
  pub absent :
      p.had_artifact ≡ false → p.installed_artifact ≡ true → old p.canonical_artifact ≡ none

pub rename_file-archive :
    (d : Faults) (from to : Text) (w : World)
    → (rename_file d from to w).1 ≡ true
    → (n : Text)
    → (rename_file d from to w).0.archive n
      ≡ (if text_eq to n then w.archive from else if text_eq from n then none else w.archive n)
rename_file-archive d from to w h n = elim (Option-cases (w.archive from)) [
  | inl e ↦ absurd (ground (arith, h, e))
  | inr (x, e) ↦ elim (Bool-cases (d.rename from to)) [
    | inl f ↦ absurd (ground (arith, h, e, f))
    | inr f ↦ rw (e, rename_file) (rw f refl)
  ]
]

uninstall-archive :
    (d : Faults) (p : Promotion) (w : World)
    → (uninstall d p w).1 ≡ true
    → (n : Text)
    → (uninstall d p w).0.archive n
      ≡ (if p.installed_artifact && text_eq p.canonical_artifact n then none else w.archive n)
uninstall-archive d p w h n = elim (Bool-cases p.installed_artifact) [
  | inr i ↦ rw i refl
  | inl i ↦ elim (Bool-cases (d.unlink p.canonical_artifact)) [
    | inl f ↦ absurd (ground (arith, h, i, f))
    | inr f ↦ rw i (rw f refl)
  ]
]

put_back-archive :
    (d : Faults) (p : Promotion) (w : World)
    → (put_back d p w).1 ≡ true
    → (n : Text)
    → (put_back d p w).0.archive n ≡ (
        if not p.had_artifact
        then w.archive n
        else if text_eq p.canonical_artifact n
        then w.archive p.backup_artifact
        else if text_eq p.backup_artifact n
        then none
        else w.archive n)
put_back-archive d p w h n = elim (Bool-cases p.had_artifact) [
  | inr i ↦ rw i refl
  | inl i ↦
      rw (i, put_back)
        (rename_file-archive d p.backup_artifact p.canonical_artifact w (rw (i, put_back) at h) n)
]

-- What the two steps of the rollback leave at a name.
pub put_back-uninstall :
    (d : Faults) (p : Promotion) (loose : Text → Bool) (old : Text → Option Text) (w : World)
    → IsHeld p loose old w.archive
    → text_eq p.canonical_artifact p.backup_artifact ≡ false
    → (uninstall d p w).1 ≡ true
    → (put_back d p (uninstall d p w).0).1 ≡ true
    → (n : Text) → loose n ≡ false
    → (put_back d p (uninstall d p w).0).0.archive n ≡ old n
put_back-uninstall d p loose old w held apart u v n l =
    let second = put_back-archive d p (uninstall d p w).0 v n in
    let first = uninstall-archive d p w u n in
    let first_b = uninstall-archive d p w u p.backup_artifact in
    elim (Bool-cases (text_eq p.canonical_artifact n)) [
      | inl c ↦
          let at : p.canonical_artifact ≡ n = text_eq→eq p.canonical_artifact n c in
          second
          ∙ ground (
            arith,
            first,
            first_b,
            ap w.archive at,
            ap old at,
            held.preserved,
            held.untouched,
            held.absent,
            c,
            apart,
          )
      | inr c ↦ elim (Bool-cases (text_eq p.backup_artifact n)) [
        | inl b ↦
            let at : p.backup_artifact ≡ n = text_eq→eq p.backup_artifact n b in
            second
            ∙ ground (arith, first, ap w.archive at, ap old at, held.free, held.still_free, b, c)
        | inr b ↦ second ∙ ground (arith, first, held.others n c b l, b, c)
      ]
    ]
