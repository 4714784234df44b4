-- ===== src/Loader/Build/Marked.antt =====
-- The table of validateBuild after the references to its keys have been checked.
use cmgr.Common.{
  Bool, true, false, ◌||◌, none, some, List, [], ◌∷◌, if◌then◌else◌, Text, text_eq, text_eq_iff,
  lookup, insert, lookup-insert, HasUniqueKeys, insert-HasUniqueKeys, any, all, arith, ◌≡◌, ◌↔◌,
  refl, ◌∙◌, Bool-cases, Option-cases, inl, inr, text_eq_refl,
}
use cmgr.Loader.Build.{BuildError, unused, check_references, leftover}

abbrev pub is_in : Text → List Text → Bool
is_in k ks = any (text_eq k) ks

-- The table of some keys, of which those with the mark are used.
record IsTable (keys : List Text) (used : Text → Bool) (table : List (Text × Bool)) : Type 0 where
  pub unique : HasUniqueKeys table
  pub found : (k : Text) → lookup k table ≡ (if is_in k keys then some (used k) else none)

unused-IsTable : (keys : List Text) → IsTable keys (λ k. false) (unused keys)
unused-IsTable [] = record { unique = tt; found = λ k. refl }
unused-IsTable (j ∷ keys) =
    let t = unused-IsTable keys in
    record {
      unique = insert-HasUniqueKeys j false (unused keys) t.unique;
      found = λ k. ground (
        arith,
        t.found k,
        lookup-insert j k false (unused keys),
        text_eq_iff j k,
        text_eq_iff k j,
      );
    }

check_references-unknown :
    (bad : Text → BuildError) (r : Text) (rs : List Text) (table : List (Text × Bool))
    → lookup r table ≡ none
    → check_references bad (r ∷ rs) table
      ≡ ((check_references bad rs table).0, bad r ∷ (check_references bad rs table).1)
unfolding check_references
check_references-unknown bad r rs table h = ground arith

check_references-known :
    (bad : Text → BuildError) (r : Text) (rs : List Text) (table : List (Text × Bool)) {b : Bool}
    → lookup r table ≡ some b
    → check_references bad (r ∷ rs) table ≡ check_references bad rs (insert r true table)
unfolding check_references
check_references-known bad r rs table h = ground arith

module _ (bad : Text → BuildError) (keys : List Text) where
  insert-IsTable :
      (used : Text → Bool) (r : Text) (table : List (Text × Bool)) {b : Bool}
      → IsTable keys used table
      → lookup r table ≡ some b
      → IsTable keys (λ k. used k || text_eq k r) (insert r true table)
  insert-IsTable used r table t there = record {
    unique = insert-HasUniqueKeys r true table t.unique;
    found = λ k. ground (
      arith,
      t.found k,
      t.found r,
      there,
      lookup-insert r k true table,
      text_eq_iff r k,
      text_eq_iff k r,
    );
  }

  check_references-IsTable :
      (used : Text → Bool) (rs : List Text) (table : List (Text × Bool))
      → IsTable keys used table
      → IsTable keys (λ k. used k || is_in k rs) (check_references bad rs table).0
  check_references-IsTable used [] table t =
      unfold check_references in
      record { unique = t.unique; found = λ k. ground (arith, t.found k) }
  check_references-IsTable used (r ∷ rs) table t = elim (Option-cases (lookup r table)) [
    | inl absent ↦
        let more = check_references-IsTable used rs table t in
        rw (check_references-unknown bad r rs table absent) (record {
          unique = more.unique;
          found = λ k. ground (arith, more.found k, t.found r, absent, text_eq_iff k r);
        })
    | inr (b, there) ↦
        let more =
          check_references-IsTable (λ k. used k || text_eq k r) rs (insert r true table)
            (insert-IsTable used r table t there) in
        rw (check_references-known bad r rs table there)
          (record { unique = more.unique; found = λ k. ground (arith, more.found k) })
  ]

  -- No reference is unknown exactly if all are to keys.
  check_references_iff :
      (used : Text → Bool) (rs : List Text) (table : List (Text × Bool))
      → IsTable keys used table
      → ((check_references bad rs table).1 ≡ []) ↔ (all (λ r. is_in r keys) rs ≡ true)
  check_references_iff used [] table t = unfold check_references in (λ h. refl, λ h. refl)
  check_references_iff used (r ∷ rs) table t = elim (Option-cases (lookup r table)) [
    | inl absent ↦
        rw (check_references-unknown bad r rs table absent)
          (λ h. absurd (ground (arith, h)), λ h. absurd (ground (arith, h, absent, t.found r)))
    | inr (b, there) ↦
        let more =
          check_references_iff (λ k. used k || text_eq k r) rs (insert r true table)
            (insert-IsTable used r table t there) in
        rw (check_references-known bad r rs table there)
          (ground (arith, more.0, there, t.found r), ground (arith, more.1))
  ]

leftover_iff :
    (bad : Text → BuildError) (table : List (Text × Bool))
    → HasUniqueKeys table
    → (leftover bad table ≡ []) ↔ ((k : Text) (b : Bool) → lookup k table ≡ some b → b ≡ true)
leftover_iff bad [] u = (λ h k b l. cc, λ h. refl)
leftover_iff bad ((j, true) ∷ table) (absent, u) =
    let more = leftover_iff bad table u in
    (
      λ h k b l. elim (Bool-cases (text_eq j k)) [
        | inl same ↦ ground (arith, l, same)
        | inr other ↦ more.0 h k b (rw other at l)
      ],
      λ h. more.1 (λ k b l. h k b (ground (arith, l, absent, text_eq_iff j k))),
    )
leftover_iff bad ((j, false) ∷ table) u = (λ h. cc, λ h. cc (h j false (rw (text_eq_refl j) refl)))

all_in :
    (keys rs : List Text) (k : Text)
    → all (λ r. is_in r keys) rs ≡ true
    → is_in k rs ≡ true
    → is_in k keys ≡ true
all_in keys [] k h i = cc
all_in keys (r ∷ rs) k h i = ground (arith, all_in keys rs k, text_eq_iff k r)

in_all :
    (keys rs : List Text)
    → ((k : Text) → is_in k rs ≡ true → is_in k keys ≡ true)
    → all (λ r. is_in r keys) rs ≡ true
in_all keys [] h = refl
in_all keys (r ∷ rs) h =
    ground (arith, h r, text_eq_refl r, in_all keys rs (λ k i. h k (ground (arith, i))))

-- One table is in order exactly if the keys are what is referred to.
module _ (bad bad' : Text → BuildError) (keys rs : List Text) where
  abbrev done : List (Text × Bool) × List BuildError
  done = check_references bad rs (unused keys)

  pub table_iff :
      ((done.1 ≡ []) × (leftover bad' done.0 ≡ [])) ↔ ((k : Text) → is_in k keys ≡ is_in k rs)
  table_iff =
      let t =
        check_references-IsTable bad keys (λ k. false) rs (unused keys) (unused-IsTable keys) in
      let c = check_references_iff bad keys (λ k. false) rs (unused keys) (unused-IsTable keys) in
      let l = leftover_iff bad' done.0 t.unique in
      (
        λ (h, e) k. ground (arith, all_in keys rs k (c.0 h), l.0 e k (is_in k rs), t.found k),
        λ h. (
          c.1 (in_all keys rs (λ k i. h k ∙ i)),
          l.1 (λ k b e. ground (arith, e, h k, t.found k)),
        ),
      )
