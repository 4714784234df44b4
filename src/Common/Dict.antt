-- ===== src/Common/Dict.antt =====
-- A Go map with string keys, as an association list: reading, writing and deleting a key.
use mathlib.Core.Path.{◌≡◌, refl}
use mathlib.Core.Option.{Option, none, some}
use mathlib.Core.List.{List, [], ◌∷◌}
use native.Mathlib.Omega.{arith}
use cmgr.Common.Tests.{if◌then◌else◌, Bool-cases}
use mathlib.Core.Logic.{inl, inr}
use cmgr.Common.Texts.{Text, text_eq, text_eq_iff}

module _ {V : Type 0} where
  abbrev pub lookup : Text → List (Text × V) → Option V
  lookup k [] = none
  lookup k ((j, v) ∷ m) = let rest = lookup k m in if text_eq j k then some v else rest

  abbrev pub insert : Text → V → List (Text × V) → List (Text × V)
  insert k v [] = (k, v) ∷ []
  insert k v ((j, w) ∷ m) =
      let rest = insert k v m in if text_eq j k then (k, v) ∷ m else (j, w) ∷ rest

  abbrev pub delete : Text → List (Text × V) → List (Text × V)
  delete k [] = []
  delete k ((j, w) ∷ m) = let rest = delete k m in if text_eq j k then rest else (j, w) ∷ rest

  pub lookup-insert :
      (k j : Text) (v : V) (m : List (Text × V))
      → lookup j (insert k v m) ≡ (if text_eq k j then some v else lookup j m)
  lookup-insert k j v [] = refl
  lookup-insert k j v ((i, w) ∷ m) =
      ground (arith, text_eq_iff k j, text_eq_iff i k, text_eq_iff i j, lookup-insert k j v m)

  pub lookup-delete :
      (k j : Text) (m : List (Text × V))
      → lookup j (delete k m) ≡ (if text_eq k j then none else lookup j m)
  lookup-delete k j [] = ground arith
  lookup-delete k j ((i, w) ∷ m) =
      ground (arith, text_eq_iff k j, text_eq_iff i k, text_eq_iff i j, lookup-delete k j m)

-- No key stands in the list twice.
abbrev pub HasUniqueKeys : {V : Type 0} → List (Text × V) → Type 0
HasUniqueKeys [] = Unit
HasUniqueKeys ((k, v) ∷ m) = (lookup k m ≡ none) × HasUniqueKeys m

pub insert-HasUniqueKeys :
    {V : Type 0} (k : Text) (v : V) (m : List (Text × V))
    → HasUniqueKeys m
    → HasUniqueKeys (insert k v m)
insert-HasUniqueKeys k v [] u = (refl, tt)
insert-HasUniqueKeys k v ((j, w) ∷ m) (absent, u) = elim (Bool-cases (text_eq j k)) [
  | inl same ↦ rw same (ground (arith, text_eq_iff j k, same, absent), u)
  | inr other ↦ rw other (
    ground (arith, lookup-insert k j v m, text_eq_iff k j, text_eq_iff j k, other, absent),
    insert-HasUniqueKeys k v m u,
  )
]
