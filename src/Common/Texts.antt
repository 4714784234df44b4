-- ===== src/Common/Texts.antt =====
-- Go strings as lists of bytes, with the functions of package strings that the program calls.
use Prim.Native.Nat.{ℕ, suc}
use Prim.Native.Char.{code}
use Prim.Native.String.{String}
use mathlib.Core.Path.{◌≡◌, refl}
use mathlib.Core.Logic.{◌↔◌}
use mathlib.Core.Bool.{Bool, true, false, not, ◌&&◌}
use mathlib.Core.Option.{Option, none, some}
use mathlib.Core.List.{List, [], ◌∷◌, ◌++◌}
use native.Mathlib.Omega.{arith}
use cmgr.Common.Lists.{all}
use cmgr.Common.Tests.{◌==◌, if◌then◌else◌}

abbrev pub Text : Type 0
Text = List ℕ

-- The bytes of an ASCII literal.
abbrev pub codes : String → Text
codes String.[] = []
codes (String.◌∷◌ c s) = code c ∷ codes s

abbrev pub text_eq : Text → Text → Bool
text_eq [] [] = true
text_eq [] (y ∷ ys) = false
text_eq (x ∷ xs) [] = false
text_eq (x ∷ xs) (y ∷ ys) = (x == y) && text_eq xs ys

abbrev pub is_empty : Text → Bool
is_empty [] = true
is_empty (x ∷ xs) = false

-- strings.CutPrefix: what follows the prefix, if the text starts with it.
abbrev pub cut_prefix : Text → Text → Option Text
cut_prefix [] s = some s
cut_prefix (p ∷ ps) [] = none
cut_prefix (p ∷ ps) (c ∷ s) = if p == c then cut_prefix ps s else none

abbrev pub has_prefix : Text → Text → Bool
has_prefix [] s = true
has_prefix (p ∷ ps) [] = false
has_prefix (p ∷ ps) (c ∷ s) = (p == c) && has_prefix ps s

-- strings.IndexByte.
abbrev pub index_byte : Text → ℕ → Option ℕ
index_byte [] b = none
index_byte (c ∷ s) b =
    let rest = index_byte s b in
    if c == b then some 0 else elim rest [ none ↦ none | some i ↦ some (suc i) ]

-- strings.Split by a separator of one byte.
abbrev pub split_head : Text → List Text → List Text
split_head c [] = c ∷ []
split_head c (w ∷ ws) = (c ++ w) ∷ ws

abbrev pub split_byte : ℕ → Text → List Text
split_byte b [] = [] ∷ []
split_byte b (c ∷ s) =
    let rest = split_byte b s in if c == b then [] ∷ rest else split_head (c ∷ []) rest

pub text_eq→eq : (s t : Text) → text_eq s t ≡ true → s ≡ t
text_eq→eq [] [] h = refl
text_eq→eq [] (y ∷ ys) h = cc
text_eq→eq (x ∷ xs) [] h = cc
text_eq→eq (x ∷ xs) (y ∷ ys) h = ground (arith, text_eq→eq xs ys)

pub text_eq_refl : (s : Text) → text_eq s s ≡ true
text_eq_refl [] = refl
text_eq_refl (x ∷ xs) = ground (arith, text_eq_refl xs)

pub text_eq_iff : (s t : Text) → (text_eq s t ≡ true) ↔ (s ≡ t)
text_eq_iff s t = (text_eq→eq s t, λ e. cc (e, text_eq_refl s))

pub has_prefix-append : (p s : Text) → has_prefix p (p ++ s) ≡ true
has_prefix-append [] s = refl
has_prefix-append (x ∷ p) s = ground (arith, has_prefix-append p s)

pub cut_prefix-append : (p s : Text) → cut_prefix p (p ++ s) ≡ some s
cut_prefix-append [] s = refl
cut_prefix-append (x ∷ p) s = ground (arith, cut_prefix-append p s)

-- Cutting a prefix succeeds exactly on the texts that start with it.
pub cut_prefix-eq-some : (p s : Text) {r : Text} → cut_prefix p s ≡ some r → s ≡ p ++ r
cut_prefix-eq-some [] s h = ground arith
cut_prefix-eq-some (x ∷ p) [] h = cc
cut_prefix-eq-some (x ∷ p) (c ∷ s) {r} h = ground (arith, cut_prefix-eq-some p s {r = r})

-- A text without the separator is one part.
pub split_byte_single :
    (b : ℕ) (s : Text) → all (λ c. not (c == b)) s ≡ true → split_byte b s ≡ s ∷ []
split_byte_single b [] h = refl
split_byte_single b (c ∷ s) h = ground (arith, split_byte_single b s)

-- The first separator ends the first part.
pub split_byte-append :
    (b : ℕ) (s t : Text)
    → all (λ c. not (c == b)) s ≡ true
    → split_byte b (s ++ b ∷ t) ≡ s ∷ split_byte b t
split_byte-append b [] t h = ground arith
split_byte-append b (c ∷ s) t h = ground (arith, split_byte-append b s t)
