-- ===== src/Interceptor/Bundle.antt =====
-- FindBundlePath of internal/ociinterceptor/interceptor.go and findBundlePathStrict and
-- invocationRequiresRewrite of internal/ociinterceptor/runtime.go: the bundle that a runtime
-- invocation names.
use cmgr.Common.{
  ℕ, suc, ◌≡◌, refl, Bool, false, ◌||◌, Option, none, some, List, [], ◌∷◌, arith, ◌==◌, ◌≤◌, ◌⊎◌,
  if◌then◌else◌, Text, codes, text_eq, cut_prefix, is_empty, Result, ok, err, inl, inr,
}

is_bundle_flag : Text → Bool
is_bundle_flag a = text_eq a (codes "-b") || text_eq a (codes "--bundle")

-- The value of `-b=value` or `--bundle=value`.
assigned_bundle : Text → Option Text
assigned_bundle a = elim (cut_prefix (codes "-b=") a) [
  | some b ↦ some b
  | none ↦ cut_prefix (codes "--bundle=") a
]

abbrev next_argument : List Text → Option Text
next_argument [] = none
next_argument (a ∷ as') = some a

pub find_bundle_path : List Text → Option Text
find_bundle_path [] = none
find_bundle_path (a ∷ rest) =
    let later = find_bundle_path rest in
    if is_bundle_flag a
    then next_argument rest
    else elim (assigned_bundle a) [ some b ↦ some b | none ↦ later ]

pub data BundleError : Type 0 where
  requires_path : Text → BundleError
  empty_path : BundleError
  bundle_count : ℕ → BundleError

-- What one argument contributes: nothing, a candidate, or an error.
candidate : Text → List Text → Result BundleError (Option Text)
candidate a rest =
    if is_bundle_flag a
    then elim (next_argument rest) [
      | none ↦ err (requires_path a)
      | some b ↦ if is_empty b then err (requires_path a) else ok (some b)
    ]
    else elim (assigned_bundle a) [
      | none ↦ ok none
      | some b ↦ if is_empty b then err empty_path else ok (some b)
    ]

strict_loop : Text → ℕ → List Text → Result BundleError (Text × ℕ)
strict_loop bundle n [] = ok (bundle, n)
strict_loop bundle n (a ∷ rest) = elim (candidate a rest) [
  | err e ↦ err e
  | ok none ↦ strict_loop bundle n rest
  | ok (some b) ↦ strict_loop b (suc n) rest
]

unfoldable pub find_bundle_path_strict : List Text → Result BundleError Text
unfolding strict_loop candidate is_bundle_flag assigned_bundle
find_bundle_path_strict args = elim (strict_loop [] 0 args) [
  | err e ↦ err e
  | ok (bundle, n) ↦ if n == 1 then ok bundle else err (bundle_count n)
]

unfoldable pub invocation_requires_rewrite : List Text → Bool
invocation_requires_rewrite [] = false
invocation_requires_rewrite (a ∷ rest) =
    text_eq a (codes "create") || text_eq a (codes "run") || invocation_requires_rewrite rest

Candidate-cases :
    (c : Result BundleError (Option Text))
    → (c ≡ ok none) ⊎ ((b : Text) × (c ≡ ok (some b))) ⊎ ((e : BundleError) × (c ≡ err e))
Candidate-cases (ok none) = inl refl
Candidate-cases (ok (some b)) = inr (inl (b, refl))
Candidate-cases (err e) = inr (inr (e, refl))

-- Once a bundle was found, the count never falls, and it stays only if no other is found.
strict_loop_counts :
    (b : Text) (n : ℕ) (args : List Text) {c : Text} {k : ℕ}
    → strict_loop b n args ≡ ok (c, k)
    → (n ≤ k) × (k ≡ n → c ≡ b)
unfolding strict_loop
strict_loop_counts b n [] h = ground arith
strict_loop_counts b n (a ∷ rest) h = elim (Candidate-cases (candidate a rest)) [
  | inl e ↦ strict_loop_counts b n rest (rw (e, strict_loop) at h)
  | inr (inl (d, e)) ↦
      let (more, same) = strict_loop_counts d (suc n) rest (rw (e, strict_loop) at h) in
      (omega arith, λ eq. absurd (omega arith))
  | inr (inr (x, e)) ↦ cc (rw (e, strict_loop) at h)
]

find_of_nothing :
    (a : Text) (rest : List Text)
    → candidate a rest ≡ ok none
    → find_bundle_path (a ∷ rest) ≡ find_bundle_path rest
unfolding candidate find_bundle_path
find_of_nothing a rest h = ground arith

find_of_candidate :
    (a : Text) (rest : List Text) (b : Text)
    → candidate a rest ≡ ok (some b)
    → (find_bundle_path (a ∷ rest) ≡ some b) × (is_empty b ≡ false)
unfolding candidate find_bundle_path
find_of_candidate a rest b h = ground arith

strict_loop-one :
    (args : List Text) (c : Text)
    → strict_loop [] 0 args ≡ ok (c, 1)
    → (find_bundle_path args ≡ some c) × (is_empty c ≡ false)
unfolding strict_loop
strict_loop-one [] c h = ground arith
strict_loop-one (a ∷ rest) c h = elim (Candidate-cases (candidate a rest)) [
  | inl e ↦ rw (find_of_nothing a rest e) (strict_loop-one rest c (rw (e, strict_loop) at h))
  | inr (inl (b, e)) ↦
      let (more, same) = strict_loop_counts b 1 rest (rw (e, strict_loop) at h) in
      rw (same refl) (find_of_candidate a rest b e)
  | inr (inr (x, e)) ↦ cc (rw (e, strict_loop) at h)
]

-- Where the strict search of the runtime wrapper succeeds, the path is not empty, and the lenient
-- FindBundlePath returns the same one.
pub find_bundle_path-strict :
    (args : List Text) {b : Text}
    → find_bundle_path_strict args ≡ ok b
    → (find_bundle_path args ≡ some b) × (is_empty b ≡ false)
unfolding find_bundle_path_strict
find_bundle_path-strict args {b} h = strict_loop-one args b (ground arith)
