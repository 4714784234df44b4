-- ===== src/Policy/Ulimits.antt =====
-- Which limits a container runs under, resource by resource.
use cmgr.Common.{
  ◌≡◌, refl, ap, ◌∙◌, inl, inr, false, not, List, [], ◌∷◌, ◌++◌, arith, if◌then◌else◌, Text,
  text_eq, keep, Bool-cases, append-nil, text_eq→eq,
}
use cmgr.Policy.{ContainerOptions, limit_name, is_present, merge_ulimits, merge_runtime_defaults}

-- The limits of one resource, in order.
abbrev pub limits_of : Text → List Text → List Text
limits_of name = keep (λ l. text_eq (limit_name l) name)

limits_of-append :
    (n : Text) (xs ys : List Text) → limits_of n (xs ++ ys) ≡ limits_of n xs ++ limits_of n ys
limits_of-append n [] ys = refl
limits_of-append n (x ∷ xs) ys = ground (arith, limits_of-append n xs ys)

-- A resource that is not named has no limit.
limits_of_absent : (n : Text) (xs : List Text) → is_present xs n ≡ false → limits_of n xs ≡ []
unfolding is_present
limits_of_absent n [] h = refl
limits_of_absent n (x ∷ xs) h = ground (arith, limits_of_absent n xs)

-- Of the defaults that are added, those of one resource are all or none.
limits_of-added :
    (own : List Text) (n : Text) (xs : List Text)
    → limits_of n (keep (λ l. not (is_present own (limit_name l))) xs)
      ≡ (if is_present own n then [] else limits_of n xs)
limits_of-added own n [] = ground arith
limits_of-added own n (x ∷ xs) = elim (Bool-cases (text_eq (limit_name x) n)) [
  | inl same ↦
      ground
        (arith, limits_of-added own n xs, ap (is_present own) (text_eq→eq (limit_name x) n same))
  | inr other ↦ ground (arith, limits_of-added own n xs)
]

limits_of-merge_ulimits :
    (n : Text) (defaults own : List Text)
    → limits_of n (merge_ulimits defaults own)
      ≡ (if is_present own n then limits_of n own else limits_of n defaults)
limits_of-merge_ulimits n defaults own =
    limits_of-append n own (keep (λ l. not (is_present own (limit_name l))) defaults) ∙ chosen
  where
    chosen :
        limits_of n own ++ limits_of n (keep (λ l. not (is_present own (limit_name l))) defaults)
        ≡ (if is_present own n then limits_of n own else limits_of n defaults)
    chosen = elim (Bool-cases (is_present own n)) [
      | inl p ↦ rw (limits_of-added own n defaults) (rw p (append-nil (limits_of n own)))
      | inr a ↦ rw (limits_of-added own n defaults) (rw a (rw (limits_of_absent n own a) refl))
    ]

-- For every resource, the merged options have the limits of the challenge if it names the resource,
-- and those of the defaults otherwise, each in its order.
pub limits_of-merge_runtime_defaults :
    (n : Text) (defaults challenge : ContainerOptions)
    → limits_of n (merge_runtime_defaults defaults challenge).ulimits ≡ (
        if is_present challenge.ulimits n
        then limits_of n challenge.ulimits
        else limits_of n defaults.ulimits)
unfolding merge_runtime_defaults
limits_of-merge_runtime_defaults n defaults challenge = with_defaults defaults.ulimits
  where
    with_defaults :
        (ds : List Text)
        → limits_of n
            (elim ds [ [] ↦ challenge.ulimits | l ∷ ls ↦ merge_ulimits (l ∷ ls) challenge.ulimits ])
          ≡ (if is_present challenge.ulimits n
              then limits_of n challenge.ulimits
              else limits_of n ds)
    with_defaults [] = elim (Bool-cases (is_present challenge.ulimits n)) [
      | inl p ↦ rw p
      | inr a ↦ rw (a, limits_of_absent n challenge.ulimits a)
    ]
    with_defaults (l ∷ ls) = limits_of-merge_ulimits n (l ∷ ls) challenge.ulimits
