-- ===== src/Store/Rows.antt =====
-- Which rows the statements on builds and instances leave alone.
use cmgr.Common.{
  ℕ, ◌<◌, ◌≡◌, ◌≢◌, ap, ◌∙◌, ◌⊎◌, inl, inr, Bool, true, false, some, List, [], ◌∷◌, ◌++◌, ◌==◌,
  arith, is_empty, keep, In, Bool-cases,
}
use cmgr.Store.{Db, Build, Instance, fresh_build_id, fresh_instance_id, find_build}

module _ {A : Type 0} where
  pub In-append : (a : A) (xs ys : List A) → In a xs → In a (xs ++ ys)
  In-append a (x ∷ xs) ys (inl e) = inl e
  In-append a (x ∷ xs) ys (inr i) = inr (In-append a xs ys i)
  In-append a [] ys i = absurd i

  pub In-keep : (p : A → Bool) (a : A) (xs : List A) → In a xs → p a ≡ true → In a (keep p xs)
  In-keep p a [] i h = absurd i
  In-keep p a (x ∷ xs) (inl e) h = rw (ap p e ∙ h) (inl e)
  In-keep p a (x ∷ xs) (inr i) h = elim (Bool-cases (p x)) [
    | inl t ↦ rw t (inr (In-keep p a xs i h))
    | inr f ↦ rw f (In-keep p a xs i h)
  ]

  pub In-snoc : (a : A) (xs : List A) (y : A) → In a (xs ++ y ∷ []) → In a xs ⊎ (y ≡ a)
  In-snoc a [] y (inl e) = inr e
  In-snoc a [] y (inr i) = absurd i
  In-snoc a (x ∷ xs) y (inl e) = inl (inl e)
  In-snoc a (x ∷ xs) y (inr i) = elim (In-snoc a xs y i) [ inl k ↦ inl (inr k) | inr e ↦ inr e ]

  pub keep-In : (p : A → Bool) (a : A) (xs : List A) → In a (keep p xs) → In a xs
  keep-In p a [] i = i
  keep-In p a (x ∷ xs) i = elim (Bool-cases (p x)) [
    | inl t ↦ elim (head_or_rest t i) [ inl e ↦ inl e | inr k ↦ inr (keep-In p a xs k) ]
    | inr f ↦ inr (keep-In p a xs (rw (f, keep) at i))
  ]
    where
      head_or_rest : p x ≡ true → In a (keep p (x ∷ xs)) → (x ≡ a) ⊎ In a (keep p xs)
      head_or_rest t k = rw (t, keep) at k

pub instance_below_fresh :
    (i : Instance) (is' : List Instance) → In i is' → i.id < fresh_instance_id is'
unfolding fresh_instance_id
instance_below_fresh i [] h = absurd h
instance_below_fresh i (j ∷ js) (inl e) = ground (arith, ap (λ (k : Instance). k.id) e)
instance_below_fresh i (j ∷ js) (inr h) = ground (arith, instance_below_fresh i js h)

-- The rows that must survive a failed change of a schema: completed builds, and instances.
pub record Kept (a b : Db) : Type 0 where
  pub builds : (r : Build) → In r a.builds → is_empty r.flag ≡ false → In r b.builds
  pub instances : (i : Instance) → In i a.instances → In i b.instances

pub Kept-refl : (a : Db) → Kept a a
Kept-refl a = record { builds = λ r i h. i; instances = λ i h. h }

pub Kept-trans : {a b c : Db} → Kept a b → Kept b c → Kept a c
Kept-trans k l = record {
  builds = λ r i h. l.builds r (k.builds r i h) h;
  instances = λ i h. l.instances i (k.instances i h);
}

-- Primary keys: no two rows of builds share an id, and ids start at 1.
pub record WellKeyed (db : Db) : Type 0 where
  pub unique : (r t : Build) → In r db.builds → In t db.builds → r.id ≡ t.id → r ≡ t
  pub positive : (r : Build) → In r db.builds → r.id ≢ 0

pub build_below_fresh : (r : Build) (bs : List Build) → In r bs → r.id < fresh_build_id bs
unfolding fresh_build_id
build_below_fresh r [] h = absurd h
build_below_fresh r (b ∷ bs) (inl e) = ground (arith, ap (λ (k : Build). k.id) e)
build_below_fresh r (b ∷ bs) (inr h) = ground (arith, build_below_fresh r bs h)

pub fresh_positive : (bs : List Build) → fresh_build_id bs ≢ 0
unfolding fresh_build_id
fresh_positive [] = omega arith
fresh_positive (b ∷ bs) = ground arith

pub find_build-In :
    (n : ℕ) (bs : List Build) {b : Build} → find_build n bs ≡ some b → In b bs × (b.id ≡ n)
unfolding find_build
find_build-In n [] h = cc
find_build-In n (c ∷ bs) {b} h = elim (Bool-cases (c.id == n)) [
  | inl e ↦ let same : c ≡ b = ground arith in (inl same, ground arith)
  | inr e ↦ let (i, q) = find_build-In n bs {b = b} (ground arith) in (inr i, q)
]
