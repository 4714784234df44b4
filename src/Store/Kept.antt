-- ===== src/Store/Kept.antt =====
-- The statements on builds and instances keep the completed builds and the instances.
use cmgr.Common.{
  ℕ, ◌≡◌, ◌≢◌, ap, sym, refl, ◌∙◌, inl, inr, true, false, not, some, List, [], ◌∷◌, ◌++◌, ◌==◌,
  arith, is_empty, keep, In, Bool-cases, Text, if◌then◌else◌, ok, Option-cases, subst,
}
use mathlib.Core.Bool.{false≢true}
use cmgr.Store.{
  Db, Build, fresh_build_id, find_build, find_key, same_key, stage_build, set_flag, finalize_build,
  remove_build_metadata,
}
use cmgr.Store.Rows.{
  Kept, Kept-refl, WellKeyed, In-append, In-keep, In-snoc, keep-In, build_below_fresh,
  find_build-In, fresh_positive,
}

-- The later state has the rows of the earlier one that matter, and keys of its own.
abbrev pub Grown : Db → Db → Type 0
Grown a b = Kept a b × WellKeyed b

find_key-In : (k : Build) (bs : List Build) {b : Build} → find_key k bs ≡ some b → In b bs
unfolding find_key
find_key-In k [] h = cc
find_key-In k (c ∷ bs) {b} h = elim (Bool-cases (same_key k c)) [
  | inl e ↦ let same : c ≡ b = ground arith in inl same
  | inr e ↦ inr (find_key-In k bs {b = b} (rw (e, find_key) at h))
]

unique_after :
    (db : Db)
    → WellKeyed db
    → (row : Build) → row.id ≡ fresh_build_id db.builds
    → (r t : Build) → In r (db.builds ++ row ∷ [])
    → In t (db.builds ++ row ∷ [])
    → r.id ≡ t.id
    → r ≡ t
unique_after db w row e r t i j same = elim (In-snoc r db.builds row i) [
  | inl old ↦ elim (In-snoc t db.builds row j) [
    | inl old' ↦ w.unique r t old old' same
    | inr new' ↦
        absurd
          (omega (arith, build_below_fresh r db.builds old, ap (λ (b : Build). b.id) new', e, same))
  ]
  | inr new ↦ elim (In-snoc t db.builds row j) [
    | inl old' ↦
        absurd
          (omega (arith, build_below_fresh t db.builds old', ap (λ (b : Build). b.id) new, e, same))
    | inr new' ↦ sym new ∙ new'
  ]
]

positive_after :
    (db : Db)
    → WellKeyed db
    → (row : Build) → row.id ≡ fresh_build_id db.builds
    → (r : Build) → In r (db.builds ++ row ∷ [])
    → r.id ≢ 0
positive_after db w row e r i = elim (In-snoc r db.builds row i) [
  | inl old ↦ w.positive r old
  | inr new ↦ λ z. fresh_positive db.builds (sym e ∙ ap (λ (b : Build). b.id) new ∙ z)
]

pub stage_build-Grown :
    (db : Db) (want : Build)
    → WellKeyed db
    → Grown db (stage_build db want).0 × ((stage_build db want).1.id ≢ 0)
unfolding stage_build
stage_build-Grown db want w = elim (Option-cases (find_key want db.builds)) [
  | inl e ↦
      rw (e, stage_build)
        (
          (
            record { builds = λ r i h. In-append r db.builds _ i; instances = λ i h. h },
            record { unique = unique_after db w _ refl; positive = positive_after db w _ refl },
          ),
          fresh_positive db.builds,
        )
  | inr (b, e) ↦
      rw (e, stage_build) ((Kept-refl db, w), w.positive b (find_key-In want db.builds e))
]

-- A row of the table after the flag of one row was set.
pub set_flag-In :
    (n : ℕ) (f : Text) (r : Build) (bs : List Build) → In r bs → r.id ≢ n → In r (set_flag n f bs)
unfolding set_flag
set_flag-In n f r (b ∷ bs) (inl e) d =
    let other : (b.id == n) ≡ false = ground (arith, ap (λ (k : Build). k.id) e) in inl (rw other e)
set_flag-In n f r (b ∷ bs) (inr i) d = inr (set_flag-In n f r bs i d)
set_flag-In n f r [] i d = absurd i

pub In-set_flag :
    (n : ℕ) (f : Text) (r : Build) (bs : List Build)
    → In r (set_flag n f bs)
    → (b : Build) × In b bs × (r ≡ (if b.id == n then record b { flag = f } else b))
unfolding set_flag
In-set_flag n f r (b ∷ bs) (inl e) = (b, inl refl, sym e)
In-set_flag n f r (b ∷ bs) (inr i) = let (c, k, e) = In-set_flag n f r bs i in (c, inr k, e)
In-set_flag n f r [] i = absurd i

-- A row without a flag is none that must be kept.
other_row :
    (db : Db) (n : ℕ) (b r : Build)
    → WellKeyed db
    → find_build n db.builds ≡ some b
    → is_empty b.flag ≡ true
    → In r db.builds
    → is_empty r.flag ≡ false
    → r.id ≢ n
other_row db n b r w found blank i full same =
    let (j, k) = find_build-In n db.builds found in
    let equal : r ≡ b = w.unique r b i j (same ∙ sym k) in
    false≢true (sym full ∙ ap (λ (k : Build). is_empty k.flag) equal ∙ blank)

pub remove_build_metadata-Grown :
    (db : Db) (n : ℕ) (b : Build) {db' : Db}
    → WellKeyed db
    → find_build n db.builds ≡ some b
    → is_empty b.flag ≡ true
    → remove_build_metadata db n ≡ ok db'
    → Grown db db'
unfolding remove_build_metadata
remove_build_metadata-Grown db n b {db'} w found blank h = subst (Grown db) (ground arith) removed
  where
    removed : Grown db (record db { builds = keep (λ b. not (b.id == n)) db.builds })
    removed = (
      record {
        builds = λ r i full.
            let apart : r.id ≢ n = other_row db n b r w found blank i full in
            In-keep (λ b. not (b.id == n)) r db.builds i (ground (arith, apart));
        instances = λ i h. h;
      },
      record {
        unique = λ r t i j. w.unique r t (keep-In _ r db.builds i) (keep-In _ t db.builds j);
        positive = λ r i. w.positive r (keep-In _ r db.builds i);
      },
    )

pub finalize_build-Grown :
    (db : Db) (n : ℕ) (b : Build) (f : Text) {db' : Db}
    → WellKeyed db
    → find_build n db.builds ≡ some b
    → is_empty b.flag ≡ true
    → finalize_build db n f ≡ ok db'
    → Grown db db'
unfolding finalize_build
finalize_build-Grown db n b f {db'} w found blank h = subst (Grown db) (ground arith) flagged
  where
    same_id : (r c : Build) → r ≡ (if c.id == n then record c { flag = f } else c) → r.id ≡ c.id
    same_id r c e = elim (Bool-cases (c.id == n)) [
      | inl t ↦ ap (λ (k : Build). k.id) (rw t at e)
      | inr t ↦ ap (λ (k : Build). k.id) (rw t at e)
    ]

    flagged : Grown db (record db { builds = set_flag n f db.builds })
    flagged = (
      record {
        builds =
            λ r i full. set_flag-In n f r db.builds i (other_row db n b r w found blank i full);
        instances = λ i h. h;
      },
      record {
        unique = λ r t i j same.
            let (c, k, e) = In-set_flag n f r db.builds i in
            let (d, l, g) = In-set_flag n f t db.builds j in
            let one : c ≡ d = w.unique c d k l (sym (same_id r c e) ∙ same ∙ same_id t d g) in
            e ∙ ap (λ (k : Build). if k.id == n then record k { flag = f } else k) one ∙ sym g;
        positive = λ r i z.
            let (c, k, e) = In-set_flag n f r db.builds i in
            w.positive c k (sym (same_id r c e) ∙ z);
      },
    )
