-- ===== src/Changes/Sorted.antt =====
-- DetectChanges judges every challenge against what was found at first.
use cmgr.Common.{
  ◌≡◌, refl, sym, ap, ◌∙◌, Bool, true, false, not, ◌&&◌, ◌||◌, Option, none, some, List, [], ◌∷◌,
  ◌++◌, map, keep, any, All, arith, Text, text_eq, text_eq_iff, lookup, delete, lookup-delete,
  Option-cases, inl, inr,
}
use cmgr.Changes.{
  Challenge, Found, ChangeError, not_looked_up, Updates, Answers, Verdict, gone, elsewhere,
  unreadable, same, refresh, rebuild, verdict, still_found, place, value, sort_changes,
}

abbrev pub cons_if : {B : Type 0} → Option B → List B → List B
cons_if none bs = bs
cons_if (some b) bs = b ∷ bs

-- What a function gives for the elements of a list, where it gives something.
abbrev pub collect : {A B : Type 0} → (A → Option B) → List A → List B
collect f [] = []
collect f (x ∷ xs) = cons_if (f x) (collect f xs)

abbrev pub removed_of : Verdict → Challenge → Option Challenge
removed_of gone curr = some curr
removed_of _ curr = none

abbrev pub unmodified_of : Verdict → Challenge → Option Challenge
unmodified_of same curr = some curr
unmodified_of _ curr = none

abbrev pub refreshed_of : Verdict → Challenge → Option Challenge
refreshed_of (refresh new) curr = some new
refreshed_of _ curr = none

abbrev pub updated_of : Verdict → Challenge → Option Challenge
updated_of (rebuild new) curr = some new
updated_of _ curr = none

abbrev pub error_of : Verdict → Challenge → Option ChangeError
error_of unreadable curr = some (not_looked_up curr.id)
error_of _ curr = none

-- The lists of the updates, by the verdicts on what was found at first.
pub record IsSorted (a : Answers) (dir : Text) (errs : List ChangeError) (found : Found)
    (db : List Challenge) (cu : Updates) : Type 0 where
  pub removed : cu.removed ≡ collect (λ c. removed_of (verdict a dir (lookup c.id found) c) c) db
  pub unmodified :
      cu.unmodified ≡ collect (λ c. unmodified_of (verdict a dir (lookup c.id found) c) c) db
  pub refreshed :
      cu.refreshed ≡ collect (λ c. refreshed_of (verdict a dir (lookup c.id found) c) c) db
  pub updated : cu.updated ≡ collect (λ c. updated_of (verdict a dir (lookup c.id found) c) c) db
  pub errors :
      cu.errors ≡ collect (λ c. error_of (verdict a dir (lookup c.id found) c) c) db ++ errs
  pub added : cu.added ≡ map value (keep (λ e. not (any (λ c. text_eq c.id (e.0)) db)) found)

-- No id stands twice.
abbrev pub Distinct : List Challenge → Type 0
Distinct [] = Unit
Distinct (c ∷ cs) = All (λ d. text_eq c.id d.id ≡ false) cs × Distinct cs

collect_agree :
    {B : Type 0} (f : Option Challenge → Challenge → Option B) (found : Found) (id : Text)
    (cs : List Challenge)
    → All (λ d. text_eq id d.id ≡ false) cs
    → collect (λ c. f (lookup c.id (delete id found)) c) cs
      ≡ collect (λ c. f (lookup c.id found) c) cs
collect_agree f found id [] h = refl
collect_agree f found id (d ∷ cs) (apart, h) =
    let one : lookup d.id (delete id found) ≡ lookup d.id found =
      lookup-delete id d.id found ∙ rw apart refl in
    ap (λ o. cons_if (f o d) (collect (λ c. f (lookup c.id (delete id found)) c) cs)) one
    ∙ ap (cons_if (f (lookup d.id found) d)) (collect_agree f found id cs h)

delete_absent : (id : Text) (found : Found) → lookup id found ≡ none → delete id found ≡ found
delete_absent id [] h = refl
delete_absent id ((k, c) ∷ found) h = ground (arith, h, delete_absent id found)

keep-delete :
    (p : Text × Challenge → Bool) (id : Text) (found : Found)
    → keep p (delete id found) ≡ keep (λ e. not (text_eq id (e.0)) && p e) found
keep-delete p id [] = refl
keep-delete p id ((k, c) ∷ found) =
    ground (arith, keep-delete p id found, text_eq_iff id k, text_eq_iff k id)

still_found-eq :
    (id : Text) (found : Found) → still_found (lookup id found) id found ≡ delete id found
still_found-eq id found = elim (Option-cases (lookup id found)) [
  | inl e ↦ rw e (sym (delete_absent id found e))
  | inr (c, e) ↦ rw e refl
]

place-removed :
    (v : Verdict) (c : Challenge) (cu : Updates)
    → (place v c cu).removed ≡ cons_if (removed_of v c) cu.removed
place-removed gone c cu = refl
place-removed elsewhere c cu = refl
place-removed unreadable c cu = refl
place-removed same c cu = refl
place-removed (refresh new) c cu = refl
place-removed (rebuild new) c cu = refl

place-unmodified :
    (v : Verdict) (c : Challenge) (cu : Updates)
    → (place v c cu).unmodified ≡ cons_if (unmodified_of v c) cu.unmodified
place-unmodified gone c cu = refl
place-unmodified elsewhere c cu = refl
place-unmodified unreadable c cu = refl
place-unmodified same c cu = refl
place-unmodified (refresh new) c cu = refl
place-unmodified (rebuild new) c cu = refl

place-refreshed :
    (v : Verdict) (c : Challenge) (cu : Updates)
    → (place v c cu).refreshed ≡ cons_if (refreshed_of v c) cu.refreshed
place-refreshed gone c cu = refl
place-refreshed elsewhere c cu = refl
place-refreshed unreadable c cu = refl
place-refreshed same c cu = refl
place-refreshed (refresh new) c cu = refl
place-refreshed (rebuild new) c cu = refl

place-updated :
    (v : Verdict) (c : Challenge) (cu : Updates)
    → (place v c cu).updated ≡ cons_if (updated_of v c) cu.updated
place-updated gone c cu = refl
place-updated elsewhere c cu = refl
place-updated unreadable c cu = refl
place-updated same c cu = refl
place-updated (refresh new) c cu = refl
place-updated (rebuild new) c cu = refl

place-errors :
    (v : Verdict) (c : Challenge) (cu : Updates)
    → (place v c cu).errors ≡ cons_if (error_of v c) cu.errors
place-errors gone c cu = refl
place-errors elsewhere c cu = refl
place-errors unreadable c cu = refl
place-errors same c cu = refl
place-errors (refresh new) c cu = refl
place-errors (rebuild new) c cu = refl

place-added : (v : Verdict) (c : Challenge) (cu : Updates) → (place v c cu).added ≡ cu.added
place-added gone c cu = refl
place-added elsewhere c cu = refl
place-added unreadable c cu = refl
place-added same c cu = refl
place-added (refresh new) c cu = refl
place-added (rebuild new) c cu = refl

keep_all :
    (p : Text × Challenge → Bool) (found : Found)
    → ((e : Text × Challenge) → p e ≡ true)
    → keep p found ≡ found
keep_all p [] h = refl
keep_all p (e ∷ found) h = ground (arith, h e, keep_all p found h)

cons-collect :
    {B : Type 0} (f : Option Challenge → Challenge → Option B) (found : Found) (c : Challenge)
    (cs : List Challenge) {bs : List B}
    → All (λ d. text_eq c.id d.id ≡ false) cs
    → bs ≡ collect (λ d. f (lookup d.id (delete c.id found)) d) cs
    → cons_if (f (lookup c.id found) c) bs ≡ collect (λ d. f (lookup d.id found) d) (c ∷ cs)
cons-collect f found c cs apart e =
    ap (cons_if (f (lookup c.id found) c)) (e ∙ collect_agree f found c.id cs apart)

cons_if-append :
    {B : Type 0} (o : Option B) (bs es : List B) → cons_if o (bs ++ es) ≡ cons_if o bs ++ es
cons_if-append none bs es = refl
cons_if-append (some b) bs es = refl

keep_same :
    (p q : Text × Challenge → Bool) (found : Found)
    → ((e : Text × Challenge) → p e ≡ q e)
    → keep p found ≡ keep q found
keep_same p q [] h = refl
keep_same p q (e ∷ found) h = ground (arith, h e, keep_same p q found h)

not_either : (a b : Bool) → (not a && not b) ≡ not (a || b)
not_either true b = refl
not_either false b = refl

-- The loop of DetectChanges, which deletes what it has met, gives the lists of the challenges by a
-- verdict on each against what was found at first, and adds what no challenge of the database has
-- met, where no two challenges of the database have one id.
pub sort_changes-IsSorted :
    (a : Answers) (dir : Text) (errs : List ChangeError) (found : Found) (db : List Challenge)
    → Distinct db
    → IsSorted a dir errs found db (sort_changes a dir errs found db)
unfolding sort_changes
sort_changes-IsSorted a dir errs found [] d = record {
  removed = refl;
  unmodified = refl;
  refreshed = refl;
  updated = refl;
  errors = refl;
  added = ap (map value) (sym (keep_all (λ e. true) found (λ e. refl)));
}
sort_changes-IsSorted a dir errs found (c ∷ cs) (apart, d) =
    let v = verdict a dir (lookup c.id found) c in
    let cu = sort_changes a dir errs (still_found (lookup c.id found) c.id found) cs in
    let r : IsSorted a dir errs (delete c.id found) cs cu =
      rw (still_found-eq c.id found) (sort_changes-IsSorted a dir errs (delete c.id found) cs d) in
    record {
      removed =
          place-removed v c cu
          ∙ cons-collect (λ o x. removed_of (verdict a dir o x) x) found c cs apart r.removed;
      unmodified =
          place-unmodified v c cu
          ∙ cons-collect (λ o x. unmodified_of (verdict a dir o x) x) found c cs apart r.unmodified;
      refreshed =
          place-refreshed v c cu
          ∙ cons-collect (λ o x. refreshed_of (verdict a dir o x) x) found c cs apart r.refreshed;
      updated =
          place-updated v c cu
          ∙ cons-collect (λ o x. updated_of (verdict a dir o x) x) found c cs apart r.updated;
      errors =
          place-errors v c cu
          ∙ ap (cons_if (error_of v c)) (
              r.errors
              ∙ ap (λ es. es ++ errs)
                  (collect_agree (λ o x. error_of (verdict a dir o x) x) found c.id cs apart))
          ∙ cons_if-append (error_of v c) _ errs;
      added =
          place-added v c cu
          ∙ r.added
          ∙ ap (map value) (
              keep-delete (λ e. not (any (λ x. text_eq x.id (e.0)) cs)) c.id found
              ∙ keep_same _ _ found
                  (λ e. not_either (text_eq c.id (e.0)) (any (λ x. text_eq x.id (e.0)) cs)));
    }
