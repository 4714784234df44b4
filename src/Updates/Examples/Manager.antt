-- ===== src/Updates/Examples/Manager.antt =====
-- A manager with one challenge, two builds that share a row, and one container. Image names and archives are
-- changed by promotions; what the two builds stage is there from the start. An instance that was cut over
-- in this run cannot be cut over again.
use cmgr.Common.{
  ◌≡◌, refl, ap, arith, Bool, true, false, ◌&&◌, ◌||◌, Option, none, some, [], ◌∷◌, ◌++◌,
  if◌then◌else◌, Text, codes, text_eq, text_eq_iff, ℤ, pos, int_eq, int_eq_iff, Result, ok, err,
  Bool-cases, inl, inr, and-true, subst,
}
use cmgr.Changes.{Challenge}
use cmgr.Staging.{qualifier_prefix, is_update_qualifier}
use cmgr.Promotion.{
  World, Faults, Candidate, Promotion, backup_filename, promote_staged_build, rollback_staged_build,
}
use cmgr.Promotion.Visible.{Visible, visible}
use cmgr.Updates.{Operations}
use cmgr.Updates.Rows.{RowLaws}
use cmgr.Updates.Undo.{UndoLaws}
use cmgr.Updates.Promoted.{answer, HasPromotions, promote_failed-seen, promote_undone-seen, seen}

pub record Site : Type 0 where
  pub row : Challenge
  pub world : World
  pub flag : Text
  pub container : Text

-- Of a build: its id and its flag.
abbrev pub SiteBuild : Type 0
SiteBuild = ℤ × Text

abbrev candidate : SiteBuild → Candidate
candidate (id, flag) = record {
  id = id;
  challenge = codes "one";
  hosts = codes "web" ∷ [];
  has_artifacts = true;
}

abbrev no_faults : Faults
no_faults = record {
  inspect = λ n. false;
  tag = λ s t. false;
  remove = λ n. false;
  stat = λ n. false;
  rename = λ f t. false;
  unlink = λ n. false;
}

abbrev pub site_row : Text → Site → Option Challenge
site_row i s = if text_eq s.row.id i then some s.row else none

abbrev replace_row : Challenge → Site → Site × Bool
replace_row c s = if text_eq s.row.id c.id then (record s { row = c }, true) else (s, false)

abbrev cut : Site → Site × Result Bool Text
cut s =
    if text_eq s.container (codes "new")
    then (s, err true)
    else (record s { container = codes "new" }, ok s.container)

abbrev find_build : ℤ → Site → Option SiteBuild
find_build n s = if int_eq n (pos 7) || int_eq n (pos 8) then some (n, s.flag) else none

abbrev is_none : Option Text → Bool
is_none none = true
is_none (some t) = false

-- No build has a backup with this identifier.
abbrev is_new : Text → Site → Bool
is_new r s =
    is_none (s.world.archive (backup_filename (qualifier_prefix ++ r) (pos 7)))
    && is_none (s.world.archive (backup_filename (qualifier_prefix ++ r) (pos 8)))

abbrev first : Text
first = codes "0123456789abcdef0123456789abcdef"

abbrev second : Text
second = codes "fedcba9876543210fedcba9876543210"

abbrev identifier : Site → Option Text
identifier s = if is_new first s then some first else if is_new second s then some second else none

abbrev with_world : {A : Type 0} → Site → World × A → Site × A
with_world s (w, a) = (record s { world = w }, a)

abbrev pub site : Operations Site SiteBuild Promotion Text
site = record {
  stored = site_row;
  preflight = λ md s. true;
  replace = replace_row;
  build_ids = λ i s. some (pos 7 ∷ pos 8 ∷ []);
  create_context = λ md s. true;
  lookup_build = find_build;
  random_identifier = identifier;
  reset_flag = λ b. (b.0, []);
  hosts = λ b. codes "web" ∷ [];
  execute = λ md b q s. (s, (b.0, codes "flag{new}"), true);
  discard = λ md b q s. (s, true);
  promote = λ b q s. with_world s (answer (promote_staged_build no_faults (candidate b) q s.world));
  finalize = λ b s. (record s { flag = b.1 }, true);
  set_last_solved = λ b s. (s, true);
  instances = λ b s. some (pos 1 ∷ []);
  prepare = λ md b n s. cut s;
  rollback_cutover = λ c s. (record s { container = c }, true);
  finish_cutover = λ c s. (s, true);
  rollback_staged = λ p s. with_world s (rollback_staged_build no_faults p s.world);
  finish_staged = λ p s. (s, true);
  remove_image = λ b h s. (s, true);
  clean_interrupted = λ n ids s. (s, true);
}

site-own_id : (i : Text) (s : Site) (c : Challenge) → site_row i s ≡ some c → c.id ≡ i
site-own_id i s c h = ground (arith, h, text_eq_iff s.row.id i)

site-replace_row :
    (c : Challenge) (s : Site) (i : Text)
    → site_row i (replace_row c s).0
      ≡ (if (replace_row c s).1 && text_eq c.id i then some c else site_row i s)
site-replace_row c s i =
    ground (arith, text_eq_iff s.row.id c.id, text_eq_iff c.id i, text_eq_iff s.row.id i)

cut-row : (s : Site) (i : Text) → site_row i (cut s).0 ≡ site_row i s
cut-row s i = ground arith

pub site_rows : RowLaws site
site_rows = record {
  own_id = site-own_id;
  replace_row = site-replace_row;
  execute_row = λ md b q s i. refl;
  discard_row = λ md b q s i. refl;
  promote_row = λ b q s i. refl;
  finalize_row = λ b s i. refl;
  solved_row = λ b s i. refl;
  prepare_row = λ md b n s i. cut-row s i;
  undo_cutover_row = λ c s i. refl;
  finish_cutover_row = λ c s i. refl;
  undo_staged_row = λ p s i. refl;
  finish_staged_row = λ p s i. refl;
  remove_image_row = λ b h s i. refl;
  clean_row = λ n ids s i. refl;
}

abbrev pub flag_of : Site → Text
flag_of s = s.flag

abbrev pub container_of : Site → Text
container_of s = s.container

abbrev pub seen_of : Site → Visible
seen_of = seen site (λ s. s.world) candidate

is_none-none : (o : Option Text) → is_none o ≡ true → o ≡ none
is_none-none none h = refl
is_none-none (some t) h = cc

first-valid : is_update_qualifier (qualifier_prefix ++ first) ≡ true
unfolding is_update_qualifier
first-valid = refl

second-valid : is_update_qualifier (qualifier_prefix ++ second) ≡ true
unfolding is_update_qualifier
second-valid = refl

identifier-is_new :
    (r : Text) (s : Site)
    → identifier s ≡ some r
    → (is_update_qualifier (qualifier_prefix ++ r) ≡ true) × (is_new r s ≡ true)
identifier-is_new r s h = elim (Bool-cases (is_new first s)) [
  | inl a ↦
      let same : first ≡ r = cc (rw a at h) in
      subst (λ x. (is_update_qualifier (qualifier_prefix ++ x) ≡ true) × (is_new x s ≡ true)) same
        (first-valid, a)
  | inr a ↦ elim (Bool-cases (is_new second s)) [
    | inr b ↦ absurd (cc (rw (a, b) at h))
    | inl b ↦
        let same : second ≡ r = cc (rw (a, b) at h) in
        subst (λ x. (is_update_qualifier (qualifier_prefix ++ x) ≡ true) × (is_new x s ≡ true)) same
          (second-valid, b)
  ]
]

find_build-is_new :
    (n : ℤ) (b : SiteBuild) (r : Text) (s : Site)
    → find_build n s ≡ some b
    → is_new r s ≡ true
    → s.world.archive (backup_filename (qualifier_prefix ++ r) (b.0)) ≡ none
find_build-is_new n b r s found new =
    let name : ℤ → Text = λ i. backup_filename (qualifier_prefix ++ r) i in
    let (free7, free8) = and-true (is_none (s.world.archive (name (pos 7)))) _ new in
    elim (Bool-cases (int_eq n (pos 7))) [
      | inl seven ↦
          let same : b ≡ (pos 7, s.flag) = ground (arith, found, seven, int_eq_iff n (pos 7)) in
          rw same (is_none-none _ free7)
      | inr other ↦
          let same : b ≡ (pos 8, s.flag) = ground (arith, found, other, int_eq_iff n (pos 8)) in
          rw same (is_none-none _ free8)
    ]

site-fresh :
    (n : ℤ) (b : SiteBuild) (r : Text) (s : Site)
    → find_build n s ≡ some b
    → identifier s ≡ some r
    → (is_update_qualifier (qualifier_prefix ++ r) ≡ true)
      × (s.world.archive (backup_filename (qualifier_prefix ++ r) (b.0)) ≡ none)
site-fresh n b r s found new =
    let (valid, free) = identifier-is_new r s new in (valid, find_build-is_new n b r s found free)

site_promotions : HasPromotions site (λ s. s.world) candidate
site_promotions = record {
  faults = λ s. no_faults;
  promoted = λ b q s. refl;
  undone = λ p s. refl;
  fresh = λ md n b r s. site-fresh n b r s;
}

cut-world : (s : Site) → (cut s).0.world ≡ s.world
cut-world s = ground arith

cut-seen : (s : Site) → seen_of (cut s).0 ≡ seen_of s
cut-seen s = ap visible (cut-world s)

cut-flag : (s : Site) → (cut s).0.flag ≡ s.flag
cut-flag s = ground arith

cut-failed : (s : Site) → (cut s).1 ≡ err true → (cut s).0.container ≡ s.container
cut-failed s h = ground (arith, h)

cut-undo : (s : Site) (c : Text) → (cut s).1 ≡ ok c → c ≡ s.container
cut-undo s c h = ground (arith, h)

pub site_undo : UndoLaws site seen_of flag_of container_of
site_undo = record {
  execute_same = λ md b q s. (refl, refl, refl);
  discard_same = λ md b q s. (refl, refl, refl);
  promote_rows = λ b q s. refl;
  promote_machine = λ b q s. refl;
  promote_failed = promote_failed-seen site (λ s. s.world) candidate site_promotions;
  promote_undo = λ md n b r s p t found new.
      promote_undone-seen site (λ s. s.world) candidate site_promotions md n b r s found new p t;
  staged_rows = λ p s. refl;
  staged_machine = λ p s. refl;
  finalize_files = λ b s. refl;
  finalize_machine = λ b s. refl;
  solved_files = λ b s. refl;
  solved_machine = λ b s. refl;
  finalize_undo = λ n b md q s u t l ru rt done set. ground (arith, l);
  prepare_files = λ md b n s. cut-seen s;
  prepare_rows = λ md b n s. cut-flag s;
  prepare_failed = λ md b n s. cut-failed s;
  prepare_undo = λ md b n s c t h e done. cut-undo s c h;
  cutover_files = λ c s. refl;
  cutover_rows = λ c s. refl;
}
