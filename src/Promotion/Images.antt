-- ===== src/Promotion/Images.antt =====
-- The images before and after a promotion and a rollback.
use cmgr.Common.{
  Bool, Bool-cases, List, Option, Option-cases, Text, [], any, ap, arith, false, if◌then◌else◌, inl,
  inr, none, refl, some, subst, sym, text_eq, text_eq→eq, true, ◌||◌, ◌∙◌, ◌∷◌, ◌≡◌,
}
use cmgr.Promotion.{
  tag_name, staged, World, Faults, Candidate, canonical, staged, tag_name, restore_image,
  restore_images, snapshot_images, tag_images,
}

-- The name stands in the list.
abbrev pub names : Text → List (Text × Option Text) → Bool
names n [] = false
names n (e ∷ es) = text_eq (e.0) n || names n es

-- The entries are what the names stand for.
abbrev pub Records : World → List (Text × Option Text) → Type 0
Records w [] = Unit
Records w (e ∷ es) = (e.1 ≡ w.image (e.0)) × Records w es

restore_image-image :
    (d : Faults) (name : Text) (id : Option Text) (w : World)
    → (restore_image d name id w).1 ≡ true
    → (n : Text)
    → (restore_image d name id w).0.image n ≡ (if text_eq name n then id else w.image n)
restore_image-image d name none w h n = elim (Bool-cases (d.remove name)) [
  | inl r ↦ absurd (ground (arith, h, r))
  | inr r ↦ rw r refl
]
restore_image-image d name (some id) w h n = elim (Bool-cases (d.tag id name)) [
  | inl r ↦ absurd (ground (arith, h, r))
  | inr r ↦ rw r refl
]

restore_image-archive :
    (d : Faults) (name : Text) (id : Option Text) (w : World)
    → (restore_image d name id w).0.archive ≡ w.archive
restore_image-archive d name none w = elim (Bool-cases (d.remove name)) [
  | inl r ↦ rw r refl
  | inr r ↦ rw r refl
]
restore_image-archive d name (some id) w = elim (Bool-cases (d.tag id name)) [
  | inl r ↦ rw r refl
  | inr r ↦ rw r refl
]

-- Images that are put back without an error stand for what they did.
pub restore_images-image :
    (d : Faults) (es : List (Text × Option Text)) (before w : World)
    → Records before es
    → (restore_images d es w).1 ≡ true
    → (n : Text)
    → (restore_images d es w).0.image n ≡ (if names n es then before.image n else w.image n)
unfolding restore_images
restore_images-image d [] before w r h n = refl
restore_images-image d ((name, id) ∷ es) before w (e, r) h n =
    let w' = (restore_image d name id w).0 in
    let first : (restore_image d name id w).1 ≡ true = ground (arith, h) in
    let rest = restore_images-image d es before w' r (ground (arith, h)) n in
    let one = restore_image-image d name id w first n in
    let same : text_eq name n ≡ true → before.image n ≡ id =
      λ t. sym (e ∙ ap before.image (text_eq→eq name n t)) in
    elim (Bool-cases (text_eq name n)) [
      | inl t ↦ elim (Bool-cases (names n es)) [
        | inl m ↦ rw t (rw m at rest)
        | inr m ↦ rw t ((rw m at rest) ∙ (rw t at one) ∙ sym (same t))
      ]
      | inr t ↦ elim (Bool-cases (names n es)) [
        | inl m ↦ rw t (rw m (rw m at rest))
        | inr m ↦ rw t (rw m ((rw m at rest) ∙ (rw t at one)))
      ]
    ]

pub restore_images-archive :
    (d : Faults) (es : List (Text × Option Text)) (w : World)
    → (restore_images d es w).0.archive ≡ w.archive
unfolding restore_images
restore_images-archive d [] w = refl
restore_images-archive d ((name, id) ∷ es) w =
    restore_images-archive d es (restore_image d name id w).0 ∙ restore_image-archive d name id w

snapshot_images-cons :
    (d : Faults) (b : Candidate) (k : Text) (hs : List Text) (w : World)
    {es : List (Text × Option Text)}
    → snapshot_images d b (k ∷ hs) w ≡ some es
    → (rest : List (Text × Option Text)) × (snapshot_images d b hs w ≡ some rest)
      × ((canonical b k, w.image (canonical b k)) ∷ rest ≡ es)
unfolding snapshot_images
snapshot_images-cons d b k hs w h = elim (Option-cases (snapshot_images d b hs w)) [
  | inl e ↦ absurd (ground (arith, h, e))
  | inr (es, e) ↦ elim (Bool-cases (d.inspect (canonical b k))) [
    | inl i ↦ absurd (ground (arith, h, e, i))
    | inr i ↦ (es, e, ground (arith, h, e, i))
  ]
]

snapshot_images-nil :
    (d : Faults) (b : Candidate) (w : World) {es : List (Text × Option Text)}
    → snapshot_images d b [] w ≡ some es
    → [] ≡ es
unfolding snapshot_images
snapshot_images-nil d b w h = ground (arith, h)

snapshot_images-Records :
    (d : Faults) (b : Candidate) (hs : List Text) (w : World) {es : List (Text × Option Text)}
    → snapshot_images d b hs w ≡ some es
    → Records w es
snapshot_images-Records d b [] w h = subst (Records w) (snapshot_images-nil d b w h) tt
snapshot_images-Records d b (k ∷ hs) w h =
    let (rest, s, e) = snapshot_images-cons d b k hs w h in
    subst (Records w) e (refl, snapshot_images-Records d b hs w s)

tag_name-image :
    (d : Faults) (source target : Text) (w : World) (n : Text)
    → text_eq target n ≡ false
    → (tag_name d source target w).0.image n ≡ w.image n
tag_name-image d source target w n t = elim (Option-cases (w.image source)) [
  | inl e ↦ rw (e, tag_name) refl
  | inr (id, e) ↦ elim (Bool-cases (d.tag source target)) [
    | inl f ↦ rw (e, tag_name) (rw f refl)
    | inr f ↦ rw (e, tag_name) (rw f (rw t refl))
  ]
]

tag_name-archive :
    (d : Faults) (source target : Text) (w : World)
    → (tag_name d source target w).0.archive ≡ w.archive
tag_name-archive d source target w = elim (Option-cases (w.image source)) [
  | inl e ↦ rw (e, tag_name) refl
  | inr (id, e) ↦ elim (Bool-cases (d.tag source target)) [
    | inl f ↦ rw (e, tag_name) (rw f refl)
    | inr f ↦ rw (e, tag_name) (rw f refl)
  ]
]

-- Tagging changes only the canonical names of the hosts.
tag_images-kept :
    (d : Faults) (b : Candidate) (q : Text) (hs : List Text) (w : World) (n : Text)
    → any (λ h. text_eq (canonical b h) n) hs ≡ false
    → (tag_images d b q hs w).0.image n ≡ w.image n
unfolding tag_images
tag_images-kept d b q [] w n other = refl
tag_images-kept d b q (k ∷ hs) w n other =
    let first = tag_name-image d (staged b q k) (canonical b k) w n (ground (arith, other)) in
    elim (Bool-cases (tag_name d (staged b q k) (canonical b k) w).1) [
      | inr t ↦ rw t first
      | inl t ↦ rw t (
          tag_images-kept d b q hs (tag_name d (staged b q k) (canonical b k) w).0 n
            (ground (arith, other))
          ∙ first)
    ]

pub tag_images-archive :
    (d : Faults) (b : Candidate) (q : Text) (hs : List Text) (w : World)
    → (tag_images d b q hs w).0.archive ≡ w.archive
unfolding tag_images
tag_images-archive d b q [] w = refl
tag_images-archive d b q (k ∷ hs) w =
    let first = tag_name-archive d (staged b q k) (canonical b k) w in
    elim (Bool-cases (tag_name d (staged b q k) (canonical b k) w).1) [
      | inr t ↦ rw t first
      | inl t ↦
          rw t (tag_images-archive d b q hs (tag_name d (staged b q k) (canonical b k) w).0 ∙ first)
    ]

-- The snapshot holds the canonical names of the hosts.
names-snapshot :
    (d : Faults) (b : Candidate) (hs : List Text) (w : World) {es : List (Text × Option Text)}
    (n : Text)
    → snapshot_images d b hs w ≡ some es
    → any (λ h. text_eq (canonical b h) n) hs ≡ names n es
names-snapshot d b [] w n h = ap (names n) (snapshot_images-nil d b w h)
names-snapshot d b (k ∷ hs) w n h =
    let (rest, s, e) = snapshot_images-cons d b k hs w h in
    ap (λ r. text_eq (canonical b k) n || r) (names-snapshot d b hs w n s) ∙ ap (names n) e

-- A rollback undoes what the tagging did, as far as it got.
pub restore-tag_images :
    (d d' : Faults) (b : Candidate) (q : Text) (hs : List Text) (before w : World)
    {es : List (Text × Option Text)}
    → snapshot_images d b hs before ≡ some es
    → w.image ≡ (tag_images d b q hs before).0.image
    → (restore_images d' es w).1 ≡ true
    → (n : Text) → (restore_images d' es w).0.image n ≡ before.image n
restore-tag_images d d' b q hs before w {es} s same r n =
    let back = restore_images-image d' es before w (snapshot_images-Records d b hs before s) r n in
    elim (Bool-cases (names n es)) [
      | inl m ↦ rw m at back
      | inr m ↦
          (rw m at back)
          ∙ ap (λ f. f n) same
          ∙ tag_images-kept d b q hs before n (names-snapshot d b hs before n s ∙ m)
    ]
