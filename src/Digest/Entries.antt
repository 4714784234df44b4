-- ===== src/Digest/Entries.antt =====
-- Different directories give different streams.
use cmgr.Common.{
  ℕ, ◌<◌, ◌^◌, ◌%◌, subst, ◌≢◌, append-nil, text_eq→eq, false, List, [], ◌∷◌, ◌++◌, ◌≡◌, ◌⊎◌, refl,
  sym, ap, ◌∙◌, arith, inl, inr, Bool-cases, length, append_assoc, All, Text, codes, text_eq,
  decimal, parse_nat, parse_nat-decimal,
}
use cmgr.Digest.{
  big_endian, hash_frame, checksum_ignore, context_ignore, Kind, symlink, regular, other, Entry,
  tail_stream, entry_stream, Tree, nothing, node, visited, checksum_stream, metadata_stream,
}
use cmgr.Digest.Frames.{append-inj, hash_frame-inj}

pub data Shape : Type 0 where
  link file neither : Shape

abbrev pub shape_of : Kind → Shape
shape_of (symlink target) = link
shape_of (regular content) = file
shape_of other = neither

-- The target of a link, and a file whose content is as long as its size says.
abbrev pub IsWhole : ℕ → Kind → Type 0
IsWhole size (symlink target) = length target < 2 ^ 64
IsWhole size (regular content) = (length content ≡ size)
IsWhole size other = Unit

-- An entry as the operating system gives it: the text of its mode shows whether it is a link or a
-- file, and the lengths are those of 64 bits.
pub record IsListed (shape : Text → Shape) (e : Entry) : Type 0 where
  pub path_fits : length e.path < 2 ^ 64
  pub mode_fits : length e.mode < 2 ^ 64
  pub digits_fit : length (decimal e.size) < 2 ^ 64
  pub shown : shape e.mode ≡ shape_of e.kind
  pub whole : IsWhole e.size e.kind

decimal-inj : (n m : ℕ) → decimal n ≡ decimal m → n ≡ m
decimal-inj n m h =
    let same = sym (parse_nat-decimal n) ∙ ap parse_nat h ∙ parse_nat-decimal m in cc

tail_stream-inj :
    (size : ℕ) (k l : Kind) (r t : Text)
    → shape_of k ≡ shape_of l
    → IsWhole size k
    → IsWhole size l
    → tail_stream size k ++ r ≡ tail_stream size l ++ t
    → (k ≡ l) × (r ≡ t)
tail_stream-inj size (symlink a) (symlink b) r t s wa wb h =
    let (same, more) = hash_frame-inj (codes "symlink") a b r t wa wb h in (ap symlink same, more)
tail_stream-inj size (regular a) (regular b) r t s wa wb h =
    let n = big_endian 8 (size % 2 ^ 64) in
    let e = sym (append_assoc n a r) ∙ h ∙ append_assoc n b t in
    let (_, e1) = append-inj n n (a ++ r) (b ++ t) refl e in
    let (same, more) = append-inj a b r t (wa ∙ sym wb) e1 in (ap regular same, more)
tail_stream-inj size other other r t s wa wb h = (refl, h)
tail_stream-inj size (symlink a) (regular b) r t s wa wb h = cc
tail_stream-inj size (symlink a) other r t s wa wb h = cc
tail_stream-inj size (regular a) (symlink b) r t s wa wb h = cc
tail_stream-inj size (regular a) other r t s wa wb h = cc
tail_stream-inj size other (symlink b) r t s wa wb h = cc
tail_stream-inj size other (regular b) r t s wa wb h = cc

entry_stream-append :
    (e : Entry) (r : Text)
    → entry_stream e ++ r
      ≡ hash_frame (codes "path") e.path
        ++ (hash_frame (codes "mode") e.mode
            ++ (hash_frame (codes "size") (decimal e.size) ++ (tail_stream e.size e.kind ++ r)))
unfolding entry_stream
entry_stream-append e r = simp (append_assoc)

module _ (shape : Text → Shape) where
  -- An entry can be read off the front of a stream.
  entry_stream-inj :
      (e f : Entry) (r t : Text)
      → IsListed shape e
      → IsListed shape f
      → entry_stream e ++ r ≡ entry_stream f ++ t
      → (e ≡ f) × (r ≡ t)
  entry_stream-inj e f r t le lf h =
      let h0 = sym (entry_stream-append e r) ∙ h ∙ entry_stream-append f t in
      let (paths, h1) =
        hash_frame-inj (codes "path") e.path f.path _ _ le.path_fits lf.path_fits h0 in
      let (modes, h2) =
        hash_frame-inj (codes "mode") e.mode f.mode _ _ le.mode_fits lf.mode_fits h1 in
      let (digits, h3) =
        hash_frame-inj (codes "size") (decimal e.size) (decimal f.size) _ _ le.digits_fit
          lf.digits_fit h2 in
      let sizes = decimal-inj e.size f.size digits in
      let shapes : shape_of e.kind ≡ shape_of f.kind = sym le.shown ∙ ap shape modes ∙ lf.shown in
      let (kinds, rest) =
        tail_stream-inj e.size e.kind f.kind r t shapes le.whole
          (subst (λ n. IsWhole n f.kind) (sym sizes) lf.whole)
          (h3 ∙ ap (λ n. tail_stream n f.kind ++ t) (sym sizes)) in
      (λ i. record { path = paths i; mode = modes i; size = sizes i; kind = kinds i }, rest)

  stream_of : List Entry → Text
  stream_of [] = []
  stream_of (e ∷ es) = entry_stream e ++ stream_of es

  stream_of-append : (es fs : List Entry) → stream_of (es ++ fs) ≡ stream_of es ++ stream_of fs
  unfolding stream_of
  stream_of-append [] fs = refl
  stream_of-append (e ∷ es) fs =
      ap (λ r. entry_stream e ++ r) (stream_of-append es fs)
      ∙ sym (append_assoc (entry_stream e) _ _)

  checksum_stream-visited : (d : Tree) → checksum_stream d ≡ stream_of (visited d)
  unfolding checksum_stream visited stream_of
  checksum_stream-visited nothing = refl
  checksum_stream-visited (node name e inside after) =
      let r = checksum_stream-visited after in
      let w =
        ap (λ t. entry_stream e ++ t)
          (ap (λ t. t ++ checksum_stream after) (checksum_stream-visited inside)
            ∙ ap (λ t. stream_of (visited inside) ++ t) r
            ∙ sym (stream_of-append (visited inside) (visited after))) in
      elim (Bool-cases (checksum_ignore name)) [ inl b ↦ rw b r | inr b ↦ rw b w ]

  entry_stream-ne-nil : (e : Entry) (r : Text) → entry_stream e ++ r ≢ []
  unfolding entry_stream hash_frame big_endian
  entry_stream-ne-nil e r h = cc

  stream_of-inj :
      (es fs : List Entry)
      → All (IsListed shape) es
      → All (IsListed shape) fs
      → stream_of es ≡ stream_of fs
      → es ≡ fs
  unfolding stream_of
  stream_of-inj [] [] le lf h = refl
  stream_of-inj [] (f ∷ fs) le lf h = absurd (entry_stream-ne-nil f (stream_of fs) (sym h))
  stream_of-inj (e ∷ es) [] le lf h = absurd (entry_stream-ne-nil e (stream_of es) h)
  stream_of-inj (e ∷ es) (f ∷ fs) (l, le) (k, lf) h =
      let (first, rest) = entry_stream-inj e f (stream_of es) (stream_of fs) l k h in
      cc (stream_of-inj es fs le lf rest)

  -- Two directories that are hashed as the same bytes have the same entries that count, in the same
  -- order: their paths, modes, sizes, targets and contents, where the lengths are those of 64 bits,
  -- each file is as long as its size says, and the text of a mode shows what is a link and what is
  -- a file.
  pub checksum_stream-inj :
      (d d' : Tree)
      → All (IsListed shape) (visited d)
      → All (IsListed shape) (visited d')
      → checksum_stream d ≡ checksum_stream d'
      → visited d ≡ visited d'
  checksum_stream-inj d d' l l' h =
      stream_of-inj (visited d) (visited d') l l'
        (sym (checksum_stream-visited d) ∙ h ∙ checksum_stream-visited d')

-- The metadata digest tells the file and its path apart.
pub metadata_stream-inj :
    (c p d q : Text)
    → length c < 2 ^ 64
    → length d < 2 ^ 64
    → length p < 2 ^ 64
    → length q < 2 ^ 64
    → metadata_stream c p ≡ metadata_stream d q
    → (c ≡ d) × (p ≡ q)
unfolding metadata_stream
metadata_stream-inj c p d q hc hd hp hq h =
    let (same, rest) = hash_frame-inj (codes "metadata") c d _ _ hc hd h in
    (
      same,
      (hash_frame-inj (codes "path") p q [] [] hp hq (
          append-nil (hash_frame (codes "path") p)
          ∙ rest
          ∙ sym (append-nil (hash_frame (codes "path") q)))).0,
    )

-- What goes into a build is hashed, with the source or, as the challenge file, with the metadata.
pub context_ignore-checksum_ignore :
    (name : Text)
    → context_ignore name ≡ false
    → (checksum_ignore name ≡ false) ⊎ (name ≡ codes "problem.json")
unfolding context_ignore checksum_ignore
context_ignore-checksum_ignore name h = elim (Bool-cases (text_eq name (codes "problem.json"))) [
  | inl json ↦ inr (text_eq→eq name _ json)
  | inr not_json ↦ inl (ground (arith, h, not_json))
]
