-- ===== src/Digest/Frames.antt =====
-- A frame can be read off the front of a stream in one way.
use cmgr.Common.{
  ℕ, zero, suc, ◌/◌, ◌%◌, ◌^◌, ◌<◌, List, [], ◌∷◌, ◌++◌, ◌≡◌, refl, sym, ap, ◌∙◌, arith, length,
  length-append, take, drop, take-append, drop-append, append_assoc, Text,
}
use native.Mathlib.Nat.{pow-suc}
use cmgr.Digest.{big_endian, hash_frame}

-- Two streams that start with parts of the same length.
pub append-inj :
    {A : Type 0} (xs ys r t : List A)
    → length xs ≡ length ys
    → xs ++ r ≡ ys ++ t
    → (xs ≡ ys) × (r ≡ t)
append-inj xs ys r t same h = (
  sym (take-append xs r)
      ∙ ap (take (length xs)) h
      ∙ ap (λ n. take n (ys ++ t)) same
      ∙ take-append ys t,
  sym (drop-append xs r)
      ∙ ap (drop (length xs)) h
      ∙ ap (λ n. drop n (ys ++ t)) same
      ∙ drop-append ys t,
)

pub length-big_endian : (k n : ℕ) → length (big_endian k n) ≡ k
unfolding big_endian
length-big_endian zero n = refl
length-big_endian (suc k) n = omega (
  arith,
  length-append {0} (big_endian k (n / 256)) ((n % 256) ∷ []),
  length-big_endian k (n / 256),
)

digit_bound : (k n : ℕ) → n < 256 ^ suc k → n / 256 < 256 ^ k
digit_bound k n h = omega (arith, pow-suc 256 k)

pub big_endian-inj :
    (k n m : ℕ) → n < 256 ^ k → m < 256 ^ k → big_endian k n ≡ big_endian k m → n ≡ m
unfolding big_endian
big_endian-inj zero n m hn hm h = omega arith
big_endian-inj (suc k) n m hn hm h =
    let (high, low) =
      append-inj (big_endian k (n / 256)) (big_endian k (m / 256)) ((n % 256) ∷ []) ((m % 256) ∷ [])
        (length-big_endian k (n / 256) ∙ sym (length-big_endian k (m / 256))) h in
    let same : n / 256 ≡ m / 256 =
      big_endian-inj k (n / 256) (m / 256) (digit_bound k n hn) (digit_bound k m hm) high in
    let last : n % 256 ≡ m % 256 = cc in omega arith

hash_frame-append :
    (label content r : Text)
    → hash_frame label content ++ r
      ≡ big_endian 4 (length label % 2 ^ 32)
        ++ (label ++ (big_endian 8 (length content % 2 ^ 64) ++ (content ++ r)))
unfolding hash_frame
hash_frame-append label content r = simp (append_assoc)

-- The length in a frame is that of the content, so that the content and what follows it are known.
pub hash_frame-inj :
    (label c d r t : Text)
    → length c < 2 ^ 64
    → length d < 2 ^ 64
    → hash_frame label c ++ r ≡ hash_frame label d ++ t
    → (c ≡ d) × (r ≡ t)
hash_frame-inj label c d r t hc hd h =
    let n = length label % 2 ^ 32 in
    let e = sym (hash_frame-append label c r) ∙ h ∙ hash_frame-append label d t in
    let (_, e1) = append-inj (big_endian 4 n) (big_endian 4 n) _ _ refl e in
    let (_, e2) = append-inj label label _ _ refl e1 in
    let (sizes, e3) =
      append-inj (big_endian 8 (length c % 2 ^ 64)) (big_endian 8 (length d % 2 ^ 64)) _ _
        (length-big_endian 8 _ ∙ sym (length-big_endian 8 _)) e2 in
    let same : length c % 2 ^ 64 ≡ length d % 2 ^ 64 =
      big_endian-inj 8 _ _ (omega arith) (omega arith) sizes in
    append-inj c d r t (omega arith) e3
