-- ===== src/Server/Routes.antt =====
-- The path of a challenge names the challenge.
use cmgr.Common.{
  ◌≡◌, refl, sym, ap, ◌∙◌, true, false, not, ◌==◌, some, List, [], ◌∷◌, ◌++◌, all, All, Text, codes,
  text_eq, is_empty, split_byte, split_byte_single, split_byte-append, append_assoc, append-nil,
}
use cmgr.Server.{collect_challenge, reverse_onto, without_last, trimmed, challenge_of_path}

-- A part of a path: no slash in it, and not the name of the collection.
abbrev pub IsPart : Text → Type 0
IsPart part = (all (λ c. not (c == 47)) part ≡ true) × (text_eq part (codes "challenges") ≡ false)

-- Parts with a slash between them.
abbrev pub join : Text → List Text → Text
join part [] = part
join part (next ∷ rest) = part ++ 47 ∷ join next rest

-- Parts with a slash after each.
abbrev slashed : List Text → Text
slashed [] = []
slashed (part ∷ rest) = part ++ 47 ∷ slashed rest

collect-reverse_onto :
    (parts before : List Text) (found : Text)
    → All IsPart parts
    → collect_challenge found (reverse_onto parts before)
      ≡ collect_challenge (slashed parts ++ found) before
unfolding collect_challenge
collect-reverse_onto [] before found h = refl
collect-reverse_onto (part ∷ rest) before found (p, h) =
    collect-reverse_onto rest (part ∷ before) found h
    ∙ rw (p.1)
        (ap (λ t. collect_challenge t before) (sym (append_assoc part (47 ∷ slashed rest) found)))

split-join :
    (part : Text) (rest : List Text)
    → IsPart part
    → All IsPart rest
    → split_byte 47 (join part rest) ≡ part ∷ rest
split-join part [] p h = split_byte_single 47 part (p.0)
split-join part (next ∷ rest) p (q, h) =
    split_byte-append 47 part (join next rest) (p.0) ∙ ap (λ r. part ∷ r) (split-join next rest q h)

slashed-join : (part : Text) (rest : List Text) → slashed (part ∷ rest) ≡ join part rest ++ 47 ∷ []
slashed-join part [] = refl
slashed-join part (next ∷ rest) =
    ap (λ t. part ++ 47 ∷ t) (slashed-join next rest)
    ∙ sym (append_assoc part (47 ∷ join next rest) (47 ∷ []))

without_last-append : (s : Text) → without_last (s ++ 47 ∷ []) ≡ s
without_last-append [] = refl
without_last-append (c ∷ []) = refl
without_last-append (c ∷ d ∷ s) = ap (λ r. c ∷ r) (without_last-append (d ∷ s))

blank-append : (s : Text) → is_empty (s ++ 47 ∷ []) ≡ false
blank-append [] = refl
blank-append (c ∷ s) = refl

-- The path of a challenge, as a client writes it, names that challenge, where no part of its identifier
-- is `challenges` itself.
pub challenge_of_path-join :
    (part : Text) (rest : List Text)
    → IsPart part
    → All IsPart rest
    → challenge_of_path (codes "/challenges/" ++ join part rest) ≡ some (join part rest)
unfolding challenge_of_path collect_challenge
challenge_of_path-join part rest p h = rw (split-join part rest p h) (
    ap trimmed (collect-reverse_onto (part ∷ rest) (codes "challenges" ∷ [] ∷ []) [] (p, h))
    ∙ ap (λ t. trimmed (some t)) (append-nil _ ∙ slashed-join part rest)
    ∙ rw (blank-append (join part rest)) (ap some (without_last-append (join part rest))))
