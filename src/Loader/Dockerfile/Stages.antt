-- ===== src/Loader/Dockerfile/Stages.antt =====
-- The stage that a PUBLISH comment stands in: the cursor of the loop finds the last one that starts before.
use cmgr.Common.{
  ℕ, ◌≤◌, true, List, [], ◌∷◌, ◌≡◌, refl, sym, arith, ltb, keep, Bool-cases, inl, inr, ltb→le, ap,
}
use cmgr.Loader.Dockerfile.{HostInfo, Publish, last_host, advance}

-- The host of the last stage that starts before a position, and the first one where none does.
abbrev pub stage_of : ℕ → HostInfo → List (ℕ × HostInfo) → HostInfo
stage_of position first others = last_host first (keep (λ s. ltb (s.0) position) others)

-- The positions of the matches of a regular expression grow.
abbrev pub AreOrdered : ℕ → List (ℕ × HostInfo) → Type 0
AreOrdered n [] = Unit
AreOrdered n ((start, h) ∷ r) = (n ≤ start) × AreOrdered start r

abbrev pub ArePublishedInOrder : ℕ → List Publish → Type 0
ArePublishedInOrder n [] = Unit
ArePublishedInOrder n (p ∷ ps) = (n ≤ p.start) × ArePublishedInOrder p.start ps

none_before :
    (position n : ℕ) (r : List (ℕ × HostInfo))
    → position ≤ n
    → AreOrdered n r
    → ◌≡◌ {A = List (ℕ × HostInfo)} (keep (λ s. ltb (s.0) position) r) []
none_before position n [] le o = refl
none_before position n ((start, h) ∷ r) le o = ground (arith, none_before position start r)

pub advance-stage_of :
    (position n : ℕ) (h : HostInfo) (r : List (ℕ × HostInfo))
    → AreOrdered n r
    → (advance position h r).0 ≡ stage_of position h r
unfolding advance
advance-stage_of position n h [] o = refl
advance-stage_of position n h ((start, g) ∷ r) (le, o) = elim (Bool-cases (ltb start position)) [
  | inl before ↦ rw before (advance-stage_of position start g r o)
  | inr after ↦
      rw after (sym (ap (last_host h) (none_before position start r (ltb→le _ _ after) o)))
]

-- The cursor may start from where it was at an earlier position.
pub advance-advance :
    (earlier position : ℕ) (h : HostInfo) (r : List (ℕ × HostInfo))
    → earlier ≤ position
    → advance position ((advance earlier h r).0) ((advance earlier h r).1) ≡ advance position h r
unfolding advance
advance-advance earlier position h [] le = refl
advance-advance earlier position h ((start, g) ∷ r) le = elim (Bool-cases (ltb start earlier)) [
  | inl before ↦
      let now : ltb start position ≡ true = ground (arith, before, le) in
      rw (before, now) (advance-advance earlier position g r le)
  | inr after ↦ rw after refl
]

pub advance_zero : (h : HostInfo) (r : List (ℕ × HostInfo)) → advance 0 h r ≡ (h, r)
unfolding advance
advance_zero h [] = refl
advance_zero h ((start, g) ∷ r) = ground arith
