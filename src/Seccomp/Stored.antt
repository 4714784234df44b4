-- ===== src/Seccomp/Stored.antt =====
-- Options that were resolved are stored and read back as they are.
use cmgr.Common.{
  either_way, ◌≡◌, refl, sym, ap, subst, ◌∙◌, inl, inr, Bool, true, false, not, ◌&&◌, ◌||◌, none,
  some, List, [], ◌∷◌, arith, Text, codes, text_eq, text_eq_refl, is_empty, Result, ok, >>=-eq-ok,
  Bool-cases, Result-cases,
}
use cmgr.Json.{field, end, get}
use cmgr.Interceptor.Tweaks.{normalize_tweaks, normalize_tweaks_iff, tweak_allow_disable_aslr}
use cmgr.Policy.{SeccompOptions}
use cmgr.Seccomp.{
  SeccompError, Library, validate_seccomp_profile, validate_seccomp_profile_filename,
  read_seccomp_profile, no_texts, has_tweaks, has_profile, many, tweaked, with_profile, resolve,
  unless, encoded, encode_options, marshal_seccomp_options,
}
use cmgr.Seccomp.Reading.{
  text_member, check_snapshot, validate_persisted_seccomp_options, unmarshal_seccomp_options,
}
use cmgr.Seccomp.Members.{IsPlain, decode-encode_options}

-- What resolve leaves: one of the four modes.
data Mode (lib : Library) (o : SeccompOptions) : Type 0 where
  standard :
      o.legacy ≡ false
      → o.tweaks ≡ []
      → o.profile ≡ []
      → o.profile_hash ≡ []
      → o.effective_profile ≡ []
      → Mode lib o
  tweaks_only :
      o.legacy ≡ false
      → o.tweaks ≡ tweak_allow_disable_aslr ∷ []
      → o.profile ≡ []
      → o.profile_hash ≡ []
      → o.effective_profile ≡ []
      → Mode lib o
  snapshot :
      many o.legacy (has_tweaks o) (has_profile o) ≡ false
      → has_tweaks o ≡ false
      → (o.legacy || has_profile o) ≡ true
      → (has_profile o ≡ true → validate_seccomp_profile_filename o.profile ≡ true)
      → validate_seccomp_profile lib o.effective_profile ≡ ok tt
      → o.profile_hash ≡ lib.sha256 o.effective_profile
      → Mode lib o

not_blank :
    (lib : Library) (t : Text)
    → lib.parse [] ≡ none
    → validate_seccomp_profile lib t ≡ ok tt
    → is_empty t ≡ false
unfolding validate_seccomp_profile
not_blank lib [] blank valid = absurd (ground (arith, valid, blank))
not_blank lib (c ∷ s) blank valid = refl

check_snapshot-eq-ok :
    (lib : Library) (o : SeccompOptions)
    → (has_profile o && not (validate_seccomp_profile_filename o.profile)) ≡ false
    → is_empty o.effective_profile ≡ false
    → validate_seccomp_profile lib o.effective_profile ≡ ok tt
    → text_eq o.profile_hash (lib.sha256 o.effective_profile) ≡ true
    → check_snapshot lib o ≡ ok o
check_snapshot-eq-ok lib o n b v h = rw (n, check_snapshot) (rw b (rw v (rw h refl)))

implies_and : (a b : Bool) → (a ≡ true → b ≡ true) → (a && not b) ≡ false
implies_and true b f = rw (f refl) refl
implies_and false b f = refl

validated :
    (lib : Library) (o : SeccompOptions)
    → lib.parse [] ≡ none
    → Mode lib o
    → validate_persisted_seccomp_options lib o ≡ ok o
unfolding validate_persisted_seccomp_options normalize_tweaks
validated lib o blank (standard l t p h e) = rw l (rw t (rw p (rw h (rw e refl))))
validated lib o blank (tweaks_only l t p h e) = rw l (rw t (rw p (rw h (rw e refl))))
validated lib o blank (snapshot m t some_profile name valid hash) =
    rw (m, validate_persisted_seccomp_options)
      (rw t (
        rw some_profile (
          check_snapshot-eq-ok lib o (implies_and (has_profile o) _ name)
            (not_blank lib o.effective_profile blank valid) valid
            (ap (text_eq o.profile_hash) (sym hash) ∙ text_eq_refl o.profile_hash))))

with_profile-Mode :
    (lib : Library) (o : SeccompOptions) (profile : Text) {out : SeccompOptions}
    → many o.legacy (has_tweaks o) (has_profile o) ≡ false
    → has_tweaks o ≡ false
    → (o.legacy || has_profile o) ≡ true
    → (has_profile o ≡ true → validate_seccomp_profile_filename o.profile ≡ true)
    → with_profile lib o profile ≡ ok out
    → Mode lib out
with_profile-Mode lib o profile m t some_profile name h =
    let (u, valid, h') = >>=-eq-ok (validate_seccomp_profile lib profile) _ h in
    subst (Mode lib) (ground (arith, h')) (snapshot m t some_profile name valid refl)

blank_text : (t : Text) → is_empty t ≡ true → t ≡ []
blank_text [] h = refl
blank_text (c ∷ s) h = absurd (ground (arith, h))

no_texts-eq : (ts : List Text) → no_texts ts ≡ true → ts ≡ []
no_texts-eq [] h = refl
no_texts-eq (t ∷ ts) h = absurd (ground (arith, h))

read-filename :
    (lib : Library) (path : Text) {contents : Text}
    → read_seccomp_profile lib path ≡ ok contents
    → validate_seccomp_profile_filename path ≡ true
read-filename lib path h = elim (Bool-cases (validate_seccomp_profile_filename path)) [
  | inl v ↦ v
  | inr v ↦ absurd (ground (arith, h, v))
]

abbrev Gives : Library → SeccompOptions → Result SeccompError SeccompOptions → Type 0
Gives lib out r = r ≡ ok out → Mode lib out

tweaked-Mode :
    (lib : Library) (o : SeccompOptions) {out : SeccompOptions}
    → o.legacy ≡ false
    → is_empty o.profile ≡ true
    → has_tweaks o ≡ true
    → tweaked (record o { profile_hash = []; effective_profile = [] }) (normalize_tweaks o.tweaks)
      ≡ ok out
    → Mode lib out
tweaked-Mode lib o l p t h = elim (Result-cases (normalize_tweaks o.tweaks)) [
  | inr (e, n) ↦ absurd (ground (arith, h, n))
  | inl (ts, n) ↦
      let (same, known) = (normalize_tweaks_iff o.tweaks ts).0 n in
      elim known [
        | inl e ↦ absurd (ground (arith, t, e))
        | inr e ↦
            subst (Mode lib) (ground (arith, h, n))
              (tweaks_only l (same ∙ e) (blank_text o.profile p) refl refl)
      ]
]

resolve-Mode :
    (lib : Library) (opts : SeccompOptions) {out : SeccompOptions}
    → resolve lib opts ≡ ok out
    → Mode lib out
unfolding resolve
resolve-Mode lib opts {out} =
    let o = record opts { profile_hash = []; effective_profile = [] } in
    either_way (Gives lib out) (many o.legacy (has_tweaks o) (has_profile o)) _ _
      (λ m.
        either_way (Gives lib out) o.legacy _ _
          (λ l.
            either_way (Gives lib out) (has_tweaks o) _ _
              (λ t.
                either_way (Gives lib out) (has_profile o) _ _
                  (λ p h. subst (Mode lib) (ground (arith, h)) (
                    standard l (no_texts-eq o.tweaks (ground (arith, t)))
                      (blank_text o.profile (ground (arith, p))) refl refl))
                  (λ p h.
                    let (contents, read, h') = >>=-eq-ok (read_seccomp_profile lib o.profile) _ h in
                    with_profile-Mode lib o contents m t (ground (arith, p))
                      (λ q. read-filename lib o.profile read) h'))
              (λ t h. tweaked-Mode lib opts l (ground (arith, m, t)) t h))
          (λ l h.
            with_profile-Mode lib o lib.legacy_policy m (ground (arith, m, l)) (ground (arith, l))
              (λ q. absurd (ground (arith, m, l, q))) h))
      (λ m h. absurd (ground (arith, h)))

snapshot_member :
    (lib : Library) (o : SeccompOptions)
    → lib.replaced o.effective_profile ≡ o.effective_profile
    → text_member (
        get (codes "effective_profile") (
          field (codes "options") (encode_options lib o) (
            unless
              (is_empty o.effective_profile)
              (codes "effective_profile")
              (encoded lib o.effective_profile)
              end)))
      ≡ ok o.effective_profile
snapshot_member lib o e = elim (Bool-cases (is_empty o.effective_profile)) [
  | inl b ↦ rw (b, unless) (ap ok (sym (blank_text o.effective_profile b)))
  | inr b ↦ rw (b, unless) (ap ok e)
]

-- Seccomp options that resolve accepts are read back from the database as they were stored, where
-- encoding/json changes none of their texts, which it does to bytes that are not UTF-8, and does
-- not read the empty text.
pub unmarshal-marshal_seccomp_options :
    (lib : Library) (opts : SeccompOptions) {o : SeccompOptions}
    → lib.parse [] ≡ none
    → resolve lib opts ≡ ok o
    → IsPlain lib o
    → unmarshal_seccomp_options lib (marshal_seccomp_options lib (some o)) ≡ ok (some o)
unfolding unmarshal_seccomp_options marshal_seccomp_options
unmarshal-marshal_seccomp_options lib opts {o} blank r plain =
    rw (decode-encode_options lib o plain) (
      rw (snapshot_member lib o plain.snapshot)
        (rw (validated lib o blank (resolve-Mode lib opts r)) refl))
