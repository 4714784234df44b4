-- ===== src/Interceptor/Config/Environment.antt =====
-- What consumeTweakRequest reads from an environment.
use cmgr.Common.{
  ℕ, ◌≡◌, ◌≢◌, refl, sym, ap, ◌∙◌, inl, inr, Option, none, some, List, [], ◌∷◌, arith, Text,
  cut_prefix, split_byte, ok, length, Option-cases, Result-cases, List-cases,
}
use cmgr.Interceptor.Tweaks.{normalize_tweaks, normalize_tweaks_iff, tweak_allow_disable_aslr}
use cmgr.Interceptor.Config.{
  request_prefix, Requests, scan_environment, not_requested, requested, accept_requests,
}

-- The requests of an environment, without the variable's name, and the variables that are none.
abbrev take_request : Option Text → List Text → List Text
take_request none rs = rs
take_request (some r) rs = r ∷ rs

abbrev take_other : Option Text → Text → List Text → List Text
take_other none v vs = v ∷ vs
take_other (some r) v vs = vs

pub requests_of : List Text → List Text
requests_of [] = []
requests_of (v ∷ vs) = take_request (cut_prefix request_prefix v) (requests_of vs)

pub others_of : List Text → List Text
others_of [] = []
others_of (v ∷ vs) = take_other (cut_prefix request_prefix v) v (others_of vs)

pub requests_of-others_of : (vs : List Text) → requests_of (others_of vs) ≡ []
unfolding requests_of others_of
requests_of-others_of [] = refl
requests_of-others_of (v ∷ vs) = elim (Option-cases (cut_prefix request_prefix v)) [
  | inl e ↦ rw e (rw e (requests_of-others_of vs))
  | inr (r, e) ↦ rw e (requests_of-others_of vs)
]

pub others_of-others_of : (vs : List Text) → others_of (others_of vs) ≡ others_of vs
unfolding others_of
others_of-others_of [] = refl
others_of-others_of (v ∷ vs) = elim (Option-cases (cut_prefix request_prefix v)) [
  | inl e ↦ rw e (rw e (ap (λ r. v ∷ r) (others_of-others_of vs)))
  | inr (r, e) ↦ rw e (others_of-others_of vs)
]

pub scan_count :
    (last : Text) (vs : List Text) → (scan_environment last vs).count ≡ length (requests_of vs)
unfolding scan_environment requests_of
scan_count last [] = refl
scan_count last (v ∷ vs) = elim (Option-cases (cut_prefix request_prefix v)) [
  | inl e ↦ rw (e, scan_environment) (scan_count last vs)
  | inr (r, e) ↦ rw (e, scan_environment) (omega (arith, scan_count r vs))
]

pub scan_filtered :
    (last : Text) (vs : List Text) → (scan_environment last vs).filtered ≡ others_of vs
unfolding scan_environment others_of
scan_filtered last [] = refl
scan_filtered last (v ∷ vs) = elim (Option-cases (cut_prefix request_prefix v)) [
  | inl e ↦ rw (e, scan_environment) (ap (λ w. v ∷ w) (scan_filtered last vs))
  | inr (r, e) ↦ rw (e, scan_environment) (scan_filtered r vs)
]

abbrev last_of : Text → List Text → Text
last_of last [] = last
last_of last (r ∷ rs) = last_of r rs

scan_request :
    (last : Text) (vs : List Text)
    → (scan_environment last vs).request ≡ last_of last (requests_of vs)
unfolding scan_environment requests_of
scan_request last [] = refl
scan_request last (v ∷ vs) = elim (Option-cases (cut_prefix request_prefix v)) [
  | inl e ↦ rw (e, scan_environment) (scan_request last vs)
  | inr (r, e) ↦ rw (e, scan_environment) (scan_request r vs)
]

-- A text without parts has none.
split-ne-nil : (b : ℕ) (s : Text) → split_byte b s ≢ []
split-ne-nil b [] h = ground arith
split-ne-nil b (c ∷ s) h = elim (List-cases (split_byte b s)) [
  | inl e ↦ split-ne-nil b s e
  | inr (w, ws, e) ↦ ground (arith, h, e)
]

split_single : (b : ℕ) (s t : Text) → split_byte b s ≡ t ∷ [] → s ≡ t
split_single b [] t h = ground arith
split_single b (c ∷ s) t h = elim (List-cases (split_byte b s)) [
  | inl e ↦ absurd (split-ne-nil b s e)
  | inr (w, [], e) ↦ let same = split_single b s w e in ground (arith, h, e, same)
  | inr (w, u ∷ us, e) ↦ absurd (ground (arith, h, e))
]

single_of_length : (rs : List Text) → length rs ≡ 1 → (r : Text) × (rs ≡ r ∷ [])
single_of_length [] h = absurd (omega arith)
single_of_length (r ∷ []) h = (r, refl)
single_of_length (r ∷ r' ∷ rs) h = absurd (omega arith)

accepted :
    (r : Requests) {tweaks environment : List Text}
    → accept_requests r ≡ ok (requested tweaks environment)
    → (r.count ≡ 1)
      × (normalize_tweaks (split_byte 44 r.request) ≡ ok tweaks)
      × (environment ≡ r.filtered)
unfolding accept_requests
accepted r {tweaks} {environment} h =
    elim (Result-cases (normalize_tweaks (split_byte 44 r.request))) [
      | inr (x, e) ↦ absurd (ground (arith, h, e))
      | inl (ts, e) ↦ (ground (arith, h, e), ground (arith, h, e), ground (arith, h, e))
    ]

-- An accepted request is the only one, and asks for the one tweak there is.
pub accept_requests-requested :
    (vs : List Text) {tweaks environment : List Text}
    → accept_requests (scan_environment [] vs) ≡ ok (requested tweaks environment)
    → (requests_of vs ≡ tweak_allow_disable_aslr ∷ [])
      × (tweaks ≡ tweak_allow_disable_aslr ∷ [])
      × (environment ≡ others_of vs)
accept_requests-requested vs {tweaks} {environment} h =
    let (one, normal, rest) = accepted (scan_environment [] vs) h in
    let (r, only) = single_of_length (requests_of vs) (sym (scan_count [] vs) ∙ one) in
    let last : (scan_environment [] vs).request ≡ r = scan_request [] vs ∙ ap (last_of []) only in
    let (same, shape) =
      (normalize_tweaks_iff (split_byte 44 (scan_environment [] vs).request) tweaks).0 normal in
    elim shape [
      | inl none_left ↦ absurd (split-ne-nil 44 (scan_environment [] vs).request none_left)
      | inr asked ↦
          let known : r ≡ tweak_allow_disable_aslr =
            sym last
            ∙ split_single 44 (scan_environment [] vs).request tweak_allow_disable_aslr asked in
          (only ∙ ap (λ t. t ∷ []) known, same ∙ asked, rest ∙ scan_filtered [] vs)
    ]

pub accept_requests-others_of :
    (vs : List Text) → accept_requests (scan_environment [] (others_of vs)) ≡ ok not_requested
unfolding accept_requests
accept_requests-others_of vs =
    ground (arith, scan_count [] (others_of vs), ap length (requests_of-others_of vs))
