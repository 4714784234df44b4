-- ===== src/Interceptor/Runtime/Arguments.antt =====
-- What parseRuntimeArguments accepts, and that it accepts what the registration emits.
use cmgr.Common.{
  ◌+◌, ◌≡◌, refl, ap, ◌∙◌, true, ◌&&◌, List, [], ◌∷◌, ◌++◌, arith, ◌⊎◌, append-nil, append_assoc,
  >>=-eq-ok, subst, Text, Result, ok, All, ◌>>=◌, inl, inr,
}
use cmgr.Interceptor.Runtime.{
  is_abs, shell_safe_path, ArgumentError, Scan, Argument, protocol, bare_protocol, other_protocol,
  bare_path, assigned_path, plain, classify, scan_arguments, no_arguments, accept_scan,
  parse_runtime_arguments, runtime_arguments, runtime_registration_compatible, protocol_argument,
  path_option, is_accepted,
}

scan_protocol :
    (s : Scan) (a : Text) (rest : List Text)
    → classify a ≡ protocol
    → scan_arguments s (a ∷ rest) ≡ scan_arguments (record s { protocols = s.protocols + 1 }) rest
unfolding scan_arguments
scan_protocol s a [] h = rw (h, scan_arguments)
scan_protocol s a (b ∷ rest) h = rw (h, scan_arguments)

scan_path :
    (s : Scan) (a p : Text) (rest : List Text)
    → classify a ≡ assigned_path p
    → scan_arguments s (a ∷ rest)
      ≡ scan_arguments (record s { runtime_path = p; paths = s.paths + 1 }) rest
unfolding scan_arguments
scan_path s a p [] h = rw (h, scan_arguments)
scan_path s a p (b ∷ rest) h = rw (h, scan_arguments)

scan_plain :
    (s : Scan) (a : Text) (rest : List Text)
    → classify a ≡ plain
    → scan_arguments s (a ∷ rest)
      ≡ scan_arguments (record s { forwarded = s.forwarded ++ a ∷ [] }) rest
unfolding scan_arguments
scan_plain s a [] h = rw (h, scan_arguments)
scan_plain s a (b ∷ rest) h = rw (h, scan_arguments)

-- No argument is one of the wrapper's own options.
abbrev pub IsForwardable : List Text → Type 0
IsForwardable = All (λ a. classify a ≡ plain)

scan_forwardable :
    (s : Scan) (args : List Text)
    → IsForwardable args
    → scan_arguments s args ≡ ok (record s { forwarded = s.forwarded ++ args })
scan_forwardable s [] h = unfold scan_arguments in rw append-nil
scan_forwardable s (a ∷ args) h =
    scan_plain s a args h.0
    ∙ scan_forwardable (record s { forwarded = s.forwarded ++ a ∷ [] }) args h.1
    ∙ ap (λ f. ok (record s { forwarded = f })) (append_assoc s.forwarded (a ∷ []) args)

scan-runtime_arguments :
    (runc : Text) (args : List Text)
    → IsForwardable args
    → scan_arguments no_arguments (runtime_arguments runc ++ args)
      ≡ ok (record { runtime_path = runc; forwarded = args; protocols = 1; paths = 1 })
unfolding runtime_arguments
scan-runtime_arguments runc args h =
    scan_protocol no_arguments protocol_argument _ (unfold classify in refl)
    ∙ scan_path _ (path_option ++ 61 ∷ runc) runc args (unfold classify in refl)
    ∙ scan_forwardable _ args h

-- The arguments that the registration emits, followed by what Docker appends, parse to the
-- registered path and the appended arguments, where none of these is an option of the wrapper and
-- the path is absolute and safe.
pub parse-runtime_arguments :
    (runc : Text) (args : List Text)
    → IsForwardable args
    → is_abs runc ≡ true
    → shell_safe_path runc ≡ true
    → parse_runtime_arguments (runtime_arguments runc ++ args) ≡ ok (runc, args)
unfolding parse_runtime_arguments
parse-runtime_arguments runc args h abs safe =
    ap (λ r. r >>= accept_scan) (scan-runtime_arguments runc args h)
    ∙ (unfold accept_scan shell_safe_path in ground arith)

accept_registered :
    (runc : Text)
    → is_accepted
        (accept_scan (record { runtime_path = runc; forwarded = []; protocols = 1; paths = 1 }))
      ≡ (is_abs runc && shell_safe_path runc)
unfolding accept_scan
accept_registered [] = unfold is_abs in refl
accept_registered (c ∷ s) = ground arith

scan_registered :
    (runc : Text)
    → scan_arguments no_arguments (runtime_arguments runc)
      ≡ ok (record { runtime_path = runc; forwarded = []; protocols = 1; paths = 1 })
unfolding runtime_arguments
scan_registered runc = scan-runtime_arguments runc [] tt

-- Docker's registration counts as compatible exactly if both paths are absolute and safe, when the
-- arguments are those that the registration command emits.
pub runtime_registration_compatible-runtime_arguments :
    (interceptor runc : Text)
    → runtime_registration_compatible interceptor (runtime_arguments runc) ≡ (
        (is_abs interceptor && shell_safe_path interceptor)
        && (is_abs runc && shell_safe_path runc))
unfolding runtime_registration_compatible parse_runtime_arguments
runtime_registration_compatible-runtime_arguments interceptor runc =
    rw (scan_registered runc) (ground (arith, accept_registered runc))

All-snoc :
    (args : List Text) (a : Text)
    → IsForwardable args
    → classify a ≡ plain
    → IsForwardable (args ++ a ∷ [])
All-snoc [] a h e = (e, tt)
All-snoc (b ∷ args) a h e = (h.0, All-snoc args a h.1 e)

-- The loop goes on, with the same result, after one argument or after two.
abbrev GoesOn : Text → List Text → Scan → Type 0
GoesOn b rest t =
    (s : Scan) × IsForwardable s.forwarded
    × ((scan_arguments s (b ∷ rest) ≡ ok t) ⊎ (scan_arguments s rest ≡ ok t))

scan-GoesOn :
    (k : Argument) (s : Scan) (a b : Text) (rest : List Text) (t : Scan)
    → classify a ≡ k
    → IsForwardable s.forwarded
    → scan_arguments s (a ∷ b ∷ rest) ≡ ok t
    → GoesOn b rest t
unfolding scan_arguments
scan-GoesOn protocol s a b rest t e f h = (_, f, inl (rw (e, scan_arguments) at h))
scan-GoesOn bare_protocol s a b rest t e f h = cc (rw (e, scan_arguments) at h)
scan-GoesOn other_protocol s a b rest t e f h = cc (rw (e, scan_arguments) at h)
scan-GoesOn bare_path s a b rest t e f h = (_, f, inr (rw (e, scan_arguments) at h))
scan-GoesOn (assigned_path p) s a b rest t e f h = (_, f, inl (rw (e, scan_arguments) at h))
scan-GoesOn plain s a b rest t e f h =
    (_, All-snoc s.forwarded a f e, inl (rw (e, scan_arguments) at h))

same_scan :
    (s t : Scan)
    → IsForwardable s.forwarded
    → ◌≡◌ {A = Result ArgumentError Scan} (ok s) (ok t)
    → IsForwardable t.forwarded
same_scan s t f h = subst IsForwardable (ground arith) f

scan_last :
    (k : Argument) (s : Scan) (a : Text) (t : Scan)
    → classify a ≡ k
    → IsForwardable s.forwarded
    → scan_arguments s (a ∷ []) ≡ ok t
    → IsForwardable t.forwarded
unfolding scan_arguments
scan_last protocol s a t e f h = same_scan _ t f (rw (e, scan_arguments) at h)
scan_last bare_protocol s a t e f h = cc (rw (e, scan_arguments) at h)
scan_last other_protocol s a t e f h = cc (rw (e, scan_arguments) at h)
scan_last bare_path s a t e f h = cc (rw (e, scan_arguments) at h)
scan_last (assigned_path p) s a t e f h = same_scan _ t f (rw (e, scan_arguments) at h)
scan_last plain s a t e f h =
    same_scan _ t (All-snoc s.forwarded a f e) (rw (e, scan_arguments) at h)

scan-IsForwardable :
    (s : Scan) (args : List Text) (t : Scan)
    → IsForwardable s.forwarded
    → scan_arguments s args ≡ ok t
    → IsForwardable t.forwarded
scan-IsForwardable s [] t f h = same_scan s t f (unfold scan_arguments in h)
scan-IsForwardable s (a ∷ []) t f h = scan_last (classify a) s a t refl f h
scan-IsForwardable s (a ∷ b ∷ rest) t f h =
    let (s', f', on) = scan-GoesOn (classify a) s a b rest t refl f h in
    elim on [
      | inl one ↦ scan-IsForwardable s' (b ∷ rest) t f' one
      | inr two ↦ scan-IsForwardable s' rest t f' two
    ]

-- An accepted command line names an absolute path of safe characters, and none of the wrapper's own
-- options reaches the real runtime.
pub parse_runtime_arguments-eq-ok :
    (args : List Text) {path : Text} {rest : List Text}
    → parse_runtime_arguments args ≡ ok (path, rest)
    → (is_abs path ≡ true) × (shell_safe_path path ≡ true) × IsForwardable rest
unfolding parse_runtime_arguments accept_scan
parse_runtime_arguments-eq-ok args {path} {rest} h =
    let (s, scanned, accepted) = >>=-eq-ok (scan_arguments no_arguments args) accept_scan h in
    let f : IsForwardable s.forwarded = scan-IsForwardable no_arguments args s tt scanned in
    let same : s.forwarded ≡ rest = ground arith in
    (ground arith, ground arith, subst IsForwardable same f)
