-- ===== src/Interceptor/Runtime.antt =====
-- internal/ociinterceptor/runtime.go, with runtimeArguments and shellSafePath of register.go: the
-- arguments of the runtime wrapper, and what it does with an invocation.
pub mod Arguments
pub mod Safety
mod Examples
use cmgr.Common.{
  ℕ, suc, ◌+◌, ◌≡◌, refl, Bool, true, false, not, ◌&&◌, ◌||◌, Option, none, some, List, [], ◌∷◌,
  ◌++◌, arith, ◌==◌, leb, if◌then◌else◌, Text, codes, text_eq, cut_prefix, has_prefix, is_empty,
  Result, ok, err, all, ◌>>=◌, ◌>>◌, reject_if, Bool-cases, inl, inr,
}
use cmgr.Interceptor.Bundle.{BundleError, find_bundle_path_strict, invocation_requires_rewrite}

abbrev pub protocol_option : Text
protocol_option = codes "--cmgr-interceptor-protocol"

abbrev pub protocol_argument : Text
protocol_argument = codes "--cmgr-interceptor-protocol=seccomp-v1"

abbrev pub path_option : Text
path_option = codes "--cmgr-runtime-path"

-- filepath.IsAbs on Unix.
unfoldable pub is_abs : Text → Bool
is_abs [] = false
is_abs (c ∷ s) = c == 47

abbrev shell_safe_char : ℕ → Bool
shell_safe_char c =
    (leb 97 c && leb c 122)
    || (leb 65 c && leb c 90)
    || (leb 48 c && leb c 57)
    || (c == 47 || c == 46 || c == 95 || c == 45)

unfoldable pub shell_safe_path : Text → Bool
shell_safe_path path = not (is_empty path) && all shell_safe_char path

pub data ArgumentError : Type 0 where
  requires_value : ArgumentError
  unsupported_protocol : Text → ArgumentError
  requires_path : ArgumentError
  protocol_count : ℕ → ArgumentError
  path_count : ℕ → ArgumentError
  empty_path : ArgumentError
  unsafe_path : ArgumentError

-- The variables of the loop in parseRuntimeArguments.
pub record Scan : Type 0 where
  pub runtime_path : Text
  pub forwarded : List Text
  pub protocols : ℕ
  pub paths : ℕ

-- The kinds of argument that the switch tells apart, in its order.
pub data Argument : Type 0 where
  protocol bare_protocol : Argument
  other_protocol : Argument
  bare_path : Argument
  assigned_path : Text → Argument
  plain : Argument

pub classify : Text → Argument
classify a =
    if text_eq a protocol_argument
    then protocol
    else if text_eq a protocol_option
    then bare_protocol
    else if has_prefix (protocol_option ++ 61 ∷ []) a
    then other_protocol
    else if text_eq a path_option
    then bare_path
    else elim (cut_prefix (path_option ++ 61 ∷ []) a) [ some p ↦ assigned_path p | none ↦ plain ]

pub scan_arguments : Scan → List Text → Result ArgumentError Scan
scan_arguments s [] = ok s
scan_arguments s (a ∷ []) = elim (classify a) [
  | protocol ↦ ok (record s { protocols = s.protocols + 1 })
  | bare_protocol ↦ err requires_value
  | other_protocol ↦ err (unsupported_protocol a)
  | bare_path ↦ err requires_path
  | assigned_path p ↦ ok (record s { runtime_path = p; paths = s.paths + 1 })
  | plain ↦ ok (record s { forwarded = s.forwarded ++ a ∷ [] })
]
scan_arguments s (a ∷ b ∷ rest) = elim (classify a) [
  | protocol ↦ scan_arguments (record s { protocols = s.protocols + 1 }) (b ∷ rest)
  | bare_protocol ↦ err requires_value
  | other_protocol ↦ err (unsupported_protocol a)
  | bare_path ↦ scan_arguments (record s { runtime_path = b; paths = s.paths + 1 }) rest
  | assigned_path p ↦ scan_arguments (record s { runtime_path = p; paths = s.paths + 1 }) (b ∷ rest)
  | plain ↦ scan_arguments (record s { forwarded = s.forwarded ++ a ∷ [] }) (b ∷ rest)
]

abbrev no_arguments : Scan
no_arguments = record { runtime_path = []; forwarded = []; protocols = 0; paths = 0 }

-- The checks after the loop.
pub accept_scan : Scan → Result ArgumentError (Text × List Text)
accept_scan s = do
  reject_if (not (s.protocols == 1)) (protocol_count s.protocols)
  reject_if (not (s.paths == 1)) (path_count s.paths)
  reject_if (is_empty s.runtime_path) empty_path
  reject_if (not (is_abs s.runtime_path) || not (shell_safe_path s.runtime_path)) unsafe_path
  ok (s.runtime_path, s.forwarded)

pub parse_runtime_arguments : List Text → Result ArgumentError (Text × List Text)
parse_runtime_arguments args = scan_arguments no_arguments args >>= accept_scan

unfoldable pub runtime_arguments : Text → List Text
runtime_arguments runc = protocol_argument ∷ (path_option ++ 61 ∷ runc) ∷ []

abbrev pub is_accepted : Result ArgumentError (Text × List Text) → Bool
is_accepted (err e) = false
is_accepted (ok (path, [])) = true
is_accepted (ok (path, a ∷ as')) = false

pub runtime_registration_compatible : Text → List Text → Bool
runtime_registration_compatible interceptor args =
    if not (is_abs interceptor) || not (shell_safe_path interceptor)
    then false
    else is_accepted (parse_runtime_arguments args)

-- How the real runtime's process ends.
pub data Ended : Type 0 where
  success : Ended
  exited : ℕ → Ended
  not_started : Ended

abbrev pub exit_code : Ended → ℕ
exit_code success = 0
exit_code (exited n) = n
exit_code not_started = 1

pub data Outcome : Type 0 where
  bad_arguments : ArgumentError → Outcome
  bad_bundle : BundleError → Outcome
  bad_rewrite : Outcome
  no_request : Outcome
  ran : Text → List Text → Outcome

-- RunRuntime, up to the call of the real runtime. `rewrite` is RewriteBundle on the host's files:
-- none if it fails, otherwise whether it changed the bundle.
pub run_runtime : (Text → Option Bool) → List Text → Outcome
run_runtime rewrite args = elim (parse_runtime_arguments args) [
  | err e ↦ bad_arguments e
  | ok (path, rest) ↦
      if invocation_requires_rewrite rest
      then elim (find_bundle_path_strict rest) [
        | err e ↦ bad_bundle e
        | ok bundle ↦ elim (rewrite bundle) [
          | none ↦ bad_rewrite
          | some true ↦ ran path rest
          | some false ↦ no_request
        ]
      ]
      else ran path rest
]

-- The exit code of the wrapper, given how the real runtime ends.
pub runtime_exit : (Text → List Text → Ended) → Outcome → ℕ
runtime_exit exec (ran path rest) = exit_code (exec path rest)
runtime_exit exec _ = 1
