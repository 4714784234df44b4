-- ===== src/Interceptor/Runtime/Safety.antt =====
-- RunRuntime fails closed.
use cmgr.Common.{
  ◌≡◌, ◌⊎◌, Bool, true, false, Option, some, List, arith, Text, ok, inl, inr, Bool-cases, Result,
  err, refl,
}
use cmgr.Interceptor.Bundle.{
  BundleError, find_bundle_path, find_bundle_path_strict, find_bundle_path-strict,
  invocation_requires_rewrite,
}
use cmgr.Interceptor.Runtime.{is_abs, shell_safe_path, parse_runtime_arguments, ran, run_runtime}
use cmgr.Interceptor.Runtime.Arguments.{IsForwardable, parse_runtime_arguments-eq-ok}

run_runtime_parsed :
    (rewrite : Text → Option Bool) (args : List Text) {path : Text} {rest : List Text}
    → run_runtime rewrite args ≡ ran path rest
    → parse_runtime_arguments args ≡ ok (path, rest)
unfolding run_runtime
run_runtime_parsed rewrite args h = ground arith

run_runtime_rewritten :
    (rewrite : Text → Option Bool) (args : List Text) {path : Text} {rest : List Text}
    → run_runtime rewrite args ≡ ran path rest
    → invocation_requires_rewrite rest ≡ true
    → (b : Text) × (find_bundle_path_strict rest ≡ ok b) × (rewrite b ≡ some true)
unfolding run_runtime
run_runtime_rewritten rewrite args {path} {rest} h needed =
    bundle_of (find_bundle_path_strict rest) refl
  where
    parsed : parse_runtime_arguments args ≡ ok (path, rest)
    parsed = run_runtime_parsed rewrite args h

    stopped : (e : BundleError) → find_bundle_path_strict rest ≡ err e → ◌≡◌ {A = Bool} true false
    stopped e found = ground (arith, parsed)

    bundle_of :
        (r : Result BundleError Text)
        → find_bundle_path_strict rest ≡ r
        → (b : Text) × (find_bundle_path_strict rest ≡ ok b) × (rewrite b ≡ some true)
    bundle_of (err e) found = cc (stopped e found)
    bundle_of (ok b) found = (b, found, ground (arith, parsed))

-- The real runtime is started only at an absolute, safe path, with no option of the wrapper left in
-- its arguments; and for a create or run invocation only after the one bundle that the arguments
-- name was rewritten and the rewrite had found a request.
pub run_runtime_safe :
    (rewrite : Text → Option Bool) (args : List Text) {path : Text} {rest : List Text}
    → run_runtime rewrite args ≡ ran path rest
    → (is_abs path ≡ true)
      × (shell_safe_path path ≡ true)
      × IsForwardable rest
      × ((invocation_requires_rewrite rest ≡ false)
          ⊎ ((b : Text) × (find_bundle_path rest ≡ some b) × (rewrite b ≡ some true)))
run_runtime_safe rewrite args {rest = rest} h =
    let (abs, safe, plain) =
      parse_runtime_arguments-eq-ok args (run_runtime_parsed rewrite args h) in
    (
      abs,
      safe,
      plain,
      elim (Bool-cases (invocation_requires_rewrite rest)) [
        | inr other ↦ inl other
        | inl needed ↦
            let (b, found, done) = run_runtime_rewritten rewrite args h needed in
            inr (b, (find_bundle_path-strict _ found).0, done)
      ],
    )
