-- ===== src/Interceptor/Config/Examples.antt =====
-- A concrete OCI configuration that requests the tweak.
use cmgr.Common.{◌≡◌, refl, true, codes, ok, List, [], ◌∷◌, Text}
use cmgr.Json.{Json, obj, arr, text, end, field, items_of, texts_of, nil, cons}
use cmgr.Interceptor.Tweaks.{normalize_tweaks}
use cmgr.Interceptor.Config.{
  aslr_rule, scan_environment, accept_requests, consume_tweak_request, add_rules, apply_tweaks,
  rewrite_linux, rewrite_config,
}
use cmgr.Interceptor.Config.Rewrite.{IsRewritten, rewrite_config-IsRewritten}

abbrev container : List Text → Json → Json
container env rules = obj (
    field (codes "process") (obj (field (codes "env") (arr (items_of env)) end)) (
      field (codes "linux")
        (obj (
          field (codes "seccomp") (obj (field (codes "syscalls") rules end))
            (field (codes "cgroupsPath") (text (codes "/c1")) end)))
        end))

abbrev asking : Json
asking =
    container (codes "HOME=/" ∷ codes "CMGR_OCI_INTERCEPTOR_SECCOMP_TWEAKS=allow-disable-aslr" ∷ [])
      (arr nil)

abbrev rewritten : Json
rewritten = container (codes "HOME=/" ∷ []) (arr (cons aslr_rule nil))

is_rewritten : rewrite_config asking ≡ ok (rewritten, true)
unfolding rewrite_config consume_tweak_request scan_environment accept_requests normalize_tweaks
    rewrite_linux apply_tweaks add_rules items_of texts_of
is_rewritten = refl

rewrite_config-IsRewritten_example : IsRewritten asking rewritten
rewrite_config-IsRewritten_example = rewrite_config-IsRewritten asking is_rewritten
