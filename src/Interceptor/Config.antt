-- ===== src/Interceptor/Config.antt =====
-- RewriteConfig, consumeTweakRequest and applyTweaks of internal/ociinterceptor/interceptor.go: the
-- tweaks that a container requests are taken out of its environment and put into its seccomp profile.
pub mod Environment
pub mod Rewrite
mod Examples
use cmgr.Common.{
  ℕ, suc, ◌+◌, Bool, true, false, not, Option, none, some, List, [], ◌∷◌, ◌++◌, ◌==◌, if◌then◌else◌,
  Text, codes, is_empty, text_eq, cut_prefix, split_byte, Result, ok, err, ◌>>=◌, ◌>>◌, reject_if,
}
use cmgr.Json.{
  Json, null, bool, num, text, arr, obj, Items, nil, cons, Fields, end, field, is_null, get, put,
  as_object, as_items, as_texts, items_of, snoc,
}
use cmgr.Interceptor.Tweaks.{TweakError, normalize_tweaks, tweak_allow_disable_aslr}

pub data ConfigError : Type 0 where
  not_json no_process bad_process bad_environment : ConfigError
  empty_request : ConfigError
  request_count : ℕ → ConfigError
  bad_tweaks : TweakError → ConfigError
  no_linux bad_linux no_seccomp bad_seccomp bad_syscalls : ConfigError

abbrev pub request_prefix : Text
request_prefix = codes "CMGR_OCI_INTERCEPTOR_SECCOMP_TWEAKS="

-- The variables of the loop of consumeTweakRequest: the last request, how many there were, and the
-- variables that stay.
pub record Requests : Type 0 where
  pub request : Text
  pub count : ℕ
  pub filtered : List Text

abbrev pub scan_step : Option Text → Text → Requests → Requests
scan_step (some value) v rest = record rest { count = rest.count + 1 }
scan_step none v rest = record rest { filtered = v ∷ rest.filtered }

abbrev pub latest : Option Text → Text → Text
latest none last = last
latest (some value) last = value

pub scan_environment : Text → List Text → Requests
scan_environment last [] = record { request = last; count = 0; filtered = [] }
scan_environment last (v ∷ vs) =
    scan_step (cut_prefix request_prefix v) v
      (scan_environment (latest (cut_prefix request_prefix v) last) vs)

pub data Consumed : Type 0 where
  not_requested : Consumed
  requested : (tweaks environment : List Text) → Consumed

abbrev pub tweaks_requested : Requests → Result TweakError (List Text) → Result ConfigError Consumed
tweaks_requested r (ok tweaks) = ok (requested tweaks r.filtered)
tweaks_requested r (err e) = err (bad_tweaks e)

-- The checks after the loop.
pub accept_requests : Requests → Result ConfigError Consumed
accept_requests r =
    if r.count == 0
    then ok not_requested
    else if is_empty r.request
    then err empty_request
    else if not (r.count == 1)
    then err (request_count r.count)
    else tweaks_requested r (normalize_tweaks (split_byte 44 r.request))

abbrev pub consume_texts : Option (List Text) → Result ConfigError Consumed
consume_texts none = err bad_environment
consume_texts (some vs) = accept_requests (scan_environment [] vs)

pub consume_tweak_request : Option Json → Result ConfigError Consumed
consume_tweak_request none = ok not_requested
consume_tweak_request (some v) = if is_null v then ok not_requested else consume_texts (as_texts v)

-- The rule for the one tweak there is: personality(2) with any of the bits 0x60008 and no others.
abbrev pub aslr_rule : Json
aslr_rule = obj (
    field (codes "action") (text (codes "SCMP_ACT_ALLOW")) (
      field (codes "args")
        (arr (
          cons
            (obj (
              field (codes "index") (num (codes "0")) (
                field (codes "op") (text (codes "SCMP_CMP_MASKED_EQ"))
                  (field (codes "value") (num (codes "18446744073709158391")) end))))
            nil))
        (field (codes "names") (arr (cons (text (codes "personality")) nil)) end)))

-- The loop over the tweaks; a tweak of another name would add nothing.
pub add_rules : List Text → Items → Items
add_rules [] rules = rules
add_rules (t ∷ ts) rules =
    add_rules ts (if text_eq t tweak_allow_disable_aslr then snoc rules aslr_rule else rules)

abbrev pub syscalls_of : Option Json → Option Items
syscalls_of none = some nil
syscalls_of (some v) = as_items v

abbrev pub or_fail : {A : Type 0} → Option A → ConfigError → Result ConfigError A
or_fail none e = err e
or_fail (some a) e = ok a

pub apply_tweaks : Json → List Text → Result ConfigError Json
apply_tweaks seccomp tweaks = do
  members ← or_fail (as_object seccomp) bad_seccomp
  rules ← or_fail (syscalls_of (get (codes "syscalls") members)) bad_syscalls
  ok (obj (put (codes "syscalls") (arr (add_rules tweaks rules)) members))

-- A profile that is absent or null is no profile.
abbrev pub active : Option Json → Option Json
active none = none
active (some v) = if is_null v then none else some v

-- The second half of RewriteConfig, with the process already rewritten.
pub rewrite_linux : Fields → List Text → Result ConfigError Json
rewrite_linux document tweaks = do
  raw ← or_fail (get (codes "linux") document) no_linux
  linux ← or_fail (as_object raw) bad_linux
  seccomp ← or_fail (active (get (codes "seccomp") linux)) no_seccomp
  updated ← apply_tweaks seccomp tweaks
  ok (obj (put (codes "linux") (obj (put (codes "seccomp") updated linux)) document))

abbrev pub rewrite_requested : Json → Fields → Fields → Consumed → Result ConfigError (Json × Bool)
rewrite_requested original document process not_requested = ok (original, false)
rewrite_requested original document process (requested tweaks environment) = do
  let process' = put (codes "env") (arr (items_of environment)) process
  modified ← rewrite_linux (put (codes "process") (obj process') document) tweaks
  ok (modified, true)

-- The new configuration, and whether it was changed.
pub rewrite_config : Json → Result ConfigError (Json × Bool)
rewrite_config original = do
  document ← or_fail (as_object original) not_json
  raw ← or_fail (get (codes "process") document) no_process
  process ← or_fail (as_object raw) bad_process
  consumed ← consume_tweak_request (get (codes "env") process)
  rewrite_requested original document process consumed
