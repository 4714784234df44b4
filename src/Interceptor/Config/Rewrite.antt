-- ===== src/Interceptor/Config/Rewrite.antt =====
-- What a rewrite of the OCI configuration changes, and that it is done once.
use cmgr.Common.{
  ◌≡◌, refl, sym, subst, ap, ◌∙◌, inl, inr, true, false, Option, none, some, List, [], ◌∷◌, arith,
  Text, codes, text_eq, ok, >>=-eq-ok, Option-cases, Bool-cases,
}
use cmgr.Json.{
  Json, obj, arr, Items, Fields, is_null, get, put, as_object, as_texts, items_of,
  texts_of-items_of, snoc, get-put_same, get-put_other, KeepsBut,
}
use cmgr.Interceptor.Tweaks.{tweak_allow_disable_aslr}
use cmgr.Interceptor.Config.{
  ConfigError, bad_seccomp, bad_syscalls, no_process, bad_process, not_json, no_linux, bad_linux,
  no_seccomp, or_fail, Consumed, not_requested, requested, consume_tweak_request, accept_requests,
  scan_environment, aslr_rule, add_rules, syscalls_of, apply_tweaks, active, rewrite_linux,
  rewrite_requested, rewrite_config,
}
use cmgr.Interceptor.Config.Environment.{
  requests_of, others_of, accept_requests-requested, accept_requests-others_of,
}

-- The object that a member holds.
abbrev pub IsMember : Text → Fields → Fields → Type 0
IsMember k fs inner = (v : Json) × (get k fs ≡ some v) × (as_object v ≡ some inner)

-- The environment loses the one request, and nothing else.
pub record IsConsumed (old new : Fields) : Type 0 where
  pub variables : List Text
  pub raw : Json
  pub had : get (codes "env") old ≡ some raw
  pub read : as_texts raw ≡ some variables
  pub asked : requests_of variables ≡ tweak_allow_disable_aslr ∷ []
  pub has : get (codes "env") new ≡ some (arr (items_of (others_of variables)))
  pub kept : KeepsBut (codes "env") old new

-- The seccomp profile gains one rule, at the end of its list.
pub record IsAllowed (old new : Fields) : Type 0 where
  pub rules : Items
  pub had : syscalls_of (get (codes "syscalls") old) ≡ some rules
  pub has : get (codes "syscalls") new ≡ some (arr (snoc rules aslr_rule))
  pub kept : KeepsBut (codes "syscalls") old new

pub record IsRewritten (old new : Json) : Type 0 where
  pub document : Fields
  pub document' : Fields
  pub process : Fields
  pub process' : Fields
  pub linux : Fields
  pub linux' : Fields
  pub seccomp : Fields
  pub seccomp' : Fields
  pub old_document : as_object old ≡ some document
  pub new_document : new ≡ obj document'
  pub old_process : IsMember (codes "process") document process
  pub new_process : get (codes "process") document' ≡ some (obj process')
  pub consumed : IsConsumed process process'
  pub old_linux : IsMember (codes "linux") document linux
  pub new_linux : get (codes "linux") document' ≡ some (obj linux')
  pub linux_kept : KeepsBut (codes "seccomp") linux linux'
  pub old_seccomp : IsMember (codes "seccomp") linux seccomp
  pub new_seccomp : get (codes "seccomp") linux' ≡ some (obj seccomp')
  pub allowed : IsAllowed seccomp seccomp'
  pub document_kept :
      (j : Text)
      → text_eq (codes "process") j ≡ false
      → text_eq (codes "linux") j ≡ false
      → get j document' ≡ get j document

or_fail-eq-ok :
    {A : Type 0} (o : Option A) (e : ConfigError) {a : A} → or_fail o e ≡ ok a → o ≡ some a
or_fail-eq-ok none e h = cc
or_fail-eq-ok (some b) e h = ground arith

active-eq-some : (o : Option Json) {v : Json} → active o ≡ some v → o ≡ some v
active-eq-some none h = cc
active-eq-some (some v) h = ground arith

-- The consumed request of a process.
consume-IsConsumed :
    (process : Fields) {tweaks environment : List Text}
    → consume_tweak_request (get (codes "env") process) ≡ ok (requested tweaks environment)
    → IsConsumed process (put (codes "env") (arr (items_of environment)) process)
      × (tweaks ≡ tweak_allow_disable_aslr ∷ [])
unfolding consume_tweak_request
consume-IsConsumed process {tweaks} {environment} h =
    elim (Option-cases (get (codes "env") process)) [
      | inl e ↦ absurd (ground (arith, h, e))
      | inr (raw, e) ↦ elim (Bool-cases (is_null raw)) [
        | inl n ↦ absurd (ground (arith, h, e, n))
        | inr n ↦ elim (Option-cases (as_texts raw)) [
          | inl f ↦ absurd (ground (arith, h, e, n, f))
          | inr (vs, f) ↦
              let taken : accept_requests (scan_environment [] vs)
                  ≡ ok (requested tweaks environment) =
                ground (arith, h, e, n, f) in
              let (asked, one, rest) = accept_requests-requested vs taken in
              (
                record {
                  variables = vs;
                  raw = raw;
                  had = e;
                  read = f;
                  asked = asked;
                  has =
                      get-put_same (codes "env") _ process ∙ ap (λ r. some (arr (items_of r))) rest;
                  kept = λ j. get-put_other (codes "env") j _ process;
                },
                one,
              )
        ]
      ]
    ]

apply_tweaks-IsAllowed :
    (raw : Json) {updated : Json}
    → apply_tweaks raw (tweak_allow_disable_aslr ∷ []) ≡ ok updated
    → (seccomp seccomp' : Fields) × (as_object raw ≡ some seccomp)
      × (updated ≡ obj seccomp')
      × IsAllowed seccomp seccomp'
unfolding apply_tweaks add_rules
apply_tweaks-IsAllowed raw {updated} h =
    let (members, e, h') = >>=-eq-ok (or_fail (as_object raw) bad_seccomp) _ h in
    let (rules, f, h'') =
      >>=-eq-ok (or_fail (syscalls_of (get (codes "syscalls") members)) bad_syscalls) _ h' in
    (
      members,
      put (codes "syscalls") (arr (snoc rules aslr_rule)) members,
      or_fail-eq-ok _ _ e,
      ground (arith, h''),
      record {
        rules = rules;
        had = or_fail-eq-ok _ _ f;
        has = get-put_same (codes "syscalls") _ members;
        kept = λ j. get-put_other (codes "syscalls") j _ members;
      },
    )

-- What the second half of the rewrite does to a document.
record IsProfiled (document : Fields) (modified : Json) : Type 0 where
  linux : Fields
  seccomp : Fields
  seccomp' : Fields
  old_linux : IsMember (codes "linux") document linux
  old_seccomp : IsMember (codes "seccomp") linux seccomp
  allowed : IsAllowed seccomp seccomp'
  whole :
      modified
      ≡ obj (put (codes "linux") (obj (put (codes "seccomp") (obj seccomp') linux)) document)

rewrite_linux-IsProfiled :
    (document : Fields) {modified : Json}
    → rewrite_linux document (tweak_allow_disable_aslr ∷ []) ≡ ok modified
    → IsProfiled document modified
unfolding rewrite_linux
rewrite_linux-IsProfiled document {modified} h =
    let (raw, e1, h1) = >>=-eq-ok (or_fail (get (codes "linux") document) no_linux) _ h in
    let (linux, e2, h2) = >>=-eq-ok (or_fail (as_object raw) bad_linux) _ h1 in
    let (sec, e3, h3) =
      >>=-eq-ok (or_fail (active (get (codes "seccomp") linux)) no_seccomp) _ h2 in
    let (updated, e4, h4) = >>=-eq-ok (apply_tweaks sec (tweak_allow_disable_aslr ∷ [])) _ h3 in
    let (old, new, f, g, allowed) = apply_tweaks-IsAllowed sec e4 in
    record {
      linux = linux;
      seccomp = old;
      seccomp' = new;
      old_linux = (raw, or_fail-eq-ok _ _ e1, or_fail-eq-ok _ _ e2);
      old_seccomp = (sec, active-eq-some _ (or_fail-eq-ok _ _ e3), f);
      allowed = allowed;
      whole = rw (← g) (ground (arith, h4));
    }

rewrite_requested-IsRewritten :
    (original : Json) (document process : Fields) (consumed : Consumed) {new : Json}
    → as_object original ≡ some document
    → IsMember (codes "process") document process
    → consume_tweak_request (get (codes "env") process) ≡ ok consumed
    → rewrite_requested original document process consumed ≡ ok (new, true)
    → IsRewritten original new
rewrite_requested-IsRewritten original document process not_requested d m c h =
    absurd (ground (arith, h))
rewrite_requested-IsRewritten original document process (requested tweaks environment) {new} d m c
      h =
    let (taken, one) = consume-IsConsumed process c in
    let process' = put (codes "env") (arr (items_of environment)) process in
    let between = put (codes "process") (obj process') document in
    let (modified, e, h') = >>=-eq-ok (rewrite_linux between tweaks) _ h in
    let p =
      rewrite_linux-IsProfiled between (subst (λ t. rewrite_linux between t ≡ ok modified) one e) in
    let (raw, e1, e2) = p.old_linux in
    let linux' = put (codes "seccomp") (obj p.seccomp') p.linux in
    record {
      document = document;
      document' = put (codes "linux") (obj linux') between;
      process = process;
      process' = process';
      linux = p.linux;
      linux' = linux';
      seccomp = p.seccomp;
      seccomp' = p.seccomp';
      old_document = d;
      new_document = ground (arith, h', p.whole);
      old_process = m;
      new_process =
          get-put_other (codes "linux") (codes "process") (obj linux') between refl
          ∙ get-put_same (codes "process") (obj process') document;
      consumed = taken;
      old_linux = (
        raw,
        sym (get-put_other (codes "process") (codes "linux") (obj process') document refl) ∙ e1,
        e2,
      );
      new_linux = get-put_same (codes "linux") (obj linux') between;
      linux_kept = λ j. get-put_other (codes "seccomp") j _ p.linux;
      old_seccomp = p.old_seccomp;
      new_seccomp = get-put_same (codes "seccomp") _ p.linux;
      allowed = p.allowed;
      document_kept = λ j a b.
          get-put_other (codes "linux") j (obj linux') between b
          ∙ get-put_other (codes "process") j (obj process') document a;
    }

-- A rewrite that changes a configuration takes the one request out of the environment, adds the one
-- rule to the end of the syscalls of the active profile, and leaves every other member of the
-- document, the process, the Linux settings and the profile as it was.
pub rewrite_config-IsRewritten :
    (original : Json) {new : Json}
    → rewrite_config original ≡ ok (new, true)
    → IsRewritten original new
unfolding rewrite_config
rewrite_config-IsRewritten original h =
    let (document, e1, h1) = >>=-eq-ok (or_fail (as_object original) not_json) _ h in
    let (raw, e2, h2) = >>=-eq-ok (or_fail (get (codes "process") document) no_process) _ h1 in
    let (process, e3, h3) = >>=-eq-ok (or_fail (as_object raw) bad_process) _ h2 in
    let (consumed, e4, h4) = >>=-eq-ok (consume_tweak_request (get (codes "env") process)) _ h3 in
    rewrite_requested-IsRewritten original document process consumed (or_fail-eq-ok _ _ e1)
      (raw, or_fail-eq-ok _ _ e2, or_fail-eq-ok _ _ e3) e4 h4

consume-others :
    (vs : List Text)
    → consume_tweak_request (some (arr (items_of (others_of vs)))) ≡ ok not_requested
unfolding consume_tweak_request
consume-others vs = rw (texts_of-items_of (others_of vs)) (accept_requests-others_of vs)

-- A rewrite is done once: the configuration that it writes asks for nothing more, and a second pass
-- leaves it as it is.
pub rewrite_config-rewrite_config :
    (original : Json) {new : Json}
    → rewrite_config original ≡ ok (new, true)
    → rewrite_config new ≡ ok (new, false)
unfolding rewrite_config
rewrite_config-rewrite_config original {new} h =
    let r = rewrite_config-IsRewritten original h in
    rw r.new_document
      (rw r.new_process (rw r.consumed.has (rw (consume-others r.consumed.variables) refl)))
