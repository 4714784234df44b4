-- ===== src/Registration/Again.antt =====
-- A registration that is in place is recognised, and not written again.
use cmgr.Common.{
  ℕ, ◌≡◌, refl, ap, inl, inr, Bool, true, false, some, arith, ltb, Text, codes, text_eq_refl,
  Option-cases, Bool-cases,
}
use cmgr.Json.{Json, obj, Fields, get, json_eq, items_eq_refl}
use cmgr.Interceptor.Runtime.{runtime_arguments}
use cmgr.Registration.{
  json, Entry, absent, other, file, Files, max_docker_config_size, runtime_name, registration,
  document, open_config, runtimes_of, unchanged, plan_runtimes, kept, changed, register_document,
  safe_paths, register_runtime,
}
use cmgr.Registration.Merge.{Plan-cases, IsOpen, IsMerged, Opened-cases, register_runtime-IsMerged}

-- The file has a runtime that equals the registration.
pub record IsRegistered (runtime runc : Text) (entry : Entry) : Type 0 where
  pub doc : Fields
  pub mode : ℕ
  pub runtimes : Fields
  pub existing : Json
  pub open_there : IsOpen entry doc mode runtimes
  pub there : get runtime_name runtimes ≡ some existing
  pub equal : json_eq existing (registration runtime runc) ≡ true

abbrev pub IsSmall : Entry → Type 0
IsSmall absent = Unit
IsSmall other = Unit
IsSmall (file contents mode size) = ltb max_docker_config_size size ≡ false

registration-json_eq :
    (runtime runc : Text) → json_eq (registration runtime runc) (registration runtime runc) ≡ true
unfolding json_eq registration
registration-json_eq runtime runc =
    ground (arith, text_eq_refl runtime, items_eq_refl (runtime_arguments runc))

open_config-small :
    (doc : Fields) (mode size : ℕ)
    → IsSmall (file (json (obj doc)) mode size)
    → open_config (file (json (obj doc)) mode size) ≡ document doc mode
unfolding open_config
open_config-small doc mode size h = rw (h, open_config) refl

pub IsMerged-IsRegistered :
    (runtime runc : Text) {old new : Entry}
    → IsSmall new
    → IsMerged runtime runc old new
    → IsRegistered runtime runc new
IsMerged-IsRegistered runtime runc {old} {new} small m = record {
  doc = m.doc';
  mode = m.mode;
  runtimes = m.runtimes';
  existing = registration runtime runc;
  open_there = record {
    opened = rw m.after (open_config-small m.doc' m.mode m.size (rw m.after at small));
    read = rw m.member refl;
  };
  there = m.registered;
  equal = registration-json_eq runtime runc;
}

plan_runtimes-eq-unchanged :
    (new : Json) (force : Bool) (runtimes : Fields)
    → plan_runtimes new force runtimes ≡ unchanged
    → (existing : Json) × (get runtime_name runtimes ≡ some existing)
      × (json_eq existing new ≡ true)
unfolding plan_runtimes
plan_runtimes-eq-unchanged new force runtimes h = elim (Option-cases (get runtime_name runtimes)) [
  | inl e ↦ absurd (ground (arith, h, e))
  | inr (v, e) ↦ elim (Bool-cases (json_eq v new)) [
    | inl q ↦ (v, e, q)
    | inr q ↦ elim (Bool-cases force) [
      | inl g ↦ absurd (ground (arith, h, e, q, g))
      | inr g ↦ absurd (ground (arith, h, e, q, g))
    ]
  ]
]

-- A registered runtime is left alone.
pub register_runtime-kept_again :
    (files : Files) (entry : Entry) (runtime runc : Text) (force : Bool)
    → safe_paths runtime runc ≡ true
    → files.executable ≡ true
    → IsRegistered runtime runc entry
    → register_runtime files entry runtime runc force ≡ (entry, kept)
unfolding register_runtime plan_runtimes
register_runtime-kept_again files entry runtime runc force u x r =
    rw (u, register_runtime)
      (rw x (
        rw r.open_there.opened (
          rw (r.open_there.read, register_document)
            (rw (r.there, plan_runtimes) (rw r.equal refl)))))

register_document-kept :
    (files : Files) (entry : Entry) (runtime runc : Text) (force : Bool) (doc : Fields) (mode : ℕ)
    → open_config entry ≡ document doc mode
    → (register_document files entry runtime runc force doc mode).1 ≡ kept
    → IsRegistered runtime runc entry
register_document-kept files entry runtime runc force doc mode o h =
    elim (Option-cases (runtimes_of (get (codes "runtimes") doc))) [
      | inl f ↦ absurd (ground (arith, h, f))
      | inr (runtimes, f) ↦
          elim (Plan-cases (plan_runtimes (registration runtime runc) force runtimes)) [
            | inr (inl (e, p)) ↦ absurd (ground (arith, h, f, p))
            | inr (inr (new, p)) ↦ elim (Bool-cases files.written) [
              | inr w ↦ absurd (ground (arith, h, f, p, w))
              | inl w ↦ elim (Bool-cases files.synced) [
                | inr s ↦ absurd (ground (arith, h, f, p, w, s))
                | inl s ↦ absurd (ground (arith, h, f, p, w, s))
              ]
            ]
            | inl p ↦
                let (v, there, equal) =
                  plan_runtimes-eq-unchanged (registration runtime runc) force runtimes p in
                record {
                  doc = doc;
                  mode = mode;
                  runtimes = runtimes;
                  existing = v;
                  open_there = record { opened = o; read = f };
                  there = there;
                  equal = equal;
                }
          ]
    ]

-- A runtime that is reported as there already is there.
pub register_runtime-IsRegistered :
    (files : Files) (entry : Entry) (runtime runc : Text) (force : Bool)
    → (register_runtime files entry runtime runc force).1 ≡ kept
    → IsRegistered runtime runc entry
unfolding register_runtime
register_runtime-IsRegistered files entry runtime runc force h =
    elim (Bool-cases (safe_paths runtime runc)) [
      | inr u ↦ absurd (ground (arith, h, u))
      | inl u ↦ elim (Bool-cases files.executable) [
        | inr x ↦ absurd (ground (arith, h, u, x))
        | inl x ↦ elim (Opened-cases (open_config entry)) [
          | inl (y, e) ↦ absurd (ground (arith, h, u, x, e))
          | inr (doc, mode, e) ↦
              register_document-kept files entry runtime runc force doc mode e
                (rw e at (rw x at (rw (u, register_runtime) at h)))
        ]
      ]
    ]

register_runtime-safe :
    (files : Files) (entry : Entry) (runtime runc : Text) (force : Bool)
    → (register_runtime files entry runtime runc force).1 ≡ changed
    → safe_paths runtime runc ≡ true
unfolding register_runtime
register_runtime-safe files entry runtime runc force h =
    elim (Bool-cases (safe_paths runtime runc)) [
      | inr u ↦ absurd (ground (arith, h, u))
      | inl u ↦ u
    ]

-- Registering is done once: after a registration that wrote the file, the same one, forced or not,
-- reports that nothing is to do and leaves the file as it is. The file that was written is within the
-- size that is read.
pub register_runtime-register_runtime :
    (files files' : Files) (entry : Entry) (runtime runc : Text) (force force' : Bool)
    {entry' : Entry}
    → register_runtime files entry runtime runc force ≡ (entry', changed)
    → IsSmall entry'
    → files'.executable ≡ true
    → register_runtime files' entry' runtime runc force' ≡ (entry', kept)
register_runtime-register_runtime files files' entry runtime runc force force' {entry'} h small x =
    register_runtime-kept_again files' entry' runtime runc force'
      (register_runtime-safe files entry runtime runc force (ap (λ r. r.1) h)) x
      (IsMerged-IsRegistered runtime runc small
        (register_runtime-IsMerged files entry runtime runc force h))
