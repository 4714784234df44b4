-- ===== src/Registration/Merge.antt =====
-- RegisterRuntime keeps what is not its own, and is done once.
use cmgr.Common.{
  ℕ, ◌≡◌, refl, ◌⊎◌, inl, inr, Bool, some, arith, Text, codes, Option-cases, Bool-cases,
}
use cmgr.Json.{Json, obj, Fields, get, put, KeepsBut, get-put_same, get-put_other}
use cmgr.Registration.{
  json, Entry, file, RegisterError, Files, runtime_name, registration, Opened, refused, document,
  open_config, runtimes_of, Plan, unchanged, refuse, write, plan_runtimes, changed, write_document,
  register_document, safe_paths, register_runtime,
}

-- The document of a file and the runtimes in it.
pub record IsOpen (entry : Entry) (doc : Fields) (mode : ℕ) (runtimes : Fields) : Type 0 where
  pub opened : open_config entry ≡ document doc mode
  pub read : runtimes_of (get (codes "runtimes") doc) ≡ some runtimes

-- The new entry is the old one with the registration in it.
pub record IsMerged (runtime runc : Text) (old new : Entry) : Type 0 where
  pub doc : Fields
  pub doc' : Fields
  pub mode : ℕ
  pub size : ℕ
  pub runtimes : Fields
  pub runtimes' : Fields
  pub before : IsOpen old doc mode runtimes
  pub after : new ≡ file (json (obj doc')) mode size
  pub doc_kept : KeepsBut (codes "runtimes") doc doc'
  pub member : get (codes "runtimes") doc' ≡ some (obj runtimes')
  pub runtimes_kept : KeepsBut runtime_name runtimes runtimes'
  pub registered : get runtime_name runtimes' ≡ some (registration runtime runc)

plan_runtimes-eq-write :
    (new : Json) (force : Bool) (runtimes : Fields) {runtimes' : Fields}
    → plan_runtimes new force runtimes ≡ write runtimes'
    → runtimes' ≡ put runtime_name new runtimes
unfolding plan_runtimes
plan_runtimes-eq-write new force runtimes h = elim (Option-cases (get runtime_name runtimes)) [
  | inl e ↦ ground (arith, h, e)
  | inr (v, e) ↦ ground (arith, h, e)
]

pub Plan-cases :
    (p : Plan)
    → (p ≡ unchanged) ⊎ ((e : RegisterError) × (p ≡ refuse e)) ⊎ ((r : Fields) × (p ≡ write r))
Plan-cases unchanged = inl refl
Plan-cases (refuse e) = inr (inl (e, refl))
Plan-cases (write r) = inr (inr (r, refl))

write_document-changed :
    (files : Files) (entry : Entry) (doc : Fields) (mode : ℕ) {entry' : Entry}
    → write_document files entry doc mode ≡ (entry', changed)
    → entry' ≡ file (json (obj doc)) mode (files.encoded_size (obj doc))
write_document-changed files entry doc mode h = elim (Bool-cases files.written) [
  | inr w ↦ absurd (ground (arith, h, w))
  | inl w ↦ elim (Bool-cases files.synced) [
    | inr s ↦ absurd (ground (arith, h, w, s))
    | inl s ↦ ground (arith, h, w, s)
  ]
]

-- What registers the runtime, once the file is open.
register_document-changed :
    (files : Files) (entry : Entry) (runtime runc : Text) (force : Bool) (doc : Fields) (mode : ℕ)
    {entry' : Entry}
    → open_config entry ≡ document doc mode
    → register_document files entry runtime runc force doc mode ≡ (entry', changed)
    → IsMerged runtime runc entry entry'
register_document-changed files entry runtime runc force doc mode {entry'} e h =
    elim (Option-cases (runtimes_of (get (codes "runtimes") doc))) [
      | inl f ↦ absurd (ground (arith, h, f))
      | inr (runtimes, f) ↦
          elim (Plan-cases (plan_runtimes (registration runtime runc) force runtimes)) [
            | inl p ↦ absurd (ground (arith, h, f, p))
            | inr (inl (x, p)) ↦ absurd (ground (arith, h, f, p))
            | inr (inr (runtimes', p)) ↦
                let put_there =
                  plan_runtimes-eq-write (registration runtime runc) force runtimes p in
                record {
                  doc = doc;
                  doc' = put (codes "runtimes") (obj runtimes') doc;
                  mode = mode;
                  size = files.encoded_size (obj (put (codes "runtimes") (obj runtimes') doc));
                  runtimes = runtimes;
                  runtimes' = runtimes';
                  before = record { opened = e; read = f };
                  after =
                      write_document-changed files entry _ mode
                        (rw p at (rw (f, register_document) at h));
                  doc_kept = λ j. get-put_other (codes "runtimes") j _ doc;
                  member = get-put_same (codes "runtimes") _ doc;
                  runtimes_kept = λ j a. rw put_there (get-put_other runtime_name j _ runtimes a);
                  registered = rw put_there (get-put_same runtime_name _ runtimes);
                }
          ]
    ]

pub Opened-cases :
    (o : Opened)
    → ((e : RegisterError) × (o ≡ refused e))
      ⊎ ((doc : Fields) × (mode : ℕ) × (o ≡ document doc mode))
Opened-cases (refused e) = inl (e, refl)
Opened-cases (document doc mode) = inr (doc, mode, refl)

-- RegisterRuntime that reports a change leaves a file of the same mode that holds the registration;
-- every other runtime and every other member of the document is as it was.
pub register_runtime-IsMerged :
    (files : Files) (entry : Entry) (runtime runc : Text) (force : Bool) {entry' : Entry}
    → register_runtime files entry runtime runc force ≡ (entry', changed)
    → IsMerged runtime runc entry entry'
unfolding register_runtime
register_runtime-IsMerged files entry runtime runc force h =
    elim (Bool-cases (safe_paths runtime runc)) [
      | inr u ↦ absurd (ground (arith, h, u))
      | inl u ↦ elim (Bool-cases files.executable) [
        | inr x ↦ absurd (ground (arith, h, u, x))
        | inl x ↦ elim (Opened-cases (open_config entry)) [
          | inl (y, e) ↦ absurd (ground (arith, h, u, x, e))
          | inr (doc, mode, e) ↦
              register_document-changed files entry runtime runc force doc mode e
                (rw e at (rw x at (rw (u, register_runtime) at h)))
        ]
      ]
    ]
