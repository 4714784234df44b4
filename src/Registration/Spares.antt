-- ===== src/Registration/Spares.antt =====
-- RegisterRuntime leaves the file alone unless it replaces it.
use cmgr.Common.{ℕ, ◌≡◌, refl, inl, inr, Bool, true, arith, Text, codes, Option-cases, Bool-cases}
use cmgr.Json.{Fields, get}
use cmgr.Registration.{
  Entry, Files, open_config, runtimes_of, Plan, unchanged, refuse, write, Registered, kept, changed,
  failed, write_document, follow, register_document, safe_paths, register_runtime,
}
use cmgr.Registration.Merge.{Opened-cases}

-- What RegisterRuntime leaves in place: the file, unless it reports a change or that the directory
-- could not be synced.
abbrev pub Spares : Files → Entry → Entry × Registered → Type 0
Spares files entry (entry', kept) = entry' ≡ entry
Spares files entry (entry', changed) = Unit
Spares files entry (entry', failed e) = files.synced ≡ true → entry' ≡ entry

write_document-Spares :
    (files : Files) (entry : Entry) (doc : Fields) (mode : ℕ)
    → Spares files entry (write_document files entry doc mode)
write_document-Spares files entry doc mode = elim (Bool-cases files.written) [
  | inr w ↦ rw w (λ s. refl)
  | inl w ↦ elim (Bool-cases files.synced) [
    | inl s ↦ rw w (rw s tt)
    | inr s ↦ rw w (rw s (λ t. absurd (ground (arith, t))))
  ]
]

follow-Spares :
    (files : Files) (entry : Entry) (doc : Fields) (mode : ℕ) (p : Plan)
    → Spares files entry (follow files entry doc mode p)
follow-Spares files entry doc mode unchanged = refl
follow-Spares files entry doc mode (refuse e) = λ s. refl
follow-Spares files entry doc mode (write runtimes) = write_document-Spares files entry _ mode

register_document-Spares :
    (files : Files) (entry : Entry) (runtime runc : Text) (force : Bool) (doc : Fields) (mode : ℕ)
    → Spares files entry (register_document files entry runtime runc force doc mode)
register_document-Spares files entry runtime runc force doc mode =
    elim (Option-cases (runtimes_of (get (codes "runtimes") doc))) [
      | inl f ↦ rw (f, register_document) (λ s. refl)
      | inr (runtimes, f) ↦ rw (f, register_document) (follow-Spares files entry doc mode _)
    ]

pub register_runtime-Spares :
    (files : Files) (entry : Entry) (runtime runc : Text) (force : Bool)
    → Spares files entry (register_runtime files entry runtime runc force)
unfolding register_runtime
register_runtime-Spares files entry runtime runc force =
    elim (Bool-cases (safe_paths runtime runc)) [
      | inr u ↦ rw (u, register_runtime) (λ s. refl)
      | inl u ↦ elim (Bool-cases files.executable) [
        | inr x ↦ rw (u, register_runtime) (rw x (λ s. refl))
        | inl x ↦ elim (Opened-cases (open_config entry)) [
          | inl (y, e) ↦ rw (u, register_runtime) (rw x (rw e (λ s. refl)))
          | inr (doc, mode, e) ↦
              rw (u, register_runtime)
                (rw x (rw e (register_document-Spares files entry runtime runc force doc mode)))
        ]
      ]
    ]

Spares-kept :
    (files : Files) (entry : Entry) (r : Entry × Registered)
    → Spares files entry r
    → r.1 ≡ kept
    → r.0 ≡ entry
Spares-kept files entry (e, kept) h q = h
Spares-kept files entry (e, changed) h q = absurd (ground (arith, q))
Spares-kept files entry (e, failed x) h q = absurd (ground (arith, q))

pub register_runtime-kept :
    (files : Files) (entry : Entry) (runtime runc : Text) (force : Bool)
    → (register_runtime files entry runtime runc force).1 ≡ kept
    → (register_runtime files entry runtime runc force).0 ≡ entry
register_runtime-kept files entry runtime runc force =
    Spares-kept files entry _ (register_runtime-Spares files entry runtime runc force)
