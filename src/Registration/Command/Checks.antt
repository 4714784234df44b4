-- ===== src/Registration/Command/Checks.antt =====
-- What the checks before the registration establish.
use cmgr.Common.{
  Bool, true, Bool-cases, inl, inr, ap, sym, ◌∙◌, arith, ◌≡◌, sym, ap, ◌∙◌, inl, inr, true, Option,
  none, some, arith, ltb, Text, Bool-cases, ok, >>=-eq-ok,
}
use cmgr.Registration.{Entry, absent, other, file, max_docker_config_size}
use cmgr.Registration.Command.{
  Flags, Host, Refusal, Snapshot, or_refuse, no_runtime, no_runc, snapshot_file, entry_of,
  is_privileged, may_register, trusted_programs, trusted_config, prepare,
}

entry_of-snapshot_file : (e : Entry) {s : Snapshot} → snapshot_file e ≡ ok s → entry_of s ≡ e
unfolding snapshot_file
entry_of-snapshot_file absent h = ground (arith, h)
entry_of-snapshot_file other h = absurd (ground (arith, h))
entry_of-snapshot_file (file contents mode size) h =
    elim (Bool-cases (ltb max_docker_config_size size)) [
      | inl b ↦ absurd (ground (arith, h, b))
      | inr b ↦ ground (arith, h, b)
    ]

or_refuse-eq-ok :
    {A : Type 0} (o : Option A) (e : Refusal) {a : A} → or_refuse o e ≡ ok a → o ≡ some a
or_refuse-eq-ok none e h = cc
or_refuse-eq-ok (some b) e h = ground arith

may_register-root :
    (host : Host) (f : Flags)
    → may_register host f ≡ ok tt
    → is_privileged host f ≡ true
    → host.root ≡ true
unfolding may_register
may_register-root host f h p = elim (Bool-cases host.root) [
  | inl r ↦ r
  | inr r ↦ absurd (ground (arith, h, p, r))
]

trusted_programs-trusted :
    (host : Host) (privileged : Bool) (runtime runc : Text)
    → trusted_programs host privileged runtime runc ≡ ok tt
    → privileged ≡ true
    → (host.trusted runtime ≡ true) × (host.trusted runc ≡ true)
unfolding trusted_programs
trusted_programs-trusted host privileged runtime runc h p =
    elim (Bool-cases (host.trusted runtime)) [
      | inr a ↦ absurd (ground (arith, h, p, a))
      | inl a ↦ elim (Bool-cases (host.trusted runc)) [
        | inr b ↦ absurd (ground (arith, h, p, a, b))
        | inl b ↦ (a, b)
      ]
    ]

-- What the checks establish.
pub record IsPrepared (host : Host) (f : Flags) (entry : Entry) (runtime runc : Text) (s : Snapshot)
    : Type 0 where
  pub saved : entry_of s ≡ entry
  pub runtime_found : host.runtime ≡ some runtime
  pub runc_found : host.runc ≡ some runc
  pub by_root : is_privileged host f ≡ true → host.root ≡ true
  pub trusts :
      is_privileged host f ≡ true → (host.trusted runtime ≡ true) × (host.trusted runc ≡ true)

pub prepare-IsPrepared :
    (host : Host) (f : Flags) (entry : Entry) {runtime runc : Text} {s : Snapshot}
    → prepare host f entry ≡ ok (runtime, runc, s)
    → IsPrepared host f entry runtime runc s
unfolding prepare
prepare-IsPrepared host f entry {runtime} {runc} {s} h =
    let (u, e1, h1) = >>=-eq-ok (may_register host f) _ h in
    let (rt, e2, h2) = >>=-eq-ok (or_refuse host.runtime no_runtime) _ h1 in
    let (rc, e3, h3) = >>=-eq-ok (or_refuse host.runc no_runc) _ h2 in
    let (v, e4, h4) = >>=-eq-ok (trusted_programs host (is_privileged host f) rt rc) _ h3 in
    let (w, e5, h5) = >>=-eq-ok (trusted_config host (is_privileged host f) entry) _ h4 in
    let (t, e6, h6) = >>=-eq-ok (snapshot_file entry) _ h5 in
    let same : ◌≡◌ {A = Text × Text × Snapshot} (rt, rc, t) (runtime, runc, s) =
      ground (arith, h6) in
    let rt_eq : rt ≡ runtime = ap (λ x. x.0) same in
    let rc_eq : rc ≡ runc = ap (λ x. x.1) same in
    record {
      saved = ap (λ x. entry_of x.2) (sym same) ∙ entry_of-snapshot_file entry e6;
      runtime_found = or_refuse-eq-ok _ _ e2 ∙ ap some rt_eq;
      runc_found = or_refuse-eq-ok _ _ e3 ∙ ap some rc_eq;
      by_root = may_register-root host f e1;
      trusts = λ p.
          let (a, b) = trusted_programs-trusted host _ rt rc e4 p in
          (ap host.trusted (sym rt_eq) ∙ a, ap host.trusted (sym rc_eq) ∙ b);
    }
