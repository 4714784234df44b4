-- ===== src/Policy/Inherited.antt =====
-- A seccomp policy of the challenge reaches every container.
use cmgr.Common.{◌≡◌, refl, ◌⊎◌, inl, inr, some, List, [], Text, lookup, Option-cases}
use cmgr.Policy.{ContainerOptions, SeccompOptions, effective_container_options}

-- Where the challenge has a seccomp policy, every host has options, and their policy is that of the
-- challenge or, if the host selects one, the host's own.
pub effective_container_options-seccomp :
    (options : List (Text × ContainerOptions)) (host : Text) {d : ContainerOptions}
    {policy : SeccompOptions}
    → lookup [] options ≡ some d
    → d.seccomp ≡ some policy
    → (o : ContainerOptions) × (effective_container_options options host ≡ some o)
      × ((o.seccomp ≡ some policy)
          ⊎ ((h : ContainerOptions) × (own : SeccompOptions) × (lookup host options ≡ some h)
              × (h.seccomp ≡ some own)
              × (o.seccomp ≡ some own)))
unfolding effective_container_options
effective_container_options-seccomp options host {d} {policy} e p =
    elim (Option-cases (lookup host options)) [
      | inl f ↦ (d, rw (f, effective_container_options) e, inl p)
      | inr (h, f) ↦ elim (Option-cases h.seccomp) [
        | inl g ↦ (
          record h { seccomp = some policy },
          rw (f, effective_container_options) (rw e (rw (g, p) refl)),
          inl refl,
        )
        | inr (own, g) ↦ (
          record h { seccomp = some own },
          rw (f, effective_container_options) (rw g refl),
          inr (h, own, f, g, refl),
        )
      ]
    ]
