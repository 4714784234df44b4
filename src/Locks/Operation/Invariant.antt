-- ===== src/Locks/Operation/Invariant.antt =====
-- Holders of one lock are compatible, in every reachable state.
use cmgr.Common.{ℕ, ◌≡◌, ◌≢◌, refl, sym, subst, ◌∙◌, Bool, true, Option, arith}
use mathlib.Core.Logic.{if_pos, if_neg}
use native.Mathlib.Decide.{ℕ_discrete}
use cmgr.Locks.Operation.{
  Pc, local_of, gate_of, main_of, compatible, update, Move, call, local_granted, memory_granted,
  gate_granted, main_granted, Step, step, Reach, start, next,
}

compatible_comm : (a b : Option Bool) → compatible a b ≡ compatible b a
compatible_comm a b = ground arith

-- One thread's holding changes; the others' do not.
pairwise_update :
    (of : Pc → Option Bool) (s : ℕ → Pc) (i : ℕ) (q : Pc) (R : ℕ → ℕ → Type 0)
    → ((a b : ℕ) → R a b → R b a)
    → ((a b : ℕ) → a ≢ b → R a b → compatible (of (s a)) (of (s b)) ≡ true)
    → ((j : ℕ) → j ≢ i → R i j → compatible (of q) (of (s j)) ≡ true)
    → (a b : ℕ) → a ≢ b
    → R a b
    → compatible (of (update s i q a)) (of (update s i q b)) ≡ true
pairwise_update of s i q R flip old new a b d r = elim (ℕ_discrete i a) [
  | yes ia ↦ elim (ℕ_discrete i b) [
    | yes ib ↦ absurd (omega arith)
    | no nb ↦
        rw (if_pos _ ia)
          (rw (if_neg _ nb) (new b (λ e. nb (sym e)) (subst (λ c. R c b) (sym ia) r)))
  ]
  | no na ↦ elim (ℕ_discrete i b) [
    | yes ib ↦ rw (if_neg _ na) (
        rw (if_pos _ ib) (
          compatible_comm (of (s a)) (of q)
          ∙ new a (λ e. na (sym e)) (subst (λ c. R c a) (sym ib) (flip a b r))))
    | no nb ↦ rw (if_neg _ na) (rw (if_neg _ nb) (old a b d r))
  ]
]

module _ (manager : ℕ → ℕ) (has_path : ℕ → Bool) where
  pub record Inv (s : ℕ → Pc) : Type 0 where
    pub locals :
        (i j : ℕ)
        → i ≢ j
        → manager i ≡ manager j
        → compatible (local_of (s i)) (local_of (s j)) ≡ true
    pub gates : (i j : ℕ) → i ≢ j → compatible (gate_of (s i)) (gate_of (s j)) ≡ true
    pub mains : (i j : ℕ) → i ≢ j → compatible (main_of (s i)) (main_of (s j)) ≡ true

  module _ {s : ℕ → Pc} {i : ℕ} (v : Inv s) where
    -- What the moved thread holds stays compatible with every other thread.
    Move-mains :
        {p q : Pc}
        → Move manager has_path s i p q
        → s i ≡ p
        → (j : ℕ) → j ≢ i
        → compatible (main_of q) (main_of (s j)) ≡ true
    Move-mains (call x nb) e j d = refl
    Move-mains (main_granted g) e j d = g j d
    Move-mains mv e j d = ground (arith, v.mains i j (λ e'. d (sym e')))

    Move-gates :
        {p q : Pc}
        → Move manager has_path s i p q
        → s i ≡ p
        → (j : ℕ) → j ≢ i
        → compatible (gate_of q) (gate_of (s j)) ≡ true
    Move-gates (call x nb) e j d = refl
    Move-gates (gate_granted g) e j d = g j d
    Move-gates mv e j d = ground (arith, v.gates i j (λ e'. d (sym e')))

    Move-locals :
        {p q : Pc}
        → Move manager has_path s i p q
        → s i ≡ p
        → (j : ℕ) → j ≢ i
        → manager j ≡ manager i
        → compatible (local_of q) (local_of (s j)) ≡ true
    Move-locals (call x nb) e j d m = refl
    Move-locals (local_granted h g) e j d m = g j d m
    Move-locals (memory_granted h g) e j d m = g j d m
    Move-locals mv e j d m = ground (arith, v.locals i j (λ e'. d (sym e')) (sym m))

  pub Step-Inv : {s t : ℕ → Pc} → Step manager has_path s t → Inv s → Inv t
  Step-Inv {s} (step i {p = q} mv) v = record {
    locals =
        pairwise_update local_of s i q (λ a b. manager a ≡ manager b) (λ a b e. sym e) v.locals
          (λ j d m. Move-locals v mv refl j d (sym m));
    gates = λ a b d.
        pairwise_update gate_of s i q (λ _ _. Unit) (λ a b u. u) (λ a b d _. v.gates a b d)
          (λ j d _. Move-gates v mv refl j d) a b d tt;
    mains = λ a b d.
        pairwise_update main_of s i q (λ _ _. Unit) (λ a b u. u) (λ a b d _. v.mains a b d)
          (λ j d _. Move-mains v mv refl j d) a b d tt;
  }

  pub Reach-Inv : {s : ℕ → Pc} → Reach manager has_path s → Inv s
  Reach-Inv start = record {
    locals = λ i j d m. refl;
    gates = λ i j d. refl;
    mains = λ i j d. refl;
  }
  Reach-Inv (next r st) = Step-Inv st (Reach-Inv r)
