-- ===== src/Locks/Operation/Safety.antt =====
-- Which operations can run at the same time, and who can pass a waiting one.
use cmgr.Common.{ℕ, ◌≡◌, ◌≢◌, refl, subst, Bool, true, some, arith, ◌⊎◌, inl, inr}
use mathlib.Core.Logic.{if_pos, if_neg}
use native.Mathlib.Decide.{ℕ_discrete}
use cmgr.Locks.Operation.{
  Pc, main_wait, held, memory_held, gate_of, main_of, Move, call, main_granted, Step, step, Reach,
}
use cmgr.Locks.Operation.Invariant.{Reach-Inv}

module _ {manager : ℕ → ℕ} {has_path : ℕ → Bool} where
  -- Whoever holds the lock file after a move held it before, or held the gate.
  Move-main :
      {s : ℕ → Pc} {i : ℕ} {p q : Pc} {y : Bool}
      → Move manager has_path s i p q
      → main_of q ≡ some y
      → (main_of p ≡ some y) ⊎ (gate_of p ≡ some true)
  Move-main (call x nb) h = cc
  Move-main (main_granted g) h = inr refl
  Move-main mv h = ground arith

  -- While an exclusive operation runs under a shared lock path, no other thread of any manager runs
  -- an operation under it.
  pub exclusive_alone :
      {s : ℕ → Pc} (i j : ℕ)
      → Reach manager has_path s
      → s i ≡ held true
      → i ≢ j
      → (x : Bool) → s j ≢ held x
  exclusive_alone i j r e d x f = ground (arith, (Reach-Inv manager has_path r).mains i j d)

  -- On a database without a path the same holds among the threads of one manager.
  pub memory_exclusive_alone :
      {s : ℕ → Pc} (i j : ℕ)
      → Reach manager has_path s
      → s i ≡ memory_held true
      → i ≢ j
      → manager i ≡ manager j
      → (x : Bool) → s j ≢ memory_held x
  memory_exclusive_alone i j r e d m x f =
      ground (arith, (Reach-Inv manager has_path r).locals i j d m)

  -- While a thread waits for the lock file it holds the gate, and no step of any other thread starts
  -- to hold the lock file: later readers cannot pass a waiting writer.
  pub waiting_not_passed :
      {s t : ℕ → Pc} {x nb : Bool} (i j : ℕ)
      → Reach manager has_path s
      → s i ≡ main_wait x nb
      → i ≢ j
      → Step manager has_path s t
      → (y : Bool) → main_of (t j) ≡ some y
      → main_of (s j) ≡ some y
  waiting_not_passed {s} i j r e d (step k {p} mv) y h = elim (ℕ_discrete k j) [
    | no other ↦ rw (if_neg _ other) at h
    | yes here ↦
        elim (Move-main (subst (λ c. Move manager has_path s c (s c) p) here mv)
          (rw (if_pos _ here) at h)) [
            | inl kept ↦ kept
            | inr gate ↦ absurd (ground (arith, (Reach-Inv manager has_path r).gates i j d))
          ]
  ]
