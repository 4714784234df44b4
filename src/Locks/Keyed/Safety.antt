-- ===== src/Locks/Keyed/Safety.antt =====
-- Two calls with one key never own their lock together, and the table does not grow.
use cmgr.Common.{ℕ, ◌≡◌, none, arith, Option-cases, inl, inr, true, ◌==◌}
use cmgr.Locks.Keyed.{idle, owning, Locks, Reach}
use cmgr.Locks.Keyed.Invariant.{Reach-Inv, refers, sum_zero}

owner_refl : (l : ℕ) → (l == l) ≡ true
owner_refl l = ground arith

-- Of the threads that asked for one key, at most one owns a lock for it, in every reachable state:
-- although locks are made and deleted all the time, two threads never own different locks of a key.
pub owning_unique :
    {n : ℕ} {s : Locks} {k l m : ℕ} (i j : ℕ)
    → Reach n s
    → s.pc i ≡ owning k l
    → s.pc j ≡ owning k m
    → i ≡ j
owning_unique {k} {l} {m} i j r p q =
    let v = Reach-Inv r in ground (arith, v.known i k l, v.known j k m, v.single i j l)

-- The table has an entry for a key only while some thread refers to the lock: once every thread is
-- idle again, the table is empty.
pub idle_table_empty :
    {n : ℕ} {s : Locks} → Reach n s → ((i : ℕ) → s.pc i ≡ idle) → (k : ℕ) → s.table k ≡ none
idle_table_empty {n} {s} r quiet k = elim (Option-cases (s.table k)) [
  | inl e ↦ e
  | inr (l, e) ↦
      let v = Reach-Inv r in
      absurd (
        omega (
          arith,
          v.used k l e,
          v.counted l,
          sum_zero n (λ t. refers l (s.pc t)) (λ t. ground (arith, quiet t)),
        ))
]
