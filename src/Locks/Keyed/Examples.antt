-- ===== src/Locks/Keyed/Examples.antt =====
-- A concrete run of the keyed locks: one call enters, owns its lock, and leaves.
use cmgr.Common.{ℕ, ◌≡◌, refl, none, arith, false, zero, suc}
use native.Mathlib.Decide.{ℕ_discrete}
use cmgr.Locks.Keyed.{
  is_owner, idle, owning, leaving, Locks, Reach, request, grant, unlock, drop, start, next, empty,
  enter, leave,
}
use cmgr.Locks.Operation.{update}
use cmgr.Locks.Keyed.Safety.{owning_unique}
use cmgr.Locks.Keyed.Progress.{Run, locks-drain}

abbrev entered : Locks
entered = enter empty 0 7 none

abbrev owned : Locks
owned = record entered { pc = update entered.pc 0 (owning 7 0) }

abbrev unlocked : Locks
unlocked = record owned { pc = update owned.pc 0 (leaving 7 0) }

nobody : (j : ℕ) → is_owner 0 (entered.pc j) ≡ false
nobody zero = ground arith
nobody (suc j) = ground arith

owned_reached : Reach 2 owned
unfolding ℕ_discrete
owned_reached =
    next (next start (request 0 7 (omega arith) refl)) (grant 0 7 0 (omega arith) refl nobody)

left_reached : Reach 2 (leave unlocked 0 7 0)
unfolding ℕ_discrete
left_reached =
    next (next owned_reached (unlock 0 7 0 (omega arith) refl)) (drop 0 7 0 (omega arith) refl)

quiet : (i : ℕ) → (leave unlocked 0 7 0).pc i ≡ idle
quiet zero = ground arith
quiet (suc i) = ground arith

owning_unique_example : ◌≡◌ {A = ℕ} 0 0
unfolding ℕ_discrete
owning_unique_example = owning_unique 0 0 owned_reached refl refl

locks-drain_example :
    (t : Locks) × Run 2 owned t × ((i : ℕ) → t.pc i ≡ idle) × ((k : ℕ) → t.table k ≡ none)
locks-drain_example = locks-drain owned_reached
