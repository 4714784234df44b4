-- ===== src/Locks/Examples.antt =====
-- Concrete runs of the lock protocols.
use cmgr.Common.{
  ℕ, ◌≡◌, ◌≢◌, refl, Bool, true, false, Option, none, some, [], ◌∷◌, arith, ap, subst, zero, suc,
}
use cmgr.Locks.File.{
  LockFile, regular, absent, granted, interrupted, acquired, acquire_file_lock, flock_loop,
}
use cmgr.Locks.Operation.{
  Pc, idle, local_wait, main_wait, held, memory_held, main_of, gate_of, local_of, compatible, Free,
  Move, update, call, local_granted, memory_granted, gate_granted, main_granted, gate_released,
  step, Reach, start, next,
}
use cmgr.Locks.Operation.Safety.{exclusive_alone, waiting_not_passed}
use native.Mathlib.Decide.{ℕ_discrete}

abbrev first_regular : LockFile
first_regular = record {
  lstat = absent;
  opens = true;
  fstat = regular;
  flocks = interrupted ∷ granted ∷ [];
}

got_it : acquire_file_lock first_regular true ≡ some acquired
unfolding acquire_file_lock flock_loop
got_it = refl

-- Thread 0 stands at `p`, thread 1 at `q`, and nobody else is active.
abbrev two : Pc → Pc → ℕ → Pc
two p q zero = p
two p q (suc zero) = q
two p q (suc (suc n)) = idle

same_states : {f g : ℕ → Pc} → ((j : ℕ) → f j ≡ g j) → f ≡ g
same_states h i j = h j i

start_two : (λ _. idle) ≡ two idle idle
start_two = same_states λ j. at_thread j
  where
    at_thread : (j : ℕ) → idle ≡ two idle idle j
    at_thread zero = refl
    at_thread (suc zero) = refl
    at_thread (suc (suc n)) = refl

update_0 : (p q r : Pc) → update (two p q) 0 r ≡ two r q
update_0 p q r = same_states λ j. at_thread j
  where
    at_thread : (j : ℕ) → update (two p q) 0 r j ≡ two r q j
    at_thread zero = ground arith
    at_thread (suc zero) = ground arith
    at_thread (suc (suc n)) = ground arith

update_1 : (p q r : Pc) → update (two p q) 1 r ≡ two p r
update_1 p q r = same_states λ j. at_thread j
  where
    at_thread : (j : ℕ) → update (two p q) 1 r j ≡ two p r j
    at_thread zero = ground arith
    at_thread (suc zero) = ground arith
    at_thread (suc (suc n)) = ground arith

first-Free :
    (of : Pc → Option Bool) (x : Bool) (p q : Pc)
    → of idle ≡ none
    → compatible (some x) (of q) ≡ true
    → Free of (two p q) 0 x
first-Free of x p q e h zero d = absurd (d refl)
first-Free of x p q e h (suc zero) d = h
first-Free of x p q e h (suc (suc n)) d = ap (compatible (some x)) e

second-Free :
    (of : Pc → Option Bool) (x : Bool) (p q : Pc)
    → of idle ≡ none
    → compatible (some x) (of p) ≡ true
    → Free of (two p q) 1 x
second-Free of x p q e h zero d = h
second-Free of x p q e h (suc zero) d = absurd (d refl)
second-Free of x p q e h (suc (suc n)) d = ap (compatible (some x)) e

module _ {has_path : ℕ → Bool} where
  first_moves :
      {p q r : Pc}
      → Reach (λ i. i) has_path (two p q)
      → Move (λ i. i) has_path (two p q) 0 p r
      → Reach (λ i. i) has_path (two r q)
  first_moves {p} {q} {r} k m = subst (Reach (λ i. i) has_path) (update_0 p q r) (next k (step 0 m))

  second_moves :
      {p q r : Pc}
      → Reach (λ i. i) has_path (two p q)
      → Move (λ i. i) has_path (two p q) 1 q r
      → Reach (λ i. i) has_path (two p r)
  second_moves {p} {q} {r} k m =
      subst (Reach (λ i. i) has_path) (update_1 p q r) (next k (step 1 m))

-- Each thread has a manager of its own.
abbrev on_disk : ℕ → Bool
on_disk m = true

abbrev in_memory : ℕ → Bool
in_memory m = false

-- Thread 1 reads, then thread 0 waits to write.
reader_runs : Reach (λ i. i) on_disk (two idle (held false))
reader_runs =
    let k0 : Reach (λ i. i) on_disk (two idle idle) =
      subst (Reach (λ i. i) on_disk) start_two start in
    let k1 = second_moves k0 (call false false) in
    let k2 = second_moves k1 (local_granted refl (λ j d m. absurd (d m))) in
    let k3 = second_moves k2 (gate_granted (second-Free gate_of true _ _ refl refl)) in
    let k4 = second_moves k3 (main_granted (second-Free main_of false _ _ refl refl)) in
    second_moves k4 gate_released

writer_waits : Reach (λ i. i) on_disk (two (main_wait true false) (held false))
writer_waits =
    let k1 = first_moves reader_runs (call true false) in
    let k2 = first_moves k1 (local_granted refl (λ j d m. absurd (d m))) in
    first_moves k2 (gate_granted (first-Free gate_of true _ _ refl refl))

waiting_not_passed_example : main_of (two (main_wait true false) (held false) 1) ≡ some false
unfolding ℕ_discrete
waiting_not_passed_example =
    waiting_not_passed 0 1 writer_waits refl (omega arith) (step 2 (call false false)) false refl

alone_at_start : (has_path : ℕ → Bool) → Reach (λ i. i) has_path (two idle idle)
alone_at_start has_path = subst (Reach (λ i. i) has_path) start_two start

writer_runs : Reach (λ i. i) on_disk (two (held true) idle)
writer_runs =
    let k1 = first_moves (alone_at_start on_disk) (call true false) in
    let k2 = first_moves k1 (local_granted refl (λ j d m. absurd (d m))) in
    let k3 = first_moves k2 (gate_granted (first-Free gate_of true _ _ refl refl)) in
    let k4 = first_moves k3 (main_granted (first-Free main_of true _ _ refl refl)) in
    first_moves k4 gate_released

exclusive_alone_example : idle ≢ held false
exclusive_alone_example = exclusive_alone 0 1 writer_runs refl (omega arith) false

-- Threads of one manager, on a database in memory.
abbrev one_manager : ℕ → ℕ
one_manager j = 0

memory_writer_runs : Reach one_manager in_memory (two (memory_held true) idle)
memory_writer_runs =
    let at_start : Reach one_manager in_memory (two idle idle) =
      subst (Reach one_manager in_memory) start_two start in
    let asked : Reach one_manager in_memory (two (local_wait true false) idle) =
      subst (Reach one_manager in_memory) (update_0 idle idle (local_wait true false))
        (next at_start (step 0 (call true false))) in
    subst (Reach one_manager in_memory) (update_0 (local_wait true false) idle (memory_held true)) (
      next asked (
        step 0 (
          memory_granted refl
            (λ j d m. first-Free local_of true (local_wait true false) idle refl refl j d))))
