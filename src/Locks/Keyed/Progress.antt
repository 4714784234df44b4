-- ===== src/Locks/Keyed/Progress.antt =====
-- Threads that use the keyed locks never block each other for good.
use cmgr.Common.{
  ℕ, zero, suc, ◌<◌, ◌≤◌, ◌≡◌, ◌⊎◌, refl, Bool, true, false, none, arith, inl, inr, Bool-cases,
}
use native.Mathlib.Decide.{dec_lt}
use cmgr.Locks.Operation.{update}
use cmgr.Locks.Keyed.{
  Pc, idle, waiting, owning, leaving, Locks, leave, is_owner, Step, grant, unlock, drop, Reach,
  next,
}
use cmgr.Locks.Keyed.Safety.{idle_table_empty}
use cmgr.Locks.Keyed.Invariant.{sum_below, sum_update, Inv, Reach-Inv}

-- How many steps a thread has left.
abbrev work : Pc → ℕ
work idle = 0
work (leaving k l) = 1
work (owning k l) = 2
work (waiting k l) = 3

total : ℕ → Locks → ℕ
total n s = sum_below n (λ t. work (s.pc t))

pub data Run (n : ℕ) : Locks → Locks → Type 0 where
  done : {s : Locks} → Run n s s
  more : {s t u : Locks} → Step n s t → Run n t u → Run n s u

search_below :
    (test : Pc → Bool) (n : ℕ) (s : ℕ → Pc)
    → ((i : ℕ) × (i < n) × (test (s i) ≡ true)) ⊎ ((i : ℕ) → i < n → test (s i) ≡ false)
search_below test zero s = inr (λ i h. absurd (omega (arith, h)))
search_below test (suc n) s = elim (Bool-cases (test (s n))) [
  | inl y ↦ inl (n, omega arith, y)
  | inr y ↦ elim (search_below test n s) [
    | inl (i, lt, z) ↦ inl (i, omega (arith, lt), z)
    | inr z ↦
        inr (λ i h. elim (dec_lt i n) [
          | yes below ↦ z i below
          | no last ↦ ground (arith, h, y, last)
        ])
  ]
]

-- A step that leaves less to do.
abbrev Advance : ℕ → Locks → Type 0
Advance n s = (t : Locks) × Step n s t × (total n t < total n s)

owner-eq : (l : ℕ) (p : Pc) → is_owner l p ≡ true → (k : ℕ) × (p ≡ owning k l)
owner-eq l idle h = absurd (ground (arith, h))
owner-eq l (waiting k m) h = absurd (ground (arith, h))
owner-eq l (owning k m) h = (k, ground (arith, h))
owner-eq l (leaving k m) h = absurd (ground (arith, h))

less :
    (n : ℕ) (s : Locks) (i : ℕ) (p : Pc) (t : Locks)
    → i < n
    → t.pc ≡ update s.pc i p
    → work p < work (s.pc i)
    → total n t < total n s
unfolding total
less n s i p t lt e h = rw e (omega (arith, sum_update work n s.pc i p lt, h))

module _ {n : ℕ} {s : Locks} where
  release : (i k l : ℕ) → i < n → s.pc i ≡ owning k l → Advance n s
  release i k l lt e =
      let t = record s { pc = update s.pc i (leaving k l) } in
      (t, unlock i k l lt e, less n s i (leaving k l) t lt refl (rw e (omega arith)))

  step_blocked : (i k l : ℕ) → Inv n s → i < n → s.pc i ≡ waiting k l → Advance n s
  step_blocked i k l v lt e = elim (search_below (is_owner l) n s.pc) [
    | inl (j, jn, o) ↦ let (k', p) = owner-eq l (s.pc j) o in release j k' l jn p
    | inr free ↦
        let t = record s { pc = update s.pc i (owning k l) } in
        (
          t,
          grant i k l lt e (λ j. elim (dec_lt j n) [
            | yes below ↦ free j below
            | no above ↦ rw (v.quiet j (omega (arith, above))) refl
          ]),
          less n s i (owning k l) t lt refl (rw e (omega arith)),
        )
  ]

  -- Whenever a thread is busy, a step is possible that is not a new call.
  step_of_busy : (i : ℕ) (p : Pc) → Inv n s → i < n → s.pc i ≡ p → 0 < work p → Advance n s
  step_of_busy i idle v lt e h = absurd (omega (arith, h))
  step_of_busy i (waiting k l) v lt e h = step_blocked i k l v lt e
  step_of_busy i (owning k l) v lt e h = release i k l lt e
  step_of_busy i (leaving k l) v lt e h =
      (leave s i k l, drop i k l lt e, less n s i idle (leave s i k l) lt refl (rw e (omega arith)))

abbrev is_busy : Pc → Bool
is_busy idle = false
is_busy (waiting k l) = true
is_busy (owning k l) = true
is_busy (leaving k l) = true

busy-work : (p : Pc) → is_busy p ≡ true → 0 < work p
busy-work idle h = absurd (ground (arith, h))
busy-work (waiting k l) h = omega arith
busy-work (owning k l) h = omega arith
busy-work (leaving k l) h = omega arith

quiet-idle : (p : Pc) → is_busy p ≡ false → p ≡ idle
quiet-idle idle h = refl
quiet-idle (waiting k l) h = absurd (ground (arith, h))
quiet-idle (owning k l) h = absurd (ground (arith, h))
quiet-idle (leaving k l) h = absurd (ground (arith, h))

abbrev Drained : ℕ → Locks → Type 0
Drained n s = (t : Locks) × Run n s t × Reach n t × ((i : ℕ) → t.pc i ≡ idle)

all_idle :
    {n : ℕ} {s : Locks} → Reach n s → ((i : ℕ) → i < n → is_busy (s.pc i) ≡ false) → Drained n s
all_idle {n} {s} r free = (
  s,
  done,
  r,
  λ i. elim (dec_lt i n) [
    | yes below ↦ quiet-idle (s.pc i) (free i below)
    | no above ↦ (Reach-Inv r).quiet i (omega (arith, above))
  ],
)

-- What is left to do can be done.
drain : {n : ℕ} (m : ℕ) {s : Locks} → Reach n s → total n s ≤ m → Drained n s
drain {n} zero {s} r b = elim (search_below is_busy n s.pc) [
  | inr free ↦ all_idle r free
  | inl (i, lt, busy) ↦
      let (t, step, decrease) =
        step_of_busy i (s.pc i) (Reach-Inv r) lt refl (busy-work (s.pc i) busy) in
      absurd (omega (arith, decrease, b))
]
drain {n} (suc m) {s} r b = elim (search_below is_busy n s.pc) [
  | inr free ↦ all_idle r free
  | inl (i, lt, busy) ↦
      let (t, step, decrease) =
        step_of_busy i (s.pc i) (Reach-Inv r) lt refl (busy-work (s.pc i) busy) in
      let (u, run, reached, quiet) = drain m (next r step) (omega (arith, decrease, b)) in
      (u, more step run, reached, quiet)
]

-- From every reachable state some run ends every call, and the table of locks is then empty: the
-- locks never deadlock.
pub locks-drain :
    {n : ℕ} {s : Locks}
    → Reach n s
    → (t : Locks) × Run n s t × ((i : ℕ) → t.pc i ≡ idle) × ((k : ℕ) → t.table k ≡ none)
locks-drain {n} {s} r =
    let (t, run, reached, quiet) = drain (total n s) r (omega arith) in
    (t, run, quiet, idle_table_empty reached quiet)
