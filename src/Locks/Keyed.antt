-- ===== src/Locks/Keyed.antt =====
-- acquireLocalPortLock of cmgr/operation_lock.go and acquireBuildLock of cmgr/docker.go: a table of
-- reference-counted mutexes, one for each key in use.
pub mod Invariant
pub mod Safety
pub mod Progress
mod Examples
use cmgr.Common.{
  ℕ, zero, suc, ◌+◌, ◌-◌, ◌<◌, ◌≡◌, ◌≢◌, refl, Bool, true, false, ◌&&◌, Option, none, some, ◌==◌,
  if◌then◌else◌, arith,
}
use cmgr.Locks.Operation.{update}

-- Where one call stands; `k` is its key and `l` the lock object that it found or made. Each of the
-- two sections under the table's own mutex is one step.
pub data Pc : Type 0 where
  idle : Pc
  waiting : (k l : ℕ) → Pc  -- before lock.mu.Lock()
  owning : (k l : ℕ) → Pc  -- until the returned function is called
  leaving : (k l : ℕ) → Pc  -- after lock.mu.Unlock()

-- Keys are numbered, and lock objects are numbered as they are made; `refs l` is the field of `l`.
pub record Locks : Type 0 where
  pub table : ℕ → Option ℕ
  pub refs : ℕ → ℕ
  pub made : ℕ
  pub pc : ℕ → Pc

-- `lock := locks[key]; if lock == nil { lock = new(...); locks[key] = lock }; lock.refs++`
abbrev pub enter : Locks → ℕ → ℕ → Option ℕ → Locks
enter s i k none = record s {
  table = update s.table k (some s.made);
  refs = update s.refs s.made 1;
  made = suc s.made;
  pc = update s.pc i (waiting k s.made);
}
enter s i k (some l) = record s {
  refs = update s.refs l (s.refs l + 1);
  pc = update s.pc i (waiting k l);
}

-- `lock.refs--; if lock.refs == 0 { delete(locks, key) }`
abbrev pub leave : Locks → ℕ → ℕ → ℕ → Locks
leave s i k l = record s {
  table = if s.refs l - 1 == 0 then update s.table k none else s.table;
  refs = update s.refs l (s.refs l - 1);
  pc = update s.pc i idle;
}

abbrev pub is_owner : ℕ → Pc → Bool
is_owner l (owning k m) = m == l
is_owner l _ = false

-- One of `n` threads moves. A mutex is granted while nobody owns it.
pub data Step (n : ℕ) (s : Locks) : Locks → Type 0 where
  request : (i k : ℕ) → i < n → s.pc i ≡ idle → Step n s (enter s i k (s.table k))
  grant :
      (i k l : ℕ)
      → i < n
      → s.pc i ≡ waiting k l
      → ((j : ℕ) → is_owner l (s.pc j) ≡ false)
      → Step n s (record s { pc = update s.pc i (owning k l) })
  unlock :
      (i k l : ℕ)
      → i < n
      → s.pc i ≡ owning k l
      → Step n s (record s { pc = update s.pc i (leaving k l) })
  drop : (i k l : ℕ) → i < n → s.pc i ≡ leaving k l → Step n s (leave s i k l)

abbrev pub empty : Locks
empty = record { table = λ _. none; refs = λ _. 0; made = 0; pc = λ _. idle }

pub data Reach (n : ℕ) : Locks → Type 0 where
  start : Reach n empty
  next : {s t : Locks} → Reach n s → Step n s t → Reach n t
