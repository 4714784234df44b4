-- ===== src/Locks/Operation.antt =====
-- acquireOperationLockMode of cmgr/operation_lock.go and the functions that it returns, as threads
-- of many managers that interleave at each lock call.
pub mod Invariant
pub mod Safety
use cmgr.Common.{ℕ, ◌≡◌, ◌≢◌, refl, Bool, true, false, Option, none, some, if◌then◌else◌, arith}
use mathlib.Core.Logic.{ite}
use native.Mathlib.Decide.{ℕ_discrete}

-- Where one call stands. `x` is the argument `exclusive`, `nb` the argument `nonblocking`.
pub data Pc : Type 0 where
  idle : Pc
  local_wait : (x nb : Bool) → Pc  -- before the manager's operationMu
  gate_wait : (x nb : Bool) → Pc  -- before the flock of the gate
  main_wait : (x nb : Bool) → Pc  -- before the flock of the lock file, the gate held
  main_got : (x : Bool) → Pc  -- before releaseFileLock(gate)
  held : (x : Bool) → Pc  -- the operation runs
  memory_held : (x : Bool) → Pc  -- the operation runs, on a database without a path
  main_failed : (x : Bool) → Pc  -- the lock file failed or was busy, the gate is still held
  unlocking : (x : Bool) → Pc  -- before unlockLocal

-- What a call holds: of operationMu and of the lock file the mode, of the gate whether.
abbrev pub local_of : Pc → Option Bool
local_of idle = none
local_of (local_wait x nb) = none
local_of (gate_wait x nb) = some x
local_of (main_wait x nb) = some x
local_of (main_got x) = some x
local_of (held x) = some x
local_of (memory_held x) = some x
local_of (main_failed x) = some x
local_of (unlocking x) = some x

abbrev pub gate_of : Pc → Option Bool
gate_of (main_wait x nb) = some true
gate_of (main_got x) = some true
gate_of (main_failed x) = some true
gate_of _ = none

abbrev pub main_of : Pc → Option Bool
main_of (main_got x) = some x
main_of (held x) = some x
main_of _ = none

-- Two holders of one lock: readers go together, a writer with nobody.
abbrev pub compatible : Option Bool → Option Bool → Bool
compatible none b = true
compatible (some x) none = true
compatible (some true) (some y) = false
compatible (some false) (some true) = false
compatible (some false) (some false) = true

abbrev pub update {ℓ} : {A : Type ℓ} (states : ℕ → A) (thread : ℕ) (moved : A) (other : ℕ) → A
update states thread moved other = ite (ℕ_discrete thread other) moved (states other)

-- What sync.RWMutex and flock promise: a lock is granted only beside compatible holders.
abbrev pub Free : (Pc → Option Bool) → (ℕ → Pc) → ℕ → Bool → Type 0
Free of s i x = (j : ℕ) → j ≢ i → compatible (some x) (of (s j)) ≡ true

-- `manager t` is the Manager whose method thread `t` calls, `has_path m` whether m.operationLockPath
-- is not empty. Managers with a path share one database.
module _ (manager : ℕ → ℕ) (has_path : ℕ → Bool) where
  abbrev pub LocalFree : (ℕ → Pc) → ℕ → Bool → Type 0
  LocalFree s i x =
      (j : ℕ) → j ≢ i → manager j ≡ manager i → compatible (some x) (local_of (s j)) ≡ true

  pub data Move (s : ℕ → Pc) (i : ℕ) : Pc → Pc → Type 0 where
    call : (x nb : Bool) → Move s i idle (local_wait x nb)
    local_granted :
        {x nb : Bool}
        → has_path (manager i) ≡ true
        → LocalFree s i x
        → Move s i (local_wait x nb) (gate_wait x nb)
    memory_granted :
        {x nb : Bool}
        → has_path (manager i) ≡ false
        → LocalFree s i x
        → Move s i (local_wait x nb) (memory_held x)
    local_busy : {x : Bool} → Move s i (local_wait x true) idle
    gate_granted :
        {x nb : Bool} → Free gate_of s i true → Move s i (gate_wait x nb) (main_wait x nb)
    gate_failed : {x nb : Bool} → Move s i (gate_wait x nb) (unlocking x)
    main_granted : {x nb : Bool} → Free main_of s i x → Move s i (main_wait x nb) (main_got x)
    main_refused : {x nb : Bool} → Move s i (main_wait x nb) (main_failed x)
    gate_released : {x : Bool} → Move s i (main_got x) (held x)
    failed_gate_released : {x : Bool} → Move s i (main_failed x) (unlocking x)
    main_released : {x : Bool} → Move s i (held x) (unlocking x)
    memory_released : {x : Bool} → Move s i (memory_held x) idle
    local_released : {x : Bool} → Move s i (unlocking x) idle

  pub data Step (s : ℕ → Pc) : (ℕ → Pc) → Type 0 where
    step : (i : ℕ) {p : Pc} → Move s i (s i) p → Step s (update s i p)

  pub data Reach : (ℕ → Pc) → Type 0 where
    start : Reach (λ _. idle)
    next : {s t : ℕ → Pc} → Reach s → Step s t → Reach t
