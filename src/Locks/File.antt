-- ===== src/Locks/File.antt =====
-- acquireFileLock of cmgr/operation_lock.go: the checks on the lock file and the flock loop.
use cmgr.Common.{
  ◌≡◌, ◌≢◌, refl, Bool, true, false, Option, none, some, List, [], ◌∷◌, ◌++◌, if◌then◌else◌, arith,
  All, ◌⊎◌, inl, inr,
}

-- What os.Lstat and File.Stat say of a path.
pub data Inspection : Type 0 where
  regular not_regular absent failed : Inspection

-- What one flock call answers.
pub data Flock : Type 0 where
  granted interrupted would_block refused : Flock

-- The answers of the operating system, in the order in which they are asked for.
pub record LockFile : Type 0 where
  pub lstat : Inspection
  pub opens : Bool
  pub fstat : Inspection
  pub flocks : List Flock

pub data Attempt : Type 0 where
  acquired busy : Attempt
  error : Attempt

-- `for { err = Flock(...); if err != EINTR { break } }`. The answers run out only while each is an
-- interruption; `none` says that the call has not returned yet.
unfoldable pub flock_loop : Bool → List Flock → Option Attempt
flock_loop nonblocking [] = none
flock_loop nonblocking (granted ∷ rest) = some acquired
flock_loop nonblocking (interrupted ∷ rest) = flock_loop nonblocking rest
flock_loop nonblocking (would_block ∷ rest) = some (if nonblocking then busy else error)
flock_loop nonblocking (refused ∷ rest) = some error

open_and_lock : Bool → Inspection → Bool → List Flock → Option Attempt
open_and_lock false fstat nonblocking flocks = some error
open_and_lock true regular nonblocking flocks = flock_loop nonblocking flocks
open_and_lock true not_regular nonblocking flocks = some error
open_and_lock true absent nonblocking flocks = some error
open_and_lock true failed nonblocking flocks = some error

inspect_then_lock : Inspection → LockFile → Bool → Option Attempt
inspect_then_lock not_regular f nonblocking = some error
inspect_then_lock failed f nonblocking = some error
inspect_then_lock regular f nonblocking = open_and_lock f.opens f.fstat nonblocking f.flocks
inspect_then_lock absent f nonblocking = open_and_lock f.opens f.fstat nonblocking f.flocks

unfoldable pub acquire_file_lock : LockFile → Bool → Option Attempt
unfolding inspect_then_lock open_and_lock
acquire_file_lock f nonblocking = inspect_then_lock f.lstat f nonblocking

flock_loop-blocking : (fs : List Flock) → flock_loop false fs ≢ some busy
unfolding flock_loop
flock_loop-blocking [] = ground arith
flock_loop-blocking (granted ∷ fs) = ground arith
flock_loop-blocking (interrupted ∷ fs) = flock_loop-blocking fs
flock_loop-blocking (would_block ∷ fs) = ground arith
flock_loop-blocking (refused ∷ fs) = ground arith

flock_loop-acquired :
    (nonblocking : Bool) (fs : List Flock)
    → flock_loop nonblocking fs ≡ some acquired
    → (before after : List Flock) × (fs ≡ before ++ granted ∷ after)
      × All (λ a. a ≡ interrupted) before
unfolding flock_loop
flock_loop-acquired nb [] h = cc
flock_loop-acquired nb (granted ∷ fs) h = ([], fs, refl, tt)
flock_loop-acquired nb (interrupted ∷ fs) h =
    let (before, after, e, all) = flock_loop-acquired nb fs h in
    (interrupted ∷ before, after, cc, (refl, all))
flock_loop-acquired true (would_block ∷ fs) h = cc
flock_loop-acquired false (would_block ∷ fs) h = cc
flock_loop-acquired nb (refused ∷ fs) h = cc

-- What an answer means. An error is always possible; `busy` is answered only with LOCK_NB; and
-- `acquired` only for a file that was not there or regular before it was opened and is regular once
-- open, whose flock was granted after interruptions alone.
pub acquire_file_lock_answers :
    (f : LockFile) (nonblocking : Bool) (answer : Attempt)
    → acquire_file_lock f nonblocking ≡ some answer
    → (answer ≡ error)
      ⊎ ((answer ≡ busy) × (nonblocking ≡ true))
      ⊎ ((answer ≡ acquired)
          × ((f.lstat ≡ regular) ⊎ (f.lstat ≡ absent))
          × (f.fstat ≡ regular)
          × (before after : List Flock) × (f.flocks ≡ before ++ granted ∷ after)
          × All (λ a. a ≡ interrupted) before)
unfolding acquire_file_lock
acquire_file_lock_answers f nb error h = inl refl
acquire_file_lock_answers f true busy h = inr (inl (refl, refl))
acquire_file_lock_answers f false busy h = absurd (ground (arith, flock_loop-blocking f.flocks))
acquire_file_lock_answers f nb acquired h =
    let (before, after, e, all) = flock_loop-acquired nb f.flocks (ground arith) in
    inr (inr (refl, ground arith, ground arith, before, after, e, all))
