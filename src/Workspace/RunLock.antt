-- ===== src/Workspace/RunLock.antt =====
-- rebuildlock.go: the locks that keep rebuilds of one machine apart. The calls of flock, and the death of
-- a run, are steps of processes that run at the same time; the kernel's lock table is an interface.
pub mod Exclusion
pub mod Attempt
pub mod Plan
use nix_repo_base.Base.{
  ℕ, ◌+◌, ◌-◌, ◌<◌, String, ◌≡◌, ◌≢◌, Bool, true, false, ◌&&◌, ◌||◌, Option, none, some, List, [],
  ◌∷◌, ◌++◌, ltb, leb, ◌==◌, if◌then◌else◌, Outcome, ok, err, str_eq,
}

pub data LockMode : Type 0 where
  exclusive probe : LockMode

pub record LockStep : Type 0 where
  pub key : String
  pub path : String
  pub mode : LockMode

-- A shared lock agrees with a shared lock only.
abbrev pub conflicts : LockMode → Option LockMode → Bool
conflicts m none = false
conflicts probe (some probe) = false
conflicts _ (some _) = true

-- flock(2): which process holds which file. A lock is granted only where no other process has one that
-- conflicts; it changes nothing else.
pub record Flock : Type 1 where
  pub Kernel : Type 0
  pub free : Kernel
  pub holds : Kernel → ℕ → String → Option LockMode
  pub acquire : ℕ → String → LockMode → Kernel → Option Kernel
  pub release : ℕ → String → Kernel → Kernel
  pub free_holds : (i : ℕ) (p : String) → holds free i p ≡ none
  pub acquire_holds :
      (i : ℕ) (p : String) (m : LockMode) (k k' : Kernel)
      → acquire i p m k ≡ some k'
      → (j : ℕ) (q : String) → holds k' j q ≡ (if i == j && str_eq p q then some m else holds k j q)
  pub acquire_free :
      (i : ℕ) (p : String) (m : LockMode) (k k' : Kernel)
      → acquire i p m k ≡ some k'
      → (j : ℕ) → i == j ≡ false
      → conflicts m (holds k j p) ≡ false
  pub release_holds :
      (i : ℕ) (p : String) (k : Kernel) (j : ℕ) (q : String)
      → holds (release i p k) j q ≡ (if i == j && str_eq p q then none else holds k j q)

-- Where a run stands in acquireLocks, with all its steps: it takes them in order, with what it holds so
-- far; has a probe that it drops again; drops what it holds, to retry or to give up; waits; runs its
-- build or apply; or releases its locks at the end.
pub data Phase : Type 0 where
  outside : Phase
  trying : List LockStep → List String → List LockStep → Phase
  probed : String → List LockStep → List String → List LockStep → Phase
  dropping : List String → Bool → List LockStep → Phase
  waiting : List LockStep → Phase
  holding : List String → Phase
  releasing : List String → Phase

-- What comes next is up to the outside: a run begins, with its steps; it goes on; it stops (a call
-- fails, its wait expires, it is cancelled, or its work is done); or it dies, and the kernel drops
-- its locks.
pub data Choice : Type 0 where
  begin : List LockStep → Choice
  go_on stop die : Choice

-- The files on which a run holds a lock.
abbrev pub held_by : Phase → List String
held_by outside = []
held_by (trying rest held all) = held
held_by (probed p rest held all) = p ∷ held
held_by (dropping held retry all) = held
held_by (waiting all) = []
held_by (holding held) = held
held_by (releasing held) = held

unfoldable pub halt : Phase → Phase
halt (trying rest held all) = dropping held false all
halt (waiting all) = outside
halt (holding held) = releasing held
halt f = f

-- A probe is dropped at once.
abbrev pub granted_as : LockMode → String → List LockStep → List String → List LockStep → Phase
granted_as probe p rest held all = probed p rest held all
granted_as exclusive p rest held all = trying rest (held ++ p ∷ []) all

module _ (F : Flock) where
  open F use {Kernel, acquire, release}

  unfoldable pub granted :
      LockStep
      → List LockStep
      → List String
      → List LockStep
      → Kernel
      → Option Kernel
      → Phase × Kernel
  granted s rest held all k none = (dropping held true all, k)
  granted s rest held all k (some k') = (granted_as s.mode s.path rest held all, k')

  unfoldable pub release_all : ℕ → List String → Kernel → Kernel
  release_all i [] k = k
  release_all i (p ∷ ps) k = release_all i ps (release i p k)

  unfoldable pub advance : ℕ → Phase → Kernel → Phase × Kernel
  unfolding granted
  advance i outside k = (outside, k)
  advance i (trying [] held all) k = (holding held, k)
  advance i (trying (s ∷ rest) held all) k = granted s rest held all k (acquire i s.path s.mode k)
  advance i (probed p rest held all) k = (trying rest held all, release i p k)
  advance i (dropping [] true all) k = (waiting all, k)
  advance i (dropping [] false all) k = (outside, k)
  advance i (dropping (p ∷ held) retry all) k = (dropping held retry all, release i p k)
  advance i (waiting all) k = (trying all [] all, k)
  advance i (holding held) k = (holding held, k)
  advance i (releasing []) k = (outside, k)
  advance i (releasing (p ∷ held)) k = (releasing held, release i p k)

  unfoldable pub lock_step : ℕ → Choice → Phase → Kernel → Phase × Kernel
  unfolding advance halt release_all
  lock_step i (begin steps) outside k = (trying steps [] steps, k)
  lock_step i (begin steps) f k = (f, k)
  lock_step i go_on f k = advance i f k
  lock_step i stop f k = (halt f, k)
  lock_step i die f k = (outside, release_all i (held_by f) k)

  pub record Machine : Type 0 where
    pub kernel : Kernel
    pub phase : ℕ → Phase

  abbrev pub quiet : Machine
  quiet = record { kernel = F.free; phase = λ i. outside }

  -- The step of one process.
  unfoldable pub step_at : ℕ → Choice → Machine → Machine
  unfolding lock_step
  step_at i c m =
      let (f, k) = lock_step i c (m.phase i) m.kernel in
      record { kernel = k; phase = λ j. if i == j then f else m.phase j }

  unfoldable pub run_schedule : List (ℕ × Choice) → Machine → Machine
  unfolding step_at
  run_schedule [] m = m
  run_schedule ((i, c) ∷ cs) m = run_schedule cs (step_at i c m)
