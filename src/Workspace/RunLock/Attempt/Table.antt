-- ===== src/Workspace/RunLock/Attempt/Table.antt =====
-- What attemptLocks leaves in the kernel's lock table.
use nix_repo_base.Base.{
  ℕ, String, ◌≡◌, Bool, true, ◌&&◌, none, some, List, [], ◌∷◌, ◌++◌, any, mem, str_eq, ◌==◌,
  if◌then◌else◌,
}
use nix_repo_base.Workspace.RunLock.{exclusive, probe, LockStep, Flock}
use nix_repo_base.Workspace.RunLock.Exclusion.{Apart}
use nix_repo_base.Workspace.RunLock.Attempt.{Attempt, took, busy, attempt_locks}

-- The files of the steps that take a lock and keep it, in order.
abbrev pub exclusives : List LockStep → List String
exclusives [] = []
exclusives (s ∷ rest) = elim s.mode [
  | exclusive ↦ s.path ∷ exclusives rest
  | probe ↦ exclusives rest
]

abbrev pub is_step : LockStep → LockStep → Bool
is_step s t = str_eq s.key t.key && str_eq s.path t.path

module _ (F : Flock) where
  open F use {Kernel, holds, acquire, release}

  -- The process has an exclusive lock on each of these files, and no other lock.
  abbrev Owns : ℕ → List String → Kernel → Type 0
  Owns i files k = (q : String) → holds k i q ≡ (if mem q files then some exclusive else none)

  -- The same, with the locks of the other processes as before.
  abbrev pub Leaves : ℕ → List String → Kernel → Kernel → Type 0
  Leaves i files k k' =
      (j : ℕ) (q : String)
      → holds k' j q
        ≡ (if i == j then (if mem q files then some exclusive else none) else holds k j q)

  -- What an attempt makes of the lock table: with all its locks taken, the process has those of its
  -- exclusive steps; with a busy one among its steps, it has no lock at all.
  abbrev pub Settled : ℕ → List LockStep → Kernel → Attempt × Kernel → Type 0
  Settled i steps k (took held, k') = (held ≡ exclusives steps) × Leaves i (exclusives steps) k k'
  Settled i steps k (busy s, k') = (any (is_step s) steps ≡ true) × Leaves i [] k k'

  -- The same where some steps have been done before.
  abbrev After : ℕ → List LockStep → List String → Attempt × Kernel → Type 0
  After i steps held (took all, k) =
      (all ≡ held ++ exclusives steps) × Owns i (held ++ exclusives steps) k
  After i steps held (busy s, k) = (any (is_step s) steps ≡ true) × Owns i [] k

  -- The induction hypothesis of the steps that are left.
  abbrev Later : ℕ → List LockStep → Type 0
  Later i rest =
      (held : List String) (k : Kernel)
      → Apart rest held
      → Owns i held k
      → After i rest held (attempt_locks F i rest held k)
