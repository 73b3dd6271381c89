-- ===== src/Workspace/RunLock/Attempt.antt =====
-- rebuildlock.go, attemptLocks and the wait of acquireLocks: one attempt in one piece, which the steps of
-- a run left alone take apart, and what a run does when a lock is busy.
pub mod Table
use nix_repo_base.Base.{
  ℕ, zero, suc, ◌+◌, ◌-◌, ◌≤◌, String, ◌≡◌, refl, true, Option, none, some, List, [], ◌∷◌, ◌++◌,
  leb, ltb, ◌==◌, if◌then◌else◌, arith,
}
use nix_repo_base.Workspace.RunLock.{
  LockMode, exclusive, probe, LockStep, Flock, Phase, trying, dropping, waiting, holding, granted,
  granted_as, release_all, advance,
}

pub data Attempt : Type 0 where
  took : List String → Attempt
  busy : LockStep → Attempt

-- wait: 0 fails at once; WaitForever has no limit.
pub data Wait : Type 0 where
  wait_forever : Wait
  up_to : ℕ → Wait

pub data Next : Type 0 where
  give_up : ℕ → Next
  sleep : ℕ → Next

-- What a busy lock leads to, after this time: an error with the time waited, or a sleep.
unfoldable pub next_wait : ℕ → Wait → ℕ → Next
next_wait poll wait_forever elapsed = sleep poll
next_wait poll (up_to limit) elapsed =
    if leb limit elapsed
    then give_up (if limit == 0 then 0 else elapsed)
    else sleep (if ltb (limit - elapsed) poll then limit - elapsed else poll)

-- What a sleep or the end of a wait may look like.
abbrev pub InTime : ℕ → Wait → ℕ → Next → Type 0
InTime poll wait_forever elapsed (sleep d) = d ≡ poll
InTime poll wait_forever elapsed (give_up waited) = ⊥
InTime poll (up_to limit) elapsed (sleep d) = (d ≤ poll) × (1 ≤ d) × (elapsed + d ≤ limit)
InTime poll (up_to limit) elapsed (give_up waited) = (limit ≤ elapsed) × (waited ≤ elapsed)

module _ (F : Flock) where
  open F use {Kernel, acquire, release}

  unfoldable pub attempted :
      ℕ
      → LockStep
      → List String
      → Kernel
      → Option Kernel
      → (List String → Kernel → Attempt × Kernel)
      → Attempt × Kernel
  unfolding release_all
  attempted i s held k none next = (busy s, release_all F i held k)
  attempted i s held k (some k') next = elim s.mode [
    | probe ↦ next held (release i s.path k')
    | exclusive ↦ next (held ++ s.path ∷ []) k'
  ]

  unfoldable pub attempt_locks : ℕ → List LockStep → List String → Kernel → Attempt × Kernel
  unfolding attempted
  attempt_locks i [] held k = (took held, k)
  attempt_locks i (s ∷ rest) held k =
      attempted i s held k (acquire i s.path s.mode k) (attempt_locks i rest)

  unfoldable pub advances : ℕ → ℕ → Phase → Kernel → Phase × Kernel
  unfolding advance
  advances zero i f k = (f, k)
  advances (suc n) i f k = let (f', k') = advance F i f k in advances n i f' k'

  -- Where an attempt leaves its run.
  unfoldable pub left : List LockStep → Attempt × Kernel → Phase × Kernel
  left all (took held, k) = (holding held, k)
  left all (busy s, k) = (waiting all, k)

  abbrev Comes : ℕ → Phase → Kernel → Phase × Kernel → Type 0
  Comes i f k r = (n : ℕ) × (advances n i f k ≡ r)

  dropping-Comes :
      (i : ℕ) (held : List String) (all : List LockStep) (k : Kernel)
      → Comes i (dropping held true all) k (waiting all, release_all F i held k)
  unfolding advances advance release_all
  dropping-Comes i [] all k = (1, refl)
  dropping-Comes i (p ∷ held) all k =
      let rest = dropping-Comes i held all (release i p k) in (suc (rest.0), rest.1)

  granted_as-Comes :
      (i : ℕ) (m : LockMode) (p key : String) (rest : List LockStep) (held : List String)
      (all : List LockStep) (k k' : Kernel)
      → ((h : List String) (l : Kernel)
          → Comes i (trying rest h all) l (left all (attempt_locks i rest h l)))
      → Comes i (granted_as m p rest held all) k' (
          left all (
            attempted i
              (record { key = key; path = p; mode = m })
              held
              k
              (some k')
              (attempt_locks i rest)))
  unfolding advances advance attempted
  granted_as-Comes i probe p key rest held all k k' ih =
      let next = ih held (release i p k') in (suc (next.0), next.1)
  granted_as-Comes i exclusive p key rest held all k k' ih = ih (held ++ p ∷ []) k'

  granted-Comes :
      (i : ℕ) (s : LockStep) (rest : List LockStep) (held : List String) (all : List LockStep)
      (k : Kernel) (r : Option Kernel)
      → ((h : List String) (l : Kernel)
          → Comes i (trying rest h all) l (left all (attempt_locks i rest h l)))
      → Comes i
          (granted F s rest held all k r).0
          (granted F s rest held all k r).1
          (left all (attempted i s held k r (attempt_locks i rest)))
  unfolding granted attempted left
  granted-Comes i s rest held all k none ih = dropping-Comes i held all k
  granted-Comes i s rest held all k (some k') ih =
      granted_as-Comes i s.mode s.path s.key rest held all k k' ih

  -- An attempt comes to an end, and the single steps of a run that nobody disturbs lead to the same.
  pub advances-attempt_locks :
      (i : ℕ) (steps : List LockStep) (held : List String) (all : List LockStep) (k : Kernel)
      → (n : ℕ) × (advances n i (trying steps held all) k ≡ left all (attempt_locks i steps held k))
  unfolding advances advance attempt_locks left
  advances-attempt_locks i [] held all k = (1, refl)
  advances-attempt_locks i (s ∷ rest) held all k =
      let next =
        granted-Comes i s rest held all k (acquire i s.path s.mode k)
          (λ h l. advances-attempt_locks i rest h all l) in
      (suc (next.0), next.1)

-- A run sleeps at most one poll, for some time, and never past its limit; it gives up only once the limit
-- is reached, and says no more than the time it waited. Without a limit it always sleeps for a poll.
-- Polls take some time.
pub next_wait-InTime :
    (poll : ℕ) (w : Wait) (elapsed : ℕ)
    → 1 ≤ poll
    → InTime poll w elapsed (next_wait poll w elapsed)
unfolding next_wait
next_wait-InTime poll wait_forever elapsed h = refl
next_wait-InTime poll (up_to limit) elapsed h = ground arith
