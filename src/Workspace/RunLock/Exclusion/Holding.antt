-- ===== src/Workspace/RunLock/Exclusion/Holding.antt =====
-- A run holds no lock but those of its phase.
use nix_repo_base.Base.{
  ℕ, String, ◌≡◌, refl, true, false, Option, none, some, List, [], ◌∷◌, mem, mem-append, arith,
}
use nix_repo_base.Workspace.RunLock.{
  LockMode, exclusive, probe, LockStep, Flock, Phase, outside, trying, probed, dropping, waiting,
  holding, releasing, Choice, begin, go_on, stop, die, granted, granted_as, release_all, held_by,
  advance, halt, lock_step,
}
use nix_repo_base.Workspace.RunLock.Exclusion.{Within}

module _ (F : Flock) where
  open F use {Kernel, holds, acquire, release}

  granted_as-Within :
      (i : ℕ) (m : LockMode) (p : String) (rest : List LockStep) (held : List String)
      (all : List LockStep) (k k' : Kernel)
      → acquire i p m k ≡ some k'
      → Within F k i held
      → Within F k' i (held_by (granted_as m p rest held all))
  unfolding mem
  granted_as-Within i probe p rest held all k k' got v q h =
      ground (arith, F.acquire_holds i p probe k k' got i q, v q)
  granted_as-Within i exclusive p rest held all k k' got v q h =
      ground (arith, F.acquire_holds i p exclusive k k' got i q, v q, mem-append q held (p ∷ []))

  granted-Within :
      (i : ℕ) (s : LockStep) (rest : List LockStep) (held : List String) (all : List LockStep)
      (k : Kernel) (r : Option Kernel)
      → acquire i s.path s.mode k ≡ r
      → Within F k i held
      → Within F (granted F s rest held all k r).1 i (held_by (granted F s rest held all k r).0)
  unfolding granted
  granted-Within i s rest held all k none got v = v
  granted-Within i s rest held all k (some k') got v =
      granted_as-Within i s.mode s.path rest held all k k' got v

  release-Within :
      (i : ℕ) (p : String) (held : List String) (k : Kernel)
      → Within F k i (p ∷ held)
      → Within F (release i p k) i held
  unfolding mem
  release-Within i p held k v q h = ground (arith, F.release_holds i p k i q, v q)

  pub release_all-Within :
      (i : ℕ) (held : List String) (k : Kernel)
      → Within F k i held
      → Within F (release_all F i held k) i []
  unfolding release_all
  release_all-Within i [] k v = v
  release_all-Within i (p ∷ held) k v =
      release_all-Within i held (release i p k) (release-Within i p held k v)

  advance-Within :
      (i : ℕ) (f : Phase) (k : Kernel)
      → Within F k i (held_by f)
      → Within F (advance F i f k).1 i (held_by (advance F i f k).0)
  unfolding advance
  advance-Within i outside k v = v
  advance-Within i (trying [] held all) k v = v
  advance-Within i (trying (s ∷ rest) held all) k v =
      granted-Within i s rest held all k (acquire i s.path s.mode k) refl v
  advance-Within i (probed p rest held all) k v = release-Within i p held k v
  advance-Within i (dropping [] true all) k v = v
  advance-Within i (dropping [] false all) k v = v
  advance-Within i (dropping (p ∷ held) retry all) k v = release-Within i p held k v
  advance-Within i (waiting all) k v = v
  advance-Within i (holding held) k v = v
  advance-Within i (releasing []) k v = v
  advance-Within i (releasing (p ∷ held)) k v = release-Within i p held k v

  pub lock_step-Within :
      (i : ℕ) (c : Choice) (f : Phase) (k : Kernel)
      → Within F k i (held_by f)
      → Within F (lock_step F i c f k).1 i (held_by (lock_step F i c f k).0)
  unfolding lock_step halt
  lock_step-Within i (begin steps) outside k v = v
  lock_step-Within i (begin steps) _ k v = v
  lock_step-Within i go_on f k v = advance-Within i f k v
  lock_step-Within i stop (trying rest held all) k v = v
  lock_step-Within i stop (waiting all) k v = v
  lock_step-Within i stop (holding held) k v = v
  lock_step-Within i stop _ k v = v
  lock_step-Within i die f k v = release_all-Within i (held_by f) k v
