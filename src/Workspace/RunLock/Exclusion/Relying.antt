-- ===== src/Workspace/RunLock/Exclusion/Relying.antt =====
-- A run goes on relying only on locks it has.
use nix_repo_base.Base.{
  ℕ, String, ◌≡◌, refl, ap, true, false, Option, none, some, List, [], ◌∷◌, mem, mem-append, str_eq,
  eq_iff, arith,
}
use nix_repo_base.Workspace.RunLock.{
  LockMode, exclusive, probe, LockStep, Flock, Phase, outside, trying, probed, dropping, waiting,
  holding, releasing, Choice, begin, go_on, stop, die, granted, granted_as, advance, halt,
  lock_step,
}
use nix_repo_base.Workspace.RunLock.Exclusion.{Apart, ApartAs, WellPlanned, Locked, Relies}

module _ (F : Flock) where
  open F use {Kernel, holds, acquire, release}

  granted_as-Relies :
      (i : ℕ) (m : LockMode) (p : String) (rest : List LockStep) (held : List String)
      (all : List LockStep) (k k' : Kernel)
      → acquire i p m k ≡ some k'
      → Locked F k i held
      → ApartAs m p held (Apart rest)
      → Apart all []
      → Relies F k' i (granted_as m p rest held all)
  unfolding mem
  granted_as-Relies i probe p rest held all k k' got locked apart whole = (
    λ q h. ground (
      arith,
      F.acquire_holds i p probe k k' got i q,
      locked q h,
      apart.0,
      λ (same : str_eq p q ≡ true). ap (λ x. mem x held) ((eq_iff p q).0 same),
    ),
    apart.0,
    apart.1,
    whole,
  )
  granted_as-Relies i exclusive p rest held all k k' got locked apart whole = (
    λ q h.
        ground
          (arith, F.acquire_holds i p exclusive k k' got i q, locked q, mem-append q held (p ∷ [])),
    apart,
    whole,
  )

  granted-Relies :
      (i : ℕ) (s : LockStep) (rest : List LockStep) (held : List String) (all : List LockStep)
      (k : Kernel) (r : Option Kernel)
      → acquire i s.path s.mode k ≡ r
      → Locked F k i held
      → Apart (s ∷ rest) held
      → Apart all []
      → Relies F (granted F s rest held all k r).1 i (granted F s rest held all k r).0
  unfolding granted
  granted-Relies i s rest held all k none got locked apart whole = whole
  granted-Relies i s rest held all k (some k') got locked apart whole =
      granted_as-Relies i s.mode s.path rest held all k k' got locked apart whole

  advance-Relies :
      (i : ℕ) (f : Phase) (k : Kernel)
      → Relies F k i f
      → Relies F (advance F i f k).1 i (advance F i f k).0
  unfolding advance mem
  advance-Relies i outside k v = tt
  advance-Relies i (trying [] held all) k v = v.0
  advance-Relies i (trying (s ∷ rest) held all) k v =
      granted-Relies i s rest held all k (acquire i s.path s.mode k) refl v.0 v.1 v.2
  advance-Relies i (probed p rest held all) k v = (
    λ q h. ground (
      arith,
      F.release_holds i p k i q,
      v.0 q h,
      v.1,
      λ (same : str_eq p q ≡ true). ap (λ x. mem x held) ((eq_iff p q).0 same),
    ),
    v.2,
    v.3,
  )
  advance-Relies i (dropping [] true all) k v = v
  advance-Relies i (dropping [] false all) k v = tt
  advance-Relies i (dropping (p ∷ held) retry all) k v = v
  advance-Relies i (waiting all) k v = (λ q h. cc, v, v)
  advance-Relies i (holding held) k v = v
  advance-Relies i (releasing []) k v = tt
  advance-Relies i (releasing (p ∷ held)) k v = tt

  pub lock_step-Relies :
      (i : ℕ) (c : Choice) (f : Phase) (k : Kernel)
      → WellPlanned ((i, c) ∷ [])
      → Relies F k i f
      → Relies F (lock_step F i c f k).1 i (lock_step F i c f k).0
  unfolding lock_step halt mem
  lock_step-Relies i (begin steps) outside k plan v = (λ q h. cc, plan.0, plan.0)
  lock_step-Relies i (begin steps) _ k plan v = v
  lock_step-Relies i go_on f k plan v = advance-Relies i f k v
  lock_step-Relies i stop (trying rest held all) k plan v = v.2
  lock_step-Relies i stop (waiting all) k plan v = tt
  lock_step-Relies i stop (holding held) k plan v = tt
  lock_step-Relies i stop _ k plan v = v
  lock_step-Relies i die f k plan v = tt
