-- ===== src/Workspace/RunLock/Exclusion.antt =====
-- Runs that hold locks: who holds what, at any time.
pub mod Moves
pub mod Relying
pub mod Holding
pub mod Schedule
use nix_repo_base.Base.{
  ℕ, ◌+◌, String, ◌≡◌, refl, ap, sym, ◌∙◌, Bool, true, false, not, ◌&&◌, ◌||◌, Option, none, some,
  List, [], ◌∷◌, ◌++◌, mem, mem-append, ◌==◌, if◌then◌else◌, str_eq, eq_iff, eq_refl, arith,
  Bool-cases, ◌⊎◌, inl, inr,
}
use nix_repo_base.Workspace.RunLock.{
  LockMode, exclusive, probe, LockStep, conflicts, Flock, Phase, outside, trying, probed, dropping,
  waiting, holding, releasing, Choice, begin, go_on, stop, die, granted, granted_as, release_all,
  held_by, advance, halt, lock_step, Machine, quiet, step_at, run_schedule,
}

abbrev pub ApartAs : LockMode → String → List String → (List String → Type 0) → Type 0
ApartAs probe p held Next = (mem p held ≡ false) × Next held
ApartAs exclusive p held Next = Next (held ++ p ∷ [])

-- No step probes a file that a step before it locks.
abbrev pub Apart : List LockStep → List String → Type 0
Apart [] held = Unit
Apart (s ∷ rest) held = ApartAs s.mode s.path held (Apart rest)

-- Each run begins with such steps.
abbrev pub WellPlanned : List (ℕ × Choice) → Type 0
WellPlanned [] = Unit
WellPlanned ((i, begin steps) ∷ cs) = Apart steps [] × WellPlanned cs
WellPlanned ((i, c) ∷ cs) = WellPlanned cs

module _ (F : Flock) where
  open F use {Kernel, holds, acquire, release}

  -- The files with an exclusive lock, where a run still relies on them.
  abbrev Locked : Kernel → ℕ → List String → Type 0
  Locked k i held = (q : String) → mem q held ≡ true → holds k i q ≡ some exclusive

  abbrev Relies : Kernel → ℕ → Phase → Type 0
  Relies k i outside = Unit
  Relies k i (trying rest held all) = Locked k i held × Apart rest held × Apart all []
  Relies k i (probed p rest held all) =
      Locked k i held × (mem p held ≡ false) × Apart rest held × Apart all []
  Relies k i (dropping held retry all) = Apart all []
  Relies k i (waiting all) = Apart all []
  Relies k i (holding held) = Locked k i held
  Relies k i (releasing held) = Unit

  -- A run holds nothing but what its phase says.
  abbrev pub Within : Kernel → ℕ → List String → Type 0
  Within k i held = (q : String) → mem q held ≡ false → holds k i q ≡ none

  -- What a process may do to the kernel: it leaves the others' locks alone, gains an exclusive lock only
  -- where no other holds one, and none where another holds an exclusive one.
  pub record Moved (i : ℕ) (k k' : Kernel) : Type 0 where
    pub frame : (j : ℕ) (q : String) → i == j ≡ false → holds k' j q ≡ holds k j q
    gains :
        (j : ℕ) (q : String)
        → i == j ≡ false
        → holds k' i q ≡ some exclusive
        → (holds k i q ≡ some exclusive) ⊎ (holds k j q ≡ none)
    yields :
        (j : ℕ) (q : String)
        → i == j ≡ false
        → holds k j q ≡ some exclusive
        → holds k i q ≡ none
        → holds k' i q ≡ none
