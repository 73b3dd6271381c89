-- ===== src/Workspace/RunLock/Exclusion/Moves.antt =====
-- What a step of one run does to the locks of the others.
use nix_repo_base.Base.{
  ℕ, String, ◌≡◌, refl, ap, sym, ◌∙◌, true, false, Option, none, some, List, [], ◌∷◌, str_eq,
  eq_iff, arith, Bool-cases, inl, inr,
}
use nix_repo_base.Workspace.RunLock.{
  LockMode, LockStep, Flock, Phase, outside, trying, probed, dropping, waiting, holding, releasing,
  Choice, begin, go_on, stop, die, granted, release_all, held_by, advance, lock_step,
}
use nix_repo_base.Workspace.RunLock.Exclusion.{Moved}

module _ (F : Flock) where
  open F use {Kernel, holds, acquire, release}

  pub self-Moved : (i : ℕ) (k : Kernel) → Moved F i k k
  self-Moved i k = record {
    frame = λ j q e. refl;
    gains = λ j q e h. inl h;
    yields = λ j q e h n. n;
  }

  pub release-Moved : (i : ℕ) (p : String) (k : Kernel) → Moved F i k (release i p k)
  release-Moved i p k = record {
    frame = λ j q e. ground (arith, F.release_holds i p k j q);
    gains = λ j q e h. ground (arith, F.release_holds i p k i q);
    yields = λ j q e h n. ground (arith, F.release_holds i p k i q);
  }

  pub acquire-Moved :
      (i : ℕ) (p : String) (m : LockMode) (k k' : Kernel)
      → acquire i p m k ≡ some k'
      → Moved F i k k'
  acquire-Moved i p m k k' got = record {
    frame = λ j q e. ground (arith, F.acquire_holds i p m k k' got j q);
    gains = λ j q e h. elim (Bool-cases (str_eq p q)) [
      | inl same ↦ inr (
          ground (
            arith,
            F.acquire_holds i p m k k' got i q,
            F.acquire_free i p m k k' got j e,
            ap (holds k j) ((eq_iff p q).0 same),
          ))
      | inr apart ↦ inl (ground (arith, F.acquire_holds i p m k k' got i q))
    ];
    yields = λ j q e h n. ground (
      arith,
      F.acquire_holds i p m k k' got i q,
      F.acquire_free i p m k k' got j e,
      λ (same : str_eq p q ≡ true). ap (holds k j) ((eq_iff p q).0 same),
    );
  }

  pub Moved-trans :
      (i : ℕ) (k k' k'' : Kernel) → Moved F i k k' → Moved F i k' k'' → Moved F i k k''
  Moved-trans i k k' k'' a b = record {
    frame = λ j q e. b.frame j q e ∙ a.frame j q e;
    gains = λ j q e h. elim (b.gains j q e h) [
      | inl had ↦ a.gains j q e had
      | inr free ↦ inr (sym (a.frame j q e) ∙ free)
    ];
    yields = λ j q e h n. b.yields j q e (a.frame j q e ∙ h) (a.yields j q e h n);
  }

  granted-Moved :
      (i : ℕ) (s : LockStep) (rest : List LockStep) (held : List String) (all : List LockStep)
      (k : Kernel) (r : Option Kernel)
      → acquire i s.path s.mode k ≡ r
      → Moved F i k (granted F s rest held all k r).1
  unfolding granted
  granted-Moved i s rest held all k none got = self-Moved i k
  granted-Moved i s rest held all k (some k') got = acquire-Moved i s.path s.mode k k' got

  pub release_all-Moved :
      (i : ℕ) (ps : List String) (k : Kernel) → Moved F i k (release_all F i ps k)
  unfolding release_all
  release_all-Moved i [] k = self-Moved i k
  release_all-Moved i (p ∷ ps) k =
      Moved-trans i k (release i p k) (release_all F i ps (release i p k)) (release-Moved i p k)
        (release_all-Moved i ps (release i p k))

  advance-Moved : (i : ℕ) (f : Phase) (k : Kernel) → Moved F i k (advance F i f k).1
  unfolding advance
  advance-Moved i outside k = self-Moved i k
  advance-Moved i (trying [] held all) k = self-Moved i k
  advance-Moved i (trying (s ∷ rest) held all) k =
      granted-Moved i s rest held all k (acquire i s.path s.mode k) refl
  advance-Moved i (probed p rest held all) k = release-Moved i p k
  advance-Moved i (dropping [] true all) k = self-Moved i k
  advance-Moved i (dropping [] false all) k = self-Moved i k
  advance-Moved i (dropping (p ∷ held) retry all) k = release-Moved i p k
  advance-Moved i (waiting all) k = self-Moved i k
  advance-Moved i (holding held) k = self-Moved i k
  advance-Moved i (releasing []) k = self-Moved i k
  advance-Moved i (releasing (p ∷ held)) k = release-Moved i p k

  pub lock_step-Moved :
      (i : ℕ) (c : Choice) (f : Phase) (k : Kernel) → Moved F i k (lock_step F i c f k).1
  unfolding lock_step
  lock_step-Moved i (begin steps) outside k = self-Moved i k
  lock_step-Moved i (begin steps) _ k = self-Moved i k
  lock_step-Moved i go_on f k = advance-Moved i f k
  lock_step-Moved i stop f k = self-Moved i k
  lock_step-Moved i die f k = release_all-Moved i (held_by f) k
