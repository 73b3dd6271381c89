-- ===== src/Workspace/RunLock/Exclusion/Schedule.antt =====
-- Several runs at once, in any order of their steps: what their phases say of the kernel's locks.
use mathlib.Core.Path.{subst}
use nix_repo_base.Base.{
  ℕ, String, ◌≡◌, refl, ap, sym, ◌∙◌, Bool, true, false, none, some, List, [], ◌∷◌, mem, ◌==◌,
  if◌then◌else◌, arith, Bool-cases, inl, inr,
}
use nix_repo_base.Workspace.RunLock.{
  exclusive, LockStep, Flock, Phase, outside, waiting, trying, probed, dropping, holding, releasing,
  Choice, begin, go_on, stop, die, held_by, lock_step, Machine, quiet, step_at, run_schedule,
}
use nix_repo_base.Workspace.RunLock.Exclusion.{WellPlanned, Locked, Relies, Within, Moved}
use nix_repo_base.Workspace.RunLock.Exclusion.Moves.{lock_step-Moved}
use nix_repo_base.Workspace.RunLock.Exclusion.Relying.{lock_step-Relies}
use nix_repo_base.Workspace.RunLock.Exclusion.Holding.{lock_step-Within}

module _ (F : Flock) where
  open F use {Kernel, holds}

  record IsConsistent (m : Machine F) : Type 0 where
    relies : (i : ℕ) → Relies F m.kernel i (m.phase i)
    within : (i : ℕ) → Within F m.kernel i (held_by (m.phase i))
    alone :
        (i j : ℕ) (q : String)
        → i == j ≡ false
        → holds m.kernel i q ≡ some exclusive
        → holds m.kernel j q ≡ none

  -- What another process does leaves a run's part alone.
  Locked-frame :
      (i j : ℕ) (k k' : Kernel) (held : List String)
      → Moved F i k k'
      → i == j ≡ false
      → Locked F k j held
      → Locked F k' j held
  Locked-frame i j k k' held m e v q h = m.frame j q e ∙ v q h

  Relies-frame :
      (i j : ℕ) (k k' : Kernel) (f : Phase)
      → Moved F i k k'
      → i == j ≡ false
      → Relies F k j f
      → Relies F k' j f
  Relies-frame i j k k' outside m e v = v
  Relies-frame i j k k' (trying rest held all) m e v =
      (Locked-frame i j k k' held m e v.0, v.1, v.2)
  Relies-frame i j k k' (probed p rest held all) m e v =
      (Locked-frame i j k k' held m e v.0, v.1, v.2, v.3)
  Relies-frame i j k k' (dropping held retry all) m e v = v
  Relies-frame i j k k' (waiting all) m e v = v
  Relies-frame i j k k' (holding held) m e v = Locked-frame i j k k' held m e v
  Relies-frame i j k k' (releasing held) m e v = v

  Within-frame :
      (i j : ℕ) (k k' : Kernel) (held : List String)
      → Moved F i k k'
      → i == j ≡ false
      → Within F k j held
      → Within F k' j held
  Within-frame i j k k' held m e v q h = m.frame j q e ∙ v q h

  -- One step of a process, for all of them.
  module _ (i : ℕ) (k k' : Kernel) (f : Phase) (phase : ℕ → Phase) (moved : Moved F i k k')
      (mine : Relies F k' i f) (inside : Within F k' i (held_by f))
      (old : IsConsistent (record { kernel = k; phase = phase })) where
    same : (j : ℕ) → i == j ≡ true → i ≡ j
    same j e = ground arith

    stepped-Relies : (j : ℕ) (b : Bool) → i == j ≡ b → Relies F k' j (if b then f else phase j)
    stepped-Relies j true e = rw (sym (same j e)) mine
    stepped-Relies j false e = Relies-frame i j k k' (phase j) moved e (old.relies j)

    stepped-Within :
        (j : ℕ) (b : Bool) → i == j ≡ b → Within F k' j (held_by (if b then f else phase j))
    stepped-Within j true e = rw (sym (same j e)) inside
    stepped-Within j false e = Within-frame i j k k' (held_by (phase j)) moved e (old.within j)

    gained :
        (j : ℕ) (q : String) → i == j ≡ false → holds k' i q ≡ some exclusive → holds k' j q ≡ none
    gained j q e h = elim (moved.gains j q e h) [
      | inl had ↦ moved.frame j q e ∙ old.alone i j q e had
      | inr free ↦ moved.frame j q e ∙ free
    ]

    lost :
        (j : ℕ) (q : String) → i == j ≡ false → holds k' j q ≡ some exclusive → holds k' i q ≡ none
    lost j q e h =
        moved.yields j q e (sym (moved.frame j q e) ∙ h)
          (old.alone j i q (ground arith) (sym (moved.frame j q e) ∙ h))

    stepped-alone :
        (a b : ℕ) (q : String)
        → a == b ≡ false
        → holds k' a q ≡ some exclusive
        → holds k' b q ≡ none
    stepped-alone a b q e h = elim (Bool-cases (i == a)) [
      | inl here ↦ ground (arith, gained b q, same a here)
      | inr away ↦ elim (Bool-cases (i == b)) [
        | inl here ↦ ground (arith, lost a q, same b here)
        | inr apart ↦ moved.frame b q apart ∙ old.alone a b q e (sym (moved.frame a q away) ∙ h)
      ]
    ]

  step_at-IsConsistent :
      (i : ℕ) (c : Choice) (m : Machine F)
      → WellPlanned ((i, c) ∷ [])
      → IsConsistent m
      → IsConsistent (step_at F i c m)
  unfolding step_at
  step_at-IsConsistent i c m plan old =
      let moved = lock_step-Moved F i c (m.phase i) m.kernel in
      let mine = lock_step-Relies F i c (m.phase i) m.kernel plan (old.relies i) in
      let inside = lock_step-Within F i c (m.phase i) m.kernel (old.within i) in
      let next = lock_step F i c (m.phase i) m.kernel in
      record {
        relies = λ j.
            stepped-Relies i m.kernel next.1 next.0 m.phase moved mine inside old j (i == j) refl;
        within = λ j.
            stepped-Within i m.kernel next.1 next.0 m.phase moved mine inside old j (i == j) refl;
        alone = stepped-alone i m.kernel next.1 next.0 m.phase moved mine inside old;
      }

  plan-head :
      (i : ℕ) (c : Choice) (cs : List (ℕ × Choice))
      → WellPlanned ((i, c) ∷ cs)
      → WellPlanned ((i, c) ∷ []) × WellPlanned cs
  plan-head i (begin steps) cs plan = ((plan.0, tt), plan.1)
  plan-head i go_on cs plan = (tt, plan)
  plan-head i stop cs plan = (tt, plan)
  plan-head i die cs plan = (tt, plan)

  run_schedule-IsConsistent :
      (cs : List (ℕ × Choice)) (m : Machine F)
      → WellPlanned cs
      → IsConsistent m
      → IsConsistent (run_schedule F cs m)
  unfolding run_schedule
  run_schedule-IsConsistent [] m plan old = old
  run_schedule-IsConsistent ((i, c) ∷ cs) m plan old =
      let (head, rest) = plan-head i c cs plan in
      run_schedule-IsConsistent cs (step_at F i c m) rest (step_at-IsConsistent i c m head old)

  quiet-IsConsistent : IsConsistent (quiet F)
  quiet-IsConsistent = record {
    relies = λ i. tt;
    within = λ i q e. F.free_holds i q;
    alone = λ i j q e h. F.free_holds j q;
  }

  reached : (cs : List (ℕ × Choice)) → WellPlanned cs → IsConsistent (run_schedule F cs (quiet F))
  reached cs plan = run_schedule-IsConsistent cs (quiet F) plan quiet-IsConsistent

  holding-Locked :
      (k : Kernel) (i : ℕ) (f : Phase) (held : List String)
      → f ≡ holding held
      → Relies F k i f
      → Locked F k i held
  holding-Locked k i f held e v = subst (λ x. Relies F k i x) e v

  taken :
      (i : ℕ) (mine : List String) (p : String) (m : Machine F)
      → IsConsistent m
      → m.phase i ≡ holding mine
      → mem p mine ≡ true
      → holds m.kernel i p ≡ some exclusive
  taken i mine p m v a h = holding-Locked m.kernel i (m.phase i) mine a (v.relies i) p h

  held_or_not :
      (i : ℕ) (mine : List String) (q : String) (m : Machine F)
      → IsConsistent m
      → m.phase i ≡ holding mine
      → (b : Bool) → mem q mine ≡ b
      → holds m.kernel i q ≡ (if b then some exclusive else none)
  held_or_not i mine q m v past true e = taken i mine q m v past e
  held_or_not i mine q m v past false e = v.within i q (ap (λ f. mem q (held_by f)) past ∙ e)

  together :
      (i j : ℕ) (mine theirs : List String) (p : String) (m : Machine F)
      → IsConsistent m
      → m.phase i ≡ holding mine
      → m.phase j ≡ holding theirs
      → mem p mine ≡ true
      → mem p theirs ≡ true
      → i ≡ j
  together i j mine theirs p m v a b h l = elim (Bool-cases (i == j)) [
    | inl one ↦ ground arith
    | inr apart ↦
        ground (arith, v.alone i j p apart (taken i mine p m v a h), taken j theirs p m v b l)
  ]

  -- Whatever runs begin, go on, stop or die, in any order, each with steps that never probe a file that
  -- the run has locked before: two of them that are past their locks, and have one file in common, are
  -- one and the same.
  pub run_schedule-exclusive :
      (cs : List (ℕ × Choice)) (i j : ℕ) (mine theirs : List String) (p : String)
      → WellPlanned cs
      → (run_schedule F cs (quiet F)).phase i ≡ holding mine
      → (run_schedule F cs (quiet F)).phase j ≡ holding theirs
      → mem p mine ≡ true
      → mem p theirs ≡ true
      → i ≡ j
  run_schedule-exclusive cs i j mine theirs p plan =
      together i j mine theirs p (run_schedule F cs (quiet F)) (reached cs plan)

  -- Whatever runs begin, go on, stop or die, in any order, each with steps that never probe a file that
  -- the run has locked before: in the kernel's table, a run that is past its locks holds an exclusive
  -- lock on the files it counts as held, and none on any other.
  pub run_schedule-holds :
      (cs : List (ℕ × Choice)) (i : ℕ) (mine : List String) (q : String)
      → WellPlanned cs
      → (run_schedule F cs (quiet F)).phase i ≡ holding mine
      → holds (run_schedule F cs (quiet F)).kernel i q
        ≡ (if mem q mine then some exclusive else none)
  run_schedule-holds cs i mine q plan a =
      held_or_not i mine q (run_schedule F cs (quiet F)) (reached cs plan) a (mem q mine) refl

  -- Whatever runs begin, go on, stop or die, in any order, each with steps that never probe a file that
  -- the run has locked before: a run that waits for a busy lock holds no lock at all in the kernel's
  -- table.
  pub run_schedule-waits_empty :
      (cs : List (ℕ × Choice)) (i : ℕ) (all : List LockStep) (q : String)
      → WellPlanned cs
      → (run_schedule F cs (quiet F)).phase i ≡ waiting all
      → holds (run_schedule F cs (quiet F)).kernel i q ≡ none
  unfolding mem
  run_schedule-waits_empty cs i all q plan e =
      (reached cs plan).within i q (ap (λ f. mem q (held_by f)) e)
