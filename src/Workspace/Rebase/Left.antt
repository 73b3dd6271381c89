-- ===== src/Workspace/Rebase/Left.antt =====
-- What Rebase leaves of each clone, on each path.
use mathlib.Core.Path.{subst}
use nix_repo_base.Base.{
  String, ◌≡◌, refl, ap, sym, ◌∙◌, Bool, true, false, not, ◌&&◌, Option, none, some, List, [], ◌∷◌,
  All, mem, str_eq, if◌then◌else◌, arith, eq_iff, eq_refl, Bool-cases, ◌⊎◌, inl, inr,
}
use nix_repo_base.Workspace.Rebase.{
  Clone, Sync, not_started, synced, refused, conflicted, Answers, RebaseError, interrupted,
  sync_failed, still_rebasing, is_rebasing, refuse, roll_back, after_failure, after_sync,
  sync_default, rebase_repo, Clones, set_clone, go_on_unless, rebase_all,
}

-- A clone after each outcome. Unless the run was cancelled, or git did not say whether a rebase is in
-- progress, an error leaves it as it was, or in the middle of a rebase from the old head that could not
-- be aborted.
abbrev pub Left : Answers → Clone → Option RebaseError × Clone → Type 0
Left a c (none, c') = c'.rebase ≡ c.rebase
Left a c (some interrupted, c') = a.cancelled ≡ true
Left a c (some sync_failed, c') = (a.probes_after ≡ true) → c' ≡ c
Left a c (some still_rebasing, c') =
    (a.aborts ≡ false) × (c.rebase ≡ none) × (c'.rebase ≡ some c.head)
Left a c (some _, c') = c' ≡ c

-- No rebase is in progress, or git can say so.
abbrev pub IsKnown : Answers → Clone → Type 0
IsKnown a c = (c.rebase ≡ none) ⊎ (a.probes_before ≡ true)

failing {ℓ κ} :
    {A : Type ℓ} (P : A → Type κ) (b c d : Bool) (x y z w : A)
    → (b ≡ true → P x)
    → (c ≡ false → P y)
    → (c ≡ true → P z)
    → (c ≡ true → d ≡ false → P w)
    → P (if b then x else if not c then y else if d then z else w)
failing P true c d x y z w p q r s = p refl
failing P false false d x y z w p q r s = q refl
failing P false true true x y z w p q r s = r refl
failing P false true false x y z w p q r s = s refl refl

at_rest : (c : Clone) → c.rebase ≡ none → is_rebasing c ≡ false
at_rest c free = rw free refl

after_conflict-Left :
    (a : Answers) (c : Clone) (h : String)
    → c.rebase ≡ none
    → Left a c (after_failure a (record { head = h; rebase = some c.head }))
unfolding after_failure roll_back
after_conflict-Left a c h free =
    failing (Left a c) a.cancelled (a.probes_after && true) a.aborts _ _ _ _ (λ k. k)
      (λ unknown known. ground (arith, unknown, known))
      (λ known. ap (λ r. record { head = c.head; rebase = r }) (sym free))
      (λ known stuck. (stuck, free, refl))

after_sync-Left :
    (a : Answers) (c : Clone) (s : Sync) → c.rebase ≡ none → Left a c (after_sync a c s)
unfolding after_sync after_failure
after_sync-Left a c not_started free = refl
after_sync-Left a c (synced h) free = refl
after_sync-Left a c refused free =
    failing (Left a c) a.cancelled (a.probes_after && is_rebasing c) a.aborts _ _ _ _ (λ k. k)
      (λ unknown known. refl) (λ known. ground (arith, known, at_rest c free))
      (λ known stuck. ground (arith, known, at_rest c free))
after_sync-Left a c (conflicted h) free = after_conflict-Left a c h free

gated {ℓ κ} :
    {A : Type ℓ} (P : A → Type κ) (b : Bool) (x y : A)
    → (b ≡ true → P x)
    → (b ≡ false → P y)
    → P (if b then x else y)
gated P true x y p q = p refl
gated P false x y p q = q refl

begun-Left :
    (a : Answers) (c : Clone) (o : Option String)
    → c.rebase ≡ o
    → IsKnown a c
    → (a.probes_before && is_rebasing c) ≡ false
    → Left a c (after_sync a c (refuse c.rebase a.sync))
begun-Left a c none free known quiet =
    subst (λ r. Left a c (after_sync a c (refuse r a.sync))) (sym free)
      (after_sync-Left a c a.sync free)
begun-Left a c (some h) busy (inl free) quiet = ground (arith, busy, free)
begun-Left a c (some h) busy (inr probes) quiet =
    let going : is_rebasing c ≡ true = rw busy refl in ground (arith, going, probes, quiet)

sync_default-Left : (a : Answers) (c : Clone) → IsKnown a c → Left a c (sync_default a c)
unfolding sync_default
sync_default-Left a c known =
    gated (Left a c) (a.probes_before && is_rebasing c) _ _ (λ busy. refl)
      (λ quiet. begun-Left a c c.rebase refl known quiet)

rebase_repo-Left : (a : Answers) (c : Clone) → IsKnown a c → Left a c (rebase_repo a c)
unfolding rebase_repo
rebase_repo-Left a c known =
    gated (Left a c) (not a.has_upstream) _ _ (λ k. refl)
      (λ k.
        gated (Left a c) (not a.opens) _ _ (λ l. refl)
          (λ l.
            gated (Left a c) (not a.fetches) _ _ (λ m. refl) (λ m. sync_default-Left a c known)))

-- What a visit leaves; a rebase that was in progress is not touched.
abbrev pub Treated : Answers → Clone → Option RebaseError × Clone → Type 0
Treated a c p = Left a c p × ((c.rebase ≡ none) ⊎ (p.1 ≡ c))

busy_kept :
    (a : Answers) (c : Clone) (h : String)
    → c.rebase ≡ some h
    → IsKnown a c
    → (rebase_repo a c).1 ≡ c
unfolding rebase_repo sync_default
busy_kept a c h busy (inl free) = ground (arith, busy, free)
busy_kept a c h busy (inr probes) =
    let going : is_rebasing c ≡ true = rw busy refl in
    let same : Option RebaseError × Clone → Type 0 = λ p. p.1 ≡ c in
    gated same (not a.has_upstream) _ _ (λ k. refl)
      (λ k.
        gated same (not a.opens) _ _ (λ l. refl)
          (λ l.
            gated same (not a.fetches) _ _ (λ m. refl)
              (λ m.
                gated same (a.probes_before && is_rebasing c) _ _ (λ n. refl)
                  (λ quiet. ground (arith, going, probes, quiet)))))

either_way :
    (a : Answers) (c : Clone) (o : Option String)
    → c.rebase ≡ o
    → IsKnown a c
    → (c.rebase ≡ none) ⊎ ((rebase_repo a c).1 ≡ c)
either_way a c none free known = inl free
either_way a c (some h) busy known = inr (busy_kept a c h busy known)

rebase_repo-Treated : (a : Answers) (c : Clone) → IsKnown a c → Treated a c (rebase_repo a c)
rebase_repo-Treated a c known = (rebase_repo-Left a c known, either_way a c c.rebase refl known)

set_here : (name : String) (c : Clone) (w : Clones) → set_clone name c w name ≡ c
set_here name c w = rw (eq_refl name) refl

set_apart :
    (name k : String) (c : Clone) (w : Clones) → str_eq name k ≡ false → set_clone name c w k ≡ w k
set_apart name k c w h = rw h refl

module _ (answers : String → Answers) where
  -- A clone that the walk has not come to is as before; another one has had its outcome, which is the
  -- error of the walk unless it is none.
  abbrev pub IsWalked : Clones → Option RebaseError × Clones → String → Type 0
  IsWalked w (e, w') k =
      (w' k ≡ w k)
      ⊎ ((x : Option RebaseError) × Treated (answers k) (w k) (x, w' k) × ((x ≡ none) ⊎ (x ≡ e)))

  went_on :
      (name : String) (names : List String) (w : Clones) (e : Option RebaseError) (c : Clone)
      → mem name names ≡ false
      → Treated (answers name) (w name) (e, c)
      → ((k : String)
          → (mem k names ≡ false)
          → (rebase_all answers names (set_clone name c w)).1 k ≡ set_clone name c w k)
      → ((k : String)
          → IsWalked (set_clone name c w) (rebase_all answers names (set_clone name c w)) k)
      → (k : String) → IsWalked w (go_on_unless e (rebase_all answers names) (set_clone name c w)) k
  unfolding go_on_unless
  went_on name names w none c once mine apart rest k = elim (Bool-cases (str_eq name k)) [
    | inl same ↦
        let at : (rebase_all answers names (set_clone name c w)).1 name ≡ c =
          apart name once ∙ set_here name c w in
        subst (IsWalked w (rebase_all answers names (set_clone name c w))) ((eq_iff name k).0 same)
          (inr
            (none, subst (λ x. Treated (answers name) (w name) (none, x)) (sym at) mine, inl refl))
    | inr other ↦
        subst
          (λ x.
            ((rebase_all answers names (set_clone name c w)).1 k ≡ x)
            ⊎ ((y : Option RebaseError) × Treated (answers k) x
                  (y, (rebase_all answers names (set_clone name c w)).1 k)
                × ((y ≡ none) ⊎ (y ≡ (rebase_all answers names (set_clone name c w)).0))))
          (set_apart name k c w other) (rest k)
  ]
  went_on name names w (some e) c once mine apart rest k = elim (Bool-cases (str_eq name k)) [
    | inl same ↦ subst (IsWalked w (some e, set_clone name c w)) ((eq_iff name k).0 same) (
        inr (
          some e,
          subst (λ x. Treated (answers name) (w name) (some e, x)) (sym (set_here name c w)) mine,
          inr refl,
        ))
    | inr other ↦ inl (set_apart name k c w other)
  ]

  went_apart :
      (e : Option RebaseError) (next : Clones → Option RebaseError × Clones) (u w : Clones)
      (k : String)
      → ((next u).1 k ≡ w k)
      → (u k ≡ w k)
      → (go_on_unless e next u).1 k ≡ w k
  unfolding go_on_unless
  went_apart none next u w k h l = h
  went_apart (some e) next u w k h l = l

  rebase_all-apart :
      (names : List String) (w : Clones) (k : String)
      → mem k names ≡ false
      → (rebase_all answers names w).1 k ≡ w k
  unfolding rebase_all mem
  rebase_all-apart [] w k h = refl
  rebase_all-apart (name ∷ names) w k h =
      let u : Clones = set_clone name (rebase_repo (answers name) (w name)).1 w in
      let here : u k ≡ w k =
        set_apart name k (rebase_repo (answers name) (w name)).1 w (ground (arith, h)) in
      went_apart (rebase_repo (answers name) (w name)).0 (rebase_all answers names) u w k
        (rebase_all-apart names u k (ground (arith, h)) ∙ here) here

  -- Each name comes once.
  abbrev pub IsOnce : List String → Type 0
  IsOnce [] = Unit
  IsOnce (name ∷ names) = (mem name names ≡ false) × IsOnce names

  still-IsKnown :
      (name : String) (names : List String) (w : Clones) (c : Clone)
      → mem name names ≡ false
      → All (λ n. IsKnown (answers n) (w n)) names
      → All (λ n. IsKnown (answers n) (set_clone name c w n)) names
  unfolding mem
  still-IsKnown name [] w c h v = tt
  still-IsKnown name (n ∷ names) w c h v = (
    subst (IsKnown (answers n))
        (sym (set_apart name n c w (ground (arith, h, eq_iff name n, eq_iff n name)))) v.0,
    still-IsKnown name names w c (ground (arith, h)) v.1,
  )

  -- Where each repository comes once, and git can say of each one with a rebase in progress that it is:
  -- whatever fails, a walk of Rebase leaves every repository as it was, or with the outcome of one visit,
  -- which is the error returned unless it is none; after a visit with an error the repository is as it
  -- was too, with these exceptions: the run was cancelled; git could not tell the state after the
  -- failure; or the abort failed, which the error says. A rebase that was in progress before is never
  -- touched.
  pub rebase_all-IsWalked :
      (names : List String) (w : Clones)
      → IsOnce names
      → All (λ n. IsKnown (answers n) (w n)) names
      → (k : String) → IsWalked w (rebase_all answers names w) k
  unfolding rebase_all
  rebase_all-IsWalked [] w once known k = inl refl
  rebase_all-IsWalked (name ∷ names) w once known k =
      let r = rebase_repo (answers name) (w name) in
      went_on name names w r.0 r.1 once.0 (rebase_repo-Treated (answers name) (w name) known.0)
        (λ j h. rebase_all-apart names (set_clone name r.1 w) j h)
        (λ j.
          rebase_all-IsWalked names (set_clone name r.1 w) once.1
            (still-IsKnown name names w r.1 once.0 known.1) j)
        k
