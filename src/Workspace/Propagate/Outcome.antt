-- ===== src/Workspace/Propagate/Outcome.antt =====
-- What propagateWorkspaceEdges leaves of a clean repository, on each of its paths.
use nix_repo_base.Base.{
  String, ◌≡◌, ◌≢◌, refl, ap, sym, ◌∙◌, Bool, true, false, not, ◌&&◌, Option, none, some, List, [],
  ◌∷◌, if◌then◌else◌, arith,
}
use nix_repo_base.Base.Bytes.{Bytes, bytes_eq, bytes_eq_sound}
use nix_repo_base.Workspace.Propagate.{
  FlakeLock, Tree, Results, NixRun, relocked_to, failed_with, read_before, nix_update, commit,
  Propagated, aborted, no_change, bumped, commit_bump, settle_changed, moved_aliases, compare_revs,
  after_nix, relock, propagate_workspace_edges,
}

-- Index and working tree are as committed.
abbrev pub IsClean : Tree → Type 0
IsClean t = (t.index ≡ t.head) × (t.work ≡ t.head)

pub either {ℓ κ} :
    {A : Type ℓ} (P : A → Type κ) (b : Bool) (x y : A) → P x → P y → P (if b then x else y)
either P true x y p q = p
either P false x y p q = q

pub unless {ℓ κ} :
    {A : Type ℓ} (P : A → Type κ) (a b : Bool) (x y : A)
    → (b ≡ true → P x)
    → P y
    → P (if a && b then x else y)
unless P true true x y p q = p refl
unless P true false x y p q = q
unless P false b x y p q = q

pub pick {ℓ κ} :
    {A : Type ℓ} (P : A → Type κ) (b c d : Bool) (x y z w : A)
    → P x
    → P y
    → P z
    → P w
    → P (if not b then x else if c then y else if d then z else w)
pick P false c d x y z w p q r s = p
pick P true true d x y z w p q r s = q
pick P true false true x y z w p q r s = r
pick P true false false x y z w p q r s = s

module _ (parse : Bytes → Option FlakeLock) (results : Results) where
  -- Some of the aliases have moved, and these are the ones that are named.
  abbrev pub HasMoved : List String → List String → Bytes → Bytes → Type 0
  HasMoved aliases changed old new =
      (before : FlakeLock) × (after : FlakeLock) × (parse old ≡ some before)
      × (parse new ≡ some after)
      × (changed ≡ moved_aliases before after aliases)
      × (changed ≢ [])

module _ (parse : Bytes → Option FlakeLock) (results : Results) (nix : NixRun) where
  -- After each result. An error from the commit leaves no trace, one from nix just the lock that nix has
  -- left; one that comes between the relock and the commit leaves the head alone.
  abbrev pub Outcome : List String → Tree → Propagated × Tree → Type 0
  Outcome aliases t (no_change, t') = t' ≡ t
  Outcome aliases t (bumped changed, t') =
      IsClean t'
      × (t'.head_rev ≡ results.commit_rev)
      × HasMoved parse results aliases changed t.head t'.head
  Outcome aliases t (aborted read_before, t') = t' ≡ t
  Outcome aliases t (aborted nix_update, t') =
      (left : Bytes) × (nix ≡ failed_with left) × (t' ≡ record t { work = left })
  Outcome aliases t (aborted commit, t') = t' ≡ t
  Outcome aliases t (aborted _, t') = (t'.head ≡ t.head) × (t'.head_rev ≡ t.head_rev)

  written : Tree → Bytes → Tree
  written t new = record t { work = new }

  rolled_back : (t : Tree) → IsClean t → Path Tree (record t { index = t.head; work = t.head }) t
  rolled_back t v =
      ap (λ i. record t { index = i; work = t.head }) (sym v.0)
      ∙ ap (λ w. record t { work = w }) (sym v.1)

  work_is : (t : Tree) (new : Bytes) → new ≡ t.work → Path Tree (record t { work = new }) t
  work_is t new e = ap (λ w. record t { work = w }) e

  commit_bump-Outcome :
      (aliases changed : List String) (t : Tree) (new : Bytes)
      → IsClean t
      → HasMoved parse results aliases changed t.head new
      → Outcome aliases t (commit_bump parse results changed (record t { work = new }))
  unfolding commit_bump
  commit_bump-Outcome aliases changed t new v moved =
      pick (Outcome aliases t) (results.opens && results.adds)
        (results.commit_starts && results.commit_ends) results.resets _ _ _ _ (refl, refl)
        ((refl, refl), refl, moved) (rolled_back t v) (refl, refl)

  settle_changed-Outcome :
      (aliases changed : List String) (t : Tree) (new : Bytes)
      → IsClean t
      → (changed ≢ [] → HasMoved parse results aliases changed t.head new)
      → Outcome aliases t (settle_changed parse results changed (record t { work = new }))
  unfolding settle_changed
  settle_changed-Outcome aliases [] t new v moved =
      either (Outcome aliases t) (results.opens && results.restores) _ _
        (work_is t t.index (v.0 ∙ sym v.1)) (refl, refl)
  settle_changed-Outcome aliases (a ∷ more) t new v moved =
      commit_bump-Outcome aliases (a ∷ more) t new v (moved (λ e. ground (arith, e)))

  compare_revs-Outcome :
      (aliases : List String) (before : FlakeLock) (t : Tree) (new : Bytes) (r : Option FlakeLock)
      → IsClean t
      → parse t.head ≡ some before
      → parse new ≡ r
      → Outcome aliases t (compare_revs parse results aliases before (record t { work = new }) r)
  unfolding compare_revs
  compare_revs-Outcome aliases before t new none v h l = (refl, refl)
  compare_revs-Outcome aliases before t new (some after) v h l =
      settle_changed-Outcome aliases (moved_aliases before after aliases) t new v
        (λ ne. (before, after, h, l, refl, ne))

  after_nix-Outcome :
      (aliases : List String) (before : FlakeLock) (t : Tree) (r : NixRun)
      → nix ≡ r
      → IsClean t
      → parse t.head ≡ some before
      → Outcome aliases t (after_nix parse results aliases before t r)
  unfolding after_nix
  after_nix-Outcome aliases before t (failed_with left) ended v h = (left, ended, refl)
  after_nix-Outcome aliases before t (relocked_to new) ended v h =
      unless (Outcome aliases t) (results.diffs) (bytes_eq new t.index) _ _
        (λ same. work_is t new (bytes_eq_sound new t.index same ∙ v.0 ∙ sym v.1))
        (compare_revs-Outcome aliases before t new (parse new) v h refl)

  relock-Outcome :
      (aliases : List String) (t : Tree) (r : Option FlakeLock)
      → IsClean t
      → parse t.head ≡ r
      → Outcome aliases t (relock parse results aliases t nix r)
  unfolding relock
  relock-Outcome aliases t none v h = refl
  relock-Outcome aliases t (some before) v h = after_nix-Outcome aliases before t nix refl v h

  -- On a clean repository: where nothing has changed, or a lock cannot be read before, or the commit
  -- fails and is rolled back, the repository is as before; where nix fails, only the lock in the working
  -- tree may differ, which is as nix left it; where aliases are reported as bumped, the repository is
  -- clean, at a new commit whose lock has other revs for exactly these aliases, of which there is at
  -- least one; after the other errors no commit has been made.
  pub propagate_workspace_edges-Outcome :
      (aliases : List String) (t : Tree)
      → IsClean t
      → Outcome aliases t (propagate_workspace_edges parse results aliases nix t)
  unfolding propagate_workspace_edges
  propagate_workspace_edges-Outcome [] t v = refl
  propagate_workspace_edges-Outcome (a ∷ more) t v =
      either (Outcome (a ∷ more) t) t.has_lock _ _
        (relock-Outcome (a ∷ more) t (parse t.work) v (ap parse (sym v.1))) refl
