-- ===== src/Workspace/Push/Relocks.antt =====
-- relockSiblingsBeforePush and the push of one repository: what they leave of its lock.
use mathlib.Core.Path.{subst}
use nix_repo_base.Base.{
  String, ◌≡◌, refl, ap, sym, ◌∙◌, Bool, true, false, not, ◌&&◌, ◌||◌, Option, none, some, List, [],
  ◌∷◌, keep, map, All, All-map, mem, str_eq, if◌then◌else◌, arith, eq_iff, eq_refl, Bool-cases, inl,
  inr,
}
use nix_repo_base.Base.Bytes.{Bytes, bytes_eq_sound}
use nix_repo_base.Workspace.Config.{LockEdge}
use nix_repo_base.Workspace.Propagate.{
  FlakeLock, Tree, Results, NixRun, relocked_to, failed_with, Propagated, aborted, no_change,
  bumped, relock, propagate_workspace_edges, after_nix,
}
use nix_repo_base.Workspace.Propagate.Outcome.{IsClean}
use nix_repo_base.Workspace.Propagate.Synced.{HasRevs, Synced, relock-Synced}
use nix_repo_base.Workspace.Push.{
  PushOptions, Repo, Visit, PushError, probe_failed, dirty_tree, is_dirty, relocked,
  relock_siblings_before_push, pushed_if, push_to, push_branch, push_repo, after_relock,
}

pub All-zip {ℓ κ λ' μ} :
    {A : Type ℓ} (P : A → Type κ) (Q : A → Type λ') (R : A → Type μ) (xs : List A)
    → ((x : A) → P x → Q x → R x)
    → All P xs
    → All Q xs
    → All R xs
All-zip P Q R [] f p q = tt
All-zip P Q R (x ∷ xs) f p q = (f x p.0 q.0, All-zip P Q R xs f p.1 q.1)

pub All-mem {κ} :
    (P : String → Type κ) (k : String) (xs : List String) → All P xs → mem k xs ≡ true → P k
unfolding mem
All-mem P k [] p h = cc
All-mem P k (x ∷ xs) p h = elim (Bool-cases (str_eq x k)) [
  | inl same ↦ subst P ((eq_iff x k).0 same) p.0
  | inr apart ↦ All-mem P k xs p.1 (ground (arith, h, apart))
]

abbrev pub own_aliases : String → List LockEdge → List String
own_aliases name edges = map (λ e. e.alias) (keep (λ e. str_eq e.consumer name) edges)

pub own_aliases-mem :
    (name : String) (e : LockEdge) (edges : List LockEdge) (k : String)
    → mem k (own_aliases name (e ∷ edges))
      ≡ ((str_eq e.consumer name && str_eq e.alias k) || mem k (own_aliases name edges))
unfolding mem
own_aliases-mem name e edges k = elim (Bool-cases (str_eq e.consumer name)) [
  | inl same ↦ rw same refl
  | inr apart ↦ rw apart refl
]

-- The alias of each edge of a consumer is among its aliases.
pub aliases_mem :
    (name : String) (edges : List LockEdge)
    → All (λ e. str_eq e.consumer name ≡ true → mem e.alias (own_aliases name edges) ≡ true) edges
aliases_mem name [] = tt
aliases_mem name (e ∷ edges) = (
  λ h. own_aliases-mem name e edges e.alias ∙ ground (arith, h, eq_refl e.alias),
  All-map (λ x. str_eq x.consumer name ≡ true → mem x.alias (own_aliases name edges) ≡ true)
      (λ x. str_eq x.consumer name ≡ true → mem x.alias (own_aliases name (e ∷ edges)) ≡ true) edges
      (λ x f h. own_aliases-mem name e edges x.alias ∙ ground (arith, f h))
      (aliases_mem name edges),
)

pub guarded {κ} :
    (P : Tree → Type κ) (b c d e : Bool) (t : Tree) (p n : Propagated × Tree)
    → b ≡ true
    → e ≡ true
    → (d ≡ false → (relocked p).0 ≡ none → P (relocked p).1)
    → (if not b
        then (none, t)
        else if not c
        then (some probe_failed, t)
        else if d
        then (some dirty_tree, t)
        else relocked (if e then p else n)).0
      ≡ none
    → P
        (if not b
          then (none, t)
          else if not c
          then (some probe_failed, t)
          else if d
          then (some dirty_tree, t)
          else relocked (if e then p else n)).1
guarded P false c d e t p n h l f k = cc
guarded P true false d e t p n h l f k = cc
guarded P true true true e t p n h l f k = cc
guarded P true true false false t p n h l f k = cc
guarded P true true false true t p n h l f k = f refl k

pub clean_tree : (visit : Visit) (t : Tree) → is_dirty visit t ≡ false → IsClean t
clean_tree visit t h = (
  bytes_eq_sound t.index t.head (ground (arith, h)),
  bytes_eq_sound t.work t.index (ground (arith, h))
      ∙ bytes_eq_sound t.index t.head (ground (arith, h)),
)

pub pushed_if-tree : (b : Bool) (t : Tree) (r : Repo) → (pushed_if b t r).1.tree ≡ t
pushed_if-tree true t r = refl
pushed_if-tree false t r = refl

pub push_to-tree :
    (o : Option String) (b : Bool) (t : Tree) (r : Repo) → (push_to o b t r).1.tree ≡ t
push_to-tree none b t r = refl
push_to-tree (some remote) b t r = pushed_if-tree b t r

pub push_branch-tree :
    (options : PushOptions) (visit : Visit) (o : Option String) (t : Tree) (r : Repo)
    → (push_branch options visit o t r).1.tree ≡ t
unfolding push_branch
push_branch-tree options visit none t r = refl
push_branch-tree options visit (some branch) t r = push_to-tree _ visit.pushes t r

pub push_repo-tree :
    (options : PushOptions) (visit : Visit) (t : Tree) (r : Repo)
    → (push_repo options visit t r).1.tree ≡ t
unfolding push_repo
push_repo-tree options visit t r =
    ground (arith, pushed_if-tree visit.pushes t r, push_branch-tree options visit visit.branch t r)

-- A visit without an error had no error in its relock, and leaves the tree as the relock does.
pub after_relock-tree :
    (options : PushOptions) (visit : Visit) (r : Repo) (p : Option PushError × Tree)
    → (after_relock options visit r p).0 ≡ none
    → (p.0 ≡ none) × ((after_relock options visit r p).1.tree ≡ p.1)
unfolding after_relock
after_relock-tree options visit r (some e, t) h = cc
after_relock-tree options visit r (none, t) h = (refl, push_repo-tree options visit t r)

module _ (parse : Bytes → Option FlakeLock) where
  pub relocked-HasRevs :
      (results : Results) (aliases : List String) (after : FlakeLock) (p : Propagated × Tree)
      → Synced parse results aliases after p
      → (relocked p).0 ≡ none
      → HasRevs parse results aliases after (relocked p).1.head
  relocked-HasRevs results aliases after (aborted e, t) s h = cc
  relocked-HasRevs results aliases after (no_change, t) s h = s
  relocked-HasRevs results aliases after (bumped changed, t) s h = s

  pub relock_siblings-HasRevs :
      (visit : Visit) (a : String) (more : List String) (nix : NixRun) (t : Tree)
      (after : FlakeLock)
      → visit.is_repo ≡ true
      → t.has_lock ≡ true
      → ((new : Bytes) → nix ≡ relocked_to new → parse new ≡ some after)
      → (relock_siblings_before_push parse visit (a ∷ more) nix t).0 ≡ none
      → HasRevs parse visit.results
          (a ∷ more)
          after
          (relock_siblings_before_push parse visit (a ∷ more) nix t).1.head
  unfolding relock_siblings_before_push propagate_workspace_edges
  relock_siblings-HasRevs visit a more nix t after repo locked f h =
      guarded (λ u. HasRevs parse visit.results (a ∷ more) after u.head) visit.is_repo visit.probes
        (is_dirty visit t) t.has_lock t (relock parse visit.results (a ∷ more) t nix (parse t.work))
        (no_change, t) repo locked
        (λ clean ok.
          relocked-HasRevs visit.results (a ∷ more) after
            (relock parse visit.results (a ∷ more) t nix (parse t.work))
            (relock-Synced parse visit.results (a ∷ more) after t nix (parse t.work)
              (clean_tree visit t clean) (ap parse (sym ((clean_tree visit t clean).1))) f)
            ok)
        h

  pub failed_relock :
      (results : Results) (aliases : List String) (left : Bytes) (t : Tree) (r : Option FlakeLock)
      → (relocked (relock parse results aliases t (failed_with left) r)).0 ≡ none
      → ⊥
  unfolding relock after_nix
  failed_relock results aliases left t none h = cc
  failed_relock results aliases left t (some before) h = cc

  -- Where nix fails there is an error.
  pub relock_siblings_failed :
      (visit : Visit) (a : String) (more : List String) (left : Bytes) (t : Tree)
      → visit.is_repo ≡ true
      → t.has_lock ≡ true
      → (relock_siblings_before_push parse visit (a ∷ more) (failed_with left) t).0 ≡ none
      → ⊥
  unfolding relock_siblings_before_push propagate_workspace_edges
  relock_siblings_failed visit a more left t repo locked h =
      guarded (λ u. ⊥) visit.is_repo visit.probes (is_dirty visit t) t.has_lock t
        (relock parse visit.results (a ∷ more) t (failed_with left) (parse t.work)) (no_change, t)
        repo locked (λ clean ok. failed_relock visit.results (a ∷ more) left t (parse t.work) ok) h
