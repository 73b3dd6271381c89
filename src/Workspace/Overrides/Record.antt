-- ===== src/Workspace/Overrides/Record.antt =====
-- The record of what an apply overrode says what the flags say.
use mathlib.Core.Path.{subst}
use nix_repo_base.Base.{
  ℕ, ◌+◌, String, ◌≡◌, refl, ap, ◌∙◌, Bool, true, false, not, ◌&&◌, none, some, List, [], ◌∷◌, Dict,
  lookup, insert, lookup-insert, any, any-sort_by, total, total-sort_by, sort_by, All, one_if,
  str_eq, eq_iff, if◌then◌else◌, arith, Bool-cases, inl, inr,
}
use nix_repo_base.Workspace.Config.{LockEdge, Lock}
use nix_repo_base.Workspace.Lock.Sorted.{All-sort_by}
use nix_repo_base.Workspace.Overrides.{
  OverrideOpts, ResolvedOverride, file_url, dir_of, is_overridden, collect, by_alias,
  resolve_overrides_for_lock, record_all, overridden_inputs,
}

if_total :
    {A : Type 0} (f : A → ℕ) (b : Bool) (x y : A)
    → f (if b then x else y) ≡ (if b then f x else f y)
if_total f true x y = refl
if_total f false x y = refl

module _ (clone_dir : String → String) (dir_exists : String → Bool) (consumer : String)
    (opts : OverrideOpts) where
  -- The checkout of a repository: the directory given for it, or else its clone.
  abbrev checkout : String → String
  checkout target = elim (lookup target opts.override_paths) [
    | some given ↦ given
    | none ↦ clone_dir target
  ]

  abbrev excluded : String → Bool
  excluded target = str_eq target opts.exclude_repo && not (str_eq target "")

  abbrev is_usable : String → Bool
  is_usable target = not (excluded target) && dir_exists (checkout target)

  -- An edge of the consumer with this alias and target.
  abbrev names : String → String → LockEdge → Bool
  names alias target e =
      str_eq e.consumer consumer && str_eq e.alias alias && str_eq e.target target

  abbrev is_of : String → String → ResolvedOverride → Bool
  is_of alias target o = str_eq o.alias alias && str_eq o.target target

  is_overridden-target :
      (e : LockEdge) (t : String)
      → is_overridden clone_dir dir_exists consumer opts e && str_eq e.target t
        ≡ (str_eq e.consumer consumer && str_eq e.target t && is_usable t)
  is_overridden-target e t = elim (Bool-cases (str_eq e.target t)) [
    | inl same ↦
        subst
          (λ x.
            is_overridden clone_dir dir_exists consumer opts e && str_eq e.target x
            ≡ (str_eq e.consumer consumer && str_eq e.target x && is_usable x))
          ((eq_iff e.target t).0 same) (at_target e)
    | inr apart ↦ ground arith
  ]
    where
      at_target :
          (e : LockEdge)
          → is_overridden clone_dir dir_exists consumer opts e && str_eq e.target e.target
            ≡ (str_eq e.consumer consumer && str_eq e.target e.target && is_usable e.target)
      at_target e = ground (
        arith,
        eq_iff e.target opts.exclude_repo,
        λ (x : e.target ≡ opts.exclude_repo). ap (λ s. str_eq s "") x,
      )

  any-collect :
      (t : String) (es : List LockEdge)
      → any (λ o. str_eq o.target t) (collect clone_dir dir_exists consumer opts es)
        ≡ (any (λ e. str_eq e.consumer consumer && str_eq e.target t) es && is_usable t)
  unfolding collect
  any-collect t [] = refl
  any-collect t (e ∷ es) = ground (arith, any-collect t es, is_overridden-target e t)

  counted :
      (g own same here : Bool) (a : Bool) (x y : ℕ)
      → g && same ≡ (own && same && here)
      → y ≡ (if here then x else 0)
      → (if g then one_if (a && same) + y else y)
        ≡ (if here then one_if (own && a && same) + x else 0)
  counted g own same here a x y h e = ground arith

  total-collect :
      (alias t : String) (es : List LockEdge)
      → total (λ o. one_if (is_of alias t o)) (collect clone_dir dir_exists consumer opts es)
        ≡ (if is_usable t then total (λ e. one_if (names alias t e)) es else 0)
  unfolding collect
  total-collect alias t [] = ground arith
  total-collect alias t (e ∷ es) =
      let rest = collect clone_dir dir_exists consumer opts es in
      let count : List ResolvedOverride → ℕ = λ os. total (λ o. one_if (is_of alias t o)) os in
      let o : ResolvedOverride = record {
        alias = e.alias;
        target = e.target;
        dir = dir_of clone_dir dir_exists opts e.target;
      } in
      if_total count (is_overridden clone_dir dir_exists consumer opts e) (o ∷ rest) rest
      ∙ counted (is_overridden clone_dir dir_exists consumer opts e) (str_eq e.consumer consumer)
          (str_eq e.target t) (is_usable t) (str_eq e.alias alias)
          (total (λ e. one_if (names alias t e)) es) (count rest) (is_overridden-target e t)
          (total-collect alias t es)

  -- Overrides in which each target has its checkout.
  abbrev Dirs : List ResolvedOverride → Type 0
  Dirs rs = All (λ o. o.dir ≡ checkout o.target) rs

  collect-Dirs : (es : List LockEdge) → Dirs (collect clone_dir dir_exists consumer opts es)
  unfolding collect
  collect-Dirs [] = tt
  collect-Dirs (e ∷ es) = elim (Bool-cases (is_overridden clone_dir dir_exists consumer opts e)) [
    | inl taken ↦ rw taken (refl, collect-Dirs es)
    | inr skipped ↦ rw skipped (collect-Dirs es)
  ]

  lookup-record_all :
      (rs : List ResolvedOverride) (t : String) (m : Dict String)
      → Dirs rs
      → lookup t (record_all rs m)
        ≡ (if any (λ o. str_eq o.target t) rs then some (file_url (checkout t)) else lookup t m)
  unfolding record_all
  lookup-record_all [] t m h = refl
  lookup-record_all (o ∷ rs) t m h = ground (
    arith,
    lookup-record_all rs t (insert o.target (file_url o.dir) m) h.1,
    lookup-insert o.target t (file_url o.dir) m,
    h.0,
    eq_iff o.target t,
    λ (e : o.target ≡ t). ap (λ x. file_url (checkout x)) e,
  )

  -- With a lock: for each alias and target there are as many overrides as the consumer has edges with
  -- them, if the target is not the excluded repository and its checkout exists, and none otherwise; each
  -- override has the checkout of its target; and the record of an apply has the URL of a repository's
  -- checkout exactly if the consumer has an edge to it, it is not excluded, and the checkout exists.
  -- The checkout is the directory given for a repository, or else its clone.
  pub overrides_sound :
      (lk : Lock) (alias t : String)
      → let rs = resolve_overrides_for_lock clone_dir dir_exists (some lk) consumer opts in
        (total (λ o. one_if (is_of alias t o)) rs
          ≡ (if is_usable t then total (λ e. one_if (names alias t e)) lk.edges else 0))
        × All (λ o. o.dir ≡ checkout o.target) rs
        × (lookup t (overridden_inputs rs) ≡ (
            if any (λ e. str_eq e.consumer consumer && str_eq e.target t) lk.edges && is_usable t
            then some (file_url (checkout t))
            else none))
  unfolding resolve_overrides_for_lock overridden_inputs lookup
  overrides_sound lk alias t =
      let rs = collect clone_dir dir_exists consumer opts lk.edges in
      let dirs =
        (All-sort_by (λ o. o.dir ≡ checkout o.target) by_alias rs).1 (collect-Dirs lk.edges) in
      (
        total-sort_by by_alias (λ o. one_if (is_of alias t o)) rs ∙ total-collect alias t lk.edges,
        dirs,
        lookup-record_all (sort_by by_alias rs) t [] dirs
            ∙ ap (λ b. if b then some (file_url (checkout t)) else none)
                (any-sort_by by_alias (λ o. str_eq o.target t) rs ∙ any-collect t lk.edges),
      )
