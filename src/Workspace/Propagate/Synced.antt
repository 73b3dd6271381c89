-- ===== src/Workspace/Propagate/Synced.antt =====
-- A relock that goes through leaves a commit with the revs that nix has found.
use mathlib.Core.Option.{some-injective}
use nix_repo_base.Base.{
  String, ◌≡◌, refl, ap, sym, ◌∙◌, ◌&&◌, Option, none, some, List, [], ◌∷◌, All, str_eq,
  if◌then◌else◌, arith, eq_iff, Bool-cases, inl, inr,
}
use nix_repo_base.Base.Bytes.{Bytes, bytes_eq, bytes_eq_sound}
use nix_repo_base.Workspace.Propagate.{
  FlakeLock, alias_rev, Tree, Results, NixRun, relocked_to, failed_with, Propagated, aborted,
  no_change, bumped, commit_bump, settle_changed, moved_aliases, compare_revs, after_nix, relock,
}
use nix_repo_base.Workspace.Propagate.Outcome.{IsClean, either, unless, pick}

same_revs :
    (before after : FlakeLock) (aliases : List String)
    → moved_aliases before after aliases ≡ []
    → All (λ a. alias_rev before a ≡ alias_rev after a) aliases
same_revs before after [] h = tt
same_revs before after (a ∷ more) h =
    elim (Bool-cases (str_eq (alias_rev before a) (alias_rev after a))) [
      | inl same ↦ (
        (eq_iff (alias_rev before a) (alias_rev after a)).0 same,
        same_revs before after more (rw same at h),
      )
      | inr apart ↦ ground (arith, h)
    ]

own_revs :
    (after : FlakeLock) (aliases : List String)
    → All (λ a. alias_rev after a ≡ alias_rev after a) aliases
own_revs after [] = tt
own_revs after (a ∷ more) = (refl, own_revs after more)

module _ (parse : Bytes → Option FlakeLock) (results : Results) (aliases : List String)
    (after : FlakeLock) where
  abbrev pub HasRevs : Bytes → Type 0
  HasRevs head =
      (f : FlakeLock) × (parse head ≡ some f) × All (λ a. alias_rev f a ≡ alias_rev after a) aliases

  -- Unless there is an error, the commit has these revs.
  abbrev pub Synced : Propagated × Tree → Type 0
  Synced (aborted e, t') = Unit
  Synced (no_change, t') = HasRevs t'.head
  Synced (bumped changed, t') = HasRevs t'.head

  settle_changed-Synced :
      (before : FlakeLock) (t : Tree) (new : Bytes) (changed : List String)
      → parse t.head ≡ some before
      → parse new ≡ some after
      → moved_aliases before after aliases ≡ changed
      → Synced (settle_changed parse results changed (record t { work = new }))
  unfolding settle_changed commit_bump
  settle_changed-Synced before t new [] h l e =
      either Synced (results.opens && results.restores) _ _
        (before, h, same_revs before after aliases e) tt
  settle_changed-Synced before t new (a ∷ more) h l e =
      pick Synced (results.opens && results.adds) (results.commit_starts && results.commit_ends)
        results.resets _ _ _ _ tt (after, l, own_revs after aliases) tt tt

  after_nix-Synced :
      (before : FlakeLock) (t : Tree) (new : Bytes) (r : Option FlakeLock)
      → IsClean t
      → parse t.head ≡ some before
      → parse new ≡ some after
      → parse new ≡ r
      → Synced (
          if results.diffs && bytes_eq new t.index
          then (no_change, record t { work = new })
          else compare_revs parse results aliases before (record t { work = new }) r)
  unfolding compare_revs
  after_nix-Synced before t new none v h l e = ground (arith, l, e)
  after_nix-Synced before t new (some f) v h l e =
      unless Synced results.diffs (bytes_eq new t.index) _ _
        (λ same. (
          after,
          ap parse (sym v.0 ∙ sym (bytes_eq_sound new t.index same)) ∙ l,
          own_revs after aliases,
        ))
        (settle_changed-Synced before t new (moved_aliases before f aliases) h l
          (ap (λ x. moved_aliases before x aliases) (sym (some-injective f after (sym e ∙ l)))))

  pub relock-Synced :
      (t : Tree) (nix : NixRun) (r : Option FlakeLock)
      → IsClean t
      → parse t.head ≡ r
      → ((new : Bytes) → nix ≡ relocked_to new → parse new ≡ some after)
      → Synced (relock parse results aliases t nix r)
  unfolding relock after_nix
  relock-Synced t nix none v h l = tt
  relock-Synced t (failed_with left) (some before) v h l = tt
  relock-Synced t (relocked_to new) (some before) v h l =
      after_nix-Synced before t new (parse new) v h (l new refl) refl
