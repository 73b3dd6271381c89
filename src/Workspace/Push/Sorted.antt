-- ===== src/Workspace/Push/Sorted.antt =====
-- A push in the order of the sort of dag.go.
use mathlib.Core.List.{append_assoc}
use nix_repo_base.Base.{
  ℕ, ◌≤◌, ◌<◌, String, ◌≡◌, ap, sym, ◌∙◌, true, false, Option, none, some, List, [], ◌∷◌, ◌++◌, All,
  All-map, Dict, mem, count, mem-count, count-append, str_eq, arith, eq_iff, eq_refl,
}
use nix_repo_base.Base.Bytes.{Bytes}
use nix_repo_base.Workspace.Config.{Lock, LockEdge}
use nix_repo_base.Workspace.Dag.{deps_of, topo_sort_by_deps}
use nix_repo_base.Workspace.Dag.Counts.{HasDistinctKeys}
use nix_repo_base.Workspace.Dag.Order.{count-topo_sort, topo_sort-DepsFirst}
use nix_repo_base.Workspace.Dag.Order.Loop.{DepsFirst}
use nix_repo_base.Workspace.Propagate.{
  FlakeLock, alias_rev, NixRun, relocked_to, workspace_aliases_from_lock,
}
use nix_repo_base.Workspace.Push.{PushOptions, Visit, World, push_all}
use nix_repo_base.Workspace.Push.Relocks.{All-mem}
use nix_repo_base.Workspace.Push.Converges.{IsOrdered, IsConverged, push_all-IsConverged}

-- The targets of the edges are among the dependencies.
abbrev pub Covers : Dict (List String) → List LockEdge → Type 0
Covers d edges = All (λ e. mem e.target (deps_of d e.consumer) ≡ true) edges

seen_before :
    (seen names : List String) (n k : String)
    → ((j : String) → count j (seen ++ n ∷ names) ≤ 1)
    → mem k seen ≡ true
    → mem k (n ∷ names) ≡ false
seen_before seen names n k once h =
    ground
      (arith, once k, count-append k seen (n ∷ names), mem-count k seen, mem-count k (n ∷ names))

DepsFirst-IsOrdered :
    (d : Dict (List String)) (edges : List LockEdge) (seen names : List String)
    → DepsFirst d seen names
    → ((j : String) → count j (seen ++ names) ≤ 1)
    → Covers d edges
    → IsOrdered edges names
DepsFirst-IsOrdered d edges seen [] h once covers = tt
DepsFirst-IsOrdered d edges seen (n ∷ names) h once covers = (
  ground (arith, once n, count-append n seen (n ∷ names), mem-count n names, eq_refl n),
  All-map (λ e. mem e.target (deps_of d e.consumer) ≡ true) _ edges
      (λ e known mine. seen_before seen names n e.target once (
        All-mem (λ k. mem k seen ≡ true) e.target (deps_of d n) h.0
          (ap (λ m. mem e.target (deps_of d m)) (sym ((eq_iff e.consumer n).0 mine)) ∙ known)))
      covers,
  DepsFirst-IsOrdered d edges (seen ++ n ∷ []) names h.1
      (λ j. omega (arith, once j, ap (count j) (append_assoc seen (n ∷ []) names))) covers,
)

module _ (parse : Bytes → Option FlakeLock)
    (nix : (String → String) → String → List String → Bytes → NixRun) (lock : Lock)
    (resolves : (tips : String → String) (name : String) (old new : Bytes)
      → nix tips name (workspace_aliases_from_lock lock name) old ≡ relocked_to new
      → (after : FlakeLock) × (parse new ≡ some after)
        × All
            (λ e. str_eq e.consumer name ≡ true → alias_rev after e.alias ≡ tips e.target)
            lock.edges)
    (options : PushOptions) (visits : String → Visit) where
  -- Where a push goes through the repositories in the order that topoSortByDeps gives for dependencies
  -- among them, the targets of the edges are such dependencies, and a rank falls along these (there is no
  -- cycle); where all of the repositories are cloned and locked, nix resolves each alias to the tip of
  -- its target, and no error is returned: at the end the committed lock of each repository pins, for
  -- every edge of it, the rev that its target is published at.
  pub push_sorted-IsConverged :
      (keys : List String) (d : Dict (List String))
      → HasDistinctKeys d
      → ((k : String) → mem k keys ≡ false → deps_of d k ≡ [])
      → ((k : String) → count k keys ≤ 1)
      → ((k j : String) → mem j (deps_of d k) ≡ true → mem j keys ≡ true)
      → (rank : String → ℕ) → ((k j : String) → mem j (deps_of d k) ≡ true → rank j < rank k)
      → Covers d lock.edges
      → (w : World)
      → All
          (λ n. ((visits n).is_repo ≡ true) × ((w n).tree.has_lock ≡ true))
          (topo_sort_by_deps keys d)
      → (push_all parse nix options (some lock) visits (topo_sort_by_deps keys d) [] w).error ≡ none
      → All
          (IsConverged parse nix lock resolves options visits
            (push_all parse nix options (some lock) visits (topo_sort_by_deps keys d) [] w).world)
          (topo_sort_by_deps keys d)
  push_sorted-IsConverged keys d distinct closed once known rank falls covers w =
      push_all-IsConverged parse nix lock resolves options visits (topo_sort_by_deps keys d) w (
        DepsFirst-IsOrdered d lock.edges [] (topo_sort_by_deps keys d)
          (topo_sort-DepsFirst keys d distinct closed once known rank falls)
          (λ j. ground (arith, once j, count-topo_sort keys d distinct closed once j)) covers)
