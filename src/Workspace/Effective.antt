-- ===== src/Workspace/Effective.antt =====
-- flake_path.go, topo_alpha.go, effectiveLock of derive_lock.go and buildDAG of dag.go: the lock that
-- commands work with when there may be none on disk, and the order of the repositories.
pub mod Covers
pub mod Orders
use nix_repo_base.Base.{
  String, Bool, true, false, not, ◌&&◌, ◌||◌, Option, none, some, List, [], ◌∷◌, ◌++◌, Dict, lookup,
  mem, sort_strings, str_eq, if◌then◌else◌, Outcome, ok, err, ◌>>=◌,
}
use nix_repo_base.Workspace.Config.{RepoConfig, WorkspaceConfig, LockRepoEntry, Lock, InputSpec}
use nix_repo_base.Workspace.Dag.{deps_of, topo_sort_by_deps}
use nix_repo_base.Workspace.Edges.{ordered_repo_names, tabulate}
use nix_repo_base.Workspace.Lock.{empty_lock, lock_matches_config}
use nix_repo_base.Workspace.Terminal.{Issue}
use nix_repo_base.Workspace.Derive.{Disk, DeriveError, derive_lock}

-- The workspace as loaded: `lock` is what ReadLock returned.
pub record Workspace : Type 0 where
  pub config : WorkspaceConfig
  pub lock : Option Lock

abbrev locked_path : Option Lock → String → String
locked_path none k = ""
locked_path (some lk) k = elim (lookup k lk.repos) [ none ↦ "" | some entry ↦ entry.flake_path ]

abbrev configured_path : WorkspaceConfig → String → String
configured_path cfg k = elim (lookup k cfg.repos) [ none ↦ "" | some r ↦ r.flake_path ]

-- The first of these that exists; `file_exists` takes the repository and the path in it.
first_existing : (String → String → Bool) → String → List String → String
first_existing file_exists k [] = ""
first_existing file_exists k (rel ∷ rels) =
    let rest = first_existing file_exists k rels in if file_exists k rel then rel else rest

abbrev pub default_flake_search_paths : List String
default_flake_search_paths = "flake.nix" ∷ "nix/flake.nix" ∷ []

unfoldable pub resolve_flake_path : (String → String → Bool) → Workspace → String → String
unfolding first_existing
resolve_flake_path file_exists ws k =
    if not (str_eq (locked_path ws.lock k) "")
    then locked_path ws.lock k
    else if not (str_eq (configured_path ws.config k) "")
    then configured_path ws.config k
    else first_existing file_exists k default_flake_search_paths

unfoldable pub is_default_flake_path : String → Bool
is_default_flake_path rel_path = mem rel_path default_flake_search_paths

abbrev pub or_empty_lock : Option Lock → Lock
or_empty_lock none = empty_lock
or_empty_lock (some lock) = lock

unfoldable pub effective_lock : Workspace → Disk → Outcome DeriveError (Lock × List Issue)
effective_lock ws disk =
    if lock_matches_config ws.lock (some ws.config)
    then ok (or_empty_lock ws.lock, [])
    else derive_lock ws.config "" disk

abbrev pub or_alphabetical : List String → WorkspaceConfig → List String
or_alphabetical [] cfg = ordered_repo_names cfg.repos
or_alphabetical (k ∷ ks) cfg = k ∷ ks

abbrev pub order_of : Outcome DeriveError (Lock × List Issue) → List String
order_of (err e) = []
order_of (ok (lock, issues)) = lock.order

unfoldable pub topo_alpha : Workspace → Disk → List String
topo_alpha ws disk =
    if lock_matches_config ws.lock (some ws.config)
    then or_alphabetical (or_empty_lock ws.lock).order ws.config
    else or_alphabetical (order_of (effective_lock ws disk)) ws.config

-- The declared names that are other repositories, each once.
pub declared_deps : List String → String → List String → List String → List String
declared_deps repo_keys a seen [] = []
declared_deps repo_keys a seen (name ∷ names) =
    let skip = not (mem name repo_keys) || str_eq name a || mem name seen in
    let rest = declared_deps repo_keys a (if skip then seen else name ∷ seen) names in
    if skip then rest else name ∷ rest

unfoldable pub build_dag : WorkspaceConfig → Dict (List String) → List String × Dict (List String)
unfolding declared_deps
build_dag cfg declared_inputs =
    let repo_keys = ordered_repo_names cfg.repos in
    let depends_on =
      tabulate repo_keys
        (λ a. sort_strings (declared_deps repo_keys a [] (deps_of declared_inputs a))) in
    (topo_sort_by_deps repo_keys depends_on, depends_on)
