-- ===== src/Workspace/Lock.antt =====
-- lock.go, workforest_subset.go and the parts of derive_lock.go that compute on a lock.
pub mod Valid
pub mod Sorted
use nix_repo_base.Base.{
  ℕ, suc, ◌+◌, String, Bool, true, false, not, ◌&&◌, ◌||◌, Option, none, some, List, [], ◌∷◌, Dict,
  lookup, mem, keep, length, sort_by, str_eq, str_lt, ◌==◌, if◌then◌else◌,
}
use nix_repo_base.Workspace.Config.{
  RepoConfig, WorkspaceConfig, LockRepoEntry, LockEdge, Lock, EventHook,
}

-- The first violation that ParseLock reports, with the index of the edge.
pub data LockError : Type 0 where
  terminal_unknown : String → LockError
  self_edge consumer_unknown target_unknown empty_flake_path duplicate_alias : ℕ → LockError

abbrev pub has_key {ℓ} : {V : Type ℓ} → String → Dict V → Bool
has_key k m = elim (lookup k m) [ none ↦ false | some v ↦ true ]

abbrev pub flake_path_of : String → Dict LockRepoEntry → String
flake_path_of k m = elim (lookup k m) [ none ↦ "" | some v ↦ v.flake_path ]

abbrev pub same_pair : LockEdge → LockEdge → Bool
same_pair d e = str_eq d.consumer e.consumer && str_eq d.alias e.alias

-- `aliasMap`, as the edges that have filled it.
abbrev pub seen_pair : List LockEdge → LockEdge → Bool
seen_pair [] e = false
seen_pair (d ∷ ds) e = same_pair d e || seen_pair ds e

unfoldable pub check_edge : Dict LockRepoEntry → ℕ → List LockEdge → LockEdge → Option LockError
check_edge repos i seen e =
    if str_eq e.consumer e.target
    then some (self_edge i)
    else if not (has_key e.consumer repos)
    then some (consumer_unknown i)
    else if not (has_key e.target repos)
    then some (target_unknown i)
    else if str_eq (flake_path_of e.target repos) ""
    then some (empty_flake_path i)
    else if seen_pair seen e
    then some (duplicate_alias i)
    else none

check_edges : Dict LockRepoEntry → ℕ → List LockEdge → List LockEdge → Option LockError
unfolding check_edge
check_edges repos i seen [] = none
check_edges repos i seen (e ∷ es) =
    let rest = check_edges repos (suc i) (e ∷ seen) es in
    elim (check_edge repos i seen e) [ none ↦ rest | some x ↦ some x ]

unfoldable pub parse_lock : Lock → Option LockError
unfolding check_edges
parse_lock lock =
    if not (str_eq lock.terminal "") && not (has_key lock.terminal lock.repos)
    then some (terminal_unknown lock.terminal)
    else check_edges lock.repos 0 [] lock.edges

abbrev pub empty_lock : Lock
empty_lock = record { terminal = ""; order = []; repos = []; edges = [] }

-- The order in which WriteLock puts the edges.
unfoldable pub edge_less : LockEdge → LockEdge → Bool
edge_less d e =
    if not (str_eq d.consumer e.consumer)
    then str_lt d.consumer e.consumer
    else if not (str_eq d.alias e.alias)
    then str_lt d.alias e.alias
    else str_lt d.target e.target

-- What WriteLock serializes.
unfoldable pub written_lock : Lock → Lock
unfolding edge_less
written_lock lock = record lock { edges = sort_by edge_less lock.edges }

keep_keys {ℓ} : {V : Type ℓ} → List String → Dict V → Dict V
keep_keys members [] = []
keep_keys members ((k, v) ∷ m) =
    let rest = keep_keys members m in if mem k members then (k, v) ∷ rest else rest

-- `memberSet[k]` is true exactly for the names listed.
unfoldable pub filter_config : WorkspaceConfig → List String → WorkspaceConfig
unfolding keep_keys
filter_config cfg members = record cfg {
  workspace = record cfg.workspace {
    terminal =
        if not (str_eq cfg.workspace.terminal "") && not (mem cfg.workspace.terminal members)
        then ""
        else cfg.workspace.terminal;
  };
  repos = keep_keys members cfg.repos;
}

inside : List String → LockEdge → Bool
inside members e = mem e.consumer members && mem e.target members

filter_some : Lock → List String → Lock
unfolding keep_keys inside
filter_some lock members = record {
  terminal =
      if not (str_eq lock.terminal "") && mem lock.terminal members then lock.terminal else "";
  order = keep (λ k. mem k members) lock.order;
  repos = keep_keys members lock.repos;
  edges = keep (inside members) lock.edges;
}

unfoldable pub filter_lock : Option Lock → List String → Lock
unfolding filter_some
filter_lock none members = empty_lock
filter_lock (some lock) members = filter_some lock members

unfoldable pub excluded_dep_edges : Option Lock → List String → List LockEdge
excluded_dep_edges none members = []
excluded_dep_edges (some lock) members =
    keep (λ e. mem e.consumer members && not (mem e.target members)) lock.edges

unfoldable pub all_keys_in : Dict RepoConfig → Dict LockRepoEntry → Bool
all_keys_in [] m = true
all_keys_in ((k, v) ∷ rest) m = has_key k m && all_keys_in rest m

unfoldable pub lock_matches_config : Option Lock → Option WorkspaceConfig → Bool
unfolding all_keys_in
lock_matches_config none cfg = false
lock_matches_config (some lock) none = false
lock_matches_config (some lock) (some cfg) =
    length lock.repos == length cfg.repos && all_keys_in cfg.repos lock.repos
