-- ===== src/Workspace/Terminal.antt =====
-- terminal.go: which repository is built and applied. A map of booleans that are only set to true is
-- the list of its keys.
pub mod Reach
pub mod Detect
pub mod Resolve
use nix_repo_base.Base.{
  ℕ, zero, suc, String, Bool, true, false, not, ◌&&◌, ◌||◌, Option, none, some, List, [], ◌∷◌, Dict,
  mem, delete, keep, length, ltb, ◌==◌, sort_strings, str_eq, if◌then◌else◌, Outcome, ok, err,
  ◌>>=◌,
}
use nix_repo_base.Workspace.Config.{RepoConfig, WorkspaceConfig, LockRepoEntry, LockEdge}
use nix_repo_base.Workspace.Edges.{keys, is_foundation}
use nix_repo_base.Workspace.Lock.{has_key, flake_path_of}

-- A ValidationError: its code, and the names in its message.
pub data Issue : Type 0 where
  terminal_not_sink : String → List String → Issue
  missing_terminal : Issue
  missing_flake_path : String → Issue
  eval_failed : String → Issue

-- The source of the name is the flag or the configuration.
pub data TerminalError : Type 0 where
  repo_not_found : String → TerminalError
  foundation_terminal : String → String → TerminalError

-- Fails, or returns the name.
unfoldable pub check_terminal_not_foundation :
    String → String → Dict RepoConfig → Outcome TerminalError String
check_terminal_not_foundation source name repos =
    if is_foundation repos name then err (foundation_terminal source name) else ok name

unfoldable pub foundation_keys : Option WorkspaceConfig → List String
foundation_keys none = []
foundation_keys (some cfg) = keep (is_foundation cfg.repos) (keys cfg.repos)

unfoldable pub flake_repos : Dict LockRepoEntry → List String
flake_repos repos = keep (λ k. not (str_eq (flake_path_of k repos) "")) (keys repos)

-- The edges that the loop of step 2 does not skip.
abbrev pub flake_edges : List String → List LockEdge → List LockEdge
flake_edges flakes edges = keep (λ e. mem e.consumer flakes && mem e.target flakes) edges

abbrev pub inbound : List LockEdge → String → ℕ
inbound es k = length (keep (λ e. str_eq e.target k) es)

pub children : List LockEdge → String → List String
children [] k = []
children (e ∷ es) k =
    let rest = children es k in if str_eq e.consumer k then e.target ∷ rest else rest

pub visit_all :
    (String → List String → Option (List String)) → List String → List String → Option (List String)
visit_all visit [] visited = some visited
visit_all visit (c ∷ cs) visited = elim (visit c visited) [
  | none ↦ none
  | some visited' ↦ visit_all visit cs visited'
]

-- On fuel; `none` is a lack of it. It returns the names visited.
pub dfs_terminal : ℕ → List LockEdge → String → List String → Option (List String)
unfolding children visit_all
dfs_terminal zero es node visited = none
dfs_terminal (suc fuel) es node visited = elim (mem node visited) [
  | true ↦ some visited
  | false ↦ visit_all (dfs_terminal fuel es) (children es node) (node ∷ visited)
]

-- The fuel is one more than the repositories that can be visited.
pub reachable_from_node : List String → List LockEdge → String → Option ℕ
unfolding dfs_terminal
reachable_from_node flakes es k = elim (dfs_terminal (suc (length flakes)) es k []) [
  | none ↦ none
  | some visited ↦ some (length (delete k visited))
]

abbrev pub is_connected : Option ℕ → Bool
is_connected none = false
is_connected (some n) = ltb 0 n

-- The one element of a list.
abbrev pub sole : List String → String
sole [] = ""
sole (k ∷ []) = k
sole (k ∷ j ∷ ks) = ""

abbrev pub sinks : List String → List LockEdge → List String → List String
sinks flakes es foundation =
    sort_strings (keep (λ k. inbound es k == 0 && not (mem k foundation)) flakes)

-- Without a flake or a sink, no candidate is left and the answer is "".
unfoldable pub auto_detect_terminal : List LockEdge → Dict LockRepoEntry → List String → String
unfolding reachable_from_node
auto_detect_terminal edges repos foundation =
    let flakes = flake_repos repos in
    let es = flake_edges flakes edges in
    sole (keep (λ s. is_connected (reachable_from_node flakes es s)) (sinks flakes es foundation))

pub consumers : String → List LockEdge → List String
consumers name [] = []
consumers name (e ∷ es) =
    let rest = consumers name es in
    if str_eq e.target name && not (mem e.consumer rest) then e.consumer ∷ rest else rest

unfoldable pub consumers_of : String → List LockEdge → List String
unfolding consumers
consumers_of name edges = sort_strings (consumers name edges)

-- `cfg.Repos` and the configured terminal, of a configuration that may be nil.
abbrev pub repos_of : Option WorkspaceConfig → Dict RepoConfig
repos_of none = []
repos_of (some cfg) = cfg.repos

abbrev pub terminal_of : Option WorkspaceConfig → String
terminal_of none = ""
terminal_of (some cfg) = cfg.workspace.terminal

-- Tier 1.
pub flagged : Option WorkspaceConfig → String → Dict LockRepoEntry → Outcome TerminalError String
flagged cfg flag repos =
    if str_eq flag ""
    then ok ""
    else if not (has_key flag repos || has_key flag (repos_of cfg))
    then err (repo_not_found flag)
    else check_terminal_not_foundation "--terminal" flag (repos_of cfg)

-- Tier 2.
pub configured : Option WorkspaceConfig → String → Outcome TerminalError String
configured cfg terminal =
    if not (str_eq terminal "") || str_eq (terminal_of cfg) ""
    then ok terminal
    else check_terminal_not_foundation "workspace.terminal" (terminal_of cfg) (repos_of cfg)

-- Tier 3.
pub detected : Option WorkspaceConfig → List LockEdge → Dict LockRepoEntry → String → String
detected cfg edges repos terminal =
    if str_eq terminal "" then auto_detect_terminal edges repos (foundation_keys cfg) else terminal

abbrev pub not_sink : String → List String → List Issue
not_sink terminal [] = []
not_sink terminal (c ∷ cs) = terminal_not_sink terminal (c ∷ cs) ∷ []

pub sink_issues : String → List LockEdge → List Issue
sink_issues terminal edges =
    if str_eq terminal "" then [] else not_sink terminal (consumers_of terminal edges)

unfoldable pub resolve_terminal :
    Option WorkspaceConfig
    → String
    → List LockEdge
    → Dict LockRepoEntry
    → Outcome TerminalError (String × List Issue)
unfolding flagged configured detected sink_issues
resolve_terminal cfg flag edges repos = do
  by_flag ← flagged cfg flag repos
  by_config ← configured cfg by_flag
  let terminal = detected cfg edges repos by_config
  ok (terminal, sink_issues terminal edges)
