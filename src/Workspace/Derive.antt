-- ===== src/Workspace/Derive.antt =====
-- derive_lock.go: computing the lock of a workspace, and when it is written. What the code reads from
-- disk or runs nix for is an argument: the inputs of each flake and the repositories whose evaluation
-- failed (gatherInputURLs), the flake path of a repository (resolveFlakePath), and which directories
-- exist.
pub mod Valid
use nix_repo_base.Base.{
  String, Bool, true, false, not, ◌&&◌, Option, none, some, List, [], ◌∷◌, ◌++◌, map, Dict, mem,
  keep, str_eq, if◌then◌else◌, Outcome, ok, err, ◌>>=◌,
}
use nix_repo_base.Workspace.Config.{
  RepoConfig, WorkspaceConfig, LockRepoEntry, LockEdge, Lock, InputSpec,
}
use nix_repo_base.Workspace.Url.{display_url}
use nix_repo_base.Workspace.Edges.{EdgesError, build_edges}
use nix_repo_base.Workspace.Lock.{flake_path_of, written_lock}
use nix_repo_base.Workspace.Terminal.{
  Issue, missing_terminal, missing_flake_path, eval_failed, TerminalError, resolve_terminal,
}

pub record Disk : Type 0 where
  pub flake_path : String → String
  pub dir_exists : String → Bool
  pub input_urls : Dict (Dict InputSpec)
  pub failed : List String

pub data DeriveError : Type 0 where
  edges_failed : EdgesError → DeriveError
  terminal_failed : TerminalError → DeriveError
  validation_failed : List Issue → DeriveError

abbrev pub wrapped {ℓ} :
    {E : Type 0} {A : Type ℓ} → (E → DeriveError) → Outcome E A → Outcome DeriveError A
wrapped f (err x) = err (f x)
wrapped f (ok y) = ok y

pub lock_entries : (String → String) → Dict RepoConfig → Dict LockRepoEntry
lock_entries flake_path [] = []
lock_entries flake_path ((k, r) ∷ rest) =
    (k, record { flake_path = flake_path k; remote_url = display_url r })
    ∷ lock_entries flake_path rest

terminal_missing : String → List Issue
terminal_missing terminal = if str_eq terminal "" then missing_terminal ∷ [] else []

-- One issue for each edge target whose directory exists and has no flake.
missing_flakes : (String → Bool) → Dict LockRepoEntry → List String → List LockEdge → List Issue
missing_flakes dir_exists repos seen [] = []
missing_flakes dir_exists repos seen (e ∷ es) =
    let new =
      not (mem e.target seen) && str_eq (flake_path_of e.target repos) "" && dir_exists e.target in
    let rest = missing_flakes dir_exists repos (if new then e.target ∷ seen else seen) es in
    if new then missing_flake_path e.target ∷ rest else rest

unfoldable pub derive_lock :
    WorkspaceConfig → String → Disk → Outcome DeriveError (Lock × List Issue)
unfolding lock_entries terminal_missing missing_flakes
derive_lock cfg flag disk = do
  built ← wrapped edges_failed (build_edges cfg.repos disk.input_urls)
  let edges = built.0
  let repos = lock_entries disk.flake_path cfg.repos
  resolved ← wrapped terminal_failed (resolve_terminal (some cfg) flag edges repos)
  let terminal = resolved.0
  ok (
    record { terminal = terminal; order = built.1; repos = repos; edges = edges },
    resolved.1
        ++ terminal_missing terminal
        ++ missing_flakes disk.dir_exists repos [] edges
        ++ map eval_failed disk.failed,
  )

abbrev pub is_blocking : Bool → Issue → Bool
is_blocking allow_missing_edges (eval_failed k) = not allow_missing_edges
is_blocking allow_missing_edges _ = true

abbrev pub unless_blocked : Lock → List Issue → Outcome DeriveError Lock
unless_blocked lock [] = ok (written_lock lock)
unless_blocked lock (i ∷ is') = err (validation_failed (i ∷ is'))

-- The lock that WriteDerivedLockTo puts into the file.
unfoldable pub write_derived_lock :
    WorkspaceConfig → String → Bool → Disk → Outcome DeriveError Lock
unfolding derive_lock
write_derived_lock cfg flag allow_missing_edges disk = do
  derived ← derive_lock cfg flag disk
  unless_blocked derived.0 (keep (is_blocking allow_missing_edges) derived.1)
