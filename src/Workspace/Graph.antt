-- ===== src/Workspace/Graph.antt =====
-- graph.go: selectTerminal, on the in-degrees that buildGraph counts.
pub mod Choice
use nix_repo_base.Base.{
  ℕ, String, Bool, true, false, not, ◌&&◌, Option, none, some, List, [], ◌∷◌, Dict, lookup, ltb,
  ◌==◌, sort_strings, str_eq, if◌then◌else◌, Outcome, ok, err,
}
use nix_repo_base.Workspace.Config.{RepoConfig, WorkspaceConfig}
use nix_repo_base.Workspace.Edges.{is_foundation}
use nix_repo_base.Workspace.Terminal.{TerminalError, check_terminal_not_foundation}

-- The first argument of two of them is the source of the name.
pub data GraphError : Type 0 where
  foundation_named : TerminalError → GraphError
  not_a_node : String → String → GraphError
  cannot_be_terminal : String → String → ℕ → GraphError
  dependency_cycle : GraphError
  multiple_candidates : List String → GraphError

pub degree_zero : Dict RepoConfig → Dict ℕ → List String
degree_zero repos [] = []
degree_zero repos ((name, d) ∷ m) =
    let rest = degree_zero repos m in
    if d == 0 && not (is_foundation repos name) then name ∷ rest else rest

pub check_named : Dict RepoConfig → List (String × String) → Option TerminalError
check_named repos [] = none
check_named repos ((source, name) ∷ names) =
    let rest = check_named repos names in
    if str_eq name ""
    then rest
    else elim (check_terminal_not_foundation source name repos) [ err e ↦ some e | ok n ↦ rest ]

abbrev pub explicit : String → String → Dict ℕ → Outcome GraphError String
explicit source name in_degree = elim (lookup name in_degree) [
  | none ↦ err (not_a_node source name)
  | some d ↦ if ltb 0 d then err (cannot_be_terminal source name d) else ok name
]

abbrev pub only_candidate : List String → Outcome GraphError String
only_candidate [] = err dependency_cycle
only_candidate (k ∷ []) = ok k
only_candidate (k ∷ j ∷ ks) = err (multiple_candidates (k ∷ j ∷ ks))

abbrev pub by_tier : WorkspaceConfig → Dict ℕ → String → Outcome GraphError String
by_tier cfg in_degree flag_terminal =
    if not (str_eq flag_terminal "")
    then explicit "--terminal" flag_terminal in_degree
    else if not (str_eq cfg.workspace.terminal "")
    then explicit "workspace.terminal" cfg.workspace.terminal in_degree
    else only_candidate (sort_strings (degree_zero cfg.repos in_degree))

unfoldable pub select_terminal : WorkspaceConfig → Dict ℕ → String → Outcome GraphError String
unfolding degree_zero check_named
select_terminal cfg in_degree flag_terminal =
    elim (check_named cfg.repos
      (("--terminal", flag_terminal) ∷ ("workspace.terminal", cfg.workspace.terminal) ∷ [])) [
        | some e ↦ err (foundation_named e)
        | none ↦ by_tier cfg in_degree flag_terminal
      ]
