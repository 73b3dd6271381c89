-- ===== src/Workspace/Overrides.antt =====
-- helpers.go: the local checkouts that replace a consumer's flake inputs. `clone_dir` is the directory
-- of a repository under the root and `dir_exists` what is on disk.
pub mod Record
use Prim.Native.String.{◌++◌}
use nix_repo_base.Base.{
  String, Bool, true, false, not, ◌&&◌, Option, none, some, List, [], ◌∷◌, Dict, lookup, insert,
  sort_by, sort_strings, str_eq, str_lt, if◌then◌else◌,
}
use nix_repo_base.Workspace.Config.{LockEdge, Lock}

pub record OverrideOpts : Type 0 where
  pub exclude_repo : String
  pub override_paths : Dict String

pub record ResolvedOverride : Type 0 where
  pub alias : String
  pub target : String
  pub dir : String

abbrev pub by_alias : ResolvedOverride → ResolvedOverride → Bool
by_alias a b = str_lt a.alias b.alias

module _ (clone_dir : String → String) (dir_exists : String → Bool) where
  abbrev pub dir_of : OverrideOpts → String → String
  dir_of opts target = elim (lookup target opts.override_paths) [
    | none ↦ clone_dir target
    | some ov ↦ ov
  ]

  -- The edges that the loop does not skip.
  abbrev pub is_overridden : String → OverrideOpts → LockEdge → Bool
  is_overridden consumer opts e =
      str_eq e.consumer consumer
      && not (not (str_eq opts.exclude_repo "") && str_eq e.target opts.exclude_repo)
      && dir_exists (dir_of opts e.target)

  unfoldable pub collect : String → OverrideOpts → List LockEdge → List ResolvedOverride
  collect consumer opts [] = []
  collect consumer opts (e ∷ es) =
      let rest = collect consumer opts es in
      if is_overridden consumer opts e
      then record { alias = e.alias; target = e.target; dir = dir_of opts e.target } ∷ rest
      else rest

  unfoldable pub resolve_overrides_for_lock :
      Option Lock → String → OverrideOpts → List ResolvedOverride
  unfolding collect
  resolve_overrides_for_lock none consumer opts = []
  resolve_overrides_for_lock (some lk) consumer opts =
      sort_by by_alias (collect consumer opts lk.edges)

abbrev pub file_url : String → String
file_url dir = "git+file://" ++ dir

unfoldable pub override_input_args : List ResolvedOverride → List String
override_input_args [] = []
override_input_args (o ∷ rs) =
    "--override-input" ∷ o.alias ∷ file_url o.dir ∷ override_input_args rs

record_all : List ResolvedOverride → Dict String → Dict String
record_all [] m = m
record_all (o ∷ rs) m = record_all rs (insert o.target (file_url o.dir) m)

unfoldable pub overridden_inputs : List ResolvedOverride → Dict String
unfolding record_all
overridden_inputs rs = record_all rs []

aliases_of : String → List LockEdge → List String
aliases_of consumer [] = []
aliases_of consumer (e ∷ es) =
    let rest = aliases_of consumer es in if str_eq e.consumer consumer then e.alias ∷ rest else rest

unfoldable pub workspace_input_names_from_edges : Option Lock → String → List String
unfolding aliases_of
workspace_input_names_from_edges none consumer = []
workspace_input_names_from_edges (some lk) consumer = sort_strings (aliases_of consumer lk.edges)

display_names : String → List LockEdge → Dict String → Dict String
display_names consumer [] m = m
display_names consumer (e ∷ es) m =
    display_names consumer es (if str_eq e.consumer consumer then insert e.alias e.target m else m)

unfoldable pub workspace_display_names_from_edges : Option Lock → String → Dict String
unfolding display_names
workspace_display_names_from_edges none consumer = []
workspace_display_names_from_edges (some lk) consumer = display_names consumer lk.edges []
