-- ===== src/Workspace/Push.antt =====
-- push.go: resolvePushRemote, relockSiblingsBeforePush and Push, over the repositories of a workspace and
-- the tips of their remotes. What git answers at each repository is an argument, as is what nix makes of
-- a lock, from the tips at that time.
pub mod Relocks
pub mod Converges
pub mod Sorted
use nix_repo_base.Base.{
  ℕ, String, Bool, true, false, not, ◌&&◌, ◌||◌, Option, none, some, List, [], ◌∷◌, ◌++◌, mem,
  str_eq, if◌then◌else◌,
}
use nix_repo_base.Base.Bytes.{Bytes, bytes_eq}
use nix_repo_base.Workspace.Config.{Lock}
use nix_repo_base.Workspace.Propagate.{
  FlakeLock, Tree, Results, NixRun, PropagateError, Propagated, aborted, no_change, bumped,
  workspace_aliases_from_lock, propagate_workspace_edges,
}

-- The keys of git's configuration, "" where a key is not set.
pub record RemoteConfig : Type 0 where
  pub remotes : Option (List String)
  pub branch_push_remote : String
  pub local_push_default : String
  pub global_push_default : String

abbrev pub or_origin : List String → Option String
or_origin remotes = if mem "origin" remotes then some "origin" else none

abbrev pub set_or : String → Option String → Option String
set_or v otherwise = if str_eq v "" then otherwise else some v

abbrev pub configured_remote : RemoteConfig → String → List String → Option String
configured_remote config branch remotes =
    set_or (if str_eq branch "" then "" else config.branch_push_remote)
      (set_or config.local_push_default (set_or config.global_push_default (or_origin remotes)))

abbrev pub among : RemoteConfig → String → List String → Option String
among config branch (r ∷ []) = some r
among config branch remotes = configured_remote config branch remotes

abbrev pub remote_of : RemoteConfig → String → String → Option (List String) → Option String
remote_of config branch flag_override none = none
remote_of config branch flag_override (some remotes) =
    if str_eq flag_override ""
    then among config branch remotes
    else if mem flag_override remotes
    then some flag_override
    else none

unfoldable pub resolve_push_remote : RemoteConfig → String → String → Option String
unfolding mem
resolve_push_remote config branch flag_override =
    remote_of config branch flag_override config.remotes

pub record PushOptions : Type 0 where
  pub set_upstream : Bool
  pub remote : String
  pub no_siblings : Bool

-- `tip` is the rev that the URL of the repository resolves to.
pub record Repo : Type 0 where
  pub tree : Tree
  pub tip : String

-- What git answers at a repository.
pub record Visit : Type 0 where
  pub is_repo : Bool
  pub probes : Bool
  pub has_other_changes : Bool
  pub results : Results
  pub has_upstream : Bool
  pub branch : Option String
  pub config : RemoteConfig
  pub pushes : Bool

pub data PushError : Type 0 where
  probe_failed dirty_tree : PushError
  relock_failed : PropagateError → PushError
  no_branch push_failed : PushError

abbrev pub is_dirty : Visit → Tree → Bool
is_dirty visit t =
    not (bytes_eq t.work t.index) || not (bytes_eq t.index t.head) || visit.has_other_changes

abbrev pub relocked : Propagated × Tree → Option PushError × Tree
relocked (aborted e, t) = (some (relock_failed e), t)
relocked (no_change, t) = (none, t)
relocked (bumped changed, t) = (none, t)

unfoldable pub relock_siblings_before_push :
    (Bytes → Option FlakeLock) → Visit → List String → NixRun → Tree → Option PushError × Tree
unfolding propagate_workspace_edges
relock_siblings_before_push parse visit [] nix t = (none, t)
relock_siblings_before_push parse visit (a ∷ more) nix t =
    if not visit.is_repo
    then (none, t)
    else if not visit.probes
    then (some probe_failed, t)
    else if is_dirty visit t
    then (some dirty_tree, t)
    else relocked (propagate_workspace_edges parse visit.results (a ∷ more) nix t)

-- A push makes the head the tip.
abbrev pub pushed_if : Bool → Tree → Repo → Option PushError × Repo
pushed_if true t r = (none, record { tree = t; tip = t.head_rev })
pushed_if false t r = (some push_failed, record r { tree = t })

-- A branch without a remote to push to is skipped.
abbrev pub push_to : Option String → Bool → Tree → Repo → Option PushError × Repo
push_to none pushes t r = (none, record r { tree = t })
push_to (some remote) pushes t r = pushed_if pushes t r

abbrev pub push_branch : PushOptions → Visit → Option String → Tree → Repo → Option PushError × Repo
unfolding resolve_push_remote
push_branch options visit none t r = (some no_branch, record r { tree = t })
push_branch options visit (some branch) t r =
    push_to (resolve_push_remote visit.config branch options.remote) visit.pushes t r

unfoldable pub push_repo : PushOptions → Visit → Tree → Repo → Option PushError × Repo
push_repo options visit t r =
    if visit.has_upstream
    then pushed_if visit.pushes t r
    else if options.set_upstream
    then push_branch options visit visit.branch t r
    else (none, record r { tree = t })

unfoldable pub after_relock :
    PushOptions → Visit → Repo → Option PushError × Tree → Option PushError × Repo
unfolding push_repo
after_relock options visit r (some e, t) = (some e, record r { tree = t })
after_relock options visit r (none, t) = push_repo options visit t r

abbrev pub World : Type 0
World = String → Repo

abbrev pub store : String → Repo → World → World
store name r w = λ k. if str_eq name k then r else w k

-- The lock whose edges are propagated: none with --no-siblings, in a workforest set, or where it cannot
-- be derived.
abbrev pub edge_lock : PushOptions → Bool → Option Lock → Option Lock
edge_lock options in_workforest derived =
    if options.no_siblings || in_workforest then none else derived

abbrev pub aliases_in : Option Lock → String → List String
aliases_in none name = []
aliases_in (some lock) name = workspace_aliases_from_lock lock name

module _ (parse : Bytes → Option FlakeLock)
    (nix : (String → String) → String → List String → Bytes → NixRun) (options : PushOptions)
    (edges : Option Lock) (visits : String → Visit) where
  unfoldable pub visit_repo : String → World → Option PushError × Repo
  unfolding after_relock relock_siblings_before_push workspace_aliases_from_lock
  visit_repo name w =
      let r = w name in
      after_relock options (visits name) r (
        relock_siblings_before_push parse (visits name) (aliases_in edges name)
          (nix (λ k. (w k).tip) name (aliases_in edges name) r.tree.work) r.tree)

  pub record Pushed : Type 0 where
    pub error : Option PushError
    pub completed : List String
    pub world : World

  -- The error of a repository ends the walk, with the ones completed.
  unfoldable pub walked :
      Option PushError → (List String → World → Pushed) → String → List String → World → Pushed
  walked (some e) next name completed w = record {
    error = some e;
    completed = completed;
    world = w;
  }
  walked none next name completed w = next (completed ++ name ∷ []) w

  unfoldable pub push_all : List String → List String → World → Pushed
  unfolding visit_repo walked
  push_all [] completed w = record { error = none; completed = completed; world = w }
  push_all (name ∷ names) completed w =
      walked (visit_repo name w).0 (push_all names) name completed
        (store name (visit_repo name w).1 w)
