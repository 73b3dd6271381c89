-- ===== src/Workspace/Propagate.antt =====
-- propagate.go: workspaceAliasesFromLock, readAliasRevs and propagateWorkspaceEdges, which relocks the
-- inputs of one repository and commits the result. Of the repository there is its flake.lock, in the
-- commit, the index and the working tree. The results of nix and git are an argument, as is the reading
-- of JSON; the lock that nix leaves is an argument also where nix fails.
pub mod Outcome
pub mod Synced
use nix_repo_base.Base.{
  ℕ, ◌+◌, String, ◌≡◌, Bool, true, false, not, ◌&&◌, ◌||◌, Option, none, some, List, [], ◌∷◌, Dict,
  lookup, keep, map, sort_strings, str_eq, if◌then◌else◌,
}
use nix_repo_base.Base.Bytes.{Bytes, bytes_eq}
use nix_repo_base.Workspace.Config.{Lock, LockEdge}

-- The aliases of a consumer's edges.
unfoldable pub workspace_aliases_from_lock : Lock → String → List String
workspace_aliases_from_lock lock consumer =
    sort_strings (map (λ e. e.alias) (keep (λ e. str_eq e.consumer consumer) lock.edges))

-- An input names a node, or follows another one by a path.
pub data Input : Type 0 where
  node_key : String → Input
  follows : List String → Input

pub record Node : Type 0 where
  pub inputs : Dict Input
  pub rev : String

pub record FlakeLock : Type 0 where
  pub root : String
  pub nodes : Dict Node

abbrev pub root_key : FlakeLock → String
root_key f = if str_eq f.root "" then "root" else f.root

abbrev pub rev_in : Option Node → String
rev_in none = ""
rev_in (some n) = n.rev

abbrev pub input_rev : Dict Node → Option Input → String
input_rev nodes none = ""
input_rev nodes (some (follows path)) = ""
input_rev nodes (some (node_key k)) = rev_in (lookup k nodes)

abbrev pub root_rev : FlakeLock → String → Option Node → String
root_rev f alias none = ""
root_rev f alias (some n) = input_rev f.nodes (lookup alias n.inputs)

-- The rev that readAliasRevs finds for an alias; "" stands for a missing one, as in Go's map.
unfoldable pub alias_rev : FlakeLock → String → String
unfolding lookup
alias_rev f alias = root_rev f alias (lookup (root_key f) f.nodes)

pub record Tree : Type 0 where
  pub has_lock : Bool
  pub head : Bytes
  pub index : Bytes
  pub work : Bytes
  pub head_rev : String

-- Which calls succeed, and the rev of the commit, if there is one. `diffs` says whether git can compare.
pub record Results : Type 0 where
  pub diffs : Bool
  pub opens : Bool
  pub restores : Bool
  pub adds : Bool
  pub commit_starts : Bool
  pub commit_ends : Bool
  pub resets : Bool
  pub commit_rev : String

-- What flake.lock holds when nix has ended, with success or with an error.
pub data NixRun : Type 0 where
  relocked_to : Bytes → NixRun
  failed_with : Bytes → NixRun

pub relocked_to-injective : (s t : Bytes) → relocked_to s ≡ relocked_to t → s ≡ t
relocked_to-injective s t e = cc

pub data PropagateError : Type 0 where
  read_before nix_update read_after restore add_lock commit reset : PropagateError

pub data Propagated : Type 0 where
  aborted : PropagateError → Propagated
  no_change : Propagated
  bumped : List String → Propagated

abbrev pub moved_aliases : FlakeLock → FlakeLock → List String → List String
moved_aliases before after aliases =
    keep (λ a. not (str_eq (alias_rev before a) (alias_rev after a))) aliases

module _ (parse : Bytes → Option FlakeLock) (results : Results) where
  -- Add and commit the lock; a commit that fails is rolled back.
  unfoldable pub commit_bump : List String → Tree → Propagated × Tree
  commit_bump changed t =
      if not (results.opens && results.adds)
      then (aborted add_lock, t)
      else if results.commit_starts && results.commit_ends
      then (
        bumped changed,
        record t { index = t.work; head = t.work; head_rev = results.commit_rev },
      )
      else if results.resets
      then (aborted commit, record t { index = t.head; work = t.head })
      else (aborted reset, record t { index = t.work })

  -- A lock with other stamps only is restored.
  unfoldable pub settle_changed : List String → Tree → Propagated × Tree
  unfolding commit_bump
  settle_changed [] t =
      if results.opens && results.restores
      then (no_change, record t { work = t.index })
      else (aborted restore, t)
  settle_changed (a ∷ more) t = commit_bump (a ∷ more) t

  unfoldable pub compare_revs :
      List String → FlakeLock → Tree → Option FlakeLock → Propagated × Tree
  unfolding settle_changed
  compare_revs aliases before t none = (aborted read_after, t)
  compare_revs aliases before t (some after) = settle_changed (moved_aliases before after aliases) t

  -- What follows once nix has ended. Its error is returned at once: the lock stays as nix left it.
  unfoldable pub after_nix : List String → FlakeLock → Tree → NixRun → Propagated × Tree
  unfolding compare_revs
  after_nix aliases before t (failed_with left) = (aborted nix_update, record t { work = left })
  after_nix aliases before t (relocked_to new) =
      let t' = record t { work = new } in
      let rest = compare_revs aliases before t' (parse new) in
      if results.diffs && bytes_eq new t.index then (no_change, t') else rest

  unfoldable pub relock : List String → Tree → NixRun → Option FlakeLock → Propagated × Tree
  unfolding after_nix
  relock aliases t nix none = (aborted read_before, t)
  relock aliases t nix (some before) = after_nix aliases before t nix

  -- `nix` is how `nix flake update` ends.
  unfoldable pub propagate_workspace_edges : List String → NixRun → Tree → Propagated × Tree
  unfolding relock
  propagate_workspace_edges [] nix t = (no_change, t)
  propagate_workspace_edges (a ∷ more) nix t =
      if t.has_lock then relock (a ∷ more) t nix (parse t.work) else (no_change, t)
