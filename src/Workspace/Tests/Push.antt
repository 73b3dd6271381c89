-- ===== src/Workspace/Tests/Push.antt =====
-- A push of two repositories, one of which needs the other.
use nix_repo_base.Base.{
  zero, suc, ap, String, ◌≡◌, refl, sym, Bool, true, false, Option, none, some, List, [], ◌∷◌, All,
  str_eq, if◌then◌else◌, eq_iff, mem, lookup, insert, sort_strings, sort_by,
}
use nix_repo_base.Base.Bytes.{Bytes, bytes_eq}
use nix_repo_base.Workspace.Config.{Lock, LockEdge}
use nix_repo_base.Workspace.Propagate.{
  node_key, FlakeLock, alias_rev, Tree, Results, NixRun, relocked_to, failed_with,
  relocked_to-injective, nix_update, aborted, workspace_aliases_from_lock,
  propagate_workspace_edges,
}
use nix_repo_base.Workspace.Propagate.Outcome.{Outcome, propagate_workspace_edges-Outcome}
use nix_repo_base.Workspace.Push.{PushOptions, Visit, World, push_all}
use nix_repo_base.Workspace.Push.Converges.{IsConverged}
use nix_repo_base.Workspace.Push.Sorted.{push_sorted-IsConverged}
use nix_repo_base.Workspace.Dag.{topo_sort_by_deps}
use nix_repo_base.Workspace.Tests.{
  deps, deps_once, deps_closed, both_once, deps_known, rank, deps_fall,
}

abbrev needs_core : LockEdge
needs_core = record { consumer = "app"; alias = "base"; target = "core" }

abbrev two_repos : Lock
two_repos = record {
  terminal = "app";
  order = "core" ∷ "app" ∷ [];
  repos = [];
  edges = needs_core ∷ [];
}

abbrev pins : String → FlakeLock
pins rev = record {
  root = "";
  nodes =
      ("root", record { inputs = ("base", node_key "n") ∷ []; rev = "" })
      ∷ ("n", record { inputs = []; rev = rev })
      ∷ [];
}

-- Two texts of a lock.
abbrev parse_text : Bytes → Option FlakeLock
parse_text [] = none
parse_text (zero ∷ s) = some (pins "old")
parse_text (suc n ∷ s) = some (pins "new")

-- The lock's text that pins the tip.
abbrev text_of : String → NixRun
text_of rev =
    if str_eq rev "old"
    then relocked_to (0 ∷ [])
    else if str_eq rev "new"
    then relocked_to (1 ∷ [])
    else failed_with []

abbrev nix_of : (String → String) → String → List String → Bytes → NixRun
nix_of tips name aliases old = text_of (tips "core")

Resolved : (String → String) → Bytes → Type 0
Resolved tips new =
    (after : FlakeLock) × (parse_text new ≡ some after) × (alias_rev after "base" ≡ tips "core")

reads_back :
    (tips : String → String) (new : Bytes) (a b : Bool)
    → str_eq (tips "core") "old" ≡ a
    → str_eq (tips "core") "new" ≡ b
    → (if a then relocked_to (0 ∷ []) else if b then relocked_to (1 ∷ []) else failed_with [])
      ≡ relocked_to new
    → Resolved tips new
unfolding alias_rev Resolved
reads_back tips new true b h l e = (
  pins "old",
  ap parse_text (sym (relocked_to-injective (0 ∷ []) new e)),
  sym ((eq_iff (tips "core") "old").0 h),
)
reads_back tips new false true h l e = (
  pins "new",
  ap parse_text (sym (relocked_to-injective (1 ∷ []) new e)),
  sym ((eq_iff (tips "core") "new").0 l),
)
reads_back tips new false false h l e = cc

resolves :
    (tips : String → String) (name : String) (old new : Bytes)
    → nix_of tips name (workspace_aliases_from_lock two_repos name) old ≡ relocked_to new
    → (after : FlakeLock) × (parse_text new ≡ some after)
      × All
          (λ e. str_eq e.consumer name ≡ true → alias_rev after e.alias ≡ tips e.target)
          two_repos.edges
unfolding Resolved
resolves tips name old new e =
    let (after, read, rev) =
      reads_back tips new (str_eq (tips "core") "old") (str_eq (tips "core") "new") refl refl e in
    (after, read, (λ mine. rev, tt))

abbrev options : PushOptions
options = record { set_upstream = false; remote = ""; no_siblings = false }

abbrev all_well : Results
all_well = record {
  diffs = true;
  opens = true;
  restores = true;
  adds = true;
  commit_starts = true;
  commit_ends = true;
  resets = true;
  commit_rev = "bump";
}

abbrev visits : String → Visit
visits name = record {
  is_repo = true;
  probes = true;
  has_other_changes = false;
  results = all_well;
  has_upstream = true;
  branch = some "main";
  config = record {
    remotes = some ("origin" ∷ []);
    branch_push_remote = "";
    local_push_default = "";
    global_push_default = "";
  };
  pushes = true;
}

abbrev locked_at : Bytes → String → Tree
locked_at text rev = record {
  has_lock = true;
  head = text;
  index = text;
  work = text;
  head_rev = rev;
}

-- A commit of core is not published yet, and the lock of app pins the one before it.
abbrev before_push : World
before_push name =
    if str_eq name "core"
    then record { tree = locked_at (0 ∷ []) "new"; tip = "old" }
    else record { tree = locked_at (0 ∷ []) "app"; tip = "app" }

no_error :
    (push_all parse_text nix_of options
      (some two_repos)
      visits
      ("core" ∷ "app" ∷ [])
      []
      before_push).error
    ≡ none
unfolding push_all alias_rev bytes_eq sort_strings sort_by lookup
no_error = refl

bumped_lock :
    (push_all parse_text nix_of options
        (some two_repos)
        visits
        ("core" ∷ "app" ∷ [])
        []
        before_push).world
      "app"
    ≡ record { tree = locked_at (1 ∷ []) "bump"; tip = "bump" }
unfolding push_all alias_rev bytes_eq sort_strings sort_by lookup
bumped_lock = refl

sorted_no_error :
    (push_all parse_text nix_of options
      (some two_repos)
      visits
      (topo_sort_by_deps ("app" ∷ "core" ∷ []) deps)
      []
      before_push).error
    ≡ none
unfolding push_all alias_rev bytes_eq sort_strings sort_by lookup insert mem topo_sort_by_deps
sorted_no_error = refl

push_sorted-IsConverged_example :
    All
      (IsConverged parse_text nix_of two_repos resolves options visits
        (push_all parse_text nix_of options
          (some two_repos)
          visits
          (topo_sort_by_deps ("app" ∷ "core" ∷ []) deps)
          []
          before_push).world)
      (topo_sort_by_deps ("app" ∷ "core" ∷ []) deps)
unfolding mem lookup topo_sort_by_deps sort_strings sort_by insert
push_sorted-IsConverged_example =
    push_sorted-IsConverged parse_text nix_of two_repos resolves options visits
      ("app" ∷ "core" ∷ []) deps deps_once deps_closed both_once deps_known rank deps_fall
      (refl, tt) before_push ((refl, refl), ((refl, refl), tt)) sorted_no_error

-- An index that cannot be written leaves the new lock in the working tree.
left_dirty :
    (propagate_workspace_edges parse_text
      (record all_well { adds = false })
      ("base" ∷ [])
      (relocked_to (1 ∷ []))
      (locked_at (0 ∷ []) "app")).1.work
    ≡ 1 ∷ []
unfolding propagate_workspace_edges alias_rev bytes_eq lookup
left_dirty = refl

-- An error from nix leaves the lock that nix wrote.
left_by_nix :
    propagate_workspace_edges parse_text all_well
      ("base" ∷ [])
      (failed_with (1 ∷ []))
      (locked_at (0 ∷ []) "app")
    ≡ (
      aborted nix_update,
      record { has_lock = true; head = 0 ∷ []; index = 0 ∷ []; work = 1 ∷ []; head_rev = "app" },
    )
unfolding propagate_workspace_edges alias_rev bytes_eq lookup
left_by_nix = refl

propagate_workspace_edges-Outcome_example :
    Outcome parse_text all_well (relocked_to (1 ∷ [])) ("base" ∷ []) (locked_at (0 ∷ []) "app") (
      propagate_workspace_edges parse_text all_well
        ("base" ∷ [])
        (relocked_to (1 ∷ []))
        (locked_at (0 ∷ []) "app"))
propagate_workspace_edges-Outcome_example =
    propagate_workspace_edges-Outcome parse_text all_well (relocked_to (1 ∷ [])) ("base" ∷ [])
      (locked_at (0 ∷ []) "app") (refl, refl)
