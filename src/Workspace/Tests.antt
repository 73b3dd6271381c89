-- ===== src/Workspace/Tests.antt =====
-- Small workspaces: edges, orders and locks computed and checked.
pub mod Derived
pub mod Publish
pub mod Effective
pub mod RunLock
pub mod Push
pub mod Rebase
use nix_repo_base.Base.{ok, err}
use nix_repo_base.Base.{sort_strings, sort_by, insert}
use nix_repo_base.Workspace.Url.{display_url, canonical_url}
use nix_repo_base.Base.Bytes.{bytes_eq}
use nix_repo_base.Workspace.Edges.{is_foundation}
use nix_repo_base.Base.{
  ℕ, ◌+◌, ◌≤◌, ◌<◌, String, ◌≡◌, ◌≢◌, refl, true, false, none, some, List, [], ◌∷◌, Dict, lookup,
  mem, count, one_if, total, keep, All, str_eq, str_eq-apart, arith, Bool-cases, ◌↔◌,
}
use nix_repo_base.Base.Bytes.{ascii}
use nix_repo_base.Workspace.Config.{RepoConfig, LockRepoEntry, LockEdge, Lock, InputSpec}
use nix_repo_base.Workspace.Dag.{deps_of, topo_sort_by_deps}
use nix_repo_base.Workspace.Dag.Counts.{HasDistinctKeys}
use nix_repo_base.Workspace.Dag.Order.{count-topo_sort, topo_sort-DepsFirst}
use nix_repo_base.Workspace.Dag.Order.Loop.{DepsFirst}
use nix_repo_base.Workspace.Edges.{nil_map_write, build_edges, keys, ordered_repo_names, specs_of}
use nix_repo_base.Workspace.Edges.Valid.{Joins}
use nix_repo_base.Workspace.Edges.Order.{build_edges-edges, build_edges-order, build_edges-no_panic}
use nix_repo_base.Workspace.Lock.{parse_lock, filter_lock, excluded_dep_edges}
use nix_repo_base.Workspace.Lock.Valid.{
  IsValid, HasUniqueAliases, parse_lock_iff, filter_lock-parse_lock, filter_lock-excluded,
}

abbrev pub repo_at : String → RepoConfig
repo_at url = record {
  url = ascii url;
  branch = "main";
  remotes = [];
  slug = "";
  mirror_urls = [];
  foundation = false;
  flake_path = "";
  hooks = [];
}

abbrev pub repos : Dict RepoConfig
repos = ("app", repo_at "github:o/app") ∷ ("core", repo_at "git@github.com:o/core.git") ∷ []

abbrev pub input_urls : Dict (Dict InputSpec)
input_urls =
    ("app", ("base", record { url = ascii "https://github.com/o/core"; flake = true }) ∷ []) ∷ []

abbrev pub app_core : LockEdge
app_core = record { consumer = "app"; alias = "base"; target = "core" }

abbrev pub found : List LockEdge × List String
found = (app_core ∷ [], "core" ∷ "app" ∷ [])

pub found_edges : build_edges repos input_urls ≡ ok found
unfolding build_edges sort_strings sort_by lookup display_url canonical_url bytes_eq mem
    topo_sort_by_deps is_foundation insert
found_edges = refl

pub both_once : (k : String) → count k ("app" ∷ "core" ∷ []) ≤ 1
both_once k = ground (arith, str_eq-apart "app" "core" k refl)

pub aliases_once : (c x : String) → count x (keys (specs_of input_urls c)) ≤ 1
unfolding lookup
aliases_once c x = ground (arith, Bool-cases (str_eq "app" c))

build_edges-edges_example :
    All (Joins (ordered_repo_names repos)) (app_core ∷ []) × HasUniqueAliases (app_core ∷ [])
build_edges-edges_example =
    build_edges-edges repos input_urls both_once aliases_once (app_core ∷ []) ("core" ∷ "app" ∷ [])
      found_edges

build_edges-order_example : count "core" ("core" ∷ "app" ∷ []) ≡ 1
build_edges-order_example =
    build_edges-order repos input_urls both_once aliases_once (app_core ∷ []) ("core" ∷ "app" ∷ [])
      found_edges "core"

build_edges-no_panic_example : build_edges repos input_urls ≢ err nil_map_write
build_edges-no_panic_example = build_edges-no_panic repos input_urls

abbrev deps : Dict (List String)
deps = ("app", "core" ∷ []) ∷ []

deps_once : HasDistinctKeys deps
unfolding lookup
deps_once = (refl, tt)

deps_closed : (k : String) → mem k ("app" ∷ "core" ∷ []) ≡ false → deps_of deps k ≡ []
unfolding lookup mem
deps_closed k h = ground arith

deps_known : (k j : String) → mem j (deps_of deps k) ≡ true → mem j ("app" ∷ "core" ∷ []) ≡ true
unfolding lookup mem
deps_known k j h = ground arith

abbrev rank : String → ℕ
rank k = one_if (str_eq "app" k)

deps_fall : (k j : String) → mem j (deps_of deps k) ≡ true → rank j < rank k
unfolding lookup mem
deps_fall k j h = ground (arith, str_eq-apart "core" "app" j refl)

count-topo_sort_example :
    count "core" (topo_sort_by_deps ("app" ∷ "core" ∷ []) deps) ≡ count "core" ("app" ∷ "core" ∷ [])
count-topo_sort_example =
    count-topo_sort ("app" ∷ "core" ∷ []) deps deps_once deps_closed both_once "core"

topo_sort-DepsFirst_example : DepsFirst deps [] (topo_sort_by_deps ("app" ∷ "core" ∷ []) deps)
topo_sort-DepsFirst_example =
    topo_sort-DepsFirst ("app" ∷ "core" ∷ []) deps deps_once deps_closed both_once deps_known rank
      deps_fall

-- A cycle is ordered alphabetically.
cycle :
    topo_sort_by_deps ("app" ∷ "core" ∷ []) (("app", "core" ∷ []) ∷ ("core", "app" ∷ []) ∷ [])
    ≡ "app" ∷ "core" ∷ []
unfolding topo_sort_by_deps sort_strings sort_by lookup insert mem
cycle = refl

abbrev entry : String → LockRepoEntry
entry path = record { flake_path = path; remote_url = [] }

abbrev lock : Lock
lock = record {
  terminal = "app";
  order = "core" ∷ "app" ∷ [];
  repos = ("app", entry "flake.nix") ∷ ("core", entry "flake.nix") ∷ [];
  edges = app_core ∷ [];
}

lock_parses : parse_lock lock ≡ none
unfolding parse_lock lookup
lock_parses = refl

parse_lock_iff_example : (parse_lock lock ≡ none) ↔ IsValid lock
parse_lock_iff_example = parse_lock_iff lock

filter_lock-parse_lock_example :
    (parse_lock (filter_lock (some lock) ("app" ∷ [])) ≡ none)
    × (parse_lock (filter_lock none ("app" ∷ [])) ≡ none)
filter_lock-parse_lock_example = filter_lock-parse_lock lock ("app" ∷ []) lock_parses

filter_lock-excluded_example :
    total (λ e. 1) (filter_lock (some lock) ("app" ∷ [])).edges
      + total (λ e. 1) (excluded_dep_edges (some lock) ("app" ∷ []))
    ≡ total (λ e. 1) (keep (λ e. mem e.consumer ("app" ∷ [])) lock.edges)
filter_lock-excluded_example = filter_lock-excluded (λ e. 1) lock ("app" ∷ [])
