-- ===== src/Workspace/Tests/Effective.antt =====
-- Overrides, the effective lock, the order and the graph's terminal of the small workspace.
use nix_repo_base.Base.{
  arith, String, ◌≡◌, refl, Bool, true, not, one_if, All, ◌&&◌, none, some, List, [], ◌∷◌, Dict,
  lookup, insert, mem, count, total, sort_by, sort_strings, str_eq, ok, err,
}
use nix_repo_base.Workspace.Config.{LockEdge}
use nix_repo_base.Workspace.Dag.{deps_of, topo_sort_by_deps}
use nix_repo_base.Workspace.Edges.{keys, ordered_repo_names, tabulate}
use nix_repo_base.Workspace.Lock.{has_key, all_keys_in, lock_matches_config}
use nix_repo_base.Workspace.Overrides.{
  OverrideOpts, ResolvedOverride, resolve_overrides_for_lock, overridden_inputs,
  override_input_args,
}
use nix_repo_base.Workspace.Overrides.Record.{overrides_sound}
use nix_repo_base.Workspace.Effective.{Workspace, effective_lock, topo_alpha, build_dag}
use nix_repo_base.Workspace.Effective.Orders.{count-topo_alpha}
use nix_repo_base.Workspace.Effective.Covers.{effective_lock-covers, build_dag_sound}
use nix_repo_base.Workspace.Graph.{multiple_candidates, select_terminal}
use nix_repo_base.Workspace.Graph.Choice.{is_sink, named, select_terminal_sound}
use nix_repo_base.Workspace.Edges.{is_foundation}
use nix_repo_base.Base.{ℕ, if◌then◌else◌}
use nix_repo_base.Workspace.Tests.{aliases_once, both_once, app_core}
use nix_repo_base.Workspace.Tests.Derived.{cfg, cloned, derived}

abbrev opts : OverrideOpts
opts = record { exclude_repo = "app"; override_paths = ("core", "/wt/core") ∷ [] }

-- Of these targets one is excluded, and one has no checkout.
abbrev edges : List LockEdge
edges =
    app_core
    ∷ record { consumer = "app"; alias = "own"; target = "app" }
    ∷ record { consumer = "app"; alias = "tools"; target = "gone" }
    ∷ []

abbrev here : String → Bool
here dir = not (str_eq dir "gone")

abbrev overrides : List ResolvedOverride
overrides =
    resolve_overrides_for_lock (λ k. k) here (some (record derived { edges = edges })) "app" opts

overrides_of_edges : overrides ≡ record { alias = "base"; target = "core"; dir = "/wt/core" } ∷ []
unfolding resolve_overrides_for_lock lookup sort_by
overrides_of_edges = refl

overrides_sound_example :
    (total (λ o. one_if (str_eq o.alias "tools" && str_eq o.target "gone")) overrides ≡ 0)
    × All
        (λ o.
          o.dir
          ≡ (elim (lookup o.target opts.override_paths) [ some given ↦ given | none ↦ o.target ]))
        overrides
    × (lookup "gone" (overridden_inputs overrides) ≡ none)
unfolding lookup
overrides_sound_example =
    overrides_sound (λ k. k) here "app" opts (record derived { edges = edges }) "tools" "gone"

emitted_args :
    override_input_args (resolve_overrides_for_lock (λ k. k) (λ d. true) (some derived) "app" opts)
    ≡ "--override-input" ∷ "base" ∷ "git+file:///wt/core" ∷ []
unfolding override_input_args resolve_overrides_for_lock lookup sort_by
emitted_args = refl

abbrev current : Workspace
current = record { config = cfg; lock = some derived }

abbrev unlocked : Workspace
unlocked = record { config = cfg; lock = none }

current_lock : effective_lock current cloned ≡ ok (derived, [])
unfolding effective_lock lock_matches_config all_keys_in lookup
current_lock = refl

effective_lock-covers_example : has_key "core" derived.repos ≡ has_key "core" cfg.repos
effective_lock-covers_example =
    effective_lock-covers current cloned derived [] both_once both_once current_lock "core"

-- An input named like a repository makes an edge here; others and repetitions do not.
abbrev declared : Dict (List String)
declared = ("app", "nixpkgs" ∷ "core" ∷ "app" ∷ "core" ∷ []) ∷ []

built_dag : build_dag cfg declared ≡ ("core" ∷ "app" ∷ [], ("app", "core" ∷ []) ∷ [])
unfolding build_dag topo_sort_by_deps sort_strings sort_by lookup insert mem ordered_repo_names
    tabulate
built_dag = refl

build_dag_sound_example :
    (count "app" (build_dag cfg declared).0 ≡ count "app" (keys cfg.repos))
    × (mem "core" (deps_of (build_dag cfg declared).1 "app") ≡ (
        mem "app" (keys cfg.repos)
        && mem "core" (keys cfg.repos)
        && not (str_eq "core" "app")
        && mem "core" (deps_of declared "app")))
build_dag_sound_example = build_dag_sound cfg declared "app" "core" both_once

count-topo_alpha_example : count "app" (topo_alpha unlocked cloned) ≡ count "app" (keys cfg.repos)
count-topo_alpha_example =
    count-topo_alpha unlocked cloned both_once aliases_once (λ k. omega arith) (λ k. refl) "app"

kept_order : topo_alpha current cloned ≡ "core" ∷ "app" ∷ []
unfolding topo_alpha lock_matches_config all_keys_in lookup
kept_order = refl

abbrev in_degree : Dict ℕ
in_degree = ("app", 0) ∷ ("core", 1) ∷ []

selected : select_terminal cfg in_degree "" ≡ ok "app"
unfolding select_terminal sort_strings sort_by is_foundation lookup insert
selected = refl

-- Without edges there is a choice to make.
two_sinks :
    select_terminal cfg (("app", 0) ∷ ("core", 0) ∷ []) ""
    ≡ err (multiple_candidates ("app" ∷ "core" ∷ []))
unfolding select_terminal sort_strings sort_by is_foundation lookup insert
two_sinks = refl

select_terminal_sound_example :
    (is_sink cfg.repos in_degree "app" ≡ true)
    × ((if str_eq (named cfg "") ""
          then is_sink cfg.repos in_degree "core"
          else str_eq (named cfg "") "core")
        ≡ str_eq "app" "core")
select_terminal_sound_example =
    select_terminal_sound cfg in_degree "" "app" "core" both_once selected
