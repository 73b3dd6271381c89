-- ===== src/Workspace/Tests/Derived.antt =====
-- The terminal and the derived lock of the small workspace, whose target may not be cloned.
use nix_repo_base.Base.{sort_strings, sort_by, lookup, mem, delete, insert}
use nix_repo_base.Workspace.Terminal.{flake_repos, check_terminal_not_foundation}
use nix_repo_base.Workspace.Edges.{is_foundation}
use nix_repo_base.Workspace.Url.{display_url, canonical_url}
use nix_repo_base.Base.Bytes.{bytes_eq}
use nix_repo_base.Workspace.Lock.{written_lock}
use nix_repo_base.Workspace.Dag.{topo_sort_by_deps}
use nix_repo_base.Base.{
  String, ◌≡◌, refl, ◌↔◌, inl, inr, true, false, not, ◌&&◌, none, some, [], ◌∷◌, Dict, any, one_if,
  All, str_eq, if◌then◌else◌, arith, ok,
}
use nix_repo_base.Base.Bytes.{ascii}
use nix_repo_base.Workspace.Config.{WorkspaceConfig, LockRepoEntry, Lock}
use nix_repo_base.Workspace.Edges.{build_edges}
use nix_repo_base.Workspace.Edges.Foundation.{NeedsFirst, needs, build_edges-NeedsFirst}
use nix_repo_base.Workspace.Lock.{parse_lock, empty_flake_path}
use nix_repo_base.Workspace.Terminal.{
  terminal_not_sink, auto_detect_terminal, resolve_terminal, consumers_of, foundation_keys,
}
use nix_repo_base.Workspace.Terminal.Detect.{is_candidate, auto_detect_iff}
use nix_repo_base.Workspace.Terminal.Resolve.{Usable, preferred, resolve_terminal_sound}
use nix_repo_base.Workspace.Derive.{Disk, write_derived_lock}
use nix_repo_base.Workspace.Derive.Valid.{
  HasTarget, write_derived_lock_iff, write_derived_lock-parse_lock,
}
use nix_repo_base.Workspace.Tests.{
  repos, input_urls, app_core, both_once, aliases_once, found_edges,
}

abbrev pub cfg : WorkspaceConfig
cfg = record {
  workspace = record {
    name = "small";
    description = "";
    id = "";
    terminal = "";
    build_command = "";
    apply_command = "";
    activate_command = "";
    workforests_dir = "";
    warn_builds = none;
  };
  repos = repos;
  hooks = [];
}

build_edges-NeedsFirst_example : NeedsFirst (needs repos (app_core ∷ [])) [] ("core" ∷ "app" ∷ [])
build_edges-NeedsFirst_example =
    build_edges-NeedsFirst repos input_urls both_once aliases_once (app_core ∷ [])
      ("core" ∷ "app" ∷ []) found_edges (λ k. one_if (str_eq "app" k)) (inr (omega arith), tt)

abbrev entries : Dict LockRepoEntry
entries =
    ("app", record { flake_path = "flake.nix"; remote_url = ascii "github:o/app" })
    ∷ ("core", record { flake_path = "flake.nix"; remote_url = ascii "git@github.com:o/core.git" })
    ∷ []

auto_detect_iff_example :
    (auto_detect_terminal (app_core ∷ []) entries [] ≡ "app")
    ↔ ((k : String) → is_candidate (app_core ∷ []) entries [] k ≡ str_eq "app" k)
auto_detect_iff_example = auto_detect_iff (app_core ∷ []) entries [] "app" both_once refl

app_chosen : auto_detect_terminal (app_core ∷ []) entries [] ≡ "app"
unfolding auto_detect_terminal sort_strings sort_by flake_repos lookup mem delete
app_chosen = refl

resolved :
    resolve_terminal (some cfg) "core" (app_core ∷ []) entries
    ≡ ok ("core", terminal_not_sink "core" ("app" ∷ []) ∷ [])
unfolding resolve_terminal lookup check_terminal_not_foundation is_foundation consumers_of
    sort_strings sort_by mem
resolved = refl

-- The flag names a repository that another one consumes.
resolve_terminal_sound_example :
    ("core" ≡ preferred (some cfg) "core" (app_core ∷ []) entries)
    × Usable (some cfg) entries "core"
    × (terminal_not_sink "core" ("app" ∷ []) ∷ [] ≡ (
        if not (str_eq "core" "") && any (λ e. str_eq e.target "core") (app_core ∷ [])
        then terminal_not_sink "core" (consumers_of "core" (app_core ∷ [])) ∷ []
        else []))
resolve_terminal_sound_example =
    resolve_terminal_sound (some cfg) "core" (app_core ∷ []) entries "core"
      (terminal_not_sink "core" ("app" ∷ []) ∷ []) resolved

abbrev pub cloned : Disk
cloned = record {
  flake_path = λ k. "flake.nix";
  dir_exists = λ k. true;
  input_urls = input_urls;
  failed = [];
}

abbrev pub derived : Lock
derived = record {
  terminal = "app";
  order = "core" ∷ "app" ∷ [];
  repos = entries;
  edges = app_core ∷ [];
}

cloned_written : write_derived_lock cfg "" false cloned ≡ ok derived
unfolding write_derived_lock build_edges sort_strings sort_by lookup display_url canonical_url
    bytes_eq mem resolve_terminal auto_detect_terminal flake_repos foundation_keys is_foundation
    delete consumers_of written_lock topo_sort_by_deps insert
cloned_written = refl

write_derived_lock_iff_example :
    (parse_lock derived ≡ none) ↔ All (HasTarget derived.repos) derived.edges
write_derived_lock_iff_example =
    write_derived_lock_iff cfg "" false cloned derived both_once aliases_once (inl refl)
      cloned_written

write_derived_lock-parse_lock_example : parse_lock derived ≡ none
write_derived_lock-parse_lock_example =
    write_derived_lock-parse_lock cfg "" false cloned derived both_once aliases_once (inl refl)
      cloned_written (refl, tt)

-- With the target not cloned and the terminal named, the lock is written and cannot be read again.
abbrev not_cloned : Disk
not_cloned = record cloned {
  flake_path = λ k. if str_eq k "core" then "" else "flake.nix";
  dir_exists = λ k. not (str_eq k "core");
}

abbrev partial_lock : Lock
partial_lock = record derived {
  repos =
      ("app", record { flake_path = "flake.nix"; remote_url = ascii "github:o/app" })
      ∷ ("core", record { flake_path = ""; remote_url = ascii "git@github.com:o/core.git" })
      ∷ [];
}

partial_written : write_derived_lock cfg "app" false not_cloned ≡ ok partial_lock
unfolding write_derived_lock build_edges sort_strings sort_by lookup display_url canonical_url
    bytes_eq mem resolve_terminal auto_detect_terminal flake_repos foundation_keys is_foundation
    delete consumers_of written_lock topo_sort_by_deps insert check_terminal_not_foundation
partial_written = refl

partial_rejected : parse_lock partial_lock ≡ some (empty_flake_path 0)
unfolding parse_lock lookup
partial_rejected = refl
