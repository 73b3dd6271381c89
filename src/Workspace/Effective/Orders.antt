-- ===== src/Workspace/Effective/Orders.antt =====
-- The order that topoAlpha gives lists each repository of the configuration once.
use nix_repo_base.Base.{
  ◌≤◌, String, ◌≡◌, refl, ap, sym, ◌∙◌, true, Option, none, some, List, [], ◌∷◌, mem-count, count,
  total-sort_strings, is_name, arith, Bool-cases, inl, inr, Outcome, ok, err, ok-injective, bind_ok,
}
use nix_repo_base.Workspace.Config.{WorkspaceConfig, Lock}
use nix_repo_base.Workspace.Edges.{keys, specs_of, ordered_repo_names, build_edges}
use nix_repo_base.Workspace.Edges.Order.{build_edges-order}
use nix_repo_base.Workspace.Lock.{lock_matches_config}
use nix_repo_base.Workspace.Terminal.{Issue, resolve_terminal}
use nix_repo_base.Workspace.Derive.{
  Disk, DeriveError, edges_failed, terminal_failed, wrapped, lock_entries, derive_lock,
}
use nix_repo_base.Workspace.Derive.Valid.{wrapped_ok, has_key-keys}
use nix_repo_base.Workspace.Effective.{
  Workspace, or_empty_lock, effective_lock, or_alphabetical, order_of, topo_alpha,
}
use nix_repo_base.Workspace.Effective.Covers.{lock_matches-keys}

-- An order with the counts of the repositories keeps them if it is replaced where it is empty.
count-or_alphabetical :
    (order : List String) (cfg : WorkspaceConfig) (k : String)
    → count k order ≡ count k (keys cfg.repos)
    → count k (or_alphabetical order cfg) ≡ count k (keys cfg.repos)
unfolding ordered_repo_names
count-or_alphabetical [] cfg k h = total-sort_strings (is_name k) (keys cfg.repos)
count-or_alphabetical (j ∷ js) cfg k h = h

count-derive_lock :
    (cfg : WorkspaceConfig) (flag : String) (disk : Disk) (lock : Lock) (issues : List Issue)
    → ((k : String) → count k (keys cfg.repos) ≤ 1)
    → ((c x : String) → count x (keys (specs_of disk.input_urls c)) ≤ 1)
    → derive_lock cfg flag disk ≡ ok (lock, issues)
    → (k : String) → count k lock.order ≡ count k (keys cfg.repos)
unfolding derive_lock
count-derive_lock cfg flag disk lock issues once aliases h k =
    let (built, be, rest) =
      bind_ok (wrapped edges_failed (build_edges cfg.repos disk.input_urls)) _ h in
    let repos = lock_entries disk.flake_path cfg.repos in
    let (resolved, re, last) =
      bind_ok (wrapped terminal_failed (resolve_terminal (some cfg) flag built.0 repos)) _ rest in
    ap (λ (r : Lock × List Issue). count k r.0.order) (sym (ok-injective last))
    ∙ build_edges-order cfg.repos disk.input_urls once aliases built.0 built.1
        (wrapped_ok edges_failed _ built be) k

count-order_of :
    (cfg : WorkspaceConfig) (disk : Disk) (r : Outcome DeriveError (Lock × List Issue))
    → ((k : String) → count k (keys cfg.repos) ≤ 1)
    → ((c x : String) → count x (keys (specs_of disk.input_urls c)) ≤ 1)
    → derive_lock cfg "" disk ≡ r
    → (k : String) → count k (or_alphabetical (order_of r) cfg) ≡ count k (keys cfg.repos)
unfolding ordered_repo_names
count-order_of cfg disk (err e) once aliases h k = total-sort_strings (is_name k) (keys cfg.repos)
count-order_of cfg disk (ok (lock, issues)) once aliases h k =
    count-or_alphabetical lock.order cfg k
      (count-derive_lock cfg "" disk lock issues once aliases h k)

current_counts :
    (o : Option Lock) (cfg : WorkspaceConfig)
    → ((k : String) → count k (keys cfg.repos) ≤ 1)
    → ((k : String) → count k (keys (or_empty_lock o).repos) ≤ 1)
    → lock_matches_config o (some cfg) ≡ true
    → (k : String) → count k (keys (or_empty_lock o).repos) ≡ count k (keys cfg.repos)
unfolding lock_matches_config
current_counts none cfg once once_l h k = cc
current_counts (some lock) cfg once once_l h k = ground (
  arith,
  lock_matches-keys lock cfg once once_l h k,
  has_key-keys k lock.repos,
  has_key-keys k cfg.repos,
  mem-count k (keys lock.repos),
  mem-count k (keys cfg.repos),
  once k,
  once_l k,
)

-- For maps with distinct keys, where the lock on disk, if there is one, orders its own repositories,
-- topoAlpha lists every repository of the configuration once and nothing else: with this lock, with
-- a derived one, and where the derivation fails.
pub count-topo_alpha :
    (ws : Workspace) (disk : Disk)
    → ((k : String) → count k (keys ws.config.repos) ≤ 1)
    → ((c x : String) → count x (keys (specs_of disk.input_urls c)) ≤ 1)
    → ((k : String) → count k (keys (or_empty_lock ws.lock).repos) ≤ 1)
    → ((k : String)
        → count k (or_empty_lock ws.lock).order ≡ count k (keys (or_empty_lock ws.lock).repos))
    → (k : String) → count k (topo_alpha ws disk) ≡ count k (keys ws.config.repos)
unfolding topo_alpha effective_lock
count-topo_alpha ws disk once aliases once_l orders k =
    elim (Bool-cases (lock_matches_config ws.lock (some ws.config))) [
      | inl current ↦ rw current (
          count-or_alphabetical (or_empty_lock ws.lock).order ws.config k
            (orders k ∙ current_counts ws.lock ws.config once once_l current k))
      | inr stale ↦ rw stale (count-order_of ws.config disk _ once aliases refl k)
    ]
