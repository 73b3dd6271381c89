-- ===== src/Workspace/Effective/Covers.antt =====
-- Which repositories the effective lock and the order of buildDAG cover.
use nix_repo_base.Base.{
  ◌≤◌, String, ◌≡◌, refl, ap, sym, ◌∙◌, true, not, ◌&&◌, Option, none, some, List, [], ◌∷◌, Dict,
  mem, mem-count, mem-sort_strings, total-sort_strings, is_name, count, length, sort_strings,
  str_eq, eq_iff, if◌then◌else◌, arith, Bool-cases, inl, inr, ok, ok-injective, bind_ok,
}
use nix_repo_base.Workspace.Config.{RepoConfig, WorkspaceConfig, LockRepoEntry, Lock}
use nix_repo_base.Workspace.Dag.{deps_of}
use nix_repo_base.Workspace.Dag.Order.{swap_counts, total-ones, one_of_total, count-topo_sort}
use nix_repo_base.Workspace.Edges.{keys, ordered_repo_names, tabulate, build_edges}
use nix_repo_base.Workspace.Edges.Order.{deps_of-tabulate, tabulate-HasDistinctKeys}
use nix_repo_base.Workspace.Lock.{has_key, all_keys_in, lock_matches_config}
use nix_repo_base.Workspace.Terminal.{Issue, resolve_terminal}
use nix_repo_base.Workspace.Derive.{
  Disk, edges_failed, terminal_failed, wrapped, lock_entries, derive_lock,
}
use nix_repo_base.Workspace.Derive.Valid.{has_key-keys, has_key-lock_entries}
use nix_repo_base.Workspace.Effective.{
  Workspace, effective_lock, or_empty_lock, declared_deps, build_dag,
}

length-keys {ℓ} : {V : Type ℓ} (m : Dict V) → length (keys m) ≡ length m
length-keys [] = refl
length-keys ((k, v) ∷ m) = omega (arith, length-keys m)

-- Equally many distinct names, the ones all among the others: then the same names.
same_names :
    (xs ys : List String)
    → ((k : String) → count k xs ≤ 1)
    → ((k : String) → count k ys ≤ 1)
    → length xs ≡ length ys
    → ((k : String) → mem k xs ≡ true → mem k ys ≡ true)
    → (k : String) → mem k ys ≡ mem k xs
same_names xs ys once_x once_y len sub k =
    let ones =
      total-ones (λ j. count j ys) xs (λ j m. ground (arith, sub j m, mem-count j ys, once_y j)) in
    let swapped = swap_counts xs ys in
    ground (
      arith,
      one_of_total (λ j. count j xs) ys k once_x (omega (arith, ones, swapped, len)),
      mem-count k xs,
      sub k,
    )

all_keys_in-mem :
    (m : Dict RepoConfig) (lock : Dict LockRepoEntry) (k : String)
    → all_keys_in m lock ≡ true
    → mem k (keys m) ≡ true
    → mem k (keys lock) ≡ true
unfolding all_keys_in mem
all_keys_in-mem [] lock k all h = cc
all_keys_in-mem ((j, r) ∷ m) lock k all h = ground (
  arith,
  all_keys_in-mem m lock k,
  has_key-keys j lock,
  eq_iff j k,
  λ (e : j ≡ k). ap (λ x. mem x (keys lock)) e,
)

-- lockMatchesConfig compares the sets of names, where both maps have distinct keys.
pub lock_matches-keys :
    (lock : Lock) (cfg : WorkspaceConfig)
    → ((k : String) → count k (keys cfg.repos) ≤ 1)
    → ((k : String) → count k (keys lock.repos) ≤ 1)
    → lock_matches_config (some lock) (some cfg) ≡ true
    → (k : String) → has_key k lock.repos ≡ has_key k cfg.repos
unfolding lock_matches_config
lock_matches-keys lock cfg once_c once_l h k =
    let len : length lock.repos ≡ length cfg.repos = ground arith in
    let all : all_keys_in cfg.repos lock.repos ≡ true = ground arith in
    has_key-keys k lock.repos
    ∙ same_names (keys cfg.repos) (keys lock.repos) once_c once_l
        (omega (arith, length-keys cfg.repos, length-keys lock.repos, len))
        (λ j. all_keys_in-mem cfg.repos lock.repos j all) k
    ∙ sym (has_key-keys k cfg.repos)

derive_lock-keys :
    (cfg : WorkspaceConfig) (flag : String) (disk : Disk) (lock : Lock) (issues : List Issue)
    → derive_lock cfg flag disk ≡ ok (lock, issues)
    → (k : String) → has_key k lock.repos ≡ has_key k cfg.repos
unfolding derive_lock
derive_lock-keys cfg flag disk lock issues h k =
    let (built, be, rest) =
      bind_ok (wrapped edges_failed (build_edges cfg.repos disk.input_urls)) _ h in
    let repos = lock_entries disk.flake_path cfg.repos in
    let (resolved, re, last) =
      bind_ok (wrapped terminal_failed (resolve_terminal (some cfg) flag built.0 repos)) _ rest in
    ap (λ (r : Lock × List Issue). has_key k r.0.repos) (sym (ok-injective last))
    ∙ has_key-lock_entries k disk.flake_path cfg.repos

-- For maps with distinct keys, the effective lock has an entry for exactly the repositories of the
-- configuration, whether it is the one on disk or a derived one.
pub effective_lock-covers :
    (ws : Workspace) (disk : Disk) (lock : Lock) (issues : List Issue)
    → ((k : String) → count k (keys ws.config.repos) ≤ 1)
    → ((k : String) → count k (keys (or_empty_lock ws.lock).repos) ≤ 1)
    → effective_lock ws disk ≡ ok (lock, issues)
    → (k : String) → has_key k lock.repos ≡ has_key k ws.config.repos
unfolding effective_lock lock_matches_config
effective_lock-covers ws disk lock issues once_c once_l h k = by_match ws.lock once_l h
  where
    by_match :
        (o : Option Lock)
        → ((k : String) → count k (keys (or_empty_lock o).repos) ≤ 1)
        → (if lock_matches_config o (some ws.config)
            then ok (or_empty_lock o, [])
            else derive_lock ws.config "" disk)
          ≡ ok (lock, issues)
        → has_key k lock.repos ≡ has_key k ws.config.repos
    by_match none once h = derive_lock-keys ws.config "" disk lock issues h k
    by_match (some l) once h = elim (Bool-cases (lock_matches_config (some l) (some ws.config))) [
      | inl current ↦
          ap (λ (r : Lock × List Issue). has_key k r.0.repos) (sym (ok-injective (rw current at h)))
          ∙ lock_matches-keys l ws.config once_c once current k
      | inr stale ↦ derive_lock-keys ws.config "" disk lock issues (rw stale at h) k
    ]

mem-declared_deps :
    (repo_keys : List String) (a j : String) (seen names : List String)
    → mem j (declared_deps repo_keys a seen names)
      ≡ (mem j names && mem j repo_keys && not (str_eq j a) && not (mem j seen))
unfolding declared_deps mem
mem-declared_deps repo_keys a j seen [] = refl
mem-declared_deps repo_keys a j seen (n ∷ names) =
    let same_key = λ (e : n ≡ j). ap (λ x. mem x repo_keys) e in
    let same_self = λ (e : n ≡ j). ap (λ x. str_eq x a) e in
    let same_seen = λ (e : n ≡ j). ap (λ x. mem x seen) e in
    ground (
      arith,
      mem-declared_deps repo_keys a j seen names,
      mem-declared_deps repo_keys a j (n ∷ seen) names,
      eq_iff n j,
      same_key,
      same_self,
      same_seen,
    )

sorted_once :
    (xs : List String)
    → ((x : String) → count x xs ≤ 1)
    → (x : String) → count x (sort_strings xs) ≤ 1
sorted_once xs once x = omega (arith, once x, total-sort_strings (is_name x) xs)

-- For maps with distinct keys, buildDAG orders every repository of the configuration once, also where
-- the declared inputs form a cycle, and a repository depends on exactly the other repositories whose
-- names it declares.
pub build_dag_sound :
    (cfg : WorkspaceConfig) (declared : Dict (List String)) (k j : String)
    → ((x : String) → count x (keys cfg.repos) ≤ 1)
    → (count k (build_dag cfg declared).0 ≡ count k (keys cfg.repos))
      × (mem j (deps_of (build_dag cfg declared).1 k) ≡ (
          mem k (keys cfg.repos)
          && mem j (keys cfg.repos)
          && not (str_eq j k)
          && mem j (deps_of declared k)))
unfolding build_dag ordered_repo_names mem
build_dag_sound cfg declared k j once =
    let ks = sort_strings (keys cfg.repos) in
    let deps = λ (a : String). sort_strings (declared_deps ks a [] (deps_of declared a)) in
    let once_ks = sorted_once (keys cfg.repos) once in
    (
      count-topo_sort ks (tabulate ks deps) (tabulate-HasDistinctKeys ks deps once_ks)
            (λ x m. deps_of-tabulate x ks deps ∙ rw m) once_ks k
          ∙ total-sort_strings (is_name k) (keys cfg.repos),
      ap (λ xs. mem j xs) (deps_of-tabulate k ks deps)
          ∙ ground (
            arith,
            mem-sort_strings j (declared_deps ks k [] (deps_of declared k)),
            mem-sort_strings k (keys cfg.repos),
            mem-sort_strings j (keys cfg.repos),
            mem-declared_deps ks k j [] (deps_of declared k),
          ),
    )
