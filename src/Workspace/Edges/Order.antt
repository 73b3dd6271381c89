-- ===== src/Workspace/Edges/Order.antt =====
-- What holds of the order that buildEdges returns.
use nix_repo_base.Base.{Outcome, ok, err, ok-injective, ok≢err}
use nix_repo_base.Base.{
  ◌≤◌, String, ◌≡◌, ◌≢◌, refl, ap, sym, ◌∙◌, ◌⊎◌, inl, inr, true, false, not, none, List, [], ◌∷◌,
  Dict, lookup, mem, keep, All, All-map, count, mem-count, total-sort_strings, is_name,
  sort_strings, eq_iff, eq_refl, if◌then◌else◌, arith,
}
use nix_repo_base.Workspace.Config.{RepoConfig, LockEdge, InputSpec}
use nix_repo_base.Workspace.Dag.{deps_of, topo_sort_by_deps}
use nix_repo_base.Workspace.Dag.Counts.{HasDistinctKeys}
use nix_repo_base.Workspace.Dag.Order.{count-topo_sort}
use nix_repo_base.Workspace.Edges.{
  EdgesError, nil_map_write, keys, ordered_repo_names, UrlIndex, build_index, edges_of,
  edges_to_depends_on, targets_of, tabulate, is_foundation, order_one, with_foundation, specs_of,
  ordering_deps, build_edges,
}
use nix_repo_base.Workspace.Edges.Valid.{
  Joins, OfConsumers, any-false, edges_of-OfConsumers, edges_of_unique,
}
use nix_repo_base.Workspace.Edges.Index.{build_index-Indexed}
use nix_repo_base.Workspace.Edges.Errors.{build_index-err}
use nix_repo_base.Workspace.Lock.Valid.{HasUniqueAliases}

tabulate-none :
    (k : String) (ks : List String) (f : String → List String)
    → mem k ks ≡ false
    → lookup k (tabulate ks f) ≡ none
unfolding tabulate lookup mem
tabulate-none k [] f h = refl
tabulate-none k (j ∷ ks) f h = ground (arith, tabulate-none k ks f, eq_iff j k)

pub deps_of-tabulate :
    (k : String) (ks : List String) (f : String → List String)
    → deps_of (tabulate ks f) k ≡ (if mem k ks then f k else [])
unfolding tabulate lookup mem
deps_of-tabulate k [] f = refl
deps_of-tabulate k (j ∷ ks) f =
    ground (arith, deps_of-tabulate k ks f, eq_iff j k, λ (e : j ≡ k). ap f e)

tabulate_cons :
    (k : String) (ks : List String) (f : String → List String) (ds : List String)
    → lookup k (tabulate ks f) ≡ none
    → HasDistinctKeys (tabulate ks f)
    → HasDistinctKeys (elim ds [ [] ↦ tabulate ks f | d ∷ ds' ↦ (k, f k) ∷ tabulate ks f ])
tabulate_cons k ks f [] new h = h
tabulate_cons k ks f (d ∷ ds) new h = (new, h)

pub tabulate-HasDistinctKeys :
    (ks : List String) (f : String → List String)
    → ((k : String) → count k ks ≤ 1)
    → HasDistinctKeys (tabulate ks f)
unfolding tabulate
tabulate-HasDistinctKeys [] f once = tt
tabulate-HasDistinctKeys (k ∷ ks) f once =
    tabulate_cons k ks f (f k)
      (tabulate-none k ks f (ground (arith, once k, mem-count k ks, eq_refl k)))
      (tabulate-HasDistinctKeys ks f (λ x. omega (arith, once x)))

-- What orders the repositories, before the sort.
abbrev pub base_deps : List LockEdge → List String → Dict (List String)
base_deps edges ks = tabulate ks (λ k. sort_strings (targets_of k edges))

abbrev pub final_deps : Dict RepoConfig → List LockEdge → List String → Dict (List String)
final_deps repos edges ks =
    with_foundation repos ks (base_deps edges ks) (keep (is_foundation repos) ks)

no_panic :
    (edges : List LockEdge) (ks : List String)
    → All (λ e. mem e.consumer ks ≡ true) edges
    → edges_to_depends_on edges ks ≡ ok (base_deps edges ks)
unfolding edges_to_depends_on
no_panic edges ks h = rw (
    any-false (λ e. not (mem e.consumer ks)) edges
      (All-map (λ e. mem e.consumer ks ≡ true) (λ e. not (mem e.consumer ks) ≡ false) edges
        (λ e m. ap not m) h))

module _ (repos : Dict RepoConfig) (input_urls : Dict (Dict InputSpec)) where
  abbrev pub ks : List String
  ks = ordered_repo_names repos

  edges_known :
      (m : UrlIndex)
      → build_index repos ks [] ≡ ok m
      → All (λ e. mem e.consumer ks ≡ true) (edges_of m input_urls ks)
  edges_known m e =
      let i = build_index-Indexed ks repos ks [] m (λ k h. h) tt e in
      All-map (OfConsumers ks m i ks) (λ x. mem x.consumer ks ≡ true) (edges_of m input_urls ks)
        (λ x f. f.1) (edges_of-OfConsumers ks m i input_urls ks (λ k h. h))

  -- A consistent index gives the edges and their order, and the map write cannot panic.
  pub build_edges-index :
      (m : UrlIndex)
      → build_index repos ks [] ≡ ok m
      → let edges = edges_of m input_urls ks in
        build_edges repos input_urls ≡ ok (edges, topo_sort_by_deps ks (final_deps repos edges ks))
  unfolding build_edges ordering_deps
  build_edges-index m e = rw (e, no_panic (edges_of m input_urls ks) ks (edges_known m e)) refl

  build_edges_cases :
      (r : Outcome EdgesError UrlIndex)
      → build_index repos ks [] ≡ r
      → ((m : UrlIndex) × (build_index repos ks [] ≡ ok m))
        ⊎ ((x : EdgesError) × (build_edges repos input_urls ≡ err x) × (x ≢ nil_map_write))
  unfolding build_edges
  build_edges_cases (ok m) h = inl (m, h)
  build_edges_cases (err x) h = inr (x, rw h, build_index-err repos ks [] x h)

  -- The edge discovery never writes to a nil map: what it returns as an error is a duplicate URL.
  pub build_edges-no_panic : build_edges repos input_urls ≢ err nil_map_write
  build_edges-no_panic h = elim (build_edges_cases (build_index repos ks []) refl) [
    | inl (m, e) ↦ cc (build_edges-index m e)
    | inr (x, e, ne) ↦ ne (cc e)
  ]

  pub unique_ks : ((k : String) → count k (keys repos) ≤ 1) → (k : String) → count k ks ≤ 1
  unfolding ordered_repo_names
  unique_ks once k = omega (arith, total-sort_strings (is_name k) (keys repos), once k)

  pub final-HasDistinctKeys :
      (edges : List LockEdge) (fs : List String)
      → ((k : String) → count k ks ≤ 1)
      → HasDistinctKeys (with_foundation repos ks (base_deps edges ks) fs)
  unfolding with_foundation
  final-HasDistinctKeys edges [] once = tabulate-HasDistinctKeys ks _ once
  final-HasDistinctKeys edges (f ∷ fs) once = tabulate-HasDistinctKeys ks _ once

  pub final-closed :
      (edges : List LockEdge) (fs : List String) (k : String)
      → mem k ks ≡ false
      → deps_of (with_foundation repos ks (base_deps edges ks) fs) k ≡ []
  unfolding with_foundation
  final-closed edges [] k h = deps_of-tabulate k ks (λ j. sort_strings (targets_of j edges)) ∙ rw h
  final-closed edges (f ∷ fs) k h =
      deps_of-tabulate k ks (order_one repos (f ∷ fs) (base_deps edges ks)) ∙ rw h

  -- A repository map and input maps with distinct keys, as Go maps have, and a success.
  module _ (once : (k : String) → count k (keys repos) ≤ 1)
      (aliases : (c x : String) → count x (keys (specs_of input_urls c)) ≤ 1)
      (edges : List LockEdge) (order : List String)
      (success : build_edges repos input_urls ≡ ok (edges, order)) where
    index : (m : UrlIndex) × (build_index repos ks [] ≡ ok m)
    index = elim (build_edges_cases (build_index repos ks []) refl) [
      | inl found ↦ found
      | inr (x, e, ne) ↦ absurd (ok≢err (sym success ∙ e))
    ]

    result-eq :
        ◌≡◌ {A = List LockEdge × List String}
          (edges, order)
          (
            edges_of index.0 input_urls ks,
            topo_sort_by_deps ks (final_deps repos (edges_of index.0 input_urls ks) ks),
          )
    result-eq = ok-injective (sym success ∙ build_edges-index index.0 index.1)

    edges-eq : edges ≡ edges_of index.0 input_urls ks
    edges-eq = ap (λ (r : List LockEdge × List String). r.0) result-eq

    -- Where the edges are found, each joins two different repositories of the workspace, and no two
    -- of them have the same consumer and alias.
    pub build_edges-edges : All (Joins ks) edges × HasUniqueAliases edges
    build_edges-edges =
        let m = index.0 in
        let i = build_index-Indexed ks repos ks [] m (λ k h. h) tt index.1 in
        rw edges-eq (
          All-map (OfConsumers ks m i ks) (Joins ks) (edges_of m input_urls ks) (λ x f. f.0)
              (edges_of-OfConsumers ks m i input_urls ks (λ k h. h)),
          edges_of_unique ks m i input_urls ks (λ k h. h) (unique_ks once) aliases,
        )

    -- Where the edges are found, the order lists every repository of the workspace once and nothing
    -- else, also where the edges form a cycle.
    pub build_edges-order : (k : String) → count k order ≡ count k (keys repos)
    unfolding ordered_repo_names
    build_edges-order k =
        let es = edges_of index.0 input_urls ks in
        let fs = keep (is_foundation repos) ks in
        ap (λ (r : List LockEdge × List String). count k r.1) result-eq
        ∙ count-topo_sort ks (final_deps repos es ks) (final-HasDistinctKeys es fs (unique_ks once))
            (final-closed es fs) (unique_ks once) k
        ∙ total-sort_strings (is_name k) (keys repos)

    -- The order is the sort of the edges' dependencies, with the foundation rule applied.
    pub build_edges-sorted : order ≡ topo_sort_by_deps ks (final_deps repos edges ks)
    build_edges-sorted =
        ap (λ (r : List LockEdge × List String). r.1) result-eq
        ∙ ap (λ es. topo_sort_by_deps ks (final_deps repos es ks)) (sym edges-eq)
