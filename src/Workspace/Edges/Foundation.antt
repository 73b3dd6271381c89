-- ===== src/Workspace/Edges/Foundation.antt =====
-- The order of buildEdges puts foundation repositories first, and then what others need.
use nix_repo_base.Base.{
  ℕ, suc, ◌+◌, ◌≤◌, ◌<◌, String, ◌≡◌, refl, ap, sym, ◌∙◌, ◌⊎◌, inl, inr, Bool, true, not, ◌&&◌,
  ◌||◌, List, [], ◌∷◌, ◌++◌, Dict, lookup, mem, mem-append, mem-keep, mem-sort_strings, keep, any,
  total, sort_strings, All, All-map, All-mem, count, mem-count, str_eq, eq_iff, eq_refl,
  if◌then◌else◌, arith, Bool-cases, ok,
}
use mathlib.Core.Path.{subst}
use nix_repo_base.Workspace.Config.{RepoConfig, LockEdge, InputSpec}
use nix_repo_base.Workspace.Dag.{deps_of}
use nix_repo_base.Workspace.Dag.Order.{topo_sort-DepsFirst}
use nix_repo_base.Workspace.Dag.Order.Loop.{DepsFirst}
use nix_repo_base.Workspace.Edges.{
  keys, ordered_repo_names, targets_of, is_foundation, order_one, with_foundation, specs_of,
  build_edges,
}
use nix_repo_base.Workspace.Edges.Valid.{Joins}
use nix_repo_base.Workspace.Edges.Order.{
  base_deps, final_deps, deps_of-tabulate, unique_ks, final-HasDistinctKeys, final-closed,
  build_edges-edges, build_edges-sorted, build_edges-order,
}

-- An edge from this consumer to this target.
abbrev pub edge_to : List LockEdge → String → String → Bool
edge_to edges k j = any (λ e. str_eq e.consumer k && str_eq e.target j) edges

-- A foundation repository needs the foundation repositories that it has an edge to; any other one
-- needs all foundation repositories, and what it has an edge to.
abbrev pub needs : Dict RepoConfig → List LockEdge → String → String → Bool
needs repos edges k j =
    if is_foundation repos k
    then is_foundation repos j && edge_to edges k j
    else is_foundation repos j || edge_to edges k j

-- What a name in the order needs stands before it.
abbrev pub NeedsFirst : (String → String → Bool) → List String → List String → Type 0
NeedsFirst need seen [] = Unit
NeedsFirst need seen (k ∷ rest) =
    ((j : String) → need k j ≡ true → mem j seen ≡ true) × NeedsFirst need (seen ++ k ∷ []) rest

mem-targets_of :
    (k j : String) (edges : List LockEdge) → mem j (targets_of k edges) ≡ edge_to edges k j
unfolding targets_of mem
mem-targets_of k j [] = refl
mem-targets_of k j (e ∷ es) = ground (
  arith,
  mem-targets_of k j es,
  eq_iff e.target j,
  λ (p : e.target ≡ j). ap (λ x. mem x (targets_of k es)) p,
)

foundation_known :
    (k : String) (repos : Dict RepoConfig)
    → is_foundation repos k ≡ true
    → mem k (ordered_repo_names repos) ≡ true
unfolding is_foundation ordered_repo_names lookup mem
foundation_known k repos f = mem-sort_strings k (keys repos) ∙ go repos f
  where
    go : (m : Dict RepoConfig) → is_foundation m k ≡ true → mem k (keys m) ≡ true
    go [] h = cc
    go ((j, r) ∷ m) h = ground (arith, go m)

module _ (repos : Dict RepoConfig) (edges : List LockEdge) where
  abbrev ks : List String
  ks = ordered_repo_names repos

  mem-base_deps :
      (k j : String) → mem j (deps_of (base_deps edges ks) k) ≡ (mem k ks && edge_to edges k j)
  unfolding mem
  mem-base_deps k j = ground (
    arith,
    deps_of-tabulate k ks (λ x. sort_strings (targets_of x edges)),
    mem-sort_strings j (targets_of k edges),
    mem-targets_of k j edges,
  )

  mem-order_one :
      (fs : List String) (k j : String)
      → mem k ks ≡ true
      → mem j fs ≡ is_foundation repos j
      → mem j (order_one repos fs (base_deps edges ks) k) ≡ needs repos edges k j
  unfolding order_one
  mem-order_one fs k j known same =
      let deps = deps_of (base_deps edges ks) k in
      ground (
        arith,
        mem-base_deps k j,
        mem-keep j (is_foundation repos) deps,
        mem-sort_strings j (deps ++ keep (λ f. not (mem f deps)) fs),
        mem-append j deps (keep (λ f. not (mem f deps)) fs),
        mem-keep j (λ f. not (mem f deps)) fs,
      )

  mem-foundations : (j : String) → mem j (keep (is_foundation repos) ks) ≡ is_foundation repos j
  mem-foundations j = ground (arith, mem-keep j (is_foundation repos) ks, foundation_known j repos)

  mem-with_foundation :
      (fs : List String) (k j : String)
      → ((x : String) → mem x fs ≡ is_foundation repos x)
      → mem j (deps_of (with_foundation repos ks (base_deps edges ks) fs) k)
        ≡ (mem k ks && needs repos edges k j)
  unfolding with_foundation mem
  mem-with_foundation [] k j same = ground (arith, mem-base_deps k j, same k, same j)
  mem-with_foundation (f ∷ fs) k j same = ground (
    arith,
    deps_of-tabulate k ks (order_one repos (f ∷ fs) (base_deps edges ks)),
    λ (m : mem k ks ≡ true). mem-order_one (f ∷ fs) k j m (same j),
  )

  mem-final_deps :
      (k j : String)
      → mem j (deps_of (final_deps repos edges ks) k) ≡ (mem k ks && needs repos edges k j)
  mem-final_deps k j = mem-with_foundation (keep (is_foundation repos) ks) k j mem-foundations

rank_le :
    (rank : String → ℕ) (j : String) (names : List String)
    → mem j names ≡ true
    → rank j ≤ total rank names
unfolding mem
rank_le rank j [] m = cc
rank_le rank j (k ∷ names) m =
    ground (arith, rank_le rank j names, eq_iff k j, λ (e : k ≡ j). ap rank e)

-- An edge of a foundation repository to another kind, or one along which the rank falls.
abbrev pub Falls : Dict RepoConfig → (String → ℕ) → String → String → Type 0
Falls repos rank k j =
    ((is_foundation repos k && not (is_foundation repos j)) ≡ true) ⊎ (rank j < rank k)

edge_to-All :
    (P : String → String → Type 0) (k j : String) (edges : List LockEdge)
    → All (λ e. P e.consumer e.target) edges
    → edge_to edges k j ≡ true
    → P k j
edge_to-All P k j [] h m = cc
edge_to-All P k j (e ∷ es) h m = elim (Bool-cases (str_eq e.consumer k && str_eq e.target j)) [
  | inl this ↦
      let p = (eq_iff e.consumer k).0 (ground arith) in
      let q = (eq_iff e.target j).0 (ground arith) in
      subst (λ x. P x j) p (subst (λ y. P e.consumer y) q h.0)
  | inr other ↦ edge_to-All P k j es h.1 (ground arith)
]

needs_in_order :
    (d : Dict (List String)) (need : String → String → Bool) (names : List String)
    (seen order : List String)
    → ((k j : String) → mem k names ≡ true → need k j ≡ true → mem j (deps_of d k) ≡ true)
    → ((k : String) → mem k order ≡ true → mem k names ≡ true)
    → DepsFirst d seen order
    → NeedsFirst need seen order
unfolding mem
needs_in_order d need names seen [] covers known h = tt
needs_in_order d need names seen (k ∷ rest) covers known h = (
  λ j n. All-mem seen (deps_of d k) j h.0 (covers k j (known k (rw eq_refl refl)) n),
  needs_in_order d need names (seen ++ k ∷ []) rest covers (λ x m. known x (ground arith)) h.1,
)

module _ (repos : Dict RepoConfig) (input_urls : Dict (Dict InputSpec))
    (once : (k : String) → count k (keys repos) ≤ 1)
    (aliases : (c x : String) → count x (keys (specs_of input_urls c)) ≤ 1) (edges : List LockEdge)
    (order : List String) (success : build_edges repos input_urls ≡ ok (edges, order))
    (rank : String → ℕ) (falls : All (λ e. Falls repos rank e.consumer e.target) edges) where
  abbrev names : List String
  names = ordered_repo_names repos

  abbrev final : Dict (List String)
  final = final_deps repos edges names

  -- All foundation repositories rank below the others.
  abbrev lifted : String → ℕ
  lifted k = if is_foundation repos k then rank k else suc (total rank names) + rank k

  lifted-falls : (k j : String) → mem j (deps_of final k) ≡ true → lifted j < lifted k
  lifted-falls k j m = ground (
    arith,
    mem-final_deps repos edges k j,
    edge_to-All (Falls repos rank) k j edges falls,
    foundation_known j repos,
    rank_le rank j names,
  )

  final-known : (k j : String) → mem j (deps_of final k) ≡ true → mem j names ≡ true
  final-known k j m =
      let joined = build_edges-edges repos input_urls once aliases edges order success in
      let targets =
        All-map (Joins names) (λ e. mem e.target names ≡ true) edges (λ e j. j.target) joined.0 in
      ground (
        arith,
        mem-final_deps repos edges k j,
        edge_to-All (λ c t. mem t names ≡ true) k j edges targets,
        foundation_known j repos,
      )

  in_order-known : (k : String) → mem k order ≡ true → mem k names ≡ true
  unfolding ordered_repo_names
  in_order-known k m = ground (
    arith,
    build_edges-order repos input_urls once aliases edges order success k,
    mem-count k order,
    mem-count k (keys repos),
    mem-sort_strings k (keys repos),
  )

  -- If a rank falls along each edge (there is no cycle), edges from a foundation repository to
  -- another kind left aside, then before each repository in the order stand: all foundation
  -- repositories, if it is none itself, or else those that it has an edge to; and, if it is none,
  -- every repository that it has an edge to.
  pub build_edges-NeedsFirst : NeedsFirst (needs repos edges) [] order
  build_edges-NeedsFirst =
      let fs = keep (is_foundation repos) names in
      let sorted =
        topo_sort-DepsFirst names final
          (final-HasDistinctKeys repos input_urls edges fs (unique_ks repos input_urls once))
          (final-closed repos input_urls edges fs) (unique_ks repos input_urls once) final-known
          lifted lifted-falls in
      needs_in_order final (needs repos edges) names [] order
        (λ k j m n. ground (arith, mem-final_deps repos edges k j)) in_order-known
        (subst (DepsFirst final [])
          (sym (build_edges-sorted repos input_urls once aliases edges order success)) sorted)
