-- ===== src/Workspace/Edges.antt =====
-- edges.go: the edges between repositories by matching input URLs, and the dependencies that order
-- the lock.
pub mod Index
pub mod Errors
pub mod Valid
pub mod Order
pub mod Foundation
use nix_repo_base.Base.{Outcome, ok, err, ◌>>=◌}
use nix_repo_base.Base.{
  ℕ, String, Bool, true, false, not, ◌&&◌, ◌||◌, Option, none, some, List, [], ◌∷◌, ◌++◌, map, Dict,
  lookup, mem, keep, any, sort_strings, str_eq, if◌then◌else◌,
}
use nix_repo_base.Base.Bytes.{Bytes, bytes_eq}
use nix_repo_base.Workspace.Config.{RepoConfig, LockEdge, InputSpec}
use nix_repo_base.Workspace.Url.{canonical_url, display_url}
use nix_repo_base.Workspace.Dag.{deps_of, topo_sort_by_deps}

-- An error of `buildEdges`, or the panic of a write to a nil map.
pub data EdgesError : Type 0 where
  duplicate_remote_url : String → String → Bytes → EdgesError
  nil_map_write : EdgesError

abbrev pub keys {ℓ} : {V : Type ℓ} → Dict V → List String
keys [] = []
keys ((k, v) ∷ m) = k ∷ keys m

-- helpers.go
unfoldable pub ordered_repo_names : Dict RepoConfig → List String
ordered_repo_names repos = sort_strings (keys repos)

-- `keyByCanon`: canonical URL to repository.
abbrev pub UrlIndex : Type 0
UrlIndex = List (Bytes × String)

unfoldable pub lookup_url : Bytes → UrlIndex → Option String
lookup_url u [] = none
lookup_url u ((v, k) ∷ m) = if bytes_eq v u then some k else lookup_url u m

-- One URL of a repository: skipped if empty, an error if another repository has it.
claim_canon : String → Bytes → UrlIndex → Option String → Outcome EdgesError UrlIndex
claim_canon key canon index none = ok ((canon, key) ∷ index)
claim_canon key canon index (some existing) =
    if str_eq existing key
    then ok ((canon, key) ∷ index)
    else err (duplicate_remote_url existing key canon)

claim_nonempty : String → Bytes → UrlIndex → Outcome EdgesError UrlIndex
unfolding claim_canon lookup_url
claim_nonempty key [] index = ok index
claim_nonempty key (c ∷ canon) index =
    claim_canon key (c ∷ canon) index (lookup_url (c ∷ canon) index)

claim_url : String → Bytes → UrlIndex → Outcome EdgesError UrlIndex
unfolding claim_nonempty
claim_url key [] index = ok index
claim_url key (c ∷ raw) index = claim_nonempty key (canonical_url (c ∷ raw)) index

claim_urls : String → List Bytes → UrlIndex → Outcome EdgesError UrlIndex
unfolding claim_url
claim_urls key [] index = ok index
claim_urls key (u ∷ us) index = claim_url key u index >>= claim_urls key us

urls_of : Option RepoConfig → List Bytes
urls_of none = [] ∷ []
urls_of (some r) = display_url r ∷ r.mirror_urls

unfoldable pub build_index : Dict RepoConfig → List String → UrlIndex → Outcome EdgesError UrlIndex
unfolding claim_urls urls_of
build_index repos [] index = ok index
build_index repos (key ∷ rest) index =
    claim_urls key (urls_of (lookup key repos)) index >>= build_index repos rest

abbrev is_empty : Bytes → Bool
is_empty [] = true
is_empty (c ∷ s) = false

abbrev to_target : String → String → Option String → List LockEdge
to_target consumer alias none = []
to_target consumer alias (some target) =
    if str_eq target consumer
    then []
    else record { consumer = consumer; alias = alias; target = target } ∷ []

edge_of_spec : UrlIndex → String → String → InputSpec → List LockEdge
unfolding lookup_url
edge_of_spec index consumer alias spec =
    if not spec.flake || is_empty spec.url
    then []
    else let canon = canonical_url spec.url in
      if is_empty canon then [] else to_target consumer alias (lookup_url canon index)

edge_of_alias : UrlIndex → String → Dict InputSpec → String → List LockEdge
unfolding edge_of_spec
edge_of_alias index consumer specs alias = elim (lookup alias specs) [
  | none ↦ []
  | some spec ↦ edge_of_spec index consumer alias spec
]

edges_of_aliases : UrlIndex → String → Dict InputSpec → List String → List LockEdge
unfolding edge_of_alias
edges_of_aliases index consumer specs [] = []
edges_of_aliases index consumer specs (a ∷ rest) =
    edge_of_alias index consumer specs a ++ edges_of_aliases index consumer specs rest

-- The inputs of a repository that was not evaluated read as the nil map.
abbrev pub specs_of : Dict (Dict InputSpec) → String → Dict InputSpec
specs_of input_urls k = elim (lookup k input_urls) [ none ↦ [] | some m ↦ m ]

unfoldable pub edges_of : UrlIndex → Dict (Dict InputSpec) → List String → List LockEdge
unfolding edges_of_aliases
edges_of index input_urls [] = []
edges_of index input_urls (consumer ∷ rest) =
    let specs = specs_of input_urls consumer in
    edges_of_aliases index consumer specs (sort_strings (keys specs))
    ++ edges_of index input_urls rest

-- The distinct targets of a consumer.
pub targets_of : String → List LockEdge → List String
targets_of k [] = []
targets_of k (e ∷ es) =
    let rest = targets_of k es in
    if str_eq e.consumer k && not (mem e.target rest) then e.target ∷ rest else rest

-- A map that holds the names with a non-empty list.
unfoldable pub tabulate : List String → (String → List String) → Dict (List String)
tabulate [] f = []
tabulate (k ∷ ks) f =
    let rest = tabulate ks f in elim (f k) [ [] ↦ rest | d ∷ ds ↦ (k, f k) ∷ rest ]

-- An edge of a consumer that is not a key writes to a nil map.
unfoldable pub edges_to_depends_on :
    List LockEdge → List String → Outcome EdgesError (Dict (List String))
unfolding tabulate targets_of
edges_to_depends_on edges repo_keys =
    if any (λ e. not (mem e.consumer repo_keys)) edges
    then err nil_map_write
    else ok (tabulate repo_keys (λ k. sort_strings (targets_of k edges)))

unfoldable pub is_foundation : Dict RepoConfig → String → Bool
is_foundation repos k = elim (lookup k repos) [ none ↦ false | some r ↦ r.foundation ]

-- Without foundation repositories the dependencies stay; with some, each repository's are set anew.
order_one : Dict RepoConfig → List String → Dict (List String) → String → List String
order_one repos foundation_keys depends_on k =
    let deps = deps_of depends_on k in
    if is_foundation repos k
    then keep (is_foundation repos) deps
    else sort_strings (deps ++ keep (λ f. not (mem f deps)) foundation_keys)

pub with_foundation :
    Dict RepoConfig → List String → Dict (List String) → List String → Dict (List String)
unfolding order_one
with_foundation repos repo_keys depends_on [] = depends_on
with_foundation repos repo_keys depends_on (f ∷ fs) =
    tabulate repo_keys (order_one repos (f ∷ fs) depends_on)

unfoldable pub ordering_deps :
    Dict RepoConfig → List LockEdge → List String → Outcome EdgesError (Dict (List String))
unfolding edges_to_depends_on with_foundation
ordering_deps repos edges repo_keys = do
  depends_on ← edges_to_depends_on edges repo_keys
  ok (with_foundation repos repo_keys depends_on (keep (is_foundation repos) repo_keys))

unfoldable pub build_edges :
    Dict RepoConfig → Dict (Dict InputSpec) → Outcome EdgesError (List LockEdge × List String)
unfolding build_index edges_of ordering_deps ordered_repo_names
build_edges repos input_urls = do
  let repo_keys = ordered_repo_names repos
  index ← build_index repos repo_keys []
  let edges = edges_of index input_urls repo_keys
  deps ← ordering_deps repos edges repo_keys
  ok (edges, topo_sort_by_deps repo_keys deps)
