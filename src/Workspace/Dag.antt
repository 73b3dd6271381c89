-- ===== src/Workspace/Dag.antt =====
-- topoSortByDeps of dag.go: Kahn's algorithm over the names of repositories.
pub mod Counts
pub mod Order
use nix_repo_base.Base.{
  ℕ, zero, suc, String, Bool, true, false, not, Option, none, some, List, [], ◌∷◌, ◌++◌, Dict,
  lookup, insert, mem, length, keep, ltb, sort_strings, if◌then◌else◌,
}

-- A missing key of `map[string][]string` reads as the nil slice.
abbrev pub deps_of : Dict (List String) → String → List String
deps_of m k = elim (lookup k m) [ none ↦ [] | some ds ↦ ds ]

-- Go's `int` in-degree, which the loop only decrements and compares with 0: `none` is a negative one.
abbrev pub Degree : Type 0
Degree = Option ℕ

abbrev pub decrement : Degree → Degree
decrement none = none
decrement (some zero) = none
decrement (some (suc n)) = some n

abbrev pub is_zero : Degree → Bool
is_zero (some zero) = true
is_zero _ = false

abbrev pub degree_of : Dict Degree → String → Degree
degree_of m k = elim (lookup k m) [ none ↦ some 0 | some d ↦ d ]

pub zeros : List String → Dict Degree
zeros [] = []
zeros (k ∷ ks) = insert k (some 0) (zeros ks)

-- The loop over dependsOn that sets the in-degrees.
pub set_degrees : Dict (List String) → Dict Degree → Dict Degree
set_degrees [] m = m
set_degrees ((repo, deps) ∷ rest) m = set_degrees rest (insert repo (some (length deps)) m)

-- dependents[d] = append(dependents[d], repo), for each dependency d.
add_dependent : String → List String → Dict (List String) → Dict (List String)
add_dependent repo [] m = m
add_dependent repo (d ∷ ds) m = add_dependent repo ds (insert d (deps_of m d ++ repo ∷ []) m)

pub dependents_of : Dict (List String) → Dict (List String) → Dict (List String)
unfolding add_dependent
dependents_of [] m = m
dependents_of ((repo, deps) ∷ rest) m = dependents_of rest (add_dependent repo deps m)

-- The inner loop: one dependency of each of these is done.
pub release : List String → Dict Degree → List String → Dict Degree × List String
release [] degrees ready = (degrees, ready)
release (d ∷ ds) degrees ready =
    let left = decrement (degree_of degrees d) in
    release ds (insert d left degrees)
      (if is_zero left then sort_strings (ready ++ d ∷ []) else ready)

-- The outer loop, on fuel; it takes one name from `ready` in each round.
pub kahn : ℕ → Dict (List String) → Dict Degree → List String → List String → List String
unfolding release
kahn zero dependents degrees ready order = order
kahn (suc fuel) dependents degrees [] order = order
kahn (suc fuel) dependents degrees (n ∷ ready) order =
    let (degrees', ready') = release (sort_strings (deps_of dependents n)) degrees ready in
    kahn fuel dependents degrees' ready' (order ++ n ∷ [])

-- Names that a cycle leaves over, appended in alphabetical order.
left_over : List String → List String → List String
left_over repo_keys order = sort_strings (keep (λ k. not (mem k order)) repo_keys)

-- A round emits a repository that was not emitted before, so as many rounds as repositories do.
unfoldable pub topo_sort_by_deps : List String → Dict (List String) → List String
unfolding zeros set_degrees dependents_of kahn left_over
topo_sort_by_deps repo_keys depends_on =
    let degrees = set_degrees depends_on (zeros repo_keys) in
    let ready = sort_strings (keep (λ k. is_zero (degree_of degrees k)) repo_keys) in
    let order = kahn (length repo_keys) (dependents_of depends_on []) degrees ready [] in
    if ltb (length order) (length repo_keys) then order ++ left_over repo_keys order else order
