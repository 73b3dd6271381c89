-- ===== src/Workspace/Dag/Order.antt =====
-- The order is a permutation of the names, and without a cycle it puts dependencies first.
pub mod Loop
use mathlib.Core.List.{append-nil}
use nix_repo_base.Base.{
  ℕ, zero, suc, ◌+◌, ◌-◌, ◌≤◌, ◌<◌, String, ◌≡◌, refl, ap, sym, ◌∙◌, Bool, true, false, not, ◌&&◌,
  Option, none, some, List, [], ◌∷◌, ◌++◌, Dict, mem, mem-append, length, total, keep, All, count,
  is_name, one_if, mem-count, count-append, count-keep, total-sort_strings, sort_strings, sort_by,
  str_lt, str_eq, eq_iff, eq_refl, ltb, leb, ◌==◌, if◌then◌else◌, arith, Bool-cases, inl, inr,
}
use nix_repo_base.Workspace.Dag.{
  deps_of, Degree, degree_of, is_zero, kahn, dependents_of, set_degrees, zeros, left_over,
  topo_sort_by_deps,
}
use nix_repo_base.Workspace.Dag.Counts.{HasDistinctKeys, first_degree}
use Loop.{missing, DepsFirst, Inv, due, remaining, kahn-Inv}

missing-nil : (ds : List String) → missing [] ds ≡ length ds
unfolding mem
missing-nil [] = refl
missing-nil (d ∷ ds) = omega (arith, missing-nil ds)

missing-zero :
    (order ds : List String)
    → ((d : String) → mem d ds ≡ true → mem d order ≡ true)
    → missing order ds ≡ 0
unfolding mem
missing-zero order [] h = refl
missing-zero order (d ∷ ds) h =
    ground (arith, h d, eq_refl d, missing-zero order ds (λ x m. h x (ground arith)))

keep-nil :
    (p : String → Bool) (xs : List String)
    → ((k : String) → mem k xs ≡ true → p k ≡ false)
    → keep p xs ≡ []
unfolding mem
keep-nil p [] h = refl
keep-nil p (x ∷ xs) h = ground (arith, h x, eq_refl x, keep-nil p xs (λ k m. h k (ground arith)))

pub swap_counts : (xs ys : List String) → total (λ k. count k ys) xs ≡ total (λ k. count k xs) ys
swap_counts [] ys = sym (zero-counts ys)
  where
    zero-counts : (zs : List String) → total (λ k. 0) zs ≡ 0
    zero-counts [] = refl
    zero-counts (z ∷ zs) = omega (arith, zero-counts zs)
swap_counts (x ∷ xs) ys = omega (arith, swap_counts xs ys, split ys)
  where
    split :
        (zs : List String)
        → total (λ k. is_name k x + count k xs) zs ≡ count x zs + total (λ k. count k xs) zs
    split [] = refl
    split (z ∷ zs) = ground (arith, split zs, eq_iff x z, eq_iff z x)

pub total-ones :
    (w : String → ℕ) (xs : List String)
    → ((k : String) → mem k xs ≡ true → w k ≡ 1)
    → total w xs ≡ length xs
unfolding mem
total-ones w [] h = refl
total-ones w (x ∷ xs) h =
    ground (arith, h x, eq_refl x, total-ones w xs (λ k m. h k (ground arith)))

total-le-length :
    (w : String → ℕ) (xs : List String) → ((k : String) → w k ≤ 1) → total w xs ≤ length xs
total-le-length w [] h = omega arith
total-le-length w (x ∷ xs) h = omega (arith, total-le-length w xs h, h x)

-- Where weights of at most 1 add up to the number of names, each is 1.
pub one_of_total :
    (w : String → ℕ) (xs : List String) (k : String)
    → ((j : String) → w j ≤ 1)
    → length xs ≤ total w xs
    → mem k xs ≡ true
    → w k ≡ 1
unfolding mem
one_of_total w [] k h le m = cc
one_of_total w (x ∷ xs) k h le m = elim (Bool-cases (str_eq x k)) [
  | inl same ↦ ground (arith, ap w ((eq_iff x k).0 same), total-le-length w xs h, h k)
  | inr other ↦ one_of_total w xs k h (omega (arith, h x)) (rw other at m)
]

module _ (keys : List String) (d : Dict (List String)) (distinct : HasDistinctKeys d)
    (closed : (k : String) → mem k keys ≡ false → deps_of d k ≡ [])
    (once : (k : String) → count k keys ≤ 1) where
  degrees : Dict Degree
  degrees = set_degrees d (zeros keys)

  ready : List String
  ready = sort_strings (keep (λ k. is_zero (degree_of degrees k)) keys)

  emitted : List String
  emitted = kahn (length keys) (dependents_of d []) degrees ready []

  start-Inv : Inv keys d degrees ready []
  unfolding degrees ready
  start-Inv = record {
    degree = λ k. first_degree k keys d distinct ∙ ap some (sym (missing-nil (deps_of d k)));
    places = λ k. ground (
      arith,
      total-sort_strings (is_name k) (keep (λ j. is_zero (degree_of degrees j)) keys),
      count-keep k (λ j. is_zero (degree_of degrees j)) keys,
      first_degree k keys d distinct,
      missing-nil (deps_of d k),
      mem-count k keys,
      once k,
    );
    sorted = tt;
  }

  emitted-Inv : (degrees' : Dict Degree) × Inv keys d degrees' [] emitted
  unfolding emitted
  emitted-Inv =
      kahn-Inv keys d distinct closed (length keys) degrees ready []
        (omega (arith, total-le-length (λ k. 1 - count k []) keys (λ k. omega arith))) start-Inv

  emitted-once : (k : String) → count k emitted ≡ one_if (due keys d emitted k)
  emitted-once k = omega (arith, emitted-Inv.1.places k)

  emitted_le_one : (k : String) → count k emitted ≤ 1
  emitted_le_one k = ground (arith, emitted-once k)

  key-of-emitted : (k : String) → mem k emitted ≡ true → count k keys ≡ 1
  key-of-emitted k m = ground (arith, emitted-once k, mem-count k emitted, mem-count k keys, once k)

  emitted_all :
      ltb (length emitted) (length keys) ≡ false
      → (k : String) → mem k keys ≡ true
      → count k emitted ≡ 1
  emitted_all long k m =
      one_of_total (λ j. count j emitted) keys k emitted_le_one
        (ground
          (arith, swap_counts keys emitted, total-ones (λ j. count j keys) emitted key-of-emitted))
        m

  -- The sort returns each repository exactly once, and nothing else, also where there is a cycle.
  pub count-topo_sort : (k : String) → count k (topo_sort_by_deps keys d) ≡ count k keys
  unfolding topo_sort_by_deps degrees ready emitted
  count-topo_sort k = elim (Bool-cases (ltb (length emitted) (length keys))) [
    | inl short ↦ rw short (
        ground (
          arith,
          emitted-once k,
          mem-count k emitted,
          mem-count k keys,
          once k,
          count-append k emitted (left_over keys emitted),
          total-sort_strings (is_name k) (keep (λ j. not (mem j emitted)) keys),
          count-keep k (λ j. not (mem j emitted)) keys,
        ))
    | inr long ↦
        rw long (ground (arith, emitted-once k, mem-count k keys, once k, emitted_all long k))
  ]

module _ (keys : List String) (d : Dict (List String)) (distinct : HasDistinctKeys d)
    (closed : (k : String) → mem k keys ≡ false → deps_of d k ≡ [])
    (once : (k : String) → count k keys ≤ 1)
    (known : (k j : String) → mem j (deps_of d k) ≡ true → mem j keys ≡ true) (rank : String → ℕ)
    (falls : (k j : String) → mem j (deps_of d k) ≡ true → rank j < rank k) where
  abbrev out : List String
  out = emitted keys d distinct closed once

  complete : (b : ℕ) (k : String) → rank k < b → mem k keys ≡ true → mem k out ≡ true
  complete zero k le m = absurd (omega arith)
  complete (suc b) k le m =
      let met =
        missing-zero out (deps_of d k)
          (λ j jm. complete b j (omega (arith, falls k j jm)) (known k j jm)) in
      ground (arith, emitted-once keys d distinct closed once k, mem-count k out)

  nothing_left : left_over keys out ≡ []
  unfolding left_over sort_strings sort_by
  nothing_left = ap (sort_by str_lt) (
      keep-nil (λ k. not (mem k out)) keys
        (λ k m. ap not (complete (suc (rank k)) k (omega arith) m)))

  -- Where dependencies are repositories and a rank falls along them (there is no cycle), each
  -- repository stands behind all its dependencies.
  pub topo_sort-DepsFirst : DepsFirst d [] (topo_sort_by_deps keys d)
  unfolding topo_sort_by_deps degrees ready emitted
  topo_sort-DepsFirst =
      let sorted = (emitted-Inv keys d distinct closed once).1.sorted in
      elim (Bool-cases (ltb (length out) (length keys))) [
        | inl short ↦ rw short (rw (nothing_left, append-nil) sorted)
        | inr long ↦ rw long sorted
      ]
