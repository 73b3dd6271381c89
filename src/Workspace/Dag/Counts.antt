-- ===== src/Workspace/Dag/Counts.antt =====
-- What the tables and the inner loop of the sort hold, name by name.
use nix_repo_base.Base.{
  ℕ, zero, suc, ◌+◌, ◌-◌, ◌*◌, String, ◌≡◌, refl, sym, Bool, true, false, ◌&&◌, none, some, List,
  [], ◌∷◌, ◌++◌, Dict, lookup, insert, lookup-insert, length, count, is_name, one_if, count-append,
  total-sort_strings, sort_strings, str_eq, eq_iff, ltb, leb, if◌then◌else◌, arith,
}
use nix_repo_base.Workspace.Dag.{
  deps_of, Degree, decrement, is_zero, degree_of, zeros, set_degrees, add_dependent, dependents_of,
  release,
}

-- The keys of a map stand in it once.
abbrev pub HasDistinctKeys : Dict (List String) → Type 0
HasDistinctKeys [] = Unit
HasDistinctKeys ((k, ds) ∷ m) = (lookup k m ≡ none) × HasDistinctKeys m

degree_of-zeros : (k : String) (ks : List String) → degree_of (zeros ks) k ≡ some 0
unfolding zeros lookup
degree_of-zeros k [] = refl
degree_of-zeros k (j ∷ ks) =
    ground (arith, lookup-insert j k (some 0) (zeros ks), degree_of-zeros k ks)

degree_of-set_degrees :
    (k : String) (d : Dict (List String)) (m : Dict Degree)
    → HasDistinctKeys d
    → degree_of (set_degrees d m) k
      ≡ elim (lookup k d) [ none ↦ degree_of m k | some ds ↦ some (length ds) ]
unfolding set_degrees lookup
degree_of-set_degrees k [] m h = refl
degree_of-set_degrees k ((j, ds) ∷ rest) m h = ground (
  arith,
  degree_of-set_degrees k rest (insert j (some (length ds)) m) h.1,
  lookup-insert j k (some (length ds)) m,
  eq_iff j k,
)

-- The in-degree starts as the number of dependencies.
pub first_degree :
    (k : String) (ks : List String) (d : Dict (List String))
    → HasDistinctKeys d
    → degree_of (set_degrees d (zeros ks)) k ≡ some (length (deps_of d k))
first_degree k ks d h = ground (arith, degree_of-set_degrees k d (zeros ks) h, degree_of-zeros k ks)

count-add_dependent :
    (k n repo : String) (ds : List String) (m : Dict (List String))
    → count k (deps_of (add_dependent repo ds m) n)
      ≡ count k (deps_of m n) + is_name k repo * count n ds
unfolding add_dependent
count-add_dependent k n repo [] m = omega arith
count-add_dependent k n repo (d ∷ ds) m = ground (
  arith,
  count-add_dependent k n repo ds (insert d (deps_of m d ++ repo ∷ []) m),
  lookup-insert d n (deps_of m d ++ repo ∷ []) m,
  count-append k (deps_of m d) (repo ∷ []),
  eq_iff d n,
)

count-dependents_of :
    (k n : String) (d m : Dict (List String))
    → HasDistinctKeys d
    → count k (deps_of (dependents_of d m) n) ≡ count k (deps_of m n) + count n (deps_of d k)
unfolding dependents_of lookup
count-dependents_of k n [] m h = omega arith
count-dependents_of k n ((j, ds) ∷ rest) m h = ground (
  arith,
  count-dependents_of k n rest (add_dependent j ds m) h.1,
  count-add_dependent k n j ds m,
  eq_iff j k,
)

-- `k` is listed as a dependent of `n` as often as `n` is as a dependency of `k`.
pub dependents_lem :
    (k n : String) (d : Dict (List String))
    → HasDistinctKeys d
    → count k (deps_of (dependents_of d []) n) ≡ count n (deps_of d k)
unfolding lookup
dependents_lem k n d h = omega (arith, count-dependents_of k n d [] h)

-- A degree after `c` decrements.
abbrev pub minus : Degree → ℕ → Degree
minus none c = none
minus (some a) c = if leb c a then some (a - c) else none

-- Whether `c` decrements take a degree to zero.
abbrev pub hits : Degree → ℕ → ℕ
hits none c = 0
hits (some a) c = one_if (ltb 0 a && leb a c)

minus-decrement : (d : Degree) (c : ℕ) → minus (decrement d) c ≡ minus d (1 + c)
minus-decrement none c = refl
minus-decrement (some zero) c = ground arith
minus-decrement (some (suc a)) c = ground arith

hits-decrement :
    (d : Degree) (c : ℕ) → one_if (is_zero (decrement d)) + hits (decrement d) c ≡ hits d (1 + c)
hits-decrement none c = omega arith
hits-decrement (some zero) c = ground arith
hits-decrement (some (suc zero)) c = ground arith
hits-decrement (some (suc (suc a))) c = ground arith

degree_of-insert :
    (k j : String) (d : Degree) (m : Dict Degree)
    → degree_of (insert j d m) k ≡ (if str_eq j k then d else degree_of m k)
degree_of-insert k j d m = ground (arith, lookup-insert j k d m)

minus-zero : (d : Degree) → minus d 0 ≡ d
minus-zero none = refl
minus-zero (some a) = ground arith

hits-zero : (d : Degree) → hits d 0 ≡ 0
hits-zero none = refl
hits-zero (some a) = ground arith

abbrev enqueue : Bool → List String → String → List String
enqueue b ready d = if b then sort_strings (ready ++ d ∷ []) else ready

count-enqueue :
    (k d : String) (b : Bool) (ready : List String)
    → count k (enqueue b ready d) ≡ count k ready + one_if b * is_name k d
count-enqueue k d true ready =
    omega (arith, total-sort_strings (is_name k) (ready ++ d ∷ []), count-append k ready (d ∷ []))
count-enqueue k d false ready = omega arith

pub degree-release :
    (k : String) (ds : List String) (m : Dict Degree) (ready : List String)
    → degree_of (release ds m ready).0 k ≡ minus (degree_of m k) (count k ds)
unfolding release
degree-release k [] m ready = sym (minus-zero (degree_of m k))
degree-release k (d ∷ ds) m ready =
    let left = decrement (degree_of m d) in
    ground (
      arith,
      degree-release k ds (insert d left m) (enqueue (is_zero left) ready d),
      degree_of-insert k d left m,
      minus-decrement (degree_of m k) (count k ds),
      eq_iff d k,
    )

pub count-release :
    (k : String) (ds : List String) (m : Dict Degree) (ready : List String)
    → count k (release ds m ready).1 ≡ count k ready + hits (degree_of m k) (count k ds)
unfolding release
count-release k [] m ready = omega (arith, hits-zero (degree_of m k))
count-release k (d ∷ ds) m ready =
    let left = decrement (degree_of m d) in
    ground (
      arith,
      count-release k ds (insert d left m) (enqueue (is_zero left) ready d),
      count-enqueue k d (is_zero left) ready,
      degree_of-insert k d left m,
      hits-decrement (degree_of m k) (count k ds),
      eq_iff d k,
    )
