-- ===== src/Workspace/Dag/Order/Loop.antt =====
-- The invariant of the outer loop: a name is ready or emitted, once, exactly if it is a repository
-- all of whose dependencies are emitted.
use nix_repo_base.Base.{
  ℕ, zero, suc, ◌+◌, ◌-◌, ◌≤◌, ◌<◌, String, ◌≡◌, ◌∙◌, Bool, true, false, ◌&&◌, some, List, [], ◌∷◌,
  ◌++◌, Dict, mem, mem-append, total, All, count, is_name, one_if, mem-count, count-append,
  total-sort_strings, sort_strings, str_eq, eq_iff, eq_refl, ◌==◌, if◌then◌else◌, arith, Bool-cases,
  inl, inr,
}
use mathlib.Core.List.{append-nil, append_assoc}
use nix_repo_base.Workspace.Dag.{deps_of, Degree, degree_of, release, kahn, dependents_of}
use nix_repo_base.Workspace.Dag.Counts.{
  HasDistinctKeys, dependents_lem, degree-release, count-release,
}

-- How many of these names are not emitted.
abbrev pub missing : List String → List String → ℕ
missing order = total (λ d. if mem d order then 0 else 1)

missing-snoc :
    (n : String) (order ds : List String)
    → mem n order ≡ false
    → missing (order ++ n ∷ []) ds + count n ds ≡ missing order ds
unfolding mem
missing-snoc n order [] h = omega arith
missing-snoc n order (d ∷ ds) h =
    ground (arith, missing-snoc n order ds h, mem-append d order (n ∷ []), eq_iff d n, eq_iff n d)

-- In this list, each name comes behind its dependencies; `seen` are the names before it.
abbrev pub DepsFirst : Dict (List String) → List String → List String → Type 0
DepsFirst d seen [] = Unit
DepsFirst d seen (n ∷ rest) =
    All (λ k. mem k seen ≡ true) (deps_of d n) × DepsFirst d (seen ++ n ∷ []) rest

pub All-of-missing :
    (order ds : List String) → missing order ds ≡ 0 → All (λ k. mem k order ≡ true) ds
All-of-missing order [] h = tt
All-of-missing order (d ∷ ds) h = (ground arith, All-of-missing order ds (omega arith))

DepsFirst-snoc :
    (d : Dict (List String)) (seen order : List String) (n : String)
    → DepsFirst d seen order
    → All (λ k. mem k (seen ++ order) ≡ true) (deps_of d n)
    → DepsFirst d seen (order ++ n ∷ [])
DepsFirst-snoc d seen [] n h a = (rw append-nil at a, tt)
DepsFirst-snoc d seen (x ∷ order) n h a =
    (h.0, DepsFirst-snoc d (seen ++ x ∷ []) order n h.1 (rw append_assoc a))

remaining-le :
    (n : String) (order ks : List String)
    → total (λ k. 1 - count k (order ++ n ∷ [])) ks ≤ total (λ k. 1 - count k order) ks
remaining-le n order [] = omega arith
remaining-le n order (k ∷ ks) =
    omega (arith, remaining-le n order ks, count-append k order (n ∷ []))

remaining-lt :
    (n : String) (order ks : List String)
    → mem n ks ≡ true
    → mem n order ≡ false
    → total (λ k. 1 - count k (order ++ n ∷ [])) ks < total (λ k. 1 - count k order) ks
unfolding mem
remaining-lt n order [] h new = cc
remaining-lt n order (k ∷ ks) h new = elim (Bool-cases (str_eq k n)) [
  | inl same ↦ ground (
    arith,
    remaining-le n order ks,
    count-append k order (n ∷ []),
    mem-count n order,
    eq_iff k n,
    eq_refl n,
  )
  | inr other ↦
      omega (arith, remaining-lt n order ks (rw other at h) new, count-append k order (n ∷ []))
]

module _ (keys : List String) (d : Dict (List String)) where
  -- A repository all of whose dependencies are emitted.
  abbrev pub due : List String → String → Bool
  due order k = mem k keys && missing order (deps_of d k) == 0

  pub record Inv (degrees : Dict Degree) (ready order : List String) : Type 0 where
    pub degree : (k : String) → degree_of degrees k ≡ some (missing order (deps_of d k))
    pub places : (k : String) → count k ready + count k order ≡ one_if (due order k)
    pub sorted : DepsFirst d [] order

  -- The names that are not emitted yet.
  abbrev pub remaining : List String → ℕ
  remaining order = total (λ k. 1 - count k order) keys

module _ (keys : List String) (d : Dict (List String)) (distinct : HasDistinctKeys d)
    (closed : (k : String) → mem k keys ≡ false → deps_of d k ≡ []) where
  head_due :
      (degrees : Dict Degree) (n : String) (ready order : List String)
      → Inv keys d degrees (n ∷ ready) order
      → (mem n keys ≡ true) × (mem n order ≡ false) × (missing order (deps_of d n) ≡ 0)
  head_due degrees n ready order h = ground (arith, h.places n, eq_refl n, mem-count n order)

  next : String → List String
  next n = sort_strings (deps_of (dependents_of d []) n)

  count-next : (k n : String) → count k (next n) ≡ count n (deps_of d k)
  unfolding next
  count-next k n =
      total-sort_strings (is_name k) (deps_of (dependents_of d []) n)
      ∙ dependents_lem k n d distinct

  -- One round of the loop keeps the invariant.
  round-Inv :
      (degrees : Dict Degree) (n : String) (ready order : List String)
      → Inv keys d degrees (n ∷ ready) order
      → let r = release (next n) degrees ready in Inv keys d r.0 r.1 (order ++ n ∷ [])
  round-Inv degrees n ready order h =
      let (key, new, met) = head_due degrees n ready order h in
      record {
        degree = λ k. ground (
          arith,
          degree-release k (next n) degrees ready,
          h.degree k,
          count-next k n,
          missing-snoc n order (deps_of d k) new,
        );
        places = λ k. ground (
          arith,
          count-release k (next n) degrees ready,
          h.degree k,
          h.places k,
          h.places n,
          closed k,
          count-next k n,
          count-append k order (n ∷ []),
          missing-snoc n order (deps_of d k) new,
          eq_iff n k,
        );
        sorted = DepsFirst-snoc d [] order n h.sorted (All-of-missing order (deps_of d n) met);
      }

  -- With as much fuel as names remain the loop ends with nothing ready.
  pub kahn-Inv :
      (fuel : ℕ) (degrees : Dict Degree) (ready order : List String)
      → remaining keys d order ≤ fuel
      → Inv keys d degrees ready order
      → (degrees' : Dict Degree) × Inv keys d degrees' []
          (kahn fuel (dependents_of d []) degrees ready order)
  unfolding kahn next
  kahn-Inv zero degrees [] order le h = (degrees, h)
  kahn-Inv zero degrees (n ∷ ready) order le h =
      let (key, new, met) = head_due degrees n ready order h in
      absurd (omega (arith, remaining-lt n order keys key new))
  kahn-Inv (suc fuel) degrees [] order le h = (degrees, h)
  kahn-Inv (suc fuel) degrees (n ∷ ready) order le h =
      let (key, new, met) = head_due degrees n ready order h in
      let r = release (next n) degrees ready in
      kahn-Inv fuel r.0 r.1 (order ++ n ∷ []) (omega (arith, remaining-lt n order keys key new))
        (round-Inv degrees n ready order h)
