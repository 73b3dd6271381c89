-- ===== src/Workspace/Terminal/Reach.antt =====
-- The depth-first search of terminal.go has enough fuel, and what its count says.
use nix_repo_base.Base.{
  ℕ, zero, suc, ◌≤◌, ◌<◌, String, ◌≡◌, refl, ap, sym, ◌∙◌, ◌⊎◌, inl, inr, Bool, true, false, not,
  ◌&&◌, Option, none, some, List, [], ◌∷◌, mem, delete, length, total, any, one_if, ltb, str_eq,
  eq_iff, eq_refl, All, arith, Bool-cases, All-mem,
}
use nix_repo_base.Workspace.Config.{LockEdge}
use nix_repo_base.Workspace.Terminal.{
  children, visit_all, dfs_terminal, reachable_from_node, is_connected,
}

-- How many of these names are not visited.
abbrev unvisited : List String → List String → ℕ
unvisited names visited = total (λ k. one_if (not (mem k visited))) names

unvisited_le :
    (names v w : List String)
    → ((k : String) → mem k v ≡ true → mem k w ≡ true)
    → unvisited names w ≤ unvisited names v
unvisited_le [] v w grows = omega arith
unvisited_le (k ∷ names) v w grows = ground (arith, grows k, unvisited_le names v w grows)

unvisited-cons :
    (names v : List String) (n : String)
    → mem n names ≡ true
    → mem n v ≡ false
    → unvisited names (n ∷ v) < unvisited names v
unfolding mem
unvisited-cons [] v n m new = cc
unvisited-cons (k ∷ names) v n m new = elim (Bool-cases (mem n names)) [
  | inl later ↦ ground (arith, unvisited-cons names v n later new)
  | inr now ↦
      let le = unvisited_le names v (n ∷ v) (λ j jm. ground arith) in
      ground (arith, le, eq_iff k n, eq_refl n, λ (e : k ≡ n). ap (λ x. mem x v) e)
]

unvisited_none : (names : List String) → unvisited names [] ≤ length names
unfolding mem
unvisited_none [] = omega arith
unvisited_none (k ∷ names) = ground (arith, unvisited_none names)

-- A search that ends, keeps what was visited, and visits these names too.
record Visits (cs v : List String) (r : Option (List String)) : Type 0 where
  after : List String
  ends : r ≡ some after
  grows : (k : String) → mem k v ≡ true → mem k after ≡ true
  covers : All (λ c. mem c after ≡ true) cs

module _ (names : List String) (es : List LockEdge)
    (known : All (λ e. mem e.target names ≡ true) es) where
  children_known : (k : String) → All (λ c. mem c names ≡ true) (children es k)
  unfolding children
  children_known k = go es known
    where
      go :
          (ds : List LockEdge)
          → All (λ e. mem e.target names ≡ true) ds
          → All (λ c. mem c names ≡ true) (children ds k)
      go [] h = tt
      go (d ∷ ds) h = elim (Bool-cases (str_eq d.consumer k)) [
        | inl own ↦ rw own (h.0, go ds h.1)
        | inr other ↦ rw other (go ds h.1)
      ]

  visit_all-Visits :
      (fuel : ℕ) (visit : String → List String → Option (List String))
      → ((c : String) (v : List String)
          → mem c names ≡ true
          → unvisited names v < fuel
          → Visits (c ∷ []) v (visit c v))
      → (cs v : List String) → All (λ c. mem c names ≡ true) cs
      → unvisited names v < fuel
      → Visits cs v (visit_all visit cs v)
  unfolding visit_all
  visit_all-Visits fuel visit each [] v h small = record {
    after = v;
    ends = refl;
    grows = λ k m. m;
    covers = tt;
  }
  visit_all-Visits fuel visit each (c ∷ cs) v h small =
      let first = each c v h.0 small in
      let le = unvisited_le names v first.after first.grows in
      let rest = visit_all-Visits fuel visit each cs first.after h.1 (omega (arith, le, small)) in
      record {
        after = rest.after;
        ends = rw (first.ends, visit_all) rest.ends;
        grows = λ k m. rest.grows k (first.grows k m);
        covers = (rest.grows c first.covers.0, rest.covers);
      }

  -- More fuel than unvisited names is enough.
  dfs_terminal-Visits :
      (fuel : ℕ) (node : String) (v : List String)
      → mem node names ≡ true
      → unvisited names v < fuel
      → Visits (node ∷ []) v (dfs_terminal fuel es node v)
  unfolding dfs_terminal
  dfs_terminal-Visits zero node v m small = absurd (omega (arith, small))
  dfs_terminal-Visits (suc fuel) node v m small = elim (Bool-cases (mem node v)) [
    | inl old ↦
        rw (old, dfs_terminal)
          (record { after = v; ends = refl; grows = λ k h. h; covers = (old, tt) })
    | inr new ↦
        let below =
          visit_all-Visits fuel (dfs_terminal fuel es) (dfs_terminal-Visits fuel) (children es node)
            (node ∷ v) (children_known node)
            (omega (arith, small, unvisited-cons names v node m new)) in
        rw (new, dfs_terminal)
          (record {
            after = below.after;
            ends = below.ends;
            grows = λ k h. below.grows k (unfold mem in ground arith);
            covers = (below.grows node (unfold mem in rw eq_refl refl), tt);
          })
  ]

length-delete :
    (k x : String) (v : List String)
    → mem x v ≡ true
    → str_eq x k ≡ false
    → ltb 0 (length (delete k v)) ≡ true
unfolding mem delete
length-delete k x [] m other = cc
length-delete k x (y ∷ v) m other =
    ground (arith, length-delete k x v, eq_iff y x, λ (e : y ≡ x). ap (λ z. str_eq z k) e)

-- An edge of this consumer to another repository.
abbrev pub has_dep : List LockEdge → String → Bool
has_dep es k = any (λ e. str_eq e.consumer k && not (str_eq e.target k)) es

-- One of the children is another name, or all are this one.
children_cases :
    (es : List LockEdge) (k : String)
    → ((x : String) × (mem x (children es k) ≡ true) × (str_eq x k ≡ false) × (has_dep es k ≡ true))
      ⊎ (All (λ c. c ≡ k) (children es k) × (has_dep es k ≡ false))
unfolding children mem
children_cases [] k = inr (tt, refl)
children_cases (e ∷ es) k = elim (Bool-cases (str_eq e.consumer k)) [
  | inl own ↦ elim (Bool-cases (str_eq e.target k)) [
    | inl self ↦ elim (children_cases es k) [
      | inl (x, m, ne, d) ↦ rw own (inl (x, ground arith, ne, ground arith))
      | inr (all, d) ↦ rw own (inr (((eq_iff e.target k).0 self, all), ground arith))
    ]
    | inr other ↦ rw own (inl (e.target, rw eq_refl refl, other, ground arith))
  ]
  | inr foreign ↦ rw foreign (children_cases es k)
]

visit_all_self :
    (fuel : ℕ) (es : List LockEdge) (k : String) (cs : List String)
    → All (λ c. c ≡ k) cs
    → visit_all (dfs_terminal (suc fuel) es) cs (k ∷ []) ≡ some (k ∷ [])
unfolding visit_all dfs_terminal mem
visit_all_self fuel es k [] h = refl
visit_all_self fuel es k (c ∷ cs) h =
    let seen : dfs_terminal (suc fuel) es c (k ∷ []) ≡ some (k ∷ []) =
      rw (h.0, dfs_terminal, mem, eq_refl) refl in
    rw (seen, visit_all) (visit_all_self fuel es k cs h.1)

mem_nonempty : (k : String) (names : List String) → mem k names ≡ true → 0 < length names
unfolding mem
mem_nonempty k [] m = cc
mem_nonempty k (j ∷ names) m = omega arith

mem-nil : (k : String) → mem k [] ≡ false
unfolding mem
mem-nil k = refl

-- The first call, one unit of fuel for each name left.
dfs_first :
    (es : List LockEdge) (fuel : ℕ) (k : String)
    → dfs_terminal (suc fuel) es k [] ≡ visit_all (dfs_terminal fuel es) (children es k) (k ∷ [])
unfolding dfs_terminal mem
dfs_first es fuel k = refl

-- The search never lacks fuel, and it counts something exactly if there is an edge to another
-- repository.
pub is_connected-reachable :
    (names : List String) (es : List LockEdge) (k : String)
    → All (λ e. mem e.target names ≡ true) es
    → mem k names ≡ true
    → is_connected (reachable_from_node names es k) ≡ has_dep es k
unfolding reachable_from_node delete
is_connected-reachable names es k known m = elim (children_cases es k) [
  | inl (x, xm, other, d) ↦
      let room = unvisited-cons names [] k m (mem-nil k) in
      let v =
        visit_all-Visits names es known (length names) (dfs_terminal (length names) es)
          (dfs_terminal-Visits names es known (length names)) (children es k) (k ∷ [])
          (children_known names es known k) (omega (arith, room, unvisited_none names)) in
      rw (dfs_first es (length names) k, v.ends, reachable_from_node)
        (length-delete k x v.after (All-mem v.after (children es k) x v.covers xm) other ∙ sym d)
  | inr (all, d) ↦ self_only (length names) (mem_nonempty k names m) all d
]
  where
    self_only :
        (n : ℕ)
        → 0 < n
        → All (λ c. c ≡ k) (children es k)
        → has_dep es k ≡ false
        → is_connected (elim (dfs_terminal (suc n) es k []) [
          | none ↦ none
          | some visited ↦ some (length (delete k visited))
        ])
          ≡ has_dep es k
    self_only zero le all d = absurd (omega (arith, le))
    self_only (suc n) le all d =
        rw (dfs_first es (suc n) k, visit_all_self n es k (children es k) all, delete, eq_refl)
          (sym d)
