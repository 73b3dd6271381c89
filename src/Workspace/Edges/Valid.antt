-- ===== src/Workspace/Edges/Valid.antt =====
-- What holds of the edges that buildEdges returns.
use nix_repo_base.Base.{
  ◌≤◌, String, ◌≡◌, refl, ◌∙◌, All-if, All-map, Bool, true, false, not, ◌||◌, Option, none, some,
  List, [], ◌∷◌, ◌++◌, Dict, lookup, mem, any, All, All-append, count, mem-count,
  total-sort_strings, is_name, sort_strings, str_eq, eq_refl, str_eq_comm, if◌then◌else◌, arith,
}
use nix_repo_base.Workspace.Config.{LockEdge, InputSpec}
use nix_repo_base.Workspace.Url.{canonical_url}
use nix_repo_base.Workspace.Edges.{
  keys, UrlIndex, lookup_url, to_target, edge_of_spec, edge_of_alias, edges_of_aliases, specs_of,
  edges_of, is_empty,
}
use nix_repo_base.Workspace.Lock.Valid.{HasUniqueAliases}
use nix_repo_base.Workspace.Lock.{same_pair}
use nix_repo_base.Workspace.Edges.Index.{Indexed, lookup_url-Indexed}

-- Both ends are these repositories, and they are different.
pub record Joins (ks : List String) (e : LockEdge) : Type 0 where
  pub consumer : mem e.consumer ks ≡ true
  pub target : mem e.target ks ≡ true
  pub other : str_eq e.consumer e.target ≡ false

-- Made for this consumer and alias, and joining repositories.
record From (ks : List String) (c a : String) (e : LockEdge) : Type 0 where
  joins : Joins ks e
  from_consumer : e.consumer ≡ c
  from_alias : e.alias ≡ a

module _ (ks : List String) (m : UrlIndex) (i : Indexed ks m) (c : String)
    (ck : mem c ks ≡ true) where
  to_target-From :
      (a : String) (o : Option String)
      → ((k : String) → o ≡ some k → mem k ks ≡ true)
      → All (From ks c a) (to_target c a o)
  to_target-From a none h = tt
  to_target-From a (some t) h =
      All-if (From ks c a) (str_eq t c) [] (record { consumer = c; alias = a; target = t } ∷ [])
        (λ _. tt)
        (λ ne. (
          record {
            joins = record { consumer = ck; target = h t refl; other = str_eq_comm c t ∙ ne };
            from_consumer = refl;
            from_alias = refl;
          },
          tt,
        ))

  edge_of_spec-From : (a : String) (s : InputSpec) → All (From ks c a) (edge_of_spec m c a s)
  unfolding edge_of_spec
  edge_of_spec-From a s =
      let canon = canonical_url s.url in
      let found = to_target c a (lookup_url canon m) in
      All-if (From ks c a) (not s.flake || is_empty s.url) [] (if is_empty canon then [] else found)
        (λ _. tt)
        (λ _.
          All-if (From ks c a) (is_empty canon) [] found (λ _. tt)
            (λ _. to_target-From a (lookup_url canon m) (λ k e. lookup_url-Indexed ks canon m i e)))

  edge_of_alias-From :
      (specs : Dict InputSpec) (a : String) (o : Option InputSpec)
      → All (From ks c a) (elim o [ none ↦ [] | some s ↦ edge_of_spec m c a s ])
  edge_of_alias-From specs a none = tt
  edge_of_alias-From specs a (some s) = edge_of_spec-From a s

  -- Made for this consumer and one of these aliases.
  abbrev OneOf : List String → LockEdge → Type 0
  OneOf as' e = Joins ks e × (e.consumer ≡ c) × (mem e.alias as' ≡ true)

  edges_of_aliases-OneOf :
      (specs : Dict InputSpec) (as' : List String)
      → All (OneOf as') (edges_of_aliases m c specs as')
  unfolding edges_of_aliases edge_of_alias mem
  edges_of_aliases-OneOf specs [] = tt
  edges_of_aliases-OneOf specs (a ∷ as') =
      All-append (OneOf (a ∷ as')) (edge_of_alias m c specs a) (edges_of_aliases m c specs as')
        (All-map (From ks c a) (OneOf (a ∷ as')) (edge_of_alias m c specs a)
          (λ e f. (f.joins, f.from_consumer, rw f.from_alias (rw eq_refl)))
          (edge_of_alias-From specs a (lookup a specs)))
        (All-map (OneOf as') (OneOf (a ∷ as')) (edges_of_aliases m c specs as')
          (λ e f. (f.0, f.1, ground arith)) (edges_of_aliases-OneOf specs as'))

HasUniqueAliases-append :
    (xs ys : List LockEdge)
    → HasUniqueAliases xs
    → HasUniqueAliases ys
    → All (λ x. All (λ y. same_pair x y ≡ false) ys) xs
    → HasUniqueAliases (xs ++ ys)
HasUniqueAliases-append [] ys ux uy apart = uy
HasUniqueAliases-append (x ∷ xs) ys ux uy apart = (
  All-append (λ y. same_pair x y ≡ false) xs ys ux.0 apart.0,
  HasUniqueAliases-append xs ys ux.1 uy apart.1,
)

HasUniqueAliases-if :
    (b : Bool) (xs : List LockEdge) → HasUniqueAliases xs → HasUniqueAliases (if b then [] else xs)
HasUniqueAliases-if true xs h = tt
HasUniqueAliases-if false xs h = h

to_target_unique : (c a : String) (o : Option String) → HasUniqueAliases (to_target c a o)
to_target_unique c a none = tt
to_target_unique c a (some t) =
    HasUniqueAliases-if (str_eq t c) (record { consumer = c; alias = a; target = t } ∷ []) (tt, tt)

edge_of_alias_unique :
    (m : UrlIndex) (c : String) (specs : Dict InputSpec) (a : String) (o : Option InputSpec)
    → HasUniqueAliases (elim o [ none ↦ [] | some s ↦ edge_of_spec m c a s ])
unfolding edge_of_spec
edge_of_alias_unique m c specs a none = tt
edge_of_alias_unique m c specs a (some s) =
    let canon = canonical_url s.url in
    let found = to_target c a (lookup_url canon m) in
    HasUniqueAliases-if (not s.flake || is_empty s.url) (if is_empty canon then [] else found)
      (HasUniqueAliases-if (is_empty canon) found (to_target_unique c a (lookup_url canon m)))

-- A name that stands in a list once does not stand in the rest of it.
head_once :
    (k j : String) (rest : List String)
    → ((x : String) → count x (k ∷ rest) ≤ 1)
    → mem j rest ≡ true
    → str_eq k j ≡ false
head_once k j rest once m = ground (arith, once j, mem-count j rest)

tail_once :
    (k : String) (rest : List String)
    → ((x : String) → count x (k ∷ rest) ≤ 1)
    → (x : String) → count x rest ≤ 1
tail_once k rest once x = omega (arith, once x)

module _ (ks : List String) (m : UrlIndex) (i : Indexed ks m) where
  edges_of_aliases_unique :
      (c : String) (ck : mem c ks ≡ true) (specs : Dict InputSpec) (as' : List String)
      → ((x : String) → count x as' ≤ 1)
      → HasUniqueAliases (edges_of_aliases m c specs as')
  unfolding edges_of_aliases edge_of_alias
  edges_of_aliases_unique c ck specs [] once = tt
  edges_of_aliases_unique c ck specs (a ∷ as') once =
      HasUniqueAliases-append (edge_of_alias m c specs a) (edges_of_aliases m c specs as')
        (edge_of_alias_unique m c specs a (lookup a specs))
        (edges_of_aliases_unique c ck specs as' (tail_once a as' once))
        (All-map (From ks c a)
          (λ x. All (λ y. same_pair x y ≡ false) (edges_of_aliases m c specs as'))
          (edge_of_alias m c specs a)
          (λ x f.
            All-map (OneOf ks m i c ck as') (λ y. same_pair x y ≡ false)
              (edges_of_aliases m c specs as')
              (λ y g.
                let apart = head_once a y.alias as' once g.2 in rw f.from_alias (ground arith))
              (edges_of_aliases-OneOf ks m i c ck specs as'))
          (edge_of_alias-From ks m i c ck specs a (lookup a specs)))

  -- Joins repositories, the consumer one of these.
  abbrev pub OfConsumers : List String → LockEdge → Type 0
  OfConsumers cs e = Joins ks e × (mem e.consumer cs ≡ true)

  pub edges_of-OfConsumers :
      (input_urls : Dict (Dict InputSpec)) (cs : List String)
      → ((k : String) → mem k cs ≡ true → mem k ks ≡ true)
      → All (OfConsumers cs) (edges_of m input_urls cs)
  unfolding edges_of mem
  edges_of-OfConsumers input_urls [] sub = tt
  edges_of-OfConsumers input_urls (c ∷ cs) sub =
      let specs = specs_of input_urls c in
      let as' = sort_strings (keys specs) in
      let ck = sub c (rw eq_refl) in
      All-append (OfConsumers (c ∷ cs)) (edges_of_aliases m c specs as') (edges_of m input_urls cs)
        (All-map (OneOf ks m i c ck as') (OfConsumers (c ∷ cs)) (edges_of_aliases m c specs as')
          (λ e f. (f.0, rw f.1 (rw eq_refl))) (edges_of_aliases-OneOf ks m i c ck specs as'))
        (All-map (OfConsumers cs) (OfConsumers (c ∷ cs)) (edges_of m input_urls cs)
          (λ e f. (f.0, ground arith))
          (edges_of-OfConsumers input_urls cs (λ k km. sub k (ground arith))))

  pub edges_of_unique :
      (input_urls : Dict (Dict InputSpec)) (cs : List String)
      → ((k : String) → mem k cs ≡ true → mem k ks ≡ true)
      → ((x : String) → count x cs ≤ 1)
      → ((c x : String) → count x (keys (specs_of input_urls c)) ≤ 1)
      → HasUniqueAliases (edges_of m input_urls cs)
  unfolding edges_of mem
  edges_of_unique input_urls [] sub once aliases = tt
  edges_of_unique input_urls (c ∷ cs) sub once aliases =
      let specs = specs_of input_urls c in
      let as' = sort_strings (keys specs) in
      let ck = sub c (rw eq_refl) in
      let sub' = λ (k : String) (km : mem k cs ≡ true). sub k (ground arith) in
      HasUniqueAliases-append (edges_of_aliases m c specs as') (edges_of m input_urls cs)
        (edges_of_aliases_unique c ck specs as'
          (λ x. omega (arith, total-sort_strings (is_name x) (keys specs), aliases c x)))
        (edges_of_unique input_urls cs sub' (tail_once c cs once) aliases)
        (All-map (OneOf ks m i c ck as')
          (λ x. All (λ y. same_pair x y ≡ false) (edges_of m input_urls cs))
          (edges_of_aliases m c specs as')
          (λ x f.
            All-map (OfConsumers cs) (λ y. same_pair x y ≡ false) (edges_of m input_urls cs)
              (λ y g. let apart = head_once c y.consumer cs once g.1 in rw f.1 (ground arith))
              (edges_of-OfConsumers input_urls cs sub'))
          (edges_of_aliases-OneOf ks m i c ck specs as'))

pub any-false :
    (p : LockEdge → Bool) (es : List LockEdge) → All (λ e. p e ≡ false) es → any p es ≡ false
any-false p [] h = refl
any-false p (e ∷ es) h = ground (arith, any-false p es h.1)
