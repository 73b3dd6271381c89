-- ===== src/Logs/Logdir/Bounded.antt =====
-- The second pass of SweepWith keeps its sum, and ends below the cap or with nothing left to evict.
use nix_repo_base.Base.{
  ◌≤◌, ◌≡◌, refl, ap, sym, ◌∙◌, Bool, true, false, none, some, List, [], ◌∷◌, length, any, keep,
  total, All, sort_by, any-sort_by, ltb, arith, Bool-cases, ◌⊎◌, inl, inr,
}
use nix_repo_base.Base.Bytes.{Bytes, bytes_eq}
use nix_repo_base.Logs.Logdir.{
  Entry, Calls, Policy, at_name, remove, is_old, is_evictable, size_of, Eviction, evict, evict_old,
  evict_over, retention,
}
use nix_repo_base.Logs.Logdir.Names.{
  at-remove, IsDirectory, remove-IsDirectory, holds_of, any-at_name,
}
use nix_repo_base.Logs.Logdir.Kept.{any-keep, named}
use nix_repo_base.Logs.Logdir.Files.{
  sort_by-IsDirectory, keep-IsDirectory, All-sort_by, All-keep, total-remove, All-away, none_left,
}

module _ (calls : Calls) (policy : Policy) (dir : List Entry)
    (removable : (n : Bytes) → calls.removes n ≡ true) where
  -- What is left to evict is in the list, and the sum is that of the directory.
  record IsTracked (es : List Entry) (s : Eviction calls policy) : Type 0 where
    sums : s.sum ≡ total (size_of calls policy) s.dir
    names : IsDirectory s.dir
    there :
        All (λ e. (at_name e.name s.dir ≡ some e) × (size_of calls policy e ≡ length e.content)) es
    apart : IsDirectory es
    others :
        (n : Bytes)
        → named n es ≡ false
        → holds_of (is_evictable calls policy dir) (at_name n s.dir) ≡ false

  without :
      (e : Entry) (n : Bytes) (es : List Entry) (s : Eviction calls policy)
      → IsTracked (e ∷ es) s
      → named n es ≡ false
      → (b : Bool) → bytes_eq e.name n ≡ b
      → holds_of (is_evictable calls policy dir) (at_name n (remove e.name s.dir)) ≡ false
  without e n es s t h true same =
      let gone : at_name n (remove e.name s.dir) ≡ none = at-remove n e.name s.dir ∙ rw same refl in
      ap (holds_of (is_evictable calls policy dir)) gone
  without e n es s t h false away =
      let kept : at_name n (remove e.name s.dir) ≡ at_name n s.dir =
        at-remove n e.name s.dir ∙ rw away refl in
      ap (holds_of (is_evictable calls policy dir)) kept ∙ t.others n (ground (arith, away, h))

  evict-IsTracked :
      (e : Entry) (es : List Entry) (s : Eviction calls policy)
      → IsTracked (e ∷ es) s
      → IsTracked es (evict calls policy e s)
  unfolding evict
  evict-IsTracked e es s t = rw (removable e.name) (record {
    sums = omega (
      arith,
      t.sums,
      total-remove (size_of calls policy) e.name s.dir e t.names (t.there.0.0),
      t.there.0.1,
    );
    names = remove-IsDirectory e.name s.dir t.names;
    there =
        All-away
          (λ f. (at_name f.name s.dir ≡ some f) × (size_of calls policy f ≡ length f.content))
          (λ f.
            (at_name f.name (remove e.name s.dir) ≡ some f)
            × (size_of calls policy f ≡ length f.content))
          e.name es t.apart.0 (λ f away h. (at-remove f.name e.name s.dir ∙ rw away (h.0), h.1))
          t.there.1;
    apart = t.apart.1;
    others = λ n h. without e n es s t h (bytes_eq e.name n) refl;
  })

  evict_old-IsTracked :
      (es : List Entry) (s : Eviction calls policy)
      → IsTracked es s
      → IsTracked (evict_old calls policy es s).0 (evict_old calls policy es s).1
  unfolding evict_old
  evict_old-IsTracked [] s t = t
  evict_old-IsTracked (e ∷ es) s t = elim (Bool-cases (is_old policy e)) [
    | inl old ↦ rw old (evict_old-IsTracked es (evict calls policy e s) (evict-IsTracked e es s t))
    | inr fresh ↦ rw fresh t
  ]

  -- The sum of what a sweep counts is at most the cap, or nothing is left to evict.
  abbrev pub IsBounded : Eviction calls policy → Type 0
  IsBounded s =
      (s.sum ≡ total (size_of calls policy) s.dir)
      × ((s.sum ≤ policy.cap_bytes) ⊎ (any (is_evictable calls policy dir) s.dir ≡ false))

  evict_over-IsBounded :
      (es : List Entry) (s : Eviction calls policy)
      → IsTracked es s
      → IsBounded (evict_over calls policy es s)
  unfolding evict_over
  evict_over-IsBounded [] s t =
      (t.sums, inr (none_left (is_evictable calls policy dir) s.dir t.names (λ n. t.others n refl)))
  evict_over-IsBounded (e ∷ es) s t = elim (Bool-cases (ltb policy.cap_bytes s.sum)) [
    | inl over ↦
        rw over (evict_over-IsBounded es (evict calls policy e s) (evict-IsTracked e es s t))
    | inr under ↦ rw under (t.sums, inl (ground (arith, under)))
  ]

  start-IsTracked :
      IsDirectory dir
      → IsTracked
          (sort_by (λ a b. ltb a.mtime b.mtime) (keep (is_evictable calls policy dir) dir))
          (record { dir = dir; sum = total (size_of calls policy) dir; removed = 0 })
  unfolding is_evictable size_of
  start-IsTracked v =
      let less : Entry → Entry → Bool = λ a b. ltb a.mtime b.mtime in
      record {
        sums = refl;
        names = v;
        there =
            All-sort_by
              (λ e. (at_name e.name dir ≡ some e) × (size_of calls policy e ≡ length e.content))
              less (keep (is_evictable calls policy dir) dir)
              (All-keep
                (λ e. (at_name e.name dir ≡ some e) × (size_of calls policy e ≡ length e.content))
                (is_evictable calls policy dir) dir (λ e passes at. (at, ground (arith, passes)))
                v);
        apart =
            sort_by-IsDirectory less (keep (is_evictable calls policy dir) dir)
              (keep-IsDirectory (is_evictable calls policy dir) dir v);
        others = λ n h.
            sym (any-at_name (is_evictable calls policy dir) n dir v)
            ∙ sym (any-keep (is_evictable calls policy dir) (λ e. bytes_eq e.name n) dir)
            ∙ sym (
                any-sort_by less (λ e. bytes_eq e.name n)
                  (keep (is_evictable calls policy dir) dir))
            ∙ h;
      }

  -- Where names are distinct and files can be removed, the second pass of a sweep ends with the sizes of
  -- the files it counts at or below the cap, or with nothing left that it may evict; the sum it keeps is
  -- that of the directory.
  pub retention-IsBounded : IsDirectory dir → IsBounded (retention calls policy dir)
  unfolding retention
  retention-IsBounded v =
      let less : Entry → Entry → Bool = λ a b. ltb a.mtime b.mtime in
      let files = sort_by less (keep (is_evictable calls policy dir) dir) in
      let start : Eviction calls policy = record {
        dir = dir;
        sum = total (size_of calls policy) dir;
        removed = 0;
      } in
      evict_over-IsBounded (evict_old calls policy files start).0
        (evict_old calls policy files start).1 (evict_old-IsTracked files start (start-IsTracked v))
