-- ===== src/Logs/Logdir/Kept.antt =====
-- The second pass of SweepWith, and what a sweep leaves as it is.
use mathlib.Core.Option.{some-injective}
use nix_repo_base.Base.{
  ℕ, ◌≡◌, refl, ap, sym, ◌∙◌, Bool, true, false, not, ◌&&◌, ◌||◌, Option, none, some, List, [], ◌∷◌,
  ◌++◌, any, keep, total, sort_by, any-sort_by, ltb, if◌then◌else◌, arith, Bool-cases, inl, inr,
}
use nix_repo_base.Base.Bytes.{Bytes, bytes_eq, is_some, bytes_eq_refl, bytes_eq_sound}
use nix_repo_base.Logs.Logdir.{
  Entry, Calls, Policy, suffix, raw_suffix, strip_suffix?, at_name, remove, is_orphan,
  finalize_orphans, visible, is_old, is_live, has_stem, is_evictable, size_of, Eviction, evict,
  evict_old, evict_over, retention, sweep,
}
use nix_repo_base.Logs.Logdir.Names.{
  strip_suffix?-raw, at-remove, IsDirectory, holds_of, any-at_name, raw-not_out,
}
use nix_repo_base.Logs.Logdir.Orphans.{
  orphaned, orphan_at, rewritten, finalize_orphans-keeps, finalize_orphans-IsDirectory,
  finalize_orphans-irregular,
}

pub any-keep {ℓ} :
    {A : Type ℓ} (p q : A → Bool) (xs : List A) → any q (keep p xs) ≡ any (λ x. p x && q x) xs
any-keep p q [] = refl
any-keep p q (x ∷ xs) = ground (arith, any-keep p q xs)

pub at-removed :
    (b : Bool) (n k : Bytes) (dir : List Entry)
    → bytes_eq k n ≡ false
    → at_name n (if b then remove k dir else dir) ≡ at_name n dir
at-removed true n k dir h = ground (arith, at-remove n k dir)
at-removed false n k dir h = refl

pub at_name-name : (n : Bytes) (dir : List Entry) (e : Entry) → at_name n dir ≡ some e → e.name ≡ n
unfolding at_name
at_name-name n [] e h = cc
at_name-name n (x ∷ es) e h = elim (Bool-cases (bytes_eq x.name n)) [
  | inl same ↦
      ap (λ y. y.name) (sym (some-injective x e (rw same at h))) ∙ bytes_eq_sound x.name n same
  | inr apart ↦ at_name-name n es e (rw apart at h)
]

any-found :
    (p : Entry → Bool) (n : Bytes) (dir : List Entry) (e : Entry)
    → at_name n dir ≡ some e
    → p e ≡ true
    → any p dir ≡ true
unfolding at_name
any-found p n [] e h l = cc
any-found p n (x ∷ es) e h l = elim (Bool-cases (bytes_eq x.name n)) [
  | inl same ↦ ground (arith, ap p (some-injective x e (rw same at h)), l)
  | inr apart ↦ ground (arith, any-found p n es e (rw apart at h) l)
]

-- Is there an entry with this name among some?
abbrev pub named : Bytes → List Entry → Bool
named n es = any (λ e. bytes_eq e.name n) es

one_of :
    (b c : Bool) (n : Bytes) (e : Option Entry) (x y z : List Entry × ℕ)
    → at_name n x.0 ≡ e
    → at_name n y.0 ≡ e
    → at_name n z.0 ≡ e
    → at_name n (if not b then x else if not c then y else z).0 ≡ e
one_of false c n e x y z h k l = h
one_of true false n e x y z h k l = k
one_of true true n e x y z h k l = l

module _ (calls : Calls) (policy : Policy) where
  evict_old-at :
      (es : List Entry) (s : Eviction calls policy) (n : Bytes)
      → named n es ≡ false
      → (at_name n ((evict_old calls policy es s).1.dir) ≡ at_name n s.dir)
        × (named n (evict_old calls policy es s).0 ≡ false)
  unfolding evict_old evict
  evict_old-at [] s n h = (refl, refl)
  evict_old-at (e ∷ es) s n h = elim (Bool-cases (is_old policy e)) [
    | inl old ↦
        let rest = evict_old-at es (evict calls policy e s) n (ground (arith, h)) in
        rw old
          (rest.0 ∙ at-removed (calls.removes e.name) n e.name s.dir (ground (arith, h)), rest.1)
    | inr fresh ↦ rw fresh (refl, h)
  ]

  evict_over-at :
      (es : List Entry) (s : Eviction calls policy) (n : Bytes)
      → named n es ≡ false
      → at_name n ((evict_over calls policy es s).dir) ≡ at_name n s.dir
  unfolding evict_over evict
  evict_over-at [] s n h = refl
  evict_over-at (e ∷ es) s n h = elim (Bool-cases (ltb policy.cap_bytes s.sum)) [
    | inl over ↦ rw over (
        evict_over-at es (evict calls policy e s) n (ground (arith, h))
        ∙ at-removed (calls.removes e.name) n e.name s.dir (ground (arith, h)))
    | inr under ↦ rw under refl
  ]

  retention-keeps :
      (dir : List Entry) (n : Bytes)
      → IsDirectory dir
      → holds_of (is_evictable calls policy dir) (at_name n dir) ≡ false
      → at_name n ((retention calls policy dir).dir) ≡ at_name n dir
  unfolding retention
  retention-keeps dir n v h =
      let less : Entry → Entry → Bool = λ a b. ltb a.mtime b.mtime in
      let files = sort_by less (keep (is_evictable calls policy dir) dir) in
      let start : Eviction calls policy = record {
        dir = dir;
        sum = total (size_of calls policy) dir;
        removed = 0;
      } in
      let absent : named n files ≡ false =
        any-sort_by less (λ e. bytes_eq e.name n) (keep (is_evictable calls policy dir) dir)
        ∙ any-keep (is_evictable calls policy dir) (λ e. bytes_eq e.name n) dir
        ∙ any-at_name (is_evictable calls policy dir) n dir v
        ∙ h in
      let old = evict_old-at files start n absent in
      evict_over-at (evict_old calls policy files start).0 (evict_old calls policy files start).1 n
        old.1
      ∙ old.0

  -- A scratch file that the second pass sees.
  abbrev run_lives : List Entry → Option Bytes → Bool
  run_lives dir none = false
  run_lives dir (some stem) = holds_of (visible calls policy) (at_name (stem ++ raw_suffix) dir)

  abbrev is_irregular : Option Entry → Bool
  is_irregular none = false
  is_irregular (some e) = not e.is_regular

  -- What a sweep has to leave as it is: what is not a regular file; any other name than those of logs; a
  -- scratch file that is no orphan; and the log of a run whose scratch file is there, and no orphan. A
  -- file whose scratch file is an orphan is written to.
  unfoldable pub untouched : List Entry → Bytes → Bool
  untouched dir n =
      is_irregular (at_name n dir)
      || (not (holds_of (orphan_at calls policy) (at_name n dir))
          && not (rewritten calls policy dir (strip_suffix? suffix n))
          && (not (is_some (strip_suffix? suffix n)) || run_lives dir (strip_suffix? suffix n)))

  live_after :
      (dir : List Entry) (stem : Bytes) (r : Option Entry)
      → IsDirectory dir
      → at_name (stem ++ raw_suffix) dir ≡ r
      → holds_of (orphan_at calls policy) r ≡ false
      → holds_of (visible calls policy) r ≡ true
      → is_live calls policy (finalize_orphans calls policy dir dir) (some stem) ≡ true
  unfolding is_live has_stem
  live_after dir stem none v h o l = cc
  live_after dir stem (some r) v h o l =
      any-found _ (stem ++ raw_suffix) (finalize_orphans calls policy dir dir) r
        (finalize_orphans-keeps calls policy dir dir (stem ++ raw_suffix) v
            (ap (holds_of (orphan_at calls policy)) h ∙ o)
            (ap (rewritten calls policy dir) (raw-not_out stem))
          ∙ h)
        (ground (
          arith,
          l,
          ap (λ m. has_stem (strip_suffix? raw_suffix m) (some stem))
              (at_name-name (stem ++ raw_suffix) dir r h),
          ap (λ o. has_stem o (some stem)) (strip_suffix?-raw stem),
          bytes_eq_refl stem,
        ))

  -- An output whose run lives is not evicted.
  kept_live :
      (dir : List Entry) (o : Option Bytes)
      → IsDirectory dir
      → rewritten calls policy dir o ≡ false
      → (not (is_some o) || run_lives dir o) ≡ true
      → (is_some o && not (is_live calls policy (finalize_orphans calls policy dir dir) o)) ≡ false
  kept_live dir none v r l = refl
  kept_live dir (some stem) v r l =
      ground (arith, live_after dir stem (at_name (stem ++ raw_suffix) dir) v refl r l)

  not_evictable :
      (dir : List Entry) (n : Bytes) (e : Option Entry)
      → IsDirectory dir
      → at_name n dir ≡ e
      → rewritten calls policy dir (strip_suffix? suffix n) ≡ false
      → (not (is_some (strip_suffix? suffix n)) || run_lives dir (strip_suffix? suffix n)) ≡ true
      → holds_of (is_evictable calls policy (finalize_orphans calls policy dir dir)) e ≡ false
  unfolding is_evictable
  not_evictable dir n none v h r l = refl
  not_evictable dir n (some e) v h r l = ground (
    arith,
    kept_live dir (strip_suffix? suffix n) v r l,
    ap
        (λ m.
          is_some (strip_suffix? suffix m)
          && not (
              is_live calls policy (finalize_orphans calls policy dir dir)
                (strip_suffix? suffix m)))
        (at_name-name n dir e h),
  )

  irregular-no_orphan :
      (e : Entry) (o : Option Bytes) → e.is_regular ≡ false → orphaned calls policy o e ≡ false
  unfolding is_orphan
  irregular-no_orphan e none h = refl
  irregular-no_orphan e (some stem) h = ground (arith, h)

  irregular-kept :
      (dir : List Entry) (n : Bytes) (e : Entry)
      → IsDirectory dir
      → at_name n dir ≡ some e
      → e.is_regular ≡ false
      → (at_name n (finalize_orphans calls policy dir dir) ≡ some e)
        × (at_name n ((retention calls policy (finalize_orphans calls policy dir dir)).dir)
            ≡ some e)
  unfolding is_evictable
  irregular-kept dir n e v h l =
      let first : at_name n (finalize_orphans calls policy dir dir) ≡ some e =
        finalize_orphans-irregular calls policy dir dir n e
          (any-at_name (orphan_at calls policy) n dir v
            ∙ ap (holds_of (orphan_at calls policy)) h
            ∙ irregular-no_orphan e (strip_suffix? raw_suffix e.name) l)
          h l in
      (
        first,
        retention-keeps (finalize_orphans calls policy dir dir) n
              (finalize_orphans-IsDirectory calls policy dir dir v)
              (ap (holds_of (is_evictable calls policy (finalize_orphans calls policy dir dir)))
                  first
                ∙ ground (arith, l))
            ∙ first,
      )

  regular-kept :
      (dir : List Entry) (n : Bytes)
      → IsDirectory dir
      → holds_of (orphan_at calls policy) (at_name n dir) ≡ false
      → rewritten calls policy dir (strip_suffix? suffix n) ≡ false
      → (not (is_some (strip_suffix? suffix n)) || run_lives dir (strip_suffix? suffix n)) ≡ true
      → (at_name n (finalize_orphans calls policy dir dir) ≡ at_name n dir)
        × (at_name n ((retention calls policy (finalize_orphans calls policy dir dir)).dir)
            ≡ at_name n dir)
  regular-kept dir n v o r l =
      let first = finalize_orphans-keeps calls policy dir dir n v o r in
      (
        first,
        retention-keeps (finalize_orphans calls policy dir dir) n
              (finalize_orphans-IsDirectory calls policy dir dir v)
              (ap (holds_of (is_evictable calls policy (finalize_orphans calls policy dir dir)))
                  first
                ∙ not_evictable dir n (at_name n dir) v refl r l)
            ∙ first,
      )

  swept :
      (dir : List Entry) (n : Bytes) (e : Option Entry)
      → (at_name n dir ≡ e)
        × (at_name n (finalize_orphans calls policy dir dir) ≡ e)
        × (at_name n ((retention calls policy (finalize_orphans calls policy dir dir)).dir) ≡ e)
      → at_name n (sweep calls policy dir).0 ≡ e
  unfolding sweep
  swept dir n e (a, b, c) = one_of calls.lists calls.lists_again n e _ _ _ a b c

  sweep-at :
      (dir : List Entry) (n : Bytes) (e : Option Entry)
      → IsDirectory dir
      → at_name n dir ≡ e
      → untouched dir n ≡ true
      → at_name n (sweep calls policy dir).0 ≡ e
  unfolding untouched
  sweep-at dir n none v h u =
      let (a, b) =
        regular-kept dir n v (ground (arith, u, ap is_irregular h))
          (ground (arith, u, ap is_irregular h)) (ground (arith, u, ap is_irregular h)) in
      swept dir n none (h, a ∙ h, b ∙ h)
  sweep-at dir n (some e) v h u = elim (Bool-cases e.is_regular) [
    | inl regular ↦
        let (a, b) =
          regular-kept dir n v (ground (arith, u, ap is_irregular h, regular))
            (ground (arith, u, ap is_irregular h, regular))
            (ground (arith, u, ap is_irregular h, regular)) in
        swept dir n (some e) (h, a ∙ h, b ∙ h)
    | inr irregular ↦
        let (a, b) = irregular-kept dir n e v h irregular in swept dir n (some e) (h, a, b)
  ]

  -- Where names are distinct, a sweep leaves these as they are, whatever call fails: what is not a
  -- regular file; what has another name than a log; a scratch file that is no orphan, because its
  -- process lives, or has no number, and it is not too old; and a log without a scratch file that is an
  -- orphan, whose run has one that lives.
  pub sweep-untouched :
      (dir : List Entry) (n : Bytes)
      → IsDirectory dir
      → untouched dir n ≡ true
      → at_name n (sweep calls policy dir).0 ≡ at_name n dir
  sweep-untouched dir n v u = sweep-at dir n (at_name n dir) v refl u
