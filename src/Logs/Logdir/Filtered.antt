-- ===== src/Logs/Logdir/Filtered.antt =====
-- The first pass of SweepWith does not lose a scratch file.
use mathlib.Core.Path.{subst}
use mathlib.Core.Option.{some-injective}
use nix_repo_base.Base.{
  ◌≡◌, refl, ap, sym, ◌∙◌, Bool, true, false, Option, none, some, List, [], ◌∷◌, ◌++◌,
  if◌then◌else◌, arith, Bool-cases, ◌⊎◌, inl, inr,
}
use nix_repo_base.Base.Bytes.{Bytes, bytes_eq, bytes_eq_refl, bytes_eq_sound, bytes_eq_iff}
use nix_repo_base.Logs.Logdir.{
  Entry, Calls, Policy, Finalizing, not_opened, broken, completed, opened, filtered, suffix,
  raw_suffix, strip_suffix?, at_name, remove, put, settle, finalize_raw, output, is_orphan,
  sweep_raw, finalize_orphans,
}
use nix_repo_base.Logs.Logdir.Names.{
  strip_suffix?-raw, strip_suffix?-out, raw-not_out, out-not_raw, at-put, at-remove, IsDirectory,
  holds_of,
}
use nix_repo_base.Logs.Logdir.Orphans.{
  writes_to-none, orphaned, orphan_at, sweep_raw-at, finalize_orphans-keeps, rewritten,
}
use nix_repo_base.Logs.Logdir.Kept.{at_name-name}

-- A scratch file is no log.
names_apart : (s : Bytes) → bytes_eq (s ++ suffix) (s ++ raw_suffix) ≡ false
names_apart s = elim (Bool-cases (bytes_eq (s ++ suffix) (s ++ raw_suffix))) [
  | inl same ↦ ground (
    arith,
    strip_suffix?-out s,
    raw-not_out s,
    ap (strip_suffix? suffix) (bytes_eq_sound (s ++ suffix) (s ++ raw_suffix) same),
  )
  | inr apart ↦ apart
]

at-replaced :
    (b : Bool) (k : Bytes) (out : Entry) (dir : List Entry)
    → bytes_eq k out.name ≡ false
    → at_name out.name (if b then remove k (put out dir) else put out dir) ≡ some out
at-replaced true k out dir h =
    at-remove out.name k (put out dir)
    ∙ ground (arith, h, at-put out.name out dir, bytes_eq_refl out.name)
at-replaced false k out dir h = ground (arith, at-put out.name out dir, bytes_eq_refl out.name)

module _ (calls : Calls) (policy : Policy) where
  -- The scratch file is there, or its log has what retain.Finalize makes of it.
  abbrev pub IsSaved : List Entry → Bytes → Entry → Type 0
  IsSaved dir stem e =
      (at_name (stem ++ raw_suffix) dir ≡ some e)
      ⊎ ((out : Entry) × (at_name (stem ++ suffix) dir ≡ some out)
          × (out.content ≡ filtered policy e))

  settle-IsSaved :
      (stem : Bytes) (e : Entry) (dir : List Entry) (f : Finalizing)
      → e.name ≡ stem ++ raw_suffix
      → at_name (stem ++ raw_suffix) dir ≡ some e
      → IsSaved (settle calls policy stem e dir f) stem e
  unfolding settle
  settle-IsSaved stem e dir not_opened h l = inl l
  settle-IsSaved stem e dir (broken part) h l =
      inl (at-put (stem ++ raw_suffix) _ dir ∙ rw (names_apart stem) l)
  settle-IsSaved stem e dir completed h l = inr (
    output calls policy stem e,
    at-replaced (calls.removes e.name) e.name (output calls policy stem e) dir (
        ap (λ m. bytes_eq m (stem ++ suffix)) h
        ∙ ground (
          arith,
          names_apart stem,
          bytes_eq_iff (stem ++ raw_suffix) (stem ++ suffix),
          bytes_eq_iff (stem ++ suffix) (stem ++ raw_suffix),
        )),
    refl,
  )

  sweep_raw-IsSaved :
      (stem : Bytes) (e : Entry) (dir : List Entry)
      → e.name ≡ stem ++ raw_suffix
      → at_name (stem ++ raw_suffix) dir ≡ some e
      → IsSaved (sweep_raw calls policy (some stem) e dir) stem e
  unfolding sweep_raw finalize_raw
  sweep_raw-IsSaved stem e dir h l = elim (Bool-cases (is_orphan calls policy stem e)) [
    | inl orphan ↦ rw orphan (
        settle-IsSaved stem e dir (opened (at_name (stem ++ suffix) dir) (calls.finalizes e.name)) h
          l)
    | inr kept ↦ rw kept (inl l)
  ]

  log_no_orphan :
      (es : List Entry) (stem : Bytes) (r : Option Entry)
      → at_name (stem ++ suffix) es ≡ r
      → holds_of (orphan_at calls policy) r ≡ false
  log_no_orphan es stem none h = refl
  log_no_orphan es stem (some e) h =
      ap (λ m. orphaned calls policy (strip_suffix? raw_suffix m) e)
        (at_name-name (stem ++ suffix) es e h)
      ∙ ap (λ o. orphaned calls policy o e) (out-not_raw stem)

  -- The other scratch files do not touch it.
  rest-IsSaved :
      (es dir : List Entry) (stem : Bytes) (e : Entry)
      → IsDirectory es
      → at_name (stem ++ raw_suffix) es ≡ none
      → IsSaved dir stem e
      → IsSaved (finalize_orphans calls policy es dir) stem e
  rest-IsSaved es dir stem e v h (inl there) = inl (
      finalize_orphans-keeps calls policy es dir (stem ++ raw_suffix) v
        (ap (holds_of (orphan_at calls policy)) h)
        (ap (rewritten calls policy es) (raw-not_out stem))
      ∙ there)
  rest-IsSaved es dir stem e v h (inr (out, at, same)) = inr (
    out,
    finalize_orphans-keeps calls policy es dir (stem ++ suffix) v
          (log_no_orphan es stem (at_name (stem ++ suffix) es) refl)
          (ap (rewritten calls policy es) (strip_suffix?-out stem)
            ∙ ap (holds_of (orphan_at calls policy)) h)
        ∙ at,
    same,
  )

  saved :
      (es dir : List Entry) (stem : Bytes) (e : Entry)
      → IsDirectory es
      → at_name (stem ++ raw_suffix) es ≡ some e
      → at_name (stem ++ raw_suffix) dir ≡ some e
      → IsSaved (finalize_orphans calls policy es dir) stem e
  unfolding finalize_orphans at_name
  saved [] dir stem e v h l = inl l
  saved (x ∷ es) dir stem e v h l = elim (Bool-cases (bytes_eq x.name (stem ++ raw_suffix))) [
    | inl same ↦
        let one : x ≡ e = some-injective x e (rw same at h) in
        let name : x.name ≡ stem ++ raw_suffix = bytes_eq_sound x.name (stem ++ raw_suffix) same in
        let o = ap (strip_suffix? raw_suffix) name ∙ strip_suffix?-raw stem in
        subst
          (λ y.
            IsSaved
              (finalize_orphans calls policy es
                (sweep_raw calls policy (strip_suffix? raw_suffix x.name) x dir))
              stem y)
          one
          (rest-IsSaved es (sweep_raw calls policy (strip_suffix? raw_suffix x.name) x dir) stem x
            v.1 (ap (λ m. at_name m es) (sym name) ∙ v.0)
            (subst (λ r. IsSaved (sweep_raw calls policy r x dir) stem x) (sym o)
              (sweep_raw-IsSaved stem x dir name (l ∙ ap some (sym one)))))
    | inr apart ↦
        saved es (sweep_raw calls policy (strip_suffix? raw_suffix x.name) x dir) stem e v.1
          (rw apart at h)
          (sweep_raw-at calls policy (strip_suffix? raw_suffix x.name) x dir (stem ++ raw_suffix)
              (ground (arith, apart))
              (ground (
                arith,
                writes_to-none (strip_suffix? raw_suffix x.name) (stem ++ raw_suffix)
                    (raw-not_out stem),
              ))
            ∙ l)
  ]

  -- Where names are distinct, and whatever call fails: after the first pass of a sweep each scratch file
  -- is still there as it was, or the log of the same run holds what retain.Finalize makes of it.
  pub finalize_orphans-IsSaved :
      (dir : List Entry) (stem : Bytes) (e : Entry)
      → IsDirectory dir
      → at_name (stem ++ raw_suffix) dir ≡ some e
      → IsSaved (finalize_orphans calls policy dir dir) stem e
  finalize_orphans-IsSaved dir stem e v h = saved dir dir stem e v h h
