-- ===== src/Logs/Logdir/Orphans.antt =====
-- finalize and the first pass of SweepWith: which entries it leaves as they are.
use mathlib.Core.Option.{some-injective}
use nix_repo_base.Base.{
  ◌≡◌, refl, ap, sym, ◌∙◌, Bool, true, false, ◌&&◌, Option, none, some, List, [], ◌∷◌, ◌++◌, any,
  if◌then◌else◌, arith, Bool-cases, inl, inr,
}
use nix_repo_base.Base.Bytes.{Bytes, bytes_eq, bytes_eq_sound, bytes_eq_iff}
use nix_repo_base.Logs.Logdir.{
  Entry, Calls, Policy, Finalizing, not_opened, broken, completed, opened, suffix, raw_suffix,
  strip_suffix?, at_name, remove, put, settle, finalize_raw, output, is_orphan, sweep_raw,
  finalize_orphans,
}
use nix_repo_base.Logs.Logdir.Names.{
  strip_suffix?-sound, strip_suffix?-raw, strip_suffix?-out, at-put, at-remove, IsDirectory,
  put-IsDirectory, remove-IsDirectory, holds_of, any-at_name,
}

pub any-cong {ℓ} :
    {A : Type ℓ} (p q : A → Bool) (xs : List A) → ((x : A) → p x ≡ q x) → any p xs ≡ any q xs
any-cong p q [] h = refl
any-cong p q (x ∷ xs) h = ground (arith, h x, any-cong p q xs h)

pub any-never {ℓ} :
    {A : Type ℓ} (p : A → Bool) (xs : List A) → ((x : A) → p x ≡ false) → any p xs ≡ false
any-never p [] h = refl
any-never p (x ∷ xs) h = ground (arith, h x, any-never p xs h)

-- The output that a scratch file with this stem is filtered into.
abbrev pub writes_to : Option Bytes → Bytes → Bool
writes_to none n = false
writes_to (some stem) n = bytes_eq (stem ++ suffix) n

bytes_eq-shared :
    (p q t s : Bytes)
    → ((t ++ p) ≡ (s ++ p) → t ≡ s)
    → ((t ++ q) ≡ (s ++ q) → t ≡ s)
    → bytes_eq (t ++ p) (s ++ p) ≡ bytes_eq (t ++ q) (s ++ q)
bytes_eq-shared p q t s cancel_p cancel_q = ground (
  arith,
  bytes_eq_iff (t ++ p) (s ++ p),
  bytes_eq_iff (t ++ q) (s ++ q),
  λ (e : (t ++ p) ≡ (s ++ p)). ap (λ x. x ++ q) (cancel_p e),
  λ (e : (t ++ q) ≡ (s ++ q)). ap (λ x. x ++ p) (cancel_q e),
)

pub writes_to-none :
    (o : Option Bytes) (n : Bytes) → strip_suffix? suffix n ≡ none → writes_to o n ≡ false
writes_to-none none n h = refl
writes_to-none (some t) n h = elim (Bool-cases (bytes_eq (t ++ suffix) n)) [
  | inl same ↦ ground (
    arith,
    h,
    strip_suffix?-out t,
    ap (strip_suffix? suffix) (bytes_eq_sound (t ++ suffix) n same),
  )
  | inr apart ↦ apart
]

cancel :
    (p : Bytes)
    → ((t : Bytes) → strip_suffix? p (t ++ p) ≡ some t)
    → (t s : Bytes) → (t ++ p) ≡ (s ++ p)
    → t ≡ s
cancel p strip t s e = some-injective t s (sym (strip t) ∙ ap (strip_suffix? p) e ∙ strip s)

writes_to-some :
    (o : Option Bytes) (m s : Bytes)
    → strip_suffix? raw_suffix m ≡ o
    → writes_to o (s ++ suffix) ≡ bytes_eq m (s ++ raw_suffix)
writes_to-some none m s h = elim (Bool-cases (bytes_eq m (s ++ raw_suffix))) [
  | inl same ↦ ground (
    arith,
    h,
    strip_suffix?-raw s,
    ap (strip_suffix? raw_suffix) (bytes_eq_sound m (s ++ raw_suffix) same),
  )
  | inr apart ↦ sym apart
]
writes_to-some (some t) m s h =
    bytes_eq-shared suffix raw_suffix t s (cancel suffix strip_suffix?-out t s)
      (cancel raw_suffix strip_suffix?-raw t s)
    ∙ ap (λ x. bytes_eq x (s ++ raw_suffix)) (sym (strip_suffix?-sound raw_suffix m t h))

replaced-at :
    (b : Bool) (k : Bytes) (out : Entry) (dir : List Entry) (n : Bytes)
    → bytes_eq k n ≡ false
    → bytes_eq out.name n ≡ false
    → at_name n (if b then remove k (put out dir) else put out dir) ≡ at_name n dir
replaced-at true k out dir n h l = at-remove n k (put out dir) ∙ ground (arith, at-put n out dir)
replaced-at false k out dir n h l = ground (arith, at-put n out dir)

replaced-IsDirectory :
    (b : Bool) (k : Bytes) (out : Entry) (dir : List Entry)
    → IsDirectory dir
    → IsDirectory (if b then remove k (put out dir) else put out dir)
replaced-IsDirectory true k out dir v =
    remove-IsDirectory k (put out dir) (put-IsDirectory out dir v)
replaced-IsDirectory false k out dir v = put-IsDirectory out dir v

module _ (calls : Calls) (policy : Policy) where
  abbrev pub orphaned : Option Bytes → Entry → Bool
  orphaned none e = false
  orphaned (some stem) e = is_orphan calls policy stem e

  abbrev pub orphan_at : Entry → Bool
  orphan_at e = orphaned (strip_suffix? raw_suffix e.name) e

  pub settle-at :
      (stem : Bytes) (e : Entry) (dir : List Entry) (f : Finalizing) (n : Bytes)
      → bytes_eq e.name n ≡ false
      → bytes_eq (stem ++ suffix) n ≡ false
      → at_name n (settle calls policy stem e dir f) ≡ at_name n dir
  unfolding settle
  settle-at stem e dir not_opened n a b = refl
  settle-at stem e dir (broken part) n a b = at-put n _ dir ∙ rw b refl
  settle-at stem e dir completed n a b =
      replaced-at (calls.removes e.name) e.name (output calls policy stem e) dir n a b

  pub sweep_raw-at :
      (o : Option Bytes) (e : Entry) (dir : List Entry) (n : Bytes)
      → (orphaned o e && bytes_eq e.name n) ≡ false
      → (orphaned o e && writes_to o n) ≡ false
      → at_name n (sweep_raw calls policy o e dir) ≡ at_name n dir
  unfolding sweep_raw finalize_raw
  sweep_raw-at none e dir n a b = refl
  sweep_raw-at (some stem) e dir n a b = elim (Bool-cases (is_orphan calls policy stem e)) [
    | inl orphan ↦ rw orphan (
        settle-at stem e dir (opened (at_name (stem ++ suffix) dir) (calls.finalizes e.name)) n
          (ground (arith, a)) (ground (arith, b)))
    | inr kept ↦ rw kept refl
  ]

  finalize_orphans-at :
      (es dir : List Entry) (n : Bytes)
      → any (λ e. orphan_at e && bytes_eq e.name n) es ≡ false
      → any (λ e. orphan_at e && writes_to (strip_suffix? raw_suffix e.name) n) es ≡ false
      → at_name n (finalize_orphans calls policy es dir) ≡ at_name n dir
  unfolding finalize_orphans
  finalize_orphans-at [] dir n a b = refl
  finalize_orphans-at (e ∷ es) dir n a b =
      finalize_orphans-at es (sweep_raw calls policy (strip_suffix? raw_suffix e.name) e dir) n
        (ground (arith, a)) (ground (arith, b))
      ∙ sweep_raw-at (strip_suffix? raw_suffix e.name) e dir n (ground (arith, a))
          (ground (arith, b))

  -- Is there an orphan whose output has this name?
  abbrev pub rewritten : List Entry → Option Bytes → Bool
  rewritten dir none = false
  rewritten dir (some stem) = holds_of orphan_at (at_name (stem ++ raw_suffix) dir)

  rewritten-any :
      (es : List Entry) (n : Bytes) (o : Option Bytes)
      → strip_suffix? suffix n ≡ o
      → IsDirectory es
      → any (λ e. orphan_at e && writes_to (strip_suffix? raw_suffix e.name) n) es ≡ rewritten es o
  rewritten-any es n none h v =
      any-never (λ e. orphan_at e && writes_to (strip_suffix? raw_suffix e.name) n) es
        (λ e. ground (arith, writes_to-none (strip_suffix? raw_suffix e.name) n h))
  rewritten-any es n (some s) h v =
      any-cong (λ e. orphan_at e && writes_to (strip_suffix? raw_suffix e.name) n)
        (λ e. orphan_at e && bytes_eq e.name (s ++ raw_suffix)) es
        (λ e.
          ap (λ x. orphan_at e && x)
            (ap (writes_to (strip_suffix? raw_suffix e.name)) (strip_suffix?-sound suffix n s h)
              ∙ writes_to-some (strip_suffix? raw_suffix e.name) e.name s refl))
      ∙ any-at_name orphan_at (s ++ raw_suffix) es v

  pub finalize_orphans-keeps :
      (es dir : List Entry) (n : Bytes)
      → IsDirectory es
      → holds_of orphan_at (at_name n es) ≡ false
      → rewritten es (strip_suffix? suffix n) ≡ false
      → at_name n (finalize_orphans calls policy es dir) ≡ at_name n dir
  finalize_orphans-keeps es dir n v a b =
      finalize_orphans-at es dir n (any-at_name orphan_at n es v ∙ a)
        (rewritten-any es n (strip_suffix? suffix n) refl v ∙ b)

  settle-IsDirectory :
      (stem : Bytes) (e : Entry) (dir : List Entry) (f : Finalizing)
      → IsDirectory dir
      → IsDirectory (settle calls policy stem e dir f)
  unfolding settle
  settle-IsDirectory stem e dir not_opened v = v
  settle-IsDirectory stem e dir (broken part) v = put-IsDirectory _ dir v
  settle-IsDirectory stem e dir completed v =
      replaced-IsDirectory (calls.removes e.name) e.name (output calls policy stem e) dir v

  sweep_raw-IsDirectory :
      (o : Option Bytes) (e : Entry) (dir : List Entry)
      → IsDirectory dir
      → IsDirectory (sweep_raw calls policy o e dir)
  unfolding sweep_raw finalize_raw
  sweep_raw-IsDirectory none e dir v = v
  sweep_raw-IsDirectory (some stem) e dir v = elim (Bool-cases (is_orphan calls policy stem e)) [
    | inl orphan ↦ rw orphan (
        settle-IsDirectory stem e dir
          (opened (at_name (stem ++ suffix) dir) (calls.finalizes e.name)) v)
    | inr kept ↦ rw kept v
  ]

  pub finalize_orphans-IsDirectory :
      (es dir : List Entry) → IsDirectory dir → IsDirectory (finalize_orphans calls policy es dir)
  unfolding finalize_orphans
  finalize_orphans-IsDirectory [] dir v = v
  finalize_orphans-IsDirectory (e ∷ es) dir v =
      finalize_orphans-IsDirectory es
        (sweep_raw calls policy (strip_suffix? raw_suffix e.name) e dir)
        (sweep_raw-IsDirectory (strip_suffix? raw_suffix e.name) e dir v)

  -- What is not a regular file is left alone.
  opened-irregular :
      (n m : Bytes) (dir : List Entry) (x : Entry) (f : Finalizing)
      → at_name n dir ≡ some x
      → x.is_regular ≡ false
      → bytes_eq m n ≡ true
      → opened (at_name m dir) f ≡ not_opened
  opened-irregular n m dir x f h l same =
      ap (λ k. opened (at_name k dir) f) (bytes_eq_sound m n same)
      ∙ ap (λ o. opened o f) h
      ∙ rw l refl

  sweep_raw-irregular :
      (o : Option Bytes) (e : Entry) (dir : List Entry) (n : Bytes) (x : Entry)
      → at_name n dir ≡ some x
      → x.is_regular ≡ false
      → (orphaned o e && bytes_eq e.name n) ≡ false
      → at_name n (sweep_raw calls policy o e dir) ≡ some x
  unfolding sweep_raw finalize_raw settle
  sweep_raw-irregular none e dir n x h l a = h
  sweep_raw-irregular (some stem) e dir n x h l a =
      elim (Bool-cases (bytes_eq (stem ++ suffix) n)) [
        | inl same ↦ elim (Bool-cases (is_orphan calls policy stem e)) [
          | inl orphan ↦
              rw
                (
                  orphan,
                  opened-irregular n (stem ++ suffix) dir x (calls.finalizes e.name) h l same,
                )
                h
          | inr kept ↦ rw kept h
        ]
        | inr apart ↦ sweep_raw-at (some stem) e dir n a (ground (arith, apart)) ∙ h
      ]

  pub finalize_orphans-irregular :
      (es dir : List Entry) (n : Bytes) (x : Entry)
      → any (λ e. orphan_at e && bytes_eq e.name n) es ≡ false
      → at_name n dir ≡ some x
      → x.is_regular ≡ false
      → at_name n (finalize_orphans calls policy es dir) ≡ some x
  unfolding finalize_orphans
  finalize_orphans-irregular [] dir n x a h l = h
  finalize_orphans-irregular (e ∷ es) dir n x a h l =
      finalize_orphans-irregular es (sweep_raw calls policy (strip_suffix? raw_suffix e.name) e dir)
        n x (ground (arith, a))
        (sweep_raw-irregular (strip_suffix? raw_suffix e.name) e dir n x h l (ground (arith, a))) l
