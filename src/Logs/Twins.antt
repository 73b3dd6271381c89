-- ===== src/Logs/Twins.antt =====
-- Writers that copy the same lines and flush at other times: the text of the log is the same.
use mathlib.Core.List.{append-nil}
use nix_repo_base.Base.{
  ◌+◌, ◌≤◌, ◌≡◌, refl, ap, sym, ◌∙◌, ◌⊎◌, Bool, true, false, List, [], ◌∷◌, ◌++◌, length, ltb,
  arith, Bool-cases, inl, inr,
}
use nix_repo_base.Base.Bytes.{Bytes, trim_suffix}
use nix_repo_base.Logs.Buffer.{
  Buffered, working, contents, write, write_byte, flush_whole, write-Holds,
}
use nix_repo_base.Logs.Retain.{Writer, write_line, flush_writer, is_kept}
use nix_repo_base.Logs.Lines.{keep_line, copy}

-- Nothing more is written, whatever comes.
abbrev pub Full : Writer → Type 0
Full w = (w.truncated ≡ true) ⊎ (w.max ≤ w.n)

-- Two logs with the same text, on the file or not yet, and no error.
abbrev pub SameText : Writer → Writer → Type 0
SameText v w = (v.out.broken ≡ false) × (w.out.broken ≡ false) × (contents v.out ≡ contents w.out)

pub out-SameText : (v w w' : Writer) → w'.out ≡ w.out → SameText v w → SameText v w'
out-SameText v w w' e (ok, ok', same) = (ok, ap (λ b. b.broken) e ∙ ok', same ∙ sym (ap contents e))

-- Writers in the same state, but for what has been flushed.
pub record IsTwin (v w : Writer) : Type 0 where
  pub max : v.max ≡ w.max
  pub n : v.n ≡ w.n
  pub truncated : v.truncated ≡ w.truncated
  pub text : SameText v w

-- The buffer with a line and its newline.
abbrev added : Bytes → Buffered → Buffered
added l b = write_byte working b'\n' (write working l b)

abbrev over : Bytes → Writer → Bool
over l w = ltb w.max (w.n + (length l + 1))

pub write_line-max : (l : Bytes) (w : Writer) → (write_line working l w).0.max ≡ w.max
unfolding write_line
write_line-max l w = ground arith

line_refused : (l : Bytes) (w : Writer) → w.truncated ≡ true → (write_line working l w).0 ≡ w
unfolding write_line
line_refused l w full = ground arith

line_over :
    (l : Bytes) (w : Writer)
    → w.truncated ≡ false
    → over l w ≡ true
    → (write_line working l w).0 ≡ record w { truncated = true }
unfolding write_line
line_over l w room large = ground arith

line_fits :
    (l : Bytes) (w : Writer)
    → w.out.broken ≡ false
    → w.truncated ≡ false
    → over l w ≡ false
    → (write_line working l w).0 ≡ record w { n = w.n + (length l + 1); out = added l w.out }
unfolding write_line
line_fits l w ok room fits =
    let works : (added l w.out).broken ≡ false = (write-Holds l b'\n' w.out ok).0 in ground arith

-- A line that is not written leaves the writer truncated.
pub write_line-counted :
    (l : Bytes) (w : Writer)
    → w.out.broken ≡ false
    → ((write_line working l w).0.n ≡ w.n + (length l + 1))
      ⊎ ((write_line working l w).0.truncated ≡ true)
write_line-counted l w ok = elim (Bool-cases w.truncated) [
  | inl full ↦ inr (ap (λ x. x.truncated) (line_refused l w full) ∙ full)
  | inr room ↦ elim (Bool-cases (over l w)) [
    | inl large ↦ inr (ap (λ x. x.truncated) (line_over l w room large))
    | inr fits ↦ inl (ap (λ x. x.n) (line_fits l w ok room fits))
  ]
]

pub write_line-Full :
    (l : Bytes) (w : Writer)
    → Full w
    → ((write_line working l w).0.truncated ≡ true) × ((write_line working l w).0.out ≡ w.out)
write_line-Full l w full = elim (Bool-cases w.truncated) [
  | inl gone ↦ (
    ap (λ x. x.truncated) (line_refused l w gone) ∙ gone,
    ap (λ x. x.out) (line_refused l w gone),
  )
  | inr room ↦
      let large : over l w ≡ true = ground arith in
      (ap (λ x. x.truncated) (line_over l w room large), ap (λ x. x.out) (line_over l w room large))
]

added-SameText :
    (l : Bytes) (v w : Writer)
    → SameText v w
    → ((added l v.out).broken ≡ false)
      × ((added l w.out).broken ≡ false)
      × (contents (added l v.out) ≡ contents (added l w.out))
added-SameText l v w (ok, ok', same) =
    let (fine, text) = write-Holds l b'\n' v.out ok in
    let (fine', text') = write-Holds l b'\n' w.out ok' in
    (fine, fine', text ∙ ap (λ x. x ++ l ++ b'\n' ∷ []) same ∙ sym text')

pub write_line-IsTwin :
    (l : Bytes) (v w : Writer)
    → IsTwin v w
    → IsTwin (write_line working l v).0 (write_line working l w).0
write_line-IsTwin l v w t = elim (Bool-cases w.truncated) [
  | inl full ↦ rw (line_refused l v (t.truncated ∙ full), line_refused l w full) t
  | inr room ↦ elim (Bool-cases (over l w)) [
    | inl large ↦
        let large' : over l v ≡ true = ground (arith, t.max, t.n) in
        rw (line_over l v (t.truncated ∙ room) large', line_over l w room large)
          (record { max = t.max; n = t.n; truncated = refl; text = t.text })
    | inr fits ↦
        let fits' : over l v ≡ false = ground (arith, t.max, t.n) in
        rw (line_fits l v t.text.0 (t.truncated ∙ room) fits', line_fits l w t.text.1 room fits)
          (record {
            max = t.max;
            n = ap (λ x. x + (length l + 1)) t.n;
            truncated = t.truncated;
            text = added-SameText l v w t.text;
          })
  ]
]

-- What is flushed stays the same text.
pub flush_writer-SameText : (v w : Writer) → SameText v w → SameText (flush_writer working v) w
flush_writer-SameText v w (ok, ok', same) =
    let e = flush_whole v.out ok in
    (ap (λ b. b.broken) e, ok', ap contents e ∙ append-nil (contents v.out) ∙ same)

pub flushed_same :
    (v w : Writer)
    → SameText v w
    → (flush_writer working v).out.file ≡ (flush_writer working w).out.file
flushed_same v w (ok, ok', same) =
    ap (λ b. b.file) (flush_whole v.out ok) ∙ same ∙ sym (ap (λ b. b.file) (flush_whole w.out ok'))

pub keep_line-Full :
    (l : Bytes) (w : Writer)
    → Full w
    → Full (keep_line working l w) × ((keep_line working l w).out ≡ w.out)
keep_line-Full l w full = elim (Bool-cases (is_kept (trim_suffix (b'\r' ∷ []) l))) [
  | inl kept ↦
      let (gone, same) = write_line-Full (trim_suffix (b'\r' ∷ []) l) w full in
      rw kept (inl gone, same)
  | inr dropped ↦ rw dropped (full, refl)
]

pub copy-Full :
    (ls : List Bytes) (w : Writer)
    → Full w
    → Full (copy working ls w) × ((copy working ls w).out ≡ w.out)
unfolding copy
copy-Full [] w full = (full, refl)
copy-Full (l ∷ ls) w full =
    let (still, same) = keep_line-Full l w full in
    let (end', same') = copy-Full ls (keep_line working l w) still in (end', same' ∙ same)
