-- ===== src/Logs/Logdir/Names.antt =====
-- Names of log files, and entries found by their names.
use mathlib.Core.List.{reverse, reverse-append, reverse-reverse}
use mathlib.Core.Option.{some-injective}
use nix_repo_base.Base.{
  ◌≡◌, refl, ap, sym, ◌∙◌, Bool, true, false, ◌&&◌, Option, none, some, List, [], ◌∷◌, ◌++◌, any,
  if◌then◌else◌, arith, Bool-cases, inl, inr,
}
use nix_repo_base.Base.Bytes.{Bytes, bytes_eq, strip_prefix?, bytes_eq_sound, bytes_eq_iff}
use nix_repo_base.Logs.Logdir.{
  Entry, suffix, raw_suffix, stem_in, strip_suffix?, at_name, remove, put,
}

strip_prefix?-sound : (p s t : Bytes) → strip_prefix? p s ≡ some t → s ≡ p ++ t
unfolding strip_prefix?
strip_prefix?-sound [] s t h = some-injective s t h
strip_prefix?-sound (c ∷ p) [] t h = cc
strip_prefix?-sound (c ∷ p) (d ∷ s) t h = ground (
  arith,
  strip_prefix?-sound p s t,
  λ (same : c ≡ d) (rest : s ≡ p ++ t). ap (λ x. d ∷ x) rest ∙ ap (λ x. x ∷ (p ++ t)) (sym same),
)

stem_in-some : (r : Option Bytes) (t : Bytes) → stem_in r ≡ some t → r ≡ some (reverse t)
stem_in-some none t h = cc
stem_in-some (some r) t h =
    ap some (sym (reverse-reverse r) ∙ ap reverse (some-injective (reverse r) t h))

-- A name with a stem is the stem and the suffix.
pub strip_suffix?-sound : (p s t : Bytes) → strip_suffix? p s ≡ some t → s ≡ t ++ p
unfolding strip_suffix?
strip_suffix?-sound p s t h =
    sym (reverse-reverse s)
    ∙ ap reverse (
        strip_prefix?-sound (reverse p) (reverse s) (reverse t)
          (stem_in-some (strip_prefix? (reverse p) (reverse s)) t h))
    ∙ reverse-append (reverse p) (reverse t)
    ∙ ap (λ x. x ++ reverse (reverse p)) (reverse-reverse t)
    ∙ ap (λ x. t ++ x) (reverse-reverse p)

pub raw-not_out : (t : Bytes) → strip_suffix? suffix (t ++ raw_suffix) ≡ none
unfolding strip_suffix? strip_prefix?
raw-not_out t = rw (reverse-append t raw_suffix) refl

pub out-not_raw : (t : Bytes) → strip_suffix? raw_suffix (t ++ suffix) ≡ none
unfolding strip_suffix? strip_prefix?
out-not_raw t = rw (reverse-append t suffix) refl

pub strip_suffix?-raw : (t : Bytes) → strip_suffix? raw_suffix (t ++ raw_suffix) ≡ some t
unfolding strip_suffix? strip_prefix?
strip_suffix?-raw t = rw (reverse-append t raw_suffix) (ap some (reverse-reverse t))

pub strip_suffix?-out : (t : Bytes) → strip_suffix? suffix (t ++ suffix) ≡ some t
unfolding strip_suffix? strip_prefix?
strip_suffix?-out t = rw (reverse-append t suffix) (ap some (reverse-reverse t))

pub at-put :
    (n : Bytes) (new : Entry) (dir : List Entry)
    → at_name n (put new dir) ≡ (if bytes_eq new.name n then some new else at_name n dir)
unfolding at_name put
at-put n new [] = refl
at-put n new (e ∷ es) = ground (
  arith,
  at-put n new es,
  bytes_eq_iff e.name new.name,
  bytes_eq_iff e.name n,
  bytes_eq_iff new.name n,
)

pub at-remove :
    (n k : Bytes) (dir : List Entry)
    → at_name n (remove k dir) ≡ (if bytes_eq k n then none else at_name n dir)
unfolding at_name remove
at-remove n k [] = ground arith
at-remove n k (e ∷ es) =
    ground (arith, at-remove n k es, bytes_eq_iff e.name k, bytes_eq_iff e.name n, bytes_eq_iff k n)

-- Names are distinct.
abbrev pub IsDirectory : List Entry → Type 0
IsDirectory [] = Unit
IsDirectory (e ∷ es) = (at_name e.name es ≡ none) × IsDirectory es

at_gone :
    (e : Entry) (n : Bytes) (es : List Entry)
    → bytes_eq e.name n ≡ true
    → at_name e.name es ≡ none
    → at_name n es ≡ none
at_gone e n es same h = ap (λ m. at_name m es) (sym (bytes_eq_sound e.name n same)) ∙ h

pub put-IsDirectory : (new : Entry) (dir : List Entry) → IsDirectory dir → IsDirectory (put new dir)
unfolding put at_name
put-IsDirectory new [] h = (refl, tt)
put-IsDirectory new (e ∷ es) h = elim (Bool-cases (bytes_eq e.name new.name)) [
  | inl same ↦ rw same (at_gone e new.name es same h.0, h.1)
  | inr apart ↦ rw apart (
    ground (
      arith,
      at-put e.name new es,
      h.0,
      bytes_eq_iff e.name new.name,
      bytes_eq_iff new.name e.name,
    ),
    put-IsDirectory new es h.1,
  )
]

pub remove-IsDirectory :
    (k : Bytes) (dir : List Entry) → IsDirectory dir → IsDirectory (remove k dir)
unfolding remove
remove-IsDirectory k [] h = tt
remove-IsDirectory k (e ∷ es) h = elim (Bool-cases (bytes_eq e.name k)) [
  | inl same ↦ rw same (remove-IsDirectory k es h.1)
  | inr apart ↦ rw apart (ground (arith, at-remove e.name k es, h.0), remove-IsDirectory k es h.1)
]

abbrev pub holds_of : (Entry → Bool) → Option Entry → Bool
holds_of p none = false
holds_of p (some e) = p e

-- What one of the entries with a name passes, the entry at this name passes.
pub any-at_name :
    (p : Entry → Bool) (n : Bytes) (dir : List Entry)
    → IsDirectory dir
    → any (λ e. p e && bytes_eq e.name n) dir ≡ holds_of p (at_name n dir)
unfolding at_name
any-at_name p n [] h = refl
any-at_name p n (e ∷ es) h = elim (Bool-cases (bytes_eq e.name n)) [
  | inl same ↦ ground (arith, any-at_name p n es h.1, ap (holds_of p) (at_gone e n es same h.0))
  | inr apart ↦ ground (arith, any-at_name p n es h.1)
]
