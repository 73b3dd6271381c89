-- ===== src/Logs/Lines.antt =====
-- A byte stream cut at its newlines, and the lines of it that the retained log keeps.
use mathlib.Core.List.{append-nil, append_assoc}
use nix_repo_base.Base.{
  ℕ, ◌+◌, ◌<◌, ◌≡◌, refl, ap, ◌∙◌, true, false, List, [], ◌∷◌, ◌++◌, All, length, ◌==◌,
  if◌then◌else◌, arith, Bool-cases, inl, inr,
}
use nix_repo_base.Base.Bytes.{Bytes, trim_suffix}
use nix_repo_base.Logs.Buffer.{Disk}
use nix_repo_base.Logs.Retain.{Writer, write_line, is_kept}

-- The lines that end in a newline, behind a first part of the first line.
abbrev pub complete : Bytes → Bytes → List Bytes
complete acc [] = []
complete acc (c ∷ s) = elim (c == b'\n') [
  | true ↦ acc ∷ complete [] s
  | false ↦ complete (acc ++ c ∷ []) s
]

-- What stands after the last newline.
abbrev pub partial : Bytes → Bytes → Bytes
partial acc [] = acc
partial acc (c ∷ s) = elim (c == b'\n') [ true ↦ partial [] s | false ↦ partial (acc ++ c ∷ []) s ]

-- All of these.
abbrev pub pieces : Bytes → Bytes → List Bytes
pieces acc [] = acc ∷ []
pieces acc (c ∷ s) = elim (c == b'\n') [
  | true ↦ acc ∷ pieces [] s
  | false ↦ pieces (acc ++ c ∷ []) s
]

abbrev pub Short : ℕ → Bytes → Bytes → Type 0
Short n acc s = All (λ l. length l < n) (pieces acc s)

pub length-snoc : (acc : Bytes) (c : ℕ) → length (acc ++ c ∷ []) ≡ length acc + 1
length-snoc [] c = refl
length-snoc (x ∷ acc) c = omega (arith, length-snoc acc c)

-- The first part of a short line is short.
pub Short-first : (n : ℕ) (acc s : Bytes) → Short n acc s → length acc < n
Short-first n acc [] h = h.0
Short-first n acc (c ∷ s) h = elim (Bool-cases (c == b'\n')) [
  | inl nl ↦ (rw (nl, pieces) at h).0
  | inr other ↦
      omega (arith, Short-first n (acc ++ c ∷ []) s (rw (other, pieces) at h), length-snoc acc c)
]

pub Short-append : (n : ℕ) (acc s t : Bytes) → Short n acc (s ++ t) → Short n (partial acc s) t
Short-append n acc [] t h = h
Short-append n acc (c ∷ s) t h = elim (Bool-cases (c == b'\n')) [
  | inl nl ↦ rw (nl, partial) (Short-append n [] s t (rw (nl, pieces) at h).1)
  | inr other ↦ rw (other, partial) (Short-append n (acc ++ c ∷ []) s t (rw (other, pieces) at h))
]

pub complete-append :
    (acc s t : Bytes) → complete acc (s ++ t) ≡ complete acc s ++ complete (partial acc s) t
complete-append acc [] t = refl
complete-append acc (c ∷ s) t = elim (Bool-cases (c == b'\n')) [
  | inl nl ↦ rw (nl, complete, partial) (ap (λ ls. acc ∷ ls) (complete-append [] s t))
  | inr other ↦ rw (other, complete, partial) (complete-append (acc ++ c ∷ []) s t)
]

-- A part with no newline.
abbrev pub Unbroken : Bytes → Type 0
Unbroken p = All (λ c. (c == b'\n') ≡ false) p

pub complete_whole : (acc p s : Bytes) → Unbroken p → complete acc (p ++ s) ≡ complete (acc ++ p) s
complete_whole acc [] s h = rw append-nil refl
complete_whole acc (c ∷ p) s h =
    rw (h.0, complete)
      (complete_whole (acc ++ c ∷ []) p s h.1
        ∙ ap (λ x. complete x s) (append_assoc acc (c ∷ []) p))

pub pieces_whole : (acc p s : Bytes) → Unbroken p → pieces acc (p ++ s) ≡ pieces (acc ++ p) s
pieces_whole acc [] s h = rw append-nil refl
pieces_whole acc (c ∷ p) s h =
    rw (h.0, pieces)
      (pieces_whole (acc ++ c ∷ []) p s h.1 ∙ ap (λ x. pieces x s) (append_assoc acc (c ∷ []) p))

pub partial_whole : (acc p s : Bytes) → Unbroken p → partial acc (p ++ s) ≡ partial (acc ++ p) s
partial_whole acc [] s h = rw append-nil refl
partial_whole acc (c ∷ p) s h =
    rw (h.0, partial)
      (partial_whole (acc ++ c ∷ []) p s h.1 ∙ ap (λ x. partial x s) (append_assoc acc (c ∷ []) p))

Unbroken-snoc : (p : Bytes) (c : ℕ) → Unbroken p → (c == b'\n') ≡ false → Unbroken (p ++ c ∷ [])
Unbroken-snoc [] c h e = (e, tt)
Unbroken-snoc (x ∷ p) c h e = (h.0, Unbroken-snoc p c h.1 e)

pub partial-Unbroken : (acc s : Bytes) → Unbroken acc → Unbroken (partial acc s)
partial-Unbroken acc [] h = h
partial-Unbroken acc (c ∷ s) h = elim (Bool-cases (c == b'\n')) [
  | inl nl ↦ rw (nl, partial) (partial-Unbroken [] s tt)
  | inr other ↦
      rw (other, partial) (partial-Unbroken (acc ++ c ∷ []) s (Unbroken-snoc acc c h other))
]

-- The lines worth keeping, written one after the other.
module _ (disk : Disk) where
  abbrev pub keep_line : Bytes → Writer → Writer
  keep_line l w =
      let line = trim_suffix (b'\r' ∷ []) l in
      if is_kept line then (write_line disk line w).0 else w

  unfoldable pub copy : List Bytes → Writer → Writer
  copy [] w = w
  copy (l ∷ ls) w = copy ls (keep_line l w)

  pub copy-append : (ls ms : List Bytes) (w : Writer) → copy (ls ++ ms) w ≡ copy ms (copy ls w)
  unfolding copy
  copy-append [] ms w = refl
  copy-append (l ∷ ls) ms w = copy-append ls ms (keep_line l w)
