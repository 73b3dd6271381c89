-- ===== src/Logs/Buffer.antt =====
-- The bufio.Writer of retain/retain.go: NewWriterSize(w, 64<<10), and its Write, WriteByte and Flush. An
-- error is kept, and nothing is written after it.
use mathlib.Core.List.{append-nil, append_assoc}
use mathlib.Core.Path.{subst}
use nix_repo_base.Base.{
  ℕ, zero, suc, ◌-◌, ◌*◌, ◌≡◌, refl, ap, sym, ◌∙◌, Bool, true, false, ◌||◌, Option, none, some, [],
  ◌∷◌, ◌++◌, length, leb, if◌then◌else◌, Bool-cases, inl, inr,
}
use nix_repo_base.Base.Bytes.{Bytes, is_nil}

-- How a write of these bytes to a file that holds those ends: with all of them, or with an error after
-- so many.
abbrev pub Disk : Type 0
Disk = Bytes → Bytes → Option ℕ

-- A disk that does not fail.
abbrev pub working : Disk
working file p = none

-- The bytes not flushed yet, what the file holds, and whether there was an error.
pub record Buffered : Type 0 where
  pub pending : Bytes
  pub file : Bytes
  pub broken : Bool

abbrev pub empty_buffer : Buffered
empty_buffer = record { pending = []; file = []; broken = false }

abbrev pub buffer_size : ℕ
buffer_size = 64 * 1024

unfoldable pub take : ℕ → Bytes → Bytes
take zero s = []
take (suc n) [] = []
take (suc n) (c ∷ s) = c ∷ take n s

unfoldable pub drop : ℕ → Bytes → Bytes
drop zero s = s
drop (suc n) [] = []
drop (suc n) (c ∷ s) = drop n s

-- One write to the file, past the buffer.
unfoldable pub send : Disk → Bytes → Buffered → Buffered
unfolding take
send disk p b = elim (disk b.file p) [
  | none ↦ record b { file = b.file ++ p }
  | some k ↦ record b { file = b.file ++ take k p; broken = true }
]

unfoldable pub flush : Disk → Buffered → Buffered
unfolding take drop
flush disk b = if b.broken || is_nil b.pending then b else elim (disk b.file b.pending) [
  | none ↦ record b { pending = []; file = b.file ++ b.pending }
  | some k ↦ record { pending = drop k b.pending; file = b.file ++ take k b.pending; broken = true }
]

-- What is left of a write once the full buffer is flushed.
unfoldable pub write_rest : Disk → Bytes → Buffered → Buffered
unfolding send
write_rest disk rest b =
    if b.broken
    then b
    else if leb (length rest) buffer_size
    then record b { pending = b.pending ++ rest }
    else send disk rest b

unfoldable pub write : Disk → Bytes → Buffered → Buffered
unfolding write_rest flush send take drop
write disk p b =
    let room = buffer_size - length b.pending in
    if b.broken
    then b
    else if leb (length p) room
    then record b { pending = b.pending ++ p }
    else if is_nil b.pending
    then send disk p b
    else write_rest disk (drop room p)
        (flush disk (record b { pending = b.pending ++ take room p }))

unfoldable pub with_byte : ℕ → Buffered → Buffered
with_byte c b = if b.broken then b else record b { pending = b.pending ++ c ∷ [] }

unfoldable pub write_byte : Disk → ℕ → Buffered → Buffered
unfolding with_byte flush
write_byte disk c b =
    if leb buffer_size (length b.pending) then with_byte c (flush disk b) else with_byte c b

-- All bytes written, on the file or not yet.
abbrev pub contents : Buffered → Bytes
contents b = b.file ++ b.pending

-- Without an error, this has been written.
abbrev pub Holds : Bytes → Buffered → Type 0
Holds text b = (b.broken ≡ false) × (contents b ≡ text)

abbrev intact : Bytes → Bytes → Buffered
intact s f = record { pending = s; file = f; broken = false }

is_intact : (b : Buffered) → b.broken ≡ false → intact b.pending b.file ≡ b
is_intact b ok = ap (λ x. record b { broken = x }) (sym ok)

take-drop : (n : ℕ) (s : Bytes) → take n s ++ drop n s ≡ s
unfolding take drop
take-drop zero s = refl
take-drop (suc n) [] = refl
take-drop (suc n) (c ∷ s) = ap (λ t. c ∷ t) (take-drop n s)

flush-intact : (s f : Bytes) → flush working (intact s f) ≡ intact [] (f ++ s)
unfolding flush
flush-intact [] f = ap (λ x. intact [] x) (sym (append-nil f))
flush-intact (c ∷ s) f = refl

-- A flush of a buffer without an error leaves everything on the file.
pub flush_whole : (b : Buffered) → b.broken ≡ false → flush working b ≡ intact [] (contents b)
flush_whole b ok = ap (flush working) (sym (is_intact b ok)) ∙ flush-intact b.pending b.file

write_rest-intact : (rest f : Bytes) → Holds (f ++ rest) (write_rest working rest (intact [] f))
unfolding write_rest send
write_rest-intact rest f = elim (Bool-cases (leb (length rest) buffer_size)) [
  | inl fits ↦ rw fits (refl, refl)
  | inr large ↦ rw large (refl, append-nil (f ++ rest))
]

spilled :
    (n : ℕ) (p s f : Bytes)
    → Holds
        ((f ++ s) ++ p)
        (write_rest working (drop n p) (flush working (intact (s ++ take n p) f)))
spilled n p s f =
    let text : (f ++ (s ++ take n p)) ++ drop n p ≡ (f ++ s) ++ p =
      ap (λ x. x ++ drop n p) (sym (append_assoc f s (take n p)))
      ∙ append_assoc (f ++ s) (take n p) (drop n p)
      ∙ ap (λ x. (f ++ s) ++ x) (take-drop n p) in
    subst (λ b. Holds ((f ++ s) ++ p) (write_rest working (drop n p) b))
      (sym (flush-intact (s ++ take n p) f))
      (subst (λ t. Holds t (write_rest working (drop n p) (intact [] (f ++ (s ++ take n p))))) text
        (write_rest-intact (drop n p) (f ++ (s ++ take n p))))

write-intact : (p s f : Bytes) → Holds ((f ++ s) ++ p) (write working p (intact s f))
unfolding write send
write-intact p [] f = elim (Bool-cases (leb (length p) buffer_size)) [
  | inl fits ↦ rw fits (refl, ap (λ x. x ++ p) (sym (append-nil f)))
  | inr large ↦ rw large (refl, append-nil (f ++ p) ∙ ap (λ x. x ++ p) (sym (append-nil f)))
]
write-intact p (c ∷ s) f = elim (Bool-cases (leb (length p) (buffer_size - length (c ∷ s)))) [
  | inl fits ↦ rw fits (refl, sym (append_assoc f (c ∷ s) p))
  | inr large ↦ rw large (spilled (buffer_size - length (c ∷ s)) p (c ∷ s) f)
]

with_byte-intact : (c : ℕ) (s f : Bytes) → Holds ((f ++ s) ++ c ∷ []) (with_byte c (intact s f))
unfolding with_byte
with_byte-intact c s f = (refl, sym (append_assoc f s (c ∷ [])))

write_byte-intact :
    (c : ℕ) (s f : Bytes) → Holds ((f ++ s) ++ c ∷ []) (write_byte working c (intact s f))
unfolding write_byte
write_byte-intact c s f = elim (Bool-cases (leb buffer_size (length s))) [
  | inr room ↦ rw room (with_byte-intact c s f)
  | inl full ↦ rw full (
      subst (λ b. Holds ((f ++ s) ++ c ∷ []) (with_byte c b)) (sym (flush-intact s f)) (refl, refl))
]

-- A line and its newline are added, one after the other.
pub write-Holds :
    (line : Bytes) (c : ℕ) (b : Buffered)
    → b.broken ≡ false
    → Holds (contents b ++ line ++ c ∷ []) (write_byte working c (write working line b))
write-Holds line c b ok =
    let first : Holds (contents b ++ line) (write working line b) =
      subst (λ x. Holds (contents b ++ line) (write working line x)) (is_intact b ok)
        (write-intact line b.pending b.file) in
    let b' = write working line b in
    subst (λ t. Holds (t ++ c ∷ []) (write_byte working c b')) first.1
      (subst (λ x. Holds (contents b' ++ c ∷ []) (write_byte working c x)) (is_intact b' first.0)
        (write_byte-intact c b'.pending b'.file))
