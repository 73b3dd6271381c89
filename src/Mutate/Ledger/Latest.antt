-- ===== src/Mutate/Ledger/Latest.antt =====
-- What a replay returns: for each file, the last record that the ledger holds.
use nix_repo_base.Base.{
  ℕ, String, ◌≡◌, ◌≢◌, ◌⊎◌, refl, sym, ap, ◌∙◌, All, Bool, true, false, Option, none, some, List,
  [], ◌∷◌, ◌++◌, Dict, lookup, lookup-insert, leb, str_eq, if◌then◌else◌, arith, Bool-cases, inl,
  inr,
}
use nix_repo_base.Mutate.Ledger.{
  Record, Line, LedgerFile, AppendIo, written, short_write, max_line_size, append, scan, note,
  replay, tail_lines,
}

abbrev pub of_file : String → Option Record → Option Record
of_file k none = none
of_file k (some r) = if str_eq r.file_path k then some r else none

abbrev pub or_else : Option Record → Option Record → Option Record
or_else (some r) o = some r
or_else none o = o

-- The last record of a file, read from the end.
pub latest : String → List Line → Option Record
latest k [] = none
latest k (l ∷ ls) = or_else (latest k ls) (of_file k l.decoded)

lookup-note :
    (k : String) (o : Option Record) (m : Dict Record)
    → lookup k (note o m) ≡ or_else (of_file k o) (lookup k m)
lookup-note k none m = refl
lookup-note k (some r) m = ground (arith, lookup-insert r.file_path k r m)

or_else_assoc : (a b c : Option Record) → or_else a (or_else b c) ≡ or_else (or_else a b) c
or_else_assoc a b c = ground arith

or_else-none : (a : Option Record) → or_else a none ≡ a
or_else-none a = ground arith

lookup-scan :
    (k : String) (ls : List Line) (m : Dict Record) {m' : Dict Record}
    → scan ls m ≡ some m'
    → lookup k m' ≡ or_else (latest k ls) (lookup k m)
unfolding scan latest
lookup-scan k [] m h = ground arith
lookup-scan k (l ∷ ls) m {m'} h = elim (Bool-cases (leb max_line_size l.size)) [
  | inl long ↦ ground arith
  | inr fits ↦
      lookup-scan k ls (note l.decoded m) (rw fits at h)
      ∙ ap (or_else (latest k ls)) (lookup-note k l.decoded m)
      ∙ or_else_assoc (latest k ls) (of_file k l.decoded) (lookup k m)
]

-- A successful replay maps every file to its last record in the ledger, and to nothing if the ledger
-- holds none.
pub lookup-replay :
    (opened : Bool) (f : LedgerFile) (k : String) {m : Dict Record}
    → replay opened f ≡ some m
    → lookup k m ≡ latest k (f.lines ++ tail_lines f.tail)
unfolding replay lookup
lookup-replay true f k h =
    lookup-scan k (f.lines ++ tail_lines f.tail) [] h
    ∙ or_else-none (latest k (f.lines ++ tail_lines f.tail))
lookup-replay false f k h = cc

pub latest-append :
    (k : String) (ls : List Line) (l : Line)
    → latest k (ls ++ l ∷ []) ≡ or_else (of_file k l.decoded) (latest k ls)
unfolding latest
latest-append k [] l = sym (or_else-none (of_file k l.decoded))
latest-append k (x ∷ ls) l = ground (arith, latest-append k ls l)

abbrev pub Fits : Line → Type 0
Fits l = leb max_line_size l.size ≡ false

-- A ledger whose lines all fit the scanner's buffer can be replayed.
pub scan-some :
    (ls : List Line) (m : Dict Record) → All Fits ls → (m' : Dict Record) × (scan ls m ≡ some m')
unfolding scan
scan-some [] m h = (m, refl)
scan-some (l ∷ ls) m h = rw h.0 (scan-some ls (note l.decoded m) h.1)

-- A line is torn only by a short write.
pub append-cases :
    (io : AppendIo) (size : ℕ) (r : Record) (f : LedgerFile)
    → ((k : ℕ) → io ≢ short_write k)
    → f.tail ≡ none
    → let l : Line = record { size = size; decoded = some r } in
      ((append io size r f).0 ≡ f)
      ⊎ ((append io size r f).0 ≡ record { lines = f.lines ++ l ∷ []; tail = none })
unfolding append
append-cases written size r f h t = inr (rw t)
append-cases (short_write k) size r f h t = absurd (h k refl)
append-cases _ size r f h t = inl refl
