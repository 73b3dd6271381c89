-- ===== src/Mutate/Ledger/Appends.antt =====
-- What an Append does to later answers of NeedsRun.
use mathlib.Core.List.{append-nil}
use nix_repo_base.Base.{
  ℕ, ◌+◌, String, ◌≡◌, refl, ap, All, All-append, true, false, not, none, some, [], ◌∷◌, ◌++◌, leb,
  str_eq, if◌then◌else◌, arith,
}
use nix_repo_base.Mutate.Ledger.{
  Record, Line, LedgerFile, written, max_line_size, append, replay, tail_lines, needs_run,
  recorded_at,
}
use nix_repo_base.Mutate.Ledger.Latest.{latest, latest-append, Fits, scan-some, lookup-replay}

-- NeedsRun by the last record of the file.
needs_run-latest :
    (f : LedgerFile) (k hash : String)
    → All Fits (f.lines ++ tail_lines f.tail)
    → needs_run true f k hash ≡ not (recorded_at (latest k (f.lines ++ tail_lines f.tail)) hash)
unfolding needs_run
needs_run-latest f k hash fits =
    let (m, e) = scan-some (f.lines ++ tail_lines f.tail) [] fits in
    let read : replay true f ≡ some m = unfold replay in e in
    rw (read, needs_run) (ap (λ o. not (recorded_at o hash)) (lookup-replay true f k read))

-- After a successful Append to a ledger of whole lines, NeedsRun of the record's file asks whether
-- the hash is another one, and NeedsRun of every other file answers as before.
pub needs_run-append :
    (size : ℕ) (r : Record) (f : LedgerFile) (k hash : String)
    → f.tail ≡ none
    → All Fits f.lines
    → leb max_line_size size ≡ false
    → needs_run true (append written size r f).0 k hash
      ≡ (if str_eq r.file_path k then not (str_eq r.package_hash hash) else needs_run true f k hash)
unfolding append
needs_run-append size r f k hash whole fits fit =
    let l : Line = record { size = size; decoded = some r } in
    let old = rw whole at (needs_run-latest f k hash (rw (whole, append-nil) fits)) in
    let new =
      needs_run-latest (record { lines = f.lines ++ l ∷ []; tail = none }) k hash
        (rw append-nil (All-append Fits f.lines (l ∷ []) fits (fit, tt))) in
    rw whole (
      ground (
        arith,
        new,
        old,
        latest-append k f.lines l,
        append-nil f.lines,
        append-nil (f.lines ++ l ∷ []),
      ))

-- A record appended behind a torn line reports success and is lost: NeedsRun answers for every file
-- as if neither the torn text nor the record stood in the ledger.
pub needs_run-append_torn :
    (size : ℕ) (r : Record) (f : LedgerFile) (t : Line) (k hash : String)
    → f.tail ≡ some t
    → All Fits f.lines
    → leb max_line_size (t.size + size) ≡ false
    → ((append written size r f).1 ≡ none)
      × (needs_run true (append written size r f).0 k hash
          ≡ needs_run true (record f { tail = none }) k hash)
unfolding append
needs_run-append_torn size r f t k hash torn fits fit =
    let l : Line = record { size = t.size + size; decoded = none } in
    let old = needs_run-latest (record f { tail = none }) k hash (rw append-nil fits) in
    let new =
      needs_run-latest (record { lines = f.lines ++ l ∷ []; tail = none }) k hash
        (rw append-nil (All-append Fits f.lines (l ∷ []) fits (fit, tt))) in
    (
      refl,
      rw torn (
          ground (
            arith,
            new,
            old,
            latest-append k f.lines l,
            append-nil f.lines,
            append-nil (f.lines ++ l ∷ []),
          )),
    )
