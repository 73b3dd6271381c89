-- ===== src/Mutate/Ledger.antt =====
-- internal/ledger/ledger.go. The file is what a scanner sees of it: complete lines, and the text
-- after the last newline. Of a line the model keeps its length in bytes and the record it decodes to.
pub mod Latest
pub mod Appends
use nix_repo_base.Base.{
  zero, suc, ◌*◌, ℕ, ◌+◌, String, Bool, true, false, not, Option, none, some, List, [], ◌∷◌, ◌++◌,
  Dict, lookup, insert, leb, str_eq, if◌then◌else◌,
}

pub record Record : Type 0 where
  pub file_path : String
  pub package_hash : String
  pub status : String
  pub report_path : String
  pub root_git_hash : String
  pub timestamp : ℕ

-- `decoded` is `none` where json.Unmarshal refuses the line.
pub record Line : Type 0 where
  pub size : ℕ
  pub decoded : Option Record

pub record LedgerFile : Type 0 where
  pub lines : List Line
  pub tail : Option Line

abbrev pub max_line_size : ℕ
max_line_size = 1024 * 1024

-- What the file system does with one Append.
pub data AppendIo : Type 0 where
  mkdir_fails open_fails encode_fails : AppendIo
  short_write : ℕ → AppendIo
  written : AppendIo

pub data LedgerError : Type 0 where
  creating opening encoding writing reading : LedgerError

-- Bytes written behind what stands after the last newline join it on one line, and no two values
-- on one line decode.
abbrev pub join : Option Line → Line → Line
join none l = l
join (some t) l = record { size = t.size + l.size; decoded = none }

-- `k` bytes of a line of `size` bytes, the newline not among them.
fragment : Option Line → ℕ → ℕ → Record → Option Line
fragment tail zero size r = tail
fragment tail (suc k) size r =
    if leb size (suc k)
    then some (join tail (record { size = size; decoded = some r }))
    else some (join tail (record { size = suc k; decoded = none }))

-- `size` is the length of the encoded record.
unfoldable pub append : AppendIo → ℕ → Record → LedgerFile → LedgerFile × Option LedgerError
unfolding fragment
append mkdir_fails size r f = (f, some creating)
append open_fails size r f = (f, some opening)
append encode_fails size r f = (f, some encoding)
append (short_write k) size r f = (record f { tail = fragment f.tail k size r }, some writing)
append written size r f = (
  record {
    lines = f.lines ++ join f.tail (record { size = size; decoded = some r }) ∷ [];
    tail = none;
  },
  none,
)

abbrev pub note : Option Record → Dict Record → Dict Record
note none m = m
note (some r) m = insert r.file_path r m

-- bufio.Scanner stops at the first line that does not fit its buffer.
unfoldable pub scan : List Line → Dict Record → Option (Dict Record)
scan [] m = some m
scan (l ∷ ls) m = if leb max_line_size l.size then none else scan ls (note l.decoded m)

abbrev pub tail_lines : Option Line → List Line
tail_lines none = []
tail_lines (some l) = l ∷ []

-- `opened` is false where os.Open fails with anything but os.IsNotExist; a missing file is an empty
-- one. `none` is the error.
unfoldable pub replay : Bool → LedgerFile → Option (Dict Record)
unfolding scan
replay opened f = if opened then scan (f.lines ++ tail_lines f.tail) [] else none

abbrev pub recorded_at : Option Record → String → Bool
recorded_at none hash = false
recorded_at (some r) hash = str_eq r.package_hash hash

unfoldable pub needs_run : Bool → LedgerFile → String → String → Bool
unfolding replay
needs_run opened f file_path current_package_hash = elim (replay opened f) [
  | none ↦ true
  | some records ↦ not (recorded_at (lookup file_path records) current_package_hash)
]
