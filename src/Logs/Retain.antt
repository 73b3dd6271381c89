-- ===== src/Logs/Retain.antt =====
-- retain/retain.go and RetainDrop of nixlog/nixlog.go: the retained log, written live by Handler or
-- afterwards by Finalize. What the disk does with each write to the file is an argument. Sizes stay below
-- 2 ^ 63.
use nix_repo_base.Base.{
  ℕ, suc, ◌+◌, ◌*◌, Bool, true, false, not, ◌&&◌, ◌||◌, List, [], ◌∷◌, ◌++◌, length, ltb, ◌==◌,
  if◌then◌else◌,
}
use mathlib.Core.List.{reverse}
use nix_repo_base.Base.Bytes.{Bytes, ascii, has_prefix, trim_suffix, drop_last, is_nil}
use nix_repo_base.Logs.Buffer.{Disk, Buffered, empty_buffer, write, write_byte, flush}

pub record Writer : Type 0 where
  pub max : ℕ
  pub n : ℕ
  pub truncated : Bool
  pub out : Buffered

abbrev pub default_cap : ℕ
default_cap = 64 * 1024 * 1024

abbrev pub max_line : ℕ
max_line = 16 * 1024 * 1024

-- A cap of 0 stands for all that are not positive.
unfoldable pub new_writer : ℕ → Writer
new_writer cap_bytes = record {
  max = if cap_bytes == 0 then default_cap else cap_bytes;
  n = 0;
  truncated = false;
  out = empty_buffer;
}

unfoldable pub write_line : Disk → Bytes → Writer → Writer × Bool
write_line disk line w =
    let need = length line + 1 in
    if w.truncated
    then (w, false)
    else if ltb w.max (w.n + need)
    then (record w { truncated = true }, false)
    else let out = write_byte disk b'\n' (write disk line w.out) in
      if out.broken
      then (record w { truncated = true; out = out }, false)
      else (record w { n = w.n + need; out = out }, true)

-- Writer.Flush.
abbrev pub flush_writer : Disk → Writer → Writer
flush_writer disk w = record w { out = flush disk w.out }

abbrev has_suffix : Bytes → Bytes → Bool
has_suffix p s = has_prefix (reverse p) (reverse s)

unfoldable pub retain_drop : Bytes → Bool
retain_drop line =
    has_prefix (ascii "{\"action\":\"result\"") line
    && (has_suffix (ascii "\"type\":105}") line || has_suffix (ascii "\"type\":106}") line)

-- `observer` is the state of the next stage.
pub record Handler (O : Type 0) : Type 0 where
  pub observer : O
  pub w : Writer

module _ {O : Type 0} (next : Bytes → ℕ → O → O) (disk : Disk) where
  -- The bytes counted come second.
  unfoldable pub handler_line : Bytes → ℕ → Handler O → Handler O × ℕ
  handler_line line at h =
      let o = next line at h.observer in
      if retain_drop line
      then (record h { observer = o }, 0)
      else (record { observer = o; w = (write_line disk line h.w).0 }, length line + 1)

-- Handler.Flush, which the tailer calls after each poll; its error is ignored.
abbrev pub handler_flush : {O : Type 0} → Disk → Handler O → Handler O
handler_flush disk h = record h { w = flush_writer disk h.w }

-- What one ReadSlice returns: the delimiter found, the buffer full, the end of the file, or an error.
pub data Slice : Type 0 where
  delimited buffer_full at_eof read_failed : Bytes → Slice

-- bufio.Reader.ReadSlice('\n') until the end of the file, with a buffer of this size.
unfoldable pub read_slices : ℕ → Bytes → Bytes → List Slice
read_slices size acc [] = at_eof acc ∷ []
read_slices size acc (c ∷ s) = elim (c == b'\n') [
  | true ↦ delimited (acc ++ c ∷ []) ∷ read_slices size [] s
  | false ↦ elim (ltb (suc (length acc)) size) [
    | true ↦ read_slices size (acc ++ c ∷ []) s
    | false ↦ buffer_full (acc ++ c ∷ []) ∷ read_slices size [] s
  ]
]

-- `over` and `line` after a fragment.
unfoldable pub gather : Bytes → Bool → Bytes → Bytes × Bool
gather line true frag = (line, true)
gather line false frag =
    if ltb max_line (length line + length frag) then ([], true) else (line ++ frag, false)

-- The line without its newline and a carriage return.
abbrev pub chop : Bytes → Bytes
chop line = trim_suffix (b'\r' ∷ []) (drop_last line)

abbrev pub is_kept : Bytes → Bool
is_kept l = not (is_nil l) && not (retain_drop l)

unfoldable pub finalize_loop : Disk → List Slice → Bytes → Bool → Writer → Writer
unfolding gather
finalize_loop disk [] line over w = w
finalize_loop disk (buffer_full frag ∷ rest) line over w =
    let (line', over') = gather line over frag in finalize_loop disk rest line' over' w
finalize_loop disk (at_eof frag ∷ rest) line over w = w
finalize_loop disk (read_failed frag ∷ rest) line over w = w
finalize_loop disk (delimited frag ∷ rest) line over w =
    let (line', over') = gather line over frag in
    elim (not over' && is_kept (chop line')) [
      | true ↦
          let w' = (write_line disk (chop line') w).0 in
          elim w'.truncated [ true ↦ w' | false ↦ finalize_loop disk rest [] false w' ]
      | false ↦ finalize_loop disk rest [] false w
    ]

-- What Finalize writes for a raw file. It ends with a flush, whatever comes.
unfoldable pub finalize : Disk → ℕ → Bytes → Writer
unfolding read_slices finalize_loop
finalize disk cap_bytes raw =
    flush_writer disk
      (finalize_loop disk (read_slices (256 * 1024) [] raw) [] false (new_writer cap_bytes))
