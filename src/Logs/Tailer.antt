-- ===== src/Logs/Tailer.antt =====
-- tailer/tailer.go: complete lines of a growing file. A stamp is the nanoseconds of a clock.
use nix_repo_base.Base.{
  ℕ, zero, suc, ◌||◌, ◌+◌, ◌-◌, ◌*◌, Bool, true, false, Option, none, some, [], ◌∷◌, ◌++◌, length,
  ltb, leb, ◌==◌, if◌then◌else◌,
}
use nix_repo_base.Base.Bytes.{Bytes, trim_suffix, is_nil}

abbrev pub max_partial : ℕ
max_partial = 16 * 1024 * 1024

abbrev pub chunk_size : ℕ
chunk_size = 256 * 1024

abbrev pub default_max_bytes : ℕ
default_max_bytes = 256 * 1024 * 1024

-- `h` is the state of the handler.
pub record Tailer (H : Type 0) : Type 0 where
  pub h : H
  pub max_bytes : ℕ
  pub offset : ℕ
  pub retained : ℕ
  pub buf : Bytes
  pub truncated : Bool
  pub max_lag : ℕ

module _ {H : Type 0} where
  unfoldable pub new_tailer : H → ℕ → Tailer H
  new_tailer h max_bytes = record {
    h = h;
    max_bytes = if max_bytes == 0 then default_max_bytes else max_bytes;
    offset = 0;
    retained = 0;
    buf = [];
    truncated = false;
    max_lag = 0;
  }

  module _ (line : Bytes → ℕ → H → H × ℕ) where
    -- One complete line, its carriage return trimmed.
    unfoldable pub take_line : ℕ → Bytes → Tailer H → Tailer H
    take_line at l t =
        if is_nil l
        then t
        else if leb t.max_bytes t.retained
        then record t { truncated = true; buf = [] }
        else let (h, counted) = line l at t.h in record t { h = h; retained = t.retained + counted }

    -- The loop over the buffer, of which `acc` is the part since the last newline.
    unfoldable pub consume_bytes : ℕ → Bytes → Bytes → Tailer H → Tailer H
    unfolding take_line
    consume_bytes at acc [] t = record t { buf = if ltb max_partial (length acc) then [] else acc }
    consume_bytes at acc (c ∷ s) t = elim (c == b'\n') [
      | false ↦ consume_bytes at (acc ++ c ∷ []) s t
      | true ↦
          let t' = take_line at (trim_suffix (b'\r' ∷ []) acc) t in
          elim t'.truncated [ true ↦ t' | false ↦ consume_bytes at [] s t' ]
    ]

    unfoldable pub consume : ℕ → ℕ → Bytes → Tailer H → Tailer H
    unfolding consume_bytes
    consume at mtime data' t =
        if t.truncated
        then t
        else consume_bytes at [] (t.buf ++ data')
            (record t { max_lag = if ltb t.max_lag (at - mtime) then at - mtime else t.max_lag })

    -- A read: nothing, or bytes to consume.
    pub after_read : ℕ → ℕ → Bytes → Tailer H → Tailer H
    unfolding consume
    after_read at mtime [] t = t
    after_read at mtime (c ∷ s) t =
        consume at mtime (c ∷ s) (record t { offset = t.offset + length (c ∷ s) })

    -- The loop of Poll, on fuel. `read_at` gives the bytes and whether there is an error other than
    -- the end of the file; `now` is the clock when the bytes from an offset on are consumed.
    pub poll_loop : ℕ → (ℕ → ℕ) → (ℕ → ℕ → Bytes × Bool) → ℕ → ℕ → Tailer H → Tailer H
    unfolding after_read
    poll_loop zero now read_at size mtime t = t
    poll_loop (suc fuel) now read_at size mtime t = elim (ltb t.offset size) [
      | false ↦ t
      | true ↦ elim t.truncated [
        | true ↦ record t { offset = size; buf = [] }
        | false ↦
            let left = size - t.offset in
            let (data', failed) =
              read_at t.offset (if ltb left chunk_size then left else chunk_size) in
            let t' = after_read (now t.offset) mtime data' t in
            elim (failed || is_nil data') [
              | true ↦ t'
              | false ↦ poll_loop fuel now read_at size mtime t'
            ]
      ]
    ]

    -- A round that goes on reads a byte at least, so as many rounds as bytes are enough.
    poll_from : (ℕ → ℕ) → (ℕ → ℕ → Bytes × Bool) → ℕ → ℕ → Tailer H → Tailer H × ℕ
    unfolding poll_loop
    poll_from now read_at size mtime t =
        let t' = poll_loop (suc size) now read_at size mtime t in (t', t'.offset - t.offset)

    flushed : (H → H) → Tailer H × ℕ → Tailer H × ℕ
    flushed flush (t, n) = (record t { h = flush t.h }, n)

    -- `stat` is the size and the modification time, or none for an error.
    unfoldable pub poll :
        (H → H) → Option (ℕ × ℕ) → (ℕ → ℕ) → (ℕ → ℕ → Bytes × Bool) → Tailer H → Tailer H × ℕ
    unfolding poll_from flushed
    poll flush none now read_at t = flushed flush (t, 0)
    poll flush (some (size, mtime)) now read_at t = flushed flush (
        poll_from now read_at size mtime
          (if ltb size t.offset then record t { offset = 0; buf = [] } else t))
