-- ===== src/Logs/Agreement.antt =====
-- The log that is written live and the log that Finalize writes afterwards are the same.
use mathlib.Core.Path.{subst}
use nix_repo_base.Base.{
  ℕ, ◌-◌, ◌<◌, ◌≤◌, ◌≡◌, refl, ap, sym, ◌∙◌, Bool, true, false, List, [], ◌∷◌, ◌++◌, All, length,
  ltb, ◌==◌, if◌then◌else◌, Bool-cases, inl, inr,
}
use nix_repo_base.Base.Bytes.{Bytes}
use nix_repo_base.Logs.Buffer.{working}
use nix_repo_base.Logs.Retain.{
  Writer, Handler, new_writer, flush_writer, handler_line, handler_flush, max_line, finalize,
}
use nix_repo_base.Logs.Tailer.{Tailer, new_tailer, max_partial, consume, consume_bytes}
use nix_repo_base.Logs.Lines.{
  complete, partial, pieces, Short, Short-first, Short-append, complete-append, complete_whole,
  pieces_whole, partial_whole, Unbroken, partial-Unbroken, copy, copy-append,
}
use nix_repo_base.Logs.Offline.{finalize-complete}
use nix_repo_base.Logs.Twins.{out-SameText, flush_writer-SameText, flushed_same, copy-Full}
use nix_repo_base.Logs.Live.{Parsing, Stopped, Agrees, consume_bytes-Agrees}

-- One read of the growing file: its stamp, the file's modification time, the bytes, and whether the poll
-- ends with it, which flushes what the handler has written.
pub record Chunk : Type 0 where
  pub stamp : ℕ
  pub mtime : ℕ
  pub bytes : Bytes
  pub ends_poll : Bool

abbrev pub stream : List Chunk → Bytes
stream [] = []
stream (c ∷ cs) = c.bytes ++ stream cs

abbrev pub polled : {H : Type 0} → (H → H) → Bool → Tailer H → Tailer H
polled flush_h true t = record t { h = flush_h t.h }
polled flush_h false t = t

abbrev pub consume_all :
    {H : Type 0} → (Bytes → ℕ → H → H × ℕ) → (H → H) → List Chunk → Tailer H → Tailer H
consume_all line flush_h [] t = t
consume_all line flush_h (c ∷ cs) t =
    consume_all line flush_h cs
      (polled flush_h c.ends_poll (consume line c.stamp c.mtime c.bytes t))

partial-append : (acc s t : Bytes) → partial acc (s ++ t) ≡ partial (partial acc s) t
partial-append acc [] t = refl
partial-append acc (c ∷ s) t = elim (Bool-cases (c == b'\n')) [
  | inl nl ↦ rw (nl, partial) (partial-append [] s t)
  | inr other ↦ rw (other, partial) (partial-append (acc ++ c ∷ []) s t)
]

Short-front : (n : ℕ) (acc s t : Bytes) → Short n acc (s ++ t) → Short n acc s
Short-front n acc [] t h = (Short-first n acc t h, tt)
Short-front n acc (c ∷ s) t h = elim (Bool-cases (c == b'\n')) [
  | inl nl ↦ let h' = rw (nl, pieces) at h in rw (nl, pieces) (h'.0, Short-front n [] s t h'.1)
  | inr other ↦ rw (other, pieces) (Short-front n (acc ++ c ∷ []) s t (rw (other, pieces) at h))
]

module _ {H : Type 0} (line : Bytes → ℕ → H → H × ℕ) (stamp mtime : ℕ) (data' : Bytes)
    (t : Tailer H) where
  abbrev lagging : Tailer H
  lagging = record t {
    max_lag = if ltb t.max_lag (stamp - mtime) then stamp - mtime else t.max_lag;
  }

  consume-going :
      t.truncated ≡ false
      → consume line stamp mtime data' t ≡ consume_bytes line stamp [] (t.buf ++ data') lagging
  unfolding consume
  consume-going going =
      ap (λ b. if b then t else consume_bytes line stamp [] (t.buf ++ data') lagging) going

  consume-stopped : t.truncated ≡ true → consume line stamp mtime data' t ≡ t
  unfolding consume
  consume-stopped stopped =
      ap (λ b. if b then t else consume_bytes line stamp [] (t.buf ++ data') lagging) stopped

module _ {O : Type 0} (next : Bytes → ℕ → O → O) where
  consume-Agrees :
      (stamp mtime : ℕ) (data' rest : Bytes) (t : Tailer (Handler O)) (w : Writer)
      → Unbroken rest
      → t.buf ≡ rest
      → Short max_partial rest data'
      → Parsing next t w
      → Agrees next
          (consume (handler_line next working) stamp mtime data' t)
          (partial rest data')
          (copy working (complete rest data') w)
  unfolding consume
  consume-Agrees stamp mtime data' rest t w whole same short p =
      let line = handler_line next working in
      let t₁ = record t {
        max_lag = if ltb t.max_lag (stamp - mtime) then stamp - mtime else t.max_lag;
      } in
      let p₁ : Parsing next t₁ w = record {
        going = p.going;
        same = p.same;
        counted = p.counted;
        within = p.within;
      } in
      let short₁ : Short max_partial [] (rest ++ data') =
        subst (All (λ l. length l < max_partial)) (sym (pieces_whole [] rest data' whole)) short in
      let step : consume line stamp mtime data' t ≡ consume_bytes line stamp [] (rest ++ data') t₁ =
        consume-going line stamp mtime data' t p.going
        ∙ ap (λ b. consume_bytes line stamp [] (b ++ data') t₁) same in
      rw (step, sym (partial_whole [] rest data' whole), sym (complete_whole [] rest data' whole))
        (consume_bytes-Agrees next stamp [] (rest ++ data') t₁ w short₁ p₁)

  -- A flush changes nothing of this.
  polled-Stopped :
      (b : Bool) (t : Tailer (Handler O)) (w : Writer)
      → Stopped next t w
      → Stopped next (polled (handler_flush working) b t) w
  polled-Stopped false t w s = s
  polled-Stopped true t w s = record {
    stopped = s.stopped;
    same = flush_writer-SameText t.h.w w s.same;
    full = s.full;
  }

  polled-Agrees :
      (b : Bool) (t : Tailer (Handler O)) (rest : Bytes) (w : Writer)
      → Agrees next t rest w
      → Agrees next (polled (handler_flush working) b t) rest w
  polled-Agrees false t rest w a = a
  polled-Agrees true t rest w (inl (p, e)) = inl (
    record {
      going = p.going;
      same = record {
        max = p.same.max;
        n = p.same.n;
        truncated = p.same.truncated;
        text = flush_writer-SameText t.h.w w p.same.text;
      };
      counted = p.counted;
      within = p.within;
    },
    e,
  )
  polled-Agrees true t rest w (inr s) = inr (polled-Stopped true t w s)

  -- A tailer that has stopped stays, and so does what is written.
  Stopped-Agrees :
      (cs : List Chunk) (rest : Bytes) (t : Tailer (Handler O)) (w : Writer) (ls : List Bytes)
      → Stopped next t w
      → Agrees next
          (consume_all (handler_line next working) (handler_flush working) cs t)
          rest
          (copy working ls w)
  Stopped-Agrees [] rest t w ls s =
      let (still, same) = copy-Full ls w s.full in
      inr (record {
        stopped = s.stopped;
        same = out-SameText t.h.w w (copy working ls w) same s.same;
        full = still;
      })
  Stopped-Agrees (c ∷ cs) rest t w ls s =
      subst
        (λ x.
          Agrees next
            (consume_all (handler_line next working) (handler_flush working) cs
              (polled (handler_flush working) c.ends_poll x))
            rest (copy working ls w))
        (sym (consume-stopped (handler_line next working) c.stamp c.mtime c.bytes t s.stopped))
        (Stopped-Agrees cs rest (polled (handler_flush working) c.ends_poll t) w ls
          (polled-Stopped c.ends_poll t w s))

  consume_all-Agrees :
      (cs : List Chunk) (rest : Bytes) (t : Tailer (Handler O)) (w : Writer)
      → Unbroken rest
      → Short max_partial rest (stream cs)
      → Agrees next t rest w
      → Agrees next
          (consume_all (handler_line next working) (handler_flush working) cs t)
          (partial rest (stream cs))
          (copy working (complete rest (stream cs)) w)
  unfolding copy
  consume_all-Agrees [] rest t w whole short a = a
  consume_all-Agrees (c ∷ cs) rest t w whole short (inr s) =
      Stopped-Agrees (c ∷ cs) (partial rest (stream (c ∷ cs))) t w (complete rest (stream (c ∷ cs)))
        s
  consume_all-Agrees (c ∷ cs) rest t w whole short (inl (p, same)) =
      let w₁ = copy working (complete rest c.bytes) w in
      let first =
        consume-Agrees c.stamp c.mtime c.bytes rest t w whole same
          (Short-front max_partial rest c.bytes (stream cs) short) p in
      let later =
        consume_all-Agrees cs (partial rest c.bytes)
          (polled (handler_flush working) c.ends_poll
            (consume (handler_line next working) c.stamp c.mtime c.bytes t))
          w₁ (partial-Unbroken rest c.bytes whole)
          (Short-append max_partial rest c.bytes (stream cs) short)
          (polled-Agrees c.ends_poll (consume (handler_line next working) c.stamp c.mtime c.bytes t)
            (partial rest c.bytes) w₁ first) in
      rw
        (
          partial-append rest c.bytes (stream cs),
          complete-append rest c.bytes (stream cs),
          copy-append working (complete rest c.bytes) (complete (partial rest c.bytes) (stream cs))
              w,
        )
        later

  same_file :
      (t : Tailer (Handler O)) (rest : Bytes) (w : Writer)
      → Agrees next t rest w
      → (handler_flush working t.h).w.out.file ≡ (flush_writer working w).out.file
  same_file t rest w (inl (p, b)) = flushed_same t.h.w w p.same.text
  same_file t rest w (inr s) = flushed_same t.h.w w s.same

  -- However the reads cut the stream that nix writes, and after whichever of them a poll ends: if the
  -- disk does not fail, the cap of the retained log is not above the parse cap, and no line, nor the text
  -- after the last newline, has 16 MiB or more, then the file that the tailer and its handler have
  -- written, after a last flush, is byte for byte the one that Finalize makes of the whole raw file with
  -- the same cap.
  pub consume-finalize :
      (o : O) (cap_bytes max_bytes : ℕ) (chunks : List Chunk)
      → (new_writer cap_bytes).max
        ≤ (new_tailer {H = Handler O}
            (record { observer = o; w = new_writer cap_bytes })
            max_bytes).max_bytes
      → Short max_line [] (stream chunks)
      → (handler_flush working
          (consume_all (handler_line next working) (handler_flush working) chunks (
            new_tailer {H = Handler O}
              (record { observer = o; w = new_writer cap_bytes })
              max_bytes)).h).w.out.file
        ≡ (finalize working cap_bytes (stream chunks)).out.file
  unfolding new_writer new_tailer
  consume-finalize o cap_bytes max_bytes chunks caps short =
      let start =
        new_tailer {H = Handler O} (record { observer = o; w = new_writer cap_bytes }) max_bytes in
      let begin : Parsing next start (new_writer cap_bytes) = record {
        going = refl;
        same = record { max = refl; n = refl; truncated = refl; text = (refl, refl, refl) };
        counted = inl refl;
        within = caps;
      } in
      same_file (consume_all (handler_line next working) (handler_flush working) chunks start)
        (partial [] (stream chunks))
        (copy working (complete [] (stream chunks)) (new_writer cap_bytes))
        (consume_all-Agrees chunks [] start (new_writer cap_bytes) tt short (inl (begin, refl)))
      ∙ ap (λ x. x.out.file) (sym (finalize-complete working cap_bytes (stream chunks) short))
