-- ===== src/Logs/Live.antt =====
-- The tailer and its handler write the complete lines worth keeping, until the parse cap stops them.
use nix_repo_base.Base.{
  ℕ, ◌+◌, ◌<◌, ◌≤◌, ◌≡◌, refl, ◌⊎◌, true, false, [], ◌∷◌, ◌++◌, length, ltb, leb, ◌==◌,
  if◌then◌else◌, arith, Bool-cases, inl, inr,
}
use nix_repo_base.Base.Bytes.{Bytes, trim_suffix, is_nil}
use nix_repo_base.Logs.Buffer.{working}
use nix_repo_base.Logs.Retain.{Writer, Handler, write_line, handler_line, retain_drop}
use nix_repo_base.Logs.Tailer.{Tailer, max_partial, take_line, consume_bytes}
use nix_repo_base.Logs.Lines.{complete, partial, pieces, Short, keep_line, copy}
use nix_repo_base.Logs.Twins.{
  Full, SameText, out-SameText, IsTwin, write_line-max, write_line-counted, write_line-Full,
  write_line-IsTwin, keep_line-Full, copy-Full,
}

module _ {O : Type 0} (next : Bytes → ℕ → O → O) where
  -- A tailer that parses, beside a writer that copied the same lines.
  pub record Parsing (t : Tailer (Handler O)) (w : Writer) : Type 0 where
    pub going : t.truncated ≡ false
    pub same : IsTwin t.h.w w
    pub counted : (t.retained ≡ w.n) ⊎ (w.truncated ≡ true)
    pub within : w.max ≤ t.max_bytes

  -- One that stopped at the cap, beside a writer that goes on.
  pub record Stopped (t : Tailer (Handler O)) (w : Writer) : Type 0 where
    pub stopped : t.truncated ≡ true
    pub same : SameText t.h.w w
    pub full : Full w

  abbrev taken : ℕ → Bytes → Tailer (Handler O) → Tailer (Handler O)
  taken = take_line (handler_line next working)

  -- The three things that happen to a line that is not empty.
  module _ (at : ℕ) (line : Bytes) (t : Tailer (Handler O)) (nonempty : is_nil line ≡ false) where
    taken-capped :
        leb t.max_bytes t.retained ≡ true
        → taken at line t ≡ record t { truncated = true; buf = [] }
    unfolding take_line
    taken-capped capped = rw (nonempty, capped) refl

    taken-dropped :
        leb t.max_bytes t.retained ≡ false
        → retain_drop line ≡ true
        → taken at line t ≡ record t {
          h = record t.h { observer = next line at t.h.observer };
          retained = t.retained + 0;
        }
    unfolding take_line handler_line
    taken-dropped room dropped = rw (nonempty, room, dropped) refl

    taken-written :
        leb t.max_bytes t.retained ≡ false
        → retain_drop line ≡ false
        → taken at line t ≡ record t {
          h = record {
            observer = next line at t.h.observer;
            w = (write_line working line t.h.w).0;
          };
          retained = t.retained + (length line + 1);
        }
    unfolding take_line handler_line
    taken-written room kept = rw (nonempty, room, kept) refl

  stops :
      (l : Bytes) (t : Tailer (Handler O)) (w : Writer)
      → Parsing t w
      → leb t.max_bytes t.retained ≡ true
      → Stopped (record t { truncated = true; buf = [] }) (keep_line working l w)
  stops l t w p capped =
      let le : t.max_bytes ≤ t.retained = ground arith in
      let full : Full w = elim p.counted [
        | inl e ↦ inr (omega (arith, p.within, e, le))
        | inr gone ↦ inl gone
      ] in
      let (still, same) = keep_line-Full l w full in
      record {
        stopped = refl;
        same = out-SameText t.h.w w (keep_line working l w) same p.same.text;
        full = still;
      }

  drops :
      (at : ℕ) (line : Bytes) (t : Tailer (Handler O)) (w : Writer)
      → Parsing t w
      → Parsing
          (record t {
            h = record t.h { observer = next line at t.h.observer };
            retained = t.retained + 0;
          })
          w
  drops at line t w p = record {
    going = p.going;
    same = p.same;
    counted = elim p.counted [ inl e ↦ inl (omega (arith, e)) | inr gone ↦ inr gone ];
    within = p.within;
  }

  writes :
      (at : ℕ) (line : Bytes) (t : Tailer (Handler O)) (w : Writer)
      → Parsing t w
      → Parsing
          (record t {
            h = record {
              observer = next line at t.h.observer;
              w = (write_line working line t.h.w).0;
            };
            retained = t.retained + (length line + 1);
          })
          (write_line working line w).0
  writes at line t w p = record {
    going = p.going;
    same = write_line-IsTwin line t.h.w w p.same;
    counted = elim p.counted [
      | inr gone ↦ inr (write_line-Full line w (inl gone)).0
      | inl e ↦ elim (write_line-counted line w p.same.text.1) [
        | inl e' ↦ inl (omega (arith, e, e'))
        | inr gone ↦ inr gone
      ]
    ];
    within = omega (arith, write_line-max line w, p.within);
  }

  take_line-keeps :
      (at : ℕ) (l : Bytes) (t : Tailer (Handler O)) (w : Writer)
      → Parsing t w
      → Parsing (taken at (trim_suffix (b'\r' ∷ []) l) t) (keep_line working l w)
        ⊎ Stopped (taken at (trim_suffix (b'\r' ∷ []) l) t) (keep_line working l w)
  unfolding take_line
  take_line-keeps at l t w p =
      let line = trim_suffix (b'\r' ∷ []) l in
      elim (Bool-cases (is_nil line)) [
        | inl empty ↦ rw empty (inl p)
        | inr some' ↦ elim (Bool-cases (leb t.max_bytes t.retained)) [
          | inl capped ↦ inr (rw (taken-capped at line t some' capped) (stops l t w p capped))
          | inr room ↦ elim (Bool-cases (retain_drop line)) [
            | inl dropped ↦
                let same : keep_line working l w ≡ w = ground arith in
                inl (rw (taken-dropped at line t some' room dropped, same) (drops at line t w p))
            | inr kept ↦
                let same : keep_line working l w ≡ (write_line working line w).0 = ground arith in
                inl (rw (taken-written at line t some' room kept, same) (writes at line t w p))
          ]
        ]
      ]

  -- The tailer and the copy agree, and the buffer is the text after the last newline.
  abbrev pub Agrees : Tailer (Handler O) → Bytes → Writer → Type 0
  Agrees t rest w = (Parsing t w × (t.buf ≡ rest)) ⊎ Stopped t w

  consume_bytes-more :
      (at : ℕ) (acc : Bytes) (c : ℕ) (s : Bytes) (t : Tailer (Handler O))
      → (c == b'\n') ≡ true
      → (taken at (trim_suffix (b'\r' ∷ []) acc) t).truncated ≡ false
      → consume_bytes (handler_line next working) at acc (c ∷ s) t
        ≡ consume_bytes
            (handler_line next working)
            at
            []
            s
            (taken at (trim_suffix (b'\r' ∷ []) acc) t)
  unfolding consume_bytes
  consume_bytes-more at acc c s t nl going = rw (nl, going, consume_bytes) refl

  consume_bytes-stop :
      (at : ℕ) (acc : Bytes) (c : ℕ) (s : Bytes) (t : Tailer (Handler O))
      → (c == b'\n') ≡ true
      → (taken at (trim_suffix (b'\r' ∷ []) acc) t).truncated ≡ true
      → consume_bytes (handler_line next working) at acc (c ∷ s) t
        ≡ taken at (trim_suffix (b'\r' ∷ []) acc) t
  unfolding consume_bytes
  consume_bytes-stop at acc c s t nl stopped = rw (nl, stopped, consume_bytes) refl

  consume_bytes-part :
      (at : ℕ) (acc : Bytes) (c : ℕ) (s : Bytes) (t : Tailer (Handler O))
      → (c == b'\n') ≡ false
      → consume_bytes (handler_line next working) at acc (c ∷ s) t
        ≡ consume_bytes (handler_line next working) at (acc ++ c ∷ []) s t
  unfolding consume_bytes
  consume_bytes-part at acc c s t other = rw (other, consume_bytes) refl

  keeps_part :
      (acc : Bytes) (t : Tailer (Handler O)) (w : Writer)
      → length acc < max_partial
      → Parsing t w
      → Agrees (record t { buf = if ltb max_partial (length acc) then [] else acc }) acc w
  keeps_part acc t w short p = inl (
    record { going = p.going; same = p.same; counted = p.counted; within = p.within },
    ground arith,
  )

  pub consume_bytes-Agrees :
      (at : ℕ) (acc s : Bytes) (t : Tailer (Handler O)) (w : Writer)
      → Short max_partial acc s
      → Parsing t w
      → Agrees
          (consume_bytes (handler_line next working) at acc s t)
          (partial acc s)
          (copy working (complete acc s) w)
  unfolding consume_bytes copy
  consume_bytes-Agrees at acc [] t w short p = keeps_part acc t w short.0 p
  consume_bytes-Agrees at acc (c ∷ s) t w short p = elim (Bool-cases (c == b'\n')) [
    | inr other ↦
        rw (consume_bytes-part at acc c s t other, other, partial, complete)
          (consume_bytes-Agrees at (acc ++ c ∷ []) s t w (rw (other, pieces) at short) p)
    | inl nl ↦ elim (take_line-keeps at acc t w p) [
      | inl going ↦
          rw (consume_bytes-more at acc c s t nl going.going, nl, partial, complete)
            (consume_bytes-Agrees at [] s (taken at (trim_suffix (b'\r' ∷ []) acc) t)
              (keep_line working acc w) (rw (nl, pieces) at short).1 going)
      | inr gone ↦
          let (still, same) = copy-Full (complete [] s) (keep_line working acc w) gone.full in
          rw (consume_bytes-stop at acc c s t nl gone.stopped, nl, partial, complete)
            (inr (record {
              stopped = gone.stopped;
              same =
                  out-SameText (taken at (trim_suffix (b'\r' ∷ []) acc) t).h.w
                    (keep_line working acc w)
                    (copy working (complete [] s) (keep_line working acc w)) same gone.same;
              full = still;
            }))
    ]
  ]
