-- ===== src/Logs/Nixlog/Lines/Invariant.antt =====
-- What the summary holds at any time: bounds, and counts of what was emitted.
use nix_repo_base.Base.{
  ℕ, zero, suc, ◌+◌, ◌≤◌, ◌≡◌, refl, Bool, Option, none, some, List, [], ◌∷◌, length, length-append,
  arith, Bool-cases, inl, inr, total, total-append, one_if,
}
use nix_repo_base.Base.Bytes.{Bytes}
use nix_repo_base.Base.Regex.{submatch, first_chars}
use nix_repo_base.Logs.Nixlog.{
  Text, Kind, build, substitute, wait, ErrorType, build_failed, dependency_failed, hash_mismatch,
  Activity, Open, Failure, Agg, Event, Action, start_action, stop_action, msg_action, result_action,
  other_action, at_id, drop_id, max_failed_drvs, max_error_len,
}
use nix_repo_base.Logs.Nixlog.Text.{
  re_cannot_build, re_hash_mismatch, re_plan_build, re_plan_fetch, re_sqlite_busy, clean_error,
  strip_ansi, trim_space, store_path_name,
}
use nix_repo_base.Logs.Nixlog.Fast.{decode_fields}
use nix_repo_base.Logs.Nixlog.Processor.{
  Processor, new_processor, emit, kind_eq, span_of, open_span, note_active, on_start, hold_or_fail,
  settle, close_span, on_stop, failure_of, mark_failed, short, has_kind,
}
use nix_repo_base.Logs.Nixlog.Messages.{
  blame, note_failure, note_first, on_failure, on_mismatch, on_cannot_build, on_error, on_not_busy,
  or_busy, on_msg, note_plan, mismatch_failure, build_failure, take_held, never_started, raw_or_msg,
}
use nix_repo_base.Logs.Nixlog.Lines.{
  fold, fold_into, fold_bytes, or_id, nth_or_zero, fold_decoded, on_result, on_action, on_decoded,
  on_quick, on_line, Quick, skip, quick_fold, decode_it, run_lines, one_folded, counted, quick,
}

-- A failure kind that a message about a derivation gives.
abbrev pub names_build : ErrorType → Bool
names_build k = has_kind k (hash_mismatch ∷ build_failed ∷ dependency_failed ∷ [])

-- A line is counted once, the waits are those emitted, and what is kept of errors is bounded.
abbrev pub IsSound : Processor → Type 0
IsSound p =
    (p.sum.dropped + p.sum.folded + p.sum.malformed ≤ p.sum.lines)
    × (p.sum.waits ≡ total (λ a. one_if (kind_eq a.kind wait)) p.emitted)
    × (length p.sum.failed_drvs ≤ max_failed_drvs)
    × (length p.sum.first_error ≤ max_error_len)

emit-IsSound : (a : Activity) (p : Processor) → IsSound p → IsSound (emit a p)
emit-IsSound a p v =
    ground (arith, total-append (λ b. one_if (kind_eq b.kind wait)) p.emitted (a ∷ []))

hold_or_fail-IsSound :
    (o : Open) (p : Processor) (r : Option Failure) → IsSound p → IsSound (hold_or_fail o p r)
unfolding hold_or_fail
hold_or_fail-IsSound o p none v = v
hold_or_fail-IsSound o p (some f) v = emit-IsSound (mark_failed f o.act) p v

settle-IsSound :
    (k : Kind) (min_span : ℕ) (o : Open) (p : Processor)
    → IsSound p
    → IsSound (settle k min_span o p)
unfolding settle
settle-IsSound build min_span o p v = hold_or_fail-IsSound o p (failure_of o.act.path p.failed) v
settle-IsSound substitute min_span o p v = emit-IsSound (short min_span o.act) p v
settle-IsSound wait min_span o p v = emit-IsSound o.act p v

close_span-IsSound :
    (min_span id now : ℕ) (p : Processor) (r : Option Open)
    → IsSound p
    → IsSound (close_span min_span id now p r)
unfolding close_span
close_span-IsSound min_span id now p none v = v
close_span-IsSound min_span id now p (some o) v =
    settle-IsSound o.act.kind min_span (record o { act = record o.act { end_at = now } })
      (record p { active = drop_id id p.active }) v

open_span-IsSound :
    (id : ℕ) (p : Processor) (r : Option Activity) → IsSound p → IsSound (open_span id p r)
unfolding open_span
open_span-IsSound id p none v = v
open_span-IsSound id p (some a) v = v

note_active-IsSound : (typ now : ℕ) (p : Processor) → IsSound p → IsSound (note_active typ now p)
note_active-IsSound typ now p v = ground arith

on_start-IsSound :
    (hostname : Text → Option Text) (ev : Event) (now : ℕ) (p : Processor)
    → IsSound p
    → IsSound (on_start hostname ev now p)
unfolding on_start
on_start-IsSound hostname ev now p v =
    let q = note_active ev.typ now p in
    let noted = note_active-IsSound ev.typ now p v in
    ground (arith, open_span-IsSound ev.id q (span_of hostname ev now) noted)

note_failure-IsSound :
    (path : Text) (f : Failure) (p : Processor) → IsSound p → IsSound (note_failure path f p)
note_failure-IsSound path f p v =
    ground (arith, length-append p.sum.failed_drvs (store_path_name path ∷ []))

blame-IsSound :
    (path : Text) (f : Failure) (now : ℕ) (p : Processor) (r : Option (Open × List Open))
    → IsSound p
    → IsSound (blame path f now p r)
unfolding blame
blame-IsSound path f now p none v =
    ground (arith, emit-IsSound (mark_failed f (never_started path now)) p v)
blame-IsSound path f now p (some (h, hs)) v =
    emit-IsSound (mark_failed f h.act) (record p { held = hs }) v

on_failure-IsSound :
    (path : Text) (f : Failure) (now : ℕ) (p : Processor)
    → IsSound p
    → IsSound (on_failure path f now p)
unfolding on_failure
on_failure-IsSound path f now p v = ground (
  arith,
  blame-IsSound path f now (note_failure path f p) (take_held path p.held)
      (note_failure-IsSound path f p v),
)

length-first_chars : (n : ℕ) (s : Text) → length (first_chars n s) ≤ n
length-first_chars zero s = omega arith
length-first_chars (suc n) [] = omega arith
length-first_chars (suc n) (c ∷ s) = omega (arith, length-first_chars n s)

length-clean_error : (s : Text) → length (clean_error s) ≤ max_error_len
unfolding clean_error
length-clean_error s = length-first_chars max_error_len _

note_first-IsSound : (clean : Text) (p : Processor) → IsSound p → IsSound (note_first clean p)
note_first-IsSound clean p v = ground (arith, length-clean_error clean)

on_error-IsSound :
    (said clean : Text) (now : ℕ) (p : Processor) → IsSound p → IsSound (on_error said clean now p)
unfolding on_error on_cannot_build on_mismatch
on_error-IsSound said clean now p v =
    by_build (note_first clean p) (submatch re_cannot_build said) (note_first-IsSound clean p v)
  where
    by_mismatch :
        (q : Processor) (r : Option (ℕ → Text))
        → IsSound q
        → IsSound (on_mismatch said clean now q r)
    by_mismatch q (some g) u = on_failure-IsSound (g 1) (mismatch_failure said) now q u
    by_mismatch q none u = ground arith

    by_build :
        (q : Processor) (r : Option (ℕ → Text))
        → IsSound q
        → IsSound (on_cannot_build said clean now q r)
    by_build q (some g) u = on_failure-IsSound (g 1) (build_failure said) now q u
    by_build q none u = by_mismatch q (submatch re_hash_mismatch said) u

note_plan-IsSound :
    (p : Processor) (r t : Option (ℕ → Text)) → IsSound p → IsSound (note_plan p r t)
note_plan-IsSound p (some g) t v = v
note_plan-IsSound p none (some g) v = v
note_plan-IsSound p none none v = v

or_busy-IsSound :
    (level : ℕ) (said clean : Text) (now : ℕ) (p : Processor) (r : Option (ℕ → Text))
    → IsSound p
    → IsSound (or_busy level said clean now p r)
unfolding or_busy on_not_busy
or_busy-IsSound level said clean now p (some g) v = ground arith
or_busy-IsSound level said clean now p none v = ground (
  arith,
  on_error-IsSound said clean now p v,
  note_plan-IsSound p (submatch re_plan_build said) (submatch re_plan_fetch said) v,
)

-- Progress values leave the summary and what was emitted alone.
fold_lem :
    (id : ℕ) (f : List ℕ) (p : Processor)
    → ((fold id f p).sum ≡ p.sum) × ((fold id f p).emitted ≡ p.emitted)
unfolding fold fold_into fold_bytes
fold_lem id f p = by_agg (at_id id p.aggs)
  where
    by_open :
        (sid : ℕ) (r : Option Open)
        → ((fold_bytes sid (nth_or_zero 0 f) p r).sum ≡ p.sum)
          × ((fold_bytes sid (nth_or_zero 0 f) p r).emitted ≡ p.emitted)
    by_open sid none = (refl, refl)
    by_open sid (some o) = elim (Bool-cases (kind_eq o.act.kind substitute)) [
      | inl sub ↦ rw sub (refl, refl)
      | inr other ↦ rw other (refl, refl)
    ]

    by_agg :
        (r : Option Agg)
        → ((fold_into id f p r).sum ≡ p.sum) × ((fold_into id f p r).emitted ≡ p.emitted)
    by_agg (some a) = (refl, refl)
    by_agg none =
        by_open (or_id id (at_id id p.copies)) (at_id (or_id id (at_id id p.copies)) p.active)

-- Room for one more counted line.
abbrev Slack : Processor → Type 0
Slack p = p.sum.dropped + p.sum.folded + p.sum.malformed + 1 ≤ p.sum.lines

one_folded-IsSound :
    (id : ℕ) (f : List ℕ) (p : Processor) → IsSound p → Slack p → IsSound (one_folded (fold id f p))
one_folded-IsSound id f p v room = let kept = fold_lem id f p in rw (kept.0, kept.1) (ground arith)

fold_decoded-IsSound :
    (id : ℕ) (p : Processor) (r : Option (List ℕ))
    → IsSound p
    → Slack p
    → IsSound (fold_decoded id p r)
unfolding fold_decoded
fold_decoded-IsSound id p none v room = v
fold_decoded-IsSound id p (some f) v room = one_folded-IsSound id f p v room

module _ (decode : Bytes → Option Event) (hostname : Text → Option Text) (min_span : ℕ) where
  on_action-IsSound :
      (a : Action) (ev : Event) (now : ℕ) (p : Processor)
      → IsSound p
      → Slack p
      → IsSound (on_action decode hostname min_span a ev now p)
  unfolding on_action on_stop on_msg on_result
  on_action-IsSound start_action ev now p v room = on_start-IsSound hostname ev now p v
  on_action-IsSound stop_action ev now p v room =
      close_span-IsSound min_span ev.id now (record p { copies = drop_id ev.id p.copies })
        (at_id ev.id p.active) v
  on_action-IsSound msg_action ev now p v room =
      or_busy-IsSound ev.level (strip_ansi (raw_or_msg ev.raw_msg ev.msg))
        (trim_space (strip_ansi ev.msg)) now p
        (submatch re_sqlite_busy (trim_space (strip_ansi ev.msg))) v
  on_action-IsSound result_action ev now p v room =
      ground (arith, fold_decoded-IsSound ev.id p (decode_fields ev.fields) v room)
  on_action-IsSound other_action ev now p v room = v

  on_quick-IsSound :
      (k : Quick) (line : Bytes) (now : ℕ) (p : Processor)
      → IsSound p
      → Slack p
      → IsSound (on_quick decode hostname min_span k line now p)
  unfolding on_quick on_decoded
  on_quick-IsSound skip line now p v room = omega (arith, v, room)
  on_quick-IsSound (quick_fold id f) line now p v room = one_folded-IsSound id f p v room
  on_quick-IsSound decode_it line now p v room = by_event (decode line)
    where
      by_event : (r : Option Event) → IsSound (on_decoded decode hostname min_span r now p)
      by_event none = omega (arith, v, room)
      by_event (some ev) = on_action-IsSound ev.action ev now p v room

  on_line-IsSound :
      (line : Bytes) (now : ℕ) (p : Processor)
      → IsSound p
      → IsSound (on_line decode hostname min_span line now p)
  unfolding on_line
  on_line-IsSound line now p v =
      let q = counted (λ s. record s { lines = s.lines + 1 }) p in
      on_quick-IsSound (quick line q) line now q (ground arith) (omega (arith, v))

  run_lines-IsSound :
      (lines : List (Bytes × ℕ)) (p : Processor)
      → IsSound p
      → IsSound (run_lines decode hostname min_span lines p)
  unfolding run_lines
  run_lines-IsSound [] p v = v
  run_lines-IsSound ((line, now) ∷ lines) p v =
      run_lines-IsSound lines (on_line decode hostname min_span line now p)
        (on_line-IsSound line now p v)

  -- At any time of a run each line was counted at most once as dropped, folded or malformed, Waits is
  -- the number of waits emitted, and there are at most five failed derivations and 200 characters of
  -- an error.
  pub summary_bounds :
      (lines : List (Bytes × ℕ)) → IsSound (run_lines decode hostname min_span lines new_processor)
  summary_bounds lines = run_lines-IsSound lines new_processor (omega arith)
