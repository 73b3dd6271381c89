-- ===== src/Logs/Nixlog/Lines.antt =====
-- What the processor of nixlog.go does with a progress value and with a line. `decode` is the JSON decoder.
pub mod Shortcut
pub mod Invariant
use nix_repo_base.Base.{
  ℕ, zero, suc, ◌+◌, Bool, true, not, ◌&&◌, ◌||◌, Option, none, some, List, [], ◌∷◌, ◌==◌,
  if◌then◌else◌,
}
use nix_repo_base.Base.Bytes.{Bytes, has_prefix, trim_suffix, is_some}
use mathlib.Core.List.{reverse}
use nix_repo_base.Logs.Nixlog.{
  Action, Progress, Agg, Open, put_id, Text, substitute, Summary, start_action, stop_action,
  msg_action, result_action, other_action, Event, at_id, put_id,
}
use nix_repo_base.Logs.Nixlog.Fast.{
  prefix_result, suffix_101, suffix_105, suffix_id, fast_fields, decode_fields,
}
use nix_repo_base.Logs.Nixlog.Processor.{Processor, kind_eq, on_start, on_stop, is_open_substitute}
use nix_repo_base.Logs.Nixlog.Messages.{on_msg}

unfoldable pub tracked : ℕ → Processor → Bool
tracked id p = is_some (at_id id p.aggs) || is_open_substitute id p || is_some (at_id id p.copies)

abbrev pub nth_or_zero : ℕ → List ℕ → ℕ
nth_or_zero i [] = 0
nth_or_zero zero (n ∷ ns) = n
nth_or_zero (suc i) (n ∷ ns) = nth_or_zero i ns

unfoldable pub fold_bytes : ℕ → ℕ → Processor → Option Open → Processor
fold_bytes id done p none = p
fold_bytes id done p (some o) =
    if kind_eq o.act.kind substitute
    then record p {
      active = put_id id (record o { act = record o.act { bytes = some done } }) p.active;
    }
    else p

abbrev pub last_of : List ℕ → Progress
last_of f = record { done = nth_or_zero 0 f; expected = nth_or_zero 1 f; failed = nth_or_zero 3 f }

abbrev pub or_id : ℕ → Option ℕ → ℕ
or_id id none = id
or_id id (some sid) = sid

unfoldable pub fold_into : ℕ → List ℕ → Processor → Option Agg → Processor
unfolding fold_bytes
fold_into id f p (some a) = record p {
  aggs = put_id id (record a { seen = true; last = last_of f }) p.aggs;
}
fold_into id f p none =
    let sid = or_id id (at_id id p.copies) in
    fold_bytes sid (nth_or_zero 0 f) p (at_id sid p.active)

unfoldable pub fold : ℕ → List ℕ → Processor → Processor
unfolding fold_into
fold id f p = fold_into id f p (at_id id p.aggs)

abbrev pub counted : (Summary → Summary) → Processor → Processor
counted f p = record p { sum = f p.sum }

abbrev pub one_dropped : Processor → Processor
one_dropped = counted (λ s. record s { dropped = s.dropped + 1 })

abbrev pub one_folded : Processor → Processor
one_folded = counted (λ s. record s { folded = s.folded + 1 })

unfoldable pub fold_decoded : ℕ → Processor → Option (List ℕ) → Processor
unfolding fold
fold_decoded id p none = p
fold_decoded id p (some f) = one_folded (fold id f p)

unfoldable pub on_result : Event → Processor → Processor
unfolding fold_decoded tracked
on_result ev p =
    if ev.typ == 105 && tracked ev.id p then fold_decoded ev.id p (decode_fields ev.fields) else p

abbrev has_suffix : Bytes → Bytes → Bool
has_suffix s line = has_prefix (reverse s) (reverse line)

-- What the byte checks decide about a line, without a decoder: it is skipped, its fields are folded,
-- or it is decoded.
pub data Quick : Type 0 where
  skip : Quick
  quick_fold : ℕ → List ℕ → Quick
  decode_it : Quick

abbrev pub or_decode : ℕ → Option (List ℕ) → Quick
or_decode id none = decode_it
or_decode id (some f) = quick_fold id f

unfoldable pub quick_id : Bytes → Processor → Option ℕ → Quick
unfolding tracked
quick_id line p none = decode_it
quick_id line p (some id) = if not (tracked id p) then skip else or_decode id (fast_fields line)

unfoldable pub quick : Bytes → Processor → Quick
unfolding quick_id
quick line p =
    if not (has_prefix prefix_result line)
    then decode_it
    else if has_suffix suffix_101 line
    then skip
    else if not (has_suffix suffix_105 line)
    then decode_it
    else quick_id line p (suffix_id (trim_suffix suffix_105 line))

module _ (decode : Bytes → Option Event) (hostname : Text → Option Text) (min_span : ℕ) where
  unfoldable pub on_action : Action → Event → ℕ → Processor → Processor
  unfolding on_start on_stop on_msg on_result
  on_action start_action ev now p = on_start hostname ev now p
  on_action stop_action ev now p = on_stop min_span ev.id now p
  on_action msg_action ev now p = on_msg ev now p
  on_action result_action ev now p = on_result ev p
  on_action other_action ev now p = p

  unfoldable pub on_decoded : Option Event → ℕ → Processor → Processor
  unfolding on_action
  on_decoded none now p = counted (λ s. record s { malformed = s.malformed + 1 }) p
  on_decoded (some ev) now p = on_action ev.action ev now p

  unfoldable pub on_quick : Quick → Bytes → ℕ → Processor → Processor
  unfolding on_decoded
  on_quick skip line now p = one_dropped p
  on_quick (quick_fold id f) line now p = one_folded (fold id f p)
  on_quick decode_it line now p = on_decoded (decode line) now p

  unfoldable pub on_line : Bytes → ℕ → Processor → Processor
  unfolding on_quick
  on_line line now q =
      let p = counted (λ s. record s { lines = s.lines + 1 }) q in
      on_quick (quick line p) line now p

  unfoldable pub run_lines : List (Bytes × ℕ) → Processor → Processor
  unfolding on_line
  run_lines [] p = p
  run_lines ((line, now) ∷ lines) p = run_lines lines (on_line line now p)
