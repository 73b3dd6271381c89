-- ===== src/Logs/Nixlog/Reported/Noted.antt =====
-- Along a run of nix, what a line says failed is noted, and stays noted.
use nix_repo_base.Base.{
  ℕ, ◌+◌, ◌≡◌, refl, Bool, true, false, not, ◌&&◌, ◌||◌, Option, none, some, List, [], ◌∷◌, any,
  arith, Bool-cases, ◌⊎◌, inl, inr,
}
use nix_repo_base.Base.Bytes.{Bytes, has_prefix, is_some}
use nix_repo_base.Logs.Nixlog.{
  Text, Kind, build, substitute, wait, Activity, Open, Failure, Agg, Event, Action, start_action,
  stop_action, msg_action, result_action, other_action, at_id, drop_id,
}
use nix_repo_base.Logs.Nixlog.Fast.{decode_fields, prefix_result}
use nix_repo_base.Logs.Nixlog.Processor.{
  Processor, span_of, open_span, note_active, on_start, hold_or_fail, settle, close_span, on_stop,
  failure_of,
}
use nix_repo_base.Logs.Nixlog.Lines.{
  fold, fold_into, fold_bytes, or_id, nth_or_zero, fold_decoded, on_result, on_action, on_decoded,
  on_quick, on_line, quick, Quick, skip, quick_fold, decode_it, run_lines, counted,
}
use nix_repo_base.Logs.Nixlog.Reported.Named.{blames, IsNoted, failed-IsNoted, on_msg-IsNoted}

abbrev is_msg : Action → Bool
is_msg msg_action = true
is_msg _ = false

-- A line of the log says that the derivation failed: it does not begin like a result, and the event in it
-- is a message that blames the derivation.
abbrev pub says : (Bytes → Option Event) → Text → Bytes → Bool
says decode path line =
    not (has_prefix prefix_result line)
    && (elim (decode line) [ none ↦ false | some ev ↦ is_msg ev.action && blames path ev ])

-- Nothing but a message changes what is noted.
open_span-failed :
    (id : ℕ) (p : Processor) (r : Option Activity) → (open_span id p r).failed ≡ p.failed
unfolding open_span
open_span-failed id p none = refl
open_span-failed id p (some a) = refl

note_active-failed : (typ now : ℕ) (p : Processor) → (note_active typ now p).failed ≡ p.failed
note_active-failed typ now p = ground arith

hold_or_fail-failed :
    (o : Open) (p : Processor) (r : Option Failure) → (hold_or_fail o p r).failed ≡ p.failed
unfolding hold_or_fail
hold_or_fail-failed o p none = refl
hold_or_fail-failed o p (some f) = refl

settle-failed :
    (k : Kind) (min_span : ℕ) (o : Open) (p : Processor) → (settle k min_span o p).failed ≡ p.failed
unfolding settle
settle-failed build min_span o p = hold_or_fail-failed o p (failure_of o.act.path p.failed)
settle-failed substitute min_span o p = refl
settle-failed wait min_span o p = refl

close_span-failed :
    (min_span id now : ℕ) (p : Processor) (r : Option Open)
    → (close_span min_span id now p r).failed ≡ p.failed
unfolding close_span
close_span-failed min_span id now p none = refl
close_span-failed min_span id now p (some o) =
    settle-failed o.act.kind min_span (record o { act = record o.act { end_at = now } })
      (record p { active = drop_id id p.active })

fold_bytes-failed :
    (id done : ℕ) (p : Processor) (r : Option Open) → (fold_bytes id done p r).failed ≡ p.failed
unfolding fold_bytes
fold_bytes-failed id done p none = refl
fold_bytes-failed id done p (some o) = ground arith

fold_into-failed :
    (id : ℕ) (f : List ℕ) (p : Processor) (r : Option Agg) → (fold_into id f p r).failed ≡ p.failed
unfolding fold_into
fold_into-failed id f p (some a) = refl
fold_into-failed id f p none =
    fold_bytes-failed (or_id id (at_id id p.copies)) (nth_or_zero 0 f) p
      (at_id (or_id id (at_id id p.copies)) p.active)

fold-failed : (id : ℕ) (f : List ℕ) (p : Processor) → (fold id f p).failed ≡ p.failed
unfolding fold
fold-failed id f p = fold_into-failed id f p (at_id id p.aggs)

fold_decoded-failed :
    (id : ℕ) (p : Processor) (r : Option (List ℕ)) → (fold_decoded id p r).failed ≡ p.failed
unfolding fold_decoded
fold_decoded-failed id p none = refl
fold_decoded-failed id p (some f) = fold-failed id f p

on_result-failed : (ev : Event) (p : Processor) → (on_result ev p).failed ≡ p.failed
unfolding on_result
on_result-failed ev p = ground (arith, fold_decoded-failed ev.id p (decode_fields ev.fields))

module _ (decode : Bytes → Option Event) (hostname : Text → Option Text) (min_span : ℕ)
    (path : Text) where
  on_start-failed :
      (ev : Event) (now : ℕ) (p : Processor) → (on_start hostname ev now p).failed ≡ p.failed
  unfolding on_start
  on_start-failed ev now p =
      let q = note_active ev.typ now p in
      ground
        (arith, open_span-failed ev.id q (span_of hostname ev now), note_active-failed ev.typ now p)

  on_action-IsNoted :
      (a : Action) (ev : Event) (now : ℕ) (p : Processor)
      → (is_msg a && blames path ev) || is_some (failure_of path p.failed) ≡ true
      → IsNoted path (on_action decode hostname min_span a ev now p)
  unfolding on_action on_stop
  on_action-IsNoted start_action ev now p h =
      failed-IsNoted path p (on_start hostname ev now p) (on_start-failed ev now p) h
  on_action-IsNoted stop_action ev now p h =
      let q = record p { copies = drop_id ev.id p.copies } in
      failed-IsNoted path p (close_span min_span ev.id now q (at_id ev.id p.active))
        (close_span-failed min_span ev.id now q (at_id ev.id p.active)) h
  on_action-IsNoted msg_action ev now p h = on_msg-IsNoted path ev now p h
  on_action-IsNoted result_action ev now p h =
      failed-IsNoted path p (on_result ev p) (on_result-failed ev p) h
  on_action-IsNoted other_action ev now p h = h

  abbrev in_event : Option Event → Bool
  in_event r = elim r [ none ↦ false | some ev ↦ is_msg ev.action && blames path ev ]

  on_decoded-IsNoted :
      (now : ℕ) (p : Processor) (r : Option Event)
      → in_event r || is_some (failure_of path p.failed) ≡ true
      → IsNoted path (on_decoded decode hostname min_span r now p)
  unfolding on_decoded
  on_decoded-IsNoted now p none h = h
  on_decoded-IsNoted now p (some ev) h = on_action-IsNoted ev.action ev now p h

  on_quick-IsNoted :
      (k : Quick) (line : Bytes) (now : ℕ) (p : Processor)
      → in_event (decode line) || is_some (failure_of path p.failed) ≡ true
      → (k ≡ decode_it) ⊎ IsNoted path p
      → IsNoted path (on_quick decode hostname min_span k line now p)
  unfolding on_quick
  on_quick-IsNoted decode_it line now p h r = on_decoded-IsNoted now p (decode line) h
  on_quick-IsNoted skip line now p h (inl e) = cc
  on_quick-IsNoted skip line now p h (inr known) = known
  on_quick-IsNoted (quick_fold id f) line now p h (inl e) = cc
  on_quick-IsNoted (quick_fold id f) line now p h (inr known) =
      failed-IsNoted path p (fold id f p) (fold-failed id f p) known

  quick_message :
      (line : Bytes) (p : Processor)
      → has_prefix prefix_result line ≡ false
      → quick line p ≡ decode_it
  unfolding quick
  quick_message line p no_result = ground arith

  on_line-IsNoted :
      (line : Bytes) (now : ℕ) (p : Processor)
      → says decode path line || is_some (failure_of path p.failed) ≡ true
      → IsNoted path (on_line decode hostname min_span line now p)
  unfolding on_line
  on_line-IsNoted line now p h =
      let q = counted (λ s. record s { lines = s.lines + 1 }) p in
      elim (Bool-cases (is_some (failure_of path p.failed))) [
        | inl known ↦ on_quick-IsNoted (quick line q) line now q (ground (arith, known)) (inr known)
        | inr new ↦
            let said : says decode path line ≡ true = ground (arith, h, new) in
            on_quick-IsNoted (quick line q) line now q (ground (arith, said))
              (inl (quick_message line q (ground (arith, said))))
      ]

  pub run_lines-IsNoted :
      (lines : List (Bytes × ℕ)) (p : Processor)
      → any (λ e. says decode path e.0) lines || is_some (failure_of path p.failed) ≡ true
      → IsNoted path (run_lines decode hostname min_span lines p)
  unfolding run_lines
  run_lines-IsNoted [] p h = h
  run_lines-IsNoted ((line, now) ∷ lines) p h =
      let q = on_line decode hostname min_span line now p in
      run_lines-IsNoted lines q
        (elim (Bool-cases (says decode path line || is_some (failure_of path p.failed))) [
          | inl here ↦ ground (arith, on_line-IsNoted line now p here)
          | inr later ↦ ground (arith, later, h)
        ])
