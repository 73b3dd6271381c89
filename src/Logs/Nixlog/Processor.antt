-- ===== src/Logs/Nixlog/Processor.antt =====
-- The state of the processor of nixlog.go, and what it does with a start, a stop and the end of the run.
-- `hostname` is what Hostname finds in a URL; `emitted` is what the sink was given, in order.
use nix_repo_base.Base.{
  ℕ, zero, suc, ◌+◌, ◌%◌, ◌^◌, Bool, true, false, not, ◌&&◌, ◌||◌, Option, none, some, List, [],
  ◌∷◌, ◌++◌, ltb, ◌==◌, if◌then◌else◌, any, sort_by,
}
use nix_repo_base.Base.Bytes.{ascii, bytes_eq, is_nil, is_some}
use nix_repo_base.Logs.Nixlog.{
  Text, Kind, build, substitute, wait, ErrorType, build_failed, dependency_failed, aborted,
  hash_mismatch, eval_error, signal, other_error, Activity, Agg, Failure, Open, Summary, Json, text,
  Event, type_build, type_substitute, type_build_waiter, type_copy_path, type_copy_paths,
  type_builds, at_id, put_id, drop_id,
}
use nix_repo_base.Logs.Nixlog.Text.{strip_ansi, first_quoted, store_path_name}

pub record Processor : Type 0 where
  pub active : List (ℕ × Open)
  pub held : List Open
  pub failed : List (Text × Failure)
  pub aggs : List (ℕ × Agg)
  pub copies : List (ℕ × ℕ)
  pub seq : ℕ
  pub sum : Summary
  pub emitted : List Activity

abbrev pub new_processor : Processor
new_processor = record {
  active = [];
  held = [];
  failed = [];
  aggs = [];
  copies = [];
  seq = 0;
  sum = record {
    plan_build = 0;
    plan_fetch = 0;
    builds = none;
    fetch = none;
    first_active = none;
    lines = 0;
    dropped = 0;
    folded = 0;
    malformed = 0;
    first_error = [];
    failed_drvs = [];
    eval_cache_busy = 0;
    db_busy = 0;
    waits = 0;
    kinds = [];
  };
  emitted = [];
}

abbrev pub kind_eq : Kind → Kind → Bool
kind_eq build build = true
kind_eq substitute substitute = true
kind_eq wait wait = true
kind_eq _ _ = false

abbrev pub error_number : ErrorType → ℕ
error_number build_failed = 0
error_number dependency_failed = 1
error_number aborted = 2
error_number hash_mismatch = 3
error_number eval_error = 4
error_number signal = 5
error_number other_error = 6

abbrev pub has_kind : ErrorType → List ErrorType → Bool
has_kind k ks = any (λ j. error_number j == error_number k) ks

unfoldable pub failure_of : Text → List (Text × Failure) → Option Failure
failure_of path [] = none
failure_of path ((p, f) ∷ m) = if bytes_eq p path then some f else failure_of path m

abbrev pub emit : Activity → Processor → Processor
emit a p = record p {
  sum = record p.sum { waits = if kind_eq a.kind wait then p.sum.waits + 1 else p.sum.waits };
  emitted = p.emitted ++ a ∷ [];
}

abbrev pub mark_failed : Failure → Activity → Activity
mark_failed f a = record a {
  failed = some f.err_type;
  reason = f.reason;
  placeholder = f.placeholder;
}

-- An activity that starts now.
abbrev pub started : Kind → Text → Text → ℕ → Activity
started kind path server now = record {
  kind = kind;
  name = store_path_name path;
  path = path;
  server = server;
  start = now;
  end_at = 0;
  failed = none;
  reason = [];
  no_span = false;
  instant = false;
  bytes = none;
  placeholder = false;
}

abbrev field_text : ℕ → List Json → Text
field_text i [] = []
field_text zero (text s ∷ js) = s
field_text zero (_ ∷ js) = []
field_text (suc i) (j ∷ js) = field_text i js

abbrev pub is_open_substitute : ℕ → Processor → Bool
is_open_substitute id p = elim (at_id id p.active) [
  | none ↦ false
  | some o ↦ kind_eq o.act.kind substitute
]

unfoldable pub open_span : ℕ → Processor → Option Activity → Processor
open_span id p none = p
open_span id p (some a) =
    let order = (p.seq + 1) % 2 ^ 64 in
    record p { seq = order; active = put_id id (record { act = a; order = order }) p.active }

abbrev pub or_quoted : Text → Text → Text
or_quoted [] described = first_quoted (strip_ansi described)
or_quoted (c ∷ s) described = c ∷ s

-- Of the first start whose type is known.
abbrev pub note_active : ℕ → ℕ → Processor → Processor
note_active typ now p =
    if not (typ == 0) && not (is_some p.sum.first_active)
    then record p { sum = record p.sum { first_active = some now } }
    else p

module _ (hostname : Text → Option Text) where
  abbrev pub host : Text → Text
  host [] = []
  host (c ∷ raw) = elim (hostname (c ∷ raw)) [
    | none ↦ c ∷ raw
    | some h ↦ if is_nil h then c ∷ raw else h
  ]

  -- The activity that becomes a span, if the start event is of one.
  abbrev pub span_of : Event → ℕ → Option Activity
  span_of ev now =
      if ev.typ == type_build
      then some (started build (or_quoted (field_text 0 ev.fields) ev.text) [] now)
      else if ev.typ == type_substitute
      then some (started substitute (field_text 0 ev.fields) (host (field_text 1 ev.fields)) now)
      else if ev.typ == type_build_waiter
      then some (started wait (first_quoted (strip_ansi ev.text)) [] now)
      else none

  unfoldable pub on_start : Event → ℕ → Processor → Processor
  unfolding open_span
  on_start ev now q =
      let p = note_active ev.typ now q in
      if ev.typ == type_builds || ev.typ == type_copy_paths
      then record p {
        aggs =
            put_id ev.id
              (record {
                typ = ev.typ;
                nested = is_some (at_id ev.parent p.aggs);
                seen = false;
                last = record { done = 0; expected = 0; failed = 0 };
              })
              p.aggs;
      }
      else if ev.typ == type_copy_path
      then if is_open_substitute ev.parent p
        then record p { copies = put_id ev.id ev.parent p.copies }
        else p
      else open_span ev.id p (span_of ev now)

-- A build that has stopped waits for a message, unless one has named it.
unfoldable pub hold_or_fail : Open → Processor → Option Failure → Processor
hold_or_fail o p (some f) = emit (mark_failed f o.act) p
hold_or_fail o p none = record p { held = p.held ++ o ∷ [] }

abbrev pub short : ℕ → Activity → Activity
short min_span a = record a { no_span = ltb 0 min_span && ltb a.end_at (a.start + min_span) }

-- What becomes of an activity that has stopped.
unfoldable pub settle : Kind → ℕ → Open → Processor → Processor
unfolding hold_or_fail
settle build min_span o p = hold_or_fail o p (failure_of o.act.path p.failed)
settle substitute min_span o p = emit (short min_span o.act) p
settle wait min_span o p = emit o.act p

unfoldable pub close_span : ℕ → ℕ → ℕ → Processor → Option Open → Processor
unfolding settle
close_span min_span id now p none = p
close_span min_span id now p (some o) =
    settle o.act.kind min_span (record o { act = record o.act { end_at = now } })
      (record p { active = drop_id id p.active })

unfoldable pub on_stop : ℕ → ℕ → ℕ → Processor → Processor
unfolding close_span
on_stop min_span id now p =
    close_span min_span id now (record p { copies = drop_id id p.copies }) (at_id id p.active)

unfoldable pub emit_all : List Activity → Processor → Processor
emit_all [] p = p
emit_all (a ∷ as') p = emit_all as' (emit a p)

unfoldable pub acts : List Open → List Activity
acts [] = []
acts (o ∷ os) = o.act ∷ acts os

unfoldable pub aborted_acts : ℕ → List Open → List Activity
aborted_acts now [] = []
aborted_acts now (o ∷ os) =
    record o.act {
      end_at = now;
      failed = some aborted;
      reason = ascii "nix exited before the activity stopped";
    }
    ∷ aborted_acts now os

unfoldable pub values : List (ℕ × Open) → List Open
values [] = []
values ((id, o) ∷ m) = o ∷ values m

unfoldable pub finish : ℕ → Processor → Processor
unfolding emit_all acts aborted_acts values
finish now p =
    let q = emit_all (acts p.held) p in
    let rest = sort_by (λ a b. ltb a.order b.order) (values p.active) in
    record (emit_all (aborted_acts now rest) (record q { held = [] })) { active = [] }
