-- ===== src/Logs/Nixlog/Messages.antt =====
-- What the processor of nixlog.go does with a message: failures, busy databases and plans.
use nix_repo_base.Base.{
  ℕ, ◌+◌, Bool, true, false, not, ◌&&◌, Option, none, some, List, [], ◌∷◌, ◌++◌, length, ltb, ◌==◌,
  if◌then◌else◌, any,
}
use nix_repo_base.Base.Bytes.{is_some, ascii, bytes_eq, has_prefix, is_nil}
use nix_repo_base.Base.Regex.{matches, submatch}
use nix_repo_base.Logs.Nixlog.{
  Text, build, ErrorType, hash_mismatch, eval_error, signal, other_error, Activity, Failure, Open,
  Event, max_failed_drvs,
}
use nix_repo_base.Logs.Nixlog.Text.{
  re_cannot_build, re_reason, re_hash_mismatch, re_specified, re_interrupted, re_sqlite_busy,
  re_drv_path, re_plan_build, re_plan_fetch, strip_ansi, trim_space, clean_error, contains,
  reason_type, is_placeholder_hash, count_or_one, store_path_name,
}
use nix_repo_base.Logs.Nixlog.Processor.{Processor, kind_eq, failure_of, emit, mark_failed, started}

abbrev pub note_kind : ErrorType → Processor → Processor
note_kind k p = record p { sum = record p.sum { kinds = k ∷ p.sum.kinds } }

abbrev pub skipping : Open → Option (Open × List Open) → Option (Open × List Open)
skipping h none = none
skipping h (some (g, gs)) = some (g, h ∷ gs)

-- The first held activity of this path, and the others.
unfoldable pub take_held : Text → List Open → Option (Open × List Open)
take_held path [] = none
take_held path (h ∷ hs) =
    let rest = take_held path hs in
    if bytes_eq h.act.path path then some (h, hs) else skipping h rest

abbrev pub is_building : Text → List (ℕ × Open) → Bool
is_building path m = any (λ e. kind_eq e.1.act.kind build && bytes_eq e.1.act.path path) m

-- An activity known from a message alone.
abbrev pub never_started : Text → ℕ → Activity
never_started path now = record (started build path [] now) { end_at = now; instant = true }

-- What a message says is noted once for each derivation.
abbrev pub note_failure : Text → Failure → Processor → Processor
note_failure path f p = record p {
  failed = (path, f) ∷ p.failed;
  sum = record p.sum {
    kinds = f.err_type ∷ p.sum.kinds;
    failed_drvs =
        if ltb (length p.sum.failed_drvs) max_failed_drvs
        then p.sum.failed_drvs ++ store_path_name path ∷ []
        else p.sum.failed_drvs;
  };
}

unfoldable pub blame : Text → Failure → ℕ → Processor → Option (Open × List Open) → Processor
blame path f now p (some (h, hs)) = emit (mark_failed f h.act) (record p { held = hs })
blame path f now p none =
    if is_building path p.active then p else emit (mark_failed f (never_started path now)) p

unfoldable pub on_failure : Text → Failure → ℕ → Processor → Processor
unfolding take_held blame
on_failure path f now p =
    if is_some (failure_of path p.failed)
    then p
    else blame path f now (note_failure path f p) (take_held path p.held)

abbrev pub reason_of : Text → Text
reason_of said = elim (submatch re_reason said) [ none ↦ ascii "build failed" | some g ↦ g 1 ]

-- `said` is the raw message if there is one, `clean` the message.
abbrev pub is_error : Text → Bool
is_error clean = has_prefix (ascii "error:") clean

abbrev pub note_first : Text → Processor → Processor
note_first clean p =
    if is_error clean && is_nil p.sum.first_error
    then record p { sum = record p.sum { first_error = clean_error clean } }
    else p

abbrev pub error_kind : Text → ErrorType
error_kind clean =
    if matches re_interrupted clean
    then signal
    else if matches re_drv_path clean
    then other_error
    else eval_error

abbrev pub has_placeholder : Option (ℕ → Text) → Bool
has_placeholder none = false
has_placeholder (some sp) = is_placeholder_hash (sp 1)

abbrev pub build_failure : Text → Failure
build_failure said = record {
  reason = reason_of said;
  err_type = reason_type (reason_of said);
  placeholder = false;
}

abbrev pub mismatch_failure : Text → Failure
mismatch_failure said = record {
  reason = ascii "hash mismatch in fixed-output derivation";
  err_type = hash_mismatch;
  placeholder = has_placeholder (submatch re_specified said);
}

unfoldable pub on_mismatch : Text → Text → ℕ → Processor → Option (ℕ → Text) → Processor
unfolding on_failure
on_mismatch said clean now p (some g) = on_failure (g 1) (mismatch_failure said) now p
on_mismatch said clean now p none =
    if not (is_error clean) then p else note_kind (error_kind clean) p

unfoldable pub on_cannot_build : Text → Text → ℕ → Processor → Option (ℕ → Text) → Processor
unfolding on_mismatch
on_cannot_build said clean now p (some g) = on_failure (g 1) (build_failure said) now p
on_cannot_build said clean now p none =
    on_mismatch said clean now p (submatch re_hash_mismatch said)

unfoldable pub on_error : Text → Text → ℕ → Processor → Processor
unfolding on_cannot_build
on_error said clean now p =
    on_cannot_build said clean now (note_first clean p) (submatch re_cannot_build said)

abbrev pub raw_or_msg : Text → Text → Text
raw_or_msg [] msg = msg
raw_or_msg (c ∷ raw) msg = c ∷ raw

abbrev pub note_busy : (ℕ → Text) → Processor → Processor
note_busy g p =
    if bytes_eq (g 1) (ascii "warning")
    then record p { sum = record p.sum { db_busy = p.sum.db_busy + 1 } }
    else if contains (ascii "eval-cache") (g 2)
    then record p { sum = record p.sum { eval_cache_busy = p.sum.eval_cache_busy + 1 } }
    else p

-- What the patterns for builds and for fetches found.
abbrev pub note_plan : Processor → Option (ℕ → Text) → Option (ℕ → Text) → Processor
note_plan p (some g) r = record p {
  sum = record p.sum { plan_build = p.sum.plan_build + count_or_one (g 1) };
}
note_plan p none (some g) = record p {
  sum = record p.sum { plan_fetch = p.sum.plan_fetch + count_or_one (g 1) };
}
note_plan p none none = p

unfoldable pub on_not_busy : ℕ → Text → Text → ℕ → Processor → Processor
unfolding on_error
on_not_busy level said clean now p =
    if level == 0
    then on_error said clean now p
    else note_plan p (submatch re_plan_build said) (submatch re_plan_fetch said)

unfoldable pub or_busy : ℕ → Text → Text → ℕ → Processor → Option (ℕ → Text) → Processor
unfolding on_not_busy
or_busy level said clean now p (some g) = note_busy g p
or_busy level said clean now p none = on_not_busy level said clean now p

unfoldable pub on_msg : Event → ℕ → Processor → Processor
unfolding or_busy
on_msg ev now p =
    let said = strip_ansi (raw_or_msg ev.raw_msg ev.msg) in
    let clean = trim_space (strip_ansi ev.msg) in
    or_busy ev.level said clean now p (submatch re_sqlite_busy clean)
