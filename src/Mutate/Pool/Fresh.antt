-- ===== src/Mutate/Pool/Fresh.antt =====
-- No file is queued or run at a package hash that the ledger already has for it.
pub mod Steps
pub mod State
mod Work
mod Refill
use nix_repo_base.Base.{
  ℕ, zero, suc, ◌+◌, ◌^◌, ◌<◌, ◌≤◌, String, ◌≡◌, refl, ◌≢◌, ◌⊎◌, ◌||◌, ltb, inl, inr, ap, ◌∙◌, Bool,
  true, false, Option, none, some, List, [], ◌∷◌, ◌++◌, Dict, lookup, mem, get_elem?, set, length,
  total, All, All-append, All-set, All-get_elem?, All-replicate, total-set, total-get_elem?, str_eq,
  eq_iff, eq_refl, leb, if◌then◌else◌, arith, Bool-cases,
}
use mathlib.Core.List.{append-nil}
use nix_repo_base.Mutate.Ledger.{
  Record, Line, LedgerFile, AppendIo, mkdir_fails, open_fails, encode_fails, short_write, written,
  max_line_size, append, replay, scan, tail_lines, recorded_at,
}
use nix_repo_base.Mutate.Ledger.Latest.{latest, append-cases, Fits, scan-some, lookup-replay}
use nix_repo_base.Mutate.Queue.{
  Entry, Package, Queue, new_queue, pop, pop_front, finish, set_project_filter, record_empty_refill,
  refill_file, settle, or_zero, skips, needs_refill, retry_backoff_elapsed,
}
use nix_repo_base.Mutate.Pool.{
  Worker, at_top, checked_ctx, checked_fatal, popping, stopped, running, failing, recording,
  releasing, notifying, RunResult, RunErr, no_error, other_error, err_retry, err_fatal, Pool,
  WorkInput, RefillInput, Event, Refiller, resting, reading, adding, Pass, work, refill, work_step,
  work_at, add_step, refill_step, step, run, start, to_record, discovered, must_back_off, or_empty,
  backing_off, discovering, pause, resume, cancel, filter_projects, scan_package, put_back,
  dequeued, After, return_now, next_file, notify, after_run, after_release,
}
use nix_repo_base.Mutate.Pool.Ownership.{
  is_file, carries, Owned, step-Owned, start-Owned, run-Owned, workers-work_step,
}
use Steps.{Unrecorded, WorkerFresh, Noted-same}
use State.{IsClean, Fresh, IsFresh}
use Work.{work_at-IsFresh}
use Refill.{refill_step-IsFresh}

-- Every step keeps the invariant, short of 2 ^ 64 releases.
pub step-IsFresh :
    (e : Event) (p : Pool)
    → IsClean e
    → p.queue.finish_seq + 1 < 2 ^ 64
    → ((f : String) → Owned f p)
    → IsFresh p
    → IsFresh (step e p)
unfolding step
step-IsFresh (work n i) p c small own h =
    work_at-IsFresh n i p (get_elem? p.workers n) refl c small own h
step-IsFresh (refill i) p c small own h = refill_step-IsFresh i p.refiller p refl c h
step-IsFresh (filter_projects d) p c small own h =
    unfold set_project_filter in
    record {
      whole = h.whole;
      fits = h.fits;
      pending = h.pending;
      workers = h.workers;
      noted = Noted-same p.refiller p.ledger.lines p.queue d h.noted;
    }
step-IsFresh pause p c small own h = h
step-IsFresh resume p c small own h = h
step-IsFresh cancel p c small own h = h

seq-work_step :
    (i : WorkInput) (w : Worker) (p : Pool)
    → (work_step i w p).1.queue.finish_seq ≤ p.queue.finish_seq + 1
unfolding work_step pop pop_front finish
seq-work_step i at_top p = omega arith
seq-work_step i popping p = ground arith
seq-work_step i (releasing e a) p = omega arith
seq-work_step i _ p = omega arith

seq-add_step :
    (i : RefillInput) (fs : List String) (pkgs : List Package) (s : Pass) (p : Pool)
    → (add_step i fs pkgs s p).queue.finish_seq ≡ p.queue.finish_seq
unfolding add_step settle refill_file
seq-add_step i (f ∷ fs) pkgs s p = ground arith
seq-add_step i [] (pkg ∷ rest) s p = refl
seq-add_step i [] [] s p = refl

seq-refill_step :
    (i : RefillInput) (r : Refiller) (p : Pool)
    → (refill_step i r p).queue.finish_seq ≡ p.queue.finish_seq
unfolding refill_step record_empty_refill
seq-refill_step i (adding s) p = seq-add_step i s.files s.packages s p
seq-refill_step i resting p = refl
seq-refill_step i _ p = refl

seq-work_at :
    (n : ℕ) (i : WorkInput) (p : Pool) (o : Option Worker)
    → (work_at n i p o).queue.finish_seq ≤ p.queue.finish_seq + 1
unfolding work_at put_back
seq-work_at n i p none = omega arith
seq-work_at n i p (some w) = seq-work_step i w p

-- A step releases one file at most.
seq-step : (e : Event) (p : Pool) → (step e p).queue.finish_seq ≤ p.queue.finish_seq + 1
unfolding step set_project_filter
seq-step (work n i) p = seq-work_at n i p (get_elem? p.workers n)
seq-step (refill i) p = omega (arith, seq-refill_step i p.refiller p)
seq-step _ p = omega arith

run-IsFresh :
    (es : List Event) (p : Pool)
    → All IsClean es
    → p.queue.finish_seq + length es < 2 ^ 64
    → ((f : String) → Owned f p)
    → IsFresh p
    → IsFresh (run es p)
unfolding run
run-IsFresh [] p c small own h = h
run-IsFresh (e ∷ es) p c small own h =
    run-IsFresh es (step e p) c.1 (omega (arith, seq-step e p)) (λ f. step-Owned f e p (own f))
      (step-IsFresh e p c.0 (omega arith) own h)

start-IsFresh :
    (n low high backoff : ℕ) (notifies : Bool) (file : LedgerFile)
    → file.tail ≡ none
    → All Fits file.lines
    → IsFresh (start n notifies (new_queue low high backoff) file)
unfolding start new_queue
start-IsFresh n low high backoff notifies file t f = record {
  whole = t;
  fits = f;
  pending = tt;
  workers = All-replicate (WorkerFresh file.lines) n at_top tt;
  noted = tt;
}

-- From a ledger with whole lines that fit the scanner, along any schedule of fewer than 2 ^ 64 steps
-- at which no write is torn, no line is too long and the ledger opens: no entry is pending, and none
-- is held by a worker that has not yet recorded it, whose package hash is the one that the ledger's
-- last record of its file has.
pub no_repeat :
    (n low high backoff : ℕ) (notifies : Bool) (file : LedgerFile) (es : List Event)
    → file.tail ≡ none
    → All Fits file.lines
    → All IsClean es
    → length es < 2 ^ 64
    → let p = run es (start n notifies (new_queue low high backoff) file) in
      All (Unrecorded p.ledger.lines) p.queue.pending × All (WorkerFresh p.ledger.lines) p.workers
no_repeat n low high backoff notifies file es t f c small =
    let begin = start n notifies (new_queue low high backoff) file in
    let h =
      run-IsFresh es begin c (unfold start new_queue in omega arith)
        (λ g. start-Owned g n low high backoff notifies file)
        (start-IsFresh n low high backoff notifies file t f) in
    (h.pending, h.workers)
