-- ===== src/Mutate/Pool/Fresh/Work.antt =====
-- The steps of a worker.
use nix_repo_base.Base.{
  ℕ, ◌+◌, ◌^◌, ◌<◌, ◌≤◌, String, ◌≡◌, refl, ◌≢◌, inl, inr, Bool, true, false, Option, none, some,
  List, [], ◌∷◌, ◌++◌, mem, get_elem?, set, total, All, All-append, All-set, All-get_elem?,
  total-get_elem?, eq_refl, leb, if◌then◌else◌, arith,
}
use nix_repo_base.Mutate.Ledger.{Line, max_line_size}
use nix_repo_base.Mutate.Ledger.Latest.{append-cases, Fits}
use nix_repo_base.Mutate.Queue.{Entry, Queue, pop, pop_front, finish}
use nix_repo_base.Mutate.Pool.{
  Worker, at_top, checked_ctx, checked_fatal, popping, stopped, running, failing, recording,
  releasing, notifying, RunResult, RunErr, no_error, other_error, err_retry, err_fatal, Pool,
  WorkInput, Refiller, reading, adding, work, work_step, work_at, to_record, put_back, dequeued,
  After, return_now, next_file, notify, after_run, after_release,
}
use nix_repo_base.Mutate.Pool.Ownership.{is_file, carries, Owned, workers-work_step}
use nix_repo_base.Mutate.Pool.Fresh.Steps.{
  Unrecorded, WorkerFresh, Noted, Noted-finish, Noted-append, pending-append, workers-append_set,
}
use nix_repo_base.Mutate.Pool.Fresh.State.{IsClean, IsFresh}

-- A step of a worker that leaves the ledger alone.
abbrev Quiet : Pool → Worker × Pool → Type 0
Quiet p (w', p') =
    (p'.ledger ≡ p.ledger)
    × All (Unrecorded p.ledger.lines) p'.queue.pending
    × WorkerFresh p.ledger.lines w'
    × Noted p.refiller p.ledger.lines p'.queue
    × (p'.refiller ≡ p.refiller)

pop_front-Quiet :
    (ls : List Line) (re : Refiller) (es : List Entry) (q : Queue)
    → All (Unrecorded ls) es
    → All (Unrecorded ls) q.pending
    → Noted re ls q
    → All (Unrecorded ls) (pop_front es q).0.pending
      × WorkerFresh ls (dequeued (pop_front es q).1)
      × Noted re ls (pop_front es q).0
unfolding pop_front dequeued
pop_front-Quiet ls re [] q h p n = (p, tt, n)
pop_front-Quiet ls (reading s) (e ∷ es) q h p n = (h.1, h.0, n)
pop_front-Quiet ls (adding s) (e ∷ es) q h p n = (h.1, h.0, n)
pop_front-Quiet ls _ (e ∷ es) q h p n = (h.1, h.0, n)

after_run-WorkerFresh :
    (ls : List Line) (e : Entry) (o : RunResult) (r : RunErr)
    → Unrecorded ls e
    → WorkerFresh ls (after_run e o r)
unfolding after_run
after_run-WorkerFresh ls e o no_error h = h
after_run-WorkerFresh ls e o other_error h = h
after_run-WorkerFresh ls e o err_retry h = tt
after_run-WorkerFresh ls e o (err_fatal m) h = h

after_release-WorkerFresh :
    (ls : List Line) (f : String) (a : After) → WorkerFresh ls (after_release f a)
unfolding after_release
after_release-WorkerFresh ls f return_now = tt
after_release-WorkerFresh ls f next_file = tt
after_release-WorkerFresh ls f notify = tt

if-WorkerFresh :
    (ls : List Line) (b : Bool) (w w' : Worker)
    → WorkerFresh ls w
    → WorkerFresh ls w'
    → WorkerFresh ls (if b then w else w')
if-WorkerFresh ls true w w' h h' = h
if-WorkerFresh ls false w w' h h' = h'

fatal-WorkerFresh :
    (ls : List Line) (o : Option String)
    → WorkerFresh ls (elim o [ none ↦ checked_fatal | some e ↦ stopped ])
fatal-WorkerFresh ls none = tt
fatal-WorkerFresh ls (some e) = tt

-- Every step of a worker but its Append leaves the ledger alone and keeps the rest.
work_step-Quiet :
    (i : WorkInput) (w : Worker) (p : Pool)
    → ((e : Entry) (r : RunResult) → w ≢ recording e r)
    → p.queue.finish_seq + 1 < 2 ^ 64
    → WorkerFresh p.ledger.lines w
    → IsFresh p
    → Quiet p (work_step i w p)
unfolding work_step pop
work_step-Quiet i at_top p q small f h =
    (refl, h.pending, if-WorkerFresh _ p.cancelled stopped checked_ctx tt tt, h.noted, refl)
work_step-Quiet i checked_ctx p q small f h =
    (refl, h.pending, fatal-WorkerFresh _ p.fatal, h.noted, refl)
work_step-Quiet i checked_fatal p q small f h =
    (refl, h.pending, if-WorkerFresh _ p.paused at_top popping tt tt, h.noted, refl)
work_step-Quiet i popping p q small f h =
    let (a, b, c) =
      pop_front-Quiet p.ledger.lines p.refiller p.queue.pending p.queue h.pending h.pending
        h.noted in
    (refl, a, b, c, refl)
work_step-Quiet i (running e) p q small f h =
    (refl, h.pending, after_run-WorkerFresh _ e i.result i.result.error f, h.noted, refl)
work_step-Quiet i (failing e m) p q small f h = (refl, h.pending, tt, h.noted, refl)
work_step-Quiet i (recording e r) p q small f h = absurd (q e r refl)
work_step-Quiet i (releasing e a) p q small f h = (
  refl,
  unfold finish in h.pending,
  after_release-WorkerFresh _ e.file a,
  Noted-finish e.file p.refiller p.ledger.lines p.queue small h.noted,
  refl,
)
work_step-Quiet i (notifying g) p q small f h = (refl, h.pending, tt, h.noted, refl)
work_step-Quiet i stopped p q small f h = (refl, h.pending, tt, h.noted, refl)

Quiet-IsFresh :
    (n : ℕ) (r : Worker × Pool) (p : Pool)
    → r.1.workers ≡ p.workers
    → Quiet p r
    → IsFresh p
    → IsFresh (put_back n r)
unfolding put_back
Quiet-IsFresh n r p ws (l, pend, w, nt, re) h = record {
  whole = rw l h.whole;
  fits = rw l h.fits;
  pending = rw l pend;
  workers = rw (l, ws) (All-set (WorkerFresh p.ledger.lines) p.workers n r.0 h.workers w);
  noted = rw (l, re) nt;
}

-- A worker that holds a file is the only one, and the file is not pending.
sole_holder :
    (n : ℕ) (e : Entry) (r : RunResult) (p : Pool)
    → get_elem? p.workers n ≡ some (recording e r)
    → Owned e.file p
    → (total (is_file e.file) p.queue.pending ≡ 0)
      × (total (carries e.file) p.workers ≤ 1)
      × (mem e.file p.queue.outstanding ≡ true)
sole_holder n e r p at own =
    ground (arith, eq_refl e.file, total-get_elem? (carries e.file) p.workers n (recording e r) at)

abbrev line_of : ℕ → Entry → RunResult → Line
line_of size e r = record { size = size; decoded = some (to_record e r) }

written-IsFresh :
    (n size : ℕ) (e : Entry) (r : RunResult) (p : Pool)
    → leb max_line_size size ≡ false
    → get_elem? p.workers n ≡ some (recording e r)
    → Owned e.file p
    → IsFresh p
    → IsFresh (record p {
      ledger = record { lines = p.ledger.lines ++ line_of size e r ∷ []; tail = none };
      workers = set p.workers n (releasing e notify);
    })
written-IsFresh n size e r p fit at own h =
    let (none_pending, one_worker, busy) = sole_holder n e r p at own in
    record {
      whole = refl;
      fits = All-append Fits p.ledger.lines (line_of size e r ∷ []) h.fits (fit, tt);
      pending =
          pending-append p.ledger.lines (line_of size e r) (to_record e r) refl p.queue.pending
            none_pending h.pending;
      workers =
          workers-append_set p.ledger.lines (line_of size e r) (to_record e r) refl p.workers n
            (recording e r) (releasing e notify) at (rw eq_refl) one_worker tt h.workers;
      noted =
          Noted-append p.refiller p.ledger.lines p.queue (line_of size e r) (to_record e r) refl
            busy h.noted;
    }

append-IsFresh :
    (n : ℕ) (i : WorkInput) (e : Entry) (r : RunResult) (p : Pool)
    → IsClean (work n i)
    → get_elem? p.workers n ≡ some (recording e r)
    → Owned e.file p
    → IsFresh p
    → IsFresh (put_back n (work_step i (recording e r) p))
unfolding put_back work_step
append-IsFresh n i e r p clean at own h =
    elim (append-cases i.io i.size (to_record e r) p.ledger clean.0 h.whole) [
      | inl same ↦ rw same (record {
        whole = h.whole;
        fits = h.fits;
        pending = h.pending;
        workers =
            All-set (WorkerFresh p.ledger.lines) p.workers n (releasing e notify) h.workers tt;
        noted = h.noted;
      })
      | inr grown ↦ rw grown (written-IsFresh n i.size e r p clean.1 at own h)
    ]

pub work_at-IsFresh :
    (n : ℕ) (i : WorkInput) (p : Pool) (o : Option Worker)
    → get_elem? p.workers n ≡ o
    → IsClean (work n i)
    → p.queue.finish_seq + 1 < 2 ^ 64
    → ((f : String) → Owned f p)
    → IsFresh p
    → IsFresh (work_at n i p o)
unfolding work_at
work_at-IsFresh n i p none at clean small own h = h
work_at-IsFresh n i p (some (recording e r)) at clean small own h =
    append-IsFresh n i e r p clean at (own e.file) h
work_at-IsFresh n i p (some w) at clean small own h =
    Quiet-IsFresh n (work_step i w p) p (workers-work_step i w p)
      (work_step-Quiet i w p (λ e r q. cc) small
        (All-get_elem? (WorkerFresh p.ledger.lines) p.workers n w h.workers at) h)
      h
