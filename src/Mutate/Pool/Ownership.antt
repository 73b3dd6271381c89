-- ===== src/Mutate/Pool/Ownership.antt =====
-- Who holds a file: the queue's pending list or one worker, and never two of them.
use nix_repo_base.Base.{
  ℕ, ◌+◌, ◌≤◌, String, ◌≡◌, refl, ap, Bool, Option, none, some, List, [], ◌∷◌, Dict, mem,
  mem-delete, get_elem?, total, total-append, total-set, total-get_elem?, total-replicate, one_if,
  str_eq, eq_iff, if◌then◌else◌, arith,
}
use nix_repo_base.Mutate.Ledger.{Record, LedgerFile}
use nix_repo_base.Mutate.Queue.{
  Entry, Package, Queue, new_queue, pop, finish, set_project_filter, record_empty_refill,
  refill_file, settle,
}
use nix_repo_base.Mutate.Pool.{
  Worker, at_top, running, failing, recording, releasing, notifying, Pool, WorkInput, RefillInput,
  Event, Refiller, resting, adding, work, refill, work_step, work_at, add_step, refill_step, step,
  run, start, Pass,
}

abbrev pub is_file : String → Entry → ℕ
is_file f e = if str_eq e.file f then 1 else 0

-- The file that a worker has popped and has not finished.
abbrev pub carries : String → Worker → ℕ
carries f (running e) = is_file f e
carries f (failing e m) = is_file f e
carries f (recording e r) = is_file f e
carries f (releasing e a) = is_file f e
carries f _ = 0

-- The file is in as many places as the outstanding set says.
abbrev pub Owned : String → Pool → Type 0
Owned f p =
    total (is_file f) p.queue.pending + total (carries f) p.workers
    ≡ one_if (mem f p.queue.outstanding)

work_step-Owned :
    (f : String) (i : WorkInput) (w : Worker) (p : Pool) (t : ℕ)
    → total (is_file f) p.queue.pending + t ≡ one_if (mem f p.queue.outstanding)
    → carries f w ≤ t
    → let (w', p') = work_step i w p in
      total (is_file f) p'.queue.pending + (t + carries f w')
      ≡ one_if (mem f p'.queue.outstanding) + carries f w
unfolding work_step pop finish
work_step-Owned f i at_top p t h le = ground arith
work_step-Owned f i (releasing e a) p t h le =
    ground (arith, mem-delete e.file f p.queue.outstanding)
work_step-Owned f i _ p t h le = ground arith

pub workers-work_step :
    (i : WorkInput) (w : Worker) (p : Pool) → (work_step i w p).1.workers ≡ p.workers
unfolding work_step
workers-work_step i at_top p = refl
workers-work_step i (notifying f) p = ground arith
workers-work_step i _ p = refl

work_at-Owned :
    (f : String) (n : ℕ) (i : WorkInput) (p : Pool) (o : Option Worker)
    → get_elem? p.workers n ≡ o
    → Owned f p
    → Owned f (work_at n i p o)
unfolding work_at
work_at-Owned f n i p none e h = h
work_at-Owned f n i p (some w) e h = omega (
  arith,
  work_step-Owned f i w p (total (carries f) p.workers) h
      (total-get_elem? (carries f) p.workers n w e),
  total-set (carries f) (work_step i w p).1.workers n w (work_step i w p).0
      (rw workers-work_step e),
  ap (total (carries f)) (workers-work_step i w p),
)

refill_file-Owned :
    (f g : String) (records : Dict Record) (s : ℕ) (hash : String) (q : Queue) (n t : ℕ)
    → total (is_file f) q.pending + t ≡ one_if (mem f q.outstanding)
    → let q' = (refill_file records s hash g (q, n)).0 in
      total (is_file f) q'.pending + t ≡ one_if (mem f q'.outstanding)
unfolding refill_file mem
refill_file-Owned f g records s hash q n t h = ground (
  arith,
  eq_iff g f,
  total-append (is_file f) q.pending (record { file = g; pkg_hash = hash } ∷ []),
)

add_step-Owned :
    (f : String) (i : RefillInput) (fs : List String) (pkgs : List Package) (s : Pass) (p : Pool)
    → Owned f p
    → Owned f (add_step i fs pkgs s p)
unfolding add_step
add_step-Owned f i (g ∷ fs) pkgs s p h =
    refill_file-Owned f g s.records s.snapshot_seq s.hash p.queue s.added
      (total (carries f) p.workers) h
add_step-Owned f i [] (pkg ∷ rest) s p h = h
add_step-Owned f i [] [] s p h = unfold settle in ground arith

refill_step-Owned :
    (f : String) (i : RefillInput) (r : Refiller) (p : Pool)
    → Owned f p
    → Owned f (refill_step i r p)
unfolding refill_step record_empty_refill
refill_step-Owned f i resting p h = h
refill_step-Owned f i (adding s) p h = add_step-Owned f i s.files s.packages s p h
refill_step-Owned f i _ p h = h

pub step-Owned : (f : String) (e : Event) (p : Pool) → Owned f p → Owned f (step e p)
unfolding step set_project_filter
step-Owned f (work n i) p h = work_at-Owned f n i p (get_elem? p.workers n) refl h
step-Owned f (refill i) p h = refill_step-Owned f i p.refiller p h
step-Owned f _ p h = h

pub run-Owned : (f : String) (es : List Event) (p : Pool) → Owned f p → Owned f (run es p)
unfolding run
run-Owned f [] p h = h
run-Owned f (e ∷ es) p h = run-Owned f es (step e p) (step-Owned f e p h)

pub start-Owned :
    (f : String) (n low high backoff : ℕ) (notifies : Bool) (file : LedgerFile)
    → Owned f (start n notifies (new_queue low high backoff) file)
unfolding start new_queue mem
start-Owned f n low high backoff notifies file =
    omega (arith, total-replicate (carries f) n at_top refl)

-- However the workers and the refill goroutine interleave, from a start with an empty queue a file is
-- pending or held by a worker at most once, and exactly if it is in the outstanding set.
pub held_once :
    (f : String) (n low high backoff : ℕ) (notifies : Bool) (file : LedgerFile) (es : List Event)
    → let p = run es (start n notifies (new_queue low high backoff) file) in
      total (is_file f) p.queue.pending + total (carries f) p.workers
      ≡ one_if (mem f p.queue.outstanding)
held_once f n low high backoff notifies file es =
    run-Owned f es (start n notifies (new_queue low high backoff) file)
      (start-Owned f n low high backoff notifies file)
