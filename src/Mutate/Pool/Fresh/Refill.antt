-- ===== src/Mutate/Pool/Fresh/Refill.antt =====
-- The steps of the refill goroutine.
use nix_repo_base.Base.{
  ℕ, String, ◌≡◌, ◌||◌, ltb, inl, inr, ap, ◌∙◌, Bool, true, false, Option, none, some, List, [],
  ◌∷◌, ◌++◌, Dict, lookup, mem, All, All-append, if◌then◌else◌, arith, Bool-cases,
}
use mathlib.Core.List.{append-nil}
use nix_repo_base.Mutate.Ledger.{Record, Line, replay, tail_lines, recorded_at}
use nix_repo_base.Mutate.Ledger.Latest.{latest, scan-some, lookup-replay}
use nix_repo_base.Mutate.Queue.{
  Package, Queue, record_empty_refill, refill_file, settle, or_zero, skips, needs_refill,
  retry_backoff_elapsed,
}
use nix_repo_base.Mutate.Pool.{
  Pool, RefillInput, Refiller, resting, reading, adding, Pass, add_step, refill_step, discovered,
  must_back_off, or_empty, backing_off, discovering, scan_package,
}
use nix_repo_base.Mutate.Pool.Fresh.Steps.{Unrecorded, Known, Noted}
use nix_repo_base.Mutate.Pool.Fresh.State.{IsFresh}

offer-Fresh :
    (f : String) (s : Pass) (ls : List Line) (q : Queue) (n : ℕ)
    → All (Unrecorded ls) q.pending
    → Known f s ls q
    → All (Unrecorded ls) (refill_file s.records s.snapshot_seq s.hash f (q, n)).0.pending
unfolding refill_file
offer-Fresh f s ls q n h k = elim (Bool-cases (recorded_at (lookup f s.records) s.hash)) [
  | inl done ↦ rw done h
  | inr open' ↦
      rw open'
        (elim (Bool-cases
          (mem f q.outstanding || ltb s.snapshot_seq (or_zero (lookup f q.finished_at)))) [
            | inl busy ↦ rw busy h
            | inr free ↦ rw free (
                All-append (Unrecorded ls) q.pending (record { file = f; pkg_hash = s.hash } ∷ []) h
                  (ground arith, tt))
          ])
]

offer-Known :
    (g f : String) (s : Pass) (ls : List Line) (q : Queue) (n : ℕ)
    → Known g s ls q
    → Known g s ls (refill_file s.records s.snapshot_seq s.hash f (q, n)).0
unfolding refill_file mem
offer-Known g f s ls q n k = ground arith

offer-seq :
    (f : String) (s : Pass) (q : Queue) (n : ℕ)
    → (refill_file s.records s.snapshot_seq s.hash f (q, n)).0.finish_seq ≡ q.finish_seq
unfolding refill_file
offer-seq f s q n = ground arith

scan_package-Noted :
    (o : Option String) (pkg : Package) (rest : List Package) (s : Pass) (ls : List Line)
    (q : Queue)
    → Noted (adding s) ls q
    → Noted (scan_package o pkg rest s) ls q
unfolding scan_package
scan_package-Noted none pkg rest s ls q h = tt
scan_package-Noted (some x) pkg rest s ls q h = h

if-Noted :
    (b : Bool) (r r' : Refiller) (ls : List Line) (q : Queue)
    → Noted r ls q
    → Noted r' ls q
    → Noted (if b then r else r') ls q
if-Noted true r r' ls q h h' = h
if-Noted false r r' ls q h h' = h'

add_step-IsFresh :
    (i : RefillInput) (fs : List String) (pkgs : List Package) (s : Pass) (p : Pool)
    → Noted (adding s) p.ledger.lines p.queue
    → IsFresh p
    → IsFresh (add_step i fs pkgs s p)
unfolding add_step
add_step-IsFresh i (f ∷ fs) pkgs s p k h = record {
  whole = h.whole;
  fits = h.fits;
  pending = offer-Fresh f s p.ledger.lines p.queue s.added h.pending (k.1 f);
  workers = h.workers;
  noted = (rw offer-seq k.0, λ g. offer-Known g f s p.ledger.lines p.queue s.added (k.1 g));
}
add_step-IsFresh i [] (pkg ∷ rest) s p k h = record {
  whole = h.whole;
  fits = h.fits;
  pending = h.pending;
  workers = h.workers;
  noted =
      if-Noted (skips s.filter pkg.project_key) (adding (record s { packages = rest }))
        (scan_package i.computed pkg rest s) p.ledger.lines p.queue k
        (scan_package-Noted i.computed pkg rest s p.ledger.lines p.queue k);
}
add_step-IsFresh i [] [] s p k h = record {
  whole = h.whole;
  fits = h.fits;
  pending = unfold settle in h.pending;
  workers = h.workers;
  noted =
      if-Noted (ltb 0 s.added) resting must_back_off p.ledger.lines (settle s.added p.queue) tt tt;
}

whole_lines : (p : Pool) → IsFresh p → p.ledger.lines ++ tail_lines p.ledger.tail ≡ p.ledger.lines
whole_lines p h = rw h.whole (append-nil p.ledger.lines)

replay-some :
    (opened : Bool) (p : Pool)
    → opened ≡ true
    → IsFresh p
    → (m : Dict Record) × (replay opened p.ledger ≡ some m)
unfolding replay
replay-some opened p o h =
    let (m, e) = scan-some p.ledger.lines [] h.fits in (m, rw (o, whole_lines p h) e)

-- The replay that a Refill makes sees the ledger as it is then.
replay-Known :
    (opened : Bool) (p : Pool) (s : Pass) (f : String)
    → opened ≡ true
    → IsFresh p
    → Known f (record s { records = or_empty (replay opened p.ledger) }) p.ledger.lines p.queue
replay-Known opened p s f o h =
    let (m, e) = replay-some opened p o h in
    inl (
      ap (λ r. lookup f (or_empty r)) e
      ∙ lookup-replay opened p.ledger f e
      ∙ ap (latest f) (whole_lines p h))

discovered-Noted :
    (i : RefillInput) (p : Pool) (o : Option (List Package))
    → Noted (discovered i p o) p.ledger.lines p.queue
unfolding discovered
discovered-Noted i p none = tt
discovered-Noted i p (some candidates) = omega arith

-- A step of the refill goroutine that moves it on and touches nothing else.
abbrev moved : Refiller → Pool → Pool
moved r p = record p { refiller = r }

moved-IsFresh :
    (r : Refiller) (p : Pool) → Noted r p.ledger.lines p.queue → IsFresh p → IsFresh (moved r p)
moved-IsFresh r p k h = record {
  whole = h.whole;
  fits = h.fits;
  pending = h.pending;
  workers = h.workers;
  noted = k;
}

pub refill_step-IsFresh :
    (i : RefillInput) (r : Refiller) (p : Pool)
    → p.refiller ≡ r
    → i.opened ≡ true
    → IsFresh p
    → IsFresh (refill_step i r p)
unfolding refill_step
refill_step-IsFresh i resting p e c h =
    moved-IsFresh _ p
      (if-Noted (needs_refill p.queue) backing_off resting p.ledger.lines p.queue tt tt) h
refill_step-IsFresh i backing_off p e c h =
    moved-IsFresh _ p
      (if-Noted (retry_backoff_elapsed i.now p.queue) discovering resting p.ledger.lines p.queue tt
        tt)
      h
refill_step-IsFresh i discovering p e c h = moved-IsFresh _ p (discovered-Noted i p i.candidates) h
refill_step-IsFresh i (reading s) p e c h =
    moved-IsFresh _ p ((rw e at h.noted), λ f. replay-Known i.opened p s f c h) h
refill_step-IsFresh i (adding s) p e c h =
    add_step-IsFresh i s.files s.packages s p (rw e at h.noted) h
refill_step-IsFresh i must_back_off p e c h = record {
  whole = h.whole;
  fits = h.fits;
  pending = unfold record_empty_refill in h.pending;
  workers = h.workers;
  noted = tt;
}
