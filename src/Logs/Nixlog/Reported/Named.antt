-- ===== src/Logs/Nixlog/Reported/Named.antt =====
-- What a message of nix says failed, read off its text; the processor takes note of it, for good.
use nix_repo_base.Base.{
  ℕ, ◌≡◌, refl, ap, sym, ◌∙◌, Bool, true, false, not, ◌&&◌, ◌||◌, Option, none, some, List, ◌==◌,
  arith, Bool-cases, inl, inr,
}
use nix_repo_base.Base.Bytes.{bytes_eq, bytes_eq_sound, is_some}
use nix_repo_base.Base.Regex.{submatch}
use nix_repo_base.Logs.Nixlog.Text.{
  re_cannot_build, re_hash_mismatch, re_sqlite_busy, re_plan_build, re_plan_fetch, strip_ansi,
  trim_space,
}
use nix_repo_base.Logs.Nixlog.{Text, Open, Failure, Event}
use nix_repo_base.Logs.Nixlog.Processor.{Processor, failure_of}
use nix_repo_base.Logs.Nixlog.Messages.{
  blame, note_failure, note_first, on_failure, on_mismatch, on_cannot_build, on_error, on_not_busy,
  or_busy, on_msg, note_plan, note_busy, mismatch_failure, build_failure, take_held, raw_or_msg,
}

-- The derivation in the text of an error: "Cannot build '…'", or else a hash mismatch.
abbrev pub is_first : Text → Option (ℕ → Text) → Bool → Bool
is_first path (some g) otherwise = bytes_eq (g 1) path
is_first path none otherwise = otherwise

abbrev pub blames_in : Text → Text → Bool
blames_in path said =
    is_first path (submatch re_cannot_build said)
      (is_first path (submatch re_hash_mismatch said) false)

-- An error message that names the derivation, and is not about a busy database.
abbrev pub blames : Text → Event → Bool
blames path ev =
    ev.level == 0
    && not (is_some (submatch re_sqlite_busy (trim_space (strip_ansi ev.msg))))
    && blames_in path (strip_ansi (raw_or_msg ev.raw_msg ev.msg))

module _ (path : Text) where
  -- A failure of the derivation is noted.
  abbrev pub IsNoted : Processor → Type 0
  IsNoted p = is_some (failure_of path p.failed) ≡ true

  pub failed-IsNoted : (p q : Processor) → q.failed ≡ p.failed → IsNoted p → IsNoted q
  failed-IsNoted p q e h = ap (λ m. is_some (failure_of path m)) e ∙ h

  blame-failed :
      (named : Text) (f : Failure) (now : ℕ) (p : Processor) (r : Option (Open × List Open))
      → (blame named f now p r).failed ≡ p.failed
  unfolding blame
  blame-failed named f now p (some (h, hs)) = refl
  blame-failed named f now p none = ground arith

  -- A new failure is noted, and forgets none.
  on_failure-IsNoted :
      (named : Text) (f : Failure) (now : ℕ) (p : Processor)
      → bytes_eq named path || is_some (failure_of path p.failed) ≡ true
      → IsNoted (on_failure named f now p)
  unfolding on_failure failure_of
  on_failure-IsNoted named f now p h = elim (Bool-cases (is_some (failure_of named p.failed))) [
    | inl known ↦ rw known (elim (Bool-cases (bytes_eq named path)) [
      | inl same ↦
          ap (λ s. is_some (failure_of s p.failed)) (sym (bytes_eq_sound named path same)) ∙ known
      | inr other ↦ ground arith
    ])
    | inr new ↦ rw new (
        failed-IsNoted (note_failure named f p)
          (blame named f now (note_failure named f p) (take_held named p.held))
          (blame-failed named f now (note_failure named f p) (take_held named p.held))
          (ground arith))
  ]

  -- The text of an error names the derivation, or it was named before.
  on_error-IsNoted :
      (said clean : Text) (now : ℕ) (p : Processor)
      → blames_in path said || is_some (failure_of path p.failed) ≡ true
      → IsNoted (on_error said clean now p)
  unfolding on_error on_cannot_build on_mismatch
  on_error-IsNoted said clean now p h =
      by_build (note_first clean p) (submatch re_cannot_build said) (
        ap
          (λ m.
            is_first path (submatch re_cannot_build said)
              (is_first path (submatch re_hash_mismatch said) false)
            || is_some (failure_of path m))
          same
        ∙ h)
    where
      same : (note_first clean p).failed ≡ p.failed
      same = ground arith

      by_mismatch :
          (q : Processor) (r : Option (ℕ → Text))
          → is_first path r false || is_some (failure_of path q.failed) ≡ true
          → IsNoted (on_mismatch said clean now q r)
      by_mismatch q (some g) u = on_failure-IsNoted (g 1) (mismatch_failure said) now q u
      by_mismatch q none u = ground (arith, u)

      by_build :
          (q : Processor) (r : Option (ℕ → Text))
          → is_first path r (is_first path (submatch re_hash_mismatch said) false)
              || is_some (failure_of path q.failed)
            ≡ true
          → IsNoted (on_cannot_build said clean now q r)
      by_build q (some g) u = on_failure-IsNoted (g 1) (build_failure said) now q u
      by_build q none u = by_mismatch q (submatch re_hash_mismatch said) u

  note_plan-failed : (p : Processor) (r t : Option (ℕ → Text)) → (note_plan p r t).failed ≡ p.failed
  note_plan-failed p (some g) t = refl
  note_plan-failed p none (some g) = refl
  note_plan-failed p none none = refl

  or_busy-IsNoted :
      (level : ℕ) (said clean : Text) (now : ℕ) (p : Processor) (r : Option (ℕ → Text))
      → (level == 0 && not (is_some r) && blames_in path said) || is_some (failure_of path p.failed)
        ≡ true
      → IsNoted (or_busy level said clean now p r)
  unfolding or_busy on_not_busy
  or_busy-IsNoted level said clean now p (some g) h =
      failed-IsNoted p (note_busy g p) (ground arith) (ground arith)
  or_busy-IsNoted level said clean now p none h = elim (Bool-cases (level == 0)) [
    | inl error ↦ rw error (on_error-IsNoted said clean now p (ground arith))
    | inr info ↦ rw info (
        failed-IsNoted p (note_plan p (submatch re_plan_build said) (submatch re_plan_fetch said))
          (note_plan-failed p (submatch re_plan_build said) (submatch re_plan_fetch said))
          (ground arith))
  ]

  -- A message that blames the derivation is noted, and no message forgets one.
  pub on_msg-IsNoted :
      (ev : Event) (now : ℕ) (p : Processor)
      → blames path ev || is_some (failure_of path p.failed) ≡ true
      → IsNoted (on_msg ev now p)
  unfolding on_msg
  on_msg-IsNoted ev now p h =
      or_busy-IsNoted ev.level (strip_ansi (raw_or_msg ev.raw_msg ev.msg))
        (trim_space (strip_ansi ev.msg)) now p
        (submatch re_sqlite_busy (trim_space (strip_ansi ev.msg))) h
