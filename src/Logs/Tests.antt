-- ===== src/Logs/Tests.antt =====
-- Runs of the tailer and of Finalize on a stream that the reads cut inside its lines.
pub mod Nixlog
pub mod Logdir
use nix_repo_base.Base.Bytes.{trim_suffix, strip_prefix?}
use nix_repo_base.Logs.Retain.{retain_drop, write_line}
use nix_repo_base.Base.{ℕ, suc, ◌≤◌, ◌≡◌, refl, true, false, some, List, [], ◌∷◌, ◌++◌, arith}
use nix_repo_base.Base.Bytes.{Bytes, ascii}
use nix_repo_base.Logs.Retain.{
  Handler, new_writer, flush_writer, handler_line, handler_flush, finalize,
}
use nix_repo_base.Logs.Buffer.{Disk, working, write, write_byte, with_byte, flush, take, drop}
use nix_repo_base.Logs.Tailer.{new_tailer}
use nix_repo_base.Logs.Agreement.{Chunk, stream, consume_all, consume-finalize}

abbrev progress : Bytes
progress = ascii "{\"action\":\"result\",\"type\":105}"

abbrev chunks : List Chunk
chunks =
    record { stamp = 3; mtime = 1; bytes = ascii "one" ++ b'\n' ∷ ascii "tw"; ends_poll = true }
    ∷ record {
      stamp = 5;
      mtime = 4;
      bytes = ascii "o" ++ b'\r' ∷ b'\n' ∷ progress;
      ends_poll = false;
    }
    ∷ record { stamp = 9; mtime = 8; bytes = b'\n' ∷ ascii "rest"; ends_poll = true }
    ∷ []

caps :
    (new_writer 100).max
    ≤ (new_tailer {H = Handler ℕ} (record { observer = 0; w = new_writer 100 }) 200).max_bytes
unfolding new_writer new_tailer
caps = omega arith

abbrev counting : Bytes → ℕ → ℕ → ℕ
counting line at seen = suc seen

consume-finalize_example :
    (handler_flush working
      (consume_all (handler_line counting working) (handler_flush working) chunks (
        new_tailer {H = Handler ℕ} (record { observer = 0; w = new_writer 100 }) 200)).h).w.out.file
    ≡ (finalize working 100 (stream chunks)).out.file
consume-finalize_example =
    consume-finalize counting 0 100 200 chunks caps
      (omega arith, (omega arith, (omega arith, (omega arith, tt))))

two_kept :
    (finalize working 100 (stream chunks)).out.file
    ≡ ascii "one" ++ b'\n' ∷ ascii "two" ++ b'\n' ∷ []
unfolding finalize trim_suffix strip_prefix? retain_drop write_line new_writer write write_byte
    with_byte flush
two_kept = refl

-- A full disk is met by the flush, not by the lines before it; nothing is written from then on.
abbrev full_disk : Disk
full_disk file p = some 2

lost_at_flush :
    (flush_writer full_disk ((write_line full_disk (ascii "one") (new_writer 100)).0)).out
    ≡ record { pending = ascii "e" ++ b'\n' ∷ []; file = ascii "on"; broken = true }
unfolding write_line new_writer write write_byte with_byte flush take drop
lost_at_flush = refl
