-- ===== src/Logs/Tests/Logdir.antt =====
-- A log directory with a live run, a dead one, an old log, a symbolic link and another file.
use nix_repo_base.Base.{ℕ, String, ◌≡◌, refl, Bool, true, false, List, [], ◌∷◌, ◌==◌, sort_by}
use nix_repo_base.Base.Bytes.{ascii, bytes_eq, strip_prefix?, trim_suffix}
use nix_repo_base.Logs.Buffer.{flush, write, write_byte, with_byte}
use nix_repo_base.Logs.Retain.{finalize, retain_drop, write_line, new_writer}
use nix_repo_base.Logs.Logdir.{
  Entry, Calls, Policy, completed, at_name, strip_suffix?, pid_of, positive_int, is_orphan, sweep,
  finalize_orphans, retention, filtered,
}
use nix_repo_base.Logs.Logdir.Names.{IsDirectory}
use nix_repo_base.Logs.Logdir.Kept.{untouched, sweep-untouched}
use nix_repo_base.Logs.Logdir.Filtered.{IsSaved, finalize_orphans-IsSaved}
use nix_repo_base.Logs.Logdir.Bounded.{IsBounded, retention-IsBounded}

abbrev file_at : String → Bool → ℕ → String → Entry
file_at name is_regular mtime content = record {
  name = ascii name;
  is_regular = is_regular;
  mtime = mtime;
  content = ascii content;
}

abbrev dead_run : Entry
dead_run = file_at "2-7-b.raw" true 90 "start\nlost"

abbrev directory : List Entry
directory =
    file_at "1-5-a.raw" true 95 "{}\n"
    ∷ file_at "1-5-a.jsonl" true 1 "{}\n"
    ∷ dead_run
    ∷ file_at "0-9-c.jsonl" true 2 "{}\n"
    ∷ file_at "link.raw" false 2 ""
    ∷ file_at "notes.txt" true 2 ""
    ∷ []

-- Every call succeeds; process 5 is alive.
abbrev calls : Calls
calls = record {
  lists = true;
  lists_again = true;
  informs = λ n. true;
  informs_again = λ n. true;
  finalizes = λ n. completed;
  stamps = λ n. true;
  removes = λ n. true;
  pid_alive = λ pid. pid == 5;
}

abbrev policy : Policy
policy = record { now = 100; max_age = 50; cap_bytes = 6; retained_cap = 0 }

directory-IsDirectory : IsDirectory directory
unfolding at_name bytes_eq
directory-IsDirectory = (refl, (refl, (refl, (refl, (refl, (refl, tt))))))

-- The dead run is filtered, and then evicted for the cap; the old log goes for its age.
two_evicted : (sweep calls policy directory).1 ≡ 2
unfolding sweep sort_by strip_prefix? positive_int bytes_eq filtered finalize trim_suffix
    retain_drop write_line new_writer flush write write_byte with_byte
two_evicted = refl

sweep-untouched_example :
    at_name (ascii "1-5-a.jsonl") (sweep calls policy directory).0
    ≡ at_name (ascii "1-5-a.jsonl") directory
unfolding at_name bytes_eq untouched strip_suffix? pid_of strip_prefix? is_orphan positive_int
sweep-untouched_example =
    sweep-untouched calls policy directory (ascii "1-5-a.jsonl") directory-IsDirectory refl

finalize_orphans-IsSaved_example :
    IsSaved calls policy
      (finalize_orphans calls policy directory directory)
      (ascii "2-7-b")
      dead_run
unfolding at_name bytes_eq
finalize_orphans-IsSaved_example =
    finalize_orphans-IsSaved calls policy directory (ascii "2-7-b") dead_run directory-IsDirectory
      refl

retention-IsBounded_example :
    IsBounded calls policy directory (λ n. refl) (retention calls policy directory)
retention-IsBounded_example =
    retention-IsBounded calls policy directory (λ n. refl) directory-IsDirectory
