-- ===== src/Logs/Logdir.antt =====
-- logdir/logdir.go: pidOf, finalize and SweepWith on a directory, which is a list of entries with their
-- contents. What the calls to the system return is an argument. Times are numbers, as are sizes.
pub mod Names
pub mod Orphans
pub mod Files
pub mod Kept
pub mod Filtered
pub mod Bounded
use mathlib.Core.List.{reverse}
use nix_repo_base.Base.{
  ℕ, suc, ◌+◌, ◌-◌, ◌*◌, ◌^◌, Bool, true, false, not, ◌&&◌, ◌||◌, Option, none, some, List, [], ◌∷◌,
  ◌++◌, length, any, keep, total, sort_by, ltb, leb, ◌==◌, if◌then◌else◌,
}
use nix_repo_base.Base.Bytes.{Bytes, ascii, bytes_eq, strip_prefix?, is_some}
use nix_repo_base.Logs.Buffer.{working}
use nix_repo_base.Logs.Retain.{finalize}

pub record Entry : Type 0 where
  pub name : Bytes
  pub is_regular : Bool
  pub mtime : ℕ
  pub content : Bytes

abbrev pub suffix : Bytes
suffix = ascii ".jsonl"

abbrev pub raw_suffix : Bytes
raw_suffix = ascii ".raw"

-- What stands before a suffix.
abbrev pub stem_in : Option Bytes → Option Bytes
stem_in none = none
stem_in (some t) = some (reverse t)

unfoldable pub strip_suffix? : Bytes → Bytes → Option Bytes
strip_suffix? p s = stem_in (strip_prefix? (reverse p) (reverse s))

-- The first entry of a name, of which there is one.
unfoldable pub at_name : Bytes → List Entry → Option Entry
at_name n [] = none
at_name n (e ∷ es) = let rest = at_name n es in if bytes_eq e.name n then some e else rest

unfoldable pub remove : Bytes → List Entry → List Entry
remove n [] = []
remove n (e ∷ es) = let rest = remove n es in if bytes_eq e.name n then rest else e ∷ rest

unfoldable pub put : Entry → List Entry → List Entry
put new [] = new ∷ []
put new (e ∷ es) = let rest = put new es in if bytes_eq e.name new.name then new ∷ es else e ∷ rest

-- strings.Split(s, "-")
abbrev pub onto_first : ℕ → List Bytes → List Bytes
onto_first c [] = (c ∷ []) ∷ []
onto_first c (part ∷ parts) = (c ∷ part) ∷ parts

unfoldable pub split_dashes : Bytes → List Bytes
split_dashes [] = [] ∷ []
split_dashes (c ∷ s) =
    let rest = split_dashes s in if c == b'-' then [] ∷ rest else onto_first c rest

-- strconv.Atoi, of a text without a minus.
unfoldable pub digits : ℕ → Bytes → Option ℕ
digits n [] = some n
digits n (c ∷ s) =
    let rest = digits (10 * n + (c - b'0')) s in if leb b'0' c && leb c b'9' then rest else none

unfoldable pub some_digits : Bytes → Option ℕ
unfolding digits
some_digits [] = none
some_digits (c ∷ s) = digits 0 (c ∷ s)

abbrev pub in_range : Option ℕ → Option ℕ
in_range none = none
in_range (some n) = if ltb 0 n && ltb n (2 ^ 63) then some n else none

unfoldable pub positive_int : Bytes → Option ℕ
unfolding digits some_digits
positive_int [] = none
positive_int (c ∷ s) = in_range (if c == b'+' then some_digits s else digits 0 (c ∷ s))

abbrev pub second_of_three : List Bytes → Option Bytes
second_of_three (ts ∷ pid ∷ rand ∷ []) = some pid
second_of_three _ = none

abbrev pub pid_in : Option Bytes → Option ℕ
pid_in none = none
pid_in (some s) = positive_int s

-- The pid in the name of a raw file, of which this is the stem.
unfoldable pub pid_of : Bytes → Option ℕ
unfolding split_dashes
pid_of stem = pid_in (second_of_three (split_dashes stem))

-- What becomes of retain.Finalize: a file cannot be opened; it stops with an error, and leaves this in
-- the output; or it goes through.
pub data Finalizing : Type 0 where
  not_opened : Finalizing
  broken : Bytes → Finalizing
  completed : Finalizing

pub record Calls : Type 0 where
  pub lists : Bool
  pub lists_again : Bool
  pub informs : Bytes → Bool
  pub informs_again : Bytes → Bool
  pub finalizes : Bytes → Finalizing
  pub stamps : Bytes → Bool
  pub removes : Bytes → Bool
  pub pid_alive : ℕ → Bool

pub record Policy : Type 0 where
  pub now : ℕ
  pub max_age : ℕ
  pub cap_bytes : ℕ
  pub retained_cap : ℕ

abbrev pub is_old : Policy → Entry → Bool
is_old policy e = ltb (e.mtime + policy.max_age) policy.now

-- What is not a regular file is not opened.
abbrev pub opened : Option Entry → Finalizing → Finalizing
opened none f = f
opened (some e) f = if e.is_regular then f else not_opened

-- The output of a Finalize without an error: all its writes have gone through.
unfoldable pub filtered : Policy → Entry → Bytes
filtered policy e = (finalize working policy.retained_cap e.content).out.file

unfoldable pub has_stem : Option Bytes → Option Bytes → Bool
has_stem (some s) (some t) = bytes_eq s t
has_stem _ _ = false

module _ (calls : Calls) (policy : Policy) where
  abbrev pub output : Bytes → Entry → Entry
  output stem e = record {
    name = stem ++ suffix;
    is_regular = true;
    mtime = if calls.stamps e.name then e.mtime else policy.now;
    content = filtered policy e;
  }

  unfoldable pub settle : Bytes → Entry → List Entry → Finalizing → List Entry
  unfolding put remove
  settle stem e dir not_opened = dir
  settle stem e dir (broken part) =
      put (record { name = stem ++ suffix; is_regular = true; mtime = policy.now; content = part })
        dir
  settle stem e dir completed =
      if calls.removes e.name
      then remove e.name (put (output stem e) dir)
      else put (output stem e) dir

  unfoldable pub finalize_raw : Bytes → Entry → List Entry → List Entry
  unfolding settle at_name
  finalize_raw stem e dir =
      settle stem e dir (opened (at_name (stem ++ suffix) dir) (calls.finalizes e.name))

  abbrev pub is_dead : Option ℕ → Bool
  is_dead none = false
  is_dead (some pid) = not (calls.pid_alive pid)

  abbrev pub visible : Entry → Bool
  visible e = e.is_regular && calls.informs_again e.name

  -- A scratch file of a run that is over, or too old.
  unfoldable pub is_orphan : Bytes → Entry → Bool
  unfolding pid_of
  is_orphan stem e =
      e.is_regular && calls.informs e.name && (is_old policy e || is_dead (pid_of stem))

  unfoldable pub sweep_raw : Option Bytes → Entry → List Entry → List Entry
  unfolding finalize_raw is_orphan
  sweep_raw none e dir = dir
  sweep_raw (some stem) e dir = if is_orphan stem e then finalize_raw stem e dir else dir

  unfoldable pub finalize_orphans : List Entry → List Entry → List Entry
  unfolding sweep_raw strip_suffix?
  finalize_orphans [] dir = dir
  finalize_orphans (e ∷ es) dir =
      finalize_orphans es (sweep_raw (strip_suffix? raw_suffix e.name) e dir)

  abbrev pub is_raw : Entry → Bool
  is_raw e = visible e && is_some (strip_suffix? raw_suffix e.name)

  abbrev pub is_out : Entry → Bool
  is_out e = visible e && is_some (strip_suffix? suffix e.name)

  -- Is there a scratch file with this stem?
  unfoldable pub is_live : List Entry → Option Bytes → Bool
  unfolding has_stem strip_suffix?
  is_live dir stem = any (λ r. visible r && has_stem (strip_suffix? raw_suffix r.name) stem) dir

  unfoldable pub is_evictable : List Entry → Entry → Bool
  unfolding is_live strip_suffix?
  is_evictable dir e = is_out e && not (is_live dir (strip_suffix? suffix e.name))

  unfoldable pub size_of : Entry → ℕ
  size_of e = if is_raw e || is_out e then length e.content else 0

  pub record Eviction : Type 0 where
    pub dir : List Entry
    pub sum : ℕ
    pub removed : ℕ

  unfoldable pub evict : Entry → Eviction → Eviction
  unfolding remove
  evict e s = record {
    dir = if calls.removes e.name then remove e.name s.dir else s.dir;
    sum = s.sum - length e.content;
    removed = if calls.removes e.name then s.removed + 1 else s.removed;
  }

  unfoldable pub evict_old : List Entry → Eviction → List Entry × Eviction
  unfolding evict
  evict_old [] s = ([], s)
  evict_old (e ∷ es) s =
      let rest = evict_old es (evict e s) in if is_old policy e then rest else (e ∷ es, s)

  unfoldable pub evict_over : List Entry → Eviction → Eviction
  unfolding evict
  evict_over [] s = s
  evict_over (e ∷ es) s =
      let rest = evict_over es (evict e s) in if ltb policy.cap_bytes s.sum then rest else s

  unfoldable pub retention : List Entry → Eviction
  unfolding evict_old evict_over size_of is_evictable
  retention dir =
      let files = sort_by (λ a b. ltb a.mtime b.mtime) (keep (is_evictable dir) dir) in
      let (rest, s) =
        evict_old files (record { dir = dir; sum = total size_of dir; removed = 0 }) in
      evict_over rest s

  -- The directory after a sweep, and how many files were evicted.
  unfoldable pub sweep : List Entry → List Entry × ℕ
  unfolding finalize_orphans retention
  sweep dir =
      let after = finalize_orphans dir dir in
      let s = retention after in
      if not calls.lists
      then (dir, 0)
      else if not calls.lists_again
      then (after, 0)
      else (s.dir, s.removed)
