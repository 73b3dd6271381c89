-- ===== src/Logs/Offline.antt =====
-- Finalize copies the complete lines worth keeping.
use mathlib.Core.List.{append-nil, append_assoc}
use nix_repo_base.Base.{
  ℕ, suc, ◌*◌, ◌+◌, ◌<◌, ◌≤◌, ◌≡◌, refl, ap, sym, ◌∙◌, Bool, true, false, not, ◌&&◌, List, [], ◌∷◌,
  ◌++◌, length, ltb, ◌==◌, if◌then◌else◌, arith, Bool-cases, inl, inr,
}
use nix_repo_base.Base.Bytes.{Bytes, trim_suffix, drop_last}
use nix_repo_base.Logs.Buffer.{Disk}
use nix_repo_base.Logs.Retain.{
  Writer, write_line, is_kept, max_line, gather, chop, Slice, delimited, read_slices, finalize_loop,
  finalize, new_writer, flush_writer,
}
use nix_repo_base.Logs.Lines.{complete, pieces, Short, Short-first, length-snoc, keep_line, copy}

drop_last-snoc : (xs : Bytes) (c : ℕ) → drop_last (xs ++ c ∷ []) ≡ xs
drop_last-snoc [] c = refl
drop_last-snoc (x ∷ []) c = refl
drop_last-snoc (x ∷ y ∷ xs) c = ap (λ ys. x ∷ ys) (drop_last-snoc (y ∷ xs) c)

length-append : (xs ys : Bytes) → length (xs ++ ys) ≡ length xs + length ys
length-append [] ys = omega arith
length-append (x ∷ xs) ys = omega (arith, length-append xs ys)

-- A fragment of a short line is added to it.
gather_short :
    (line frag : Bytes)
    → length (line ++ frag) ≤ max_line
    → gather line false frag ≡ (line ++ frag, false)
unfolding gather
gather_short line frag le = ground (arith, length-append line frag)

module _ (disk : Disk) where
  keep_line-truncated : (l : Bytes) (w : Writer) → w.truncated ≡ true → keep_line disk l w ≡ w
  unfolding write_line
  keep_line-truncated l w full = ground arith

  copy-truncated : (ls : List Bytes) (w : Writer) → w.truncated ≡ true → copy disk ls w ≡ w
  unfolding copy
  copy-truncated [] w full = refl
  copy-truncated (l ∷ ls) w full = rw (keep_line-truncated l w full) (copy-truncated ls w full)

  -- What finalize_loop does with a line that it has gathered.
  abbrev with_line : List Slice → Writer → Bool → Bytes → Writer
  with_line rest w over l = elim (not over && is_kept l) [
    | true ↦
        let w' = (write_line disk l w).0 in
        elim w'.truncated [ true ↦ w' | false ↦ finalize_loop disk rest [] false w' ]
    | false ↦ finalize_loop disk rest [] false w
  ]

  with_line-copy :
      (rest : List Slice) (after : List Bytes) (w : Writer) (l : Bytes)
      → ((w' : Writer) → finalize_loop disk rest [] false w' ≡ copy disk after w')
      → with_line rest w false l
        ≡ copy disk after (if is_kept l then (write_line disk l w).0 else w)
  with_line-copy rest after w l next = elim (Bool-cases (is_kept l)) [
    | inr dropped ↦ rw (dropped, with_line) (next w)
    | inl kept ↦
        let w' = (write_line disk l w).0 in
        elim (Bool-cases w'.truncated) [
          | inl full ↦ rw (kept, full, with_line) (sym (copy-truncated after w' full))
          | inr room ↦ rw (kept, room, with_line) (next w')
        ]
  ]

  -- One delimited line, with what was gathered before it.
  finalize-line :
      (rest : List Slice) (line acc : Bytes) (c : ℕ) (w : Writer) (after : List Bytes)
      → length (line ++ acc) < max_line
      → ((w' : Writer) → finalize_loop disk rest [] false w' ≡ copy disk after w')
      → finalize_loop disk (delimited (acc ++ c ∷ []) ∷ rest) line false w
        ≡ copy disk ((line ++ acc) ∷ after) w
  unfolding finalize_loop copy
  finalize-line rest line acc c w after short next =
      let whole : line ++ (acc ++ c ∷ []) ≡ (line ++ acc) ++ c ∷ [] =
        sym (append_assoc line acc (c ∷ [])) in
      let fits =
        gather_short line (acc ++ c ∷ [])
          (rw whole (omega (arith, length-snoc (line ++ acc) c, short))) in
      ap (λ (g : Bytes × Bool). with_line rest w g.1 (chop g.0)) fits
      ∙ ap (λ x. with_line rest w false (chop x)) whole
      ∙ ap (λ x. with_line rest w false (trim_suffix (b'\r' ∷ []) x))
          (drop_last-snoc (line ++ acc) c)
      ∙ with_line-copy rest after w (trim_suffix (b'\r' ∷ []) (line ++ acc)) next

  finalize-copy :
      (size : ℕ) (s line acc : Bytes) (w : Writer)
      → Short max_line (line ++ acc) s
      → finalize_loop disk (read_slices size acc s) line false w
        ≡ copy disk (complete (line ++ acc) s) w
  unfolding read_slices finalize_loop copy
  finalize-copy size [] line acc w short = refl
  finalize-copy size (c ∷ s) line acc w short = elim (Bool-cases (c == b'\n')) [
    | inl nl ↦
        let rest = (rw (nl, pieces) at short).1 in
        rw (nl, read_slices, complete)
          (finalize-line (read_slices size [] s) line acc c w (complete [] s)
            (Short-first max_line (line ++ acc) (c ∷ s) short)
            (λ w'. finalize-copy size s [] [] w' rest))
    | inr other ↦
        let whole = append_assoc line acc (c ∷ []) in
        let rest : Short max_line (line ++ (acc ++ c ∷ [])) s =
          rw (sym whole) (rw (other, pieces) at short) in
        elim (Bool-cases (ltb (suc (length acc)) size)) [
          | inl room ↦
              rw (other, room, read_slices, complete)
                (finalize-copy size s line (acc ++ c ∷ []) w rest
                  ∙ ap (λ x. copy disk (complete x s) w) (sym whole))
          | inr full ↦
              let fits =
                gather_short line (acc ++ c ∷ [])
                  (omega (arith, Short-first max_line (line ++ (acc ++ c ∷ [])) s rest)) in
              rw (other, full, read_slices, complete, finalize_loop)
                (ap (λ (g : Bytes × Bool). finalize_loop disk (read_slices size [] s) g.0 g.1 w)
                    fits
                  ∙ finalize-copy size s (line ++ (acc ++ c ∷ [])) [] w (rw append-nil rest)
                  ∙ ap (λ x. copy disk (complete x s) w)
                      (append-nil (line ++ (acc ++ c ∷ [])) ∙ sym whole))
        ]
  ]

  -- Where no line, nor the text after the last newline, is too long.
  pub finalize-complete :
      (cap_bytes : ℕ) (raw : Bytes)
      → Short max_line [] raw
      → finalize disk cap_bytes raw
        ≡ flush_writer disk (copy disk (complete [] raw) (new_writer cap_bytes))
  unfolding finalize
  finalize-complete cap_bytes raw short =
      ap (flush_writer disk) (finalize-copy (256 * 1024) raw [] [] (new_writer cap_bytes) short)
