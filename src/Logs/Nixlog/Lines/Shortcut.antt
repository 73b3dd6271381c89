-- ===== src/Logs/Nixlog/Lines/Shortcut.antt =====
-- The byte checks agree with the decoder on the progress lines that nix prints.
use nix_repo_base.Base.{
  ℕ, ◌+◌, ◌≤◌, ◌≡◌, refl, ap, sym, ◌∙◌, true, false, not, ◌&&◌, Option, some, List, [], ◌∷◌, ◌++◌,
  length, ◌==◌, if◌then◌else◌, All, arith, Bool-cases, inl, inr,
}
use mathlib.Core.List.{reverse, reverse-append, reverse-reverse}
use nix_repo_base.Base.Bytes.{Bytes, strip_prefix?, has_prefix, trim_suffix}
use nix_repo_base.Logs.Nixlog.{Text, Event, result_action}
use nix_repo_base.Logs.Nixlog.Fast.{prefix_result, suffix_101, suffix_105, suffix_id, decode_fields}
use nix_repo_base.Logs.Nixlog.Fast.Printed.{
  IsNumeral, value, values_of, print_head, suffix_id-print_head, fast_fields-print_head,
}
use nix_repo_base.Logs.Nixlog.Processor.{Processor}
use nix_repo_base.Logs.Nixlog.Lines.{
  skip, quick_fold, quick, tracked, has_suffix, quick_id, or_decode, on_line, on_quick, on_action,
  on_result, fold_decoded, fold, counted, one_folded, one_dropped,
}

-- A progress line.
abbrev pub print_line : List Bytes → Bytes → Bytes
print_line fs id = print_head fs id ++ suffix_105

strip_prefix?-append : (p s : Bytes) → strip_prefix? p (p ++ s) ≡ some s
unfolding strip_prefix?
strip_prefix?-append [] s = refl
strip_prefix?-append (c ∷ p) s = ground (arith, strip_prefix?-append p s)

trim_suffix-append : (s p : Bytes) → trim_suffix p (s ++ p) ≡ s
unfolding trim_suffix
trim_suffix-append s p =
    let e : strip_prefix? (reverse p) (reverse (s ++ p)) ≡ some (reverse s) =
      ap (strip_prefix? (reverse p)) (reverse-append s p)
      ∙ strip_prefix?-append (reverse p) (reverse s) in
    rw (e, trim_suffix) (reverse-reverse s)

has_suffix-101 : (s : Bytes) → has_suffix suffix_101 (s ++ suffix_105) ≡ false
unfolding strip_prefix?
has_suffix-101 s = ap (λ r. has_prefix (reverse suffix_101) r) (reverse-append s suffix_105)

has_suffix-105 : (s : Bytes) → has_suffix suffix_105 (s ++ suffix_105) ≡ true
unfolding strip_prefix?
has_suffix-105 s = ap (λ r. has_prefix (reverse suffix_105) r) (reverse-append s suffix_105)

has_prefix-line :
    (fs : List Bytes) (id : Bytes) → has_prefix prefix_result (print_line fs id) ≡ true
unfolding strip_prefix? print_head
has_prefix-line fs id = refl

-- A decoded progress line.
pub record IsProgress (ev : Event) (id : ℕ) (f : List ℕ) : Type 0 where
  pub result : ev.action ≡ result_action
  pub progress : ev.typ ≡ 105
  pub same_id : ev.id ≡ id
  pub same_fields : decode_fields ev.fields ≡ some f

on_result_progress :
    (ev : Event) (id : ℕ) (f : List ℕ) (p : Processor)
    → IsProgress ev id f
    → on_result ev p ≡ (if tracked id p then one_folded (fold id f p) else p)
unfolding on_result fold_decoded
on_result_progress ev id f p h =
    ap
      (λ t.
        if t == 105 && tracked ev.id p then fold_decoded ev.id p (decode_fields ev.fields) else p)
      h.progress
    ∙ ap (λ i. if tracked i p then fold_decoded i p (decode_fields ev.fields) else p) h.same_id
    ∙ ap (λ r. if tracked id p then fold_decoded id p r else p) h.same_fields

module _ (ds : Bytes) (fs : List Bytes) (id : Bytes) (numeral : IsNumeral 19 id)
    (fields : All (IsNumeral 18) (ds ∷ fs)) (four : length (ds ∷ fs) ≤ 4) where
  quick-print_line :
      (p : Processor)
      → quick (print_line (ds ∷ fs) id) p
        ≡ (if not (tracked (value id) p) then skip else quick_fold (value id) (values_of (ds ∷ fs)))
  unfolding quick quick_id
  quick-print_line p =
      let line = print_line (ds ∷ fs) id in
      rw (has_prefix-line (ds ∷ fs) id) (
        rw (has_suffix-101 (print_head (ds ∷ fs) id)) (
          rw (has_suffix-105 (print_head (ds ∷ fs) id)) (
            ap (λ h. quick_id line p (suffix_id h))
              (trim_suffix-append (print_head (ds ∷ fs) id) suffix_105)
            ∙ ap (quick_id line p) (suffix_id-print_head (ds ∷ fs) id numeral)
            ∙ ap (λ r. if not (tracked (value id) p) then skip else or_decode (value id) r)
                (fast_fields-print_head ds fs id fields four))))

  -- A progress line as nix prints it, with a numeral of at most 19 digits as its identifier and one to
  -- four values of at most 18 digits, has the effect of the event that a decoder finds in it, but
  -- that it is counted as dropped where its values are not kept.
  pub on_line-on_action :
      (decode : Bytes → Option Event) (hostname : Text → Option Text) (min_span : ℕ) (ev : Event)
      (now : ℕ) (q : Processor)
      → IsProgress ev (value id) (values_of (ds ∷ fs))
      → let p = counted (λ s. record s { lines = s.lines + 1 }) q in
        on_line decode hostname min_span (print_line (ds ∷ fs) id) now q ≡ (
          if tracked (value id) p
          then on_action decode hostname min_span ev.action ev now p
          else one_dropped p)
  unfolding on_line on_quick on_action on_result
  on_line-on_action decode hostname min_span ev now q h =
      let p = counted (λ s. record s { lines = s.lines + 1 }) q in
      ap (λ k. on_quick decode hostname min_span k (print_line (ds ∷ fs) id) now p)
        (quick-print_line p)
      ∙ elim (Bool-cases (tracked (value id) p)) [
        | inl kept ↦
            let result : on_result ev p ≡ one_folded (fold (value id) (values_of (ds ∷ fs)) p) =
              on_result_progress ev (value id) (values_of (ds ∷ fs)) p h ∙ rw kept in
            rw kept
              (sym (ap (λ a. on_action decode hostname min_span a ev now p) h.result ∙ result))
        | inr skipped ↦ rw skipped refl
      ]
