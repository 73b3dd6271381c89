-- ===== src/Workspace/Publish/Atomic.antt =====
-- The lock file is replaced as a whole or not at all.
use nix_repo_base.Base.{
  String, ◌≡◌, refl, ap, sym, ◌∙◌, ◌||◌, Bool, true, false, not, none, some, [], ◌∷◌, All, str_eq,
  eq_iff, if◌then◌else◌, arith, Bool-cases, inl, inr, ◌⊎◌,
}
use nix_repo_base.Workspace.Config.{Lock}
use nix_repo_base.Workspace.Lock.{written_lock}
use nix_repo_base.Workspace.Publish.{
  Content, complete, incomplete, Directory, put, remove, Calls, Outcomes, write_lock_atomic,
}

module _ (dest tmp : String) (lock : Lock) (old : Directory) where
  -- The directory but for the temporary file: as before, or with the whole new lock.
  abbrev pub Whole : Directory → Type 0
  Whole d =
      ((k : String) → str_eq tmp k ≡ false → d k ≡ old k)
      ⊎ ((k : String)
          → str_eq tmp k ≡ false
          → d k ≡ (if str_eq dest k then some (complete (written_lock lock)) else old k))

  -- Without an error the new lock is there; with one the directory is as before, but for the temporary
  -- file where it cannot be removed.
  abbrev pub Settled : Bool → Outcomes → Type 0
  Settled removable o = elim o.error [
    | none ↦
        (k : String)
        → o.final k ≡ (if str_eq dest k then some (complete (written_lock lock)) else old k)
    | some e ↦ (k : String) → removable || not (str_eq tmp k) ≡ true → o.final k ≡ old k
  ]

  same : Whole old
  same = inl (λ k other. refl)

  abbrev whole : Content
  whole = complete (written_lock lock)

  kept : (c : Content) → Whole (put tmp c old)
  kept c = inl (λ k other. rw other refl)

  module _ (fresh : old tmp ≡ none) where
    unused : (k : String) → str_eq tmp k ≡ true → old k ≡ none
    unused k h = ap old (sym ((eq_iff tmp k).0 h)) ∙ fresh

    cleaned :
        (c : Content) (r : Bool) → Whole (if r then remove tmp (put tmp c old) else put tmp c old)
    cleaned c true = inl (λ k other. rw other refl)
    cleaned c false = kept c

    restored :
        (c : Content) (r : Bool) (k : String)
        → r || not (str_eq tmp k) ≡ true
        → (if r then remove tmp (put tmp c old) else put tmp c old) k ≡ old k
    restored c true k h = ground (arith, unused k)
    restored c false k h = ground arith

    undone_at :
        (r : Bool)
        → let final = (if r then remove tmp (put tmp incomplete old) else put tmp incomplete old) in
          All Whole (old ∷ put tmp incomplete old ∷ final ∷ [])
          × ((k : String) → r || not (str_eq tmp k) ≡ true → final k ≡ old k)
    undone_at r = ((same, (kept incomplete, (cleaned incomplete r, tt))), restored incomplete r)

    -- Whatever call fails, and after whichever call the process is killed: if the name of the temporary
    -- file is new, every other file is as before, but that the lock file may be the whole new one; the
    -- new one is there, and no temporary file, where no error is returned; and after an error every file
    -- is as before, except the temporary one where it cannot be removed.
    pub write_lock_atomic_sound :
        (calls : Calls)
        → All Whole (write_lock_atomic dest tmp lock calls old).states
          × Settled calls.remove_temp (write_lock_atomic dest tmp lock calls old)
    unfolding write_lock_atomic
    write_lock_atomic_sound calls =
        let r = calls.remove_temp in
        let undone = undone_at r in
        elim (Bool-cases calls.create_temp) [
          | inr a ↦ rw a ((same, tt), λ k clear. refl)
          | inl a ↦ elim (Bool-cases calls.close_temp) [
            | inr b ↦ rw (a, b) undone
            | inl b ↦ elim (Bool-cases calls.marshal) [
              | inr c ↦ rw (a, b, c) undone
              | inl c ↦ elim (Bool-cases calls.write_file) [
                | inr e ↦ rw (a, b, c, e) undone
                | inl e ↦ elim (Bool-cases calls.rename_temp) [
                  | inr f ↦
                      rw (a, b, c, e, f)
                        (
                          (same, (kept incomplete, (kept whole, (cleaned whole r, tt)))),
                          restored whole r,
                        )
                  | inl f ↦
                      rw (a, b, c, e, f)
                        (
                          (
                            same,
                            (kept incomplete, (kept whole, (inr (λ k other. rw other refl), tt))),
                          ),
                          λ k. ground (arith, unused k),
                        )
                ]
              ]
            ]
          ]
        ]
