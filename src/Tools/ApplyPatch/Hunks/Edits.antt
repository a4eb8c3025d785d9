-- ===== src/Tools/ApplyPatch/Hunks/Edits.antt =====
-- pkg/tools/applypatch/applypatch.go: what it means that hunks apply to lines, and that
-- `applyPatchHunks` does it.
use swarmd.Prelude.{
  ℕ, ◌+◌, ◌≤◌, ◌≡◌, sym, subst, ◌⊎◌, inl, inr, String, List, [], ◌∷◌, ◌++◌, none, some, length,
  length-append, take-append, drop-append, drop-append_length, append_assoc, Result, ok, err,
  ok-eq-ok, err-eq-err, arith,
}
use swarmd.Tools.ApplyPatch.{PatchHunk, HunkError, hunk_not_found}
use swarmd.Tools.ApplyPatch.Hunks.{
  old_lines, new_lines, find_patch_match, splice_lines, locate, apply_from, apply_patch_hunks,
}
use swarmd.Tools.ApplyPatch.Hunks.Match.{
  Nowhere, NowhereFrom, IsMatchFrom, find_patch_match-IsMatchFrom,
}

-- The place of a hunk: the first match from the cursor on or, if there is none, the first of all.
pub data Place (cursor : ℕ) (old lines : List String) (at : ℕ) : Type 0 where
  ahead : IsMatchFrom cursor old lines at → Place cursor old lines at
  behind : NowhereFrom cursor old lines → IsMatchFrom 0 old lines at → Place cursor old lines at

abbrev pub Place_match :
    {cursor at : ℕ} {old lines : List String}
    → Place cursor old lines at
    → (start : ℕ) × IsMatchFrom start old lines at
Place_match {cursor = c} (ahead m) = (c, m)
Place_match (behind away m) = (0, m)

pub locate-Place :
    (lines old : List String) (cursor : ℕ)
    → cursor ≤ length lines
    → (Nowhere old lines × (locate lines old cursor ≡ none))
      ⊎ ((at : ℕ) × Place cursor old lines at × (locate lines old cursor ≡ some at))
unfolding locate
locate-Place lines old cursor le = from_cursor (find_patch_match-IsMatchFrom old lines cursor le)
  where
    from_start :
        NowhereFrom cursor old lines
        → find_patch_match lines old cursor ≡ none
        → (NowhereFrom 0 old lines × (find_patch_match lines old 0 ≡ none))
          ⊎ ((at : ℕ) × IsMatchFrom 0 old lines at × (find_patch_match lines old 0 ≡ some at))
        → (Nowhere old lines × (locate lines old cursor ≡ none))
          ⊎ ((at : ℕ) × Place cursor old lines at × (locate lines old cursor ≡ some at))
    from_start away e (inl (nowhere, e')) =
        inl ((λ pre post. nowhere pre post (omega arith)), ground arith)
    from_start away e (inr (at, m, e')) = inr (at, behind away m, ground arith)

    from_cursor :
        (NowhereFrom cursor old lines × (find_patch_match lines old cursor ≡ none))
          ⊎ ((at : ℕ) × IsMatchFrom cursor old lines at
              × (find_patch_match lines old cursor ≡ some at))
        → (Nowhere old lines × (locate lines old cursor ≡ none))
          ⊎ ((at : ℕ) × Place cursor old lines at × (locate lines old cursor ≡ some at))
    from_cursor (inl (away, e)) =
        from_start away e (find_patch_match-IsMatchFrom old lines 0 (omega arith))
    from_cursor (inr (at, m, e)) = inr (at, ahead m, ground arith)

-- Hunks one after the other, each at its place: its old lines give way to its new ones, the lines
-- around them stay, and the cursor stands behind the new ones.
pub data Edits : (cursor : ℕ) (lines : List String) → List PatchHunk → List String → Type 0 where
  done : (cursor : ℕ) (lines : List String) → Edits cursor lines [] lines
  edit :
      (cursor : ℕ) (pre post : List String) (h : PatchHunk) (hs : List PatchHunk)
      (out : List String)
      → Place cursor (old_lines h.lines) (pre ++ (old_lines h.lines ++ post)) (length pre)
      → Edits (length pre + length (new_lines h.lines)) (pre ++ (new_lines h.lines ++ post)) hs out
      → Edits cursor (pre ++ (old_lines h.lines ++ post)) (h ∷ hs) out

-- Hunks that apply up to one whose old lines are nowhere.
pub data Stuck : (cursor : ℕ) (lines : List String) → List PatchHunk → HunkError → Type 0 where
  here :
      (cursor : ℕ) (lines : List String) (h : PatchHunk) (hs : List PatchHunk)
      → Nowhere (old_lines h.lines) lines
      → Stuck cursor lines (h ∷ hs) (hunk_not_found h.header)
  after :
      (cursor : ℕ) (pre post : List String) (h : PatchHunk) (hs : List PatchHunk) (e : HunkError)
      → Place cursor (old_lines h.lines) (pre ++ (old_lines h.lines ++ post)) (length pre)
      → Stuck (length pre + length (new_lines h.lines)) (pre ++ (new_lines h.lines ++ post)) hs e
      → Stuck cursor (pre ++ (old_lines h.lines ++ post)) (h ∷ hs) e

splice_lines-parts :
    (pre old post new : List String)
    → splice_lines (pre ++ (old ++ post)) (length pre) (length pre + length old) new
      ≡ pre ++ (new ++ post)
unfolding splice_lines
splice_lines-parts pre old post new =
    rw
      (
        take-append pre (old ++ post),
        drop-append pre (old ++ post) (length old),
        drop-append_length old post,
      )
      (append_assoc pre new post)

-- What the loop returns, as the relations say it.
abbrev Verdict : ℕ → List String → List PatchHunk → Result HunkError (List String) → Type 0
Verdict cursor lines hs (ok out) = Edits cursor lines hs out
Verdict cursor lines hs (err e) = Stuck cursor lines hs e

module _ (cursor : ℕ) (h : PatchHunk) (hs : List PatchHunk) where
  placed :
      (pre post : List String) (r : Result HunkError (List String))
      → Place cursor (old_lines h.lines) (pre ++ (old_lines h.lines ++ post)) (length pre)
      → Verdict (length pre + length (new_lines h.lines)) (pre ++ (new_lines h.lines ++ post)) hs r
      → Verdict cursor (pre ++ (old_lines h.lines ++ post)) (h ∷ hs) r
  placed pre post (ok out) p v = edit cursor pre post h hs out p v
  placed pre post (err e) p v = after cursor pre post h hs e p v

  apply_from-cons :
      (pre post : List String)
      → locate (pre ++ (old_lines h.lines ++ post)) (old_lines h.lines) cursor ≡ some (length pre)
      → apply_from cursor (pre ++ (old_lines h.lines ++ post)) (h ∷ hs)
        ≡ apply_from
            (length pre + length (new_lines h.lines))
            (pre ++ (new_lines h.lines ++ post))
            hs
  unfolding apply_from
  apply_from-cons pre post e =
      rw (apply_from, e, splice_lines-parts pre (old_lines h.lines) post (new_lines h.lines))

  -- The rest of the hunks, from any cursor and lines.
  abbrev Rest : Type 0
  Rest =
      (cursor' : ℕ) (lines : List String)
      → cursor' ≤ length lines
      → Verdict cursor' lines hs (apply_from cursor' lines hs)

  at_parts :
      Rest
      → (pre post : List String)
      → Place cursor (old_lines h.lines) (pre ++ (old_lines h.lines ++ post)) (length pre)
      → locate (pre ++ (old_lines h.lines ++ post)) (old_lines h.lines) cursor ≡ some (length pre)
      → Verdict cursor
          (pre ++ (old_lines h.lines ++ post))
          (h ∷ hs)
          (apply_from cursor (pre ++ (old_lines h.lines ++ post)) (h ∷ hs))
  at_parts all pre post p e = rw (apply_from-cons pre post e) (
      placed pre post _ p (
        all _ (pre ++ (new_lines h.lines ++ post)) (
          omega (
            arith,
            length-append pre (new_lines h.lines ++ post),
            length-append (new_lines h.lines) post,
          ))))

  found :
      Rest
      → (pre post lines : List String) (at : ℕ) → lines ≡ pre ++ (old_lines h.lines ++ post)
      → length pre ≡ at
      → Place cursor (old_lines h.lines) lines at
      → locate lines (old_lines h.lines) cursor ≡ some at
      → Verdict cursor lines (h ∷ hs) (apply_from cursor lines (h ∷ hs))
  found all pre post lines at parts place =
      subst
        (λ l.
          Place cursor (old_lines h.lines) l at
          → locate l (old_lines h.lines) cursor ≡ some at
          → Verdict cursor l (h ∷ hs) (apply_from cursor l (h ∷ hs)))
        (sym parts)
        (subst
          (λ n.
            Place cursor (old_lines h.lines) (pre ++ (old_lines h.lines ++ post)) n
            → locate (pre ++ (old_lines h.lines ++ post)) (old_lines h.lines) cursor ≡ some n
            → Verdict cursor (pre ++ (old_lines h.lines ++ post)) (h ∷ hs)
                (apply_from cursor (pre ++ (old_lines h.lines ++ post)) (h ∷ hs)))
          place (at_parts all pre post))

  missed :
      (lines : List String)
      → Nowhere (old_lines h.lines) lines
      → locate lines (old_lines h.lines) cursor ≡ none
      → Verdict cursor lines (h ∷ hs) (apply_from cursor lines (h ∷ hs))
  unfolding apply_from
  missed lines nowhere e = rw (apply_from, Verdict, e) (here cursor lines h hs nowhere)

apply_from-Verdict :
    (cursor : ℕ) (lines : List String) (hs : List PatchHunk)
    → cursor ≤ length lines
    → Verdict cursor lines hs (apply_from cursor lines hs)
unfolding apply_from
apply_from-Verdict cursor lines [] le = done cursor lines
apply_from-Verdict cursor lines (h ∷ hs) le =
    elim (locate-Place lines (old_lines h.lines) cursor le) [
      | inl (nowhere, e) ↦ missed cursor h hs lines nowhere e
      | inr (at, p, e) ↦
          found cursor h hs (λ c l. apply_from-Verdict c l hs) (Place_match p).1.pre
            (Place_match p).1.post lines at (Place_match p).1.parts (Place_match p).1.place p e
    ]

Verdict-ok :
    (cursor : ℕ) (lines : List String) (hs : List PatchHunk) (r : Result HunkError (List String))
    {out : List String}
    → r ≡ ok out
    → Verdict cursor lines hs r
    → Edits cursor lines hs out
Verdict-ok cursor lines hs (ok a) e v = subst (λ x. Edits cursor lines hs x) (ok-eq-ok e) v
Verdict-ok cursor lines hs (err a) e v = cc

Verdict-err :
    (cursor : ℕ) (lines : List String) (hs : List PatchHunk) (r : Result HunkError (List String))
    {e : HunkError}
    → r ≡ err e
    → Verdict cursor lines hs r
    → Stuck cursor lines hs e
Verdict-err cursor lines hs (ok a) h v = cc
Verdict-err cursor lines hs (err a) h v = subst (λ x. Stuck cursor lines hs x) (err-eq-err h) v

-- Lines to which hunks were applied are what the hunks make of them: each hunk, in order, is put at
-- the first place from the cursor on at which its old lines stand or, if there is none, at the first
-- place of all; there its new lines replace the old ones, and all other lines stay.
pub apply_patch_hunks-Edits :
    (lines : List String) (hunks : List PatchHunk) {out : List String}
    → apply_patch_hunks lines hunks ≡ ok out
    → Edits 0 lines hunks out
unfolding apply_patch_hunks
apply_patch_hunks-Edits lines hunks h =
    Verdict-ok 0 lines hunks _ h (apply_from-Verdict 0 lines hunks (omega arith))

-- Hunks that are refused have one, named in the error, whose old lines stand nowhere in what the
-- hunks before it, all of which apply, make of the lines.
pub apply_patch_hunks-Stuck :
    (lines : List String) (hunks : List PatchHunk) {e : HunkError}
    → apply_patch_hunks lines hunks ≡ err e
    → Stuck 0 lines hunks e
unfolding apply_patch_hunks
apply_patch_hunks-Stuck lines hunks h =
    Verdict-err 0 lines hunks _ h (apply_from-Verdict 0 lines hunks (omega arith))
