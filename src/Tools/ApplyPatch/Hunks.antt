-- ===== src/Tools/ApplyPatch/Hunks.antt =====
-- pkg/tools/applypatch/applypatch.go: the hunks of a patch, applied to the lines of a file.
pub mod Match
pub mod Edits
use swarmd.Prelude.{
  ℕ, zero, suc, ◌+◌, ◌-◌, String, Bool, true, false, ◌&&◌, List, [], ◌∷◌, ◌++◌, Option, none, some,
  if◌then◌else◌, eqb, ltb, leb, ◌==◌, length, take, drop, Result, ok, err,
}
use swarmd.Tools.ApplyPatch.{
  ChangeKind, context, added, removed, PatchChangeLine, PatchHunk, HunkError, hunk_not_found,
}

abbrev pub is_old : ChangeKind → Bool
is_old context = true
is_old added = false
is_old removed = true

abbrev pub is_new : ChangeKind → Bool
is_new context = true
is_new added = true
is_new removed = false

-- `patchHunkSlices`, one result each.
unfoldable pub old_lines : List PatchChangeLine → List String
old_lines [] = []
old_lines (l ∷ ls) = if is_old l.kind then l.content ∷ old_lines ls else old_lines ls

unfoldable pub new_lines : List PatchChangeLine → List String
new_lines [] = []
new_lines (l ∷ ls) = if is_new l.kind then l.content ∷ new_lines ls else new_lines ls

abbrev pub all_equal : List String → List String → Bool
all_equal [] ys = true
all_equal (x ∷ xs) [] = false
all_equal (x ∷ xs) (y ∷ ys) = if x == y then all_equal xs ys else false

unfoldable pub patch_line_slice_equal : List String → List String → Bool
patch_line_slice_equal xs ys = if eqb (length xs) (length ys) then all_equal xs ys else false

-- The loop of `findPatchMatch`: `rest` are the lines from `idx` on.
unfoldable pub scan_match : List String → ℕ → List String → Option ℕ
unfolding patch_line_slice_equal
scan_match target idx [] = none
scan_match target idx (line ∷ rest) =
    let next = scan_match target (suc idx) rest in
    if leb (length target) (length (line ∷ rest))
    then (if patch_line_slice_equal (take (length target) (line ∷ rest)) target
        then some idx
        else next)
    else none

-- `none` is the result -1.
unfoldable pub find_patch_match : List String → List String → ℕ → Option ℕ
unfolding scan_match
find_patch_match lines [] start = some (if ltb (length lines) start then length lines else start)
find_patch_match lines (t ∷ ts) start = scan_match (t ∷ ts) start (drop start lines)

unfoldable pub splice_lines : List String → ℕ → ℕ → List String → List String
splice_lines lines start end replacement = take start lines ++ replacement ++ drop end lines

-- Where a hunk is applied: from the cursor on, and else anywhere.
unfoldable pub locate : List String → List String → ℕ → Option ℕ
unfolding find_patch_match
locate lines target cursor = elim (find_patch_match lines target cursor) [
  | none ↦ find_patch_match lines target 0
  | some idx ↦ some idx
]

-- The loop of `applyPatchHunks`.
unfoldable pub apply_from :
    (cursor : ℕ) → List String → List PatchHunk → Result HunkError (List String)
unfolding locate old_lines
apply_from cursor current [] = ok current
apply_from cursor current (h ∷ hs) = elim (locate current (old_lines h.lines) cursor) [
  | none ↦ err (hunk_not_found h.header)
  | some idx ↦
      apply_from (idx + length (new_lines h.lines))
        (splice_lines current idx (idx + length (old_lines h.lines)) (new_lines h.lines)) hs
]

unfoldable pub apply_patch_hunks : List String → List PatchHunk → Result HunkError (List String)
unfolding apply_from
apply_patch_hunks lines hunks = apply_from 0 lines hunks
