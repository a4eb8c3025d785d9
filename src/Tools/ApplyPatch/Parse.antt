-- ===== src/Tools/ApplyPatch/Parse.antt =====
-- pkg/tools/applypatch/applypatch.go: the parser. A list of lines stands for the lines from the
-- index on that the source passes.
pub mod Fuel
pub mod Print
pub mod Back
use Prim.Native.Char.{Char, code}
use Prim.Native.String.{String}
use swarmd.Prelude.{
  ℕ, zero, suc, Bool, true, false, ◌||◌, List, [], ◌∷◌, ◌++◌, Option, none, some, if◌then◌else◌,
  eqb, ◌==◌, is_empty, trim_space, length, Result, ok, err, ◌>>=◌, ◌>>◌, refuse, or_err,
}
use swarmd.Tools.Lines.{has_prefix, trim_prefix, scanner_lines}
use swarmd.Tools.ApplyPatch.{
  ChangeKind, context, added, removed, PatchChangeLine, PatchHunk, add, update, PatchFileOp,
  ParsedPatch, ParseError, empty_patch, missing_begin, content_after_end, missing_end,
  unexpected_line, empty_path, not_an_added_line, no_added_lines, not_a_header, empty_change_line,
  not_a_change_line, no_change_lines, out_of_fuel,
}

abbrev pub is_nil {ℓ} : {A : Type ℓ} → List A → Bool
is_nil [] = true
is_nil (x ∷ xs) = false

-- `line[1:]` of a line that is not empty.
abbrev pub tail : String → String
tail String.[] = String.[]
tail (String.◌∷◌ c s) = s

-- The loop of `parseAddFileOp`: the added lines, and the lines behind them.
unfoldable pub parse_added_lines :
    String → List String → Result ParseError (List String × List String)
parse_added_lines path [] = ok ([], [])
parse_added_lines path (line ∷ rest) =
    let more = parse_added_lines path rest in
    if has_prefix "*** " line
    then ok ([], line ∷ rest)
    else if has_prefix "+" line
    then (more >>= λ r. ok (tail line ∷ r.0, r.1))
    else err (not_an_added_line path line)

unfoldable pub parse_add_file_op :
    String → List String → Result ParseError (PatchFileOp × List String)
parse_add_file_op line rest = do
  let path = trim_space (trim_prefix "*** Add File: " line)
  refuse (is_empty path) (empty_path add)
  r ← parse_added_lines path rest
  refuse (is_nil r.0) (no_added_lines path)
  ok (record { action = add; path = path; add_lines = r.0; hunks = [] }, r.1)

-- `line[0]`, if it is one of the three.
abbrev pub change_kind : Char → Option ChangeKind
change_kind c =
    if eqb (code c) 32
    then some context
    else if eqb (code c) 43
    then some added
    else if eqb (code c) 45
    then some removed
    else none

abbrev pub parse_change_line : String → String → Result ParseError PatchChangeLine
parse_change_line path String.[] = err (empty_change_line path)
parse_change_line path (String.◌∷◌ c s) = do
  kind ← or_err (change_kind c) (not_a_change_line path (String.◌∷◌ c s))
  ok (record { kind = kind; content = s })

-- The inner loop of `parseUpdateFileOp`.
unfoldable pub parse_change_lines :
    String → List String → Result ParseError (List PatchChangeLine × List String)
parse_change_lines path [] = ok ([], [])
parse_change_lines path (line ∷ rest) =
    let more = parse_change_lines path rest in
    if line == "*** End of File"
    then ok ([], rest)
    else if has_prefix "@@" line || has_prefix "*** " line
    then ok ([], line ∷ rest)
    else (parse_change_line path line >>= λ l. more >>= λ r. ok (l ∷ r.0, r.1))

-- Its outer loop.
unfoldable pub parse_hunks :
    (fuel : ℕ) → String → List String → Result ParseError (List PatchHunk × List String)
parse_hunks fuel path [] = ok ([], [])
parse_hunks zero path (line ∷ rest) = err out_of_fuel
parse_hunks (suc fuel) path (line ∷ rest) =
    let header = trim_space (trim_prefix "@@" line) in
    let hunk =
      (parse_change_lines path rest >>= λ r.
      refuse (is_nil r.0) (no_change_lines path header)
      >> (parse_hunks fuel path r.1 >>= λ more.
          ok (record { header = header; lines = r.0 } ∷ more.0, more.1))) in
    if has_prefix "*** " line
    then ok ([], line ∷ rest)
    else if has_prefix "@@" line
    then hunk
    else err (not_a_header path line)

unfoldable pub parse_update_file_op :
    String → List String → Result ParseError (PatchFileOp × List String)
parse_update_file_op line rest = do
  let path = trim_space (trim_prefix "*** Update File: " line)
  refuse (is_empty path) (empty_path update)
  r ← parse_hunks (length rest) path rest
  ok (record { action = update; path = path; add_lines = []; hunks = r.0 }, r.1)

-- The loop of `parseApplyPatch`, behind the first line.
unfoldable pub parse_ops : (fuel : ℕ) → List String → Result ParseError (List PatchFileOp)
parse_ops fuel [] = err missing_end
parse_ops zero (line ∷ rest) = err out_of_fuel
parse_ops (suc fuel) (line ∷ rest) =
    let added_file =
      (parse_add_file_op line rest >>= λ r. parse_ops fuel r.1 >>= λ more. ok (r.0 ∷ more)) in
    let updated_file =
      (parse_update_file_op line rest >>= λ r. parse_ops fuel r.1 >>= λ more. ok (r.0 ∷ more)) in
    if line == "*** End Patch"
    then (if is_nil rest then ok [] else err content_after_end)
    else if has_prefix "*** Add File: " line
    then added_file
    else if has_prefix "*** Update File: " line
    then updated_file
    else err (unexpected_line line)

unfoldable pub parse_lines : List String → Result ParseError ParsedPatch
parse_lines [] = err empty_patch
parse_lines (line ∷ rest) =
    if line == "*** Begin Patch"
    then (parse_ops (length rest) rest >>= λ ops. ok (record { ops = ops }))
    else err missing_begin

unfoldable pub parse_apply_patch : String → Result ParseError ParsedPatch
parse_apply_patch input = parse_lines (scanner_lines (trim_space input))
