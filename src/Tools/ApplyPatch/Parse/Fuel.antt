-- ===== src/Tools/ApplyPatch/Parse/Fuel.antt =====
-- pkg/tools/applypatch/applypatch.go: the loops of the parser end.
use swarmd.Prelude.{
  ℕ, zero, suc, ◌≤◌, ◌≢◌, String, List, [], ◌∷◌, length, Result, ok, err, ◌>>=◌, ◌>>◌, refuse,
  trim_space, arith, err-eq-err,
}
use swarmd.Tools.Lines.{trim_prefix, scanner_lines}
use swarmd.Tools.ApplyPatch.{PatchFileOp, PatchChangeLine, ParseError, out_of_fuel, no_change_lines}
use swarmd.Tools.ApplyPatch.Parse.{
  parse_added_lines, parse_add_file_op, parse_change_line, parse_change_lines, parse_hunks,
  parse_update_file_op, parse_ops, parse_lines, parse_apply_patch, is_nil,
}

-- A parser of lines that leaves no more lines than it gets, and does not run out of fuel.
abbrev Fits : {A : Type 0} → ℕ → Result ParseError (A × List String) → Type 0
Fits n (ok (a, rest)) = length rest ≤ n
Fits n (err e) = e ≢ out_of_fuel

parse_added_lines-Fits :
    (path : String) (lines : List String) → Fits (length lines) (parse_added_lines path lines)
unfolding parse_added_lines
parse_added_lines-Fits path [] = omega arith
parse_added_lines-Fits path (line ∷ rest) = ground (arith, parse_added_lines-Fits path rest)

parse_change_line-ne : (path line : String) → parse_change_line path line ≢ err out_of_fuel
parse_change_line-ne path String.[] h = cc
parse_change_line-ne path (String.◌∷◌ c s) h = ground arith

parse_change_lines-Fits :
    (path : String) (lines : List String) → Fits (length lines) (parse_change_lines path lines)
unfolding parse_change_lines
parse_change_lines-Fits path [] = omega arith
parse_change_lines-Fits path (line ∷ rest) =
    ground (arith, parse_change_lines-Fits path rest, parse_change_line-ne path line)

parse_hunks-Fits :
    (fuel : ℕ) (path : String) (lines : List String)
    → length lines ≤ fuel
    → Fits (length lines) (parse_hunks fuel path lines)
unfolding parse_hunks
parse_hunks-Fits zero path [] le = omega arith
parse_hunks-Fits (suc fuel) path [] le = omega arith
parse_hunks-Fits zero path (line ∷ rest) le = absurd (omega arith)
parse_hunks-Fits (suc fuel) path (line ∷ rest) le = ground (
  arith,
  hunk (λ l le'. parse_hunks-Fits fuel path l le') (parse_change_lines path rest)
      (parse_change_lines-Fits path rest),
)
  where
    header : String
    header = trim_space (trim_prefix "@@" line)

    hunk :
        ((l : List String) → length l ≤ fuel → Fits (length l) (parse_hunks fuel path l))
        → (r : Result ParseError (List PatchChangeLine × List String)) → Fits (length rest) r
        → Fits (length (line ∷ rest)) (
            r >>= λ r.
            refuse (is_nil r.0) (no_change_lines path header)
            >> (parse_hunks fuel path r.1 >>= λ more.
                ok (record { header = header; lines = r.0 } ∷ more.0, more.1)))
    hunk ih (ok (ls, left)) fits = ground (arith, ih left)
    hunk ih (err e) fits = fits

parse_add_file_op-Fits :
    (line : String) (rest : List String) → Fits (length rest) (parse_add_file_op line rest)
unfolding parse_add_file_op
parse_add_file_op-Fits line rest =
    ground (arith, parse_added_lines-Fits (trim_space (trim_prefix "*** Add File: " line)) rest)

parse_update_file_op-Fits :
    (line : String) (rest : List String) → Fits (length rest) (parse_update_file_op line rest)
unfolding parse_update_file_op
parse_update_file_op-Fits line rest =
    ground (
      arith,
      parse_hunks-Fits (length rest) (trim_space (trim_prefix "*** Update File: " line)) rest,
    )

parse_ops-ne :
    (fuel : ℕ) (lines : List String) → length lines ≤ fuel → parse_ops fuel lines ≢ err out_of_fuel
unfolding parse_ops
parse_ops-ne zero [] le h = cc
parse_ops-ne (suc fuel) [] le h = cc
parse_ops-ne zero (line ∷ rest) le h = absurd (omega arith)
parse_ops-ne (suc fuel) (line ∷ rest) le h = ground (
  arith,
  op (λ l le'. parse_ops-ne fuel l le') (parse_add_file_op line rest)
      (parse_add_file_op-Fits line rest),
  op (λ l le'. parse_ops-ne fuel l le') (parse_update_file_op line rest)
      (parse_update_file_op-Fits line rest),
)
  where
    op :
        ((l : List String) → length l ≤ fuel → parse_ops fuel l ≢ err out_of_fuel)
        → (r : Result ParseError (PatchFileOp × List String)) → Fits (length rest) r
        → (r >>= λ r. parse_ops fuel r.1 >>= λ more. ok (r.0 ∷ more)) ≢ err out_of_fuel
    op ih (ok (o, left)) fits e = ground (arith, ih left)
    op ih (err x) fits e = fits (err-eq-err e)

-- The loops of the parser end: with one step for each line of the patch, no patch runs out of steps.
pub parse_apply_patch-ends : (input : String) → parse_apply_patch input ≢ err out_of_fuel
unfolding parse_apply_patch parse_lines
parse_apply_patch-ends input h = from_lines (scanner_lines (trim_space input)) h
  where
    from_lines : (lines : List String) → parse_lines lines ≢ err out_of_fuel
    from_lines [] e = cc
    from_lines (line ∷ rest) e = ground (arith, parse_ops-ne (length rest) rest)
