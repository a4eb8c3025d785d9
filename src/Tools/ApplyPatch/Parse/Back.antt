-- ===== src/Tools/ApplyPatch/Parse/Back.antt =====
-- pkg/tools/applypatch/applypatch.go: the parser reads back the lines of a patch.
use Prim.Native.String.{String}
use swarmd.Prelude.{
  ℕ, zero, suc, ◌≤◌, ◌≡◌, refl, sym, subst, false, List, [], ◌∷◌, ◌++◌, map, All, length,
  length-append, ok, arith,
}
use swarmd.Tools.Lines.{concat}
use swarmd.Tools.ApplyPatch.{PatchHunk, PatchAction, add, update, PatchFileOp, ParsedPatch}
use swarmd.Tools.ApplyPatch.Parse.{
  is_nil, parse_add_file_op, parse_update_file_op, parse_ops, parse_lines,
}
use swarmd.Tools.ApplyPatch.Parse.Print.{
  print_hunks, print_op, print_ops, print_patch, IsTrimmed, IsHunk, IsBody, IsFileOp, Stops, stops,
  added_lines_back, not_end, not_marker, hunks_back,
}

print_ops-Stops : (ops : List PatchFileOp) → Stops (print_ops ops)
print_ops-Stops [] = stops "*** End Patch" [] refl refl
print_ops-Stops (op ∷ ops) = by_action op.action refl
  where
    by_action : (k : PatchAction) → op.action ≡ k → Stops (print_ops (op ∷ ops))
    by_action add e = rw e (stops (concat "*** Add File: " op.path) _ refl (not_marker _ refl))
    by_action update e =
        rw e (stops (concat "*** Update File: " op.path) _ refl (not_marker _ refl))

module _ (fuel : ℕ) (path : String) (trimmed : IsTrimmed path) (rest : List String)
    (ops : List PatchFileOp) (stop : Stops rest) (ih : parse_ops fuel rest ≡ ok ops) where
  add_back :
      (ls : List String)
      → is_nil ls ≡ false
      → parse_ops (suc fuel) (concat "*** Add File: " path ∷ (map (concat "+") ls ++ rest))
        ≡ ok (record { action = add; path = path; add_lines = ls; hunks = [] } ∷ ops)
  unfolding parse_ops parse_add_file_op
  add_back ls some_lines =
      rw
        (
          not_end (concat "*** Add File: " path) "*** End Patch" refl refl,
          trimmed.1,
          trimmed.0,
          added_lines_back path ls rest stop,
          some_lines,
          ih,
        )
        refl

  update_back :
      (hs : List PatchHunk)
      → All IsHunk hs
      → parse_ops (suc fuel) (concat "*** Update File: " path ∷ (print_hunks hs ++ rest))
        ≡ ok (record { action = update; path = path; add_lines = []; hunks = hs } ∷ ops)
  unfolding parse_ops parse_update_file_op
  update_back hs ok_hunks =
      rw
        (
          not_end (concat "*** Update File: " path) "*** End Patch" refl refl,
          trimmed.1,
          trimmed.0,
          hunks_back (length (print_hunks hs ++ rest)) path hs rest (omega arith) ok_hunks stop,
          ih,
        )
        refl

-- An operation of the parser has no lines of the other kind.
op_parts :
    (op : PatchFileOp) (k : PatchAction) (ls : List String) (hs : List PatchHunk)
    → op.action ≡ k
    → op.add_lines ≡ ls
    → op.hunks ≡ hs
    → record { action = k; path = op.path; add_lines = ls; hunks = hs } ≡ op
op_parts op k ls hs a l h =
    sym (λ i. record { action = a i; path = op.path; add_lines = l i; hunks = h i })

Stops-length : (lines : List String) → Stops lines → 1 ≤ length lines
Stops-length _ (stops line rest e n) = omega arith

print_op-length : (op : PatchFileOp) → 1 ≤ length (print_op op)
print_op-length op = by_action op.action refl
  where
    by_action : (k : PatchAction) → op.action ≡ k → 1 ≤ length (print_op op)
    by_action add e = rw e (omega arith)
    by_action update e = rw e (omega arith)

op_back :
    (fuel : ℕ) (op : PatchFileOp) (ops : List PatchFileOp)
    → IsFileOp op
    → parse_ops fuel (print_ops ops) ≡ ok ops
    → parse_ops (suc fuel) (print_op op ++ print_ops ops) ≡ ok (op ∷ ops)
op_back fuel op ops ok_op ih = by_action op.action refl
  where
    by_action :
        (k : PatchAction)
        → op.action ≡ k
        → parse_ops (suc fuel) (print_op op ++ print_ops ops) ≡ ok (op ∷ ops)
    by_action add e =
        let (some_lines, no_hunks) = subst (IsBody op) e ok_op.1 in
        subst (λ o. parse_ops (suc fuel) (print_op o ++ print_ops ops) ≡ ok (o ∷ ops))
          (op_parts op add op.add_lines [] e refl no_hunks)
          (add_back fuel op.path ok_op.0 (print_ops ops) ops (print_ops-Stops ops) ih op.add_lines
            some_lines)
    by_action update e =
        let (ok_hunks, no_lines) = subst (IsBody op) e ok_op.1 in
        subst (λ o. parse_ops (suc fuel) (print_op o ++ print_ops ops) ≡ ok (o ∷ ops))
          (op_parts op update [] op.hunks e no_lines refl)
          (update_back fuel op.path ok_op.0 (print_ops ops) ops (print_ops-Stops ops) ih op.hunks
            ok_hunks)

ops_back :
    (fuel : ℕ) (ops : List PatchFileOp)
    → length (print_ops ops) ≤ fuel
    → All IsFileOp ops
    → parse_ops fuel (print_ops ops) ≡ ok ops
unfolding parse_ops
ops_back zero ops le ok_ops = absurd (omega (arith, Stops-length _ (print_ops-Stops ops)))
ops_back (suc fuel) [] le ok_ops = refl
ops_back (suc fuel) (op ∷ ops) le ok_ops = op_back fuel op ops ok_ops.0 (
    ops_back fuel ops
      (omega (arith, length-append (print_op op) (print_ops ops), print_op-length op)) ok_ops.1)

-- The parser reads back the lines of every patch whose paths and headers are trimmed, whose paths
-- are not empty, and whose additions and hunks have lines.
pub parse_lines-print_patch :
    (patch : ParsedPatch) → All IsFileOp patch.ops → parse_lines (print_patch patch) ≡ ok patch
unfolding parse_lines
parse_lines-print_patch patch ok_ops =
    rw (ops_back (length (print_ops patch.ops)) patch.ops (omega arith) ok_ops) refl
