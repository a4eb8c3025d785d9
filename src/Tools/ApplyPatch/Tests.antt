-- ===== src/Tools/ApplyPatch/Tests.antt =====
-- pkg/tools/applypatch/applypatch.go on concrete patches.
use swarmd.Prelude.{
  All, ◌≡◌, ◌≢◌, refl, String, true, false, [], ◌∷◌, Option, none, some, ok, err, is_empty,
  trim_space,
}
use swarmd.Tools.Lines.{
  has_trailing_newline, contains_zero, split_preserving_line_structure, scanner_lines,
}
use swarmd.Tools.ApplyPatch.{
  context, added, removed, PatchHunk, update, PatchFileOp, hunk_not_found, out_of_fuel, ParsedPatch,
  add,
}
use swarmd.Tools.ApplyPatch.Parse.{
  parse_apply_patch, parse_lines, parse_ops, parse_add_file_op, parse_added_lines,
  parse_update_file_op, parse_hunks, parse_change_lines,
}
use swarmd.Tools.ApplyPatch.Parse.Print.{print_patch, IsFileOp}
use swarmd.Tools.ApplyPatch.Parse.Back.{parse_lines-print_patch}
use swarmd.Tools.ApplyPatch.Parse.Fuel.{parse_apply_patch-ends}
use swarmd.Tools.ApplyPatch.Hunks.{apply_patch_hunks, old_lines, new_lines, splice_lines}
use swarmd.Tools.ApplyPatch.Hunks.Edits.{
  Edits, Stuck, apply_patch_hunks-Edits, apply_patch_hunks-Stuck,
}
use swarmd.Tools.ApplyPatch.Files.{
  not_exist, ToolContext, hunk_error, output, policy_error, added_content, updated_content,
  apply_patch_file_op, handle, byte_length,
}
use swarmd.Tools.ApplyPatch.Files.Contents.{split-updated_content}
use swarmd.Tools.ApplyPatch.Files.Updates.{IsUpdate, apply_patch_file_op-IsUpdate}
use swarmd.Tools.ApplyPatch.Files.Reports.{apply_patch_file_op-keeps, Report, handle-Report}

patch_code : Unit {0}
unfolding parse_apply_patch apply_patch_hunks handle apply_patch_file_op added_content
    updated_content split_preserving_line_structure is_empty trim_space scanner_lines old_lines
    new_lines splice_lines parse_lines parse_ops parse_add_file_op parse_added_lines
    parse_update_file_op parse_hunks parse_change_lines byte_length contains_zero
    has_trailing_newline
patch_code = tt

-- A file system with at most one file.
abbrev one_file : ToolContext (Option String)
one_file = record {
  resolve_path = λ p. ok p;
  stat = λ s p. elim s [ none ↦ err not_exist | some t ↦ ok (record { is_dir = false; perm = 0 }) ];
  mkdir_all = λ s p. (ok tt, s);
  read_all = λ s p. elim s [ none ↦ err not_exist | some t ↦ ok t ];
  write_file = λ s p t perm. (ok tt, some t);
  dir = λ p. "/";
  to_slash = λ p. p;
}

abbrev change : String → String → PatchHunk
change old new = record {
  header = "";
  lines =
      record { kind = context; content = "a" }
      ∷ record { kind = removed; content = old }
      ∷ record { kind = added; content = new }
      ∷ [];
}

abbrev update_op : PatchHunk → PatchFileOp
update_op h = record { action = update; path = "/f"; add_lines = []; hunks = h ∷ [] }

abbrev patch_text : String
patch_text =
    "*** Begin Patch\n*** Update File: /f\n@@ top\n a\n-b\n+x\n*** End of File\n*** End Patch\n"

handle_updates :
    handle one_file (some "a\nb\nc\n") patch_text
    ≡ (output "Patch applied successfully.\n1|update|/f\n", some "a\nx\nc\n")
unfolding patch_code
handle_updates = refl

-- A patch that adds a file and then fails leaves the new file behind.
handle_is_not_atomic :
    handle one_file none
      "*** Begin Patch\n*** Add File: /f\n+a\n*** Update File: /f\n@@\n-b\n+x\n*** End Patch"
    ≡ (policy_error (hunk_error "/f" (hunk_not_found "")), some "a\n")
unfolding patch_code
handle_is_not_atomic = refl

applies : apply_patch_hunks ("c" ∷ "a" ∷ "b" ∷ []) (change "b" "x" ∷ []) ≡ ok ("c" ∷ "a" ∷ "x" ∷ [])
unfolding patch_code
applies = refl

refused : apply_patch_hunks ("c" ∷ "a" ∷ "b" ∷ []) (change "c" "x" ∷ []) ≡ err (hunk_not_found "")
unfolding patch_code
refused = refl

apply_patch_hunks-Edits_example :
    Edits 0 ("c" ∷ "a" ∷ "b" ∷ []) (change "b" "x" ∷ []) ("c" ∷ "a" ∷ "x" ∷ [])
apply_patch_hunks-Edits_example =
    apply_patch_hunks-Edits ("c" ∷ "a" ∷ "b" ∷ []) (change "b" "x" ∷ []) applies

apply_patch_hunks-Stuck_example :
    Stuck 0 ("c" ∷ "a" ∷ "b" ∷ []) (change "c" "x" ∷ []) (hunk_not_found "")
apply_patch_hunks-Stuck_example =
    apply_patch_hunks-Stuck ("c" ∷ "a" ∷ "b" ∷ []) (change "c" "x" ∷ []) refused

ends_in_newline : has_trailing_newline "a\n" ≡ true
unfolding has_trailing_newline is_empty
ends_in_newline = refl

split-updated_content_example :
    split_preserving_line_structure (updated_content "a\n" ("x" ∷ "" ∷ [])) ≡ "x" ∷ "" ∷ []
split-updated_content_example =
    split-updated_content "a\n" ("x" ∷ "" ∷ []) ends_in_newline ((refl, tt), (tt, tt))

parse_apply_patch-ends_example : parse_apply_patch patch_text ≢ err out_of_fuel
parse_apply_patch-ends_example = parse_apply_patch-ends patch_text

updated_ok :
    apply_patch_file_op one_file (some "a\nb\n") (update_op (change "b" "x"))
    ≡ (ok "update|/f", some "a\nx\n")
unfolding patch_code
updated_ok = refl

apply_patch_file_op-IsUpdate_example :
    IsUpdate one_file (some "a\nb\n") (update_op (change "b" "x")) "update|/f" (some "a\nx\n")
apply_patch_file_op-IsUpdate_example =
    apply_patch_file_op-IsUpdate one_file (some "a\nb\n") (update_op (change "b" "x")) refl
      updated_ok

refused_op :
    apply_patch_file_op one_file (some "a\nb\n") (update_op (change "c" "x"))
    ≡ (err (hunk_error "/f" (hunk_not_found "")), some "a\nb\n")
unfolding patch_code
refused_op = refl

apply_patch_file_op-keeps_example : ◌≡◌ {A = Option String} (some "a\nb\n") (some "a\nb\n")
apply_patch_file_op-keeps_example =
    apply_patch_file_op-keeps one_file (some "a\nb\n") (update_op (change "c" "x")) refused_op refl

handle-Report_example :
    Report one_file (some "a\nb\nc\n") patch_text (handle one_file (some "a\nb\nc\n") patch_text)
handle-Report_example = handle-Report one_file (some "a\nb\nc\n") patch_text

abbrev two_ops : ParsedPatch
two_ops = record {
  ops =
      record { action = add; path = "/g"; add_lines = "x" ∷ "" ∷ []; hunks = [] }
      ∷ update_op (change "b" "x")
      ∷ [];
}

readable : All IsFileOp two_ops.ops
unfolding patch_code
readable = ((((refl, refl), (refl, refl))), (((refl, refl), (((refl, refl), tt), refl)), tt))

parse_lines-print_patch_example : parse_lines (print_patch two_ops) ≡ ok two_ops
parse_lines-print_patch_example = parse_lines-print_patch two_ops readable
