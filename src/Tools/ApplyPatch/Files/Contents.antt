-- ===== src/Tools/ApplyPatch/Files/Contents.antt =====
-- pkg/tools/applypatch/applypatch.go: the text that a patch writes, line by line.
use Prim.Native.String.{String}
use swarmd.Prelude.{◌≡◌, refl, ◌∙◌, true, List, [], ◌∷◌, is_empty, All, arith}
use swarmd.Tools.Lines.{has_trailing_newline, split_preserving_line_structure, join_newlines}
use swarmd.Tools.Lines.Split.{
  IsLine, join_with, join_with-split, split_preserving_line_structure-join,
}
use swarmd.Tools.ApplyPatch.Files.{added_content, updated_content}

updated_content-join_with :
    (t : String) (ss : List String) → updated_content t ss ≡ join_with (has_trailing_newline t) ss
unfolding updated_content join_newlines
updated_content-join_with t [] = ground arith
updated_content-join_with t (s ∷ ss) = ground arith

-- A file whose lines are not changed is written as it was read, whether its last line ends in a
-- newline or not.
pub updated_content-split :
    (original : String)
    → updated_content original (split_preserving_line_structure original) ≡ original
updated_content-split t =
    updated_content-join_with t (split_preserving_line_structure t) ∙ join_with-split t

-- A file that ended in a newline has, after a patch, exactly the lines that the patch made, as long
-- as none of these has a newline in it.
pub split-updated_content :
    (original : String) (updated : List String)
    → has_trailing_newline original ≡ true
    → All IsLine updated
    → split_preserving_line_structure (updated_content original updated) ≡ updated
unfolding updated_content join_newlines split_preserving_line_structure is_empty
split-updated_content t [] ends h = rw ends refl
split-updated_content t (s ∷ ss) ends h = rw ends (split_preserving_line_structure-join s ss h)

-- A new file has exactly the added lines, as long as none of these has a newline in it.
pub split-added_content :
    (lines : List String)
    → All IsLine lines
    → split_preserving_line_structure (added_content lines) ≡ lines
unfolding added_content join_newlines split_preserving_line_structure is_empty
split-added_content [] h = refl
split-added_content (s ∷ ss) h = split_preserving_line_structure-join s ss h
