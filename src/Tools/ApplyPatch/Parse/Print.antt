-- ===== src/Tools/ApplyPatch/Parse/Print.antt =====
-- pkg/tools/applypatch/applypatch.go: the lines of a patch, as the tool's grammar has them, and the
-- lines of its operations read back.
use Prim.Native.String.{String}
use swarmd.Prelude.{
  ℕ, zero, suc, ◌≤◌, ◌≡◌, refl, ap, ◌∙◌, true, false, ◌||◌, List, [], ◌∷◌, ◌++◌, map, All, if_true,
  is_empty, trim_space, length, length-append, ◌==◌, eq_iff, ok, arith, append_assoc,
}
use swarmd.Tools.Lines.{concat, has_prefix}
use swarmd.Tools.ApplyPatch.{
  ChangeKind, context, added, removed, PatchChangeLine, PatchHunk, PatchAction, add, update,
  PatchFileOp, ParsedPatch,
}
use swarmd.Tools.ApplyPatch.Parse.{
  is_nil, parse_added_lines, parse_change_line, parse_change_lines, parse_hunks,
}

abbrev pub print_change_line : PatchChangeLine → String
print_change_line l = elim l.kind [
  | context ↦ concat " " l.content
  | added ↦ concat "+" l.content
  | removed ↦ concat "-" l.content
]

abbrev pub print_hunks : List PatchHunk → List String
print_hunks [] = []
print_hunks (h ∷ hs) = concat "@@ " h.header ∷ (map print_change_line h.lines ++ print_hunks hs)

abbrev pub print_op : PatchFileOp → List String
print_op op = elim op.action [
  | add ↦ concat "*** Add File: " op.path ∷ map (concat "+") op.add_lines
  | update ↦ concat "*** Update File: " op.path ∷ print_hunks op.hunks
]

abbrev pub print_ops : List PatchFileOp → List String
print_ops [] = "*** End Patch" ∷ []
print_ops (op ∷ ops) = print_op op ++ print_ops ops

abbrev pub print_patch : ParsedPatch → List String
print_patch patch = "*** Begin Patch" ∷ print_ops patch.ops

-- A text that the parser keeps: not empty, and without spaces around it.
abbrev pub IsTrimmed : String → Type 0
IsTrimmed s = (is_empty s ≡ false) × (trim_space s ≡ s)

-- A hunk with lines, whose header has no spaces around it.
abbrev pub IsHunk : PatchHunk → Type 0
IsHunk h = (is_nil h.lines ≡ false) × (trim_space (concat " " h.header) ≡ h.header)

abbrev pub IsBody : PatchFileOp → PatchAction → Type 0
IsBody op add = (is_nil op.add_lines ≡ false) × (op.hunks ≡ [])
IsBody op update = All IsHunk op.hunks × (op.add_lines ≡ [])

abbrev pub IsFileOp : PatchFileOp → Type 0
IsFileOp op = IsTrimmed op.path × IsBody op op.action

-- Lines whose first line ends an operation.
pub data Stops : List String → Type 0 where
  stops :
      (line : String) (rest : List String)
      → has_prefix "*** " line ≡ true
      → (line == "*** End of File") ≡ false
      → Stops (line ∷ rest)

pub added_lines_back :
    (path : String) (ls rest : List String)
    → Stops rest
    → parse_added_lines path (map (concat "+") ls ++ rest) ≡ ok (ls, rest)
unfolding parse_added_lines
added_lines_back path [] [] s = elim s [ ]
added_lines_back path [] (line ∷ rest) (stops _ _ e n) = if_true _ _ e
added_lines_back path (l ∷ ls) rest s = rw (added_lines_back path ls rest s) refl

pub not_end :
    (line marker : String)
    → has_prefix "*** E" marker ≡ true
    → has_prefix "*** E" line ≡ false
    → (line == marker) ≡ false
not_end line marker m h = ground (arith, eq_iff line marker, same)
  where
    same : line ≡ marker → has_prefix "*** E" line ≡ has_prefix "*** E" marker
    same e = ap (has_prefix "*** E") e

pub not_marker :
    (line : String) → has_prefix "*** E" line ≡ false → (line == "*** End of File") ≡ false
not_marker line h = not_end line "*** End of File" refl h

-- Lines whose first line ends a hunk.
data Ends : List String → Type 0 where
  ends :
      (line : String) (rest : List String)
      → (has_prefix "@@" line || has_prefix "*** " line) ≡ true
      → (line == "*** End of File") ≡ false
      → Ends (line ∷ rest)

Stops-Ends : (rest : List String) → Stops rest → Ends rest
Stops-Ends _ (stops line rest e n) = ends line rest (ground arith) n

change_line_back :
    (path : String) (l : PatchChangeLine)
    → ((print_change_line l == "*** End of File") ≡ false)
      × ((has_prefix "@@" (print_change_line l) || has_prefix "*** " (print_change_line l)) ≡ false)
      × (parse_change_line path (print_change_line l) ≡ ok l)
change_line_back path l = back l.kind refl
  where
    back :
        (k : ChangeKind)
        → l.kind ≡ k
        → ((print_change_line l == "*** End of File") ≡ false)
          × ((has_prefix "@@" (print_change_line l) || has_prefix "*** " (print_change_line l))
              ≡ false)
          × (parse_change_line path (print_change_line l) ≡ ok l)
    back context e = rw e (not_marker (concat " " l.content) refl, refl, refl)
    back added e = rw e (not_marker (concat "+" l.content) refl, refl, refl)
    back removed e = rw e (not_marker (concat "-" l.content) refl, refl, refl)

change_lines_back :
    (path : String) (ls : List PatchChangeLine) (rest : List String)
    → Ends rest
    → parse_change_lines path (map print_change_line ls ++ rest) ≡ ok (ls, rest)
unfolding parse_change_lines
change_lines_back path [] [] s = elim s [ ]
change_lines_back path [] (line ∷ rest) (ends _ _ e n) = rw (n, e) refl
change_lines_back path (l ∷ ls) rest s =
    let (marker, header, parsed) = change_line_back path l in
    rw (marker, header, parsed, change_lines_back path ls rest s) refl

print_hunks-Ends :
    (hs : List PatchHunk) (rest : List String) → Stops rest → Ends (print_hunks hs ++ rest)
print_hunks-Ends [] rest s = Stops-Ends rest s
print_hunks-Ends (h ∷ hs) rest s =
    ends (concat "@@ " h.header) _ refl (not_marker (concat "@@ " h.header) refl)

pub hunks_back :
    (fuel : ℕ) (path : String) (hs : List PatchHunk) (rest : List String)
    → length (print_hunks hs ++ rest) ≤ fuel
    → All IsHunk hs
    → Stops rest
    → parse_hunks fuel path (print_hunks hs ++ rest) ≡ ok (hs, rest)
unfolding parse_hunks
hunks_back zero path [] [] le ok_hunks s = elim s [ ]
hunks_back zero path [] (line ∷ rest) le ok_hunks s = absurd (omega arith)
hunks_back zero path (h ∷ hs) rest le ok_hunks s = absurd (omega arith)
hunks_back (suc fuel) path [] [] le ok_hunks s = elim s [ ]
hunks_back (suc fuel) path [] (line ∷ rest) le ok_hunks (stops _ _ e n) = if_true _ _ e
hunks_back (suc fuel) path (h ∷ hs) rest le ok_hunks s =
    let ih =
      hunks_back fuel path hs rest
        (omega (
          arith,
          length-append (map print_change_line h.lines ++ print_hunks hs) rest,
          length-append (map print_change_line h.lines) (print_hunks hs),
          length-append (print_hunks hs) rest,
        ))
        ok_hunks.1 s in
    let lines =
      ap (parse_change_lines path)
        (append_assoc (map print_change_line h.lines) (print_hunks hs) rest)
      ∙ change_lines_back path h.lines (print_hunks hs ++ rest) (print_hunks-Ends hs rest s) in
    rw (lines, ok_hunks.0.0, ih, ok_hunks.0.1) refl
