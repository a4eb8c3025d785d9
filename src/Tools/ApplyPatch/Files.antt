-- ===== src/Tools/ApplyPatch/Files.antt =====
-- pkg/tools/applypatch/applypatch.go: a patch on a file system, behind the interface of the tool.
pub mod Contents
pub mod Updates
pub mod Reports
use Prim.Native.Char.{code}
use swarmd.Prelude.{
  ℕ, zero, suc, ◌+◌, ◌*◌, ◌/◌, ◌%◌, String, Bool, true, false, not, ◌&&◌, List, [], ◌∷◌, ◌++◌,
  if◌then◌else◌, eqb, ltb, length, Result, ok, err,
}
use swarmd.Tools.Lines.{
  concat, join_newlines, has_trailing_newline, contains_zero, split_preserving_line_structure,
}
use swarmd.Tools.ApplyPatch.{add, update, PatchFileOp, PatchHunk, ParseError, HunkError}
use swarmd.Tools.ApplyPatch.Parse.{is_nil, parse_apply_patch}
use swarmd.Tools.ApplyPatch.Hunks.{apply_patch_hunks}

pub record FileInfo : Type 0 where
  pub is_dir : Bool
  pub perm : ℕ

pub data FsError : Type 0 where
  not_exist : FsError
  other : String → FsError

-- What the handler uses of `core.ToolContext` and of the file system that it gives, whose state is
-- an `S`; and of path/filepath.
pub record ToolContext (S : Type 0) : Type 0 where
  pub resolve_path : String → Result FsError String
  pub stat : S → String → Result FsError FileInfo
  pub mkdir_all : S → String → Result FsError (Unit {0}) × S
  -- opens the file and reads all of it
  pub read_all : S → String → Result FsError String
  pub write_file : S → String → String → ℕ → Result FsError (Unit {0}) × S
  pub dir : String → String
  pub to_slash : String → String

pub data OpError : Type 0 where
  fs_error : FsError → OpError
  already_exists is_directory too_large binary_file : String → OpError
  hunk_error : String → HunkError → OpError

-- What the handler sets on the step.
pub data StepResult : Type 0 where
  output : String → StepResult
  parse_error : ParseError → StepResult
  policy_error : OpError → StepResult

abbrev pub default_apply_patch_perm : ℕ
default_apply_patch_perm = 420

abbrev pub max_apply_patch_file_bytes : ℕ
max_apply_patch_file_bytes = 4194304

unfoldable pub patch_file_perm : ℕ → ℕ
patch_file_perm perm = if eqb perm 0 then default_apply_patch_perm else perm

-- `len(s)`: the bytes of the UTF-8 encoding.
abbrev pub char_bytes : ℕ → ℕ
char_bytes c = if ltb c 0x80 then 1 else if ltb c 0x800 then 2 else if ltb c 0x10000 then 3 else 4

unfoldable pub byte_length : String → ℕ
byte_length String.[] = 0
byte_length (String.◌∷◌ c s) = char_bytes (code c) + byte_length s

-- The text of a new file.
unfoldable pub added_content : List String → String
unfolding join_newlines
added_content lines =
    if is_nil lines then join_newlines lines else concat (join_newlines lines) "\n"

-- The text of an updated file.
unfoldable pub updated_content : String → List String → String
updated_content original updated =
    if has_trailing_newline original && not (is_nil updated)
    then concat (join_newlines updated) "\n"
    else join_newlines updated

-- `fmt.Fprintf("%d", n)`
abbrev pub digit : ℕ → String
digit n =
    if eqb n 0
    then "0"
    else if eqb n 1
    then "1"
    else if eqb n 2
    then "2"
    else if eqb n 3
    then "3"
    else if eqb n 4
    then "4"
    else if eqb n 5
    then "5"
    else if eqb n 6
    then "6"
    else if eqb n 7
    then "7"
    else if eqb n 8
    then "8"
    else "9"

abbrev pub decimal_upto : ℕ → ℕ → String
decimal_upto zero n = digit n
decimal_upto (suc fuel) n =
    let front = decimal_upto fuel (n / 10) in
    if ltb n 10 then digit n else concat front (digit (n % 10))

abbrev pub decimal : ℕ → String
decimal n = decimal_upto n n

unfoldable pub number_summaries : ℕ → List String → String
number_summaries n [] = ""
number_summaries n (s ∷ ss) =
    concat (concat (decimal n) (concat "|" (concat s "\n"))) (number_summaries (suc n) ss)

module _ {S : Type 0} (ctx : ToolContext S) where
  -- A write, and what is said of it.
  unfoldable pub write_result :
      String → String → Result FsError (Unit {0}) × S → Result OpError String × S
  write_result word resolved (ok u, s) = (ok (concat word (ctx.to_slash resolved)), s)
  write_result word resolved (err e, s) = (err (fs_error e), s)

  unfoldable pub write_new :
      String → List String → Result FsError (Unit {0}) × S → Result OpError String × S
  unfolding write_result
  write_new resolved lines (err e, s) = (err (fs_error e), s)
  write_new resolved lines (ok u, s) =
      write_result "add|" resolved
        (ctx.write_file s resolved (added_content lines) default_apply_patch_perm)

  unfoldable pub apply_add_file_op : S → String → PatchFileOp → Result OpError String × S
  unfolding write_new
  apply_add_file_op s resolved op = elim (ctx.stat s resolved) [
    | ok info ↦ (err (already_exists resolved), s)
    | err not_exist ↦ write_new resolved op.add_lines (ctx.mkdir_all s (ctx.dir resolved))
    | err (other e) ↦ (err (fs_error (other e)), s)
  ]

  -- `toolscommon.ReadTextFileLimited`, at a limit that is positive.
  unfoldable pub read_text_file_limited : S → String → ℕ → Result OpError String
  read_text_file_limited s path limit = elim (ctx.read_all s path) [
    | ok t ↦ if ltb limit (byte_length t) then err (too_large path) else ok t
    | err e ↦ err (fs_error e)
  ]

  -- The new text of a file, from its old one.
  unfoldable pub patched_content : String → List PatchHunk → String → Result OpError String
  unfolding updated_content
  patched_content resolved hunks original =
      if contains_zero original
      then err (binary_file resolved)
      else (elim (apply_patch_hunks (split_preserving_line_structure original) hunks) [
        | ok updated ↦ ok (updated_content original updated)
        | err e ↦ err (hunk_error resolved e)
      ])

  unfoldable pub update_known : S → String → PatchFileOp → FileInfo → Result OpError String × S
  unfolding read_text_file_limited patched_content write_result
  update_known s resolved op info =
      if info.is_dir
      then (err (is_directory resolved), s)
      else (elim (read_text_file_limited s resolved max_apply_patch_file_bytes) [
        | err e ↦ (err e, s)
        | ok original ↦ elim (patched_content resolved op.hunks original) [
          | err e ↦ (err e, s)
          | ok content ↦
              write_result "update|" resolved
                (ctx.write_file s resolved content (patch_file_perm info.perm))
        ]
      ])

  unfoldable pub apply_update_file_op : S → String → PatchFileOp → Result OpError String × S
  unfolding update_known
  apply_update_file_op s resolved op = elim (ctx.stat s resolved) [
    | err e ↦ (err (fs_error e), s)
    | ok info ↦ update_known s resolved op info
  ]

  unfoldable pub apply_patch_file_op : S → PatchFileOp → Result OpError String × S
  unfolding apply_add_file_op apply_update_file_op
  apply_patch_file_op s op = elim (ctx.resolve_path op.path) [
    | err e ↦ (err (fs_error e), s)
    | ok resolved ↦ elim op.action [
      | add ↦ apply_add_file_op s resolved op
      | update ↦ apply_update_file_op s resolved op
    ]
  ]

  -- `summaries = append(summaries, summary)` in front of the rest of the loop.
  abbrev pub with_summary :
      String → Result OpError (List String) × S → Result OpError (List String) × S
  with_summary summary (ok summaries, s) = (ok (summary ∷ summaries), s)
  with_summary summary (err e, s) = (err e, s)

  abbrev pub or_stop :
      Result OpError String × S
      → (S → Result OpError (List String) × S)
      → Result OpError (List String) × S
  or_stop (ok summary, s) rest = with_summary summary (rest s)
  or_stop (err e, s) rest = (err e, s)

  -- The loop over the operations of `handle`: it stops at the first that fails.
  unfoldable pub apply_ops : S → List PatchFileOp → Result OpError (List String) × S
  apply_ops s [] = (ok [], s)
  apply_ops s (op ∷ ops) = or_stop (apply_patch_file_op s op) (λ s'. apply_ops s' ops)

  abbrev pub report : Result OpError (List String) × S → StepResult × S
  report (ok summaries, s) =
      (output (concat "Patch applied successfully.\n" (number_summaries 1 summaries)), s)
  report (err e, s) = (policy_error e, s)

  unfoldable pub handle : S → String → StepResult × S
  unfolding apply_ops number_summaries
  handle s input = elim (parse_apply_patch input) [
    | err e ↦ (parse_error e, s)
    | ok patch ↦ report (apply_ops s patch.ops)
  ]
