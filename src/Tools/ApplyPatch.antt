-- ===== src/Tools/ApplyPatch.antt =====
-- pkg/tools/applypatch/applypatch.go: patches, and what is wrong with a patch or its target.
pub mod Parse
pub mod Hunks
pub mod Files
mod Tests
use swarmd.Prelude.{String, List}

pub data ChangeKind : Type 0 where
  context added removed : ChangeKind

pub record PatchChangeLine : Type 0 where
  pub kind : ChangeKind
  pub content : String

pub record PatchHunk : Type 0 where
  pub header : String
  pub lines : List PatchChangeLine

pub data PatchAction : Type 0 where
  add update : PatchAction

pub record PatchFileOp : Type 0 where
  pub action : PatchAction
  pub path : String
  pub add_lines : List String
  pub hunks : List PatchHunk

pub record ParsedPatch : Type 0 where
  pub ops : List PatchFileOp

-- The errors of the parser; `out_of_fuel` is the model's own.
pub data ParseError : Type 0 where
  empty_patch missing_begin content_after_end missing_end : ParseError
  unexpected_line : String → ParseError
  empty_path : PatchAction → ParseError
  not_an_added_line : String → String → ParseError
  no_added_lines : String → ParseError
  not_a_header : String → String → ParseError
  empty_change_line : String → ParseError
  not_a_change_line : String → String → ParseError
  no_change_lines : String → String → ParseError
  out_of_fuel : ParseError

pub data HunkError : Type 0 where
  hunk_not_found : String → HunkError
