-- ===== src/Tools/Lines.antt =====
-- pkg/tools/common/common.go, and what Go's `strings` does for it: lines of a text.
pub mod Split
use Prim.Native.Char.{Char, code}
use Prim.Native.String.{String}
use swarmd.Prelude.{
  ℕ, zero, suc, Bool, true, false, ◌&&◌, ◌||◌, List, [], ◌∷◌, ◌++◌, if◌then◌else◌, eqb, ltb,
  is_empty, trim_space,
}

-- `left + right` on strings.
abbrev pub concat : String → String → String
concat String.[] t = t
concat (String.◌∷◌ c s) t = String.◌∷◌ c (concat s t)

-- `strings.HasPrefix(text, prefix)`, the prefix first.
abbrev pub has_prefix : String → String → Bool
has_prefix String.[] t = true
has_prefix (String.◌∷◌ c s) String.[] = false
has_prefix (String.◌∷◌ c s) (String.◌∷◌ d t) = eqb (code c) (code d) && has_prefix s t

abbrev pub drop_chars : String → String → String
drop_chars String.[] t = t
drop_chars (String.◌∷◌ c s) String.[] = String.[]
drop_chars (String.◌∷◌ c s) (String.◌∷◌ d t) = drop_chars s t

-- `strings.TrimPrefix(text, prefix)`, the prefix first.
abbrev pub trim_prefix : String → String → String
trim_prefix p t = if has_prefix p t then drop_chars p t else t

abbrev pub is_newline : Char → Bool
is_newline c = eqb (code c) 10

abbrev pub push_char : Char → List String → List String
push_char c [] = String.◌∷◌ c String.[] ∷ []
push_char c (s ∷ ss) = String.◌∷◌ c s ∷ ss

-- `strings.Split(text, "\n")`
unfoldable pub split_newlines : String → List String
split_newlines String.[] = String.[] ∷ []
split_newlines (String.◌∷◌ c s) =
    if is_newline c then String.[] ∷ split_newlines s else push_char c (split_newlines s)

-- `strings.Join(lines, "\n")`
unfoldable pub join_newlines : List String → String
join_newlines [] = ""
join_newlines (s ∷ []) = s
join_newlines (s ∷ t ∷ ts) = concat s (concat "\n" (join_newlines (t ∷ ts)))

-- `strings.HasSuffix(text, "\n")`
unfoldable pub has_trailing_newline : String → Bool
has_trailing_newline String.[] = false
has_trailing_newline (String.◌∷◌ c s) = if is_empty s then is_newline c else has_trailing_newline s

-- `strings.ContainsRune(text, '\x00')`
unfoldable pub contains_zero : String → Bool
contains_zero String.[] = false
contains_zero (String.◌∷◌ c s) = if eqb (code c) 0 then true else contains_zero s

-- The list without its last item, if that is empty.
abbrev pub drop_empty_last : List String → List String
drop_empty_last [] = []
drop_empty_last (s ∷ []) = if is_empty s then [] else s ∷ []
drop_empty_last (s ∷ t ∷ ts) = s ∷ drop_empty_last (t ∷ ts)

unfoldable pub split_preserving_line_structure : String → List String
unfolding split_newlines
split_preserving_line_structure t = if is_empty t then [] else drop_empty_last (split_newlines t)

unfoldable pub scanner_lines : String → List String
unfolding split_newlines
scanner_lines t =
    if is_empty t || is_empty (trim_space t) then [] else split_newlines (trim_space t)

abbrev pub max_int : ℕ → ℕ → ℕ
max_int l r = if ltb r l then l else r
