-- ===== src/Sandbox/Paths.antt =====
-- Paths as pkg/sh/sandbox/sandbox.go handles them, with what it uses of path/filepath where the
-- separator is the slash. A text that is a path is given by its parts between the slashes.
pub mod Within
use swarmd.Prelude.{
  Bool, true, false, not, ◌&&◌, ◌||◌, String, List, [], ◌∷◌, ◌++◌, if◌then◌else◌, ◌==◌, is_empty,
}

-- `/usr//lib/` is `absolute ("usr" ∷ "" ∷ "lib" ∷ "" ∷ [])`.
pub data FilePath : Type 0 where
  no_path : FilePath
  absolute relative : List String → FilePath

-- An absolute path that was cleaned: the names from the root of the system on.
abbrev pub AbsPath : Type 0
AbsPath = List String

abbrev pub parent : AbsPath → AbsPath
parent [] = []
parent (s ∷ up) = up

abbrev pub push : AbsPath → String → AbsPath
push up s = if is_empty s || s == "." then up else if s == ".." then parent up else s ∷ up

-- The names met so far, the last one first.
unfoldable pub walk : AbsPath → List String → AbsPath
walk up [] = up
walk up (s ∷ ss) = walk (push up s) ss

unfoldable pub reverse_onto : AbsPath → AbsPath → AbsPath
reverse_onto acc [] = acc
reverse_onto acc (s ∷ up) = reverse_onto (s ∷ acc) up

-- `filepath.Clean` of an absolute path.
unfoldable pub clean : List String → AbsPath
unfolding walk reverse_onto
clean ss = reverse_onto [] (walk [] ss)

abbrev pub ups : AbsPath → List String
ups [] = []
ups (s ∷ ss) = ".." ∷ ups ss

-- `filepath.Rel` of two clean absolute paths; the empty list stands for `.`.
unfoldable pub rel : AbsPath → AbsPath → List String
rel [] p = p
rel (r ∷ rs) [] = ".." ∷ ups rs
rel (r ∷ rs) (s ∷ ss) =
    let below = rel rs ss in if r == s then below else ".." ∷ (ups rs ++ (s ∷ ss))

abbrev pub goes_down : List String → Bool
goes_down [] = true
goes_down (s ∷ ss) = not (s == "..")

-- `isWithinRoot`
unfoldable pub is_within_root : AbsPath → AbsPath → Bool
unfolding rel
is_within_root root p = goes_down (rel root p)

-- The part of `absFrom` before its test.
unfoldable pub join_from : AbsPath → FilePath → AbsPath
unfolding clean
join_from dir no_path = clean dir
join_from dir (absolute ss) = clean ss
join_from dir (relative ss) = clean (dir ++ ss)
