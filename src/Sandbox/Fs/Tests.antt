-- ===== src/Sandbox/Fs/Tests.antt =====
-- The file system of pkg/sh/sandbox/sandbox.go over a system with one link that leads out.
use swarmd.Prelude.{
  ℕ, ◌+◌, ◌≡◌, refl, ◌⊎◌, ◌↔◌, [], ◌∷◌, if◌then◌else◌, ◌==◌, ◌&&◌, ok, err, is_empty,
}
use swarmd.Sandbox.Paths.{FilePath, relative, AbsPath, join_from, is_within_root}
use swarmd.Sandbox.Paths.Within.{IsBelow}
use swarmd.Sandbox.Fs.{
  FsError, permission, found, OsCall, open_path, Os, run, abs_from, allow, check_path,
  first_existing_path,
}
use swarmd.Sandbox.Fs.Safe.{SafeCall, run-SafeCall, abs_from-ok_iff}

-- `/box/out` is a link to `/etc`.
abbrev follow : AbsPath → AbsPath
follow (a ∷ b ∷ rest) = if a == "box" && b == "out" then "etc" ∷ rest else a ∷ b ∷ rest
follow p = p

-- The state counts the calls.
abbrev one_link : Os ℕ ℕ
one_link = record {
  lstat = λ s p. found tt;
  eval_symlinks = λ s p. found (follow p);
  call = λ c s. (ok s, s + 1);
}

abbrev box : AbsPath
box = "box" ∷ []

abbrev notes : FilePath
notes = relative ("a" ∷ ".." ∷ "notes" ∷ [])

opens : run one_link box (open_path notes) 0 ≡ (ok 0, 1)
unfolding run allow abs_from check_path first_existing_path join_from is_within_root is_empty
opens = refl

up_is_refused :
    run one_link box (open_path (relative (".." ∷ "etc" ∷ []))) 0
    ≡ (err (permission "sandbox" ("etc" ∷ [])), 0)
unfolding run allow abs_from check_path first_existing_path join_from is_within_root is_empty
up_is_refused = refl

link_is_refused :
    run one_link box (open_path (relative ("out" ∷ "passwd" ∷ []))) 0
    ≡ (err (permission "open" ("box" ∷ "out" ∷ "passwd" ∷ [])), 0)
unfolding run allow abs_from check_path first_existing_path join_from is_within_root is_empty
link_is_refused = refl

run-SafeCall_example :
    ((e : FsError) × (run one_link box (open_path notes) 0 ≡ (err e, 0)))
    ⊎ ((c : OsCall) × (run one_link box (open_path notes) 0 ≡ one_link.call c 0)
        × SafeCall one_link box 0 c)
run-SafeCall_example = run-SafeCall one_link box 0 (open_path notes)

abs_from-ok_iff_example :
    (abs_from box box notes ≡ ok ("box" ∷ "notes" ∷ []))
    ↔ ((("box" ∷ "notes" ∷ []) ≡ join_from box notes) × IsBelow box ("box" ∷ "notes" ∷ []))
abs_from-ok_iff_example = abs_from-ok_iff box box notes ("box" ∷ "notes" ∷ [])
