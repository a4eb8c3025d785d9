-- ===== src/Sandbox/Fs.antt =====
-- pkg/sh/sandbox/sandbox.go: the methods of the file system, down to the calls of the system.
pub mod Safe
mod Tests
use swarmd.Prelude.{
  ℕ, Bool, true, false, not, ◌&&◌, ◌||◌, String, List, [], ◌∷◌, ◌++◌, if◌then◌else◌, ◌==◌, eqb,
  is_empty, Result, ok, err, ◌>>=◌, ◌>>◌, guard,
}
use Prim.Native.Char.{code}
use swarmd.Prelude.Outcomes.{Call, Outcome}
use swarmd.Sandbox.Paths.{
  FilePath, no_path, absolute, relative, AbsPath, parent, clean, reverse_onto, is_within_root,
  join_from,
}

-- A `pathError` with its operation, or an error of the system.
pub data FsError : Type 0 where
  permission : String → AbsPath → FsError
  no_such_file : FsError
  os_error : String → FsError

-- What the system says of a path: `fs.ErrNotExist` is `missing`.
pub data Found (A : Type 0) : Type 0 where
  found : A → Found A
  missing : Found A
  failed : FsError → Found A

-- The calls of the package os, and of `interp.OSFileSystem` on the null device.
pub data OsCall : Type 0 where
  os_open os_read_dir os_stat os_lstat os_remove os_readlink os_remove_all : AbsPath → OsCall
  os_open_file : AbsPath → (flag perm : ℕ) → OsCall
  os_chmod os_mkdir os_mkdir_all : AbsPath → ℕ → OsCall
  os_write_file : AbsPath → List ℕ → ℕ → OsCall
  os_rename os_link : AbsPath → AbsPath → OsCall
  os_symlink : FilePath → AbsPath → OsCall
  os_chtimes : AbsPath → ℕ → ℕ → OsCall
  open_null stat_null lstat_null : OsCall
  open_file_null : (flag perm : ℕ) → OsCall

-- The methods of `FS`.
pub data FsOp : Type 0 where
  open_path read_dir stat lstat remove readlink remove_all : FilePath → FsOp
  open_file : FilePath → (flag perm : ℕ) → FsOp
  chmod mkdir mkdir_all : FilePath → ℕ → FsOp
  write_file : FilePath → List ℕ → ℕ → FsOp
  rename link : FilePath → FilePath → FsOp
  symlink : FilePath → FilePath → FsOp
  chtimes : FilePath → ℕ → ℕ → FsOp

-- The system on a state of a type S: `os.Lstat` and `filepath.EvalSymlinks` as the tests use them, and
-- the calls that the methods make.
pub record Os (S R : Type 0) : Type 0 where
  pub lstat : S → AbsPath → Found (Unit {0})
  pub eval_symlinks : S → AbsPath → Found AbsPath
  pub call : OsCall → Call FsError S R

-- `interp.IsDevNullPath`
abbrev pub is_dev_null : FilePath → Bool
is_dev_null (absolute (a ∷ b ∷ [])) = a == "dev" && b == "null"
is_dev_null _ = false

abbrev pub trim_backslashes : String → String
trim_backslashes String.[] = String.[]
trim_backslashes (String.◌∷◌ c s) =
    if eqb (code c) b'\\' then trim_backslashes s else String.◌∷◌ c s

-- `strings.TrimLeft(path, "/\\")`
abbrev pub trim_slashes : List String → List String
trim_slashes [] = []
trim_slashes (s ∷ ss) =
    let rest = trim_slashes ss in
    if is_empty (trim_backslashes s) then rest else trim_backslashes s ∷ ss

abbrev pub within_or : AbsPath → String → AbsPath → Result FsError (Unit {0})
within_or root op p = guard (is_within_root root p) (permission op p)

-- `absFrom`
unfoldable pub abs_from : AbsPath → AbsPath → FilePath → Result FsError AbsPath
abs_from root dir path = within_or root "sandbox" (join_from dir path) >> ok (join_from dir path)

-- `checkSymlinkTarget`
unfoldable pub check_symlink_target : AbsPath → AbsPath → FilePath → Result FsError (Unit {0})
check_symlink_target root place no_path = ok tt
check_symlink_target root place (absolute ss) =
    within_or root "symlink" (clean (root ++ trim_slashes ss))
check_symlink_target root place (relative ss) =
    within_or root "symlink" (clean (reverse_onto [] (parent (reverse_onto [] place)) ++ ss))

module _ {S R : Type 0} (os : Os S R) (root : AbsPath) where
  abbrev pub existing_at :
      Found (Unit {0}) → AbsPath → Result FsError AbsPath → Result FsError AbsPath
  existing_at (found u) p above = ok p
  existing_at missing p above = above
  existing_at (failed e) p above = err e

  -- The loop of `firstExistingPath`, on the names from the last one on.
  unfoldable pub existing_from : S → AbsPath → Result FsError AbsPath
  existing_from s [] = existing_at (os.lstat s []) [] (err no_such_file)
  existing_from s (name ∷ up) =
      let above = existing_from s up in
      existing_at (os.lstat s (reverse_onto [] (name ∷ up))) (reverse_onto [] (name ∷ up)) above

  -- `firstExistingPath`
  unfoldable pub first_existing_path : S → AbsPath → Result FsError AbsPath
  unfolding existing_from
  first_existing_path s p = existing_from s (reverse_onto [] p)

  abbrev pub or_missing : {A : Type 0} → Found A → Result FsError A
  or_missing (found a) = ok a
  or_missing missing = err no_such_file
  or_missing (failed e) = err e

  abbrev pub check_final : AbsPath → Found AbsPath → Result FsError (Unit {0})
  check_final p (found q) = within_or root "sandbox" q
  check_final p missing = ok tt
  check_final p (failed e) = err e

  -- `checkPath`
  unfoldable pub check_path : S → AbsPath → Bool → Result FsError (Unit {0})
  check_path s p follow_final = do
    guard (is_within_root root p) (permission "sandbox" p)
    existing ← first_existing_path s p
    resolved ← or_missing (os.eval_symlinks s existing)
    guard (is_within_root root resolved) (permission "sandbox" p)
    if follow_final then check_final p (os.eval_symlinks s p) else ok tt

  abbrev pub or_denied : String → AbsPath → Result FsError (Unit {0}) → Result FsError AbsPath
  or_denied op p (ok u) = ok p
  or_denied op p (err e) = err (permission op p)

  -- The beginning of every method: the path that the system may be asked about.
  unfoldable pub allow : String → Bool → FilePath → S → Result FsError AbsPath
  allow op follow_final path s =
      abs_from root root path >>= λ p. or_denied op p (check_path s p follow_final)

  abbrev pub null_or : FilePath → OsCall → Result FsError OsCall → Result FsError OsCall
  null_or path c other = if is_dev_null path then ok c else other

  abbrev pub on_path : Result FsError AbsPath → (AbsPath → OsCall) → Result FsError OsCall
  on_path r c = r >>= λ p. ok (c p)

  -- The call of the system that a method makes, or why it makes none.
  unfoldable pub plan : FsOp → S → Result FsError OsCall
  plan (open_path path) s = null_or path open_null (on_path (allow "open" true path s) os_open)
  plan (open_file path flag perm) s =
      null_or path (open_file_null flag perm)
        (on_path (allow "open" true path s) (λ p. os_open_file p flag perm))
  plan (read_dir path) s = on_path (allow "readdir" true path s) os_read_dir
  plan (stat path) s = null_or path stat_null (on_path (allow "stat" true path s) os_stat)
  plan (lstat path) s = null_or path lstat_null (on_path (allow "stat" false path s) os_lstat)
  plan (remove path) s = on_path (allow "remove" false path s) os_remove
  plan (readlink path) s = on_path (allow "readlink" false path s) os_readlink
  plan (rename old new) s =
      allow "rename" false old s >>= λ p. on_path (allow "rename" false new s) (os_rename p)
  plan (chmod path mode) s = on_path (allow "chmod" true path s) (λ p. os_chmod p mode)
  plan (mkdir path perm) s = on_path (allow "mkdir" false path s) (λ p. os_mkdir p perm)
  plan (mkdir_all path perm) s = on_path (allow "mkdir" false path s) (λ p. os_mkdir_all p perm)
  plan (remove_all path) s = on_path (allow "remove" false path s) os_remove_all
  plan (write_file path bytes perm) s =
      on_path (allow "write" true path s) (λ p. os_write_file p bytes perm)
  plan (link old new) s =
      allow "link" true old s >>= λ p. on_path (allow "link" false new s) (os_link p)
  plan (symlink target new) s = allow "symlink" false new s >>= λ p.
      check_symlink_target root p target >> ok (os_symlink target p)
  plan (chtimes path atime mtime) s =
      on_path (allow "chtimes" true path s) (λ p. os_chtimes p atime mtime)

  abbrev pub perform : Result FsError OsCall → Call FsError S R
  perform (ok c) s = os.call c s
  perform (err e) s = (err e, s)

  unfoldable pub run : FsOp → Call FsError S R
  unfolding plan
  run op s = perform (plan op s) s
