-- ===== src/Sandbox/Fs/Safe.antt =====
-- Which calls of the system the methods of pkg/sh/sandbox/sandbox.go make.
use swarmd.Prelude.{
  ◌≡◌, refl, sym, ap, subst, Bool, true, false, ◌⊎◌, ◌↔◌, inl, inr, String, if◌then◌else◌, Result,
  ok, err, ◌>>=◌, ◌>>◌, guard, guard->>, >>=-eq-ok, ok-eq-ok,
}
use swarmd.Sandbox.Paths.{FilePath, AbsPath, is_within_root, join_from}
use swarmd.Sandbox.Paths.Within.{
  Names, IsBelow, is_within_root-IsBelow, IsBelow-is_within_root, join_from-Names,
}
use swarmd.Sandbox.Fs.{
  FsError, permission, Found, found, missing, failed, OsCall, os_open, os_read_dir, os_stat,
  os_lstat, os_remove, os_readlink, os_remove_all, os_open_file, os_chmod, os_mkdir, os_mkdir_all,
  os_write_file, os_rename, os_link, os_symlink, os_chtimes, open_null, stat_null, lstat_null,
  open_file_null, FsOp, open_path, read_dir, stat, lstat, remove, readlink, remove_all, open_file,
  chmod, mkdir, mkdir_all, write_file, rename, link, symlink, chtimes, Os, is_dev_null, within_or,
  abs_from, check_symlink_target, first_existing_path, or_missing, check_final, check_path,
  or_denied, allow, null_or, on_path, plan, perform, run,
}

module _ {S R : Type 0} (os : Os S R) (root : AbsPath) (s : S) where
  -- The path is below the root by its names, the part of it that exists is below the root when links
  -- are followed, and so is all of it, if it exists, where the call follows a link at its end.
  pub record IsSafe (p : AbsPath) (follow_final : Bool) : Type 0 where
    pub names : Names p
    pub below : IsBelow root p
    pub existing :
        (q q' : AbsPath) × (first_existing_path os root s p ≡ ok q)
        × (os.eval_symlinks s q ≡ found q')
        × IsBelow root q'
    pub final :
        (q : AbsPath) → follow_final ≡ true → os.eval_symlinks s p ≡ found q → IsBelow root q

  abbrev pub SafeCall : OsCall → Type 0
  SafeCall (os_open p) = IsSafe p true
  SafeCall (os_open_file p flag perm) = IsSafe p true
  SafeCall (os_read_dir p) = IsSafe p true
  SafeCall (os_stat p) = IsSafe p true
  SafeCall (os_lstat p) = IsSafe p false
  SafeCall (os_remove p) = IsSafe p false
  SafeCall (os_readlink p) = IsSafe p false
  SafeCall (os_rename p q) = IsSafe p false × IsSafe q false
  SafeCall (os_chmod p mode) = IsSafe p true
  SafeCall (os_mkdir p perm) = IsSafe p false
  SafeCall (os_mkdir_all p perm) = IsSafe p false
  SafeCall (os_remove_all p) = IsSafe p false
  SafeCall (os_write_file p bytes perm) = IsSafe p true
  SafeCall (os_link p q) = IsSafe p true × IsSafe q false
  SafeCall (os_symlink target p) = IsSafe p false
  SafeCall (os_chtimes p atime mtime) = IsSafe p true
  SafeCall open_null = Unit
  SafeCall stat_null = Unit
  SafeCall lstat_null = Unit
  SafeCall (open_file_null flag perm) = Unit

  abs_from-IsBelow :
      (dir : AbsPath) (path : FilePath) {p : AbsPath}
      → abs_from root dir path ≡ ok p
      → Names p × IsBelow root p
  unfolding abs_from
  abs_from-IsBelow dir path {p} h =
      let (within, same) =
        guard->> (permission "sandbox" (join_from dir path))
          (is_within_root root (join_from dir path)) _ h in
      let e = ok-eq-ok same in
      (
        subst Names e (join_from-Names dir path),
        subst (IsBelow root) e (is_within_root-IsBelow root (join_from dir path) within),
      )

  or_missing-found : {A : Type 0} (o : Found A) {a : A} → or_missing os root o ≡ ok a → o ≡ found a
  or_missing-found (found a) h = cc
  or_missing-found missing h = cc
  or_missing-found (failed e) h = cc

  check_final-IsBelow :
      (p : AbsPath) (o : Found AbsPath) {q : AbsPath}
      → check_final os root p o ≡ ok tt
      → o ≡ found q
      → IsBelow root q
  check_final-IsBelow p o {q} h e =
      is_within_root-IsBelow root q
        (within (is_within_root root q) (subst (λ x. check_final os root p x ≡ ok tt) e h))
    where
      within : (b : Bool) → guard b (permission "sandbox" q) ≡ ok tt → b ≡ true
      within true k = refl
      within false k = cc

  check_path-IsSafe :
      (p : AbsPath) (follow_final : Bool)
      → Names p
      → check_path os root s p follow_final ≡ ok tt
      → IsSafe p follow_final
  unfolding check_path
  check_path-IsSafe p follow_final names h =
      let (within, h₁) = guard->> _ (is_within_root root p) _ h in
      let (q, first, h₂) = >>=-eq-ok (first_existing_path os root s p) _ h₁ in
      let (q', resolved, h₃) = >>=-eq-ok (or_missing os root (os.eval_symlinks s q)) _ h₂ in
      let (inside, h₄) = guard->> _ (is_within_root root q') _ h₃ in
      record {
        names = names;
        below = is_within_root-IsBelow root p within;
        existing =
            (q, q', first, or_missing-found _ resolved, is_within_root-IsBelow root q' inside);
        final = λ x follows e. check_final-IsBelow p (os.eval_symlinks s p) (rw follows at h₄) e;
      }

  or_denied-ok :
      (op : String) (p : AbsPath) (r : Result FsError (Unit {0})) {q : AbsPath}
      → or_denied os root op p r ≡ ok q
      → (r ≡ ok tt) × (p ≡ q)
  or_denied-ok op p (ok u) h = (refl, ok-eq-ok h)
  or_denied-ok op p (err e) h = cc

  allow-IsSafe :
      (op : String) (follow_final : Bool) (path : FilePath) {p : AbsPath}
      → allow os root op follow_final path s ≡ ok p
      → IsSafe p follow_final
  unfolding allow
  allow-IsSafe op follow_final path h =
      let (q, absolute_path, h₁) = >>=-eq-ok (abs_from root root path) _ h in
      let (checked, same) = or_denied-ok op q (check_path os root s q follow_final) h₁ in
      subst (λ x. IsSafe x follow_final) same
        (check_path-IsSafe q follow_final (abs_from-IsBelow root path absolute_path).0 checked)

  on_path-SafeCall :
      (op : String) (follow_final : Bool) (path : FilePath) (k : AbsPath → OsCall) (c : OsCall)
      → ((p : AbsPath) → IsSafe p follow_final → SafeCall (k p))
      → on_path os root (allow os root op follow_final path s) k ≡ ok c
      → SafeCall c
  on_path-SafeCall op follow_final path k c safe h =
      let (p, allowed, same) = >>=-eq-ok (allow os root op follow_final path s) _ h in
      subst SafeCall (ok-eq-ok same) (safe p (allow-IsSafe op follow_final path allowed))

  null_or-SafeCall :
      (path : FilePath) (n : OsCall) (r : Result FsError OsCall) (c : OsCall)
      → SafeCall n
      → (r ≡ ok c → SafeCall c)
      → null_or os root path n r ≡ ok c
      → SafeCall c
  null_or-SafeCall path n r c null safe h = at_test (is_dev_null path) h
    where
      at_test : (b : Bool) → (if b then ok n else r) ≡ ok c → SafeCall c
      at_test true e = subst SafeCall (ok-eq-ok e) null
      at_test false e = safe e

  two_paths-SafeCall :
      (op : String) (follow_first : Bool) (old new : FilePath) (k : AbsPath → AbsPath → OsCall)
      (c : OsCall)
      → ((p q : AbsPath) → IsSafe p follow_first → IsSafe q false → SafeCall (k p q))
      → (allow os root op follow_first old s >>= λ p.
          on_path os root (allow os root op false new s) (k p))
        ≡ ok c
      → SafeCall c
  two_paths-SafeCall op follow_first old new k c safe h =
      let (p, allowed, h₁) = >>=-eq-ok (allow os root op follow_first old s) _ h in
      on_path-SafeCall op false new (k p) c
        (λ q. safe p q (allow-IsSafe op follow_first old allowed)) h₁

  symlink-SafeCall :
      (target new : FilePath) (c : OsCall)
      → (allow os root "symlink" false new s >>= λ p.
          check_symlink_target root p target >> ok (os_symlink target p))
        ≡ ok c
      → SafeCall c
  symlink-SafeCall target new c h =
      let (p, allowed, h₁) = >>=-eq-ok (allow os root "symlink" false new s) _ h in
      at_target (check_symlink_target root p target) p (allow-IsSafe "symlink" false new allowed) h₁
    where
      at_target :
          (r : Result FsError (Unit {0})) (p : AbsPath)
          → IsSafe p false
          → (r >> ok (os_symlink target p)) ≡ ok c
          → SafeCall c
      at_target (ok u) p safe e = subst SafeCall (ok-eq-ok e) safe
      at_target (err x) p safe e = cc

  plan-SafeCall : (op : FsOp) (c : OsCall) → plan os root op s ≡ ok c → SafeCall c
  unfolding plan
  plan-SafeCall (open_path path) c =
      null_or-SafeCall path open_null _ c tt (on_path-SafeCall "open" true path _ c (λ p h. h))
  plan-SafeCall (read_dir path) c = on_path-SafeCall "readdir" true path _ c (λ p h. h)
  plan-SafeCall (stat path) c =
      null_or-SafeCall path stat_null _ c tt (on_path-SafeCall "stat" true path _ c (λ p h. h))
  plan-SafeCall (lstat path) c =
      null_or-SafeCall path lstat_null _ c tt (on_path-SafeCall "stat" false path _ c (λ p h. h))
  plan-SafeCall (remove path) c = on_path-SafeCall "remove" false path _ c (λ p h. h)
  plan-SafeCall (readlink path) c = on_path-SafeCall "readlink" false path _ c (λ p h. h)
  plan-SafeCall (remove_all path) c = on_path-SafeCall "remove" false path _ c (λ p h. h)
  plan-SafeCall (open_file path flag perm) c =
      null_or-SafeCall path (open_file_null flag perm) _ c tt
        (on_path-SafeCall "open" true path _ c (λ p h. h))
  plan-SafeCall (chmod path mode) c = on_path-SafeCall "chmod" true path _ c (λ p h. h)
  plan-SafeCall (mkdir path perm) c = on_path-SafeCall "mkdir" false path _ c (λ p h. h)
  plan-SafeCall (mkdir_all path perm) c = on_path-SafeCall "mkdir" false path _ c (λ p h. h)
  plan-SafeCall (write_file path bytes perm) c = on_path-SafeCall "write" true path _ c (λ p h. h)
  plan-SafeCall (rename old new) c =
      two_paths-SafeCall "rename" false old new os_rename c (λ p q h k. (h, k))
  plan-SafeCall (link old new) c =
      two_paths-SafeCall "link" true old new os_link c (λ p q h k. (h, k))
  plan-SafeCall (symlink target new) c = symlink-SafeCall target new c
  plan-SafeCall (chtimes path atime mtime) c = on_path-SafeCall "chtimes" true path _ c (λ p h. h)

  -- Every method of the file system gives an error and leaves the system alone, or makes one call, on
  -- the null device or on paths that are safe: below the root by their names, the part that exists
  -- below the root when links are followed, and all of it so where the call follows a link at its end.
  pub run-SafeCall :
      (op : FsOp)
      → ((e : FsError) × (run os root op s ≡ (err e, s)))
        ⊎ ((c : OsCall) × (run os root op s ≡ os.call c s) × SafeCall c)
  unfolding run
  run-SafeCall op = at_plan (plan os root op s) refl
    where
      at_plan :
          (r : Result FsError OsCall)
          → plan os root op s ≡ r
          → ((e : FsError) × (perform os root r s ≡ (err e, s)))
            ⊎ ((c : OsCall) × (perform os root r s ≡ os.call c s) × SafeCall c)
      at_plan (ok c) h = inr (c, refl, plan-SafeCall op c h)
      at_plan (err e) h = inl (e, refl)

-- A path is resolved against a directory exactly if its cleaned form is the path of the root with
-- perhaps more names, and that form is what comes back.
pub abs_from-ok_iff :
    (root dir : AbsPath) (path : FilePath) (p : AbsPath)
    → (abs_from root dir path ≡ ok p) ↔ ((p ≡ join_from dir path) × IsBelow root p)
unfolding abs_from
abs_from-ok_iff root dir path p = (there, back)
  where
    there :
        (within_or root "sandbox" (join_from dir path) >> ok (join_from dir path)) ≡ ok p
        → (p ≡ join_from dir path) × IsBelow root p
    there h =
        let (within, same) =
          guard->> (permission "sandbox" (join_from dir path))
            (is_within_root root (join_from dir path)) _ h in
        let e = ok-eq-ok same in
        (sym e, subst (IsBelow root) e (is_within_root-IsBelow root (join_from dir path) within))

    back :
        (p ≡ join_from dir path) × IsBelow root p
        → (within_or root "sandbox" (join_from dir path) >> ok (join_from dir path)) ≡ ok p
    back (e, below) =
        let within =
          IsBelow-is_within_root root (join_from dir path) (join_from-Names dir path)
            (subst (IsBelow root) e below) in
        rw within (ap ok (sym e))
