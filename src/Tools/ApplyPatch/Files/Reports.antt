-- ===== src/Tools/ApplyPatch/Files/Reports.antt =====
-- pkg/tools/applypatch/applypatch.go: an operation that is refused, and what a patch reports.
use swarmd.Prelude.{
  ◌≡◌, refl, ap, inl, inr, String, Bool, true, false, List, [], ◌∷◌, ◌++◌, Result, ok, err,
  Result-cases, Bool-cases, arith,
}
use swarmd.Tools.Lines.{concat}
use swarmd.Tools.ApplyPatch.{PatchFileOp, ParsedPatch}
use swarmd.Tools.ApplyPatch.Parse.{parse_apply_patch}
use swarmd.Tools.ApplyPatch.Files.{
  FileInfo, FsError, ToolContext, OpError, fs_error, StepResult, output, parse_error, policy_error,
  patch_file_perm, max_apply_patch_file_bytes, write_result, write_new, added_content,
  default_apply_patch_perm, read_text_file_limited, patched_content, update_known,
  apply_add_file_op, apply_update_file_op, apply_patch_file_op, apply_ops, with_summary, or_stop,
  report, handle, number_summaries,
}

-- Whether an error comes from the file system.
abbrev pub by_fs : OpError → Bool
by_fs (fs_error x) = true
by_fs _ = false

module _ {S : Type 0} (ctx : ToolContext S) where
  write_result-by_fs :
      (word resolved : String) (w : Result FsError (Unit {0}) × S) {e : OpError} {s' : S}
      → write_result ctx word resolved w ≡ (err e, s')
      → by_fs e ≡ true
  unfolding write_result
  write_result-by_fs word resolved (ok u, s) h = ground arith
  write_result-by_fs word resolved (err x, s) h = ground arith

  write_new-by_fs :
      (resolved : String) (lines : List String) (w : Result FsError (Unit {0}) × S) {e : OpError}
      {s' : S}
      → write_new ctx resolved lines w ≡ (err e, s')
      → by_fs e ≡ true
  unfolding write_new
  write_new-by_fs resolved lines (ok u, s) h =
      write_result-by_fs "add|" resolved
        (ctx.write_file s resolved (added_content lines) default_apply_patch_perm) h
  write_new-by_fs resolved lines (err x, s) h = ground arith

  update_known-keeps :
      (s : S) (resolved : String) (op : PatchFileOp) (info : FileInfo) {e : OpError} {s' : S}
      → update_known ctx s resolved op info ≡ (err e, s')
      → by_fs e ≡ false
      → s' ≡ s
  unfolding update_known
  update_known-keeps s resolved op info {e = e} {s' = s'} h checked =
      elim (Bool-cases info.is_dir) [
        | inl d ↦ ground arith
        | inr f ↦
            elim (Result-cases (read_text_file_limited ctx s resolved max_apply_patch_file_bytes)) [
              | inl (original, r) ↦
                  elim (Result-cases (patched_content ctx resolved op.hunks original)) [
                    | inl (content, p) ↦ absurd (
                        clash
                          (write_result-by_fs "update|" resolved
                            (ctx.write_file s resolved content (patch_file_perm info.perm)) {e = e}
                            {s' = s'} (ground arith))
                          checked)
                    | inr (x, p) ↦ ground arith
                  ]
              | inr (x, r) ↦ ground arith
            ]
      ]
    where
      clash : {b : Bool} → b ≡ true → b ≡ false → ⊥
      clash p q = cc

  apply_add_file_op-keeps :
      (s : S) (resolved : String) (op : PatchFileOp) {e : OpError} {s' : S}
      → apply_add_file_op ctx s resolved op ≡ (err e, s')
      → by_fs e ≡ false
      → s' ≡ s
  unfolding apply_add_file_op
  apply_add_file_op-keeps s resolved op {e = e} {s' = s'} h checked = ground (
    arith,
    write_new-by_fs resolved op.add_lines (ctx.mkdir_all s (ctx.dir resolved)) {e = e} {s' = s'},
  )

  -- An operation that one of its own checks refuses, and not the file system, has changed nothing.
  pub apply_patch_file_op-keeps :
      (s : S) (op : PatchFileOp) {e : OpError} {s' : S}
      → apply_patch_file_op ctx s op ≡ (err e, s')
      → by_fs e ≡ false
      → s' ≡ s
  unfolding apply_patch_file_op apply_update_file_op
  apply_patch_file_op-keeps s op {e = e} {s' = s'} h checked =
      elim (Result-cases (ctx.resolve_path op.path)) [
        | inl (resolved, path) ↦ elim (Result-cases (ctx.stat s resolved)) [
          | inl (info, known) ↦ ground (
            arith,
            apply_add_file_op-keeps s resolved op {e = e} {s' = s'},
            update_known-keeps s resolved op info {e = e} {s' = s'},
          )
          | inr (x, known) ↦ ground (arith, apply_add_file_op-keeps s resolved op {e = e} {s' = s'})
        ]
        | inr (x, path) ↦ ground arith
      ]

  -- The operations that were carried out, in order, with their summaries.
  pub data Applied : S → List PatchFileOp → List String → S → Type 0 where
    none_left : (s : S) → Applied s [] [] s
    one_more :
        (op : PatchFileOp) (ops : List PatchFileOp) (summary : String) (summaries : List String)
        (s mid s' : S)
        → apply_patch_file_op ctx s op ≡ (ok summary, mid)
        → Applied mid ops summaries s'
        → Applied s (op ∷ ops) (summary ∷ summaries) s'

  -- Operations of which the first ones were carried out, and the next one failed.
  pub record Failed (s : S) (ops : List PatchFileOp) (e : OpError) (s' : S) : Type 0 where
    pub front : List PatchFileOp
    pub op : PatchFileOp
    pub back : List PatchFileOp
    pub parts : ops ≡ front ++ (op ∷ back)
    pub summaries : List String
    pub mid : S
    pub applied : Applied s front summaries mid
    pub failed : apply_patch_file_op ctx mid op ≡ (err e, s')

  abbrev Run : S → List PatchFileOp → Result OpError (List String) × S → Type 0
  Run s ops (ok summaries, s') = Applied s ops summaries s'
  Run s ops (err e, s') = Failed s ops e s'

  with_summary-Run :
      (s : S) (op : PatchFileOp) (ops : List PatchFileOp) (summary : String) (mid : S)
      → apply_patch_file_op ctx s op ≡ (ok summary, mid)
      → (r : Result OpError (List String) × S) → Run mid ops r
      → Run s (op ∷ ops) (with_summary ctx summary r)
  with_summary-Run s op ops summary mid e (ok summaries, s') run =
      one_more op ops summary summaries s mid s' e run
  with_summary-Run s op ops summary mid e (err x, s') run = record {
    front = op ∷ run.front;
    op = run.op;
    back = run.back;
    parts = ap (λ l. op ∷ l) run.parts;
    summaries = summary ∷ run.summaries;
    mid = run.mid;
    applied = one_more op run.front summary run.summaries s mid run.mid e run.applied;
    failed = run.failed;
  }

  or_stop-Run :
      (s : S) (op : PatchFileOp) (ops : List PatchFileOp) (r : Result OpError String × S)
      → apply_patch_file_op ctx s op ≡ r
      → (rest : S → Result OpError (List String) × S) → ((mid : S) → Run mid ops (rest mid))
      → Run s (op ∷ ops) (or_stop ctx r rest)
  or_stop-Run s op ops (ok summary, mid) e rest all =
      with_summary-Run s op ops summary mid e (rest mid) (all mid)
  or_stop-Run s op ops (err x, s') e rest all = record {
    front = [];
    op = op;
    back = ops;
    parts = refl;
    summaries = [];
    mid = s;
    applied = none_left s;
    failed = e;
  }

  apply_ops-Run : (s : S) (ops : List PatchFileOp) → Run s ops (apply_ops ctx s ops)
  unfolding apply_ops
  apply_ops-Run s [] = none_left s
  apply_ops-Run s (op ∷ ops) =
      or_stop-Run s op ops (apply_patch_file_op ctx s op) refl (λ s'. apply_ops ctx s' ops)
        (λ s'. apply_ops-Run s' ops)

  -- What the result of a call says of the patch and of the file system.
  abbrev pub Report : S → String → StepResult × S → Type 0
  Report s input (output t, s') =
      (patch : ParsedPatch) × (parse_apply_patch input ≡ ok patch)
      × ((summaries : List String) × Applied s patch.ops summaries s'
          × (t ≡ concat "Patch applied successfully.\n" (number_summaries 1 summaries)))
  Report s input (parse_error e, s') = (parse_apply_patch input ≡ err e) × (s' ≡ s)
  Report s input (policy_error e, s') =
      (patch : ParsedPatch) × (parse_apply_patch input ≡ ok patch) × Failed s patch.ops e s'

  reported :
      (s : S) (input : String) (patch : ParsedPatch) (r : Result OpError (List String) × S)
      → parse_apply_patch input ≡ ok patch
      → Run s patch.ops r
      → Report s input (report ctx r)
  reported s input patch (ok summaries, s') e run = (patch, e, (summaries, run, refl))
  reported s input patch (err x, s') e run = (patch, e, run)

  -- A call reports success only if the text is a patch all of whose operations were carried out in
  -- order, and then it lists their summaries; a parse error only if the text is no patch, and then
  -- the file system is as it was; and a policy error only if an operation of the patch failed, and
  -- then those before it, and no others, were carried out.
  pub handle-Report : (s : S) (input : String) → Report s input (handle ctx s input)
  unfolding handle
  handle-Report s input = elim (Result-cases (parse_apply_patch input)) [
    | inl (patch, e) ↦ rw (handle, e) (reported s input patch _ e (apply_ops-Run s patch.ops))
    | inr (x, e) ↦ rw (handle, e) (e, refl)
  ]
