-- ===== src/Tools/ApplyPatch/Files/Updates.antt =====
-- pkg/tools/applypatch/applypatch.go: what the operations of a patch do to the file system.
use swarmd.Prelude.{
  ℕ, ◌≡◌, sym, ap, subst, ◌≤◌, inl, inr, String, false, List, Result, ok, err, ok-eq-ok,
  Result-cases, arith,
}
use swarmd.Tools.Lines.{concat, contains_zero, split_preserving_line_structure}
use swarmd.Tools.ApplyPatch.{update, PatchFileOp}
use swarmd.Tools.ApplyPatch.Hunks.{apply_patch_hunks}
use swarmd.Tools.ApplyPatch.Hunks.Edits.{Edits, apply_patch_hunks-Edits}
use swarmd.Tools.ApplyPatch.Files.{
  FileInfo, FsError, ToolContext, OpError, fs_error, patch_file_perm, byte_length,
  max_apply_patch_file_bytes, updated_content, write_result, read_text_file_limited,
  patched_content, update_known, apply_update_file_op, apply_patch_file_op,
}

module _ {S : Type 0} (ctx : ToolContext S) where
  -- An update that was written.
  pub record IsUpdate (s : S) (op : PatchFileOp) (summary : String) (s' : S) : Type 0 where
    pub resolved : String
    pub path : ctx.resolve_path op.path ≡ ok resolved
    pub info : FileInfo
    pub known : ctx.stat s resolved ≡ ok info
    pub a_file : info.is_dir ≡ false
    pub original : String
    pub content : ctx.read_all s resolved ≡ ok original
    pub small : byte_length original ≤ max_apply_patch_file_bytes
    pub a_text : contains_zero original ≡ false
    pub updated : List String
    pub edits : Edits 0 (split_preserving_line_structure original) op.hunks updated
    pub written :
        ctx.write_file s resolved (updated_content original updated) (patch_file_perm info.perm)
        ≡ (ok tt, s')
    pub told : summary ≡ concat "update|" (ctx.to_slash resolved)

  write_result-eq-ok :
      (word resolved : String) (w : Result FsError (Unit {0}) × S) {summary : String} {s' : S}
      → write_result ctx word resolved w ≡ (ok summary, s')
      → (w ≡ (ok tt, s')) × (summary ≡ concat word (ctx.to_slash resolved))
  unfolding write_result
  write_result-eq-ok word resolved (ok u, s) h =
      (ap (λ x. (ok tt, x)) (ap (λ o. o.1) h), sym (ok-eq-ok (ap (λ o. o.0) h)))
  write_result-eq-ok word resolved (err e, s) h = absurd (differ (ap (λ o. o.0) h))
    where
      differ : {x : String} → ◌≡◌ {A = Result OpError String} (err (fs_error e)) (ok x) → ⊥
      differ p = cc

  read_text_file_limited-eq-ok :
      (s : S) (path : String) (limit : ℕ) {t : String}
      → read_text_file_limited ctx s path limit ≡ ok t
      → (ctx.read_all s path ≡ ok t) × (byte_length t ≤ limit)
  unfolding read_text_file_limited
  read_text_file_limited-eq-ok s path limit h = ground arith

  patched_content-eq-ok :
      (resolved : String) (op : PatchFileOp) (original : String) {content : String}
      → patched_content ctx resolved op.hunks original ≡ ok content
      → (contains_zero original ≡ false)
        × ((updated : List String) × (apply_patch_hunks
                (split_preserving_line_structure original)
                op.hunks
              ≡ ok updated)
            × (content ≡ updated_content original updated))
  unfolding patched_content
  patched_content-eq-ok resolved op original h =
      elim (Result-cases (apply_patch_hunks (split_preserving_line_structure original) op.hunks)) [
        | inl (updated, e) ↦ (ground arith, (updated, e, ground arith))
        | inr (x, e) ↦ absurd (ground arith)
      ]

  update_known-IsUpdate :
      (s : S) (resolved : String) (op : PatchFileOp) (info : FileInfo) {summary : String} {s' : S}
      → ctx.resolve_path op.path ≡ ok resolved
      → ctx.stat s resolved ≡ ok info
      → update_known ctx s resolved op info ≡ (ok summary, s')
      → IsUpdate s op summary s'
  unfolding update_known
  update_known-IsUpdate s resolved op info {summary = summary} {s' = s'} path known h =
      elim (Result-cases (read_text_file_limited ctx s resolved max_apply_patch_file_bytes)) [
        | inl (original, e) ↦ elim (Result-cases (patched_content ctx resolved op.hunks original)) [
          | inl (content, e') ↦ written_update original content e e' (
              write_result-eq-ok "update|" resolved
                (ctx.write_file s resolved content (patch_file_perm info.perm)) (ground arith))
          | inr (x, e') ↦ absurd (ground arith)
        ]
        | inr (x, e) ↦ absurd (ground arith)
      ]
    where
      written_update :
          (original content : String)
          → read_text_file_limited ctx s resolved max_apply_patch_file_bytes ≡ ok original
          → patched_content ctx resolved op.hunks original ≡ ok content
          → (ctx.write_file s resolved content (patch_file_perm info.perm) ≡ (ok tt, s'))
            × (summary ≡ concat "update|" (ctx.to_slash resolved))
          → IsUpdate s op summary s'
      written_update original content e e' (w, told) =
          let (was, few) = read_text_file_limited-eq-ok s resolved max_apply_patch_file_bytes e in
          let (a_text, (updated, applied, same)) = patched_content-eq-ok resolved op original e' in
          record {
            resolved = resolved;
            path = path;
            info = info;
            known = known;
            a_file = ground arith;
            original = original;
            content = was;
            small = few;
            a_text = a_text;
            updated = updated;
            edits = apply_patch_hunks-Edits _ op.hunks applied;
            written =
                subst (λ c. ctx.write_file s resolved c (patch_file_perm info.perm) ≡ (ok tt, s'))
                  same w;
            told = told;
          }

  -- An update that is reported found a text file of at most the limit at the path, to whose lines
  -- the hunks apply, and wrote the lines that result, as a text that ends like the old one, with
  -- the permissions of the file; and it wrote nothing else.
  pub apply_patch_file_op-IsUpdate :
      (s : S) (op : PatchFileOp) {summary : String} {s' : S}
      → op.action ≡ update
      → apply_patch_file_op ctx s op ≡ (ok summary, s')
      → IsUpdate s op summary s'
  unfolding apply_patch_file_op apply_update_file_op
  apply_patch_file_op-IsUpdate s op is_update h = elim (Result-cases (ctx.resolve_path op.path)) [
    | inl (resolved, path) ↦ elim (Result-cases (ctx.stat s resolved)) [
      | inl (info, known) ↦ update_known-IsUpdate s resolved op info path known (ground arith)
      | inr (x, e) ↦ absurd (ground arith)
    ]
    | inr (x, e) ↦ absurd (ground arith)
  ]
