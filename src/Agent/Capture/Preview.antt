-- ===== src/Agent/Capture/Preview.antt =====
-- pkg/agent/capture.go: what is kept of the output.
use mathlib.Core.List.{append-nil}
use swarmd.Prelude.{
  ℕ, zero, suc, ◌-◌, ◌≤◌, ◌≡◌, refl, sym, ap, ◌∙◌, subst, Bool, true, false, not, ◌&&◌, List, [],
  ◌∷◌, ◌++◌, Option, none, some, eqb, ltb, if◌then◌else◌, Bool-cases, inl, inr, if_true, if_false,
  length, take, append_assoc, String, is_empty, length-append, length-take, Result, ok, err,
  ok-eq-ok, arith,
}
use swarmd.Agent.Capture.{
  SpillConfig, CaptureWriter, new_capture_writer, keep_preview, Sinks, Written, write_spill, write,
  spill_to, spilled, opened, made_dir, counted, CaptureSnapshot, FileReference, with_file, closed,
  finish, snapshot,
}

-- A writer with this limit that has accepted these items.
pub record IsPreview {B : Type 0} (limit : ℕ) (all : List B) (w : CaptureWriter B) : Type 0 where
  pub same_limit : w.preview_limit ≡ limit
  pub total : w.total_bytes ≡ length all
  pub kept : w.buf ≡ (if eqb limit 0 then all else take limit all)
  pub cut : w.truncated ≡ (not (eqb limit 0) && ltb limit (length all))

module _ {B : Type 0} where
  take_all : (n : ℕ) (xs : List B) → length xs ≤ n → take n xs ≡ xs
  take_all zero [] le = refl
  take_all zero (x ∷ xs) le = absurd (omega arith)
  take_all (suc n) [] le = refl
  take_all (suc n) (x ∷ xs) le = ap (λ l. x ∷ l) (take_all n xs (omega arith))

  take-append_ge : (n : ℕ) (xs ys : List B) → n ≤ length xs → take n (xs ++ ys) ≡ take n xs
  take-append_ge zero xs ys le = refl
  take-append_ge (suc n) [] ys le = absurd (omega arith)
  take-append_ge (suc n) (x ∷ xs) ys le = ap (λ l. x ∷ l) (take-append_ge n xs ys (omega arith))

  take-append_le :
      (n : ℕ) (xs ys : List B) → length xs ≤ n → take n (xs ++ ys) ≡ xs ++ take (n - length xs) ys
  take-append_le n [] ys le = ground arith
  take-append_le zero (x ∷ xs) ys le = absurd (omega arith)
  take-append_le (suc n) (x ∷ xs) ys le =
      ap (λ l. x ∷ l)
        (take-append_le n xs ys (omega arith) ∙ ap (λ k. xs ++ take k ys) (omega arith))

  keep_preview-IsPreview :
      (limit : ℕ) (all p : List B) (w : CaptureWriter B)
      → eqb (length p) 0 ≡ false
      → IsPreview limit all w
      → IsPreview limit (all ++ p) (keep_preview p w)
  unfolding keep_preview
  keep_preview-IsPreview limit all p w some_items pre = record {
    same_limit = ground (arith, pre.same_limit);
    total = ground (arith, length-append all p, pre.total);
    kept = ground (
      arith,
      pre.kept,
      pre.same_limit,
      length-take limit all,
      take-append_ge limit all p,
      take-append_le limit all p,
      take_all limit all,
      take_all (limit - length all) p,
    );
    cut =
        ground
          (arith, pre.cut, pre.kept, pre.same_limit, length-take limit all, length-append all p);
  }

module _ {B S E : Type 0} (sinks : Sinks B S E) where
  abbrev Keeps : ℕ → List B → {A : Type 0} → Written sinks A → Type 0
  Keeps limit all (r, (w, s)) = IsPreview limit all w

  spilled-Keeps :
      (limit : ℕ) (all : List B) (w : CaptureWriter B) (o : Result E (Unit {0}) × S)
      → IsPreview limit all w
      → Keeps limit all (spilled sinks w o)
  spilled-Keeps limit all w (r, s) pre = pre

  opening :
      (limit : ℕ) (all : List B) (w : CaptureWriter B)
      → IsPreview limit all w
      → IsPreview limit all (record w { spill_open = true })
  opening limit all w pre = record {
    same_limit = pre.same_limit;
    total = pre.total;
    kept = pre.kept;
    cut = pre.cut;
  }

  opened-Keeps :
      (limit : ℕ) (all p : List B) (w : CaptureWriter B) (o : Result E (Unit {0}) × S)
      → IsPreview limit all w
      → Keeps limit all (opened sinks p w o)
  opened-Keeps limit all p w (err e, s) pre = pre
  opened-Keeps limit all p w (ok u, s) pre =
      spilled-Keeps limit all (record w { spill_open = true }) (sinks.write_file s p)
        (opening limit all w pre)

  made_dir-Keeps :
      (limit : ℕ) (all p : List B) (path : String) (w : CaptureWriter B)
      (o : Result E (Unit {0}) × S)
      → IsPreview limit all w
      → Keeps limit all (made_dir sinks path p w o)
  made_dir-Keeps limit all p path w (err e, s) pre = pre
  made_dir-Keeps limit all p path w (ok u, s) pre =
      opened-Keeps limit all p w (sinks.open_file s path) pre

  either-Keeps :
      (limit : ℕ) (all : List B) {A : Type 0} (b : Bool) (x y : Written sinks A)
      → Keeps limit all x
      → Keeps limit all y
      → Keeps limit all (if b then x else y)
  either-Keeps limit all true x y hx hy = hx
  either-Keeps limit all false x y hx hy = hy

  spill_to-Keeps :
      (limit : ℕ) (all p : List B) (spill : Option SpillConfig) (w : CaptureWriter B) (s : S)
      → IsPreview limit all w
      → Keeps limit all (spill_to sinks spill p w s)
  spill_to-Keeps limit all p none w s pre = pre
  spill_to-Keeps limit all p (some config) w s pre =
      either-Keeps limit all (is_empty config.path) _ _ pre (
        either-Keeps limit all w.spill_open _ _
          (spilled-Keeps limit all w (sinks.write_file s p) pre)
          (made_dir-Keeps limit all p config.path w (sinks.mkdir_all s (sinks.dir config.path))
            pre))

  -- The items that a write accepts.
  abbrev pub accepted_of : List B → Result E ℕ → List B
  accepted_of p (ok n) = p
  accepted_of p (err e) = []

  counted-Keeps :
      (limit : ℕ) (all p : List B) (o : Written sinks (Unit {0}))
      → eqb (length p) 0 ≡ false
      → Keeps limit all o
      → IsPreview limit (all ++ accepted_of p (counted sinks p o).0) (counted sinks p o).1.0
  counted-Keeps limit all p (ok u, (w, s)) some_items pre =
      keep_preview-IsPreview limit all p w some_items pre
  counted-Keeps limit all p (err e, (w, s)) some_items pre =
      subst (λ l. IsPreview limit l w) (sym (append-nil all)) pre

  write-IsPreview :
      (limit : ℕ) (all p : List B) (w : CaptureWriter B) (s : S)
      → IsPreview limit all w
      → IsPreview limit (all ++ accepted_of p (write sinks p w s).0) (write sinks p w s).1.0
  unfolding write write_spill
  write-IsPreview limit all [] w s pre = subst (λ l. IsPreview limit l w) (sym (append-nil all)) pre
  write-IsPreview limit all (x ∷ xs) w s pre =
      subst (λ (o : Written sinks ℕ). IsPreview limit (all ++ accepted_of (x ∷ xs) o.0) o.1.0)
        (sym (if_false {b = eqb (length (x ∷ xs)) 0} _ _ (ground arith)))
        (counted-Keeps limit all (x ∷ xs) (write_spill sinks (x ∷ xs) w (sinks.mirror s (x ∷ xs)))
          (ground arith)
          (spill_to-Keeps limit all (x ∷ xs) w.spill w (sinks.mirror s (x ∷ xs)) pre))

  -- Writes in a row: the items of those that succeed, and the writer and the state that are left.
  unfoldable pub write_all : List (List B) → CaptureWriter B → S → List B × (CaptureWriter B × S)
  write_all [] w s = ([], (w, s))
  write_all (p ∷ ps) w s =
      let (r, (w', s')) = write sinks p w s in
      let (rest, end) = write_all ps w' s' in (accepted_of p r ++ rest, end)

  write_all-from :
      (limit : ℕ) (all : List B) (ps : List (List B)) (w : CaptureWriter B) (s : S)
      → IsPreview limit all w
      → IsPreview limit (all ++ (write_all ps w s).0) (write_all ps w s).1.0
  unfolding write_all
  write_all-from limit all [] w s pre = subst (λ l. IsPreview limit l w) (sym (append-nil all)) pre
  write_all-from limit all (p ∷ ps) w s pre =
      let (r, (w', s')) = write sinks p w s in
      subst (λ l. IsPreview limit l (write_all ps w' s').1.0)
        (append_assoc all (accepted_of p r) (write_all ps w' s').0)
        (write_all-from limit (all ++ accepted_of p r) ps w' s'
          (write-IsPreview limit all p w s pre))

  write_all-IsPreview :
      (limit threshold : ℕ) (spill : Option SpillConfig) (ps : List (List B)) (s : S)
      → let o = write_all ps (new_capture_writer limit threshold spill) s in
        IsPreview limit (o.0) (o.1.0)
  write_all-IsPreview limit threshold spill ps s =
      write_all-from limit [] ps (new_capture_writer limit threshold spill) s (record {
        same_limit = refl;
        total = refl;
        kept = ground (arith, take_all {B = B} limit []);
        cut = ground arith;
      })

  -- A snapshot that tells of these items.
  pub record IsSnapshot (limit : ℕ) (all : List B) (snap : CaptureSnapshot B) : Type 0 where
    pub kept : snap.preview ≡ (if eqb limit 0 then all else take limit all)
    pub cut : snap.truncated ≡ (not (eqb limit 0) && ltb limit (length all))
    pub total : snap.total_bytes ≡ length all

  with_file-IsSnapshot :
      (limit : ℕ) (all : List B) (w : CaptureWriter B) (f : Option FileReference × S)
      {snap : CaptureSnapshot B} {after : CaptureWriter B × S}
      → IsPreview limit all w
      → with_file sinks w f ≡ (ok snap, after)
      → IsSnapshot limit all snap
  with_file-IsSnapshot limit all w (file, s) pre h =
      subst (IsSnapshot limit all) (ok-eq-ok (ap (λ o. o.0) h))
        (record { kept = pre.kept; cut = pre.cut; total = pre.total })

  closed-IsSnapshot :
      (limit : ℕ) (all : List B) (w : CaptureWriter B) (o : Result E (Unit {0}) × S)
      {snap : CaptureSnapshot B} {after : CaptureWriter B × S}
      → IsPreview limit all w
      → closed sinks w o ≡ (ok snap, after)
      → IsSnapshot limit all snap
  closed-IsSnapshot limit all w (ok u, s) pre h =
      with_file-IsSnapshot limit all (record w { spill_open = false }) (finish sinks w s)
        (record { same_limit = pre.same_limit; total = pre.total; kept = pre.kept; cut = pre.cut })
        h
  closed-IsSnapshot limit all w (err e, s) {snap = snap} pre h = absurd (differ (ap (λ o. o.0) h))
    where
      differ : ◌≡◌ {A = Result E (CaptureSnapshot B)} (err e) (ok snap) → ⊥
      differ q = cc

  -- After any writes, some of which may fail, a snapshot of a writer that was new shows the items of
  -- the writes that succeeded, in order: all of them if there is no limit, and else as many from the
  -- front as the limit says. It says that the output is truncated exactly if that is not all, and
  -- it has counted them all.
  pub snapshot-write_all :
      (limit threshold : ℕ) (spill : Option SpillConfig) (ps : List (List B)) (s : S)
      {snap : CaptureSnapshot B} {after : CaptureWriter B × S}
      → let o = write_all ps (new_capture_writer limit threshold spill) s in
        snapshot sinks o.1.0 o.1.1 ≡ (ok snap, after) → IsSnapshot limit o.0 snap
  unfolding snapshot
  snapshot-write_all limit threshold spill ps s =
      let o = write_all ps (new_capture_writer limit threshold spill) s in
      shown limit o.0 o.1.0 o.1.1 (write_all-IsPreview limit threshold spill ps s)
    where
      shown :
          (limit : ℕ) (all : List B) (w : CaptureWriter B) (s : S) {snap : CaptureSnapshot B}
          {after : CaptureWriter B × S}
          → IsPreview limit all w
          → snapshot sinks w s ≡ (ok snap, after)
          → IsSnapshot limit all snap
      shown limit all w s pre h = elim (Bool-cases w.spill_open) [
        | inl t ↦ closed-IsSnapshot limit all w (sinks.close_file s) pre (sym (if_true _ _ t) ∙ h)
        | inr f ↦ with_file-IsSnapshot limit all w (finish sinks w s) pre (sym (if_false _ _ f) ∙ h)
      ]
