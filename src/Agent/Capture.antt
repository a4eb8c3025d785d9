-- ===== src/Agent/Capture.antt =====
-- pkg/agent/capture.go: the output of a command, kept up to a limit and spilled to a file.
pub mod Preview
mod Tests
use swarmd.Prelude.{
  ℕ, zero, suc, ◌+◌, ◌-◌, String, Bool, true, false, ◌&&◌, ◌||◌, List, [], ◌∷◌, ◌++◌, Option, none,
  some, eqb, ltb, leb, if◌then◌else◌, is_empty, length, take, Result, ok, err,
}

-- `captureSpillConfig`, less its file system.
pub record SpillConfig : Type 0 where
  pub path : String
  pub mime_type : String
  pub description : String

pub record FileReference : Type 0 where
  pub path : String
  pub mime_type : String
  pub description : String
  pub size_bytes : ℕ

-- A writer of items of a type B, such as bytes. A limit or threshold that is not positive is 0.
pub record CaptureWriter (B : Type 0) : Type 0 where
  pub preview_limit : ℕ
  pub spill_threshold : ℕ
  pub spill : Option SpillConfig
  pub buf : List B
  pub truncated : Bool
  pub total_bytes : ℕ
  -- whether `spillFile` is set
  pub spill_open : Bool

pub record CaptureSnapshot (B : Type 0) : Type 0 where
  pub preview : List B
  pub truncated : Bool
  pub total_bytes : ℕ
  pub file : Option FileReference

-- What a writer uses of the mirror and of the file system, on a state of a type S with errors of a
-- type E; a failing operation may change the state too.
pub record Sinks (B S E : Type 0) : Type 0 where
  -- the mirror's `Write`, whose result is ignored, or nothing if there is no mirror
  pub mirror : S → List B → S
  pub mkdir_all : S → String → Result E (Unit {0}) × S
  pub open_file : S → String → Result E (Unit {0}) × S
  pub write_file : S → List B → Result E (Unit {0}) × S
  pub close_file : S → Result E (Unit {0}) × S
  pub remove_all : S → String → S
  pub dir : String → String

abbrev pub new_capture_writer : {B : Type 0} → ℕ → ℕ → Option SpillConfig → CaptureWriter B
new_capture_writer limit threshold spill = record {
  preview_limit = limit;
  spill_threshold = threshold;
  spill = spill;
  buf = [];
  truncated = false;
  total_bytes = 0;
  spill_open = false;
}

-- The end of `Write`, behind the spill.
unfoldable pub keep_preview : {B : Type 0} → List B → CaptureWriter B → CaptureWriter B
keep_preview p w =
    let total = w.total_bytes + length p in
    let remaining = w.preview_limit - length w.buf in
    if eqb w.preview_limit 0
    then record w { total_bytes = total; buf = w.buf ++ p }
    else if leb w.preview_limit (length w.buf)
    then record w { total_bytes = total; truncated = true }
    else if ltb remaining (length p)
    then record w { total_bytes = total; buf = w.buf ++ take remaining p; truncated = true }
    else record w { total_bytes = total; buf = w.buf ++ p }

module _ {B S E : Type 0} (sinks : Sinks B S E) where
  abbrev pub Written : Type 0 → Type 0
  Written A = Result E A × (CaptureWriter B × S)

  abbrev pub spilled : CaptureWriter B → Result E (Unit {0}) × S → Written (Unit {0})
  spilled w (r, s) = (r, (w, s))

  abbrev pub opened : List B → CaptureWriter B → Result E (Unit {0}) × S → Written (Unit {0})
  opened p w (err e, s) = (err e, (w, s))
  opened p w (ok u, s) = spilled (record w { spill_open = true }) (sinks.write_file s p)

  abbrev pub made_dir :
      String → List B → CaptureWriter B → Result E (Unit {0}) × S → Written (Unit {0})
  made_dir path p w (err e, s) = (err e, (w, s))
  made_dir path p w (ok u, s) = opened p w (sinks.open_file s path)

  abbrev pub spill_to : Option SpillConfig → List B → CaptureWriter B → S → Written (Unit {0})
  spill_to none p w s = (ok tt, (w, s))
  spill_to (some config) p w s =
      if is_empty config.path
      then (ok tt, (w, s))
      else if w.spill_open
      then spilled w (sinks.write_file s p)
      else made_dir config.path p w (sinks.mkdir_all s (sinks.dir config.path))

  -- `writeSpillLocked`.
  unfoldable pub write_spill : List B → CaptureWriter B → S → Written (Unit {0})
  write_spill p w s = spill_to w.spill p w s

  abbrev pub counted : List B → Written (Unit {0}) → Written ℕ
  counted p (err e, (w, s)) = (err e, (w, s))
  counted p (ok u, (w, s)) = (ok (length p), (keep_preview p w, s))

  -- `Write`.
  unfoldable pub write : List B → CaptureWriter B → S → Written ℕ
  unfolding write_spill keep_preview
  write p w s =
      let mirrored = sinks.mirror s p in
      if eqb (length p) 0 then (ok 0, (w, mirrored)) else counted p (write_spill p w mirrored)

  abbrev pub finish : CaptureWriter B → S → Option FileReference × S
  finish w s = elim w.spill [
    | none ↦ (none, s)
    | some config ↦
        if is_empty config.path
        then (none, s)
        else if eqb w.total_bytes 0
            || (ltb 0 w.spill_threshold && leb w.total_bytes w.spill_threshold)
        then (none, sinks.remove_all s config.path)
        else (
          some (record {
            path = config.path;
            mime_type = config.mime_type;
            description = config.description;
            size_bytes = w.total_bytes;
          }),
          s,
        )
  ]

  abbrev pub with_file : CaptureWriter B → Option FileReference × S → Written (CaptureSnapshot B)
  with_file w (file, s) = (
    ok (record {
      preview = w.buf;
      truncated = w.truncated;
      total_bytes = w.total_bytes;
      file = file;
    }),
    (w, s),
  )

  abbrev pub closed : CaptureWriter B → Result E (Unit {0}) × S → Written (CaptureSnapshot B)
  closed w (err e, s) = (err e, (w, s))
  closed w (ok u, s) = with_file (record w { spill_open = false }) (finish w s)

  -- `Snapshot`, with `finishSpillLocked`.
  unfoldable pub snapshot : CaptureWriter B → S → Written (CaptureSnapshot B)
  snapshot w s = if w.spill_open then closed w (sinks.close_file s) else with_file w (finish w s)
