-- ===== src/Agent/Capture/Tests.antt =====
-- pkg/agent/capture.go on a file that refuses chunks of three items.
use swarmd.Prelude.{
  ℕ, ◌≡◌, refl, true, false, List, [], ◌∷◌, ◌++◌, Option, some, eqb, if◌then◌else◌, is_empty,
  length, ok, err,
}
use swarmd.Agent.Capture.{
  SpillConfig, CaptureWriter, CaptureSnapshot, new_capture_writer, Sinks, write, keep_preview,
  write_spill, snapshot,
}
use swarmd.Agent.Capture.Preview.{write_all, IsSnapshot, snapshot-write_all}

abbrev picky_file : Sinks ℕ (List ℕ) (Unit {0})
picky_file = record {
  mirror = λ s p. s;
  mkdir_all = λ s p. (ok tt, s);
  open_file = λ s p. (ok tt, []);
  write_file = λ s p. if eqb (length p) 3 then (err tt, s) else (ok tt, s ++ p);
  close_file = λ s. (ok tt, s);
  remove_all = λ s p. [];
  dir = λ p. "/";
}

abbrev spill : Option SpillConfig
spill = some (record { path = "/spill"; mime_type = "text/plain"; description = "" })

abbrev chunks : List (List ℕ)
chunks = (1 ∷ 2 ∷ []) ∷ (7 ∷ 7 ∷ 7 ∷ []) ∷ [] ∷ (3 ∷ 4 ∷ []) ∷ []

abbrev end : List ℕ × (CaptureWriter ℕ × List ℕ)
end = write_all picky_file chunks (new_capture_writer 3 2 spill) []

abbrev shown : CaptureSnapshot ℕ
shown = record {
  preview = 1 ∷ 2 ∷ 3 ∷ [];
  truncated = true;
  total_bytes = 4;
  file =
      some (record { path = "/spill"; mime_type = "text/plain"; description = ""; size_bytes = 4 });
}

abbrev after : CaptureWriter ℕ × List ℕ
after = (
  record {
    preview_limit = 3;
    spill_threshold = 2;
    spill = spill;
    buf = 1 ∷ 2 ∷ 3 ∷ [];
    truncated = true;
    total_bytes = 4;
    spill_open = false;
  },
  1 ∷ 2 ∷ 3 ∷ 4 ∷ [],
)

shows : snapshot picky_file end.1.0 end.1.1 ≡ (ok shown, after)
unfolding snapshot write_all write keep_preview write_spill is_empty
shows = refl

snapshot-write_all_example : IsSnapshot picky_file 3 end.0 shown
snapshot-write_all_example = snapshot-write_all picky_file 3 2 spill chunks [] shows
