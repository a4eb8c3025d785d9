-- ===== src/Agent/Spill.antt =====
-- pkg/agent/output_spill.go: the directory for the long outputs of a run.
pub mod Names
pub mod Segments
mod Tests
use swarmd.Prelude.{
  ℕ, String, Bool, true, false, ◌&&◌, ◌||◌, Option, none, some, Result, ok, err, if◌then◌else◌,
  is_empty, trim_space, leb, eqb,
}
use swarmd.Prelude.Outcomes.{Call, Outcome, ◌>>=◌, ◌>>◌, and_then, pure}
use Prim.Native.Char.{Char, code}
use swarmd.Tools.Lines.{concat}
use swarmd.Tools.ApplyPatch.Files.{decimal}
use swarmd.Server.Context.{Metadata, MetaValue}
use swarmd.Agent.Types.{GoError, Trigger}
use swarmd.Agent.Requests.{AgentConfig}
use swarmd.Agent.Host.{Host}

-- The runes that a segment of a path keeps.
unfoldable pub is_kept : ℕ → Bool
is_kept c =
    (leb b'a' c && leb c b'z')
    || (leb b'A' c && leb c b'Z')
    || (leb b'0' c && leb c b'9')
    || (eqb c b'-' || (eqb c b'_' || eqb c b'.'))

abbrev pub dash : Char
dash = "-"

unfoldable pub sanitize_runes : String → String
unfolding is_kept
sanitize_runes String.[] = String.[]
sanitize_runes (String.◌∷◌ c s) =
    String.◌∷◌ (if is_kept (code c) then c else dash) (sanitize_runes s)

abbrev pub is_dash : Char → Bool
is_dash c = eqb (code c) b'-'

unfoldable pub trim_dashes_left : String → String
trim_dashes_left String.[] = String.[]
trim_dashes_left (String.◌∷◌ c s) = if is_dash c then trim_dashes_left s else String.◌∷◌ c s

unfoldable pub trim_dashes_right : String → String
trim_dashes_right String.[] = String.[]
trim_dashes_right (String.◌∷◌ c s) =
    let rest = trim_dashes_right s in
    if is_empty rest && is_dash c then String.[] else String.◌∷◌ c rest

-- `sanitizeSpillPathSegment`
unfoldable pub sanitize_spill_path_segment : String → String
unfolding sanitize_runes trim_dashes_left trim_dashes_right
sanitize_spill_path_segment v = trim_dashes_right (trim_dashes_left (sanitize_runes (trim_space v)))

-- `fmt.Errorf("… %q: %w", dir, err)`
abbrev pub wrapped : String → String → GoError → GoError
wrapped what quoted e = record e { message = concat what (concat quoted (concat ": " e.message)) }

abbrev pub wrap_error :
    {S A : Type 0} → (GoError → GoError) → Outcome GoError S A → Outcome GoError S A
wrap_error f (ok a, s) = (ok a, s)
wrap_error f (err e, s) = (err (f e), s)

module _ {V S : Type 0} (host : Host V S) where
  abbrev pub run_id_segment : Option Metadata → String
  run_id_segment none = ""
  run_id_segment (some m) = elim (m "server_run_id") [
    | none ↦ ""
    | some raw ↦ sanitize_spill_path_segment (host.sprint raw)
  ]

  -- `deriveRunOutputID`; the clock counts nanoseconds.
  unfoldable pub derive_run_output_id : Trigger V → S → String
  derive_run_output_id t s =
      let run = run_id_segment t.metadata in
      let id = sanitize_spill_path_segment t.id in
      if is_empty run
      then if is_empty id
        then concat "run-" (decimal (host.now s))
        else concat id (concat "-" (decimal (host.now s)))
      else run

  -- `beginRunSpillDir`. What comes back is the directory to go back to afterwards.
  unfoldable pub begin_run_spill_dir : AgentConfig → Trigger V → Call GoError S String
  unfolding derive_run_output_id
  begin_run_spill_dir a t s =
      let run_dir = host.join a.spill_base_dir (derive_run_output_id t s) in
      let clearing = wrapped "clear run spill directory " (host.quote run_dir) in
      let creating = wrapped "create run spill directory " (host.quote run_dir) in
      and_then (wrap_error clearing (host.remove_all run_dir s)) λ _ s₁.
        and_then (wrap_error creating (host.mkdir_all run_dir s₁))
          λ _ s₂. (ok (host.spill_dir s₂), host.set_spill_dir run_dir s₂)
