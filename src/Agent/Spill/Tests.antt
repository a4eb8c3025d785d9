-- ===== src/Agent/Spill/Tests.antt =====
-- Names of directories of pkg/agent/output_spill.go.
use swarmd.Prelude.{ℕ, ◌≡◌, refl, some, false, trim_space, is_empty}
use swarmd.Server.Context.{Metadata, string}
use swarmd.Agent.Types.{Trigger}
use swarmd.Agent.Spill.{is_kept, sanitize_spill_path_segment, derive_run_output_id}
use swarmd.Agent.Spill.Names.{AllRunes, is_plain, derive_run_output_id-plain}
use swarmd.Agent.Spill.Segments.{IsSegment, derive_run_output_id-IsSegment}
use swarmd.Agent.Loop.Tests.{counting_host, hello}

slashes : sanitize_spill_path_segment " /a/../b c/ " ≡ "a-..-b-c"
unfolding sanitize_spill_path_segment trim_space
slashes = refl

abbrev dots : Metadata
dots key = some (string "..")

abbrev slashed : Metadata
slashed key = some (string "../../etc/passwd")

abbrev climbing : Trigger ℕ
climbing = record hello { metadata = some slashed }

abbrev up : Trigger ℕ
up = record hello { metadata = some dots }

derive_run_output_id-IsSegment_example : IsSegment (derive_run_output_id counting_host climbing 0)
derive_run_output_id-IsSegment_example = derive_run_output_id-IsSegment counting_host climbing 0

dots-plain : AllRunes is_plain ".."
unfolding is_kept
dots-plain = (refl, (refl, tt))

dots-full : is_empty ".." ≡ false
unfolding is_empty
dots-full = refl

derive_run_output_id-plain_example : derive_run_output_id counting_host up 0 ≡ ".."
derive_run_output_id-plain_example =
    derive_run_output_id-plain counting_host up dots (string "..") 0 refl refl dots-plain dots-full
