-- ===== src/Store/Agents/Tests.antt =====
-- pkg/server/store/reconcile.go: an agent whose steps may take one and a half milliseconds.
use swarmd.Prelude.{ℕ, ◌≡◌, refl, false, true, not}
use swarmd.Store.Types.{nil}
use swarmd.Store.Agents.{
  CreateAgentParams, AgentRow, new_agent_row, updated_agent_row, is_changed, scan_runnable_agent,
}
use swarmd.Store.Agents.Settled.{all_whole, is_changed-written}

abbrev hasty : CreateAgentParams ℕ
hasty = record {
  namespace_id = "n";
  agent_id = "a";
  name = "";
  role = "worker";
  desired_state = "running";
  root_path = "/srv";
  model_provider = "";
  model_name = "m ";
  model_base_url = "";
  preserve_state = true;
  max_steps = 0;
  step_timeout = 1500000;
  max_output_bytes = 0;
  lease_duration = 0;
  retry_delay = 0;
  max_attempts = 0;
  config = nil;
  system_prompt = "";
  action_schema = nil;
}

abbrev row : AgentRow
row = new_agent_row hasty "" "p" 1000000000

not_whole : all_whole hasty "" ≡ false
not_whole = refl

is_changed-written_example :
    (is_changed hasty "" (scan_runnable_agent (new_agent_row hasty "" "p" 2000000000))
      ≡ not (all_whole hasty ""))
    × (is_changed hasty "" (scan_runnable_agent (updated_agent_row hasty "" 2000000000 row))
        ≡ not (all_whole hasty ""))
is_changed-written_example = is_changed-written hasty "" "p" 2000000000 row
