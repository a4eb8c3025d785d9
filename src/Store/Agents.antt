-- ===== src/Store/Agents.antt =====
-- pkg/server/store/store.go and reconcile.go: the rows of the table of agents.
pub mod Settled
mod Tests
use swarmd.Prelude.{
  ℕ, String, Bool, true, false, not, ◌&&◌, ◌||◌, Option, none, some, ◌==◌, if◌then◌else◌, eqb,
  is_empty, trim_space,
}
use swarmd.Store.Types.{Payload}
use swarmd.Store.Envelope.{
  default_string, default_int, default_duration, to_millis, from_millis, to_duration_millis,
  from_duration_millis,
}

pub record CreateAgentParams (V : Type 0) : Type 0 where
  pub namespace_id : String
  pub agent_id : String
  pub name : String
  pub role : String
  pub desired_state : String
  pub root_path : String
  pub model_provider : String
  pub model_name : String
  pub model_base_url : String
  pub preserve_state : Bool
  pub max_steps : ℕ
  pub step_timeout : ℕ
  pub max_output_bytes : ℕ
  pub lease_duration : ℕ
  pub retry_delay : ℕ
  pub max_attempts : ℕ
  pub config : Payload V
  pub system_prompt : String
  pub action_schema : Payload V

pub record AgentRecord : Type 0 where
  pub namespace_id : String
  pub id : String
  pub name : String
  pub role : String
  pub desired_state : String
  pub root_path : String
  pub model_provider : String
  pub model_name : String
  pub model_base_url : String
  pub preserve_state : Bool
  pub max_steps : ℕ
  pub step_timeout : ℕ
  pub max_output_bytes : ℕ
  pub lease_duration : ℕ
  pub retry_delay : ℕ
  pub max_attempts : ℕ
  pub config_json : String
  pub current_prompt_version_id : String
  pub created_at : ℕ
  pub updated_at : ℕ

pub record AgentRow : Type 0 where
  pub namespace_id : String
  pub agent_id : String
  pub name : String
  pub role : String
  pub desired_state : String
  pub root_path : String
  pub model_provider : String
  pub model_name : String
  pub model_base_url : String
  pub preserve_state : ℕ
  pub max_steps : ℕ
  pub step_timeout_millis : ℕ
  pub max_output_bytes : ℕ
  pub lease_duration_millis : ℕ
  pub retry_delay_millis : ℕ
  pub max_attempts : ℕ
  pub config_json : String
  pub current_prompt_version_id : String
  pub created_at_ms : ℕ
  pub updated_at_ms : ℕ

abbrev pub bool_int : Bool → ℕ
bool_int true = 1
bool_int false = 0

abbrev pub int_bool : ℕ → Bool
int_bool v = not (eqb v 0)

abbrev pub same_bool : Bool → Bool → Bool
same_bool true b = b
same_bool false b = not b

-- `DefaultAgentStepTimeout`, five minutes, and again five minutes; thirty seconds.
abbrev pub default_step_timeout : ℕ
default_step_timeout = 300000000000

abbrev pub default_lease_duration : ℕ
default_lease_duration = 300000000000

abbrev pub default_retry_delay : ℕ
default_retry_delay = 30000000000

module _ {V : Type 0} where
  -- What `normalizeCreateAgentParams` fills in; `new_id` is the identifier that it would make.
  unfoldable pub normalize_params : (new_id : String) → CreateAgentParams V → CreateAgentParams V
  normalize_params new_id params = record params {
    agent_id = if is_empty (trim_space params.agent_id) then new_id else params.agent_id;
    role = if is_empty params.role then "worker" else params.role;
    desired_state = if is_empty params.desired_state then "running" else params.desired_state;
    model_provider =
        if is_empty (trim_space params.model_provider) then "openai" else params.model_provider;
  }

  abbrev pub agent_name : CreateAgentParams V → String
  agent_name p = default_string (trim_space p.name) p.agent_id

  abbrev pub agent_provider : CreateAgentParams V → String
  agent_provider p = default_string (trim_space p.model_provider) "openai"

  abbrev pub step_timeout_of : CreateAgentParams V → ℕ
  step_timeout_of p = default_duration p.step_timeout default_step_timeout

  abbrev pub lease_duration_of : CreateAgentParams V → ℕ
  lease_duration_of p = default_duration p.lease_duration default_lease_duration

  abbrev pub retry_delay_of : CreateAgentParams V → ℕ
  retry_delay_of p = default_duration p.retry_delay default_retry_delay

  -- The row that `CreateAgent` inserts.
  unfoldable pub new_agent_row :
      CreateAgentParams V → (config_json prompt_version_id : String) → (now : ℕ) → AgentRow
  new_agent_row p config_json prompt_version_id now = record {
    namespace_id = p.namespace_id;
    agent_id = p.agent_id;
    name = agent_name p;
    role = p.role;
    desired_state = p.desired_state;
    root_path = p.root_path;
    model_provider =
        if is_empty (trim_space p.model_provider) then "openai" else trim_space p.model_provider;
    model_name = trim_space p.model_name;
    model_base_url = trim_space p.model_base_url;
    preserve_state = bool_int p.preserve_state;
    max_steps = default_int p.max_steps 32;
    step_timeout_millis = to_duration_millis (step_timeout_of p);
    max_output_bytes = default_int p.max_output_bytes 65536;
    lease_duration_millis = to_duration_millis (lease_duration_of p);
    retry_delay_millis = to_duration_millis (retry_delay_of p);
    max_attempts = default_int p.max_attempts 5;
    config_json = config_json;
    current_prompt_version_id = prompt_version_id;
    created_at_ms = to_millis now;
    updated_at_ms = to_millis now;
  }

  -- What the UPDATE of `PutAgent` makes of the row of the agent.
  unfoldable pub updated_agent_row :
      CreateAgentParams V → (config_json : String) → (now : ℕ) → AgentRow → AgentRow
  updated_agent_row p config_json now row = record row {
    name = agent_name p;
    role = p.role;
    desired_state = p.desired_state;
    root_path = p.root_path;
    model_provider = agent_provider p;
    model_name = trim_space p.model_name;
    model_base_url = trim_space p.model_base_url;
    preserve_state = bool_int p.preserve_state;
    max_steps = default_int p.max_steps 32;
    step_timeout_millis = to_duration_millis (step_timeout_of p);
    max_output_bytes = default_int p.max_output_bytes 65536;
    lease_duration_millis = to_duration_millis (lease_duration_of p);
    retry_delay_millis = to_duration_millis (retry_delay_of p);
    max_attempts = default_int p.max_attempts 5;
    config_json = config_json;
    updated_at_ms = to_millis now;
  }

  -- The test of `PutAgent` for a change, of the agent as it was read.
  unfoldable pub is_changed : CreateAgentParams V → (config_json : String) → AgentRecord → Bool
  is_changed p config_json existing =
      not (existing.name == agent_name p)
      || not (existing.role == p.role)
      || not (existing.desired_state == p.desired_state)
      || not (existing.root_path == p.root_path)
      || not (existing.model_provider == agent_provider p)
      || not (existing.model_name == trim_space p.model_name)
      || not (existing.model_base_url == trim_space p.model_base_url)
      || not (same_bool existing.preserve_state p.preserve_state)
      || not (eqb existing.max_steps (default_int p.max_steps 32))
      || not (eqb existing.step_timeout (step_timeout_of p))
      || not (eqb existing.max_output_bytes (default_int p.max_output_bytes 65536))
      || not (eqb existing.lease_duration (lease_duration_of p))
      || not (eqb existing.retry_delay (retry_delay_of p))
      || not (eqb existing.max_attempts (default_int p.max_attempts 5))
      || not (existing.config_json == config_json)

-- `scanRunnableAgent`
unfoldable pub scan_runnable_agent : AgentRow → AgentRecord
scan_runnable_agent row = record {
  namespace_id = row.namespace_id;
  id = row.agent_id;
  name = row.name;
  role = row.role;
  desired_state = row.desired_state;
  root_path = row.root_path;
  model_provider = row.model_provider;
  model_name = row.model_name;
  model_base_url = row.model_base_url;
  preserve_state = int_bool row.preserve_state;
  max_steps = row.max_steps;
  step_timeout = from_duration_millis row.step_timeout_millis;
  max_output_bytes = row.max_output_bytes;
  lease_duration = from_duration_millis row.lease_duration_millis;
  retry_delay = from_duration_millis row.retry_delay_millis;
  max_attempts = row.max_attempts;
  config_json = row.config_json;
  current_prompt_version_id = row.current_prompt_version_id;
  created_at = from_millis row.created_at_ms;
  updated_at = from_millis row.updated_at_ms;
}
