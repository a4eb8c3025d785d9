-- ===== src/Agent/Types.antt =====
-- pkg/agent/types.go and the step of pkg/tools/core/core.go: what an agent is given and gives back.
use swarmd.Prelude.{ℕ, String, Bool, List, Option}
use swarmd.Store.Types.{Payload}
use swarmd.Server.Context.{Metadata}
use swarmd.Agent.Capture.{FileReference}

-- What the code asks of an error: `errors.Is` for the two errors of a context, `os.IsTimeout`.
pub record GoError : Type 0 where
  pub message : String
  pub is_canceled : Bool
  pub is_deadline_exceeded : Bool
  pub is_timeout : Bool

pub record Trigger (V : Type 0) : Type 0 where
  pub id : String
  pub kind : String
  pub payload : Payload V
  pub metadata : Option Metadata
  pub enqueued_at : ℕ

pub record Message : Type 0 where
  pub role : String
  pub content : String

pub record ToolAction : Type 0 where
  pub name : String
  pub kind : String
  pub input : String

-- A finish action is its value.
pub record Decision (V : Type 0) : Type 0 where
  pub thought : String
  pub usage_cached_tokens : ℕ
  pub tool : Option ToolAction
  pub finish : Option (Payload V)
  pub replay_data : String
  pub provider_state : String

-- `Step`
pub record AgentStep : Type 0 where
  pub index : ℕ
  pub step_type : String
  pub thought : String
  pub action_name : String
  pub action_tool_kind : String
  pub action_input : String
  pub action_output : String
  pub action_output_truncated : Bool
  pub action_output_files : List FileReference
  pub action_output_bytes : ℕ
  pub action_output_compacted : Bool
  pub shell : String
  pub usage_cached_tokens : ℕ
  pub cwd_before : String
  pub cwd_after : String
  pub stdout : String
  pub stderr : String
  pub stdout_truncated : Bool
  pub stderr_truncated : Bool
  pub stdout_file : Option FileReference
  pub stderr_file : Option FileReference
  pub stdout_bytes : ℕ
  pub stderr_bytes : ℕ
  pub started_at : ℕ
  pub finished_at : ℕ
  pub duration : ℕ
  pub status : String
  pub exit_status : ℕ
  pub error : String

-- `map[string]string`; a nil map and an empty one have the same keys.
abbrev pub StringMap : Type 0
StringMap = String → Option String

-- `Result`
pub record TurnResult (V : Type 0) : Type 0 where
  pub trigger : Trigger V
  pub started_at : ℕ
  pub finished_at : ℕ
  pub duration : ℕ
  pub status : String
  pub cwd : String
  pub usage_cached_tokens : ℕ
  pub finish_thought : String
  pub value : Payload V
  pub steps : List AgentStep
  pub error : String
  pub step_replay_data : StringMap
  pub provider_state : String

pub record ConversationTurn : Type 0 where
  pub user : Message
  pub assistant : Option Message
  pub steps : List AgentStep
