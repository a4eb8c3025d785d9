-- ===== src/Store/Types.antt =====
-- pkg/server/store/types.go: the records that the store's operations take and return.
-- A time is a number of nanoseconds since the epoch, a duration a number of nanoseconds; `none`
-- is the zero time of `AvailableAt` and the nil pointer of the `*time.Time` fields.
use swarmd.Prelude.{ℕ, String, Bool, List, Option}

pub data AgentRole : Type 0 where
  primary worker : AgentRole

pub data AgentDesiredState : Type 0 where
  running paused stopped : AgentDesiredState

pub data MailboxMessageStatus : Type 0 where
  queued leased completed dead_letter : MailboxMessageStatus

-- `any`: nil, a string, or another value.
pub data Payload (V : Type 0) : Type 0 where
  nil : Payload V
  text : String → Payload V
  value : V → Payload V

pub record JsonEnvelope : Type 0 where
  pub version : ℕ
  pub kind : String
  pub body : String

pub record MailboxMessageRecord : Type 0 where
  pub namespace_id : String
  pub id : String
  pub thread_id : String
  pub sender_agent_id : String
  pub recipient_agent_id : String
  pub kind : String
  pub payload_json : String
  pub metadata_json : String
  pub status : MailboxMessageStatus
  pub available_at : ℕ
  pub lease_owner : String
  pub lease_expires_at : Option ℕ
  pub attempt_count : ℕ
  pub max_attempts : ℕ
  pub run_id : String
  pub dead_letter_reason : String
  pub last_error : String
  pub created_at : ℕ
  pub updated_at : ℕ
  pub claimed_at : Option ℕ
  pub completed_at : Option ℕ

pub record ScheduleRecord : Type 0 where
  pub namespace_id : String
  pub id : String
  pub agent_id : String
  pub cron_expr : String
  pub time_zone : String
  pub payload_json : String
  pub enabled : Bool
  pub next_fire_at : Option ℕ
  pub last_fire_at : Option ℕ
  pub created_at : ℕ
  pub updated_at : ℕ

pub record RunRecord : Type 0 where
  pub namespace_id : String
  pub id : String
  pub message_id : String
  pub agent_id : String
  pub trigger_id : String
  pub status : String
  pub started_at : ℕ
  pub finished_at : Option ℕ
  pub duration : ℕ
  pub cwd : String
  pub usage_cached_tokens : ℕ
  pub finish_thought : String
  pub value_json : String
  pub error : String
  pub trigger_prompt : String
  pub system_prompt : String
  pub created_at : ℕ
  pub updated_at : ℕ

pub record StepRecord : Type 0 where
  pub namespace_id : String
  pub run_id : String
  pub message_id : String
  pub agent_id : String
  pub step_index : ℕ
  pub step_type : String
  pub thought : String
  pub shell : String
  pub action_name : String
  pub action_tool_kind : String
  pub action_input : String
  pub action_output : String
  pub action_output_truncated : Bool
  pub usage_cached_tokens : ℕ
  pub cwd_before : String
  pub cwd_after : String
  pub stdout : String
  pub stderr : String
  pub stdout_truncated : Bool
  pub stderr_truncated : Bool
  pub started_at : ℕ
  pub finished_at : ℕ
  pub duration : ℕ
  pub status : String
  pub exit_status : ℕ
  pub error : String

pub record MailboxThreadMessage : Type 0 where
  pub id : String
  pub thread_id : String
  pub sender_agent_id : String
  pub recipient_agent_id : String
  pub kind : String
  pub payload_json : String
  pub status : MailboxMessageStatus
  pub created_at : ℕ
  pub completed_at : Option ℕ

pub record CreateMailboxMessageParams (V : Type 0) : Type 0 where
  pub namespace_id : String
  pub message_id : String
  pub thread_id : String
  pub sender_agent_id : String
  pub recipient_agent_id : String
  pub kind : String
  pub payload : Payload V
  pub metadata : Payload V
  pub available_at : Option ℕ
  pub max_attempts : ℕ

pub record ClaimMessageParams : Type 0 where
  pub namespace_id : String
  pub agent_id : String
  pub lease_owner : String
  pub lease_duration : ℕ
  pub system_prompt : String

pub record ClaimedMailboxMessage : Type 0 where
  pub message : MailboxMessageRecord
  pub run : RunRecord

pub record CompleteRunParams (V : Type 0) : Type 0 where
  pub namespace_id : String
  pub run_id : String
  pub message_id : String
  pub status : String
  pub finished_at : ℕ
  pub duration : ℕ
  pub cwd : String
  pub usage_cached_tokens : ℕ
  pub finish_thought : String
  pub value : Payload V
  pub error : String
  pub retry_at : Option ℕ
  pub dead_letter_reason : String
  pub outbox : List (CreateMailboxMessageParams V)

pub record CreateScheduleParams (V : Type 0) : Type 0 where
  pub namespace_id : String
  pub schedule_id : String
  pub agent_id : String
  pub cron_expr : String
  pub time_zone : String
  pub payload : Payload V
  pub enabled : Bool

pub data StoreError : Type 0 where
  -- the checks of the arguments
  empty_id : StoreError
  -- `ErrNotFound`, `ErrNoAvailableMessage`
  not_found no_available_message : StoreError
  -- encoding and decoding of JSON, and the trigger prompt
  marshal_failed decode_failed unsupported_version render_failed : StoreError
  -- a time zone or a cron expression that does not parse
  bad_time_zone bad_cron_expr : StoreError
  -- the database refuses a row, for its primary key or a foreign key
  constraint_failed : StoreError
  -- any other failure of the database
  database_failed : StoreError
  -- the loop over the times of a schedule did not end on its fuel; not an error of the code
  endless_schedule : StoreError
