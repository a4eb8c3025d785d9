-- ===== src/Store/Tables.antt =====
-- The tables of pkg/server/store/migrations.go, as lists of rows in the order of insertion, what a
-- call sees of the world outside the database, and transactions.
pub mod Inserts
use swarmd.Prelude.{
  ℕ, ◌≡◌, refl, String, Bool, true, false, ◌&&◌, List, [], ◌∷◌, ◌++◌, Option, ◌==◌, eqb, any,
  Result, ok, err, ◌>>=◌, ◌>>◌, guard, refuse,
}
use swarmd.Store.Types.{MailboxMessageStatus, StoreError, constraint_failed, database_failed}
use swarmd.Store.Envelope.{Codec}

-- A statement of a call that the database can fail; the number counts the inserts of one call.
pub data Site : Type 0 where
  begin commit : Site
  query : Site
  update_message affected_message : Site
  update_run affected_run : Site
  update_schedule affected_schedule : Site
  insert_message : ℕ → Site
  insert_run insert_step insert_schedule : Site

-- `now` and `new_id` are the readings of the clock and the fresh identifiers in the order in which
-- the call asks for them; `fails` says which statements fail.
pub record Env (V : Type 0) : Type 0 where
  pub codec : Codec V
  pub now : ℕ → ℕ
  pub new_id : String → ℕ → String
  pub fails : Site → Bool
  -- the owner that the store names in its leases
  pub lease_owner : String

pub record MessageRow : Type 0 where
  pub namespace_id : String
  pub message_id : String
  pub thread_id : String
  pub sender_agent_id : String
  pub recipient_agent_id : String
  pub kind : String
  pub payload_json : String
  pub metadata_json : String
  pub status : MailboxMessageStatus
  pub available_at_ms : ℕ
  pub lease_owner : String
  pub lease_expires_at_ms : Option ℕ
  pub attempt_count : ℕ
  pub max_attempts : ℕ
  pub run_id : String
  pub dead_letter_reason : String
  pub last_error : String
  pub created_at_ms : ℕ
  pub updated_at_ms : ℕ
  pub claimed_at_ms : Option ℕ
  pub completed_at_ms : Option ℕ

pub record RunRow : Type 0 where
  pub namespace_id : String
  pub run_id : String
  pub message_id : String
  pub agent_id : String
  pub trigger_id : String
  pub status : String
  pub started_at_ms : ℕ
  pub finished_at_ms : Option ℕ
  pub duration_millis : ℕ
  pub cwd : String
  pub usage_cached_tokens : ℕ
  pub finish_thought : String
  pub value_json : String
  pub error : String
  pub trigger_prompt : String
  pub system_prompt : String
  pub created_at_ms : ℕ
  pub updated_at_ms : ℕ

pub record StepRow : Type 0 where
  pub namespace_id : String
  pub run_id : String
  pub step_index : ℕ
  pub step_type : String
  pub message_id : String
  pub agent_id : String
  pub thought : String
  pub shell : String
  pub action_name : String
  pub action_tool_kind : String
  pub action_input : String
  pub action_output : String
  pub action_output_truncated : Bool
  pub usage_cached_tokens : ℕ
  pub cwd_before : String
  pub cwd_after : String
  pub stdout : String
  pub stderr : String
  pub stdout_truncated : Bool
  pub stderr_truncated : Bool
  pub started_at_ms : ℕ
  pub finished_at_ms : ℕ
  pub duration_millis : ℕ
  pub status : String
  pub exit_status : ℕ
  pub error : String

pub record ScheduleRow : Type 0 where
  pub namespace_id : String
  pub schedule_id : String
  pub agent_id : String
  pub cron_expr : String
  pub timezone : String
  pub payload_json : String
  pub enabled : Bool
  pub next_fire_at_ms : Option ℕ
  pub last_fire_at_ms : Option ℕ
  pub created_at_ms : ℕ
  pub updated_at_ms : ℕ

-- Of the table of agents only the keys matter here.
pub record Db : Type 0 where
  pub agents : List (String × String)
  pub messages : List MessageRow
  pub runs : List RunRow
  pub steps : List StepRow
  pub schedules : List ScheduleRow

abbrev pub is_agent : String → String → String × String → Bool
is_agent ns id (a, b) = a == ns && b == id

abbrev pub is_message : String → String → MessageRow → Bool
is_message ns id row = row.namespace_id == ns && row.message_id == id

abbrev pub is_run : String → String → RunRow → Bool
is_run ns id row = row.namespace_id == ns && row.run_id == id

abbrev pub is_step : String → String → ℕ → StepRow → Bool
is_step ns id index row = row.namespace_id == ns && row.run_id == id && eqb row.step_index index

abbrev pub is_schedule : String → String → ScheduleRow → Bool
is_schedule ns id row = row.namespace_id == ns && row.schedule_id == id

-- The inserts, under the primary keys and the foreign keys of the tables.
unfoldable pub add_message : MessageRow → Db → Result StoreError Db
add_message row db = do
  refuse (any (is_message row.namespace_id row.message_id) db.messages) constraint_failed
  guard (any (is_agent row.namespace_id row.recipient_agent_id) db.agents) constraint_failed
  ok (record db { messages = db.messages ++ row ∷ [] })

unfoldable pub add_run : RunRow → Db → Result StoreError Db
add_run row db = do
  refuse (any (is_run row.namespace_id row.run_id) db.runs) constraint_failed
  guard (any (is_message row.namespace_id row.message_id) db.messages) constraint_failed
  guard (any (is_agent row.namespace_id row.agent_id) db.agents) constraint_failed
  ok (record db { runs = db.runs ++ row ∷ [] })

unfoldable pub add_step : StepRow → Db → Result StoreError Db
add_step row db = do
  refuse (any (is_step row.namespace_id row.run_id row.step_index) db.steps) constraint_failed
  guard (any (is_run row.namespace_id row.run_id) db.runs) constraint_failed
  ok (record db { steps = db.steps ++ row ∷ [] })

unfoldable pub add_schedule : ScheduleRow → Db → Result StoreError Db
add_schedule row db = do
  refuse (any (is_schedule row.namespace_id row.schedule_id) db.schedules) constraint_failed
  guard (any (is_agent row.namespace_id row.agent_id) db.agents) constraint_failed
  ok (record db { schedules = db.schedules ++ row ∷ [] })

-- What a call returns, with the database that it leaves behind.
abbrev pub Outcome : Type 0 → Type 0
Outcome A = Result StoreError A × Db

-- A transaction, or a single statement: the changes are kept if the body succeeds, and the
-- rollback restores the database if it fails.
abbrev pub transaction : {A : Type 0} → Db → Result StoreError (A × Db) → Outcome A
transaction db (ok (a, db')) = (ok a, db')
transaction db (err e) = (err e, db)
