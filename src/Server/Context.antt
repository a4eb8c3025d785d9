-- ===== src/Server/Context.antt =====
-- pkg/server/context.go, and the trigger of pkg/server/queue.go: the identifiers of a message and
-- its run on their way through the agent.
pub mod Tests
use swarmd.Prelude.{
  ℕ, ◌≡◌, ◌≢◌, refl, sym, ap, ◌∙◌, subst, String, Bool, true, false, ◌||◌, List, [], ◌∷◌, Option,
  none, some, ◌==◌, eq_iff, if◌then◌else◌, is_empty, Result, ok, err, arith,
}
use swarmd.Store.Types.{MailboxMessageRecord, RunRecord, ClaimedMailboxMessage}

-- A value of a metadata map, as far as the runtime reads it.
pub data MetaValue : Type 0 where
  string : String → MetaValue
  number : ℕ → MetaValue
  anything_else : MetaValue

-- `map[string]any`
abbrev pub Metadata : Type 0
Metadata = String → Option MetaValue

-- `metadata[key] = value`
abbrev pub put : String → MetaValue → Metadata → Metadata
put key v m k = if k == key then some v else m k

-- `for key, value := range original { metadata[key] = value }`
abbrev pub put_all : Metadata → Metadata → Metadata
put_all original m k = elim (original k) [ none ↦ m k | some v ↦ some v ]

abbrev pub empty_metadata : Metadata
empty_metadata k = none

pub record TriggerContext : Type 0 where
  pub namespace_id : String
  pub agent_id : String
  pub message_id : String
  pub thread_id : String
  pub run_id : String
  pub sender_agent_id : String

abbrev pub metadata_string : Metadata → String → String
metadata_string m key = elim (m key) [
  | some (string s) ↦ s
  | some (number n) ↦ ""
  | some anything_else ↦ ""
  | none ↦ ""
]

abbrev pub metadata_int : Metadata → String → ℕ
metadata_int m key = elim (m key) [
  | some (string s) ↦ 0
  | some (number n) ↦ n
  | some anything_else ↦ 0
  | none ↦ 0
]

pub data ContextError : Type 0 where
  missing incomplete : ContextError

abbrev pub read_context : Metadata → TriggerContext
read_context m = record {
  namespace_id = metadata_string m "server_namespace_id";
  agent_id = metadata_string m "server_agent_id";
  message_id = metadata_string m "server_message_id";
  thread_id = metadata_string m "server_thread_id";
  run_id = metadata_string m "server_run_id";
  sender_agent_id = metadata_string m "server_sender_agent_id";
}

abbrev pub check_context : TriggerContext → Result ContextError TriggerContext
check_context c =
    if is_empty c.namespace_id || is_empty c.agent_id || is_empty c.message_id || is_empty c.run_id
    then err incomplete
    else ok c

-- `TriggerContextFromMetadata`; `none` is the nil map.
unfoldable pub trigger_context_from_metadata : Option Metadata → Result ContextError TriggerContext
trigger_context_from_metadata none = err missing
trigger_context_from_metadata (some m) = check_context (read_context m)

-- The metadata that `MessageQueue.Next` gives to the trigger of a claimed message. `original` is the
-- metadata of the message, if they are a map.
abbrev pub own_metadata : (namespace_id agent_id : String) → ClaimedMailboxMessage → Metadata
own_metadata ns agent c = put "server_max_attempts" (number c.message.max_attempts) (
    put "server_attempt_count" (number c.message.attempt_count) (
      put "server_run_id" (string c.run.id) (
        put "server_thread_id" (string c.message.thread_id) (
          put "server_message_id" (string c.message.id) (
            put "server_agent_id" (string agent)
              (put "server_namespace_id" (string ns) empty_metadata))))))

unfoldable pub trigger_metadata :
    (namespace_id agent_id : String) → ClaimedMailboxMessage → Option Metadata → Metadata
trigger_metadata ns agent c original =
    let own = own_metadata ns agent c in
    let sent =
      if is_empty c.message.sender_agent_id
      then own
      else put "server_sender_agent_id" (string c.message.sender_agent_id) own in
    elim original [ none ↦ sent | some m ↦ put_all m sent ]

-- A map that names none of the keys of the runtime.
pub record LeavesKeys (m : Metadata) : Type 0 where
  pub namespace_id : m "server_namespace_id" ≡ none
  pub agent_id : m "server_agent_id" ≡ none
  pub message_id : m "server_message_id" ≡ none
  pub thread_id : m "server_thread_id" ≡ none
  pub run_id : m "server_run_id" ≡ none
  pub sender_agent_id : m "server_sender_agent_id" ≡ none
  pub attempt_count : m "server_attempt_count" ≡ none
  pub max_attempts : m "server_max_attempts" ≡ none

-- What the runtime stores about a claimed message is found again in its trigger: its own metadata
-- read back are the identifiers of the queue, the message, the run and the sender, and the numbers of
-- attempts, as long as the metadata of the message name none of the keys of the runtime.
pub read_context-trigger_metadata :
    (ns agent : String) (c : ClaimedMailboxMessage) (original : Metadata)
    → LeavesKeys original
    → let m = trigger_metadata ns agent c (some original) in
      (read_context m ≡ record {
        namespace_id = ns;
        agent_id = agent;
        message_id = c.message.id;
        thread_id = c.message.thread_id;
        run_id = c.run.id;
        sender_agent_id = c.message.sender_agent_id;
      })
      × (metadata_int m "server_attempt_count" ≡ c.message.attempt_count)
      × (metadata_int m "server_max_attempts" ≡ c.message.max_attempts)
unfolding trigger_metadata is_empty
read_context-trigger_metadata ns agent c original keys = ground arith
