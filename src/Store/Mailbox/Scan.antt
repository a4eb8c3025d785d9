-- ===== src/Store/Mailbox/Scan.antt =====
-- pkg/server/store/mailbox.go: rows as records, and the prompt of a run.
use swarmd.Prelude.{String, trim_space, Result, ok, or_err}
use swarmd.Store.Types.{
  Payload, nil, text, value, MailboxMessageRecord, RunRecord, StoreError, render_failed,
}
use swarmd.Store.Envelope.{Codec, from_millis, null_millis_to_time, from_duration_millis}
use swarmd.Store.Tables.{MessageRow, RunRow}

-- `scanMailboxMessage`.
unfoldable pub scan_mailbox_message : MessageRow → MailboxMessageRecord
scan_mailbox_message row = record {
  namespace_id = row.namespace_id;
  id = row.message_id;
  thread_id = row.thread_id;
  sender_agent_id = row.sender_agent_id;
  recipient_agent_id = row.recipient_agent_id;
  kind = row.kind;
  payload_json = row.payload_json;
  metadata_json = row.metadata_json;
  status = row.status;
  available_at = from_millis row.available_at_ms;
  lease_owner = row.lease_owner;
  lease_expires_at = null_millis_to_time row.lease_expires_at_ms;
  attempt_count = row.attempt_count;
  max_attempts = row.max_attempts;
  run_id = row.run_id;
  dead_letter_reason = row.dead_letter_reason;
  last_error = row.last_error;
  created_at = from_millis row.created_at_ms;
  updated_at = from_millis row.updated_at_ms;
  claimed_at = null_millis_to_time row.claimed_at_ms;
  completed_at = null_millis_to_time row.completed_at_ms;
}

-- `scanRun`.
unfoldable pub scan_run : RunRow → RunRecord
scan_run row = record {
  namespace_id = row.namespace_id;
  id = row.run_id;
  message_id = row.message_id;
  agent_id = row.agent_id;
  trigger_id = row.trigger_id;
  status = row.status;
  started_at = from_millis row.started_at_ms;
  finished_at = null_millis_to_time row.finished_at_ms;
  duration = from_duration_millis row.duration_millis;
  cwd = row.cwd;
  usage_cached_tokens = row.usage_cached_tokens;
  finish_thought = row.finish_thought;
  value_json = row.value_json;
  error = row.error;
  trigger_prompt = row.trigger_prompt;
  system_prompt = row.system_prompt;
  created_at = from_millis row.created_at_ms;
  updated_at = from_millis row.updated_at_ms;
}

-- `agent.RenderTriggerPrompt`; a payload that was decoded from JSON is no `[]byte` or `Stringer`.
unfoldable pub render_trigger_prompt : {V : Type 0} → Codec V → Payload V → Result StoreError String
render_trigger_prompt codec nil = ok ""
render_trigger_prompt codec (text s) = ok (trim_space s)
render_trigger_prompt codec (value v) = or_err (codec.marshal_indent v) render_failed
