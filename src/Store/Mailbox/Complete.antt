-- ===== src/Store/Mailbox/Complete.antt =====
-- pkg/server/store/mailbox.go: the steps of a run, its end, and what becomes of its message.
use swarmd.Prelude.{
  ℕ, suc, String, Bool, ◌&&◌, ◌||◌, List, [], ◌∷◌, Option, none, some, ◌==◌, eqb, ltb,
  if◌then◌else◌, is_empty, count, select, update_where, Result, ok, ◌>>=◌, ◌>>◌, refuse, or_err,
  take, map, first, order_by,
}
use swarmd.Store.Types.{
  MailboxMessageStatus, queued, completed, dead_letter, RunRecord, StepRecord, MailboxThreadMessage,
  CreateMailboxMessageParams, CompleteRunParams, StoreError, empty_id, not_found,
}
use swarmd.Store.Envelope.{
  marshal_optional_envelope, to_millis, from_millis, null_millis_to_time, to_duration_millis,
  default_int,
}
use swarmd.Store.Mailbox.Enqueue.{run_stmt, enqueue_message_tx}
use swarmd.Store.Mailbox.Scan.{scan_run}
use swarmd.Store.Tables.{
  begin, commit, query, update_message, affected_message, update_run, affected_run, insert_step,
  Env, MessageRow, RunRow, StepRow, Db, is_message, is_run, add_step, Outcome, transaction,
}

unfoldable pub new_step_row : StepRecord → StepRow
new_step_row step = record {
  namespace_id = step.namespace_id;
  run_id = step.run_id;
  step_index = step.step_index;
  step_type = step.step_type;
  message_id = step.message_id;
  agent_id = step.agent_id;
  thought = step.thought;
  shell = step.shell;
  action_name = step.action_name;
  action_tool_kind = step.action_tool_kind;
  action_input = step.action_input;
  action_output = step.action_output;
  action_output_truncated = step.action_output_truncated;
  usage_cached_tokens = step.usage_cached_tokens;
  cwd_before = step.cwd_before;
  cwd_after = step.cwd_after;
  stdout = step.stdout;
  stderr = step.stderr;
  stdout_truncated = step.stdout_truncated;
  stderr_truncated = step.stderr_truncated;
  started_at_ms = to_millis step.started_at;
  finished_at_ms = to_millis step.finished_at;
  duration_millis = to_duration_millis step.duration;
  status = step.status;
  exit_status = step.exit_status;
  error = step.error;
}

-- What the UPDATE of the run writes.
unfoldable pub finish_run : {V : Type 0} → CompleteRunParams V → String → ℕ → RunRow → RunRow
finish_run params value_json now row = record row {
  status = params.status;
  finished_at_ms = some (to_millis params.finished_at);
  duration_millis = to_duration_millis params.duration;
  cwd = params.cwd;
  usage_cached_tokens = params.usage_cached_tokens;
  finish_thought = params.finish_thought;
  value_json = value_json;
  error = params.error;
  updated_at_ms = to_millis now;
}

-- The variables that the end of a run sets for the UPDATE of its message.
pub record Fate : Type 0 where
  pub status : MailboxMessageStatus
  pub available_at : ℕ
  pub completed_at_ms : Option ℕ
  pub reason : String

abbrev pub completed_fate : ℕ → Fate
completed_fate finished_at = record {
  status = completed;
  available_at = finished_at;
  completed_at_ms = some (to_millis finished_at);
  reason = "";
}

abbrev pub retry_fate : ℕ → Fate
retry_fate t = record { status = queued; available_at = t; completed_at_ms = none; reason = "" }

abbrev pub dead_fate : ℕ → String → Fate
dead_fate finished_at reason = record {
  status = dead_letter;
  available_at = finished_at;
  completed_at_ms = some (to_millis finished_at);
  reason = reason;
}

-- A reason to give up comes before a time for a retry.
unfoldable pub fate : {V : Type 0} → CompleteRunParams V → Fate
fate params =
    if is_empty params.dead_letter_reason
    then (elim params.retry_at [ none ↦ completed_fate params.finished_at | some t ↦ retry_fate t ])
    else dead_fate params.finished_at params.dead_letter_reason

-- What the UPDATE of the message writes.
unfoldable pub release_row : Fate → String → ℕ → MessageRow → MessageRow
release_row f error now row = record row {
  status = f.status;
  available_at_ms = to_millis f.available_at;
  lease_owner = "";
  lease_expires_at_ms = none;
  run_id = "";
  dead_letter_reason = f.reason;
  last_error = error;
  updated_at_ms = to_millis now;
  completed_at_ms = f.completed_at_ms;
}

abbrev pub is_in_thread : String → String → MessageRow → Bool
is_in_thread ns thread row = row.namespace_id == ns && row.thread_id == thread

unfoldable pub scan_thread_message : MessageRow → MailboxThreadMessage
scan_thread_message row = record {
  id = row.message_id;
  thread_id = row.thread_id;
  sender_agent_id = row.sender_agent_id;
  recipient_agent_id = row.recipient_agent_id;
  kind = row.kind;
  payload_json = row.payload_json;
  status = row.status;
  created_at = from_millis row.created_at_ms;
  completed_at = null_millis_to_time row.completed_at_ms;
}

module _ {V : Type 0} (env : Env V) where
  unfoldable pub insert_new_step : StepRecord → Db → Result StoreError (Unit {0} × Db)
  insert_new_step step db = do
    refuse (is_empty step.namespace_id || is_empty step.run_id) empty_id
    run_stmt env insert_step
    db' ← add_step (new_step_row step) db
    ok (tt, db')

  unfoldable pub record_step : StepRecord → Db → Outcome (Unit {0})
  unfolding insert_new_step
  record_step step db = transaction db (insert_new_step step db)

  -- The loop over the outbox: `k` messages are inserted.
  unfoldable pub enqueue_outbox :
      (now k : ℕ) → List (CreateMailboxMessageParams V) → Db → Result StoreError Db
  enqueue_outbox now k [] db = ok db
  enqueue_outbox now k (m ∷ ms) db =
      enqueue_message_tx env now k m db >>= λ sent. enqueue_outbox now (suc k) ms sent.1

  -- The two UPDATEs, each of which must affect a row.
  unfoldable pub update_run_row : CompleteRunParams V → String → ℕ → Db → Result StoreError Db
  update_run_row params value_json now db = do
    let hit = is_run params.namespace_id params.run_id
    run_stmt env update_run
    run_stmt env affected_run
    refuse (eqb (count hit db.runs) 0) not_found
    ok (record db { runs = update_where hit (finish_run params value_json now) db.runs })

  unfoldable pub update_message_row : CompleteRunParams V → ℕ → Db → Result StoreError Db
  update_message_row params now db = do
    let hit = is_message params.namespace_id params.message_id
    run_stmt env update_message
    run_stmt env affected_message
    refuse (eqb (count hit db.messages) 0) not_found
    ok (record db {
      messages = update_where hit (release_row (fate params) params.error now) db.messages;
    })

  -- The body of `CompleteRun`, from its checks to the commit.
  unfoldable pub finish_message : CompleteRunParams V → Db → Result StoreError (Unit {0} × Db)
  finish_message params db = do
    refuse (is_empty params.namespace_id || is_empty params.run_id || is_empty params.message_id)
        empty_id
    value_json ← marshal_optional_envelope env.codec "run_value" params.value
    run_stmt env begin
    updated ← update_run_row params value_json (env.now 0) db
    released ← update_message_row params (env.now 0) updated
    sent ← enqueue_outbox (env.now 0) 0 params.outbox released
    run_stmt env commit
    ok (tt, sent)

  unfoldable pub complete_run : CompleteRunParams V → Db → Outcome (Unit {0})
  unfolding finish_message
  complete_run params db = transaction db (finish_message params db)

  unfoldable pub get_run : (namespace_id run_id : String) → Db → Result StoreError RunRecord
  get_run ns id db = do
    run_stmt env query
    row ← or_err (first (select (is_run ns id) db.runs)) not_found
    ok (scan_run row)

  -- `ORDER BY created_at_ms ASC LIMIT ?`
  unfoldable pub list_thread_messages :
      (namespace_id thread_id : String) (limit : ℕ)
      → Db
      → Result StoreError (List MailboxThreadMessage)
  unfolding order_by
  list_thread_messages ns thread limit db = do
    run_stmt env query
    ok (
        map scan_thread_message (
          take (default_int limit 20) (
            order_by (λ r s. ltb r.created_at_ms s.created_at_ms)
              (select (is_in_thread ns thread) db.messages))))
