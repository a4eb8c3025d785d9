-- ===== src/Store/Mailbox/Enqueue.antt =====
-- pkg/server/store/mailbox.go: a new message.
use swarmd.Prelude.{ℕ, String, none, some, is_empty, Result, ok, ◌>>=◌, ◌>>◌, refuse}
use swarmd.Store.Types.{
  queued, MailboxMessageRecord, CreateMailboxMessageParams, StoreError, empty_id, database_failed,
}
use swarmd.Store.Envelope.{
  marshal_envelope, marshal_optional_envelope, default_string, default_int, to_millis,
}
use swarmd.Store.Tables.{
  Site, insert_message, Env, MessageRow, Db, add_message, Outcome, transaction,
}

-- `err != nil` after a statement.
abbrev pub run_stmt : {V : Type 0} → Env V → Site → Result StoreError (Unit {0})
run_stmt env site = refuse (env.fails site) database_failed

-- The row that `INSERT INTO mailbox_messages` writes.
unfoldable pub new_message_row :
    {V : Type 0}
    → CreateMailboxMessageParams V
    → (message_id : String) (now : ℕ) (payload metadata : String) → MessageRow
new_message_row params message_id now payload metadata = record {
  namespace_id = params.namespace_id;
  message_id = message_id;
  thread_id = default_string params.thread_id message_id;
  sender_agent_id = params.sender_agent_id;
  recipient_agent_id = params.recipient_agent_id;
  kind = default_string params.kind "mailbox.message";
  payload_json = payload;
  metadata_json = metadata;
  status = queued;
  available_at_ms = to_millis (elim params.available_at [ none ↦ now | some t ↦ t ]);
  lease_owner = "";
  lease_expires_at_ms = none;
  attempt_count = 0;
  max_attempts = default_int params.max_attempts 5;
  run_id = "";
  dead_letter_reason = "";
  last_error = "";
  created_at_ms = to_millis now;
  updated_at_ms = to_millis now;
  claimed_at_ms = none;
  completed_at_ms = none;
}

-- The record that is returned for it, with the times as they were given.
unfoldable pub new_message_record :
    {V : Type 0} → CreateMailboxMessageParams V → ℕ → MessageRow → MailboxMessageRecord
new_message_record params now row = record {
  namespace_id = row.namespace_id;
  id = row.message_id;
  thread_id = row.thread_id;
  sender_agent_id = row.sender_agent_id;
  recipient_agent_id = row.recipient_agent_id;
  kind = row.kind;
  payload_json = row.payload_json;
  metadata_json = row.metadata_json;
  status = queued;
  available_at = elim params.available_at [ none ↦ now | some t ↦ t ];
  lease_owner = "";
  lease_expires_at = none;
  attempt_count = 0;
  max_attempts = row.max_attempts;
  run_id = "";
  dead_letter_reason = "";
  last_error = "";
  created_at = now;
  updated_at = now;
  claimed_at = none;
  completed_at = none;
}

module _ {V : Type 0} (env : Env V) where
  -- `enqueueMessageTx`: the `k`-th insert of the call.
  unfoldable pub enqueue_message_tx :
      (now k : ℕ)
      → CreateMailboxMessageParams V
      → Db
      → Result StoreError (MailboxMessageRecord × Db)
  enqueue_message_tx now k params db = do
    let message_id = default_string params.message_id (env.new_id "msg" k)
    payload ← marshal_envelope env.codec "mailbox_payload" params.payload
    metadata ← marshal_optional_envelope env.codec "mailbox_metadata" params.metadata
    let row = new_message_row params message_id now payload metadata
    run_stmt env (insert_message k)
    db' ← add_message row db
    ok (new_message_record params now row, db')

  -- The checks of `EnqueueMessage`; what follows them is the code of `enqueueMessageTx` again.
  unfoldable pub check_message :
      CreateMailboxMessageParams V → Db → Result StoreError (MailboxMessageRecord × Db)
  check_message params db = do
    refuse (is_empty params.namespace_id) empty_id
    refuse (is_empty params.recipient_agent_id) empty_id
    enqueue_message_tx (env.now 0) 0 params db

  unfoldable pub enqueue_message : CreateMailboxMessageParams V → Db → Outcome MailboxMessageRecord
  unfolding check_message
  enqueue_message params db = transaction db (check_message params db)
