-- ===== src/Server/Context/Tests.antt =====
-- pkg/server/context.go and queue.go on a claimed message.
use swarmd.Prelude.{◌≡◌, refl, some}
use swarmd.Store.Types.{ClaimedMailboxMessage}
use swarmd.Store.Mailbox.Enqueue.{new_message_row}
use swarmd.Store.Mailbox.Scan.{scan_mailbox_message}
use swarmd.Store.Mailbox.Claim.{claimed_record, new_run_record}
use swarmd.Store.Mailbox.Tests.{greeting, claim_params}
use swarmd.Server.Context.{
  Metadata, string, empty_metadata, put, read_context, metadata_int, trigger_metadata, LeavesKeys,
  read_context-trigger_metadata,
}

abbrev pub claimed : ClaimedMailboxMessage
claimed = record {
  message =
      claimed_record "worker" 302000000000 "r" 2000000000
        (scan_mailbox_message (new_message_row greeting "m" 1000000000 "hello" ""));
  run = new_run_record claim_params "r" "m" 2000000000 "hello";
}

abbrev topic : Metadata
topic = put "topic" (string "news") empty_metadata

topic_keys : LeavesKeys topic
topic_keys = record {
  namespace_id = refl;
  agent_id = refl;
  message_id = refl;
  thread_id = refl;
  run_id = refl;
  sender_agent_id = refl;
  attempt_count = refl;
  max_attempts = refl;
}

read_context-trigger_metadata_example :
    let m = trigger_metadata "n" "a" claimed (some topic) in
    (read_context m ≡ record {
      namespace_id = "n";
      agent_id = "a";
      message_id = claimed.message.id;
      thread_id = claimed.message.thread_id;
      run_id = claimed.run.id;
      sender_agent_id = claimed.message.sender_agent_id;
    })
    × (metadata_int m "server_attempt_count" ≡ claimed.message.attempt_count)
    × (metadata_int m "server_max_attempts" ≡ claimed.message.max_attempts)
read_context-trigger_metadata_example =
    read_context-trigger_metadata "n" "a" claimed topic topic_keys

abbrev pub forged : Metadata
forged = put "server_run_id" (string "other") empty_metadata
