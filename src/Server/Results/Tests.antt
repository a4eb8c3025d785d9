-- ===== src/Server/Results/Tests.antt =====
-- pkg/server/persistence.go on a run that failed in its first attempt.
use swarmd.Prelude.{
  ℕ, ◌+◌, ◌≡◌, refl, String, false, not, ◌&&◌, [], ◌∷◌, none, some, ◌==◌, leb, Has, inl, ok,
  is_empty, trim_space,
}
use swarmd.Store.Types.{nil}
use swarmd.Store.Envelope.{to_millis, marshal_optional_envelope, marshal_envelope}
use swarmd.Store.Tables.{MessageRow, Db}
use swarmd.Store.Mailbox.Enqueue.{new_message_row}
use swarmd.Store.Mailbox.Claim.{
  lease_row, new_run_row, is_claimable, claimed_record, new_run_record,
}
use swarmd.Store.Mailbox.Scan.{scan_mailbox_message}
use swarmd.Store.Mailbox.Complete.{
  complete_run, update_run_row, update_message_row, finish_run, release_row, fate, enqueue_outbox,
}
use swarmd.Store.Mailbox.Tests.{test_env, empty_db, greeting, claim_params}
use swarmd.Server.Context.{TriggerContext, trigger_context_from_metadata, trigger_metadata}
use swarmd.Server.Context.Tests.{claimed, forged}
use swarmd.Server.Results.{
  AgentResult, Envelopes, ResultPersister, delay_of, is_finished, is_given_up, handle_result,
  run_end, run_end_at, extract_outbox, outbox_messages, dead_letter_reason, retry_at,
}
use swarmd.Server.Results.Retries.{handle_result-claimable}
use swarmd.Server.Serve.Spoofed.{HasResult, handle_result-spoofed}

abbrev no_outbox : Envelopes ℕ
no_outbox = record { encode = λ p. some "{}"; read_outbox = λ s. some []; parse_time = λ s. none }

abbrev persister : ResultPersister
persister = record { retry_delay = 0; allow_message_send = false }

abbrev failed : AgentResult ℕ
failed = record {
  metadata = some (trigger_metadata "n" "a" claimed none);
  status = "driver_error";
  finished_at = 3000000000;
  duration = 1000000000;
  cwd = "/";
  usage_cached_tokens = 0;
  finish_thought = "";
  value = nil;
  error = "timeout";
}

abbrev held : MessageRow
held =
    lease_row "worker" 302000000000 "r" 2000000000
      (new_message_row greeting "m" 1000000000 "hello" "")

abbrev held_db : Db
held_db = record empty_db {
  messages = held ∷ [];
  runs = new_run_row claim_params "r" "m" 2000000000 "hello" ∷ [];
}

abbrev after : Db
after = (handle_result no_outbox (test_env 3 "x") persister 3000000000 failed held_db).1

abbrev known : TriggerContext
known = record {
  namespace_id = "n";
  agent_id = "a";
  message_id = "m";
  thread_id = "m";
  run_id = "r";
  sender_agent_id = "";
}

result_code : Unit {0}
unfolding handle_result complete_run update_run_row update_message_row finish_run release_row fate
    enqueue_outbox marshal_optional_envelope marshal_envelope run_end run_end_at extract_outbox
    outbox_messages dead_letter_reason retry_at trigger_context_from_metadata trigger_metadata
    is_empty trim_space lease_row new_message_row new_run_row claimed_record new_run_record
    scan_mailbox_message
result_code = tt

read : trigger_context_from_metadata failed.metadata ≡ ok known
unfolding result_code
read = refl

stored :
    handle_result no_outbox (test_env 3 "x") persister 3000000000 failed held_db ≡ (ok tt, after)
unfolding result_code
stored = refl

held_id : held.message_id ≡ "m"
unfolding result_code
held_id = refl

held_ns : held.namespace_id ≡ "n"
unfolding result_code
held_ns = refl

handle_result-claimable_example :
    (s : MessageRow) × Has s after.messages
    × (s.message_id ≡ held.message_id)
    × ((agent : String) (now_ms : ℕ)
        → is_claimable "n" agent now_ms s ≡ (
            held.recipient_agent_id == agent
            && (not (is_finished failed)
                && not (is_given_up failed)
                && leb (to_millis (3000000000 + delay_of persister)) now_ms)))
handle_result-claimable_example =
    handle_result-claimable no_outbox (test_env 3 "x") persister 3000000000 failed known held_db
      held read stored (inl refl) held_ns held_id

-- The message names the run of another one.
abbrev misled : AgentResult ℕ
misled = record failed { metadata = some (trigger_metadata "n" "a" claimed (some forged)) }

abbrev two_runs_db : Db
two_runs_db = record held_db {
  runs =
      new_run_row claim_params "r" "m" 2000000000 "hello"
      ∷ new_run_row claim_params "other" "m2" 2000000000 "bye"
      ∷ [];
}

abbrev misled_db : Db
misled_db = (handle_result no_outbox (test_env 3 "x") persister 3000000000 misled two_runs_db).1

misled_stored :
    handle_result no_outbox (test_env 3 "x") persister 3000000000 misled two_runs_db
    ≡ (ok tt, misled_db)
unfolding result_code
misled_stored = refl

handle_result-spoofed_example : HasResult (test_env 3 "x") "n" "other" misled two_runs_db misled_db
handle_result-spoofed_example =
    handle_result-spoofed no_outbox (test_env 3 "x") persister 3000000000 misled "n" "a" "other"
      claimed forged two_runs_db refl refl refl misled_stored
