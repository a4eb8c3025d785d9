-- ===== src/Server/Serve/Tests.antt =====
-- A message on its way through an agent that needs two steps of which it is allowed one.
use swarmd.Prelude.{
  ℕ, ◌≡◌, refl, String, false, [], ◌∷◌, Option, none, some, Has, ok, is_empty, trim_space,
}
use swarmd.Store.Types.{text, queued, ClaimedMailboxMessage}
use swarmd.Store.Envelope.{decode_envelope_any, marshal_envelope, marshal_optional_envelope}
use swarmd.Store.Tables.{MessageRow, Db, add_run, add_step}
use swarmd.Store.Mailbox.Claim.{
  is_claimable, claimed_record, new_run_record, claim_next_message, claim_loop, claim_attempt,
  lease_message, start_run, earliest, is_leasable, lease_row, new_run_row,
}
use swarmd.Store.Mailbox.Scan.{scan_mailbox_message, render_trigger_prompt}
use swarmd.Store.Mailbox.Complete.{
  record_step, insert_new_step, new_step_row, finish_run, fate, release_row, enqueue_outbox,
  update_run_row, update_message_row, complete_run,
}
use swarmd.Store.Mailbox.Tests.{test_env, empty_db}
use swarmd.Agent.Types.{GoError, Trigger}
use swarmd.Agent.Requests.{
  AgentConfig, new_trigger_request_context, build_driver_request, with_provider_state,
  with_step_replay_data, with_run_started_at, flatten_conversation_steps,
}
use swarmd.Agent.Decisions.{plain_error, next_decision, validate_decision}
use swarmd.Agent.Spill.{begin_run_spill_dir}
use swarmd.Agent.Loop.{
  handle_trigger, run_turn, turn_loop, round, run_tool_step, finish_result, step_call_id,
}
use swarmd.Agent.Loop.Tests.{counting_host, plain_wording, two_steps}
use swarmd.Server.Context.{Metadata, trigger_metadata, trigger_context_from_metadata}
use swarmd.Server.Steps.{StepError, step_record, handle_step}
use swarmd.Server.Results.{
  Envelopes, ResultPersister, handle_result, run_end, run_end_at, extract_outbox, outbox_messages,
  dead_letter_reason, retry_at,
}
use swarmd.Server.Turns.{worker_host, persisted}
use swarmd.Server.Queue.{MessageQueue, claim_params, message_trigger, poll}
use swarmd.Server.Serve.{Passing, serve_trigger}
use swarmd.Server.Serve.Again.{Again, serve_trigger-Again}

abbrev no_maps : String → Option Metadata
no_maps json = none

abbrev no_outbox : Envelopes ℕ
no_outbox = record { encode = λ p. some "{}"; read_outbox = λ s. some []; parse_time = λ s. none }

abbrev persister : ResultPersister
persister = record { retry_delay = 0; allow_message_send = false }

abbrev describe : StepError → GoError
describe e = plain_error "step was not recorded"

claim_code : Unit {0}
unfolding poll claim_next_message claim_loop claim_attempt lease_message start_run earliest
    is_claimable is_leasable lease_row render_trigger_prompt add_run new_run_row claimed_record
    new_run_record scan_mailbox_message decode_envelope_any message_trigger trigger_metadata
    is_empty trim_space
claim_code = tt

serve_code : Unit {0}
unfolding serve_trigger handle_trigger run_turn turn_loop round next_decision validate_decision
    build_driver_request begin_run_spill_dir new_trigger_request_context with_provider_state
    with_step_replay_data with_run_started_at flatten_conversation_steps run_tool_step finish_result
    step_call_id worker_host handle_step record_step insert_new_step step_record new_step_row
    add_step trigger_context_from_metadata persisted handle_result complete_run update_run_row
    update_message_row finish_run release_row fate enqueue_outbox marshal_optional_envelope
    marshal_envelope run_end run_end_at extract_outbox outbox_messages dead_letter_reason retry_at
serve_code = tt

abbrev queue : MessageQueue
queue = record {
  namespace_id = "n";
  agent_id = "a";
  lease_owner = "worker";
  lease_duration = 0;
  system_prompt = "";
}

abbrev waiting : MessageRow
waiting = record {
  namespace_id = "n";
  message_id = "m";
  thread_id = "m";
  sender_agent_id = "";
  recipient_agent_id = "a";
  kind = "agent.message";
  payload_json = "hello";
  metadata_json = "";
  status = queued;
  available_at_ms = 1000;
  lease_owner = "";
  lease_expires_at_ms = none;
  attempt_count = 0;
  max_attempts = 3;
  run_id = "";
  dead_letter_reason = "";
  last_error = "";
  created_at_ms = 1000;
  updated_at_ms = 1000;
  claimed_at_ms = none;
  completed_at_ms = none;
}

abbrev waiting_db : Db
waiting_db = record empty_db { messages = waiting ∷ [] }

abbrev taken_db : Db
taken_db = (poll no_maps (test_env 2 "r") queue waiting_db).1

abbrev claimed : ClaimedMailboxMessage
claimed = record {
  message = claimed_record "worker" 302000000000 "r" 2000000000 (scan_mailbox_message waiting);
  run = new_run_record (claim_params queue) "r" "m" 2000000000 "hello";
}

abbrev trigger : Trigger ℕ
trigger = message_trigger no_maps queue claimed (text "hello")

polled : poll no_maps (test_env 2 "r") queue waiting_db ≡ (ok (some trigger), taken_db)
unfolding claim_code
polled = refl

abbrev one_step : AgentConfig
one_step = record two_steps { max_steps = 1 }

abbrev passing : Passing ℕ
passing = record { polls = []; during = test_env 3 "x"; after = test_env 3 "x"; now = 3000000000 }

abbrev served_state : Db × ℕ
served_state =
    (serve_trigger no_maps no_outbox describe counting_host plain_wording one_step queue persister
      passing trigger (taken_db, 0)).1

served :
    serve_trigger no_maps no_outbox describe counting_host plain_wording one_step queue persister
      passing trigger
      (taken_db, 0)
    ≡ (ok tt, served_state)
unfolding claim_code serve_code
served = refl

serve_trigger-Again_example :
    (row : MessageRow) × Has row waiting_db.messages
    × (row.recipient_agent_id ≡ "a")
    × Again no_maps no_outbox describe counting_host plain_wording one_step queue persister
        3000000000 row
        (handle_trigger
          (worker_host (test_env 3 "x") describe counting_host)
          plain_wording
          one_step
          trigger
          (taken_db, 0)).0.0
        served_state.0
serve_trigger-Again_example =
    serve_trigger-Again no_maps no_outbox describe counting_host plain_wording one_step queue
      persister (test_env 2 "r") passing waiting_db taken_db 0 trigger polled served
      (λ row there m e. absurd (nothing e))
  where
    nothing : {m : Metadata} → ◌≡◌ {A = Option Metadata} none (some m) → ⊥
    nothing e = cc
