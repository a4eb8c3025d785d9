-- ===== src/Server/Turns/Tests.antt =====
-- A worker's turn whose one step goes to the store.
use swarmd.Prelude.{ℕ, ◌≡◌, refl, true, false, ◌++◌, Option, ◌==◌, trim_space, is_empty, ok}
use swarmd.Store.Tables.{Db, add_step}
use swarmd.Store.Mailbox.Complete.{record_step, insert_new_step, new_step_row}
use swarmd.Store.Mailbox.Claim.{new_run_row, claimed_record, new_run_record}
use swarmd.Store.Mailbox.Scan.{scan_mailbox_message}
use swarmd.Store.Mailbox.Enqueue.{new_message_row}
use swarmd.Store.Mailbox.Tests.{test_env}
use swarmd.Server.Context.{
  TriggerContext, trigger_metadata, trigger_context_from_metadata, read_context,
}
use swarmd.Server.Context.Tests.{claimed}
use swarmd.Server.Steps.{StepError, step_record, handle_step}
use swarmd.Server.Steps.Tests.{run_db, meta}
use swarmd.Agent.Types.{GoError, Trigger, TurnResult}
use swarmd.Agent.Requests.{
  new_trigger_request_context, build_driver_request, with_provider_state, with_step_replay_data,
  with_run_started_at, flatten_conversation_steps,
}
use swarmd.Agent.Decisions.{plain_error, next_decision, validate_decision}
use swarmd.Agent.Spill.{begin_run_spill_dir}
use swarmd.Agent.Loop.{run_turn, turn_loop, round, run_tool_step, finish_result, step_call_id}
use swarmd.Agent.Loop.Tests.{counting_host, plain_wording, two_steps, hello}
use swarmd.Server.Turns.{worker_host}
use swarmd.Server.Turns.Stored.{step_rows, run_turn-Stored}

abbrev describe : StepError → GoError
describe e = plain_error "step was not recorded"

abbrev trigger : Trigger ℕ
trigger = record hello { metadata = meta }

abbrev outcome : (TurnResult ℕ × Option GoError) × (Db × ℕ)
outcome =
    run_turn (worker_host (test_env 3 "x") describe counting_host) plain_wording two_steps trigger 1
      true new_trigger_request_context (run_db, 0)

abbrev context : TriggerContext
context = read_context (trigger_metadata "n" "a" claimed Option.none)

context_known : trigger_context_from_metadata meta ≡ ok context
unfolding trigger_context_from_metadata trigger_metadata is_empty claimed_record
    scan_mailbox_message new_message_row new_run_record
context_known = refl

finished : (outcome.0.0.status == "fatal_error") ≡ false
unfolding run_turn turn_loop round next_decision validate_decision build_driver_request
    begin_run_spill_dir new_trigger_request_context with_provider_state with_step_replay_data
    with_run_started_at flatten_conversation_steps is_empty run_tool_step finish_result step_call_id
    trim_space worker_host handle_step record_step insert_new_step step_record new_step_row add_step
    trigger_metadata trigger_context_from_metadata claimed_record scan_mailbox_message
    new_message_row new_run_record new_run_row
finished = refl

run_turn-Stored_example :
    outcome.1.0 ≡ record run_db { steps = run_db.steps ++ step_rows context outcome.0.0.steps }
run_turn-Stored_example =
    run_turn-Stored (test_env 3 "x") describe counting_host plain_wording two_steps trigger 1 true
      new_trigger_request_context context (run_db, 0) outcome.1 outcome.0.0 outcome.0.1 refl
      context_known finished
