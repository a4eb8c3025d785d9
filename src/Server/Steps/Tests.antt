-- ===== src/Server/Steps/Tests.antt =====
-- pkg/server/persistence.go: a step of a run.
use swarmd.Prelude.{◌≡◌, refl, false, [], ◌∷◌, ◌++◌, Option, some, any, ok, is_empty}
use swarmd.Store.Tables.{Db, is_step, add_step}
use swarmd.Store.Mailbox.Claim.{new_run_row, claimed_record, new_run_record}
use swarmd.Store.Mailbox.Scan.{scan_mailbox_message}
use swarmd.Store.Mailbox.Enqueue.{new_message_row}
use swarmd.Store.Mailbox.Complete.{record_step, insert_new_step, new_step_row}
use swarmd.Store.Mailbox.Tests.{test_env, empty_db, claim_params}
use swarmd.Server.Context.{
  Metadata, TriggerContext, trigger_metadata, trigger_context_from_metadata,
}
use swarmd.Server.Context.Tests.{claimed}
use swarmd.Agent.Types.{AgentStep}
use swarmd.Server.Steps.{step_record, handle_step, handle_step-adds}

abbrev ls : AgentStep
ls = record {
  index = 1;
  step_type = "shell";
  thought = "look";
  shell = "ls";
  action_name = "run_shell";
  action_tool_kind = "function";
  action_input = "";
  action_output = "";
  action_output_truncated = false;
  action_output_files = [];
  action_output_bytes = 0;
  action_output_compacted = false;
  usage_cached_tokens = 0;
  cwd_before = "/";
  cwd_after = "/";
  stdout = "f";
  stderr = "";
  stdout_truncated = false;
  stderr_truncated = false;
  stdout_file = Option.none;
  stderr_file = Option.none;
  stdout_bytes = 0;
  stderr_bytes = 0;
  started_at = 2000000000;
  finished_at = 2500000000;
  duration = 500000000;
  status = "ok";
  exit_status = 0;
  error = "";
}

abbrev pub run_db : Db
run_db = record empty_db { runs = new_run_row claim_params "r" "m" 2000000000 "hello" ∷ [] }

abbrev pub meta : Option Metadata
meta = some (trigger_metadata "n" "a" claimed Option.none)

abbrev after : Db
after = (handle_step (test_env 3 "x") meta ls run_db).1

handled : handle_step (test_env 3 "x") meta ls run_db ≡ (ok tt, after)
unfolding handle_step record_step insert_new_step step_record new_step_row add_step trigger_metadata
    trigger_context_from_metadata is_empty new_run_row claimed_record new_run_record new_message_row
    scan_mailbox_message
handled = refl

handle_step-adds_example :
    (c : TriggerContext) × (trigger_context_from_metadata meta ≡ ok c)
    × (any (is_step c.namespace_id c.run_id 1) run_db.steps ≡ false)
    × (after ≡ record run_db { steps = run_db.steps ++ new_step_row (step_record c ls) ∷ [] })
handle_step-adds_example = handle_step-adds (test_env 3 "x") meta ls run_db handled
