-- ===== src/Agent/Loop/Tests.antt =====
-- Turns of pkg/agent/agent.go with a driver that asks for one tool and then finishes.
use swarmd.Prelude.{
  ℕ, ◌+◌, ◌≡◌, refl, sym, ap, Bool, true, false, [], Option, none, some, ◌==◌, if◌then◌else◌, eqb,
  is_empty, length, some-eq-some, trim_space, ok,
}
use swarmd.Store.Types.{text}
use swarmd.Agent.Types.{GoError, Trigger, ToolAction, Decision, AgentStep}
use swarmd.Agent.Requests.{
  AgentConfig, Wording, new_trigger_request_context, build_driver_request, with_provider_state,
  with_step_replay_data, with_run_started_at, flatten_conversation_steps,
}
use swarmd.Agent.Host.{Host}
use swarmd.Agent.Decisions.{plain_error, next_decision, validate_decision}
use swarmd.Agent.Spill.{begin_run_spill_dir}
use swarmd.Agent.Loop.{run_turn, turn_loop, round, run_tool_step, finish_result, step_call_id}
use swarmd.Agent.Loop.Numbers.{IsTurn, KeepsIndex, run_turn-IsTurn}
use swarmd.Agent.Loop.Times.{LeavesEnd, run_tool_step-untimed}

-- What the driver of the tests decides as its first and second call.
abbrev pub look : Decision ℕ
look = record {
  thought = "look";
  usage_cached_tokens = 3;
  tool = some (record { name = "list_dir"; kind = "function"; input = "{}" });
  finish = none;
  replay_data = "call";
  provider_state = "";
}

abbrev pub done : Decision ℕ
done = record {
  thought = "done";
  usage_cached_tokens = 4;
  tool = none;
  finish = some (text "all done");
  replay_data = "";
  provider_state = "state";
}

-- A tool that says what it found.
abbrev pub list_dir :
    {S : Type 0} → Trigger ℕ → ToolAction → AgentStep → S → (Option GoError × AgentStep) × S
list_dir t tool step s = ((none, record step { action_output = "f"; status = "ok" }), s)

-- The state counts the calls of the driver.
abbrev pub counting_host : Host ℕ ℕ
counting_host = record {
  ctx_err = λ s. none;
  now = λ s. 100 + s;
  dir = λ s. "/";
  reset = λ s. s;
  next = λ request s. (ok (if eqb s 0 then look else done), s + 1);
  log_retry = λ step retry e s. s;
  handler = λ name. if name == "list_dir" then some list_dir else none;
  on_step = none;
  remove_all = λ path s. (ok tt, s);
  mkdir_all = λ path s. (ok tt, s);
  join = λ a b. b;
  spill_dir = λ s. "";
  set_spill_dir = λ path s. s;
  sprint = λ v. "..";
  quote = λ s. s;
}

abbrev pub plain_wording : Wording ℕ
plain_wording = record {
  trigger_context = λ prompt t. prompt;
  protocol = "one tool at a time";
  tool_availability = λ tools. "";
  current_state = λ req c fresh tool. "state";
  marshal_indent = λ v. some "1";
  render_failed = plain_error "no JSON";
}

abbrev pub two_steps : AgentConfig
two_steps = record {
  max_steps = 2;
  preserve_state = false;
  system_prompt = "be brief";
  sandbox_root = "/";
  spill_base_dir = "/.tmp/tool-outputs";
  tool_definitions = [];
}

abbrev pub hello : Trigger ℕ
hello = record {
  id = "t";
  kind = "message";
  payload = text "hello";
  metadata = none;
  enqueued_at = 1;
}

only_tool :
    {T : Type 0} (b : Bool) (tool : T) {invoke : T}
    → (if b then some tool else none) ≡ some invoke
    → tool ≡ invoke
only_tool true tool e = some-eq-some e
only_tool false tool e = cc

list_dir-KeepsIndex : KeepsIndex counting_host
list_dir-KeepsIndex name invoke e t tool step s =
    ap (λ f. (f t tool step s).0.1.index) (sym (only_tool (name == "list_dir") list_dir e))

list_dir-LeavesEnd : LeavesEnd counting_host
list_dir-LeavesEnd name invoke e t tool step s =
    let same = sym (only_tool (name == "list_dir") list_dir e) in
    (
      ap (λ f. (f t tool step s).0.1.finished_at) same,
      ap (λ f. (f t tool step s).0.1.duration) same,
    )

run_turn-IsTurn_example :
    IsTurn
      (if eqb 5 0 then 1 else 5)
      2
      (run_turn counting_host plain_wording two_steps hello 5 true new_trigger_request_context
        0).0.0
run_turn-IsTurn_example =
    run_turn-IsTurn counting_host list_dir-KeepsIndex plain_wording two_steps hello 5 true
      new_trigger_request_context 0

run_tool_step-untimed_example :
    let step =
      (run_tool_step counting_host hello 1 look
        (record { name = "list_dir"; kind = "function"; input = "{}" })
        7).0.0 in
    (step.finished_at ≡ 0) × (step.duration ≡ 0)
run_tool_step-untimed_example =
    run_tool_step-untimed counting_host list_dir-LeavesEnd hello 1 look
      (record { name = "list_dir"; kind = "function"; input = "{}" }) 7

-- One step, then the answer.
turn_finishes :
    let r =
      (run_turn counting_host plain_wording two_steps hello 5 true new_trigger_request_context
        0).0.0 in
    (r.status ≡ "finished") × (length r.steps ≡ 1) × (r.usage_cached_tokens ≡ 7)
unfolding run_turn turn_loop round next_decision validate_decision build_driver_request
    begin_run_spill_dir new_trigger_request_context with_provider_state with_step_replay_data
    with_run_started_at flatten_conversation_steps is_empty run_tool_step finish_result step_call_id
    trim_space
turn_finishes = (refl, refl, refl)
