-- ===== src/Agent/Loop.antt =====
-- pkg/agent/agent.go and pkg/agent/tool_runtime.go: an agent's turn on one trigger.
pub mod Rule
pub mod Numbers
pub mod Times
pub mod Triggers
pub mod Tests
use swarmd.Prelude.{
  ℕ, zero, suc, ◌+◌, ◌-◌, String, Bool, true, false, ◌||◌, List, [], ◌∷◌, ◌++◌, Option, none, some,
  ◌==◌, if◌then◌else◌, eqb, is_empty, length, trim_space, Result, ok, err,
}
use swarmd.Prelude.Outcomes.{Call, Outcome, ◌>>=◌, ◌>>◌, and_then, pure, stop}
use swarmd.Tools.Lines.{concat}
use swarmd.Tools.ApplyPatch.Files.{decimal}
use swarmd.Store.Types.{Payload, nil}
use swarmd.Agent.Types.{GoError, Trigger, ToolAction, Decision, AgentStep, TurnResult}
use swarmd.Agent.Requests.{
  AgentConfig, Wording, Request, RequestContext, build_driver_request, with_step_replay_data,
  with_provider_state, with_run_started_at, new_trigger_request_context,
}
use swarmd.Agent.Host.{Host}
use swarmd.Agent.Spill.{begin_run_spill_dir}
use swarmd.Agent.Decisions.{plain_error, next_decision, validate_decision}

-- `StepCallID`
unfoldable pub step_call_id : AgentStep → String
step_call_id step = concat "step_" (decimal step.index)

-- What stays the same in a turn.
pub record Turn (V : Type 0) : Type 0 where
  pub trigger : Trigger V
  pub next_step_index : ℕ
  pub started_at : ℕ

-- What the rounds of a turn have brought so far.
pub record Progress : Type 0 where
  pub turn_steps : List AgentStep
  pub request_context : RequestContext
  pub usage_cached_tokens : ℕ

-- A turn that returns: its result and its error.
abbrev pub Return : Type 0 → Type 0
Return V = TurnResult V × Option GoError

abbrev pub not_implemented : String → String
not_implemented quoted = concat "tool " (concat quoted " is not implemented")

-- The end of `runToolStep`, where the handler gave no error.
abbrev pub with_step : {V : Type 0} → Decision V → AgentStep → Progress → Progress
with_step d step p = record p {
  turn_steps = p.turn_steps ++ step ∷ [];
  request_context = with_step_replay_data (step_call_id step) d.replay_data p.request_context;
}

abbrev pub with_decision : {V : Type 0} → Decision V → Progress → Progress
with_decision d p = record p {
  request_context = with_provider_state d.provider_state p.request_context;
  usage_cached_tokens = p.usage_cached_tokens + d.usage_cached_tokens;
}

abbrev pub or_default_error : AgentStep → AgentStep
or_default_error step =
    if is_empty (trim_space step.error) then record step { error = "tool step failed" } else step

abbrev pub settle : AgentStep → AgentStep × Option GoError
settle step =
    if step.status == "fatal_error"
    then (or_default_error step, some (plain_error (or_default_error step).error))
    else if is_empty step.status
    then (record step { status = "ok" }, none)
    else (step, none)

abbrev pub invoked :
    {S : Type 0} → (Option GoError × AgentStep) × S → (AgentStep × Option GoError) × S
invoked ((some e, step), s) =
    ((record step { status = "fatal_error"; error = e.message }, some e), s)
invoked ((none, step), s) = (settle step, s)

module _ {V S : Type 0} (host : Host V S) where
  unfoldable pub new_step : ℕ → Decision V → ToolAction → S → AgentStep
  new_step index d tool s = record {
    index = index;
    step_type = "tool";
    thought = d.thought;
    action_name = tool.name;
    action_tool_kind = tool.kind;
    action_input = tool.input;
    action_output = "";
    action_output_truncated = false;
    action_output_files = [];
    action_output_bytes = 0;
    action_output_compacted = false;
    shell = "";
    usage_cached_tokens = d.usage_cached_tokens;
    cwd_before = host.dir s;
    cwd_after = host.dir s;
    stdout = "";
    stderr = "";
    stdout_truncated = false;
    stderr_truncated = false;
    stdout_file = none;
    stderr_file = none;
    stdout_bytes = 0;
    stderr_bytes = 0;
    started_at = host.now s;
    finished_at = 0;
    duration = 0;
    status = "";
    exit_status = 0;
    error = "";
  }

  abbrev pub called :
      Option (Trigger V → ToolAction → AgentStep → S → (Option GoError × AgentStep) × S)
      → Trigger V
      → ToolAction
      → AgentStep
      → S
      → (AgentStep × Option GoError) × S
  called none t tool step s = (
    (record step { status = "policy_error"; error = not_implemented (host.quote tool.name) }, none),
    s,
  )
  called (some invoke) t tool step s = invoked (invoke t tool step s)

  -- `runToolStep`. Its results have no names, so what its deferred function writes to the step comes
  -- after the step was copied, and is lost.
  unfoldable pub run_tool_step :
      Trigger V → ℕ → Decision V → ToolAction → S → (AgentStep × Option GoError) × S
  unfolding new_step
  run_tool_step t index d tool s =
      called (host.handler tool.name) t tool (new_step index d tool s) s

  -- `finishResult` of the result so far.
  unfoldable pub finish_result :
      Turn V → (status error thought : String) → Payload V → Progress → S → TurnResult V
  finish_result t status error thought answer p s = record {
    trigger = t.trigger;
    started_at = t.started_at;
    finished_at = host.now s;
    duration = host.now s - t.started_at;
    status = status;
    cwd = host.dir s;
    usage_cached_tokens = p.usage_cached_tokens;
    finish_thought = thought;
    value = answer;
    steps = p.turn_steps;
    error = error;
    step_replay_data = p.request_context.step_replay_data;
    provider_state = trim_space p.request_context.provider_state;
  }

  abbrev pub give_up :
      {A : Type 0} → Turn V → String → GoError → Option GoError → Progress → Call (Return V) S A
  give_up t status e returned p s = stop (finish_result t status e.message "" nil p s, returned) s

  abbrev pub canceled_or :
      {A : Type 0} → Option GoError → Turn V → String → GoError → Progress → Call (Return V) S A
  canceled_or none t status e p = give_up t status e none p
  canceled_or (some c) t status e p =
      if e.is_canceled || e.is_deadline_exceeded
      then give_up t "canceled" c (some c) p
      else give_up t status e none p

  -- An error of the driver or of a step: the run was ended, or it failed.
  abbrev pub fail : {A : Type 0} → Turn V → String → GoError → Progress → Call (Return V) S A
  fail t status e p s = canceled_or (host.ctx_err s) t status e p s

  abbrev pub check_running_at : Option GoError → Turn V → Progress → Call (Return V) S (Unit {0})
  check_running_at none t p = pure tt
  check_running_at (some c) t p = give_up t "canceled" c (some c) p

  abbrev pub check_running : Turn V → Progress → Call (Return V) S (Unit {0})
  check_running t p s = check_running_at (host.ctx_err s) t p s

  abbrev pub or_driver_error :
      {A : Type 0} → Turn V → Progress → Result GoError A → Call (Return V) S A
  or_driver_error t p (ok a) = pure a
  or_driver_error t p (err e) = give_up t "driver_error" e none p

  abbrev pub decided :
      Turn V → Progress → Outcome GoError S (Decision V) → Outcome (Return V) S (Decision V)
  decided t p (ok d, s) = (ok d, s)
  decided t p (err e, s) = fail t "driver_error" e p s

  abbrev pub told :
      Turn V → Progress → Outcome GoError S (Unit {0}) → Outcome (Return V) S (Unit {0})
  told t p (ok u, s) = (ok tt, s)
  told t p (err e, s) = give_up t "fatal_error" e (some e) p s

  abbrev pub tell_at :
      Option (Trigger V → AgentStep → Call GoError S (Unit {0}))
      → Turn V
      → AgentStep
      → Progress
      → Call (Return V) S (Unit {0})
  tell_at none t step p s = (ok tt, s)
  tell_at (some handle) t step p s = told t p (handle t.trigger step s)

  abbrev pub tell : Turn V → AgentStep → Progress → Call (Return V) S (Unit {0})
  tell = tell_at host.on_step

  abbrev pub or_fail : Turn V → Progress → Option GoError → Call (Return V) S Progress
  or_fail t p none = pure p
  or_fail t p (some e) = fail t "fatal_error" e p

  abbrev pub step_ran :
      Turn V
      → Decision V
      → Progress
      → (AgentStep × Option GoError) × S
      → Outcome (Return V) S Progress
  step_ran t d p ((step, failed), s) =
      (tell t step (with_step d step p) >> or_fail t (with_step d step p) failed) s

  abbrev pub act :
      Turn V
      → Decision V
      → Progress
      → Option ToolAction
      → Option (Payload V)
      → Call (Return V) S Progress
  act t d p tool (some answer) s =
      stop (finish_result t "finished" "" (trim_space d.thought) answer p s, none) s
  act t d p none none s = pure p s
  act t d p (some tool) none s =
      step_ran t d p (run_tool_step t.trigger (t.next_step_index + length p.turn_steps) d tool s)

  module _ (w : Wording V) (a : AgentConfig) where
    abbrev pub build : Turn V → ℕ → Progress → S → Result GoError (Request V)
    build t request_step p s =
        build_driver_request w a t.trigger request_step (host.dir s) p.turn_steps p.request_context

    abbrev pub decide : Turn V → Progress → Request V → Call (Return V) S (Decision V)
    decide t p request s = decided t p (next_decision host request s)

    abbrev pub ask : Turn V → ℕ → Progress → Call (Return V) S (Decision V)
    ask t request_step p = do
      check_running t p
      request ← λ s. or_driver_error t p (build t request_step p s) s
      decide t p request

    -- The body of the loop of `runTurn`.
    unfoldable pub round : Turn V → ℕ → Progress → Call (Return V) S Progress
    unfolding run_tool_step finish_result
    round t request_step p = do
      d ← ask t request_step p
      or_driver_error t (with_decision d p) (validate_decision d)
      act t d (with_decision d p) d.tool d.finish

    unfoldable pub turn_loop :
        Turn V → (left request_step : ℕ) → Progress → Call (Return V) S Progress
    turn_loop t zero request_step p = pure p
    turn_loop t (suc left) request_step p =
        round t request_step p >>= λ p'. turn_loop t left (suc request_step) p'

    abbrev pub max_steps_error : GoError
    max_steps_error =
        plain_error (concat "agent reached max steps (" (concat (decimal a.max_steps) ")"))

    -- The result, and what the deferred function restores.
    abbrev pub returned : Turn V → String → Outcome (Return V) S Progress → Return V × S
    returned t previous (err r, s) = (r, host.set_spill_dir previous s)
    returned t previous (ok p, s) = (
      (finish_result t "max_steps" max_steps_error.message "" nil p s, none),
      host.set_spill_dir previous s,
    )

    abbrev pub begun : Turn V → Bool → Progress → Outcome GoError S String → Return V × S
    begun t reset p (err e, s) = ((finish_result t "fatal_error" e.message "" nil p s, some e), s)
    begun t reset p (ok previous, s) =
        returned t previous (turn_loop t a.max_steps 1 p (if reset then host.reset s else s))

    -- `runTurn`
    unfoldable pub run_turn :
        Trigger V → (next_step_index : ℕ) → Bool → RequestContext → S → Return V × S
    unfolding turn_loop begin_run_spill_dir
    run_turn trigger next_step_index reset c s =
        let t : Turn V = record {
          trigger = trigger;
          next_step_index = if eqb next_step_index 0 then 1 else next_step_index;
          started_at = host.now s;
        } in
        begun t reset
          (record {
            turn_steps = [];
            request_context = with_run_started_at (host.now s) c;
            usage_cached_tokens = 0;
          })
          (begin_run_spill_dir host a trigger s)

    -- `HandleTrigger`
    unfoldable pub handle_trigger : Trigger V → S → Return V × S
    unfolding run_turn
    handle_trigger trigger =
        run_turn trigger 1 (if a.preserve_state then false else true) new_trigger_request_context
