-- ===== src/Agent/Decisions/Tests.antt =====
-- A driver of pkg/agent/agent.go whose first two calls time out.
use swarmd.Prelude.{ℕ, ◌+◌, ◌≡◌, refl, true, false, none, [], if◌then◌else◌, ltb, ok, err}
use swarmd.Agent.Types.{GoError}
use swarmd.Agent.Requests.{Request}
use swarmd.Agent.Host.{Host}
use swarmd.Agent.Decisions.{max_driver_retries, next_decision, should_retry_driver_error}
use swarmd.Agent.Decisions.Retries.{Tried, next_decision-Tried}
use swarmd.Agent.Loop.Tests.{counting_host, hello, done}

abbrev slow : GoError
slow = record {
  message = "slow";
  is_canceled = false;
  is_deadline_exceeded = true;
  is_timeout = true;
}

abbrev slow_host : Host ℕ ℕ
slow_host = record counting_host {
  next = λ request s. (if ltb s 2 then err slow else ok done, s + 1);
}

abbrev first_request : Request ℕ
first_request = record {
  trigger = hello;
  step = 1;
  sandbox_root = "/";
  cwd = "/";
  steps = [];
  conversation_turns = [];
  current_turn_messages = [];
  current_turn_steps = [];
  tools = [];
  messages = [];
  step_replay_data = λ k. none;
  provider_state = "";
}

third_time : next_decision slow_host first_request 0 ≡ (ok done, 3)
unfolding next_decision should_retry_driver_error
third_time = refl

next_decision-Tried_example :
    Tried slow_host first_request max_driver_retries 0 (next_decision slow_host first_request 0)
next_decision-Tried_example = next_decision-Tried slow_host first_request 0
