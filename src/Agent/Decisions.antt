-- ===== src/Agent/Decisions.antt =====
-- pkg/agent/agent.go: what the driver decides, asked again after a timeout, and what is accepted.
pub mod Retries
mod Tests
use swarmd.Prelude.{
  ℕ, zero, suc, ◌+◌, ◌-◌, ◌≤◌, ◌≡◌, String, Bool, true, false, not, ◌&&◌, ◌||◌, Option, none, some,
  ◌==◌, if◌then◌else◌, is_empty, trim_space, Result, ok, err,
}
use swarmd.Prelude.Outcomes.{Call, Outcome}
use swarmd.Agent.Types.{GoError, ToolAction, Decision}
use swarmd.Agent.Requests.{Request}
use swarmd.Agent.Host.{Host}

abbrev pub max_driver_retries : ℕ
max_driver_retries = 3

abbrev pub is_some : {A : Type 0} → Option A → Bool
is_some none = false
is_some (some a) = true

unfoldable pub should_retry_driver_error : GoError → Bool
should_retry_driver_error e = e.is_deadline_exceeded || e.is_timeout

module _ {V S : Type 0} (host : Host V S) where
  -- What follows an attempt: `more` is whether another one is allowed, and `again` makes it.
  abbrev pub after_attempt :
      (more : Bool) (retry : ℕ) (again : Call GoError S (Decision V)) (request : Request V)
      → Outcome GoError S (Decision V)
      → Outcome GoError S (Decision V)
  after_attempt more retry again request (ok d, s) = (ok d, s)
  after_attempt more retry again request (err e, s) =
      if is_some (host.ctx_err s)
      then (err e, s)
      else if not more || not (should_retry_driver_error e)
      then (err e, s)
      else again (host.log_retry request.step (retry + 1) e s)

  -- The loop of `nextDecision` with so many retries left.
  unfoldable pub next_decision_from : ℕ → Request V → Call GoError S (Decision V)
  unfolding should_retry_driver_error
  next_decision_from zero request s =
      after_attempt false max_driver_retries (λ s'. host.next request s') request
        (host.next request s)
  next_decision_from (suc left) request s =
      after_attempt true (max_driver_retries - suc left) (next_decision_from left request) request
        (host.next request s)

  -- `nextDecision`
  unfoldable pub next_decision : Request V → Call GoError S (Decision V)
  unfolding next_decision_from
  next_decision = next_decision_from max_driver_retries

abbrev pub plain_error : String → GoError
plain_error text = record {
  message = text;
  is_canceled = false;
  is_deadline_exceeded = false;
  is_timeout = false;
}

abbrev pub check_tool : {V : Type 0} → Decision V → ToolAction → Result GoError (Unit {0})
check_tool d t =
    if is_empty (trim_space t.name)
    then err (plain_error "decision tool name must not be empty")
    else if is_empty (trim_space t.input) && t.kind == "custom"
    then err (plain_error "decision custom tool input must not be empty")
    else ok tt

-- `validateDecision`
abbrev pub check_decision :
    {V : Type 0} → Decision V → Option ToolAction → Bool → Result GoError (Unit {0})
check_decision d (some t) false = check_tool d t
check_decision d none true = ok tt
check_decision d _ _ = err (plain_error "decision must set exactly one of Tool or Finish")

unfoldable pub validate_decision : {V : Type 0} → Decision V → Result GoError (Unit {0})
validate_decision d = check_decision d d.tool (is_some d.finish)
