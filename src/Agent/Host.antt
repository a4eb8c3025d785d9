-- ===== src/Agent/Host.antt =====
-- What an agent of pkg/agent/agent.go works with: its driver, its tools, its shell and file system.
use swarmd.Prelude.{ℕ, String, Option}
use swarmd.Prelude.Outcomes.{Call}
use swarmd.Server.Context.{MetaValue}
use swarmd.Agent.Types.{GoError, Trigger, ToolAction, Decision, AgentStep}
use swarmd.Agent.Requests.{Request}

-- On a state of a type S. A call that fails may change the state too.
pub record Host (V S : Type 0) : Type 0 where
  -- `ctx.Err()` of the context of the whole run, and the clock
  pub ctx_err : S → Option GoError
  pub now : S → ℕ
  -- `a.runner.Dir` and `a.runner.Reset()`
  pub dir : S → String
  pub reset : S → S
  -- `a.driver.Next` under a timeout of its own
  pub next : Request V → Call GoError S (Decision V)
  -- `logDriverRetry`
  pub log_retry : ℕ → ℕ → GoError → S → S
  -- `a.toolHandlerByName[name]`, whose `Invoke` may change the step
  pub handler :
      String → Option (Trigger V → ToolAction → AgentStep → S → (Option GoError × AgentStep) × S)
  -- `a.onStep`
  pub on_step : Option (Trigger V → AgentStep → Call GoError S (Unit {0}))
  -- the file system, and `filepath.Join`
  pub remove_all : String → Call GoError S (Unit {0})
  pub mkdir_all : String → Call GoError S (Unit {0})
  pub join : String → String → String
  -- `a.currentRunSpillDir`
  pub spill_dir : S → String
  pub set_spill_dir : String → S → S
  -- `fmt.Sprint` of a value of a metadata map, and `%q`
  pub sprint : MetaValue → String
  pub quote : String → String
