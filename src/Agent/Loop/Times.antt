-- ===== src/Agent/Loop/Times.antt =====
-- pkg/agent/tool_runtime.go: the times of a step.
use swarmd.Prelude.{ℕ, ◌≡◌, refl, ◌∙◌, String, Option, none, some, arith}
use swarmd.Agent.Types.{GoError, Trigger, ToolAction, Decision, AgentStep}
use swarmd.Agent.Host.{Host}
use swarmd.Agent.Loop.{invoked, run_tool_step, new_step, called}

-- No tool sets the times of the end of its step.
abbrev pub LeavesEnd : {V S : Type 0} → Host V S → Type 0
LeavesEnd {V} {S} host =
    (name : String)
    (invoke : Trigger V → ToolAction → AgentStep → S → (Option GoError × AgentStep) × S)
    → host.handler name ≡ some invoke
    → (t : Trigger V) (tool : ToolAction) (step : AgentStep) (s : S)
    → ((invoke t tool step s).0.1.finished_at ≡ step.finished_at)
      × ((invoke t tool step s).0.1.duration ≡ step.duration)

module _ {V S : Type 0} (host : Host V S) where
  invoked-end :
      (o : (Option GoError × AgentStep) × S)
      → ((invoked o).0.0.finished_at ≡ o.0.1.finished_at)
        × ((invoked o).0.0.duration ≡ o.0.1.duration)
  invoked-end ((some e, step), s) = (refl, refl)
  invoked-end ((none, step), s) = ground arith

  -- A step has no time of its end and no duration, however long its tool ran, unless the tool sets
  -- them itself.
  pub run_tool_step-untimed :
      LeavesEnd host
      → (t : Trigger V) (n : ℕ) (d : Decision V) (tool : ToolAction) (s : S)
      → ((run_tool_step host t n d tool s).0.0.finished_at ≡ 0)
        × ((run_tool_step host t n d tool s).0.0.duration ≡ 0)
  unfolding run_tool_step
  run_tool_step-untimed leaves t n d tool s = at_handler (host.handler tool.name) refl
    where
      step : AgentStep
      step = new_step host n d tool s

      at_handler :
          (h : Option (Trigger V → ToolAction → AgentStep → S → (Option GoError × AgentStep) × S))
          → host.handler tool.name ≡ h
          → ((called host h t tool step s).0.0.finished_at ≡ 0)
            × ((called host h t tool step s).0.0.duration ≡ 0)
      at_handler none e = (refl, refl)
      at_handler (some invoke) e =
          let (at, span) = invoked-end (invoke t tool step s) in
          let (at', span') = leaves tool.name invoke e t tool step s in (at ∙ at', span ∙ span')
