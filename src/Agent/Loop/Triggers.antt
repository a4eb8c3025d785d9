-- ===== src/Agent/Loop/Triggers.antt =====
-- pkg/agent/agent.go: the result of a turn carries the trigger that the turn was given.
use swarmd.Prelude.{
  ℕ, ◌+◌, ◌≡◌, refl, String, Bool, [], Option, none, some, if◌then◌else◌, eqb, length, ok, err,
  arith,
}
use swarmd.Prelude.Outcomes.{Call, Outcome, Ends}
use swarmd.Agent.Types.{GoError, Trigger, AgentStep}
use swarmd.Agent.Requests.{AgentConfig, Wording, RequestContext, with_run_started_at}
use swarmd.Agent.Host.{Host}
use swarmd.Agent.Spill.{begin_run_spill_dir}
use swarmd.Agent.Loop.{
  Turn, Progress, Return, finish_result, run_tool_step, told, tell_at, with_step, run_turn,
  returned, begun,
}
use swarmd.Agent.Loop.Rule.{Rule, turn_loop-Ends}

module _ {V S : Type 0} (host : Host V S) where
  abbrev Always : ℕ → Progress → S → Type 0
  Always k p s = Unit

  abbrev Same : Turn V → Return V → S → Type 0
  Same t r s = (r.0).trigger ≡ t.trigger

  told-Same :
      (t : Turn V) (p : Progress) (o : Outcome GoError S (Unit {0}))
      → Ends (λ (u : Unit {0}) s. Unit {0}) (Same t) (told host t p o)
  unfolding finish_result
  told-Same t p (ok u, s) = tt
  told-Same t p (err e, s) = refl

  tell_at-Same :
      (t : Turn V) (p : Progress) (step : AgentStep) (s : S)
      (handle : Option (Trigger V → AgentStep → Call GoError S (Unit {0})))
      → Ends (λ (u : Unit {0}) s. Unit {0}) (Same t) (tell_at host handle t step p s)
  tell_at-Same t p step s none = tt
  tell_at-Same t p step s (some handle) = told-Same t p (handle t.trigger step s)

  carries : (t : Turn V) (limit : ℕ) → Rule host t limit Always (Same t)
  unfolding finish_result
  carries t limit = record {
    ends = λ k p s status error thought answer back le h ne. refl;
    decides = λ k p request s h. tt;
    notes = λ k p d s h. tt;
    steps = λ k d p tool s lt h.
        let (o, s₁) =
          run_tool_step host t.trigger (t.next_step_index + length p.turn_steps) d tool s in
        tell_at-Same t (with_step d o.0 p) o.0 s₁ host.on_step;
  }

  module _ (w : Wording V) (a : AgentConfig) where
    returned-Same :
        (t : Turn V) (previous : String) (o : Outcome (Return V) S Progress)
        → Ends (Always a.max_steps) (Same t) o
        → (returned host w a t previous o).0.0.trigger ≡ t.trigger
    unfolding finish_result
    returned-Same t previous (ok p, s) h = refl
    returned-Same t previous (err r, s) h = h

    pub run_turn-trigger :
        (trigger : Trigger V) (n : ℕ) (reset : Bool) (c : RequestContext) (s : S)
        → (run_turn host w a trigger n reset c s).0.0.trigger ≡ trigger
    unfolding run_turn finish_result
    run_turn-trigger trigger n reset c s = at_begin (begin_run_spill_dir host a trigger s)
      where
        t : Turn V
        t = record {
          trigger = trigger;
          next_step_index = if eqb n 0 then 1 else n;
          started_at = host.now s;
        }

        p : Progress
        p = record {
          turn_steps = [];
          request_context = with_run_started_at (host.now s) c;
          usage_cached_tokens = 0;
        }

        at_begin :
            (o : Outcome GoError S String) → (begun host w a t reset p o).0.0.trigger ≡ trigger
        at_begin (err e, s') = refl
        at_begin (ok previous, s') = returned-Same t previous _ (
            turn_loop-Ends host t a.max_steps Always (Same t) (carries t a.max_steps) w a
              a.max_steps 0 1 p (if reset then host.reset s' else s') tt (omega arith))
