-- ===== src/Server/Turns/Stored/Kept.antt =====
-- What a worker's turn leaves alone in the store, however it ends.
use swarmd.Prelude.{
  ℕ, ◌+◌, ◌≡◌, refl, ap, ◌∙◌, String, List, [], if◌then◌else◌, eqb, length, Bool, Result, ok, err,
  arith,
}
use swarmd.Prelude.Outcomes.{Outcome, Ends}
use swarmd.Store.Tables.{Env, MessageRow, Db}
use swarmd.Agent.Types.{GoError, Trigger, AgentStep}
use swarmd.Agent.Requests.{AgentConfig, Wording, RequestContext, with_run_started_at}
use swarmd.Agent.Host.{Host}
use swarmd.Agent.Decisions.{next_decision, max_driver_retries}
use swarmd.Agent.Spill.{begin_run_spill_dir}
use swarmd.Agent.Loop.{
  Turn, Progress, run_tool_step, told, with_step, Return, run_turn, turn_loop, returned, begun,
}
use swarmd.Agent.Loop.Rule.{Rule, turn_loop-Ends}
use swarmd.Server.Steps.{StepError, handle_step, handle_step-adds, handle_step-err}
use swarmd.Server.Turns.{worker_host, step_error}
use swarmd.Server.Turns.Stored.{
  next_decision_from-db, run_tool_step-db, begin_run_spill_dir-db, reset-db,
}

module _ {V W : Type 0} (env : Env V) (describe : StepError → GoError) (base : Host V W) where
  module _ (t : Turn V) (limit : ℕ) (ms : List MessageRow) where
    abbrev Kept : ℕ → Progress → Db × W → Type 0
    Kept k p s = (s.0).messages ≡ ms

    abbrev Left : Return V → Db × W → Type 0
    Left r s = (s.0).messages ≡ ms

    handled-Kept :
        (p : Progress) (step : AgentStep) (db : Db) (v : W) (o : Result StepError (Unit {0}) × Db)
        → handle_step env t.trigger.metadata step db ≡ o
        → db.messages ≡ ms
        → Ends
            (λ (u : Unit {0}) s. (s.0).messages ≡ ms)
            Left
            (told (worker_host env describe base) t p (step_error describe v o))
    handled-Kept p step db v (ok u, db') h e =
        let (c, known, fresh, same) = handle_step-adds env t.trigger.metadata step db h in
        ap (λ (d : Db). d.messages) same ∙ e
    handled-Kept p step db v (err x, db') h e =
        ap (λ (d : Db). d.messages) (handle_step-err env t.trigger.metadata step db h) ∙ e

    keeps : Rule (worker_host env describe base) t limit Kept Left
    unfolding next_decision worker_host
    keeps = record {
      ends = λ k p s status error thought answer back le h ne. h;
      decides = λ k p request s h.
          ap (λ (d : Db). d.messages)
            (next_decision_from-db env describe base max_driver_retries request s.0 s.1)
          ∙ h;
      notes = λ k p d s h. h;
      steps = λ k d p tool s lt h.
          let n = t.next_step_index + length p.turn_steps in
          let o = run_tool_step (worker_host env describe base) t.trigger n d tool s in
          handled-Kept (with_step d o.0.0 p) o.0.0 o.1.0 o.1.1
            (handle_step env t.trigger.metadata o.0.0 o.1.0) refl
            (ap (λ (x : Db). x.messages)
                (run_tool_step-db env describe base t.trigger n d tool s.0 s.1)
              ∙ h);
    }

    returned-Kept :
        (w : Wording V) (a : AgentConfig) (previous : String)
        (o : Outcome (Return V) (Db × W) Progress)
        → Ends (Kept limit) Left o
        → ((returned (worker_host env describe base) w a t previous o).1.0).messages ≡ ms
    unfolding worker_host
    returned-Kept w a previous (ok p, s) h = h
    returned-Kept w a previous (err r, s) h = h

  -- The messages are the same after a worker's turn, whatever came of it.
  pub run_turn-messages :
      (w : Wording V) (a : AgentConfig) (trigger : Trigger V) (n : ℕ) (reset : Bool)
      (rc : RequestContext) (s : Db × W)
      → ((run_turn (worker_host env describe base) w a trigger n reset rc s).1.0).messages
        ≡ (s.0).messages
  unfolding run_turn
  run_turn-messages w a trigger n reset rc s =
      at_begin (begin_run_spill_dir (worker_host env describe base) a trigger s)
        (begin_run_spill_dir-db env describe base a trigger s.0 s.1)
    where
      t : Turn V
      t = record {
        trigger = trigger;
        next_step_index = if eqb n 0 then 1 else n;
        started_at = (worker_host env describe base).now s;
      }

      p : Progress
      p = record {
        turn_steps = [];
        request_context = with_run_started_at ((worker_host env describe base).now s) rc;
        usage_cached_tokens = 0;
      }

      at_begin :
          (o : Outcome GoError (Db × W) String)
          → (o.1).0 ≡ s.0
          → ((begun (worker_host env describe base) w a t reset p o).1.0).messages ≡ (s.0).messages
      at_begin (err e, s') same = ap (λ (d : Db). d.messages) same
      at_begin (ok previous, s') same =
          let s₁ = if reset then (worker_host env describe base).reset s' else s' in
          returned-Kept t a.max_steps (s.0).messages w a previous
            (turn_loop (worker_host env describe base) w a t a.max_steps 1 p s₁)
            (turn_loop-Ends (worker_host env describe base) t a.max_steps
              (Kept t a.max_steps (s.0).messages) (Left t a.max_steps (s.0).messages)
              (keeps t a.max_steps (s.0).messages) w a a.max_steps 0 1 p s₁
              (ap (λ (d : Db). d.messages) (reset-db env describe base reset s' ∙ same))
              (omega arith))
