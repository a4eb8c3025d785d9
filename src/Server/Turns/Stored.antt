-- ===== src/Server/Turns/Stored.antt =====
-- What a worker's turn leaves in the store: pkg/agent/agent.go over pkg/server/persistence.go.
pub mod Kept
use swarmd.Prelude.{
  ℕ, zero, suc, ◌+◌, ◌-◌, ◌≡◌, refl, sym, ap, ◌∙◌, subst, String, Bool, true, false, List, [], ◌∷◌,
  ◌++◌, Option, none, some, ◌==◌, if◌then◌else◌, eqb, length, append_assoc, Result, ok, err,
  ok-eq-ok, arith,
}
use mathlib.Core.List.{append-nil}
use swarmd.Prelude.Outcomes.{Call, Outcome, Ends, and_then}
use swarmd.Store.Tables.{Env, StepRow, Db}
use swarmd.Store.Mailbox.Complete.{new_step_row}
use swarmd.Agent.Types.{GoError, Trigger, ToolAction, Decision, AgentStep, TurnResult}
use swarmd.Agent.Requests.{AgentConfig, Wording, Request, RequestContext, with_run_started_at}
use swarmd.Agent.Host.{Host}
use swarmd.Agent.Decisions.{next_decision, next_decision_from, after_attempt, max_driver_retries}
use swarmd.Agent.Spill.{begin_run_spill_dir, wrap_error}
use swarmd.Agent.Loop.{
  Turn, Progress, finish_result, run_tool_step, told, with_step, called, invoked, new_step, Return,
  run_turn, turn_loop, returned, begun,
}
use swarmd.Agent.Loop.Rule.{Rule, turn_loop-Ends}
use swarmd.Server.Context.{TriggerContext, trigger_context_from_metadata}
use swarmd.Server.Steps.{StepError, handle_step, step_record, handle_step-adds}
use swarmd.Server.Turns.{worker_host, beside, step_error, handler_beside}

-- The rows of the steps of a run.
abbrev pub step_rows : TriggerContext → List AgentStep → List StepRow
step_rows c [] = []
step_rows c (step ∷ steps) = new_step_row (step_record c step) ∷ step_rows c steps

step_rows-snoc :
    (c : TriggerContext) (steps : List AgentStep) (step : AgentStep)
    → step_rows c (steps ++ step ∷ []) ≡ step_rows c steps ++ new_step_row (step_record c step) ∷ []
step_rows-snoc c [] step = refl
step_rows-snoc c (x ∷ xs) step =
    ap (λ l. new_step_row (step_record c x) ∷ l) (step_rows-snoc c xs step)

module _ {V W : Type 0} (env : Env V) (describe : StepError → GoError) (base : Host V W) where
  -- The database as it was, with the rows of these steps.
  abbrev with_rows : TriggerContext → Db → List AgentStep → Db
  with_rows c db steps = record db { steps = db.steps ++ step_rows c steps }

  with_rows-snoc :
      (c : TriggerContext) (db₀ db : Db) (steps : List AgentStep) (step : AgentStep)
      → db ≡ with_rows c db₀ steps
      → record db { steps = db.steps ++ new_step_row (step_record c step) ∷ [] }
        ≡ with_rows c db₀ (steps ++ step ∷ [])
  with_rows-snoc c db₀ db steps step e =
      ap (λ (x : Db). record x { steps = x.steps ++ new_step_row (step_record c step) ∷ [] }) e
      ∙ ap (λ l. record db₀ { steps = l })
          (append_assoc db₀.steps (step_rows c steps) (new_step_row (step_record c step) ∷ [])
            ∙ ap (λ l. db₀.steps ++ l) (sym (step_rows-snoc c steps step)))

  after_attempt-db :
      (more : Bool) (retry : ℕ) (again : Call GoError (Db × W) (Decision V)) (request : Request V)
      (db : Db) (o : Outcome GoError W (Decision V))
      → ((v : W) → (again (db, v)).1.0 ≡ db)
      → (after_attempt (worker_host env describe base) more retry again request (beside db o)).1.0
        ≡ db
  unfolding worker_host
  after_attempt-db more retry again request db (ok d, v) h = refl
  after_attempt-db more retry again request db (err e, v) h =
      ground (arith, h (base.log_retry request.step (retry + 1) e v))

  next_decision_from-db :
      (left : ℕ) (request : Request V) (db : Db) (v : W)
      → (next_decision_from (worker_host env describe base) left request (db, v)).1.0 ≡ db
  unfolding next_decision_from worker_host
  next_decision_from-db zero request db v =
      after_attempt-db false max_driver_retries (λ s'. beside s'.0 (base.next request s'.1)) request
        db (base.next request v) (λ v'. refl)
  next_decision_from-db (suc left) request db v =
      after_attempt-db true (max_driver_retries - suc left)
        (next_decision_from (worker_host env describe base) left request) request db
        (base.next request v) (λ v'. next_decision_from-db left request db v')

  run_tool_step-db :
      (t : Trigger V) (n : ℕ) (d : Decision V) (tool : ToolAction) (db : Db) (v : W)
      → (run_tool_step (worker_host env describe base) t n d tool (db, v)).1.0 ≡ db
  unfolding run_tool_step worker_host
  run_tool_step-db t n d tool db v = at_handler (base.handler tool.name)
    where
      kept :
          (o : (Option GoError × AgentStep) × W) → (invoked {S = Db × W} (o.0, (db, o.1))).1.0 ≡ db
      kept ((some e, step), v') = refl
      kept ((none, step), v') = refl

      at_handler :
          (h : Option (Trigger V → ToolAction → AgentStep → W → (Option GoError × AgentStep) × W))
          → (called
              (worker_host env describe base)
              (handler_beside env describe h)
              t
              tool
              (new_step (worker_host env describe base) n d tool (db, v))
              (db, v)).1.0
            ≡ db
      at_handler none = refl
      at_handler (some invoke) =
          kept (invoke t tool (new_step (worker_host env describe base) n d tool (db, v)) v)

  beside_then-db :
      {A B : Type 0} (f : GoError → GoError) (db : Db) (o : Outcome GoError W A)
      (k : A → Call GoError (Db × W) B)
      → ((x : A) (v : W) → (k x (db, v)).1.0 ≡ db)
      → (and_then (wrap_error f (beside db o)) k).1.0 ≡ db
  beside_then-db f db (ok x, v) k h = h x v
  beside_then-db f db (err e, v) k h = refl

  begin_run_spill_dir-db :
      (a : AgentConfig) (t : Trigger V) (db : Db) (v : W)
      → (begin_run_spill_dir (worker_host env describe base) a t (db, v)).1.0 ≡ db
  unfolding begin_run_spill_dir worker_host
  begin_run_spill_dir-db a t db v =
      beside_then-db _ db (base.remove_all _ v) _
        λ _ v₁. beside_then-db _ db (base.mkdir_all _ v₁) _ λ _ v₂. refl

  reset-db :
      (reset : Bool) (s : Db × W)
      → (if reset then (worker_host env describe base).reset s else s).0 ≡ s.0
  unfolding worker_host
  reset-db true s = refl
  reset-db false s = refl

  module _ (t : Turn V) (limit : ℕ) (c : TriggerContext) (db₀ : Db)
      (known : trigger_context_from_metadata t.trigger.metadata ≡ ok c) where
    abbrev Rows : ℕ → Progress → Db × W → Type 0
    Rows k p s = s.0 ≡ with_rows c db₀ p.turn_steps

    abbrev Stored : Return V → Db × W → Type 0
    Stored r s = ((r.0).status == "fatal_error") ≡ false → s.0 ≡ with_rows c db₀ (r.0).steps

    handled-Rows :
        (p p' : Progress) (step : AgentStep) (db : Db) (v : W)
        (o : Result StepError (Unit {0}) × Db)
        → handle_step env t.trigger.metadata step db ≡ o
        → db ≡ with_rows c db₀ p.turn_steps
        → p'.turn_steps ≡ p.turn_steps ++ step ∷ []
        → Ends
            (λ (u : Unit {0}) s₂. s₂.0 ≡ with_rows c db₀ p'.turn_steps)
            Stored
            (told (worker_host env describe base) t p' (step_error describe v o))
    unfolding finish_result
    handled-Rows p p' step db v (ok u, db') h e more =
        let (c', known', _, same) = handle_step-adds env t.trigger.metadata step db h in
        let one : c' ≡ c = ok-eq-ok (sym known' ∙ known) in
        same
        ∙ ap (λ x. record db { steps = db.steps ++ new_step_row (step_record x step) ∷ [] }) one
        ∙ with_rows-snoc c db₀ db p.turn_steps step e
        ∙ ap (with_rows c db₀) (sym more)
    handled-Rows p p' step db v (err x, db') h e more = λ q. cc

    rows : Rule (worker_host env describe base) t limit Rows Stored
    unfolding finish_result next_decision worker_host
    rows = record {
      ends = λ k p s status error thought answer back le h ne. λ _. h;
      decides = λ k p request s h. next_decision_from-db max_driver_retries request s.0 s.1 ∙ h;
      notes = λ k p d s h. h;
      steps = λ k d p tool s lt h.
          let n = t.next_step_index + length p.turn_steps in
          let o = run_tool_step (worker_host env describe base) t.trigger n d tool s in
          handled-Rows p (with_step d o.0.0 p) o.0.0 o.1.0 o.1.1
            (handle_step env t.trigger.metadata o.0.0 o.1.0) refl
            (run_tool_step-db t.trigger n d tool s.0 s.1 ∙ h) refl;
    }

    returned-Stored :
        (w : Wording V) (a : AgentConfig) (previous : String)
        (o : Outcome (Return V) (Db × W) Progress)
        → Ends (Rows limit) Stored o
        → let (r, s) = returned (worker_host env describe base) w a t previous o in Stored r s
    unfolding finish_result worker_host
    returned-Stored w a previous (ok p, s) h = λ _. h
    returned-Stored w a previous (err r, s) h = h

  run_turn-stores :
      (w : Wording V) (a : AgentConfig) (trigger : Trigger V) (n : ℕ) (reset : Bool)
      (rc : RequestContext) (c : TriggerContext) (s : Db × W)
      → trigger_context_from_metadata trigger.metadata ≡ ok c
      → let (r, s') = run_turn (worker_host env describe base) w a trigger n reset rc s in
        ((r.0).status == "fatal_error") ≡ false → s'.0 ≡ with_rows c s.0 (r.0).steps
  unfolding run_turn finish_result
  run_turn-stores w a trigger n reset rc c s known =
      at_begin (begin_run_spill_dir (worker_host env describe base) a trigger s)
        (begin_run_spill_dir-db a trigger s.0 s.1)
    where
      t : Turn V
      t = record {
        trigger = trigger;
        next_step_index = if eqb n 0 then 1 else n;
        started_at = (worker_host env describe base).now s;
      }

      p : Progress
      p = record {
        turn_steps = [];
        request_context = with_run_started_at ((worker_host env describe base).now s) rc;
        usage_cached_tokens = 0;
      }

      at_begin :
          (o : Outcome GoError (Db × W) String)
          → (o.1).0 ≡ s.0
          → let (r, s') = begun (worker_host env describe base) w a t reset p o in
            ((r.0).status == "fatal_error") ≡ false → s'.0 ≡ with_rows c s.0 (r.0).steps
      at_begin (err e, s') same = λ q. cc
      at_begin (ok previous, s') same =
          let s₁ = if reset then (worker_host env describe base).reset s' else s' in
          returned-Stored t a.max_steps c s.0 known w a previous
            (turn_loop (worker_host env describe base) w a t a.max_steps 1 p s₁)
            (turn_loop-Ends (worker_host env describe base) t a.max_steps
              (Rows t a.max_steps c s.0 known) (Stored t a.max_steps c s.0 known)
              (rows t a.max_steps c s.0 known) w a a.max_steps 0 1 p s₁
              (reset-db reset s'
                ∙ same
                ∙ ap (λ l. record s.0 { steps = l }) (sym (append-nil (s.0).steps)))
              (omega arith))

  -- After the turn of a worker whose trigger names its run, and that did not end with a fatal error,
  -- the database has one row more for each step of the result, in their order and under that run, and
  -- is otherwise what it was.
  pub run_turn-Stored :
      (w : Wording V) (a : AgentConfig) (trigger : Trigger V) (n : ℕ) (reset : Bool)
      (rc : RequestContext) (c : TriggerContext) (s s' : Db × W) (r : TurnResult V)
      (e : Option GoError)
      → run_turn (worker_host env describe base) w a trigger n reset rc s ≡ ((r, e), s')
      → trigger_context_from_metadata trigger.metadata ≡ ok c
      → (r.status == "fatal_error") ≡ false
      → s'.0 ≡ record s.0 { steps = (s.0).steps ++ step_rows c r.steps }
  run_turn-Stored w a trigger n reset rc c s s' r e ran known fine =
      subst
        (λ (o : Return V × (Db × W)).
          ((o.0).0.status == "fatal_error") ≡ false → (o.1).0 ≡ with_rows c s.0 ((o.0).0).steps)
        ran (run_turn-stores w a trigger n reset rc c s known) fine
