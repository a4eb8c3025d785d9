-- ===== src/Server/Steps.antt =====
-- pkg/server/persistence.go: the steps of a run, written to the store.
pub mod Tests
use swarmd.Prelude.{
  ℕ, ◌≡◌, refl, sym, ap, ◌∙◌, subst, String, Bool, false, ◌||◌, List, [], ◌∷◌, ◌++◌, Option, any,
  is_empty, Result, ok, err, ◌>>=◌, refuse->>, >>=-eq-ok, ok-eq-ok,
}
use swarmd.Store.Types.{StepRecord, StoreError, empty_id}
use swarmd.Store.Tables.{insert_step, Env, StepRow, Db, is_step, add_step, transaction}
use swarmd.Store.Tables.Inserts.{add_step-eq-ok, transaction-eq-ok, transaction-eq-err}
use swarmd.Store.Mailbox.Complete.{new_step_row, insert_new_step, record_step}
use swarmd.Agent.Types.{AgentStep}
use swarmd.Server.Context.{Metadata, TriggerContext, ContextError, trigger_context_from_metadata}

pub data StepError : Type 0 where
  context_error : ContextError → StepError
  store_error : StoreError → StepError

unfoldable pub step_record : TriggerContext → AgentStep → StepRecord
step_record c step = record {
  namespace_id = c.namespace_id;
  run_id = c.run_id;
  message_id = c.message_id;
  agent_id = c.agent_id;
  step_index = step.index;
  step_type = step.step_type;
  thought = step.thought;
  shell = step.shell;
  action_name = step.action_name;
  action_tool_kind = step.action_tool_kind;
  action_input = step.action_input;
  action_output = step.action_output;
  action_output_truncated = step.action_output_truncated;
  usage_cached_tokens = step.usage_cached_tokens;
  cwd_before = step.cwd_before;
  cwd_after = step.cwd_after;
  stdout = step.stdout;
  stderr = step.stderr;
  stdout_truncated = step.stdout_truncated;
  stderr_truncated = step.stderr_truncated;
  started_at = step.started_at;
  finished_at = step.finished_at;
  duration = step.duration;
  status = step.status;
  exit_status = step.exit_status;
  error = step.error;
}

abbrev pub from_store : Result StoreError (Unit {0}) × Db → Result StepError (Unit {0}) × Db
from_store (ok u, db) = (ok tt, db)
from_store (err e, db) = (err (store_error e), db)

module _ {V : Type 0} (env : Env V) where
  abbrev pub record_at :
      Result ContextError TriggerContext → AgentStep → Db → Result StepError (Unit {0}) × Db
  record_at (ok c) step db = from_store (record_step env (step_record c step) db)
  record_at (err e) step db = (err (context_error e), db)

  -- `HandleStep`
  unfoldable pub handle_step : Option Metadata → AgentStep → Db → Result StepError (Unit {0}) × Db
  unfolding step_record
  handle_step metadata step db = record_at (trigger_context_from_metadata metadata) step db

  recorded_step :
      (c : TriggerContext) (step : AgentStep) (db : Db) {db' : Db}
      → record_step env (step_record c step) db ≡ (ok tt, db')
      → (any (is_step c.namespace_id c.run_id step.index) db.steps ≡ false)
        × (db' ≡ record db { steps = db.steps ++ new_step_row (step_record c step) ∷ [] })
  unfolding record_step insert_new_step step_record new_step_row
  recorded_step c step db h =
      let (_, h₁) =
        refuse->> _ (is_empty c.namespace_id || is_empty c.run_id) _
          (transaction-eq-ok db (insert_new_step env (step_record c step) db) h) in
      let (_, h₂) = refuse->> _ (env.fails insert_step) _ h₁ in
      let (after, e, h₃) = >>=-eq-ok (add_step (new_step_row (step_record c step)) db) _ h₂ in
      let (fresh, _, same) = add_step-eq-ok (new_step_row (step_record c step)) db e in
      (fresh, ap (λ p. p.1) (sym (ok-eq-ok h₃)) ∙ same)

  -- A step that was handled is the one row that the table of steps has more, under the run of the
  -- trigger, whose identifiers could be read, and no other row had the run and the index of the step.
  pub handle_step-adds :
      (metadata : Option Metadata) (step : AgentStep) (db : Db) {db' : Db}
      → handle_step metadata step db ≡ (ok tt, db')
      → (c : TriggerContext) × (trigger_context_from_metadata metadata ≡ ok c)
        × (any (is_step c.namespace_id c.run_id step.index) db.steps ≡ false)
        × (db' ≡ record db { steps = db.steps ++ new_step_row (step_record c step) ∷ [] })
  unfolding handle_step
  handle_step-adds metadata step db {db' = db'} h =
      at_context (trigger_context_from_metadata metadata) refl h
    where
      stored :
          (o : Result StoreError (Unit {0}) × Db) → from_store o ≡ (ok tt, db') → o ≡ (ok tt, db')
      stored (ok u, d) e = ap (λ x. (ok tt, x)) (ap (λ q. q.1) e)
      stored (err x, d) e = absurd (differ (ap (λ q. q.0) e))
        where
          differ : ◌≡◌ {A = Result StepError (Unit {0})} (err (store_error x)) (ok tt) → ⊥
          differ q = cc

      at_context :
          (r : Result ContextError TriggerContext)
          → trigger_context_from_metadata metadata ≡ r
          → record_at r step db ≡ (ok tt, db')
          → (c : TriggerContext) × (trigger_context_from_metadata metadata ≡ ok c)
            × (any (is_step c.namespace_id c.run_id step.index) db.steps ≡ false)
            × (db' ≡ record db { steps = db.steps ++ new_step_row (step_record c step) ∷ [] })
      at_context (ok c) known e =
          let (fresh, same) =
            recorded_step c step db (stored (record_step env (step_record c step) db) e) in
          (c, known, fresh, same)
      at_context (err x) known e = absurd (differ (ap (λ q. q.0) e))
        where
          differ : ◌≡◌ {A = Result StepError (Unit {0})} (err (context_error x)) (ok tt) → ⊥
          differ q = cc

  -- A step that was not handled has changed nothing.
  pub handle_step-err :
      (metadata : Option Metadata) (step : AgentStep) (db : Db) {e : StepError} {db' : Db}
      → handle_step metadata step db ≡ (err e, db')
      → db' ≡ db
  unfolding handle_step record_step
  handle_step-err metadata step db {e} {db'} h =
      at_context (trigger_context_from_metadata metadata) h
    where
      stored :
          (c : TriggerContext) (o : Result StoreError (Unit {0}) × Db)
          → record_step env (step_record c step) db ≡ o
          → from_store o ≡ (err e, db')
          → db' ≡ db
      stored c (ok u, d) q k = absurd (differ (ap (λ x. x.0) k))
        where
          differ : ◌≡◌ {A = Result StepError (Unit {0})} (ok tt) (err e) → ⊥
          differ x = cc
      stored c (err x, d) q k =
          sym (ap (λ y. y.1) k)
          ∙ transaction-eq-err db (insert_new_step env (step_record c step) db) q

      at_context :
          (r : Result ContextError TriggerContext) → record_at r step db ≡ (err e, db') → db' ≡ db
      at_context (err x) k = sym (ap (λ y. y.1) k)
      at_context (ok c) k = stored c (record_step env (step_record c step) db) refl k
