-- ===== src/Server/Turns.antt =====
-- pkg/server/runtime_manager.go: an agent whose steps and results go to the store.
pub mod Stored
mod Tests
use swarmd.Prelude.{ℕ, String, Bool, true, false, List, Option, none, some, Result, ok, err}
use swarmd.Prelude.Outcomes.{Call, Outcome}
use swarmd.Store.Tables.{Env, Db}
use swarmd.Agent.Types.{GoError, Trigger, AgentStep, ToolAction, TurnResult}
use swarmd.Agent.Host.{Host}
use swarmd.Agent.Decisions.{plain_error}
use swarmd.Agent.Loop.{Return}
use swarmd.Server.Steps.{StepError, handle_step}
use swarmd.Server.Results.{AgentResult, Envelopes, ResultPersister, ServerError, handle_result}

-- A call that leaves the database alone.
abbrev pub beside : {E A W : Type 0} → Db → Outcome E W A → Outcome E (Db × W) A
beside db (r, v) = (r, (db, v))

abbrev pub step_error :
    {W : Type 0}
    → (StepError → GoError)
    → W
    → Result StepError (Unit {0}) × Db
    → Outcome GoError (Db × W) (Unit {0})
step_error describe v (ok u, db) = (ok tt, (db, v))
step_error describe v (err e, db) = (err (describe e), (db, v))

-- `describe` gives the texts of the errors of the store.
module _ {V W : Type 0} (env : Env V) (describe : StepError → GoError) where
  -- `OnStep: StepPersister{…}`
  abbrev pub persist_step : Trigger V → AgentStep → Call GoError (Db × W) (Unit {0})
  persist_step trigger step s = step_error describe s.1 (handle_step env trigger.metadata step s.0)

  abbrev pub handler_beside :
      Option (Trigger V → ToolAction → AgentStep → W → (Option GoError × AgentStep) × W)
      → Option
          (Trigger V → ToolAction → AgentStep → Db × W → (Option GoError × AgentStep) × (Db × W))
  handler_beside none = none
  handler_beside (some invoke) =
      some (λ t tool step s. let o = invoke t tool step s.1 in (o.0, (s.0, o.1)))

  -- The agent of a worker: its driver, shell, tools and files have a state beside the database.
  unfoldable pub worker_host : Host V W → Host V (Db × W)
  worker_host host = record {
    ctx_err = λ s. host.ctx_err s.1;
    now = λ s. host.now s.1;
    dir = λ s. host.dir s.1;
    reset = λ s. (s.0, host.reset s.1);
    next = λ request s. beside s.0 (host.next request s.1);
    log_retry = λ step retry e s. (s.0, host.log_retry step retry e s.1);
    handler = λ name. handler_beside (host.handler name);
    on_step = some persist_step;
    remove_all = λ path s. beside s.0 (host.remove_all path s.1);
    mkdir_all = λ path s. beside s.0 (host.mkdir_all path s.1);
    join = host.join;
    spill_dir = λ s. host.spill_dir s.1;
    set_spill_dir = λ path s. (s.0, host.set_spill_dir path s.1);
    sprint = host.sprint;
    quote = host.quote;
  }

-- What `ResultPersister` reads of a result.
unfoldable pub persisted : {V : Type 0} → TurnResult V → AgentResult V
persisted r = record {
  metadata = r.trigger.metadata;
  status = r.status;
  finished_at = r.finished_at;
  duration = r.duration;
  cwd = r.cwd;
  usage_cached_tokens = r.usage_cached_tokens;
  finish_thought = r.finish_thought;
  value = r.value;
  error = r.error;
}
