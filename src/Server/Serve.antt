-- ===== src/Server/Serve.antt =====
-- pkg/agent/agent.go: `Serve` with the queue and the persisters of pkg/server: a trigger is handled
-- and its result is stored.
mod Taken
pub mod Spoofed
pub mod Again
mod Tests
use swarmd.Prelude.{ℕ, String, Bool, List, [], ◌∷◌, Option, none, some, Result, ok, err}
use swarmd.Prelude.Outcomes.{Call, Outcome}
use swarmd.Store.Tables.{Env, Db}
use swarmd.Agent.Types.{GoError, Trigger, TurnResult}
use swarmd.Agent.Requests.{AgentConfig, Wording}
use swarmd.Agent.Host.{Host}
use swarmd.Agent.Loop.{Return, handle_trigger}
use swarmd.Server.Context.{Metadata}
use swarmd.Server.Steps.{StepError}
use swarmd.Server.Results.{Envelopes, ResultPersister, ServerError, handle_result}
use swarmd.Server.Turns.{worker_host, persisted}
use swarmd.Server.Queue.{MessageQueue, QueueError, Wait, next}

pub data ServeError : Type 0 where
  queue_error : QueueError → ServeError
  turn_error : GoError → ServeError
  result_error : ServerError → ServeError

-- What one turn of the loop of `Serve` sees of the world: the polls of the queue, the store during
-- the turn and behind it, and the clock when the result is stored.
pub record Passing (V : Type 0) : Type 0 where
  pub polls : List (Env V × Wait)
  pub during : Env V
  pub after : Env V
  pub now : ℕ

abbrev pub answered :
    {W : Type 0} → W → Result ServerError (Unit {0}) × Db → Outcome ServeError (Db × W) (Unit {0})
answered v (ok u, db) = (ok tt, (db, v))
answered v (err e, db) = (err (result_error e), (db, v))

module _ {V W : Type 0} (read_metadata : String → Option Metadata) (envelopes : Envelopes V)
    (describe : StepError → GoError) (base : Host V W) (w : Wording V) (a : AgentConfig)
    (q : MessageQueue) (p : ResultPersister) where
  abbrev pub store_result : Passing V → Return V × (Db × W) → Outcome ServeError (Db × W) (Unit {0})
  store_result x ((r, some e), s) = (err (turn_error e), s)
  store_result x ((r, none), s) =
      answered s.1 (handle_result envelopes x.after p x.now (persisted r) s.0)

  -- `HandleTrigger` and `handleResult`
  unfoldable pub serve_trigger : Passing V → Trigger V → Call ServeError (Db × W) (Unit {0})
  unfolding handle_trigger
  serve_trigger x trigger s =
      store_result x (handle_trigger (worker_host x.during describe base) w a trigger s)

  abbrev pub served :
      Passing V
      → W
      → Option (Result QueueError (Trigger V)) × Db
      → Option (Result ServeError (Unit {0})) × (Db × W)
  served x v (none, db) = (none, (db, v))
  served x v (some (err e), db) = (some (err (queue_error e)), (db, v))
  served x v (some (ok trigger), db) = let o = serve_trigger x trigger (db, v) in (some o.0, o.1)

  -- One turn of the loop: none is that the queue still waits.
  unfoldable pub serve_once : Passing V → Db × W → Option (Result ServeError (Unit {0})) × (Db × W)
  unfolding next serve_trigger
  serve_once x s = served x s.1 (next read_metadata q x.polls s.0)

  abbrev pub go_on :
      (Db × W → Option (Result ServeError (Unit {0})) × (Db × W))
      → Option (Result ServeError (Unit {0})) × (Db × W)
      → Option (Result ServeError (Unit {0})) × (Db × W)
  go_on again (some (ok u), s) = again s
  go_on again (o, s) = (o, s)

  -- `Serve`, over the turns that it may make; it returns only with an error.
  unfoldable pub serve :
      List (Passing V) → Db × W → Option (Result ServeError (Unit {0})) × (Db × W)
  unfolding serve_once
  serve [] s = (none, s)
  serve (x ∷ xs) s = go_on (serve xs) (serve_once x s)
